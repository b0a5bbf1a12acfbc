-- ===== src/Lifecycle/Checks.antt =====
-- Two plugins that listen to the game's frames, and the theorems of the lifecycle service at them.
use keel_s.Common.{ℕ, true, false, List, [], ◌∷◌, some, ok, ◌≡◌, refl, arith}
use keel_s.Plugins.{Host, Plugin, loaded, no_diagnostic, plugin_by_handle}
use keel_s.Lifecycle.{
  Service, Subscription, SubscriptionSpec, Adapter, Event, new_service, valid_event, dispatch,
  dispatch_loop, subscribe, ensure_event, release_plugin, deactivate,
}
use keel_s.Lifecycle.Calls.{Call, subscribes, activates, step, run}
use keel_s.Lifecycle.Invariant.{Inv, run-new_service-Inv}
use keel_s.Lifecycle.Order.{Sorted, dispatch-Sorted, dispatch_quiet}
use keel_s.Lifecycle.Release.{Absent, release_plugin-dispatch}

abbrev running : ℕ → Plugin
running handle = record {
  handle = handle;
  library_open = true;
  load = true;
  unload = true;
  prepare_pause = false;
  prepare_pause_active = false;
  prepare_unload = false;
  prepare_unload_active = false;
  file = [];
  name = [];
  version = [];
  diagnostic = no_diagnostic;
  dependencies = [];
  state = loaded;
  selectable = true;
  accepting_resources = true;
  is_starting = false;
  transitioning = false;
  cleanup_pending = false;
  cleanup_callback_active = false;
  factory_dispatch_enabled = true;
  active_native_operations = 0;
}

abbrev host : Host
host = record {
  plugins = running 1 ∷ running 2 ∷ [];
  disabled_plugins = [];
  commands = [];
  retired_commands = [];
  load_order = 1 ∷ 2 ∷ [];
  next_plugin = 3;
  accepting_resources = true;
}

abbrev adapter : Adapter
adapter = record { is_game_thread = true; enable_lifecycle_event = λ event. ok }

abbrev frames : SubscriptionSpec
frames = record { size = 32; event = 1; reserved = 0; callback = 9; user_data = 0 }

abbrev frame : Event
frame = record { size = 24; kind = 1; payload_size = 16; reserved = 0; payload = true }

abbrev history : List Call
history =
    subscribes host adapter 1 (some frames) true ∷ subscribes host adapter 2 (some frames) true ∷ []

-- The two subscriptions that the history leaves.
abbrev subscription : ℕ → Subscription
subscription n = record {
  handle = n;
  owner = n;
  event = 1;
  callback = 9;
  user_data = 0;
  sequence = n;
  enabled = true;
}

history_subscribes : (run new_service history).subscriptions ≡ subscription 1 ∷ subscription 2 ∷ []
unfolding run step subscribe ensure_event valid_event plugin_by_handle
history_subscribes = refl

run-new_service-Inv_example : Inv (run new_service history)
run-new_service-Inv_example = run-new_service-Inv history

-- The first callback releases the second plugin.
abbrev releases_second : List Subscription → Service → Subscription → Service
releases_second stack s c = (release_plugin stack s 2).1

dispatch-Sorted_example :
    Sorted (dispatch (λ e t. t) releases_second [] (run new_service history) frame).1
dispatch-Sorted_example =
    dispatch-Sorted (λ e t. t) releases_second [] (run new_service history) frame

-- The second plugin is not called any more.
release_in_callback :
    (dispatch (λ e t. t) releases_second [] (run new_service history) frame).1 ≡ subscription 1 ∷ []
unfolding dispatch dispatch_loop run step subscribe ensure_event valid_event plugin_by_handle
    release_plugin deactivate
release_in_callback = refl

dispatch_quiet_example :
    dispatch (λ e t. t) (λ st t c. t) [] (run new_service history) frame
    ≡ (run new_service history, subscription 1 ∷ subscription 2 ∷ [])
unfolding run step subscribe ensure_event valid_event plugin_by_handle
dispatch_quiet_example =
    dispatch_quiet (λ st t c. t) [] (run new_service history) frame (run-new_service-Inv history)
      refl refl (omega arith) (λ st t c. refl)

release_plugin-dispatch_example :
    Absent 2
      (dispatch
        (λ e t. run t [])
        (λ st t c. t)
        []
        (run (release_plugin [] (run new_service history) 2).1 (activates 2 ∷ []))
        frame).1
unfolding release_plugin deactivate
release_plugin-dispatch_example =
    release_plugin-dispatch [] [] (run new_service history) 2 (activates 2 ∷ []) [] (λ st t c. t)
      frame refl refl refl
