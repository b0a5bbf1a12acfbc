-- ===== src/Lifecycle.antt =====
-- host/src/lifecycle_service.h and .cpp: the subscriptions of plugins to the events of the game.
-- The map is a list in the order of insertion. The callbacks that the thread is in are a list of
-- subscriptions, the innermost first. Operations wait until no other thread is in the callbacks that
-- they end, so each is one step.
pub mod Calls
pub mod Invariant
pub mod Order
pub mod Release
mod Checks
use keel_s.Common.{
  ℕ, suc, ◌+◌, ◌%◌, ◌==◌, ltb, leb, Bool, true, false, ◌&&◌, ◌||◌, not, List, [], ◌∷◌, ◌++◌, Option,
  none, some, map, find, filter, any, length, if◌then◌else◌, u64_mod, KeelResult, ok, is_ok,
  invalid_argument, not_ready, not_found, engine_failure, busy, wrong_thread,
}
use keel_s.Plugins.{Host, Plugin, plugin_by_handle, is_loaded}

-- LifecycleService::Subscription, but for the counter of threads. The callback is a number, null is 0.
pub record Subscription : Type 0 where
  pub handle : ℕ
  pub owner : ℕ
  pub event : ℕ
  pub callback : ℕ
  pub user_data : ℕ
  pub sequence : ℕ
  pub enabled : Bool

-- The fields of LifecycleService; `installed` holds the events whose flag is set.
pub record Service : Type 0 where
  pub subscriptions : List Subscription
  pub installed : List ℕ
  pub next_subscription : ℕ
  pub next_sequence : ℕ
  pub shutting_down : Bool
  pub shutdown_complete : Bool

abbrev pub new_service : Service
new_service = record {
  subscriptions = [];
  installed = [];
  next_subscription = 1;
  next_sequence = 1;
  shutting_down = false;
  shutdown_complete = false;
}

-- KeelLifecycleSubscriptionSpec.
pub record SubscriptionSpec : Type 0 where
  pub size : ℕ
  pub event : ℕ
  pub reserved : ℕ
  pub callback : ℕ
  pub user_data : ℕ

-- KeelLifecycleEvent, with whether it has a payload.
pub record Event : Type 0 where
  pub size : ℕ
  pub kind : ℕ
  pub payload_size : ℕ
  pub reserved : ℕ
  pub payload : Bool

abbrev pub sizeof_spec : ℕ
sizeof_spec = 32

abbrev pub sizeof_event : ℕ
sizeof_event = 24

abbrev pub game_frame : ℕ
game_frame = 1

abbrev pub client_settings_changed : ℕ
client_settings_changed = 7

-- The answers of the game adapter.
pub record Adapter : Type 0 where
  pub is_game_thread : Bool
  pub enable_lifecycle_event : ℕ → KeelResult

unfoldable pub valid_event : ℕ → Bool
valid_event event = leb game_frame event && leb event client_settings_changed

unfoldable pub ensure_event : Adapter → Service → ℕ → KeelResult × Service
ensure_event adapter s event =
    let result = adapter.enable_lifecycle_event event in
    if not (valid_event event)
    then (invalid_argument, s)
    else if s.shutting_down
    then (not_ready, s)
    else if any (λ e. e == event) s.installed
    then (ok, s)
    else if not adapter.is_game_thread
    then (wrong_thread, s)
    else if not (is_ok result)
    then (result, s)
    else (ok, record s { installed = event ∷ s.installed })

-- Writes the flag of every subscription of the plugin.
abbrev pub enable_owned : ℕ → Bool → List Subscription → List Subscription
enable_owned plugin enabled [] = []
enable_owned plugin enabled (c ∷ subscriptions) =
    (if c.owner == plugin then record c { enabled = enabled } else c)
    ∷ enable_owned plugin enabled subscriptions

unfoldable pub activate : Service → ℕ → Service
activate s plugin =
    if s.shutting_down
    then s
    else record s { subscriptions = enable_owned plugin true s.subscriptions }

abbrev pub is_current_owner : List Subscription → ℕ → Bool
is_current_owner stack plugin = any (λ c. c.owner == plugin) stack

abbrev pub is_current_callback : List Subscription → ℕ → Bool
is_current_callback stack handle = any (λ c. c.handle == handle) stack

unfoldable pub deactivate : List Subscription → Service → ℕ → KeelResult × Service
deactivate stack s plugin =
    if is_current_owner stack plugin
    then (busy, s)
    else (ok, record s { subscriptions = enable_owned plugin false s.subscriptions })

unfoldable pub release_plugin : List Subscription → Service → ℕ → KeelResult × Service
release_plugin stack s plugin =
    let (result, s') = deactivate stack s plugin in
    if not (is_ok result)
    then (result, s')
    else (ok, record s' { subscriptions = filter (λ c. not (c.owner == plugin)) s'.subscriptions })

-- Whether it completed: inside a callback it only disables.
unfoldable pub shutdown : List Subscription → Service → Bool × Service
shutdown stack s =
    let stopped : Service = record s {
      shutting_down = true;
      subscriptions = map {A = Subscription} (λ c. record c { enabled = false }) s.subscriptions;
    } in
    if s.shutdown_complete
    then (true, s)
    else if any (λ c. is_current_callback stack c.handle) s.subscriptions
    then (false, stopped)
    else (true, record stopped { subscriptions = []; shutdown_complete = true })

abbrev pub accepts : Option Plugin → Bool
accepts none = false
accepts (some owner) = owner.accepting_resources

-- `owner->state == PluginState::loaded && !owner->loading`.
abbrev pub runs : Option Plugin → Bool
runs none = false
runs (some owner) = is_loaded owner.state && not owner.is_starting

abbrev pub add_subscription : Service → Subscription → Service
add_subscription s c = record s {
  next_subscription = (s.next_subscription + 1) % u64_mod;
  next_sequence = (s.next_sequence + 1) % u64_mod;
  subscriptions = s.subscriptions ++ c ∷ [];
}

-- The second half of Subscribe, when the event is installed.
abbrev pub subscribe_installed :
    Host → Service → ℕ → SubscriptionSpec → KeelResult × Service × Option ℕ
subscribe_installed host s plugin spec =
    let owner = plugin_by_handle host plugin in
    let subscription : Subscription = record {
      handle = s.next_subscription;
      owner = plugin;
      event = spec.event;
      callback = spec.callback;
      user_data = spec.user_data;
      sequence = s.next_sequence;
      enabled = runs owner;
    } in
    if s.shutting_down || not host.accepting_resources || not (accepts owner)
    then (not_ready, s, some 0)
    else if s.next_subscription == 0 || s.next_sequence == 0
    then (engine_failure, s, some 0)
    else (ok, add_subscription s subscription, some s.next_subscription)

-- Subscribe. The third part is what is written to `*output`; `wanted` is whether the pointer is not
-- null.
unfoldable pub subscribe :
    Host → Adapter → Service → ℕ → Option SubscriptionSpec → Bool → KeelResult × Service × Option ℕ
subscribe host adapter s plugin none wanted = (invalid_argument, s, none)
subscribe host adapter s plugin (some spec) wanted =
    let (installed, s') = ensure_event adapter s spec.event in
    if not (spec.size == sizeof_spec)
      || not wanted
      || not (valid_event spec.event)
      || not (spec.reserved == 0)
      || spec.callback == 0
    then (invalid_argument, s, none)
    else if not (is_ok installed)
    then (installed, s', some 0)
    else subscribe_installed host s' plugin spec

-- Writes the flag of the subscription with the handle.
abbrev pub disable : ℕ → List Subscription → List Subscription
disable handle [] = []
disable handle (c ∷ subscriptions) =
    (if c.handle == handle then record c { enabled = false } else c) ∷ disable handle subscriptions

-- What Unsubscribe does with the subscription that it finds.
abbrev pub end_subscription :
    List Subscription → Service → ℕ → ℕ → Option Subscription → KeelResult × Service
end_subscription stack s plugin handle none = (not_found, s)
end_subscription stack s plugin handle (some c) =
    if not (c.owner == plugin)
    then (not_found, s)
    else if is_current_callback stack handle
    then (busy, record s { subscriptions = disable handle s.subscriptions })
    else (ok, record s { subscriptions = filter (λ d. not (d.handle == handle)) s.subscriptions })

unfoldable pub unsubscribe : List Subscription → Service → ℕ → ℕ → KeelResult × Service
unsubscribe stack s plugin handle =
    end_subscription stack s plugin handle (find (λ c. c.handle == handle) s.subscriptions)

-- std::sort by the sequence.
abbrev pub insert_by_sequence : Subscription → List Subscription → List Subscription
insert_by_sequence c [] = c ∷ []
insert_by_sequence c (d ∷ rest) =
    let later = insert_by_sequence c rest in
    if ltb d.sequence c.sequence then d ∷ later else c ∷ d ∷ rest

abbrev pub sort_by_sequence : List Subscription → List Subscription
sort_by_sequence [] = []
sort_by_sequence (c ∷ rest) = insert_by_sequence c (sort_by_sequence rest)

-- The subscriptions that Dispatch collects.
abbrev pub interested : ℕ → Subscription → Bool
interested kind c = c.event == kind && c.enabled

-- The flag of a subscription that was collected; one that is gone from the map was disabled before.
abbrev pub still_enabled : Service → ℕ → Bool
still_enabled s handle = any (λ c. c.handle == handle && c.enabled) s.subscriptions

abbrev pub stack_capacity : ℕ
stack_capacity = 64

-- What a callback does to the service: plugin code, which may call back into it. It gets the stack that
-- it runs on. An exception out of it is caught, so that it changes no more than a return does.
abbrev pub Callbacks : Type 0
Callbacks = List Subscription → Service → Subscription → Service

-- The loop over the callbacks. It hands out those that were called, in their order.
unfoldable pub dispatch_loop :
    Callbacks → List Subscription → List Subscription → Service → Service × List Subscription
dispatch_loop plugins stack [] s = (s, [])
dispatch_loop plugins stack (c ∷ rest) s =
    let calls = still_enabled s c.handle && not (length stack == stack_capacity) in
    let s' = if calls then plugins (c ∷ stack) s c else s in
    let (s'', called) = dispatch_loop plugins stack rest s' in
    (s'', if calls then c ∷ called else called)

abbrev pub valid_dispatch : Event → Bool
valid_dispatch event =
    event.size == sizeof_event
    && valid_event event.kind
    && event.reserved == 0
    && event.payload
    && not (event.payload_size == 0)

-- Dispatch. `before` is what the player service and the deferred commands do to the service first.
unfoldable pub dispatch :
    (Event → Service → Service)
    → Callbacks
    → List Subscription
    → Service
    → Event
    → Service × List Subscription
dispatch before plugins stack s event =
    let s' = before event s in
    if not (valid_dispatch event)
    then (s, [])
    else if s'.shutting_down
    then (s', [])
    else dispatch_loop plugins stack
        (sort_by_sequence (filter (interested event.kind) s'.subscriptions)) s'
