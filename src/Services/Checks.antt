-- ===== src/Services/Checks.antt =====
-- Two plugins and a service, and the theorems of the published services at them.
use keel_s.Common.{ℕ, ◌≡◌, refl, true, false, List, [], ◌∷◌, Option, some, arith, ok}
use keel_s.Text.{Bytes, tolower, isalnum, isdigit}
use keel_s.ServiceName.{canonical_service_name, service_character}
use keel_s.Plugins.{Host, Plugin, loaded, no_diagnostic, plugin_by_handle}
use keel_s.Services.{
  ServiceSpec, new_registry, publish, query, release_plugin, text_eq, has_leased_publication,
}
use keel_s.Services.Calls.{Call, publishes, withdraws, queries, departs, step, run}
use keel_s.Services.Invariant.{Inv, run_new-Inv}
use keel_s.Services.Leases.{leased, run-leased}
use keel_s.Services.Answers.{published_query, release_plugin_lem}

abbrev running : ℕ → Plugin
running handle = record {
  handle = handle;
  library_open = true;
  load = true;
  unload = true;
  prepare_pause = false;
  prepare_pause_active = false;
  prepare_unload = false;
  prepare_unload_active = false;
  file = [];
  name = [];
  version = [];
  diagnostic = no_diagnostic;
  dependencies = [];
  state = loaded;
  selectable = true;
  accepting_resources = true;
  is_starting = false;
  transitioning = false;
  cleanup_pending = false;
  cleanup_callback_active = false;
  factory_dispatch_enabled = true;
  active_native_operations = 0;
}

abbrev host : Host
host = record {
  plugins = running 1 ∷ running 2 ∷ [];
  disabled_plugins = [];
  commands = [];
  retired_commands = [];
  load_order = 1 ∷ 2 ∷ [];
  next_plugin = 3;
  accepting_resources = true;
}

-- "bank" and "Bank".
abbrev bank : Bytes
bank = b'b' ∷ b'a' ∷ b'n' ∷ b'k' ∷ []

abbrev bank_spec : ServiceSpec
bank_spec = record { size = 24; version = 1; name = some bank; service = 77 }

abbrev spoken_bank : Option Bytes
spoken_bank = some (b'B' ∷ b'a' ∷ b'n' ∷ b'k' ∷ [])

-- Plugin 1 publishes, plugin 2 takes a lease.
abbrev history : List (Host × Call)
history = (host, publishes 1 (some bank_spec) true) ∷ (host, queries 2 spoken_bank 1 true) ∷ []

run_new-Inv_example : Inv (run new_registry history)
run_new-Inv_example = run_new-Inv history

run-leased_example :
    leased (run (run new_registry history) ((host, withdraws 1 1) ∷ (host, departs 1) ∷ [])) 1 2
    ≡ true
unfolding run step publish query canonical_service_name service_character isalnum isdigit tolower
    plugin_by_handle text_eq
run-leased_example =
    run-leased (run new_registry history) ((host, withdraws 1 1) ∷ (host, departs 1) ∷ []) 1 2
      (run_new-Inv history) (omega arith, (λ e. cc), (omega arith, (λ e. cc), tt)) refl

published_query_example :
    (query host (publish host new_registry 1 (some bank_spec) true).1 2 spoken_bank 1 true).2
    ≡ some 77
unfolding canonical_service_name service_character isalnum isdigit tolower plugin_by_handle run
published_query_example =
    (published_query host host new_registry 1 2 bank_spec spoken_bank (run_new-Inv []) refl refl
      (omega arith) refl).2

release_plugin_lem_example : (release_plugin (run new_registry history) 2).0 ≡ ok
unfolding run step publish query canonical_service_name service_character isalnum isdigit tolower
    plugin_by_handle text_eq has_leased_publication
release_plugin_lem_example =
    (release_plugin_lem (run new_registry history) 2 (run_new-Inv history) refl).0
