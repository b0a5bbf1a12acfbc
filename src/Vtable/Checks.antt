-- ===== src/Vtable/Checks.antt =====
-- An object with a table of two functions, and the theorems of the hooks at it.
use keel_s.Common.{true, false, List, [], ◌∷◌, ◌≡◌, refl, ◌==◌, if◌then◌else◌}
use keel_s.Vtable.{
  invalid, InstanceVtable, Access, Protection, SharedVtableHook, created, enable, disable, exchange,
  enable_shared, disable_shared, compare_exchange, exchange_protected,
}
use keel_s.Vtable.Tables.{Inv, shared_refused}
use keel_s.Vtable.Refinement.{called, hooks_of, run-created-called}
use keel_s.Vtable.Hooks.{Call, enables, disables, step, run, run-created-Inv}

abbrev access : Access
access = record { instance_open = true; instance_exchange = true; shadow_open = true }

-- The object's table is at 100 and the copy at 200.
abbrev object : InstanceVtable
object = created 100 200 (11 ∷ 12 ∷ [])

abbrev calls : List Call
calls = enables access 0 21 ∷ enables access 1 22 ∷ disables access 0 21 ∷ []

one_hook_left : (run object calls).shadow_entries ≡ 11 ∷ 22 ∷ []
unfolding run step enable disable exchange
one_hook_left = refl

run-created-called_example :
    called (run object calls) 1
    ≡ (if hooks_of (λ n. 0) object calls 1 == 0 then 12 else hooks_of (λ n. 0) object calls 1)
run-created-called_example = run-created-called 100 200 (11 ∷ 12 ∷ []) calls 1

run-created-Inv_example : Inv (run object calls)
run-created-Inv_example = run-created-Inv 100 200 (11 ∷ 12 ∷ []) calls

-- The first function is replaced.
abbrev hooked : InstanceVtable
hooked = run object (enables access 0 21 ∷ [])

-- The page was made writable, and its protection cannot be put back.
abbrev stuck : Protection
stuck = record { readable = true; changed = true; restored = false }

abbrev hook : SharedVtableHook
hook = record { original = 11; replacement = 21; enabled = false; slot = 11 }

abbrev hook_on : SharedVtableHook
hook_on = record { original = 11; replacement = 21; enabled = true; slot = 21 }

shared_refused_example :
    ((enable_shared stuck hook).1 ≡ hook) × ((disable_shared stuck hook_on).1 ≡ hook_on)
unfolding enable_shared disable_shared exchange_protected compare_exchange
shared_refused_example = shared_refused stuck stuck hook hook_on refl refl

-- The object's page is closed between the first look at it and the exchange of its table pointer.
abbrev closing : Access
closing = record { instance_open = true; instance_exchange = false; shadow_open = true }

enable_is_undone : enable closing object 0 21 ≡ (invalid, object)
unfolding enable exchange
enable_is_undone = refl

disable_is_undone : disable closing hooked 0 21 ≡ (invalid, hooked)
unfolding run step enable disable exchange
disable_is_undone = refl
