-- ===== src/Vtable/Refinement.antt =====
-- What an InstanceVtable of hooking/src/vtable.cpp promises: the object calls the replacements that were
-- accepted and not taken away since, and its own functions otherwise.
use keel_s.Common.{
  ℕ, zero, suc, ◌<◌, ◌==◌, Bool, true, false, ◌&&◌, List, [], ◌∷◌, length, get_or, set, get_or-set,
  get_or-replicate, if◌then◌else◌, ◌≡◌, ◌⊎◌, refl, sym, ap, ◌∙◌, arith, Bool-cases, inl, inr,
}
use keel_s.Vtable.{is_ok, exchange, InstanceVtable, Access, created, enable, disable, restore}
use keel_s.Vtable.Tables.{count, get_or-overlay, Inv, created-Inv}
use keel_s.Vtable.Hooks.{
  Call, enables, disables, restores, step, run, step-Inv, enable_lem, disable_lem,
}

-- The hooks of an object, as its user sees them: the replacement at each index, 0 where there is none.
abbrev pub Hooks : Type 0
Hooks = ℕ → ℕ

-- A call that was refused changes no hook.
abbrev pub hooks_after : Hooks → Call → Bool → Hooks
hooks_after hooks c false = hooks
hooks_after hooks (enables access index replacement) true =
    λ i. if index == i then replacement else hooks i
hooks_after hooks (disables access index replacement) true = λ i. if index == i then 0 else hooks i
hooks_after hooks (restores access) true = λ i. 0

-- Whether the call was answered by VtableHookResult::ok.
abbrev pub accepted : InstanceVtable → Call → Bool
accepted v (enables access index replacement) = is_ok (enable access v index replacement).0
accepted v (disables access index replacement) = is_ok (disable access v index replacement).0
accepted v (restores access) = is_ok (restore access v).0

-- The hooks after calls, by their answers.
abbrev pub hooks_of : Hooks → InstanceVtable → List Call → Hooks
hooks_of hooks v [] = hooks
hooks_of hooks v (c ∷ calls) = hooks_of (hooks_after hooks c (accepted v c)) (step v c) calls

-- The function that the object calls at an index of its table.
abbrev pub called : InstanceVtable → ℕ → ℕ
called v i = if v.object == v.shadow then get_or v.shadow_entries i 0 else get_or v.entries i 0

-- The object and its user agree on the hooks.
abbrev Agrees : InstanceVtable → Hooks → Type 0
Agrees v hooks = (i : ℕ) → get_or v.replacements i 0 ≡ hooks i

count-none : (rs : List ℕ) (i : ℕ) → count rs ≡ 0 → get_or rs i 0 ≡ 0
count-none [] i h = refl
count-none (r ∷ rs) zero h = ground arith
count-none (r ∷ rs) (suc i) h = ground (arith, count-none rs i)

abbrev restored : Access → InstanceVtable → Bool
restored access v = access.instance_open && access.instance_exchange && v.object == v.shadow

-- Restore is refused, or no hook is left.
restore_lem :
    (access : Access) (v : InstanceVtable)
    → Inv v
    → ((is_ok (restore access v).0 ≡ false) × ((restore access v).1 ≡ v))
      ⊎ ((is_ok (restore access v).0 ≡ true)
          × ((i : ℕ) → get_or (restore access v).1.replacements i 0 ≡ 0))
unfolding restore exchange
restore_lem access v inv = elim (Bool-cases (v.enabled_count == 0)) [
  | inl e ↦
      let empty : count v.replacements ≡ 0 = ground (arith, inv.counted) in
      inr (ground arith, (λ i. rw e (count-none v.replacements i empty)))
  | inr e ↦ elim (Bool-cases (restored access v)) [
    | inl r ↦
        inr (ground arith, (λ i. ground (arith, get_or-replicate {A = ℕ} (length v.entries) i 0)))
    | inr r ↦ inl (ground arith, ground arith)
  ]
]

module _ (v : InstanceVtable) (inv : Inv v) (hooks : Hooks) (agrees : Agrees v hooks) where
  kept-Agrees :
      (c : Call) (b : Bool) (w : InstanceVtable)
      → b ≡ false
      → w ≡ v
      → Agrees w (hooks_after hooks c b)
  kept-Agrees c true w e same = absurd (ground arith)
  kept-Agrees c false w e same = λ i. ap (λ x. get_or x.replacements i 0) same ∙ agrees i

  set-Agrees :
      (index r i : ℕ)
      → index < length v.entries
      → get_or (set v.replacements index r) i 0 ≡ (if index == i then r else hooks i)
  set-Agrees index r i inside =
      get_or-set v.replacements index i r 0 (omega (arith, inv.lengths))
      ∙ ap (λ x. if index == i then r else x) (agrees i)

  step-Agrees : (c : Call) → Agrees (step v c) (hooks_after hooks c (accepted v c))
  unfolding step
  step-Agrees (enables access index r) = elim (enable_lem access v index r inv) [
    | inl (done, e, (inside, n, z)) ↦ λ i.
        ap (λ x. get_or x.replacements i 0) e
        ∙ (set-Agrees index r i inside
            ∙ sym (ap (λ b. hooks_after hooks (enables access index r) b i) (ap is_ok done)))
    | inr (refused, e) ↦ kept-Agrees (enables access index r) _ _ refused e
  ]
  step-Agrees (disables access index r) = elim (disable_lem access v index r inv) [
    | inl (done, e, inside, n) ↦ λ i.
        ap (λ x. get_or x.replacements i 0) e
        ∙ (set-Agrees index 0 i inside
            ∙ sym (ap (λ b. hooks_after hooks (disables access index r) b i) (ap is_ok done)))
    | inr (refused, e) ↦ kept-Agrees (disables access index r) _ _ refused e
  ]
  step-Agrees (restores access) = elim (restore_lem access v inv) [
    | inl (refused, e) ↦ kept-Agrees (restores access) _ _ refused e
    | inr (done, none_left) ↦
        λ i. none_left i ∙ sym (ap (λ b. hooks_after hooks (restores access) b i) done)
  ]

  -- The object calls what the hooks say.
  called-Agrees : (i : ℕ) → called v i ≡ (if hooks i == 0 then get_or v.entries i 0 else hooks i)
  called-Agrees i = elim (Bool-cases (v.object == v.shadow)) [
    | inl e ↦ rw e (
        ap (λ xs. get_or xs i 0) inv.shown
        ∙ (get_or-overlay v.entries v.replacements i inv.lengths
            ∙ ap (λ r. if r == 0 then get_or v.entries i 0 else r) (agrees i)))
    | inr e ↦
        let pointed = inv.pointed in
        let counted = inv.counted in
        let empty : count v.replacements ≡ 0 = ground arith in
        let none_here : hooks i ≡ 0 = sym (agrees i) ∙ count-none v.replacements i empty in
        rw e (rw none_here refl)
  ]

step-entries : (v : InstanceVtable) (c : Call) → (step v c).entries ≡ v.entries
unfolding step enable disable restore exchange
step-entries v (enables access index r) = ground arith
step-entries v (disables access index r) = ground arith
step-entries v (restores access) = ground arith

run-called :
    (v : InstanceVtable) (hooks : Hooks) (calls : List Call) (i : ℕ)
    → Inv v
    → Agrees v hooks
    → called (run v calls) i
      ≡ (if hooks_of hooks v calls i == 0 then get_or v.entries i 0 else hooks_of hooks v calls i)
unfolding run
run-called v hooks [] i inv agrees = called-Agrees v inv hooks agrees i
run-called v hooks (c ∷ calls) i inv agrees =
    let after = hooks_of (hooks_after hooks c (accepted v c)) (step v c) calls in
    run-called (step v c) (hooks_after hooks c (accepted v c)) calls i (step-Inv v c inv)
      (step-Agrees v inv hooks agrees c)
    ∙ ap (λ xs. if after i == 0 then get_or xs i 0 else after i) (step-entries v c)

-- After any calls on a new InstanceVtable, whatever the memory answers, the object calls at every index
-- the replacement that was accepted there last and neither disabled nor restored since, as the answers
-- of the calls tell it, and its own function where there is none.
pub run-created-called :
    (original shadow : ℕ) (entries : List ℕ) (calls : List Call) (i : ℕ)
    → called (run (created original shadow entries) calls) i ≡ (
        if hooks_of (λ n. 0) (created original shadow entries) calls i == 0
        then get_or entries i 0
        else hooks_of (λ n. 0) (created original shadow entries) calls i)
run-created-called original shadow entries calls i =
    run-called (created original shadow entries) (λ n. 0) calls i
      (created-Inv original shadow entries) (λ n. get_or-replicate {A = ℕ} (length entries) n 0)
