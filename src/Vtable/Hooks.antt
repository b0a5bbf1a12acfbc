-- ===== src/Vtable/Hooks.antt =====
-- Enable and Disable of InstanceVtable, hooking/src/vtable.cpp.
use keel_s.Common.{
  ℕ, suc, ◌-◌, ◌<◌, ◌==◌, leb, false, not, ◌||◌, List, [], ◌∷◌, length, get_or, set, length-set,
  if◌then◌else◌, ◌≡◌, ◌≢◌, ◌⊎◌, refl, sym, ap, ◌∙◌, subst, arith, Bool-cases, inl, inr,
}
use keel_s.Vtable.{
  ok, is_ok, exchange, InstanceVtable, Access, created, enabled_at, disabled_at, enable, disable,
  restore,
}
use keel_s.Vtable.Tables.{
  overlay-set, get_or-overlay, set_same, set-set, count-set_more, count-set_less, Inv, created-Inv,
}

-- Where no replacement stands, the copy has the entry.
free_entry :
    (v : InstanceVtable) (index : ℕ)
    → Inv v
    → get_or v.replacements index 0 ≡ 0
    → get_or v.shadow_entries index 0 ≡ get_or v.entries index 0
free_entry v index i z =
    ap (λ xs. get_or xs index 0) i.shown
    ∙ (get_or-overlay v.entries v.replacements index i.lengths ∙ rw z refl)

-- Where one stands, the copy has it.
taken_entry :
    (v : InstanceVtable) (index r : ℕ)
    → Inv v
    → get_or v.replacements index 0 ≡ r
    → r ≢ 0
    → get_or v.shadow_entries index 0 ≡ r
taken_entry v index r i z n =
    ap (λ xs. get_or xs index 0) i.shown
    ∙ (get_or-overlay v.entries v.replacements index i.lengths ∙ ground arith)

rewritten :
    (v : InstanceVtable) (index x : ℕ)
    → get_or v.shadow_entries index 0 ≡ x
    → record v { shadow_entries = set v.shadow_entries index x } ≡ v
rewritten v index x e =
    ap (λ xs. record v { shadow_entries = xs })
      (ap (set v.shadow_entries index) (sym e) ∙ set_same v.shadow_entries index)

-- Whether Enable may go through.
abbrev pub Enables : Access → InstanceVtable → ℕ → ℕ → Type 0
Enables access v index replacement =
    (index < length v.entries) × (replacement ≢ 0) × (get_or v.replacements index 0 ≡ 0)

enabled_at-Inv :
    (v : InstanceVtable) (index r : ℕ)
    → Inv v
    → index < length v.entries
    → r ≢ 0
    → get_or v.replacements index 0 ≡ 0
    → Inv (enabled_at v index r v.shadow)
enabled_at-Inv v index r i h n z = record {
  lengths = length-set v.replacements index r ∙ i.lengths;
  shown =
      ap (λ xs. set xs index r) i.shown
      ∙ sym (overlay-set v.entries v.replacements index r i.lengths ∙ ground arith);
  counted =
      ap suc i.counted ∙ sym (count-set_more v.replacements index r (omega (arith, i.lengths)) z n);
  pointed = ground arith;
}

disabled_at-Inv :
    (v : InstanceVtable) (index object : ℕ)
    → Inv v
    → index < length v.entries
    → get_or v.replacements index 0 ≢ 0
    → object ≡ (if v.enabled_count - 1 == 0 then v.original else v.shadow)
    → Inv (disabled_at v index (get_or v.entries index 0) object)
disabled_at-Inv v index object i h n e = record {
  lengths = length-set v.replacements index 0 ∙ i.lengths;
  shown =
      ap (λ xs. set xs index (get_or v.entries index 0)) i.shown
      ∙ sym (overlay-set v.entries v.replacements index 0 i.lengths);
  counted =
      omega (arith, i.counted, count-set_less v.replacements index (omega (arith, i.lengths)) n);
  pointed = e;
}

-- What Enable does to a hook whose copy is the table with the replacements in place: it goes through and
-- the copy, the replacements and the object are those of the new hook, or it is refused and nothing
-- changes.
pub enable_lem :
    (access : Access) (v : InstanceVtable) (index replacement : ℕ)
    → Inv v
    → (((enable access v index replacement).0 ≡ ok)
        × ((enable access v index replacement).1 ≡ enabled_at v index replacement v.shadow)
        × Enables access v index replacement)
      ⊎ ((is_ok (enable access v index replacement).0 ≡ false)
          × ((enable access v index replacement).1 ≡ v))
unfolding enable exchange
enable_lem access v index replacement i =
    elim (Bool-cases (
      leb (length v.entries) index
      || replacement == 0
      || not (get_or v.replacements index 0 == 0))) [
        | inl e ↦ inr (ground arith)
        | inr e ↦
            let z : get_or v.replacements index 0 ≡ 0 = ground arith in
            let free = free_entry v index i z in
            let same_entry =
              ap (λ xs. record v { shadow_entries = xs })
                (set-set v.shadow_entries index replacement (get_or v.entries index 0))
              ∙ rewritten v index (get_or v.entries index 0) free in
            let same_cell = rewritten v index (get_or v.shadow_entries index 0) refl in
            let pointed = i.pointed in ground arith
      ]

-- The table that the object points at once one hook is gone.
abbrev pub left_object : InstanceVtable → ℕ
left_object v = if v.enabled_count - 1 == 0 then v.original else v.shadow

-- What Disable does to a hook whose copy is the table with the replacements in place: it goes through,
-- the entry stands in the copy again and the object points at its own table once no hook is left, or it
-- is refused and nothing changes, also where it had begun to change the copy.
pub disable_lem :
    (access : Access) (v : InstanceVtable) (index replacement : ℕ)
    → Inv v
    → (((disable access v index replacement).0 ≡ ok)
        × ((disable access v index replacement).1
            ≡ disabled_at v index (get_or v.entries index 0) (left_object v))
        × (index < length v.entries)
        × (get_or v.replacements index 0 ≢ 0))
      ⊎ ((is_ok (disable access v index replacement).0 ≡ false)
          × ((disable access v index replacement).1 ≡ v))
unfolding disable exchange
disable_lem access v index replacement i =
    elim (Bool-cases (
      leb (length v.entries) index
      || replacement == 0
      || not (get_or v.replacements index 0 == replacement))) [
        | inl e ↦ inr (ground arith)
        | inr e ↦
            let z : get_or v.replacements index 0 ≡ replacement = ground arith in
            let n : get_or v.replacements index 0 ≢ 0 = ground arith in
            let taken = taken_entry v index replacement i z (ground arith) in
            let same_cell = rewritten v index (get_or v.shadow_entries index 0) refl in
            let same_replacement = rewritten v index replacement taken in
            let pointed = i.pointed in
            let within : index < length v.entries = ground arith in
            let inside : index < length v.replacements = omega (arith, i.lengths) in
            let fewer = count-set_less v.replacements index inside n in
            let some_hook : v.enabled_count ≢ 0 = omega (arith, fewer, i.counted) in ground arith
      ]

-- Restore changes nothing, or leaves the hook as it was created.
pub restore_cases :
    (access : Access) (v : InstanceVtable)
    → ((restore access v).1 ≡ v) ⊎ ((restore access v).1 ≡ created v.original v.shadow v.entries)
unfolding restore exchange
restore_cases access v = ground arith

pub data Call : Type 0 where
  enables : Access → ℕ → ℕ → Call
  disables : Access → ℕ → ℕ → Call
  restores : Access → Call

unfoldable pub step : InstanceVtable → Call → InstanceVtable
step v (enables access index replacement) = (enable access v index replacement).1
step v (disables access index replacement) = (disable access v index replacement).1
step v (restores access) = (restore access v).1

unfoldable pub run : InstanceVtable → List Call → InstanceVtable
run v [] = v
run v (c ∷ calls) = run (step v c) calls

pub step-Inv : (v : InstanceVtable) (c : Call) → Inv v → Inv (step v c)
unfolding step
step-Inv v (enables access index replacement) i = elim (enable_lem access v index replacement i) [
  | inl (done, e, (inside, n, z)) ↦
      subst Inv (sym e) (enabled_at-Inv v index replacement i inside n z)
  | inr (refused, e) ↦ subst Inv (sym e) i
]
step-Inv v (disables access index replacement) i = elim (disable_lem access v index replacement i) [
  | inl (done, e, inside, n) ↦
      subst Inv (sym e) (disabled_at-Inv v index (left_object v) i inside n refl)
  | inr (refused, e) ↦ subst Inv (sym e) i
]
step-Inv v (restores access) i = elim (restore_cases access v) [
  | inl e ↦ subst Inv (sym e) i
  | inr e ↦ subst Inv (sym e) (created-Inv v.original v.shadow v.entries)
]

pub run-Inv : (v : InstanceVtable) (calls : List Call) → Inv v → Inv (run v calls)
unfolding run
run-Inv v [] i = i
run-Inv v (c ∷ calls) i = run-Inv (step v c) calls (step-Inv v c i)

-- After any calls on a new InstanceVtable, refused ones included, the copy is the object's table with
-- the replacements in place, the counter is their number, and the object points at the copy while there
-- are some and at its own table otherwise.
pub run-created-Inv :
    (original shadow : ℕ) (entries : List ℕ) (calls : List Call)
    → Inv (run (created original shadow entries) calls)
run-created-Inv original shadow entries calls =
    run-Inv (created original shadow entries) calls (created-Inv original shadow entries)
