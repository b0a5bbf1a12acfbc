-- ===== src/Players/Invariant.antt =====
-- What holds of the registry of host/src/player_registry.cpp after any calls: no connection number is
-- in two slots, and none comes back.
use keel_s.Common.{
  ◌∙◌, ◌↔◌, subst, sym, ℕ, ◌<◌, ◌≡◌, ◌≢◌, ◌⊎◌, inl, inr, true, false, List, [], ◌∷◌, some, length,
  get_or, get_or-set, length-set, get_or-replicate, arith, u64_mod, Bool-cases,
}
use keel_s.Common.Int.{ℤ, to_index}
use keel_s.Players.{Registry, PlayerConnection, empty_entry, valid_slot, create, current}
use keel_s.Players.Connections.{Call, step, run, conn, Change, nothing, write, issue, step-Change}

-- The number was given out before.
abbrev pub Issued : Registry → ℕ → Type 0
Issued r g = (r.next_generation ≡ 0) ⊎ (g < r.next_generation)

pub record Inv (r : Registry) : Type 0 where
  pub counter : r.next_generation < u64_mod
  pub issued : (i : ℕ) → Issued r (conn r i)
  pub distinct : (i j : ℕ) → conn r i ≢ 0 → conn r i ≡ conn r j → i ≡ j
  pub quiet : (i : ℕ) → (get_or r.entries i empty_entry).disconnecting ≡ true → conn r i ≡ 0

pub create-Inv : (capacity : ℕ) (r : Registry) → create capacity ≡ some r → Inv r
unfolding create
create-Inv capacity r h = record {
  counter = ground arith;
  issued = λ i. ground (arith, get_or-replicate capacity i empty_entry);
  distinct = λ i j n e. ground (arith, get_or-replicate capacity i empty_entry);
  quiet = λ i d. ground (arith, get_or-replicate capacity i empty_entry);
}

Change-Inv : (r r' : Registry) → Change r r' → Inv r → Inv r'
Change-Inv r r' (nothing e) v = subst Inv (sym e) v
Change-Inv r r' (write i e b keeps es ns) v = record {
  counter = ground (arith, v.counter);
  issued = λ j. ground (arith, v.issued j, v.issued i, get_or-set r.entries i j e empty_entry b);
  distinct = λ j k n q. ground (
    arith,
    v.distinct j k,
    v.distinct i k,
    v.distinct j i,
    get_or-set r.entries i j e empty_entry b,
    get_or-set r.entries i k e empty_entry b,
  );
  quiet = λ j d. ground (arith, v.quiet j, get_or-set r.entries i j e empty_entry b);
}
Change-Inv r r' (issue i e b nz c d es ns) v = record {
  counter = ground (arith, v.counter);
  issued = λ j. ground (arith, v.counter, v.issued j, get_or-set r.entries i j e empty_entry b);
  distinct = λ j k n q. ground (
    arith,
    v.distinct j k,
    v.issued j,
    v.issued k,
    get_or-set r.entries i j e empty_entry b,
    get_or-set r.entries i k e empty_entry b,
  );
  quiet = λ j q. ground (arith, v.quiet j, get_or-set r.entries i j e empty_entry b);
}

pub step-Inv : (r : Registry) (c : Call) → Inv r → Inv (step r c)
step-Inv r c v = Change-Inv r (step r c) (step-Change r c) v

run-Inv : (r : Registry) (calls : List Call) → Inv r → Inv (run r calls)
unfolding run
run-Inv r [] v = v
run-Inv r (c ∷ calls) v = run-Inv (step r c) calls (step-Inv r c v)

-- After any calls on a new registry every connection number was issued, no number is in two slots,
-- and a slot whose player is leaving has none.
pub run-create-Inv :
    (capacity : ℕ) (r : Registry) (calls : List Call) → create capacity ≡ some r → Inv (run r calls)
run-create-Inv capacity r calls h = run-Inv r calls (create-Inv capacity r h)

Change-length : (r r' : Registry) → Change r r' → length r'.entries ≡ length r.entries
Change-length r r' (nothing e) = ground arith
Change-length r r' (write i e b keeps es ns) = ground (arith, length-set r.entries i e)
Change-length r r' (issue i e b nz c d es ns) = ground (arith, length-set r.entries i e)

Issued-kept :
    (r r' : Registry) (g : ℕ) → Change r r' → r.next_generation < u64_mod → Issued r g → Issued r' g
Issued-kept r r' g (nothing e) c h = subst (λ s. Issued s g) (sym e) h
Issued-kept r r' g (write j e b keeps es ns) c h = ground arith
Issued-kept r r' g (issue j e b nz k d es ns) c h = ground arith

-- The connection is not in its slot, and its number was issued.
abbrev Gone : Registry → ℕ → ℕ → Type 0
Gone r i g = (conn r i ≢ g) × Issued r g

Change-Gone :
    (r r' : Registry) (i g : ℕ)
    → Change r r'
    → r.next_generation < u64_mod
    → g ≢ 0
    → Gone r i g
    → Gone r' i g
Change-Gone r r' i g (nothing e) c n h = subst (λ s. Gone s i g) (sym e) h
Change-Gone r r' i g (write j e b keeps es ns) c n h =
    ground (arith, get_or-set r.entries j i e empty_entry b)
Change-Gone r r' i g (issue j e b nz k d es ns) c n h =
    ground (arith, get_or-set r.entries j i e empty_entry b)

-- Under the invariant a connection is current exactly while its number is in its slot.
abbrev IsHere : Registry → PlayerConnection → Type 0
IsHere r c =
    (valid_slot r c.slot ≡ true)
    × (c.reserved ≡ 0)
    × (c.generation ≢ 0)
    × (conn r (to_index c.slot) ≡ c.generation)

pub current-IsHere :
    (r : Registry) (c : PlayerConnection) → Inv r → (current r c ≡ true) ↔ IsHere r c
unfolding current
current-IsHere r c v = (λ h. ground arith, λ h. ground (arith, v.quiet (to_index c.slot)))

pub valid_slot_kept :
    (r r' : Registry) (slot : ℤ) → Change r r' → valid_slot r' slot ≡ valid_slot r slot
unfolding valid_slot
valid_slot_kept r r' slot c = ground (arith, Change-length r r' c)

not_revived :
    (r r' : Registry) (c : PlayerConnection)
    → Change r r'
    → Inv r
    → Issued r c.generation
    → current r c ≡ false
    → IsHere r' c
    → ⊥
not_revived r r' c change v issued stale (valid, reserved, nonzero, here) =
    let gone : conn r (to_index c.slot) ≢ c.generation = λ e. cc (
      stale,
      (current-IsHere r c v).1
          (sym (valid_slot_kept r r' c.slot change) ∙ valid, reserved, nonzero, e),
    ) in
    (Change-Gone r r' (to_index c.slot) c.generation change v.counter nonzero (gone, issued)).0 here

step_stale :
    (r : Registry) (call : Call) (c : PlayerConnection)
    → Inv r
    → Issued r c.generation
    → current r c ≡ false
    → Issued (step r call) c.generation × (current (step r call) c ≡ false)
step_stale r call c v issued stale =
    let change = step-Change r call in
    elim (Bool-cases (current (step r call) c)) [
      | inr dead ↦ (Issued-kept r (step r call) c.generation change v.counter issued, dead)
      | inl alive ↦ absurd (
          not_revived r (step r call) c change v issued stale
            ((current-IsHere (step r call) c (step-Inv r call v)).0 alive))
    ]

-- A connection that is not current and whose number was issued is never current again, whatever
-- calls follow: a stale connection stays stale.
pub run_stale :
    (r : Registry) (calls : List Call) (c : PlayerConnection)
    → Inv r
    → Issued r c.generation
    → current r c ≡ false
    → current (run r calls) c ≡ false
unfolding run
run_stale r [] c v issued stale = stale
run_stale r (call ∷ calls) c v issued stale =
    let (issued', stale') = step_stale r call c v issued stale in
    run_stale (step r call) calls c (step-Inv r call v) issued' stale'
