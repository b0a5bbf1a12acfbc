-- ===== src/Players/Leaving.antt =====
-- A slot after Disconnected of host/src/player_registry.cpp.
use keel_s.Common.{
  ◌≡◌, refl, ◌∙◌, Bool, true, false, List, [], ◌∷◌, Option, none, some, get_or-set, arith,
  Bool-cases, inl, inr, not_found,
}
use keel_s.Common.Int.{int_eq_refl, ℤ, pos, negsuc, int_eq}
use keel_s.Text.{Bytes}
use keel_s.Players.{
  Registry, Entry, PlayerInfo, empty_entry, entry_at, put_entry, valid_slot, valid_facts, update,
  connected, disconnected, missing, pending, updated_entry, accepted_entry, refused_entry,
}
use keel_s.Players.Connections.{
  Call, connects, disconnects, misses, updates, step, run, step-Change,
}
use keel_s.Players.Invariant.{valid_slot_kept}

-- A slot that was disconnected and not connected again since.
abbrev pub left_entry : Entry
left_entry = record empty_entry { disconnecting = true }

-- The calls open no connection in the slot.
abbrev pub NoConnect : ℤ → List Call → Type 0
NoConnect slot [] = Unit
NoConnect slot (connects at name bot ∷ calls) = (int_eq at slot ≡ false) × NoConnect slot calls
NoConnect slot (disconnects at ∷ calls) = NoConnect slot calls
NoConnect slot (misses at ∷ calls) = NoConnect slot calls
NoConnect slot (updates facts ∷ calls) = NoConnect slot calls

-- The slot exists and its player has left.
abbrev pub HasLeft : Registry → ℤ → Type 0
HasLeft r slot = (valid_slot r slot ≡ true) × (entry_at r slot ≡ left_entry)

put_elsewhere :
    (r : Registry) (slot at : ℤ) (e : Entry)
    → valid_slot r at ≡ true
    → valid_slot r slot ≡ true
    → int_eq at slot ≡ false
    → entry_at (put_entry r at e) slot ≡ entry_at r slot
unfolding valid_slot
put_elsewhere r (negsuc s) at e v w n = ground arith
put_elsewhere r (pos s) (negsuc a) e v w n = ground arith
put_elsewhere r (pos s) (pos a) e v w n = ground (arith, get_or-set r.entries a s e empty_entry)

connected_left :
    (r : Registry) (slot at : ℤ) (name : Option Bytes) (bot : Bool)
    → int_eq at slot ≡ false
    → HasLeft r slot
    → entry_at (connected r at name bot).1 slot ≡ left_entry
unfolding connected
connected_left r slot at none bot n h = h.1
connected_left r slot at (some name) bot n h = ground (
  arith,
  put_elsewhere r slot at (refused_entry at),
  put_elsewhere r slot at (accepted_entry at r.next_generation name bot),
)

put_here :
    (r : Registry) (slot at : ℤ) (e : Entry)
    → valid_slot r at ≡ true
    → int_eq at slot ≡ true
    → entry_at (put_entry r at e) slot ≡ e
unfolding valid_slot
put_here r (pos s) (pos a) e v n = ground (arith, get_or-set r.entries a s e empty_entry)
put_here r (negsuc s) (negsuc a) e v n = ground arith
put_here r (pos s) (negsuc a) e v n = ground arith
put_here r (negsuc s) (pos a) e v n = ground arith

same_entry : (r : Registry) (slot at : ℤ) → int_eq at slot ≡ true → entry_at r at ≡ entry_at r slot
same_entry r (pos s) (pos a) n = ground arith
same_entry r (negsuc s) (negsuc a) n = refl
same_entry r (pos s) (negsuc a) n = ground arith
same_entry r (negsuc s) (pos a) n = ground arith

disconnected_left :
    (r : Registry) (slot at : ℤ) → HasLeft r slot → entry_at (disconnected r at) slot ≡ left_entry
unfolding disconnected
disconnected_left r slot at h =
    ground (arith, put_here r slot at left_entry, put_elsewhere r slot at left_entry)

missing_left :
    (r : Registry) (slot at : ℤ) → HasLeft r slot → entry_at (missing r at) slot ≡ left_entry
unfolding missing
missing_left r slot at h = ground (arith, same_entry r slot at, put_elsewhere r slot at empty_entry)

update_left_same :
    (r : Registry) (slot : ℤ) (facts : PlayerInfo)
    → HasLeft r slot
    → int_eq facts.slot slot ≡ true
    → (update r facts).1 ≡ r
unfolding update
update_left_same r slot facts h n = ground (arith, same_entry r slot facts.slot)

update_left :
    (r : Registry) (slot : ℤ) (facts : PlayerInfo)
    → HasLeft r slot
    → int_eq facts.slot slot ≡ false
    → entry_at (update r facts).1 slot ≡ left_entry
unfolding update
update_left r slot facts h n = ground (
  arith,
  put_elsewhere r slot facts.slot (updated_entry facts r.next_generation),
  put_elsewhere r slot facts.slot (updated_entry facts (entry_at r facts.slot).player.connection),
)

step_left :
    (r : Registry) (slot : ℤ) (call : Call)
    → NoConnect slot (call ∷ [])
    → HasLeft r slot
    → HasLeft (step r call) slot
unfolding step
step_left r slot (connects at name bot) n h = (
  valid_slot_kept r _ slot (step-Change r (connects at name bot)) ∙ h.0,
  connected_left r slot at name bot n.0 h,
)
step_left r slot (disconnects at) n h =
    (valid_slot_kept r _ slot (step-Change r (disconnects at)) ∙ h.0, disconnected_left r slot at h)
step_left r slot (misses at) n h =
    (valid_slot_kept r _ slot (step-Change r (misses at)) ∙ h.0, missing_left r slot at h)
step_left r slot (updates facts) n h = (
  valid_slot_kept r _ slot (step-Change r (updates facts)) ∙ h.0,
  elim (Bool-cases (int_eq facts.slot slot)) [
    | inl e ↦ rw (update_left_same r slot facts h e) h.1
    | inr e ↦ update_left r slot facts h e
  ],
)

NoConnect-head :
    (slot : ℤ) (c : Call) (calls : List Call) → NoConnect slot (c ∷ calls) → NoConnect slot (c ∷ [])
NoConnect-head slot (connects at name bot) calls h = (h.0, tt)
NoConnect-head slot (disconnects at) calls h = tt
NoConnect-head slot (misses at) calls h = tt
NoConnect-head slot (updates facts) calls h = tt

NoConnect-tail :
    (slot : ℤ) (c : Call) (calls : List Call) → NoConnect slot (c ∷ calls) → NoConnect slot calls
NoConnect-tail slot (connects at name bot) calls h = h.1
NoConnect-tail slot (disconnects at) calls h = h
NoConnect-tail slot (misses at) calls h = h
NoConnect-tail slot (updates facts) calls h = h

run_left :
    (r : Registry) (slot : ℤ) (calls : List Call)
    → NoConnect slot calls
    → HasLeft r slot
    → HasLeft (run r calls) slot
unfolding run
run_left r slot [] n h = h
run_left r slot (c ∷ calls) n h =
    run_left (step r c) slot calls (NoConnect-tail slot c calls n)
      (step_left r slot c (NoConnect-head slot c calls n) h)

left_answers :
    (r : Registry) (facts : PlayerInfo)
    → HasLeft r facts.slot
    → valid_facts facts ≡ true
    → ((update r facts).0 ≡ not_found) × ((pending r facts.slot).0 ≡ false)
unfolding update pending
left_answers r facts h v = ground arith

disconnected-HasLeft :
    (r : Registry) (slot : ℤ) → valid_slot r slot ≡ true → HasLeft (disconnected r slot) slot
unfolding disconnected valid_slot step
disconnected-HasLeft r slot v = ground (
  arith,
  valid_slot_kept r (disconnected r slot) slot (step-Change r (disconnects slot)),
  put_here r slot slot left_entry,
  int_eq_refl slot,
)

-- Once a slot is disconnected, until a new connection is opened in it and whatever other calls come
-- between, well-formed facts for it answer NOT_FOUND and it has no pending player.
pub disconnected_until_connected :
    (r : Registry) (facts : PlayerInfo) (calls : List Call)
    → valid_slot r facts.slot ≡ true
    → valid_facts facts ≡ true
    → NoConnect facts.slot calls
    → let r' = run (disconnected r facts.slot) calls in
      ((update r' facts).0 ≡ not_found) × ((pending r' facts.slot).0 ≡ false)
disconnected_until_connected r facts calls v w n =
    left_answers (run (disconnected r facts.slot) calls) facts
      (run_left (disconnected r facts.slot) facts.slot calls n
        (disconnected-HasLeft r facts.slot v))
      w
