-- ===== src/Players/Updates.antt =====
-- What Update of host/src/player_registry.cpp answers, and what Pending and Current answer behind it.
use keel_s.Common.{
  and_left, and_right, ◌∙◌, if◌then◌else◌, ℕ, ◌==◌, ◌≡◌, refl, sym, ap, subst, ◌≢◌, inl, inr, true,
  false, ◌&&◌, get_or-set, length-set, arith, Bool-cases, ok, invalid_argument, not_found,
  engine_failure,
}
use keel_s.Common.Int.{ℤ, to_index}
use keel_s.Players.{
  next_generation, Registry, Entry, PlayerInfo, PlayerConnection, empty_entry, has_flag, entry_at,
  put_entry, valid_slot, valid_facts, renewed, update, updated_entry, pending, current, cleared,
}
use keel_s.Players.Renewal.{assigned, SamePlayer, same_kept, new_number}

-- The connection of a player in its slot.
abbrev pub connection_of : PlayerInfo → PlayerConnection
connection_of p = record { slot = p.slot; reserved = 0; generation = p.connection }

-- When an update goes through.
abbrev pub CanUpdate : Registry → PlayerInfo → Type 0
CanUpdate r facts =
    (valid_slot r facts.slot ≡ true)
    × (valid_facts facts ≡ true)
    × ((entry_at r facts.slot).disconnecting ≡ false)
    × (assigned r facts ≢ 0)

update_inv : (r : Registry) (facts : PlayerInfo) → (update r facts).0 ≡ ok → CanUpdate r facts
unfolding update
update_inv r facts h = ground arith

-- The registry after a number was drawn where one is needed.
abbrev pub advanced : Registry → PlayerInfo → Registry
advanced r facts = if renewed (entry_at r facts.slot) facts then (next_generation r).1 else r

update_runs :
    (r : Registry) (facts : PlayerInfo)
    → CanUpdate r facts
    → update r facts ≡ (
      ok,
      put_entry (advanced r facts) facts.slot (updated_entry facts (assigned r facts)),
      (updated_entry facts (assigned r facts)).player,
    )
unfolding update
update_runs r facts h = ground arith

pub get_or_self :
    (r : Registry) (slot : ℤ) (e : Entry)
    → valid_slot r slot ≡ true
    → entry_at (put_entry r slot e) slot ≡ e
unfolding valid_slot
get_or_self r slot e h =
    ground (arith, get_or-set r.entries (to_index slot) (to_index slot) e empty_entry)

pub put_keeps_slots :
    (r : Registry) (slot at : ℤ) (e : Entry) → valid_slot (put_entry r slot e) at ≡ valid_slot r at
unfolding valid_slot
put_keeps_slots r slot at e = ground (arith, length-set r.entries (to_index slot) e)

advanced_entries : (r : Registry) (facts : PlayerInfo) → (advanced r facts).entries ≡ r.entries
unfolding next_generation
advanced_entries r facts = ground arith

-- The facts are the slot's player under a number: Pending hands the player out while the connecting bit is
-- set, and the connection is current.
abbrev pub Holds : Registry → PlayerInfo → ℕ → Type 0
Holds r facts number =
    (pending r facts.slot ≡ (
      if has_flag facts.flags 2
      then (true, record facts { connection = number })
      else (false, cleared)))
    × (entry_at r facts.slot ≡ record {
      player = record facts { connection = number };
      disconnecting = false;
      pending = has_flag facts.flags 2;
    })
    × (current r (record { slot = facts.slot; reserved = 0; generation = number }) ≡ true)

-- What an update that goes through leaves: it hands out the facts under a number, which is the slot's own
-- for the same player and the next one for another, and the slot holds them under it.
abbrev pub Updated : Registry → PlayerInfo → Type 0
Updated r facts =
    (number : ℕ) × ((update r facts).0 ≡ ok)
    × ((update r facts).2 ≡ record facts { connection = number })
    × Holds (update r facts).1 facts number
    × (SamePlayer (entry_at r facts.slot) facts
        → number ≡ (entry_at r facts.slot).player.connection)
    × (¬ SamePlayer (entry_at r facts.slot) facts → number ≡ r.next_generation)

pub slots_of_entries :
    (r r' : Registry) (slot : ℤ) → r'.entries ≡ r.entries → valid_slot r' slot ≡ valid_slot r slot
unfolding valid_slot
slots_of_entries r r' slot e = ground arith

pub current_put :
    (r : Registry) (slot : ℤ) (e : Entry)
    → valid_slot r slot ≡ true
    → e.disconnecting ≡ false
    → e.player.slot ≡ slot
    → e.player.connection ≢ 0
    → current (put_entry r slot e) (connection_of e.player) ≡ true
unfolding current
current_put r slot e valid here at n =
    ground (arith, put_keeps_slots r slot slot e, get_or_self r slot e valid)

pub pending_at :
    (r : Registry) (slot : ℤ) (e : Entry)
    → valid_slot r slot ≡ true
    → e.disconnecting ≡ false
    → e.player.connection ≢ 0
    → pending (put_entry r slot e) slot ≡ (if e.pending then (true, e.player) else (false, cleared))
unfolding pending
pending_at r slot e valid here n =
    ground (arith, put_keeps_slots r slot slot e, get_or_self r slot e valid)

put-Holds :
    (r : Registry) (facts : PlayerInfo) (number : ℕ)
    → valid_slot r facts.slot ≡ true
    → number ≢ 0
    → Holds (put_entry r facts.slot (updated_entry facts number)) facts number
put-Holds r facts number valid n =
    let entry = updated_entry facts number in
    (
      pending_at r facts.slot entry valid refl n,
      get_or_self r facts.slot entry valid,
      current_put r facts.slot entry valid refl refl n,
    )

-- An update of an existing slot by well-formed facts, of a player that is not leaving, with a number
-- left for it, answers OK and hands out the facts under a number: that of the slot where its player may be
-- the same, and the next one otherwise. The slot then holds just these facts under the number, pending
-- while they are connecting, and the connection is current.
pub update_stores : (r : Registry) (facts : PlayerInfo) → CanUpdate r facts → Updated r facts
update_stores r facts h =
    let slots = slots_of_entries r (advanced r facts) facts.slot (advanced_entries r facts) in
    let number = assigned r facts in
    let e = update_runs r facts h in
    (
      number,
      ap (λ x. x.0) e,
      ap (λ x. x.2) e,
      subst (λ x. Holds x facts number) (sym (ap (λ x. x.1) e))
          (put-Holds (advanced r facts) facts number (slots ∙ h.0) h.3),
      same_kept r facts,
      new_number r facts,
    )

refused_facts :
    (r : Registry) (facts : PlayerInfo)
    → (valid_slot r facts.slot && valid_facts facts) ≡ false
    → update r facts ≡ (invalid_argument, r, cleared)
unfolding update
refused_facts r facts h = ground arith

refused_leaving :
    (r : Registry) (facts : PlayerInfo)
    → (valid_slot r facts.slot && valid_facts facts) ≡ true
    → (entry_at r facts.slot).disconnecting ≡ true
    → update r facts ≡ (not_found, r, cleared)
unfolding update
refused_leaving r facts h d = ground arith

refused_exhausted :
    (r : Registry) (facts : PlayerInfo)
    → (valid_slot r facts.slot && valid_facts facts) ≡ true
    → (entry_at r facts.slot).disconnecting ≡ false
    → assigned r facts ≡ 0
    → update r facts ≡ (engine_failure, r, cleared)
unfolding update
refused_exhausted r facts h d n = ground arith

-- What an update that does not go through leaves: the registry as it was and a cleared player.
abbrev pub Refused : Registry → PlayerInfo → Type 0
Refused r facts =
    ((update r facts).0 ≢ ok) × ((update r facts).1 ≡ r) × ((update r facts).2 ≡ cleared)

-- An update that may not go through changes nothing and hands out a cleared player.
pub update-Refused : (r : Registry) (facts : PlayerInfo) → ¬ CanUpdate r facts → Refused r facts
update-Refused r facts h = elim (Bool-cases (valid_slot r facts.slot && valid_facts facts)) [
  | inr v ↦ rw (refused_facts r facts v) (λ e. cc, refl, refl)
  | inl v ↦ elim (Bool-cases (entry_at r facts.slot).disconnecting) [
    | inl d ↦ rw (refused_leaving r facts v d) (λ e. cc, refl, refl)
    | inr d ↦ elim (Bool-cases (assigned r facts == 0)) [
      | inl z ↦ rw (refused_exhausted r facts v d (ground arith)) (λ e. cc, refl, refl)
      | inr n ↦ absurd (h (and_left _ _ v, and_right _ _ v, d, ground arith))
    ]
  ]
]
