-- ===== src/Players/Connections.antt =====
-- The one thing that a call of host/src/player_registry.cpp does to the connection numbers.
use keel_s.Common.{
  ◌==◌, and_left, not, ◌&&◌, none, some, ℕ, ◌+◌, ◌%◌, ◌<◌, ◌≡◌, refl, ◌≢◌, ◌⊎◌, inl, inr, Bool,
  true, false, Option, List, [], ◌∷◌, length, set, get_or, arith, u64_mod, Bool-cases,
}
use keel_s.Common.Int.{ℤ, to_index}
use keel_s.Text.{Bytes}
use keel_s.Players.{
  entry_at, refused_entry, accepted_entry, updated_entry, renewed, valid_facts, Registry, Entry,
  PlayerInfo, empty_entry, valid_slot, connected, disconnected, missing, update,
}

-- A call that changes the registry.
pub data Call : Type 0 where
  connects : ℤ → Option Bytes → Bool → Call
  disconnects : ℤ → Call
  misses : ℤ → Call
  updates : PlayerInfo → Call

unfoldable pub step : Registry → Call → Registry
step r (connects slot name bot) = (connected r slot name bot).1
step r (disconnects slot) = disconnected r slot
step r (misses slot) = missing r slot
step r (updates facts) = (update r facts).1

unfoldable pub run : Registry → List Call → Registry
run r [] = r
run r (c ∷ calls) = run (step r c) calls

-- The connection number in a slot; zero where there is none.
abbrev pub conn : Registry → ℕ → ℕ
conn r i = (get_or r.entries i empty_entry).player.connection

-- An entry that a call may write without a new number: one with none, or with the slot's own.
abbrev pub Keeps : Registry → ℕ → Entry → Type 0
Keeps r i e =
    (e.player.connection ≡ 0) ⊎ ((e.player.connection ≡ conn r i) × (e.disconnecting ≡ false))

-- The effects of a call: none, one slot written with no new number, or one slot written with the
-- next number, which is then used up.
pub data Change (r r' : Registry) : Type 0 where
  nothing : r' ≡ r → Change r r'
  write :
      (i : ℕ) (e : Entry)
      → i < length r.entries
      → Keeps r i e
      → r'.entries ≡ set r.entries i e
      → r'.next_generation ≡ r.next_generation
      → Change r r'
  issue :
      (i : ℕ) (e : Entry)
      → i < length r.entries
      → r.next_generation ≢ 0
      → e.player.connection ≡ r.next_generation
      → e.disconnecting ≡ false
      → r'.entries ≡ set r.entries i e
      → r'.next_generation ≡ (r.next_generation + 1) % u64_mod
      → Change r r'

slot_bound : (r : Registry) (slot : ℤ) → valid_slot r slot ≡ true → to_index slot < length r.entries
unfolding valid_slot
slot_bound r slot h = ground arith

disconnected-Change : (r : Registry) (slot : ℤ) → Change r (disconnected r slot)
unfolding disconnected
disconnected-Change r slot = elim (Bool-cases (valid_slot r slot)) [
  | inl v ↦
      write (to_index slot) (record empty_entry { disconnecting = true }) (slot_bound r slot v)
        (inl refl) (rw v) (rw v)
  | inr v ↦ nothing (rw v)
]

missing-Change : (r : Registry) (slot : ℤ) → Change r (missing r slot)
unfolding missing
missing-Change r slot =
    let idle = not (entry_at r slot).pending && not (entry_at r slot).disconnecting in
    elim (Bool-cases (valid_slot r slot)) [
      | inr v ↦ nothing (rw v)
      | inl v ↦ elim (Bool-cases idle) [
        | inl k ↦
            write (to_index slot) empty_entry (slot_bound r slot v) (inl refl) (ground arith)
              (ground arith)
        | inr k ↦ nothing (ground arith)
      ]
    ]

connected-Change :
    (r : Registry) (slot : ℤ) (name : Option Bytes) (bot : Bool)
    → Change r (connected r slot name bot).1
unfolding connected
connected-Change r slot none bot = nothing refl
connected-Change r slot (some name) bot = elim (Bool-cases (valid_slot r slot)) [
  | inr v ↦ nothing (ground arith)
  | inl v ↦ elim (Bool-cases (r.next_generation == 0)) [
    | inl z ↦
        write (to_index slot) (refused_entry slot) (slot_bound r slot v) (inl refl) (ground arith)
          (ground arith)
    | inr z ↦
        issue (to_index slot) (accepted_entry slot r.next_generation name bot) (slot_bound r slot v)
          (ground arith) refl refl (ground arith) (ground arith)
  ]
]

update_kept :
    (r : Registry) (facts : PlayerInfo)
    → renewed (entry_at r facts.slot) facts ≡ false
    → Change r (update r facts).1
unfolding update
update_kept r facts k =
    let entry = updated_entry facts (entry_at r facts.slot).player.connection in
    elim (Bool-cases (valid_slot r facts.slot && valid_facts facts)) [
      | inr v ↦ nothing (ground arith)
      | inl v ↦ elim (Bool-cases (entry_at r facts.slot).disconnecting) [
        | inl d ↦ nothing (ground arith)
        | inr d ↦
            write (to_index facts.slot) entry (slot_bound r facts.slot (and_left _ _ v))
              (inr (refl, refl)) (ground arith) (ground arith)
      ]
    ]

update-renewed :
    (r : Registry) (facts : PlayerInfo)
    → renewed (entry_at r facts.slot) facts ≡ true
    → Change r (update r facts).1
unfolding update
update-renewed r facts k = elim (Bool-cases (valid_slot r facts.slot && valid_facts facts)) [
  | inr v ↦ nothing (ground arith)
  | inl v ↦ elim (Bool-cases (entry_at r facts.slot).disconnecting) [
    | inl d ↦ nothing (ground arith)
    | inr d ↦ elim (Bool-cases (r.next_generation == 0)) [
      | inl z ↦ nothing (ground arith)
      | inr z ↦
          issue (to_index facts.slot) (updated_entry facts r.next_generation)
            (slot_bound r facts.slot (and_left _ _ v)) (ground arith) refl refl (ground arith)
            (ground arith)
    ]
  ]
]

-- Every call writes one slot at most, and gives it no connection number but its own or the next one.
pub step-Change : (r : Registry) (c : Call) → Change r (step r c)
unfolding step
step-Change r (connects slot name bot) = connected-Change r slot name bot
step-Change r (disconnects slot) = disconnected-Change r slot
step-Change r (misses slot) = missing-Change r slot
step-Change r (updates facts) = elim (Bool-cases (renewed (entry_at r facts.slot) facts)) [
  | inl k ↦ update-renewed r facts k
  | inr k ↦ update_kept r facts k
]
