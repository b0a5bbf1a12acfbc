-- ===== src/Players/Arrivals.antt =====
-- What Connected of host/src/player_registry.cpp leaves, and the first update behind it.
use keel_s.Common.{
  ◌∙◌, if◌then◌else◌, ℕ, ◌-◌, ◌≡◌, refl, sym, ap, subst, ◌≢◌, Bool, true, false, ◌++◌, some, take,
  length, replicate, arith, ok, u32_max,
}
use keel_s.Common.Int.{ℤ, pos, minus_one, is_nonneg}
use keel_s.Text.{Bytes}
use keel_s.Players.{
  accepted_entry, next_generation, Registry, Entry, PlayerInfo, put_entry, valid_slot, valid_facts,
  update, connected, pending, current,
}
use keel_s.Players.Renewal.{SamePlayer, same_kept}
use keel_s.Players.Updates.{
  CanUpdate, Holds, get_or_self, put_keeps_slots, slots_of_entries, current_put, pending_at,
  update_stores,
}

connected_runs :
    (r : Registry) (slot : ℤ) (name : Bytes) (bot : Bool)
    → valid_slot r slot ≡ true
    → r.next_generation ≢ 0
    → connected r slot (some name) bot
      ≡ (ok, put_entry (next_generation r).1 slot (accepted_entry slot r.next_generation name bot))
unfolding connected
connected_runs r slot name bot valid n = ground arith

drawn_entries : (r : Registry) → (next_generation r).1.entries ≡ r.entries
unfolding next_generation
drawn_entries r = ground arith

-- The player of a slot that was just taken: the connected and the connecting bit, and that of a bot.
abbrev pub newcomer : ℤ → ℕ → Bytes → Bool → PlayerInfo
newcomer slot number name bot = record {
  size = 184;
  slot = slot;
  user_id = minus_one;
  flags = if bot then 11 else 3;
  connection = number;
  steam_id = 0;
  controller_handle = u32_max;
  pawn_handle = u32_max;
  team = pos 0;
  reserved = 0;
  name = take 128 name ++ replicate (129 - length (take 128 name)) 0;
}

newcomer_lem :
    (slot : ℤ) (number : ℕ) (name : Bytes) (bot : Bool)
    → (accepted_entry slot number name bot).player ≡ newcomer slot number name bot
newcomer_lem slot number name true = refl
newcomer_lem slot number name false = refl

never_nonneg : false ≡ true → ⊥
never_nonneg e = ground arith

connected-update :
    (r : Registry) (facts : PlayerInfo) (e : Entry)
    → valid_slot r facts.slot ≡ true
    → valid_facts facts ≡ true
    → e.disconnecting ≡ false
    → e.pending ≡ true
    → e.player.user_id ≡ minus_one
    → e.player.connection ≢ 0
    → let answer = update (put_entry r facts.slot e) facts in
      (answer.0 ≡ ok)
      × (answer.2 ≡ record facts { connection = e.player.connection })
      × Holds answer.1 facts e.player.connection
connected-update r facts e valid well here waits nobody n =
    let r' = put_entry r facts.slot e in
    let at = get_or_self r facts.slot e valid in
    let same : SamePlayer e facts = (
      n,
      (λ a b. absurd (never_nonneg (ap is_nonneg (sym nobody) ∙ a))),
      (λ w. absurd (never_nonneg (sym w ∙ waits))),
    ) in
    let number =
      same_kept r' facts (subst (λ x. SamePlayer x facts) (sym at) same)
      ∙ ap (λ x. x.player.connection) at in
    let may : CanUpdate r' facts = (
      put_keeps_slots r facts.slot facts.slot e ∙ valid,
      well,
      ap (λ x. x.disconnecting) at ∙ here,
      (λ z. n (sym number ∙ z)),
    ) in
    let (k, done, out, holds, kept, _) = update_stores r' facts may in
    let is : k ≡ e.player.connection =
      kept (subst (λ x. SamePlayer x facts) (sym at) same) ∙ ap (λ x. x.player.connection) at in
    (
      done,
      subst (λ m. (update r' facts).2 ≡ record facts { connection = m }) is out,
      subst (Holds (update r' facts).1 facts) is holds,
    )

-- A slot that a named player takes while a number is left is current and pending at once, as a player
-- under that number with no user number and the first 128 bytes of the name. The next well-formed facts
-- about the slot, whatever user they name, are the same player's: the update answers OK and the slot
-- holds them under the same number.
pub connected_stores :
    (r : Registry) (facts : PlayerInfo) (name : Bytes) (bot : Bool)
    → valid_slot r facts.slot ≡ true
    → valid_facts facts ≡ true
    → r.next_generation ≢ 0
    → let r' = (connected r facts.slot (some name) bot).1 in
      ((connected r facts.slot (some name) bot).0 ≡ ok)
      × (pending r' facts.slot ≡ (true, newcomer facts.slot r.next_generation name bot))
      × (current r' (record { slot = facts.slot; reserved = 0; generation = r.next_generation })
          ≡ true)
      × ((update r' facts).0 ≡ ok)
      × ((update r' facts).2 ≡ record facts { connection = r.next_generation })
      × Holds (update r' facts).1 facts r.next_generation
connected_stores r facts name bot valid well n =
    let slot = facts.slot in
    let entry = accepted_entry slot r.next_generation name bot in
    let drawn = (next_generation r).1 in
    let there = slots_of_entries r drawn slot (drawn_entries r) ∙ valid in
    let (done, out, holds) = connected-update drawn facts entry there well refl refl refl n in
    rw (connected_runs r slot name bot valid n) (
      refl,
      pending_at drawn slot entry there refl n
          ∙ ap (λ p. (true, p)) (newcomer_lem slot r.next_generation name bot),
      current_put drawn slot entry there refl refl n,
      done,
      out,
      holds,
    )
