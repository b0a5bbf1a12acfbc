-- ===== src/Players/Renewal.antt =====
-- Which connection number Update of host/src/player_registry.cpp gives: the slot's own, or a new one.
use keel_s.Common.{
  and_left, and_right, if◌then◌else◌, ℕ, ◌==◌, ◌≡◌, refl, ap, subst, ◌≢◌, inl, inr, Bool, true,
  false, not, ◌&&◌, ◌||◌, arith, Bool-cases, same, ==_iff,
}
use keel_s.Common.Int.{ℤ, pos, negsuc, is_nonneg, int_eq, int_eq_refl}
use keel_s.Players.{
  Registry, Entry, PlayerInfo, has_flag, different_user, different_kind, entry_at, renewed,
}

-- The number that the facts get: the slot's own, or the next one where the facts are of another user
-- or another kind of player than the slot's, or the slot has none.
abbrev pub assigned : Registry → PlayerInfo → ℕ
assigned r facts =
    if renewed (entry_at r facts.slot) facts
    then r.next_generation
    else (entry_at r facts.slot).player.connection

-- The slot has a player under a number already, who may be the player of the facts: no two user numbers
-- differ, and one that is no longer pending is as much a bot, and as much Source TV, as the facts say.
abbrev pub SamePlayer : Entry → PlayerInfo → Type 0
SamePlayer entry facts =
    (entry.player.connection ≢ 0)
    × (is_nonneg entry.player.user_id ≡ true
        → is_nonneg facts.user_id ≡ true
        → entry.player.user_id ≡ facts.user_id)
    × (entry.pending ≡ false
        → (has_flag entry.player.flags 8 ≡ has_flag facts.flags 8)
          × (has_flag entry.player.flags 16 ≡ has_flag facts.flags 16))

and_false : (b : Bool) → (b && false) ≡ false
and_false b = ground arith

three_false : (a b c : Bool) → a ≡ false → b ≡ false → c ≡ false → (a || b || c) ≡ true → ⊥
three_false a b c h k l e = ground arith

or_three : (a b c : Bool) → (a || b || c) ≡ false → (a ≡ false) × (b ≡ false) × (c ≡ false)
or_three a b c h = ground arith

equal_users : (a b c : Bool) → a ≡ true → b ≡ true → (a && b && not c) ≡ false → c ≡ true
equal_users a b c h k e = ground arith

equal_kinds :
    (w b c : Bool) → w ≡ false → (not w && (not b || not c)) ≡ false → (b ≡ true) × (c ≡ true)
equal_kinds w b c h e = ground arith

int_eq_eq : (a b : ℤ) → int_eq a b ≡ true → a ≡ b
int_eq_eq (pos m) (pos n) h = ap pos ((==_iff m n).0 h)
int_eq_eq (negsuc m) (negsuc n) h = ap negsuc ((==_iff m n).0 h)
int_eq_eq (pos m) (negsuc n) h = absurd (ground arith)
int_eq_eq (negsuc m) (pos n) h = absurd (ground arith)

other_user :
    (entry : Entry) (facts : PlayerInfo)
    → (is_nonneg entry.player.user_id ≡ true
        → is_nonneg facts.user_id ≡ true
        → entry.player.user_id ≡ facts.user_id)
    → different_user entry facts ≡ false
other_user entry facts users =
    elim (Bool-cases (is_nonneg entry.player.user_id && is_nonneg facts.user_id)) [
      | inr h ↦ ground arith
      | inl h ↦
          let equal : int_eq entry.player.user_id facts.user_id ≡ true =
            subst (λ z. int_eq entry.player.user_id z ≡ true)
              (users (and_left _ _ h) (and_right _ _ h)) (int_eq_refl entry.player.user_id) in
          ground arith
    ]

same_refl : (b c : Bool) → b ≡ c → same b c ≡ true
same_refl true c h = ground arith
same_refl false c h = ground arith

same_eq : (b c : Bool) → same b c ≡ true → b ≡ c
same_eq true c h = ground arith
same_eq false c h = ground arith

other_kind :
    (entry : Entry) (facts : PlayerInfo)
    → (entry.pending ≡ false
        → (has_flag entry.player.flags 8 ≡ has_flag facts.flags 8)
          × (has_flag entry.player.flags 16 ≡ has_flag facts.flags 16))
    → different_kind entry facts ≡ false
other_kind entry facts kinds = elim (Bool-cases entry.pending) [
  | inl h ↦ rw h refl
  | inr h ↦
      let (bot, tv) = kinds h in
      let same_bot = same_refl (has_flag entry.player.flags 8) (has_flag facts.flags 8) bot in
      let same_tv = same_refl (has_flag entry.player.flags 16) (has_flag facts.flags 16) tv in
      rw (same_bot, same_tv) (and_false (not entry.pending))
]

not_renewed :
    (entry : Entry) (facts : PlayerInfo) → SamePlayer entry facts → renewed entry facts ≡ true → ⊥
not_renewed entry facts (some_number, users, kinds) h =
    let user = other_user entry facts users in
    let kind = other_kind entry facts kinds in
    let number : (entry.player.connection == 0) ≡ false = ground arith in
    three_false _ _ _ number user kind h

kept_player :
    (entry : Entry) (facts : PlayerInfo) → renewed entry facts ≡ false → SamePlayer entry facts
kept_player entry facts h =
    let (number, user, kind) = or_three _ _ _ h in
    (
      (λ z. absurd (ground arith)),
      (λ a b. int_eq_eq entry.player.user_id facts.user_id (equal_users _ _ _ a b user)),
      (λ w.
          let (bot, tv) = equal_kinds entry.pending _ _ w kind in
          (same_eq _ _ bot, same_eq _ _ tv)),
    )

pub same_kept :
    (r : Registry) (facts : PlayerInfo)
    → SamePlayer (entry_at r facts.slot) facts
    → assigned r facts ≡ (entry_at r facts.slot).player.connection
same_kept r facts (some_number, users, kinds) =
    elim (Bool-cases (renewed (entry_at r facts.slot) facts)) [
      | inr h ↦ rw h refl
      | inl h ↦ absurd (not_renewed (entry_at r facts.slot) facts (some_number, users, kinds) h)
    ]

pub new_number :
    (r : Registry) (facts : PlayerInfo)
    → ¬ SamePlayer (entry_at r facts.slot) facts
    → assigned r facts ≡ r.next_generation
new_number r facts other = elim (Bool-cases (renewed (entry_at r facts.slot) facts)) [
  | inl h ↦ rw h refl
  | inr h ↦ absurd (other (kept_player (entry_at r facts.slot) facts h))
]
