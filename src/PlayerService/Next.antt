-- ===== src/PlayerService/Next.antt =====
-- NextEntry of host/src/player_service.cpp: it gives the first later slot that GetEntry would give.
use keel_s.Common.{
  ℕ, zero, suc, ◌≤◌, ◌<◌, ltb, Bool, true, false, not, ◌&&◌, length, get_or-set, length-set,
  if◌then◌else◌, KeelResult, ok, is_ok, not_found, ◌≡◌, ◌⊎◌, refl, sym, ap, ◌∙◌, subst, arith,
  Bool-cases, inl, inr,
}
use keel_s.Common.Int.{ℤ, pos, to_index}
use keel_s.Players.{
  PlayerInfo, Registry, empty_entry, cleared, entry_at, valid_slot, update, missing, pending,
  next_generation,
}
use keel_s.PlayerService.{Game, is_not_found, read_missing, read, read_next}

-- What the program relies on: the adapter's facts of a slot are facts of that slot.
abbrev pub NamesSlots : Game → Type 0
NamesSlots game =
    (m : ℕ) → is_ok (game.read_player (pos m)).0 ≡ true → (game.read_player (pos m)).1.slot ≡ pos m

-- The answer of a call, without the registry.
abbrev pub answer : KeelResult × Registry × PlayerInfo → KeelResult × PlayerInfo
answer (result, r, player) = (result, player)

-- The answer of the first of the slots whose read is not NOT_FOUND, each read in the same registry.
abbrev pub first_from : Game → Registry → ℕ → ℕ → KeelResult × PlayerInfo
first_from game r slot zero = (not_found, cleared)
first_from game r slot (suc remaining) =
    let rest = first_from game r (suc slot) remaining in
    if is_not_found (answer (read game r (pos slot))).0
    then rest
    else answer (read game r (pos slot))

-- The second registry is the first from a slot on.
record Like (n : ℕ) (r r' : Registry) : Type 0 where
  entries : (m : ℕ) → n ≤ m → entry_at r' (pos m) ≡ entry_at r (pos m)
  capacity : length r'.entries ≡ length r.entries
  numbers : r'.next_generation ≡ r.next_generation

missing-length : (r : Registry) (slot : ℤ) → length (missing r slot).entries ≡ length r.entries
unfolding missing
missing-length r slot = ground (arith, length-set r.entries (to_index slot) empty_entry)

missing-next_generation :
    (r : Registry) (slot : ℤ) → (missing r slot).next_generation ≡ r.next_generation
unfolding missing
missing-next_generation r slot = ground arith

missing-other :
    (r : Registry) (j m : ℕ) → j < m → entry_at (missing r (pos j)) (pos m) ≡ entry_at r (pos m)
unfolding missing valid_slot
missing-other r j m h = elim (Bool-cases (ltb j (length r.entries))) [
  | inl e ↦
      let inside : j < length r.entries = ground arith in
      ground (arith, get_or-set r.entries j m empty_entry empty_entry inside)
  | inr e ↦ ground arith
]

-- A read that finds nobody changes the registry at its own slot alone.
read-missed :
    (game : Game) (r : Registry) (slot : ℤ)
    → is_not_found (read game r slot).0 ≡ true
    → ((read game r slot).1 ≡ r) ⊎ ((read game r slot).1 ≡ missing r slot)
unfolding read update
read-missed game r slot h = ground arith

update-Like :
    (r r' : Registry) (facts : PlayerInfo) (m n : ℕ)
    → n ≤ m
    → facts.slot ≡ pos m
    → Like n r r'
    → answer (update r' facts) ≡ answer (update r facts)
unfolding update valid_slot next_generation
update-Like r r' facts m n le at like =
    let entry = like.entries m le in
    let capacity = like.capacity in let numbers = like.numbers in ground arith

missing-here :
    (r : Registry) (m : ℕ)
    → entry_at (missing r (pos m)) (pos m) ≡ (
        if ltb m (length r.entries)
          && not (entry_at r (pos m)).pending
          && not (entry_at r (pos m)).disconnecting
        then empty_entry
        else entry_at r (pos m))
unfolding missing valid_slot
missing-here r m = elim (Bool-cases (ltb m (length r.entries))) [
  | inl e ↦
      let inside : m < length r.entries = ground arith in
      ground (arith, get_or-set r.entries m m empty_entry empty_entry inside)
  | inr e ↦ ground arith
]

pending-same :
    (r r' : Registry) (m : ℕ)
    → entry_at r' (pos m) ≡ entry_at r (pos m)
    → length r'.entries ≡ length r.entries
    → pending r' (pos m) ≡ pending r (pos m)
unfolding pending valid_slot
pending-same r r' m entry capacity = ground arith

-- The end of a read, by what it finds waiting.
abbrev given : Bool × PlayerInfo → KeelResult × PlayerInfo
given (is_pending, player) = if is_pending then (ok, player) else (not_found, cleared)

read_missing-given :
    (r : Registry) (slot : ℤ) → answer (read_missing r slot) ≡ given (pending (missing r slot) slot)
read_missing-given r slot = elim (Bool-cases (pending (missing r slot) slot).0) [
  | inl e ↦ rw e refl
  | inr e ↦ rw e refl
]

missing-Like :
    (r r' : Registry) (m n : ℕ)
    → n ≤ m
    → Like n r r'
    → answer (read_missing r' (pos m)) ≡ answer (read_missing r (pos m))
missing-Like r r' m n le like =
    let entry = like.entries m le in
    let capacity = like.capacity in
    let here = missing-here r m in
    let here' = missing-here r' m in
    let same : entry_at (missing r' (pos m)) (pos m) ≡ entry_at (missing r (pos m)) (pos m) =
      ground arith in
    read_missing-given r' (pos m)
    ∙ (ap given (
          pending-same (missing r (pos m)) (missing r' (pos m)) m same
            (missing-length r' (pos m) ∙ (capacity ∙ sym (missing-length r (pos m)))))
        ∙ sym (read_missing-given r (pos m)))

read-Like :
    (game : Game) (r r' : Registry) (m n : ℕ)
    → NamesSlots game
    → n ≤ m
    → Like n r r'
    → answer (read game r' (pos m)) ≡ answer (read game r (pos m))
unfolding read
read-Like game r r' m n names le like = elim (Bool-cases (is_ok (game.read_player (pos m)).0)) [
  | inl e ↦ rw e (update-Like r r' (game.read_player (pos m)).1 m n le (names m e) like)
  | inr e ↦ elim (Bool-cases (is_not_found (game.read_player (pos m)).0)) [
    | inl f ↦ rw e (rw f (missing-Like r r' m n le like))
    | inr f ↦ rw e (rw f refl)
  ]
]

Like-missing : (r r' : Registry) (n : ℕ) → Like n r r' → Like (suc n) r (missing r' (pos n))
Like-missing r r' n like = record {
  entries = λ m h. missing-other r' n m (omega arith) ∙ like.entries m (omega arith);
  capacity = missing-length r' (pos n) ∙ like.capacity;
  numbers = missing-next_generation r' (pos n) ∙ like.numbers;
}

Like-later : (r r' : Registry) (n : ℕ) → Like n r r' → Like (suc n) r r'
Like-later r r' n like = record {
  entries = λ m h. like.entries m (omega arith);
  capacity = like.capacity;
  numbers = like.numbers;
}

Like-read :
    (game : Game) (r r' : Registry) (n : ℕ)
    → is_not_found (read game r' (pos n)).0 ≡ true
    → Like n r r'
    → Like (suc n) r (read game r' (pos n)).1
Like-read game r r' n missed like = elim (read-missed game r' (pos n) missed) [
  | inl e ↦ subst (Like (suc n) r) (sym e) (Like-later r r' n like)
  | inr e ↦ subst (Like (suc n) r) (sym e) (Like-missing r r' n like)
]

choose :
    (b : Bool) (a rest : KeelResult × Registry × PlayerInfo) (x y : KeelResult × PlayerInfo)
    → (b ≡ false → answer a ≡ x)
    → (b ≡ true → answer rest ≡ y)
    → answer (if b then rest else a) ≡ (if b then y else x)
choose true a rest x y h k = k refl
choose false a rest x y h k = h refl

next-first :
    (game : Game) (r r' : Registry) (n k : ℕ)
    → NamesSlots game
    → Like n r r'
    → answer (read_next game r' n k) ≡ first_from game r n k
unfolding read_next
next-first game r r' n zero names like = refl
next-first game r r' n (suc k) names like =
    let same = read-Like game r r' n n names (omega arith) like in
    let found = (read game r' (pos n)).0 in
    subst
      (λ x.
        answer (read_next game r' n (suc k))
        ≡ (if is_not_found x.0 then first_from game r (suc n) k else x))
      same
      (choose (is_not_found found) (read game r' (pos n))
        (read_next game (read game r' (pos n)).1 (suc n) k) _ _ (λ _. refl)
        (λ missed.
          next-first game r (read game r' (pos n)).1 (suc n) k names
            (Like-read game r r' n missed like)))

Like-refl : (r : Registry) (n : ℕ) → Like n r r
Like-refl r n = record { entries = λ m h. refl; capacity = refl; numbers = refl }

-- With an adapter whose facts of a slot are facts of that slot, the loop of NextEntry from a slot on
-- answers what a read of the first slot that does not answer NOT_FOUND answers, each slot read in the
-- registry of the call, and NOT_FOUND where every slot does: what the loop clears on its way shows
-- nowhere.
pub read_next-first_from :
    (game : Game) (r : Registry) (slot remaining : ℕ)
    → NamesSlots game
    → answer (read_next game r slot remaining) ≡ first_from game r slot remaining
read_next-first_from game r slot remaining names =
    next-first game r r slot remaining names (Like-refl r slot)
