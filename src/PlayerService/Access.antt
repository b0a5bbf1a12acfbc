-- ===== src/PlayerService/Access.antt =====
-- GetEntry and ValidateEntry of host/src/player_service.cpp: who may ask, and for which player.
use keel_s.Common.{
  ℕ, ◌==◌, true, false, not, ◌&&◌, ◌||◌, Option, none, some, is_ok, ◌≡◌, ◌≢◌, arith, Option-cases,
  inl, inr, Bool-cases,
}
use keel_s.Common.Int.{ℤ}
use keel_s.Players.{PlayerInfo, PlayerConnection, Registry, valid_slot}
use keel_s.Plugins.{Plugin, Host, plugin_by_handle}
use keel_s.PlayerService.{Game, read, read_on, is_other, barred, get_for, get, request}

-- The player is the one of the connection, where one was asked for.
abbrev pub Matches : Option PlayerConnection → PlayerInfo → Type 0
Matches none player = Unit
Matches (some c) player = (player.connection ≡ c.generation) × (c.generation ≢ 0) × (c.reserved ≡ 0)

-- Who got the player: a known plugin that may ask, on the game thread, of a slot that is there.
abbrev pub Allowed : Game → Host → Registry → ℕ → ℤ → Type 0
Allowed game host r plugin slot =
    (owner : Plugin) × (plugin_by_handle host plugin ≡ some owner)
    × (barred host owner ≡ false)
    × (game.is_game_thread ≡ true)
    × (valid_slot r slot ≡ true)

read_on-matches :
    (game : Game) (r : Registry) (slot : ℤ) (connection : Option PlayerConnection)
    → is_ok (read_on game r slot false connection).0 ≡ true
    → is_other connection (read_on game r slot false connection).2 ≡ false
read_on-matches game r slot connection h =
    elim (Bool-cases (is_ok (read game r slot).0 && is_other connection (read game r slot).2)) [
      | inl e ↦ absurd (ground arith)
      | inr e ↦ ground arith
    ]

get_for-ok :
    (game : Game) (host : Host) (r : Registry) (owner : Plugin) (slot : ℤ)
    (connection : Option PlayerConnection)
    → is_ok (get_for game host r (some owner) slot false connection).0 ≡ true
    → (barred host owner ≡ false)
      × (game.is_game_thread ≡ true)
      × (is_other connection (get_for game host r (some owner) slot false connection).2 ≡ false)
get_for-ok game host r owner slot connection h =
    ground (arith, read_on-matches game r slot connection)

get-ok :
    (game : Game) (host : Host) (r : Registry) (plugin : ℕ) (slot : ℤ)
    (connection : Option PlayerConnection)
    → is_ok (get game host r plugin slot false connection).0 ≡ true
    → Allowed game host r plugin slot
      × (is_other connection (get game host r plugin slot false connection).2 ≡ false)
unfolding get
get-ok game host r plugin slot connection h = elim (Bool-cases (valid_slot r slot)) [
  | inr e ↦ absurd (ground arith)
  | inl e ↦ elim (Option-cases (plugin_by_handle host plugin)) [
    | inl nobody ↦ absurd (ground arith)
    | inr (owner, found) ↦
        let g : is_ok (get_for game host r (some owner) slot false connection).0 ≡ true =
          ground arith in
        let (free, game_thread, other) = get_for-ok game host r owner slot connection g in
        ((owner, found, free, game_thread, e), rw e (rw found other))
  ]
]

-- A player that GetEntry or ValidateEntry gives is given to a known plugin that may ask, on the game
-- thread, for a slot that is there; and where a connection was asked for, the connection is well formed
-- and the player is the one who holds it now.
pub request-ok :
    (game : Game) (host : Host) (r : Registry) (plugin : ℕ) (slot : ℤ)
    (connection : Option PlayerConnection)
    → is_ok (request game host r plugin slot false connection).0 ≡ true
    → Allowed game host r plugin slot
      × Matches connection (request game host r plugin slot false connection).2
unfolding request
request-ok game host r plugin slot none h = ((get-ok game host r plugin slot none h).0, tt)
request-ok game host r plugin slot (some c) h =
    elim (Bool-cases (not (c.reserved == 0) || c.generation == 0)) [
      | inl e ↦ absurd (ground arith)
      | inr e ↦
          let answered : is_ok (get game host r plugin slot false (some c)).0 ≡ true =
            ground arith in
          let (allowed, other) = get-ok game host r plugin slot (some c) answered in
          let same : (get game host r plugin slot false (some c)).2.connection ≡ c.generation =
            ground arith in
          (allowed, (rw e same, ground arith, ground arith))
    ]
