-- ===== src/PlayerService.antt =====
-- host/src/player_service.cpp: what a plugin reads of the players, over the registry of the players and
-- the game. The count of the plugin's active operations is put back by a destructor, and is not modelled
-- but for its bound.
pub mod Next
pub mod Access
mod Checks
use keel_s.Common.{
  ℕ, zero, suc, ◌+◌, ◌-◌, ◌==◌, ltb, Bool, true, false, not, ◌&&◌, ◌||◌, Option, none, some, length,
  if◌then◌else◌, u32_max, KeelResult, ok, is_ok, invalid_argument, not_ready, not_found, busy,
  wrong_thread,
}
use keel_s.Common.Int.{ℤ, pos, negsuc, is_nonneg, below_minus_one, to_index}
use keel_s.Players.{
  PlayerInfo, PlayerConnection, Registry, cleared, valid_slot, update, missing, pending,
}
use keel_s.Plugins.{Plugin, Host, is_loading, is_loaded, plugin_by_handle}

-- What the game adapter and the lifecycle service answer during a call.
pub record Game : Type 0 where
  pub is_game_thread : Bool
  pub tracking : KeelResult
  pub read_player : ℤ → KeelResult × PlayerInfo

abbrev pub is_not_found : KeelResult → Bool
is_not_found not_found = true
is_not_found _ = false

-- The end of Read for a slot in which the game finds nobody.
abbrev pub read_missing : Registry → ℤ → KeelResult × Registry × PlayerInfo
read_missing r slot =
    let r' = missing r slot in
    let (is_pending, player) = pending r' slot in
    if is_pending then (ok, r', player) else (not_found, r', cleared)

-- Read.
unfoldable pub read : Game → Registry → ℤ → KeelResult × Registry × PlayerInfo
read game r slot =
    let (result, facts) = game.read_player slot in
    if is_ok result
    then update r facts
    else if is_not_found result
    then read_missing r slot
    else (result, r, cleared)

-- The loop of Get over the slots from `slot`, of which `remaining` are below the capacity.
unfoldable pub read_next : Game → Registry → ℕ → ℕ → KeelResult × Registry × PlayerInfo
read_next game r slot zero = (not_found, r, cleared)
read_next game r slot (suc remaining) =
    let (result, r', player) = read game r (pos slot) in
    let rest = read_next game r' (suc slot) remaining in
    if is_not_found result then rest else (result, r', player)

-- `++slot`, of a slot that is not before -1.
abbrev pub slot_after : ℤ → ℕ
slot_after (pos n) = suc n
slot_after (negsuc n) = 0

-- Whether the player is not the one of the connection that is asked for.
abbrev pub is_other : Option PlayerConnection → PlayerInfo → Bool
is_other none player = false
is_other (some connection) player = not (player.connection == connection.generation)

-- Get behind its checks, without an input.
abbrev pub read_on :
    Game → Registry → ℤ → Bool → Option PlayerConnection → KeelResult × Registry × PlayerInfo
read_on game r slot next connection =
    let (result, r', player) = read game r slot in
    if next
    then read_next game r (slot_after slot) (length r.entries - slot_after slot)
    else if is_ok result && is_other connection player
    then (not_found, r', cleared)
    else (result, r', player)

-- Whether the plugin may not ask now.
abbrev pub barred : Host → Plugin → Bool
barred host owner =
    not owner.cleanup_callback_active
    && (not host.accepting_resources
        || not owner.accepting_resources
        || owner.cleanup_pending
        || not (is_loading owner.state || is_loaded owner.state)
        || (owner.transitioning && not owner.is_starting))

abbrev pub get_for :
    Game
    → Host
    → Registry
    → Option Plugin
    → ℤ
    → Bool
    → Option PlayerConnection
    → KeelResult × Registry × PlayerInfo
get_for game host r none slot next connection = (not_ready, r, cleared)
get_for game host r (some owner) slot next connection =
    if barred host owner
    then (not_ready, r, cleared)
    else if not game.is_game_thread
    then (wrong_thread, r, cleared)
    else if owner.active_native_operations == u32_max
    then (busy, r, cleared)
    else if not owner.cleanup_callback_active && not (is_ok game.tracking)
    then (game.tracking, r, cleared)
    else read_on game r slot next connection

-- Whether the slot is none to ask for, or to ask beyond.
abbrev pub bad_slot : Registry → ℤ → Bool → Bool
bad_slot r slot next =
    (not next && not (valid_slot r slot))
    || (next
        && (below_minus_one slot
            || (is_nonneg slot && not (ltb (to_index slot) (length r.entries)))))

-- Get, without an input.
unfoldable pub get :
    Game
    → Host
    → Registry
    → ℕ
    → ℤ
    → Bool
    → Option PlayerConnection
    → KeelResult × Registry × PlayerInfo
get game host r plugin slot next connection =
    if bad_slot r slot next
    then (invalid_argument, r, cleared)
    else get_for game host r (plugin_by_handle host plugin) slot next connection

-- Request, of a player of the right size: NextEntry where `next` is set, ValidateEntry where there is a
-- connection, and GetEntry otherwise.
unfoldable pub request :
    Game
    → Host
    → Registry
    → ℕ
    → ℤ
    → Bool
    → Option PlayerConnection
    → KeelResult × Registry × PlayerInfo
request game host r plugin slot next none = get game host r plugin slot next none
request game host r plugin slot next (some connection) =
    if not (connection.reserved == 0) || connection.generation == 0
    then (invalid_argument, r, cleared)
    else get game host r plugin slot next (some connection)
