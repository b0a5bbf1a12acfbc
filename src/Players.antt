-- ===== src/Players.antt =====
-- host/src/player_registry.h and host/src/player_registry.cpp: which player sits in which slot, and
-- under which connection number. The data is that of sdk/include/keels2/players.h.
-- A method returns the new registry with its result; an output argument is part of the result.
-- `flags` is a number whose bits are read by division; a name is the list of its 129 bytes.
pub mod Invariant
pub mod Connections
pub mod Renewal
pub mod Updates
pub mod Arrivals
pub mod Leaving
mod Checks
use keel_s.Common.{
  ℕ, ◌+◌, ◌-◌, ◌/◌, ◌%◌, ◌==◌, leb, ltb, Bool, true, false, not, ◌&&◌, ◌||◌, List, [], ◌∷◌, ◌++◌,
  Option, none, some, any, length, take, get_or, set, replicate, if◌then◌else◌, u32_max, u64_mod,
  KeelResult, same, ok, invalid_argument, not_found, engine_failure,
}
use keel_s.Common.Int.{ℤ, pos, negsuc, minus_one, is_nonneg, below_minus_one, int_eq, to_index}
use keel_s.Text.{Bytes}

abbrev pub name_capacity : ℕ
name_capacity = 129

abbrev pub int32_max : ℕ
int32_max = 2147483647

-- The bits of `flags`, KEELS2_PLAYER_CONNECTED and so on.
abbrev pub connected_flag : ℕ
connected_flag = 1

abbrev pub connecting_flag : ℕ
connecting_flag = 2

abbrev pub authenticated_flag : ℕ
authenticated_flag = 4

abbrev pub bot_flag : ℕ
bot_flag = 8

abbrev pub source_tv_flag : ℕ
source_tv_flag = 16

-- `flags & flag`, for one bit.
abbrev pub has_flag : ℕ → ℕ → Bool
has_flag flags flag = flags / flag % 2 == 1

-- KeelPlayerInfo.
pub record PlayerInfo : Type 0 where
  pub size : ℕ
  pub slot : ℤ
  pub user_id : ℤ
  pub flags : ℕ
  pub connection : ℕ
  pub steam_id : ℕ
  pub controller_handle : ℕ
  pub pawn_handle : ℕ
  pub team : ℤ
  pub reserved : ℕ
  pub name : Bytes

-- KeelPlayerConnection.
pub record PlayerConnection : Type 0 where
  pub slot : ℤ
  pub reserved : ℕ
  pub generation : ℕ

pub record Entry : Type 0 where
  pub player : PlayerInfo
  pub disconnecting : Bool
  pub pending : Bool

pub record Registry : Type 0 where
  pub entries : List Entry
  pub next_generation : ℕ

-- Its size on the 64-bit platforms.
abbrev pub sizeof_player : ℕ
sizeof_player = 184

-- `KeelPlayerInfo{}`: every byte is zero.
abbrev pub zero_player : PlayerInfo
zero_player = record {
  size = 0;
  slot = pos 0;
  user_id = pos 0;
  flags = 0;
  connection = 0;
  steam_id = 0;
  controller_handle = 0;
  pawn_handle = 0;
  team = pos 0;
  reserved = 0;
  name = replicate 129 0;
}

-- Clear: what it leaves in the player.
abbrev pub cleared : PlayerInfo
cleared = record zero_player {
  size = sizeof_player;
  slot = minus_one;
  user_id = minus_one;
  controller_handle = u32_max;
  pawn_handle = u32_max;
}

abbrev pub empty_entry : Entry
empty_entry = record { player = zero_player; disconnecting = false; pending = false }

-- The constructor; `none` is its exception.
unfoldable pub create : ℕ → Option Registry
create capacity =
    if capacity == 0 || ltb int32_max capacity
    then none
    else some (record { entries = replicate capacity empty_entry; next_generation = 1 })

unfoldable pub valid_slot : Registry → ℤ → Bool
valid_slot r slot = is_nonneg slot && ltb (to_index slot) (length r.entries)

abbrev pub entry_at : Registry → ℤ → Entry
entry_at r slot = get_or r.entries (to_index slot) empty_entry

abbrev pub put_entry : Registry → ℤ → Entry → Registry
put_entry r slot entry = record r { entries = set r.entries (to_index slot) entry }

-- NextGeneration. The counter stays at zero once it has wrapped.
unfoldable pub next_generation : Registry → ℕ × Registry
next_generation r =
    if r.next_generation == 0
    then (0, r)
    else (r.next_generation, record r { next_generation = (r.next_generation + 1) % u64_mod })

-- The bytes of a name as they are copied into the buffer, with the zeros behind them.
abbrev pub copy_name : Bytes → Bytes
copy_name name = take 128 name ++ replicate (name_capacity - length (take 128 name)) 0

-- The player of a slot that was just taken.
abbrev pub fresh_player : ℤ → ℕ → PlayerInfo
fresh_player slot generation = record cleared { slot = slot; connection = generation }

abbrev pub refused_entry : ℤ → Entry
refused_entry slot = record { player = fresh_player slot 0; disconnecting = true; pending = false }

abbrev pub accepted_entry : ℤ → ℕ → Bytes → Bool → Entry
accepted_entry slot generation name bot = record {
  player = record (fresh_player slot generation) {
    flags = connected_flag + connecting_flag + (if bot then bot_flag else 0);
    name = copy_name name;
  };
  disconnecting = false;
  pending = true;
}

unfoldable pub connected : Registry → ℤ → Option Bytes → Bool → KeelResult × Registry
unfolding next_generation
connected r slot none bot = (invalid_argument, r)
connected r slot (some name) bot =
    let (generation, r') = next_generation r in
    if not (valid_slot r slot)
    then (invalid_argument, r)
    else if generation == 0
    then (engine_failure, put_entry r' slot (refused_entry slot))
    else (ok, put_entry r' slot (accepted_entry slot generation name bot))

unfoldable pub disconnected : Registry → ℤ → Registry
disconnected r slot =
    if valid_slot r slot then put_entry r slot (record empty_entry { disconnecting = true }) else r

unfoldable pub missing : Registry → ℤ → Registry
missing r slot =
    if valid_slot r slot && not (entry_at r slot).pending && not (entry_at r slot).disconnecting
    then put_entry r slot empty_entry
    else r

unfoldable pub valid_facts : PlayerInfo → Bool
valid_facts facts =
    let authenticated = has_flag facts.flags authenticated_flag in
    if not (facts.size == sizeof_player)
      || not (facts.reserved == 0)
      || leb 64 facts.flags
      || not (has_flag facts.flags connected_flag)
      || below_minus_one facts.user_id
      || not (any (λ c. c == 0) facts.name)
    then false
    else if not (same authenticated (not (facts.steam_id == 0)))
        || (authenticated && (has_flag facts.flags bot_flag || has_flag facts.flags source_tv_flag))
    then false
    else is_nonneg facts.user_id || has_flag facts.flags connecting_flag

-- `different_user`, `different_kind`: whether the facts are of another player than the entry's.
abbrev pub different_user : Entry → PlayerInfo → Bool
different_user entry facts =
    is_nonneg entry.player.user_id
    && is_nonneg facts.user_id
    && not (int_eq entry.player.user_id facts.user_id)

abbrev pub different_kind : Entry → PlayerInfo → Bool
different_kind entry facts =
    not entry.pending
    && (not (same (has_flag entry.player.flags bot_flag) (has_flag facts.flags bot_flag))
        || not (
            same (has_flag entry.player.flags source_tv_flag)
              (has_flag facts.flags source_tv_flag)))

-- Whether an update draws a new generation for its entry.
abbrev pub renewed : Entry → PlayerInfo → Bool
renewed entry facts =
    entry.player.connection == 0 || different_user entry facts || different_kind entry facts

-- The entry that an accepted update leaves.
abbrev pub updated_entry : PlayerInfo → ℕ → Entry
updated_entry facts generation = record {
  player = record facts { connection = generation };
  disconnecting = false;
  pending = has_flag facts.flags connecting_flag;
}

unfoldable pub update : Registry → PlayerInfo → KeelResult × Registry × PlayerInfo
unfolding next_generation
update r facts =
    let entry = entry_at r facts.slot in
    let drawn = next_generation r in
    let (generation, r') = if renewed entry facts then drawn else (entry.player.connection, r) in
    let entry' = updated_entry facts generation in
    if not (valid_slot r facts.slot) || not (valid_facts facts)
    then (invalid_argument, r, cleared)
    else if entry.disconnecting
    then (not_found, r, cleared)
    else if generation == 0
    then (engine_failure, r', cleared)
    else (ok, put_entry r' facts.slot entry', entry'.player)

unfoldable pub pending : Registry → ℤ → Bool × PlayerInfo
pending r slot =
    let entry = entry_at r slot in
    if not (valid_slot r slot)
    then (false, cleared)
    else if not entry.pending || entry.disconnecting || entry.player.connection == 0
    then (false, cleared)
    else (true, entry.player)

unfoldable pub current : Registry → PlayerConnection → Bool
current r connection =
    if not (valid_slot r connection.slot)
      || not (connection.reserved == 0)
      || connection.generation == 0
    then false
    else not (entry_at r connection.slot).disconnecting
      && (entry_at r connection.slot).player.connection == connection.generation
