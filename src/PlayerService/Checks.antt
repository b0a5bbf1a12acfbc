-- ===== src/PlayerService/Checks.antt =====
-- A plugin that asks for the players of a server with two slots, and the theorems at it.
use keel_s.Common.{
  ◌==◌, true, false, [], ◌∷◌, none, some, replicate, if◌then◌else◌, ok, not_found, KeelResult, ◌≡◌,
  refl, arith,
}
use keel_s.Common.Int.{ℤ, pos, negsuc}
use keel_s.Players.{
  PlayerInfo, PlayerConnection, Registry, empty_entry, cleared, copy_name, valid_slot, update,
  missing, pending, valid_facts, next_generation,
}
use keel_s.Plugins.{Plugin, Host, loaded, no_diagnostic, plugin_by_handle}
use keel_s.PlayerService.{Game, read, read_next, get, request}
use keel_s.PlayerService.Next.{NamesSlots, answer, first_from, read_next-first_from}
use keel_s.PlayerService.Access.{Allowed, Matches, request-ok}

abbrev asker : Plugin
asker = record {
  handle = 1;
  library_open = true;
  load = true;
  unload = true;
  prepare_pause = false;
  prepare_pause_active = false;
  prepare_unload = false;
  prepare_unload_active = false;
  file = [];
  name = [];
  version = [];
  diagnostic = no_diagnostic;
  dependencies = [];
  state = loaded;
  selectable = true;
  accepting_resources = true;
  is_starting = false;
  transitioning = false;
  cleanup_pending = false;
  cleanup_callback_active = false;
  factory_dispatch_enabled = true;
  active_native_operations = 0;
}

abbrev host : Host
host = record {
  plugins = asker ∷ [];
  disabled_plugins = [];
  commands = [];
  retired_commands = [];
  load_order = 1 ∷ [];
  next_plugin = 2;
  accepting_resources = true;
}

abbrev lobby : Registry
lobby = record { entries = replicate 2 empty_entry; next_generation = 1 }

-- "ann", in slot 1.
abbrev ann_facts : PlayerInfo
ann_facts = record cleared {
  slot = pos 1;
  user_id = pos 7;
  flags = 1;
  name = copy_name (b'a' ∷ b'n' ∷ b'n' ∷ []);
}

abbrev facts_of : ℤ → KeelResult × PlayerInfo
facts_of (pos m) = if m == 1 then (ok, ann_facts) else (not_found, cleared)
facts_of (negsuc m) = (not_found, cleared)

abbrev game : Game
game = record { is_game_thread = true; tracking = ok; read_player = facts_of }

abbrev ann_connection : PlayerConnection
ann_connection = record { slot = pos 1; reserved = 0; generation = 1 }

game-NamesSlots : NamesSlots game
game-NamesSlots m h = ground arith

-- The next player behind slot -1 is the one in slot 1, who gets the first connection.
next_is_ann :
    answer (request game host lobby 1 (negsuc 0) true none)
    ≡ (ok, record ann_facts { connection = 1 })
unfolding request get plugin_by_handle read_next read update missing pending valid_slot valid_facts
    next_generation
next_is_ann = refl

read_next-first_from_example : answer (read_next game lobby 0 2) ≡ first_from game lobby 0 2
read_next-first_from_example = read_next-first_from game lobby 0 2 game-NamesSlots

request-ok_example :
    Allowed game host lobby 1 (pos 1)
    × Matches
        (some ann_connection)
        (request game host lobby 1 (pos 1) false (some ann_connection)).2
unfolding request get plugin_by_handle read update valid_slot valid_facts next_generation
request-ok_example = request-ok game host lobby 1 (pos 1) (some ann_connection) refl
