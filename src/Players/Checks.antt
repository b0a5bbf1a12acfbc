-- ===== src/Players/Checks.antt =====
-- A small server's registry, and the theorems of the player registry at it.
use keel_s.Common.{◌≡◌, refl, inr, true, false, List, [], ◌∷◌, some, replicate, arith, not_found}
use keel_s.Common.Int.{pos}
use keel_s.Text.{Bytes}
use keel_s.Players.{
  Registry, PlayerInfo, PlayerConnection, empty_entry, create, connected, disconnected, update,
  pending, current, valid_slot, valid_facts, next_generation, cleared, copy_name,
}
use keel_s.Players.Connections.{Call, connects, disconnects, misses, updates, step, run}
use keel_s.Players.Invariant.{Inv, run-create-Inv, run_stale}
use keel_s.Players.Updates.{Updated, Refused, update_stores, update-Refused}
use keel_s.Players.Arrivals.{newcomer, connected_stores}
use keel_s.Players.Leaving.{disconnected_until_connected}

-- Two slots, nobody there.
abbrev lobby : Registry
lobby = record { entries = replicate 2 empty_entry; next_generation = 1 }

abbrev ann : Bytes
ann = b'a' ∷ b'n' ∷ b'n' ∷ []

-- Ann is in slot 0 with a user number, connected and no longer connecting.
abbrev ann_facts : PlayerInfo
ann_facts = record cleared { slot = pos 0; user_id = pos 7; flags = 1; name = copy_name ann }

abbrev came_and_left : List Call
came_and_left = connects (pos 0) (some ann) false ∷ disconnects (pos 0) ∷ []

abbrev ann_connection : PlayerConnection
ann_connection = record { slot = pos 0; reserved = 0; generation = 1 }

run-create-Inv_example : Inv (run lobby came_and_left)
unfolding create
run-create-Inv_example = run-create-Inv 2 lobby came_and_left refl

run_stale_example :
    current (run (run lobby came_and_left) (connects (pos 0) (some ann) false ∷ [])) ann_connection
    ≡ false
unfolding run step connected disconnected current valid_slot next_generation create
run_stale_example =
    run_stale (run lobby came_and_left) (connects (pos 0) (some ann) false ∷ []) ann_connection
      (run-create-Inv 2 lobby came_and_left refl) (inr (omega arith)) refl

update_stores_example : Updated lobby ann_facts
unfolding valid_slot valid_facts
update_stores_example = update_stores lobby ann_facts (refl, refl, refl, omega arith)

update-Refused_example : Refused lobby (record ann_facts { slot = pos 5 })
unfolding valid_slot
update-Refused_example = update-Refused lobby (record ann_facts { slot = pos 5 }) (λ h. cc (h.0))

connected_stores_example :
    pending (connected lobby (pos 0) (some ann) true).1 (pos 0)
    ≡ (true, newcomer (pos 0) 1 ann true)
unfolding valid_slot valid_facts
connected_stores_example = (connected_stores lobby ann_facts ann true refl refl (omega arith)).1

disconnected_until_connected_example :
    (update
      (run (disconnected lobby (pos 0)) (misses (pos 0) ∷ updates ann_facts ∷ []))
      ann_facts).0
    ≡ not_found
unfolding valid_slot valid_facts
disconnected_until_connected_example =
    (disconnected_until_connected lobby ann_facts (misses (pos 0) ∷ updates ann_facts ∷ []) refl
      refl tt).0
