-- ===== src/Tests/RealtimeRuns.antt =====
-- The messages of a broadcast at concrete inputs.
use map_walker.Prelude.{List, true}
use map_walker.Prelude.{ℕ, ◌≡◌, not, ◌||◌, ◌&&◌, none, some, [], ◌∷◌, ◌==◌, ◌+◌, if◌then◌else◌}
use map_walker.Prelude.Eq.{nat_eq}
use map_walker.Prelude.Int.{ℤ, pos}
use map_walker.Prelude.Map
use map_walker.Prelude.Set.{contains}
use map_walker.Game.Appearance.{default_appearance}
use map_walker.Game.World.{PlayerState, PlayerPosition}
use map_walker.Realtime.Messages.{
  ReplicationChanges, entered_ids, position_ids, entered_item_ids, spawned_item_ids,
  normalize_replication_changes,
}
use map_walker.Realtime.Messages.Normal.{normalize-players, normalize-collectibles}
use map_walker.Realtime.Builder.{ReplicationBuildInput, ReplicationBuildReader, build}
use map_walker.Realtime.Dispatcher.{update, new_replication_dispatcher}
use map_walker.Realtime.Dispatcher.Balance.{
  DispatcherCall, submits, works, stops, IsBalanced, run_dispatcher, run_dispatcher-IsBalanced,
}
use map_walker.Realtime.Builder.Received.{received, left_for, entered_to, build-received}

abbrev player : ℕ → PlayerState ℤ
player id = record {
  id = id;
  username = "anna";
  lat = pos 1;
  lng = pos 2;
  appearance = default_appearance;
}

abbrev place : ℕ → PlayerPosition ℤ
place id = record { id = id; lat = pos 3; lng = pos 4 }

-- The player 5 entered and left, 6 entered and moved; the item 8 was spawned and collected.
abbrev mixed : ReplicationChanges ℤ
mixed = record {
  self_position = none;
  entered = player 6 ∷ player 5 ∷ player 1 ∷ [];
  left_player_ids = 5 ∷ 7 ∷ 5 ∷ [];
  positions = place 6 ∷ place 9 ∷ place 7 ∷ [];
  appearances = [];
  collectibles_entered = record { id = 4; region_id = "park"; lat = pos 1; lng = pos 1 } ∷ [];
  collectible_ids_left = [];
  collectibles_spawned = record { id = 8; region_id = "park"; lat = pos 1; lng = pos 1 } ∷ [];
  collectible_ids_collected = 8 ∷ [];
}

normalize-players_example :
    (contains 5 (normalize_replication_changes 1 mixed).left_player_ids
      ≡ (contains 5 mixed.left_player_ids && not (5 == 1)))
    × (contains 5 (entered_ids (normalize_replication_changes 1 mixed).entered) ≡ (
        contains 5 (entered_ids mixed.entered)
        && not (5 == 1)
        && not (contains 5 mixed.left_player_ids)))
    × (contains 5 (position_ids (normalize_replication_changes 1 mixed).positions) ≡ (
        contains 5 (position_ids mixed.positions)
        && not (5 == 1)
        && not (contains 5 mixed.left_player_ids)
        && not (contains 5 (entered_ids mixed.entered))))
normalize-players_example = normalize-players 1 mixed 5

normalize-collectibles_example :
    (contains 8 (normalize_replication_changes 1 mixed).collectible_ids_left
      ≡ contains 8 mixed.collectible_ids_left)
    × (contains 8 (normalize_replication_changes 1 mixed).collectible_ids_collected
        ≡ contains 8 mixed.collectible_ids_collected)
    × (contains 8 (spawned_item_ids (normalize_replication_changes 1 mixed).collectibles_spawned)
        ≡ (contains 8 (spawned_item_ids mixed.collectibles_spawned)
            && not (contains 8 mixed.collectible_ids_left)
            && not (contains 8 mixed.collectible_ids_collected)))
    × (contains 8 (entered_item_ids (normalize_replication_changes 1 mixed).collectibles_entered)
        ≡ (contains 8 (entered_item_ids mixed.collectibles_entered)
            && not (contains 8 (spawned_item_ids mixed.collectibles_spawned))
            && not (contains 8 mixed.collectible_ids_left)
            && not (contains 8 mixed.collectible_ids_collected)))
normalize-collectibles_example = normalize-collectibles 1 mixed 8

-- The clients 1 and 2 see each other and 3.
abbrev reader : ReplicationBuildReader ℤ ℕ
reader = record {
  connected = λ id. id == 1 || id == 2;
  client = λ id. if id == 1 || id == 2 then some (100 + id) else none;
  visible_neighbors = λ id. 1 ∷ 2 ∷ 3 ∷ [];
  player_position = λ id. some (place id);
}

abbrev input : ReplicationBuildInput ℤ
input = record {
  tick = 12;
  movement_deltas = record { player_id = 3; entered = []; left = []; stable = 1 ∷ 2 ∷ [] } ∷ [];
  pending_entered = player 3 ∷ [];
  pending_left = (2, 9 ∷ []) ∷ (4, 1 ∷ []) ∷ [];
  pending_appearances = (3, default_appearance) ∷ [];
  collect_entered = [];
  collect_left = (1, 6 ∷ []) ∷ [];
  collect_spawned = [];
  collect_collected = [];
}

build-received_example :
    ((received 2 (build reader input).0).left_player_ids ≡ (
      if Map.is_some (reader.client 2) && reader.connected 2
      then left_for reader 2 input.pending_left
      else []))
    × (contains 3 (entered_ids (received 2 (build reader input).0).entered) ≡ (
        Map.is_some (reader.client 2)
        && reader.connected 2
        && entered_to reader 2 input.pending_entered 3))
build-received_example = build-received reader 2 input 3

-- Two workers with queues of one; the second job for 3 is dropped.
abbrev dispatcher_calls : List (DispatcherCall ℕ)
dispatcher_calls =
    submits 3 100 ∷ submits 3 101 ∷ submits 4 102 ∷ works 1 (update 20 true) ∷ stops ∷ []

run_dispatcher-IsBalanced_example :
    IsBalanced (run_dispatcher (new_replication_dispatcher 2 1) dispatcher_calls)
run_dispatcher-IsBalanced_example = run_dispatcher-IsBalanced 2 1 dispatcher_calls
