-- ===== src/Tests/WorldRuns.antt =====
-- The world at concrete inputs.
use map_walker.Prelude.{ℕ, ◌≡◌, refl, true, false, ◌||◌, none, some, List, [], ◌∷◌, if◌then◌else◌}
use map_walker.Prelude.Int.{ℤ, pos, ◌*ℤ◌}
use map_walker.Prelude.Eq.{nat_eq}
use map_walker.Prelude.Map
use map_walker.Prelude.Set.{contains}
use map_walker.Game.Appearance.{default_appearance}
use map_walker.Game.World.{World, Player, InputState, new_player, step}
use map_walker.Game.World.Inputs.{Fed, feed, feed-Fed}
use map_walker.Game.World.Invariant.{
  IsConsistent, Call, apply_all, apply_all-IsConsistent, adds, inputs, steps, removes,
  takes_removed,
}
use map_walker.Game.World.{new_world}
use map_walker.Game.World.Walk.{has_direction, walked, is_walking, step-walked}
use map_walker.Tests.Grid.{whole, whole_units}

abbrev pub moves_up : ℕ → InputState
moves_up n = record { up = true; down = false; left = false; right = false; sequence = n }

abbrev walker : Player ℤ
walker = record (new_player 1 "anna" (pos 10) (pos 20) default_appearance) {
  input = moves_up 4;
  last_sequence = 4;
}

abbrev pub walkers : World ℤ
walkers = record {
  config = record { spawn_lat = pos 10; spawn_lng = pos 20; speed_meters_per_second = pos 2 };
  players = (1, walker) ∷ (2, new_player 2 "bert" (pos 30) (pos 40) default_appearance) ∷ [];
  tick = 0;
  moved_player_ids = [];
  removed_player_ids = [];
}

feed-Fed_example :
    Fed walkers 1 walker (feed walkers 1 (moves_up 5 ∷ moves_up 4 ∷ moves_up 7 ∷ moves_up 7 ∷ []))
unfolding Map.lookup
feed-Fed_example =
    feed-Fed walkers 1 walker (moves_up 5 ∷ moves_up 4 ∷ moves_up 7 ∷ moves_up 7 ∷ []) refl

step-walked_example :
    (Map.lookup 1 (step walkers (pos 3)).0.players ≡ (elim (Map.lookup 1 walkers.players) [
      | none ↦ none
      | some p ↦ some (
          if has_direction p.input
          then record p { position = walked (pos 6) p.input p.position }
          else p)
    ]))
    × (contains 1 (step walkers (pos 3)).1 ≡ is_walking walkers 1)
    × (contains 1 (step walkers (pos 3)).0.moved_player_ids
        ≡ (is_walking walkers 1 || contains 1 walkers.moved_player_ids))
unfolding Map.lookup ◌*ℤ◌
step-walked_example = step-walked whole_units walkers (pos 3) 1 (refl, (refl, tt))

abbrev history : List (Call ℤ)
history =
    adds 1 "anna" (pos 10) (pos 20) default_appearance
    ∷ inputs 1 (moves_up 1)
    ∷ steps (pos 1)
    ∷ removes 1
    ∷ takes_removed
    ∷ []

apply_all-IsConsistent_example : IsConsistent (apply_all (new_world walkers.config) history)
apply_all-IsConsistent_example = apply_all-IsConsistent walkers.config history
