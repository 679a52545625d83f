-- ===== src/Tests/AoiLaws.antt =====
-- The theorems on single operations of the AOI index, at an index of three players.
use map_walker.Prelude.{◌≡◌, refl, not, ◌&&◌, Option, none, some, List, [], ◌∷◌, Succeeds, ◌==◌}
use map_walker.Prelude.Int.{ℤ, pos, ◌*ℤ◌}
use map_walker.Prelude.Eq.{nat_eq}
use map_walker.Game.Aoi.{AoiIndex, is_visible, new_aoi_index, move_detailed, insert, remove}
use map_walker.Game.Aoi.Move.{Moved, move_detailed-Moved}
use map_walker.Game.Aoi.Insertion.{Inserted, insert-Inserted}
use map_walker.Game.Aoi.Remove.{is_visible-remove}
use map_walker.Game.Aoi.History.{IsSound, run, run-new-IsSound, Call, inserts}
use map_walker.Tests.Grid.{whole, whole_laws}
use map_walker.Tests.AoiRuns.{runs, config}

index_or : AoiIndex ℤ → Option (AoiIndex ℤ) → AoiIndex ℤ
index_or a none = a
index_or a (some b) = b

abbrev three_calls : List (Call ℤ)
three_calls = inserts 1 (pos 0) (pos 0) ∷ inserts 2 (pos 4) (pos 0) ∷ inserts 3 (pos 9) (pos 0) ∷ []

abbrev three : AoiIndex ℤ
unfolding index_or
three = index_or (new_aoi_index config) (run (new_aoi_index config) three_calls)

three-IsSound : IsSound config three
unfolding runs index_or ◌*ℤ◌
three-IsSound = run-new-IsSound whole_laws config refl three_calls

move_detailed-Moved_example :
    Succeeds (move_detailed three 2 (pos 5) (pos 0)) (Moved three 2 (pos 5) (pos 0))
unfolding runs index_or
move_detailed-Moved_example =
    move_detailed-Moved three 2 (pos 5) (pos 0) three-IsSound.structured refl

insert-Inserted_example :
    Succeeds (insert three 4 (pos 8) (pos 0)) (Inserted three 4 (pos 8) (pos 0))
unfolding runs index_or ◌*ℤ◌
insert-Inserted_example =
    insert-Inserted whole_laws three 4 (pos 8) (pos 0) (refl) three-IsSound.structured refl

is_visible-remove_example :
    is_visible (remove three 2).0 1 3 ≡ (not (2 == 1) && not (2 == 3) && is_visible three 1 3)
is_visible-remove_example = is_visible-remove three 2 three-IsSound.structured 1 3
