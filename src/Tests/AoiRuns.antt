-- ===== src/Tests/AoiRuns.antt =====
-- The AOI index on three players along a meridian.
use map_walker.Prelude.{ℕ, ◌≡◌, refl, Option, none, some, List, [], ◌∷◌, Succeeds}
use map_walker.Prelude.Int.{ℤ, pos, ◌+ℤ◌, ◌-ℤ◌, ◌*ℤ◌}
use map_walker.Prelude.Map
use map_walker.Prelude.Set
use map_walker.Prelude.MultiMap.{members, link, unlink, linked}
use map_walker.Prelude.Sort
use map_walker.Game.Geometry.{AoiConfig, nine_cells, local_to_cell, lat_lng_to_local}
use map_walker.Game.Aoi.{
  AoiIndex, has_player, new_aoi_index, is_visible, insert, move_detailed, recalculate_relationships,
  remove, full_scan, enter_scan_nine_cells, scan_candidates, scan_candidate, enter_if_near,
  add_relationship, remove_relationship, leave_check_existing_neighbors, collect_left, drop_left,
  drop_neighbor, set_position, mark_enter_scan, members_of_cells, within_enter_radius,
  beyond_leave_radius, should_force_enter_scan, enter_scan_if_forced, conclude_move, unlink_all,
  visible_neighbors,
}
use map_walker.Game.Aoi.History.{
  Call, inserts, moves, removes, recalculates, run, step, IsSound, run-new-IsSound,
}
use map_walker.Tests.Grid.{whole, whole_laws, div_ℤ}

-- All that a run computes with.
unfoldable pub runs : Unit {0}
unfolding has_player new_aoi_index is_visible insert move_detailed recalculate_relationships remove
    full_scan enter_scan_nine_cells scan_candidates scan_candidate enter_if_near add_relationship
    remove_relationship leave_check_existing_neighbors collect_left drop_left drop_neighbor
    set_position mark_enter_scan members_of_cells within_enter_radius beyond_leave_radius
    should_force_enter_scan enter_scan_if_forced conclude_move unlink_all visible_neighbors
    Map.lookup Map.insert Map.delete Set.contains Set.add Set.remove Set.keep members link unlink
    linked Sort.sort Sort.sort_insert Sort.set_keys nine_cells local_to_cell lat_lng_to_local ◌+ℤ◌
    ◌-ℤ◌ ◌*ℤ◌ div_ℤ run step
runs = tt

-- Cells of 600, radii of 500 and 600, rescans after 50 (in thousands of meters).
abbrev pub config : AoiConfig ℤ
config = record {
  origin_lat = pos 0;
  origin_lng = pos 0;
  cell_size_meters = pos 600000;
  enter_radius_meters = pos 500000;
  leave_radius_meters = pos 600000;
  enter_rescan_distance_meters = pos 50000;
}

abbrev calls : List (Call ℤ)
calls =
    inserts 1 (pos 0) (pos 0)
    ∷ inserts 2 (pos 4) (pos 0)
    ∷ inserts 3 (pos 9) (pos 0)
    ∷ moves 2 (pos 5) (pos 0)
    ∷ moves 2 (pos 6) (pos 0)
    ∷ removes 3
    ∷ recalculates 1
    ∷ []

seen_by : Option (AoiIndex ℤ) → ℕ → List ℕ
seen_by none p = []
seen_by (some a) p = visible_neighbors a p

-- Player 2 sees 1 at first, keeps it in sight up to the leave radius, and comes to see 3.
run_seen :
    (seen_by
        (run (new_aoi_index config) (inserts 1 (pos 0) (pos 0) ∷ inserts 2 (pos 4) (pos 0) ∷ []))
        2
      ≡ 1 ∷ [])
unfolding runs seen_by
run_seen = refl

run-new-IsSound_example : Succeeds (run (new_aoi_index config) calls) (IsSound config)
unfolding ◌*ℤ◌
run-new-IsSound_example = run-new-IsSound whole_laws config refl calls
