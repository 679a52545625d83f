-- ===== src/Tests/CollectibleRuns.antt =====
-- The collectible field at concrete inputs.
use map_walker.Prelude.{
  ℕ, ◌≡◌, refl, not, ◌&&◌, Option, none, some, List, [], ◌∷◌, Succeeds, arith, if◌then◌else◌,
  or_else, ap, sym, ◌∙◌, ◌+◌, ◌≤◌, length,
}
use map_walker.Prelude.Int.{ℤ, pos, ◌+ℤ◌, ◌-ℤ◌, ◌*ℤ◌}
use map_walker.Prelude.Eq.{nat_eq, string_eq}
use map_walker.Prelude.MultiMap.{is_empty}
use map_walker.Prelude.Set.{contains}
use map_walker.Prelude.Word.{wrap_i64}
use map_walker.Game.Collectibles.{
  CollectibleField, CollectibleRegion, new_collectible_field, populate, advance_replacements,
  remove, region_by_id, spawn_in_region,
}
use map_walker.Game.Collectibles.Stock.{
  IsStocked-same, Spawned, new-IsStocked, spawn_in_region-Spawned,
}
use map_walker.Game.Collectibles.Population.{Removed, CanRespawn, remove-Removed}
use map_walker.Game.Collectibles.Advance.{Advanced, advance_replacements-Advanced}
use map_walker.Game.Collectibles.Populate.{Grown, all_targets, targets, populate-Grown}
use map_walker.Game.Regions.{
  CollectibleRegionJson, accepted, convert_region, convert_regions, check_region,
  check_region_overlap, overlap_with, overlaps, haversine_meters, validate_and_convert_regions,
}
use map_walker.Game.Regions.Validity.{
  all_well_formed, distinct, ids_of, disjoint, converted, result_of,
  validate_and_convert_regions-result,
}
use map_walker.Game.Regions.Respawn.{all_fit, accepted-CanRespawn}
use map_walker.Tests.Grid.{whole, div_ℤ}
use map_walker.Tests.AoiRuns.{config}

abbrev park : CollectibleRegionJson ℤ
park = record {
  id = "park";
  center = record { lat = pos 50; lng = pos 20 };
  radius_meters = pos 100;
  target_count = pos 2;
  respawn_min_seconds = pos 30;
  respawn_max_seconds = pos 90;
}

abbrev plaza : CollectibleRegionJson ℤ
plaza = record park {
  id = "plaza";
  center = record { lat = pos 30; lng = pos 20 };
  target_count = pos 1;
}

abbrev file_regions : List (CollectibleRegionJson ℤ)
file_regions = park ∷ plaza ∷ []

validate_and_convert_regions-result_example :
    result_of (validate_and_convert_regions file_regions) ≡ (
      if not (is_empty file_regions)
        && all_well_formed file_regions
        && distinct (ids_of file_regions)
        && disjoint (converted file_regions)
      then some (converted file_regions)
      else none)
validate_and_convert_regions-result_example = validate_and_convert_regions-result file_regions

abbrev regions : List (CollectibleRegion ℤ)
regions = converted file_regions

abbrev pub draw_float : ℕ → ℤ
draw_float n = pos n

abbrev pub draw_int : ℕ → ℕ → ℕ
draw_int n k = 0

abbrev new_field : CollectibleField ℤ
new_field = new_collectible_field config regions

spawn_in_region-Spawned_example :
    Succeeds
      (spawn_in_region draw_float (convert_region park) new_field)
      (Spawned (convert_region park) new_field)
unfolding new_collectible_field
spawn_in_region-Spawned_example =
    spawn_in_region-Spawned draw_float (convert_region park) new_field
      (new-IsStocked config regions) (omega arith)

populate-Grown_example :
    Succeeds
      (populate draw_float new_field)
      (Grown (all_targets new_field.regions) (λ id. targets id new_field.regions) new_field [])
unfolding new_collectible_field all_targets convert_region
populate-Grown_example =
    populate-Grown draw_float new_field (new-IsStocked config regions) (omega arith)

pub from_success :
    {A : Type 0} (P : A → Type 0) (r : Option A) (d : A) → Succeeds r P → P (or_else r d)
from_success P none d h = absurd h
from_success P (some a) d h = h

abbrev pub populated : CollectibleField ℤ
populated = (or_else (populate draw_float new_field) (new_field, [])).0

pub populated-Grown :
    Grown
      (all_targets regions)
      (λ id. targets id regions)
      new_field
      []
      (or_else (populate draw_float new_field) (new_field, []))
unfolding new_collectible_field
populated-Grown =
    from_success _ (populate draw_float new_field) (new_field, []) populate-Grown_example

file_regions-accepted : validate_and_convert_regions file_regions ≡ accepted regions
unfolding validate_and_convert_regions convert_regions check_region check_region_overlap
    overlap_with overlaps haversine_meters convert_region contains wrap_i64 ◌+ℤ◌ ◌-ℤ◌ ◌*ℤ◌ div_ℤ
file_regions-accepted = refl

accepted-CanRespawn_example : CanRespawn (new_collectible_field config regions) draw_int
unfolding all_fit
accepted-CanRespawn_example =
    accepted-CanRespawn draw_int config file_regions regions file_regions-accepted refl

pub populated-supply : populated.next_id + length populated.replacements ≤ 100
unfolding new_collectible_field all_targets convert_region
populated-supply = omega (arith, populated-Grown.next_id, ap length populated-Grown.replacements)

regions_kept : populated.regions ≡ regions
unfolding new_collectible_field
regions_kept = populated-Grown.regions

pub populated-CanRespawn : CanRespawn populated draw_int
unfolding new_collectible_field
populated-CanRespawn id region n found =
    accepted-CanRespawn_example id region n (ap (region_by_id id) (sym regions_kept) ∙ found)

remove-Removed_example : Succeeds (remove draw_int (pos 7) populated 1) (Removed populated 1)
remove-Removed_example =
    remove-Removed draw_int (pos 7) populated 1 populated-Grown.stocked populated-CanRespawn

-- Two deadlines have come at the time 7, and one has not.
abbrev waiting : CollectibleField ℤ
waiting = record populated {
  replacements =
      record { region_id = "park"; due_at = pos 5 }
      ∷ record { region_id = "plaza"; due_at = pos 9 }
      ∷ record { region_id = "plaza"; due_at = pos 7 }
      ∷ [];
}

advance_replacements-Advanced_example :
    Succeeds (advance_replacements draw_float (pos 7) waiting) (Advanced (pos 7) waiting)
unfolding new_collectible_field all_targets convert_region
advance_replacements-Advanced_example =
    advance_replacements-Advanced draw_float (pos 7) waiting
      (IsStocked-same {f = populated} refl refl refl refl populated-Grown.stocked)
      (omega (arith, populated-Grown.next_id))
