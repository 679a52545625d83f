-- ===== src/Game/Regions.antt =====
-- internal/game/collectible_config.go: the regions of the collectibles. Reading the file and
-- decoding its JSON are left to os and encoding/json: `validate_and_convert_regions` starts from
-- the decoded list.
pub mod Validity
pub mod Respawn
use Prim.Native.String.{String}
use map_walker.Prelude.{
  ℕ, Bool, true, false, ◌||◌, Option, none, some, List, [], ◌∷◌, ◌++◌, if◌then◌else◌,
}
use map_walker.Prelude.Int.{ℤ, pos, ◌*ℤ◌, leb_ℤ, ltb_ℤ}
use map_walker.Prelude.Eq.{string_eq}
use map_walker.Prelude.Float.{Float64}
use map_walker.Prelude.Set.{contains}
use map_walker.Prelude.Word.{wrap_i64}
use map_walker.Game.Geometry.{meters_per_degree_latitude, meters_per_degree_longitude}
use map_walker.Game.Collectibles.{CollectibleRegion}

pub record CollectiblePointJson (F : Type 0) : Type 0 where
  pub lat : F
  pub lng : F

pub record CollectibleRegionJson (F : Type 0) : Type 0 where
  pub id : String
  pub center : CollectiblePointJson F
  pub radius_meters : F
  pub target_count : ℤ
  pub respawn_min_seconds : ℤ
  pub respawn_max_seconds : ℤ

-- The error messages, by the check that fails.
pub data RegionError : Type 0 where
  no_regions : RegionError
  empty_id : RegionError
  duplicate_id : String → RegionError
  bad_latitude : String → RegionError
  bad_longitude : String → RegionError
  bad_radius : String → RegionError
  bad_target_count : String → RegionError
  bad_respawn_time : String → RegionError
  respawn_min_above_max : String → RegionError
  overlap : String → String → RegionError

-- `([]CollectibleRegion, error)`
pub data Regions (F : Type 0) : Type 0 where
  refused : RegionError → Regions F
  accepted : List (CollectibleRegion F) → Regions F

abbrev pub second : ℤ
second = pos 1000000000

module _ ⦃fl : Float64⦄ where
  open fl use {F, lit, fadd, fsub, fmul, fdiv, fleb, fltb, hypot}

  -- `-x` of a literal
  abbrev pub minus : ℕ → F
  minus n = fsub (lit 0 1) (lit n 1)

  unfoldable pub haversine_meters : F → F → F → F → F
  haversine_meters lat1 lng1 lat2 lng2 =
      hypot (fmul (fsub lat1 lat2) meters_per_degree_latitude)
        (fmul (fsub lng1 lng2) (meters_per_degree_longitude (fdiv (fadd lat1 lat2) (lit 2 1))))

  -- `dist < minDist`
  unfoldable pub overlaps : CollectibleRegion F → CollectibleRegion F → Bool
  overlaps a b =
      fltb (haversine_meters a.center_lat a.center_lng b.center_lat b.center_lng)
        (fadd a.radius_meters b.radius_meters)

  -- The inner loop of `checkRegionOverlap`, and the outer.
  unfoldable pub overlap_with :
      CollectibleRegion F → List (CollectibleRegion F) → Option RegionError
  overlap_with a [] = none
  overlap_with a (b ∷ bs) =
      let rest = overlap_with a bs in if overlaps a b then some (overlap a.id b.id) else rest

  unfoldable pub check_region_overlap : List (CollectibleRegion F) → Option RegionError
  check_region_overlap [] = none
  check_region_overlap (a ∷ rs) =
      let rest = check_region_overlap rs in
      elim (overlap_with a rs) [ none ↦ rest | some e ↦ some e ]

  -- The checks of one region, in their order.
  unfoldable pub check_region : List String → CollectibleRegionJson F → Option RegionError
  check_region ids j =
      if string_eq.beq j.id ""
      then some empty_id
      else if contains j.id ids
      then some (duplicate_id j.id)
      else if fltb j.center.lat (minus 90) || fltb (lit 90 1) j.center.lat
      then some (bad_latitude j.id)
      else if fltb j.center.lng (minus 180) || fltb (lit 180 1) j.center.lng
      then some (bad_longitude j.id)
      else if fleb j.radius_meters (lit 0 1)
      then some (bad_radius j.id)
      else if leb_ℤ j.target_count (pos 0)
      then some (bad_target_count j.id)
      else if leb_ℤ j.respawn_min_seconds (pos 0) || leb_ℤ j.respawn_max_seconds (pos 0)
      then some (bad_respawn_time j.id)
      else if ltb_ℤ j.respawn_max_seconds j.respawn_min_seconds
      then some (respawn_min_above_max j.id)
      else none

  -- `time.Duration(n) * time.Second` wraps around where it leaves the int64 numbers.
  unfoldable pub convert_region : CollectibleRegionJson F → CollectibleRegion F
  convert_region j = record {
    id = j.id;
    center_lat = j.center.lat;
    center_lng = j.center.lng;
    radius_meters = j.radius_meters;
    target_count = j.target_count;
    respawn_min = wrap_i64 (j.respawn_min_seconds *ℤ second);
    respawn_max = wrap_i64 (j.respawn_max_seconds *ℤ second);
  }

  -- The loop, with the ids seen and the regions converted so far.
  unfoldable pub convert_regions :
      List String → List (CollectibleRegion F) → List (CollectibleRegionJson F) → Regions F
  convert_regions ids regions [] = elim (check_region_overlap regions) [
    | none ↦ accepted regions
    | some e ↦ refused e
  ]
  convert_regions ids regions (j ∷ js) =
      let rest = convert_regions (j.id ∷ ids) (regions ++ (convert_region j ∷ [])) js in
      elim (check_region ids j) [ none ↦ rest | some e ↦ refused e ]

  unfoldable pub validate_and_convert_regions : List (CollectibleRegionJson F) → Regions F
  validate_and_convert_regions [] = refused no_regions
  validate_and_convert_regions (j ∷ js) = convert_regions [] [] (j ∷ js)
