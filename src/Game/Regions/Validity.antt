-- ===== src/Game/Regions/Validity.antt =====
-- `validateAndConvertRegions` of collectible_config.go against a description of valid files.
use Prim.Native.String.{String}
use map_walker.Prelude.{
  ◌≡◌, refl, Bool, true, not, ◌&&◌, Option, none, some, List, [], ◌∷◌, ◌++◌, map, append_assoc,
  append-nil, if◌then◌else◌, arith,
}
use map_walker.Prelude.Int.{pos, leb_ℤ, ltb_ℤ}
use map_walker.Prelude.Eq.{string_eq}
use map_walker.Prelude.Float.{Float64}
use map_walker.Prelude.Map
use map_walker.Prelude.MultiMap.{is_empty}
use map_walker.Prelude.Set.{contains}
use map_walker.Game.Collectibles.{CollectibleRegion}
use map_walker.Game.Regions.{
  CollectibleRegionJson, Regions, refused, accepted, minus, overlaps, overlap_with,
  check_region_overlap, check_region, convert_region, convert_regions, validate_and_convert_regions,
}

module _ ⦃fl : Float64⦄ where
  open fl use {F, lit, fleb, fltb}

  -- A region that is fine by itself.
  unfoldable pub well_formed : CollectibleRegionJson F → Bool
  well_formed j =
      not (string_eq.beq j.id "")
      && not (fltb j.center.lat (minus 90))
      && not (fltb (lit 90 1) j.center.lat)
      && not (fltb j.center.lng (minus 180))
      && not (fltb (lit 180 1) j.center.lng)
      && not (fleb j.radius_meters (lit 0 1))
      && ltb_ℤ (pos 0) j.target_count
      && ltb_ℤ (pos 0) j.respawn_min_seconds
      && leb_ℤ j.respawn_min_seconds j.respawn_max_seconds

  unfoldable pub all_well_formed : List (CollectibleRegionJson F) → Bool
  all_well_formed [] = true
  all_well_formed (j ∷ js) = well_formed j && all_well_formed js

  unfoldable pub ids_of : List (CollectibleRegionJson F) → List String
  ids_of [] = []
  ids_of (j ∷ js) = j.id ∷ ids_of js

  unfoldable pub distinct : List String → Bool
  distinct [] = true
  distinct (x ∷ xs) = not (contains x xs) && distinct xs

  unfoldable pub disjoint_from : CollectibleRegion F → List (CollectibleRegion F) → Bool
  disjoint_from a [] = true
  disjoint_from a (b ∷ bs) = not (overlaps a b) && disjoint_from a bs

  -- No region overlaps a later one.
  unfoldable pub disjoint : List (CollectibleRegion F) → Bool
  disjoint [] = true
  disjoint (a ∷ rs) = disjoint_from a rs && disjoint rs

  abbrev pub result_of : Regions F → Option (List (CollectibleRegion F))
  result_of (refused e) = none
  result_of (accepted rs) = some rs

  abbrev pub converted : List (CollectibleRegionJson F) → List (CollectibleRegion F)
  converted js = map convert_region js

  -- Ids of the list that stand in another one.
  none_in : List String → List String → Bool
  none_in ids [] = true
  none_in ids (x ∷ xs) = not (contains x ids) && none_in ids xs

  overlap_with-disjoint :
      (a : CollectibleRegion F) (rs : List (CollectibleRegion F))
      → Map.is_some (overlap_with a rs) ≡ not (disjoint_from a rs)
  unfolding overlap_with disjoint_from
  overlap_with-disjoint a [] = refl
  overlap_with-disjoint a (b ∷ rs) = ground (arith, overlap_with-disjoint a rs)

  check_overlap-disjoint :
      (rs : List (CollectibleRegion F)) → Map.is_some (check_region_overlap rs) ≡ not (disjoint rs)
  unfolding check_region_overlap disjoint
  check_overlap-disjoint [] = refl
  check_overlap-disjoint (a ∷ rs) =
      ground (arith, overlap_with-disjoint a rs, check_overlap-disjoint rs)

  check_region-well_formed :
      (ids : List String) (j : CollectibleRegionJson F)
      → Map.is_some (check_region ids j) ≡ not (well_formed j && not (contains j.id ids))
  unfolding check_region well_formed
  check_region-well_formed ids j = ground arith

  none_in-cons :
      (y : String) (ids xs : List String)
      → none_in (y ∷ ids) xs ≡ (not (contains y xs) && none_in ids xs)
  unfolding none_in contains
  none_in-cons y ids [] = refl
  none_in-cons y ids (x ∷ xs) =
      ground (arith, none_in-cons y ids xs, string_eq.beq_iff y x, string_eq.beq_iff x y)

  none_in-nil : (xs : List String) → none_in [] xs ≡ true
  unfolding none_in contains
  none_in-nil [] = refl
  none_in-nil (x ∷ xs) = none_in-nil xs

  convert_regions-result :
      (ids : List String) (rs : List (CollectibleRegion F)) (js : List (CollectibleRegionJson F))
      → result_of (convert_regions ids rs js) ≡ (
          if all_well_formed js
            && none_in ids (ids_of js)
            && distinct (ids_of js)
            && disjoint (rs ++ converted js)
          then some (rs ++ converted js)
          else none)
  unfolding convert_regions all_well_formed none_in ids_of distinct
  convert_regions-result ids rs [] = ground (arith, check_overlap-disjoint rs, append-nil rs)
  convert_regions-result ids rs (j ∷ js) = ground (
    arith,
    check_region-well_formed ids j,
    convert_regions-result (j.id ∷ ids) (rs ++ (convert_region j ∷ [])) js,
    none_in-cons j.id ids (ids_of js),
    append_assoc rs (convert_region j ∷ []) (converted js),
  )

  -- The decoded regions are accepted exactly when there is at least one, each is well formed, the
  -- ids are distinct and no two overlap; the result is then every region, converted, in order.
  pub validate_and_convert_regions-result :
      (js : List (CollectibleRegionJson F))
      → result_of (validate_and_convert_regions js) ≡ (
          if not (is_empty js)
            && all_well_formed js
            && distinct (ids_of js)
            && disjoint (converted js)
          then some (converted js)
          else none)
  unfolding validate_and_convert_regions
  validate_and_convert_regions-result [] = refl
  validate_and_convert_regions-result (j ∷ js) =
      ground (arith, convert_regions-result [] [] (j ∷ js), none_in-nil (ids_of (j ∷ js)))
