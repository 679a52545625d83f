-- ===== src/Game/Regions/Respawn.antt =====
-- The respawn times of collectible_config.go as bounds for the IntN of collectible.go.
use Prim.Native.String.{String}
use map_walker.Prelude.{
  ℕ, suc, ◌+◌, ◌-◌, ◌*◌, ◌<◌, ◌≤◌, ◌≡◌, refl, ap, ◌∙◌, Bool, true, ◌&&◌, some, List, [], ◌∷◌, arith,
}
use map_walker.Prelude.Int.{ℤ, pos, ◌*ℤ◌, ◌+ℤ◌, ◌-ℤ◌, leb_ℤ, pos_part}
use map_walker.Prelude.Eq.{string_eq}
use map_walker.Prelude.Float.{Float64}
use map_walker.Prelude.Map
use map_walker.Prelude.Word.{wrap_i64, wrap_i64_small}
use map_walker.Game.Geometry.{AoiConfig}
use map_walker.Game.Collectibles.{
  CollectibleRegion, region_by_id, respawn_delay, new_collectible_field,
}
use map_walker.Game.Collectibles.Population.{CanRespawn}
use map_walker.Game.Regions.{
  CollectibleRegionJson, convert_region, second, accepted, validate_and_convert_regions,
}
use map_walker.Game.Regions.Validity.{
  well_formed, all_well_formed, converted, validate_and_convert_regions-result,
}

nanoseconds : (n : ℕ) → n ≤ 9223372036 → wrap_i64 (pos n *ℤ second) ≡ pos (n * 1000000000)
unfolding ◌*ℤ◌
nanoseconds n h = ap wrap_i64 (ground arith) ∙ wrap_i64_small (n * 1000000000) (omega arith)

pos_of : (a : ℤ) → leb_ℤ (pos 0) a ≡ true → a ≡ pos (pos_part a)
pos_of a h = ground arith

-- The bound of IntN for m to n nanoseconds.
bound_lem :
    (m n : ℕ)
    → m ≤ n
    → n + 1 < 9223372036854775808
    → wrap_i64 (wrap_i64 (pos n -ℤ pos m) +ℤ pos 1) ≡ pos (suc (n - m))
unfolding ◌-ℤ◌ ◌+ℤ◌
bound_lem m n h k =
    ap (λ d. wrap_i64 (d +ℤ pos 1))
      (ap wrap_i64 (ground arith) ∙ wrap_i64_small (n - m) (omega arith))
    ∙ ap wrap_i64 (ground arith)
    ∙ wrap_i64_small (suc (n - m)) (omega arith)

module _ ⦃fl : Float64⦄ where
  open fl use {F}

  -- The longest respawn time is below 2^63 nanoseconds.
  unfoldable pub all_fit : List (CollectibleRegionJson F) → Bool
  all_fit [] = true
  all_fit (j ∷ js) = leb_ℤ j.respawn_max_seconds (pos 9223372036) && all_fit js

  module _ (draw_int : ℕ → ℕ → ℕ) where
    delay_some :
        (r : CollectibleRegion F) (b draw : ℕ)
        → wrap_i64 (wrap_i64 (r.respawn_max -ℤ r.respawn_min) +ℤ pos 1) ≡ pos (suc b)
        → Map.is_some (respawn_delay draw_int r draw) ≡ true
    unfolding respawn_delay
    delay_some r b draw e = rw (e, respawn_delay) refl

    converted_delay :
        (j : CollectibleRegionJson F) (draw m n : ℕ)
        → j.respawn_min_seconds ≡ pos m
        → j.respawn_max_seconds ≡ pos n
        → m ≤ n
        → n ≤ 9223372036
        → Map.is_some (respawn_delay draw_int (convert_region j) draw) ≡ true
    unfolding convert_region
    converted_delay j draw m n e k h fits =
        delay_some (convert_region j) (n * 1000000000 - m * 1000000000) draw (
          rw (e, k, nanoseconds m (omega arith), nanoseconds n fits)
            (bound_lem (m * 1000000000) (n * 1000000000) (omega arith) (omega arith)))

    fit_delay :
        (j : CollectibleRegionJson F) (draw : ℕ)
        → well_formed j ≡ true
        → leb_ℤ j.respawn_max_seconds (pos 9223372036) ≡ true
        → Map.is_some (respawn_delay draw_int (convert_region j) draw) ≡ true
    unfolding well_formed
    fit_delay j draw w fits =
        converted_delay j draw (pos_part j.respawn_min_seconds) (pos_part j.respawn_max_seconds)
          (pos_of j.respawn_min_seconds (ground arith))
          (pos_of j.respawn_max_seconds (ground arith)) (ground arith) (ground arith)

    region_delay :
        (js : List (CollectibleRegionJson F)) (id : String) (region : CollectibleRegion F)
        (draw : ℕ)
        → all_well_formed js ≡ true
        → all_fit js ≡ true
        → region_by_id id (converted js) ≡ some region
        → Map.is_some (respawn_delay draw_int region draw) ≡ true
    unfolding all_well_formed all_fit region_by_id
    region_delay [] id region draw w fits e = cc
    region_delay (j ∷ js) id region draw w fits e =
        ground (arith, fit_delay j draw, region_delay js id region draw)

    -- If the regions are accepted and every longest respawn time is at most 9223372036 seconds, the
    -- delay of every region of the field can be drawn: the bound passed to IntN is positive.
    pub accepted-CanRespawn :
        (c : AoiConfig F) (js : List (CollectibleRegionJson F)) (rs : List (CollectibleRegion F))
        → validate_and_convert_regions js ≡ accepted rs
        → all_fit js ≡ true
        → CanRespawn (new_collectible_field c rs) draw_int
    unfolding new_collectible_field
    accepted-CanRespawn c js rs e fits id region draw found =
        ground (arith, validate_and_convert_regions-result js, region_delay js id region draw)
