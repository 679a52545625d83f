-- ===== src/Game/Collectibles/Populate.antt =====
-- `Populate` of collectible.go against the target counts.
use Prim.Native.String.{String}
use map_walker.Prelude.{
  ℕ, zero, suc, ◌+◌, ◌<◌, ◌≡◌, refl, ◌∙◌, none, some, List, [], ◌∷◌, ◌++◌, arith, if◌then◌else◌,
  Succeeds, Succeeds_map, length, length-append,
}
use map_walker.Prelude.Int.{pos_part}
use map_walker.Prelude.Eq.{nat_eq, string_eq}
use map_walker.Prelude.Float.{Float64}
use map_walker.Game.Collectibles.{
  Collectible, CollectibleField, CollectibleRegion, spawn_in_region, populate_region,
  populate_regions, populate,
}
use map_walker.Game.Collectibles.Stock.{IsStocked, Spawned, spawn_in_region-Spawned}
use map_walker.Game.Collectibles.Population.{one_if, alive, alive-insert}

-- The sum of the target counts of all regions, and of those with an id.
module _ {F : Type 0} where
  unfoldable pub all_targets : List (CollectibleRegion F) → ℕ
  all_targets [] = 0
  all_targets (r ∷ rs) = pos_part r.target_count + all_targets rs

  unfoldable pub targets : String → List (CollectibleRegion F) → ℕ
  targets id [] = 0
  targets id (r ∷ rs) =
      let rest = targets id rs in
      if string_eq.beq r.id id then pos_part r.target_count + rest else rest

module _ ⦃fl : Float64⦄ where
  open fl use {F}

  -- What spawning n items does, of which `share id` are for the region id.
  pub record Grown (n : ℕ) (share : String → ℕ) (f : CollectibleField F)
      (all : List (Collectible F)) (r : CollectibleField F × List (Collectible F)) : Type 0 where
    pub stocked : IsStocked r.0
    pub regions : r.0.regions ≡ f.regions
    pub replacements : r.0.replacements ≡ f.replacements
    pub next_id : r.0.next_id ≡ f.next_id + n
    pub listed : length r.1 ≡ length all + n
    pub balance : (id : String) → alive id r.0.collectibles ≡ share id + alive id f.collectibles

  module _ (draw_float : ℕ → F) where
    one_more :
        (n : ℕ) (region : CollectibleRegion F) (f : CollectibleField F) (all : List (Collectible F))
        (g : CollectibleField F) (c : Collectible F) (r : CollectibleField F × List (Collectible F))
        → Spawned region f (g, c)
        → Grown n (λ id. if string_eq.beq region.id id then n else 0) g (all ++ (c ∷ [])) r
        → Grown (suc n) (λ id. if string_eq.beq region.id id then suc n else 0) f all r
    unfolding one_if
    one_more n region f all g c r s w = record {
      stocked = w.stocked;
      regions = w.regions ∙ s.regions;
      replacements = w.replacements ∙ s.replacements;
      next_id = omega (arith, w.next_id, s.next_id);
      listed = omega (arith, w.listed, length-append all (c ∷ []));
      balance = λ id. ground (
        arith,
        w.balance id,
        s.collectibles,
        alive-insert id f.next_id c f.collectibles s.fresh,
        s.region_id,
      );
    }

    populate_region-Grown :
        (n : ℕ) (region : CollectibleRegion F) (f : CollectibleField F) (all : List (Collectible F))
        → IsStocked f
        → f.next_id + n < 18446744073709551616
        → Succeeds
            (populate_region draw_float n region f all)
            (Grown n (λ id. if string_eq.beq region.id id then n else 0) f all)
    unfolding populate_region
    populate_region-Grown zero region f all s bound = record {
      stocked = s;
      regions = refl;
      replacements = refl;
      next_id = ground arith;
      listed = ground arith;
      balance = λ id. ground arith;
    }
    populate_region-Grown (suc n) region f all s bound =
        (elim (spawn_in_region draw_float region f)
            as (λ o.
              Succeeds o (Spawned region f)
              → Succeeds
                  (elim o [
                    | none ↦ none
                    | some (g, c) ↦ populate_region draw_float n region g (all ++ (c ∷ []))
                  ])
                  (Grown (suc n) (λ id. if string_eq.beq region.id id then suc n else 0) f all)) [
                    | none ↦ λ h. h
                    | some (g, c) ↦ λ m.
                        Succeeds_map _ (λ r w. one_more n region f all g c r m w)
                          (populate_region-Grown n region g (all ++ (c ∷ [])) m.stocked
                            (omega (arith, m.next_id)))
                  ])
          (spawn_in_region-Spawned draw_float region f s (omega arith))

    one_region_more :
        (n m : ℕ) (region : CollectibleRegion F) (rs : List (CollectibleRegion F))
        (f : CollectibleField F) (all : List (Collectible F))
        (q r : CollectibleField F × List (Collectible F))
        → n ≡ pos_part region.target_count
        → Grown n (λ id. if string_eq.beq region.id id then n else 0) f all q
        → Grown m (λ id. targets id rs) q.0 q.1 r
        → Grown (n + m) (λ id. targets id (region ∷ rs)) f all r
    unfolding targets
    one_region_more n m region rs f all q r e v w = record {
      stocked = w.stocked;
      regions = w.regions ∙ v.regions;
      replacements = w.replacements ∙ v.replacements;
      next_id = omega (arith, w.next_id, v.next_id);
      listed = omega (arith, w.listed, v.listed);
      balance = λ id. ground (arith, w.balance id, v.balance id);
    }

    populate_regions-Grown :
        (rs : List (CollectibleRegion F)) (f : CollectibleField F) (all : List (Collectible F))
        → IsStocked f
        → f.next_id + all_targets rs < 18446744073709551616
        → Succeeds
            (populate_regions draw_float rs f all)
            (Grown (all_targets rs) (λ id. targets id rs) f all)
    unfolding populate_regions all_targets targets
    populate_regions-Grown [] f all s bound = record {
      stocked = s;
      regions = refl;
      replacements = refl;
      next_id = ground arith;
      listed = ground arith;
      balance = λ id. omega arith;
    }
    populate_regions-Grown (region ∷ rs) f all s bound =
        let n = pos_part region.target_count in
        (elim (populate_region draw_float n region f all)
            as (λ o.
              Succeeds o (Grown n (λ id. if string_eq.beq region.id id then n else 0) f all)
              → Succeeds
                  (elim o [ none ↦ none | some (g, more) ↦ populate_regions draw_float rs g more ])
                  (Grown (n + all_targets rs) (λ id. targets id (region ∷ rs)) f all)) [
                    | none ↦ λ h. h
                    | some (g, more) ↦ λ m.
                        Succeeds_map _
                          (λ r w.
                            one_region_more n (all_targets rs) region rs f all (g, more) r refl m w)
                          (populate_regions-Grown rs g more m.stocked (omega (arith, m.next_id)))
                  ])
          (populate_region-Grown n region f all s (omega arith))

    -- On a well-kept field whose ids do not run out, Populate returns, whatever the random source
    -- gives: each region has its target count of items more, as many items are returned, and the
    -- field is well kept.
    pub populate-Grown :
        (f : CollectibleField F)
        → IsStocked f
        → f.next_id + all_targets f.regions < 18446744073709551616
        → Succeeds
            (populate draw_float f)
            (Grown (all_targets f.regions) (λ id. targets id f.regions) f [])
    unfolding populate
    populate-Grown f s bound = populate_regions-Grown f.regions f [] s bound
