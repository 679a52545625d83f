-- ===== src/Game/Collectibles/Stock.antt =====
-- The invariant of the collectible field, and what spawning does to it. In a well-kept field each item
-- stands once, under its own id, below the next id, and in the grid at the cell of its position.
use map_walker.Prelude.{
  ℕ, zero, suc, ◌<◌, ◌≡◌, refl, Bool, true, false, none, some, List, [], ◌∷◌, arith, inl, inr,
  Option-cases, Succeeds, Succeeds_map, if_both,
}
use map_walker.Prelude.Eq.{nat_eq, string_eq}
use map_walker.Prelude.Float.{Float64}
use map_walker.Prelude.Map
use map_walker.Prelude.Map.{
  UniqueKeys, lookup-insert, lookup-delete, insert-UniqueKeys, delete-UniqueKeys,
}
use map_walker.Prelude.Set
use map_walker.Prelude.Set.{contains}
use map_walker.Prelude.MultiMap.{members, linked, linked-link}
use map_walker.Game.Geometry.{CellCoord, AoiConfig, cell_eq, cell_beq, nine_cells}
use map_walker.Game.Aoi.{members_of_cells}
use map_walker.Game.Collectibles.{
  Collectible, CollectibleField, CollectibleRegion, new_collectible_field, cell_at, grid_insert,
  candidate_ids, any_within, has_nearby_collectible, random_point_in_circle, place_attempts,
  place_in_region, new_collectible, put_collectible, spawn_in_region,
  min_collectible_separation_meters,
}

module _ ⦃fl : Float64⦄ where
  open fl use {F, fmul}

  -- The field has an item x at this cell.
  unfoldable pub stands_at : CollectibleField F → CellCoord → ℕ → Bool
  stands_at f cell x = elim (Map.lookup x f.collectibles) [
    | none ↦ false
    | some c ↦ cell_beq (cell_at f.aoi_config c.lat c.lng) cell
  ]

  pub record IsStocked (f : CollectibleField F) : Type 0 where
    pub unique : UniqueKeys f.collectibles
    pub keyed : (x : ℕ) (c : Collectible F) → Map.lookup x f.collectibles ≡ some c → c.id ≡ x
    pub below : (x : ℕ) → Map.has x f.collectibles ≡ true → x < f.next_id
    pub gridded : (cell : CellCoord) (x : ℕ) → linked cell x f.grid ≡ stands_at f cell x

  pub new-IsStocked :
      (c : AoiConfig F) (rs : List (CollectibleRegion F)) → IsStocked (new_collectible_field c rs)
  unfolding new_collectible_field stands_at linked Map.lookup contains
  new-IsStocked c rs = record {
    unique = tt;
    keyed = λ x q h. cc;
    below = λ x h. cc;
    gridded = λ cell x. refl;
  }

  -- A change to what the invariant does not read.
  pub IsStocked-same :
      {f g : CollectibleField F}
      → g.aoi_config ≡ f.aoi_config
      → g.collectibles ≡ f.collectibles
      → g.grid ≡ f.grid
      → g.next_id ≡ f.next_id
      → IsStocked f
      → IsStocked g
  unfolding stands_at
  IsStocked-same {f} {g} config same grid next s = record {
    unique = rw same s.unique;
    keyed = rw same s.keyed;
    below = rw (same, next) s.below;
    gridded = λ cell x. ground (arith, s.gridded cell x);
  }

  pub candidates_present :
      (f : CollectibleField F) (cells : List CellCoord) (x : ℕ)
      → IsStocked f
      → contains x (members_of_cells cells f.grid) ≡ true
      → Map.has x f.collectibles ≡ true
  unfolding members_of_cells contains linked stands_at
  candidates_present f [] x s h = cc
  candidates_present f (c ∷ cells) x s h = ground (
    arith,
    Set.contains-append x (members c f.grid) (members_of_cells cells f.grid),
    candidates_present f cells x s,
    s.gridded c x,
  )

  any_within-Succeeds :
      (f : CollectibleField F) (lat lng radius_sq : F) (ids : List ℕ)
      → ((x : ℕ) → contains x ids ≡ true → Map.has x f.collectibles ≡ true)
      → Succeeds (any_within f lat lng radius_sq ids) (λ _. Unit)
  unfolding any_within contains
  any_within-Succeeds f lat lng radius_sq [] h = tt
  any_within-Succeeds f lat lng radius_sq (id ∷ ids) h =
      ground (arith, h id, any_within-Succeeds f lat lng radius_sq ids (λ x k. ground (arith, h x)))

  any_within-total :
      (f : CollectibleField F) (lat lng radius_sq : F) (ids : List ℕ)
      → Succeeds (any_within f lat lng radius_sq ids) (λ _. Unit)
      → (near : Bool) × (any_within f lat lng radius_sq ids ≡ some near)
  any_within-total f lat lng radius_sq ids h =
      elim (Option-cases (any_within f lat lng radius_sq ids)) [
        | inl e ↦ absurd (ground arith)
        | inr q ↦ q
      ]

  pub has_nearby_total :
      (f : CollectibleField F) (lat lng radius : F)
      → IsStocked f
      → (near : Bool) × (has_nearby_collectible f lat lng radius ≡ some near)
  unfolding has_nearby_collectible candidate_ids
  has_nearby_total f lat lng radius s = any_within-total f lat lng (fmul radius radius) _ (
      any_within-Succeeds f lat lng (fmul radius radius) _
        (λ x h. candidates_present f (nine_cells (cell_at f.aoi_config lat lng)) x s h))

  -- Sampling a place leaves all but the random source as it is.
  pub record SameStock (f g : CollectibleField F) : Type 0 where
    pub config : g.aoi_config ≡ f.aoi_config
    pub regions : g.regions ≡ f.regions
    pub collectibles : g.collectibles ≡ f.collectibles
    pub grid : g.grid ≡ f.grid
    pub replacements : g.replacements ≡ f.replacements
    pub next_id : g.next_id ≡ f.next_id

  -- What a spawn does: one new item with the next id, for this region.
  pub record Spawned (region : CollectibleRegion F) (f : CollectibleField F)
      (r : CollectibleField F × Collectible F) : Type 0 where
    pub stocked : IsStocked r.0
    pub regions : r.0.regions ≡ f.regions
    pub replacements : r.0.replacements ≡ f.replacements
    pub next_id : r.0.next_id ≡ suc f.next_id
    pub fresh : Map.lookup f.next_id f.collectibles ≡ none
    pub region_id : r.1.region_id ≡ region.id
    pub collectibles : r.0.collectibles ≡ Map.insert f.next_id r.1 f.collectibles

  put-IsStocked :
      (f : CollectibleField F) (c : Collectible F)
      → IsStocked f
      → c.id ≡ f.next_id
      → suc f.next_id < 18446744073709551616
      → IsStocked (put_collectible f c)
  unfolding stands_at grid_insert
  put-IsStocked f c s e bound = record {
    unique = insert-UniqueKeys f.next_id c f.collectibles s.unique;
    keyed = λ x d h. ground (arith, lookup-insert f.next_id x c f.collectibles, s.keyed x d);
    below = λ x h. ground (arith, lookup-insert f.next_id x c f.collectibles, s.below x);
    gridded = λ cell x. ground (
      arith,
      linked-link (cell_at f.aoi_config c.lat c.lng) f.next_id cell x f.grid,
      lookup-insert f.next_id x c f.collectibles,
      s.gridded cell x,
      s.below x,
    );
  }

  module _ (draw_float : ℕ → F) where
    place_attempts-SameStock :
        (n : ℕ) (region : CollectibleRegion F) (f : CollectibleField F)
        → IsStocked f
        → Succeeds (place_attempts draw_float n region f) (λ r. SameStock f r.0)
    unfolding place_attempts random_point_in_circle
    place_attempts-SameStock zero region f s = record {
      config = refl;
      regions = refl;
      collectibles = refl;
      grid = refl;
      replacements = refl;
      next_id = refl;
    }
    place_attempts-SameStock (suc n) region f s =
        let (g, p) =
          random_point_in_circle draw_float region.center_lat region.center_lng region.radius_meters
            f in
        let t : IsStocked g = IsStocked-same {f = f} {g = g} refl refl refl refl s in
        let (near, e) = has_nearby_total g p.0 p.1 min_collectible_separation_meters t in
        rw (e, place_attempts)
          (if_both (λ o. Succeeds o (λ (r : CollectibleField F × (F × F)). SameStock f r.0)) near
            (Succeeds_map (place_attempts draw_float n region g)
              (λ r m. record {
                config = m.config;
                regions = m.regions;
                collectibles = m.collectibles;
                grid = m.grid;
                replacements = m.replacements;
                next_id = m.next_id;
              })
              (place_attempts-SameStock n region g t))
            (record {
              config = refl;
              regions = refl;
              collectibles = refl;
              grid = refl;
              replacements = refl;
              next_id = refl;
            }))

    spawn_at-Spawned :
        (region : CollectibleRegion F) (f g : CollectibleField F) (lat lng : F)
        → IsStocked f
        → suc f.next_id < 18446744073709551616
        → SameStock f g
        → Spawned region f
            (put_collectible g (new_collectible region g lat lng), new_collectible region g lat lng)
    spawn_at-Spawned region f g lat lng s bound m =
        let t : IsStocked g =
          IsStocked-same {f = f} {g = g} m.config m.collectibles m.grid m.next_id s in
        record {
          stocked =
              put-IsStocked g (new_collectible region g lat lng) t refl (ground (arith, m.next_id));
          regions = m.regions;
          replacements = m.replacements;
          next_id = ground (arith, m.next_id);
          fresh = ground (arith, s.below f.next_id);
          region_id = refl;
          collectibles = ground (arith, m.next_id, m.collectibles);
        }

    -- A spawn on a well-kept field whose ids do not run out returns, whatever the random source
    -- gives, and adds one item for its region under an id that no item has; the field stays well
    -- kept.
    pub spawn_in_region-Spawned :
        (region : CollectibleRegion F) (f : CollectibleField F)
        → IsStocked f
        → suc f.next_id < 18446744073709551616
        → Succeeds (spawn_in_region draw_float region f) (Spawned region f)
    unfolding spawn_in_region place_in_region
    spawn_in_region-Spawned region f s bound =
        (elim (place_attempts draw_float 10 region f)
            as (λ o.
              Succeeds o (λ r. SameStock f r.0)
              → Succeeds
                  (elim o [
                    | none ↦ none
                    | some (g, (lat, lng)) ↦ some (
                      put_collectible g (new_collectible region g lat lng),
                      new_collectible region g lat lng,
                    )
                  ])
                  (Spawned region f)) [
                    | none ↦ λ h. h
                    | some (g, (lat, lng)) ↦ λ m. spawn_at-Spawned region f g lat lng s bound m
                  ])
          (place_attempts-SameStock 10 region f s)
