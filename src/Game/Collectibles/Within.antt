-- ===== src/Game/Collectibles/Within.antt =====
-- `CollectiblesWithinRadius` of collectible.go.
use map_walker.Prelude.{
  ℕ, ◌≡◌, refl, Bool, true, false, ◌&&◌, none, some, List, [], ◌∷◌, arith, inl, inr, Option-cases,
  Succeeds, Succeeds_map, ◌∙◌, map, if_cases, if◌then◌else◌,
}
use map_walker.Prelude.Eq.{nat_eq}
use map_walker.Prelude.Float.{Float64}
use map_walker.Prelude.Map
use map_walker.Prelude.Set.{contains, contains-append}
use map_walker.Prelude.MultiMap.{members, linked}
use map_walker.Game.Geometry.{
  CellCoord, cell_eq, cell_beq_iff, nine_cells, lat_lng_to_local, local_to_cell,
}
use map_walker.Game.Aoi.{members_of_cells}
use map_walker.Game.Collectibles.{
  Collectible, CollectibleField, cell_at, candidate_ids, distance_sq, all_within,
  collectibles_within_radius,
}
use map_walker.Game.Collectibles.Stock.{IsStocked, stands_at, candidates_present}

module _ ⦃fl : Float64⦄ where
  open fl use {F, fadd, fsub, fmul, fleb}

  -- The item x is in the field and no further than this.
  unfoldable pub is_within : CollectibleField F → F → F → F → ℕ → Bool
  is_within f lat lng radius_sq x = elim (Map.lookup x f.collectibles) [
    | none ↦ false
    | some c ↦ fleb (distance_sq f.aoi_config lat lng c.lat c.lng) radius_sq
  ]

  -- The items of a list that are near enough.
  abbrev pub Within : CollectibleField F → F → F → F → List ℕ → List (Collectible F) → Type 0
  Within f lat lng radius_sq ids cs =
      (x : ℕ)
      → contains x (map (λ c. c.id) cs) ≡ (contains x ids && is_within f lat lng radius_sq x)

  all_within-Within :
      (f : CollectibleField F) (lat lng radius_sq : F) (ids : List ℕ)
      → IsStocked f
      → ((x : ℕ) → contains x ids ≡ true → Map.has x f.collectibles ≡ true)
      → Succeeds (all_within f lat lng radius_sq ids) (Within f lat lng radius_sq ids)
  unfolding all_within contains is_within
  all_within-Within f lat lng radius_sq [] s here = λ x. refl
  all_within-Within f lat lng radius_sq (id ∷ ids) s here =
      let rest = all_within-Within f lat lng radius_sq ids s (λ x h. ground (arith, here x, h)) in
      elim (Option-cases (Map.lookup id f.collectibles)) [
        | inl e ↦ absurd (ground (arith, here id))
        | inr (c, e) ↦
            let near = fleb (distance_sq f.aoi_config lat lng c.lat c.lng) radius_sq in
            rw (e, all_within)
              ((elim (all_within f lat lng radius_sq ids)
                  as (λ o.
                    Succeeds o (Within f lat lng radius_sq ids)
                    → Succeeds
                        (elim o [ none ↦ none | some cs ↦ if near then some (c ∷ cs) else some cs ])
                        (Within f lat lng radius_sq (id ∷ ids))) [
                          | none ↦ λ h. h
                          | some cs ↦ λ h.
                              if_cases (λ o. Succeeds o (Within f lat lng radius_sq (id ∷ ids)))
                                near (λ yes x. ground (arith, h x, s.keyed id c e))
                                (λ no x. ground (arith, h x, s.keyed id c e))
                        ])
                rest)
      ]

  -- On a well-kept field CollectiblesWithinRadius never dereferences nil, and returns exactly the
  -- items of the nine cells that are no further away than the radius.
  pub collectibles_within_radius-Within :
      (f : CollectibleField F) (lat lng radius : F)
      → IsStocked f
      → Succeeds
          (collectibles_within_radius f lat lng radius)
          (Within f lat lng (fmul radius radius) (candidate_ids f lat lng))
  unfolding collectibles_within_radius candidate_ids
  collectibles_within_radius-Within f lat lng radius s =
      all_within-Within f lat lng (fmul radius radius) _ s
        (λ x h. candidates_present f (nine_cells (cell_at f.aoi_config lat lng)) x s h)

  -- The field has the item x, in one of the nine cells around this position, at most the radius
  -- away on the local plane.
  unfoldable pub is_around : CollectibleField F → F → F → F → ℕ → Bool
  is_around f lat lng radius x = elim (Map.lookup x f.collectibles) [
    | none ↦ false
    | some c ↦
        let (x1, y1) = lat_lng_to_local f.aoi_config lat lng in
        let (x2, y2) = lat_lng_to_local f.aoi_config c.lat c.lng in
        contains (local_to_cell f.aoi_config x2 y2) (nine_cells (local_to_cell f.aoi_config x1 y1))
        && fleb (fadd (fmul (fsub x1 x2) (fsub x1 x2)) (fmul (fsub y1 y2) (fsub y1 y2)))
            (fmul radius radius)
  ]

  contains-members_of_cells :
      (f : CollectibleField F) (cells : List CellCoord) (x : ℕ) (c : Collectible F)
      → IsStocked f
      → Map.lookup x f.collectibles ≡ some c
      → contains x (members_of_cells cells f.grid)
        ≡ contains (cell_at f.aoi_config c.lat c.lng) cells
  unfolding members_of_cells contains linked stands_at
  contains-members_of_cells f [] x c s e = refl
  contains-members_of_cells f (d ∷ cells) x c s e = ground (
    arith,
    contains-append x (members d f.grid) (members_of_cells cells f.grid),
    contains-members_of_cells f cells x c s e,
    s.gridded d x,
    cell_beq_iff (cell_at f.aoi_config c.lat c.lng) d,
    cell_beq_iff d (cell_at f.aoi_config c.lat c.lng),
  )

  -- These are exactly the items around.
  abbrev pub AreAround : CollectibleField F → F → F → F → List (Collectible F) → Type 0
  AreAround f lat lng radius cs =
      (x : ℕ) → contains x (map (λ c. c.id) cs) ≡ is_around f lat lng radius x

  is_within-around :
      (f : CollectibleField F) (lat lng radius : F) (x : ℕ)
      → IsStocked f
      → (contains x (candidate_ids f lat lng) && is_within f lat lng (fmul radius radius) x)
        ≡ is_around f lat lng radius x
  unfolding is_within is_around distance_sq candidate_ids cell_at
  is_within-around f lat lng radius x s = elim (Option-cases (Map.lookup x f.collectibles)) [
    | inl e ↦ ground (arith, e)
    | inr (c, e) ↦
        ground (
          arith,
          e,
          contains-members_of_cells f (nine_cells (cell_at f.aoi_config lat lng)) x c s e,
        )
  ]

  pub collectibles_within_radius-AreAround :
      (f : CollectibleField F) (lat lng radius : F)
      → IsStocked f
      → Succeeds (collectibles_within_radius f lat lng radius) (AreAround f lat lng radius)
  collectibles_within_radius-AreAround f lat lng radius s =
      Succeeds_map (collectibles_within_radius f lat lng radius)
        (λ cs h x. h x ∙ is_within-around f lat lng radius x s)
        (collectibles_within_radius-Within f lat lng radius s)
