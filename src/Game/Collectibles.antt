-- ===== src/Game/Collectibles.antt =====
-- internal/game/collectible.go: the collectible field. The random source is the parameter of its
-- draws, by their number: `draw_float n` is the n-th draw if that is a Float64(), `draw_int n k` if
-- it is an IntN(k). Times and durations are nanoseconds; the clock is the argument `now`. `none` is
-- a panic: a nil dereference, an index out of range, or IntN of a bound that is not positive.
pub mod Stock
pub mod Within
pub mod Population
pub mod Rounds
pub mod Advance
pub mod Populate
use Prim.Native.String.{String}
use map_walker.Prelude.{
  ℕ, zero, suc, ◌+◌, Bool, true, false, Option, none, some, List, [], ◌∷◌, ◌++◌, if◌then◌else◌,
  length, get_elem?, take, drop,
}
use map_walker.Prelude.Int.{ℤ, pos, ◌+ℤ◌, ◌-ℤ◌, leb_ℤ, pos_part}
use map_walker.Prelude.Eq.{nat_eq, string_eq}
use map_walker.Prelude.Float.{Float64}
use map_walker.Prelude.Map
use map_walker.Prelude.MultiMap.{is_empty, link, unlink}
use map_walker.Prelude.Word.{incr, wrap_i64}
use map_walker.Game.Geometry.{
  CellCoord, AoiConfig, cell_eq, nine_cells, lat_lng_to_local, local_to_cell, local_to_lat_lng,
  square_distance,
}
use map_walker.Game.Aoi.{members_of_cells}

pub record Collectible (F : Type 0) : Type 0 where
  pub id : ℕ
  pub region_id : String
  pub lat : F
  pub lng : F

-- `CollectibleRegion` of collectible_config.go.
pub record CollectibleRegion (F : Type 0) : Type 0 where
  pub id : String
  pub center_lat : F
  pub center_lng : F
  pub radius_meters : F
  pub target_count : ℤ
  pub respawn_min : ℤ
  pub respawn_max : ℤ

pub record ReplacementDeadline : Type 0 where
  pub region_id : String
  pub due_at : ℤ

-- `draws` counts what the random source has given.
pub record CollectibleField (F : Type 0) : Type 0 where
  pub aoi_config : AoiConfig F
  pub regions : List (CollectibleRegion F)
  pub collectibles : List (ℕ × Collectible F)
  pub grid : List (CellCoord × List ℕ)
  pub replacements : List ReplacementDeadline
  pub next_id : ℕ
  pub draws : ℕ

abbrev pub max_attempts : ℕ
max_attempts = 10

module _ {F : Type 0} where
  unfoldable pub new_collectible_field :
      AoiConfig F → List (CollectibleRegion F) → CollectibleField F
  new_collectible_field config regions = record {
    aoi_config = config;
    regions = regions;
    collectibles = [];
    grid = [];
    replacements = [];
    next_id = 1;
    draws = 0;
  }

  unfoldable pub collectible : CollectibleField F → ℕ → Option (Collectible F)
  collectible f id = Map.lookup id f.collectibles

  unfoldable pub region_by_id : String → List (CollectibleRegion F) → Option (CollectibleRegion F)
  region_by_id id [] = none
  region_by_id id (r ∷ rs) = if string_eq.beq r.id id then some r else region_by_id id rs

  unfoldable pub count : CollectibleField F → ℕ
  count f = length f.collectibles

-- The indices of the deadlines that have come, from the index i on.
unfoldable pub due_indices : ℤ → ℕ → List ReplacementDeadline → List ℕ
due_indices now i [] = []
due_indices now i (r ∷ rs) =
    let rest = due_indices now (suc i) rs in if leb_ℤ r.due_at now then i ∷ rest else rest

unfoldable pub backwards : List ℕ → List ℕ
backwards [] = []
backwards (i ∷ is) = backwards is ++ (i ∷ [])

-- `append(rs[:i], rs[i+1:]...)`
unfoldable pub remove_at : ℕ → List ReplacementDeadline → List ReplacementDeadline
remove_at i rs = take i rs ++ drop (suc i) rs

module _ ⦃fl : Float64⦄ where
  open fl use {F, pi, lit, fadd, fmul, fleb, sqrt, cos, sin}

  abbrev pub min_collectible_separation_meters : F
  min_collectible_separation_meters = lit 5 10

  unfoldable pub cell_at : AoiConfig F → F → F → CellCoord
  cell_at c lat lng = let (x, y) = lat_lng_to_local c lat lng in local_to_cell c x y

  unfoldable pub grid_insert :
      AoiConfig F → ℕ → F → F → List (CellCoord × List ℕ) → List (CellCoord × List ℕ)
  grid_insert c id lat lng grid = link (cell_at c lat lng) id grid

  unfoldable pub grid_remove :
      AoiConfig F → ℕ → F → F → List (CellCoord × List ℕ) → List (CellCoord × List ℕ)
  grid_remove c id lat lng grid = unlink (cell_at c lat lng) id grid

  unfoldable pub candidate_ids : CollectibleField F → F → F → List ℕ
  candidate_ids f lat lng = members_of_cells (nine_cells (cell_at f.aoi_config lat lng)) f.grid

  unfoldable pub distance_sq : AoiConfig F → F → F → F → F → F
  distance_sq c lat1 lng1 lat2 lng2 =
      let (x1, y1) = lat_lng_to_local c lat1 lng1 in
      let (x2, y2) = lat_lng_to_local c lat2 lng2 in square_distance x1 y1 x2 y2

  unfoldable pub any_within : CollectibleField F → F → F → F → List ℕ → Option Bool
  any_within f lat lng radius_sq [] = some false
  any_within f lat lng radius_sq (id ∷ ids) =
      let rest = any_within f lat lng radius_sq ids in
      elim (Map.lookup id f.collectibles) [
        | none ↦ none
        | some c ↦
            if fleb (distance_sq f.aoi_config lat lng c.lat c.lng) radius_sq
            then some true
            else rest
      ]

  unfoldable pub has_nearby_collectible : CollectibleField F → F → F → F → Option Bool
  has_nearby_collectible f lat lng radius =
      any_within f lat lng (fmul radius radius) (candidate_ids f lat lng)

  unfoldable pub all_within :
      CollectibleField F → F → F → F → List ℕ → Option (List (Collectible F))
  all_within f lat lng radius_sq [] = some []
  all_within f lat lng radius_sq (id ∷ ids) =
      let rest = all_within f lat lng radius_sq ids in
      elim (Map.lookup id f.collectibles) [
        | none ↦ none
        | some c ↦ elim rest [
          | none ↦ none
          | some cs ↦
              if fleb (distance_sq f.aoi_config lat lng c.lat c.lng) radius_sq
              then some (c ∷ cs)
              else some cs
        ]
      ]

  unfoldable pub collectibles_within_radius :
      CollectibleField F → F → F → F → Option (List (Collectible F))
  collectibles_within_radius f lat lng radius =
      all_within f lat lng (fmul radius radius) (candidate_ids f lat lng)

  abbrev pub new_collectible : CollectibleRegion F → CollectibleField F → F → F → Collectible F
  new_collectible region f lat lng = record {
    id = f.next_id;
    region_id = region.id;
    lat = lat;
    lng = lng;
  }

  abbrev pub put_collectible : CollectibleField F → Collectible F → CollectibleField F
  put_collectible f c = record f {
    next_id = incr f.next_id;
    collectibles = Map.insert f.next_id c f.collectibles;
    grid = grid_insert f.aoi_config f.next_id c.lat c.lng f.grid;
  }

  module _ (draw_float : ℕ → F) where
    unfoldable pub random_point_in_circle :
        F → F → F → CollectibleField F → CollectibleField F × (F × F)
    random_point_in_circle center_lat center_lng radius f =
        let u = draw_float f.draws in
        let v = draw_float (f.draws + 1) in
        let r = fmul radius (sqrt u) in
        let theta = fmul (fmul (lit 2 1) pi) v in
        let (cx, cy) = lat_lng_to_local f.aoi_config center_lat center_lng in
        (
          record f { draws = f.draws + 2 },
          local_to_lat_lng f.aoi_config (fadd cx (fmul r (cos theta)))
              (fadd cy (fmul r (sin theta))),
        )

    -- The loop of `placeInRegion` with this many attempts left, and the draw after it.
    unfoldable pub place_attempts :
        ℕ → CollectibleRegion F → CollectibleField F → Option (CollectibleField F × (F × F))
    place_attempts zero region f =
        some (random_point_in_circle region.center_lat region.center_lng region.radius_meters f)
    place_attempts (suc attempts) region f =
        let (g, p) =
          random_point_in_circle region.center_lat region.center_lng region.radius_meters f in
        let rest = place_attempts attempts region g in
        elim (has_nearby_collectible g p.0 p.1 min_collectible_separation_meters) [
          | none ↦ none
          | some near ↦ if near then rest else some (g, p)
        ]

    unfoldable pub place_in_region :
        CollectibleRegion F → CollectibleField F → Option (CollectibleField F × (F × F))
    place_in_region region f = place_attempts max_attempts region f

    unfoldable pub spawn_in_region :
        CollectibleRegion F → CollectibleField F → Option (CollectibleField F × Collectible F)
    spawn_in_region region f = elim (place_in_region region f) [
      | none ↦ none
      | some (g, (lat, lng)) ↦
          some
            (put_collectible g (new_collectible region g lat lng), new_collectible region g lat lng)
    ]

    -- The inner loop of `Populate`, with this many to spawn.
    unfoldable pub populate_region :
        ℕ
        → CollectibleRegion F
        → CollectibleField F
        → List (Collectible F)
        → Option (CollectibleField F × List (Collectible F))
    populate_region zero region f all = some (f, all)
    populate_region (suc n) region f all = elim (spawn_in_region region f) [
      | none ↦ none
      | some (g, c) ↦ populate_region n region g (all ++ (c ∷ []))
    ]

    unfoldable pub populate_regions :
        List (CollectibleRegion F)
        → CollectibleField F
        → List (Collectible F)
        → Option (CollectibleField F × List (Collectible F))
    populate_regions [] f all = some (f, all)
    populate_regions (r ∷ rs) f all = elim (populate_region (pos_part r.target_count) r f all) [
      | none ↦ none
      | some (g, more) ↦ populate_regions rs g more
    ]

    unfoldable pub populate :
        CollectibleField F → Option (CollectibleField F × List (Collectible F))
    populate f = populate_regions f.regions f []

    -- One round of the second loop of `AdvanceReplacements`.
    unfoldable pub advance_one :
        ℕ
        → CollectibleField F
        → List (Collectible F)
        → Option (CollectibleField F × List (Collectible F))
    advance_one i f spawned = elim (get_elem? f.replacements i) [
      | none ↦ none
      | some r ↦
          let g = record f { replacements = remove_at i f.replacements } in
          elim (region_by_id r.region_id f.regions) [
            | none ↦ some (g, spawned)
            | some region ↦ elim (spawn_in_region region g) [
              | none ↦ none
              | some (h, c) ↦ some (h, spawned ++ (c ∷ []))
            ]
          ]
    ]

    -- The loop over the due indices, from the last on.
    unfoldable pub advance_due :
        List ℕ
        → CollectibleField F
        → List (Collectible F)
        → Option (CollectibleField F × List (Collectible F))
    advance_due [] f spawned = some (f, spawned)
    advance_due (i ∷ due) f spawned = elim (advance_one i f spawned) [
      | none ↦ none
      | some (g, more) ↦ advance_due due g more
    ]

    unfoldable pub advance_replacements :
        ℤ → CollectibleField F → Option (CollectibleField F × List (Collectible F))
    advance_replacements now f =
        let due = due_indices now 0 f.replacements in
        if is_empty due then some (f, []) else advance_due (backwards due) f []

  module _ (draw_int : ℕ → ℕ → ℕ) where
    -- `RespawnMin + time.Duration(IntN(int(RespawnMax-RespawnMin)+1))`
    unfoldable pub respawn_delay : CollectibleRegion F → ℕ → Option ℤ
    respawn_delay region draw =
        elim (wrap_i64 (wrap_i64 (region.respawn_max -ℤ region.respawn_min) +ℤ pos 1)) [
          | pos (suc bound) ↦
              some (wrap_i64 (region.respawn_min +ℤ pos (draw_int draw (suc bound))))
          | _ ↦ none
        ]

    unfoldable pub remove : ℤ → CollectibleField F → ℕ → Option (CollectibleField F × Bool)
    remove now f id = elim (Map.lookup id f.collectibles) [
      | none ↦ some (f, false)
      | some c ↦
          let g = record f {
            grid = grid_remove f.aoi_config c.id c.lat c.lng f.grid;
            collectibles = Map.delete c.id f.collectibles;
          } in
          elim (region_by_id c.region_id f.regions) [
            | none ↦ some (g, true)
            | some region ↦ elim (respawn_delay region f.draws) [
              | none ↦ none
              | some delay ↦ some (
                record g {
                  draws = g.draws + 1;
                  replacements =
                      g.replacements
                      ++ (record { region_id = c.region_id; due_at = now +ℤ delay } ∷ []);
                },
                true,
              )
            ]
          ]
    ]
