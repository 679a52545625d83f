-- ===== src/Game/Aoi.antt =====
-- internal/game/aoi.go: the area-of-interest index. A method that changes the index returns the
-- new index beside its result; `none` is the panic of a nil dereference.
pub mod Relations
pub mod Leave
pub mod Scan
pub mod Structure
pub mod Rescan
pub mod Move
pub mod Recalculate
pub mod Remove
pub mod Range
pub mod History
pub mod Insertion
pub mod Coverage
pub mod Presence
use map_walker.Prelude.{
  ℕ, ◌+◌, ◌/◌, Bool, true, false, not, ◌||◌, Option, none, some, List, [], ◌∷◌, ◌++◌, ◌==◌,
  if◌then◌else◌, length,
}
use map_walker.Prelude.Sort.{set_keys}
use map_walker.Prelude.Int.{pos}
use map_walker.Prelude.Float.{Float64}
use map_walker.Prelude.Eq.{nat_eq}
use map_walker.Prelude.Map
use map_walker.Prelude.Set
use map_walker.Prelude.MultiMap.{members, link, unlink, linked}
use map_walker.Prelude.Word.{u64, incr}
use map_walker.Game.Geometry.{
  CellCoord, AoiConfig, cell_eq, nine_cells, lat_lng_to_local, local_to_cell, enter_radius_squared,
  leave_radius_squared, enter_rescan_distance_squared, square_distance,
}

pub record RelationshipChanges : Type 0 where
  pub entered : List ℕ
  pub left : List ℕ

pub record MovementDelta : Type 0 where
  pub player_id : ℕ
  pub entered : List ℕ
  pub left : List ℕ
  pub stable : List ℕ

pub record AoiStats : Type 0 where
  pub candidate_pairs : ℕ
  pub distance_checks : ℕ
  pub relationships_entered : ℕ
  pub relationships_left : ℕ
  pub full_enter_scans : ℕ
  pub skipped_enter_scans : ℕ
  pub leave_checks : ℕ
  pub stable_relationships : ℕ

pub record AoiPlayer (F : Type 0) : Type 0 where
  pub lat : F
  pub lng : F
  pub local_x : F
  pub local_y : F
  pub cell : CellCoord
  pub last_enter_scan_x : F
  pub last_enter_scan_y : F
  pub last_enter_scan_cell : CellCoord
  pub has_enter_scan_marker : Bool

pub record AoiIndex (F : Type 0) : Type 0 where
  pub config : AoiConfig F
  pub players : List (ℕ × AoiPlayer F)
  pub cells : List (CellCoord × List ℕ)
  pub visible : List (ℕ × List ℕ)
  pub stats : AoiStats

abbrev pub no_stats : AoiStats
no_stats = record {
  candidate_pairs = 0;
  distance_checks = 0;
  relationships_entered = 0;
  relationships_left = 0;
  full_enter_scans = 0;
  skipped_enter_scans = 0;
  leave_checks = 0;
  stable_relationships = 0;
}

unfoldable pub new_aoi_index : {F : Type 0} → AoiConfig F → AoiIndex F
new_aoi_index config = record {
  config = config;
  players = [];
  cells = [];
  visible = [];
  stats = no_stats;
}

unfoldable pub has_player : {F : Type 0} → AoiIndex F → ℕ → Bool
has_player a player_id = Map.has player_id a.players

unfoldable pub cell_of : {F : Type 0} → AoiIndex F → ℕ → Option CellCoord
cell_of a player_id = elim (Map.lookup player_id a.players) [ none ↦ none | some p ↦ some p.cell ]

unfoldable pub local_position : {F : Type 0} → AoiIndex F → ℕ → Option (F × F)
local_position a player_id = elim (Map.lookup player_id a.players) [
  | none ↦ none
  | some p ↦ some (p.local_x, p.local_y)
]

unfoldable pub visible_neighbors : {F : Type 0} → AoiIndex F → ℕ → List ℕ
visible_neighbors a player_id = members player_id a.visible

unfoldable pub is_visible : {F : Type 0} → AoiIndex F → ℕ → ℕ → Bool
is_visible a player_a player_b = linked player_a player_b a.visible

unfoldable pub take_stats : {F : Type 0} → AoiIndex F → AoiIndex F × AoiStats
take_stats a = (record a { stats = no_stats }, a.stats)

sum_lengths : List (ℕ × List ℕ) → ℕ
sum_lengths [] = 0
sum_lengths ((_, s) ∷ m) = u64 (length s + sum_lengths m)

unfoldable pub visible_relationship_pairs : {F : Type 0} → AoiIndex F → ℕ
unfolding sum_lengths
visible_relationship_pairs a = sum_lengths a.visible / 2

-- Sets of the cells are concatenated in the order of the loops.
unfoldable pub members_of_cells : List CellCoord → List (CellCoord × List ℕ) → List ℕ
members_of_cells [] cells = []
members_of_cells (c ∷ cs) cells = members c cells ++ members_of_cells cs cells

unfoldable pub add_relationship : {F : Type 0} → AoiIndex F → ℕ → ℕ → AoiIndex F × Bool
add_relationship a player_a player_b =
    if is_visible a player_a player_b
    then (a, false)
    else (record a { visible = link player_b player_a (link player_a player_b a.visible) }, true)

unfoldable pub remove_relationship : {F : Type 0} → AoiIndex F → ℕ → ℕ → AoiIndex F × Bool
remove_relationship a player_a player_b =
    if is_visible a player_a player_b
    then (
      record a { visible = unlink player_b player_a (unlink player_a player_b a.visible) },
      true,
    )
    else (a, false)

module _ ⦃fl : Float64⦄ where
  open fl use {F, lit, fadd, fsub, fmul, fleb, fltb}

  abbrev distance_squared : AoiPlayer F → AoiPlayer F → F
  distance_squared p q = square_distance p.local_x p.local_y q.local_x q.local_y

  unfoldable pub within_enter_radius : AoiConfig F → AoiPlayer F → AoiPlayer F → Bool
  within_enter_radius c p q = fleb (distance_squared p q) (enter_radius_squared c)

  -- `d > r`
  unfoldable pub beyond_leave_radius : AoiConfig F → AoiPlayer F → AoiPlayer F → Bool
  beyond_leave_radius c p q = fltb (leave_radius_squared c) (distance_squared p q)

  unfoldable pub query_player_ids_near_point : AoiIndex F → F → F → List ℕ
  query_player_ids_near_point a lat lng =
      let (local_x, local_y) = lat_lng_to_local a.config lat lng in
      members_of_cells (nine_cells (local_to_cell a.config local_x local_y)) a.cells

  move_cell : ℕ → CellCoord → CellCoord → List (CellCoord × List ℕ) → List (CellCoord × List ℕ)
  move_cell player_id from to cells =
      if cell_eq.beq from to then cells else link to player_id (unlink from player_id cells)

  -- The fields that `setPosition` writes.
  abbrev pub at_position : AoiConfig F → F → F → AoiPlayer F → AoiPlayer F
  at_position config lat lng p =
      let (local_x, local_y) = lat_lng_to_local config lat lng in
      record p {
        lat = lat;
        lng = lng;
        local_x = local_x;
        local_y = local_y;
        cell = local_to_cell config local_x local_y;
      }

  -- The zero value of `aoiPlayer`.
  abbrev pub zero_player : AoiPlayer F
  zero_player = record {
    lat = lit 0 1;
    lng = lit 0 1;
    local_x = lit 0 1;
    local_y = lit 0 1;
    cell = record { x = pos 0; y = pos 0 };
    last_enter_scan_x = lit 0 1;
    last_enter_scan_y = lit 0 1;
    last_enter_scan_cell = record { x = pos 0; y = pos 0 };
    has_enter_scan_marker = false;
  }

  unfoldable pub set_position : AoiIndex F → ℕ → F → F → AoiIndex F
  unfolding move_cell
  set_position a player_id lat lng = elim (Map.lookup player_id a.players) [
    | some existing ↦
        let moved = at_position a.config lat lng existing in
        record a {
          cells = move_cell player_id existing.cell moved.cell a.cells;
          players = Map.insert player_id moved a.players;
        }
    | none ↦
        let added = at_position a.config lat lng zero_player in
        record a {
          cells = link added.cell player_id a.cells;
          players = Map.insert player_id added a.players;
        }
  ]

  abbrev count_candidate : AoiIndex F → AoiIndex F
  count_candidate a = record a {
    stats = record a.stats {
      candidate_pairs = incr a.stats.candidate_pairs;
      distance_checks = incr a.stats.distance_checks;
    };
  }

  -- The `if` around `addRelationship`: the new index, and the ids that entered.
  unfoldable pub enter_if_near :
      AoiPlayer F → ℕ → ℕ → AoiPlayer F → AoiIndex F → List ℕ → AoiIndex F × List ℕ
  enter_if_near self player_id candidate_id candidate a entered =
      if within_enter_radius a.config self candidate
      then (let (b, added) = add_relationship a player_id candidate_id in
          if added
          then (
            record b {
              stats = record b.stats { relationships_entered = incr b.stats.relationships_entered };
            },
            entered ++ (candidate_id ∷ []),
          )
          else (b, entered))
      else (a, entered)

  -- One round of the loop of `enterScanNineCells`.
  unfoldable pub scan_candidate :
      AoiPlayer F → ℕ → ℕ → AoiIndex F → List ℕ → Option (AoiIndex F × List ℕ)
  scan_candidate self player_id candidate_id a entered =
      if (candidate_id == player_id) || is_visible a player_id candidate_id
      then some (a, entered)
      else (elim (Map.lookup candidate_id a.players) [
        | none ↦ none
        | some candidate ↦
            some (enter_if_near self player_id candidate_id candidate (count_candidate a) entered)
      ])

  unfoldable pub scan_candidates :
      AoiPlayer F → ℕ → List ℕ → AoiIndex F → List ℕ → Option (AoiIndex F × List ℕ)
  scan_candidates self player_id [] a entered = some (a, entered)
  scan_candidates self player_id (c ∷ cs) a entered =
      elim (scan_candidate self player_id c a entered) [
        | none ↦ none
        | some (b, more) ↦ scan_candidates self player_id cs b more
      ]

  unfoldable pub enter_scan_nine_cells : AoiIndex F → AoiPlayer F → ℕ → Option (AoiIndex F × List ℕ)
  enter_scan_nine_cells a self player_id =
      scan_candidates self player_id (members_of_cells (nine_cells self.cell) a.cells) a []

  abbrev count_leave_check : AoiIndex F → AoiIndex F
  count_leave_check a = record a {
    stats = record a.stats {
      distance_checks = incr a.stats.distance_checks;
      leave_checks = incr a.stats.leave_checks;
    };
  }

  -- The first loop of `leaveCheckExistingNeighbors`, over the visible set.
  unfoldable pub collect_left : AoiPlayer F → List ℕ → AoiIndex F → List ℕ → AoiIndex F × List ℕ
  collect_left self [] a left = (a, left)
  collect_left self (n ∷ ns) a left = elim (Map.lookup n a.players) [
    | none ↦ collect_left self ns a left
    | some neighbor ↦
        collect_left self ns (count_leave_check a)
          (if beyond_leave_radius a.config self neighbor then left ++ (n ∷ []) else left)
  ]

  -- One round of the second loop, and the loop.
  unfoldable pub drop_neighbor : ℕ → ℕ → AoiIndex F → AoiIndex F
  drop_neighbor player_id n a =
      let (b, removed) = remove_relationship a player_id n in
      if removed
      then record b {
        stats = record b.stats { relationships_left = incr b.stats.relationships_left };
      }
      else b

  unfoldable pub drop_left : ℕ → List ℕ → AoiIndex F → AoiIndex F
  drop_left player_id [] a = a
  drop_left player_id (n ∷ ns) a = drop_left player_id ns (drop_neighbor player_id n a)

  unfoldable pub leave_check_existing_neighbors : AoiIndex F → AoiPlayer F → ℕ → AoiIndex F × List ℕ
  leave_check_existing_neighbors a self player_id =
      let (b, left) = collect_left self (members player_id a.visible) a [] in
      (drop_left player_id left b, left)

  -- `<=` of the squared distance from the last scan, written `>=` in the source.
  unfoldable pub should_force_enter_scan : AoiConfig F → AoiPlayer F → Bool
  should_force_enter_scan c self =
      if not self.has_enter_scan_marker
      then true
      else (if not (cell_eq.beq self.cell self.last_enter_scan_cell)
          then true
          else fleb (enter_rescan_distance_squared c) (
              square_distance self.local_x self.local_y self.last_enter_scan_x
                self.last_enter_scan_y))

  abbrev pub marked : AoiPlayer F → AoiPlayer F
  marked self = record self {
    last_enter_scan_x = self.local_x;
    last_enter_scan_y = self.local_y;
    last_enter_scan_cell = self.cell;
    has_enter_scan_marker = true;
  }

  -- `self` points into the map, so the marker is written there.
  unfoldable pub mark_enter_scan : AoiIndex F → AoiPlayer F → ℕ → AoiIndex F
  mark_enter_scan a self player_id = record a {
    players = Map.insert player_id (marked self) a.players;
  }

  abbrev count_full_scan : AoiIndex F → AoiIndex F
  count_full_scan a = record a {
    stats = record a.stats { full_enter_scans = incr a.stats.full_enter_scans };
  }

  abbrev count_skipped_scan : AoiIndex F → AoiIndex F
  count_skipped_scan a = record a {
    stats = record a.stats { skipped_enter_scans = incr a.stats.skipped_enter_scans };
  }

  -- The three lines that `recalculateRelationships` and `MoveDetailed` share: the scan, its
  -- counter and the marker.
  unfoldable pub full_scan : AoiIndex F → AoiPlayer F → ℕ → Option (AoiIndex F × List ℕ)
  full_scan a self player_id = elim (enter_scan_nine_cells a self player_id) [
    | none ↦ none
    | some (b, entered) ↦ some (mark_enter_scan (count_full_scan b) self player_id, entered)
  ]

  unfoldable pub recalculate_relationships :
      AoiIndex F → ℕ → Option (AoiIndex F × RelationshipChanges)
  recalculate_relationships a player_id = elim (Map.lookup player_id a.players) [
    | none ↦ some (a, record { entered = []; left = [] })
    | some self ↦ elim (full_scan a self player_id) [
      | none ↦ none
      | some (b, entered) ↦
          let (c, left) = leave_check_existing_neighbors b self player_id in
          some (c, record { entered = entered; left = left })
    ]
  ]

  unfoldable pub insert : AoiIndex F → ℕ → F → F → Option (AoiIndex F × RelationshipChanges)
  insert a player_id lat lng =
      if has_player a player_id
      then some (a, record { entered = []; left = [] })
      else recalculate_relationships (set_position a player_id lat lng) player_id

  -- The enter scan of `MoveDetailed`, forced or skipped.
  unfoldable pub enter_scan_if_forced : AoiIndex F → AoiPlayer F → ℕ → Option (AoiIndex F × List ℕ)
  enter_scan_if_forced a self player_id =
      if should_force_enter_scan a.config self
      then full_scan a self player_id
      else some (count_skipped_scan a, [])

  -- The end of `MoveDetailed`: `stable` is the old neighbours without those that left.
  unfoldable pub conclude_move :
      AoiIndex F → ℕ → List ℕ → List ℕ → List ℕ → AoiIndex F × MovementDelta
  conclude_move a player_id left old_neighbor_ids entered =
      let stable = Set.keep (λ n. not (Set.contains n left)) old_neighbor_ids in
      (
        record a {
          stats = record a.stats {
            stable_relationships = u64 (a.stats.stable_relationships + length stable);
          };
        },
        record { player_id = player_id; entered = entered; left = left; stable = stable },
      )

  unfoldable pub move_detailed : AoiIndex F → ℕ → F → F → Option (AoiIndex F × MovementDelta)
  move_detailed a player_id lat lng = elim (Map.lookup player_id a.players) [
    | none ↦ some (a, record { player_id = player_id; entered = []; left = []; stable = [] })
    | some _ ↦
        let old_neighbor_ids = members player_id a.visible in
        let a1 = set_position a player_id lat lng in
        elim (Map.lookup player_id a1.players) [
          | none ↦ none
          | some self ↦
              let (a2, left) = leave_check_existing_neighbors a1 self player_id in
              elim (enter_scan_if_forced a2 self player_id) [
                | none ↦ none
                | some (a3, entered) ↦
                    some (conclude_move a3 player_id left old_neighbor_ids entered)
              ]
        ]
  ]

  unfoldable pub move : AoiIndex F → ℕ → F → F → Option (AoiIndex F × RelationshipChanges)
  move a player_id lat lng = elim (move_detailed a player_id lat lng) [
    | none ↦ none
    | some (b, delta) ↦ some (b, record { entered = delta.entered; left = delta.left })
  ]

  unfoldable pub recalculate : AoiIndex F → ℕ → Option (AoiIndex F × RelationshipChanges)
  recalculate a player_id =
      if has_player a player_id
      then recalculate_relationships a player_id
      else some (a, record { entered = []; left = [] })

-- The loop of `Remove` over the sorted neighbours.
unfoldable pub unlink_all : {F : Type 0} → ℕ → List ℕ → AoiIndex F → AoiIndex F
unlink_all player_id [] a = a
unlink_all player_id (n ∷ ns) a = unlink_all player_id ns (remove_relationship a n player_id).0

unfoldable pub remove : {F : Type 0} → AoiIndex F → ℕ → AoiIndex F × RelationshipChanges
remove a player_id = elim (Map.lookup player_id a.players) [
  | none ↦ (a, record { entered = []; left = [] })
  | some p ↦
      let left = set_keys (members player_id a.visible) in
      let b = unlink_all player_id left a in
      (
        record b {
          cells = unlink p.cell player_id b.cells;
          players = Map.delete player_id b.players;
          visible = Map.delete player_id b.visible;
        },
        record { entered = []; left = left },
      )
]
