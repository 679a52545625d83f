-- ===== src/Game/Aoi/Coverage.antt =====
-- The nine cells of `enterScanNineCells` against the enter radius, after a full scan.
use map_walker.Prelude.{
  ℕ, ◌≡◌, true, false, some, List, [], ◌∷◌, arith, Succeeds, Succeeds_map, ◌==◌, ◌∙◌, ap,
}
use map_walker.Prelude.Eq.{nat_eq}
use map_walker.Prelude.Float.{Float64}
use map_walker.Prelude.Map
use map_walker.Prelude.Set.{contains, contains-append}
use map_walker.Prelude.MultiMap.{members, linked}
use map_walker.Game.Geometry.{
  AoiConfig, CellCoord, cell_eq, cell_beq_iff, local_to_cell, nine_cells, enter_radius_squared,
  square_distance,
}
use map_walker.Game.Aoi.{
  AoiIndex, AoiPlayer, is_visible, has_player, set_position, members_of_cells, within_enter_radius,
  should_force_enter_scan, move_detailed,
}
use map_walker.Game.Aoi.Scan.{is_near, enters}
use map_walker.Game.Aoi.Structure.{
  IsStructured, in_cell, placed, lookup-set_position, visible-set_position,
  set_position-IsStructured,
}
use map_walker.Game.Aoi.Rescan.{candidates}
use map_walker.Game.Aoi.Move.{move_detailed-Moved}
use map_walker.Game.Aoi.History.{IsSound}

module _ ⦃fl : Float64⦄ where
  open fl use {F, fleb}

  -- Two points within the enter radius lie in cells that touch. It holds of real numbers where the
  -- cell is not smaller than the radius (600 and 500 meters by default); the 100 meters between
  -- the two are far more than the rounding of float64.
  abbrev pub CellsTouch : AoiConfig F → Type 0
  CellsTouch c =
      (x y u v : F)
      → fleb (square_distance x y u v) (enter_radius_squared c) ≡ true
      → contains (local_to_cell c u v) (nine_cells (local_to_cell c x y)) ≡ true

  members_of_cells_complete :
      (a : AoiIndex F) (cs : List CellCoord) (d : CellCoord) (y : ℕ)
      → contains d cs ≡ true
      → linked d y a.cells ≡ true
      → contains y (members_of_cells cs a.cells) ≡ true
  unfolding members_of_cells contains linked
  members_of_cells_complete a [] d y h k = cc
  members_of_cells_complete a (c ∷ cs) d y h k = ground (
    arith,
    cell_beq_iff c d,
    contains-append y (members c a.cells) (members_of_cells cs a.cells),
    members_of_cells_complete a cs d y,
  )

  near_enters :
      (c : AoiConfig F) (a : AoiIndex F) (self q : AoiPlayer F) (p y : ℕ)
      → CellsTouch c
      → a.config ≡ c
      → IsStructured a
      → self.cell ≡ local_to_cell c self.local_x self.local_y
      → q.cell ≡ local_to_cell c q.local_x q.local_y
      → Map.lookup y a.players ≡ some q
      → (p == y) ≡ false
      → within_enter_radius c self q ≡ true
      → enters a self p (candidates a self) y ≡ true
  unfolding is_near within_enter_radius in_cell
  near_enters c a self q p y touch e s here there found other near = ground (
    arith,
    s.gridded q.cell y,
    cell_beq_iff q.cell q.cell,
    members_of_cells_complete a (nine_cells self.cell) q.cell y,
    touch self.local_x self.local_y q.local_x q.local_y,
  )

  placed-celled :
      (c : AoiConfig F) (a : AoiIndex F) (p : ℕ) (lat lng : F)
      → a.config ≡ c
      → (placed a p lat lng).cell
        ≡ local_to_cell c (placed a p lat lng).local_x (placed a p lat lng).local_y
  placed-celled c a p lat lng e =
      ap (λ k. local_to_cell k (placed a p lat lng).local_x (placed a p lat lng).local_y) e

  -- A forced scan of `MoveDetailed` sees every other player within the enter radius.
  pub move_detailed_sees_near :
      (c : AoiConfig F) (a : AoiIndex F) (p : ℕ) (lat lng : F)
      → CellsTouch c
      → IsSound c a
      → has_player a p ≡ true
      → should_force_enter_scan a.config (placed a p lat lng) ≡ true
      → Succeeds (move_detailed a p lat lng) (λ r.
        (y : ℕ) (q : AoiPlayer F)
        → Map.lookup y a.players ≡ some q
        → (p == y) ≡ false
        → within_enter_radius c (placed a p lat lng) q ≡ true
        → is_visible r.0 p y ≡ true)
  move_detailed_sees_near c a p lat lng touch s here forced =
      Succeeds_map (move_detailed a p lat lng)
        (λ r m y q found other near. ground (
          arith,
          m.seen p y,
          m.entered y,
          near_enters c (set_position a p lat lng) (placed a p lat lng) q p y touch
              ((visible-set_position a p lat lng).1 ∙ s.config)
              (set_position-IsStructured a p lat lng s.structured)
              (placed-celled c a p lat lng s.config)
              (s.celled y q found ∙ ap (λ k. local_to_cell k q.local_x q.local_y) s.config),
          lookup-set_position a p y lat lng,
        ))
        (move_detailed-Moved a p lat lng s.structured here)
