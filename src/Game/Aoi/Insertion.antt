-- ===== src/Game/Aoi/Insertion.antt =====
-- `Insert` of aoi.go for a player that the index does not have: whom it sees afterwards.
use map_walker.Prelude.{
  refl, List, [], ◌∷◌, inl, inr, Option-cases, ℕ, ◌≡◌, Bool, false, not, ◌&&◌, none, some, arith,
  Succeeds, Succeeds_map, if◌then◌else◌, ◌==◌, ap,
}
use map_walker.Prelude.Eq.{nat_eq}
use map_walker.Prelude.Float.{Float64, OrderLaws}
use map_walker.Prelude.Map
use map_walker.Prelude.MultiMap.{linked, members}
use map_walker.Prelude.Set.{contains, contains-append}
use map_walker.Game.Geometry.{
  CellCoord, cell_eq, cell_beq_iff, nine_cells, lat_lng_to_local, local_to_cell,
}
use map_walker.Game.Aoi.{
  AoiPlayer, members_of_cells, AoiIndex, RelationshipChanges, is_visible, has_player, set_position,
  insert, within_enter_radius,
}
use map_walker.Game.Aoi.Scan.{enters, is_near}
use map_walker.Game.Aoi.Structure.{
  IsStructured, in_cell, set_position-IsStructured, placed, lookup-set_position,
  visible-set_position,
}
use map_walker.Game.Aoi.Rescan.{candidates}
use map_walker.Game.Aoi.Recalculate.{Recalculated, insert-Recalculated}
use map_walker.Game.Aoi.Range.{IsOrdered, near_not_beyond}

module _ ⦃fl : Float64⦄ where
  open fl use {F, fleb, fadd, fsub, fmul}

  -- The index has the player y, in one of the nine cells around this position and at most the enter
  -- radius away.
  unfoldable pub is_inside : AoiIndex F → F → F → ℕ → Bool
  is_inside a lat lng y = elim (Map.lookup y a.players) [
    | none ↦ false
    | some q ↦
        let (here_x, here_y) = lat_lng_to_local a.config lat lng in
        contains q.cell (nine_cells (local_to_cell a.config here_x here_y))
        && fleb
            (fadd (fmul (fsub here_x q.local_x) (fsub here_x q.local_x))
              (fmul (fsub here_y q.local_y) (fsub here_y q.local_y)))
            (fmul a.config.enter_radius_meters a.config.enter_radius_meters)
  ]

  -- Another player than p that is inside.
  abbrev pub comes : AoiIndex F → ℕ → F → F → ℕ → Bool
  comes a p lat lng y = not (p == y) && is_inside a lat lng y

  contains-members_of_cells :
      (a : AoiIndex F) (cells : List CellCoord) (y : ℕ) (q : AoiPlayer F)
      → IsStructured a
      → Map.lookup y a.players ≡ some q
      → contains y (members_of_cells cells a.cells) ≡ contains q.cell cells
  unfolding members_of_cells contains linked in_cell
  contains-members_of_cells a [] y q s e = refl
  contains-members_of_cells a (d ∷ cells) y q s e = ground (
    arith,
    contains-append y (members d a.cells) (members_of_cells cells a.cells),
    contains-members_of_cells a cells y q s e,
    s.gridded d y,
    cell_beq_iff q.cell d,
    cell_beq_iff d q.cell,
  )

  -- The index after an insertion, and the changes it reports.
  pub record Inserted (a : AoiIndex F) (p : ℕ) (lat lng : F) (r : AoiIndex F × RelationshipChanges)
      : Type 0 where
    pub structured : IsStructured r.0
    pub entered : (y : ℕ) → contains y r.1.entered ≡ comes a p lat lng y
    pub left : (y : ℕ) → contains y r.1.left ≡ false
    pub seen :
        (x y : ℕ)
        → is_visible r.0 x y ≡ (
            if p == x
            then comes a p lat lng y
            else (if p == y then comes a p lat lng x else is_visible a x y))

  module _ (a : AoiIndex F) (p : ℕ) (lat lng : F) where
    enters-comes :
        (y : ℕ)
        → IsStructured a
        → enters
            (set_position a p lat lng)
            (placed a p lat lng)
            p
            (candidates (set_position a p lat lng) (placed a p lat lng))
            y
          ≡ comes a p lat lng y
    unfolding is_near is_inside within_enter_radius
    enters-comes y s = elim (Option-cases (Map.lookup y a.players)) [
      | inl e ↦ ground (arith, e, lookup-set_position a p y lat lng)
      | inr (q, e) ↦ ground (
        arith,
        e,
        lookup-set_position a p y lat lng,
        (visible-set_position a p lat lng).1,
        contains-members_of_cells (set_position a p lat lng) (nine_cells (placed a p lat lng).cell)
            y q (set_position-IsStructured a p lat lng s),
      )
    ]

    is_visible-set_position :
        (x y : ℕ) → is_visible (set_position a p lat lng) x y ≡ is_visible a x y
    unfolding is_visible
    is_visible-set_position x y = ap (linked x y) (visible-set_position a p lat lng).0

    unseen : (y : ℕ) → IsStructured a → has_player a p ≡ false → is_visible a p y ≡ false
    unfolding has_player
    unseen y s absent = ground (arith, s.present p y)

    module _ (laws : OrderLaws fl) (ordered : IsOrdered a.config) (s : IsStructured a)
        (absent : has_player a p ≡ false) (r : AoiIndex F × RelationshipChanges)
        (m : Recalculated (set_position a p lat lng) (placed a p lat lng) p r) where
      entered-comes : (y : ℕ) → contains y r.1.entered ≡ comes a p lat lng y
      entered-comes y =
          ground
            (arith, m.entered y, enters-comes y, is_visible-set_position p y, unseen y s absent)

      left_nobody : (y : ℕ) → contains y r.1.left ≡ false
      left_nobody y = ground (
        arith,
        m.left y,
        m.entered y,
        is_visible-set_position p y,
        unseen y s absent,
        near_not_beyond laws (set_position a p lat lng) (placed a p lat lng) y
            (rw (visible-set_position a p lat lng).1 ordered),
      )

      Recalculated-Inserted : Inserted a p lat lng r
      Recalculated-Inserted = record {
        structured = m.structured;
        entered = entered-comes;
        left = left_nobody;
        seen = λ x y. ground (
          arith,
          m.seen x y,
          entered-comes x,
          entered-comes y,
          left_nobody x,
          left_nobody y,
          is_visible-set_position x y,
          is_visible-set_position p x,
          is_visible-set_position p y,
          unseen x s absent,
          unseen y s absent,
        );
      }

  -- Insert of an absent player on a well-kept index whose enter radius does not exceed its leave
  -- radius never dereferences nil, under the two named laws of float64. The index stays well kept;
  -- entered is exactly the other players of the nine cells that are at most the enter radius away,
  -- nobody has left, the player sees exactly those that have entered, symmetrically, and all other
  -- pairs stay.
  pub insert-Inserted :
      (laws : OrderLaws fl) (a : AoiIndex F) (p : ℕ) (lat lng : F)
      → IsOrdered a.config
      → IsStructured a
      → has_player a p ≡ false
      → Succeeds (insert a p lat lng) (Inserted a p lat lng)
  insert-Inserted laws a p lat lng ordered s absent =
      Succeeds_map (insert a p lat lng)
        (λ r m. Recalculated-Inserted a p lat lng laws ordered s absent r m)
        (insert-Recalculated a p lat lng s absent)
