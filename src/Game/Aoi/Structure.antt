-- ===== src/Game/Aoi/Structure.antt =====
-- The structural invariant of the index, and the parts of the operations that keep it.
use map_walker.Prelude.{
  ℕ, ◌≡◌, refl, Bool, true, false, not, ◌&&◌, ◌||◌, none, some, List, [], ◌∷◌, ◌==◌, arith,
  if◌then◌else◌, inl, inr, Bool-cases, Option-cases, sym, ◌∙◌, or_else,
}
use map_walker.Prelude.Eq.{nat_eq}
use map_walker.Prelude.Float.{Float64}
use map_walker.Prelude.Map
use map_walker.Prelude.Map.{lookup-insert, lookup-delete}
use map_walker.Prelude.Set.{contains, contains-append}
use map_walker.Prelude.MultiMap.{members, linked, unlink, linked-link, linked-unlink}
use map_walker.Game.Geometry.{CellCoord, AoiConfig, cell_eq, cell_beq, cell_beq_iff}
use map_walker.Game.Aoi.{
  AoiIndex, AoiPlayer, AoiStats, is_visible, set_position, move_cell, at_position, zero_player,
  mark_enter_scan, marked, members_of_cells, leave_check_existing_neighbors, new_aoi_index,
}
use map_walker.Game.Aoi.Relations.{SamePlayers, IsSymmetric}
use map_walker.Game.Aoi.Leave.{leave_check-SamePlayers, is_visible-leave_check}
use map_walker.Game.Aoi.Scan.{Scanned, is_near, Scanned-IsSymmetric}

-- The player x is there, and its cell is c.
unfoldable pub in_cell : {F : Type 0} → AoiIndex F → CellCoord → ℕ → Bool
in_cell a c x = elim (Map.lookup x a.players) [ none ↦ false | some p ↦ cell_beq p.cell c ]

-- Visibility is symmetric, irreflexive and between players of the index, and the grid holds each
-- player in its own cell and nowhere else.
pub record IsStructured {F : Type 0} (a : AoiIndex F) : Type 0 where
  pub symmetric : IsSymmetric a
  pub irreflexive : (x : ℕ) → is_visible a x x ≡ false
  pub present : (x y : ℕ) → is_visible a x y ≡ true → Map.has x a.players ≡ true
  pub gridded : (c : CellCoord) (x : ℕ) → linked c x a.cells ≡ in_cell a c x

module _ {F : Type 0} where
  pub new-IsStructured : (c : AoiConfig F) → IsStructured (new_aoi_index c)
  unfolding new_aoi_index is_visible linked in_cell Map.lookup contains
  new-IsStructured c = record {
    symmetric = λ x y. refl;
    irreflexive = λ x. refl;
    present = λ x y h. cc;
    gridded = λ c x. refl;
  }

  in_cell-has :
      (a : AoiIndex F) (c : CellCoord) (x : ℕ) → in_cell a c x ≡ true → Map.has x a.players ≡ true
  unfolding in_cell
  in_cell-has a c x h = ground arith

  -- The counters play no part.
  pub IsStructured-stats :
      {a : AoiIndex F} (t : AoiStats) → IsStructured a → IsStructured (record a { stats = t })
  unfolding is_visible in_cell
  IsStructured-stats t s = record {
    symmetric = s.symmetric;
    irreflexive = s.irreflexive;
    present = s.present;
    gridded = s.gridded;
  }

  in_cell-SamePlayers :
      {a b : AoiIndex F} (c : CellCoord) (x : ℕ) → SamePlayers a b → in_cell b c x ≡ in_cell a c x
  unfolding in_cell
  in_cell-SamePlayers c x s = rw s.players

  in_rest :
      (a : AoiIndex F) (c : CellCoord) (cs : List CellCoord) (y : ℕ)
      → linked c y a.cells ≡ false
      → contains y (members_of_cells (c ∷ cs) a.cells) ≡ true
      → contains y (members_of_cells cs a.cells) ≡ true
  unfolding members_of_cells linked
  in_rest a c cs y h k =
      ground (arith, contains-append y (members c a.cells) (members_of_cells cs a.cells))

  -- A candidate of a scan has a player.
  pub members_of_cells-present :
      (a : AoiIndex F) (cs : List CellCoord) (y : ℕ)
      → IsStructured a
      → contains y (members_of_cells cs a.cells) ≡ true
      → Map.has y a.players ≡ true
  unfolding members_of_cells contains
  members_of_cells-present a [] y s h = cc
  members_of_cells-present a (c ∷ cs) y s h = elim (Bool-cases (linked c y a.cells)) [
    | inl here ↦ in_cell-has a c y (sym (s.gridded c y) ∙ here)
    | inr other ↦ members_of_cells-present a cs y s (in_rest a c cs y other h)
  ]

module _ ⦃fl : Float64⦄ where
  open fl use {F}

  -- The player that `setPosition` writes.
  abbrev pub placed : AoiIndex F → ℕ → F → F → AoiPlayer F
  placed a p lat lng = at_position a.config lat lng (or_else (Map.lookup p a.players) zero_player)

  pub lookup-set_position :
      (a : AoiIndex F) (p x : ℕ) (lat lng : F)
      → Map.lookup x (set_position a p lat lng).players
        ≡ (if p == x then some (placed a p lat lng) else Map.lookup x a.players)
  unfolding set_position
  lookup-set_position a p x lat lng = elim (Option-cases (Map.lookup p a.players)) [
    | inl e ↦ rw (e, set_position) (lookup-insert p x _ a.players)
    | inr (q, e) ↦ rw (e, set_position) (lookup-insert p x _ a.players)
  ]

  pub lookup-set_position_self :
      (a : AoiIndex F) (p : ℕ) (lat lng : F)
      → Map.lookup p (set_position a p lat lng).players ≡ some (placed a p lat lng)
  lookup-set_position_self a p lat lng = ground (arith, lookup-set_position a p p lat lng)

  pub visible-set_position :
      (a : AoiIndex F) (p : ℕ) (lat lng : F)
      → ((set_position a p lat lng).visible ≡ a.visible)
        × ((set_position a p lat lng).config ≡ a.config)
  unfolding set_position
  visible-set_position a p lat lng = (ground arith, ground arith)

  linked-move_cell :
      (p : ℕ) (from to : CellCoord) (cells : List (CellCoord × List ℕ)) (c : CellCoord) (x : ℕ)
      → linked c x (move_cell p from to cells) ≡ (
          if cell_beq from to
          then linked c x cells
          else (cell_beq to c && (p == x))
            || (not (cell_beq from c && (p == x)) && linked c x cells))
  unfolding move_cell
  linked-move_cell p from to cells c x =
      ground (arith, linked-link to p c x (unlink from p cells), linked-unlink from p c x cells)

  set_position-gridded :
      (a : AoiIndex F) (p : ℕ) (lat lng : F) (c : CellCoord) (x : ℕ)
      → linked c x a.cells ≡ in_cell a c x
      → linked c x (set_position a p lat lng).cells ≡ in_cell (set_position a p lat lng) c x
  unfolding set_position in_cell
  set_position-gridded a p lat lng c x h = elim (Option-cases (Map.lookup p a.players)) [
    | inl e ↦
        rw (e, set_position)
          (ground (
            arith,
            e,
            lookup-insert p x (at_position a.config lat lng zero_player) a.players,
            linked-link (at_position a.config lat lng zero_player).cell p c x a.cells,
          ))
    | inr (q, e) ↦
        rw (e, set_position)
          (ground (
            arith,
            e,
            lookup-insert p x (at_position a.config lat lng q) a.players,
            linked-move_cell p q.cell (at_position a.config lat lng q).cell a.cells c x,
            cell_beq_iff q.cell (at_position a.config lat lng q).cell,
          ))
  ]

  pub set_position-IsStructured :
      (a : AoiIndex F) (p : ℕ) (lat lng : F)
      → IsStructured a
      → IsStructured (set_position a p lat lng)
  unfolding is_visible
  set_position-IsStructured a p lat lng s =
      let seen = (visible-set_position a p lat lng).0 in
      record {
        symmetric = λ x y. rw seen (s.symmetric x y);
        irreflexive = λ x. rw seen (s.irreflexive x);
        present = λ x y h. ground (arith, seen, s.present x y, lookup-set_position a p x lat lng);
        gridded = λ c x. set_position-gridded a p lat lng c x (s.gridded c x);
      }

  -- The marker is written over the player that stands there, whose position stays.
  pub mark_enter_scan-IsStructured :
      (a : AoiIndex F) (self : AoiPlayer F) (p : ℕ)
      → Map.lookup p a.players ≡ some self
      → IsStructured a
      → IsStructured (mark_enter_scan a self p)
  unfolding mark_enter_scan is_visible in_cell
  mark_enter_scan-IsStructured a self p e s = record {
    symmetric = s.symmetric;
    irreflexive = s.irreflexive;
    present = λ x y h. ground (arith, s.present x y, lookup-insert p x (marked self) a.players);
    gridded = λ c x. ground (arith, s.gridded c x, lookup-insert p x (marked self) a.players);
  }

  pub leave_check-IsStructured :
      (a : AoiIndex F) (self : AoiPlayer F) (p : ℕ)
      → IsStructured a
      → IsStructured (leave_check_existing_neighbors a self p).0
  leave_check-IsStructured a self p s =
      let same = leave_check-SamePlayers a self p in
      let seen = λ (x y : ℕ). is_visible-leave_check a self p x y s.symmetric in
      record {
        symmetric = λ x y. ground (arith, seen x y, seen y x, s.symmetric x y);
        irreflexive = λ x. ground (arith, seen x x, s.irreflexive x);
        present = λ x y h. rw same.players (s.present x y (ground (arith, seen x y)));
        gridded = λ c x. rw (same.cells, in_cell-SamePlayers c x same) (s.gridded c x);
      }

  pub Scanned-IsStructured :
      {self : AoiPlayer F} {p : ℕ} {cs : List ℕ} {a : AoiIndex F} {entered : List ℕ}
      {r : AoiIndex F × List ℕ}
      → Scanned self p cs a entered r
      → Map.has p a.players ≡ true
      → IsStructured a
      → IsStructured r.0
  unfolding in_cell is_near
  Scanned-IsStructured {p = p} n here s = record {
    symmetric = Scanned-IsSymmetric n s.symmetric;
    irreflexive = λ x. ground (arith, n.seen x x, s.irreflexive x);
    present = λ x y h. rw n.same.players (ground (arith, n.seen x y, s.present x y));
    gridded = λ c x. rw (n.same.players, n.same.cells) (s.gridded c x);
  }
