-- ===== src/Game/Aoi/Remove.antt =====
-- `Remove` of aoi.go: its answer, and the index that it leaves.
use map_walker.Prelude.{
  ℕ, ◌≡◌, false, not, ◌&&◌, none, ◌==◌, arith, inl, inr, Option-cases, if◌then◌else◌,
}
use map_walker.Prelude.Eq.{nat_eq}
use map_walker.Prelude.Map
use map_walker.Prelude.Map.{lookup-delete}
use map_walker.Prelude.Set.{contains}
use map_walker.Prelude.Sort.{set_keys, contains-set_keys}
use map_walker.Prelude.MultiMap.{members, linked, linked-unlink, linked-delete}
use map_walker.Game.Geometry.{CellCoord, cell_eq}
use map_walker.Game.Aoi.{AoiIndex, is_visible, unlink_all, remove}
use map_walker.Game.Aoi.Relations.{is_visible-unlink_all, unlink_all-SamePlayers}
use map_walker.Game.Aoi.Structure.{IsStructured, in_cell}

module _ {F : Type 0} (a : AoiIndex F) (p : ℕ) (s : IsStructured a) where
  -- A player that the index does not have is visible to nobody.
  not_visible : (y : ℕ) → Map.lookup p a.players ≡ none → is_visible a p y ≡ false
  not_visible y e = ground (arith, s.present p y)

  -- On a well-kept index, Remove reports exactly the players that the removed one saw.
  pub contains-left : (y : ℕ) → contains y (remove a p).1.left ≡ is_visible a p y
  unfolding remove is_visible linked contains
  contains-left y = elim (Option-cases (Map.lookup p a.players)) [
    | inl e ↦ ground (arith, not_visible y e)
    | inr (q, e) ↦ rw (e, remove) (contains-set_keys (members p a.visible) y)
  ]

  pub lookup-remove :
      (x : ℕ)
      → Map.lookup x (remove a p).0.players ≡ (if p == x then none else Map.lookup x a.players)
  unfolding remove
  lookup-remove x =
      let left = set_keys (members p a.visible) in
      elim (Option-cases (Map.lookup p a.players)) [
        | inl e ↦ ground arith
        | inr (q, e) ↦
            rw (e, remove)
              (ground (
                arith,
                (unlink_all-SamePlayers p left a).players,
                lookup-delete p x (unlink_all p left a).players,
              ))
      ]

  pub config-remove : (remove a p).0.config ≡ a.config
  unfolding remove
  config-remove = elim (Option-cases (Map.lookup p a.players)) [
    | inl e ↦ rw (e, remove)
    | inr (q, e) ↦
        rw (e, remove) (unlink_all-SamePlayers p (set_keys (members p a.visible)) a).config
  ]

  -- After Remove on a well-kept index, two players are visible to each other exactly when they were
  -- and neither is the removed one.
  pub is_visible-remove :
      (x y : ℕ) → is_visible (remove a p).0 x y ≡ (not (p == x) && not (p == y) && is_visible a x y)
  unfolding remove is_visible linked
  is_visible-remove x y =
      let left = set_keys (members p a.visible) in
      elim (Option-cases (Map.lookup p a.players)) [
        | inl e ↦ ground (arith, not_visible x e, not_visible y e, s.symmetric x y)
        | inr (q, e) ↦
            rw (e, remove)
              (ground (
                arith,
                linked-delete p x y (unlink_all p left a).visible,
                is_visible-unlink_all p left a x y s.symmetric,
                contains-set_keys (members p a.visible) x,
                contains-set_keys (members p a.visible) y,
                s.symmetric x y,
              ))
      ]

  remove-gridded :
      (c : CellCoord) (x : ℕ) → linked c x (remove a p).0.cells ≡ in_cell (remove a p).0 c x
  unfolding remove in_cell
  remove-gridded c x =
      let left = set_keys (members p a.visible) in
      let same = unlink_all-SamePlayers p left a in
      elim (Option-cases (Map.lookup p a.players)) [
        | inl e ↦ ground (arith, s.gridded c x)
        | inr (q, e) ↦
            rw (e, remove)
              (ground (
                arith,
                same.players,
                same.cells,
                linked-unlink q.cell p c x (unlink_all p left a).cells,
                lookup-delete p x (unlink_all p left a).players,
                s.gridded c x,
              ))
      ]

  -- Remove keeps the index well kept.
  pub remove-IsStructured : IsStructured (remove a p).0
  remove-IsStructured = record {
    symmetric =
        λ x y. ground (arith, is_visible-remove x y, is_visible-remove y x, s.symmetric x y);
    irreflexive = λ x. ground (arith, is_visible-remove x x, s.irreflexive x);
    present = λ x y h. ground (arith, is_visible-remove x y, s.present x y, lookup-remove x);
    gridded = remove-gridded;
  }
