-- ===== src/Game/Aoi/Leave.antt =====
-- `leaveCheckExistingNeighbors` of aoi.go: who leaves, and the relationships after it.
use map_walker.Prelude.{
  ℕ, ◌≡◌, refl, Bool, false, not, ◌&&◌, ◌||◌, none, some, List, [], ◌∷◌, ◌++◌, ◌==◌, arith,
  if◌then◌else◌, inl, inr, Option-cases,
}
use map_walker.Prelude.Eq.{nat_eq}
use map_walker.Prelude.Float.{Float64}
use map_walker.Prelude.Map
use map_walker.Prelude.Set.{contains, contains-append}
use map_walker.Prelude.MultiMap.{members, linked}
use map_walker.Game.Aoi.{
  AoiIndex, AoiPlayer, is_visible, beyond_leave_radius, collect_left,
  leave_check_existing_neighbors, count_leave_check,
}
use map_walker.Game.Aoi.Relations.{
  SamePlayers, SamePlayers-refl, SamePlayers-trans, IsSymmetric, is_visible-drop_left,
  drop_left-SamePlayers,
}

module _ ⦃fl : Float64⦄ where
  open fl use {F}

  -- The index has the player y, and it is beyond the leave radius of `self`.
  unfoldable pub is_beyond : AoiIndex F → AoiPlayer F → ℕ → Bool
  is_beyond a self y = elim (Map.lookup y a.players) [
    | none ↦ false
    | some q ↦ beyond_leave_radius a.config self q
  ]

  collect_left-SamePlayers :
      (self : AoiPlayer F) (ns : List ℕ) (a : AoiIndex F) (left : List ℕ)
      → SamePlayers a (collect_left self ns a left).0
        × ((collect_left self ns a left).0.visible ≡ a.visible)
  unfolding collect_left
  collect_left-SamePlayers self [] a left = (SamePlayers-refl a, refl)
  collect_left-SamePlayers self (n ∷ ns) a left = elim (Option-cases (Map.lookup n a.players)) [
    | inl e ↦ rw (e, collect_left) (collect_left-SamePlayers self ns a left)
    | inr (q, e) ↦
        rw (e, collect_left)
          (let (same, seen) = collect_left-SamePlayers self ns (count_leave_check a) _ in
            (record { config = same.config; players = same.players; cells = same.cells }, seen))
  ]

  contains-collect_left :
      (self : AoiPlayer F) (ns : List ℕ) (a : AoiIndex F) (left : List ℕ) (y : ℕ)
      → contains y (collect_left self ns a left).1
        ≡ (contains y left || (contains y ns && is_beyond a self y))
  unfolding collect_left contains is_beyond
  contains-collect_left self [] a left y = ground arith
  contains-collect_left self (n ∷ ns) a left y = elim (Option-cases (Map.lookup n a.players)) [
    | inl e ↦ rw (e, collect_left) (ground (arith, contains-collect_left self ns a left y))
    | inr (q, e) ↦
        let next = if beyond_leave_radius a.config self q then left ++ (n ∷ []) else left in
        rw (e, collect_left)
          (ground (
            arith,
            contains-collect_left self ns (count_leave_check a) next y,
            contains-append y left (n ∷ []),
          ))
  ]

  -- The neighbours that leave are those visible before and beyond the leave radius now.
  pub contains-leave_check :
      (a : AoiIndex F) (self : AoiPlayer F) (p y : ℕ)
      → contains y (leave_check_existing_neighbors a self p).1
        ≡ (is_visible a p y && is_beyond a self y)
  unfolding leave_check_existing_neighbors is_visible contains linked
  contains-leave_check a self p y = contains-collect_left self (members p a.visible) a [] y

  pub leave_check-SamePlayers :
      (a : AoiIndex F) (self : AoiPlayer F) (p : ℕ)
      → SamePlayers a (leave_check_existing_neighbors a self p).0
  unfolding leave_check_existing_neighbors
  leave_check-SamePlayers a self p =
      SamePlayers-trans (collect_left-SamePlayers self (members p a.visible) a []).0
        (drop_left-SamePlayers p _ _)

  -- The player p loses sight of those, and they of p; nothing else changes.
  pub is_visible-leave_check :
      (a : AoiIndex F) (self : AoiPlayer F) (p x y : ℕ)
      → IsSymmetric a
      → is_visible (leave_check_existing_neighbors a self p).0 x y ≡ (
          is_visible a x y
          && not ((p == x) && is_beyond a self y)
          && not ((p == y) && is_beyond a self x))
  unfolding leave_check_existing_neighbors is_visible
  is_visible-leave_check a self p x y h =
      let b = collect_left self (members p a.visible) a [] in
      let seen = (collect_left-SamePlayers self (members p a.visible) a []).1 in
      ground (
        arith,
        is_visible-drop_left p b.1 b.0 x y (rw seen h),
        seen,
        contains-leave_check a self p x,
        contains-leave_check a self p y,
        h x y,
      )
