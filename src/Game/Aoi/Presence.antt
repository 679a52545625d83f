-- ===== src/Game/Aoi/Presence.antt =====
-- Who is in the index after each operation of aoi.go, and that the structure is kept.
use map_walker.Prelude.{
  ℕ, ◌≡◌, true, not, ◌&&◌, ◌||◌, arith, inl, inr, Bool-cases, Succeeds, Succeeds_map, ◌==◌,
}
use map_walker.Prelude.Eq.{nat_eq}
use map_walker.Prelude.Float.{Float64}
use map_walker.Game.Aoi.{
  AoiIndex, RelationshipChanges, MovementDelta, has_player, set_position, insert, move_detailed,
  remove,
}
use map_walker.Game.Aoi.Structure.{
  IsStructured, placed, lookup-set_position, lookup-set_position_self,
}
use map_walker.Game.Aoi.Rescan.{SamePlaces}
use map_walker.Game.Aoi.Move.{Moved, move_detailed-Moved}
use map_walker.Game.Aoi.Recalculate.{Recalculated, insert-Recalculated}
use map_walker.Game.Aoi.Remove.{lookup-remove}

module _ ⦃fl : Float64⦄ where
  open fl use {F}

  -- A well-kept index with the players of another, and p.
  pub record HasAlso (p : ℕ) (a b : AoiIndex F) : Type 0 where
    pub structured : IsStructured b
    pub players : (x : ℕ) → has_player b x ≡ ((p == x) || has_player a x)

  set_position-has :
      (a b : AoiIndex F) (p : ℕ) (lat lng : F) (x : ℕ)
      → SamePlaces p (set_position a p lat lng) b
      → has_player b x ≡ ((p == x) || has_player a x)
  unfolding has_player
  set_position-has a b p lat lng x s = ground (
    arith,
    s.others x,
    s.self (placed a p lat lng) (lookup-set_position_self a p lat lng),
    lookup-set_position a p x lat lng,
  )

  Recalculated-HasAlso :
      (a : AoiIndex F) (p : ℕ) (lat lng : F) (r : AoiIndex F × RelationshipChanges)
      → Recalculated (set_position a p lat lng) (placed a p lat lng) p r
      → HasAlso p a r.0
  Recalculated-HasAlso a p lat lng r m = record {
    structured = m.structured;
    players = λ x. set_position-has a r.0 p lat lng x m.places;
  }

  Moved-HasAlso :
      (a : AoiIndex F) (p : ℕ) (lat lng : F) (r : AoiIndex F × MovementDelta)
      → Moved a p lat lng r
      → HasAlso p a r.0
  Moved-HasAlso a p lat lng r m = record {
    structured = m.structured;
    players = λ x. set_position-has a r.0 p lat lng x m.places;
  }

  pub insert-HasAlso :
      (a : AoiIndex F) (p : ℕ) (lat lng : F)
      → IsStructured a
      → Succeeds (insert a p lat lng) (λ r. HasAlso p a r.0)
  unfolding insert
  insert-HasAlso a p lat lng s = elim (Bool-cases (has_player a p)) [
    | inl here ↦ rw (here, insert) (record { structured = s; players = λ x. ground (arith, here) })
    | inr absent ↦
        Succeeds_map _ (Recalculated-HasAlso a p lat lng) (insert-Recalculated a p lat lng s absent)
  ]

  pub move_detailed-HasAlso :
      (a : AoiIndex F) (p : ℕ) (lat lng : F)
      → IsStructured a
      → has_player a p ≡ true
      → Succeeds (move_detailed a p lat lng) (λ r. HasAlso p a r.0)
  move_detailed-HasAlso a p lat lng s here =
      Succeeds_map _ (Moved-HasAlso a p lat lng) (move_detailed-Moved a p lat lng s here)

  pub has_player-remove :
      (a : AoiIndex F) (p x : ℕ)
      → IsStructured a
      → has_player (remove a p).0 x ≡ (not (p == x) && has_player a x)
  unfolding has_player
  has_player-remove a p x s = ground (arith, lookup-remove a p s x)
