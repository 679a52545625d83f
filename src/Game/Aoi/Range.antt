-- ===== src/Game/Aoi/Range.antt =====
-- The leave radius of aoi.go as a bound on the visible pairs.
use map_walker.Prelude.{ℕ, ◌≡◌, Bool, true, false, none, some, ◌==◌, arith, inl, inr, Option-cases}
use map_walker.Prelude.Eq.{nat_eq}
use map_walker.Prelude.Float.{Float64, OrderLaws}
use map_walker.Prelude.Map
use map_walker.Game.Geometry.{
  AoiConfig, square_distance, enter_radius_squared, leave_radius_squared,
}
use map_walker.Game.Aoi.{
  AoiIndex, AoiPlayer, MovementDelta, RelationshipChanges, is_visible, set_position,
  beyond_leave_radius, within_enter_radius, remove,
}
use map_walker.Game.Aoi.Leave.{is_beyond}
use map_walker.Game.Aoi.Scan.{is_near}
use map_walker.Game.Aoi.Structure.{
  IsStructured, placed, lookup-set_position, lookup-set_position_self, visible-set_position,
}
use map_walker.Game.Aoi.Rescan.{SamePlaces}
use map_walker.Game.Aoi.Move.{Moved}
use map_walker.Game.Aoi.Recalculate.{Recalculated}
use map_walker.Game.Aoi.Remove.{is_visible-remove, lookup-remove, config-remove}

module _ ⦃fl : Float64⦄ where
  open fl use {F, fleb, fadd, fmul, fsub}

  -- Both are there, and further apart than the leave radius.
  unfoldable pub out_of_range : AoiIndex F → ℕ → ℕ → Bool
  out_of_range a x y = elim (Map.lookup x a.players) [ none ↦ false | some q ↦ is_beyond a q y ]

  abbrev pub InRange : AoiIndex F → Type 0
  InRange a = (x y : ℕ) → is_visible a x y ≡ true → out_of_range a x y ≡ false

  -- The enter radius is not above the leave radius, as in the defaults, 500 and 600 meters.
  abbrev pub IsOrdered : AoiConfig F → Type 0
  IsOrdered c = fleb (enter_radius_squared c) (leave_radius_squared c) ≡ true

  out_of_range-SamePlaces :
      {a b : AoiIndex F} (p : ℕ) (q : AoiPlayer F) (x y : ℕ)
      → Map.lookup p a.players ≡ some q
      → SamePlaces p a b
      → out_of_range b x y ≡ out_of_range a x y
  unfolding out_of_range is_beyond beyond_leave_radius
  out_of_range-SamePlaces p q x y e s = ground (arith, s.others x, s.others y, s.self q e, s.config)

  module _ (laws : OrderLaws fl) where
    open laws use {square_swap, le_not_lt}

    beyond_comm :
        (c : AoiConfig F) (p q : AoiPlayer F)
        → beyond_leave_radius c p q ≡ beyond_leave_radius c q p
    unfolding beyond_leave_radius
    beyond_comm c p q =
        ground (arith, square_swap p.local_x q.local_x, square_swap p.local_y q.local_y)

    out_of_range_comm : (a : AoiIndex F) (x y : ℕ) → out_of_range a x y ≡ out_of_range a y x
    unfolding out_of_range is_beyond
    out_of_range_comm a x y = elim (Option-cases (Map.lookup x a.players)) [
      | inl e ↦ ground arith
      | inr (q, e) ↦ elim (Option-cases (Map.lookup y a.players)) [
        | inl f ↦ ground arith
        | inr (t, f) ↦ ground (arith, beyond_comm a.config q t)
      ]
    ]

    pub near_not_beyond :
        (a : AoiIndex F) (self : AoiPlayer F) (y : ℕ)
        → IsOrdered a.config
        → is_near a self y ≡ true
        → is_beyond a self y ≡ false
    unfolding is_near is_beyond within_enter_radius beyond_leave_radius
    near_not_beyond a self y o h = elim (Option-cases (Map.lookup y a.players)) [
      | inl e ↦ ground arith
      | inr (q, e) ↦ ground (
        arith,
        le_not_lt (square_distance self.local_x self.local_y q.local_x q.local_y)
            (enter_radius_squared a.config) (leave_radius_squared a.config),
      )
    ]

    -- It is enough to look at the pairs (p, y) and at the pairs without p.
    split_pairs :
        (a : AoiIndex F) (p : ℕ)
        → IsStructured a
        → ((y : ℕ) → is_visible a p y ≡ true → out_of_range a p y ≡ false)
        → ((x y : ℕ)
            → (p == x) ≡ false
            → (p == y) ≡ false
            → is_visible a x y ≡ true
            → out_of_range a x y ≡ false)
        → InRange a
    split_pairs a p s own others x y v =
        ground (arith, own x, own y, others x y, s.symmetric x y, out_of_range_comm a x y)

    out_of_range_self :
        (a : AoiIndex F) (p : ℕ) (q : AoiPlayer F) (y : ℕ)
        → Map.lookup p a.players ≡ some q
        → out_of_range a p y ≡ is_beyond a q y
    unfolding out_of_range
    out_of_range_self a p q y e = ground arith

    -- Players other than p stand where they stood before `setPosition`.
    out_of_range-set_position :
        (a : AoiIndex F) (p x y : ℕ) (lat lng : F)
        → (p == x) ≡ false
        → (p == y) ≡ false
        → out_of_range (set_position a p lat lng) x y ≡ out_of_range a x y
    unfolding out_of_range is_beyond
    out_of_range-set_position a p x y lat lng h k = ground (
      arith,
      lookup-set_position a p x lat lng,
      lookup-set_position a p y lat lng,
      (visible-set_position a p lat lng).1,
    )

    -- `MoveDetailed` keeps every visible pair in range.
    pub Moved-InRange :
        (a : AoiIndex F) (p : ℕ) (lat lng : F) (r : AoiIndex F × MovementDelta)
        → IsOrdered a.config
        → InRange a
        → Moved a p lat lng r
        → InRange r.0
    Moved-InRange a p lat lng r o h m =
        let at : Map.lookup p (set_position a p lat lng).players ≡ some (placed a p lat lng) =
          lookup-set_position_self a p lat lng in
        split_pairs r.0 p m.structured
          (λ y v. ground (
            arith,
            out_of_range-SamePlaces p (placed a p lat lng) p y at m.places,
            out_of_range_self (set_position a p lat lng) p (placed a p lat lng) y at,
            m.seen p y,
            m.stable y,
            m.entered y,
            near_not_beyond (set_position a p lat lng) (placed a p lat lng) y
                (rw (visible-set_position a p lat lng).1 o),
          ))
          (λ x y k l v. ground (
            arith,
            out_of_range-SamePlaces p (placed a p lat lng) x y at m.places,
            out_of_range-set_position a p x y lat lng k l,
            m.seen x y,
            h x y,
          ))

    -- So does a recalculation, where the pairs without p are in range.
    pub Recalculated-InRange :
        (a : AoiIndex F) (self : AoiPlayer F) (p : ℕ) (r : AoiIndex F × RelationshipChanges)
        → Map.lookup p a.players ≡ some self
        → ((x y : ℕ)
            → (p == x) ≡ false
            → (p == y) ≡ false
            → is_visible a x y ≡ true
            → out_of_range a x y ≡ false)
        → Recalculated a self p r
        → InRange r.0
    Recalculated-InRange a self p r at h m =
        split_pairs r.0 p m.structured
          (λ y v. ground (
            arith,
            out_of_range-SamePlaces p self p y at m.places,
            out_of_range_self a p self y at,
            m.seen p y,
            m.left y,
          ))
          (λ x y k l v.
            ground (arith, out_of_range-SamePlaces p self x y at m.places, m.seen x y, h x y k l))

    pub set_position-InRange_others :
        (a : AoiIndex F) (p : ℕ) (lat lng : F)
        → InRange a
        → (x y : ℕ) → (p == x) ≡ false
        → (p == y) ≡ false
        → is_visible (set_position a p lat lng) x y ≡ true
        → out_of_range (set_position a p lat lng) x y ≡ false
    unfolding is_visible
    set_position-InRange_others a p lat lng h x y k l v = ground (
      arith,
      out_of_range-set_position a p x y lat lng k l,
      (visible-set_position a p lat lng).0,
      h x y,
    )

    pub remove-InRange :
        (a : AoiIndex F) (p : ℕ) → IsStructured a → InRange a → InRange (remove a p).0
    unfolding out_of_range is_beyond
    remove-InRange a p s h x y v = ground (
      arith,
      is_visible-remove a p s x y,
      lookup-remove a p s x,
      lookup-remove a p s y,
      config-remove a p s,
      h x y,
    )
