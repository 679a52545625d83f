-- ===== src/Game/Aoi/Move.antt =====
-- `MoveDetailed`: the delta it returns, and the index it leaves.
use map_walker.Prelude.{
  ℕ, ◌≡◌, refl, true, not, ◌&&◌, ◌||◌, none, some, List, ◌==◌, arith, inl, inr, Option-cases, ◌∙◌,
  Succeeds, if◌then◌else◌,
}
use map_walker.Prelude.Eq.{nat_eq}
use map_walker.Prelude.Float.{Float64}
use map_walker.Prelude.Map
use map_walker.Prelude.Set
use map_walker.Prelude.Set.{contains, contains-keep}
use map_walker.Prelude.MultiMap.{members, linked}
use map_walker.Game.Aoi.{
  AoiIndex, MovementDelta, is_visible, has_player, set_position, leave_check_existing_neighbors,
  enter_scan_if_forced, should_force_enter_scan, conclude_move, move_detailed,
}
use map_walker.Game.Aoi.Relations.{SamePlayers}
use map_walker.Game.Aoi.Leave.{
  is_beyond, contains-leave_check, leave_check-SamePlayers, is_visible-leave_check,
}
use map_walker.Game.Aoi.Scan.{enters, is_near-SamePlayers}
use map_walker.Game.Aoi.Structure.{
  IsStructured, IsStructured-stats, placed, lookup-set_position_self, visible-set_position,
  set_position-IsStructured, leave_check-IsStructured,
}
use map_walker.Game.Aoi.Rescan.{candidates, SamePlaces, Rescanned, enter_scan_if_forced-Rescanned}

module _ ⦃fl : Float64⦄ where
  open fl use {F}

  -- The index after `MoveDetailed` of the player p to (lat, lng), and the delta.
  pub record Moved (a : AoiIndex F) (p : ℕ) (lat lng : F) (r : AoiIndex F × MovementDelta)
      : Type 0 where
    pub structured : IsStructured r.0
    pub places : SamePlaces p (set_position a p lat lng) r.0
    pub left :
        (y : ℕ)
        → contains y r.1.left
          ≡ (is_visible a p y && is_beyond (set_position a p lat lng) (placed a p lat lng) y)
    pub stable :
        (y : ℕ)
        → contains y r.1.stable
          ≡ (is_visible a p y && not (is_beyond (set_position a p lat lng) (placed a p lat lng) y))
    pub entered :
        (y : ℕ)
        → contains y r.1.entered ≡ (
            should_force_enter_scan a.config (placed a p lat lng)
            && enters
                (set_position a p lat lng)
                (placed a p lat lng)
                p
                (candidates (set_position a p lat lng) (placed a p lat lng))
                y
            && not (contains y r.1.stable))
    pub seen :
        (x y : ℕ)
        → is_visible r.0 x y ≡ (
            if p == x
            then contains y r.1.stable || contains y r.1.entered
            else (if p == y
                then contains x r.1.stable || contains x r.1.entered
                else is_visible a x y))

  module _ (a : AoiIndex F) (p : ℕ) (lat lng : F) (s : IsStructured a) where
    left_by : AoiIndex F × List ℕ
    left_by = leave_check_existing_neighbors (set_position a p lat lng) (placed a p lat lng) p

    contains-left_by :
        (y : ℕ)
        → contains y left_by.1
          ≡ (is_visible a p y && is_beyond (set_position a p lat lng) (placed a p lat lng) y)
    unfolding left_by is_visible
    contains-left_by y = ground (
      arith,
      contains-leave_check (set_position a p lat lng) (placed a p lat lng) p y,
      (visible-set_position a p lat lng).0,
    )

    is_visible-left_by :
        (x y : ℕ)
        → is_visible left_by.0 x y ≡ (
            is_visible a x y
            && not ((p == x) && is_beyond (set_position a p lat lng) (placed a p lat lng) y)
            && not ((p == y) && is_beyond (set_position a p lat lng) (placed a p lat lng) x))
    unfolding left_by is_visible
    is_visible-left_by x y = ground (
      arith,
      is_visible-leave_check (set_position a p lat lng) (placed a p lat lng) p x y
          (set_position-IsStructured a p lat lng s).symmetric,
      (visible-set_position a p lat lng).0,
    )

    left_by-SamePlayers : SamePlayers (set_position a p lat lng) left_by.0
    unfolding left_by
    left_by-SamePlayers = leave_check-SamePlayers (set_position a p lat lng) (placed a p lat lng) p

    left_by-config : left_by.0.config ≡ a.config
    left_by-config = left_by-SamePlayers.config ∙ (visible-set_position a p lat lng).1

    enters-left_by :
        (y : ℕ)
        → enters left_by.0 (placed a p lat lng) p (candidates left_by.0 (placed a p lat lng)) y
          ≡ enters
              (set_position a p lat lng)
              (placed a p lat lng)
              p
              (candidates (set_position a p lat lng) (placed a p lat lng))
              y
    enters-left_by y =
        rw (
          left_by-SamePlayers.cells,
          is_near-SamePlayers (placed a p lat lng) y left_by-SamePlayers,
        )

    contains-stable :
        (y : ℕ)
        → contains y (Set.keep (λ n. not (contains n left_by.1)) (members p a.visible))
          ≡ (is_visible a p y && not (is_beyond (set_position a p lat lng) (placed a p lat lng) y))
    unfolding is_visible linked
    contains-stable y = ground (
      arith,
      contains-keep (λ n. not (contains n left_by.1)) y (members p a.visible),
      contains-left_by y,
    )

    is_visible-conclude_move :
        (b : AoiIndex F) (left old entered : List ℕ) (x y : ℕ)
        → is_visible (conclude_move b p left old entered).0 x y ≡ is_visible b x y
    unfolding conclude_move is_visible
    is_visible-conclude_move b left old entered x y = refl

    -- The last lines of `MoveDetailed`, after the scan.
    conclude-Moved :
        (r : AoiIndex F × List ℕ)
        → Rescanned
            (should_force_enter_scan left_by.0.config (placed a p lat lng))
            (placed a p lat lng)
            p
            left_by.0
            r
        → Moved a p lat lng (conclude_move r.0 p left_by.1 (members p a.visible) r.1)
    unfolding conclude_move
    conclude-Moved r n = record {
      structured = IsStructured-stats _ n.structured;
      places = record {
        config = n.places.config ∙ left_by-SamePlayers.config;
        others = λ x h. ground (arith, n.places.others x, left_by-SamePlayers.players);
        self = λ q k. n.places.self q (ground (arith, left_by-SamePlayers.players));
      };
      left = contains-left_by;
      stable = contains-stable;
      entered = λ y. ground (
        arith,
        n.listed y,
        contains-stable y,
        enters-left_by y,
        is_visible-left_by p y,
        s.irreflexive p,
        left_by-config,
      );
      seen = λ x y. ground (
        arith,
        n.seen x y,
        n.listed x,
        n.listed y,
        contains-stable x,
        contains-stable y,
        enters-left_by x,
        enters-left_by y,
        is_visible-left_by x y,
        is_visible-left_by p y,
        is_visible-left_by p x,
        s.symmetric x y,
        s.irreflexive p,
        is_visible-conclude_move r.0 left_by.1 (members p a.visible) r.1 x y,
      );
    }

    -- MoveDetailed of a player that a well-kept index has never dereferences nil; the new index is
    -- well kept; left is exactly the old neighbours beyond the leave radius, stable the rest of
    -- them, entered exactly the other players within the enter radius in the nine cells if the scan
    -- is forced; and the player sees exactly stable and entered, symmetrically, while all other
    -- pairs stay.
    pub move_detailed-Moved :
        has_player a p ≡ true → Succeeds (move_detailed a p lat lng) (Moved a p lat lng)
    unfolding move_detailed has_player left_by
    move_detailed-Moved here = elim (Option-cases (Map.lookup p a.players)) [
      | inl missing ↦ absurd (ground arith)
      | inr (q, found) ↦
          rw (found, move_detailed, lookup-set_position_self a p lat lng)
            ((elim (enter_scan_if_forced left_by.0 (placed a p lat lng) p)
                as (λ o.
                  Succeeds o (
                    Rescanned (should_force_enter_scan left_by.0.config (placed a p lat lng))
                      (placed a p lat lng) p left_by.0)
                  → Succeeds
                      (elim o [
                        | none ↦ none
                        | some (b, entered) ↦
                            some (conclude_move b p left_by.1 (members p a.visible) entered)
                      ])
                      (Moved a p lat lng)) [ none ↦ λ h. h | some r ↦ conclude-Moved r ])
              (enter_scan_if_forced-Rescanned left_by.0 (placed a p lat lng) p
                (leave_check-IsStructured _ _ p (set_position-IsStructured a p lat lng s))
                (rw left_by-SamePlayers.players (lookup-set_position_self a p lat lng))))
    ]
