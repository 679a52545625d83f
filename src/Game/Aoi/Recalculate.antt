-- ===== src/Game/Aoi/Recalculate.antt =====
-- `RecalculateRelationships` and `Insert`: a full scan, then the leave check.
use map_walker.Prelude.{
  ℕ, ◌≡◌, true, false, not, ◌&&◌, ◌||◌, none, some, List, ◌==◌, arith, ◌∙◌, Succeeds, if◌then◌else◌,
}
use map_walker.Prelude.Eq.{nat_eq}
use map_walker.Prelude.Float.{Float64}
use map_walker.Prelude.Map
use map_walker.Prelude.Set.{contains}
use map_walker.Game.Aoi.{
  AoiIndex, AoiPlayer, RelationshipChanges, is_visible, has_player, set_position,
  leave_check_existing_neighbors, full_scan, recalculate_relationships, insert,
}
use map_walker.Game.Aoi.Relations.{SamePlayers}
use map_walker.Game.Aoi.Leave.{
  is_beyond, contains-leave_check, leave_check-SamePlayers, is_visible-leave_check,
}
use map_walker.Game.Aoi.Scan.{enters}
use map_walker.Game.Aoi.Structure.{
  IsStructured, placed, lookup-set_position_self, set_position-IsStructured,
  leave_check-IsStructured,
}
use map_walker.Game.Aoi.Rescan.{candidates, SamePlaces, Rescanned, full_scan-Rescanned}

module _ ⦃fl : Float64⦄ where
  open fl use {F}

  -- A marker has no part in the distance to another player.
  pub is_beyond-SamePlaces :
      {a b : AoiIndex F} (p : ℕ) (self : AoiPlayer F) (y : ℕ)
      → SamePlaces p a b
      → (p == y) ≡ false
      → is_beyond b self y ≡ is_beyond a self y
  unfolding is_beyond
  is_beyond-SamePlaces p self y s h = ground (arith, s.others y h, s.config)

  -- The index after `recalculateRelationships` of the player p, and the changes it reports.
  pub record Recalculated (a : AoiIndex F) (self : AoiPlayer F) (p : ℕ)
      (r : AoiIndex F × RelationshipChanges) : Type 0 where
    pub structured : IsStructured r.0
    pub places : SamePlaces p a r.0
    pub entered :
        (y : ℕ)
        → contains y r.1.entered ≡ (enters a self p (candidates a self) y && not (is_visible a p y))
    pub left :
        (y : ℕ)
        → contains y r.1.left ≡ ((is_visible a p y || contains y r.1.entered) && is_beyond a self y)
    pub seen :
        (x y : ℕ)
        → is_visible r.0 x y ≡ (
            if p == x
            then (is_visible a p y || contains y r.1.entered) && not (contains y r.1.left)
            else (if p == y
                then (is_visible a p x || contains x r.1.entered) && not (contains x r.1.left)
                else is_visible a x y))

  module _ (a : AoiIndex F) (self : AoiPlayer F) (p : ℕ) (s : IsStructured a) where
    module _ (r : AoiIndex F × List ℕ) (n : Rescanned true self p a r) where
      left_after : AoiIndex F × List ℕ
      left_after = leave_check_existing_neighbors r.0 self p

      after_same : SamePlayers r.0 left_after.0
      unfolding left_after
      after_same = leave_check-SamePlayers r.0 self p

      seen_by_self : (y : ℕ) → is_visible r.0 p y ≡ (is_visible a p y || contains y r.1)
      seen_by_self y = ground (arith, n.seen p y, n.listed y, s.irreflexive p)

      contains-left_after :
          (y : ℕ)
          → contains y left_after.1 ≡ ((is_visible a p y || contains y r.1) && is_beyond a self y)
      unfolding left_after
      contains-left_after y = ground (
        arith,
        contains-leave_check r.0 self p y,
        seen_by_self y,
        n.structured.irreflexive p,
        is_beyond-SamePlaces p self y n.places,
      )

      is_visible-left_after :
          (x y : ℕ)
          → is_visible left_after.0 x y ≡ (
              if p == x
              then (is_visible a p y || contains y r.1) && not (contains y left_after.1)
              else (if p == y
                  then (is_visible a p x || contains x r.1) && not (contains x left_after.1)
                  else is_visible a x y))
      unfolding left_after
      is_visible-left_after x y = ground (
        arith,
        is_visible-leave_check r.0 self p x y n.structured.symmetric,
        contains-leave_check r.0 self p x,
        contains-leave_check r.0 self p y,
        seen_by_self x,
        seen_by_self y,
        n.structured.symmetric x y,
        n.structured.irreflexive p,
        n.seen x y,
      )

      scanned-Recalculated :
          Recalculated a self p (left_after.0, record { entered = r.1; left = left_after.1 })
      unfolding left_after
      scanned-Recalculated = record {
        structured = leave_check-IsStructured r.0 self p n.structured;
        places = record {
          config = after_same.config ∙ n.places.config;
          others = λ x h. ground (arith, n.places.others x, after_same.players);
          self = λ q k. rw after_same.players (n.places.self q k);
        };
        entered = n.listed;
        left = contains-left_after;
        seen = is_visible-left_after;
      }

    pub recalculate-Recalculated :
        Map.lookup p a.players ≡ some self
        → Succeeds (recalculate_relationships a p) (Recalculated a self p)
    unfolding recalculate_relationships left_after
    recalculate-Recalculated found =
        rw (found, recalculate_relationships)
          ((elim (full_scan a self p)
              as (λ o.
                Succeeds o (Rescanned true self p a)
                → Succeeds
                    (elim o [
                      | none ↦ none
                      | some (b, entered) ↦
                          let (c, left) = leave_check_existing_neighbors b self p in
                          some (c, record { entered = entered; left = left })
                    ])
                    (Recalculated a self p)) [ none ↦ λ h. h | some r ↦ scanned-Recalculated r ])
            (full_scan-Rescanned a self p s found))

  -- Insert of an absent player on a well-kept index returns, and recalculates at the new position.
  pub insert-Recalculated :
      (a : AoiIndex F) (p : ℕ) (lat lng : F)
      → IsStructured a
      → has_player a p ≡ false
      → Succeeds
          (insert a p lat lng)
          (Recalculated (set_position a p lat lng) (placed a p lat lng) p)
  unfolding insert
  insert-Recalculated a p lat lng s absent = rw absent (
      recalculate-Recalculated (set_position a p lat lng) (placed a p lat lng) p
        (set_position-IsStructured a p lat lng s) (lookup-set_position_self a p lat lng))
