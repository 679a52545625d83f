-- ===== src/Game/Aoi/History.antt =====
-- Histories of calls on a new AOI index, and the whole invariant of the index.
use map_walker.Prelude.{
  ℕ, ◌≡◌, refl, true, false, Option, none, some, List, [], ◌∷◌, arith, inl, inr, Bool-cases,
  Option-cases, ◌∙◌, Succeeds, ◌==◌,
}
use map_walker.Prelude.Eq.{nat_eq}
use map_walker.Prelude.Float.{Float64, OrderLaws}
use map_walker.Prelude.Map
use map_walker.Prelude.Set.{contains}
use map_walker.Prelude.MultiMap.{linked}
use map_walker.Game.Geometry.{AoiConfig, local_to_cell}
use map_walker.Game.Aoi.{
  AoiIndex, AoiPlayer, RelationshipChanges, is_visible, has_player, set_position, new_aoi_index,
  insert, move_detailed, recalculate, recalculate_relationships, remove,
}
use map_walker.Game.Aoi.Structure.{
  IsStructured, new-IsStructured, placed, lookup-set_position, lookup-set_position_self,
  visible-set_position,
}
use map_walker.Game.Aoi.Rescan.{SamePlaces}
use map_walker.Game.Aoi.Move.{move_detailed-Moved}
use map_walker.Game.Aoi.Recalculate.{Recalculated, recalculate-Recalculated, insert-Recalculated}
use map_walker.Game.Aoi.Remove.{remove-IsStructured, lookup-remove, config-remove}
use map_walker.Game.Aoi.Range.{
  InRange, IsOrdered, out_of_range, Moved-InRange, Recalculated-InRange,
  set_position-InRange_others, remove-InRange,
}

-- The calls that change the relationships.
pub data Call (F : Type 0) : Type 0 where
  inserts : ℕ → F → F → Call F
  moves : ℕ → F → F → Call F
  recalculates : ℕ → Call F
  removes : ℕ → Call F

module _ ⦃fl : Float64⦄ where
  open fl use {F}

  index_of : {A : Type 0} → Option (AoiIndex F × A) → Option (AoiIndex F)
  index_of none = none
  index_of (some (a, _)) = some a

  unfoldable pub step : AoiIndex F → Call F → Option (AoiIndex F)
  unfolding index_of
  step a (inserts p lat lng) = index_of (insert a p lat lng)
  step a (moves p lat lng) = index_of (move_detailed a p lat lng)
  step a (recalculates p) = index_of (recalculate a p)
  step a (removes p) = some (remove a p).0

  unfoldable pub run : AoiIndex F → List (Call F) → Option (AoiIndex F)
  run a [] = some a
  run a (c ∷ cs) = elim (step a c) [ none ↦ none | some b ↦ run b cs ]

  -- Each player's cell is that of its position.
  abbrev pub IsCelled : AoiIndex F → Type 0
  IsCelled a =
      (x : ℕ) (q : AoiPlayer F)
      → Map.lookup x a.players ≡ some q
      → q.cell ≡ local_to_cell a.config q.local_x q.local_y

  -- The whole invariant of an index with the configuration c.
  pub record IsSound (c : AoiConfig F) (a : AoiIndex F) : Type 0 where
    pub config : a.config ≡ c
    pub structured : IsStructured a
    pub in_range : InRange a
    pub celled : IsCelled a

  set_position-IsCelled :
      (a : AoiIndex F) (p : ℕ) (lat lng : F) → IsCelled a → IsCelled (set_position a p lat lng)
  unfolding local_to_cell
  set_position-IsCelled a p lat lng h x q e =
      ground (arith, lookup-set_position a p x lat lng, (visible-set_position a p lat lng).1, h x q)

  SamePlaces-IsCelled :
      {a b : AoiIndex F} (p : ℕ) (t : AoiPlayer F)
      → Map.lookup p a.players ≡ some t
      → SamePlaces p a b
      → IsCelled a
      → IsCelled b
  SamePlaces-IsCelled p t found s h x q e =
      ground (arith, s.others x, s.self t found, s.config, h x q, h p t)

  remove-IsCelled : (a : AoiIndex F) (p : ℕ) → IsStructured a → IsCelled a → IsCelled (remove a p).0
  remove-IsCelled a p s h x q e = ground (arith, lookup-remove a p s x, config-remove a p s, h x q)

  index_of-Succeeds :
      {A : Type 0} {P : AoiIndex F × A → Type 0} (Q : AoiIndex F → Type 0)
      (r : Option (AoiIndex F × A))
      → ((t : AoiIndex F × A) → P t → Q t.0)
      → Succeeds r P
      → Succeeds (index_of r) Q
  unfolding index_of
  index_of-Succeeds Q none f h = h
  index_of-Succeeds Q (some t) f h = f t h

  lookup_absent : (a : AoiIndex F) (p : ℕ) → has_player a p ≡ false → Map.lookup p a.players ≡ none
  unfolding has_player
  lookup_absent a p h = ground arith

  module _ (laws : OrderLaws fl) (c : AoiConfig F) (ordered : IsOrdered c) where
    Recalculated-IsSound :
        (a : AoiIndex F) (self : AoiPlayer F) (p : ℕ) (r : AoiIndex F × RelationshipChanges)
        → Map.lookup p a.players ≡ some self
        → a.config ≡ c
        → ((x y : ℕ)
            → (p == x) ≡ false
            → (p == y) ≡ false
            → is_visible a x y ≡ true
            → out_of_range a x y ≡ false)
        → IsCelled a
        → Recalculated a self p r
        → IsSound c r.0
    Recalculated-IsSound a self p r e k h n m = record {
      config = m.places.config ∙ k;
      structured = m.structured;
      in_range = Recalculated-InRange laws a self p r e h m;
      celled = SamePlaces-IsCelled p self e m.places n;
    }

    step-IsSound :
        (a : AoiIndex F) (call : Call F) → IsSound c a → Succeeds (step a call) (IsSound c)
    unfolding step index_of has_player insert move_detailed recalculate
    step-IsSound a (inserts p lat lng) s = elim (Bool-cases (has_player a p)) [
      | inl old ↦ rw (old, insert) s
      | inr new ↦
          index_of-Succeeds (IsSound c) (insert a p lat lng)
            (λ r m.
              Recalculated-IsSound (set_position a p lat lng) (placed a p lat lng) p r
                (lookup-set_position_self a p lat lng)
                ((visible-set_position a p lat lng).1 ∙ s.config)
                (set_position-InRange_others laws a p lat lng s.in_range)
                (set_position-IsCelled a p lat lng s.celled) m)
            (insert-Recalculated a p lat lng s.structured new)
    ]
    step-IsSound a (moves p lat lng) s = elim (Bool-cases (has_player a p)) [
      | inl here ↦
          index_of-Succeeds (IsSound c) (move_detailed a p lat lng)
            (λ r m. record {
              config = m.places.config ∙ (visible-set_position a p lat lng).1 ∙ s.config;
              structured = m.structured;
              in_range = Moved-InRange laws a p lat lng r (rw s.config ordered) s.in_range m;
              celled =
                  SamePlaces-IsCelled p (placed a p lat lng) (lookup-set_position_self a p lat lng)
                    m.places (set_position-IsCelled a p lat lng s.celled);
            })
            (move_detailed-Moved a p lat lng s.structured here)
      | inr absent ↦ rw (lookup_absent a p absent, move_detailed) s
    ]
    step-IsSound a (recalculates p) s = elim (Option-cases (Map.lookup p a.players)) [
      | inl e ↦ rw (e, recalculate) s
      | inr (self, e) ↦
          rw (e, recalculate)
            (index_of-Succeeds (IsSound c) (recalculate_relationships a p)
              (λ r m.
                Recalculated-IsSound a self p r e s.config (λ x y _ _. s.in_range x y) s.celled m)
              (recalculate-Recalculated a self p s.structured e))
    ]
    step-IsSound a (removes p) s = record {
      config = config-remove a p s.structured ∙ s.config;
      structured = remove-IsStructured a p s.structured;
      in_range = remove-InRange laws a p s.structured s.in_range;
      celled = remove-IsCelled a p s.structured s.celled;
    }

    pub run-IsSound :
        (a : AoiIndex F) (calls : List (Call F)) → IsSound c a → Succeeds (run a calls) (IsSound c)
    unfolding run
    run-IsSound a [] s = s
    run-IsSound a (call ∷ calls) s =
        (elim (step a call)
            as (λ o.
              Succeeds o (IsSound c)
              → Succeeds (elim o [ none ↦ none | some b ↦ run b calls ]) (IsSound c)) [
                | none ↦ λ h. h
                | some b ↦ λ h. run-IsSound b calls h
              ])
          (step-IsSound a call s)

    new-IsSound : IsSound c (new_aoi_index c)
    unfolding new_aoi_index is_visible out_of_range Map.lookup linked contains
    new-IsSound = record {
      config = refl;
      structured = new-IsStructured c;
      in_range = λ x y h. refl;
      celled = λ x q h. cc;
    }

    -- Every history of Insert, MoveDetailed, RecalculateRelationships and Remove calls on a new
    -- index ends without a nil dereference in a sound index: the relation is symmetric, irreflexive
    -- and between present players, the grid holds each player exactly in the cell of its position,
    -- and no visible pair is further apart than the leave radius. The enter radius must not exceed
    -- the leave radius, and the two named laws of float64 must hold.
    pub run-new-IsSound :
        (calls : List (Call F)) → Succeeds (run (new_aoi_index c) calls) (IsSound c)
    run-new-IsSound calls = run-IsSound (new_aoi_index c) calls new-IsSound
