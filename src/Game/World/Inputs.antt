-- ===== src/Game/World/Inputs.antt =====
-- `ApplyInput` against replayed and reordered inputs.
use map_walker.Prelude.{
  ℕ, ◌<◌, ◌≡◌, refl, ◌==◌, true, false, some, List, [], ◌∷◌, arith, inl, inr, Bool-cases,
  if◌then◌else◌, leb,
}
use map_walker.Prelude.Eq.{nat_eq}
use map_walker.Prelude.Map
use map_walker.Prelude.Map.{lookup-insert}
use map_walker.Prelude.Sort.{keys_by}
use map_walker.Game.World.{World, Player, InputState, apply_input}

-- Strictly ascending, from above a bound.
abbrev pub Ascending : ℕ → List ℕ → Type 0
Ascending n [] = Unit
Ascending n (x ∷ xs) = (n < x) × Ascending x xs

abbrev pub sequences : List InputState → List ℕ
sequences is = keys_by (λ i. i.sequence) is

module _ {F : Type 0} where
  -- The sequence numbers that the world accepts of a stream of inputs.
  unfoldable pub accepted : World F → ℕ → List InputState → List ℕ
  accepted w p [] = []
  accepted w p (i ∷ is) =
      let (w', ok) = apply_input w p i in
      let rest = accepted w' p is in if ok then i.sequence ∷ rest else rest

  -- The world after a stream of inputs for a player, and the inputs it has accepted.
  unfoldable pub feed : World F → ℕ → List InputState → World F × List InputState
  feed w p [] = (w, [])
  feed w p (i ∷ is) =
      let (w', ok) = apply_input w p i in
      let rest = feed w' p is in if ok then (rest.0, i ∷ rest.1) else rest

  -- A player that has taken these inputs, one after the other.
  unfoldable pub taken : Player F → List InputState → Player F
  taken q [] = q
  taken q (i ∷ is) = taken (record q { input = i; last_sequence = i.sequence }) is

  -- What one input does to the world: the whole of it, or nothing.
  pub apply_input_cases :
      (w : World F) (p : ℕ) (q : Player F) (i : InputState)
      → Map.lookup p w.players ≡ some q
      → apply_input w p i ≡ (
          if leb i.sequence q.last_sequence then (w, false) else (
            record w {
              players = Map.insert p (record q { input = i; last_sequence = i.sequence }) w.players;
            },
            true,
          ))
  unfolding apply_input
  apply_input_cases w p q i e = rw (e, apply_input)

  taken_nothing : (q : Player F) → taken q [] ≡ q
  unfolding taken keys_by
  taken_nothing q = refl

  -- What a stream of inputs for the player q, with the id p, does to the world.
  pub record Fed (w : World F) (p : ℕ) (q : Player F) (r : World F × List InputState) : Type 0 where
    pub ascending : Ascending q.last_sequence (sequences r.1)
    pub players :
        (x : ℕ)
        → Map.lookup x r.0.players ≡ (if p == x then some (taken q r.1) else Map.lookup x w.players)
    pub rest : r.0 ≡ record w { players = r.0.players }

  -- An input that is accepted stands in front of what follows.
  Fed-cons :
      (w : World F) (p : ℕ) (q : Player F) (i : InputState) (r : World F × List InputState)
      → q.last_sequence < i.sequence
      → Fed
          (record w {
            players = Map.insert p (record q { input = i; last_sequence = i.sequence }) w.players;
          })
          p
          (record q { input = i; last_sequence = i.sequence })
          r
      → Fed w p q (r.0, i ∷ r.1)
  unfolding taken keys_by
  Fed-cons w p q i r fresh m = record {
    ascending = (fresh, m.ascending);
    players = λ x. ground (
      arith,
      m.players x,
      lookup-insert p x (record q { input = i; last_sequence = i.sequence }) w.players,
    );
    rest = m.rest;
  }

  -- Of any stream of inputs for a player, the accepted sequence numbers ascend strictly from above
  -- the last accepted one; afterwards the player holds the last accepted input and is otherwise as
  -- before, as are all other players and the rest of the world, so that a replayed or reordered
  -- input leaves no trace.
  pub feed-Fed :
      (w : World F) (p : ℕ) (q : Player F) (is : List InputState)
      → Map.lookup p w.players ≡ some q
      → Fed w p q (feed w p is)
  unfolding feed keys_by
  feed-Fed w p q [] e = record {
    ascending = tt;
    players = λ x. ground (arith, e, taken_nothing q);
    rest = refl;
  }
  feed-Fed w p q (i ∷ is) e =
      let t = record q { input = i; last_sequence = i.sequence } in
      let w' = record w { players = Map.insert p t w.players } in
      elim (Bool-cases (leb i.sequence q.last_sequence)) [
        | inl stale ↦ rw (apply_input_cases w p q i e, stale) (feed-Fed w p q is e)
        | inr fresh ↦
            rw (apply_input_cases w p q i e, fresh)
              (Fed-cons w p q i (feed w' p is) (ground arith)
                (feed-Fed w' p t is (ground (arith, lookup-insert p p t w.players))))
      ]
