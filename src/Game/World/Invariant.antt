-- ===== src/Game/World/Invariant.antt =====
-- The invariant of the world over every history of calls.
use Prim.Native.String.{String}
use map_walker.Prelude.{
  ℕ, ◌≡◌, refl, true, false, some, List, [], ◌∷◌, arith, inl, inr, Bool-cases, Option-cases, leb,
  or_else,
}
use map_walker.Prelude.Eq.{nat_eq}
use map_walker.Prelude.Float.{Float64}
use map_walker.Prelude.Map
use map_walker.Prelude.Map.{
  UniqueKeys, lookup-insert, lookup-delete, insert-UniqueKeys, delete-UniqueKeys,
}
use map_walker.Prelude.Set.{contains, contains-add, contains-remove}
use map_walker.Game.Appearance.{Appearance, appearance_beq}
use map_walker.Game.Geometry.{Config}
use map_walker.Game.World.{
  World, Player, InputState, advance, step_players, step, new_world, has_player,
  add_player_with_state, remove_player, reset_input, apply_input, update_player_appearance,
  take_moved_player_ids, take_removed_player_ids, new_player,
}
use map_walker.Game.World.Steps.{lookup-step_players, is_moving, step_lem}

-- Each player stands once, under its own id; who waits for a broadcast of its move is in the
-- world, and who waits for one of its removal is not.
pub record IsConsistent {F : Type 0} (w : World F) : Type 0 where
  pub unique : UniqueKeys w.players
  pub keyed : (x : ℕ) (p : Player F) → Map.lookup x w.players ≡ some p → p.position.id ≡ x
  pub moved : (x : ℕ) → contains x w.moved_player_ids ≡ true → Map.has x w.players ≡ true
  pub removed : (x : ℕ) → contains x w.removed_player_ids ≡ true → Map.has x w.players ≡ false

-- The calls that change the world.
pub data Call (F : Type 0) : Type 0 where
  adds : ℕ → String → F → F → Appearance → Call F
  removes : ℕ → Call F
  resets : ℕ → Call F
  inputs : ℕ → InputState → Call F
  appears : ℕ → Appearance → Call F
  steps : F → Call F
  takes_moved : Call F
  takes_removed : Call F

module _ ⦃fl : Float64⦄ where
  open fl use {F, fmul}

  unfoldable pub apply : World F → Call F → World F
  apply w (adds p name lat lng look) = (add_player_with_state w p name lat lng look).0
  apply w (removes p) = (remove_player w p).0
  apply w (resets p) = reset_input w p
  apply w (inputs p i) = (apply_input w p i).0
  apply w (appears p look) = (update_player_appearance w p look).0
  apply w (steps seconds) = (step w seconds).0
  apply w takes_moved = (take_moved_player_ids w).0
  apply w takes_removed = (take_removed_player_ids w).0

  unfoldable pub apply_all : World F → List (Call F) → World F
  apply_all w [] = w
  apply_all w (c ∷ cs) = apply_all (apply w c) cs

  pub new-IsConsistent : (c : Config F) → IsConsistent (new_world c)
  unfolding new_world Map.lookup contains
  new-IsConsistent c = record {
    unique = tt;
    keyed = λ x p h. cc;
    moved = λ x h. cc;
    removed = λ x h. cc;
  }

  -- A player written over the one that stands there, at the same place in the world.
  rewrite-IsConsistent :
      (w : World F) (p : ℕ) (q t : Player F)
      → Map.lookup p w.players ≡ some q
      → t.position.id ≡ q.position.id
      → IsConsistent w
      → IsConsistent (record w { players = Map.insert p t w.players })
  rewrite-IsConsistent w p q t e same s = record {
    unique = insert-UniqueKeys p t w.players s.unique;
    keyed = λ x u h. ground (arith, lookup-insert p x t w.players, s.keyed x u, s.keyed p q e);
    moved = λ x h. ground (arith, lookup-insert p x t w.players, s.moved x);
    removed = λ x h. ground (arith, lookup-insert p x t w.players, s.removed x);
  }

  add-IsConsistent :
      (w : World F) (p : ℕ) (name : String) (lat lng : F) (look : Appearance)
      → IsConsistent w
      → IsConsistent (add_player_with_state w p name lat lng look).0
  unfolding add_player_with_state has_player
  add-IsConsistent w p name lat lng look s = elim (Bool-cases (has_player w p)) [
    | inl old ↦ rw (old, add_player_with_state) s
    | inr new ↦
        rw (new, add_player_with_state)
          (let t = new_player p name lat lng look in
            record {
              unique = insert-UniqueKeys p t w.players s.unique;
              keyed = λ x u h. ground (arith, lookup-insert p x t w.players, s.keyed x u);
              moved = λ x h. ground (arith, lookup-insert p x t w.players, s.moved x);
              removed = λ x h. ground (
                arith,
                lookup-insert p x t w.players,
                contains-remove p x w.removed_player_ids,
                s.removed x,
              );
            })
  ]

  remove-IsConsistent : (w : World F) (p : ℕ) → IsConsistent w → IsConsistent (remove_player w p).0
  unfolding remove_player has_player
  remove-IsConsistent w p s = elim (Bool-cases (has_player w p)) [
    | inl old ↦
        rw (old, remove_player)
          (record {
            unique = delete-UniqueKeys p w.players s.unique;
            keyed = λ x u h. ground (arith, lookup-delete p x w.players, s.keyed x u);
            moved = λ x h. ground (
              arith,
              lookup-delete p x w.players,
              contains-remove p x w.moved_player_ids,
              s.moved x,
            );
            removed = λ x h. ground (
              arith,
              lookup-delete p x w.players,
              contains-add p x w.removed_player_ids,
              s.removed x,
            );
          })
    | inr absent ↦ rw (absent, remove_player) s
  ]

  step_players-UniqueKeys :
      (distance : F) (ps : List (ℕ × Player F))
      → UniqueKeys ps
      → UniqueKeys (step_players distance ps)
  unfolding step_players
  step_players-UniqueKeys distance [] u = tt
  step_players-UniqueKeys distance ((id, p) ∷ ps) u = (
    ground (arith, lookup-step_players distance ps id, u.0),
    step_players-UniqueKeys distance ps u.1,
  )

  step-IsConsistent : (w : World F) (seconds : F) → IsConsistent w → IsConsistent (step w seconds).0
  unfolding step advance is_moving
  step-IsConsistent w seconds s =
      let distance = fmul w.config.speed_meters_per_second seconds in
      record {
        unique = step_players-UniqueKeys distance w.players s.unique;
        keyed = λ x u h. ground (
          arith,
          lookup-step_players distance w.players x,
          s.keyed x (or_else (Map.lookup x w.players) u),
        );
        moved = λ x h. ground (
          arith,
          lookup-step_players distance w.players x,
          (step_lem w seconds x s.unique).2,
          s.moved x,
        );
        removed = λ x h. ground (arith, lookup-step_players distance w.players x, s.removed x);
      }

  input-IsConsistent :
      (w : World F) (p : ℕ) (i : InputState) → IsConsistent w → IsConsistent (apply_input w p i).0
  unfolding apply_input
  input-IsConsistent w p i s = elim (Option-cases (Map.lookup p w.players)) [
    | inl e ↦ rw (e, apply_input) s
    | inr (q, e) ↦ elim (Bool-cases (leb i.sequence q.last_sequence)) [
      | inl stale ↦ rw (e, apply_input, stale) s
      | inr fresh ↦ rw (e, apply_input, fresh) (rewrite-IsConsistent w p q _ e refl s)
    ]
  ]

  look-IsConsistent :
      (w : World F) (p : ℕ) (look : Appearance)
      → IsConsistent w
      → IsConsistent (update_player_appearance w p look).0
  unfolding update_player_appearance
  look-IsConsistent w p look s = elim (Option-cases (Map.lookup p w.players)) [
    | inl e ↦ rw (e, update_player_appearance) s
    | inr (q, e) ↦ elim (Bool-cases (appearance_beq q.appearance look)) [
      | inl same ↦ rw (e, update_player_appearance, same) s
      | inr changed ↦
          rw (e, update_player_appearance, changed) (rewrite-IsConsistent w p q _ e refl s)
    ]
  ]

  pub apply-IsConsistent : (w : World F) (c : Call F) → IsConsistent w → IsConsistent (apply w c)
  unfolding apply reset_input take_moved_player_ids take_removed_player_ids contains
  apply-IsConsistent w (adds p name lat lng look) s = add-IsConsistent w p name lat lng look s
  apply-IsConsistent w (removes p) s = remove-IsConsistent w p s
  apply-IsConsistent w (resets p) s = elim (Option-cases (Map.lookup p w.players)) [
    | inl e ↦ rw (e, reset_input) s
    | inr (q, e) ↦ rw (e, reset_input) (rewrite-IsConsistent w p q _ e refl s)
  ]
  apply-IsConsistent w (inputs p i) s = input-IsConsistent w p i s
  apply-IsConsistent w (appears p look) s = look-IsConsistent w p look s
  apply-IsConsistent w (steps seconds) s = step-IsConsistent w seconds s
  apply-IsConsistent w takes_moved s = record {
    unique = s.unique;
    keyed = s.keyed;
    moved = λ x h. cc;
    removed = s.removed;
  }
  apply-IsConsistent w takes_removed s = record {
    unique = s.unique;
    keyed = s.keyed;
    moved = s.moved;
    removed = λ x h. cc;
  }

  -- After every history of calls on a new world, each player stands once under its own id, every id
  -- waiting for a broadcast of its move is a player, and no id waiting for one of its removal is.
  pub apply_all-IsConsistent :
      (c : Config F) (calls : List (Call F)) → IsConsistent (apply_all (new_world c) calls)
  unfolding apply_all
  apply_all-IsConsistent c calls = go (new_world c) calls (new-IsConsistent c)
    where
      go : (w : World F) (cs : List (Call F)) → IsConsistent w → IsConsistent (apply_all w cs)
      go w [] s = s
      go w (d ∷ cs) s = go (apply w d) cs (apply-IsConsistent w d s)
