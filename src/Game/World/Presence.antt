-- ===== src/Game/World/Presence.antt =====
-- Who is in the world after each operation of world.go.
use Prim.Native.String.{String}
use map_walker.Prelude.{
  ℕ, ◌≡◌, refl, not, ◌&&◌, ◌||◌, some, arith, inl, inr, Bool-cases, List, Option-cases, ◌==◌, leb,
}
use map_walker.Prelude.Eq.{nat_eq}
use map_walker.Prelude.Float.{Float64}
use map_walker.Prelude.Map
use map_walker.Prelude.Map.{lookup-insert, lookup-delete}
use map_walker.Game.Appearance.{Appearance, appearance_beq}
use map_walker.Game.World.{
  World, InputState, has_player, add_player_with_state, remove_player, reset_input, apply_input,
  update_player_appearance, step, new_player,
}
use map_walker.Game.World.Steps.{lookup-step_players}

-- A value written over the one that stands there.
pub has-insert_present :
    {V : Type 0} (p x : ℕ) (q t : V) (m : List (ℕ × V))
    → Map.lookup p m ≡ some q
    → Map.has x (Map.insert p t m) ≡ Map.has x m
has-insert_present p x q t m e = ground (arith, lookup-insert p x t m)

module _ ⦃fl : Float64⦄ where
  open fl use {F, fmul}

  pub has_player-add :
      (w : World F) (p : ℕ) (name : String) (lat lng : F) (look : Appearance) (x : ℕ)
      → has_player (add_player_with_state w p name lat lng look).0 x ≡ ((p == x) || has_player w x)
  unfolding add_player_with_state has_player
  has_player-add w p name lat lng look x =
      ground (arith, lookup-insert p x (new_player p name lat lng look) w.players)

  pub has_player-remove :
      (w : World F) (p x : ℕ)
      → has_player (remove_player w p).0 x ≡ (not (p == x) && has_player w x)
  unfolding remove_player has_player
  has_player-remove w p x = ground (arith, lookup-delete p x w.players)

  pub has_player-reset_input :
      (w : World F) (p x : ℕ) → has_player (reset_input w p) x ≡ has_player w x
  unfolding reset_input has_player
  has_player-reset_input w p x = elim (Option-cases (Map.lookup p w.players)) [
    | inl e ↦ rw (e, reset_input) refl
    | inr (q, e) ↦ rw (e, reset_input) (has-insert_present p x q _ w.players e)
  ]

  pub has_player-apply_input :
      (w : World F) (p : ℕ) (i : InputState) (x : ℕ)
      → has_player (apply_input w p i).0 x ≡ has_player w x
  unfolding apply_input has_player
  has_player-apply_input w p i x = elim (Option-cases (Map.lookup p w.players)) [
    | inl e ↦ rw (e, apply_input) refl
    | inr (q, e) ↦ elim (Bool-cases (leb i.sequence q.last_sequence)) [
      | inl stale ↦ rw (e, apply_input, stale) refl
      | inr fresh ↦ rw (e, apply_input, fresh) (has-insert_present p x q _ w.players e)
    ]
  ]

  pub has_player-update_appearance :
      (w : World F) (p : ℕ) (look : Appearance) (x : ℕ)
      → has_player (update_player_appearance w p look).0 x ≡ has_player w x
  unfolding update_player_appearance has_player
  has_player-update_appearance w p look x = elim (Option-cases (Map.lookup p w.players)) [
    | inl e ↦ rw (e, update_player_appearance) refl
    | inr (q, e) ↦ elim (Bool-cases (appearance_beq q.appearance look)) [
      | inl same ↦ rw (e, update_player_appearance, same) refl
      | inr changed ↦
          rw (e, update_player_appearance, changed) (has-insert_present p x q _ w.players e)
    ]
  ]

  pub has_player-step :
      (w : World F) (seconds : F) (x : ℕ) → has_player (step w seconds).0 x ≡ has_player w x
  unfolding step has_player
  has_player-step w seconds x =
      ground
        (arith, lookup-step_players (fmul w.config.speed_meters_per_second seconds) w.players x)
