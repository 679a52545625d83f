-- ===== src/Game/World/Steps.antt =====
-- `Step` of world.go: who moves, and what waits for a broadcast.
use map_walker.Prelude.{
  ℕ, ◌≡◌, refl, Bool, false, not, ◌||◌, none, some, List, [], ◌∷◌, arith, if◌then◌else◌,
}
use map_walker.Prelude.Eq.{nat_eq}
use map_walker.Prelude.Float.{Float64}
use map_walker.Prelude.Map
use map_walker.Prelude.Map.{UniqueKeys}
use map_walker.Prelude.Set
use map_walker.Prelude.Set.{contains, contains-add}
use map_walker.Prelude.Sort.{contains-set_keys}
use map_walker.Game.World.{World, Player, is_idle, advance, step_players, moved_ids, add_all, step}

module _ ⦃fl : Float64⦄ where
  open fl use {F, fmul}

  -- A player with an input other than rest.
  unfoldable pub is_moving : List (ℕ × Player F) → ℕ → Bool
  is_moving players x = elim (Map.lookup x players) [
    | none ↦ false
    | some p ↦ not (is_idle p.input)
  ]

  -- The player after a step of this distance.
  abbrev pub stepped : F → Player F → Player F
  stepped distance p = if is_idle p.input then p else advance distance p

  pub lookup-step_players :
      (distance : F) (ps : List (ℕ × Player F)) (x : ℕ)
      → Map.lookup x (step_players distance ps)
        ≡ (elim (Map.lookup x ps) [ none ↦ none | some p ↦ some (stepped distance p) ])
  unfolding step_players Map.lookup
  lookup-step_players distance [] x = refl
  lookup-step_players distance ((id, p) ∷ ps) x = ground (arith, lookup-step_players distance ps x)

  pub contains-moved_ids :
      (ps : List (ℕ × Player F)) (x : ℕ)
      → UniqueKeys ps
      → contains x (moved_ids ps) ≡ is_moving ps x
  unfolding moved_ids is_moving contains Map.lookup
  contains-moved_ids [] x u = refl
  contains-moved_ids ((id, p) ∷ ps) x u = ground (arith, contains-moved_ids ps x u.1)

  contains-add_all :
      (ids s : List ℕ) (x : ℕ) → contains x (add_all ids s) ≡ (contains x ids || contains x s)
  unfolding add_all contains
  contains-add_all [] s x = refl
  contains-add_all (id ∷ ids) s x =
      ground (arith, contains-add_all ids (Set.add id s) x, contains-add id x s)

  -- A step by the input that each player has.
  pub step_lem :
      (w : World F) (seconds : F) (x : ℕ)
      → UniqueKeys w.players
      → (Map.lookup x (step w seconds).0.players ≡ (elim (Map.lookup x w.players) [
        | none ↦ none
        | some p ↦ some (stepped (fmul w.config.speed_meters_per_second seconds) p)
      ]))
        × (contains x (step w seconds).1 ≡ is_moving w.players x)
        × (contains x (step w seconds).0.moved_player_ids
            ≡ (is_moving w.players x || contains x w.moved_player_ids))
  unfolding step
  step_lem w seconds x u = (
    lookup-step_players _ w.players x,
    rw (contains-set_keys (moved_ids w.players) x) (contains-moved_ids w.players x u),
    ground (
      arith,
      contains-add_all (moved_ids w.players) w.moved_player_ids x,
      contains-moved_ids w.players x u,
    ),
  )
