-- ===== src/Game/World/Walk.antt =====
-- `Step` of world.go: where the players go.
use map_walker.Prelude.{
  ℕ, ◌≡◌, Bool, false, not, ◌&&◌, ◌||◌, Option, none, some, arith, refl, ap, sym, if◌then◌else◌,
  ◌∙◌, inl, inr, Option-cases,
}
use map_walker.Prelude.Eq.{nat_eq}
use map_walker.Prelude.Float.{Float64, UnitLaws}
use map_walker.Prelude.Map
use map_walker.Prelude.Map.{UniqueKeys}
use map_walker.Prelude.Set.{contains}
use map_walker.Game.World.{World, Player, PlayerPosition, InputState, is_idle, advance, step}
use map_walker.Game.World.Steps.{is_moving, stepped, step_lem}

module _ ⦃fl : Float64⦄ where
  open fl use {F, pi, lit, fadd, fsub, fmul, fdiv, hypot, cos}

  -- One key of a pair of opposite ones is down and the other is not.
  abbrev pub one_of : Bool → Bool → Bool
  one_of a b = a && not b || b && not a

  -- The keys of the input do not cancel each other out.
  abbrev pub has_direction : InputState → Bool
  has_direction i = one_of i.up i.down || one_of i.left i.right

  abbrev pub one_if : Bool → F
  one_if b = if b then lit 1 1 else lit 0 1

  -- The new position after a walk of this distance in the direction of the input, whose length is
  -- brought to 1: up and down along the latitude with 111320 m per degree, right and left along the
  -- longitude, where a degree is shorter by the cosine of the new latitude.
  unfoldable pub walked : F → InputState → PlayerPosition F → PlayerPosition F
  walked distance i here =
      let east = fsub (one_if i.right) (one_if i.left) in
      let north = fsub (one_if i.up) (one_if i.down) in
      let size = hypot east north in
      let lat = fadd here.lat (fdiv (fmul (fdiv north size) distance) (lit 111320 1)) in
      record here {
        lat = lat;
        lng = fadd here.lng (
            fdiv (fmul (fdiv east size) distance)
              (fmul (lit 111320 1) (cos (fdiv (fmul lat pi) (lit 180 1)))));
      }

  -- A player of the world whose input has a direction.
  unfoldable pub is_walking : World F → ℕ → Bool
  is_walking w x = elim (Map.lookup x w.players) [ none ↦ false | some p ↦ has_direction p.input ]

  advance-walked :
      (distance : F) (p : Player F)
      → advance distance p ≡ record p { position = walked distance p.input p.position }
  unfolding advance walked
  advance-walked distance p = ground arith

module _ ⦃fl : Float64⦄ (laws : UnitLaws fl) where
  open fl use {F, fmul}
  open laws use {neither, both, up, down}

  is_idle_lem : (i : InputState) → is_idle i ≡ not (has_direction i)
  unfolding is_idle
  is_idle_lem i = ground (arith, neither, both, up, down)

  is_moving_lem : (w : World F) (x : ℕ) → is_moving w.players x ≡ is_walking w x
  unfolding is_moving is_walking
  is_moving_lem w x = elim (Option-cases (Map.lookup x w.players)) [
    | inl e ↦ ground (arith, e)
    | inr (p, e) ↦ ground (arith, e, is_idle_lem p.input)
  ]

  stepped_lem :
      (distance : F) (p : Player F)
      → stepped distance p ≡ (
          if has_direction p.input
          then record p { position = walked distance p.input p.position }
          else p)
  stepped_lem distance p = ground (arith, is_idle_lem p.input, advance-walked distance p)

  stepped_option :
      (distance : F) (o : Option (Player F))
      → (elim o [ none ↦ none | some p ↦ some (stepped distance p) ]) ≡ (elim o [
        | none ↦ none
        | some p ↦ some (
            if has_direction p.input
            then record p { position = walked distance p.input p.position }
            else p)
      ])
  stepped_option distance none = refl
  stepped_option distance (some p) = ap some (stepped_lem distance p)

  -- In a world that has each player once, a step moves exactly the players whose keys do not cancel
  -- each other out, each along its own input to the position that is written out, and changes
  -- nothing else of a player; it returns the ids of those that moved and adds them to those that
  -- wait for a broadcast. The named laws on 0 and 1 in float64 must hold.
  pub step-walked :
      (w : World F) (seconds : F) (x : ℕ)
      → UniqueKeys w.players
      → (Map.lookup x (step w seconds).0.players ≡ (elim (Map.lookup x w.players) [
        | none ↦ none
        | some p ↦ some (
            if has_direction p.input
            then record p {
              position = walked (fmul w.config.speed_meters_per_second seconds) p.input p.position;
            }
            else p)
      ]))
        × (contains x (step w seconds).1 ≡ is_walking w x)
        × (contains x (step w seconds).0.moved_player_ids
            ≡ (is_walking w x || contains x w.moved_player_ids))
  step-walked w seconds x u =
      let (players, moved, waiting) = step_lem w seconds x u in
      (
        players
            ∙ stepped_option (fmul w.config.speed_meters_per_second seconds)
                (Map.lookup x w.players),
        moved ∙ is_moving_lem w x,
        rw (sym (is_moving_lem w x)) waiting,
      )
