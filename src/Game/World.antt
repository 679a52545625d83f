-- ===== src/Game/World.antt =====
-- internal/game/world.go: the authoritative state of the players. A method that changes the world
-- returns the new world beside its result.
pub mod Inputs
pub mod Steps
pub mod Walk
pub mod Presence
pub mod Invariant
use Prim.Native.String.{String}
use map_walker.Prelude.{
  ℕ, ◌+◌, Bool, true, false, not, ◌&&◌, ◌||◌, Option, none, some, List, [], ◌∷◌, if◌then◌else◌,
  length, leb,
}
use map_walker.Prelude.Float.{Float64}
use map_walker.Prelude.Eq.{nat_eq}
use map_walker.Prelude.Map
use map_walker.Prelude.Map.{keys}
use map_walker.Prelude.Set
use map_walker.Prelude.Sort.{set_keys}
use map_walker.Prelude.Word.{incr}
use map_walker.Game.Appearance.{Appearance, default_appearance, appearance_beq}
use map_walker.Game.Geometry.{Config, meters_per_degree_latitude, meters_per_degree_longitude}

pub record InputState : Type 0 where
  pub sequence : ℕ
  pub up : Bool
  pub down : Bool
  pub left : Bool
  pub right : Bool

pub record PlayerPosition (F : Type 0) : Type 0 where
  pub id : ℕ
  pub lat : F
  pub lng : F

pub record PlayerState (F : Type 0) : Type 0 where
  pub id : ℕ
  pub username : String
  pub lat : F
  pub lng : F
  pub appearance : Appearance

pub record Player (F : Type 0) : Type 0 where
  pub position : PlayerPosition F
  pub username : String
  pub appearance : Appearance
  pub input : InputState
  pub last_sequence : ℕ

pub record World (F : Type 0) : Type 0 where
  pub config : Config F
  pub players : List (ℕ × Player F)
  pub tick : ℕ
  pub moved_player_ids : List ℕ
  pub removed_player_ids : List ℕ

abbrev pub no_input : InputState
no_input = record { sequence = 0; up = false; down = false; left = false; right = false }

-- `setKeys` over the ids, whatever they hold, is `playersKeys`.
module _ {F : Type 0} where
  unfoldable pub new_world : Config F → World F
  new_world config = record {
    config = config;
    players = [];
    tick = 0;
    moved_player_ids = [];
    removed_player_ids = [];
  }

  abbrev pub spawn_lat_lng : World F → F × F
  spawn_lat_lng w = (w.config.spawn_lat, w.config.spawn_lng)

  unfoldable pub has_player : World F → ℕ → Bool
  has_player w player_id = Map.has player_id w.players

  abbrev pub new_player : ℕ → String → F → F → Appearance → Player F
  new_player player_id username lat lng appearance = record {
    position = record { id = player_id; lat = lat; lng = lng };
    username = username;
    appearance = appearance;
    input = no_input;
    last_sequence = 0;
  }

  unfoldable pub add_player_with_state : World F → ℕ → String → F → F → Appearance → World F × Bool
  add_player_with_state w player_id username lat lng appearance =
      if has_player w player_id then (w, false) else (
        record w {
          players =
              Map.insert player_id (new_player player_id username lat lng appearance) w.players;
          removed_player_ids = Set.remove player_id w.removed_player_ids;
        },
        true,
      )

  unfoldable pub add_player : World F → ℕ → World F × Bool
  add_player w player_id =
      add_player_with_state w player_id "" w.config.spawn_lat w.config.spawn_lng default_appearance

  unfoldable pub add_player_at : World F → ℕ → F → F → World F × Bool
  add_player_at w player_id lat lng =
      add_player_with_state w player_id "" lat lng default_appearance

  unfoldable pub add_player_with_appearance : World F → ℕ → F → F → Appearance → World F × Bool
  add_player_with_appearance w player_id lat lng appearance =
      add_player_with_state w player_id "" lat lng appearance

  unfoldable pub remove_player : World F → ℕ → World F × Bool
  remove_player w player_id =
      if has_player w player_id
      then (
        record w {
          players = Map.delete player_id w.players;
          moved_player_ids = Set.remove player_id w.moved_player_ids;
          removed_player_ids = Set.add player_id w.removed_player_ids;
        },
        true,
      )
      else (w, false)

  unfoldable pub reset_input : World F → ℕ → World F
  reset_input w player_id = elim (Map.lookup player_id w.players) [
    | none ↦ w
    | some p ↦ record w {
      players = Map.insert player_id (record p { input = no_input; last_sequence = 0 }) w.players;
    }
  ]

  unfoldable pub apply_input : World F → ℕ → InputState → World F × Bool
  apply_input w player_id input = elim (Map.lookup player_id w.players) [
    | none ↦ (w, false)
    | some p ↦ if leb input.sequence p.last_sequence then (w, false) else (
      record w {
        players =
            Map.insert player_id (record p { input = input; last_sequence = input.sequence })
              w.players;
      },
      true,
    )
  ]

  abbrev pub state_of : Player F → PlayerState F
  state_of p = record {
    id = p.position.id;
    username = p.username;
    lat = p.position.lat;
    lng = p.position.lng;
    appearance = p.appearance;
  }

  unfoldable pub player_state : World F → ℕ → Option (PlayerState F)
  player_state w player_id = elim (Map.lookup player_id w.players) [
    | none ↦ none
    | some p ↦ some (state_of p)
  ]

  unfoldable pub player_states : World F → List ℕ → List (PlayerState F)
  player_states w [] = []
  player_states w (id ∷ ids) =
      let rest = player_states w ids in
      elim (Map.lookup id w.players) [ none ↦ rest | some p ↦ state_of p ∷ rest ]

  unfoldable pub player_position : World F → ℕ → Option (PlayerPosition F)
  player_position w player_id = elim (Map.lookup player_id w.players) [
    | none ↦ none
    | some p ↦ some p.position
  ]

  unfoldable pub player_positions : World F → List ℕ → List (PlayerPosition F)
  player_positions w [] = []
  player_positions w (id ∷ ids) =
      let rest = player_positions w ids in
      elim (Map.lookup id w.players) [ none ↦ rest | some p ↦ p.position ∷ rest ]

  unfoldable pub player_appearance : World F → ℕ → Option Appearance
  player_appearance w player_id = elim (Map.lookup player_id w.players) [
    | none ↦ none
    | some p ↦ some p.appearance
  ]

  -- The result is the pair (changed, ok).
  unfoldable pub update_player_appearance : World F → ℕ → Appearance → World F × Bool × Bool
  update_player_appearance w player_id appearance = elim (Map.lookup player_id w.players) [
    | none ↦ (w, false, false)
    | some p ↦ if appearance_beq p.appearance appearance then (w, false, true) else (
      record w { players = Map.insert player_id (record p { appearance = appearance }) w.players },
      true,
      true,
    )
  ]

  unfoldable pub take_moved_player_ids : World F → World F × List ℕ
  take_moved_player_ids w = (record w { moved_player_ids = [] }, set_keys w.moved_player_ids)

  unfoldable pub take_removed_player_ids : World F → World F × List ℕ
  take_removed_player_ids w = (record w { removed_player_ids = [] }, set_keys w.removed_player_ids)

  unfoldable pub player_ids : World F → List ℕ
  player_ids w = set_keys (keys w.players)

  unfoldable pub player_count : World F → ℕ
  player_count w = length w.players

module _ ⦃fl : Float64⦄ where
  open fl use {F, lit, fadd, fsub, fmul, fdiv, feqb, hypot}

  abbrev pub bool_number : Bool → F
  bool_number true = lit 1 1
  bool_number false = lit 0 1

  abbrev pub axis_x : InputState → F
  axis_x input = fsub (bool_number input.right) (bool_number input.left)

  abbrev pub axis_y : InputState → F
  axis_y input = fsub (bool_number input.up) (bool_number input.down)

  -- `x == 0 && y == 0`
  unfoldable pub is_idle : InputState → Bool
  is_idle input = feqb (axis_x input) (lit 0 1) && feqb (axis_y input) (lit 0 1)

  -- The longitude is scaled at the latitude that has just been written.
  unfoldable pub advance : F → Player F → Player F
  advance distance p =
      let size = hypot (axis_x p.input) (axis_y p.input) in
      let x = fdiv (axis_x p.input) size in
      let y = fdiv (axis_y p.input) size in
      let lat = fadd p.position.lat (fdiv (fmul y distance) meters_per_degree_latitude) in
      let lng = fadd p.position.lng (fdiv (fmul x distance) (meters_per_degree_longitude lat)) in
      record p { position = record p.position { lat = lat; lng = lng } }

  -- The loop of `Step` over the players: the players after it and the ids that moved.
  unfoldable pub step_players : F → List (ℕ × Player F) → List (ℕ × Player F)
  step_players distance [] = []
  step_players distance ((id, p) ∷ ps) =
      (id, if is_idle p.input then p else advance distance p) ∷ step_players distance ps

  unfoldable pub moved_ids : List (ℕ × Player F) → List ℕ
  moved_ids [] = []
  moved_ids ((id, p) ∷ ps) = let rest = moved_ids ps in if is_idle p.input then rest else id ∷ rest

  unfoldable pub add_all : List ℕ → List ℕ → List ℕ
  add_all [] s = s
  add_all (id ∷ ids) s = add_all ids (Set.add id s)

  -- `delta_seconds` is `deltaTime.Seconds()`.
  unfoldable pub step : World F → F → World F × List ℕ
  unfolding add_all
  step w delta_seconds =
      let distance = fmul w.config.speed_meters_per_second delta_seconds in
      let moved = moved_ids w.players in
      (
        record w {
          tick = incr w.tick;
          players = step_players distance w.players;
          moved_player_ids = add_all moved w.moved_player_ids;
        },
        set_keys moved,
      )
