-- ===== src/Synthetic/Behavior.antt =====
-- internal/synthetic/behavior.go, behavior_hash.go and placement.go: what a synthetic client sends,
-- tick by tick, and where its account starts. Account numbers, ticks and indices are natural
-- numbers below 2^63; seeds and hashes are uint64.
pub mod Schedule
use Prim.Native.Nat.{bit_xor}
use map_walker.Prelude.{
  ℕ, ◌+◌, ◌*◌, ◌/◌, ◌%◌, ◌^◌, Bool, true, false, ◌&&◌, if◌then◌else◌, ltb, not, suc, zero, List, [],
  ◌∷◌,
}
use map_walker.Prelude.Float.{Float64}
use map_walker.Prelude.Word.{u64, incr}
use map_walker.Game.Geometry.{
  Config, default_config, meters_per_degree_latitude, meters_per_degree_longitude,
  aoi_config_from_world, local_to_lat_lng,
}
use map_walker.Game.World.{InputState, no_input, bool_number}

-- `v ^= v >> 33`
abbrev pub fold_high : ℕ → ℕ
fold_high v = bit_xor v (v / 2 ^ 33)

unfoldable pub behavior_roll : ℕ → ℕ → ℕ → ℕ → ℕ
behavior_roll account_number seed index salt =
    let v = u64 (
      account_number * 0x9E3779B97F4A7C15
      + seed * 0xBF58476D1CE4E5B9
      + index * 0xff51afd7ed558ccd
      + salt) in
    fold_high (u64 (fold_high v * 0xc4ceb9fe1a85ec53))

unfoldable pub activation_stagger_ticks : ℕ → ℕ → ℕ
activation_stagger_ticks account_number seed = behavior_roll account_number seed 0 1 % 10

unfoldable pub first_input_stagger_ticks : ℕ → ℕ → ℕ
first_input_stagger_ticks account_number seed = behavior_roll account_number seed 0 2 % 10

-- Durations are nanoseconds.
unfoldable pub direction_interval : ℕ → ℕ → ℕ → ℕ
direction_interval account_number seed index =
    (1 + behavior_roll account_number seed index 4 % 5) * 1000000000

unfoldable pub direction_interval_ticks : ℕ → ℕ → ℕ → ℕ
direction_interval_ticks account_number seed index =
    direction_interval account_number seed index / 100000000

abbrev toward : Bool → Bool → Bool → Bool → InputState
toward up down left right = record {
  up = up;
  down = down;
  left = left;
  right = right;
  sequence = 0;
}

unfoldable pub direction_for_roll : ℕ → InputState
direction_for_roll roll =
    if ltb roll 20
    then no_input
    else (if ltb roll 30
        then toward true false false false
        else (if ltb roll 40
            then toward false true false false
            else (if ltb roll 50
                then toward false false true false
                else (if ltb roll 60
                    then toward false false false true
                    else (if ltb roll 70
                        then toward true false false true
                        else (if ltb roll 80
                            then toward true false true false
                            else (if ltb roll 90
                                then toward false true false true
                                else toward false true true false)))))))

unfoldable pub scheduled_direction : ℕ → ℕ → ℕ → InputState
scheduled_direction account_number seed index =
    direction_for_roll (behavior_roll account_number seed index 3 % 100)

-- `a == b` of two bools.
abbrev same_bool : Bool → Bool → Bool
same_bool a b = if a then b else not b

unfoldable pub input_states_equal : InputState → InputState → Bool
input_states_equal a b =
    same_bool a.up b.up
    && same_bool a.down b.down
    && same_bool a.left b.left
    && same_bool a.right b.right

pub record PlacementConfig (F : Type 0) : Type 0 where
  pub spawn_lat : F
  pub spawn_lng : F

pub record BehaviorConfig (F : Type 0) : Type 0 where
  pub seed : ℕ
  pub placement : PlacementConfig F
  pub movement : Config F

pub record Behavior (F : Type 0) : Type 0 where
  pub account_number : ℕ
  pub cfg : BehaviorConfig F
  pub local_x : F
  pub local_y : F
  pub current : InputState
  pub sequence : ℕ
  pub direction_index : ℕ
  pub tick_count : ℕ
  pub next_first_input_tick : ℕ
  pub next_direction_change_tick : ℕ
  pub started : Bool

module _ ⦃fl : Float64⦄ where
  open fl use {F, lit, fadd, fsub, fmul, fdiv, fltb, feqb, hypot}

  unfoldable pub default_placement_config : PlacementConfig F
  default_placement_config = record {
    spawn_lat = default_config.spawn_lat;
    spawn_lng = default_config.spawn_lng;
  }

  -- `float64(v % 10000) / 10000`
  unfoldable pub placement_fraction : ℕ → ℕ → F
  placement_fraction account_number salt =
      let v = u64 (account_number * 0x9E3779B97F4A7C15 + salt * 0xBF58476D1CE4E5B9) in
      lit (fold_high (u64 (fold_high v * 0xff51afd7ed558ccd)) % 10000) 10000

  unfoldable pub local_placement : ℕ → F × F
  local_placement account_number = (
    fsub (fmul (fmul (placement_fraction account_number 1) (lit 2 1)) (lit 1500 1)) (lit 1500 1),
    fsub (fmul (fmul (placement_fraction account_number 2) (lit 2 1)) (lit 1500 1)) (lit 1500 1),
  )

  unfoldable pub placement_lat_lng : PlacementConfig F → ℕ → F × F
  placement_lat_lng cfg account_number =
      let (x, y) = local_placement account_number in
      local_to_lat_lng
        (aoi_config_from_world
          (record default_config { spawn_lat = cfg.spawn_lat; spawn_lng = cfg.spawn_lng }))
        x y

  -- `LatLngToLocal` of behavior.go.
  unfoldable pub lat_lng_to_local : PlacementConfig F → F → F → F × F
  lat_lng_to_local cfg lat lng = (
    fmul (fsub lng cfg.spawn_lng) (meters_per_degree_longitude cfg.spawn_lat),
    fmul (fsub lat cfg.spawn_lat) meters_per_degree_latitude,
  )

  abbrev pub soft_boundary_meters : F
  soft_boundary_meters = lit 1350 1

  abbrev pub low_boundary : F
  low_boundary = fsub (lit 0 1) soft_boundary_meters

  unfoldable pub apply_soft_boundary_filter : InputState → F → F → InputState
  apply_soft_boundary_filter input local_x local_y = record input {
    right = if fltb soft_boundary_meters local_x then false else input.right;
    left = if fltb local_x low_boundary then false else input.left;
    up = if fltb soft_boundary_meters local_y then false else input.up;
    down = if fltb local_y low_boundary then false else input.down;
  }

  -- `seconds` is `delta.Seconds()`.
  unfoldable pub advance_estimated_local_position : F → F → InputState → Config F → F → F × F
  advance_estimated_local_position local_x local_y input movement seconds =
      let x = fsub (bool_number input.right) (bool_number input.left) in
      let y = fsub (bool_number input.up) (bool_number input.down) in
      let size = hypot x y in
      let distance = fmul movement.speed_meters_per_second seconds in
      if feqb x (lit 0 1) && feqb y (lit 0 1)
      then (local_x, local_y)
      else (fadd local_x (fmul (fdiv x size) distance), fadd local_y (fmul (fdiv y size) distance))

  unfoldable pub new_behavior : ℕ → BehaviorConfig F → F → F → Behavior F
  new_behavior account_number cfg lat lng =
      let (x, y) = lat_lng_to_local cfg.placement lat lng in
      let first =
        activation_stagger_ticks account_number cfg.seed
        + first_input_stagger_ticks account_number cfg.seed in
      record {
        account_number = account_number;
        cfg = cfg;
        local_x = x;
        local_y = y;
        current = no_input;
        sequence = 0;
        direction_index = 0;
        tick_count = 0;
        next_first_input_tick = first;
        next_direction_change_tick = first + direction_interval_ticks account_number cfg.seed 0;
        started = false;
      }

  unfoldable pub select_direction : Behavior F → ℕ → InputState
  select_direction b index =
      apply_soft_boundary_filter (scheduled_direction b.account_number b.cfg.seed index) b.local_x
        b.local_y

  -- The first input.
  unfoldable pub begin : Behavior F → Behavior F
  begin b = record b {
    started = true;
    current = record (select_direction b 0) { sequence = 1 };
    sequence = 1;
    direction_index = 0;
  }

  -- The estimate of the position, a tick later.
  unfoldable pub estimate : Behavior F → Behavior F
  estimate b =
      let (x, y) =
        advance_estimated_local_position b.local_x b.local_y b.current b.cfg.movement (lit 1 10) in
      record b { local_x = x; local_y = y }

  -- The change of the direction.
  unfoldable pub turn : Behavior F → Behavior F × (InputState × Bool)
  turn b =
      let index = b.direction_index + 1 in
      let next = select_direction b index in
      let turned = record b {
        direction_index = index;
        next_direction_change_tick =
            b.next_direction_change_tick
            + direction_interval_ticks b.account_number b.cfg.seed index;
      } in
      if input_states_equal next b.current then (turned, (b.current, false)) else (
        record turned {
          sequence = incr b.sequence;
          current = record next { sequence = incr b.sequence };
        },
        (record next { sequence = incr b.sequence }, true),
      )

  -- The input, and whether it is new.
  unfoldable pub on_tick : Behavior F → Behavior F × (InputState × Bool)
  on_tick before =
      let b = record before { tick_count = before.tick_count + 1 } in
      if ltb b.tick_count b.next_first_input_tick
      then (b, (no_input, false))
      else (if not b.started
          then (begin b, ((begin b).current, true))
          else (if ltb b.tick_count b.next_direction_change_tick
              then (estimate b, (b.current, false))
              else turn (estimate b)))

  -- The inputs that are sent in so many ticks.
  unfoldable pub sent_inputs : ℕ → Behavior F → List InputState
  sent_inputs zero b = []
  sent_inputs (suc n) b =
      let (c, (input, changed)) = on_tick b in
      let rest = sent_inputs n c in if changed then input ∷ rest else rest
