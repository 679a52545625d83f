-- ===== src/Tests/SyntheticRuns.antt =====
-- Synthetic clients at concrete inputs.
use map_walker.Prelude.{
  ℕ, ◌<◌, ◌≡◌, ◌+◌, ◌||◌, refl, true, some, List, [], ◌∷◌, arith, length, ltb, if◌then◌else◌,
}
use map_walker.Synthetic.Naming.{format_username, parse_username, has_reserved_prefix}
use map_walker.Synthetic.Naming.RoundTrip.{is_plain, parse_username-format_username}
use map_walker.Prelude.Eq.{nat_eq}
use map_walker.Prelude.Int.{ℤ, pos}
use map_walker.Prelude.Map
use map_walker.Game.World.{new_player}
use map_walker.Game.World.Inputs.{accepted}
use map_walker.Game.Appearance.{default_appearance}
use map_walker.Game.Geometry.{default_config}
use map_walker.Synthetic.Behavior.{
  BehaviorConfig, default_placement_config, new_behavior, sent_inputs,
}
use map_walker.Synthetic.Behavior.Schedule.{numbers, sent_inputs-accepted, sent_inputs-starts}
use map_walker.Tests.Grid.{whole}
use map_walker.Tests.WorldRuns.{walkers}

abbrev cfg : BehaviorConfig ℤ
cfg = record { seed = 5; placement = default_placement_config; movement = default_config }

sent_inputs-accepted_example :
    accepted walkers 2 (sent_inputs 300 (new_behavior 7 cfg (pos 10) (pos 20)))
    ≡ numbers (sent_inputs 300 (new_behavior 7 cfg (pos 10) (pos 20)))
unfolding Map.lookup
sent_inputs-accepted_example =
    sent_inputs-accepted 7 cfg (pos 10) (pos 20) 300 walkers 2
      (new_player 2 "bert" (pos 30) (pos 40) default_appearance) (omega arith) refl refl

sent_inputs-starts_example : 0 < length (sent_inputs 18 (new_behavior 7 cfg (pos 10) (pos 20)))
sent_inputs-starts_example = sent_inputs-starts 7 cfg (pos 10) (pos 20)

-- A to_lower for the example: upper-case ASCII letters become lower-case.
abbrev lower_char : ℕ → ℕ
lower_char c = if ltb c 65 || ltb 90 c then c else c + 32

unfoldable lower_all : List ℕ → List ℕ
lower_all [] = []
lower_all (c ∷ cs) = lower_char c ∷ lower_all cs

lower_all_plain : (s : List ℕ) → is_plain s ≡ true → lower_all s ≡ s
unfolding lower_all is_plain
lower_all_plain [] h = refl
lower_all_plain (c ∷ cs) h = ground (arith, lower_all_plain cs, h)

parse_username-format_username_example :
    (parse_username lower_all (format_username 507) ≡ some 507)
    × (has_reserved_prefix lower_all (format_username 507) ≡ true)
parse_username-format_username_example =
    parse_username-format_username lower_all 507 lower_all_plain (omega arith) (omega arith)
