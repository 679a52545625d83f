-- ===== src/Synthetic/Behavior/Schedule.antt =====
-- behavior.go: when a synthetic client sends its inputs, how they are numbered, and that the world
-- of internal/game/world.go takes them.
use map_walker.Prelude.{
  ℕ, zero, suc, ◌+◌, ◌≤◌, ◌<◌, ◌≡◌, refl, ap, subst, sym, Bool, true, false, not, some, List, [],
  ◌∷◌, arith, inl, inr, Bool-cases, if_both, if_cases, ltb, leb, length, map,
}
use map_walker.Prelude.Eq.{nat_eq}
use map_walker.Prelude.Float.{Float64}
use map_walker.Prelude.Map
use map_walker.Prelude.Map.{lookup-insert}
use map_walker.Game.World.{World, Player, InputState}
use map_walker.Game.World.Inputs.{accepted, apply_input_cases}
use map_walker.Synthetic.Behavior.{
  Behavior, BehaviorConfig, activation_stagger_ticks, first_input_stagger_ticks, direction_interval,
  direction_interval_ticks, input_states_equal, new_behavior, begin, estimate, turn, on_tick,
  sent_inputs,
}

-- The first input is due by tick 18, and a direction is kept for 10 to 50 ticks.
pub stagger_bounds :
    (account_number seed index : ℕ)
    → (activation_stagger_ticks account_number seed + first_input_stagger_ticks account_number seed
        ≤ 18)
      × (10 ≤ direction_interval_ticks account_number seed index)
      × (direction_interval_ticks account_number seed index ≤ 50)
unfolding activation_stagger_ticks first_input_stagger_ticks direction_interval
    direction_interval_ticks
stagger_bounds account_number seed index = (omega arith, omega arith, omega arith)

-- The inputs are numbered one after the other, from the number after s on.
abbrev pub AreNumbered : ℕ → List InputState → Type 0
AreNumbered s [] = Unit
AreNumbered s (i ∷ is) = (i.sequence ≡ suc s) × AreNumbered (suc s) is

-- The numbers of inputs.
abbrev pub numbers : List InputState → List ℕ
numbers is = map (λ i. i.sequence) is

module _ {F : Type 0} where
  AreNumbered-accepted :
      (w : World F) (p : ℕ) (q : Player F) (is : List InputState)
      → Map.lookup p w.players ≡ some q
      → AreNumbered q.last_sequence is
      → accepted w p is ≡ numbers is
  unfolding accepted
  AreNumbered-accepted w p q [] e h = refl
  AreNumbered-accepted w p q (i ∷ is) e (this, rest) =
      let t = record q { input = i; last_sequence = i.sequence } in
      let w' = record w { players = Map.insert p t w.players } in
      let fresh : leb i.sequence q.last_sequence ≡ false = ground (arith, this) in
      rw (apply_input_cases w p q i e, fresh)
        (ap (λ ns. i.sequence ∷ ns)
          (AreNumbered-accepted w' p t is (ground (arith, lookup-insert p p t w.players))
            (rw this rest)))

module _ ⦃fl : Float64⦄ where
  open fl use {F}

  -- Before the first input nothing has been numbered.
  pub record IsCounted (b : Behavior F) : Type 0 where
    pub unstarted : b.started ≡ false → b.sequence ≡ 0

  -- One tick: nothing new, or the next number.
  record Ticked (b : Behavior F) (r : Behavior F × (InputState × Bool)) : Type 0 where
    counted : IsCounted r.0
    numbered :
        (r.1.1 ≡ false → r.0.sequence ≡ b.sequence)
        × (r.1.1 ≡ true → (r.0.sequence ≡ suc b.sequence) × (r.1.0.sequence ≡ suc b.sequence))

  on_tick-Ticked :
      (b : Behavior F) → IsCounted b → suc b.sequence < 18446744073709551616 → Ticked b (on_tick b)
  unfolding on_tick begin estimate turn
  on_tick-Ticked b c bound =
      if_both (Ticked b) (ltb (b.tick_count + 1) b.next_first_input_tick)
        (record {
          counted = record { unstarted = c.unstarted };
          numbered = (λ _. refl, λ e. ground (arith, e));
        })
        (if_cases (Ticked b) (not b.started)
          (λ fresh. record {
            counted = record { unstarted = λ e. ground (arith, e) };
            numbered = (
              λ e. ground (arith, e),
              λ _. (ground (arith, fresh, c.unstarted), ground (arith, fresh, c.unstarted)),
            );
          })
          (λ going.
            if_both (Ticked b) (ltb (b.tick_count + 1) b.next_direction_change_tick)
              (record {
                counted = record { unstarted = c.unstarted };
                numbered = (λ _. refl, λ e. ground (arith, e));
              })
              (if_both (Ticked b) (input_states_equal _ b.current)
                (record {
                  counted = record { unstarted = c.unstarted };
                  numbered = (λ _. refl, λ e. ground (arith, e));
                })
                (record {
                  counted = record { unstarted = λ e. ground (arith, e, going) };
                  numbered = (λ e. ground (arith, e), λ _. (ground arith, ground arith));
                }))))

  sent_inputs-AreNumbered :
      (n : ℕ) (b : Behavior F)
      → IsCounted b
      → b.sequence + n < 18446744073709551616
      → AreNumbered b.sequence (sent_inputs n b)
  unfolding sent_inputs
  sent_inputs-AreNumbered zero b c bound = tt
  sent_inputs-AreNumbered (suc n) b c bound =
      let r = on_tick b in
      let t = on_tick-Ticked b c (omega arith) in
      if_cases (AreNumbered b.sequence) r.1.1
        (λ new.
          let (counted, this) = t.numbered.1 new in
          (
            this,
            subst (λ s. AreNumbered s (sent_inputs n r.0)) counted
                (sent_inputs-AreNumbered n r.0 t.counted (omega (arith, counted))),
          ))
        (λ old.
          let same = t.numbered.0 old in
          subst (λ s. AreNumbered s (sent_inputs n r.0)) same
            (sent_inputs-AreNumbered n r.0 t.counted (omega (arith, same))))

  -- Of a new synthetic client the world accepts every input that it sends, in however many ticks
  -- below 2^64, for a player that is in the world and has no accepted input yet.
  pub sent_inputs-accepted :
      (account_number : ℕ) (cfg : BehaviorConfig F) (lat lng : F) (n : ℕ) (w : World F) (p : ℕ)
      (q : Player F)
      → n < 18446744073709551616
      → Map.lookup p w.players ≡ some q
      → q.last_sequence ≡ 0
      → accepted w p (sent_inputs n (new_behavior account_number cfg lat lng))
        ≡ numbers (sent_inputs n (new_behavior account_number cfg lat lng))
  unfolding new_behavior
  sent_inputs-accepted account_number cfg lat lng n w p q bound e fresh =
      let b = new_behavior account_number cfg lat lng in
      AreNumbered-accepted w p q (sent_inputs n b) e (
        subst (λ s. AreNumbered s (sent_inputs n b)) (sym fresh)
          (sent_inputs-AreNumbered n b (record { unstarted = λ _. refl }) (omega (arith, bound))))

  starts :
      (n : ℕ) (b : Behavior F)
      → b.started ≡ false
      → b.next_first_input_tick ≤ b.tick_count + suc n
      → 0 < length (sent_inputs (suc n) b)
  unfolding sent_inputs on_tick begin
  starts zero b e h = ground (arith, e)
  starts (suc n) b e h = elim (Bool-cases (ltb (b.tick_count + 1) b.next_first_input_tick)) [
    | inl early ↦
        rw (early, sent_inputs)
          (starts n (record b { tick_count = b.tick_count + 1 }) e (omega arith))
    | inr now ↦ ground (arith, now, e)
  ]

  -- Whatever its account and seed, a new synthetic client sends an input within its first 18 ticks.
  pub sent_inputs-starts :
      (account_number : ℕ) (cfg : BehaviorConfig F) (lat lng : F)
      → 0 < length (sent_inputs 18 (new_behavior account_number cfg lat lng))
  unfolding new_behavior
  sent_inputs-starts account_number cfg lat lng =
      starts 17 (new_behavior account_number cfg lat lng) refl
        (omega (arith, stagger_bounds account_number cfg.seed 0))
