-- ===== src/Game/Collectibles/Advance.antt =====
-- `AdvanceReplacements` of collectible.go: its whole effect on the field.
use Prim.Native.String.{String}
use map_walker.Prelude.{
  ℕ, suc, ◌+◌, ◌<◌, ◌≤◌, ◌≡◌, refl, sym, ◌∙◌, ap, true, List, [], ◌∷◌, arith, Succeeds,
  Succeeds_map, if_cases, length,
}
use map_walker.Prelude.Int.{ℤ}
use map_walker.Prelude.Eq.{nat_eq, string_eq}
use map_walker.Prelude.Float.{Float64}
use map_walker.Prelude.MultiMap.{is_empty}
use map_walker.Game.Collectibles.{
  Collectible, CollectibleField, ReplacementDeadline, due_indices, advance_replacements,
}
use map_walker.Game.Collectibles.Stock.{IsStocked}
use map_walker.Game.Collectibles.Rounds.{Worked, worked}
use map_walker.Game.Collectibles.Population.{scheduled, not_due, alive, population, IsKnown}

-- What `AdvanceReplacements` promises: exactly the deadlines that have come are gone, the field is
-- well kept, and each region of the field has the population that it had.
module _ ⦃fl : Float64⦄ where
  open fl use {F}

  pub record Advanced (now : ℤ) (f : CollectibleField F)
      (r : CollectibleField F × List (Collectible F)) : Type 0 where
    pub stocked : IsStocked r.0
    pub regions : r.0.regions ≡ f.regions
    pub remaining : r.0.replacements ≡ not_due now f.replacements
    pub supply : r.0.next_id + length r.0.replacements ≤ f.next_id + length f.replacements
    pub population : (id : String) → IsKnown id f → population id r.0 ≡ population id f

none_due :
    (now : ℤ) (i : ℕ) (rs : List ReplacementDeadline)
    → is_empty (due_indices now i rs) ≡ true
    → not_due now rs ≡ rs
unfolding due_indices not_due
none_due now i [] h = refl
none_due now i (r ∷ rs) h = ground (arith, none_due now (suc i) rs)

module _ ⦃fl : Float64⦄ (draw_float : ℕ → fl.F) where
  open fl use {F}

  Worked-Advanced :
      (now : ℤ) (f : CollectibleField F) (r : CollectibleField F × List (Collectible F))
      → Worked draw_float f [] f.replacements (not_due now f.replacements) r
      → Advanced now f r
  Worked-Advanced now f r w = record {
    stocked = w.stocked;
    regions = w.regions;
    remaining = w.remaining;
    supply = rw w.remaining w.supply;
    population =
        λ id k. ap (λ rs. alive id r.0.collectibles + scheduled id rs) w.remaining ∙ w.balance id k;
  }

  -- On a well-kept field whose ids do not run out, AdvanceReplacements returns, whatever the random
  -- source gives: exactly the deadlines that have come are gone, in the old order of the rest, the
  -- field is well kept, and each region of the field has the same number of items and deadlines
  -- together as before.
  pub advance_replacements-Advanced :
      (now : ℤ) (f : CollectibleField F)
      → IsStocked f
      → f.next_id + length f.replacements < 18446744073709551616
      → Succeeds (advance_replacements draw_float now f) (Advanced now f)
  unfolding advance_replacements
  advance_replacements-Advanced now f s bound =
      if_cases (λ o. Succeeds o (Advanced now f)) (is_empty (due_indices now 0 f.replacements))
        (λ e.
          let same = none_due now 0 f.replacements e in
          record {
            stocked = s;
            regions = refl;
            remaining = sym same;
            supply = omega arith;
            population = λ id k. refl;
          })
        (λ _.
          Succeeds_map _ (Worked-Advanced now f)
            (worked draw_float now [] f.replacements f refl s bound))
