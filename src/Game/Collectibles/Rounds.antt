-- ===== src/Game/Collectibles/Rounds.antt =====
-- The rounds of the loop of `AdvanceReplacements`: what one does, and what all of them do.
use Prim.Native.String.{String}
use map_walker.Prelude.{
  ℕ, suc, ◌+◌, ◌<◌, ◌≤◌, ◌≡◌, refl, sym, ◌∙◌, ap, subst, true, none, some, List, [], ◌∷◌, ◌++◌,
  arith, inl, inr, Bool-cases, Option-cases, Succeeds, Succeeds_map, length, get_elem?,
  append_assoc, length-append,
}
use map_walker.Prelude.Int.{ℤ, leb_ℤ}
use map_walker.Prelude.Eq.{nat_eq, string_eq}
use map_walker.Prelude.Float.{Float64}
use map_walker.Prelude.Map
use map_walker.Game.Collectibles.{
  Collectible, CollectibleField, CollectibleRegion, ReplacementDeadline, region_by_id, due_indices,
  backwards, remove_at, advance_one, advance_due, spawn_in_region,
}
use map_walker.Game.Collectibles.Stock.{IsStocked, IsStocked-same, Spawned, spawn_in_region-Spawned}
use map_walker.Game.Collectibles.Population.{
  one_if, scheduled, not_due, alive, alive-insert, IsKnown, region_by_id-id,
}

get_elem?-append :
    (pre rest : List ReplacementDeadline) (r : ReplacementDeadline)
    → get_elem? (pre ++ (r ∷ rest)) (length pre) ≡ some r
get_elem?-append [] rest r = refl
get_elem?-append (q ∷ pre) rest r = get_elem?-append pre rest r

remove_at-append :
    (pre rest : List ReplacementDeadline) (r : ReplacementDeadline)
    → remove_at (length pre) (pre ++ (r ∷ rest)) ≡ pre ++ rest
unfolding remove_at
remove_at-append [] rest r = refl
remove_at-append (q ∷ pre) rest r = ap (λ qs. q ∷ qs) (remove_at-append pre rest r)

unknown-one_if :
    {F : Type 0} (q id : String) (rs : List (CollectibleRegion F))
    → region_by_id q rs ≡ none
    → Map.is_some (region_by_id id rs) ≡ true
    → one_if (string_eq.beq q id) ≡ 0
unfolding one_if
unknown-one_if q id rs unknown known = ground (arith, string_eq.beq_iff q id)

module _ ⦃fl : Float64⦄ (draw_float : ℕ → fl.F) where
  open fl use {F}

  -- The state after some deadlines of `rs`, behind `pre`, have been worked off: `kept` remain.
  pub record Worked (f : CollectibleField F) (pre rs kept : List ReplacementDeadline)
      (r : CollectibleField F × List (Collectible F)) : Type 0 where
    pub stocked : IsStocked r.0
    pub regions : r.0.regions ≡ f.regions
    pub remaining : r.0.replacements ≡ pre ++ kept
    pub supply : r.0.next_id + length kept ≤ f.next_id + length rs
    pub balance :
        (id : String)
        → IsKnown id f
        → alive id r.0.collectibles + scheduled id kept ≡ alive id f.collectibles + scheduled id rs

  -- `advance_due` goes through parts of a list in turn.
  advance_due-append :
      (P : CollectibleField F × List (Collectible F) → Type 0) (is js : List ℕ)
      (f : CollectibleField F) (spawned : List (Collectible F))
      → Succeeds
          (advance_due draw_float is f spawned)
          (λ r. Succeeds (advance_due draw_float js r.0 r.1) P)
      → Succeeds (advance_due draw_float (is ++ js) f spawned) P
  unfolding advance_due
  advance_due-append P [] js f spawned h = h
  advance_due-append P (i ∷ is) js f spawned h =
      (elim (advance_one draw_float i f spawned)
          as (λ o.
            Succeeds (elim o [ none ↦ none | some (g, more) ↦ advance_due draw_float is g more ])
              (λ r. Succeeds (advance_due draw_float js r.0 r.1) P)
            → Succeeds
                (elim o [ none ↦ none | some (g, more) ↦ advance_due draw_float (is ++ js) g more ])
                P) [ none ↦ λ k. k | some (g, more) ↦ λ k. advance_due-append P is js g more k ])
        h

  -- One round takes the deadline r off, and puts an item of its region in its place.
  record Replaced (f : CollectibleField F) (r : ReplacementDeadline)
      (rest : List ReplacementDeadline) (t : CollectibleField F × List (Collectible F))
      : Type 0 where
    pub stocked : IsStocked t.0
    pub regions : t.0.regions ≡ f.regions
    pub remaining : t.0.replacements ≡ rest
    pub next_id : t.0.next_id ≤ suc f.next_id
    pub balance :
        (id : String)
        → IsKnown id f
        → alive id t.0.collectibles
          ≡ one_if (string_eq.beq r.region_id id) + alive id f.collectibles

  Spawned-Replaced :
      (f : CollectibleField F) (r : ReplacementDeadline) (rest : List ReplacementDeadline)
      (region : CollectibleRegion F) (spawned : List (Collectible F))
      (t : CollectibleField F × Collectible F)
      → region_by_id r.region_id f.regions ≡ some region
      → Spawned region (record f { replacements = rest }) t
      → Replaced f r rest (t.0, spawned)
  Spawned-Replaced f r rest region spawned t known s = record {
    stocked = s.stocked;
    regions = s.regions;
    remaining = s.replacements;
    next_id = ground (arith, s.next_id);
    balance = λ id k. ground (
      arith,
      s.collectibles,
      alive-insert id f.next_id t.1 f.collectibles s.fresh,
      s.region_id,
      region_by_id-id r.region_id f.regions region known,
    );
  }

  advance_one-Replaced :
      (i : ℕ) (f : CollectibleField F) (spawned : List (Collectible F)) (r : ReplacementDeadline)
      → get_elem? f.replacements i ≡ some r
      → IsStocked f
      → suc f.next_id < 18446744073709551616
      → Succeeds (advance_one draw_float i f spawned) (Replaced f r (remove_at i f.replacements))
  unfolding advance_one
  advance_one-Replaced i f spawned r e s bound =
      let g = record f { replacements = remove_at i f.replacements } in
      let t : IsStocked g = IsStocked-same {f = f} {g = g} refl refl refl refl s in
      elim (Option-cases (region_by_id r.region_id f.regions)) [
        | inl unknown ↦
            rw (e, unknown, advance_one)
              (record {
                stocked = t;
                regions = refl;
                remaining = refl;
                next_id = ground arith;
                balance = λ id k. ground (arith, unknown-one_if r.region_id id f.regions unknown k);
              })
        | inr (region, known) ↦
            rw (e, known, advance_one)
              ((elim (spawn_in_region draw_float region g)
                  as (λ o.
                    Succeeds o (Spawned region g)
                    → Succeeds
                        (elim o [ none ↦ none | some (h, c) ↦ some (h, spawned ++ (c ∷ [])) ])
                        (Replaced f r (remove_at i f.replacements))) [
                          | none ↦ λ h. h
                          | some (h, c) ↦ λ m.
                              Spawned-Replaced f r (remove_at i f.replacements) region
                                (spawned ++ (c ∷ [])) (h, c) known m
                        ])
                (spawn_in_region-Spawned draw_float region g t bound))
      ]

  -- A deadline that has not come stays.
  kept_on :
      (f : CollectibleField F) (pre rs kept : List ReplacementDeadline) (r : ReplacementDeadline)
      (q : CollectibleField F × List (Collectible F))
      → Worked f (pre ++ (r ∷ [])) rs kept q
      → Worked f pre (r ∷ rs) (r ∷ kept) q
  unfolding scheduled
  kept_on f pre rs kept r q w = record {
    stocked = w.stocked;
    regions = w.regions;
    remaining = w.remaining ∙ append_assoc pre (r ∷ []) kept;
    supply = omega (arith, w.supply);
    balance = λ id k. omega (arith, w.balance id k);
  }

  -- One that has come is worked off after all behind it.
  taken_off :
      (f : CollectibleField F) (pre rs kept : List ReplacementDeadline) (r : ReplacementDeadline)
      (q t : CollectibleField F × List (Collectible F))
      → q.0.replacements ≡ pre ++ (r ∷ kept)
      → Worked f (pre ++ (r ∷ [])) rs kept q
      → Replaced q.0 r (remove_at (length pre) q.0.replacements) t
      → Worked f pre (r ∷ rs) kept t
  unfolding scheduled
  taken_off f pre rs kept r q t e w m = record {
    stocked = m.stocked;
    regions = m.regions ∙ w.regions;
    remaining = m.remaining ∙ ap (remove_at (length pre)) e ∙ remove_at-append pre kept r;
    supply = omega (arith, w.supply, m.next_id);
    balance = λ id k. omega (arith, w.balance id k, m.balance id (rw w.regions k));
  }

  last_round :
      (f : CollectibleField F) (pre rs kept : List ReplacementDeadline) (r : ReplacementDeadline)
      (q : CollectibleField F × List (Collectible F))
      → f.next_id + suc (length rs) < 18446744073709551616
      → Worked f (pre ++ (r ∷ [])) rs kept q
      → Succeeds (advance_due draw_float (length pre ∷ []) q.0 q.1) (Worked f pre (r ∷ rs) kept)
  unfolding advance_due
  last_round f pre rs kept r q bound w =
      let e : q.0.replacements ≡ pre ++ (r ∷ kept) = w.remaining ∙ append_assoc pre (r ∷ []) kept in
      (elim (advance_one draw_float (length pre) q.0 q.1)
          as (λ o.
            Succeeds o (Replaced q.0 r (remove_at (length pre) q.0.replacements))
            → Succeeds (elim o [ none ↦ none | some (g, more) ↦ some (g, more) ])
                (Worked f pre (r ∷ rs) kept)) [
                  | none ↦ λ h. h
                  | some t ↦ λ m. taken_off f pre rs kept r q t e w m
                ])
        (advance_one-Replaced (length pre) q.0 q.1 r
          (ap (λ qs. get_elem? qs (length pre)) e ∙ get_elem?-append pre kept r) w.stocked
          (omega (arith, w.supply)))

  -- All that has come of `rs`, which stands behind `pre`.
  pub worked :
      (now : ℤ) (pre rs : List ReplacementDeadline) (f : CollectibleField F)
      → f.replacements ≡ pre ++ rs
      → IsStocked f
      → f.next_id + length rs < 18446744073709551616
      → Succeeds
          (advance_due draw_float (backwards (due_indices now (length pre) rs)) f [])
          (Worked f pre rs (not_due now rs))
  unfolding backwards due_indices advance_due not_due
  worked now pre [] f e s bound = record {
    stocked = s;
    regions = refl;
    remaining = e;
    supply = ground arith;
    balance = λ id k. refl;
  }
  worked now pre (r ∷ rs) f e s bound =
      let rest =
        subst
          (λ n.
            Succeeds (advance_due draw_float (backwards (due_indices now n rs)) f [])
              (Worked f (pre ++ (r ∷ [])) rs (not_due now rs)))
          (omega (arith, length-append pre (r ∷ [])))
          (worked now (pre ++ (r ∷ [])) rs f (e ∙ sym (append_assoc pre (r ∷ []) rs)) s
            (omega arith)) in
      elim (Bool-cases (leb_ℤ r.due_at now)) [
        | inl due ↦
            rw (due, due_indices, not_due, backwards)
              (advance_due-append (Worked f pre (r ∷ rs) (not_due now rs))
                (backwards (due_indices now (suc (length pre)) rs)) (length pre ∷ []) f []
                (Succeeds_map _ (λ q w. last_round f pre rs (not_due now rs) r q bound w) rest))
        | inr later ↦
            rw (later, due_indices, not_due)
              (Succeeds_map _ (λ q w. kept_on f pre rs (not_due now rs) r q w) rest)
      ]
