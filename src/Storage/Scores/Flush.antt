-- ===== src/Storage/Scores/Flush.antt =====
-- A flush against a database that succeeds, and what a drain does not reach.
use Prim.Native.Nat.{max}
use map_walker.Prelude.{
  ℕ, zero, suc, ◌≡◌, refl, Bool, true, none, some, List, inl, inr, Option-cases, [], ◌∷◌,
  if◌then◌else◌, arith, or_else, ◌∙◌, if_both, if_cases,
}
use map_walker.Prelude.Eq.{nat_eq}
use map_walker.Prelude.Map
use map_walker.Prelude.Map.{UniqueKeys, lookup-insert, lookup-delete}
use map_walker.Prelude.MultiMap.{is_empty}
use map_walker.Storage.Scores.{
  Persister, raise_score, settle, save_score, flush_one, flush_all, flush_pending, drain_all,
}
use map_walker.Storage.Scores.Conservation.{
  score_of, highest_entry, highest_entry-score_of, score_of-raise_score, has-raise_score,
}

empty_lookup : (m : List (ℕ × ℕ)) (user : ℕ) → is_empty m ≡ true → Map.lookup user m ≡ none
unfolding Map.lookup
empty_lookup [] user h = refl
empty_lookup (e ∷ m) user h = cc

empty_score : (m : List (ℕ × ℕ)) (user : ℕ) → is_empty m ≡ true → score_of m user ≡ 0
unfolding score_of
empty_score m user h = ground (arith, empty_lookup m user h)

module _ (outcome : ℕ → Bool) where
  queue-flush_all :
      (snapshot : List (ℕ × ℕ)) (r : Persister × Bool)
      → (flush_all outcome snapshot r).0.queue ≡ r.0.queue
  unfolding flush_all flush_one save_score
  queue-flush_all [] r = refl
  queue-flush_all ((k, s) ∷ snapshot) r =
      queue-flush_all snapshot (flush_one outcome k s r) ∙ ground arith

  module _ (succeeds : (n : ℕ) → outcome n ≡ true) where
    flush_all-pending :
        (snapshot : List (ℕ × ℕ)) (r : Persister × Bool) (user : ℕ)
        → UniqueKeys snapshot
        → (Map.has user snapshot ≡ true → Map.lookup user r.0.pending ≡ Map.lookup user snapshot)
        → ((flush_all outcome snapshot r).1 ≡ r.1)
          × (Map.lookup user (flush_all outcome snapshot r).0.pending
              ≡ (if Map.has user snapshot then none else Map.lookup user r.0.pending))
    unfolding flush_all flush_one save_score settle Map.lookup
    flush_all-pending [] r user u agree = (refl, refl)
    flush_all-pending ((k, s) ∷ snapshot) r user u agree =
        let (ok, gone) =
          flush_all-pending snapshot (flush_one outcome k s r) user u.1
            (λ h. ground (arith, succeeds r.0.calls, lookup-delete k user r.0.pending)) in
        (
          ground (arith, ok, succeeds r.0.calls),
          ground (arith, gone, succeeds r.0.calls, lookup-delete k user r.0.pending),
        )

    flush_all-stored :
        (snapshot : List (ℕ × ℕ)) (r : Persister × Bool) (user : ℕ)
        → Map.has user r.0.stored ≡ true
        → score_of (flush_all outcome snapshot r).0.stored user
          ≡ max (score_of r.0.stored user) (highest_entry snapshot user)
    unfolding flush_all flush_one save_score highest_entry
    flush_all-stored [] r user h = omega arith
    flush_all-stored ((k, s) ∷ snapshot) r user h = ground (
      arith,
      succeeds r.0.calls,
      flush_all-stored snapshot (flush_one outcome k s r) user,
      score_of-raise_score k s r.0.stored user h,
      has-raise_score k s r.0.stored user,
    )

    has-flush_all :
        (snapshot : List (ℕ × ℕ)) (r : Persister × Bool) (user : ℕ)
        → Map.has user (flush_all outcome snapshot r).0.stored ≡ Map.has user r.0.stored
    unfolding flush_all flush_one save_score
    has-flush_all [] r user = refl
    has-flush_all ((k, s) ∷ snapshot) r user = ground (
      arith,
      succeeds r.0.calls,
      has-flush_all snapshot (flush_one outcome k s r) user,
      has-raise_score k s r.0.stored user,
    )

    -- The row of a user, if there is one, holds the higher score.
    lookup-flush_all :
        (snapshot : List (ℕ × ℕ)) (r : Persister × Bool) (user : ℕ)
        → Map.lookup user (flush_all outcome snapshot r).0.stored
          ≡ (elim (Map.lookup user r.0.stored) [
            | none ↦ none
            | some old ↦ some (max old (highest_entry snapshot user))
          ])
    unfolding score_of
    lookup-flush_all snapshot r user = elim (Option-cases (Map.lookup user r.0.stored)) [
      | inl e ↦ ground (arith, e, has-flush_all snapshot r user)
      | inr (old, e) ↦
          ground (arith, e, has-flush_all snapshot r user, flush_all-stored snapshot r user)
    ]

    -- If every call succeeds, a drain that may make an attempt leaves no score pending, of users
    -- without a row too; the row of a user, if there is one, then holds the higher of what was
    -- stored and what was pending, and no row is made or lost.
    pub drain_all_saves :
        (patience : ℕ) (p : Persister) (user : ℕ)
        → UniqueKeys p.pending
        → (Map.lookup user (drain_all outcome (suc patience) p).pending ≡ none)
          × (Map.lookup user (drain_all outcome (suc patience) p).stored
              ≡ (elim (Map.lookup user p.stored) [
                | none ↦ none
                | some old ↦ some (max old (score_of p.pending user))
              ]))
    unfolding drain_all flush_pending
    drain_all_saves patience p user u =
        let Saved = λ (q : Persister).
          (Map.lookup user q.pending ≡ none)
          × (Map.lookup user q.stored ≡ (elim (Map.lookup user p.stored) [
            | none ↦ none
            | some old ↦ some (max old (score_of p.pending user))
          ])) in
        let (ok, gone) = flush_all-pending p.pending (p, true) user u (λ h. refl) in
        if_cases Saved (is_empty p.pending)
          (λ e. (empty_lookup p.pending user e, ground (arith, empty_score p.pending user e)))
          (λ _.
            if_cases Saved (flush_all outcome p.pending (p, true)).1
              (λ _. (
                gone ∙ ground arith,
                lookup-flush_all p.pending (p, true) user
                    ∙ ground (arith, highest_entry-score_of p.pending user u),
              ))
              (λ failed. absurd (ground arith)))

  untouched_flush :
      (snapshot : List (ℕ × ℕ)) (r : Persister × Bool) (user : ℕ)
      → Map.lookup user snapshot ≡ none
      → Map.lookup user r.0.pending ≡ none
      → (Map.lookup user (flush_all outcome snapshot r).0.stored ≡ Map.lookup user r.0.stored)
        × (Map.lookup user (flush_all outcome snapshot r).0.pending ≡ none)
  unfolding flush_all flush_one save_score settle raise_score Map.lookup
  untouched_flush [] r user h k = (refl, k)
  untouched_flush ((j, s) ∷ snapshot) r user h k =
      let (same, none_left) =
        untouched_flush snapshot (flush_one outcome j s r) user (ground arith)
          (ground (arith, lookup-delete j user r.0.pending)) in
      (
        ground (
          arith,
          same,
          lookup-insert j user (max (or_else (Map.lookup j r.0.stored) 0) s) r.0.stored,
        ),
        none_left,
      )

  -- For a user with no pending score, Drain stores nothing and leaves the channel as it is,
  -- whatever scores wait in the channel.
  pub drain_all_misses_queue :
      (patience : ℕ) (p : Persister) (user : ℕ)
      → Map.lookup user p.pending ≡ none
      → (Map.lookup user (drain_all outcome patience p).stored ≡ Map.lookup user p.stored)
        × ((drain_all outcome patience p).queue ≡ p.queue)
  unfolding drain_all flush_pending
  drain_all_misses_queue zero p user h = (refl, refl)
  drain_all_misses_queue (suc patience) p user h =
      let Missed = λ (q : Persister).
        (Map.lookup user q.stored ≡ Map.lookup user p.stored) × (q.queue ≡ p.queue) in
      let (same, none_left) = untouched_flush p.pending (p, true) user h h in
      let kept = queue-flush_all p.pending (p, true) in
      let (rest, queue) =
        drain_all_misses_queue patience (flush_all outcome p.pending (p, true)).0 user none_left in
      if_both Missed (is_empty p.pending) (refl, refl)
        (if_both Missed (flush_all outcome p.pending (p, true)).1 (same, kept)
          (rest ∙ same, queue ∙ kept))
