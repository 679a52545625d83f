-- ===== src/Storage/Positions/Completeness.antt =====
-- `apply` of persistence.go while the database succeeds: the sequence numbers after a batch.
use map_walker.Prelude.{
  ℕ, zero, suc, ◌≤◌, ◌≡◌, refl, Bool, true, false, none, some, List, [], ◌∷◌, ◌++◌, if◌then◌else◌,
  ◌==◌, length, take, drop, arith, ◌∙◌, sym, take-append-drop, if_both, if_cases, length-drop, ap,
}
use Prim.Native.Nat.{max}
use map_walker.Prelude.Eq.{nat_eq}
use map_walker.Prelude.Map
use map_walker.Prelude.Map.{values, lookup-insert}
use map_walker.Prelude.MultiMap.{is_empty}
use map_walker.Storage.Positions.{
  PositionUpdate, Worker, seq_of, keep_best, collapse, filter_and_collapse, commit_row, commit_rows,
  apply_per_row, apply_chunk, apply_bulk, apply, count_call, max_position_chunk_size,
}
use map_walker.Storage.Positions.Freshness.{
  AllNew, BestNew, collapse-BestNew, has_user, newest, filter_and_collapse-AllNew,
  seq_of-commit_row, commit_row-AllNew,
}

module _ {F : Type 0} where
  -- The highest number that a batch holds for a user.
  unfoldable pub highest : List (PositionUpdate F) → ℕ → ℕ
  highest [] user = 0
  highest (u ∷ us) user = if u.user_id == user then max u.seq (highest us user) else highest us user

  best_seq : List (ℕ × PositionUpdate F) → ℕ → ℕ
  best_seq m user = elim (Map.lookup user m) [ none ↦ 0 | some u ↦ u.seq ]

  collapse-highest :
      (last_seq : List (ℕ × ℕ)) (us : List (PositionUpdate F)) (m : List (ℕ × PositionUpdate F))
      (user : ℕ)
      → max (seq_of last_seq user) (best_seq (collapse last_seq us m) user)
        ≡ max (seq_of last_seq user) (max (best_seq m user) (highest us user))
  unfolding collapse keep_best highest best_seq
  collapse-highest last_seq [] m user = omega arith
  collapse-highest last_seq (u ∷ us) m user = ground (
    arith,
    collapse-highest last_seq us m user,
    collapse-highest last_seq us (Map.insert u.user_id u m) user,
    lookup-insert u.user_id user u m,
  )

  newest-values :
      (last_seq : List (ℕ × ℕ)) (m : List (ℕ × PositionUpdate F)) (user : ℕ)
      → BestNew last_seq m
      → newest (values m) user ≡ best_seq m user
  unfolding newest best_seq Map.lookup
  newest-values last_seq [] user b = refl
  newest-values last_seq ((k, u) ∷ m) user b = ground (arith, newest-values last_seq m user)

  -- What is accepted of a batch decides the highest number as the whole batch does.
  newest-accepted :
      (last_seq : List (ℕ × ℕ)) (batch : List (PositionUpdate F)) (user : ℕ)
      → max (seq_of last_seq user) (newest (filter_and_collapse last_seq batch) user)
        ≡ max (seq_of last_seq user) (highest batch user)
  unfolding filter_and_collapse best_seq Map.lookup
  newest-accepted last_seq batch user = ground (
    arith,
    newest-values last_seq (collapse last_seq batch []) user
        (collapse-BestNew last_seq batch [] tt),
    collapse-highest last_seq batch [] user,
  )

  newest_absent :
      (us : List (PositionUpdate F)) (user : ℕ) → has_user user us ≡ false → newest us user ≡ 0
  unfolding newest
  newest_absent [] user h = refl
  newest_absent (u ∷ us) user h = ground (arith, newest_absent us user)

  newest_empty : (us : List (PositionUpdate F)) (user : ℕ) → is_empty us ≡ true → newest us user ≡ 0
  unfolding newest
  newest_empty [] user h = refl
  newest_empty (u ∷ us) user h = cc

  seq_of-commit_rows :
      (us : List (PositionUpdate F)) (w : Worker F) (user : ℕ)
      → AllNew w.last_seq us
      → seq_of (commit_rows us w).last_seq user ≡ max (seq_of w.last_seq user) (newest us user)
  unfolding commit_rows newest
  seq_of-commit_rows [] w user a = omega arith
  seq_of-commit_rows (u ∷ us) w user a = ground (
    arith,
    seq_of-commit_rows us (commit_row u w) user (commit_row-AllNew u w us a.1 a.2),
    seq_of-commit_row u w user,
    newest_absent us user,
  )

  -- `commit_rows` reads and writes `last_seq` alone, and goes through parts of a list in turn.
  commit_rows-last_seq :
      (us : List (PositionUpdate F)) (v w : Worker F)
      → v.last_seq ≡ w.last_seq
      → (commit_rows us v).last_seq ≡ (commit_rows us w).last_seq
  unfolding commit_rows commit_row
  commit_rows-last_seq [] v w e = e
  commit_rows-last_seq (u ∷ us) v w e =
      commit_rows-last_seq us (commit_row u v) (commit_row u w) (ap (Map.insert u.user_id u.seq) e)

  commit_rows-append :
      (us vs : List (PositionUpdate F)) (w : Worker F)
      → commit_rows (us ++ vs) w ≡ commit_rows vs (commit_rows us w)
  unfolding commit_rows
  commit_rows-append [] vs w = refl
  commit_rows-append (u ∷ us) vs w = commit_rows-append us vs (commit_row u w)

  module _ (outcome : ℕ → Bool) (succeeds : (n : ℕ) → outcome n ≡ true) where
    apply_per_row-last_seq :
        (us : List (PositionUpdate F)) (w : Worker F)
        → (apply_per_row outcome us w).last_seq ≡ (commit_rows us w).last_seq
    unfolding apply_per_row commit_rows commit_row
    apply_per_row-last_seq [] w = refl
    apply_per_row-last_seq (u ∷ us) w =
        rw (succeeds w.calls, apply_per_row)
          (apply_per_row-last_seq us (commit_row u (count_call w))
            ∙ commit_rows-last_seq us (commit_row u (count_call w)) (commit_row u w) refl)

    apply_chunk-last_seq :
        (us : List (PositionUpdate F)) (w : Worker F)
        → (apply_chunk outcome us w).last_seq ≡ (commit_rows us w).last_seq
    unfolding apply_chunk commit_rows
    apply_chunk-last_seq [] w = refl
    apply_chunk-last_seq (u ∷ us) w =
        rw (succeeds w.calls, apply_chunk) (commit_rows-last_seq (u ∷ us) (count_call w) w refl)

    -- The fuel is enough: with at least as many rounds as updates every chunk is written.
    apply_bulk-last_seq :
        (fuel : ℕ) (us : List (PositionUpdate F)) (w : Worker F)
        → length us ≤ fuel
        → (apply_bulk outcome fuel us w).last_seq ≡ (commit_rows us w).last_seq
    unfolding apply_bulk commit_rows
    apply_bulk-last_seq zero [] w h = refl
    apply_bulk-last_seq zero (u ∷ us) w h = absurd (omega arith)
    apply_bulk-last_seq (suc fuel) [] w h = refl
    apply_bulk-last_seq (suc fuel) (u ∷ us) w h =
        let n = max_position_chunk_size in
        let first = take n (u ∷ us) in
        let rest = drop n (u ∷ us) in
        apply_bulk-last_seq fuel rest (apply_chunk outcome first w)
          (omega (arith, length-drop n (u ∷ us)))
        ∙ commit_rows-last_seq rest (apply_chunk outcome first w) (commit_rows first w)
            (apply_chunk-last_seq first w)
        ∙ sym (ap (λ (t : Worker F). t.last_seq) (commit_rows-append first rest w))
        ∙ ap (λ us. (commit_rows us w).last_seq) (take-append-drop n (u ∷ us))

    -- If every call succeeds, lastSeq after a batch is the higher of what it was and the highest
    -- number of the batch, for every user and both databases.
    pub seq_of-apply :
        (w : Worker F) (batch : List (PositionUpdate F)) (user : ℕ)
        → seq_of (apply outcome w batch).last_seq user
          ≡ max (seq_of w.last_seq user) (highest batch user)
    unfolding apply newest
    seq_of-apply w batch user =
        let us = filter_and_collapse w.last_seq batch in
        let goal = max (seq_of w.last_seq user) (highest batch user) in
        let done =
          seq_of-commit_rows us w user (filter_and_collapse-AllNew w.last_seq batch)
          ∙ newest-accepted w.last_seq batch user in
        if_cases (λ (t : Worker F). seq_of t.last_seq user ≡ goal) (is_empty us)
          (λ e. sym (omega (arith, newest_empty us user e)) ∙ newest-accepted w.last_seq batch user)
          (λ _.
            if_both (λ (t : Worker F). seq_of t.last_seq user ≡ goal) w.is_mysql
              (ap (λ l. seq_of l user) (apply_bulk-last_seq (length us) us w (omega arith)) ∙ done)
              (ap (λ l. seq_of l user) (apply_per_row-last_seq us w) ∙ done))
