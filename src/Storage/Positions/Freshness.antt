-- ===== src/Storage/Positions/Freshness.antt =====
-- The order of the rows that the position worker commits.
use map_walker.Prelude.{
  ℕ, zero, suc, ◌<◌, ◌≡◌, refl, Bool, false, ◌||◌, List, [], ◌∷◌, if◌then◌else◌, ◌==◌, length, take,
  drop, arith, inl, inr, Bool-cases, subst, sym, ◌++◌, take-append-drop, if_both,
}
use map_walker.Prelude.Eq.{nat_eq}
use map_walker.Prelude.Map
use map_walker.Prelude.Map.{values, lookup-insert}
use map_walker.Prelude.MultiMap.{is_empty}
use map_walker.Storage.Positions.{
  PositionUpdate, Worker, seq_of, keep_best, collapse, filter_and_collapse, commit_row, commit_rows,
  apply_per_row, apply_chunk, apply_bulk, apply, run, count_call, max_position_chunk_size,
}

module _ {F : Type 0} where
  -- The sequence number of the newest row of a user in the log, 0 if there is none.
  unfoldable pub newest : List (PositionUpdate F) → ℕ → ℕ
  newest [] user = 0
  newest (u ∷ log) user = if u.user_id == user then u.seq else newest log user

  -- Each row is newer than every earlier row of its user.
  abbrev pub IsMonotone : List (PositionUpdate F) → Type 0
  IsMonotone [] = Unit
  IsMonotone (u ∷ log) = (newest log u.user_id < u.seq) × IsMonotone log

  -- `lastSeq` is the newest committed number of each user.
  pub record IsFresh (w : Worker F) : Type 0 where
    pub monotone : IsMonotone w.written
    pub agrees : (user : ℕ) → seq_of w.last_seq user ≡ newest w.written user

  abbrev pub has_user : ℕ → List (PositionUpdate F) → Bool
  has_user user [] = false
  has_user user (u ∷ us) = (u.user_id == user) || has_user user us

  -- At most one update for each user, and newer than what was committed.
  abbrev pub AllNew : List (ℕ × ℕ) → List (PositionUpdate F) → Type 0
  AllNew last_seq [] = Unit
  AllNew last_seq (u ∷ us) =
      (seq_of last_seq u.user_id < u.seq) × (has_user u.user_id us ≡ false) × AllNew last_seq us

  -- The same of the map `best`.
  abbrev pub BestNew : List (ℕ × ℕ) → List (ℕ × PositionUpdate F) → Type 0
  BestNew last_seq [] = Unit
  BestNew last_seq ((k, u) ∷ m) =
      (u.user_id ≡ k) × (seq_of last_seq k < u.seq) × (Map.has k m ≡ false) × BestNew last_seq m

  insert-BestNew :
      (last_seq : List (ℕ × ℕ)) (u : PositionUpdate F) (m : List (ℕ × PositionUpdate F))
      → seq_of last_seq u.user_id < u.seq
      → BestNew last_seq m
      → BestNew last_seq (Map.insert u.user_id u m)
  unfolding Map.insert Map.lookup
  insert-BestNew last_seq u [] h b = (refl, h, refl, tt)
  insert-BestNew last_seq u ((k, v) ∷ m) h b =
      ground (arith, insert-BestNew last_seq u m h, lookup-insert u.user_id k u m)

  pub collapse-BestNew :
      (last_seq : List (ℕ × ℕ)) (us : List (PositionUpdate F)) (m : List (ℕ × PositionUpdate F))
      → BestNew last_seq m
      → BestNew last_seq (collapse last_seq us m)
  unfolding collapse keep_best
  collapse-BestNew last_seq [] m b = b
  collapse-BestNew last_seq (u ∷ us) m b =
      collapse-BestNew last_seq us _ (ground (arith, insert-BestNew last_seq u m))

  has_user-values :
      (last_seq : List (ℕ × ℕ)) (m : List (ℕ × PositionUpdate F)) (user : ℕ)
      → BestNew last_seq m
      → has_user user (values m) ≡ Map.has user m
  unfolding Map.lookup
  has_user-values last_seq [] user b = refl
  has_user-values last_seq ((k, u) ∷ m) user b = ground (arith, has_user-values last_seq m user)

  values-AllNew :
      (last_seq : List (ℕ × ℕ)) (m : List (ℕ × PositionUpdate F))
      → BestNew last_seq m
      → AllNew last_seq (values m)
  values-AllNew last_seq [] b = tt
  values-AllNew last_seq ((k, u) ∷ m) b =
      ground (arith, has_user-values last_seq m k, values-AllNew last_seq m)

  pub filter_and_collapse-AllNew :
      (last_seq : List (ℕ × ℕ)) (batch : List (PositionUpdate F))
      → AllNew last_seq (filter_and_collapse last_seq batch)
  unfolding filter_and_collapse
  filter_and_collapse-AllNew last_seq batch =
      values-AllNew last_seq _ (collapse-BestNew last_seq batch [] tt)

  pub seq_of-commit_row :
      (u : PositionUpdate F) (w : Worker F) (user : ℕ)
      → seq_of (commit_row u w).last_seq user
        ≡ (if u.user_id == user then u.seq else seq_of w.last_seq user)
  unfolding commit_row seq_of
  seq_of-commit_row u w user = ground (arith, lookup-insert u.user_id user u.seq w.last_seq)

  commit_row-IsFresh :
      (u : PositionUpdate F) (w : Worker F)
      → seq_of w.last_seq u.user_id < u.seq
      → IsFresh w
      → IsFresh (commit_row u w)
  unfolding commit_row newest
  commit_row-IsFresh u w h f = record {
    monotone = (ground (arith, f.agrees u.user_id), f.monotone);
    agrees = λ user. ground (arith, seq_of-commit_row u w user, f.agrees user);
  }

  pub commit_row-AllNew :
      (u : PositionUpdate F) (w : Worker F) (us : List (PositionUpdate F))
      → has_user u.user_id us ≡ false
      → AllNew w.last_seq us
      → AllNew (commit_row u w).last_seq us
  commit_row-AllNew u w [] h a = tt
  commit_row-AllNew u w (v ∷ us) h a =
      ground (arith, seq_of-commit_row u w v.user_id, commit_row-AllNew u w us)

  module _ (outcome : ℕ → Bool) where
    count_call-IsFresh : (w : Worker F) → IsFresh w → IsFresh (count_call w)
    count_call-IsFresh w f = record { monotone = f.monotone; agrees = f.agrees }

    apply_per_row-IsFresh :
        (us : List (PositionUpdate F)) (w : Worker F)
        → AllNew w.last_seq us
        → IsFresh w
        → IsFresh (apply_per_row outcome us w)
    unfolding apply_per_row
    apply_per_row-IsFresh [] w a f = f
    apply_per_row-IsFresh (u ∷ us) w a f =
        let v = count_call w in
        let g = count_call-IsFresh w f in
        elim (Bool-cases (outcome w.calls)) [
          | inl done ↦
              rw (done, apply_per_row)
                (apply_per_row-IsFresh us (commit_row u v) (commit_row-AllNew u v us a.1 a.2)
                  (commit_row-IsFresh u v a.0 g))
          | inr failed ↦ rw (failed, apply_per_row) (apply_per_row-IsFresh us v a.2 g)
        ]

    commit_rows-IsFresh :
        (us rest : List (PositionUpdate F)) (w : Worker F)
        → AllNew w.last_seq (us ++ rest)
        → IsFresh w
        → IsFresh (commit_rows us w) × AllNew (commit_rows us w).last_seq rest
    unfolding commit_rows
    commit_rows-IsFresh [] rest w a f = (f, a)
    commit_rows-IsFresh (u ∷ us) rest w a f =
        commit_rows-IsFresh us rest (commit_row u w) (commit_row-AllNew u w (us ++ rest) a.1 a.2)
          (commit_row-IsFresh u w a.0 f)

    AllNew-drop :
        (us rest : List (PositionUpdate F)) (last_seq : List (ℕ × ℕ))
        → AllNew last_seq (us ++ rest)
        → AllNew last_seq rest
    AllNew-drop [] rest last_seq a = a
    AllNew-drop (u ∷ us) rest last_seq a = AllNew-drop us rest last_seq a.2

    apply_chunk-IsFresh :
        (us rest : List (PositionUpdate F)) (w : Worker F)
        → AllNew w.last_seq (us ++ rest)
        → IsFresh w
        → IsFresh (apply_chunk outcome us w) × AllNew (apply_chunk outcome us w).last_seq rest
    unfolding apply_chunk
    apply_chunk-IsFresh [] rest w a f = (f, a)
    apply_chunk-IsFresh (u ∷ us) rest w a f =
        let v = count_call w in
        elim (Bool-cases (outcome w.calls)) [
          | inl done ↦
              rw (done, apply_chunk)
                (commit_rows-IsFresh (u ∷ us) rest v a (count_call-IsFresh w f))
          | inr failed ↦
              rw (failed, apply_chunk)
                (count_call-IsFresh w f, AllNew-drop (u ∷ us) rest w.last_seq a)
        ]

    apply_bulk-IsFresh :
        (fuel : ℕ) (us : List (PositionUpdate F)) (w : Worker F)
        → AllNew w.last_seq us
        → IsFresh w
        → IsFresh (apply_bulk outcome fuel us w)
    unfolding apply_bulk
    apply_bulk-IsFresh zero us w a f = f
    apply_bulk-IsFresh (suc fuel) [] w a f = f
    apply_bulk-IsFresh (suc fuel) (u ∷ us) w a f =
        let n = max_position_chunk_size in
        let (g, b) =
          apply_chunk-IsFresh (take n (u ∷ us)) (drop n (u ∷ us)) w
            (subst (AllNew w.last_seq) (sym (take-append-drop n (u ∷ us))) a) f in
        apply_bulk-IsFresh fuel (drop n (u ∷ us)) _ b g

    pub apply-IsFresh :
        (w : Worker F) (batch : List (PositionUpdate F))
        → IsFresh w
        → IsFresh (apply outcome w batch)
    unfolding apply
    apply-IsFresh w batch f =
        let us = filter_and_collapse w.last_seq batch in
        let a = filter_and_collapse-AllNew w.last_seq batch in
        if_both IsFresh (is_empty us) f (
          if_both IsFresh w.is_mysql (apply_bulk-IsFresh (length us) us w a f)
            (apply_per_row-IsFresh us w a f))

    -- Whatever batches the worker applies and whichever database calls fail, each written row is
    -- newer than every earlier written row of its user, and lastSeq holds the number of the newest.
    pub run-IsFresh :
        (w : Worker F) (batches : List (List (PositionUpdate F)))
        → IsFresh w
        → IsFresh (run outcome w batches)
    unfolding run
    run-IsFresh w [] f = f
    run-IsFresh w (batch ∷ batches) f =
        run-IsFresh (apply outcome w batch) batches (apply-IsFresh w batch f)
