-- ===== src/Storage/Scores/Conservation.antt =====
-- The highest score of a user among what is stored, pending and waiting in the channel.
use Prim.Native.Nat.{max}
use map_walker.Prelude.{
  ℕ, zero, suc, ◌+◌, ◌≤◌, ◌≡◌, refl, Bool, true, false, List, [], ◌∷◌, if◌then◌else◌, ◌==◌, arith,
  or_else, Option-cases, inl, inr, ◌∙◌, if_both,
}
use map_walker.Prelude.Eq.{nat_eq}
use map_walker.Prelude.Map
use map_walker.Prelude.Map.{UniqueKeys, delete-UniqueKeys, lookup-insert, lookup-delete}
use map_walker.Prelude.MultiMap.{is_empty}
use map_walker.Storage.Scores.{
  Persister, ScoreUpdate, coalesce_map, coalesce_all, receive, raise_score, settle, save_score,
  flush_one, flush_all, flush_pending, persist_sync, submit_sync, drain_all,
}

unfoldable pub score_of : List (ℕ × ℕ) → ℕ → ℕ
score_of m user = or_else (Map.lookup user m) 0

-- The highest score of a user in a queue, and among the entries of a snapshot.
unfoldable pub queued : List ScoreUpdate → ℕ → ℕ
queued [] user = 0
queued (u ∷ us) user = if u.user_id == user then max u.score (queued us user) else queued us user

unfoldable pub highest_entry : List (ℕ × ℕ) → ℕ → ℕ
highest_entry [] user = 0
highest_entry ((k, s) ∷ m) user =
    if k == user then max s (highest_entry m user) else highest_entry m user

-- The score that a user ends with if everything is saved: stored, pending or on its way.
unfoldable pub earned : Persister → ℕ → ℕ
earned p user = max (score_of p.stored user) (max (score_of p.pending user) (queued p.queue user))

pub highest_entry-score_of :
    (m : List (ℕ × ℕ)) (user : ℕ) → UniqueKeys m → highest_entry m user ≡ score_of m user
unfolding highest_entry score_of Map.lookup
highest_entry-score_of [] user u = refl
highest_entry-score_of ((k, s) ∷ m) user u = ground (arith, highest_entry-score_of m user u.1)

score_of-coalesce_map :
    (u : ScoreUpdate) (m : List (ℕ × ℕ)) (user : ℕ)
    → score_of (coalesce_map u m) user
      ≡ (if u.user_id == user then max u.score (score_of m user) else score_of m user)
unfolding score_of coalesce_map
score_of-coalesce_map u m user = ground (arith, lookup-insert u.user_id user u.score m)

score_of-coalesce_all :
    (us : List ScoreUpdate) (m : List (ℕ × ℕ)) (user : ℕ)
    → score_of (coalesce_all us m) user ≡ max (score_of m user) (queued us user)
unfolding coalesce_all queued
score_of-coalesce_all [] m user = omega arith
score_of-coalesce_all (u ∷ us) m user =
    ground (arith, score_of-coalesce_all us (coalesce_map u m) user, score_of-coalesce_map u m user)

-- Taking up what waits in the channel keeps each user's highest score among stored, pending and
-- waiting.
pub earned-receive : (p : Persister) (user : ℕ) → earned (receive p) user ≡ earned p user
unfolding earned receive queued
earned-receive p user = omega (arith, score_of-coalesce_all p.queue p.pending user)

pub score_of-raise_score :
    (k s : ℕ) (m : List (ℕ × ℕ)) (user : ℕ)
    → Map.has user m ≡ true
    → score_of (raise_score k s m) user
      ≡ (if k == user then max (score_of m user) s else score_of m user)
unfolding score_of raise_score
score_of-raise_score k s m user h = ground (arith, lookup-insert k user (max (score_of m k) s) m)

pub has-raise_score :
    (k s : ℕ) (m : List (ℕ × ℕ)) (user : ℕ) → Map.has user (raise_score k s m) ≡ Map.has user m
unfolding raise_score
has-raise_score k s m user = elim (Option-cases (Map.lookup k m)) [
  | inl e ↦ ground arith
  | inr (old, e) ↦ ground (arith, lookup-insert k user (max old s) m)
]

score_of-settle_ne :
    (k s : ℕ) (m : List (ℕ × ℕ)) (user : ℕ)
    → (k == user) ≡ false
    → score_of (settle k s m) user ≡ score_of m user
unfolding score_of settle
score_of-settle_ne k s m user h = ground (arith, lookup-delete k user m)

-- The entry goes only if its score is the one that has just been saved.
score_of-settle_self :
    (k s : ℕ) (m : List (ℕ × ℕ)) → max s (score_of (settle k s m) k) ≡ max s (score_of m k)
unfolding score_of settle
score_of-settle_self k s m = ground (arith, lookup-delete k k m)

module _ (outcome : ℕ → Bool) where
  -- One saved or failed row keeps what is earned, provided that its score is part of that.
  earned-flush_one :
      (k s : ℕ) (r : Persister × Bool) (user : ℕ)
      → Map.has user r.0.stored ≡ true
      → ((k == user) ≡ true → s ≤ earned r.0 user)
      → (earned (flush_one outcome k s r).0 user ≡ earned r.0 user)
        × (Map.has user (flush_one outcome k s r).0.stored ≡ true)
  unfolding flush_one save_score earned
  earned-flush_one k s r user h below = (
    ground (
      arith,
      score_of-raise_score k s r.0.stored user h,
      score_of-settle_ne k s r.0.pending user,
      score_of-settle_self k s r.0.pending,
    ),
    ground (arith, has-raise_score k s r.0.stored user),
  )

  earned-flush_all :
      (snapshot : List (ℕ × ℕ)) (r : Persister × Bool) (user : ℕ)
      → Map.has user r.0.stored ≡ true
      → highest_entry snapshot user ≤ earned r.0 user
      → (earned (flush_all outcome snapshot r).0 user ≡ earned r.0 user)
        × (Map.has user (flush_all outcome snapshot r).0.stored ≡ true)
  unfolding flush_all highest_entry
  earned-flush_all [] r user h below = (refl, h)
  earned-flush_all ((k, s) ∷ snapshot) r user h below =
      let (same, there) = earned-flush_one k s r user h (λ e. ground arith) in
      let (rest, still) =
        earned-flush_all snapshot (flush_one outcome k s r) user there (ground arith) in
      (rest ∙ same, still)

  -- A flush keeps what each user has earned, whichever rows fail.
  pub earned-flush_pending :
      (p : Persister) (user : ℕ)
      → UniqueKeys p.pending
      → Map.has user p.stored ≡ true
      → (earned (flush_pending outcome p).0 user ≡ earned p user)
        × (Map.has user (flush_pending outcome p).0.stored ≡ true)
  unfolding flush_pending earned
  earned-flush_pending p user u h =
      earned-flush_all p.pending (p, true) user h
        (omega (arith, highest_entry-score_of p.pending user u))

  flush_all-UniqueKeys :
      (snapshot : List (ℕ × ℕ)) (r : Persister × Bool)
      → UniqueKeys r.0.pending
      → UniqueKeys (flush_all outcome snapshot r).0.pending
  unfolding flush_all flush_one save_score settle
  flush_all-UniqueKeys [] r u = u
  flush_all-UniqueKeys ((k, s) ∷ snapshot) r u =
      flush_all-UniqueKeys snapshot (flush_one outcome k s r)
        (ground (arith, delete-UniqueKeys k r.0.pending u))

  flush_pending-UniqueKeys :
      (p : Persister) → UniqueKeys p.pending → UniqueKeys (flush_pending outcome p).0.pending
  unfolding flush_pending
  flush_pending-UniqueKeys p u = flush_all-UniqueKeys p.pending (p, true) u

  -- A drain, however many attempts it makes and whichever rows fail, keeps the highest score of an
  -- existing user among what is stored, pending and in the channel.
  pub earned-drain_all :
      (patience : ℕ) (p : Persister) (user : ℕ)
      → UniqueKeys p.pending
      → Map.has user p.stored ≡ true
      → earned (drain_all outcome patience p) user ≡ earned p user
  unfolding drain_all
  earned-drain_all zero p user u h = refl
  earned-drain_all (suc patience) p user u h =
      let P = λ (q : Persister). earned q user ≡ earned p user in
      let (same, there) = earned-flush_pending p user u h in
      if_both P (is_empty p.pending) refl (
        if_both P (flush_pending outcome p).1 same (
          earned-drain_all patience (flush_pending outcome p).0 user (flush_pending-UniqueKeys p u)
            there
          ∙ same))

  stored-flush_all :
      (snapshot : List (ℕ × ℕ)) (r : Persister × Bool) (user : ℕ)
      → Map.has user r.0.stored ≡ true
      → (score_of r.0.stored user ≤ score_of (flush_all outcome snapshot r).0.stored user)
        × (Map.has user (flush_all outcome snapshot r).0.stored ≡ true)
  unfolding flush_all flush_one save_score
  stored-flush_all [] r user h = (omega arith, h)
  stored-flush_all ((k, s) ∷ snapshot) r user h =
      let (below, there) =
        stored-flush_all snapshot (flush_one outcome k s r) user
          (ground (arith, has-raise_score k s r.0.stored user)) in
      (ground (arith, below, score_of-raise_score k s r.0.stored user h), there)

  -- The stored score of an existing user does not go down in a drain.
  pub stored-drain_all :
      (patience : ℕ) (p : Persister) (user : ℕ)
      → Map.has user p.stored ≡ true
      → score_of p.stored user ≤ score_of (drain_all outcome patience p).stored user
  unfolding drain_all flush_pending
  stored-drain_all zero p user h = omega arith
  stored-drain_all (suc patience) p user h =
      let P = λ (q : Persister). score_of p.stored user ≤ score_of q.stored user in
      let (below, there) = stored-flush_all p.pending (p, true) user h in
      if_both P (is_empty p.pending) (omega arith) (
        if_both P (flush_all outcome p.pending (p, true)).1 below (
          omega (
            arith,
            below,
            stored-drain_all patience (flush_all outcome p.pending (p, true)).0 user there,
          )))

  persist_sync-stored :
      (patience user score : ℕ) (p : Persister) (other : ℕ)
      → Map.has other p.stored ≡ true
      → score_of (persist_sync outcome patience user score p).0.stored other ≡ (
          if (persist_sync outcome patience user score p).1
          then (if user == other
              then max (score_of p.stored other) score
              else score_of p.stored other)
          else score_of p.stored other)
  unfolding persist_sync save_score
  persist_sync-stored zero user score p other h = refl
  persist_sync-stored (suc patience) user score p other h = ground (
    arith,
    score_of-raise_score user score p.stored other h,
    persist_sync-stored patience user score (record p { calls = p.calls + 1 }) other h,
  )

  -- If SubmitSync succeeds, the user's stored score is the highest of what was stored, what was
  -- pending and the new one; otherwise, and for every other existing user, the stored score stays.
  pub submit_sync-stored :
      (patience user score : ℕ) (p : Persister) (other : ℕ)
      → Map.has other p.stored ≡ true
      → score_of (submit_sync outcome patience user score p).0.stored other ≡ (
          if (submit_sync outcome patience user score p).1
          then (if user == other
              then max (score_of p.stored other) (max score (score_of p.pending other))
              else score_of p.stored other)
          else score_of p.stored other)
  unfolding submit_sync score_of
  submit_sync-stored patience user score p other h = ground (
    arith,
    persist_sync-stored patience user (max score (score_of p.pending user))
        (record p { pending = Map.delete user p.pending }) other h,
  )
