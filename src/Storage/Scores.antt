-- ===== src/Storage/Scores.antt =====
-- internal/storage/score_persistence.go and score.go: the score worker. `stored` is the column
-- collectible_score of the users that exist; `outcome n` says whether the n-th call of the database
-- succeeds; `queue` is what waits in `submitCh`, oldest first. The time between two attempts has no
-- part in the state; `patience` is the number of attempts that a loop makes before `stopCh` closes.
pub mod Conservation
pub mod Flush
use Prim.Native.Nat.{max, min}
use map_walker.Prelude.{
  ℕ, zero, suc, ◌+◌, ◌*◌, Bool, true, false, Option, none, some, List, [], ◌∷◌, ◌++◌, if◌then◌else◌,
  ltb, length, ◌==◌, or_else,
}
use map_walker.Prelude.Eq.{nat_eq}
use map_walker.Prelude.Map
use map_walker.Prelude.MultiMap.{is_empty}

pub record ScoreUpdate : Type 0 where
  pub user_id : ℕ
  pub score : ℕ

pub record Persister : Type 0 where
  pub pending : List (ℕ × ℕ)
  pub queue : List ScoreUpdate
  pub stored : List (ℕ × ℕ)
  pub calls : ℕ

-- The size of `submitCh`, and the backoff in milliseconds.
abbrev pub submit_ch_size : ℕ
submit_ch_size = 64

abbrev pub score_initial_backoff : ℕ
score_initial_backoff = 100

abbrev pub score_max_backoff : ℕ
score_max_backoff = 30000

abbrev pub min_duration : ℕ → ℕ → ℕ
min_duration a b = if ltb a b then a else b

-- `minDuration(backoff*2, scoreMaxBackoff)` after a failure, the initial one after a success.
unfoldable pub next_backoff : Bool → ℕ → ℕ
next_backoff true backoff = score_initial_backoff
next_backoff false backoff = min_duration (backoff * 2) score_max_backoff

-- `Submit`: where the channel is full the update is dropped.
unfoldable pub submit : ScoreUpdate → Persister → Persister
submit u p =
    if ltb (length p.queue) submit_ch_size then record p { queue = p.queue ++ (u ∷ []) } else p

unfoldable pub coalesce_map : ScoreUpdate → List (ℕ × ℕ) → List (ℕ × ℕ)
coalesce_map u pending = elim (Map.lookup u.user_id pending) [
  | none ↦ Map.insert u.user_id u.score pending
  | some current ↦ if ltb current u.score then Map.insert u.user_id u.score pending else pending
]

unfoldable pub coalesce_all : List ScoreUpdate → List (ℕ × ℕ) → List (ℕ × ℕ)
coalesce_all [] pending = pending
coalesce_all (u ∷ us) pending = coalesce_all us (coalesce_map u pending)

-- The case `u := <-p.submitCh` of `run`: that update and all that are ready behind it.
unfoldable pub receive : Persister → Persister
receive p = record p { pending = coalesce_all p.queue p.pending; queue = [] }

-- `UPDATE users SET collectible_score = GREATEST(collectible_score, ?) WHERE id = ?`
unfoldable pub raise_score : ℕ → ℕ → List (ℕ × ℕ) → List (ℕ × ℕ)
raise_score user score stored = elim (Map.lookup user stored) [
  | none ↦ stored
  | some old ↦ Map.insert user (max old score) stored
]

-- What `flushPending` does after a row is saved.
unfoldable pub settle : ℕ → ℕ → List (ℕ × ℕ) → List (ℕ × ℕ)
settle user score pending = elim (Map.lookup user pending) [
  | none ↦ pending
  | some current ↦ if current == score then Map.delete user pending else pending
]

module _ (outcome : ℕ → Bool) where
  -- `SaveScore`: the new state and whether it succeeded.
  unfoldable pub save_score : ℕ → ℕ → Persister → Persister × Bool
  save_score user score p =
      if outcome p.calls
      then (record p { calls = p.calls + 1; stored = raise_score user score p.stored }, true)
      else (record p { calls = p.calls + 1 }, false)

  -- One round of the loop over the snapshot.
  unfoldable pub flush_one : ℕ → ℕ → Persister × Bool → Persister × Bool
  flush_one user score (p, all_ok) =
      let (q, ok) = save_score user score p in
      if ok then (record q { pending = settle user score q.pending }, all_ok) else (q, false)

  unfoldable pub flush_all : List (ℕ × ℕ) → Persister × Bool → Persister × Bool
  flush_all [] r = r
  flush_all ((user, score) ∷ snapshot) r = flush_all snapshot (flush_one user score r)

  unfoldable pub flush_pending : Persister → Persister × Bool
  flush_pending p = flush_all p.pending (p, true)

  -- `persistSync`: the state, and whether the score was saved before the stop.
  unfoldable pub persist_sync : ℕ → ℕ → ℕ → Persister → Persister × Bool
  persist_sync zero user score p = (p, false)
  persist_sync (suc patience) user score p =
      let (q, ok) = save_score user score p in
      let rest = persist_sync patience user score q in if ok then (q, true) else rest

  -- `SubmitSync`: the higher of the score and the pending one, which it takes over.
  unfoldable pub submit_sync : ℕ → ℕ → ℕ → Persister → Persister × Bool
  submit_sync patience user score p =
      persist_sync patience user (max score (or_else (Map.lookup user p.pending) 0))
        (record p { pending = Map.delete user p.pending })

  -- `drainAll`, which `Drain` waits for.
  unfoldable pub drain_all : ℕ → Persister → Persister
  drain_all zero p = p
  drain_all (suc patience) p =
      let (q, ok) = flush_pending p in
      let rest = drain_all patience q in if is_empty p.pending then p else (if ok then q else rest)
