-- ===== src/Tests/StorageRuns.antt =====
-- The storage workers at concrete inputs.
use map_walker.Prelude.{
  ℕ, ◌≡◌, ◌+◌, refl, Bool, true, List, [], ◌∷◌, if◌then◌else◌, leb, none, some, ◌≤◌,
}
use Prim.Native.Nat.{max}
use map_walker.Prelude.Eq.{nat_eq}
use map_walker.Prelude.Map
use map_walker.Storage.Positions.{PositionUpdate, Worker, seq_of, run, apply}
use map_walker.Storage.Positions.Freshness.{IsFresh, newest, run-IsFresh}
use map_walker.Storage.Positions.Completeness.{highest, seq_of-apply}
use map_walker.Storage.Scores.{Persister, drain_all, submit_sync, receive}
use map_walker.Storage.Scores.Conservation.{
  score_of, earned, earned-receive, earned-drain_all, stored-drain_all, submit_sync-stored,
}
use map_walker.Storage.Scores.Flush.{drain_all_saves, drain_all_misses_queue}

abbrev update : ℕ → ℕ → PositionUpdate ℕ
update user seq = record { user_id = user; lat = 10 + seq; lng = 20; seq = seq }

abbrev idle_worker : Worker ℕ
idle_worker = record { is_mysql = true; last_seq = []; calls = 0; written = [] }

-- The batches arrive out of order, and the second call fails.
abbrev batches : List (List (PositionUpdate ℕ))
batches =
    (update 1 2 ∷ update 2 1 ∷ update 1 3 ∷ [])
    ∷ (update 2 2 ∷ [])
    ∷ (update 1 1 ∷ update 2 3 ∷ [])
    ∷ []

abbrev fails_second : ℕ → Bool
fails_second n = if leb n 0 then true else leb 2 n

idle_worker-IsFresh : IsFresh idle_worker
unfolding seq_of newest Map.lookup
idle_worker-IsFresh = record { monotone = tt; agrees = λ user. refl }

run-IsFresh_example : IsFresh (run fails_second idle_worker batches)
run-IsFresh_example = run-IsFresh fails_second idle_worker batches idle_worker-IsFresh

abbrev always : ℕ → Bool
always n = true

seq_of-apply_example :
    seq_of (apply always idle_worker (update 1 2 ∷ update 1 3 ∷ [])).last_seq 1
    ≡ max (seq_of idle_worker.last_seq 1) (highest (update 1 2 ∷ update 1 3 ∷ []) 1)
seq_of-apply_example = seq_of-apply always (λ n. refl) idle_worker (update 1 2 ∷ update 1 3 ∷ []) 1

-- User 1 has 3 stored, 5 pending, and 7 in the channel.
abbrev busy : Persister
busy = record {
  pending = (1, 5) ∷ [];
  queue = record { user_id = 1; score = 7 } ∷ record { user_id = 2; score = 4 } ∷ [];
  stored = (1, 3) ∷ (2, 1) ∷ [];
  calls = 0;
}

earned-drain_all_example : earned (drain_all fails_second 3 busy) 1 ≡ earned busy 1
unfolding Map.lookup
earned-drain_all_example = earned-drain_all fails_second 3 busy 1 (refl, tt) refl

earned-receive_example : earned (receive busy) 1 ≡ earned busy 1
earned-receive_example = earned-receive busy 1

stored-drain_all_example :
    score_of busy.stored 1 ≤ score_of (drain_all fails_second 3 busy).stored 1
unfolding Map.lookup
stored-drain_all_example = stored-drain_all fails_second 3 busy 1 refl

submit_sync-stored_example : score_of (submit_sync fails_second 3 1 4 busy).0.stored 1 ≡ (
    if (submit_sync fails_second 3 1 4 busy).1
    then (if true
        then max (score_of busy.stored 1) (max 4 (score_of busy.pending 1))
        else score_of busy.stored 1)
    else score_of busy.stored 1)
unfolding Map.lookup
submit_sync-stored_example = submit_sync-stored fails_second 3 1 4 busy 1 refl

drain_all_saves_example :
    (Map.lookup 1 (drain_all always 1 busy).pending ≡ none)
    × (Map.lookup 1 (drain_all always 1 busy).stored ≡ (elim (Map.lookup 1 busy.stored) [
      | none ↦ none
      | some old ↦ some (max old (score_of busy.pending 1))
    ]))
unfolding Map.lookup
drain_all_saves_example = drain_all_saves always (λ n. refl) 0 busy 1 (refl, tt)

drain_all_misses_queue_example :
    (Map.lookup 2 (drain_all always 3 busy).stored ≡ Map.lookup 2 busy.stored)
    × ((drain_all always 3 busy).queue ≡ busy.queue)
unfolding Map.lookup
drain_all_misses_queue_example = drain_all_misses_queue always 3 busy 2 refl
