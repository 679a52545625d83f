-- ===== src/Realtime/Dispatcher.antt =====
-- internal/realtime/replication_dispatcher.go: the queues of the workers and the counters. A worker
-- takes a job and finishes it in one step, `run_one`; what encoding/json and the client make of the
-- job is the argument `Outcome`. Ids are natural numbers, so that the remainder is not negative;
-- `none` is the panic of a remainder by zero workers.
pub mod Balance
pub mod Queues
use map_walker.Prelude.{
  ℕ, ◌+◌, ◌-◌, ◌%◌, Bool, true, false, Option, none, some, List, [], ◌∷◌, ◌++◌, if◌then◌else◌, ltb,
  length, get_elem?, set, replicate,
}

pub record ReplicationDispatcher (J : Type 0) : Type 0 where
  pub workers : List (List J)
  pub worker_count : ℕ
  pub queue_size : ℕ
  pub stopped : Bool
  pub submitted : ℕ
  pub dropped : ℕ
  pub encoded : ℕ
  pub skipped_empty : ℕ
  pub encode_errors : ℕ
  pub send_failures : ℕ
  pub encoded_bytes : ℕ
  pub in_flight : ℕ

-- What becomes of a job: an error of the encoder, nothing to send, or so many bytes and whether
-- Send took them.
pub data Outcome : Type 0 where
  encode_error : Outcome
  empty_update : Outcome
  update : ℕ → Bool → Outcome

module _ {J : Type 0} where
  unfoldable pub new_replication_dispatcher : ℕ → ℕ → ReplicationDispatcher J
  new_replication_dispatcher worker_count queue_size = record {
    workers = replicate worker_count [];
    worker_count = worker_count;
    queue_size = queue_size;
    stopped = false;
    submitted = 0;
    dropped = 0;
    encoded = 0;
    skipped_empty = 0;
    encode_errors = 0;
    send_failures = 0;
    encoded_bytes = 0;
    in_flight = 0;
  }

  -- `Submit` of a job for the recipient.
  unfoldable pub submit_job :
      ReplicationDispatcher J → ℕ → J → Option (ReplicationDispatcher J × Bool)
  submit_job d recipient job =
      let idx = recipient % d.worker_count in
      if d.stopped then some (d, false) else elim (get_elem? d.workers idx) [
        | none ↦ none
        | some q ↦
            if ltb (length q) d.queue_size
            then some (
              record d {
                workers = set d.workers idx (q ++ (job ∷ []));
                submitted = d.submitted + 1;
                in_flight = d.in_flight + 1;
              },
              true,
            )
            else some (
              record d {
                submitted = d.submitted + 1;
                dropped = d.dropped + 1;
                in_flight = d.in_flight + 1 - 1;
              },
              false,
            )
      ]

  -- One round of `runWorker`, on the counters.
  unfoldable pub count_outcome : Outcome → ReplicationDispatcher J → ReplicationDispatcher J
  count_outcome encode_error d = record d {
    encode_errors = d.encode_errors + 1;
    in_flight = d.in_flight - 1;
  }
  count_outcome empty_update d = record d {
    skipped_empty = d.skipped_empty + 1;
    in_flight = d.in_flight - 1;
  }
  count_outcome (update bytes sent) d = record d {
    encoded = d.encoded + 1;
    encoded_bytes = d.encoded_bytes + bytes;
    send_failures = if sent then d.send_failures else d.send_failures + 1;
    in_flight = d.in_flight - 1;
  }

  -- The worker idx takes its oldest job, if there is one.
  unfoldable pub run_one : ReplicationDispatcher J → ℕ → Outcome → ReplicationDispatcher J
  run_one d idx outcome = elim (get_elem? d.workers idx) [
    | none ↦ d
    | some [] ↦ d
    | some (j ∷ q) ↦ count_outcome outcome (record d { workers = set d.workers idx q })
  ]

  -- `Stop` closes the queues; the workers then finish what is in them.
  unfoldable pub stop : ReplicationDispatcher J → ReplicationDispatcher J
  stop d = record d { stopped = true }

  -- `QueueDepth` of `Stats`.
  unfoldable pub queue_depth : List (List J) → ℕ
  queue_depth [] = 0
  queue_depth (q ∷ qs) = length q + queue_depth qs
