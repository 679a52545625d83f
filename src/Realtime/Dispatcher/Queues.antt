-- ===== src/Realtime/Dispatcher/Queues.antt =====
-- replication_dispatcher.go: Submit finds a queue for every recipient.
use map_walker.Prelude.{
  ℕ, zero, suc, ◌%◌, ◌<◌, ◌≡◌, refl, Bool, Option, some, List, [], ◌∷◌, ◌++◌, arith, inl, inr, ltb,
  length, get_elem?, set, length-set, Option-cases, if_both, Succeeds,
}
use map_walker.Realtime.Dispatcher.{
  ReplicationDispatcher, Outcome, encode_error, empty_update, update, submit_job, count_outcome,
  run_one,
}

module _ {J : Type 0} where
  -- There is at least one worker, and each has its queue.
  pub record IsWorking (d : ReplicationDispatcher J) : Type 0 where
    pub some_worker : 0 < d.worker_count
    pub queues : length d.workers ≡ d.worker_count

  queue_of : (qs : List (List J)) (i : ℕ) → i < length qs → (q : List J) × (get_elem? qs i ≡ some q)
  queue_of [] i h = absurd (omega arith)
  queue_of (q ∷ qs) zero h = (q, refl)
  queue_of (q ∷ qs) (suc i) h = queue_of qs i (omega arith)

  pub submit_job-IsWorking :
      (d : ReplicationDispatcher J) (recipient : ℕ) (job : J)
      → IsWorking d
      → Succeeds (submit_job d recipient job) (λ r. IsWorking r.0)
  unfolding submit_job
  submit_job-IsWorking d recipient job w =
      let (q, e) =
        queue_of d.workers (recipient % d.worker_count) (omega (arith, w.queues, w.some_worker)) in
      if_both (λ (o : Option (ReplicationDispatcher J × Bool)). Succeeds o (λ r. IsWorking r.0))
        d.stopped w
        (rw e (
          if_both (λ (o : Option (ReplicationDispatcher J × Bool)). Succeeds o (λ r. IsWorking r.0))
            (ltb (length q) d.queue_size)
            (record {
              some_worker = w.some_worker;
              queues = omega (
                arith,
                w.queues,
                length-set d.workers (recipient % d.worker_count) (q ++ (job ∷ [])),
              );
            })
            (record { some_worker = w.some_worker; queues = w.queues })))

  count_outcome-IsWorking :
      (outcome : Outcome) (d : ReplicationDispatcher J)
      → IsWorking d
      → IsWorking (count_outcome outcome d)
  unfolding count_outcome
  count_outcome-IsWorking encode_error d w = record {
    some_worker = w.some_worker;
    queues = w.queues;
  }
  count_outcome-IsWorking empty_update d w = record {
    some_worker = w.some_worker;
    queues = w.queues;
  }
  count_outcome-IsWorking (update bytes sent) d w = record {
    some_worker = w.some_worker;
    queues = w.queues;
  }

  pub run_one-IsWorking :
      (d : ReplicationDispatcher J) (idx : ℕ) (outcome : Outcome)
      → IsWorking d
      → IsWorking (run_one d idx outcome)
  unfolding run_one
  run_one-IsWorking d idx outcome w = elim (Option-cases (get_elem? d.workers idx)) [
    | inl e ↦ rw (e, run_one) w
    | inr ([], e) ↦ rw (e, run_one) w
    | inr (j ∷ q, e) ↦
        rw (e, run_one)
          (count_outcome-IsWorking outcome (record d { workers = set d.workers idx q })
            (record {
              some_worker = w.some_worker;
              queues = omega (arith, w.queues, length-set d.workers idx q);
            }))
  ]
