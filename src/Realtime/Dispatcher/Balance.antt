-- ===== src/Realtime/Dispatcher/Balance.antt =====
-- The counters of replication_dispatcher.go over histories of submissions and worker rounds.
use map_walker.Prelude.{
  ℕ, zero, suc, ◌+◌, ◌%◌, ◌≡◌, refl, Bool, Option, none, some, List, [], ◌∷◌, ◌++◌, arith, inl, inr,
  ltb, length, get_elem?, set, replicate, length-append, Option-cases, if_both,
}
use map_walker.Realtime.Dispatcher.{
  ReplicationDispatcher, Outcome, encode_error, empty_update, update, new_replication_dispatcher,
  submit_job, count_outcome, run_one, stop, queue_depth,
}

pub data DispatcherCall (J : Type 0) : Type 0 where
  submits : ℕ → J → DispatcherCall J
  works : ℕ → Outcome → DispatcherCall J
  stops : DispatcherCall J

queue_depth-replicate : (J : Type 0) (n : ℕ) → queue_depth {J = J} (replicate n []) ≡ 0
unfolding queue_depth
queue_depth-replicate J zero = refl
queue_depth-replicate J (suc n) = omega (arith, queue_depth-replicate J n)

module _ {J : Type 0} where
  -- Every job that was submitted was dropped, finished, or waits; those that wait are in flight.
  pub record IsBalanced (d : ReplicationDispatcher J) : Type 0 where
    pub flight : d.in_flight ≡ queue_depth d.workers
    pub total :
        d.submitted
        ≡ d.dropped + d.encoded + d.skipped_empty + d.encode_errors + queue_depth d.workers

  -- A panic, which only a dispatcher without workers has, leaves it as it is; NewHub makes at least
  -- two workers.
  dispatcher_or :
      ReplicationDispatcher J → Option (ReplicationDispatcher J × Bool) → ReplicationDispatcher J
  dispatcher_or d none = d
  dispatcher_or d (some (e, ok)) = e

  unfoldable pub apply_dispatcher :
      ReplicationDispatcher J → DispatcherCall J → ReplicationDispatcher J
  unfolding dispatcher_or
  apply_dispatcher d (submits recipient job) = dispatcher_or d (submit_job d recipient job)
  apply_dispatcher d (works idx outcome) = run_one d idx outcome
  apply_dispatcher d stops = stop d

  unfoldable pub run_dispatcher :
      ReplicationDispatcher J → List (DispatcherCall J) → ReplicationDispatcher J
  run_dispatcher d [] = d
  run_dispatcher d (c ∷ cs) = run_dispatcher (apply_dispatcher d c) cs

  queue_depth-set :
      (qs : List (List J)) (i : ℕ) (q r : List J)
      → get_elem? qs i ≡ some q
      → queue_depth (set qs i r) + length q ≡ queue_depth qs + length r
  unfolding queue_depth
  queue_depth-set [] i q r h = cc
  queue_depth-set (p ∷ qs) zero q r h = ground arith
  queue_depth-set (p ∷ qs) (suc i) q r h = omega (arith, queue_depth-set qs i q r h)

  submit-IsBalanced :
      (d : ReplicationDispatcher J) (recipient : ℕ) (job : J)
      → IsBalanced d
      → IsBalanced (dispatcher_or d (submit_job d recipient job))
  unfolding dispatcher_or submit_job
  submit-IsBalanced d recipient job b =
      let idx = recipient % d.worker_count in
      let P = λ (o : Option (ReplicationDispatcher J × Bool)). IsBalanced (dispatcher_or d o) in
      if_both P d.stopped b (elim (Option-cases (get_elem? d.workers idx)) [
        | inl e ↦ rw e b
        | inr (q, e) ↦
            let depth = queue_depth-set d.workers idx q (q ++ (job ∷ [])) e in
            let longer = length-append q (job ∷ []) in
            rw e (
              if_both P (ltb (length q) d.queue_size)
                (record {
                  flight = omega (arith, b.flight, depth, longer);
                  total = omega (arith, b.total, depth, longer);
                })
                (record { flight = omega (arith, b.flight); total = omega (arith, b.total) }))
      ])

  outcome-IsBalanced :
      (d : ReplicationDispatcher J) (idx : ℕ) (outcome : Outcome) (j : J) (q : List J)
      → get_elem? d.workers idx ≡ some (j ∷ q)
      → IsBalanced d
      → IsBalanced (count_outcome outcome (record d { workers = set d.workers idx q }))
  unfolding count_outcome
  outcome-IsBalanced d idx encode_error j q e b = record {
    flight = omega (arith, b.flight, queue_depth-set d.workers idx (j ∷ q) q e);
    total = omega (arith, b.total, queue_depth-set d.workers idx (j ∷ q) q e);
  }
  outcome-IsBalanced d idx empty_update j q e b = record {
    flight = omega (arith, b.flight, queue_depth-set d.workers idx (j ∷ q) q e);
    total = omega (arith, b.total, queue_depth-set d.workers idx (j ∷ q) q e);
  }
  outcome-IsBalanced d idx (update bytes sent) j q e b = record {
    flight = omega (arith, b.flight, queue_depth-set d.workers idx (j ∷ q) q e);
    total = omega (arith, b.total, queue_depth-set d.workers idx (j ∷ q) q e);
  }

  work-IsBalanced :
      (d : ReplicationDispatcher J) (idx : ℕ) (outcome : Outcome)
      → IsBalanced d
      → IsBalanced (run_one d idx outcome)
  unfolding run_one
  work-IsBalanced d idx outcome b = elim (Option-cases (get_elem? d.workers idx)) [
    | inl e ↦ rw (e, run_one) b
    | inr ([], e) ↦ rw (e, run_one) b
    | inr (j ∷ q, e) ↦ rw (e, run_one) (outcome-IsBalanced d idx outcome j q e b)
  ]

  run_dispatcher_keeps :
      (calls : List (DispatcherCall J)) (d : ReplicationDispatcher J)
      → IsBalanced d
      → IsBalanced (run_dispatcher d calls)
  unfolding run_dispatcher apply_dispatcher stop dispatcher_or
  run_dispatcher_keeps [] d b = b
  run_dispatcher_keeps (submits recipient job ∷ cs) d b =
      run_dispatcher_keeps cs _ (submit-IsBalanced d recipient job b)
  run_dispatcher_keeps (works idx outcome ∷ cs) d b =
      run_dispatcher_keeps cs _ (work-IsBalanced d idx outcome b)
  run_dispatcher_keeps (stops ∷ cs) d b =
      run_dispatcher_keeps cs _ (record { flight = b.flight; total = b.total })

  -- After every history of submissions, worker rounds and stops on a new dispatcher, whatever
  -- becomes of the jobs, the number submitted is the number dropped, encoded, skipped as empty and
  -- refused by the encoder together with the number waiting in the queues, and the number in flight
  -- is the number waiting.
  pub run_dispatcher-IsBalanced :
      (worker_count queue_size : ℕ) (calls : List (DispatcherCall J))
      → IsBalanced (run_dispatcher (new_replication_dispatcher worker_count queue_size) calls)
  unfolding new_replication_dispatcher
  run_dispatcher-IsBalanced worker_count queue_size calls = run_dispatcher_keeps calls _ (record {
    flight = omega (arith, queue_depth-replicate J worker_count);
    total = omega (arith, queue_depth-replicate J worker_count);
  })
