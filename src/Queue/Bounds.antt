-- ===== src/Queue/Bounds.antt =====
-- What holds of every task of the queue, whatever the workers do: the retry budget and the lease
-- fields (job_queue.go).
use zero_agent_scan.Prelude.{
  ℕ, ◌+◌, ◌≤◌, String, ◌≡◌, ◌≢◌, inl, inr, Bool, true, Option, none, some, List, [], ◌∷◌, arith,
  Map, Each, Each-lookup, Each-insert, lookup, insert, Option-cases, Bool-cases, if_both, ltb, ◌&&◌,
}
use zero_agent_scan.Prelude.Int.{ℤ, pos, leb_ℤ}
use zero_agent_scan.Queue.Entries.{JobEntry, HostTask, pending, leased, is_pending}
use zero_agent_scan.Queue.{
  JobQueue, new_task, add_tasks, enqueue_job, leased_task, lease_task, lease_loop, complete_found,
  completed_task, fail_found, retried_task, failed_task, reclaim_loop,
}

module _ {R : Type 0} where
  -- A task's retries stay within its budget, a lease has a deadline, and a task without a lease
  -- names neither worker nor deadline.
  pub record IsSound (task : HostTask R) : Type 0 where
    pub budget : task.retry_count ≤ task.max_retries
    pub deadline : task.status ≡ leased → task.lease_expires_at ≢ none
    pub unowned : task.status ≡ pending → task.leased_by_worker ≡ ""
    pub unleased : task.status ≡ pending → task.lease_expires_at ≡ none

  abbrev pub AllSound : JobQueue R → Type 0
  AllSound q = Each IsSound q.tasks

  add_tasks-AllSound :
      (now : ℤ) (job : JobEntry) (targets : List (String × String)) (tasks : Map (HostTask R))
      → Each IsSound tasks
      → Each IsSound (add_tasks now job targets tasks)
  unfolding add_tasks new_task
  add_tasks-AllSound now job [] tasks h = h
  add_tasks-AllSound now job ((k, ip) ∷ rest) tasks h =
      add_tasks-AllSound now job rest (insert k (new_task now job k ip) tasks)
        (Each-insert IsSound k (new_task now job k ip) tasks h (ground arith))

  pub enqueue_job-AllSound :
      (now : ℤ) (job : JobEntry) (targets : List (String × String)) (q : JobQueue R)
      → AllSound q
      → AllSound (enqueue_job now job targets q)
  unfolding enqueue_job
  enqueue_job-AllSound now job targets q h = add_tasks-AllSound now _ targets q.tasks h

  pub lease_task-AllSound :
      (now expires : ℤ) (worker k : String) (task : HostTask R) (q : JobQueue R)
      → AllSound q
      → lookup k q.tasks ≡ some task
      → AllSound (lease_task now expires worker k task q)
  unfolding lease_task
  lease_task-AllSound now expires worker k task q h e =
      let old : IsSound task = Each-lookup IsSound k task q.tasks h e in
      Each-insert IsSound k (leased_task now expires worker task) q.tasks h (ground arith)

  -- What every lease keeps, a batch keeps.
  pub lease_loop_keeps :
      (P : JobQueue R → Type 0) (now expires : ℤ) (worker : String) (size : ℤ)
      → ((k : String) (task : HostTask R) (q : JobQueue R)
          → P q
          → lookup k q.tasks ≡ some task
          → is_pending task.status ≡ true
          → P (lease_task now expires worker k task q))
      → (order : List String) (n : ℕ) (q : JobQueue R) → P q
      → P (lease_loop now expires worker size order n q).1
  unfolding lease_loop
  lease_loop_keeps P now expires worker size step [] n q h = h
  lease_loop_keeps P now expires worker size step (k ∷ order) n q h =
      elim (Option-cases (lookup k q.tasks)) [
        | inl e ↦ rw (e, lease_loop) (lease_loop_keeps P now expires worker size step order n q h)
        | inr (task, e) ↦ elim (Bool-cases (is_pending task.status)) [
          | inl p ↦
              rw (e, lease_loop, p)
                (let q' = lease_task now expires worker k task q in
                  let stepped : P q' = step k task q h e p in
                  if_both (λ (r : List String × JobQueue R). P r.1) (leb_ℤ size (pos (n + 1)))
                    stepped
                    (lease_loop_keeps P now expires worker size step order (n + 1) q' stepped))
          | inr p ↦
              rw (e, lease_loop, p) (lease_loop_keeps P now expires worker size step order n q h)
        ]
      ]

  pub complete_found-AllSound :
      (now : ℤ) (k : String) (task : HostTask R) (ok : Bool) (result : Option R) (q : JobQueue R)
      → AllSound q
      → lookup k q.tasks ≡ some task
      → AllSound (complete_found now k task ok result q)
  unfolding complete_found
  complete_found-AllSound now k task ok result q h e =
      let old : IsSound task = Each-lookup IsSound k task q.tasks h e in
      Each-insert IsSound k (completed_task now result task) q.tasks h (ground arith)

  pub fail_found-AllSound :
      (now : ℤ) (k : String) (task : HostTask R) (message : String) (retryable : Bool)
      (q : JobQueue R)
      → AllSound q
      → lookup k q.tasks ≡ some task
      → AllSound (fail_found now k task message retryable q)
  unfolding fail_found
  fail_found-AllSound now k task message retryable q h e =
      let old : IsSound task = Each-lookup IsSound k task q.tasks h e in
      elim (Bool-cases (retryable && ltb task.retry_count task.max_retries)) [
        | inl t ↦
            rw t (Each-insert IsSound k (retried_task now message task) q.tasks h (ground arith))
        | inr t ↦
            rw t (Each-insert IsSound k (failed_task now message task) q.tasks h (ground arith))
      ]

  pub reclaim_loop-AllSound :
      (now : ℤ) (tasks : Map (HostTask R))
      → Each IsSound tasks
      → Each IsSound (reclaim_loop now tasks).1
  unfolding reclaim_loop
  reclaim_loop-AllSound now [] h = tt
  reclaim_loop-AllSound now ((k, task) ∷ tasks) h = ground (arith, reclaim_loop-AllSound now tasks)
