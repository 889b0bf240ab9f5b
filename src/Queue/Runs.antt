-- ===== src/Queue/Runs.antt =====
-- Any sequence of calls of the queue (job_queue.go), in any order and with any arguments: what no
-- misuse by a worker can break.
use zero_agent_scan.Prelude.{
  String, ◌≡◌, Bool, Option, none, some, List, [], ◌∷◌, lookup, Option-cases, inl, inr, Each-lookup,
}
use zero_agent_scan.Prelude.Int.{ℤ}
use zero_agent_scan.Queue.Entries.{JobEntry, HostTask}
use zero_agent_scan.Queue.{
  JobQueue, new_queue, enqueue_job, lease_batch, complete_task, fail_task, reclaim_expired_leases,
}
use zero_agent_scan.Queue.Bounds.{
  IsSound, AllSound, lease_loop_keeps, enqueue_job-AllSound, lease_task-AllSound,
  complete_found-AllSound, fail_found-AllSound, reclaim_loop-AllSound,
}

module _ (R : Type 0) where
  pub data Call : Type 0 where
    enqueue : ℤ → JobEntry → List (String × String) → Call
    lease : ℤ → String → ℤ → ℤ → List String → Call
    complete : ℤ → String → Bool → Option R → Call
    fail : ℤ → String → String → Bool → Call
    reclaim : ℤ → Call

module _ {R : Type 0} where
  -- A call that returns an error leaves the queue as it was.
  abbrev or_unchanged : JobQueue R → Option (JobQueue R) → JobQueue R
  or_unchanged q none = q
  or_unchanged q (some q') = q'

  unfoldable pub call : JobQueue R → Call R → JobQueue R
  call q (enqueue now job targets) = enqueue_job now job targets q
  call q (lease now worker size duration order) = (lease_batch now worker size duration order q).1
  call q (complete now k ok result) = or_unchanged q (complete_task now k ok result q)
  call q (fail now k message retryable) = or_unchanged q (fail_task now k message retryable q)
  call q (reclaim now) = (reclaim_expired_leases now q).1

  unfoldable pub run : JobQueue R → List (Call R) → JobQueue R
  run q [] = q
  run q (c ∷ calls) = run (call q c) calls

  call-AllSound : (q : JobQueue R) (c : Call R) → AllSound q → AllSound (call q c)
  unfolding call lease_batch complete_task fail_task reclaim_expired_leases
  call-AllSound q (enqueue now job targets) h = enqueue_job-AllSound now job targets q h
  call-AllSound q (lease now worker size duration order) h =
      lease_loop_keeps AllSound now _ worker size
        (λ k task q a e p. lease_task-AllSound now _ worker k task q a e) order 0 q h
  call-AllSound q (complete now k ok result) h = elim (Option-cases (lookup k q.tasks)) [
    | inl e ↦ rw e h
    | inr (task, e) ↦ rw e (complete_found-AllSound now k task ok result q h e)
  ]
  call-AllSound q (fail now k message retryable) h = elim (Option-cases (lookup k q.tasks)) [
    | inl e ↦ rw e h
    | inr (task, e) ↦ rw e (fail_found-AllSound now k task message retryable q h e)
  ]
  call-AllSound q (reclaim now) h = reclaim_loop-AllSound now q.tasks h

  run-AllSound : (q : JobQueue R) (calls : List (Call R)) → AllSound q → AllSound (run q calls)
  unfolding run
  run-AllSound q [] h = h
  run-AllSound q (c ∷ calls) h = run-AllSound (call q c) calls (call-AllSound q c h)

  -- After any calls at all, whatever their order and arguments, every task has used at most its
  -- budget of retries, has a deadline if it is leased, and names no worker and no deadline if it is
  -- pending.
  pub run-IsSound :
      (calls : List (Call R)) (k : String) (task : HostTask R)
      → lookup k (run new_queue calls).tasks ≡ some task
      → IsSound task
  run-IsSound calls k task h =
      Each-lookup IsSound k task (run new_queue calls).tasks (run-AllSound new_queue calls tt) h
