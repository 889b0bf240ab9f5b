-- ===== src/Queue/Protocol.antt =====
-- The queue (job_queue.go) as a transition system: a run of its operations from the empty queue,
-- where a worker reports a result only for a task that is leased, job and task keys are new, and a
-- job is enqueued with no scanned and no failed hosts: `EnqueueJob` does not reset these counters.
use mathlib.Core.Path.{subst}
use zero_agent_scan.Prelude.{
  count, eq_refl, count-insert_old, ◌<◌, ◌+◌, String, ◌≡◌, refl, Bool, true, Option, none, some,
  List, arith, lookup,
}
use zero_agent_scan.Prelude.Int.{ℤ}
use zero_agent_scan.Queue.Entries.{JobStatus, JobEntry, HostTask, is_leased, finalize, scanned_job}
use zero_agent_scan.Queue.{
  JobQueue, new_queue, enqueue_job, lease_batch, complete_task, complete_found, fail_task,
  fail_found, reclaim_expired_leases, get_job, completed_task,
}
use zero_agent_scan.Queue.Bounds.{lease_loop_keeps}
use zero_agent_scan.Queue.Accounting.{
  is_open, is_any, is_completed, is_failed, tasks_of, tasks_of_split, belongs, lookup-update_job,
}
use zero_agent_scan.Queue.Conservation.{
  Accounts, AreNew, lease_task-Accounts, complete_found-Accounts, fail_found-Accounts,
  reclaim_loop-counts, enqueue_job-Accounts,
}

module _ {R : Type 0} where
  pub data Step (q : JobQueue R) : JobQueue R → Type 0 where
    enqueue :
        (now : ℤ) (job : JobEntry) (targets : List (String × String))
        → lookup job.id q.jobs ≡ none
        → job.scanned_hosts ≡ 0
        → job.failed_hosts ≡ 0
        → AreNew targets q.tasks
        → Step q (enqueue_job now job targets q)
    lease :
        (now : ℤ) (worker : String) (size duration : ℤ) (order : List String)
        → Step q (lease_batch now worker size duration order q).1
    complete :
        (now : ℤ) (k : String) (task : HostTask R) (ok : Bool) (result : Option R) (q' : JobQueue R)
        → lookup k q.tasks ≡ some task
        → is_leased task.status ≡ true
        → complete_task now k ok result q ≡ some q'
        → Step q q'
    fail :
        (now : ℤ) (k : String) (task : HostTask R) (message : String) (retryable : Bool)
        (q' : JobQueue R)
        → lookup k q.tasks ≡ some task
        → is_leased task.status ≡ true
        → fail_task now k message retryable q ≡ some q'
        → Step q q'
    reclaim : (now : ℤ) → Step q (reclaim_expired_leases now q).1

  pub data Reach : JobQueue R → Type 0 where
    start : Reach new_queue
    step : {q q' : JobQueue R} → Reach q → Step q q' → Reach q'

  reclaim-Accounts :
      (now : ℤ) (q : JobQueue R) → Accounts q → Accounts (reclaim_expired_leases now q).1
  unfolding reclaim_expired_leases
  reclaim-Accounts now q acc = record {
    known =
        λ j job h. let b = acc.known j job h in ground (arith, reclaim_loop-counts now q.tasks j);
    orphans = λ j h. ground (arith, reclaim_loop-counts now q.tasks j, acc.orphans j);
  }

  pub Step-Accounts : {q q' : JobQueue R} → Step q q' → Accounts q → Accounts q'
  unfolding lease_batch complete_task fail_task
  Step-Accounts {q} (enqueue now job targets new s f keys) acc =
      enqueue_job-Accounts now job targets q acc new s f keys
  Step-Accounts {q} (lease now worker size duration order) acc =
      lease_loop_keeps Accounts now _ worker size
        (λ k task q a e p. lease_task-Accounts now _ worker k task q a e p) order 0 q acc
  Step-Accounts {q} (complete now k task ok result q' e p done) acc =
      let written : complete_found now k task ok result q ≡ q' = ground arith in
      subst Accounts written (complete_found-Accounts now k task ok result q acc e p)
  Step-Accounts {q} (fail now k task message retryable q' e p done) acc =
      let written : fail_found now k task message retryable q ≡ q' = ground arith in
      subst Accounts written (fail_found-Accounts now k task message retryable q acc e p)
  Step-Accounts {q} (reclaim now) acc = reclaim-Accounts now q acc

  new_queue-Accounts : Accounts {R = R} new_queue
  unfolding lookup count
  new_queue-Accounts = record { known = λ j job h. absurd (cc); orphans = λ j h. refl }

  Reach-Accounts : {q : JobQueue R} → Reach q → Accounts q
  Reach-Accounts start = new_queue-Accounts
  Reach-Accounts (step r s) = Step-Accounts s (Reach-Accounts r)

  -- In every queue reached by the steps above, where results are reported for leased tasks only, keys
  -- are new and jobs are enqueued with no scanned and no failed hosts, the counters of a job are the numbers of its tasks that are completed,
  -- that have failed, and that exist.
  pub job_counters :
      {q : JobQueue R} (j : String) (job : JobEntry)
      → Reach q
      → get_job j q ≡ some job
      → (job.scanned_hosts ≡ tasks_of j is_completed q.tasks)
        × (job.failed_hosts ≡ tasks_of j is_failed q.tasks)
        × (job.total_hosts ≡ tasks_of j is_any q.tasks)
  unfolding get_job
  job_counters j job r h = let b = (Reach-Accounts r).known j job h in (b.scanned, b.lost, b.total)

  -- In every queue reached as for `job_counters`, with jobs enqueued with no scanned and no failed
  -- hosts, a job that is marked completed has no pending and no leased task, and
  -- its hosts are all scanned or failed.
  pub completed_job_settled :
      {q : JobQueue R} (j : String) (job : JobEntry)
      → Reach q
      → get_job j q ≡ some job
      → job.status ≡ JobStatus.completed
      → (tasks_of j is_open q.tasks ≡ 0) × (job.scanned_hosts + job.failed_hosts ≡ job.total_hosts)
  unfolding get_job
  completed_job_settled {q} j job r h done =
      let b = (Reach-Accounts r).known j job h in
      (b.final done, omega (arith, tasks_of_split j q.tasks, b.final done))

  -- In every queue reached as for `job_counters`, with jobs enqueued with no scanned and no failed
  -- hosts, a job with at least one host whose tasks have all been completed or
  -- have failed is marked completed.
  pub settled_job_completed :
      {q : JobQueue R} (j : String) (job : JobEntry)
      → Reach q
      → get_job j q ≡ some job
      → 0 < job.total_hosts
      → tasks_of j is_open q.tasks ≡ 0
      → job.status ≡ JobStatus.completed
  unfolding get_job
  settled_job_completed j job r h pos none_open =
      ((Reach-Accounts r).known j job h).settled pos none_open

  -- `complete_task` does not ask whether the task is leased: on a task that is completed already it
  -- counts the host a second time, so a job whose counter was right has one too many.
  pub complete_again :
      (now : ℤ) (k : String) (task : HostTask R) (ok : Bool) (result : Option R) (q q' : JobQueue R)
      (job job' : JobEntry)
      → lookup k q.tasks ≡ some task
      → is_completed task.status ≡ true
      → get_job task.job_id q ≡ some job
      → job.scanned_hosts ≡ tasks_of task.job_id is_completed q.tasks
      → complete_task now k ok result q ≡ some q'
      → get_job task.job_id q' ≡ some job'
      → job'.scanned_hosts ≡ tasks_of task.job_id is_completed q'.tasks + 1
  unfolding get_job complete_task complete_found
  complete_again now k task ok result q q' job job' e p h b done h' =
      let written : complete_found now k task ok result q ≡ q' = ground arith in
      let counted =
        count-insert_old (belongs task.job_id is_completed) k (completed_task now result task) task
          q.tasks e in
      ground (
        arith,
        eq_refl task.job_id,
        counted,
        lookup-update_job (λ job. finalize now (scanned_job now ok job)) task.job_id task.job_id
            q.jobs,
      )
