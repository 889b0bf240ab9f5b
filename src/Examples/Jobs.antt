-- ===== src/Examples/Jobs.antt =====
-- The life of a job of one host (job_queue.go), and the queue's theorems on it.
use mathlib.Core.Option
use zero_agent_scan.Prelude.{
  ℕ, ◌+◌, ◌≤◌, ◌≡◌, refl, true, none, some, List, [], ◌∷◌, arith, lookup, insert, count, length,
  max, All, ◌≢◌,
}
use zero_agent_scan.Prelude.Int.{pos, ◌+ℤ◌}
use zero_agent_scan.Queue.Entries.{JobStatus, JobEntry, HostTask, queued}
use zero_agent_scan.Queue.{
  completed_task, JobQueue, new_queue, new_task, leased_task, add_tasks, enqueue_job, lease_task,
  lease_loop, lease_batch, complete_found, complete_task, reclaim_expired_leases, get_job,
}
use zero_agent_scan.Queue.Accounting.{is_open, is_any, is_completed, is_failed, tasks_of}
use zero_agent_scan.Queue.Leasing.{waits, Holds, lease_batch_grants, lease_batch_exclusive}
use zero_agent_scan.Queue.Reclaim.{overdue_task, freed_if_overdue, reclaim_expired_leases_lem}
use zero_agent_scan.Queue.Runs.{Call, enqueue, lease, call, run}
use zero_agent_scan.Queue.Protocol.{
  Reach, Step, job_counters, completed_job_settled, settled_job_completed,
}

abbrev job : JobEntry
job = record {
  id = "job-1";
  tenant_id = "tenant";
  name = "nightly";
  target_cidr = "10.0.0.0/30";
  scan_profile = "full";
  status = queued;
  total_hosts = 0;
  scanned_hosts = 0;
  compliant_hosts = 0;
  failed_hosts = 0;
  gateway_id = "gw";
  created_at = pos 0;
  updated_at = pos 0;
  completed_at = none;
}

abbrev enqueued : JobQueue ℕ
enqueued = enqueue_job (pos 0) job (("task-1", "10.0.0.1") ∷ []) new_queue

abbrev leased_queue : JobQueue ℕ
leased_queue = (lease_batch (pos 1) "worker" (pos 5) (pos 10) ("task-1" ∷ []) enqueued).1

abbrev held : HostTask ℕ
held = leased_task (pos 1) (pos 11) "worker" (new_task (pos 0) job "task-1" "10.0.0.1")

abbrev finished : JobQueue ℕ
finished = complete_found (pos 2) "task-1" held true (some 7) leased_queue

leased_held : lookup "task-1" leased_queue.tasks ≡ some held
unfolding lookup insert lease_batch lease_loop lease_task enqueue_job add_tasks new_task ◌+ℤ◌
leased_held = refl

completed_held : complete_task (pos 2) "task-1" true (some 7) leased_queue ≡ some finished
unfolding lookup insert complete_task lease_batch lease_loop lease_task enqueue_job add_tasks
    new_task ◌+ℤ◌
completed_held = refl

Reach-enqueued : Reach enqueued
unfolding lookup
Reach-enqueued =
    Reach.step Reach.start
      (Step.enqueue (pos 0) job (("task-1", "10.0.0.1") ∷ []) refl refl refl (refl, tt, tt))

Reach-finished : Reach finished
unfolding new_task
Reach-finished =
    Reach.step
      (Reach.step Reach-enqueued (Step.lease (pos 1) "worker" (pos 5) (pos 10) ("task-1" ∷ [])))
      (Step.complete (pos 2) "task-1" held true (some 7) finished leased_held refl completed_held)

abbrev final_job : JobEntry
final_job = record job {
  total_hosts = 1;
  scanned_hosts = 1;
  compliant_hosts = 1;
  status = JobStatus.completed;
  updated_at = pos 2;
  completed_at = some (pos 2);
}

finished_job : get_job "job-1" finished ≡ some final_job
unfolding get_job lookup insert complete_found lease_batch lease_loop lease_task enqueue_job
    add_tasks new_task ◌+ℤ◌
finished_job = refl

job_counters_example :
    (final_job.scanned_hosts ≡ tasks_of "job-1" is_completed finished.tasks)
    × (final_job.failed_hosts ≡ tasks_of "job-1" is_failed finished.tasks)
    × (final_job.total_hosts ≡ tasks_of "job-1" is_any finished.tasks)
job_counters_example = job_counters "job-1" final_job Reach-finished finished_job

completed_job_settled_example :
    (tasks_of "job-1" is_open finished.tasks ≡ 0)
    × (final_job.scanned_hosts + final_job.failed_hosts ≡ final_job.total_hosts)
completed_job_settled_example =
    completed_job_settled "job-1" final_job Reach-finished finished_job refl

none_open : tasks_of "job-1" is_open finished.tasks ≡ 0
none_open = completed_job_settled_example.0

settled_job_completed_example : final_job.status ≡ JobStatus.completed
settled_job_completed_example =
    settled_job_completed "job-1" final_job Reach-finished finished_job (omega arith) none_open

abbrev again : HostTask ℕ
again = completed_task (pos 2) (some 7) held

abbrev twice : JobQueue ℕ
twice = complete_found (pos 3) "task-1" again true none finished

abbrev twice_job : JobEntry
twice_job = record final_job {
  scanned_hosts = 2;
  compliant_hosts = 2;
  updated_at = pos 3;
  completed_at = some (pos 3);
}

finished_again : lookup "task-1" finished.tasks ≡ some again
unfolding complete_found lookup insert lease_batch lease_loop lease_task enqueue_job add_tasks
    new_task ◌+ℤ◌
finished_again = refl

twice_completed : complete_task (pos 3) "task-1" true none finished ≡ some twice
unfolding complete_task complete_found lookup insert lease_batch lease_loop lease_task enqueue_job
    add_tasks new_task ◌+ℤ◌
twice_completed = refl

twice_counted : get_job "job-1" twice ≡ some twice_job
unfolding get_job complete_found lookup insert lease_batch lease_loop lease_task enqueue_job
    add_tasks new_task ◌+ℤ◌
twice_counted = refl

lease_batch_grants_example :
    let r = lease_batch (pos 1) "worker" (pos 5) (pos 10) ("task-1" ∷ []) enqueued in
    (length r.0 ≤ max 1 5)
    × All (λ k. waits (lookup k enqueued.tasks) ≡ true) r.0
    × All (λ k. Holds "worker" (pos 1 +ℤ pos 10) (lookup k r.1.tasks)) r.0
lease_batch_grants_example =
    lease_batch_grants (pos 1) "worker" (pos 5) (pos 10) ("task-1" ∷ []) enqueued

one_granted : length (lease_batch (pos 1) "worker" (pos 5) (pos 10) ("task-1" ∷ []) enqueued).0 ≡ 1
unfolding lookup insert lease_batch lease_loop lease_task enqueue_job add_tasks new_task
one_granted = refl

lease_batch_exclusive_example :
    All
      (λ k.
        All
          (λ j. k ≢ j)
          (lease_batch (pos 2) "rival" (pos 5) (pos 10) ("task-1" ∷ []) leased_queue).0)
      (lease_batch (pos 1) "worker" (pos 5) (pos 10) ("task-1" ∷ []) enqueued).0
lease_batch_exclusive_example =
    lease_batch_exclusive (pos 1) (pos 2) "worker" "rival" (pos 5) (pos 5) (pos 10) (pos 10)
      ("task-1" ∷ []) ("task-1" ∷ []) enqueued

reclaim_expired_leases_example :
    ((reclaim_expired_leases (pos 12) leased_queue).0
      ≡ count (overdue_task (pos 12)) leased_queue.tasks)
    × (lookup "task-1" (reclaim_expired_leases (pos 12) leased_queue).1.tasks
        ≡ Option.map (freed_if_overdue (pos 12)) (lookup "task-1" leased_queue.tasks))
    × ((reclaim_expired_leases (pos 12) leased_queue).1.jobs ≡ leased_queue.jobs)
reclaim_expired_leases_example = reclaim_expired_leases_lem (pos 12) leased_queue "task-1"

abbrev calls : List (Call ℕ)
calls =
    enqueue (pos 0) job (("task-1", "10.0.0.1") ∷ [])
    ∷ lease (pos 1) "worker" (pos 5) (pos 10) ("task-1" ∷ [])
    ∷ []

calls_hold : lookup "task-1" (run new_queue calls).tasks ≡ some held
unfolding run call lookup insert lease_batch lease_loop lease_task enqueue_job add_tasks new_task
    ◌+ℤ◌
calls_hold = refl
