-- ===== src/Queue.antt =====
-- apps/api/internal/queue/job_queue.go: the persistent job queue of the control plane.
-- A method takes the instant that `time.Now` returned and returns the new queue beside its result.
-- Each pointer of the two Go maps stands in one map alone, so a write through it is a write of the
-- map's entry; a lease hands its tasks out as their keys. `R` is the type of a result payload,
-- which the queue stores and never reads. The Go counters are `int`s that only count, and do not
-- wrap. The proofs are in the modules below.
pub mod Entries
pub mod Bounds
pub mod Leasing
pub mod Reclaim
pub mod Runs
pub mod Accounting
pub mod Conservation
pub mod Protocol
use mathlib.Core.Option
use zero_agent_scan.Prelude.{
  ℕ, zero, suc, ◌+◌, String, Bool, true, false, Option, none, some, List, [], ◌∷◌, ◌&&◌, Map,
  lookup, insert, length, ltb, if◌then◌else◌,
}
use zero_agent_scan.Prelude.Int.{ℤ, pos, ◌+ℤ◌, ltb_ℤ, leb_ℤ}
use Entries.{
  JobEntry, HostTask, pending, leased, completed, failed, is_pending, is_leased, opened, start_job,
  finalize, scanned_job, failed_job, update_job,
}

pub record JobQueue (R : Type 0) : Type 0 where
  pub jobs : Map JobEntry
  pub tasks : Map (HostTask R)

module _ {R : Type 0} where
  abbrev pub new_queue : JobQueue R
  new_queue = record { jobs = []; tasks = [] }

  unfoldable pub new_task : ℤ → JobEntry → String → String → HostTask R
  new_task now job task_id ip = record {
    id = task_id;
    job_id = job.id;
    tenant_id = job.tenant_id;
    target_ip = ip;
    status = pending;
    retry_count = 0;
    max_retries = 2;
    leased_by_worker = "";
    lease_expires_at = none;
    last_error = "";
    result_payload = none;
    created_at = now;
    updated_at = now;
    completed_at = none;
  }

  -- The loop of `EnqueueJob`; a target is the key that `uuid.New` drew for it, and its address.
  unfoldable pub add_tasks :
      ℤ → JobEntry → List (String × String) → Map (HostTask R) → Map (HostTask R)
  add_tasks now job [] tasks = tasks
  add_tasks now job ((task_id, ip) ∷ rest) tasks =
      add_tasks now job rest (insert task_id (new_task now job task_id ip) tasks)

  unfoldable pub enqueue_job : ℤ → JobEntry → List (String × String) → JobQueue R → JobQueue R
  enqueue_job now job targets q =
      let job' = opened now job (length targets) in
      record q { jobs = insert job.id job' q.jobs; tasks = add_tasks now job' targets q.tasks }

  abbrev pub leased_task : ℤ → ℤ → String → HostTask R → HostTask R
  leased_task now expires worker task = record task {
    status = leased;
    leased_by_worker = worker;
    lease_expires_at = some expires;
    updated_at = now;
  }

  unfoldable pub lease_task : ℤ → ℤ → String → String → HostTask R → JobQueue R → JobQueue R
  unfolding start_job
  lease_task now expires worker task_id task q = record {
    jobs = start_job now task.job_id q.jobs;
    tasks = insert task_id (leased_task now expires worker task) q.tasks;
  }

  -- The loop of `LeaseBatch`. Go runs through a map in an order of its own choice, which is the
  -- list of keys here; `taken` is `len(leased)`, tested after each append.
  unfoldable pub lease_loop :
      ℤ → ℤ → String → ℤ → List String → ℕ → JobQueue R → List String × JobQueue R
  lease_loop now expires worker batch_size [] taken q = ([], q)
  lease_loop now expires worker batch_size (task_id ∷ order) taken q =
      elim (lookup task_id q.tasks) [
        | none ↦ lease_loop now expires worker batch_size order taken q
        | some task ↦
            let q' = lease_task now expires worker task_id task q in
            let rest = lease_loop now expires worker batch_size order (taken + 1) q' in
            let skip = lease_loop now expires worker batch_size order taken q in
            if is_pending task.status
            then (if leb_ℤ batch_size (pos (taken + 1))
                then (task_id ∷ [], q')
                else (task_id ∷ rest.0, rest.1))
            else skip
      ]

  unfoldable pub lease_batch :
      ℤ → String → ℤ → ℤ → List String → JobQueue R → List String × JobQueue R
  lease_batch now worker batch_size duration order q =
      lease_loop now (now +ℤ duration) worker batch_size order 0 q

  abbrev pub completed_task : ℤ → Option R → HostTask R → HostTask R
  completed_task now result task = record task {
    status = completed;
    result_payload = result;
    completed_at = some now;
    updated_at = now;
  }

  unfoldable pub complete_found :
      ℤ → String → HostTask R → Bool → Option R → JobQueue R → JobQueue R
  unfolding update_job finalize
  complete_found now task_id task is_compliant result q = record {
    jobs = update_job (λ job. finalize now (scanned_job now is_compliant job)) task.job_id q.jobs;
    tasks = insert task_id (completed_task now result task) q.tasks;
  }

  -- `none` is the error "task not found".
  unfoldable pub complete_task : ℤ → String → Bool → Option R → JobQueue R → Option (JobQueue R)
  complete_task now task_id is_compliant result q =
      Option.map (λ task. complete_found now task_id task is_compliant result q)
        (lookup task_id q.tasks)

  abbrev pub retried_task : ℤ → String → HostTask R → HostTask R
  retried_task now message task = record task {
    last_error = message;
    updated_at = now;
    retry_count = task.retry_count + 1;
    status = pending;
    leased_by_worker = "";
    lease_expires_at = none;
  }

  abbrev pub failed_task : ℤ → String → HostTask R → HostTask R
  failed_task now message task = record task {
    last_error = message;
    updated_at = now;
    status = failed;
    completed_at = some now;
  }

  unfoldable pub fail_found : ℤ → String → HostTask R → String → Bool → JobQueue R → JobQueue R
  unfolding update_job finalize
  fail_found now task_id task message retryable q =
      if retryable && ltb task.retry_count task.max_retries
      then record q { tasks = insert task_id (retried_task now message task) q.tasks }
      else record {
        jobs = update_job (λ job. finalize now (failed_job now job)) task.job_id q.jobs;
        tasks = insert task_id (failed_task now message task) q.tasks;
      }

  unfoldable pub fail_task : ℤ → String → String → Bool → JobQueue R → Option (JobQueue R)
  fail_task now task_id message retryable q =
      Option.map (λ task. fail_found now task_id task message retryable q) (lookup task_id q.tasks)

  -- The test of `ReclaimExpiredLeases`.
  abbrev pub expired : ℤ → HostTask R → Bool
  expired now task =
      is_leased task.status && (elim task.lease_expires_at [ none ↦ false | some t ↦ ltb_ℤ t now ])

  abbrev pub reclaimed : ℤ → HostTask R → HostTask R
  reclaimed now task = record task {
    status = pending;
    leased_by_worker = "";
    lease_expires_at = none;
    updated_at = now;
  }

  -- The loop writes each task once and reads no other, so its order does not show in the result.
  unfoldable pub reclaim_loop : ℤ → Map (HostTask R) → ℕ × Map (HostTask R)
  reclaim_loop now [] = (0, [])
  reclaim_loop now ((k, task) ∷ tasks) =
      let rest = reclaim_loop now tasks in
      if expired now task
      then (rest.0 + 1, (k, reclaimed now task) ∷ rest.1)
      else (rest.0, (k, task) ∷ rest.1)

  unfoldable pub reclaim_expired_leases : ℤ → JobQueue R → ℕ × JobQueue R
  unfolding reclaim_loop
  reclaim_expired_leases now q =
      let swept = reclaim_loop now q.tasks in (swept.0, record q { tasks = swept.1 })

  unfoldable pub get_job : String → JobQueue R → Option JobEntry
  get_job job_id q = lookup job_id q.jobs
