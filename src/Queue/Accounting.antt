-- ===== src/Queue/Accounting.antt =====
-- The counters of a job against its tasks (job_queue.go): how many tasks of a job stand in each
-- status, and what the writes of the queue do to those numbers.
use mathlib.Core.Option
use zero_agent_scan.Prelude.{
  ℕ, ◌+◌, ◌<◌, String, ◌≡◌, refl, inl, inr, Bool, true, false, [], ◌∷◌, ◌&&◌, ◌==◌, eq_iff, arith,
  Map, lookup, count, lookup-insert, Option-cases, if◌then◌else◌,
}
use zero_agent_scan.Prelude.Int.{ℤ}
use zero_agent_scan.Queue.Entries.{
  TaskStatus, JobStatus, JobEntry, HostTask, pending, leased, completed, failed, is_queued,
  in_progress, start_job, update_job,
}

abbrev pub is_completed : TaskStatus → Bool
is_completed completed = true
is_completed _ = false

abbrev pub is_failed : TaskStatus → Bool
is_failed failed = true
is_failed _ = false

-- Still to be done: pending or leased.
abbrev pub is_open : TaskStatus → Bool
is_open pending = true
is_open leased = true
is_open _ = false

abbrev pub is_any : TaskStatus → Bool
is_any s = true

module _ {R : Type 0} where
  abbrev pub belongs : String → (TaskStatus → Bool) → HostTask R → Bool
  belongs job_id s task = task.job_id == job_id && s task.status

  -- How many tasks of a job stand in a status.
  abbrev pub tasks_of : String → (TaskStatus → Bool) → Map (HostTask R) → ℕ
  tasks_of job_id s tasks = count (belongs job_id s) tasks

  pub tasks_of_split :
      (j : String) (tasks : Map (HostTask R))
      → tasks_of j is_any tasks
        ≡ tasks_of j is_completed tasks + tasks_of j is_failed tasks + tasks_of j is_open tasks
  unfolding count
  tasks_of_split j [] = refl
  tasks_of_split j ((k, task) ∷ tasks) = ground (arith, tasks_of_split j tasks)

  -- The counters of an entry agree with the tasks, and a job with hosts is completed exactly when
  -- none of its tasks is open.
  pub record Balanced (tasks : Map (HostTask R)) (j : String) (job : JobEntry) : Type 0 where
    pub scanned : job.scanned_hosts ≡ tasks_of j is_completed tasks
    pub lost : job.failed_hosts ≡ tasks_of j is_failed tasks
    pub total : job.total_hosts ≡ tasks_of j is_any tasks
    pub final : job.status ≡ JobStatus.completed → tasks_of j is_open tasks ≡ 0
    pub settled :
        0 < job.total_hosts → tasks_of j is_open tasks ≡ 0 → job.status ≡ JobStatus.completed

-- What `start_job` writes.
abbrev pub started : ℤ → JobEntry → JobEntry
started now job =
    if is_queued job.status then record job { status = in_progress; updated_at = now } else job

pub lookup-start_job :
    (now : ℤ) (k j : String) (jobs : Map JobEntry)
    → lookup j (start_job now k jobs)
      ≡ (if k == j then Option.map (started now) (lookup j jobs) else lookup j jobs)
unfolding start_job
lookup-start_job now k j jobs = elim (Option-cases (lookup k jobs)) [
  | inl z ↦ ground (arith, eq_iff k j)
  | inr (job, z) ↦ ground (
    arith,
    eq_iff k j,
    lookup-insert k j (record job { status = in_progress; updated_at = now }) jobs,
  )
]

pub lookup-update_job :
    (f : JobEntry → JobEntry) (k j : String) (jobs : Map JobEntry)
    → lookup j (update_job f k jobs)
      ≡ (if k == j then Option.map f (lookup j jobs) else lookup j jobs)
unfolding update_job
lookup-update_job f k j jobs = elim (Option-cases (lookup k jobs)) [
  | inl z ↦ ground (arith, eq_iff k j)
  | inr (job, z) ↦ ground (arith, eq_iff k j, lookup-insert k j (f job) jobs)
]
