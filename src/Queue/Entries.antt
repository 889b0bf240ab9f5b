-- ===== src/Queue/Entries.antt =====
-- apps/api/internal/queue/job_queue.go: the job and task entries of the queue, and the writes to a
-- job that the queue's operations make.
use zero_agent_scan.Prelude.{
  ℕ, ◌+◌, String, Bool, true, false, Option, none, some, Map, lookup, insert, leb, if◌then◌else◌,
}
use zero_agent_scan.Prelude.Int.{ℤ}

pub data TaskStatus : Type 0 where
  pending leased completed failed : TaskStatus

pub data JobStatus : Type 0 where
  queued in_progress completed failed : JobStatus

pub record JobEntry : Type 0 where
  pub id : String
  pub tenant_id : String
  pub name : String
  pub target_cidr : String
  pub scan_profile : String
  pub status : JobStatus
  pub total_hosts : ℕ
  pub scanned_hosts : ℕ
  pub compliant_hosts : ℕ
  pub failed_hosts : ℕ
  pub gateway_id : String
  pub created_at : ℤ
  pub updated_at : ℤ
  pub completed_at : Option ℤ

pub record HostTask (R : Type 0) : Type 0 where
  pub id : String
  pub job_id : String
  pub tenant_id : String
  pub target_ip : String
  pub status : TaskStatus
  pub retry_count : ℕ
  pub max_retries : ℕ
  pub leased_by_worker : String
  pub lease_expires_at : Option ℤ
  pub last_error : String
  pub result_payload : Option R
  pub created_at : ℤ
  pub updated_at : ℤ
  pub completed_at : Option ℤ

abbrev pub is_pending : TaskStatus → Bool
is_pending pending = true
is_pending _ = false

abbrev pub is_leased : TaskStatus → Bool
is_leased leased = true
is_leased _ = false

abbrev pub is_queued : JobStatus → Bool
is_queued queued = true
is_queued _ = false

abbrev pub opened : ℤ → JobEntry → ℕ → JobEntry
opened now job total = record job {
  total_hosts = total;
  status = queued;
  created_at = now;
  updated_at = now;
}

-- The parent job goes to `in_progress` if it is queued.
unfoldable pub start_job : ℤ → String → Map JobEntry → Map JobEntry
start_job now job_id jobs = elim (lookup job_id jobs) [
  | none ↦ jobs
  | some job ↦
      if is_queued job.status
      then insert job_id (record job { status = in_progress; updated_at = now }) jobs
      else jobs
]

-- The end of `CompleteTask` and `FailTask`: a job with every host accounted for is finalized.
unfoldable pub finalize : ℤ → JobEntry → JobEntry
finalize now job =
    if leb job.total_hosts (job.scanned_hosts + job.failed_hosts)
    then record job { status = JobStatus.completed; completed_at = some now }
    else job

abbrev pub scanned_job : ℤ → Bool → JobEntry → JobEntry
scanned_job now is_compliant job = record job {
  scanned_hosts = job.scanned_hosts + 1;
  compliant_hosts = if is_compliant then job.compliant_hosts + 1 else job.compliant_hosts;
  updated_at = now;
}

abbrev pub failed_job : ℤ → JobEntry → JobEntry
failed_job now job = record job { failed_hosts = job.failed_hosts + 1; updated_at = now }

-- A write to the job of a task, if the job is there.
unfoldable pub update_job : (JobEntry → JobEntry) → String → Map JobEntry → Map JobEntry
update_job f job_id jobs = elim (lookup job_id jobs) [
  | none ↦ jobs
  | some job ↦ insert job_id (f job) jobs
]
