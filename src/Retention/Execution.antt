-- ===== src/Retention/Execution.antt =====
-- apps/api/internal/retention/engine.go: `Execute`, from the request to the audit log.
use Prim.Native.String.{◌++◌ as ◌+++◌}
use zero_agent_scan.Prelude.{
  ℕ, ◌*◌, String, Bool, true, false, Option, none, some, List, [], ◌∷◌, if◌then◌else◌, Map, ◌==◌,
}
use zero_agent_scan.Prelude.Int.{ℤ, pos}
use zero_agent_scan.Fleet.Records.{
  HostSnapshotEntry, Repository, SecurityAuditLog, SnapshotRetentionPolicy, text, count, ratio,
  number,
}
use zero_agent_scan.Fleet.Snapshots.{zero_time, list_all_snapshots_for_tenant}
use zero_agent_scan.Fleet.Audit.{add_audit_log, update_retention_policy_run_stats}
use zero_agent_scan.Retention.Buckets.{
  Strategy, archive, downsample, strategy_of, days_or_default, cutoff_date,
}
use zero_agent_scan.Retention.{Services, ExecuteRequest, Counts, Run, no_counts, work}

pub data RetentionError : Type 0 where
  invalid_strategy context_done : RetentionError

pub record ExecuteResult : Type 0 where
  pub execution_id : String
  pub strategy : Strategy
  pub retention_days : ℕ
  pub cutoff : ℤ
  pub counts : Counts
  pub archive_directory : String
  pub duration_ms : ℤ
  pub executed_at : ℤ
  pub executed_by : String
  pub audit_log_id : String

pub data ExecuteOutcome : Type 0 where
  executed : ExecuteResult → ExecuteOutcome
  refused : RetentionError → ExecuteOutcome

-- The call beside its request: when, by whom, from where, the key drawn, how long it takes, the
-- rounds at which the context is done, and the order in which the loop runs through the map.
pub record ExecuteCall (P : Type 0) : Type 0 where
  pub now : ℤ
  pub operator : String
  pub ip : String
  pub tenant : String
  pub draw : String
  pub duration_ms : ℤ
  pub is_done : ℕ → Bool
  pub order : List (HostSnapshotEntry P) → List (HostSnapshotEntry P)

abbrev strategy_text : Strategy → String
strategy_text archive = "archive"
strategy_text downsample = "downsample"

abbrev pub directory_of : ExecuteRequest → String
directory_of req =
    if req.cold_storage_path == "" then "D:\\archives\\snapshots" else req.cold_storage_path

abbrev pub start : {P : Type 0} → Repository P → Map (List ℕ) → Run P
start r files = record { repo = r; files = files; counts = no_counts }

module _ {P : Type 0} (sv : Services P) where
  unfoldable pub result_of : ExecuteCall P → ExecuteRequest → Strategy → Counts → ExecuteResult
  unfolding days_or_default cutoff_date
  result_of c req strategy counts = record {
    execution_id = "retention-" +++ c.draw;
    strategy = strategy;
    retention_days = days_or_default req.retention_days;
    cutoff = cutoff_date c.now (days_or_default req.retention_days);
    counts = counts;
    archive_directory = directory_of req;
    duration_ms = c.duration_ms;
    executed_at = c.now;
    executed_by = c.operator;
    audit_log_id = "audit-retention-" +++ sv.show_nanos c.now;
  }

  abbrev pub execution_log : ExecuteCall P → ExecuteRequest → ExecuteResult → SecurityAuditLog
  execution_log c req res = record {
    id = res.audit_log_id;
    correlation_id = "corr-" +++ res.execution_id;
    timestamp = c.now;
    actor = c.operator;
    action = "SNAPSHOT_RETENTION_EXECUTED";
    resource_type = "host_snapshots_retention";
    resource_id = res.execution_id;
    status = "SUCCESS";
    ip_address = c.ip;
    details =
        ("execution_id", text res.execution_id)
        ∷ ("strategy", text (strategy_text res.strategy))
        ∷ ("retention_days", count res.retention_days)
        ∷ ("cutoff_date", text (sv.format_time res.cutoff))
        ∷ ("snapshots_processed", count res.counts.processed)
        ∷ ("snapshots_archived", count res.counts.archived)
        ∷ ("snapshots_downsampled", count res.counts.downsampled)
        ∷ ("snapshots_weekly_retained", count res.counts.weekly_retained)
        ∷ ("reclaimed_bytes", count res.counts.reclaimed)
        ∷ ("storage_saved_mb", ratio res.counts.reclaimed (1024 * 1024))
        ∷ ("cold_storage_path", text res.archive_directory)
        ∷ ("duration_ms", number res.duration_ms)
        ∷ ("justification", text req.justification)
        ∷ [];
  }

  -- `LastRunAt` is a new zero time.
  abbrev run_stats : ExecuteCall P → ExecuteRequest → ExecuteResult → SnapshotRetentionPolicy
  run_stats c req res = record {
    retention_days = pos res.retention_days;
    strategy = strategy_text res.strategy;
    cold_storage_path = res.archive_directory;
    keep_weekly_interval_days = pos 7;
    is_enabled = true;
    last_run_at = some zero_time;
    last_run_status = "COMPLETED";
    last_reclaimed_bytes = pos res.counts.reclaimed;
    updated_at = c.now;
    updated_by = c.operator;
  }

  unfoldable pub record_run :
      ExecuteCall P → ExecuteRequest → ExecuteResult → Repository P → Repository P
  unfolding add_audit_log update_retention_policy_run_stats
  record_run c req res r =
      update_retention_policy_run_stats (run_stats c req res)
        (add_audit_log (execution_log c req res) r)

  -- A run that was cut short is neither logged nor undone.
  unfoldable pub conclude_run :
      ExecuteCall P → ExecuteRequest → Strategy → Run P × Bool → Run P × ExecuteOutcome
  unfolding result_of record_run
  conclude_run c req strategy (run, false) = (run, refused context_done)
  conclude_run c req strategy (run, true) =
      let res = result_of c req strategy run.counts in
      (record run { repo = record_run c req res run.repo }, executed res)

  unfoldable pub execute_with :
      ExecuteCall P
      → ExecuteRequest
      → Repository P
      → Map (List ℕ)
      → Option Strategy
      → Run P × ExecuteOutcome
  unfolding work conclude_run list_all_snapshots_for_tenant days_or_default cutoff_date
  execute_with c req r files none = (start r files, refused invalid_strategy)
  execute_with c req r files (some strategy) = conclude_run c req strategy (
      work sv c.is_done c.now (cutoff_date c.now (days_or_default req.retention_days))
        (directory_of req) strategy (list_all_snapshots_for_tenant c.order c.tenant r)
        (start r files))

  unfoldable pub execute :
      ExecuteCall P → ExecuteRequest → Repository P → Map (List ℕ) → Run P × ExecuteOutcome
  unfolding execute_with strategy_of
  execute c req r files = execute_with c req r files (strategy_of req.strategy)
