-- ===== src/Retention.antt =====
-- apps/api/internal/retention/engine.go: `DryRun` and `Execute` over the repository (Fleet). The
-- clock, the keys, JSON, gzip, SHA-256, `sort.Slice`, paths and whether a file can be written are parameters; the
-- files are a map. Whether the context is done at the start of each round is a function of the round.
pub mod Buckets
pub mod Execution
pub mod DryRun
pub mod Recent
pub mod Archival
pub mod Orders
pub mod Numbers
pub mod Forecast
pub mod Latest
pub mod Checkpoints
use Prim.Native.String.{◌++◌ as ◌+++◌}
use zero_agent_scan.Prelude.{
  ℕ, suc, ◌+◌, ◌*◌, String, Bool, true, false, Option, none, some, List, [], ◌∷◌, if◌then◌else◌,
  Map, insert, ◌==◌, length,
}
use zero_agent_scan.Prelude.Int.{ℤ, pos}
use zero_agent_scan.Fleet.Records.{
  HostSnapshotEntry, Repository, SecurityAuditLog, SnapshotRetentionPolicy, text, count, ratio,
  number,
}
use zero_agent_scan.Fleet.Snapshots.{
  zero_time, list_all_snapshots_for_tenant, archive_snapshot_payload, mark_snapshot_weekly_retained,
  prune_downsampled_snapshot,
}
use zero_agent_scan.Fleet.Audit.{add_audit_log, update_retention_policy_run_stats}
use zero_agent_scan.Retention.Buckets.{
  Strategy, archive, downsample, strategy_of, days_or_default, cutoff_date, is_eligible, size_of,
  Bucket, bucket_loop, split_last,
}

pub record Services (P : Type 0) : Type 0 where
  pub marshal : P → Option (List ℕ)
  pub gzip : List ℕ → Option (List ℕ)
  pub sha256_hex : List ℕ → String
  -- The path for a directory, a time, a host and an ID.
  pub target_file : String → ℤ → String → String → String
  -- Can the directory be made and the file be written?
  pub can_write : String → Bool
  pub iso_week : ℤ → ℕ × ℕ
  -- `sort.Slice` by the time of creation, which need not keep the order of equal times.
  pub sort_slice : List (HostSnapshotEntry P) → List (HostSnapshotEntry P)
  pub format_time : ℤ → String
  pub show_nanos : ℤ → String
  pub empty_payload : P

pub record ExecuteRequest : Type 0 where
  pub retention_days : ℤ
  pub strategy : String
  pub cold_storage_path : String
  pub justification : String

pub record Counts : Type 0 where
  pub processed : ℕ
  pub archived : ℕ
  pub downsampled : ℕ
  pub weekly_retained : ℕ
  pub reclaimed : ℕ

pub record Run (P : Type 0) : Type 0 where
  pub repo : Repository P
  pub files : Map (List ℕ)
  pub counts : Counts

abbrev pub no_counts : Counts
no_counts = record {
  processed = 0;
  archived = 0;
  downsampled = 0;
  weekly_retained = 0;
  reclaimed = 0;
}

module _ {P : Type 0} (sv : Services P) where
  abbrev pub path_of : String → HostSnapshotEntry P → String
  path_of directory snap = sv.target_file directory snap.created_at snap.host_id snap.id

  -- The writing of the file may fail, and what follows does not ask.
  abbrev store : ℤ → String → HostSnapshotEntry P → List ℕ → Option (List ℕ) → Run P → Run P
  unfolding insert archive_snapshot_payload
  store now path snap raw none run = run
  store now path snap raw (some zipped) run = record {
    repo =
        (archive_snapshot_payload sv.empty_payload snap.id path (sv.sha256_hex zipped)
          "cold_storage" now (pos (length raw)) run.repo).0;
    files = if sv.can_write path then insert path zipped run.files else run.files;
    counts = record run.counts {
      archived = suc run.counts.archived;
      reclaimed = run.counts.reclaimed + length raw;
    };
  }

  abbrev store_payload : ℤ → String → HostSnapshotEntry P → Option (List ℕ) → Run P → Run P
  unfolding store
  store_payload now path snap none run = run
  store_payload now path snap (some raw) run = store now path snap raw (sv.gzip raw) run

  unfoldable pub archive_one : ℤ → String → HostSnapshotEntry P → Run P → Run P
  unfolding store_payload
  archive_one now directory snap run =
      store_payload now (path_of directory snap) snap (sv.marshal snap.payload)
        (record run { counts = record run.counts { processed = suc run.counts.processed } })

  -- The test is false where the context was done.
  unfoldable pub archive_loop :
      (ℕ → Bool) → ℤ → ℤ → String → ℕ → List (HostSnapshotEntry P) → Run P → Run P × Bool
  unfolding archive_one is_eligible
  archive_loop is_done now cutoff directory i [] run = (run, true)
  archive_loop is_done now cutoff directory i (snap ∷ snaps) run =
      let next = if is_eligible cutoff snap then archive_one now directory snap run else run in
      let rest = archive_loop is_done now cutoff directory (suc i) snaps next in
      if is_done i then (run, false) else rest

  unfoldable pub prune_one : HostSnapshotEntry P → Run P → Run P
  unfolding prune_downsampled_snapshot size_of
  prune_one snap run = record run {
    repo = prune_downsampled_snapshot snap.id run.repo;
    counts = record run.counts {
      processed = suc run.counts.processed;
      downsampled = suc run.counts.downsampled;
      reclaimed = run.counts.reclaimed + size_of sv.marshal snap;
    };
  }

  unfoldable pub prune_loop : List (HostSnapshotEntry P) → Run P → Run P
  unfolding prune_one
  prune_loop [] run = run
  prune_loop (snap ∷ snaps) run = prune_loop snaps (prune_one snap run)

  abbrev pub downsample_sorted :
      Option (List (HostSnapshotEntry P) × HostSnapshotEntry P) → Run P → Run P
  unfolding mark_snapshot_weekly_retained prune_loop
  downsample_sorted none run = run
  downsample_sorted (some (before, checkpoint)) run = prune_loop before (record run {
    repo = (mark_snapshot_weekly_retained checkpoint.id run.repo).0;
    counts = record run.counts { weekly_retained = suc run.counts.weekly_retained };
  })

  -- The buckets come in the order of their first snapshots, which is any order, since that of the
  -- snapshots is.
  unfoldable pub downsample_loop : List (Bucket P) → Run P → Run P
  unfolding downsample_sorted split_last
  downsample_loop [] run = run
  downsample_loop (b ∷ bs) run =
      downsample_loop bs (downsample_sorted (split_last (sv.sort_slice b.snaps)) run)

  unfoldable pub work :
      (ℕ → Bool) → ℤ → ℤ → String → Strategy → List (HostSnapshotEntry P) → Run P → Run P × Bool
  unfolding archive_loop downsample_loop bucket_loop
  work is_done now cutoff directory archive snaps run =
      archive_loop is_done now cutoff directory 0 snaps run
  work is_done now cutoff directory downsample snaps run =
      (downsample_loop (bucket_loop sv.iso_week cutoff snaps []) run, true)
