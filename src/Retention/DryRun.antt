-- ===== src/Retention/DryRun.antt =====
-- apps/api/internal/retention/engine.go: `DryRun`, what a run would do.
use zero_agent_scan.Prelude.{
  ℕ, suc, ◌+◌, String, Option, none, some, List, [], ◌∷◌, ◌++◌, if◌then◌else◌, ltb, length,
}
use zero_agent_scan.Prelude.Text.{codes}
use zero_agent_scan.Prelude.Int.{ℤ, pos}
use zero_agent_scan.Fleet.Records.{HostSnapshotEntry, Repository}
use zero_agent_scan.Fleet.Paging.{lex_lt}
use zero_agent_scan.Fleet.Tiers.{listed}
use zero_agent_scan.Fleet.Snapshots.{list_all_snapshots_for_tenant}
use zero_agent_scan.Retention.Buckets.{
  Strategy, archive, downsample, strategy_of, days_or_default, cutoff_date, is_eligible, size_of,
  Bucket, bucket_loop, split_last,
}
use zero_agent_scan.Retention.{Services, ExecuteRequest}

pub data ArchiveAction : Type 0 where
  archive_to_cold_storage : String → ArchiveAction
  retain_weekly_checkpoint prune_downsampled : ArchiveAction

-- A row of the sample: the snapshot stands for its ID, host and times.
pub record SnapshotArchiveSummary (P : Type 0) : Type 0 where
  pub snapshot : HostSnapshotEntry P
  pub payload_size_bytes : ℤ
  pub action : ArchiveAction

pub record Forecast (P : Type 0) : Type 0 where
  pub evaluated : ℕ
  pub eligible : ℕ
  pub to_archive : ℕ
  pub to_prune : ℕ
  pub weekly_retained : ℕ
  pub reclaimed : ℕ
  pub affected : List String
  pub samples : List (SnapshotArchiveSummary P)

abbrev pub with_host : String → List String → List String
unfolding listed
with_host host hosts = if listed host hosts then hosts else host ∷ hosts

-- `sort.Strings`
abbrev insert_text : String → List String → List String
insert_text s [] = s ∷ []
insert_text s (t ∷ ts) = if lex_lt (codes t) (codes s) then t ∷ insert_text s ts else s ∷ t ∷ ts

abbrev sort_texts : List String → List String
unfolding lex_lt
sort_texts [] = []
sort_texts (s ∷ ss) = insert_text s (sort_texts ss)

module _ {P : Type 0} where
  abbrev pub with_sample :
      SnapshotArchiveSummary P → List (SnapshotArchiveSummary P) → List (SnapshotArchiveSummary P)
  with_sample row rows = if ltb (length rows) 15 then rows ++ row ∷ [] else rows

  abbrev pub no_forecast : Forecast P
  no_forecast = record {
    evaluated = 0;
    eligible = 0;
    to_archive = 0;
    to_prune = 0;
    weekly_retained = 0;
    reclaimed = 0;
    affected = [];
    samples = [];
  }

module _ {P : Type 0} (sv : Services P) where
  unfoldable pub forecast_archive : String → HostSnapshotEntry P → Forecast P → Forecast P
  unfolding size_of
  forecast_archive directory snap f =
      let path = sv.target_file directory snap.created_at snap.host_id snap.id in
      let size = size_of sv.marshal snap in
      record f {
        eligible = suc f.eligible;
        to_archive = suc f.to_archive;
        affected = with_host snap.host_id f.affected;
        reclaimed = f.reclaimed + size;
        samples =
            with_sample
              (record {
                snapshot = snap;
                payload_size_bytes = pos size;
                action = archive_to_cold_storage path;
              })
              f.samples;
      }

  unfoldable pub forecast_archive_loop :
      ℤ → String → List (HostSnapshotEntry P) → Forecast P → Forecast P
  unfolding forecast_archive is_eligible
  forecast_archive_loop cutoff directory [] f = f
  forecast_archive_loop cutoff directory (snap ∷ snaps) f =
      let seen = record f { evaluated = suc f.evaluated } in
      forecast_archive_loop cutoff directory snaps
        (if is_eligible cutoff snap then forecast_archive directory snap seen else seen)

  unfoldable pub forecast_prune : HostSnapshotEntry P → Forecast P → Forecast P
  unfolding size_of
  forecast_prune snap f =
      let size = size_of sv.marshal snap in
      record f {
        eligible = suc f.eligible;
        to_prune = suc f.to_prune;
        reclaimed = f.reclaimed + size;
        samples =
            with_sample
              (record {
                snapshot = snap;
                payload_size_bytes = pos size;
                action = prune_downsampled;
              })
              f.samples;
      }

  unfoldable pub forecast_prune_loop : List (HostSnapshotEntry P) → Forecast P → Forecast P
  unfolding forecast_prune
  forecast_prune_loop [] f = f
  forecast_prune_loop (snap ∷ snaps) f = forecast_prune_loop snaps (forecast_prune snap f)

  unfoldable pub forecast_sorted :
      String → Option (List (HostSnapshotEntry P) × HostSnapshotEntry P) → Forecast P → Forecast P
  unfolding forecast_prune_loop
  forecast_sorted host none f = f
  forecast_sorted host (some (before, checkpoint)) f = forecast_prune_loop before (record f {
    affected = with_host host f.affected;
    weekly_retained = suc f.weekly_retained;
    samples =
        with_sample
          (record {
            snapshot = checkpoint;
            payload_size_bytes = checkpoint.payload_size_bytes;
            action = retain_weekly_checkpoint;
          })
          f.samples;
  })

  unfoldable pub forecast_buckets : List (Bucket P) → Forecast P → Forecast P
  unfolding forecast_sorted split_last
  forecast_buckets [] f = f
  forecast_buckets (b ∷ bs) f =
      forecast_buckets bs (forecast_sorted b.host (split_last (sv.sort_slice b.snaps)) f)

  unfoldable pub forecast_with :
      ℤ → ExecuteRequest → List (HostSnapshotEntry P) → Option Strategy → Option (Forecast P)
  unfolding days_or_default cutoff_date forecast_archive_loop forecast_buckets bucket_loop
  forecast_with cutoff req snaps none = none
  forecast_with cutoff req snaps (some archive) =
      some (forecast_archive_loop cutoff req.cold_storage_path snaps no_forecast)
  forecast_with cutoff req snaps (some downsample) = some (
      forecast_buckets (bucket_loop sv.iso_week cutoff snaps [])
        (record no_forecast { evaluated = length snaps }))

  -- `none` where the strategy is not known; `order` is that of the loop over the map.
  unfoldable pub dry_run :
      (List (HostSnapshotEntry P) → List (HostSnapshotEntry P))
      → ℤ
      → ExecuteRequest
      → String
      → Repository P
      → Option (Forecast P)
  unfolding forecast_with strategy_of list_all_snapshots_for_tenant
  dry_run order now req tenant r =
      forecast_with (cutoff_date now (days_or_default req.retention_days)) req
        (list_all_snapshots_for_tenant order tenant r) (strategy_of req.strategy)

  -- `AffectedEndpoints`
  abbrev pub affected_endpoints : Forecast P → List String
  unfolding sort_texts
  affected_endpoints f = sort_texts f.affected
