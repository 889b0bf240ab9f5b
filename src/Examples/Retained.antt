-- ===== src/Examples/Retained.antt =====
-- Retention runs over three snapshots of one host (engine.go).
use mathlib.Core.List.Permᴰ
use zero_agent_scan.Examples.Sorts.{sort_by_time, sort_by_time-Permᴰ, backwards, backwards-Reorders}
use zero_agent_scan.Prelude.{List, arith, ℕ, ◌*◌, ◌^◌, ◌/◌, ◌≡◌, refl, false, some, [], ◌∷◌, lookup}
use zero_agent_scan.Prelude.Int.{pos, ◌-ℤ◌, pos_part}
use zero_agent_scan.Fleet.Records.{HostSnapshotEntry, Repository}
use zero_agent_scan.Retention.Buckets.{
  downsample, strategy_of, is_eligible, cutoff_date, days_or_default, split_last,
}
use zero_agent_scan.Retention.{Services, ExecuteRequest, downsample_sorted}
use zero_agent_scan.Retention.Execution.{ExecuteCall, execute, start}
use zero_agent_scan.Retention.DryRun.{dry_run}
use zero_agent_scan.Retention.Recent.{IsFiled, execute_keeps}
use zero_agent_scan.Retention.Archival.{Logged, execute-Logged}
use zero_agent_scan.Retention.Forecast.{Foretold, execute-Foretold}
use zero_agent_scan.Retention.Checkpoints.{Checkpointed, downsample_sorted_lem}
use zero_agent_scan.Examples.Fleets.{blank, snap}

abbrev day : ℕ
day = 24 * 3600 * 10 ^ 9

-- A disk that cannot be written.
abbrev services : Services ℕ
services = record {
  marshal = λ n. some (n ∷ n ∷ []);
  gzip = λ bytes. some bytes;
  sha256_hex = λ bytes. "abc";
  target_file = λ directory at host id. id;
  can_write = λ path. false;
  iso_week = λ at. (2026, pos_part at / (7 * day));
  sort_slice = sort_by_time;
  format_time = λ at. "now";
  show_nanos = λ at. "1";
  empty_payload = 0;
}

abbrev stored : Repository ℕ
stored = record blank {
  snapshots = ("s1", snap "s1" 1) ∷ ("s2", snap "s2" 2) ∷ ("s3", snap "s3" (100 * day)) ∷ [];
}

abbrev request : ExecuteRequest
request = record {
  retention_days = pos 0;
  strategy = " Downsample ";
  cold_storage_path = "";
  justification = "disk";
}

abbrev archiving : ExecuteRequest
archiving = record request { strategy = "archive" }

abbrev now_call : ExecuteCall ℕ
now_call = record {
  now = pos (120 * day);
  operator = "ana";
  ip = "10.1.1.1";
  tenant = "t";
  draw = "k";
  duration_ms = pos 3;
  is_done = λ i. false;
  order = λ snaps. snaps;
}

read_strategy : strategy_of " Downsample " ≡ some downsample
unfolding strategy_of
read_strategy = refl

stored-IsFiled : IsFiled stored
unfolding lookup
stored-IsFiled = (refl, (refl, (refl, tt)))

young : lookup "s3" stored.snapshots ≡ some (snap "s3" (100 * day))
unfolding lookup
young = refl

too_young :
    is_eligible (cutoff_date (pos (120 * day)) (days_or_default (pos 0))) (snap "s3" (100 * day))
    ≡ false
unfolding is_eligible cutoff_date days_or_default ◌-ℤ◌
too_young = refl

execute_keeps_example :
    lookup "s3" (execute services now_call request stored []).0.repo.snapshots
    ≡ some (snap "s3" (100 * day))
unfolding is_eligible cutoff_date days_or_default ◌-ℤ◌
execute_keeps_example =
    execute_keeps services "s3" now_call request stored [] (snap "s3" (100 * day))
      sort_by_time-Permᴰ Permᴰ.refl stored-IsFiled young refl

first_stored : lookup "s1" stored.snapshots ≡ some (snap "s1" 1)
unfolding lookup
first_stored = refl

execute-Logged_example :
    Logged services now_call archiving stored (execute services now_call archiving stored [])
execute-Logged_example = execute-Logged services now_call archiving stored []

-- `DryRun` runs through the map the other way round.
execute-Foretold_example :
    Foretold services
      (dry_run services backwards (pos (120 * day)) request "t" stored)
      (execute services now_call request stored []).1
execute-Foretold_example =
    execute-Foretold services now_call request stored [] backwards sort_by_time-Permᴰ
      backwards-Reorders Permᴰ.refl

abbrev bucket : List (HostSnapshotEntry ℕ)
bucket = snap "s2" 2 ∷ snap "s1" 1 ∷ []

downsample_sorted_example :
    Checkpointed services bucket
      (downsample_sorted services (split_last (sort_by_time bucket)) (start stored []))
unfolding lookup
downsample_sorted_example =
    downsample_sorted_lem services bucket (start stored []) (omega arith)
      (sort_by_time-Permᴰ bucket) ((omega arith, tt), (tt, tt)) ((refl, tt), (tt, tt))
      (refl, (refl, tt))
