-- ===== src/Retention/Archival.antt =====
-- Where the payload of an archived snapshot goes, and which runs are logged (engine.go).
use zero_agent_scan.Prelude.{
  ℕ, suc, ◌≡◌, String, Bool, true, false, Option, none, some, List, [], ◌∷◌, if◌then◌else◌, Map,
  lookup, take, length, lookup-insert_self, refl, ap, ◌∙◌, Bool-cases, Option-cases, inl, inr,
  if_both,
}
use zero_agent_scan.Prelude.Int.{ℤ, pos}
use zero_agent_scan.Fleet.Records.{HostSnapshotEntry, Repository}
use zero_agent_scan.Fleet.Snapshots.{
  rewrite, archive_snapshot_payload, mark_snapshot_weekly_retained, prune_downsampled_snapshot,
  list_all_snapshots_for_tenant,
}
use zero_agent_scan.Fleet.Audit.{add_audit_log, update_retention_policy_run_stats}
use zero_agent_scan.Retention.Buckets.{
  Strategy, archive, downsample, strategy_of, is_eligible, Bucket, bucket_loop, split_last,
  cutoff_date, days_or_default,
}
use zero_agent_scan.Retention.{
  Services, ExecuteRequest, Run, path_of, archive_one, archive_loop, prune_one, prune_loop,
  downsample_sorted, downsample_loop, work,
}
use zero_agent_scan.Retention.Execution.{
  ExecuteCall, ExecuteOutcome, executed, refused, execute, execute_with, conclude_run, record_run,
  result_of, execution_log, start, directory_of,
}

module _ {P : Type 0} (sv : Services P) where
  -- The snapshot in its archived form.
  abbrev pub in_archive : ℤ → String → List ℕ → List ℕ → HostSnapshotEntry P → HostSnapshotEntry P
  in_archive now path raw zipped snap = record snap {
    is_archived = true;
    archived_at = some now;
    archive_location = path;
    archive_checksum = sv.sha256_hex zipped;
    archive_strategy = "cold_storage";
    payload_size_bytes = pos (length raw);
    payload = sv.empty_payload;
  }

  -- A stored snapshot whose payload can be serialized and compressed is archived: where its file can
  -- be written, the file at the location that the snapshot names holds the compressed payload of
  -- which it has the checksum; where it cannot, no file is written, and the payload is cleared and
  -- counted as archived just the same.
  pub archive_one_lem :
      (now : ℤ) (directory : String) (snap : HostSnapshotEntry P) (raw zipped : List ℕ)
      (run : Run P)
      → lookup snap.id run.repo.snapshots ≡ some snap
      → sv.marshal snap.payload ≡ some raw
      → sv.gzip raw ≡ some zipped
      → let path = path_of sv directory snap in
        let run' = archive_one sv now directory snap run in
        (lookup snap.id run'.repo.snapshots ≡ some (in_archive now path raw zipped snap))
        × (lookup path run'.files
            ≡ (if sv.can_write path then some zipped else lookup path run.files))
        × (run'.counts.archived ≡ suc run.counts.archived)
  unfolding archive_one archive_snapshot_payload rewrite
  archive_one_lem now directory snap raw zipped run e m z =
      let path = path_of sv directory snap in
      rw (m, z, e)
        (
          lookup-insert_self snap.id (in_archive now path raw zipped snap) run.repo.snapshots,
          elim (Bool-cases (sv.can_write path)) [
            | inl can ↦ rw can (lookup-insert_self path zipped run.files)
            | inr cannot ↦ rw cannot refl
          ],
          refl,
        )

  abbrev SameLog : Run P → Run P → Type 0
  SameLog run run' = run'.repo.audit_logs ≡ run.repo.audit_logs

  rewrite-audit_logs :
      (change : HostSnapshotEntry P → HostSnapshotEntry P) (id : String)
      (o : Option (HostSnapshotEntry P)) (r : Repository P)
      → (rewrite change id o r).0.audit_logs ≡ r.audit_logs
  unfolding rewrite
  rewrite-audit_logs change id none r = refl
  rewrite-audit_logs change id (some snap) r = refl

  archive_one-SameLog :
      (now : ℤ) (directory : String) (s : HostSnapshotEntry P) (run : Run P)
      → SameLog run (archive_one sv now directory s run)
  unfolding archive_one archive_snapshot_payload
  archive_one-SameLog now directory s run = elim (Option-cases (sv.marshal s.payload)) [
    | inl m ↦ rw m refl
    | inr (raw, m) ↦ elim (Option-cases (sv.gzip raw)) [
      | inl z ↦ rw (m, z) refl
      | inr (zipped, z) ↦
          rw (m, z) (rewrite-audit_logs _ s.id (lookup s.id run.repo.snapshots) run.repo)
    ]
  ]

  archive_loop-SameLog :
      (is_done : ℕ → Bool) (now cutoff : ℤ) (directory : String) (i : ℕ)
      (ss : List (HostSnapshotEntry P)) (run : Run P)
      → SameLog run (archive_loop sv is_done now cutoff directory i ss run).0
  unfolding archive_loop
  archive_loop-SameLog is_done now cutoff directory i [] run = refl
  archive_loop-SameLog is_done now cutoff directory i (s ∷ ss) run =
      let next = if is_eligible cutoff s then archive_one sv now directory s run else run in
      if_both (λ (x : Run P × Bool). SameLog run x.0) (is_done i) refl
        (archive_loop-SameLog is_done now cutoff directory (suc i) ss next
          ∙ if_both (SameLog run) (is_eligible cutoff s) (archive_one-SameLog now directory s run)
              refl)

  prune_loop-SameLog :
      (ss : List (HostSnapshotEntry P)) (run : Run P) → SameLog run (prune_loop sv ss run)
  unfolding prune_loop prune_one prune_downsampled_snapshot
  prune_loop-SameLog [] run = refl
  prune_loop-SameLog (s ∷ ss) run = prune_loop-SameLog ss (prune_one sv s run)

  downsample_sorted-SameLog :
      (o : Option (List (HostSnapshotEntry P) × HostSnapshotEntry P)) (run : Run P)
      → SameLog run (downsample_sorted sv o run)
  unfolding downsample_sorted mark_snapshot_weekly_retained
  downsample_sorted-SameLog none run = refl
  downsample_sorted-SameLog (some (before, last)) run =
      prune_loop-SameLog before _
      ∙ rewrite-audit_logs _ last.id (lookup last.id run.repo.snapshots) run.repo

  downsample_loop-SameLog :
      (bs : List (Bucket P)) (run : Run P) → SameLog run (downsample_loop sv bs run)
  unfolding downsample_loop
  downsample_loop-SameLog [] run = refl
  downsample_loop-SameLog (b ∷ bs) run =
      let o = split_last (sv.sort_slice b.snaps) in
      downsample_loop-SameLog bs (downsample_sorted sv o run) ∙ downsample_sorted-SameLog o run

  work-SameLog :
      (is_done : ℕ → Bool) (now cutoff : ℤ) (directory : String) (strategy : Strategy)
      (ss : List (HostSnapshotEntry P)) (run : Run P)
      → SameLog run (work sv is_done now cutoff directory strategy ss run).0
  unfolding work
  work-SameLog is_done now cutoff directory archive ss run =
      archive_loop-SameLog is_done now cutoff directory 0 ss run
  work-SameLog is_done now cutoff directory downsample ss run =
      downsample_loop-SameLog (bucket_loop sv.iso_week cutoff ss []) run

  -- What a run leaves in the log, by its outcome.
  abbrev pub Logged :
      ExecuteCall P → ExecuteRequest → Repository P → Run P × ExecuteOutcome → Type 0
  Logged c req r (run, executed res) =
      run.repo.audit_logs ≡ take 1000 (execution_log sv c req res ∷ r.audit_logs)
  Logged c req r (run, refused e) = run.repo.audit_logs ≡ r.audit_logs

  conclude_run-Logged :
      (c : ExecuteCall P) (req : ExecuteRequest) (strategy : Strategy) (r : Repository P)
      (x : Run P × Bool)
      → x.0.repo.audit_logs ≡ r.audit_logs
      → Logged c req r (conclude_run sv c req strategy x)
  unfolding conclude_run record_run add_audit_log update_retention_policy_run_stats
  conclude_run-Logged c req strategy r (run, false) e = e
  conclude_run-Logged c req strategy r (run, true) e =
      ap (λ l. take 1000 (execution_log sv c req (result_of sv c req strategy run.counts) ∷ l)) e

  -- A run that ends normally puts one entry in front of the audit log, which is cut to 1000; a run
  -- that is refused or cut short adds none, whatever it has archived by then.
  pub execute-Logged :
      (c : ExecuteCall P) (req : ExecuteRequest) (r : Repository P) (files : Map (List ℕ))
      → Logged c req r (execute sv c req r files)
  unfolding execute execute_with
  execute-Logged c req r files = elim (Option-cases (strategy_of req.strategy)) [
    | inl e ↦ rw e refl
    | inr (strategy, e) ↦
        let cutoff = cutoff_date c.now (days_or_default req.retention_days) in
        let snaps = list_all_snapshots_for_tenant c.order c.tenant r in
        rw e (
          conclude_run-Logged c req strategy r _
            (work-SameLog c.is_done c.now cutoff (directory_of req) strategy snaps (start r files)))
  ]
