-- ===== src/Retention/Forecast.antt =====
-- `DryRun` against `Execute` (engine.go).
use mathlib.Core.List.Permᴰ
use zero_agent_scan.Prelude.{
  values, ℕ, suc, ◌≡◌, String, Bool, true, false, Option, none, some, List, [], ◌∷◌, Map, length,
  refl, ap, sym, ◌∙◌, Bool-cases, Option-cases, inl, inr, arith,
}
use zero_agent_scan.Prelude.Int.{ℤ}
use zero_agent_scan.Fleet.Records.{HostSnapshotEntry, Repository}
use zero_agent_scan.Fleet.Snapshots.{kept, visible, list_all_snapshots_for_tenant}
use zero_agent_scan.Retention.Buckets.{
  Strategy, archive, downsample, strategy_of, is_eligible, Bucket, bucket_loop, split_last,
  cutoff_date, days_or_default,
}
use zero_agent_scan.Retention.{
  Services, ExecuteRequest, Run, archive_one, archive_loop, prune_one, prune_loop,
  downsample_sorted, downsample_loop, work,
}
use zero_agent_scan.Prelude.Reorderings.{Reorders}
use zero_agent_scan.Retention.Recent.{Sorts}
use zero_agent_scan.Retention.Numbers.{SameNumbers, forecast_with-SameNumbers, kept-Permᴰ}
use zero_agent_scan.Retention.Execution.{
  ExecuteCall, ExecuteOutcome, executed, refused, execute, execute_with, conclude_run, result_of,
  start, directory_of,
}
use zero_agent_scan.Retention.DryRun.{
  Forecast, no_forecast, forecast_archive, forecast_archive_loop, forecast_prune,
  forecast_prune_loop, forecast_sorted, forecast_buckets, forecast_with, dry_run,
}

module _ {P : Type 0} (sv : Services P) where
  -- The numbers of a forecast are those of a run.
  pub record Agrees (f : Forecast P) (run : Run P) : Type 0 where
    pub acted_on : f.eligible ≡ run.counts.processed
    pub pruned : f.to_prune ≡ run.counts.downsampled
    pub retained : f.weekly_retained ≡ run.counts.weekly_retained

  archive_one-counts :
      (now : ℤ) (directory : String) (s : HostSnapshotEntry P) (run : Run P)
      → let run' = archive_one sv now directory s run in
        (run'.counts.processed ≡ suc run.counts.processed)
        × (run'.counts.downsampled ≡ run.counts.downsampled)
        × (run'.counts.weekly_retained ≡ run.counts.weekly_retained)
  unfolding archive_one
  archive_one-counts now directory s run = elim (Option-cases (sv.marshal s.payload)) [
    | inl m ↦ rw m (refl, refl, refl)
    | inr (raw, m) ↦ elim (Option-cases (sv.gzip raw)) [
      | inl z ↦ rw (m, z) (refl, refl, refl)
      | inr (zipped, z) ↦ rw (m, z) (refl, refl, refl)
    ]
  ]

  archive_loop-Agrees :
      (is_done : ℕ → Bool) (now cutoff : ℤ) (directory folder : String) (i : ℕ)
      (ss : List (HostSnapshotEntry P)) (f : Forecast P) (run : Run P)
      → (archive_loop sv is_done now cutoff directory i ss run).1 ≡ true
      → Agrees f run
      → Agrees
          (forecast_archive_loop sv cutoff folder ss f)
          (archive_loop sv is_done now cutoff directory i ss run).0
  unfolding archive_loop forecast_archive_loop
  archive_loop-Agrees is_done now cutoff directory folder i [] f run e a = a
  archive_loop-Agrees is_done now cutoff directory folder i (s ∷ ss) f run e a =
      let seen = record f { evaluated = suc f.evaluated } in
      elim (Bool-cases (is_done i)) [
        | inl d ↦ let cut : false ≡ true = rw d at e in absurd (ground arith)
        | inr d ↦ elim (Bool-cases (is_eligible cutoff s)) [
          | inl el ↦
              let k = archive_one-counts now directory s run in
              rw (d, el)
                (archive_loop-Agrees is_done now cutoff directory folder (suc i) ss
                  (forecast_archive sv folder s seen) (archive_one sv now directory s run)
                  (rw (d, el) at e)
                  (record {
                    acted_on = ap suc a.acted_on ∙ sym k.0;
                    pruned = a.pruned ∙ sym k.1;
                    retained = a.retained ∙ sym k.2;
                  }))
          | inr el ↦
              rw (d, el)
                (archive_loop-Agrees is_done now cutoff directory folder (suc i) ss seen run
                  (rw (d, el) at e)
                  (record { acted_on = a.acted_on; pruned = a.pruned; retained = a.retained }))
        ]
      ]

  prune_loop-Agrees :
      (ss : List (HostSnapshotEntry P)) (f : Forecast P) (run : Run P)
      → Agrees f run
      → Agrees (forecast_prune_loop sv ss f) (prune_loop sv ss run)
  unfolding prune_loop forecast_prune_loop prune_one forecast_prune
  prune_loop-Agrees [] f run a = a
  prune_loop-Agrees (s ∷ ss) f run a =
      prune_loop-Agrees ss (forecast_prune sv s f) (prune_one sv s run)
        (record { acted_on = ap suc a.acted_on; pruned = ap suc a.pruned; retained = a.retained })

  downsample_sorted-Agrees :
      (host : String) (o : Option (List (HostSnapshotEntry P) × HostSnapshotEntry P))
      (f : Forecast P) (run : Run P)
      → Agrees f run
      → Agrees (forecast_sorted sv host o f) (downsample_sorted sv o run)
  unfolding downsample_sorted forecast_sorted
  downsample_sorted-Agrees host none f run a = a
  downsample_sorted-Agrees host (some (before, last)) f run a =
      prune_loop-Agrees before _ _
        (record { acted_on = a.acted_on; pruned = a.pruned; retained = ap suc a.retained })

  downsample_loop-Agrees :
      (bs : List (Bucket P)) (f : Forecast P) (run : Run P)
      → Agrees f run
      → Agrees (forecast_buckets sv bs f) (downsample_loop sv bs run)
  unfolding downsample_loop forecast_buckets
  downsample_loop-Agrees [] f run a = a
  downsample_loop-Agrees (b ∷ bs) f run a =
      let o = split_last (sv.sort_slice b.snaps) in
      downsample_loop-Agrees bs (forecast_sorted sv b.host o f) (downsample_sorted sv o run)
        (downsample_sorted-Agrees b.host o f run a)

  -- What a call of `DryRun` and one of `Execute` report.
  abbrev pub Foretold : Option (Forecast P) → ExecuteOutcome → Type 0
  Foretold (some f) (executed res) =
      (f.eligible ≡ res.counts.processed)
      × (f.to_prune ≡ res.counts.downsampled)
      × (f.weekly_retained ≡ res.counts.weekly_retained)
  Foretold none (executed res) = ⊥
  Foretold f (refused e) = Unit

  conclude_run-Foretold :
      (c : ExecuteCall P) (req : ExecuteRequest) (strategy : Strategy) (f : Forecast P)
      (x : Run P × Bool)
      → (x.1 ≡ true → Agrees f x.0)
      → Foretold (some f) (conclude_run sv c req strategy x).1
  unfolding conclude_run result_of
  conclude_run-Foretold c req strategy f (run, false) h = tt
  conclude_run-Foretold c req strategy f (run, true) h =
      let a = h refl in (a.acted_on, a.pruned, a.retained)

  execute_with-Foretold :
      (c : ExecuteCall P) (req : ExecuteRequest) (r : Repository P) (files : Map (List ℕ))
      (o : Option Strategy)
      → Foretold
          (forecast_with sv
            (cutoff_date c.now (days_or_default req.retention_days))
            req
            (list_all_snapshots_for_tenant c.order c.tenant r)
            o)
          (execute_with sv c req r files o).1
  unfolding execute_with forecast_with work
  execute_with-Foretold c req r files none = tt
  execute_with-Foretold c req r files (some archive) =
      let cutoff = cutoff_date c.now (days_or_default req.retention_days) in
      let snaps = list_all_snapshots_for_tenant c.order c.tenant r in
      conclude_run-Foretold c req archive _
        (work sv c.is_done c.now cutoff (directory_of req) archive snaps (start r files))
        (λ e.
          archive_loop-Agrees c.is_done c.now cutoff (directory_of req) req.cold_storage_path 0
            snaps no_forecast (start r files) e
            (record { acted_on = refl; pruned = refl; retained = refl }))
  execute_with-Foretold c req r files (some downsample) =
      let cutoff = cutoff_date c.now (days_or_default req.retention_days) in
      let snaps = list_all_snapshots_for_tenant c.order c.tenant r in
      conclude_run-Foretold c req downsample _
        (work sv c.is_done c.now cutoff (directory_of req) downsample snaps (start r files))
        (λ e.
          downsample_loop-Agrees (bucket_loop sv.iso_week cutoff snaps [])
            (record no_forecast { evaluated = length snaps }) (start r files)
            (record { acted_on = refl; pruned = refl; retained = refl }))

  Foretold-SameNumbers :
      (o o' : Option (Forecast P)) (x : ExecuteOutcome)
      → SameNumbers o o'
      → Foretold o' x
      → Foretold o x
  Foretold-SameNumbers (some f) (some g) (executed res) s a = (s.0 ∙ a.0, s.1 ∙ a.1, s.2 ∙ a.2)
  Foretold-SameNumbers none (some g) (executed res) s a = absurd s
  Foretold-SameNumbers (some f) none x s a = absurd s
  Foretold-SameNumbers none none (executed res) s a = a
  Foretold-SameNumbers (some f) (some g) (refused e) s a = tt
  Foretold-SameNumbers none o' (refused e) s a = tt

  -- For the same time, tenant, request and repository, whatever the orders in which the two calls run
  -- through the map, and whatever the order in which `sort.Slice` leaves equal times: `dry_run`
  -- foretells how many snapshots a run that ends normally processes, prunes and retains; where it
  -- refuses the strategy, no run ends normally.
  pub execute-Foretold :
      (c : ExecuteCall P) (req : ExecuteRequest) (r : Repository P) (files : Map (List ℕ))
      (order : List (HostSnapshotEntry P) → List (HostSnapshotEntry P))
      → Sorts sv
      → Reorders order
      → Reorders c.order
      → Foretold (dry_run sv order c.now req c.tenant r) (execute sv c req r files).1
  unfolding execute dry_run list_all_snapshots_for_tenant
  execute-Foretold c req r files order sorts ranges ranges' =
      let strategy = strategy_of req.strategy in
      let cutoff = cutoff_date c.now (days_or_default req.retention_days) in
      let entries = values r.snapshots in
      let orders =
        kept-Permᴰ (visible c.tenant)
          (Permᴰ.trans (Permᴰ.symm (ranges entries)) (ranges' entries)) in
      Foretold-SameNumbers _
        (forecast_with sv cutoff req (kept (visible c.tenant) (c.order entries)) strategy)
        (execute_with sv c req r files strategy).1
        (forecast_with-SameNumbers sv sorts cutoff req strategy orders)
        (execute_with-Foretold c req r files strategy)
