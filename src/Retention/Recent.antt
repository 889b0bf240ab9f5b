-- ===== src/Retention/Recent.antt =====
-- What a run leaves alone (engine.go).
use mathlib.Core.Path.{subst}
use zero_agent_scan.Prelude.{
  ℕ, suc, ◌≡◌, String, Bool, true, false, ◌&&◌, Option, none, some, List, [], ◌∷◌, if◌then◌else◌,
  Map, lookup, values, lookup-insert, lookup-remove, ◌==◌, eq_iff, arith, refl, ap, sym, ◌∙◌, All,
  All-append, All-map, Bool-cases, inl, inr, if_cases, if_both, Option-cases,
}
use zero_agent_scan.Prelude.Reorderings.{Reorders, All-Permᴰ}
use zero_agent_scan.Prelude.Int.{ℤ}
use zero_agent_scan.Fleet.Records.{HostSnapshotEntry, Repository}
use zero_agent_scan.Fleet.Snapshots.{
  kept, visible, rewrite, list_all_snapshots_for_tenant, archive_snapshot_payload,
  mark_snapshot_weekly_retained, prune_downsampled_snapshot,
}
use zero_agent_scan.Fleet.Audit.{add_audit_log, update_retention_policy_run_stats}
use zero_agent_scan.Retention.Buckets.{
  Strategy, archive, downsample, strategy_of, is_eligible, Bucket, is_key, add_to_bucket,
  bucket_loop, split_last, with_first, cutoff_date, days_or_default,
}
use zero_agent_scan.Retention.{
  Services, ExecuteRequest, Run, archive_one, archive_loop, prune_one, prune_loop,
  downsample_sorted, downsample_loop, work,
}
use zero_agent_scan.Retention.Execution.{
  ExecuteCall, execute, execute_with, conclude_run, start, directory_of,
}

-- Each snapshot is stored under its own ID.
abbrev pub IsFiled : {P : Type 0} → Repository P → Type 0
IsFiled r = All (λ s. lookup s.id r.snapshots ≡ some s) (values r.snapshots)

pub kept-All :
    {A : Type 0} (p : A → Bool) (R : A → Type 0) (xs : List A)
    → All R xs
    → All (λ x. (p x ≡ true) × R x) (kept p xs)
unfolding kept
kept-All p R [] h = tt
kept-All p R (x ∷ xs) h = elim (Bool-cases (p x)) [
  | inl e ↦ rw e ((e, h.0), kept-All p R xs h.1)
  | inr e ↦ rw e (kept-All p R xs h.1)
]

module _ {P : Type 0} where
  abbrev pub AllBuckets : (HostSnapshotEntry P → Type 0) → List (Bucket P) → Type 0
  AllBuckets Q bs = All (λ b. All Q b.snaps) bs

  module _ (Q : HostSnapshotEntry P → Type 0) where
    module _ (iso_week : ℤ → ℕ × ℕ) where
      add_to_bucket-All :
          (s : HostSnapshotEntry P) (bs : List (Bucket P))
          → Q s
          → AllBuckets Q bs
          → AllBuckets Q (add_to_bucket iso_week s bs)
      unfolding add_to_bucket
      add_to_bucket-All s [] h a = ((h, tt), tt)
      add_to_bucket-All s (b ∷ bs) h a = elim (Bool-cases (is_key iso_week b s)) [
        | inl e ↦ rw e (All-append Q b.snaps (s ∷ []) a.0 (h, tt), a.1)
        | inr e ↦ rw e (a.0, add_to_bucket-All s bs h a.1)
      ]

      pub bucket_loop-All :
          (cutoff : ℤ) (ss : List (HostSnapshotEntry P)) (bs : List (Bucket P))
          → All (λ s. is_eligible cutoff s ≡ true → Q s) ss
          → AllBuckets Q bs
          → AllBuckets Q (bucket_loop iso_week cutoff ss bs)
      unfolding bucket_loop
      bucket_loop-All cutoff [] bs a b = b
      bucket_loop-All cutoff (s ∷ ss) bs a b =
          bucket_loop-All cutoff ss
            (if is_eligible cutoff s then add_to_bucket iso_week s bs else bs) a.1
            (if_cases (AllBuckets Q) (is_eligible cutoff s) (λ e. add_to_bucket-All s bs (a.0 e) b)
              (λ e. b))

    -- What holds of the snapshots before the last and of the last.
    abbrev pub AllLast : Option (List (HostSnapshotEntry P) × HostSnapshotEntry P) → Type 0
    AllLast none = Unit
    AllLast (some (before, last)) = All Q before × Q last

    with_first-All :
        (s : HostSnapshotEntry P) (o : Option (List (HostSnapshotEntry P) × HostSnapshotEntry P))
        → Q s
        → AllLast o
        → AllLast (with_first s o)
    with_first-All s none h a = (tt, h)
    with_first-All s (some (before, last)) h a = ((h, a.0), a.1)

    pub split_last-All : (ss : List (HostSnapshotEntry P)) → All Q ss → AllLast (split_last ss)
    unfolding split_last
    split_last-All [] a = tt
    split_last-All (s ∷ ss) a = with_first-All s (split_last ss) a.0 (split_last-All ss a.1)

  -- A method that rewrites one snapshot leaves the others.
  pub lookup-rewrite :
      (change : HostSnapshotEntry P → HostSnapshotEntry P) (id other : String)
      (o : Option (HostSnapshotEntry P)) (r : Repository P)
      → (id == other) ≡ false
      → lookup other (rewrite change id o r).0.snapshots ≡ lookup other r.snapshots
  unfolding rewrite
  lookup-rewrite change id other none r e = refl
  lookup-rewrite change id other (some snap) r e =
      lookup-insert id other (change snap) r.snapshots ∙ (rw e)

-- The sort yields all that it is given, in some order.
abbrev pub Sorts : {P : Type 0} → Services P → Type 0
Sorts sv = Reorders sv.sort_slice

module _ {P : Type 0} (sv : Services P) (id : String) where
  abbrev pub Others : HostSnapshotEntry P → Type 0
  Others s = (s.id == id) ≡ false

  abbrev pub Keeps : Run P → Run P → Type 0
  Keeps run run' = lookup id run'.repo.snapshots ≡ lookup id run.repo.snapshots

  archive_one-Keeps :
      (now : ℤ) (directory : String) (s : HostSnapshotEntry P) (run : Run P)
      → Others s
      → Keeps run (archive_one sv now directory s run)
  unfolding archive_one archive_snapshot_payload
  archive_one-Keeps now directory s run e = elim (Option-cases (sv.marshal s.payload)) [
    | inl m ↦ rw m refl
    | inr (raw, m) ↦ elim (Option-cases (sv.gzip raw)) [
      | inl z ↦ rw (m, z) refl
      | inr (zipped, z) ↦
          rw (m, z) (lookup-rewrite _ s.id id (lookup s.id run.repo.snapshots) run.repo e)
    ]
  ]

  archive_loop-Keeps :
      (is_done : ℕ → Bool) (now cutoff : ℤ) (directory : String) (i : ℕ)
      (ss : List (HostSnapshotEntry P)) (run : Run P)
      → All (λ s. is_eligible cutoff s ≡ true → Others s) ss
      → Keeps run (archive_loop sv is_done now cutoff directory i ss run).0
  unfolding archive_loop
  archive_loop-Keeps is_done now cutoff directory i [] run a = refl
  archive_loop-Keeps is_done now cutoff directory i (s ∷ ss) run a =
      let next = if is_eligible cutoff s then archive_one sv now directory s run else run in
      let first : Keeps run next =
        if_cases (Keeps run) (is_eligible cutoff s)
          (λ e. archive_one-Keeps now directory s run (a.0 e)) (λ e. refl) in
      if_both (λ (x : Run P × Bool). Keeps run x.0) (is_done i) refl
        (archive_loop-Keeps is_done now cutoff directory (suc i) ss next a.1 ∙ first)

  pub prune_loop-Keeps :
      (ss : List (HostSnapshotEntry P)) (run : Run P)
      → All Others ss
      → Keeps run (prune_loop sv ss run)
  unfolding prune_loop prune_one prune_downsampled_snapshot
  prune_loop-Keeps [] run a = refl
  prune_loop-Keeps (s ∷ ss) run a =
      prune_loop-Keeps ss (prune_one sv s run) a.1
      ∙ (lookup-remove s.id id run.repo.snapshots ∙ rw (a.0))

  downsample_sorted-Keeps :
      (o : Option (List (HostSnapshotEntry P) × HostSnapshotEntry P)) (run : Run P)
      → AllLast Others o
      → Keeps run (downsample_sorted sv o run)
  unfolding downsample_sorted mark_snapshot_weekly_retained
  downsample_sorted-Keeps none run a = refl
  downsample_sorted-Keeps (some (before, last)) run a =
      prune_loop-Keeps before _ a.0
      ∙ lookup-rewrite _ last.id id (lookup last.id run.repo.snapshots) run.repo a.1

  downsample_loop-Keeps :
      (sorts : Sorts sv) (bs : List (Bucket P)) (run : Run P)
      → AllBuckets Others bs
      → Keeps run (downsample_loop sv bs run)
  unfolding downsample_loop
  downsample_loop-Keeps sorts [] run a = refl
  downsample_loop-Keeps sorts (b ∷ bs) run a =
      let sorted = sv.sort_slice b.snaps in
      downsample_loop-Keeps sorts bs (downsample_sorted sv (split_last sorted) run) a.1
      ∙ downsample_sorted-Keeps (split_last sorted) run
          (split_last-All Others sorted (All-Permᴰ Others (sorts b.snaps) a.0))

  work-Keeps :
      (sorts : Sorts sv) (is_done : ℕ → Bool) (now cutoff : ℤ) (directory : String)
      (strategy : Strategy) (ss : List (HostSnapshotEntry P)) (run : Run P)
      → All (λ s. is_eligible cutoff s ≡ true → Others s) ss
      → Keeps run (work sv is_done now cutoff directory strategy ss run).0
  unfolding work
  work-Keeps sorts is_done now cutoff directory archive ss run a =
      archive_loop-Keeps is_done now cutoff directory 0 ss run a
  work-Keeps sorts is_done now cutoff directory downsample ss run a =
      downsample_loop-Keeps sorts (bucket_loop sv.iso_week cutoff ss []) run
        (bucket_loop-All Others sv.iso_week cutoff ss [] a tt)

  conclude_run-Keeps :
      (c : ExecuteCall P) (req : ExecuteRequest) (strategy : Strategy) (run : Run P)
      (x : Run P × Bool)
      → Keeps run x.0
      → Keeps run (conclude_run sv c req strategy x).0
  unfolding conclude_run add_audit_log update_retention_policy_run_stats
  conclude_run-Keeps c req strategy run (run', true) k = k
  conclude_run-Keeps c req strategy run (run', false) k = k

  execute_with-Keeps :
      (sorts : Sorts sv) (c : ExecuteCall P) (req : ExecuteRequest) (r : Repository P)
      (files : Map (List ℕ)) (o : Option Strategy)
      → All
          (λ s.
            is_eligible (cutoff_date c.now (days_or_default req.retention_days)) s ≡ true
            → Others s)
          (list_all_snapshots_for_tenant c.order c.tenant r)
      → Keeps (start r files) (execute_with sv c req r files o).0
  unfolding execute_with
  execute_with-Keeps sorts c req r files none a = refl
  execute_with-Keeps sorts c req r files (some strategy) a =
      let cutoff = cutoff_date c.now (days_or_default req.retention_days) in
      let run =
        work sv c.is_done c.now cutoff (directory_of req) strategy
          (list_all_snapshots_for_tenant c.order c.tenant r) (start r files) in
      conclude_run-Keeps c req strategy (start r files) run (
        work-Keeps sorts c.is_done c.now cutoff (directory_of req) strategy
          (list_all_snapshots_for_tenant c.order c.tenant r) (start r files) a)

  -- Where `sort.Slice` and the loop over the map yield what they are given in some order: a run,
  -- whatever its strategy, and also one that is refused or cut short, leaves a snapshot as it
  -- was that is not older than the cutoff, is archived already, or is another tenant's, if each
  -- snapshot is stored under its own ID.
  pub execute_keeps :
      (c : ExecuteCall P) (req : ExecuteRequest) (r : Repository P) (files : Map (List ℕ))
      (snap : HostSnapshotEntry P)
      → Sorts sv
      → Reorders c.order
      → IsFiled r
      → lookup id r.snapshots ≡ some snap
      → (is_eligible (cutoff_date c.now (days_or_default req.retention_days)) snap
          && visible c.tenant snap)
        ≡ false
      → lookup id (execute sv c req r files).0.repo.snapshots ≡ some snap
  unfolding execute list_all_snapshots_for_tenant
  execute_keeps c req r files snap sorts ranges filed e out =
      let cutoff = cutoff_date c.now (days_or_default req.retention_days) in
      let other_id : (s : HostSnapshotEntry P)
          → visible c.tenant s ≡ true
          → lookup s.id r.snapshots ≡ some s
          → is_eligible cutoff s ≡ true
          → (s.id == id) ≡ false =
        λ s v l k. elim (Bool-cases (s.id == id)) [
          | inr other ↦ other
          | inl same ↦
              let one : some s ≡ some snap =
                sym l ∙ ap (λ j. lookup j r.snapshots) ((eq_iff s.id id).0 same) ∙ e in
              let is_snap : s ≡ snap = cc in
              let both : (is_eligible cutoff s && visible c.tenant s) ≡ true = rw (k, v) in
              let neither : (is_eligible cutoff s && visible c.tenant s) ≡ false =
                subst (λ x. (is_eligible cutoff x && visible c.tenant x) ≡ false) (sym is_snap)
                  out in
              absurd (ground arith)
        ] in
      execute_with-Keeps sorts c req r files (strategy_of req.strategy) (
        All-map _ _ (kept (visible c.tenant) (c.order (values r.snapshots)))
          (λ s h k. other_id s h.0 h.1 k)
          (kept-All (visible c.tenant) (λ s. lookup s.id r.snapshots ≡ some s)
            (c.order (values r.snapshots))
            (All-Permᴰ (λ s. lookup s.id r.snapshots ≡ some s) (ranges (values r.snapshots))
              filed)))
      ∙ e
