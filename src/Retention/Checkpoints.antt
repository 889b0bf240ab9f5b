-- ===== src/Retention/Checkpoints.antt =====
-- What downsampling keeps of a bucket (engine.go).
use mathlib.Core.Path.{subst}
use mathlib.Core.List.Permᴰ
use zero_agent_scan.Prelude.{
  ◌<◌, Any, length, ◌≡◌, ◌⊎◌, String, none, some, List, [], ◌∷◌, lookup, lookup-insert_self,
  lookup-remove, refl, sym, ◌∙◌, All, All-map, Option-cases, inl, inr, arith, eq_iff,
}
use zero_agent_scan.Prelude.Reorderings.{
  Permᴰ, All-Permᴰ, Any-Permᴰ, length-Permᴰ, Pairwise, Pairwise-Permᴰ,
}
use zero_agent_scan.Prelude.Int.{◌≤ℤ◌}
use zero_agent_scan.Fleet.Records.{HostSnapshotEntry}
use zero_agent_scan.Fleet.Snapshots.{
  rewrite, retained, mark_snapshot_weekly_retained, prune_downsampled_snapshot,
}
use zero_agent_scan.Retention.Buckets.{split_last}
use zero_agent_scan.Retention.Recent.{split_last-All, AllLast, prune_loop-Keeps}
use zero_agent_scan.Retention.Latest.{
  OtherId, OtherId-flip, Before, All-split_last, split_last-ToLast, split_last-ne_none,
  split_last-Any,
}
use zero_agent_scan.Retention.{Services, Run, prune_one, prune_loop, downsample_sorted}

module _ {P : Type 0} (sv : Services P) where
  prune_loop-none :
      (id : String) (ss : List (HostSnapshotEntry P)) (run : Run P)
      → lookup id run.repo.snapshots ≡ none
      → lookup id (prune_loop sv ss run).repo.snapshots ≡ none
  unfolding prune_loop prune_one prune_downsampled_snapshot
  prune_loop-none id [] run e = e
  prune_loop-none id (s ∷ ss) run e =
      prune_loop-none id ss (prune_one sv s run)
        (lookup-remove s.id id run.repo.snapshots ∙ ground (arith, e))

  -- Every snapshot that the loop is given is gone.
  prune_loop-All :
      (ss : List (HostSnapshotEntry P)) (run : Run P)
      → All (λ s. lookup s.id (prune_loop sv ss run).repo.snapshots ≡ none) ss
  unfolding prune_loop prune_one prune_downsampled_snapshot
  prune_loop-All [] run = tt
  prune_loop-All (s ∷ ss) run = (
    prune_loop-none s.id ss (prune_one sv s run)
        (lookup-remove s.id s.id run.repo.snapshots ∙ rw ((eq_iff s.id s.id).1 refl)),
    prune_loop-All ss (prune_one sv s run),
  )

  marked :
      (last : HostSnapshotEntry P) (run : Run P)
      → lookup last.id run.repo.snapshots ≡ some last
      → lookup last.id (mark_snapshot_weekly_retained last.id run.repo).0.snapshots
        ≡ some (retained last)
  unfolding mark_snapshot_weekly_retained rewrite
  marked last run e = rw e (lookup-insert_self last.id (retained last) run.repo.snapshots)

  downsample_sorted_found :
      (before : List (HostSnapshotEntry P)) (last : HostSnapshotEntry P) (run : Run P)
      → All (λ s. OtherId s last) before
      → lookup last.id run.repo.snapshots ≡ some last
      → let run' = downsample_sorted sv (some (before, last)) run in
        (lookup last.id run'.repo.snapshots ≡ some (retained last))
        × All (λ s. lookup s.id run'.repo.snapshots ≡ none) before
  unfolding downsample_sorted
  downsample_sorted_found before last run others e =
      (prune_loop-Keeps sv last.id before _ others ∙ marked last run e, prune_loop-All before _)

  -- What a run leaves of the snapshots of a bucket: one of them, that none is later than, retained.
  abbrev pub Checkpointed : List (HostSnapshotEntry P) → Run P → Type 0
  Checkpointed ss run =
      (last : HostSnapshotEntry P) × Any (λ s. s ≡ last) ss
      × All (λ s. s.created_at ≤ℤ last.created_at) ss
      × (lookup last.id run.repo.snapshots ≡ some (retained last))
      × All (λ s. (s ≡ last) ⊎ (lookup s.id run.repo.snapshots ≡ none)) ss

  -- Where `sort.Slice` puts a bucket that is not empty in ascending order of time, and its snapshots
  -- are stored under IDs that differ: the bucket keeps one of its snapshots, which none of the bucket
  -- is later than, marked as retained, and every other one of the bucket is deleted.
  pub downsample_sorted_lem :
      (ss : List (HostSnapshotEntry P)) (run : Run P)
      → 0 < length ss
      → Permᴰ ss (sv.sort_slice ss)
      → Pairwise Before (sv.sort_slice ss)
      → Pairwise OtherId ss
      → All (λ s. lookup s.id run.repo.snapshots ≡ some s) ss
      → Checkpointed ss (downsample_sorted sv (split_last (sv.sort_slice ss)) run)
  downsample_sorted_lem ss run pos sorts ascending distinct filed =
      let sorted = sv.sort_slice ss in
      let ids =
        split_last-ToLast OtherId sorted (Pairwise-Permᴰ OtherId OtherId-flip sorts distinct) in
      let times = split_last-ToLast Before sorted ascending in
      let stored =
        split_last-All (λ s. lookup s.id run.repo.snapshots ≡ some s) sorted
          (All-Permᴰ (λ s. lookup s.id run.repo.snapshots ≡ some s) sorts filed) in
      elim (Option-cases (split_last sorted)) [
        | inl e ↦ absurd (split_last-ne_none sorted (omega (arith, pos, length-Permᴰ sorts)) e)
        | inr ((before, last), e) ↦
            let ids' : All (λ s. OtherId s last) before = rw e at ids in
            let times' : All (λ s. Before s last) before = rw e at times in
            let stored' : AllLast (λ s. lookup s.id run.repo.snapshots ≡ some s)
                (some (before, last)) =
              rw e at stored in
            let found = downsample_sorted_found before last run ids' stored'.1 in
            let back : (Q : HostSnapshotEntry P → Type 0) → All Q before × Q last → All Q ss =
              λ Q a. All-Permᴰ Q (Permᴰ.symm sorts) (All-split_last Q sorted (rw e a)) in
            let gone = λ (s : HostSnapshotEntry P).
              (s ≡ last)
              ⊎ (lookup s.id (downsample_sorted sv (some (before, last)) run).repo.snapshots
                  ≡ none) in
            subst (λ o. Checkpointed ss (downsample_sorted sv o run)) (sym e)
              (
                last,
                Any-Permᴰ (λ s. s ≡ last) (Permᴰ.symm sorts) (split_last-Any sorted before last e),
                back (λ s. s.created_at ≤ℤ last.created_at) (times', omega arith),
                found.0,
                back gone (All-map _ gone before (λ s h. inr h) found.1, inl refl),
              )
      ]
