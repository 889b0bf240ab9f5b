-- ===== src/Retention/Numbers.antt =====
-- The numbers that `DryRun` (engine.go) reports, as sums over the snapshots and their buckets.
use mathlib.Core.Path.{subst}
use mathlib.Core.List.Permᴰ
use zero_agent_scan.Prelude.{
  Bool, ℕ, suc, ◌+◌, ◌<◌, ◌≡◌, refl, sym, ◌∙◌, inl, inr, String, Option, none, some, List, [], ◌∷◌,
  length, arith, Bool-cases, false,
}
use zero_agent_scan.Prelude.Reorderings.{Permᴰ, total, total-Permᴰ, length-Permᴰ}
use zero_agent_scan.Prelude.Int.{ℤ}
use zero_agent_scan.Fleet.Records.{HostSnapshotEntry}
use zero_agent_scan.Fleet.Snapshots.{kept}
use zero_agent_scan.Retention.Buckets.{
  Strategy, archive, downsample, Bucket, bucket_loop, with_first, split_last,
}
use zero_agent_scan.Retention.{Services, ExecuteRequest}
use zero_agent_scan.Retention.Recent.{Sorts}
use zero_agent_scan.Retention.Orders.{eligible, size, Filled, news-Permᴰ, bucket_loop-counts}
use zero_agent_scan.Retention.DryRun.{
  Forecast, no_forecast, forecast_archive, forecast_archive_loop, forecast_prune,
  forecast_prune_loop, forecast_sorted, forecast_buckets, forecast_with,
}

module _ {P : Type 0} where
  abbrev before_count : Option (List (HostSnapshotEntry P) × HostSnapshotEntry P) → ℕ
  before_count none = 0
  before_count (some (before, last)) = length before

  abbrev last_count : Option (List (HostSnapshotEntry P) × HostSnapshotEntry P) → ℕ
  last_count none = 0
  last_count (some (before, last)) = 1

  with_first-counts :
      (s : HostSnapshotEntry P) (o : Option (List (HostSnapshotEntry P) × HostSnapshotEntry P))
      → (before_count (with_first s o) ≡ before_count o + last_count o)
        × (last_count (with_first s o) ≡ 1)
  with_first-counts s none = (refl, refl)
  with_first-counts s (some (before, last)) = (omega arith, refl)

  split_last-counts :
      (ss : List (HostSnapshotEntry P))
      → (before_count (split_last ss) + last_count (split_last ss) ≡ length ss)
        × (0 < length ss → last_count (split_last ss) ≡ 1)
  unfolding split_last
  split_last-counts [] = (refl, λ h. absurd (omega (arith, h)))
  split_last-counts (s ∷ ss) =
      let (first, one) = with_first-counts s (split_last ss) in
      (omega (arith, first, one, split_last-counts ss), λ h. one)

  -- Two forecasts with the same numbers, or none.
  abbrev pub SameNumbers : Option (Forecast P) → Option (Forecast P) → Type 0
  SameNumbers none none = Unit
  SameNumbers (some f) (some g) =
      (f.eligible ≡ g.eligible)
      × (f.to_prune ≡ g.to_prune)
      × (f.weekly_retained ≡ g.weekly_retained)
  SameNumbers none (some g) = ⊥
  SameNumbers (some f) none = ⊥

module _ {P : Type 0} (sv : Services P) where
  forecast_archive_loop-counts :
      (cutoff : ℤ) (directory : String) (ss : List (HostSnapshotEntry P)) (f : Forecast P)
      → let g = forecast_archive_loop sv cutoff directory ss f in
        (g.eligible ≡ f.eligible + total (eligible sv.iso_week cutoff) ss)
        × (g.to_prune ≡ f.to_prune)
        × (g.weekly_retained ≡ f.weekly_retained)
  unfolding forecast_archive_loop forecast_archive
  forecast_archive_loop-counts cutoff directory [] f = (omega arith, refl, refl)
  forecast_archive_loop-counts cutoff directory (s ∷ ss) f =
      let seen = record f { evaluated = suc f.evaluated } in
      let taken =
        forecast_archive_loop-counts cutoff directory ss (forecast_archive sv directory s seen) in
      let passed = forecast_archive_loop-counts cutoff directory ss seen in
      ground (arith, taken, passed)

  forecast_prune_loop-counts :
      (ss : List (HostSnapshotEntry P)) (f : Forecast P)
      → let g = forecast_prune_loop sv ss f in
        (g.eligible ≡ f.eligible + length ss)
        × (g.to_prune ≡ f.to_prune + length ss)
        × (g.weekly_retained ≡ f.weekly_retained)
  unfolding forecast_prune_loop forecast_prune
  forecast_prune_loop-counts [] f = (omega arith, omega arith, refl)
  forecast_prune_loop-counts (s ∷ ss) f =
      let (number, pruned, retained) = forecast_prune_loop-counts ss (forecast_prune sv s f) in
      (omega (arith, number), omega (arith, pruned), retained)

  forecast_sorted-counts :
      (host : String) (o : Option (List (HostSnapshotEntry P) × HostSnapshotEntry P))
      (f : Forecast P)
      → let g = forecast_sorted sv host o f in
        (g.eligible ≡ f.eligible + before_count o)
        × (g.to_prune ≡ f.to_prune + before_count o)
        × (g.weekly_retained ≡ f.weekly_retained + last_count o)
  unfolding forecast_sorted
  forecast_sorted-counts host none f = (omega arith, omega arith, omega arith)
  forecast_sorted-counts host (some (before, last)) f =
      let (number, pruned, retained) = forecast_prune_loop-counts before _ in
      (number, pruned, omega (arith, retained))

  module _ (sorts : Sorts sv) where
    forecast_buckets-counts :
        (cutoff : ℤ) (bs : List (Bucket P)) (f : Forecast P)
        → Filled sv.iso_week cutoff bs
        → let g = forecast_buckets sv bs f in
          (g.eligible + length bs ≡ f.eligible + total (size sv.iso_week cutoff) bs)
          × (g.to_prune + length bs ≡ f.to_prune + total (size sv.iso_week cutoff) bs)
          × (g.weekly_retained ≡ f.weekly_retained + length bs)
    unfolding forecast_buckets
    forecast_buckets-counts cutoff [] f h = (omega arith, omega arith, omega arith)
    forecast_buckets-counts cutoff (b ∷ bs) f h =
        let sorted = sv.sort_slice b.snaps in
        let o = split_last sorted in
        let size_kept = length-Permᴰ (sorts b.snaps) in
        let (all, one) = split_last-counts sorted in
        let one' = one (omega (arith, h.0, size_kept)) in
        let (number, pruned, retained) = forecast_sorted-counts b.host o f in
        let (numbers, all_pruned, all_retained) =
          forecast_buckets-counts cutoff bs (forecast_sorted sv b.host o f) h.1 in
        (
          omega (arith, number, numbers, all, one', size_kept),
          omega (arith, pruned, all_pruned, all, one', size_kept),
          omega (arith, retained, all_retained, one'),
        )

    -- The numbers of a forecast do not depend on the order of the snapshots.
    pub forecast_with-SameNumbers :
        (cutoff : ℤ) (req : ExecuteRequest) (o : Option Strategy)
        {ss ts : List (HostSnapshotEntry P)}
        → Permᴰ ss ts
        → SameNumbers (forecast_with sv cutoff req ss o) (forecast_with sv cutoff req ts o)
    unfolding forecast_with
    forecast_with-SameNumbers cutoff req none p = tt
    forecast_with-SameNumbers cutoff req (some archive) {ss} {ts} p =
        let (number, pruned, retained) =
          forecast_archive_loop-counts cutoff req.cold_storage_path ss no_forecast in
        let (number', pruned', retained') =
          forecast_archive_loop-counts cutoff req.cold_storage_path ts no_forecast in
        let sums = total-Permᴰ (eligible sv.iso_week cutoff) p in
        (omega (arith, number, number', sums), pruned ∙ sym pruned', retained ∙ sym retained')
    forecast_with-SameNumbers cutoff req (some downsample) {ss} {ts} p =
        let (weeks, sizes, filled) = bucket_loop-counts sv.iso_week cutoff ss [] tt in
        let (weeks', sizes', filled') = bucket_loop-counts sv.iso_week cutoff ts [] tt in
        let (number, pruned, retained) =
          forecast_buckets-counts cutoff (bucket_loop sv.iso_week cutoff ss [])
            (record no_forecast { evaluated = length ss }) filled in
        let (number', pruned', retained') =
          forecast_buckets-counts cutoff (bucket_loop sv.iso_week cutoff ts [])
            (record no_forecast { evaluated = length ts }) filled' in
        let sums = total-Permᴰ (eligible sv.iso_week cutoff) p in
        let keys = news-Permᴰ sv.iso_week cutoff (λ x. false) p in
        (
          omega (arith, number, number', weeks, weeks', sizes, sizes', sums, keys),
          omega (arith, pruned, pruned', weeks, weeks', sizes, sizes', sums, keys),
          omega (arith, retained, retained', weeks, weeks', keys),
        )

-- The loop that leaves entries out keeps a reordering one.
pub kept-Permᴰ :
    {A : Type 0} (p : A → Bool) {xs ys : List A} → Permᴰ xs ys → Permᴰ (kept p xs) (kept p ys)
unfolding kept
kept-Permᴰ p Permᴰ.nil = Permᴰ.nil
kept-Permᴰ p (Permᴰ.cons {a = a} {b = b} {l₁ = xs} {l₂ = ys} e q) =
    subst (λ x. Permᴰ (kept p (a ∷ xs)) (kept p (x ∷ ys))) e
      (elim (Bool-cases (p a)) [
        | inl t ↦ rw t (Permᴰ.cons refl (kept-Permᴰ p q))
        | inr t ↦ rw t (kept-Permᴰ p q)
      ])
kept-Permᴰ p (Permᴰ.swap {a = a} {b = b} {a' = a'} {b' = b'} {l = l} e f) =
    subst (λ y. Permᴰ (kept p (a ∷ b ∷ l)) (kept p (a' ∷ y ∷ l))) e
      (subst (λ x. Permᴰ (kept p (a ∷ b ∷ l)) (kept p (x ∷ a ∷ l))) f
        (elim (Bool-cases (p a)) [
          | inl t ↦ elim (Bool-cases (p b)) [
            | inl u ↦ rw (t, u) (Permᴰ.swap refl refl)
            | inr u ↦ rw (t, u) (Permᴰ.refl (a ∷ kept p l))
          ]
          | inr t ↦ elim (Bool-cases (p b)) [
            | inl u ↦ rw (t, u) (Permᴰ.refl (b ∷ kept p l))
            | inr u ↦ rw (t, u) (Permᴰ.refl (kept p l))
          ]
        ]))
kept-Permᴰ p (Permᴰ.trans q r) = Permᴰ.trans (kept-Permᴰ p q) (kept-Permᴰ p r)
