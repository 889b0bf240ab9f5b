-- ===== src/Retention/Latest.antt =====
-- The order of a bucket: the last snapshot is the latest (engine.go).
use zero_agent_scan.Prelude.{
  ◌<◌, ◌⊎◌, Any, length, ◌≡◌, ◌≢◌, false, Option, none, some, List, [], ◌∷◌, ◌==◌, All,
  Option-cases, inl, inr, arith, eq_iff,
}
use zero_agent_scan.Prelude.Reorderings.{Pairwise}
use zero_agent_scan.Prelude.Int.{◌≤ℤ◌}
use zero_agent_scan.Fleet.Records.{HostSnapshotEntry}
use zero_agent_scan.Retention.Buckets.{split_last, with_first}
use zero_agent_scan.Retention.Recent.{split_last-All, AllLast}

module _ {P : Type 0} where
  abbrev pub OtherId : HostSnapshotEntry P → HostSnapshotEntry P → Type 0
  OtherId s t = (s.id == t.id) ≡ false

  abbrev pub Before : HostSnapshotEntry P → HostSnapshotEntry P → Type 0
  Before s t = s.created_at ≤ℤ t.created_at

  pub OtherId-flip : (s t : HostSnapshotEntry P) → OtherId s t → OtherId t s
  OtherId-flip s t h = ground (arith, eq_iff s.id t.id, eq_iff t.id s.id)

  -- The relation between the snapshots before the last and the last.
  abbrev pub ToLast :
      (HostSnapshotEntry P → HostSnapshotEntry P → Type 0)
      → Option (List (HostSnapshotEntry P) × HostSnapshotEntry P)
      → Type 0
  ToLast R none = Unit
  ToLast R (some (before, last)) = All (λ s. R s last) before

  with_first-ToLast :
      (R : HostSnapshotEntry P → HostSnapshotEntry P → Type 0) (s : HostSnapshotEntry P)
      (o : Option (List (HostSnapshotEntry P) × HostSnapshotEntry P))
      → AllLast (R s) o
      → ToLast R o
      → ToLast R (with_first s o)
  with_first-ToLast R s none h a = tt
  with_first-ToLast R s (some (before, last)) h a = (h.1, a)

  pub split_last-ToLast :
      (R : HostSnapshotEntry P → HostSnapshotEntry P → Type 0) (ss : List (HostSnapshotEntry P))
      → Pairwise R ss
      → ToLast R (split_last ss)
  unfolding split_last
  split_last-ToLast R [] a = tt
  split_last-ToLast R (s ∷ ss) a =
      with_first-ToLast R s (split_last ss) (split_last-All (R s) ss a.0)
        (split_last-ToLast R ss a.1)

  pub All-split_last :
      (Q : HostSnapshotEntry P → Type 0) (ss : List (HostSnapshotEntry P))
      → AllLast Q (split_last ss)
      → All Q ss
  unfolding split_last
  All-split_last Q [] a = tt
  All-split_last Q (s ∷ ss) a = elim (Option-cases (split_last ss)) [
    | inl e ↦
        let b : AllLast Q (with_first s none) = rw e at a in (b.1, All-split_last Q ss (rw e tt))
    | inr ((before, last), e) ↦
        let b : AllLast Q (with_first s (some (before, last))) = rw e at a in
        (b.0.0, All-split_last Q ss (rw e (b.0.1, b.1)))
  ]

  with_first-ne_none :
      (s : HostSnapshotEntry P) (o : Option (List (HostSnapshotEntry P) × HostSnapshotEntry P))
      → with_first s o ≢ none
  with_first-ne_none s none e = cc
  with_first-ne_none s (some (before, last)) e = cc

  -- A list that is not empty has a last snapshot.
  pub split_last-ne_none : (ss : List (HostSnapshotEntry P)) → 0 < length ss → split_last ss ≢ none
  unfolding split_last
  split_last-ne_none [] h = absurd (omega (arith, h))
  split_last-ne_none (s ∷ ss) h = with_first-ne_none s (split_last ss)

  with_first-last :
      (s : HostSnapshotEntry P) (o : Option (List (HostSnapshotEntry P) × HostSnapshotEntry P))
      (before : List (HostSnapshotEntry P)) (last : HostSnapshotEntry P)
      → with_first s o ≡ some (before, last)
      → (s ≡ last) ⊎ ((rest : List (HostSnapshotEntry P)) × (o ≡ some (rest, last)))
  with_first-last s none before last e = inl cc
  with_first-last s (some (rest, t)) before last e = inr (rest, cc)

  -- It is one of the list.
  pub split_last-Any :
      (ss before : List (HostSnapshotEntry P)) (last : HostSnapshotEntry P)
      → split_last ss ≡ some (before, last)
      → Any (λ s. s ≡ last) ss
  unfolding split_last
  split_last-Any [] before last e = absurd (cc)
  split_last-Any (s ∷ ss) before last e = elim (with_first-last s (split_last ss) before last e) [
    | inl same ↦ inl same
    | inr (rest, later) ↦ inr (split_last-Any ss rest last later)
  ]
