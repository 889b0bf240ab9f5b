-- ===== src/Fleet/Snapshots/Refinement.antt =====
-- The snapshots of the repository as a function from IDs: what a client sees over any calls.
use zero_agent_scan.Prelude.{
  arith, ◌≡◌, String, Bool, true, false, Option, none, some, List, [], ◌∷◌, if◌then◌else◌, lookup,
  lookup-insert, lookup-remove, ◌==◌, refl, ap, sym, ◌∙◌, Option-cases, Bool-cases, eq_iff, inl,
  inr,
}
use mathlib.Core.Option
use zero_agent_scan.Prelude.Int.{eqb_ℤ, ℤ}
use zero_agent_scan.Fleet.Records.{HostSnapshotEntry, Repository}
use zero_agent_scan.Fleet.Snapshots.{
  zero_time, save_snapshot, get_snapshot_by_id, if_visible, rewrite, archive_snapshot_payload,
  archived, retained, mark_snapshot_weekly_retained, prune_downsampled_snapshot, filled,
}

pub data SnapshotCall (P : Type 0) : Type 0 where
  save : String → ℤ → HostSnapshotEntry P → SnapshotCall P
  get : String → String → SnapshotCall P
  archive : String → String → String → String → ℤ → ℤ → SnapshotCall P
  mark : String → SnapshotCall P
  prune : String → SnapshotCall P

-- What a call returns.
pub data Answer (P : Type 0) : Type 0 where
  done : Answer P
  known : Bool → Answer P
  found : Option (HostSnapshotEntry P) → Answer P

module _ {P : Type 0} (empty : P) where
  unfoldable pub snapshot_call : SnapshotCall P → Repository P → Repository P × Answer P
  snapshot_call (save draw now entry) r = (save_snapshot draw now entry r, done)
  snapshot_call (get tenant id) r = (r, found (get_snapshot_by_id tenant id r))
  snapshot_call (archive id location checksum strategy at size) r =
      let (r', ok) = archive_snapshot_payload empty id location checksum strategy at size r in
      (r', known ok)
  snapshot_call (mark id) r = let (r', ok) = mark_snapshot_weekly_retained id r in (r', known ok)
  snapshot_call (prune id) r = (prune_downsampled_snapshot id r, done)

  unfoldable pub answers : List (SnapshotCall P) → Repository P → List (Answer P)
  answers [] r = []
  answers (op ∷ ops) r = let (r', a) = snapshot_call op r in a ∷ answers ops r'

  -- The specification: a function from IDs. What is saved, shown and rewritten is written out here.
  abbrev pub Spec : Type 0
  Spec = String → Option (HostSnapshotEntry P)

  abbrev update : String → Option (HostSnapshotEntry P) → Spec → Spec
  update id new f = λ other. if id == other then new else f other

  abbrev is_known : Option (HostSnapshotEntry P) → Bool
  is_known none = false
  is_known (some snap) = true

  abbrev spec_rewrite :
      (HostSnapshotEntry P → HostSnapshotEntry P) → String → Spec → Spec × Answer P
  spec_rewrite change id f = (update id (Option.map change (f id)) f, known (is_known (f id)))

  -- A snapshot to save: an ID where it has none, and the time where it has none.
  abbrev spec_saved : String → ℤ → HostSnapshotEntry P → HostSnapshotEntry P
  spec_saved draw now entry = record entry {
    id = if entry.id == "" then draw else entry.id;
    created_at = if eqb_ℤ entry.created_at zero_time then now else entry.created_at;
  }

  -- What a tenant is shown: all where no tenant is named, else its own only.
  abbrev spec_shown : String → Option (HostSnapshotEntry P) → Option (HostSnapshotEntry P)
  spec_shown tenant none = none
  spec_shown tenant (some snap) =
      if tenant == "" then some snap else if snap.tenant_id == tenant then some snap else none

  abbrev spec_call : SnapshotCall P → Spec → Spec × Answer P
  spec_call (save draw now entry) f =
      let entry' = spec_saved draw now entry in (update entry'.id (some entry') f, done)
  spec_call (get tenant id) f = (f, found (spec_shown tenant (f id)))
  spec_call (archive id location checksum strategy at size) f =
      spec_rewrite
        (λ snap. record snap {
          is_archived = true;
          archived_at = some at;
          archive_location = location;
          archive_checksum = checksum;
          archive_strategy = strategy;
          payload_size_bytes = size;
          payload = empty;
        })
        id f
  spec_call (mark id) f = spec_rewrite (λ snap. record snap { is_downsample_retained = true }) id f
  spec_call (prune id) f = (update id none f, done)

  abbrev pub spec_answers : List (SnapshotCall P) → Spec → List (Answer P)
  spec_answers [] f = []
  spec_answers (op ∷ ops) f = (spec_call op f).1 ∷ spec_answers ops (spec_call op f).0

  abbrev pub Agrees : Repository P → Spec → Type 0
  Agrees r f = (id : String) → lookup id r.snapshots ≡ f id

  abbrev StepAgrees : Repository P × Answer P → Spec × Answer P → Type 0
  StepAgrees s t = Agrees s.0 t.0 × (s.1 ≡ t.1)

  rewrite-Agrees :
      (change : HostSnapshotEntry P → HostSnapshotEntry P) (id : String) (r : Repository P)
      (f : Spec)
      → Agrees r f
      → let (r', ok) = rewrite change id (lookup id r.snapshots) r in
        StepAgrees (r', known ok) (spec_rewrite change id f)
  unfolding rewrite
  rewrite-Agrees change id r f a = elim (Option-cases (lookup id r.snapshots)) [
    | inl e ↦
        let absent : f id ≡ none = sym (a id) ∙ e in
        rw (e, absent)
          (
            λ other. elim (Bool-cases (id == other)) [
              | inl same ↦
                  let at : id ≡ other = (eq_iff id other).0 same in
                  rw same (ap (λ k. lookup k r.snapshots) (sym at) ∙ e)
              | inr differ ↦ rw differ (a other)
            ],
            refl,
          )
    | inr (snap, e) ↦
        let present : f id ≡ some snap = sym (a id) ∙ e in
        rw (e, present)
          (
            λ other.
                lookup-insert id other (change snap) r.snapshots
                ∙ ap (λ o. if id == other then some (change snap) else o) (a other),
            refl,
          )
  ]

  shown-eq :
      (tenant : String) (o : Option (HostSnapshotEntry P))
      → if_visible tenant o ≡ spec_shown tenant o
  shown-eq tenant none = refl
  shown-eq tenant (some snap) = ground arith

  snapshot_call-Agrees :
      (op : SnapshotCall P) (r : Repository P) (f : Spec)
      → Agrees r f
      → StepAgrees (snapshot_call op r) (spec_call op f)
  unfolding snapshot_call save_snapshot get_snapshot_by_id archive_snapshot_payload
      mark_snapshot_weekly_retained prune_downsampled_snapshot
  snapshot_call-Agrees (save draw now entry) r f a =
      let entry' = filled draw now entry in
      (
        λ other.
            lookup-insert entry'.id other entry' r.snapshots
            ∙ ap (λ o. if entry'.id == other then some entry' else o) (a other),
        refl,
      )
  snapshot_call-Agrees (get tenant id) r f a = (
    a,
    ap found (shown-eq tenant (lookup id r.snapshots))
        ∙ ap (λ o. found (spec_shown tenant o)) (a id),
  )
  snapshot_call-Agrees (archive id location checksum strategy at size) r f a =
      rewrite-Agrees (archived empty location checksum strategy at size) id r f a
  snapshot_call-Agrees (mark id) r f a = rewrite-Agrees retained id r f a
  snapshot_call-Agrees (prune id) r f a = (
    λ other.
        lookup-remove id other r.snapshots ∙ ap (λ o. if id == other then none else o) (a other),
    refl,
  )

  -- Whatever is saved, read, archived, marked and pruned, each call returns what the same calls
  -- return on a function from IDs that starts as the repository's contents.
  pub answers_refine :
      (ops : List (SnapshotCall P)) (r : Repository P) (f : Spec)
      → Agrees r f
      → answers ops r ≡ spec_answers ops f
  unfolding answers
  answers_refine [] r f a = refl
  answers_refine (op ∷ ops) r f a =
      let step = snapshot_call-Agrees op r f a in
      let rest = answers_refine ops (snapshot_call op r).0 (spec_call op f).0 step.0 in
      ap (λ x. x ∷ answers ops (snapshot_call op r).0) step.1
      ∙ ap (λ l. (spec_call op f).1 ∷ l) rest

  -- A repository answers any sequence of saves, reads, archivings, markings and prunings of its
  -- snapshots as the specification does on the function that looks an ID up in it.
  pub answers_lem :
      (ops : List (SnapshotCall P)) (r : Repository P)
      → answers ops r ≡ spec_answers ops (λ id. lookup id r.snapshots)
  answers_lem ops r = answers_refine ops r (λ id. lookup id r.snapshots) (λ id. refl)
