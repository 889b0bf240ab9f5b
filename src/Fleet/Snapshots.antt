-- ===== src/Fleet/Snapshots.antt =====
-- apps/api/internal/repository/repository.go: the host snapshots. The payload's type and its empty
-- value are parameters; the clock and the key that `uuid.New` draws are arguments.
pub mod Refinement
use zero_agent_scan.Prelude.{
  ℕ, ◌-◌, ◌*◌, ◌^◌, String, Bool, true, false, not, ◌&&◌, ◌||◌, Option, none, some, List, [], ◌∷◌,
  if◌then◌else◌, Map, lookup, insert, remove, values, ◌==◌,
}
use zero_agent_scan.Prelude.Text.{codes}
use zero_agent_scan.Prelude.Int.{ℤ, pos, negsuc, eqb_ℤ}
use zero_agent_scan.Fleet.Cursors.{Base64}
use zero_agent_scan.Fleet.Records.{HostSnapshotEntry, Repository, SecurityAuditLog, Detail, text}
use zero_agent_scan.Fleet.Paging.{Place, Page, PageRequest, list_keyset}

-- Go's zero time, the start of the year 1, from which 1970 is 62,135,596,800 seconds away.
abbrev pub zero_time : ℤ
zero_time = negsuc (62135596800 * 10 ^ 9 - 1)

-- The entries of a loop that are not skipped.
unfoldable pub kept : {A : Type 0} → (A → Bool) → List A → List A
kept p [] = []
kept p (x ∷ xs) = let rest = kept p xs in if p x then x ∷ rest else rest

module _ {P : Type 0} where
  abbrev filled : String → ℤ → HostSnapshotEntry P → HostSnapshotEntry P
  filled draw now entry = record entry {
    id = if entry.id == "" then draw else entry.id;
    created_at = if eqb_ℤ entry.created_at zero_time then now else entry.created_at;
  }

  unfoldable pub save_snapshot : String → ℤ → HostSnapshotEntry P → Repository P → Repository P
  unfolding insert
  save_snapshot draw now entry r =
      let entry' = filled draw now entry in
      record r { snapshots = insert entry'.id entry' r.snapshots }

  -- A tenant that is named sees its own only.
  abbrev pub visible : String → HostSnapshotEntry P → Bool
  visible tenant snap = tenant == "" || snap.tenant_id == tenant

  abbrev pub if_visible : String → Option (HostSnapshotEntry P) → Option (HostSnapshotEntry P)
  if_visible tenant none = none
  if_visible tenant (some snap) = if visible tenant snap then some snap else none

  unfoldable pub get_snapshot_by_id : String → String → Repository P → Option (HostSnapshotEntry P)
  unfolding lookup
  get_snapshot_by_id tenant id r = if_visible tenant (lookup id r.snapshots)

  -- `order` is the order in which the loop runs through the map, another one in each call.
  unfoldable pub list_all_snapshots_for_tenant :
      (List (HostSnapshotEntry P) → List (HostSnapshotEntry P))
      → String
      → Repository P
      → List (HostSnapshotEntry P)
  unfolding kept
  list_all_snapshots_for_tenant order tenant r = kept (visible tenant) (order (values r.snapshots))

  abbrev pub snapshot_place : HostSnapshotEntry P → Place
  snapshot_place snap = record { time = snap.created_at; id = codes snap.id }

  unfoldable pub list_snapshots_keyset :
      Base64 → String → String → PageRequest → Repository P → Page (HostSnapshotEntry P)
  unfolding kept list_keyset
  list_snapshots_keyset b64 tenant host req r = list_keyset snapshot_place b64 20 100 req (
      kept (λ snap. visible tenant snap && (host == "" || snap.host_id == host))
        (values r.snapshots))

  abbrev pub archived :
      P → String → String → String → ℤ → ℤ → HostSnapshotEntry P → HostSnapshotEntry P
  archived empty location checksum strategy at size snap = record snap {
    is_archived = true;
    archived_at = some at;
    archive_location = location;
    archive_checksum = checksum;
    archive_strategy = strategy;
    payload_size_bytes = size;
    payload = empty;
  }

  -- A method that looks a snapshot up and rewrites it; the test is whether it was there.
  unfoldable pub rewrite :
      (HostSnapshotEntry P → HostSnapshotEntry P)
      → String
      → Option (HostSnapshotEntry P)
      → Repository P
      → Repository P × Bool
  unfolding insert
  rewrite change id none r = (r, false)
  rewrite change id (some snap) r =
      (record r { snapshots = insert id (change snap) r.snapshots }, true)

  unfoldable pub archive_snapshot_payload :
      P → String → String → String → String → ℤ → ℤ → Repository P → Repository P × Bool
  unfolding lookup rewrite
  archive_snapshot_payload empty id location checksum strategy at size r =
      rewrite (archived empty location checksum strategy at size) id (lookup id r.snapshots) r

  abbrev pub retained : HostSnapshotEntry P → HostSnapshotEntry P
  retained snap = record snap { is_downsample_retained = true }

  unfoldable pub mark_snapshot_weekly_retained : String → Repository P → Repository P × Bool
  unfolding lookup rewrite
  mark_snapshot_weekly_retained id r = rewrite retained id (lookup id r.snapshots) r

  unfoldable pub prune_downsampled_snapshot : String → Repository P → Repository P
  unfolding remove
  prune_downsampled_snapshot id r = record r { snapshots = remove id r.snapshots }
