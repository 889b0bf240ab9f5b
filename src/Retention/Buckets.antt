-- ===== src/Retention/Buckets.antt =====
-- apps/api/internal/retention/engine.go: which snapshots a run is about, and the buckets of a host's
-- week that downsampling works on. `ISOWeek` is a parameter.
use zero_agent_scan.Prelude.{
  ℕ, zero, suc, ◌*◌, ◌^◌, String, Bool, not, ◌&&◌, ◌||◌, Option, none, some, List, [], ◌∷◌, ◌++◌,
  eqb, if◌then◌else◌, ◌==◌, length,
}
use zero_agent_scan.Prelude.Text.{codes, lower_codes, equal_codes, trim_codes}
use zero_agent_scan.Prelude.Int.{ℤ, pos, negsuc, ◌-ℤ◌, ltb_ℤ}
use zero_agent_scan.Fleet.Records.{HostSnapshotEntry}

pub data Strategy : Type 0 where
  archive downsample : Strategy

-- `strings.ToLower(strings.TrimSpace(s))`, where the empty text stands for the default.
unfoldable pub strategy_of : String → Option Strategy
unfolding lower_codes trim_codes
strategy_of s =
    let t = trim_codes (lower_codes s) in
    if equal_codes t [] || equal_codes t (codes "archive")
    then some archive
    else if equal_codes t (codes "downsample")
    then some downsample
    else none

-- 90 where no positive number of days is asked for.
unfoldable pub days_or_default : ℤ → ℕ
days_or_default (pos zero) = 90
days_or_default (pos (suc n)) = suc n
days_or_default (negsuc n) = 90

-- `time.Now().UTC().AddDate(0, 0, -days)`
unfoldable pub cutoff_date : ℤ → ℕ → ℤ
unfolding ◌-ℤ◌
cutoff_date now days = now -ℤ pos (days * (24 * 3600 * 10 ^ 9))

abbrev or_size : ℤ → ℕ → ℕ
or_size (pos zero) n = n
or_size (pos (suc m)) n = suc m
or_size (negsuc m) n = n

abbrev length_or : Option (List ℕ) → ℕ
length_or none = 0
length_or (some bytes) = length bytes

module _ {P : Type 0} where
  unfoldable pub is_eligible : ℤ → HostSnapshotEntry P → Bool
  is_eligible cutoff snap = ltb_ℤ snap.created_at cutoff && not snap.is_archived

  -- The recorded size if it is positive, else that of the payload as JSON.
  unfoldable pub size_of : (P → Option (List ℕ)) → HostSnapshotEntry P → ℕ
  size_of marshal snap = or_size snap.payload_size_bytes (length_or (marshal snap.payload))

pub record Bucket (P : Type 0) : Type 0 where
  pub host : String
  pub week : ℕ × ℕ
  pub snaps : List (HostSnapshotEntry P)

module _ {P : Type 0} (iso_week : ℤ → ℕ × ℕ) where
  -- Has a bucket the key of a snapshot?
  abbrev pub is_key : Bucket P → HostSnapshotEntry P → Bool
  is_key b snap =
      b.host == snap.host_id
      && (eqb b.week.0 (iso_week snap.created_at).0 && eqb b.week.1 (iso_week snap.created_at).1)

  -- `hostWeeks[key] = append(hostWeeks[key], snap)`
  unfoldable pub add_to_bucket : HostSnapshotEntry P → List (Bucket P) → List (Bucket P)
  add_to_bucket snap [] =
      record { host = snap.host_id; week = iso_week snap.created_at; snaps = snap ∷ [] } ∷ []
  add_to_bucket snap (b ∷ bs) =
      if is_key b snap
      then record b { snaps = b.snaps ++ snap ∷ [] } ∷ bs
      else b ∷ add_to_bucket snap bs

  unfoldable pub bucket_loop : ℤ → List (HostSnapshotEntry P) → List (Bucket P) → List (Bucket P)
  unfolding add_to_bucket is_eligible
  bucket_loop cutoff [] bs = bs
  bucket_loop cutoff (snap ∷ snaps) bs =
      bucket_loop cutoff snaps (if is_eligible cutoff snap then add_to_bucket snap bs else bs)

module _ {P : Type 0} where
  abbrev pub with_first :
      HostSnapshotEntry P
      → Option (List (HostSnapshotEntry P) × HostSnapshotEntry P)
      → Option (List (HostSnapshotEntry P) × HostSnapshotEntry P)
  with_first snap none = some ([], snap)
  with_first snap (some (before, last)) = some (snap ∷ before, last)

  -- The snapshots up to `checkpointIdx`, and the one at it.
  unfoldable pub split_last :
      List (HostSnapshotEntry P) → Option (List (HostSnapshotEntry P) × HostSnapshotEntry P)
  split_last [] = none
  split_last (snap ∷ snaps) = with_first snap (split_last snaps)
