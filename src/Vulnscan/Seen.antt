-- ===== src/Vulnscan/Seen.antt =====
-- A scan misses no cached CVE that matches (engine.go).
use zero_agent_scan.Prelude.{ℕ, Bool, String, ◌≡◌, true, false, none, some, ◌==◌}
use zero_agent_scan.Prelude.Text.{to_upper}
use zero_agent_scan.Vulnscan.Ranges.{Cpe23}
use zero_agent_scan.Vulnscan.Findings.{Finding, FindingStore, upserted, upsert_finding}
use zero_agent_scan.Vulnscan.Feeds.{CachedCve, Feeds}
use zero_agent_scan.Vulnscan.Engine.{ScanCall, Scan, matched_criteria, has_seen}
use zero_agent_scan.Vulnscan.Paired.{Paired}

-- What a part of a scan does: an error stays, and a CVE that was seen stays seen.
pub record Grows (s s' : Scan) : Type 0 where
  pub no_error : s'.error ≡ none → s.error ≡ none
  pub keeps : (id : String) → has_seen id s.seen ≡ true → has_seen id s'.seen ≡ true

-- A CVE is to be found for a host: it has an ID, and one of its criteria matches.
abbrev pub IsDue : Cpe23 → CachedCve → Type 0
IsDue host cve =
    ((cve.cve_id == "") ≡ false) × ((matched_criteria host cve.cpe_matches == "") ≡ false)

-- What the upsert of a finding of the CVE `id` for the tenant and the endpoint of a scan returned.
abbrev pub Reported : ScanCall → String → Finding → Type 0
Reported call id f =
    (g : Finding) × (g.cve_id ≡ id)
    × (g.tenant_id ≡ call.tenant_id)
    × (g.endpoint_id ≡ call.endpoint_id)
    × (n : ℕ) × (st : FindingStore) × (b : Bool) × ((upsert_finding (call.clock n) (call.fresh n)
          (some g) st).1
        ≡ upserted f b)

abbrev pub IsSeen : Scan → CachedCve → Type 0
IsSeen s cve = has_seen (to_upper cve.cve_id) s.seen ≡ true
