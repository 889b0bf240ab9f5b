-- ===== src/Vulnscan/Engine.antt =====
-- apps/api/internal/vulnscan/engine.go: a scan matches the CPEs of a host against the cached CVEs and
-- upserts a finding for each CVE that matches. Later upserts do not show in the findings returned.
use Prim.Native.String.{◌++◌ as ◌+++◌}
use zero_agent_scan.Prelude.{
  ℕ, String, Bool, true, false, ◌||◌, Option, none, some, List, [], ◌∷◌, ◌++◌, if◌then◌else◌, ◌==◌,
  length,
}
use zero_agent_scan.Prelude.Text.{to_upper}
use zero_agent_scan.Prelude.Int.{ℤ}
use zero_agent_scan.Vulnscan.Ranges.{Cpe23, NvdCpeMatch, matches_cpe}
use zero_agent_scan.Vulnscan.Cpes.{show_cpe, Inventory, extract_host_cpes}
use zero_agent_scan.Vulnscan.Findings.{
  Finding, FindingStore, UpsertError, Upserted, upserted, failed, upsert_finding, or_else,
}
use zero_agent_scan.Vulnscan.Feeds.{CachedCve, CisaKevItem, Feeds, get_cached_cves, get_kev_item}

-- The first criteria that match; empty where none does.
unfoldable pub matched_criteria : Cpe23 → List NvdCpeMatch → String
unfolding matches_cpe show_cpe
matched_criteria host [] = ""
matched_criteria host (c ∷ cs) =
    let rest = matched_criteria host cs in
    if matches_cpe host c then (if c.criteria == "" then show_cpe host else c.criteria) else rest

pub record Scan : Type 0 where
  pub store : FindingStore
  pub seen : List String
  pub detected : List Finding
  pub error : Option UpsertError

abbrev pub has_seen : String → List String → Bool
has_seen id [] = false
has_seen id (x ∷ xs) = x == id || has_seen id xs

-- The call of a scan. The time of an upsert and the ID that it draws are those of its number;
-- `parse_due` is `time.Parse` with the layout of a date.
pub record ScanCall : Type 0 where
  pub tenant_id : String
  pub endpoint_id : String
  pub hostname : String
  pub clock : ℕ → ℤ
  pub fresh : ℕ → String
  pub parse_due : String → Option ℤ

abbrev due_of : ScanCall → CisaKevItem → Option ℤ
due_of call item = if item.due_date == "" then none else call.parse_due item.due_date

abbrev pub with_kev : ScanCall → Option CisaKevItem → Finding → Finding
with_kev call none f = f
with_kev call (some item) f = record f {
  is_kev = true;
  severity = "CRITICAL";
  kev_ransomware_use = item.known_ransomware_campaign_use;
  kev_due_date = due_of call item;
  remediation = "CRITICAL CISA KEV ACTION REQUIRED: " +++ f.remediation;
}

-- The zero time of Go stands for the times that the store sets.
unfoldable pub finding_of : ScanCall → Cpe23 → CachedCve → String → ℤ → Option CisaKevItem → Finding
finding_of call host cve criteria zero_time item = with_kev call item (record {
  id = "";
  tenant_id = call.tenant_id;
  endpoint_id = call.endpoint_id;
  hostname = call.hostname;
  cve_id = to_upper cve.cve_id;
  title = cve.title;
  description = cve.description;
  severity = cve.severity;
  cvss_score = cve.cvss_score;
  cvss_version = cve.cvss_version;
  cvss_vector = cve.cvss_vector;
  is_kev = false;
  kev_due_date = none;
  kev_ransomware_use = "";
  affected_component = host.raw_app;
  cpe_matched = criteria;
  status = "OPEN";
  remediation =
      "Upgrade " +++ host.raw_app
      +++ " to the latest patched version or install vendor security update.";
  first_seen = zero_time;
  last_seen = zero_time;
  resolved_at = none;
  created_at = zero_time;
  updated_at = zero_time;
})

abbrev pub record_result : String → FindingStore × Upserted → Scan → Scan
record_result id (st, upserted f b) scan = record scan {
  store = st;
  seen = id ∷ scan.seen;
  detected = scan.detected ++ f ∷ [];
}
record_result id (st, failed e) scan = record scan {
  store = st;
  seen = id ∷ scan.seen;
  error = some e;
}

-- A matched CVE is not tried again for another CPE of the host.
unfoldable pub scan_cve : ScanCall → ℤ → Feeds → Cpe23 → CachedCve → Scan → Scan
unfolding matched_criteria finding_of to_upper get_kev_item upsert_finding
scan_cve call zero_time feeds host cve scan =
    let id = to_upper cve.cve_id in
    let criteria = matched_criteria host cve.cpe_matches in
    let f = finding_of call host cve criteria zero_time (get_kev_item id feeds) in
    let n = length scan.detected in
    if cve.cve_id == "" || has_seen id scan.seen || criteria == ""
    then scan
    else record_result id (upsert_finding (call.clock n) (call.fresh n) (some f) scan.store) scan

-- After an error nothing more is done.
unfoldable pub step : ScanCall → ℤ → Feeds → Cpe23 → CachedCve → Option UpsertError → Scan → Scan
unfolding scan_cve
step call zero_time feeds host cve none scan = scan_cve call zero_time feeds host cve scan
step call zero_time feeds host cve (some e) scan = scan

unfoldable pub scan_cves : ScanCall → ℤ → Feeds → Cpe23 → List CachedCve → Scan → Scan
unfolding step
scan_cves call zero_time feeds host [] scan = scan
scan_cves call zero_time feeds host (cve ∷ cves) scan =
    scan_cves call zero_time feeds host cves (step call zero_time feeds host cve scan.error scan)

unfoldable pub scan_hosts : ScanCall → ℤ → Feeds → List Cpe23 → Scan → Scan
unfolding scan_cves get_cached_cves
scan_hosts call zero_time feeds [] scan = scan
scan_hosts call zero_time feeds (host ∷ hosts) scan =
    scan_hosts call zero_time feeds hosts
      (scan_cves call zero_time feeds host (get_cached_cves feeds) scan)

-- The state before the loops.
abbrev pub begin : FindingStore → Scan
begin st = record { store = st; seen = []; detected = []; error = none }

pub data ScanError : Type 0 where
  nil_snapshot scan_without_tenant scan_without_endpoint : ScanError
  failed_upsert : UpsertError → ScanError

pub data ScanResult : Type 0 where
  found : List Finding → ScanResult
  not_scanned : ScanError → ScanResult

abbrev pub result_of_scan : Option UpsertError → List Finding → ScanResult
result_of_scan none findings = found findings
result_of_scan (some e) findings = not_scanned (failed_upsert e)

abbrev pub concluded : Scan → FindingStore × ScanResult
concluded scan = (scan.store, result_of_scan scan.error scan.detected)

-- The name of the host is that of the snapshot, where the caller gives none.
abbrev pub named_call : ScanCall → Inventory → ScanCall
named_call call host = record call { hostname = or_else host.hostname call.hostname }

unfoldable pub scan_snapshot :
    ScanCall → ℤ → Feeds → Option Inventory → FindingStore → FindingStore × ScanResult
unfolding scan_hosts extract_host_cpes
scan_snapshot call zero_time feeds none st = (st, not_scanned nil_snapshot)
scan_snapshot call zero_time feeds (some host) st =
    let cpes = extract_host_cpes (some host) in
    let scan = scan_hosts (named_call call host) zero_time feeds cpes (begin st) in
    if call.tenant_id == ""
    then (st, not_scanned scan_without_tenant)
    else if call.endpoint_id == ""
    then (st, not_scanned scan_without_endpoint)
    else concluded scan
