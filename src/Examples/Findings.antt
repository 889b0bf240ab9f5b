-- ===== src/Examples/Findings.antt =====
-- Findings of two tenants (repository.go of apps/api/internal/vulnscan).
use zero_agent_scan.Prelude.{
  ◌≡◌, refl, true, false, some, none, [], ◌∷◌, lookup, insert, arith, Any,
}
use zero_agent_scan.Prelude.Int.{pos}
use zero_agent_scan.Prelude.Text.{trim, to_upper, lower_codes, equal_fold}
use zero_agent_scan.Vulnscan.Findings.{
  Finding, FindingStore, upserted, canonical, created, updated, upsert_finding, upsert_found,
  upsert_at, insert_finding,
}
use zero_agent_scan.Vulnscan.Findings.Index.{IsIndexed, view, Upserts}
use zero_agent_scan.Vulnscan.Findings.Upsert.{upsert_finding_lem}
use zero_agent_scan.Vulnscan.Findings.Queries.{
  FindingQueryOptions, FindingListResponse, query_findings, response, is_wanted, stored, selected,
  comes_before, insert_ranked, ranked, count_of,
}
use zero_agent_scan.Vulnscan.Findings.Complete.{Is, query_findings_complete}

abbrev seen : Finding
seen = record {
  id = "";
  tenant_id = "t";
  endpoint_id = "e";
  hostname = "host";
  cve_id = " cve-2024-1 ";
  title = "A flaw";
  description = "";
  severity = "High";
  cvss_score = 75;
  cvss_version = "3.1";
  cvss_vector = "";
  is_kev = false;
  kev_due_date = none;
  kev_ransomware_use = "";
  affected_component = "lib";
  cpe_matched = "";
  status = "";
  remediation = "";
  first_seen = pos 0;
  last_seen = pos 0;
  resolved_at = none;
  created_at = pos 0;
  updated_at = pos 0;
}

abbrev pub nothing : FindingStore
nothing = record { heap = []; findings = []; by_id = [] }

nothing-IsIndexed : IsIndexed nothing
unfolding lookup
nothing-IsIndexed = record {
  keyed = λ key a e. absurd (ground arith);
  named = λ id a e. absurd (ground arith);
}

abbrev first : Finding
first = record seen {
  id = "f1";
  cve_id = "CVE-2024-1";
  status = "OPEN";
  first_seen = pos 1;
  last_seen = pos 1;
  created_at = pos 1;
  updated_at = pos 1;
}

abbrev one : FindingStore
one = record { heap = first ∷ []; findings = ("t:e:CVE-2024-1", 0) ∷ []; by_id = ("f1", 0) ∷ [] }

first_upsert : upsert_finding (pos 1) "f1" (some seen) nothing ≡ (one, upserted first true)
unfolding upsert_finding upsert_found insert_finding created canonical trim to_upper lookup insert
first_upsert = refl

upsert_finding_example :
    Upserts (pos 1) "f1" seen nothing (upsert_finding (pos 1) "f1" (some seen) nothing)
unfolding lookup
upsert_finding_example =
    upsert_finding_lem (pos 1) "f1" seen nothing nothing-IsIndexed (λ e. refl) refl

-- A tenant whose key reads the same updates the finding of another.
abbrev colon : Finding
colon = record seen { tenant_id = "a:b"; endpoint_id = "c" }

foreign_upsert :
    (upsert_finding
      (pos 2)
      "f2"
      (some (record seen { tenant_id = "a"; endpoint_id = "b:c"; severity = "LOW" }))
      (upsert_finding (pos 1) "f1" (some colon) nothing).0).1
    ≡ upserted
        (record first {
          tenant_id = "a:b";
          endpoint_id = "c";
          severity = "LOW";
          last_seen = pos 2;
          updated_at = pos 2;
        })
        false
unfolding upsert_finding upsert_found upsert_at updated insert_finding created canonical trim
    to_upper lookup insert
foreign_upsert = refl

abbrev options : FindingQueryOptions
options = record {
  severity = "high";
  status = "";
  is_kev = none;
  endpoint_id = "";
  search = "FLAW";
  limit = pos 0;
  offset = pos 0;
}

abbrev answer : FindingListResponse
answer = record {
  total_count = 1;
  open_count = 1;
  kev_count = 0;
  critical_count = 0;
  high_count = 1;
  medium_count = 0;
  low_count = 0;
  limit = 50;
  offset = 0;
  items = first ∷ [];
}

answered : query_findings "t" options one ≡ some answer
unfolding query_findings response is_wanted stored selected comes_before insert_ranked ranked
    count_of trim to_upper lower_codes equal_fold
answered = refl

query_findings_complete_example : Any (Is first) (first ∷ [])
unfolding is_wanted view lookup trim to_upper lower_codes equal_fold
query_findings_complete_example =
    query_findings_complete "t" options one answer "t:e:CVE-2024-1" first answered refl
      (omega arith) refl (refl, refl)
