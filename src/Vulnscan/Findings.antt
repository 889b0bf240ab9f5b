-- ===== src/Vulnscan/Findings.antt =====
-- apps/api/internal/vulnscan/repository.go and types.go: the store of findings. Two maps hold pointers
-- to one finding: `heap` is the list of the allocated findings, and the maps hold addresses in it.
-- CVSS scores, which have one decimal, are counted in tenths.
pub mod Index
pub mod Upsert
pub mod Queries
pub mod Ranking
pub mod Answers
pub mod Complete
use Prim.Native.String.{◌++◌ as ◌+++◌}
use zero_agent_scan.Prelude.{
  ℕ, zero, suc, ◌+◌, ◌-◌, String, Bool, true, false, ◌&&◌, ◌||◌, not, Option, none, some, List, [],
  ◌∷◌, ◌++◌, if◌then◌else◌, ltb, leb, eqb, Map, lookup, insert, ◌==◌, length, get_elem?, set,
  values,
}
use zero_agent_scan.Prelude.Text.{trim, to_upper}
use zero_agent_scan.Prelude.Int.{ℤ}

pub record Finding : Type 0 where
  pub id : String
  pub tenant_id : String
  pub endpoint_id : String
  pub hostname : String
  pub cve_id : String
  pub title : String
  pub description : String
  pub severity : String
  pub cvss_score : ℕ
  pub cvss_version : String
  pub cvss_vector : String
  pub is_kev : Bool
  pub kev_due_date : Option ℤ
  pub kev_ransomware_use : String
  pub affected_component : String
  pub cpe_matched : String
  pub status : String
  pub remediation : String
  pub first_seen : ℤ
  pub last_seen : ℤ
  pub resolved_at : Option ℤ
  pub created_at : ℤ
  pub updated_at : ℤ

pub record FindingStore : Type 0 where
  pub heap : List Finding
  pub findings : Map ℕ
  pub by_id : Map ℕ

unfoldable pub canonical : String → String
unfolding trim to_upper
canonical cve = to_upper (trim cve)

abbrev pub dedup_key : String → String → String → String
dedup_key tenant_id endpoint_id cve = tenant_id +++ ":" +++ endpoint_id +++ ":" +++ cve

-- The key that a finding is looked for by, before it is stored.
abbrev pub key_of : Finding → String
key_of f = dedup_key f.tenant_id f.endpoint_id (canonical f.cve_id)

abbrev pub or_else : String → String → String
or_else default text = if text == "" then default else text

-- A finding as it is stored first; the ID is one that `uuid` draws, where it has none.
unfoldable pub created : ℤ → String → Finding → Finding
created now fresh f = record f {
  id = or_else fresh f.id;
  cve_id = canonical f.cve_id;
  first_seen = now;
  last_seen = now;
  created_at = now;
  updated_at = now;
  status = or_else "OPEN" f.status;
}

-- A finding that is seen again keeps its ID and the time when it was seen first.
unfoldable pub updated : ℤ → Finding → Finding → Finding
updated now f old = record old {
  last_seen = now;
  updated_at = now;
  status = "OPEN";
  resolved_at = none;
  severity = f.severity;
  cvss_score = f.cvss_score;
  cvss_version = f.cvss_version;
  cvss_vector = f.cvss_vector;
  is_kev = f.is_kev;
  kev_due_date = f.kev_due_date;
  kev_ransomware_use = f.kev_ransomware_use;
  remediation = f.remediation;
  affected_component = f.affected_component;
  cpe_matched = f.cpe_matched;
}

pub data UpsertError : Type 0 where
  nil_finding missing_tenant_id missing_endpoint_id missing_cve_id : UpsertError

pub data Upserted : Type 0 where
  upserted : Finding → Bool → Upserted
  failed : UpsertError → Upserted

unfoldable pub insert_finding : String → Finding → FindingStore → FindingStore
insert_finding key f st = record {
  heap = st.heap ++ f ∷ [];
  findings = insert key (length st.heap) st.findings;
  by_id = insert f.id (length st.heap) st.by_id;
}

-- What the maps lead to.
abbrev pub deref : List Finding → Option ℕ → Option Finding
deref heap none = none
deref heap (some a) = get_elem? heap a

-- The maps hold no address that is not allocated, so the first clause is never reached.
unfoldable pub upsert_at : ℤ → Finding → ℕ → Option Finding → FindingStore → FindingStore × Upserted
unfolding updated
upsert_at now f a none st = (st, failed nil_finding)
upsert_at now f a (some old) st =
    let f' = updated now f old in (record st { heap = set st.heap a f' }, upserted f' false)

unfoldable pub upsert_found :
    ℤ → String → Finding → Option ℕ → FindingStore → FindingStore × Upserted
unfolding created upsert_at insert_finding
upsert_found now fresh f none st =
    let f' = created now fresh f in (insert_finding (key_of f) f' st, upserted f' true)
upsert_found now fresh f (some a) st = upsert_at now f a (get_elem? st.heap a) st

abbrev pub missing : Finding → Option UpsertError
missing f =
    if f.tenant_id == ""
    then some missing_tenant_id
    else if f.endpoint_id == ""
    then some missing_endpoint_id
    else if f.cve_id == ""
    then some missing_cve_id
    else none

abbrev pub upsert_checked :
    ℤ → String → Finding → Option UpsertError → FindingStore → FindingStore × Upserted
upsert_checked now fresh f (some e) st = (st, failed e)
upsert_checked now fresh f none st = upsert_found now fresh f (lookup (key_of f) st.findings) st

unfoldable pub upsert_finding : ℤ → String → Option Finding → FindingStore → FindingStore × Upserted
unfolding upsert_found lookup
upsert_finding now fresh none st = (st, failed nil_finding)
upsert_finding now fresh (some f) st = upsert_checked now fresh f (missing f) st

abbrev of_tenant : String → Option Finding → Option Finding
of_tenant tenant_id none = none
of_tenant tenant_id (some f) = if f.tenant_id == tenant_id then some f else none

unfoldable pub get_finding_by_id : String → String → FindingStore → Option Finding
unfolding lookup
get_finding_by_id tenant_id id st = of_tenant tenant_id (deref st.heap (lookup id st.by_id))
