-- ===== src/Vulnscan/Findings/Queries.antt =====
-- apps/api/internal/vulnscan/repository.go: the query of a tenant's findings, filtered, ranked and cut
-- to a page.
use zero_agent_scan.Prelude.{
  ℕ, zero, suc, ◌+◌, String, Bool, true, false, ◌&&◌, ◌||◌, not, Option, none, some, List, [], ◌∷◌,
  if◌then◌else◌, ltb, eqb, Map, ◌==◌, length, get_elem?, tally, take, drop,
}
use zero_agent_scan.Prelude.Text.{trim, to_upper, lower_codes, equal_fold, occurs}
use zero_agent_scan.Prelude.Int.{ℤ, pos, negsuc, ltb_ℤ}
use zero_agent_scan.Vulnscan.Findings.{Finding, FindingStore}

pub record FindingQueryOptions : Type 0 where
  pub severity : String
  pub status : String
  pub is_kev : Option Bool
  pub endpoint_id : String
  pub search : String
  pub limit : ℤ
  pub offset : ℤ

pub record FindingListResponse : Type 0 where
  pub total_count : ℕ
  pub open_count : ℕ
  pub kev_count : ℕ
  pub critical_count : ℕ
  pub high_count : ℕ
  pub medium_count : ℕ
  pub low_count : ℕ
  pub limit : ℕ
  pub offset : ℕ
  pub items : List Finding

abbrev has_status : String → Finding → Bool
has_status wanted f = wanted == "" || wanted == "ALL" || to_upper f.status == wanted

abbrev has_severity : String → Finding → Bool
has_severity wanted f = wanted == "" || equal_fold wanted "ALL" || equal_fold f.severity wanted

abbrev pub same_flag : Bool → Bool → Bool
same_flag true b = b
same_flag false b = not b

abbrev has_kev : Option Bool → Finding → Bool
has_kev none f = true
has_kev (some b) f = same_flag b f.is_kev

abbrev has_endpoint : String → Finding → Bool
has_endpoint wanted f = wanted == "" || f.endpoint_id == wanted

abbrev has_text : List ℕ → Finding → Bool
has_text s f =
    occurs s (lower_codes f.cve_id)
    || occurs s (lower_codes f.title)
    || occurs s (lower_codes f.hostname)
    || occurs s (lower_codes f.affected_component)

unfoldable pub is_wanted : FindingQueryOptions → Finding → Bool
unfolding trim to_upper lower_codes equal_fold
is_wanted opts f =
    has_status (to_upper (trim opts.status)) f
    && has_severity opts.severity f
    && has_kev opts.is_kev f
    && has_endpoint opts.endpoint_id f
    && (opts.search == "" || has_text (lower_codes (trim opts.search)) f)

abbrev pub with_found : Option Finding → List Finding → List Finding
with_found none fs = fs
with_found (some f) fs = f ∷ fs

-- The findings that the map leads to, in the order of the iteration.
unfoldable pub stored : List Finding → Map ℕ → List Finding
stored heap [] = []
stored heap ((key, a) ∷ rest) = with_found (get_elem? heap a) (stored heap rest)

unfoldable pub selected : (Finding → Bool) → List Finding → List Finding
selected test [] = []
selected test (f ∷ fs) = let rest = selected test fs in if test f then f ∷ rest else rest

abbrev pub is_of : String → Finding → Bool
is_of tenant_id f = f.tenant_id == tenant_id

-- A finding in the catalog of exploited vulnerabilities comes first, then the higher score, then the
-- later sighting.
unfoldable pub comes_before : Finding → Finding → Bool
comes_before f g =
    if same_flag f.is_kev g.is_kev
    then (if eqb f.cvss_score g.cvss_score
        then ltb_ℤ g.last_seen f.last_seen
        else ltb g.cvss_score f.cvss_score)
    else f.is_kev && not g.is_kev

unfoldable pub insert_ranked : Finding → List Finding → List Finding
unfolding comes_before
insert_ranked f [] = f ∷ []
insert_ranked f (g ∷ gs) =
    let rest = g ∷ insert_ranked f gs in if comes_before g f then rest else f ∷ g ∷ gs

unfoldable pub ranked : List Finding → List Finding
unfolding insert_ranked
ranked [] = []
ranked (f ∷ fs) = insert_ranked f (ranked fs)

abbrev pub page_limit : ℤ → ℕ
page_limit (pos zero) = 50
page_limit (pos (suc n)) = if ltb 200 (suc n) then 200 else suc n
page_limit (negsuc n) = 50

abbrev pub page_offset : ℤ → ℕ
page_offset (pos n) = n
page_offset (negsuc n) = 0

abbrev is_open : Finding → Bool
is_open f = f.status == "OPEN"

unfoldable pub count_of : (Finding → Bool) → List Finding → ℕ
count_of test [] = 0
count_of test (f ∷ fs) = tally (test f) + count_of test fs

abbrev is_rated : String → Finding → Bool
is_rated level f = is_open f && to_upper f.severity == level

-- The counts are over all open findings of the tenant, the total is of those that are wanted.
unfoldable pub response : FindingQueryOptions → List Finding → List Finding → FindingListResponse
unfolding count_of to_upper
response opts own wanted = record {
  total_count = length wanted;
  open_count = count_of is_open own;
  kev_count = count_of (λ f. is_open f && f.is_kev) own;
  critical_count = count_of (is_rated "CRITICAL") own;
  high_count = count_of (is_rated "HIGH") own;
  medium_count = count_of (is_rated "MEDIUM") own;
  low_count = count_of (is_rated "LOW") own;
  limit = page_limit opts.limit;
  offset = page_offset opts.offset;
  items = take (page_limit opts.limit) (drop (page_offset opts.offset) wanted);
}

abbrev pub own_findings : String → FindingStore → List Finding
own_findings tenant_id st = selected (is_of tenant_id) (stored st.heap st.findings)

unfoldable pub query_findings :
    String → FindingQueryOptions → FindingStore → Option FindingListResponse
unfolding response ranked selected is_wanted stored
query_findings tenant_id opts st =
    let own = own_findings tenant_id st in
    if tenant_id == ""
    then none
    else some (response opts own (ranked (selected (is_wanted opts) own)))
