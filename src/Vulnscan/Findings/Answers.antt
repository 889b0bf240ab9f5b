-- ===== src/Vulnscan/Findings/Answers.antt =====
-- What a query returns is asked for, and in the order of the ranking (repository.go).
use zero_agent_scan.Prelude.{
  ℕ, zero, suc, ◌≤◌, String, ◌≡◌, refl, true, false, some, List, [], ◌∷◌, arith, length, All, take,
  drop, ◌==◌,
}
use zero_agent_scan.Prelude.Int.{ℤ, pos, negsuc}
use zero_agent_scan.Vulnscan.Findings.{Finding, FindingStore}
use zero_agent_scan.Vulnscan.Findings.Queries.{
  FindingQueryOptions, FindingListResponse, is_wanted, stored, selected, ranked, is_of,
  own_findings, page_limit, page_offset, response, query_findings,
}
use zero_agent_scan.Vulnscan.Findings.Ranking.{
  Ranked, Pairwise, ranked-Pairwise, ranked-All, selected-All, selected-kept,
}

take-All : (P : Finding → Type 0) (n : ℕ) (fs : List Finding) → All P fs → All P (take n fs)
take-All P zero fs h = tt
take-All P (suc n) [] h = tt
take-All P (suc n) (f ∷ fs) h = (h.0, take-All P n fs h.1)

drop-All : (P : Finding → Type 0) (n : ℕ) (fs : List Finding) → All P fs → All P (drop n fs)
drop-All P zero fs h = h
drop-All P (suc n) [] h = tt
drop-All P (suc n) (f ∷ fs) h = drop-All P n fs h.1

take-Pairwise : (n : ℕ) (fs : List Finding) → Pairwise fs → Pairwise (take n fs)
take-Pairwise zero fs h = tt
take-Pairwise (suc n) [] h = tt
take-Pairwise (suc n) (f ∷ fs) h = (take-All (Ranked f) n fs h.0, take-Pairwise n fs h.1)

drop-Pairwise : (n : ℕ) (fs : List Finding) → Pairwise fs → Pairwise (drop n fs)
drop-Pairwise zero fs h = h
drop-Pairwise (suc n) [] h = tt
drop-Pairwise (suc n) (f ∷ fs) h = drop-Pairwise n fs h.1

length-take_le : (n : ℕ) (fs : List Finding) → length (take n fs) ≤ n
length-take_le zero fs = omega arith
length-take_le (suc n) [] = omega arith
length-take_le (suc n) (f ∷ fs) = omega (arith, length-take_le n fs)

page_limit_le : (n : ℤ) → page_limit n ≤ 200
page_limit_le (pos zero) = omega arith
page_limit_le (pos (suc n)) = ground arith
page_limit_le (negsuc n) = omega arith

All-both :
    (P Q : Finding → Type 0) (fs : List Finding) → All P fs → All Q fs → All (λ f. P f × Q f) fs
All-both P Q [] h k = tt
All-both P Q (f ∷ fs) h k = ((h.0, k.0), All-both P Q fs h.1 k.1)

-- Is one of the findings of a tenant, and wanted.
abbrev pub Asked : String → FindingQueryOptions → Finding → Type 0
Asked tenant_id opts f = ((f.tenant_id == tenant_id) ≡ true) × (is_wanted opts f ≡ true)

abbrev pub all_ranked : String → FindingQueryOptions → FindingStore → List Finding
all_ranked tenant_id opts st = ranked (selected (is_wanted opts) (own_findings tenant_id st))

all_ranked-All :
    (tenant_id : String) (opts : FindingQueryOptions) (st : FindingStore)
    → All (Asked tenant_id opts) (all_ranked tenant_id opts st)
all_ranked-All tenant_id opts st =
    let own = own_findings tenant_id st in
    ranked-All (Asked tenant_id opts) (selected (is_wanted opts) own) (
      All-both (λ f. (f.tenant_id == tenant_id) ≡ true) (λ f. is_wanted opts f ≡ true)
        (selected (is_wanted opts) own)
        (selected-kept (λ f. (f.tenant_id == tenant_id) ≡ true) (is_wanted opts) own
          (selected-All (is_of tenant_id) (stored st.heap st.findings)))
        (selected-All (is_wanted opts) own))

-- A query that names a tenant is answered by a page of at most 200 findings, no more than its limit,
-- all of this tenant and all wanted by the options, none of which is ranked before one in front of it.
pub query_findings_ranked :
    (tenant_id : String) (opts : FindingQueryOptions) (st : FindingStore)
    → (tenant_id == "") ≡ false
    → (r : FindingListResponse) × (query_findings tenant_id opts st ≡ some r)
      × All (Asked tenant_id opts) r.items
      × Pairwise r.items
      × (length r.items ≤ r.limit)
      × (r.limit ≤ 200)
unfolding query_findings response
query_findings_ranked tenant_id opts st e =
    let own = own_findings tenant_id st in
    let fs = all_ranked tenant_id opts st in
    let rest = drop (page_offset opts.offset) fs in
    let n = page_limit opts.limit in
    (
      response opts own fs,
      rw e refl,
      take-All (Asked tenant_id opts) n rest (
          drop-All (Asked tenant_id opts) (page_offset opts.offset) fs
            (all_ranked-All tenant_id opts st)),
      take-Pairwise n rest (
          drop-Pairwise (page_offset opts.offset) fs
            (ranked-Pairwise (selected (is_wanted opts) own))),
      length-take_le n rest,
      page_limit_le opts.limit,
    )
