-- ===== src/Vulnscan/Ranges.antt =====
-- apps/api/internal/vulnscan/matcher.go and types.go: CPE 2.3 names and the version bounds.
use mathlib.Core.Path.{subst}
use zero_agent_scan.Prelude.{
  ℕ, String, ◌≡◌, refl, sym, ◌∙◌, Bool, true, false, not, ◌&&◌, ◌||◌, Option, none, some, List,
  arith, ◌==◌, ltb, length, get_elem?, if◌then◌else◌, Bool-cases, inl, inr,
}
use zero_agent_scan.Prelude.Text.{split, equal_fold, lower_codes, codes, occurs}
use zero_agent_scan.Vulnscan.Versions.{Comparison, less, same, more, compare_versions}

pub record Cpe23 : Type 0 where
  pub part : String
  pub vendor : String
  pub product : String
  pub version : String
  pub update : String
  pub edition : String
  pub language : String
  pub sw_edition : String
  pub target_sw : String
  pub target_hw : String
  pub other : String
  pub raw_app : String
  pub app_version : String

pub record NvdCpeMatch : Type 0 where
  pub vulnerable : Bool
  pub criteria : String
  pub match_criteria_id : String
  pub version_start_including : String
  pub version_start_excluding : String
  pub version_end_including : String
  pub version_end_excluding : String

abbrev part_at : List String → ℕ → String
part_at parts n = elim (get_elem? parts n) [ none ↦ "" | some s ↦ s ]

-- `none` is the syntax error.
unfoldable pub parse_cpe23_string : String → Option Cpe23
unfolding split
parse_cpe23_string cpe_str =
    let parts = split b':' cpe_str in
    if ltb (length parts) 5 || not (part_at parts 0 == "cpe") || not (part_at parts 1 == "2.3")
    then none
    else some (record {
      part = part_at parts 2;
      vendor = part_at parts 3;
      product = part_at parts 4;
      version = part_at parts 5;
      update = part_at parts 6;
      edition = part_at parts 7;
      language = part_at parts 8;
      sw_edition = part_at parts 9;
      target_sw = part_at parts 10;
      target_hw = part_at parts 11;
      other = part_at parts 12;
      raw_app = "";
      app_version = "";
    })

abbrev pub is_less : Comparison → Bool
is_less less = true
is_less same = false
is_less more = false

abbrev pub is_more : Comparison → Bool
is_more less = false
is_more same = false
is_more more = true

abbrev pub is_same : Comparison → Bool
is_same less = false
is_same same = true
is_same more = false

abbrev pub has_range : NvdCpeMatch → Bool
has_range criteria =
    not (criteria.version_start_including == "")
    || not (criteria.version_start_excluding == "")
    || not (criteria.version_end_including == "")
    || not (criteria.version_end_excluding == "")

-- The four tests of a range, each passed where its bound is empty.
abbrev pub in_range : String → NvdCpeMatch → Bool
in_range host_ver criteria =
    (criteria.version_start_including == ""
      || not (is_less (compare_versions host_ver criteria.version_start_including)))
    && (criteria.version_start_excluding == ""
        || is_more (compare_versions host_ver criteria.version_start_excluding))
    && (criteria.version_end_including == ""
        || not (is_more (compare_versions host_ver criteria.version_end_including)))
    && (criteria.version_end_excluding == ""
        || is_less (compare_versions host_ver criteria.version_end_excluding))

abbrev exact_version : String → Option Cpe23 → Bool
exact_version host_ver none = true
exact_version host_ver (some cpe) =
    cpe.version == "*"
    || cpe.version == "-"
    || is_same (compare_versions host_ver cpe.version)
    || equal_fold host_ver cpe.version

unfoldable pub check_version_bounds : String → NvdCpeMatch → Bool
unfolding compare_versions parse_cpe23_string equal_fold
check_version_bounds host_ver criteria =
    if host_ver == "" || host_ver == "*"
    then true
    else if has_range criteria
    then in_range host_ver criteria
    else exact_version host_ver (parse_cpe23_string criteria.criteria)

-- The same text up to case, or one of them within the other.
abbrev related : String → String → Bool
related crit host =
    equal_fold crit host
    || occurs (lower_codes crit) (lower_codes host)
    || occurs (lower_codes host) (lower_codes crit)

abbrev wildcard_or : (String → String → Bool) → String → String → Bool
wildcard_or test crit host = crit == "*" || host == "*" || test crit host

abbrev matches_parsed : Cpe23 → NvdCpeMatch → Option Cpe23 → Bool
matches_parsed host criteria none =
    occurs (codes host.product) (lower_codes criteria.criteria)
    && check_version_bounds host.version criteria
matches_parsed host criteria (some crit) =
    wildcard_or (λ s t. s == t) crit.part host.part
    && wildcard_or related crit.vendor host.vendor
    && wildcard_or related crit.product host.product
    && check_version_bounds host.version criteria

unfoldable pub matches_cpe : Cpe23 → NvdCpeMatch → Bool
unfolding check_version_bounds
matches_cpe host criteria =
    if not criteria.vulnerable && criteria.criteria == ""
    then false
    else matches_parsed host criteria (parse_cpe23_string criteria.criteria)

matches_parsed-bounds :
    (host : Cpe23) (criteria : NvdCpeMatch) (crit : Option Cpe23)
    → matches_parsed host criteria crit ≡ true
    → check_version_bounds host.version criteria ≡ true
matches_parsed-bounds host criteria none h = ground (arith, h)
matches_parsed-bounds host criteria (some crit) h = ground (arith, h)

matches_cpe-bounds :
    (host : Cpe23) (criteria : NvdCpeMatch)
    → matches_cpe host criteria ≡ true
    → check_version_bounds host.version criteria ≡ true
unfolding matches_cpe
matches_cpe-bounds host criteria h =
    elim (Bool-cases (not criteria.vulnerable && criteria.criteria == "")) [
      | inl e ↦ absurd (ground (arith, h))
      | inr e ↦
          matches_parsed-bounds host criteria (parse_cpe23_string criteria.criteria) (rw e at h)
    ]

check_version_bounds-range :
    (host_ver : String) (criteria : NvdCpeMatch)
    → (host_ver == "" || host_ver == "*") ≡ false
    → has_range criteria ≡ true
    → check_version_bounds host_ver criteria ≡ in_range host_ver criteria
unfolding check_version_bounds
check_version_bounds-range host_ver criteria e f = rw (e, f) refl

below_end :
    (host_ver : String) (criteria : NvdCpeMatch)
    → (criteria.version_end_excluding == "") ≡ false
    → in_range host_ver criteria ≡ true
    → is_less (compare_versions host_ver criteria.version_end_excluding) ≡ true
below_end host_ver criteria ends h = ground (arith, ends, h)

from_start :
    (host_ver : String) (criteria : NvdCpeMatch)
    → (criteria.version_start_including == "") ≡ false
    → in_range host_ver criteria ≡ true
    → is_less (compare_versions host_ver criteria.version_start_including) ≡ false
from_start host_ver criteria starts h = ground (arith, starts, h)

matched_range :
    (host : Cpe23) (criteria : NvdCpeMatch)
    → (host.version == "" || host.version == "*") ≡ false
    → has_range criteria ≡ true
    → matches_cpe host criteria ≡ true
    → in_range host.version criteria ≡ true
matched_range host criteria known ranged h =
    sym (check_version_bounds-range host.version criteria known ranged)
    ∙ matches_cpe-bounds host criteria h

-- A host whose version is known matches at most one of two criteria where one ends before the
-- version that the other starts with.
pub matches_cpe-adjacent :
    (host : Cpe23) (lower upper : NvdCpeMatch)
    → (host.version == "" || host.version == "*") ≡ false
    → (lower.version_end_excluding == "") ≡ false
    → lower.version_end_excluding ≡ upper.version_start_including
    → matches_cpe host lower ≡ true
    → matches_cpe host upper ≡ false
matches_cpe-adjacent host lower upper known ends meet low =
    elim (Bool-cases (matches_cpe host upper)) [
      | inr e ↦ e
      | inl high ↦
          let starts : (upper.version_start_including == "") ≡ false =
            subst (λ b. (b == "") ≡ false) meet ends in
          let below =
            below_end host.version lower ends
              (matched_range host lower known (ground (arith, ends)) low) in
          let above =
            from_start host.version upper starts
              (matched_range host upper known (ground (arith, starts)) high) in
          let below' = subst (λ b. is_less (compare_versions host.version b) ≡ true) meet below in
          absurd (ground (arith, below', above))
    ]
