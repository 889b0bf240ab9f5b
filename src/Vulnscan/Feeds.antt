-- ===== src/Vulnscan/Feeds.antt =====
-- apps/api/internal/vulnscan/repository.go and types.go: the caches of the store, CVEs and the catalog
-- of exploited vulnerabilities (KEV). A cached CVE is read only, so it is held as a value.
use zero_agent_scan.Prelude.{
  ℕ, String, Option, none, some, List, [], ◌∷◌, if◌then◌else◌, Map, lookup, insert, ◌==◌, values,
}
use zero_agent_scan.Prelude.Int.{ℤ}
use zero_agent_scan.Vulnscan.Ranges.{NvdCpeMatch}
use zero_agent_scan.Vulnscan.Findings.{canonical}

pub record CachedCve : Type 0 where
  pub cve_id : String
  pub title : String
  pub description : String
  pub severity : String
  pub cvss_score : ℕ
  pub cvss_version : String
  pub cvss_vector : String
  pub published_at : ℤ
  pub last_modified_at : ℤ
  pub cpe_matches : List NvdCpeMatch
  pub references : List String
  pub cached_at : ℤ

pub record CisaKevItem : Type 0 where
  pub cve_id : String
  pub vendor_project : String
  pub product : String
  pub vulnerability_name : String
  pub date_added : String
  pub short_description : String
  pub required_action : String
  pub due_date : String
  pub known_ransomware_campaign_use : String
  pub notes : String

pub record Feeds : Type 0 where
  pub cve_cache : Map CachedCve
  pub kev_cache : Map CisaKevItem

unfoldable pub save_cached_cve : CachedCve → Feeds → Feeds
unfolding canonical insert
save_cached_cve cve feeds =
    let id = canonical cve.cve_id in
    if cve.cve_id == ""
    then feeds
    else record feeds { cve_cache = insert id (record cve { cve_id = id }) feeds.cve_cache }

unfoldable pub save_cached_cves : List (Option CachedCve) → Feeds → Feeds
unfolding save_cached_cve
save_cached_cves [] feeds = feeds
save_cached_cves (none ∷ cves) feeds = save_cached_cves cves feeds
save_cached_cves (some cve ∷ cves) feeds = save_cached_cves cves (save_cached_cve cve feeds)

-- In an order of Go's choice; here that is the order of the list.
unfoldable pub get_cached_cves : Feeds → List CachedCve
get_cached_cves feeds = values feeds.cve_cache

unfoldable pub get_cached_cve_by_id : String → Feeds → Option CachedCve
unfolding lookup canonical
get_cached_cve_by_id id feeds = lookup (canonical id) feeds.cve_cache

unfoldable pub kev_map : Map CisaKevItem → Map CisaKevItem → Map CisaKevItem
unfolding canonical insert
kev_map [] saved = saved
kev_map ((id, item) ∷ items) saved = kev_map items (insert (canonical id) item saved)

-- The items are given in the order in which Go runs through them.
unfoldable pub save_kev_catalog : Map CisaKevItem → Feeds → Feeds
unfolding kev_map
save_kev_catalog items feeds = record feeds { kev_cache = kev_map items [] }

unfoldable pub get_kev_item : String → Feeds → Option CisaKevItem
unfolding lookup canonical
get_kev_item id feeds = lookup (canonical id) feeds.kev_cache

unfoldable pub get_all_kev_items : Feeds → Map CisaKevItem
get_all_kev_items feeds = feeds.kev_cache
