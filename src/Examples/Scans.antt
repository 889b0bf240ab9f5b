-- ===== src/Examples/Scans.antt =====
-- A scan of a host with one application (engine.go of apps/api/internal/vulnscan).
use zero_agent_scan.Prelude.{◌≡◌, refl, true, some, none, [], ◌∷◌, lookup, insert}
use zero_agent_scan.Prelude.Int.{pos}
use zero_agent_scan.Prelude.Text.{to_lower, trim, to_upper}
use zero_agent_scan.Vulnscan.Ranges.{Cpe23, parse_cpe23_string}
use zero_agent_scan.Vulnscan.Findings.{canonical}
use zero_agent_scan.Vulnscan.Feeds.{
  CachedCve, CisaKevItem, Feeds, save_cached_cves, save_cached_cve, save_kev_catalog, kev_map,
  get_cached_cves, get_kev_item,
}
use zero_agent_scan.Vulnscan.Cpes.{
  show_cpe, show_field, sanitize_cpe_field, Inventory, extract_host_cpes, build_cpe_from_os,
  build_cpe_from_app, application_cpes, normalize_vendor, normalize_product, normalize_version,
  mentions,
}
use zero_agent_scan.Vulnscan.Cpes.Printed.{printed, parse_cpe23_string-show_cpe}
use zero_agent_scan.Vulnscan.Engine.{
  Scan, ScanCall, begin, scan_hosts, scan_cves, scan_cve, step, finding_of, matched_criteria,
}
use zero_agent_scan.Vulnscan.Findings.{upsert_finding, upsert_found, insert_finding}
use zero_agent_scan.Vulnscan.Paired.{Paired}
use zero_agent_scan.Vulnscan.Flags.{Flagged, scan_hosts-Flagged}
use zero_agent_scan.Examples.Findings.{nothing}

abbrev editor : Cpe23
editor = record {
  part = "a";
  vendor = "Acme  Inc.";
  product = "editor";
  version = "2.0";
  update = "";
  edition = "";
  language = "";
  sw_edition = "";
  target_sw = "";
  target_hw = "";
  other = "";
  raw_app = "Editor";
  app_version = "2.0";
}

shown : show_cpe editor ≡ "cpe:2.3:a:acme_inc.:editor:2.0:*:*:*:*:*:*:*"
unfolding show_cpe show_field sanitize_cpe_field trim
shown = refl

abbrev flaw : CachedCve
flaw = record {
  cve_id = "cve-2024-1 ";
  title = "";
  description = "";
  severity = "LOW";
  cvss_score = 21;
  cvss_version = "";
  cvss_vector = "";
  published_at = pos 0;
  last_modified_at = pos 0;
  references = [];
  cached_at = pos 0;
  cpe_matches =
      record {
        vulnerable = true;
        criteria = "cpe:2.3:a:acme:editor:2.0";
        match_criteria_id = "";
        version_start_including = "";
        version_start_excluding = "";
        version_end_including = "";
        version_end_excluding = "";
      }
      ∷ [];
}

abbrev exploited : CisaKevItem
exploited = record {
  cve_id = "CVE-2024-1";
  vendor_project = "";
  product = "";
  vulnerability_name = "";
  date_added = "";
  short_description = "";
  required_action = "";
  due_date = "";
  known_ransomware_campaign_use = "Known";
  notes = "";
}

abbrev feeds : Feeds
feeds = record {
  cve_cache = ("CVE-2024-1", record flaw { cve_id = "CVE-2024-1" }) ∷ [];
  kev_cache = ("CVE-2024-1", exploited) ∷ [];
}

saved :
    save_kev_catalog
      ((" cve-2024-1", exploited) ∷ [])
      (save_cached_cves (some flaw ∷ none ∷ []) (record { cve_cache = []; kev_cache = [] }))
    ≡ feeds
unfolding save_kev_catalog kev_map save_cached_cves save_cached_cve canonical trim to_upper insert
saved = refl

found : get_kev_item "cve-2024-1" feeds ≡ some exploited
unfolding get_kev_item canonical trim to_upper lookup
found = refl

abbrev call : ScanCall
call = record {
  tenant_id = "t";
  endpoint_id = "e";
  hostname = "host";
  clock = λ n. pos n;
  fresh = λ n. "f1";
  parse_due = λ s. none;
}

parse_cpe23_string-show_cpe_example : parse_cpe23_string (show_cpe editor) ≡ some (printed editor)
parse_cpe23_string-show_cpe_example = parse_cpe23_string-show_cpe editor refl

abbrev cached : CachedCve
cached = record flaw { cve_id = "CVE-2024-1" }

no_error : (scan_hosts call (pos 0) feeds (editor ∷ []) (begin nothing)).error ≡ none
unfolding scan_hosts scan_cves step scan_cve get_cached_cves upsert_finding upsert_found
    insert_finding get_kev_item finding_of matched_criteria
no_error = refl

abbrev scanned : Scan
scanned = scan_hosts call (pos 0) feeds (editor ∷ []) (begin nothing)

scan_hosts-Flagged_example : Paired (Flagged feeds) scanned.seen scanned.detected
scan_hosts-Flagged_example = scan_hosts-Flagged call (pos 0) feeds (editor ∷ []) nothing no_error

abbrev pc : Inventory
pc = record {
  hostname = "pc";
  os_name = "Microsoft Windows 11 Pro 22H2";
  os_version = "";
  os_build = "10.0.22621";
  applications =
      record { name = " "; version = none; publisher = none; architecture = none }
      ∷ record {
        name = "Notepad++ (64-bit)";
        version = some "v8.6.1-rc";
        publisher = none;
        architecture = some "AMD64";
      }
      ∷ record {
        name = "Foo Tool";
        version = some "beta 2";
        publisher = some " Foo_ & Co ";
        architecture = some "i386";
      }
      ∷ [];
}

abbrev windows : Cpe23
windows = record editor {
  part = "o";
  vendor = "microsoft";
  product = "windows_11";
  version = "10.0.22621";
  update = "22h2";
  target_sw = "*";
  target_hw = "x64";
  raw_app = "Microsoft Windows 11 Pro 22H2";
  app_version = "10.0.22621";
}

abbrev notepad : Cpe23
notepad = record editor {
  vendor = "notepad-plus-plus";
  product = "notepad\\+\\+";
  version = "8.6.1";
  target_sw = "windows";
  target_hw = "x64";
  raw_app = "Notepad++ (64-bit)";
  app_version = "8.6.1";
}

abbrev tool : Cpe23
tool = record editor {
  vendor = "foo_co";
  product = "foo_tool";
  version = "beta_2";
  target_sw = "windows";
  target_hw = "x86";
  raw_app = "Foo Tool";
  app_version = "beta_2";
}

extracted : extract_host_cpes (some pc) ≡ windows ∷ notepad ∷ tool ∷ []
unfolding extract_host_cpes build_cpe_from_os build_cpe_from_app application_cpes normalize_vendor
    normalize_product normalize_version to_lower mentions sanitize_cpe_field trim
extracted = refl
