-- ===== src/Examples/Versions.antt =====
-- Versions and CPE criteria (matcher.go).
use zero_agent_scan.Prelude.{◌≡◌, refl, true, false}
use zero_agent_scan.Prelude.Text.{lower_codes}
use zero_agent_scan.Vulnscan.Versions.{less, same, more, compare_versions}
use zero_agent_scan.Vulnscan.Ranges.{Cpe23, NvdCpeMatch, matches_cpe}

numerically : compare_versions "v1.9" "1.10.2" ≡ less
unfolding compare_versions
numerically = refl

-- The comparison is no order: 1.0 is the same as 1, and 1 as "1.", but 1.0 is above "1.".
zero_same : compare_versions "1.0" "1" ≡ same
unfolding compare_versions
zero_same = refl

dot_same : compare_versions "1" "1." ≡ same
unfolding compare_versions
dot_same = refl

zero_above_dot : compare_versions "1.0" "1." ≡ more
unfolding compare_versions
zero_above_dot = refl

abbrev chrome : Cpe23
chrome = record {
  part = "a";
  vendor = "google";
  product = "chrome";
  version = "119.0.1";
  update = "";
  edition = "";
  language = "";
  sw_edition = "";
  target_sw = "";
  target_hw = "";
  other = "";
  raw_app = "";
  app_version = "";
}

abbrev before_120 : NvdCpeMatch
before_120 = record {
  vulnerable = true;
  criteria = "cpe:2.3:a:google:chrome:*";
  match_criteria_id = "";
  version_start_including = "";
  version_start_excluding = "";
  version_end_including = "";
  version_end_excluding = "120.0";
}

abbrev from_120 : NvdCpeMatch
from_120 = record before_120 { version_start_including = "120.0"; version_end_excluding = "" }

old_matches : matches_cpe chrome before_120 ≡ true
unfolding matches_cpe lower_codes
old_matches = refl

-- A criterion that is marked as not vulnerable matches like any other.
not_vulnerable_matches : matches_cpe chrome (record before_120 { vulnerable = false }) ≡ true
unfolding matches_cpe lower_codes
not_vulnerable_matches = refl
