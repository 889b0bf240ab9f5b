-- ===== src/Drift/Differ.antt =====
-- apps/api/internal/drift/differ.go: the changes between two snapshots of a host.
-- Each test of `DiffSnapshots` is the list of the events that it adds; the printing of numbers,
-- the hash of a payload, the clock and the drawn keys are parameters.
use Prim.Native.String.{◌++◌ as ◌+++◌, compare}
use Prim.Native.Nat.{Ordering}
use zero_agent_scan.Prelude.{
  String, Bool, true, false, not, ◌&&◌, ◌||◌, Option, none, some, List, [], ◌∷◌, ◌++◌, ◌==◌, eqb,
  if◌then◌else◌,
}
use zero_agent_scan.Prelude.Int.{ℤ, pos, negsuc}
use zero_agent_scan.Prelude.Text.{codes, lower_codes, occurs, equal_fold}
use zero_agent_scan.Drift.Events.{Severity, severity_critical, severity_warning, severity_info}
use zero_agent_scan.Drift.Snapshots.{BitLockerVolume, FirewallProfile, NicEntry, ApplicationEntry}

-- The arguments of one call of `addEvent`.
pub record Change : Type 0 where
  pub category : String
  pub property : String
  pub baseline : String
  pub current : String
  pub severity : Severity

abbrev pub change : String → String → String → String → Severity → List Change
change category property baseline current severity =
    record {
      category = category;
      property = property;
      baseline = baseline;
      current = current;
      severity = severity;
    }
    ∷ []

abbrev pub differs : Bool → Bool → Bool
differs true b = not b
differs false b = b

abbrev show_bool : Bool → String
show_bool true = "true"
show_bool false = "false"

-- A flag that is `worst` to lose.
unfoldable pub on_loss : Severity → String → String → Bool → Bool → List Change
on_loss worst category property prev next =
    if differs prev next
    then change category property (show_bool prev) (show_bool next)
        (if prev && not next then worst else severity_info)
    else []

-- A flag that is critical to gain.
unfoldable pub on_gain : String → String → Bool → Bool → List Change
on_gain category property prev next =
    if differs prev next
    then change category property (show_bool prev) (show_bool next)
        (if not prev && next then severity_critical else severity_info)
    else []

abbrev pub bool_val : Option Bool → Bool → Bool
bool_val none default = default
bool_val (some b) default = b

abbrev pub str_val : Option String → String → String
str_val none default = default
str_val (some s) default = s

abbrev pub get_bit_locker_status : List BitLockerVolume → ℤ
get_bit_locker_status [] = pos 0
get_bit_locker_status (v ∷ volumes) = v.protection_status

abbrev pub get_bit_locker_method : List BitLockerVolume → String
get_bit_locker_method [] = ""
get_bit_locker_method (v ∷ volumes) = v.encryption_method

abbrev pub eq_ℤ : ℤ → ℤ → Bool
eq_ℤ (pos m) (pos n) = eqb m n
eq_ℤ (negsuc m) (negsuc n) = eqb m n
eq_ℤ m n = false

abbrev pub is_one : ℤ → Bool
is_one n = eq_ℤ n (pos 1)

-- A text that changes from one that is not empty.
unfoldable pub on_new_text : String → String → Severity → String → String → List Change
on_new_text category property severity prev next =
    if not (next == prev) && not (prev == "")
    then change category property prev next severity
    else []

abbrev pub encryption_severity : String → Severity
encryption_severity next =
    if occurs (codes "none") (lower_codes next) then severity_critical else severity_warning

-- The profile's name stands in lower case in the property.
unfoldable pub diff_firewall_profile : String → FirewallProfile → FirewallProfile → List Change
unfolding on_loss on_new_text equal_fold
diff_firewall_profile name prev next =
    on_loss severity_critical "SecurityBaseline"
      ("security_baseline.firewall_profiles." +++ (name +++ ".enabled")) prev.enabled next.enabled
    ++ on_new_text "SecurityBaseline"
        ("security_baseline.firewall_profiles." +++ (name +++ ".default_inbound"))
        (if equal_fold prev.default_inbound "Block" && equal_fold next.default_inbound "Allow"
          then severity_critical
          else severity_info)
        prev.default_inbound next.default_inbound

abbrev is_running : String → String → Bool
is_running word s = s == word || s == "1" || s == "2"

abbrev is_disabled : String → Bool
is_disabled s = s == "Disabled" || s == "0"

-- The status of an isolation feature, whose good state is `word`.
unfoldable pub on_status : String → String → String → String → List Change
on_status word property prev next =
    if not (next == prev)
    then change "Processor" property prev next
        (if is_running word prev && is_disabled next then severity_critical else severity_warning)
    else []

abbrev pub listed : String → List String → Bool
listed s [] = false
listed s (t ∷ ts) = t == s || listed s ts

-- The entries of the second list that the first lacks.
abbrev pub missing_from : List String → List String → List String
missing_from known [] = []
missing_from known (s ∷ ss) =
    let rest = missing_from known ss in if listed s known then rest else s ∷ rest

abbrev text_leb : String → String → Bool
text_leb s t = elim (compare s t) [ Ordering.gt ↦ false | _ ↦ true ]

abbrev pub sort_insert : String → List String → List String
sort_insert s [] = s ∷ []
sort_insert s (t ∷ ts) =
    let rest = sort_insert s ts in if text_leb s t then s ∷ t ∷ ts else t ∷ rest

-- `sort.Strings`.
abbrev pub sort_strings : List String → List String
sort_strings [] = []
sort_strings (s ∷ ss) = sort_insert s (sort_strings ss)

unfoldable pub diff_string_slices : List String → List String → List String × List String
diff_string_slices old_list new_list =
    (sort_strings (missing_from old_list new_list), sort_strings (missing_from new_list old_list))

-- `strings.Join`.
abbrev join : String → List String → String
join sep [] = ""
join sep (s ∷ []) = s
join sep (s ∷ t ∷ ts) = s +++ (sep +++ join sep (t ∷ ts))

abbrev pub admins_changed : List String → List String → List String × List String → List Change
admins_changed prev next (added ∷ more, removed) =
    change "UserAccess" "user_access.local_administrators.added" (join ", " prev) (join ", " next)
      severity_critical
admins_changed prev next ([], removed ∷ more) =
    change "UserAccess" "user_access.local_administrators.removed" (join ", " prev) (join ", " next)
      severity_info
admins_changed prev next ([], []) = []

abbrev pub extract_nic_descriptions : List NicEntry → List String
extract_nic_descriptions [] = []
extract_nic_descriptions (a ∷ adapters) =
    let rest = extract_nic_descriptions adapters in
    if a.description == ""
    then rest
    else (a.description +++ (" (" +++ (a.mac_address +++ ")"))) ∷ rest

abbrev version_suffix : Option String → String
version_suffix none = ""
version_suffix (some v) = " " +++ v

abbrev pub extract_app_names : List ApplicationEntry → List String
extract_app_names [] = []
extract_app_names (a ∷ apps) = (a.name +++ version_suffix a.version) ∷ extract_app_names apps

abbrev pub nics_changed : List String → List String → List String → List Change
nics_changed prev next [] = []
nics_changed prev next (added ∷ more) =
    change "Hardware" "network.adapters" (join "; " prev) (join "; " next) severity_warning

abbrev pub apps_installed : List String → List Change
apps_installed [] = []
apps_installed (s ∷ ss) =
    change "Software" "software.applications.installed" "" (join ", " (s ∷ ss)) severity_info

abbrev pub apps_uninstalled : List String → List Change
apps_uninstalled [] = []
apps_uninstalled (s ∷ ss) =
    change "Software" "software.applications.uninstalled" (join ", " (s ∷ ss)) "" severity_info
