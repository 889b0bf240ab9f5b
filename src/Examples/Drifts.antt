-- ===== src/Examples/Drifts.antt =====
-- A host that loses secure boot, and the alerts on it (differ.go, alerts.go).
use zero_agent_scan.Prelude.{
  String, ◌≡◌, refl, Bool, true, false, Option, none, some, List, [], ◌∷◌, lookup, if◌then◌else◌,
}
use zero_agent_scan.Prelude.Int.{ℤ, pos, ◌-ℤ◌, ltb_ℤ}
use zero_agent_scan.Prelude.Text.{lower_codes, equal_fold}
use zero_agent_scan.Drift.Events.{DriftEvent, AlertRule, severity_critical}
use zero_agent_scan.Drift.Snapshots.{HostSnapshot, FirewallProfile, SecurityBaseline}
use zero_agent_scan.Drift.Differ.{Change}
use zero_agent_scan.Drift.Sections.{events, diff_snapshots}
use zero_agent_scan.Drift.Losses.{secure_boot, reports_critical, diff_snapshots-critical}
use zero_agent_scan.Drift.Alerts.{hours, evaluate_rules}

abbrev blocking : FirewallProfile
blocking = record { enabled = true; default_inbound = "Block" }

abbrev baseline : SecurityBaseline
baseline = record {
  volumes = [];
  defender = record {
    antivirus_enabled = some true;
    real_time_protection_enabled = none;
    tamper_protection_enabled = none;
    behavior_monitor_enabled = none;
  };
  smb1_enabled = false;
  lsa_protection_enabled = true;
  credential_guard_running = true;
  domain_profile = blocking;
  private_profile = blocking;
  public_profile = blocking;
}

abbrev with_secure_boot : Bool → HostSnapshot
with_secure_boot on = record {
  security_baseline = baseline;
  firmware_bios = record { secure_boot_enabled = on; uefi_mode = true; version = "1.0" };
  tpm = record { present = true; is_enabled = some true };
  processor = record { vbs_status = none; hvci_status = none };
  user_access = record { local_administrators = "root" ∷ []; guest_account_disabled = none };
  total_capacity_bytes = 8;
  disk_count = 1;
  adapters = [];
  applications = [];
}

abbrev shown : ℤ → String
shown n = "n"

abbrev hashed : HostSnapshot → Option String
hashed s = if s.firmware_bios.secure_boot_enabled then some "a" else some "b"

abbrev keyed : Change → String
keyed c = c.property

diff_snapshots-critical_example :
    (es : List DriftEvent) × (diff_snapshots shown hashed keyed
        (pos 0)
        "t"
        "h"
        "pc"
        (some (with_secure_boot false))
        (some (with_secure_boot true))
      ≡ events es)
    × (reports_critical "firmware_bios.secure_boot_enabled" es ≡ true)
diff_snapshots-critical_example =
    diff_snapshots-critical shown hashed keyed (pos 0) "t" "h" "pc" secure_boot
      (with_secure_boot true) (with_secure_boot false) refl refl refl

abbrev event : DriftEvent
event = record {
  id = "e1";
  tenant_id = "t";
  host_id = "h";
  hostname = "pc";
  drift_category = "Firmware";
  property_name = "firmware_bios.secure_boot_enabled";
  baseline_value = "true";
  current_value = "false";
  severity = severity_critical;
  is_acknowledged = false;
  acknowledged_by = none;
  acknowledged_at = none;
  detected_at = pos 0;
  created_at = pos 0;
}

abbrev critical_rule : AlertRule
critical_rule = record {
  id = "r1";
  tenant_id = "t";
  name = "critical";
  description = "";
  severity_filter = "critical";
  asset_class_filter = "";
  category_filter = "";
  channel = "SLACK";
  webhook_url = "";
  secret_key = "";
  suppression_window_hours = pos 4;
  is_active = true;
  created_at = pos 0;
  updated_at = pos 0;
}

matched : evaluate_rules event "Laptop" (pos 5) [] (critical_rule ∷ []) ≡ (critical_rule ∷ [])
unfolding evaluate_rules lookup lower_codes equal_fold
matched = refl

early : ltb_ℤ (pos 5 -ℤ pos 2) (hours (pos 4)) ≡ true
unfolding ◌-ℤ◌
early = refl
