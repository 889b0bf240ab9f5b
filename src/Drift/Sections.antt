-- ===== src/Drift/Sections.antt =====
-- apps/api/internal/drift/differ.go: `DiffSnapshots`, test by test in the order of the source.
use zero_agent_scan.Prelude.{
  ℕ, String, Bool, true, false, not, ◌&&◌, Option, none, some, List, [], ◌∷◌, ◌++◌, map, ◌==◌, eqb,
  ltb, if◌then◌else◌,
}
use zero_agent_scan.Prelude.Int.{ℤ, pos}
use zero_agent_scan.Drift.Events.{DriftEvent, severity_critical, severity_warning, severity_info}
use zero_agent_scan.Drift.Snapshots.{HostSnapshot}
use zero_agent_scan.Drift.Differ.{
  Change, change, on_loss, on_gain, bool_val, str_val, get_bit_locker_status, get_bit_locker_method,
  eq_ℤ, is_one, on_new_text, encryption_severity, diff_firewall_profile, on_status,
  diff_string_slices, admins_changed, extract_nic_descriptions, extract_app_names, nics_changed,
  apps_installed, apps_uninstalled,
}

abbrev pub flatten : List (List Change) → List Change
flatten [] = []
flatten (s ∷ ss) = s ++ flatten ss

module _ (show_int : ℤ → String) where
  unfoldable pub bit_locker_changed : ℤ → ℤ → List Change
  bit_locker_changed prev next =
      if eq_ℤ next prev
      then []
      else change "SecurityBaseline" "security_baseline.bitlocker.protection_status" (show_int prev)
          (show_int next)
          (if is_one prev && not (is_one next) then severity_critical else severity_info)

  -- A quantity that changes from a positive one.
  unfoldable pub on_quantity : String → ℕ → ℕ → List Change
  on_quantity property prev next =
      if not (eqb next prev) && ltb 0 prev
      then change "Hardware" property (show_int (pos prev)) (show_int (pos next)) severity_warning
      else []

  abbrev pub security_sections : HostSnapshot → HostSnapshot → List (List Change)
  security_sections prev next =
      let p = prev.security_baseline in
      let n = next.security_baseline in
      let loss = on_loss severity_critical "SecurityBaseline" in
      bit_locker_changed (get_bit_locker_status p.volumes) (get_bit_locker_status n.volumes)
      ∷ on_new_text "SecurityBaseline" "security_baseline.bitlocker.encryption_method"
          (encryption_severity (get_bit_locker_method n.volumes)) (get_bit_locker_method p.volumes)
          (get_bit_locker_method n.volumes)
      ∷ loss "security_baseline.defender.antivirus_enabled"
          (bool_val p.defender.antivirus_enabled true) (bool_val n.defender.antivirus_enabled true)
      ∷ loss "security_baseline.defender.realtime_protection_enabled"
          (bool_val p.defender.real_time_protection_enabled true)
          (bool_val n.defender.real_time_protection_enabled true)
      ∷ loss "security_baseline.defender.tamper_protection_enabled"
          (bool_val p.defender.tamper_protection_enabled true)
          (bool_val n.defender.tamper_protection_enabled true)
      ∷ loss "security_baseline.defender.behavior_monitor_enabled"
          (bool_val p.defender.behavior_monitor_enabled true)
          (bool_val n.defender.behavior_monitor_enabled true)
      ∷ on_gain "SecurityBaseline" "security_baseline.smb1_enabled" p.smb1_enabled n.smb1_enabled
      ∷ loss "security_baseline.lsa_protection_enabled" p.lsa_protection_enabled
          n.lsa_protection_enabled
      ∷ loss "security_baseline.credential_guard_running" p.credential_guard_running
          n.credential_guard_running
      ∷ diff_firewall_profile "domain" p.domain_profile n.domain_profile
      ∷ diff_firewall_profile "private" p.private_profile n.private_profile
      ∷ diff_firewall_profile "public" p.public_profile n.public_profile
      ∷ []

  abbrev pub platform_sections : HostSnapshot → HostSnapshot → List (List Change)
  platform_sections prev next =
      on_loss severity_critical "Firmware" "firmware_bios.secure_boot_enabled"
        prev.firmware_bios.secure_boot_enabled next.firmware_bios.secure_boot_enabled
      ∷ on_loss severity_critical "Firmware" "firmware_bios.uefi_mode" prev.firmware_bios.uefi_mode
          next.firmware_bios.uefi_mode
      ∷ on_new_text "Firmware" "firmware_bios.version" severity_warning prev.firmware_bios.version
          next.firmware_bios.version
      ∷ on_loss severity_critical "TPM" "tpm.present" prev.tpm.present next.tpm.present
      ∷ on_loss severity_critical "TPM" "tpm.is_enabled" (bool_val prev.tpm.is_enabled true)
          (bool_val next.tpm.is_enabled true)
      ∷ on_status "Running" "processor.vbs_status" (str_val prev.processor.vbs_status "Running")
          (str_val next.processor.vbs_status "Running")
      ∷ on_status "Enabled" "processor.hvci_status" (str_val prev.processor.hvci_status "Enabled")
          (str_val next.processor.hvci_status "Enabled")
      ∷ []

  abbrev pub inventory_sections : HostSnapshot → HostSnapshot → List (List Change)
  inventory_sections prev next =
      let admins = prev.user_access.local_administrators in
      let admins' = next.user_access.local_administrators in
      let nics = extract_nic_descriptions prev.adapters in
      let nics' = extract_nic_descriptions next.adapters in
      let apps =
        diff_string_slices (extract_app_names prev.applications)
          (extract_app_names next.applications) in
      admins_changed admins admins' (diff_string_slices admins admins')
      ∷ on_loss severity_warning "UserAccess" "user_access.guest_account_disabled"
          (bool_val prev.user_access.guest_account_disabled true)
          (bool_val next.user_access.guest_account_disabled true)
      ∷ on_quantity "memory.total_capacity_bytes" prev.total_capacity_bytes
          next.total_capacity_bytes
      ∷ on_quantity "storage.disk_count" prev.disk_count next.disk_count
      ∷ nics_changed nics nics' (diff_string_slices nics nics').0
      ∷ apps_installed apps.0
      ∷ apps_uninstalled apps.1
      ∷ []

  unfoldable pub changes : HostSnapshot → HostSnapshot → List Change
  changes prev next =
      flatten (security_sections prev next)
      ++ (flatten (platform_sections prev next) ++ flatten (inventory_sections prev next))

pub data DiffResult : Type 0 where
  nil_snapshot : DiffResult
  events : List DriftEvent → DiffResult

-- Both hashes exist and are the same.
abbrev pub same_hash : Option String → Option String → Bool
same_hash (some s) (some t) = s == t
same_hash o p = false

module _ (show_int : ℤ → String) (payload_hash : HostSnapshot → Option String)
    (new_id : Change → String) (now : ℤ) (tenant_id host_id hostname : String) where
  abbrev pub event_of : Change → DriftEvent
  event_of c = record {
    id = new_id c;
    tenant_id = tenant_id;
    host_id = host_id;
    hostname = hostname;
    drift_category = c.category;
    property_name = c.property;
    baseline_value = c.baseline;
    current_value = c.current;
    severity = c.severity;
    is_acknowledged = false;
    acknowledged_by = none;
    acknowledged_at = none;
    detected_at = now;
    created_at = now;
  }

  unfoldable pub diff_snapshots : Option HostSnapshot → Option HostSnapshot → DiffResult
  unfolding changes
  diff_snapshots none prev = nil_snapshot
  diff_snapshots (some next) none = events []
  diff_snapshots (some next) (some prev) =
      if same_hash (payload_hash next) (payload_hash prev)
      then events []
      else events (map event_of (changes show_int prev next))
