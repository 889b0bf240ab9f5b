-- ===== src/Drift/Snapshots.antt =====
-- apps/api/internal/models/snapshot.go: of a host's snapshot, the fields that the differ reads.
use zero_agent_scan.Prelude.{ℕ, String, Bool, Option, List}
use zero_agent_scan.Prelude.Int.{ℤ}

pub record BitLockerVolume : Type 0 where
  pub protection_status : ℤ
  pub encryption_method : String

pub record DefenderInfo : Type 0 where
  pub antivirus_enabled : Option Bool
  pub real_time_protection_enabled : Option Bool
  pub tamper_protection_enabled : Option Bool
  pub behavior_monitor_enabled : Option Bool

pub record FirewallProfile : Type 0 where
  pub enabled : Bool
  pub default_inbound : String

pub record SecurityBaseline : Type 0 where
  pub volumes : List BitLockerVolume
  pub defender : DefenderInfo
  pub smb1_enabled : Bool
  pub lsa_protection_enabled : Bool
  pub credential_guard_running : Bool
  pub domain_profile : FirewallProfile
  pub private_profile : FirewallProfile
  pub public_profile : FirewallProfile

pub record FirmwareBios : Type 0 where
  pub secure_boot_enabled : Bool
  pub uefi_mode : Bool
  pub version : String

pub record TpmInfo : Type 0 where
  pub present : Bool
  pub is_enabled : Option Bool

pub record Processor : Type 0 where
  pub vbs_status : Option String
  pub hvci_status : Option String

pub record UserAccess : Type 0 where
  pub local_administrators : List String
  pub guest_account_disabled : Option Bool

pub record NicEntry : Type 0 where
  pub description : String
  pub mac_address : String

pub record ApplicationEntry : Type 0 where
  pub name : String
  pub version : Option String

pub record HostSnapshot : Type 0 where
  pub security_baseline : SecurityBaseline
  pub firmware_bios : FirmwareBios
  pub tpm : TpmInfo
  pub processor : Processor
  pub user_access : UserAccess
  pub total_capacity_bytes : ℕ
  pub disk_count : ℕ
  pub adapters : List NicEntry
  pub applications : List ApplicationEntry
