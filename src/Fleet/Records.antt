-- ===== src/Fleet/Records.antt =====
-- apps/api/internal/models/models.go and the state of apps/api/internal/repository/repository.go.
-- Scores are kept in hundredths. The inventories of hardware and security and the CIS results, which
-- no method writes, are arguments of the one method that reads them.
use zero_agent_scan.Prelude.{ℕ, String, Bool, true, Option, none, List, [], ◌∷◌, ◌++◌, Map}
use zero_agent_scan.Prelude.Int.{ℤ, pos}

pub record Endpoint : Type 0 where
  pub id : String
  pub hostname : String
  pub domain : String
  pub ip_address : String
  pub mac_address : String
  pub os_name : String
  pub os_build : String
  pub serial_number : String
  pub manufacturer : String
  pub model : String
  pub chassis_type : String
  pub status : String
  pub agentless_protocol : String
  pub compliance_score : ℕ
  pub rollout_tier : String
  pub organizational_unit : String
  pub subnet_cidr : String
  pub tier_promoted_at : Option ℤ
  pub tier_promoted_by : String
  pub tier_promotion_reason : String
  pub last_scanned_at : Option ℤ
  pub created_at : ℤ
  pub updated_at : ℤ

-- A value of `map[string]interface{}` in the details of an audit log.
pub data Detail : Type 0 where
  text : String → Detail
  texts : List String → Detail
  number : ℤ → Detail
  count : ℕ → Detail
  flag : Bool → Detail
  ratio : ℕ → ℕ → Detail

pub record SecurityAuditLog : Type 0 where
  pub id : String
  pub correlation_id : String
  pub timestamp : ℤ
  pub actor : String
  pub action : String
  pub resource_type : String
  pub resource_id : String
  pub status : String
  pub ip_address : String
  pub details : Map Detail

pub record ScanJob : Type 0 where
  pub id : String
  pub name : String
  pub target_cidr : String
  pub scan_profile : String
  pub protocol : String
  pub vault_secret_ref : String
  pub gateway_id : String
  pub status : String
  pub total_hosts : ℕ
  pub scanned_hosts : ℕ
  pub compliant_hosts : ℕ
  pub failed_hosts : ℕ
  pub logs : List String
  pub started_at : Option ℤ
  pub completed_at : Option ℤ
  pub created_at : ℤ

pub record CollectorGateway : Type 0 where
  pub id : String
  pub gateway_code : String
  pub name : String
  pub subnet_cidr : String
  pub mtls_cert_fingerprint : String
  pub status : String
  pub version : String
  pub latency_ms : ℤ
  pub last_heartbeat_at : ℤ
  pub created_at : ℤ

pub record VaultCredentialSummary : Type 0 where
  pub id : String
  pub opaque_id : String
  pub name : String
  pub credential_type : String
  pub domain_or_host : String
  pub username : String
  pub created_at : ℤ
  pub updated_at : ℤ

pub record HostSnapshotEntry (P : Type 0) : Type 0 where
  pub id : String
  pub tenant_id : String
  pub host_id : String
  pub hostname : String
  pub scan_job_id : String
  pub payload_hash : String
  pub payload : P
  pub is_archived : Bool
  pub archived_at : Option ℤ
  pub archive_location : String
  pub archive_checksum : String
  pub archive_strategy : String
  pub is_downsample_retained : Bool
  pub payload_size_bytes : ℤ
  pub created_at : ℤ

pub record RolloutSettings : Type 0 where
  pub active_tiers : List String
  pub schedule_enforce_tiers : Bool
  pub updated_at : ℤ
  pub updated_by : String

pub record AlertHealthStatus : Type 0 where
  pub last_test_alert_at : Option ℤ
  pub last_test_alert_status : String
  pub last_test_alert_operator : String
  pub last_test_alert_target_url : String
  pub last_test_alert_receipt : String
  pub test_alert_lapse_days : ℤ
  pub test_alert_lapsed : Bool
  pub configured_webhook_count : ℕ
  pub active_alert_rules_count : ℕ

pub record SnapshotRetentionPolicy : Type 0 where
  pub retention_days : ℤ
  pub strategy : String
  pub cold_storage_path : String
  pub keep_weekly_interval_days : ℤ
  pub is_enabled : Bool
  pub last_run_at : Option ℤ
  pub last_run_status : String
  pub last_reclaimed_bytes : ℤ
  pub updated_at : ℤ
  pub updated_by : String

pub record Repository (P : Type 0) : Type 0 where
  pub endpoints : Map Endpoint
  pub scans : Map ScanJob
  pub gateways : Map CollectorGateway
  pub credentials : Map VaultCredentialSummary
  pub audit_logs : List SecurityAuditLog
  pub snapshots : Map (HostSnapshotEntry P)
  pub rollout_settings : RolloutSettings
  pub alert_health : AlertHealthStatus
  pub retention_policy : SnapshotRetentionPolicy

abbrev initial_settings : ℤ → RolloutSettings
initial_settings now = record {
  active_tiers = "pilot" ∷ [];
  schedule_enforce_tiers = true;
  updated_at = now;
  updated_by = "system_init";
}

abbrev initial_health : AlertHealthStatus
initial_health = record {
  last_test_alert_at = none;
  last_test_alert_status = "NEVER_TESTED";
  last_test_alert_operator = "";
  last_test_alert_target_url = "";
  last_test_alert_receipt = "";
  test_alert_lapse_days = pos 999;
  test_alert_lapsed = true;
  configured_webhook_count = 1;
  active_alert_rules_count = 3;
}

abbrev initial_policy : ℤ → SnapshotRetentionPolicy
initial_policy now = record {
  retention_days = pos 90;
  strategy = "archive";
  cold_storage_path = "D:\\archives\\snapshots";
  keep_weekly_interval_days = pos 7;
  is_enabled = true;
  last_run_at = none;
  last_run_status = "IDLE";
  last_reclaimed_bytes = pos 0;
  updated_at = now;
  updated_by = "system_init";
}

module _ {P : Type 0} where
  -- `NewRepository`, before the seed data.
  unfoldable pub new_repository : ℤ → Repository P
  new_repository now = record {
    endpoints = [];
    scans = [];
    gateways = [];
    credentials = [];
    audit_logs = [];
    snapshots = [];
    rollout_settings = initial_settings now;
    alert_health = initial_health;
    retention_policy = initial_policy now;
  }

  -- `r.auditLogs = append(r.auditLogs, log)`
  abbrev pub append_log : SecurityAuditLog → Repository P → Repository P
  append_log log r = record r { audit_logs = r.audit_logs ++ log ∷ [] }
