-- ===== src/Fleet/Audit.antt =====
-- apps/api/internal/repository/repository.go: the audit log, the health of the alerts and the
-- retention policy. Most methods append to the log; `AddAuditLog` puts its entry in front and keeps
-- 1000. `time.Now().UnixNano()` in an ID is written by a parameter.
pub mod Trail
pub mod Lapse
use Prim.Native.String.{◌++◌ as ◌+++◌}
use zero_agent_scan.Prelude.{
  ℕ, ◌+◌, ◌-◌, ◌*◌, ◌/◌, ◌^◌, ◌≤◌, ◌<◌, ◌≡◌, refl, zero, suc, String, Bool, true, false, not, ◌&&◌,
  ◌||◌, Option, none, some, List, [], ◌∷◌, ◌++◌, if◌then◌else◌, lookup, ◌==◌, take, length, leb,
  arith, ap,
}
use zero_agent_scan.Prelude.Text.{codes}
use zero_agent_scan.Prelude.Int.{ℤ, pos, negsuc, ◌-ℤ◌, leb_ℤ}
use zero_agent_scan.Fleet.Cursors.{Base64}
use zero_agent_scan.Fleet.Records.{
  Detail, text, texts, number, flag, SecurityAuditLog, AlertHealthStatus, SnapshotRetentionPolicy,
  Repository, append_log,
}
use zero_agent_scan.Fleet.Paging.{Place, Page, PageRequest, list_keyset}
use zero_agent_scan.Fleet.Snapshots.{kept}

-- `drift.TestAlertResponse`
pub record TestAlertResponse : Type 0 where
  pub status : String
  pub target_url : String
  pub status_code : ℤ
  pub duration_ms : ℤ
  pub delivery_id : String
  pub verification_receipt : String
  pub error_message : String
  pub alert_notice : String

-- `vault.SecretResolutionAuditEntry`
pub record SecretResolutionAuditEntry : Type 0 where
  pub correlation_id : String
  pub gateway_id : String
  pub credential_ref : String
  pub tenant_id : String
  pub scan_job_id : String
  pub action : String
  pub timestamp : ℤ
  pub ip_address : String

unfoldable pub audit_log_from_vault_entry : String → SecretResolutionAuditEntry → SecurityAuditLog
audit_log_from_vault_entry draw entry = record {
  id = draw;
  correlation_id = entry.correlation_id;
  timestamp = entry.timestamp;
  actor = entry.gateway_id;
  action = entry.action;
  resource_type = "vault_credential";
  resource_id = entry.credential_ref;
  status = "SUCCESS";
  ip_address = entry.ip_address;
  details = ("scan_job_id", text entry.scan_job_id) ∷ ("tenant_id", text entry.tenant_id) ∷ [];
}

-- The log's `tenant_id`, if it has one that is a text, is not another tenant's.
abbrev is_own : String → Option Detail → Bool
is_own tenant (some (text t)) = t == tenant
is_own tenant other = true

unfoldable pub shows_log : String → SecurityAuditLog → Bool
unfolding lookup
shows_log tenant log = tenant == "" || is_own tenant (lookup "tenant_id" log.details)

abbrev pub log_place : SecurityAuditLog → Place
log_place log = record { time = log.timestamp; id = codes log.id }

abbrev pub day : ℕ
day = 24 * 3600 * 10 ^ 9

-- `int(d.Hours() / 24)`, which cuts off towards zero.
abbrev days_of : ℤ → ℤ
days_of (pos n) = pos (n / day)
days_of (negsuc n) = pos 0 -ℤ pos ((n + 1) / day)

unfoldable pub health_at : ℤ → AlertHealthStatus → Option ℤ → AlertHealthStatus
unfolding ◌-ℤ◌
health_at now health none = record health {
  test_alert_lapsed = true;
  test_alert_lapse_days = pos 999;
}
health_at now health (some last) =
    let days = days_of (now -ℤ last) in
    record health {
      test_alert_lapse_days = days;
      test_alert_lapsed = leb_ℤ (pos 90) days || not (health.last_test_alert_status == "DELIVERED");
    }

module _ {P : Type 0} where
  unfoldable pub add_audit_log : SecurityAuditLog → Repository P → Repository P
  add_audit_log log r = record r { audit_logs = take 1000 (log ∷ r.audit_logs) }

  abbrev pub list_audit_logs : Repository P → List SecurityAuditLog
  list_audit_logs r = r.audit_logs

  unfoldable pub list_audit_logs_keyset :
      Base64 → String → PageRequest → Repository P → Page SecurityAuditLog
  unfolding kept list_keyset shows_log
  list_audit_logs_keyset b64 tenant req r =
      list_keyset log_place b64 50 200 req (kept (shows_log tenant) r.audit_logs)

  unfoldable pub get_alert_health_status : ℤ → Repository P → AlertHealthStatus
  unfolding health_at
  get_alert_health_status now r = health_at now r.alert_health r.alert_health.last_test_alert_at

  unfoldable pub record_test_alert_result :
      (ℤ → String) → ℤ → TestAlertResponse → String → String → Repository P → Repository P
  record_test_alert_result show now resp operator ip r = record r {
    alert_health = record r.alert_health {
      last_test_alert_at = some now;
      last_test_alert_status = resp.status;
      last_test_alert_operator = operator;
      last_test_alert_target_url = resp.target_url;
      last_test_alert_receipt = resp.verification_receipt;
      test_alert_lapse_days = pos 0;
      test_alert_lapsed = not (resp.status == "DELIVERED");
    };
    audit_logs =
        r.audit_logs
        ++ record {
          id = "audit-alert-" +++ show now;
          correlation_id = "corr-" +++ resp.delivery_id;
          timestamp = now;
          actor = operator;
          action = "TEST_ALERT_DISPATCHED";
          resource_type = "alert_verification";
          resource_id = resp.delivery_id;
          status = resp.status;
          ip_address = ip;
          details =
              ("delivery_id", text resp.delivery_id)
              ∷ ("verification_receipt", text resp.verification_receipt)
              ∷ ("target_url", text resp.target_url)
              ∷ ("http_status_code", number resp.status_code)
              ∷ ("duration_ms", number resp.duration_ms)
              ∷ ("error_message", text resp.error_message)
              ∷ ("alert_notice", text resp.alert_notice)
              ∷ ("is_synthetic_test", flag true)
              ∷ [];
        }
          ∷ [];
  }

  abbrev pub get_snapshot_retention_policy : Repository P → SnapshotRetentionPolicy
  get_snapshot_retention_policy r = r.retention_policy

  unfoldable pub update_snapshot_retention_policy :
      (ℤ → String) → ℤ → SnapshotRetentionPolicy → String → String → Repository P → Repository P
  update_snapshot_retention_policy show now policy operator ip r = record r {
    retention_policy = record policy { updated_at = now; updated_by = operator };
    audit_logs =
        r.audit_logs
        ++ record {
          id = "audit-retpolicy-" +++ show now;
          correlation_id = "corr-retpolicy-" +++ show now;
          timestamp = now;
          actor = operator;
          action = "SNAPSHOT_RETENTION_POLICY_UPDATED";
          resource_type = "snapshot_retention_policy";
          resource_id = "global_retention_policy";
          status = "SUCCESS";
          ip_address = ip;
          details =
              ("retention_days", number policy.retention_days)
              ∷ ("strategy", text policy.strategy)
              ∷ ("cold_storage_path", text policy.cold_storage_path)
              ∷ ("is_enabled", flag policy.is_enabled)
              ∷ [];
        }
          ∷ [];
  }

  unfoldable pub update_retention_policy_run_stats :
      SnapshotRetentionPolicy → Repository P → Repository P
  update_retention_policy_run_stats policy r = record r {
    retention_policy = record r.retention_policy {
      last_run_at = policy.last_run_at;
      last_run_status = policy.last_run_status;
      last_reclaimed_bytes = policy.last_reclaimed_bytes;
    };
  }
