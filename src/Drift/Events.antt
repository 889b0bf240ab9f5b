-- ===== src/Drift/Events.antt =====
-- apps/api/internal/drift/types.go: drift events and alert rules.
use zero_agent_scan.Prelude.{String, Bool, Option}
use zero_agent_scan.Prelude.Int.{ℤ}

abbrev pub Severity : Type 0
Severity = String

abbrev pub severity_critical : Severity
severity_critical = "CRITICAL"

abbrev pub severity_warning : Severity
severity_warning = "WARNING"

abbrev pub severity_info : Severity
severity_info = "INFO"

pub record DriftEvent : Type 0 where
  pub id : String
  pub tenant_id : String
  pub host_id : String
  pub hostname : String
  pub drift_category : String
  pub property_name : String
  pub baseline_value : String
  pub current_value : String
  pub severity : Severity
  pub is_acknowledged : Bool
  pub acknowledged_by : Option String
  pub acknowledged_at : Option ℤ
  pub detected_at : ℤ
  pub created_at : ℤ

pub record AlertRule : Type 0 where
  pub id : String
  pub tenant_id : String
  pub name : String
  pub description : String
  pub severity_filter : Severity
  pub asset_class_filter : String
  pub category_filter : String
  pub channel : String
  pub webhook_url : String
  pub secret_key : String
  pub suppression_window_hours : ℤ
  pub is_active : Bool
  pub created_at : ℤ
  pub updated_at : ℤ
