-- ===== src/Examples/Fleets.antt =====
-- A small fleet (repository.go): its pages, tiers, snapshots, jobs and audit log.

use zero_agent_scan.Prelude.{
  ℕ, zero, suc, ◌*◌, ◌≡◌, refl, String, true, false, none, some, List, [], ◌∷◌, arith, lookup, inl,
  inr,
}
use zero_agent_scan.Prelude.Text.{codes}
use zero_agent_scan.Prelude.Int.{ℤ, pos, ◌-ℤ◌}
use zero_agent_scan.Fleet.Cursors.{Base64, cursor, encode_cursor, decode_cursor}
use zero_agent_scan.Fleet.Cursors.RoundTrip.{decode_cursor-encode_cursor}
use zero_agent_scan.Fleet.Paging.{Place, behind, exchange_sort}
use zero_agent_scan.Fleet.Paging.Walk.{walk, walk_complete}
use zero_agent_scan.Fleet.Records.{Endpoint, SecurityAuditLog, HostSnapshotEntry, Repository}
use zero_agent_scan.Fleet.Tiers.{
  Caller, PromoteTierRequest, changed, promotion_log, promote_endpoints_tier, should_promote,
}
use zero_agent_scan.Fleet.Tiers.Promotion.{
  TierCall, promote, modify_one, Accounted, tier_calls, tier_calls-Accounted,
}
use zero_agent_scan.Fleet.Snapshots.Refinement.{
  SnapshotCall, save, get, mark, prune, answers, spec_answers, answers_lem,
}
use zero_agent_scan.Fleet.Jobs.{CreateScanJobRequest, create_scan_job, new_job, get_scan_job}
use zero_agent_scan.Fleet.Jobs.Simulation.{JobEvent, wake, cancel}
use zero_agent_scan.Fleet.Audit.{TestAlertResponse, day}

-- Bytes that stand for themselves.
abbrev plain : Base64
plain = record {
  encode = λ bytes. bytes;
  decode = λ bytes. some bytes;
  decode-encode = λ bytes h. refl;
  decode-nil = refl;
}

-- The text "42|a|b".
cursor_text : encode_cursor plain (pos 42) (codes "a|b") ≡ codes "42|a|b"
unfolding encode_cursor
cursor_text = refl

decode_cursor-encode_cursor_example :
    decode_cursor plain (encode_cursor plain (pos 42) (codes "a|b"))
    ≡ cursor (record { created_at = pos 42; id = codes "a|b" })
decode_cursor-encode_cursor_example =
    decode_cursor-encode_cursor plain (pos 42) (codes "a|b") (omega arith) (omega arith)
      (ground arith)

abbrev place : ℕ → String → Place
place t id = record { time = pos t; id = codes id }

abbrev items : List Place
items = place 5 "b" ∷ place 9 "a" ∷ place 5 "c" ∷ []

sorted_items : exchange_sort (λ (p : Place). p) items ≡ place 9 "a" ∷ place 5 "c" ∷ place 5 "b" ∷ []
unfolding exchange_sort behind
sorted_items = refl

walk_complete_example :
    walk (λ (p : Place). p) plain 20 100 (pos 1) 4 [] items ≡ exchange_sort (λ (p : Place). p) items
unfolding behind
walk_complete_example =
    walk_complete (λ (p : Place). p) plain 20 100 (pos 1) items (omega arith) (omega arith)
      ((inr refl, (inr refl, tt)), ((inl refl, tt), (tt, tt))) (ground arith)

abbrev host : String → String → Endpoint
host id tier = record {
  id = id;
  hostname = "WKS-1";
  domain = "corp";
  ip_address = "10.0.0.1";
  mac_address = "";
  os_name = "Windows 11";
  os_build = "";
  serial_number = "";
  manufacturer = "Dell";
  model = "";
  chassis_type = "";
  status = "online";
  agentless_protocol = "winrm";
  compliance_score = 9800;
  rollout_tier = tier;
  organizational_unit = "IT";
  subnet_cidr = "10.0.0.0/24";
  tier_promoted_at = none;
  tier_promoted_by = "";
  tier_promotion_reason = "";
  last_scanned_at = none;
  created_at = pos 0;
  updated_at = pos 0;
}

abbrev pub blank : Repository ℕ
blank = record {
  endpoints = [];
  scans = [];
  gateways = [];
  credentials = [];
  audit_logs = [];
  snapshots = [];
  rollout_settings = record {
    active_tiers = [];
    schedule_enforce_tiers = true;
    updated_at = pos 0;
    updated_by = "";
  };
  alert_health = record {
    last_test_alert_at = none;
    last_test_alert_status = "NEVER_TESTED";
    last_test_alert_operator = "";
    last_test_alert_target_url = "";
    last_test_alert_receipt = "";
    test_alert_lapse_days = pos 999;
    test_alert_lapsed = true;
    configured_webhook_count = 1;
    active_alert_rules_count = 3;
  };
  retention_policy = record {
    retention_days = pos 90;
    strategy = "archive";
    cold_storage_path = "D:\\archives\\snapshots";
    keep_weekly_interval_days = pos 7;
    is_enabled = true;
    last_run_at = none;
    last_run_status = "IDLE";
    last_reclaimed_bytes = pos 0;
    updated_at = pos 0;
    updated_by = "system_init";
  };
}

abbrev fleet : Repository ℕ
fleet = record blank { endpoints = ("e1", host "e1" "pilot") ∷ ("e2", host "e2" "full") ∷ [] }

abbrev admin : Caller
admin = record { actor = "ana"; ip = "10.1.1.1"; now = pos 7; log_id = "l1"; correlation_id = "c1" }

abbrev to_staged : PromoteTierRequest
to_staged = record {
  target_tier = "staged";
  justification = "pilot went well";
  endpoint_ids = [];
  subnet_cidr = "";
  organizational_unit = "";
}

-- Without a selection the pilot host is promoted, and the full one stays.
promoted : (promote_endpoints_tier admin to_staged fleet).1 ≡ changed 1
unfolding promote_endpoints_tier
promoted = refl

-- A full host that is listed is moved back by a promotion.
demoted : should_promote (record to_staged { endpoint_ids = "e2" ∷ [] }) (host "e2" "full") ≡ true
unfolding should_promote
demoted = refl

abbrev tier_ops : List TierCall
tier_ops = promote admin to_staged ∷ modify_one admin "e2" "pilot" "rebuilt" ∷ []

tier_calls-Accounted_example :
    (added : List SecurityAuditLog) × Accounted fleet (tier_calls tier_ops fleet) added
tier_calls-Accounted_example = tier_calls-Accounted tier_ops fleet

abbrev pub snap : String → ℕ → HostSnapshotEntry ℕ
snap id at = record {
  id = id;
  tenant_id = "t";
  host_id = "h";
  hostname = "WKS-1";
  scan_job_id = "";
  payload_hash = "";
  payload = 5;
  is_archived = false;
  archived_at = none;
  archive_location = "";
  archive_checksum = "";
  archive_strategy = "";
  is_downsample_retained = false;
  payload_size_bytes = pos 0;
  created_at = pos at;
}

abbrev snapshot_ops : List (SnapshotCall ℕ)
snapshot_ops =
    save "k" (pos 1) (snap "s1" 1) ∷ mark "s1" ∷ get "u" "s1" ∷ prune "s1" ∷ get "t" "s1" ∷ []

answers_example : answers 0 snapshot_ops blank ≡ spec_answers 0 snapshot_ops (λ id. lookup id [])
answers_example = answers_lem 0 snapshot_ops blank

abbrev stamp : ℤ → String
stamp now = "2026-01-01T00:00:00Z"

abbrev scan_request : CreateScanJobRequest
scan_request = record {
  name = "nightly";
  target_cidr = "10.0.0.0/29";
  scan_profile = "full";
  protocol = "winrm";
  vault_secret_ref = "v1";
  gateway_id = "gw";
}

abbrev job_events : List JobEvent
job_events = wake (pos 2) ∷ wake (pos 3) ∷ cancel (pos 4) ∷ wake (pos 5) ∷ []

created :
    get_scan_job "j1" (create_scan_job stamp (pos 1) "j1" scan_request blank)
    ≡ some (new_job stamp (pos 1) "j1" scan_request)
unfolding get_scan_job create_scan_job
created = refl

abbrev entry : SecurityAuditLog
entry = promotion_log admin to_staged 1

abbrev repeated : ℕ → List SecurityAuditLog
repeated zero = []
repeated (suc n) = entry ∷ repeated n

abbrev crowded : Repository ℕ
crowded = record blank { audit_logs = repeated 999 }

abbrev delivered : TestAlertResponse
delivered = record {
  status = "DELIVERED";
  target_url = "https://hooks";
  status_code = pos 200;
  duration_ms = pos 12;
  delivery_id = "d1";
  verification_receipt = "r1";
  error_message = "";
  alert_notice = "";
}

later_by : pos (100 * day) -ℤ pos day ≡ pos (99 * day)
unfolding ◌-ℤ◌
later_by = refl
