-- ===== src/Fleet/Audit/Lapse.antt =====
-- When a test alert counts as lapsed (repository.go).
use zero_agent_scan.Prelude.{ℕ, ◌*◌, ◌≡◌, String, not, ◌||◌, ◌==◌, leb, arith}
use zero_agent_scan.Prelude.Int.{ℤ, pos, ◌-ℤ◌}
use zero_agent_scan.Fleet.Records.{Repository}
use zero_agent_scan.Fleet.Audit.{
  TestAlertResponse, day, health_at, get_alert_health_status, record_test_alert_result,
}

module _ {P : Type 0} where
  -- After a test alert has been recorded, a query that comes `elapsed` nanoseconds later, which is
  -- not earlier, reports it as lapsed if 90 days have gone by or it was not delivered, and only then.
  pub get_alert_health_status-record_test_alert_result :
      (show : ℤ → String) (now later : ℤ) (elapsed : ℕ) (resp : TestAlertResponse)
      (operator ip : String) (r : Repository P)
      → later -ℤ now ≡ pos elapsed
      → (get_alert_health_status later
          (record_test_alert_result show now resp operator ip r)).test_alert_lapsed
        ≡ (leb (90 * day) elapsed || not (resp.status == "DELIVERED"))
  unfolding get_alert_health_status record_test_alert_result health_at
  get_alert_health_status-record_test_alert_result show now later elapsed resp operator ip r h =
      rw h (ground arith)
