-- ===== src/Compliance/Summary.antt =====
-- apps/api/internal/compliance/repository.go: `GetTenantSummary`, the scores of a tenant's hosts.
-- The sum of two `float64` is a parameter, like the rest of their arithmetic.
pub mod Tenants
use Prim.Native.String.{◌++◌}
use zero_agent_scan.Prelude.{
  ℕ, suc, String, Bool, not, ◌&&◌, ◌||◌, Option, some, [], ◌∷◌, ◌==◌, Map, ltb, if◌then◌else◌,
}
use zero_agent_scan.Prelude.Int.{ℤ}
use zero_agent_scan.Prelude.Text.{codes, starts_with, equal_fold, trim, to_lower}
use zero_agent_scan.Compliance.Values.{Floats}
use zero_agent_scan.Compliance.Engine.{HostComplianceScore, Arithmetic, cis_win11_framework_code}
use zero_agent_scan.Compliance.Hosts.{HostRepository, or_default}
use zero_agent_scan.Compliance.Catalog.{canonical_code}

pub record TenantComplianceSummary (F : Type 0) : Type 0 where
  pub tenant_id : String
  pub framework_code : String
  pub total_hosts : ℕ
  pub compliant_hosts : ℕ
  pub degraded_hosts : ℕ
  pub non_compliant_hosts : ℕ
  pub average_score : F
  pub evaluated_at : ℤ

-- The local variables of the loop.
pub record Totals (F : Type 0) : Type 0 where
  pub total_hosts : ℕ
  pub compliant_hosts : ℕ
  pub degraded_hosts : ℕ
  pub non_compliant_hosts : ℕ
  pub total_score_sum : F

-- `strings.HasPrefix(key, tenantID+":")`
abbrev pub is_key_of : String → String → Bool
is_key_of tenant_id key = starts_with (codes (tenant_id ++ ":")) (codes key)

-- The code asked for, or that of the built-in framework.
unfoldable pub chosen_code : String → String
unfolding to_lower trim
chosen_code framework_code = or_default (canonical_code framework_code) cis_win11_framework_code

module _ {F : Type 0} where
  unfoldable pub is_under : String → HostComplianceScore F → Bool
  unfolding equal_fold
  is_under fw_code score = fw_code == "" || equal_fold score.framework_code fw_code

module _ {F : Type 0} (ops : Floats F) (arith_ops : Arithmetic F) (add_float : F → F → F) where
  abbrev pub no_totals : Totals F
  no_totals = record {
    total_hosts = 0;
    compliant_hosts = 0;
    degraded_hosts = 0;
    non_compliant_hosts = 0;
    total_score_sum = ops.zero_float;
  }

  abbrev pub count_score : HostComplianceScore F → Totals F → Totals F
  count_score score totals =
      let counted = record totals {
        total_hosts = suc totals.total_hosts;
        total_score_sum = add_float totals.total_score_sum score.score;
      } in
      if ops.le_float (arith_ops.of_nat 90) score.score
      then record counted { compliant_hosts = suc totals.compliant_hosts }
      else if ops.le_float (arith_ops.of_nat 70) score.score
      then record counted { degraded_hosts = suc totals.degraded_hosts }
      else record counted { non_compliant_hosts = suc totals.non_compliant_hosts }

  -- The body of the loop for one entry.
  unfoldable pub count_entry :
      String → String → String → HostComplianceScore F → Totals F → Totals F
  unfolding is_under
  count_entry tenant_id fw_code key score totals =
      if is_key_of tenant_id key && is_under fw_code score then count_score score totals else totals

  unfoldable pub count_scores : String → String → Map (HostComplianceScore F) → Totals F → Totals F
  unfolding count_entry
  count_scores tenant_id fw_code [] totals = totals
  count_scores tenant_id fw_code ((key, score) ∷ rest) totals =
      count_scores tenant_id fw_code rest (count_entry tenant_id fw_code key score totals)

  abbrev average : Totals F → F
  average totals =
      if ltb 0 totals.total_hosts
      then arith_ops.div totals.total_score_sum (arith_ops.of_nat totals.total_hosts)
      else ops.zero_float

  abbrev pub summary_of : String → String → ℤ → Totals F → TenantComplianceSummary F
  summary_of tenant_id fw_code now totals = record {
    tenant_id = tenant_id;
    framework_code = fw_code;
    total_hosts = totals.total_hosts;
    compliant_hosts = totals.compliant_hosts;
    degraded_hosts = totals.degraded_hosts;
    non_compliant_hosts = totals.non_compliant_hosts;
    average_score = average totals;
    evaluated_at = now;
  }

  -- `order` is the order in which the loop runs through the map, another one in each call; the sum of
  -- the scores depends on it, as that of `float64` does.
  unfoldable pub get_tenant_summary :
      (Map (HostComplianceScore F) → Map (HostComplianceScore F))
      → String
      → String
      → ℤ
      → HostRepository F
      → TenantComplianceSummary F
  unfolding count_scores chosen_code
  get_tenant_summary order tenant_id framework_code now repo =
      let fw_code = chosen_code framework_code in
      summary_of tenant_id fw_code now
        (count_scores tenant_id fw_code (order repo.host_scores) no_totals)
