-- ===== src/Examples/Catalogs.antt =====
-- A rule saved under another spelling of its framework, and the first host of a tenant's summary
-- (repository.go); numbers are natural ones here.
use mathlib.Core.List.Permᴰ
use zero_agent_scan.Examples.Sorts.{backwards, backwards-Reorders}
use zero_agent_scan.Prelude.{ℕ, ◌+◌, ◌≡◌, refl, false, none, some, [], ◌∷◌, lookup, insert, Any}
use zero_agent_scan.Prelude.Int.{pos}
use zero_agent_scan.Prelude.Text.{trim, to_lower}
use zero_agent_scan.Compliance.Engine.{ComplianceRule, host_status}
use zero_agent_scan.Compliance.Hosts.{save_evaluations, get_host_score, HostRepository}
use zero_agent_scan.Compliance.Catalog.{
  ComplianceFramework, save_framework, get_framework_by_code, Catalog, save_rule, get_rule_by_id,
  list_rules_by_framework,
}
use zero_agent_scan.Compliance.Catalog.Listed.{stored_rule, saved_rule_listed}
use zero_agent_scan.Compliance.Summary.{
  TenantComplianceSummary, is_under, chosen_code, get_tenant_summary,
}
use zero_agent_scan.Compliance.Summary.Tenants.{get_tenant_summary-save_evaluations}
use zero_agent_scan.Examples.Rules.{
  naturals, scoring, one_passed, tpm_rule, empty_repository, host_results,
}

abbrev loud_rule : ComplianceRule
loud_rule = record tpm_rule { id = ""; framework_code = " CIS_Win11_v2.0" }

abbrev no_rules_yet : Catalog
no_rules_yet = record { frameworks = []; rules = [] }

abbrev one_rule : Catalog
one_rule = record no_rules_yet { rules = ("u-1", stored_rule "u-1" loud_rule) ∷ [] }

loud_rule_saves : save_rule "u-1" loud_rule no_rules_yet ≡ (one_rule, none)
unfolding save_rule insert
loud_rule_saves = refl

spelled_alike : to_lower (trim "cis_win11_V2.0 ") ≡ to_lower (trim " CIS_Win11_v2.0")
unfolding to_lower trim
spelled_alike = refl

saved_rule_listed_example :
    (get_rule_by_id "u-1" one_rule ≡ some (stored_rule "u-1" loud_rule))
    × Any
        (λ r. r ≡ stored_rule "u-1" loud_rule)
        (list_rules_by_framework "cis_win11_V2.0 " one_rule)
saved_rule_listed_example =
    saved_rule_listed "u-1" loud_rule no_rules_yet one_rule "cis_win11_V2.0 " loud_rule_saves
      spelled_alike

-- A first host of the tenant is scored, and then a second one.
abbrev one_scored : HostRepository ℕ
one_scored = save_evaluations "t1" "h1" host_results one_passed empty_repository

unscored : get_host_score "t1" "h2" one_scored ≡ none
unfolding get_host_score save_evaluations lookup insert
unscored = refl

abbrev one_host : TenantComplianceSummary ℕ
one_host = get_tenant_summary naturals scoring ◌+◌ (λ m. m) "t1" "" (pos 4) one_scored

-- The second call runs through the map from its end.
abbrev two_hosts : TenantComplianceSummary ℕ
two_hosts =
    get_tenant_summary naturals scoring ◌+◌ backwards "t1" "" (pos 5)
      (save_evaluations "t1" "h2" host_results one_passed one_scored)

get_tenant_summary-save_evaluations_example :
    (two_hosts.total_hosts ≡ one_host.total_hosts + 1)
    × (two_hosts.compliant_hosts ≡ one_host.compliant_hosts + 1)
    × (two_hosts.degraded_hosts ≡ one_host.degraded_hosts + 0)
    × (two_hosts.non_compliant_hosts ≡ one_host.non_compliant_hosts + 0)
    × (one_host.total_hosts
        ≡ one_host.compliant_hosts + one_host.degraded_hosts + one_host.non_compliant_hosts)
unfolding is_under chosen_code host_status zero_agent_scan.Compliance.Hosts.score_of
get_tenant_summary-save_evaluations_example =
    get_tenant_summary-save_evaluations naturals scoring ◌+◌ (λ m. m) backwards Permᴰ.refl
      backwards-Reorders "t1" "t1" "" "h2" (pos 4) (pos 5) host_results one_passed one_scored refl
      refl unscored

abbrev blank_framework : ComplianceFramework
blank_framework = record {
  id = "f1";
  code = " ";
  name = "Blank";
  version = "1";
  target_os = "";
  description = "";
  is_builtin = false;
  created_at = pos 0;
}

-- A framework whose code is blank is saved, under the empty code.
blank_framework_saved :
    get_framework_by_code "" (save_framework "u-2" blank_framework no_rules_yet).0
    ≡ some (record blank_framework { code = "" })
unfolding get_framework_by_code save_framework lookup insert
blank_framework_saved = refl
