-- ===== src/Compliance/Catalog.antt =====
-- apps/api/internal/compliance/repository.go: the frameworks and the rules of
-- `MemoryComplianceRepository`. The identifier that `uuid.New` would draw is an argument.
pub mod Listed
use zero_agent_scan.Prelude.{
  String, Option, none, some, List, [], ◌∷◌, ◌==◌, Bool, Map, lookup, insert, values, if◌then◌else◌,
}
use zero_agent_scan.Prelude.Int.{ℤ}
use zero_agent_scan.Prelude.Text.{trim, to_lower, equal_fold}
use zero_agent_scan.Compliance.Engine.{ComplianceRule}
use zero_agent_scan.Compliance.Hosts.{or_default}

pub record ComplianceFramework : Type 0 where
  pub id : String
  pub code : String
  pub name : String
  pub version : String
  pub target_os : String
  pub description : String
  pub is_builtin : Bool
  pub created_at : ℤ

pub record Catalog : Type 0 where
  pub frameworks : Map ComplianceFramework
  pub rules : Map ComplianceRule

pub data CatalogError : Type 0 where
  missing_framework_code missing_rule_code : CatalogError

abbrev pub canonical_code : String → String
canonical_code code = to_lower (trim code)

unfoldable pub save_framework :
    String → ComplianceFramework → Catalog → Catalog × Option CatalogError
unfolding to_lower trim
save_framework new_id fw catalog =
    let stored = record fw { id = or_default fw.id new_id; code = canonical_code fw.code } in
    if fw.code == ""
    then (catalog, some missing_framework_code)
    else (record catalog { frameworks = insert stored.code stored catalog.frameworks }, none)

abbrev list_frameworks : Catalog → List ComplianceFramework
list_frameworks catalog = values catalog.frameworks

unfoldable pub get_framework_by_code : String → Catalog → Option ComplianceFramework
unfolding to_lower trim
get_framework_by_code code catalog = lookup (canonical_code code) catalog.frameworks

unfoldable pub save_rule : String → ComplianceRule → Catalog → Catalog × Option CatalogError
unfolding to_lower trim
save_rule new_id rule catalog =
    let stored = record rule {
      id = or_default rule.id new_id;
      framework_code = canonical_code rule.framework_code;
    } in
    if rule.rule_code == ""
    then (catalog, some missing_rule_code)
    else if rule.framework_code == ""
    then (catalog, some missing_framework_code)
    else (record catalog { rules = insert stored.id stored catalog.rules }, none)

abbrev pub rules_under : String → List ComplianceRule → List ComplianceRule
rules_under code [] = []
rules_under code (rule ∷ rules) =
    let rest = rules_under code rules in
    if equal_fold rule.framework_code code then rule ∷ rest else rest

unfoldable pub list_rules_by_framework : String → Catalog → List ComplianceRule
unfolding to_lower trim equal_fold
list_rules_by_framework framework_code catalog =
    rules_under (canonical_code framework_code) (values catalog.rules)

abbrev pub get_rule_by_id : String → Catalog → Option ComplianceRule
get_rule_by_id id catalog = lookup id catalog.rules

abbrev save_rules : (ComplianceRule → String) → List ComplianceRule → Catalog → Catalog
save_rules new_id [] catalog = catalog
save_rules new_id (rule ∷ rules) catalog =
    save_rules new_id rules (save_rule (new_id rule) rule catalog).0

-- The built-in framework and its rules are saved first.
abbrev new_memory_compliance_repository :
    (ComplianceRule → String) → String → ComplianceFramework → List ComplianceRule → Catalog
new_memory_compliance_repository new_id new_framework_id fw rules =
    let empty : Catalog = record { frameworks = []; rules = [] } in
    save_rules new_id rules (save_framework new_framework_id fw empty).0
