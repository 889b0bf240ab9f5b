-- ===== src/Compliance/Engine.antt =====
-- apps/api/internal/compliance/engine.go and types.go: the evaluation of a host's rules.
-- A snapshot is its JSON form, as `normalizeData` returns it. The identifiers of the results, the
-- clock, `json.Unmarshal` and the arithmetic on `float64` are parameters.
use zero_agent_scan.Prelude.{
  ℕ, suc, String, Bool, true, false, Option, none, some, List, [], ◌∷◌, ◌==◌, ltb, if◌then◌else◌,
}
use zero_agent_scan.Prelude.Int.{ℤ}
use zero_agent_scan.Prelude.Text.{codes, from_first, skip_chars, before_first}
use zero_agent_scan.Compliance.Values.{Value, Fields, Floats, null, bool, number, text, resolve_var}
use zero_agent_scan.Compliance.Logic.{Result, ok, err, evaluate_expression}

pub record ComplianceRule : Type 0 where
  pub id : String
  pub framework_id : String
  pub framework_code : String
  pub rule_code : String
  pub title : String
  pub category : String
  pub level : String
  pub severity : String
  pub rationale : String
  pub expected_value : String
  pub check_expression : String
  pub remediation_script : String
  pub created_at : ℤ

pub data RuleStatus : Type 0 where
  pass fail : RuleStatus

pub record EvaluationResult : Type 0 where
  pub id : String
  pub tenant_id : String
  pub host_id : String
  pub hostname : String
  pub framework_id : String
  pub framework_code : String
  pub rule_id : String
  pub rule_code : String
  pub rule_title : String
  pub category : String
  pub severity : String
  pub status : RuleStatus
  pub actual_value : String
  pub expected_value : String
  pub evaluated_at : ℤ

pub data HostStatus : Type 0 where
  compliant degraded non_compliant : HostStatus

pub record HostComplianceScore (F : Type 0) : Type 0 where
  pub tenant_id : String
  pub host_id : String
  pub hostname : String
  pub framework_code : String
  pub total_rules : ℕ
  pub passed_rules : ℕ
  pub failed_rules : ℕ
  pub score : F
  pub status : HostStatus
  pub last_evaluated_at : ℤ

pub record Snapshot (F : Type 0) : Type 0 where
  pub hostname : String
  pub normalized : Option (Fields F)

-- `float64` as the scoring and the reporting use it.
pub record Arithmetic (F : Type 0) : Type 0 where
  pub of_nat : ℕ → F
  pub mul : F → F → F
  pub div : F → F → F
  pub round : F → F
  pub is_integer : F → Bool
  pub format_int : F → String
  pub format_fixed : F → String
  pub marshal : Value F → String

pub data EngineError : Type 0 where
  nil_snapshot missing_tenant missing_host no_rules : EngineError

abbrev pub cis_win11_framework_code : String
cis_win11_framework_code = "cis_win11_v2.0"

abbrev quoted : Option String → String
quoted none = ""
quoted (some rest) = elim (from_first (b'"' ∷ []) rest) [
  | none ↦ ""
  | some opened ↦ elim (before_first b'"' (skip_chars 1 opened)) [ none ↦ "" | some path ↦ path ]
]

-- `exprJSON[idx+6:]`, at the first of two spellings.
abbrev after_var : String → Option String
after_var expression = elim (from_first (codes "\"var\":") expression) [
  | some found ↦ some (skip_chars 6 found)
  | none ↦ elim (from_first (codes "\"var\" :") expression) [
    | some found ↦ some (skip_chars 6 found)
    | none ↦ none
  ]
]

unfoldable pub extract_var_from_expr : String → String
extract_var_from_expr expression = quoted (after_var expression)

abbrev pub status_of : Result Bool → RuleStatus
status_of (ok true) = pass
status_of (ok false) = fail
status_of (err e) = fail

abbrev pub is_pass : RuleStatus → Bool
is_pass pass = true
is_pass fail = false

-- The loop over the rules, with the results so far and the two counters.
unfoldable pub evaluate_rules :
    (ComplianceRule → EvaluationResult) → List ComplianceRule → List EvaluationResult × (ℕ × ℕ)
evaluate_rules evaluate [] = ([], (0, 0))
evaluate_rules evaluate (rule ∷ rules) =
    let res = evaluate rule in
    let (results, (passed, failed)) = evaluate_rules evaluate rules in
    (res ∷ results, if is_pass res.status then (suc passed, failed) else (passed, suc failed))

module _ {F : Type 0} (ops : Floats F) (arith_ops : Arithmetic F) where
  abbrev print_value : Value F → String
  print_value null = "<null>"
  print_value (text s) = s
  print_value (bool true) = "true"
  print_value (bool false) = "false"
  print_value (number x) =
      if arith_ops.is_integer x then arith_ops.format_int x else arith_ops.format_fixed x
  print_value v = arith_ops.marshal v

  unfoldable pub extract_value : Option (Fields F) → String → String
  unfolding resolve_var
  extract_value none path = "<error>"
  extract_value (some fields) path = print_value (resolve_var fields path)

  -- `math.Round(passed / total * 10000) / 100`, or 0 of none.
  unfoldable pub score_pct : ℕ → ℕ → F
  score_pct passed total =
      if ltb 0 total
      then arith_ops.div
          (arith_ops.round (
            arith_ops.mul (arith_ops.div (arith_ops.of_nat passed) (arith_ops.of_nat total))
              (arith_ops.of_nat 10000)))
          (arith_ops.of_nat 100)
      else ops.zero_float

  unfoldable pub host_status : F → HostStatus
  host_status score =
      if ops.le_float (arith_ops.of_nat 90) score
      then compliant
      else if ops.le_float (arith_ops.of_nat 70) score
      then degraded
      else non_compliant

  module _ (unmarshal : String → Option (Value F)) (new_id : ComplianceRule → String)
      (now : ℤ) where
    unfoldable pub rule_status : Snapshot F → ComplianceRule → RuleStatus
    unfolding evaluate_expression
    rule_status snapshot rule =
        status_of (evaluate_expression ops unmarshal rule.check_expression snapshot.normalized)

    abbrev actual_value_of : Snapshot F → String → String
    unfolding extract_value
    actual_value_of snapshot path =
        if path == "" then "<evaluated>" else extract_value snapshot.normalized path

    unfoldable pub result_of :
        String → String → String → Snapshot F → ComplianceRule → EvaluationResult
    unfolding rule_status extract_var_from_expr extract_value
    result_of tenant_id host_id hostname snapshot rule = record {
      id = new_id rule;
      tenant_id = tenant_id;
      host_id = host_id;
      hostname = hostname;
      framework_id = rule.framework_id;
      framework_code = rule.framework_code;
      rule_id = rule.id;
      rule_code = rule.rule_code;
      rule_title = rule.title;
      category = rule.category;
      severity = rule.severity;
      status = rule_status snapshot rule;
      actual_value = actual_value_of snapshot (extract_var_from_expr rule.check_expression);
      expected_value = rule.expected_value;
      evaluated_at = now;
    }
