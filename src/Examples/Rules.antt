-- ===== src/Examples/Rules.antt =====
-- A rule on a small snapshot (jsonlogic.go, engine.go); numbers are natural ones here.
use zero_agent_scan.Prelude.{
  ℕ, ◌+◌, String, ◌≡◌, refl, ap, ◌==◌, ◌↔◌, true, false, Option, none, some, List, [], ◌∷◌, map,
  arith, ltb, leb, eqb, lookup, insert, length, ◌*◌,
}
use zero_agent_scan.Prelude.Int.{pos}
use zero_agent_scan.Prelude.Text.{split}
use zero_agent_scan.Compliance.Values.{
  Value, Items, Fields, Floats, bool, number, text, object, done, item, end, field, resolve_var,
}
use zero_agent_scan.Compliance.Logic.{
  ok, err, unsupported_operator, eval_node, apply_operator, evaluate_expression,
}
use zero_agent_scan.Compliance.Connectives.{node, Holds, EachItem, eval_node-and_true}
use zero_agent_scan.Compliance.Engine.{
  ComplianceRule, EvaluationResult, HostComplianceScore, Snapshot, Arithmetic, rule_status,
  extract_value,
}
use zero_agent_scan.Compliance.Hosts.{
  HostRepository, save_evaluations, get_host_score, get_host_evaluations, evaluated, score_of,
  evaluate_host,
}
use zero_agent_scan.Compliance.Scoring.{
  passes, fails, tally_results, expected, chosen_rules, evaluate_host-counts,
  save_evaluations-isolated,
}

abbrev pub naturals : Floats ℕ
naturals = record {
  zero_float = 0;
  eq_float = eqb;
  lt_float = ltb;
  le_float = leb;
  parse_float = λ s. none;
  show_value = λ v. "";
}

abbrev data_fields : Fields ℕ
data_fields =
    field "tpm" (object (field "present" (bool true) (field "version" (number 2) end))) end

abbrev present : Value ℕ
present = object (field "var" (text "tpm.present") end)

abbrev recent : Value ℕ
recent = node "<=" (item (number 2) (item (object (field "var" (text "tpm.version") end)) done))

abbrev both : Items ℕ
both = item present (item recent done)

abbrev absent : Items ℕ
absent = item (object (field "var" (text "tpm.missing") end)) done

tpm_evaluates : eval_node naturals data_fields present ≡ ok (bool true)
unfolding eval_node apply_operator lookup resolve_var split
tpm_evaluates = refl

both_evaluates : eval_node naturals data_fields (node "and" both) ≡ ok (bool true)
unfolding eval_node apply_operator lookup resolve_var split
both_evaluates = refl

unknown_operator :
    eval_node naturals data_fields (node "xor" both) ≡ err (unsupported_operator "xor")
unfolding eval_node apply_operator lookup
unknown_operator = refl

eval_node-and_true_example :
    (eval_node naturals data_fields (node "and" both) ≡ ok (bool true))
    ↔ EachItem naturals data_fields (Holds naturals data_fields) both
eval_node-and_true_example = eval_node-and_true naturals data_fields both

abbrev pub scoring : Arithmetic ℕ
scoring = record {
  of_nat = λ n. n;
  mul = λ a b. a * b;
  div = λ a b. a;
  round = λ a. a;
  is_integer = λ a. true;
  format_int = λ a. "";
  format_fixed = λ a. "";
  marshal = λ v. "";
}

abbrev parse : String → Option (Value ℕ)
parse s = some (node "and" both)

abbrev named : ComplianceRule → String
named rule = rule.id

abbrev pub tpm_rule : ComplianceRule
tpm_rule = record {
  id = "r1";
  framework_id = "fw";
  framework_code = "cis_win11_v2.0";
  rule_code = "1.1";
  title = "TPM";
  category = "Firmware";
  level = "Level 1";
  severity = "HIGH";
  rationale = "";
  expected_value = "true";
  check_expression = "{\"and\": []}";
  remediation_script = "";
  created_at = pos 0;
}

abbrev rules_of : String → List ComplianceRule
rules_of code = tpm_rule ∷ []

abbrev scanned : Snapshot ℕ
scanned = record { hostname = "pc-1"; normalized = some data_fields }

abbrev pub empty_repository : HostRepository ℕ
empty_repository = record { evaluations = []; host_scores = [] }

abbrev pub host_results : List EvaluationResult
host_results =
    map (expected naturals scoring parse named (pos 3) rules_of "t1" "h1" "" "" scanned)
      (tpm_rule ∷ [])

abbrev pub one_passed : HostComplianceScore ℕ
one_passed = score_of naturals scoring parse named (pos 3) "t1" "h1" "pc-1" "cis_win11_v2.0" 1 0

abbrev scored : HostRepository ℕ
scored = save_evaluations "t1" "h1" host_results one_passed empty_repository

scored_run :
    evaluate_host naturals scoring parse named
      (pos 3)
      rules_of
      "t1"
      "h1"
      ""
      (some scanned)
      ""
      empty_repository
    ≡ (scored, evaluated host_results one_passed)
unfolding evaluate_host rule_status eval_node apply_operator lookup insert resolve_var split
    extract_value evaluate_expression
scored_run = refl

evaluate_host-counts_example :
    (host_results
      ≡ map
          (expected naturals scoring parse named (pos 3) rules_of "t1" "h1" "" "" scanned)
          (chosen_rules naturals scoring parse named (pos 3) rules_of "t1" "h1" "" "" scanned))
    × (one_passed.passed_rules ≡ tally_results passes host_results)
    × (one_passed.failed_rules ≡ tally_results fails host_results)
    × (one_passed.total_rules ≡ length host_results)
    × (one_passed.passed_rules + one_passed.failed_rules ≡ one_passed.total_rules)
    × (get_host_evaluations "t1" "h1" scored ≡ some (host_results, some one_passed))
evaluate_host-counts_example =
    evaluate_host-counts naturals scoring parse named (pos 3) rules_of "t1" "h1" "" "" scanned
      empty_repository scored host_results one_passed scored_run

save_evaluations-isolated_example :
    (get_host_score "t2" "h1" (save_evaluations "t1" "h1" host_results one_passed empty_repository)
      ≡ get_host_score "t2" "h1" empty_repository)
    × (get_host_evaluations "t2" "h1"
          (save_evaluations "t1" "h1" host_results one_passed empty_repository)
        ≡ get_host_evaluations "t2" "h1" empty_repository)
save_evaluations-isolated_example =
    save_evaluations-isolated "t1" "t2" "h1" "h1" host_results one_passed empty_repository refl refl
      (λ e. let differ : true ≡ false = ap (λ s. s == "t1") e in absurd (ground arith))

-- A tenant named like another one with a colon behind it shares its keys.
shared_key :
    get_host_score "t1:a" "b" (save_evaluations "t1" "a:b" host_results one_passed empty_repository)
    ≡ some one_passed
unfolding get_host_score save_evaluations lookup insert
shared_key = refl

tpm_found : resolve_var data_fields "tpm.version" ≡ number 2
unfolding resolve_var split lookup
tpm_found = refl
