-- ===== src/Compliance/Hosts.antt =====
-- apps/api/internal/compliance/engine.go over repository.go: the score of a host, and its store.
use Prim.Native.String.{◌++◌}
use zero_agent_scan.Prelude.{
  ℕ, ◌+◌, String, Option, none, some, List, [], ◌∷◌, ◌==◌, Map, lookup, insert, if◌then◌else◌,
}
use zero_agent_scan.Prelude.Int.{ℤ}
use zero_agent_scan.Compliance.Values.{Value, Floats}
use zero_agent_scan.Compliance.Engine.{
  ComplianceRule, EvaluationResult, HostComplianceScore, Snapshot, Arithmetic, EngineError,
  nil_snapshot, missing_tenant, missing_host, no_rules, cis_win11_framework_code, evaluate_rules,
  score_pct, host_status, result_of,
}

pub record HostRepository (F : Type 0) : Type 0 where
  pub evaluations : Map (List EvaluationResult)
  pub host_scores : Map (HostComplianceScore F)

abbrev pub host_key : String → String → String
host_key tenant_id host_id = tenant_id ++ (":" ++ host_id)

module _ {F : Type 0} where
  unfoldable pub save_evaluations :
      String
      → String
      → List EvaluationResult
      → HostComplianceScore F
      → HostRepository F
      → HostRepository F
  save_evaluations tenant_id host_id results score repo =
      let key = host_key tenant_id host_id in
      record {
        evaluations = insert key results repo.evaluations;
        host_scores = insert key score repo.host_scores;
      }

  unfoldable pub get_host_score :
      String → String → HostRepository F → Option (HostComplianceScore F)
  get_host_score tenant_id host_id repo = lookup (host_key tenant_id host_id) repo.host_scores

  unfoldable pub get_host_evaluations :
      String
      → String
      → HostRepository F
      → Option (List EvaluationResult × Option (HostComplianceScore F))
  get_host_evaluations tenant_id host_id repo =
      let key = host_key tenant_id host_id in
      elim (lookup key repo.evaluations) [
        | none ↦ none
        | some evals ↦ some (evals, lookup key repo.host_scores)
      ]

pub data Evaluated (F : Type 0) : Type 0 where
  evaluated : List EvaluationResult → HostComplianceScore F → Evaluated F
  rejected : EngineError → Evaluated F

abbrev pub or_default : String → String → String
or_default s default = if s == "" then default else s

module _ {F : Type 0} (ops : Floats F) (arith_ops : Arithmetic F)
    (unmarshal : String → Option (Value F)) (new_id : ComplianceRule → String) (now : ℤ) where
  unfoldable pub score_of : String → String → String → String → ℕ → ℕ → HostComplianceScore F
  unfolding score_pct host_status
  score_of tenant_id host_id hostname code passed failed =
      let score = score_pct ops arith_ops passed (passed + failed) in
      record {
        tenant_id = tenant_id;
        host_id = host_id;
        hostname = hostname;
        framework_code = code;
        total_rules = passed + failed;
        passed_rules = passed;
        failed_rules = failed;
        score = score;
        status = host_status ops arith_ops score;
        last_evaluated_at = now;
      }

  -- The end of `EvaluateHost`: the score of what the loop has counted, and its store.
  unfoldable pub conclude :
      String
      → String
      → String
      → String
      → HostRepository F
      → List EvaluationResult × (ℕ × ℕ)
      → HostRepository F × Evaluated F
  unfolding score_of save_evaluations
  conclude tenant_id host_id hostname code repo (results, (passed, failed)) =
      let score = score_of tenant_id host_id hostname code passed failed in
      (save_evaluations tenant_id host_id results score repo, evaluated results score)

  -- `EvaluateHost` once its arguments are checked and completed.
  unfoldable pub evaluate_checked :
      String
      → String
      → String
      → Snapshot F
      → String
      → List ComplianceRule
      → HostRepository F
      → HostRepository F × Evaluated F
  unfolding evaluate_rules result_of conclude
  evaluate_checked tenant_id host_id hostname snapshot code [] repo = (repo, rejected no_rules)
  evaluate_checked tenant_id host_id hostname snapshot code (rule ∷ rules) repo =
      conclude tenant_id host_id hostname code repo (
        evaluate_rules
          (result_of ops arith_ops unmarshal new_id now tenant_id host_id hostname snapshot)
          (rule ∷ rules))

  unfoldable pub evaluate_host :
      (String → List ComplianceRule)
      → String
      → String
      → String
      → Option (Snapshot F)
      → String
      → HostRepository F
      → HostRepository F × Evaluated F
  unfolding evaluate_checked
  evaluate_host list_rules tenant_id host_id hostname none code repo = (repo, rejected nil_snapshot)
  evaluate_host list_rules tenant_id host_id hostname (some snapshot) code repo =
      if tenant_id == ""
      then (repo, rejected missing_tenant)
      else if host_id == ""
      then (repo, rejected missing_host)
      else let chosen = or_default code cis_win11_framework_code in
        evaluate_checked tenant_id host_id (or_default hostname snapshot.hostname) snapshot chosen
          (list_rules chosen) repo
