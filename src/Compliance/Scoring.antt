-- ===== src/Compliance/Scoring.antt =====
-- The score of a host against its rules (engine.go), and the keys of the store (repository.go).
use Prim.Native.String.{◌++◌}
use Prim.Native.Char.{Char, code}
use Prim.Native.String.append
use mathlib.Core.Path.{subst}
use zero_agent_scan.Prelude.{
  ℕ, ◌+◌, String, ◌≡◌, ◌≢◌, refl, sym, ◌∙◌, ap, inl, inr, Bool, false, not, ◌||◌, eqb, Option, some,
  List, [], ◌∷◌, map, arith, ◌==◌, eq_iff, lookup-insert, lookup-insert_self, length, tally,
  Bool-cases, if_both,
}
use zero_agent_scan.Prelude.Int.{ℤ}
use zero_agent_scan.Compliance.Values.{Value, Floats}
use zero_agent_scan.Compliance.Engine.{
  ComplianceRule, EvaluationResult, HostComplianceScore, Snapshot, Arithmetic, is_pass,
  evaluate_rules, result_of, cis_win11_framework_code,
}
use zero_agent_scan.Compliance.Hosts.{
  HostRepository, host_key, save_evaluations, get_host_score, get_host_evaluations, Evaluated,
  evaluated, rejected, or_default, conclude, evaluate_checked, evaluate_host, score_of,
}

-- The results with a status, counted.
abbrev pub tally_results : (EvaluationResult → Bool) → List EvaluationResult → ℕ
tally_results p [] = 0
tally_results p (r ∷ rs) = tally (p r) + tally_results p rs

abbrev pub passes : EvaluationResult → Bool
passes r = is_pass r.status

abbrev pub fails : EvaluationResult → Bool
fails r = not (is_pass r.status)

evaluate_rules_lem :
    (f : ComplianceRule → EvaluationResult) (rules : List ComplianceRule)
    → evaluate_rules f rules
      ≡ (map f rules, (tally_results passes (map f rules), tally_results fails (map f rules)))
unfolding evaluate_rules
evaluate_rules_lem f [] = refl
evaluate_rules_lem f (rule ∷ rules) =
    rw (evaluate_rules_lem f rules) (elim (Bool-cases (is_pass (f rule).status)) [
      | inl e ↦ rw e (ground arith)
      | inr e ↦ rw e (ground arith)
    ])

pub tally_results-split :
    (rs : List EvaluationResult) → tally_results passes rs + tally_results fails rs ≡ length rs
tally_results-split [] = refl
tally_results-split (r ∷ rs) = ground (arith, tally_results-split rs)

abbrev pub has_char : ℕ → String → Bool
has_char n String.[] = false
has_char n (String.◌∷◌ c s) = eqb (code c) n || has_char n s

abbrev pub colon : Char
colon = ":"

pub key-nil : (h : String) → host_key String.[] h ≡ String.◌∷◌ colon h
key-nil h = append.nil (":" ++ h) ∙ append.cons colon "" h ∙ ap (String.◌∷◌ colon) (append.nil h)

pub key-cons : (c : Char) (t h : String) → host_key (String.◌∷◌ c t) h ≡ String.◌∷◌ c (host_key t h)
key-cons c t h = append.cons c t (":" ++ h)

abbrev first_code : String → ℕ
first_code String.[] = 0
first_code (String.◌∷◌ c s) = code c

-- Keys are told apart by their tenants and their hosts, if no tenant holds a colon.
host_key-injective :
    (t u h k : String)
    → has_char b':' t ≡ false
    → has_char b':' u ≡ false
    → host_key t h ≡ host_key u k
    → (t ≡ u) × (h ≡ k)
host_key-injective String.[] String.[] h k p q e = ground (arith, key-nil h, key-nil k)
host_key-injective String.[] (String.◌∷◌ d u) h k p q e =
    let first : 58 ≡ code d = ap first_code (sym (key-nil h) ∙ e ∙ key-cons d u k) in
    absurd (ground arith)
host_key-injective (String.◌∷◌ c t) String.[] h k p q e =
    let first : code c ≡ 58 = ap first_code (sym (key-cons c t h) ∙ e ∙ key-nil k) in
    absurd (ground arith)
host_key-injective (String.◌∷◌ c t) (String.◌∷◌ d u) h k p q e =
    let same : String.◌∷◌ c (host_key t h) ≡ String.◌∷◌ d (host_key u k) =
      sym (key-cons c t h) ∙ e ∙ key-cons d u k in
    let rest : host_key t h ≡ host_key u k = ground arith in
    let (tenants, hosts) = host_key-injective t u h k (ground arith) (ground arith) rest in
    (ground arith, hosts)

abbrev pub Colonless : String → Type 0
Colonless s = has_char b':' s ≡ false

module _ {F : Type 0} where
  -- Where no tenant holds a colon, the score and the results of a host are untouched by what is
  -- saved for any host of another tenant.
  pub save_evaluations-isolated :
      (t u h k : String) (results : List EvaluationResult) (score : HostComplianceScore F)
      (repo : HostRepository F)
      → Colonless t
      → Colonless u
      → t ≢ u
      → (get_host_score u k (save_evaluations t h results score repo) ≡ get_host_score u k repo)
        × (get_host_evaluations u k (save_evaluations t h results score repo)
            ≡ get_host_evaluations u k repo)
  unfolding get_host_score get_host_evaluations save_evaluations
  save_evaluations-isolated t u h k results score repo p q other =
      elim (Bool-cases (host_key t h == host_key u k)) [
        | inl e ↦
            absurd (
              other (host_key-injective t u h k p q ((eq_iff (host_key t h) (host_key u k)).0 e)).0)
        | inr e ↦
            let scores = lookup-insert (host_key t h) (host_key u k) score repo.host_scores in
            let lists = lookup-insert (host_key t h) (host_key u k) results repo.evaluations in
            (ground arith, ground arith)
      ]

  get_host_evaluations-save_evaluations :
      (t h : String) (results : List EvaluationResult) (score : HostComplianceScore F)
      (repo : HostRepository F)
      → get_host_evaluations t h (save_evaluations t h results score repo)
        ≡ some (results, some score)
  unfolding get_host_evaluations save_evaluations
  get_host_evaluations-save_evaluations t h results score repo = ground (
    arith,
    lookup-insert_self (host_key t h) results repo.evaluations,
    lookup-insert_self (host_key t h) score repo.host_scores,
  )

module _ {F : Type 0} (ops : Floats F) (arith_ops : Arithmetic F)
    (unmarshal : String → Option (Value F)) (new_id : ComplianceRule → String) (now : ℤ)
    (list_rules : String → List ComplianceRule) (tenant_id host_id hostname code : String)
    (snapshot : Snapshot F) where
  -- The result that the engine has for one rule.
  abbrev pub expected : ComplianceRule → EvaluationResult
  expected =
      result_of ops arith_ops unmarshal new_id now tenant_id host_id
        (or_default hostname snapshot.hostname) snapshot

  abbrev pub chosen_rules : List ComplianceRule
  chosen_rules = list_rules (or_default code cis_win11_framework_code)

  -- What a finished evaluation has counted and stored.
  record Counted (repo : HostRepository F) (results : List EvaluationResult)
      (score : HostComplianceScore F) : Type 0 where
    all_rules : results ≡ map expected chosen_rules
    passed : score.passed_rules ≡ tally_results passes results
    failed : score.failed_rules ≡ tally_results fails results
    total : score.total_rules ≡ length results
    stored : get_host_evaluations tenant_id host_id repo ≡ some (results, some score)

  abbrev CountedOutcome : HostRepository F × Evaluated F → Type 0
  CountedOutcome (repo, evaluated results score) = Counted repo results score
  CountedOutcome (repo, rejected e) = Unit

  saved-Counted :
      (repo : HostRepository F)
      → let results = map expected chosen_rules in
        let score =
          score_of ops arith_ops unmarshal new_id now tenant_id host_id
            (or_default hostname snapshot.hostname)
            (or_default code cis_win11_framework_code)
            (tally_results passes results)
            (tally_results fails results) in
        Counted (save_evaluations tenant_id host_id results score repo) results score
  unfolding score_of save_evaluations get_host_evaluations
  saved-Counted repo =
      let results = map expected chosen_rules in
      record {
        all_rules = refl;
        passed = refl;
        failed = refl;
        total = tally_results-split results;
        stored = get_host_evaluations-save_evaluations tenant_id host_id results _ repo;
      }

  concluded-Counted :
      (rules : List ComplianceRule) (repo : HostRepository F)
      → rules ≡ chosen_rules
      → CountedOutcome (
          conclude ops arith_ops unmarshal new_id now tenant_id host_id
            (or_default hostname snapshot.hostname)
            (or_default code cis_win11_framework_code)
            repo
            (
              map expected rules,
              (tally_results passes (map expected rules), tally_results fails (map expected rules)),
            ))
  unfolding conclude
  concluded-Counted rules repo same = rw same (saved-Counted repo)

  checked-Counted :
      (rules : List ComplianceRule) (repo : HostRepository F)
      → rules ≡ chosen_rules
      → CountedOutcome (
          evaluate_checked ops arith_ops unmarshal new_id now tenant_id host_id
            (or_default hostname snapshot.hostname)
            snapshot
            (or_default code cis_win11_framework_code)
            rules
            repo)
  unfolding evaluate_checked
  checked-Counted [] repo same = tt
  checked-Counted (rule ∷ rules) repo same =
      subst
        (λ counted. CountedOutcome (
          conclude ops arith_ops unmarshal new_id now tenant_id host_id
            (or_default hostname snapshot.hostname) (or_default code cis_win11_framework_code) repo
            counted))
        (sym (evaluate_rules_lem expected (rule ∷ rules)))
        (concluded-Counted (rule ∷ rules) repo same)

  evaluate_host-Counted :
      (repo : HostRepository F)
      → CountedOutcome (
          evaluate_host ops arith_ops unmarshal new_id now list_rules tenant_id host_id hostname
            (some snapshot)
            code
            repo)
  unfolding evaluate_host
  evaluate_host-Counted repo =
      if_both CountedOutcome (tenant_id == "") tt
        (if_both CountedOutcome (host_id == "") tt (checked-Counted chosen_rules repo refl))

  -- An evaluation that succeeds has the expected result of every rule of the chosen framework, in
  -- their order; its score counts the results that passed, those that failed, and all of them,
  -- which is the sum of the two; and the store then holds both for the host.
  pub evaluate_host-counts :
      (repo repo' : HostRepository F) (results : List EvaluationResult)
      (score : HostComplianceScore F)
      → evaluate_host ops arith_ops unmarshal new_id now list_rules tenant_id host_id hostname
          (some snapshot)
          code
          repo
        ≡ (repo', evaluated results score)
      → (results ≡ map expected chosen_rules)
        × (score.passed_rules ≡ tally_results passes results)
        × (score.failed_rules ≡ tally_results fails results)
        × (score.total_rules ≡ length results)
        × (score.passed_rules + score.failed_rules ≡ score.total_rules)
        × (get_host_evaluations tenant_id host_id repo' ≡ some (results, some score))
  evaluate_host-counts repo repo' results score done =
      let c : Counted repo' results score =
        subst CountedOutcome done (evaluate_host-Counted repo) in
      let split = tally_results-split results in
      (
        c.all_rules,
        c.passed,
        c.failed,
        c.total,
        ground (arith, c.passed, c.failed, c.total),
        c.stored,
      )
