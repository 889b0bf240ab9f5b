-- ===== src/Compliance/Catalog/Listed.antt =====
-- The rules that `SaveRule` has stored, as the engine lists them (repository.go).
use mathlib.Core.Path.{subst}
use zero_agent_scan.Prelude.{
  ℕ, String, ◌≡◌, refl, sym, ap, ◌∙◌, inl, inr, true, ◌==◌, none, some, List, [], ◌∷◌, Map, insert,
  values, lookup-insert_self, Any, arith, Bool-cases, if_both,
}
use zero_agent_scan.Prelude.Text.{equal_fold, equal_codes, lower_codes}
use zero_agent_scan.Compliance.Engine.{ComplianceRule}
use zero_agent_scan.Compliance.Hosts.{or_default}
use zero_agent_scan.Compliance.Catalog.{
  Catalog, canonical_code, save_rule, rules_under, list_rules_by_framework, get_rule_by_id,
}

equal_codes_self : (xs : List ℕ) → equal_codes xs xs ≡ true
equal_codes_self [] = refl
equal_codes_self (x ∷ xs) = ground (arith, equal_codes_self xs)

equal_fold_self : (s : String) → equal_fold s s ≡ true
unfolding equal_fold
equal_fold_self s = equal_codes_self (lower_codes s)

Any-rules_under :
    (rule : ComplianceRule) (code : String) (rules : List ComplianceRule)
    → equal_fold rule.framework_code code ≡ true
    → Any (λ r. r ≡ rule) rules
    → Any (λ r. r ≡ rule) (rules_under code rules)
Any-rules_under rule code [] e h = absurd h
Any-rules_under rule code (r ∷ rules) e (inl same) =
    let kept : equal_fold r.framework_code code ≡ true =
      ap (λ (x : ComplianceRule). equal_fold x.framework_code code) same ∙ e in
    rw kept (inl same)
Any-rules_under rule code (r ∷ rules) e (inr h) =
    let rest = Any-rules_under rule code rules e h in
    if_both (Any (λ r. r ≡ rule)) (equal_fold r.framework_code code) (inr rest) rest

Any-insert :
    (rule : ComplianceRule) (key : String) (m : Map ComplianceRule)
    → Any (λ r. r ≡ rule) (values (insert key rule m))
unfolding insert
Any-insert rule key [] = inl refl
Any-insert rule key ((name, held) ∷ m) = elim (Bool-cases (name == key)) [
  | inl e ↦ rw e (inl refl)
  | inr e ↦ rw e (inr (Any-insert rule key m))
]

-- A rule as `SaveRule` stores it.
abbrev pub stored_rule : String → ComplianceRule → ComplianceRule
stored_rule new_id rule = record rule {
  id = or_default rule.id new_id;
  framework_code = canonical_code rule.framework_code;
}

module _ (new_id : String) (rule : ComplianceRule) (catalog after : Catalog) where
  save_rule-none :
      save_rule new_id rule catalog ≡ (after, none)
      → record catalog {
        rules = insert (or_default rule.id new_id) (stored_rule new_id rule) catalog.rules;
      }
        ≡ after
  unfolding save_rule
  save_rule-none e = ground arith

  -- A rule that is saved without an error is found under its ID, which is the drawn one where it
  -- has none, and is among the rules of every spelling of its framework's code, in whatever case
  -- and with whatever blanks around it.
  pub saved_rule_listed :
      (code : String)
      → save_rule new_id rule catalog ≡ (after, none)
      → canonical_code code ≡ canonical_code rule.framework_code
      → (get_rule_by_id (or_default rule.id new_id) after ≡ some (stored_rule new_id rule))
        × Any (λ r. r ≡ stored_rule new_id rule) (list_rules_by_framework code after)
  unfolding list_rules_by_framework
  saved_rule_listed code e same =
      let stored = stored_rule new_id rule in
      let id = or_default rule.id new_id in
      let folds : equal_fold (canonical_code rule.framework_code) (canonical_code code) ≡ true =
        subst (λ s. equal_fold (canonical_code rule.framework_code) s ≡ true) (sym same)
          (equal_fold_self (canonical_code rule.framework_code)) in
      subst
        (λ (c : Catalog).
          (get_rule_by_id id c ≡ some stored)
          × Any (λ r. r ≡ stored) (list_rules_by_framework code c))
        (save_rule-none e)
        (
          lookup-insert_self id stored catalog.rules,
          Any-rules_under stored (canonical_code code) (values (insert id stored catalog.rules))
              folds (Any-insert stored id catalog.rules),
        )
