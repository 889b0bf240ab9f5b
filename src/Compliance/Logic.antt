-- ===== src/Compliance/Logic.antt =====
-- apps/api/internal/compliance/jsonlogic.go: the evaluation of a rule's expression.
-- An evaluation has no effect but its result, so the arguments of an operator are evaluated once,
-- ahead of it, and `and` and `or` read as many of the results as the source computes.
use zero_agent_scan.Prelude.{
  String, Bool, true, false, not, Option, none, some, List, [], ◌∷◌, Map, lookup, if◌then◌else◌,
}
use zero_agent_scan.Prelude.Text.{codes, is_blank}
use zero_agent_scan.Compliance.Values.{
  Value, Items, Fields, Floats, bool, text, nil_list, list, object, done, item, end, field,
  resolve_var, to_float, is_truthy, compare_equal, check_in,
}

pub data EvalError : Type 0 where
  unsupported_node : EvalError
  requires_arguments : String → EvalError
  unsupported_operator : String → EvalError
  invalid_expression invalid_data : EvalError

pub data Result {ℓ} (A : Type ℓ) : Type ℓ where
  ok : A → Result A
  err : EvalError → Result A

abbrev pub bind {ℓ κ} : {A : Type ℓ} {B : Type κ} → Result A → (A → Result B) → Result B
bind (ok a) f = f a
bind (err e) f = err e

pub data Operator : Type 0 where
  var equal not_equal less less_equal greater greater_equal is_in conj disj negation : Operator
  unknown : String → Operator

abbrev pub operators : Map Operator
operators =
    ("var", var)
    ∷ ("==", equal)
    ∷ ("===", equal)
    ∷ ("!=", not_equal)
    ∷ ("!==", not_equal)
    ∷ ("<", less)
    ∷ ("<=", less_equal)
    ∷ (">", greater)
    ∷ (">=", greater_equal)
    ∷ ("in", is_in)
    ∷ ("and", conj)
    ∷ ("or", disj)
    ∷ ("!", negation)
    ∷ ("not", negation)
    ∷ []

abbrev pub operator_of : String → Operator
operator_of op = elim (lookup op operators) [ none ↦ unknown op | some o ↦ o ]

-- The results of the arguments, where they stand in a list.
abbrev pub Results : Type 0 → Type 0
Results F = Option (List (Result (Value F)))

module _ {F : Type 0} where
  abbrev pub path_of : Value F → String
  path_of (text s) = s
  path_of (list (item (text s) rest)) = s
  path_of v = ""

  -- The slice that `evalNode` makes of a list's results, or the first error.
  abbrev pub collect : List (Result (Value F)) → Result (Items F)
  collect [] = ok done
  collect (r ∷ rs) = let rest = collect rs in bind r (λ v. bind rest (λ xs. ok (item v xs)))

  abbrev pub as_slice : Items F → Value F
  as_slice done = nil_list
  as_slice (item v rest) = list (item v rest)

  abbrev pub on_two : String → (Value F → Value F → Bool) → Results F → Result (Value F)
  on_two op f (some (l ∷ r ∷ rs)) = bind l (λ v. bind r (λ w. ok (bool (f v w))))
  on_two op f results = err (requires_arguments op)

module _ {F : Type 0} (ops : Floats F) where
  abbrev compare_floats : (F → F → Bool) → Option F → Option F → Bool
  compare_floats cmp (some x) (some y) = cmp x y
  compare_floats cmp x y = false

  abbrev pub compare_numeric : (F → F → Bool) → Value F → Value F → Bool
  compare_numeric cmp v w = compare_floats cmp (to_float ops v) (to_float ops w)

  abbrev pub all_truthy : List (Result (Value F)) → Result (Value F)
  all_truthy [] = ok (bool true)
  all_truthy (r ∷ rs) =
      let rest = all_truthy rs in bind r (λ v. if is_truthy ops v then rest else ok (bool false))

  abbrev pub any_truthy : List (Result (Value F)) → Result (Value F)
  any_truthy [] = ok (bool false)
  any_truthy (r ∷ rs) =
      let rest = any_truthy rs in bind r (λ v. if is_truthy ops v then ok (bool true) else rest)

  abbrev pub on_list :
      String → (List (Result (Value F)) → Result (Value F)) → Results F → Result (Value F)
  on_list op f none = err (requires_arguments op)
  on_list op f (some results) = f results

  -- The operand of `!`: the first argument of a list that has one, or all of the arguments.
  abbrev pub operand : Result (Value F) → Results F → Result (Value F)
  operand whole (some (r ∷ rs)) = r
  operand whole results = whole

  abbrev pub negate : Result (Value F) → Result (Value F)
  negate r = bind r (λ v. ok (bool (not (is_truthy ops v))))

  module _ (data_fields : Fields F) where
    -- `args` as they stand, the result of all of them, and the results of each.
    unfoldable pub apply_operator :
        Operator → Value F → Result (Value F) → Results F → Result (Value F)
    unfolding resolve_var compare_equal check_in
    apply_operator var args whole results = ok (resolve_var data_fields (path_of args))
    apply_operator equal args whole results = on_two "==" (compare_equal ops) results
    apply_operator not_equal args whole results =
        on_two "!=" (λ v w. not (compare_equal ops v w)) results
    apply_operator less args whole results = on_two "numeric" (compare_numeric ops.lt_float) results
    apply_operator less_equal args whole results =
        on_two "numeric" (compare_numeric ops.le_float) results
    apply_operator greater args whole results =
        on_two "numeric" (compare_numeric (λ x y. ops.lt_float y x)) results
    apply_operator greater_equal args whole results =
        on_two "numeric" (compare_numeric (λ x y. ops.le_float y x)) results
    apply_operator is_in args whole results = on_two "in" (check_in ops) results
    apply_operator conj args whole results = on_list "and" all_truthy results
    apply_operator disj args whole results = on_list "or" any_truthy results
    apply_operator negation args whole results = negate (operand whole results)
    apply_operator (unknown op) args whole results = err (unsupported_operator op)

    unfoldable mutual
      unfolding apply_operator

      pub eval_node : Value F → Result (Value F)
      eval_node (list items) = bind (collect (eval_items items)) (λ xs. ok (as_slice xs))
      eval_node (object end) = err unsupported_node
      eval_node (object (field op args rest)) =
          apply_operator (operator_of op) args (eval_node args) (eval_args args)
      eval_node v = ok v

      pub eval_args : Value F → Results F
      eval_args (list items) = some (eval_items items)
      eval_args v = none

      pub eval_items : Items F → List (Result (Value F))
      eval_items done = []
      eval_items (item v rest) = eval_node v ∷ eval_items rest

  module _ (unmarshal : String → Option (Value F)) where
    abbrev evaluate_parsed : Option (Value F) → Option (Fields F) → Result Bool
    unfolding eval_node
    evaluate_parsed none fields = err invalid_expression
    evaluate_parsed (some node) none = err invalid_data
    evaluate_parsed (some node) (some fields) =
        bind (eval_node fields node) (λ v. ok (is_truthy ops v))

    -- `EvaluateExpression`, on the data as `normalizeData` returns it; `json.Unmarshal` is a
    -- parameter.
    unfoldable pub evaluate_expression : String → Option (Fields F) → Result Bool
    unfolding eval_node
    evaluate_expression expression fields =
        if is_blank (codes expression)
        then ok true
        else evaluate_parsed (unmarshal expression) fields
