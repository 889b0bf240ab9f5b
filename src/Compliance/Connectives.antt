-- ===== src/Compliance/Connectives.antt =====
-- What the connectives of jsonlogic.go compute, and how they relate.
use zero_agent_scan.Prelude.{
  String, ◌≡◌, refl, ◌∙◌, ap, ◌↔◌, inl, inr, Bool, true, false, not, List, [], ◌∷◌, map, arith,
  lookup, if◌then◌else◌, Bool-cases,
}
use zero_agent_scan.Compliance.Values.{
  Value, Items, Fields, Floats, bool, list, object, done, item, end, field, is_truthy,
  compare_equal,
}
use zero_agent_scan.Compliance.Logic.{
  Result, ok, err, bind, all_truthy, any_truthy, negate, apply_operator, eval_node, eval_items,
}

module _ {F : Type 0} where
  -- The expression of one operator on a list of arguments.
  abbrev pub node : String → Items F → Value F
  node op args = object (field op (list args) end)

  -- Each argument under `!`.
  abbrev pub negated : Items F → Items F
  negated done = done
  negated (item v rest) = item (node "!" (item v done)) (negated rest)

module _ {F : Type 0} (ops : Floats F) where
  -- Both connectives stop at the first argument that decides them, or that fails.
  all_truthy-negate :
      (rs : List (Result (Value F)))
      → all_truthy ops (map (negate ops) rs) ≡ negate ops (any_truthy ops rs)
  all_truthy-negate [] = refl
  all_truthy-negate (err e ∷ rs) = refl
  all_truthy-negate (ok v ∷ rs) = elim (Bool-cases (is_truthy ops v)) [
    | inl e ↦ rw e refl
    | inr e ↦ rw e (all_truthy-negate rs)
  ]

  any_truthy-negate :
      (rs : List (Result (Value F)))
      → any_truthy ops (map (negate ops) rs) ≡ negate ops (all_truthy ops rs)
  any_truthy-negate [] = refl
  any_truthy-negate (err e ∷ rs) = refl
  any_truthy-negate (ok v ∷ rs) = elim (Bool-cases (is_truthy ops v)) [
    | inl e ↦ rw e (any_truthy-negate rs)
    | inr e ↦ rw e refl
  ]

  module _ (fields : Fields F) where
    eval_items-negated :
        (xs : Items F)
        → eval_items ops fields (negated xs) ≡ map (negate ops) (eval_items ops fields xs)
    unfolding eval_items apply_operator lookup
    eval_items-negated done = refl
    eval_items-negated (item v rest) =
        ap (λ rs. negate ops (eval_node ops fields v) ∷ rs) (eval_items-negated rest)

    -- De Morgan: `and` of the negated arguments is the negation of `or`, errors included.
    pub eval_node-negated_or :
        (xs : Items F)
        → eval_node ops fields (node "and" (negated xs))
          ≡ eval_node ops fields (node "!" (item (node "or" xs) done))
    unfolding eval_node apply_operator lookup
    eval_node-negated_or xs =
        ap (all_truthy ops) (eval_items-negated xs) ∙ all_truthy-negate (eval_items ops fields xs)

    -- De Morgan: `or` of the negated arguments is the negation of `and`, errors included.
    pub eval_node-negated_and :
        (xs : Items F)
        → eval_node ops fields (node "or" (negated xs))
          ≡ eval_node ops fields (node "!" (item (node "and" xs) done))
    unfolding eval_node apply_operator lookup
    eval_node-negated_and xs =
        ap (any_truthy ops) (eval_items-negated xs) ∙ any_truthy-negate (eval_items ops fields xs)

    on_two-not :
        (l r : Result (Value F)) (f : Value F → Value F → Bool)
        → bind l (λ v. bind r (λ w. ok (bool (not (f v w)))))
          ≡ negate ops (bind l (λ v. bind r (λ w. ok (bool (f v w)))))
    on_two-not (err e) r f = refl
    on_two-not (ok v) (err e) f = refl
    on_two-not (ok v) (ok w) f = refl

    -- `!=` of two expressions is the negation of `==` of them, errors included.
    pub eval_node-not_equal :
        (l r : Value F)
        → eval_node ops fields (node "!=" (item l (item r done)))
          ≡ eval_node ops fields (node "!" (item (node "==" (item l (item r done))) done))
    unfolding eval_node apply_operator lookup
    eval_node-not_equal l r =
        on_two-not (eval_node ops fields l) (eval_node ops fields r) (compare_equal ops)

    -- An argument that evaluates, to a value that counts as true.
    abbrev pub Holds : Value F → Type 0
    Holds v = (w : Value F) × (eval_node ops fields v ≡ ok w) × (is_truthy ops w ≡ true)

    abbrev pub Fails : Value F → Type 0
    Fails v = (w : Value F) × (eval_node ops fields v ≡ ok w) × (is_truthy ops w ≡ false)

    abbrev pub EachItem : (Value F → Type 0) → Items F → Type 0
    EachItem P done = Unit
    EachItem P (item v rest) = P v × EachItem P rest

    abbrev verdict_and : Result (Value F) → Result (Value F) → Result (Value F)
    verdict_and r rest = bind r (λ v. if is_truthy ops v then rest else ok (bool false))

    abbrev verdict_or : Result (Value F) → Result (Value F) → Result (Value F)
    verdict_or r rest = bind r (λ v. if is_truthy ops v then ok (bool true) else rest)

    and_holds :
        (r rest : Result (Value F))
        → verdict_and r rest ≡ ok (bool true)
        → ((w : Value F) × (r ≡ ok w) × (is_truthy ops w ≡ true)) × (rest ≡ ok (bool true))
    and_holds (err e) rest h = absurd (ground (arith, h))
    and_holds (ok v) rest h = elim (Bool-cases (is_truthy ops v)) [
      | inl e ↦ ((v, refl, e), rw e at h)
      | inr e ↦ absurd (ground (arith, h))
    ]

    or_fails :
        (r rest : Result (Value F))
        → verdict_or r rest ≡ ok (bool false)
        → ((w : Value F) × (r ≡ ok w) × (is_truthy ops w ≡ false)) × (rest ≡ ok (bool false))
    or_fails (err e) rest h = absurd (ground (arith, h))
    or_fails (ok v) rest h = elim (Bool-cases (is_truthy ops v)) [
      | inl e ↦ absurd (ground (arith, h))
      | inr e ↦ ((v, refl, e), rw e at h)
    ]

    and_true :
        (xs : Items F)
        → all_truthy ops (eval_items ops fields xs) ≡ ok (bool true)
        → EachItem Holds xs
    unfolding eval_items
    and_true done h = tt
    and_true (item v rest) h =
        let (first, others) =
          and_holds (eval_node ops fields v) (all_truthy ops (eval_items ops fields rest)) h in
        (first, and_true rest others)

    true_and :
        (xs : Items F)
        → EachItem Holds xs
        → all_truthy ops (eval_items ops fields xs) ≡ ok (bool true)
    unfolding eval_items
    true_and done h = refl
    true_and (item v rest) h = let ((w, e, t), others) = h in rw e (rw t (true_and rest others))

    or_false :
        (xs : Items F)
        → any_truthy ops (eval_items ops fields xs) ≡ ok (bool false)
        → EachItem Fails xs
    unfolding eval_items
    or_false done h = tt
    or_false (item v rest) h =
        let (first, others) =
          or_fails (eval_node ops fields v) (any_truthy ops (eval_items ops fields rest)) h in
        (first, or_false rest others)

    false_or :
        (xs : Items F)
        → EachItem Fails xs
        → any_truthy ops (eval_items ops fields xs) ≡ ok (bool false)
    unfolding eval_items
    false_or done h = refl
    false_or (item v rest) h = let ((w, e, t), others) = h in rw e (rw t (false_or rest others))

    -- `and` gives true exactly where every argument evaluates, to a value that counts as true.
    pub eval_node-and_true :
        (xs : Items F) → (eval_node ops fields (node "and" xs) ≡ ok (bool true)) ↔ EachItem Holds xs
    unfolding eval_node apply_operator lookup
    eval_node-and_true xs = (and_true xs, true_and xs)

    -- `or` gives false exactly where every argument evaluates, to a value that counts as false.
    pub eval_node-or_false :
        (xs : Items F) → (eval_node ops fields (node "or" xs) ≡ ok (bool false)) ↔ EachItem Fails xs
    unfolding eval_node apply_operator lookup
    eval_node-or_false xs = (or_false xs, false_or xs)
