-- ===== src/Compliance/Paths.antt =====
-- The paths of jsonlogic.go's variables.
use Prim.Native.String.{◌++◌ as ◌+++◌}
use Prim.Native.String.append
use Prim.Native.Char.{Char, code}
use zero_agent_scan.Prelude.{
  String, ◌≡◌, refl, sym, ◌∙◌, ap, Bool, true, false, List, [], ◌∷◌, ◌++◌, arith, ◌==◌, eq_iff, eqb,
  Bool-cases, inl, inr,
}
use zero_agent_scan.Prelude.Text.{split, cons_first}
use zero_agent_scan.Compliance.Values.{Value, Fields, object, walk, step_into, resolve_var}

abbrev dot : Char
dot = "."

after_dot : (q : String) → "." +++ q ≡ String.◌∷◌ dot q
after_dot q = append.cons dot "" q ∙ ap (String.◌∷◌ dot) (append.nil q)

abbrev IsCons : List String → Type 0
IsCons l = (s : String) × (ss : List String) × (l ≡ s ∷ ss)

split-IsCons : (s : String) → IsCons (split b'.' s)
unfolding split
split-IsCons String.[] = ("", [], refl)
split-IsCons (String.◌∷◌ c s) =
    let (first, rest, e) = split-IsCons s in
    elim (Bool-cases (eqb (code c) b'.')) [
      | inl b ↦ ("", split b'.' s, rw b refl)
      | inr b ↦ (String.◌∷◌ c first, rest, rw b (rw e refl))
    ]

cons_first-append :
    (c : Char) (xs ys : List String) → IsCons xs → cons_first c (xs ++ ys) ≡ cons_first c xs ++ ys
cons_first-append c [] ys (s, ss, e) = absurd (ground (arith, e))
cons_first-append c (x ∷ xs) ys h = refl

split-append : (p q : String) → split b'.' (p +++ ("." +++ q)) ≡ split b'.' p ++ split b'.' q
unfolding split
split-append String.[] q = ap (split b'.') (append.nil ("." +++ q) ∙ after_dot q)
split-append (String.◌∷◌ c p) q =
    ap (split b'.') (append.cons c p ("." +++ q)) ∙ elim (Bool-cases (eqb (code c) b'.')) [
      | inl b ↦ rw b (ap (λ l. "" ∷ l) (split-append p q))
      | inr b ↦ rw b (
          ap (cons_first c) (split-append p q)
          ∙ cons_first-append c (split b'.' p) (split b'.' q) (split-IsCons p))
    ]

abbrev is_nil : String → Bool
is_nil String.[] = true
is_nil (String.◌∷◌ c s) = false

not_empty : (p q : String) → (p == "") ≡ false → (p +++ q == "") ≡ false
not_empty String.[] q h = absurd (ground (arith, h))
not_empty (String.◌∷◌ c p) q h = elim (Bool-cases (String.◌∷◌ c p +++ q == "")) [
  | inl e ↦
      let empty : String.◌∷◌ c (p +++ q) ≡ "" =
        sym (append.cons c p q) ∙ (eq_iff (String.◌∷◌ c p +++ q) "").0 e in
      let differ : false ≡ true = ap is_nil empty in absurd (ground arith)
  | inr e ↦ e
]

module _ {F : Type 0} where
  walk-append : (ps qs : List String) (v : Value F) → walk (ps ++ qs) v ≡ walk qs (walk ps v)
  walk-append [] qs v = refl
  walk-append (p ∷ ps) qs v = walk-append ps qs (step_into v p)

  -- A path of two parts with a dot between them, the first not empty, is resolved by resolving the
  -- first and following the second from what it leads to, also where that is missing.
  pub resolve_var-append :
      (fields : Fields F) (p q : String)
      → (p == "") ≡ false
      → resolve_var fields (p +++ ("." +++ q)) ≡ walk (split b'.' q) (resolve_var fields p)
  unfolding resolve_var
  resolve_var-append fields p q h =
      let whole = not_empty p ("." +++ q) h in
      rw (whole, h)
        (ap (λ parts. walk parts (object fields)) (split-append p q)
          ∙ walk-append (split b'.' p) (split b'.' q) (object fields))
