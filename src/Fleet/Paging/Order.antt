-- ===== src/Fleet/Paging/Order.antt =====
-- The order of a listing, and what the exchanges of its sort establish.
use mathlib.Core.List.{Perm}
use mathlib.Core.List.Perm
use zero_agent_scan.Prelude.{
  ℕ, zero, suc, ◌≤◌, ◌≡◌, ◌⊎◌, inl, inr, true, false, List, [], ◌∷◌, arith, length, All, Bool-cases,
  refl,
}
use zero_agent_scan.Fleet.Paging.{lex_lt, Place, behind, sweep, exchange_rounds, exchange_sort}

lex_lt_irrefl : (s : List ℕ) → lex_lt s s ≡ false
unfolding lex_lt
lex_lt_irrefl [] = refl
lex_lt_irrefl (a ∷ s) = ground (arith, lex_lt_irrefl s)

lex_lt_trans : (s t u : List ℕ) → lex_lt s t ≡ true → lex_lt t u ≡ true → lex_lt s u ≡ true
unfolding lex_lt
lex_lt_trans s t [] h k = absurd (ground arith)
lex_lt_trans s [] (c ∷ u) h k = absurd (ground arith)
lex_lt_trans [] (b ∷ t) (c ∷ u) h k = refl
lex_lt_trans (a ∷ s) (b ∷ t) (c ∷ u) h k = ground (arith, lex_lt_trans s t u)

pub behind_irrefl : (p : Place) → behind p p ≡ false
unfolding behind
behind_irrefl p = ground (arith, lex_lt_irrefl p.id)

pub behind_trans : (p q r : Place) → behind p q ≡ true → behind q r ≡ true → behind p r ≡ true
unfolding behind
behind_trans p q r h k = ground (arith, lex_lt_trans r.id q.id p.id)

pub behind_asymm : (p q : Place) → behind p q ≡ true → behind q p ≡ false
behind_asymm p q h = elim (Bool-cases (behind q p)) [
  | inl e ↦ absurd (ground (arith, behind_trans p q p h e, behind_irrefl p))
  | inr e ↦ e
]

module _ {A : Type 0} (place : A → Place) where
  -- One of the two is behind the other: their times or their IDs differ.
  abbrev pub Apart : A → A → Type 0
  Apart x y = (behind (place x) (place y) ≡ true) ⊎ (behind (place y) (place x) ≡ true)

  abbrev pub Distinct : List A → Type 0
  Distinct [] = Unit
  Distinct (x ∷ xs) = All (Apart x) xs × Distinct xs

  -- Each item is behind all that stand in front of it.
  abbrev pub IsSorted : List A → Type 0
  IsSorted [] = Unit
  IsSorted (x ∷ xs) = All (λ y. behind (place x) (place y) ≡ true) xs × IsSorted xs

  Apart-swap : (x y : A) → Apart x y → Apart y x
  Apart-swap x y (inl h) = inr h
  Apart-swap x y (inr h) = inl h

  sweep-All :
      (P : A → Type 0) (x : A) (xs : List A)
      → P x
      → All P xs
      → P (sweep place x xs).0 × All P (sweep place x xs).1
  unfolding sweep
  sweep-All P x [] h a = (h, tt)
  sweep-All P x (y ∷ ys) h a = elim (Bool-cases (behind (place y) (place x))) [
    | inl e ↦ let r = sweep-All P y ys a.0 a.1 in rw e (r.0, (h, r.1))
    | inr e ↦ let r = sweep-All P x ys h a.1 in rw e (r.0, (a.0, r.1))
  ]

  length-sweep : (x : A) (xs : List A) → length (sweep place x xs).1 ≡ length xs
  unfolding sweep
  length-sweep x [] = refl
  length-sweep x (y ∷ ys) = ground (arith, length-sweep x ys, length-sweep y ys)

  -- What comes to the front is in front of all that the item was in front of.
  sweep_front :
      (x : A) (xs : List A) (p : Place)
      → behind (place x) p ≡ true
      → behind (place (sweep place x xs).0) p ≡ true
  unfolding sweep
  sweep_front x [] p h = h
  sweep_front x (y ∷ ys) p h = elim (Bool-cases (behind (place y) (place x))) [
    | inl e ↦ rw e (sweep_front y ys p (behind_trans (place y) (place x) p e h))
    | inr e ↦ rw e (sweep_front x ys p h)
  ]

  sweep-least :
      (x : A) (xs : List A)
      → Distinct (x ∷ xs)
      → All (λ y. behind (place (sweep place x xs).0) (place y) ≡ true) (sweep place x xs).1
  unfolding sweep
  sweep-least x [] d = tt
  sweep-least x (y ∷ ys) d = elim (Bool-cases (behind (place y) (place x))) [
    | inl e ↦ rw e (sweep_front y ys (place x) e, sweep-least y ys d.1)
    | inr e ↦
        let first : behind (place x) (place y) ≡ true = elim d.0.0 [
          | inl h ↦ h
          | inr h ↦ absurd (ground arith)
        ] in
        rw e (sweep_front x ys (place y) first, sweep-least x ys (d.0.1, d.1.1))
  ]

  sweep-Distinct : (x : A) (xs : List A) → Distinct (x ∷ xs) → Distinct (sweep place x xs).1
  unfolding sweep
  sweep-Distinct x [] d = tt
  sweep-Distinct x (y ∷ ys) d = elim (Bool-cases (behind (place y) (place x))) [
    | inl e ↦ rw e ((sweep-All (Apart x) y ys d.0.0 d.0.1).1, sweep-Distinct y ys d.1)
    | inr e ↦ rw e (
      (sweep-All (Apart y) x ys (Apart-swap x y d.0.0) d.1.0).1,
      sweep-Distinct x ys (d.0.1, d.1.1),
    )
  ]

  sweep-perm : (x : A) (xs : List A) → Perm ((sweep place x xs).0 ∷ (sweep place x xs).1) (x ∷ xs)
  unfolding sweep
  sweep-perm x [] = Perm.rfl
  sweep-perm x (y ∷ ys) = elim (Bool-cases (behind (place y) (place x))) [
    | inl e ↦ rw e (Perm.trans (Perm.swap x (sweep place y ys).0 _) (Perm.cons x (sweep-perm y ys)))
    | inr e ↦ rw e (
        Perm.trans (Perm.swap y (sweep place x ys).0 _)
          (Perm.trans (Perm.cons y (sweep-perm x ys)) (Perm.swap x y ys)))
  ]

  exchange_rounds-All :
      (P : A → Type 0) (n : ℕ) (xs : List A) → All P xs → All P (exchange_rounds place n xs)
  unfolding exchange_rounds
  exchange_rounds-All P zero xs a = a
  exchange_rounds-All P (suc n) [] a = tt
  exchange_rounds-All P (suc n) (x ∷ xs) a =
      let r = sweep-All P x xs a.0 a.1 in (r.0, exchange_rounds-All P n (sweep place x xs).1 r.1)

  exchange_rounds-IsSorted :
      (n : ℕ) (xs : List A) → length xs ≤ n → Distinct xs → IsSorted (exchange_rounds place n xs)
  unfolding exchange_rounds
  exchange_rounds-IsSorted zero [] h d = tt
  exchange_rounds-IsSorted zero (x ∷ xs) h d = absurd (omega arith)
  exchange_rounds-IsSorted (suc n) [] h d = tt
  exchange_rounds-IsSorted (suc n) (x ∷ xs) h d = (
    exchange_rounds-All _ n (sweep place x xs).1 (sweep-least x xs d),
    exchange_rounds-IsSorted n (sweep place x xs).1 (omega (arith, length-sweep x xs))
        (sweep-Distinct x xs d),
  )

  exchange_rounds-perm : (n : ℕ) (xs : List A) → Perm (exchange_rounds place n xs) xs
  unfolding exchange_rounds
  exchange_rounds-perm zero xs = Perm.rfl
  exchange_rounds-perm (suc n) [] = Perm.rfl
  exchange_rounds-perm (suc n) (x ∷ xs) =
      Perm.trans (Perm.cons (sweep place x xs).0 (exchange_rounds-perm n (sweep place x xs).1))
        (sweep-perm x xs)

  length-exchange_rounds : (n : ℕ) (xs : List A) → length (exchange_rounds place n xs) ≡ length xs
  unfolding exchange_rounds
  length-exchange_rounds zero xs = refl
  length-exchange_rounds (suc n) [] = refl
  length-exchange_rounds (suc n) (x ∷ xs) =
      omega (arith, length-exchange_rounds n (sweep place x xs).1, length-sweep x xs)

  pub length-exchange_sort : (xs : List A) → length (exchange_sort place xs) ≡ length xs
  unfolding exchange_sort
  length-exchange_sort xs = length-exchange_rounds (length xs) xs

  pub exchange_sort-All : (P : A → Type 0) (xs : List A) → All P xs → All P (exchange_sort place xs)
  unfolding exchange_sort
  exchange_sort-All P xs a = exchange_rounds-All P (length xs) xs a

  -- Items whose places differ are put in order, the latest first, and none is lost or repeated.
  pub exchange_sort_lem :
      (xs : List A)
      → Distinct xs
      → IsSorted (exchange_sort place xs) × Perm (exchange_sort place xs) xs
  unfolding exchange_sort
  exchange_sort_lem xs d =
      (exchange_rounds-IsSorted (length xs) xs (omega arith) d, exchange_rounds-perm (length xs) xs)
