-- ===== src/Scanner/Pool/Totals.antt =====
-- Sums over lists, with which the tasks and results of a pool (workerpool.go) are counted.
use zero_agent_scan.Prelude.{
  ℕ, suc, ◌+◌, ◌≡◌, refl, List, [], ◌∷◌, ◌++◌, Option, none, some, length, arith,
}
pub use zero_agent_scan.Prelude.Reorderings.{total}

pub total-append {ℓ} :
    {A : Type ℓ} (weight : A → ℕ) (xs ys : List A)
    → total weight (xs ++ ys) ≡ total weight xs + total weight ys
total-append weight [] ys = omega arith
total-append weight (x ∷ xs) ys = omega (arith, total-append weight xs ys)

pub total_none {ℓ} :
    {A : Type ℓ} (weight : A → ℕ) (xs : List A) → length xs ≡ 0 → total weight xs ≡ 0
total_none weight [] e = refl
total_none weight (x ∷ xs) e = absurd (omega (arith, e))

pub total_middle {ℓ} :
    {A : Type ℓ} (weight : A → ℕ) (xs ys : List A) (x : A)
    → total weight (xs ++ x ∷ ys) ≡ weight x + total weight (xs ++ ys)
total_middle weight [] ys x = refl
total_middle weight (y ∷ xs) ys x = omega (arith, total_middle weight xs ys x)

pub total_ones {ℓ} : {A : Type ℓ} (xs : List A) → total (λ _. 1) xs ≡ length xs
total_ones [] = refl
total_ones (x ∷ xs) = omega (arith, total_ones xs)

pub length_middle {ℓ} :
    {A : Type ℓ} (xs ys : List A) (x : A) → length (xs ++ x ∷ ys) ≡ suc (length (xs ++ ys))
length_middle [] ys x = refl
length_middle (y ∷ xs) ys x = omega (arith, length_middle xs ys x)

abbrev pub or_zero {ℓ} : {A : Type ℓ} → (A → ℕ) → Option A → ℕ
or_zero weight none = 0
or_zero weight (some a) = weight a
