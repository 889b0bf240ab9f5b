-- ===== src/Prelude/Reorderings.antt =====
-- What a list in another order has in common with the list: `range` over a Go map yields its entries
-- in some order, and `sort.Slice` reorders its slice.
use mathlib.Core.Path.{subst}
use zero_agent_scan.Prelude.{
  ℕ, ◌+◌, ◌≡◌, inl, inr, refl, ◌∙◌, ap, List, [], ◌∷◌, length, All, Any, arith,
}
pub use mathlib.Core.List.{Permᴰ}

-- Sorting a slice, or running through a map, yields all that is there, in some order.
abbrev pub Reorders : {A : Type 0} → (List A → List A) → Type 0
Reorders f = (xs : List _) → Permᴰ xs (f xs)

module _ {ℓ} {A : Type ℓ} where
  pub All-Permᴰ {κ} : {xs ys : List A} (Q : A → Type κ) → Permᴰ xs ys → All Q xs → All Q ys
  All-Permᴰ Q Permᴰ.nil h = tt
  All-Permᴰ Q (Permᴰ.cons e p) h = (subst Q e h.0, All-Permᴰ Q p h.1)
  All-Permᴰ Q (Permᴰ.swap e f) (h, (k, rest)) = (subst Q f k, (subst Q e h, rest))
  All-Permᴰ Q (Permᴰ.trans p q) h = All-Permᴰ Q q (All-Permᴰ Q p h)

  pub Any-Permᴰ : {xs ys : List A} (Q : A → Type 0) → Permᴰ xs ys → Any Q xs → Any Q ys
  Any-Permᴰ Q Permᴰ.nil h = h
  Any-Permᴰ Q (Permᴰ.cons e p) (inl h) = inl (subst Q e h)
  Any-Permᴰ Q (Permᴰ.cons e p) (inr h) = inr (Any-Permᴰ Q p h)
  Any-Permᴰ Q (Permᴰ.swap e f) (inl h) = inr (inl (subst Q e h))
  Any-Permᴰ Q (Permᴰ.swap e f) (inr (inl h)) = inl (subst Q f h)
  Any-Permᴰ Q (Permᴰ.swap e f) (inr (inr h)) = inr (inr h)
  Any-Permᴰ Q (Permᴰ.trans p q) h = Any-Permᴰ Q q (Any-Permᴰ Q p h)

  -- The sum of what `weight` gives the elements.
  abbrev pub total : (A → ℕ) → List A → ℕ
  total weight [] = 0
  total weight (x ∷ xs) = weight x + total weight xs

  pub total-Permᴰ :
      {xs ys : List A} (weight : A → ℕ) → Permᴰ xs ys → total weight xs ≡ total weight ys
  total-Permᴰ weight Permᴰ.nil = refl
  total-Permᴰ weight (Permᴰ.cons e p) = omega (arith, ap weight e, total-Permᴰ weight p)
  total-Permᴰ weight (Permᴰ.swap e f) = omega (arith, ap weight e, ap weight f)
  total-Permᴰ weight (Permᴰ.trans p q) = total-Permᴰ weight p ∙ total-Permᴰ weight q

  pub length-Permᴰ : {xs ys : List A} → Permᴰ xs ys → length xs ≡ length ys
  length-Permᴰ Permᴰ.nil = refl
  length-Permᴰ (Permᴰ.cons e p) = omega (arith, length-Permᴰ p)
  length-Permᴰ (Permᴰ.swap e f) = refl
  length-Permᴰ (Permᴰ.trans p q) = length-Permᴰ p ∙ length-Permᴰ q

  -- A relation between each element and those behind it.
  abbrev pub Pairwise : (A → A → Type 0) → List A → Type ℓ
  Pairwise R [] = Unit
  Pairwise R (x ∷ xs) = All (R x) xs × Pairwise R xs

  pub Pairwise-Permᴰ :
      {xs ys : List A} (R : A → A → Type 0)
      → ((a b : A) → R a b → R b a)
      → Permᴰ xs ys
      → Pairwise R xs
      → Pairwise R ys
  Pairwise-Permᴰ R flip Permᴰ.nil h = tt
  Pairwise-Permᴰ R flip (Permᴰ.cons {l₂ = l} e p) h =
      (subst (λ a. All (R a) l) e (All-Permᴰ (R _) p h.0), Pairwise-Permᴰ R flip p h.1)
  Pairwise-Permᴰ R flip (Permᴰ.swap {a} {b} {a'} {b'} {l} e f) ((r, ha), (hb, rest)) =
      subst (λ y. Pairwise R (a' ∷ y ∷ l)) e
        (subst (λ x. Pairwise R (x ∷ a ∷ l)) f ((flip a b r, hb), (ha, rest)))
  Pairwise-Permᴰ R flip (Permᴰ.trans p q) h = Pairwise-Permᴰ R flip q (Pairwise-Permᴰ R flip p h)
