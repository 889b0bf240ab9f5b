-- ===== src/Prelude/Separators.antt =====
-- Texts without a separator, and what `strings.Split` and `strings.SplitN` make of texts that are put
-- together with one.
use Prim.Native.Char.{Char, code}
use Prim.Native.String.{String, ◌++◌ as ◌+++◌}
use Prim.Native.String.append
use Prim.Native.Nat.{ℕ}
use mathlib.Core.Path.{◌≡◌, refl, ap, ◌∙◌}
use mathlib.Core.Bool.{Bool, true, false, not, ◌&&◌}
use mathlib.Core.Option.{Option, none, some}
use mathlib.Core.List.{[], ◌∷◌}
use native.Mathlib.Omega.{arith}
use zero_agent_scan.Prelude.Tests.{eqb}
use zero_agent_scan.Prelude.Text.{split}

-- No character of a text is the separator.
abbrev pub free : ℕ → String → Bool
free sep String.[] = true
free sep (String.◌∷◌ c s) = not (eqb (code c) sep) && free sep s

abbrev two_with : Char → Bool → String → Option (String × String) → Option (String × String)
two_with c true s rest = some (String.[], s)
two_with c false s none = none
two_with c false s (some (a, b)) = some (String.◌∷◌ c a, b)

-- `strings.SplitN(s, sep, 2)`, where there are two parts.
unfoldable pub split_two : ℕ → String → Option (String × String)
split_two sep String.[] = none
split_two sep (String.◌∷◌ c s) = two_with c (eqb (code c) sep) s (split_two sep s)

pub append-cons : (d : Char) (p q : String) → String.◌∷◌ d p +++ q ≡ String.◌∷◌ d (p +++ q)
append-cons d p q = append.cons d p q

pub split-free : (sep : ℕ) (p : String) → free sep p ≡ true → split sep p ≡ p ∷ []
unfolding split
split-free sep String.[] h = refl
split-free sep (String.◌∷◌ c p) h = ground (arith, split-free sep p)

pub split-append_free :
    (d : Char) (p q : String)
    → free (code d) p ≡ true
    → split (code d) (p +++ String.◌∷◌ d q) ≡ p ∷ split (code d) q
unfolding split
split-append_free d String.[] q h = ap (split (code d)) (append.nil (String.◌∷◌ d q)) ∙ ground arith
split-append_free d (String.◌∷◌ c p) q h =
    ap (split (code d)) (append.cons c p (String.◌∷◌ d q)) ∙ ground (arith, split-append_free d p q)

pub split_two-append_free :
    (d : Char) (p q : String)
    → free (code d) p ≡ true
    → split_two (code d) (p +++ String.◌∷◌ d q) ≡ some (p, q)
unfolding split_two
split_two-append_free d String.[] q h =
    ap (split_two (code d)) (append.nil (String.◌∷◌ d q)) ∙ ground arith
split_two-append_free d (String.◌∷◌ c p) q h =
    ap (split_two (code d)) (append.cons c p (String.◌∷◌ d q))
    ∙ ground (arith, split_two-append_free d p q)
