-- ===== src/Vulnscan/Versions.antt =====
-- apps/api/internal/vulnscan/matcher.go: `CompareVersions`, on texts as lists of code points.
use zero_agent_scan.Prelude.{
  ℕ, ◌+◌, ◌-◌, ◌*◌, ◌^◌, String, ◌≡◌, refl, Bool, ◌&&◌, Option, none, some, List, [], ◌∷◌, arith,
  eqb, leb, ltb, if◌then◌else◌, Bool-cases, inl, inr,
}
use zero_agent_scan.Prelude.Text.{codes, equal_codes, trim_codes}

-- The results -1, 0 and 1.
pub data Comparison : Type 0 where
  less same more : Comparison

abbrev pub flip : Comparison → Comparison
flip less = more
flip same = same
flip more = less

-- The first result that is not 0.
abbrev pub first_of : Comparison → Comparison → Comparison
first_of less rest = less
first_of same rest = rest
first_of more rest = more

abbrev pub compare_numbers : ℕ → ℕ → Comparison
compare_numbers m n = if ltb m n then less else if ltb n m then more else same

abbrev pub compare_codes : List ℕ → List ℕ → Comparison
compare_codes [] [] = same
compare_codes [] (b ∷ ys) = less
compare_codes (a ∷ xs) [] = more
compare_codes (a ∷ xs) (b ∷ ys) = first_of (compare_numbers a b) (compare_codes xs ys)

abbrev is_digit : ℕ → Bool
is_digit c = leb b'0' c && leb c b'9'

-- The digits in front.
abbrev pub clean_number : List ℕ → List ℕ
clean_number [] = []
clean_number (c ∷ s) = let rest = clean_number s in if is_digit c then c ∷ rest else []

abbrev decimal : ℕ → List ℕ → ℕ
decimal acc [] = acc
decimal acc (c ∷ s) = decimal (acc * 10 + (c - b'0')) s

-- `strconv.ParseInt` on digits alone: no digits, or too large a number, is an error.
abbrev pub parse_int : List ℕ → Option ℕ
parse_int [] = none
parse_int (c ∷ s) = let n = decimal 0 (c ∷ s) in if ltb n (2 ^ 63) then some n else none

-- A part past the end of a version is the number 0 and the empty text.
abbrev pub part_number : Option (List ℕ) → Option ℕ
part_number none = some 0
part_number (some part) = parse_int (clean_number part)

abbrev pub part_text : Option (List ℕ) → List ℕ
part_text none = []
part_text (some part) = part

abbrev pub compare_values : Option ℕ → Option ℕ → List ℕ → List ℕ → Comparison
compare_values (some m) (some n) s t = compare_numbers m n
compare_values (some m) none s t = compare_codes s t
compare_values none o s t = compare_codes s t

abbrev pub compare_part : Option (List ℕ) → Option (List ℕ) → Comparison
compare_part p q = compare_values (part_number p) (part_number q) (part_text p) (part_text q)

abbrev pub compare_longer : List (List ℕ) → Comparison
compare_longer [] = same
compare_longer (p ∷ ps) = first_of (compare_part (some p) none) (compare_longer ps)

abbrev pub compare_shorter : List (List ℕ) → Comparison
compare_shorter [] = same
compare_shorter (q ∷ qs) = first_of (compare_part none (some q)) (compare_shorter qs)

abbrev pub compare_parts : List (List ℕ) → List (List ℕ) → Comparison
compare_parts [] qs = compare_shorter qs
compare_parts (p ∷ ps) [] = compare_longer (p ∷ ps)
compare_parts (p ∷ ps) (q ∷ qs) = first_of (compare_part (some p) (some q)) (compare_parts ps qs)

abbrev cons_code : ℕ → List (List ℕ) → List (List ℕ)
cons_code c [] = []
cons_code c (part ∷ parts) = (c ∷ part) ∷ parts

-- `strings.Split`.
abbrev pub split_codes : ℕ → List ℕ → List (List ℕ)
split_codes sep [] = [] ∷ []
split_codes sep (c ∷ s) =
    let rest = split_codes sep s in if eqb c sep then [] ∷ rest else cons_code c rest

abbrev without_v : List ℕ → List ℕ
without_v [] = []
without_v (c ∷ s) = if eqb c b'v' then s else c ∷ s

abbrev pub cleaned : String → List ℕ
cleaned v = without_v (trim_codes (codes v))

unfoldable pub compare_versions : String → String → Comparison
unfolding trim_codes
compare_versions v1 v2 =
    if equal_codes (cleaned v1) (cleaned v2)
    then same
    else compare_parts (split_codes b'.' (cleaned v1)) (split_codes b'.' (cleaned v2))

compare_numbers-flip : (m n : ℕ) → compare_numbers n m ≡ flip (compare_numbers m n)
compare_numbers-flip m n = ground arith

first_of-flip : (c d : Comparison) → first_of (flip c) (flip d) ≡ flip (first_of c d)
first_of-flip less d = refl
first_of-flip same d = refl
first_of-flip more d = refl

compare_codes-flip : (xs ys : List ℕ) → compare_codes ys xs ≡ flip (compare_codes xs ys)
compare_codes-flip [] [] = refl
compare_codes-flip [] (b ∷ ys) = refl
compare_codes-flip (a ∷ xs) [] = refl
compare_codes-flip (a ∷ xs) (b ∷ ys) =
    rw (compare_numbers-flip a b)
      (rw (compare_codes-flip xs ys) (first_of-flip (compare_numbers a b) (compare_codes xs ys)))

compare_values-flip :
    (o p : Option ℕ) (s t : List ℕ) → compare_values p o t s ≡ flip (compare_values o p s t)
compare_values-flip (some m) (some n) s t = compare_numbers-flip m n
compare_values-flip (some m) none s t = compare_codes-flip s t
compare_values-flip none (some n) s t = compare_codes-flip s t
compare_values-flip none none s t = compare_codes-flip s t

compare_part-flip : (p q : Option (List ℕ)) → compare_part q p ≡ flip (compare_part p q)
compare_part-flip p q =
    compare_values-flip (part_number p) (part_number q) (part_text p) (part_text q)

join_flip :
    (c d : Comparison) {c' d' : Comparison}
    → c' ≡ flip c
    → d' ≡ flip d
    → first_of c' d' ≡ flip (first_of c d)
join_flip c d e f = rw (e, f) (first_of-flip c d)

compare_longer-flip : (ps : List (List ℕ)) → compare_shorter ps ≡ flip (compare_longer ps)
compare_longer-flip [] = refl
compare_longer-flip (p ∷ ps) =
    join_flip _ _ (compare_part-flip (some p) none) (compare_longer-flip ps)

compare_shorter-flip : (ps : List (List ℕ)) → compare_longer ps ≡ flip (compare_shorter ps)
compare_shorter-flip [] = refl
compare_shorter-flip (p ∷ ps) =
    join_flip _ _ (compare_part-flip none (some p)) (compare_shorter-flip ps)

compare_parts-flip : (ps qs : List (List ℕ)) → compare_parts qs ps ≡ flip (compare_parts ps qs)
compare_parts-flip [] [] = refl
compare_parts-flip [] (q ∷ qs) = compare_shorter-flip (q ∷ qs)
compare_parts-flip (p ∷ ps) [] = compare_longer-flip (p ∷ ps)
compare_parts-flip (p ∷ ps) (q ∷ qs) =
    join_flip _ _ (compare_part-flip (some p) (some q)) (compare_parts-flip ps qs)

equal_codes-sym : (xs ys : List ℕ) → equal_codes ys xs ≡ equal_codes xs ys
equal_codes-sym [] [] = refl
equal_codes-sym [] (b ∷ ys) = refl
equal_codes-sym (a ∷ xs) [] = refl
equal_codes-sym (a ∷ xs) (b ∷ ys) = ground (arith, equal_codes-sym xs ys)

-- Versions compared the other way round give the opposite result.
pub compare_versions-flip :
    (v1 v2 : String) → compare_versions v2 v1 ≡ flip (compare_versions v1 v2)
unfolding compare_versions
compare_versions-flip v1 v2 = elim (Bool-cases (equal_codes (cleaned v1) (cleaned v2))) [
  | inl e ↦ rw (equal_codes-sym (cleaned v1) (cleaned v2), e) refl
  | inr e ↦
      rw (equal_codes-sym (cleaned v1) (cleaned v2), e)
        (compare_parts-flip (split_codes b'.' (cleaned v1)) (split_codes b'.' (cleaned v2)))
]
