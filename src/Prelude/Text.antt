-- ===== src/Prelude/Text.antt =====
-- The calls of Go's `strings` and `strconv` that the sources make: `Split`, `ToLower`, `ToUpper`, `Contains`,
-- `EqualFold` and `Atoi`. Letters beyond ASCII are left as they are.
use Prim.Native.Char.{Char, code}
use Prim.Native.String.{String, char_at}
use Prim.Native.Nat.{ℕ, zero, suc, ◌+◌, ◌-◌, ◌*◌}
use mathlib.Core.Bool.{Bool, true, false, ◌&&◌, ◌||◌}
use mathlib.Core.Option.{Option, none, some}
use mathlib.Core.List.{List, [], ◌∷◌, map}
use zero_agent_scan.Prelude.Int.{ℤ, pos, sub_ℕ}
use zero_agent_scan.Prelude.Tests.{eqb, leb, if◌then◌else◌}

abbrev pub codes : String → List ℕ
codes String.[] = []
codes (String.◌∷◌ c s) = code c ∷ codes s

abbrev pub lower_code : ℕ → ℕ
lower_code n = if leb b'A' n && leb n b'Z' then n + 32 else n

-- `strings.ToLower`, as a list of code points.
unfoldable pub lower_codes : String → List ℕ
lower_codes s = map lower_code (codes s)

abbrev pub equal_codes : List ℕ → List ℕ → Bool
equal_codes [] [] = true
equal_codes (a ∷ xs) (b ∷ ys) = eqb a b && equal_codes xs ys
equal_codes xs ys = false

abbrev pub starts_with : List ℕ → List ℕ → Bool
starts_with [] ys = true
starts_with (a ∷ xs) [] = false
starts_with (a ∷ xs) (b ∷ ys) = eqb a b && starts_with xs ys

-- `strings.Contains(ys, xs)`.
abbrev pub occurs : List ℕ → List ℕ → Bool
occurs xs [] = starts_with xs []
occurs xs (b ∷ ys) = starts_with xs (b ∷ ys) || occurs xs ys

unfoldable pub equal_fold : String → String → Bool
unfolding lower_codes
equal_fold s t = equal_codes (lower_codes s) (lower_codes t)

abbrev pub cons_first : Char → List String → List String
cons_first c [] = []
cons_first c (part ∷ parts) = String.◌∷◌ c part ∷ parts

-- `strings.Split` at one character.
unfoldable pub split : ℕ → String → List String
split sep String.[] = "" ∷ []
split sep (String.◌∷◌ c s) =
    let rest = split sep s in if eqb (code c) sep then "" ∷ rest else cons_first c rest

abbrev digits : ℕ → List ℕ → Option ℕ
digits acc [] = some acc
digits acc (c ∷ s) =
    let rest = digits (acc * 10 + (c - b'0')) s in if leb b'0' c && leb c b'9' then rest else none

abbrev natural : List ℕ → Option ℕ
natural [] = none
natural (c ∷ s) = digits 0 (c ∷ s)

abbrev sign_of : ℕ → List ℕ → Option ℤ
sign_of c s =
    if eqb c b'-'
    then elim (natural s) [ none ↦ none | some n ↦ some (sub_ℕ 0 n) ]
    else elim (if eqb c b'+' then natural s else natural (c ∷ s)) [
      | none ↦ none
      | some n ↦ some (pos n)
    ]

-- `strconv.Atoi`, with no bound on the number.
unfoldable pub atoi : List ℕ → Option ℤ
atoi [] = none
atoi (c ∷ s) = sign_of c s

-- The spaces that `strings.TrimSpace` cuts, up to ASCII.
abbrev is_space : ℕ → Bool
is_space c = eqb c 32 || leb 9 c && leb c 13

abbrev pub is_blank : List ℕ → Bool
is_blank [] = true
is_blank (c ∷ s) = is_space c && is_blank s

abbrev skip_spaces : List ℕ → List ℕ
skip_spaces [] = []
skip_spaces (c ∷ s) = if is_space c then skip_spaces s else c ∷ s

abbrev backwards : List ℕ → List ℕ → List ℕ
backwards [] acc = acc
backwards (c ∷ s) acc = backwards s (c ∷ acc)

-- `strings.TrimSpace`, on code points.
unfoldable pub trim_codes : List ℕ → List ℕ
trim_codes s = backwards (skip_spaces (backwards (skip_spaces s) [])) []

-- The text from its first occurrence of `needle` on, after `strings.Index`.
abbrev pub from_first : List ℕ → String → Option String
from_first needle String.[] = if starts_with needle [] then some "" else none
from_first needle (String.◌∷◌ c s) =
    if starts_with needle (codes (String.◌∷◌ c s))
    then some (String.◌∷◌ c s)
    else from_first needle s

abbrev pub skip_chars : ℕ → String → String
skip_chars zero s = s
skip_chars (suc n) String.[] = String.[]
skip_chars (suc n) (String.◌∷◌ c s) = skip_chars n s

-- The text in front of the first `sep`, where there is one.
abbrev pub before_first : ℕ → String → Option String
before_first sep String.[] = none
before_first sep (String.◌∷◌ c s) =
    let rest = before_first sep s in
    if eqb (code c) sep then some "" else elim rest [ none ↦ none | some t ↦ some (String.◌∷◌ c t) ]

abbrev trimmed_cons : Char → String → String
trimmed_cons c String.[] = if is_space (code c) then String.[] else String.◌∷◌ c String.[]
trimmed_cons c (String.◌∷◌ d s) = String.◌∷◌ c (String.◌∷◌ d s)

abbrev trim_right : String → String
trim_right String.[] = String.[]
trim_right (String.◌∷◌ c s) = trimmed_cons c (trim_right s)

abbrev trim_left : String → String
trim_left String.[] = String.[]
trim_left (String.◌∷◌ c s) = if is_space (code c) then trim_left s else String.◌∷◌ c s

-- `strings.TrimSpace`, on texts.
unfoldable pub trim : String → String
trim s = trim_right (trim_left s)

-- `strings.Split(s, sep)[0]`
unfoldable pub first_part : ℕ → String → String
first_part sep String.[] = String.[]
first_part sep (String.◌∷◌ c s) =
    let more = String.◌∷◌ c (first_part sep s) in if eqb (code c) sep then String.[] else more

abbrev upper_char : Char → Char
upper_char c =
    if leb b'a' (code c) && leb (code c) b'z'
    then char_at "ABCDEFGHIJKLMNOPQRSTUVWXYZ" (code c - b'a')
    else c

-- `strings.ToUpper`
unfoldable pub to_upper : String → String
to_upper String.[] = String.[]
to_upper (String.◌∷◌ c s) = String.◌∷◌ (upper_char c) (to_upper s)

abbrev pub lower_char : Char → Char
lower_char c =
    if leb b'A' (code c) && leb (code c) b'Z'
    then char_at "abcdefghijklmnopqrstuvwxyz" (code c - b'A')
    else c

-- `strings.ToLower`
unfoldable pub to_lower : String → String
to_lower String.[] = String.[]
to_lower (String.◌∷◌ c s) = String.◌∷◌ (lower_char c) (to_lower s)
