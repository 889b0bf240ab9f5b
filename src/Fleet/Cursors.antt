-- ===== src/Fleet/Cursors.antt =====
-- apps/api/internal/repository/keyset.go: the cursors of keyset pagination. A text is the list of
-- its bytes. `base64.RawURLEncoding` is a parameter.
pub mod RoundTrip
use zero_agent_scan.Prelude.{
  ℕ, zero, suc, ◌+◌, ◌-◌, ◌*◌, ◌/◌, ◌%◌, ◌^◌, ◌<◌, ◌≡◌, Bool, true, false, ◌&&◌, ◌||◌, Option, none,
  some, List, [], ◌∷◌, ◌++◌, ltb, leb, eqb, if◌then◌else◌, All,
}
use zero_agent_scan.Prelude.Int.{ℤ, pos, negsuc}

-- Bytes to text and back, and what the package documents of them.
pub record Base64 : Type 0 where
  pub encode : List ℕ → List ℕ
  pub decode : List ℕ → Option (List ℕ)
  pub decode-encode :
      (bytes : List ℕ) → All (λ b. b < 256) bytes → decode (encode bytes) ≡ some bytes
  pub decode-nil : decode [] ≡ some []

pub record KeysetCursor : Type 0 where
  pub created_at : ℤ
  pub id : List ℕ

pub data CursorError : Type 0 where
  invalid_base64 malformed_payload invalid_timestamp : CursorError

pub data Decoded : Type 0 where
  absent : Decoded
  cursor : KeysetCursor → Decoded
  failed : CursorError → Decoded

-- The decimal digits of `n` by `fmt`'s `%d`; `n + 1` units of fuel are enough.
unfoldable pub show_natural : ℕ → ℕ → List ℕ
show_natural zero n = []
show_natural (suc f) n =
    let more = show_natural f (n / 10) ++ (b'0' + n % 10) ∷ [] in
    if ltb n 10 then (b'0' + n) ∷ [] else more

unfoldable pub show_int : ℤ → List ℕ
unfolding show_natural
show_int (pos n) = show_natural (suc n) n
show_int (negsuc n) = b'-' ∷ show_natural (suc (suc n)) (suc n)

abbrev pub is_numeral : ℕ → Bool
is_numeral c = leb b'0' c && leb c b'9'

-- The number that a text begins with; what follows it is not read.
unfoldable pub read_digits : ℕ → List ℕ → ℕ
read_digits acc [] = acc
read_digits acc (c ∷ s) =
    let more = read_digits (acc * 10 + (c - b'0')) s in if is_numeral c then more else acc

abbrev max_int64 : ℕ
max_int64 = 2 ^ 63 - 1

unfoldable pub scan_natural : List ℕ → Option ℕ
unfolding read_digits
scan_natural [] = none
scan_natural (c ∷ s) = if is_numeral c then some (read_digits 0 (c ∷ s)) else none

abbrev within : ℤ → Bool
within (pos n) = leb n max_int64
within (negsuc n) = leb n max_int64

abbrev in_range : ℤ → Option ℤ
in_range z = if within z then some z else none

abbrev negated : ℕ → ℤ
negated zero = pos 0
negated (suc n) = negsuc n

unfoldable pub scan_signed : List ℕ → Option ℤ
unfolding scan_natural
scan_signed [] = none
scan_signed (c ∷ s) =
    if eqb c b'-'
    then elim (scan_natural s) [ none ↦ none | some n ↦ in_range (negated n) ]
    else elim (if eqb c b'+' then scan_natural s else scan_natural (c ∷ s)) [
      | none ↦ none
      | some n ↦ in_range (pos n)
    ]

-- `fmt.Sscanf(s, "%d", &nanos)` into an `int64`: spaces are skipped, a line break is refused.
unfoldable pub scan_int : List ℕ → Option ℤ
unfolding scan_signed
scan_int [] = none
scan_int (c ∷ s) =
    let skipped = scan_int s in
    if eqb c 10
    then none
    else if eqb c 32 || leb 9 c && leb c 13
    then skipped
    else scan_signed (c ∷ s)

-- `strings.SplitN(s, "|", 2)`, where there is a `|`.
unfoldable pub split_bar : List ℕ → Option (List ℕ × List ℕ)
split_bar [] = none
split_bar (c ∷ s) =
    let more = split_bar s in
    if eqb c b'|' then some ([], s) else elim more [ none ↦ none | some (p, q) ↦ some (c ∷ p, q) ]

abbrev pub read_cursor : List ℕ → Option ℤ → Decoded
read_cursor id none = failed invalid_timestamp
read_cursor id (some nanos) = cursor (record { created_at = nanos; id = id })

unfoldable pub read_parts : Option (List ℕ × List ℕ) → Decoded
unfolding scan_int
read_parts none = failed malformed_payload
read_parts (some (stamp, id)) = read_cursor id (scan_int stamp)

unfoldable pub read_payload : Option (List ℕ) → Decoded
unfolding split_bar read_parts
read_payload none = failed invalid_base64
read_payload (some bytes) = read_parts (split_bar bytes)

module _ (b64 : Base64) where
  unfoldable pub encode_cursor : ℤ → List ℕ → List ℕ
  unfolding show_int
  encode_cursor nanos id = b64.encode (show_int nanos ++ b'|' ∷ id)

  unfoldable pub decode_cursor : List ℕ → Decoded
  unfolding read_payload
  decode_cursor [] = absent
  decode_cursor (c ∷ s) = read_payload (b64.decode (c ∷ s))
