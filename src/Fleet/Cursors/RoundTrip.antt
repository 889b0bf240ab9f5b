-- ===== src/Fleet/Cursors/RoundTrip.antt =====
-- What `EncodeCursor` writes, `DecodeCursor` reads back (keyset.go).
use zero_agent_scan.Prelude.{
  ℕ, zero, suc, ◌+◌, ◌-◌, ◌*◌, ◌/◌, ◌%◌, ◌^◌, ◌<◌, ◌≡◌, ◌≢◌, true, false, some, refl, arith, length,
  length-append, List, [], ◌∷◌, ◌++◌, ltb, eqb, All, All-append, All-map, Bool-cases, inl, inr, ap,
  ◌∙◌, sym,
}
use zero_agent_scan.Prelude.Int.{ℤ, pos, negsuc, pos_part, neg_part}
use mathlib.Core.List.{append_assoc, append-nil}
use zero_agent_scan.Fleet.Cursors.{
  Base64, show_natural, show_int, is_numeral, read_digits, scan_natural, scan_signed, scan_int,
  split_bar, cursor, encode_cursor, decode_cursor, read_payload, read_parts, read_cursor,
}

-- Every byte of a printed number is a digit.
numeral_bytes : (f n : ℕ) → All (λ c. is_numeral c ≡ true) (show_natural f n)
unfolding show_natural
numeral_bytes zero n = tt
numeral_bytes (suc f) n = elim (Bool-cases (ltb n 10)) [
  | inl e ↦ rw e (ground arith, tt)
  | inr e ↦ rw e (
      All-append (λ c. is_numeral c ≡ true) (show_natural f (n / 10)) _ (numeral_bytes f (n / 10))
        (ground arith, tt))
]

-- With enough fuel at least one digit is printed.
show_natural-cons : (f n : ℕ) → n < f → (c : ℕ) × (s : List ℕ) × (show_natural f n ≡ c ∷ s)
unfolding show_natural
show_natural-cons zero n h = elim h [ ]
show_natural-cons (suc f) n h = elim (Bool-cases (ltb n 10)) [
  | inl e ↦ (b'0' + n, [], rw e)
  | inr e ↦
      let (c, s, same) = show_natural-cons f (n / 10) (ground arith) in
      (c, s ++ (b'0' + n % 10) ∷ [], rw (e, same))
]

read_digits-cons :
    (acc d : ℕ) (rest : List ℕ)
    → d < 10
    → read_digits acc ((b'0' + d) ∷ rest) ≡ read_digits (acc * 10 + d) rest
unfolding read_digits
read_digits-cons acc d rest h =
    let numeral : is_numeral (b'0' + d) ≡ true = ground arith in
    let same : acc * 10 + (b'0' + d - b'0') ≡ acc * 10 + d = omega arith in
    rw numeral (ap (λ n. read_digits n rest) same)

read_digits-show_natural :
    (f n : ℕ) (rest : List ℕ)
    → n < f
    → read_digits 0 (show_natural f n ++ rest) ≡ read_digits n rest
unfolding show_natural
read_digits-show_natural zero n rest h = elim h [ ]
read_digits-show_natural (suc f) n rest h = elim (Bool-cases (ltb n 10)) [
  | inl e ↦
      let same : 0 * 10 + n ≡ n = omega arith in
      rw e (read_digits-cons 0 n rest (ground arith) ∙ ap (λ k. read_digits k rest) same)
  | inr e ↦
      let same : n / 10 * 10 + n % 10 ≡ n = omega arith in
      rw e (
        ap (read_digits 0) (append_assoc (show_natural f (n / 10)) ((b'0' + n % 10) ∷ []) rest)
        ∙ read_digits-show_natural f (n / 10) ((b'0' + n % 10) ∷ rest) (ground arith)
        ∙ read_digits-cons (n / 10) (n % 10) rest (omega arith)
        ∙ ap (λ k. read_digits k rest) same)
]

scan_natural_numerals :
    (t : List ℕ)
    → 0 < length t
    → All (λ c. is_numeral c ≡ true) t
    → scan_natural t ≡ some (read_digits 0 t)
unfolding scan_natural
scan_natural_numerals [] h a = elim h [ ]
scan_natural_numerals (c ∷ s) h a = ground (arith, a.0)

scan_int_numerals :
    (t : List ℕ)
    → 0 < length t
    → All (λ c. is_numeral c ≡ true) t
    → read_digits 0 t < 2 ^ 63
    → scan_int t ≡ some (pos (read_digits 0 t))
unfolding scan_int scan_natural
scan_int_numerals [] h a b = elim h [ ]
scan_int_numerals (c ∷ s) h a b = ground (arith, a.0)

scan_int-minus :
    (t : List ℕ) (n : ℕ)
    → scan_natural t ≡ some (suc n)
    → suc n < 2 ^ 63
    → scan_int (b'-' ∷ t) ≡ some (negsuc n)
unfolding scan_int scan_signed
scan_int-minus t n e b = ground arith

length-show_natural_pos : (f n : ℕ) → n < f → 0 < length (show_natural f n)
unfolding show_natural
length-show_natural_pos zero n h = elim h [ ]
length-show_natural_pos (suc f) n h =
    ground (arith, length-append (show_natural f (n / 10)) ((b'0' + n % 10) ∷ []))

read_digits_text : (n : ℕ) → read_digits 0 (show_natural (suc n) n) ≡ n
unfolding read_digits
read_digits_text n =
    ap (read_digits 0) (sym (append-nil (show_natural (suc n) n)))
    ∙ read_digits-show_natural (suc n) n [] (omega arith)

-- A number in 64 bits is read back from its text.
scan_int-show_int :
    (z : ℤ) → pos_part z < 2 ^ 63 → neg_part z < 2 ^ 63 → scan_int (show_int z) ≡ some z
unfolding show_int
scan_int-show_int (pos n) p q =
    let same = read_digits_text n in
    scan_int_numerals (show_natural (suc n) n) (length-show_natural_pos (suc n) n (omega arith))
      (numeral_bytes (suc n) n) (omega (arith, same))
    ∙ ap (λ k. some (pos k)) same
scan_int-show_int (negsuc n) p q =
    scan_int-minus (show_natural (suc (suc n)) (suc n)) n
      (scan_natural_numerals (show_natural (suc (suc n)) (suc n))
          (length-show_natural_pos (suc (suc n)) (suc n) (omega arith))
          (numeral_bytes (suc (suc n)) (suc n))
        ∙ ap some (read_digits_text (suc n)))
      q

-- The text of a number is free of `|`.
split_bar-append :
    (t id : List ℕ) → All (λ c. eqb c b'|' ≡ false) t → split_bar (t ++ b'|' ∷ id) ≡ some (t, id)
unfolding split_bar
split_bar-append [] id a = refl
split_bar-append (c ∷ t) id a = rw (a.0, split_bar-append t id a.1)

show_int_bytes : (z : ℤ) → All (λ c. (eqb c b'|' ≡ false) × (c < 256)) (show_int z)
unfolding show_int
show_int_bytes (pos n) =
    All-map _ _ (show_natural (suc n) n) (λ c h. ground arith) (numeral_bytes (suc n) n)
show_int_bytes (negsuc n) = (
  (refl, omega arith),
  All-map _ _ (show_natural (suc (suc n)) (suc n)) (λ c h. ground arith)
      (numeral_bytes (suc (suc n)) (suc n)),
)

module _ (b64 : Base64) where
  decode_cursor-ne_nil :
      (s bytes : List ℕ)
      → b64.decode s ≡ some bytes
      → bytes ≢ []
      → decode_cursor b64 s ≡ read_payload (some bytes)
  unfolding decode_cursor
  decode_cursor-ne_nil [] bytes e h = absurd (h (ground (arith, b64.decode-nil)))
  decode_cursor-ne_nil (c ∷ s) bytes e h = rw e

  -- The cursor of an instant within 64 bits of nanoseconds and an ID of bytes is decoded to that
  -- instant and ID, also where the ID holds a `|`.
  pub decode_cursor-encode_cursor :
      (nanos : ℤ) (id : List ℕ)
      → pos_part nanos < 2 ^ 63
      → neg_part nanos < 2 ^ 63
      → All (λ b. b < 256) id
      → decode_cursor b64 (encode_cursor b64 nanos id)
        ≡ cursor (record { created_at = nanos; id = id })
  unfolding encode_cursor read_parts read_payload
  decode_cursor-encode_cursor nanos id p q bytes =
      let shown = show_int_bytes nanos in
      let payload = show_int nanos ++ b'|' ∷ id in
      let small : All (λ b. b < 256) payload =
        All-append _ (show_int nanos) (b'|' ∷ id) (All-map _ _ (show_int nanos) (λ c h. h.1) shown)
          (omega arith, bytes) in
      let barred =
        split_bar-append (show_int nanos) id (All-map _ _ (show_int nanos) (λ c h. h.0) shown) in
      let filled : payload ≢ [] =
        λ e. absurd (omega (arith, length-append (show_int nanos) (b'|' ∷ id), ap length e)) in
      decode_cursor-ne_nil (b64.encode payload) payload (b64.decode-encode payload small) filled
      ∙ ap read_parts barred
      ∙ ap (read_cursor id) (scan_int-show_int nanos p q)
