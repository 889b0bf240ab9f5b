-- ===== src/Vulnscan/Cpes/Printed.antt =====
-- A CPE that is printed reads back, with its fields cleaned (cpe.go and matcher.go).
use Prim.Native.Char.{Char, code}
use Prim.Native.String.{◌++◌ as ◌+++◌}
use Prim.Native.String.append
use text.Mathlib.TextLemmas.{append_assoc}
use zero_agent_scan.Prelude.{
  String, ◌≡◌, refl, ap, ◌∙◌, true, eqb, some, List, [], ◌∷◌, if_both, All, map, arith,
}
use zero_agent_scan.Prelude.Text.{split, trim}
use zero_agent_scan.Prelude.Text.{lower_char}
use zero_agent_scan.Prelude.Separators.{free, split-free, split-append_free}
use zero_agent_scan.Vulnscan.Ranges.{Cpe23, parse_cpe23_string}
use zero_agent_scan.Vulnscan.Findings.{or_else}
use zero_agent_scan.Vulnscan.Cpes.{
  kept_char, kept_chars, joined, single_underscores, trim_first, without_last, trim_last,
  sanitize_cpe_field, show_field, show_cpe,
}

abbrev pub Clean : String → Type 0
Clean s = free b':' s ≡ true

kept_char-Clean : (c : Char) (s : String) → Clean s → Clean (kept_char c s)
kept_char-Clean c s h = ground (arith, h)

kept_chars-Clean : (s : String) → Clean (kept_chars s)
kept_chars-Clean String.[] = refl
kept_chars-Clean (String.◌∷◌ c s) =
    kept_char-Clean (lower_char c) (kept_chars s) (kept_chars-Clean s)

joined-Clean : (c : Char) (s : String) → Clean (String.◌∷◌ c s) → Clean (joined c s)
joined-Clean c String.[] h = h
joined-Clean c (String.◌∷◌ d s) h = ground (arith, h)

single_underscores-Clean : (s : String) → Clean s → Clean (single_underscores s)
single_underscores-Clean String.[] h = h
single_underscores-Clean (String.◌∷◌ c s) h =
    joined-Clean c (single_underscores s) (ground (arith, single_underscores-Clean s, h))

trim_first-Clean : (s : String) → Clean s → Clean (trim_first s)
trim_first-Clean String.[] h = h
trim_first-Clean (String.◌∷◌ c s) h = ground (arith, trim_first-Clean s)

without_last-Clean : (c : Char) (s : String) → Clean (String.◌∷◌ c s) → Clean (without_last c s)
without_last-Clean c String.[] h =
    if_both Clean (eqb (code c) b'_') {x = String.[]} {y = String.◌∷◌ c String.[]} refl h
without_last-Clean c (String.◌∷◌ d s) h = h

trim_last-Clean : (s : String) → Clean s → Clean (trim_last s)
trim_last-Clean String.[] h = h
trim_last-Clean (String.◌∷◌ c s) h =
    without_last-Clean c (trim_last s) (ground (arith, trim_last-Clean s, h))

or_else-Clean : (default text : String) → Clean default → Clean text → Clean (or_else default text)
or_else-Clean default text h k = ground (arith, h, k)

sanitize_cpe_field-Clean : (s : String) → Clean (sanitize_cpe_field s)
unfolding sanitize_cpe_field
sanitize_cpe_field-Clean s =
    let kept = kept_chars (trim s) in
    let single = single_underscores kept in
    trim_last-Clean (trim_first single)
      (trim_first-Clean single (single_underscores-Clean kept (kept_chars-Clean (trim s))))

show_field-Clean : (s : String) → Clean (show_field s)
unfolding show_field
show_field-Clean s = or_else-Clean "*" (sanitize_cpe_field s) refl (sanitize_cpe_field-Clean s)

abbrev colon : Char
colon = ":"

-- A field, and what stands behind its colon.
next_field : (a rest : String) → Clean a → split b':' (a +++ ":" +++ rest) ≡ a ∷ split b':' rest
next_field a rest h =
    ap (λ r. split b':' (a +++ r))
      (append.cons colon "" rest ∙ ap (String.◌∷◌ colon) (append.nil rest))
    ∙ split-append_free colon a rest h

-- The fields of a list, joined with colons.
abbrev fields_text : String → List String → String
fields_text a [] = a
fields_text a (b ∷ rest) = a +++ ":" +++ fields_text b rest

split-fields_text :
    (a : String) (rest : List String)
    → All Clean (a ∷ rest)
    → split b':' (fields_text a rest) ≡ a ∷ rest
split-fields_text a [] h = split-free b':' a h.0
split-fields_text a (b ∷ rest) h =
    next_field a (fields_text b rest) h.0 ∙ ap (λ l. a ∷ l) (split-fields_text b rest h.1)

prefix_text : (rest : String) → "cpe:2.3:" +++ rest ≡ "cpe" +++ ":" +++ "2.3" +++ ":" +++ rest
prefix_text rest =
    append_assoc "cpe:" "2.3:" rest
    ∙ append_assoc "cpe" ":" ("2.3:" +++ rest)
    ∙ ap (λ r. "cpe" +++ ":" +++ r) (append_assoc "2.3" ":" rest)

-- The CPE that the text of one stands for: its fields are cleaned, and its origin is lost.
abbrev pub printed : Cpe23 → Cpe23
printed c = record {
  part = or_else "a" c.part;
  vendor = show_field c.vendor;
  product = show_field c.product;
  version = show_field c.version;
  update = show_field c.update;
  edition = show_field c.edition;
  language = show_field c.language;
  sw_edition = show_field c.sw_edition;
  target_sw = show_field c.target_sw;
  target_hw = show_field c.target_hw;
  other = show_field c.other;
  raw_app = "";
  app_version = "";
}

abbrev fields_of : Cpe23 → List String
fields_of c =
    c.vendor ∷ c.product ∷ c.version ∷ c.update ∷ c.edition ∷ c.language ∷ c.sw_edition
    ∷ c.target_sw ∷ c.target_hw ∷ c.other ∷ []

show_field-All : (fields : List String) → All Clean (map show_field fields)
show_field-All [] = tt
show_field-All (field ∷ fields) = (show_field-Clean field, show_field-All fields)

split-show_cpe :
    (c : Cpe23)
    → Clean c.part
    → split b':' (show_cpe c) ≡ "cpe" ∷ "2.3" ∷ or_else "a" c.part ∷ map show_field (fields_of c)
unfolding show_cpe
split-show_cpe c h =
    ap (split b':') (prefix_text (fields_text (or_else "a" c.part) (map show_field (fields_of c))))
    ∙ split-fields_text "cpe" ("2.3" ∷ or_else "a" c.part ∷ map show_field (fields_of c))
        (refl, (refl, (or_else-Clean "a" c.part refl h, show_field-All (fields_of c))))

-- The text of a CPE whose part has no colon parses to the CPE with its part as it is, or `a`
-- where it is empty, and every other field cleaned, or `*` where nothing is left of it.
pub parse_cpe23_string-show_cpe :
    (c : Cpe23) → Clean c.part → parse_cpe23_string (show_cpe c) ≡ some (printed c)
unfolding parse_cpe23_string
parse_cpe23_string-show_cpe c h = rw (split-show_cpe c h) refl
