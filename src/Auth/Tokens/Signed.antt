-- ===== src/Auth/Tokens/Signed.antt =====
-- What a token that verifies is worth, and that an issued one verifies (jwt.go).
use Prim.Native.Char.{Char}
use Prim.Native.String.{◌++◌ as ◌+++◌}
use Prim.Native.String.append
use mathlib.Core.Path.{subst}
use text.Mathlib.TextLemmas.{append_assoc}
use zero_agent_scan.Prelude.{
  ℕ, ◌+◌, ◌≤◌, String, true, Option, none, some, List, [], ◌∷◌, ◌==◌, ◌≡◌, refl, sym, ap, ◌∙◌,
  Bool-cases, inl, inr, arith, eq_iff, eq_refl,
}
use zero_agent_scan.Prelude.Text.{split}
use zero_agent_scan.Prelude.Separators.{free, split-free, split-append_free}
use zero_agent_scan.Prelude.Int.{ltb_ℤ, ◌≤ℤ◌}
use zero_agent_scan.Auth.Tokens.{
  UserClaims, Codec, IsLawful, Survives, TokenService, unix, verified, rejected, stamped, signature,
  signed, generate_token, verify_parts, verify_token, check_expiry, check_payload, token_expired,
  bad_signature,
}

abbrev dot : Char
dot = "."

after_dot : (p q : String) → p +++ "." +++ q ≡ p +++ String.◌∷◌ dot q
after_dot p q = ap (λ r. p +++ r) (append.cons dot "" q ∙ ap (String.◌∷◌ dot) (append.nil q))

three_parts :
    (a b c : String)
    → free b'.' a ≡ true
    → free b'.' b ≡ true
    → free b'.' c ≡ true
    → split b'.' ((a +++ "." +++ b) +++ "." +++ c) ≡ a ∷ b ∷ c ∷ []
three_parts a b c h k l =
    ap (split b'.') (
      append_assoc a ("." +++ b) ("." +++ c)
      ∙ ap (λ r. a +++ r) (append_assoc "." b ("." +++ c))
      ∙ after_dot a (b +++ "." +++ c))
    ∙ split-append_free dot a (b +++ "." +++ c) h
    ∙ ap (λ r. a ∷ r) (ap (split b'.') (after_dot b c) ∙ split-append_free dot b c k)
    ∙ ap (λ r. a ∷ b ∷ r) (split-free b'.' c l)

module _ (codec : Codec) (service : TokenService) where
  signed_verifies :
      (now ttl later : ℕ) (claims : UserClaims) (token : String) (header payload : Option String)
      → IsLawful codec
      → Survives codec (stamped codec service now ttl claims)
      → codec.marshal (stamped codec service now ttl claims) ≡ payload
      → signed codec service header payload ≡ some token
      → later ≤ now + ttl
      → verify_parts codec service later (split b'.' token)
        ≡ verified (stamped codec service now ttl claims)
  unfolding stamped
  signed_verifies now ttl later claims token none payload law back m e h = absurd (ground arith)
  signed_verifies now ttl later claims token (some hd) none law back m e h = absurd (ground arith)
  signed_verifies now ttl later claims token (some hd) (some json) law back m e h =
      let a = codec.encode hd in
      let b = codec.encode json in
      let c = signature codec service (a +++ "." +++ b) in
      let whole : (a +++ "." +++ b) +++ "." +++ c ≡ token = ground arith in
      let parts : split b'.' token ≡ a ∷ b ∷ c ∷ [] =
        ap (split b'.') (sym whole)
        ∙ three_parts a b c (law.encode-free hd) (law.encode-free json)
            (law.encode-free (codec.hmac service.secret_key (a +++ "." +++ b))) in
      let read = back json m in
      rw (parts, eq_refl c, law.decode-encode json, read) (ground (arith, h))

  -- A token that is issued, for claims that JSON brings back as they were, verifies until it expires, to
  -- the claims with issuer and times filled in.
  pub verify_token-generate_token :
      (now ttl later : ℕ) (claims : UserClaims) (token : String)
      → IsLawful codec
      → Survives codec (stamped codec service now ttl claims)
      → generate_token codec service now ttl claims ≡ some token
      → later ≤ now + ttl
      → verify_token codec service later token ≡ verified (stamped codec service now ttl claims)
  unfolding verify_token generate_token
  verify_token-generate_token now ttl later claims token law back e h =
      signed_verifies now ttl later claims token codec.header
        (codec.marshal (stamped codec service now ttl claims)) law back refl e h

  -- What a token that verifies consists of: a payload that reads as the claims, signed together with
  -- what stands in front of it, and not expired.
  abbrev pub IsGenuine : ℕ → List String → UserClaims → Type 0
  IsGenuine now parts claims =
      (header : String) × (payload : String) × (json : String) × (parts
        ≡ header ∷ payload ∷ signature codec service (header +++ "." +++ payload) ∷ [])
      × (codec.decode payload ≡ some json)
      × (codec.unmarshal json ≡ some claims)
      × (unix now ≤ℤ claims.expires_at)

  unexpired :
      (now : ℕ) (o : Option UserClaims) (claims : UserClaims)
      → check_expiry codec service now o ≡ verified claims
      → (o ≡ some claims) × (unix now ≤ℤ claims.expires_at)
  unexpired now none claims e = absurd (ground arith)
  unexpired now (some c) claims e = elim (Bool-cases (ltb_ℤ c.expires_at (unix now))) [
    | inl old ↦
        let clash : rejected token_expired ≡ verified claims = rw old at e in absurd (ground arith)
    | inr young ↦
        let found : verified c ≡ verified claims = rw young at e in
        let same : c ≡ claims = ground arith in
        (
          ap some same,
          subst (λ (x : UserClaims). unix now ≤ℤ x.expires_at) same (ground (arith, young)),
        )
  ]

  decoded :
      (now : ℕ) (o : Option String) (claims : UserClaims)
      → check_payload codec service now o ≡ verified claims
      → (json : String) × (o ≡ some json)
        × (codec.unmarshal json ≡ some claims)
        × (unix now ≤ℤ claims.expires_at)
  decoded now none claims e = absurd (ground arith)
  decoded now (some json) claims e =
      let (read, young) = unexpired now (codec.unmarshal json) claims e in (json, refl, read, young)

  IsGenuine-parts :
      (now : ℕ) (parts : List String) (claims : UserClaims)
      → verify_parts codec service now parts ≡ verified claims
      → IsGenuine now parts claims
  IsGenuine-parts now [] claims e = absurd (ground arith)
  IsGenuine-parts now (a ∷ []) claims e = absurd (ground arith)
  IsGenuine-parts now (a ∷ b ∷ []) claims e = absurd (ground arith)
  IsGenuine-parts now (a ∷ b ∷ c ∷ d ∷ more) claims e = absurd (ground arith)
  IsGenuine-parts now (a ∷ b ∷ c ∷ []) claims e =
      let expected = signature codec service (a +++ "." +++ b) in
      elim (Bool-cases (c == expected)) [
        | inl same ↦
            let (json, at, read, young) = decoded now (codec.decode b) claims (rw same at e) in
            (a, b, json, ap (λ x. a ∷ b ∷ x ∷ []) ((eq_iff c expected).0 same), at, read, young)
        | inr differ ↦
            let clash : rejected bad_signature ≡ verified claims = rw differ at e in
            absurd (ground arith)
      ]

  -- A token verifies to some claims only if its three parts are a header, a payload that reads as these
  -- claims and the signature of the two under the secret key, and the claims have not expired.
  pub verify_token-IsGenuine :
      (now : ℕ) (token : String) (claims : UserClaims)
      → verify_token codec service now token ≡ verified claims
      → IsGenuine now (split b'.' token) claims
  unfolding verify_token
  verify_token-IsGenuine now token claims e = IsGenuine-parts now (split b'.' token) claims e
