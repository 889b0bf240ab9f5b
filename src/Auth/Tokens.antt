-- ===== src/Auth/Tokens.antt =====
-- apps/api/internal/auth/jwt.go: the tokens that carry the claims of a user. JSON, base64 and the HMAC
-- are parameters, on texts of bytes; times are nanoseconds, those in the claims seconds.
pub mod Signed
use Prim.Native.String.{◌++◌ as ◌+++◌}
use zero_agent_scan.Prelude.{
  ℕ, ◌+◌, ◌/◌, ◌^◌, String, Bool, true, false, Option, none, some, List, [], ◌∷◌, ◌==◌,
  if◌then◌else◌, ◌≡◌,
}
use zero_agent_scan.Prelude.Text.{split}
use zero_agent_scan.Prelude.Separators.{free}
use zero_agent_scan.Prelude.Int.{ℤ, pos, ltb_ℤ}
use zero_agent_scan.Auth.Roles.{Role}

pub record UserClaims : Type 0 where
  pub tenant_id : String
  pub user_id : String
  pub email : String
  pub role : Role
  pub step_up_auth_at : ℤ
  pub issuer : String
  pub subject : String
  pub audience : String
  pub issued_at : ℤ
  pub expires_at : ℤ

-- `header` is the marshalled header; `none` stands for an error of the library.
pub record Codec : Type 0 where
  pub header : Option String
  pub marshal : UserClaims → Option String
  pub unmarshal : String → Option UserClaims
  pub encode : String → String
  pub decode : String → Option String
  pub hmac : String → String → String

-- What base64.RawURLEncoding promises.
pub record IsLawful (c : Codec) : Type 0 where
  pub decode-encode : (s : String) → c.decode (c.encode s) ≡ some s
  pub encode-free : (s : String) → free b'.' (c.encode s) ≡ true

-- Claims that come back from encoding/json as they were.
abbrev pub Survives : Codec → UserClaims → Type 0
Survives c claims = (s : String) → c.marshal claims ≡ some s → c.unmarshal s ≡ some claims

pub record TokenService : Type 0 where
  pub secret_key : String
  pub issuer : String

unfoldable pub new_token_service : String → String → TokenService
new_token_service secret issuer = record {
  secret_key = secret;
  issuer = if issuer == "" then "endpointguard-auth" else issuer;
}

-- `time.Time.Unix`, of an instant after 1970.
abbrev pub unix : ℕ → ℤ
unix now = pos (now / 10 ^ 9)

pub data VerifyError : Type 0 where
  not_three_parts bad_signature bad_encoding bad_claims token_expired : VerifyError

pub data Verified : Type 0 where
  verified : UserClaims → Verified
  rejected : VerifyError → Verified

module _ (codec : Codec) (service : TokenService) where
  unfoldable pub stamped : ℕ → ℕ → UserClaims → UserClaims
  stamped now ttl claims = record claims {
    issuer = service.issuer;
    issued_at = unix now;
    expires_at = unix (now + ttl);
  }

  abbrev pub signature : String → String
  signature unsigned = codec.encode (codec.hmac service.secret_key unsigned)

  abbrev pub signed : Option String → Option String → Option String
  signed (some header) (some claims) =
      let unsigned = codec.encode header +++ "." +++ codec.encode claims in
      some (unsigned +++ "." +++ signature unsigned)
  signed header claims = none

  unfoldable pub generate_token : ℕ → ℕ → UserClaims → Option String
  unfolding stamped
  generate_token now ttl claims = signed codec.header (codec.marshal (stamped now ttl claims))

  abbrev pub check_expiry : ℕ → Option UserClaims → Verified
  check_expiry now none = rejected bad_claims
  check_expiry now (some claims) =
      if ltb_ℤ claims.expires_at (unix now) then rejected token_expired else verified claims

  abbrev pub check_payload : ℕ → Option String → Verified
  check_payload now none = rejected bad_encoding
  check_payload now (some payload) = check_expiry now (codec.unmarshal payload)

  abbrev pub verify_parts : ℕ → List String → Verified
  verify_parts now (header ∷ payload ∷ sig ∷ []) =
      let checked = check_payload now (codec.decode payload) in
      if sig == signature (header +++ "." +++ payload) then checked else rejected bad_signature
  verify_parts now parts = rejected not_three_parts

  unfoldable pub verify_token : ℕ → String → Verified
  unfolding split
  verify_token now token = verify_parts now (split b'.' token)
