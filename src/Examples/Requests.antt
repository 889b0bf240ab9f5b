-- ===== src/Examples/Requests.antt =====
-- Tokens and requests of one user (auth/jwt.go, auth/middleware.go and cmd/server/main.go).
use Prim.Native.Char.{Char, code}
use Prim.Native.String.{◌++◌ as ◌+++◌}
use text.Mathlib.TextEquality.{Char-path}
use zero_agent_scan.Prelude.{
  ◌*◌, ◌^◌, ◌≡◌, refl, ap, sym, String, Bool, true, false, ◌||◌, Option, some, none, lookup,
  if◌then◌else◌, eqb, arith, All, Bool-cases, inl, inr,
}
use zero_agent_scan.Prelude.Int.{pos, ◌+ℤ◌}
use zero_agent_scan.Prelude.Text.{lower_codes, split}
use zero_agent_scan.Prelude.Separators.{free}
use zero_agent_scan.Auth.Roles.{has_permission, role_permissions}
use zero_agent_scan.Auth.Tokens.{
  UserClaims, Codec, IsLawful, TokenService, Verified, verified, rejected, token_expired,
  generate_token, verify_token, stamped,
}
use zero_agent_scan.Auth.Tokens.Signed.{
  IsGenuine, verify_token-generate_token, verify_token-IsGenuine,
}
use zero_agent_scan.Auth.Guards.{
  Request, authenticated, optional_auth, is_read, same_token, is_step_up_valid, csrf_protection,
  require_permission, require_step_up,
}
use zero_agent_scan.Middleware.{rate_limit_mutating, allow, allow_found}
use zero_agent_scan.Server.{Route, Call, protected_routes, handled, guards, serve}
use zero_agent_scan.Server.Access.{Identified, Permits, IsFresh, serve-Identified}
use zero_agent_scan.Server.Fallback.{fallback_context, serve_without_token}
use zero_agent_scan.Examples.Clients.{small}

abbrev zero_char : Char
zero_char = "0"

abbrev one_char : Char
one_char = "1"

abbrev dot_char : Char
dot_char = "."

-- Each character is a pair, and a dot is two zeros.
escape : String → String
escape String.[] = String.[]
escape (String.◌∷◌ c s) =
    let rest = escape s in
    if eqb (code c) b'.'
    then String.◌∷◌ zero_char (String.◌∷◌ zero_char rest)
    else String.◌∷◌ one_char (String.◌∷◌ c rest)

abbrev unescaped : Bool → Char → Option String → Option String
unescaped is_dot c none = none
unescaped true c (some s) = some (String.◌∷◌ dot_char s)
unescaped false c (some s) = some (String.◌∷◌ c s)

unescape : String → Option String
unescape String.[] = some String.[]
unescape (String.◌∷◌ c String.[]) = none
unescape (String.◌∷◌ c (String.◌∷◌ d s)) = unescaped (eqb (code c) b'0') d (unescape s)

unescape-escape : (s : String) → unescape (escape s) ≡ some s
unfolding escape unescape
unescape-escape String.[] = refl
unescape-escape (String.◌∷◌ c s) = elim (Bool-cases (eqb (code c) b'.')) [
  | inl dot ↦
      rw (dot, unescape-escape s)
        (ap (λ d. some (String.◌∷◌ d s)) (sym (Char-path c dot_char (ground arith))))
  | inr other ↦ rw (other, unescape-escape s) refl
]

escape-free : (s : String) → free b'.' (escape s) ≡ true
unfolding escape
escape-free String.[] = refl
escape-free (String.◌∷◌ c s) = elim (Bool-cases (eqb (code c) b'.')) [
  | inl dot ↦ rw dot (escape-free s)
  | inr other ↦ rw (other, escape-free s) (ground (arith, other))
]

abbrev user : UserClaims
user = record {
  tenant_id = "t";
  user_id = "u";
  email = "u@t";
  role = "operator";
  step_up_auth_at = pos 0;
  issuer = "";
  subject = "";
  audience = "";
  issued_at = pos 0;
  expires_at = pos 0;
}

abbrev service : TokenService
service = record { secret_key = "k"; issuer = "api" }

abbrev issued_user : UserClaims
issued_user = record user { issuer = "api"; issued_at = pos 100; expires_at = pos 1000 }

-- The only claims in use are those of the user.
abbrev codec : Codec
codec = record {
  header = some "h.h";
  marshal = λ claims. some "{}";
  unmarshal = λ text. some issued_user;
  encode = escape;
  decode = unescape;
  hmac = λ key text. key +++ text;
}

codec-IsLawful : IsLawful codec
codec-IsLawful = record { decode-encode = unescape-escape; encode-free = escape-free }

abbrev unsigned : String
unsigned = escape "h.h" +++ "." +++ escape "{}"

abbrev issued_token : String
issued_token = unsigned +++ "." +++ escape ("k" +++ unsigned)

verify_token-generate_token_example :
    verify_token codec service (1000 * 10 ^ 9) issued_token
    ≡ verified (stamped codec service (100 * 10 ^ 9) (900 * 10 ^ 9) user)
unfolding generate_token stamped
verify_token-generate_token_example =
    verify_token-generate_token codec service (100 * 10 ^ 9) (900 * 10 ^ 9) (1000 * 10 ^ 9) user
      issued_token codec-IsLawful (λ s e. refl) refl (omega arith)

verify_token-IsGenuine_example :
    IsGenuine codec service (1000 * 10 ^ 9) (split b'.' issued_token) issued_user
unfolding stamped
verify_token-IsGenuine_example =
    verify_token-IsGenuine codec service (1000 * 10 ^ 9) issued_token issued_user
      verify_token-generate_token_example

-- The same token a second later.
expired_token : verify_token codec service (1001 * 10 ^ 9) issued_token ≡ rejected token_expired
unfolding verify_token escape unescape split
expired_token = refl

abbrev request : Request
request = record {
  method = "GET";
  authorization = "bearer x.y.z";
  tenant_header = "other";
  csrf_cookie = none;
  csrf_header = "";
}

abbrev call : Call
call = record { request = request; forwarded_for = ""; remote_addr = "9.9.9.9:80" }

abbrev host : String → Option String
host address = some "9.9.9.9"

abbrev list_scans : Route
list_scans = record {
  method = "GET";
  pattern = "/scans";
  permission = some "read:telemetry";
  step_up = true;
}

abbrev accept : String → Verified
accept token = verified issued_user

served_user :
    (serve accept host (200 * 10 ^ 9) list_scans call small).1 ≡ handled (authenticated issued_user)
unfolding serve optional_auth guards rate_limit_mutating csrf_protection require_permission
    require_step_up is_step_up_valid has_permission role_permissions lookup lower_codes ◌+ℤ◌
served_user = refl

serve-Identified_example :
    Identified (200 * 10 ^ 9) accept request (authenticated issued_user)
    × Permits (some "read:telemetry") (authenticated issued_user)
    × IsFresh (200 * 10 ^ 9) true (authenticated issued_user)
    × ((is_read "GET" || same_token none "") ≡ true)
serve-Identified_example =
    serve-Identified accept host (200 * 10 ^ 9) list_scans call small (authenticated issued_user)
      served_user

-- An invalid token is as good as none.
abbrev reject : String → Verified
reject token = rejected token_expired

abbrev bare_call : Call
bare_call = record {
  request = record request { method = "DELETE"; authorization = "" };
  forwarded_for = "";
  remote_addr = "9.9.9.9:80";
}

serve_without_token_example :
    All
      (λ route.
        (serve reject host (200 * 10 ^ 9) route bare_call small).1
        ≡ handled (fallback_context (200 * 10 ^ 9) bare_call))
      protected_routes
unfolding lower_codes rate_limit_mutating allow allow_found lookup
serve_without_token_example =
    serve_without_token (200 * 10 ^ 9) reject host bare_call small refl refl refl
