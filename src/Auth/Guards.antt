-- ===== src/Auth/Guards.antt =====
-- apps/api/internal/auth/middleware.go and stepup.go: the guards in front of a handler. A guard
-- answers with an error or passes the context on.
use zero_agent_scan.Prelude.{
  ℕ, ◌+◌, ◌-◌, ◌*◌, ◌^◌, String, Bool, true, not, ◌&&◌, ◌||◌, Option, none, some, ◌==◌,
  if◌then◌else◌,
}
use zero_agent_scan.Prelude.Text.{codes, lower_codes, starts_with, skip_chars, trim, equal_fold}
use zero_agent_scan.Prelude.Separators.{split_two}
use zero_agent_scan.Prelude.Int.{ℤ, pos, negsuc, ◌+ℤ◌, leb_ℤ, ltb_ℤ, eqb_ℤ}
use zero_agent_scan.Auth.Roles.{Permission, has_permission, role_super_admin}
use zero_agent_scan.Auth.Tokens.{UserClaims, Verified, verified, rejected, unix}

-- What the guards read of a request; a header that is missing is empty.
pub record Request : Type 0 where
  pub method : String
  pub authorization : String
  pub tenant_header : String
  pub csrf_cookie : Option String
  pub csrf_header : String

-- The values that a guard puts into the context.
pub record Context : Type 0 where
  pub tenant_id : Option String
  pub claims : Option UserClaims

pub data Denial : Type 0 where
  missing_authorization invalid_auth_scheme invalid_token unauthenticated : Denial
  insufficient_permissions step_up_required csrf_token_mismatch : Denial

pub data Guarded : Type 0 where
  denied : Denial → Guarded
  passed_on : Context → Guarded

abbrev pub authenticated : UserClaims → Context
authenticated claims = record { tenant_id = some claims.tenant_id; claims = some claims }

abbrev pub required : Verified → Guarded
required (verified claims) = passed_on (authenticated claims)
required (rejected e) = denied invalid_token

abbrev pub with_scheme : (String → Verified) → Option (String × String) → Guarded
with_scheme verify none = denied invalid_auth_scheme
with_scheme verify (some (scheme, token)) =
    if equal_fold scheme "Bearer" then required (verify token) else denied invalid_auth_scheme

-- `verify` is `VerifyToken` at the time of the request.
unfoldable pub require_auth : (String → Verified) → Request → Guarded
unfolding split_two equal_fold
require_auth verify r =
    if r.authorization == ""
    then denied missing_authorization
    else with_scheme verify (split_two b' ' r.authorization)

abbrev or_default : String → String → String
or_default default text = if text == "" then default else text

abbrev pub fallback_tenant : String → Request → String
fallback_tenant default r = or_default "tenant-default-01" (or_default default r.tenant_header)

-- The claims of a request without a valid token.
unfoldable pub fallback_claims : ℕ → String → UserClaims
fallback_claims now tenant = record {
  tenant_id = tenant;
  user_id = "usr-default-admin";
  email = "admin@endpointguard.local";
  role = role_super_admin;
  step_up_auth_at = unix now;
  issuer = "";
  subject = "";
  audience = "";
  issued_at = pos 0;
  expires_at = pos 0;
}

abbrev pub optional : ℕ → String → Verified → Context
optional now tenant (verified claims) = authenticated claims
optional now tenant (rejected e) = authenticated (fallback_claims now tenant)

abbrev pub has_bearer : Request → Bool
has_bearer r = starts_with (codes "bearer ") (lower_codes r.authorization)

unfoldable pub optional_auth : ℕ → (String → Verified) → String → Request → Context
unfolding lower_codes trim fallback_claims
optional_auth now verify default r =
    let tenant = fallback_tenant default r in
    if has_bearer r
    then optional now tenant (verify (trim (skip_chars 7 r.authorization)))
    else authenticated (fallback_claims now tenant)

abbrev pub permitted : Permission → Context → Option UserClaims → Guarded
permitted perm ctx none = denied unauthenticated
permitted perm ctx (some claims) =
    if has_permission claims.role perm then passed_on ctx else denied insufficient_permissions

unfoldable pub require_permission : Permission → Context → Guarded
unfolding has_permission
require_permission perm ctx = permitted perm ctx ctx.claims

-- `time.Unix(seconds, 0)`, in nanoseconds.
abbrev pub nanos : ℤ → ℤ
nanos (pos n) = pos (n * 10 ^ 9)
nanos (negsuc n) = negsuc ((n + 1) * 10 ^ 9 - 1)

abbrev pub validity_window : ℤ
validity_window = pos (15 * 60 * 10 ^ 9)

-- The seconds from 1970 back to Go's zero time.
abbrev zero_seconds : ℤ
zero_seconds = negsuc 62135596799

unfoldable pub is_step_up_valid : ℕ → ℤ → Bool
unfolding ◌+ℤ◌
is_step_up_valid now at =
    not (eqb_ℤ at zero_seconds) && leb_ℤ (pos now) (nanos at +ℤ validity_window)

abbrev pub last_auth : UserClaims → ℤ
last_auth claims =
    if ltb_ℤ (pos 0) claims.step_up_auth_at then claims.step_up_auth_at else claims.issued_at

abbrev pub stepped_up : ℕ → Context → Option UserClaims → Guarded
stepped_up now ctx none = denied unauthenticated
stepped_up now ctx (some claims) =
    if is_step_up_valid now (last_auth claims) then passed_on ctx else denied step_up_required

unfoldable pub require_step_up : ℕ → Context → Guarded
unfolding is_step_up_valid
require_step_up now ctx = stepped_up now ctx ctx.claims

abbrev pub is_read : String → Bool
is_read method = method == "GET" || method == "HEAD" || method == "OPTIONS"

-- A cookie without a value is no cookie; the header has to be the value.
abbrev pub same_token : Option String → String → Bool
same_token none header = true
same_token (some value) header = value == "" || header == value

unfoldable pub csrf_protection : Request → Context → Guarded
csrf_protection r ctx =
    if is_read r.method || same_token r.csrf_cookie r.csrf_header
    then passed_on ctx
    else denied csrf_token_mismatch

abbrev or_fallback : String → Option String → String
or_fallback default none = default
or_fallback default (some text) = or_default default text

unfoldable pub get_tenant_id : Context → String
get_tenant_id ctx = or_fallback "tenant-default-01" ctx.tenant_id

abbrev user_of : Option UserClaims → Option String
user_of none = none
user_of (some claims) = some claims.user_id

unfoldable pub get_user_id : Context → String
get_user_id ctx = or_fallback "admin_operator" (user_of ctx.claims)
