-- ===== src/Server/Access.antt =====
-- Who reaches the handler of a protected route (main.go and the guards of auth/middleware.go).
use mathlib.Core.Path.{subst}
use zero_agent_scan.Prelude.{
  ℕ, String, Bool, true, false, ◌||◌, Option, none, some, ◌≡◌, ◌⊎◌, refl, ◌∙◌, Bool-cases, inl, inr,
  arith,
}
use zero_agent_scan.Prelude.Text.{trim, skip_chars}
use zero_agent_scan.Auth.Roles.{Permission, has_permission}
use zero_agent_scan.Auth.Tokens.{UserClaims, Verified, verified, rejected}
use zero_agent_scan.Auth.Guards.{
  Request, Context, Guarded, denied, passed_on, authenticated, fallback_tenant, fallback_claims,
  optional, has_bearer, optional_auth, permitted, require_permission, last_auth, is_step_up_valid,
  stepped_up, require_step_up, is_read, same_token, csrf_protection, insufficient_permissions,
  step_up_required, csrf_token_mismatch,
}
use zero_agent_scan.Middleware.{RateLimiter, Verdict, allowed, refused, rate_limit_mutating}
use zero_agent_scan.Server.{
  Route, Call, client_of, handled, ◌and_then◌, guard_permission, guard_step_up, guards, limit_or,
  default_tenant, serve,
}

-- The claims in a context have the permission of a route, where it asks for one.
abbrev pub Permits : Option Permission → Context → Type 0
Permits none ctx = Unit
Permits (some perm) ctx =
    (claims : UserClaims) × (ctx.claims ≡ some claims) × (has_permission claims.role perm ≡ true)

-- They are of a user who has signed in lately, where the route asks for this.
abbrev pub IsFresh : ℕ → Bool → Context → Type 0
IsFresh now false ctx = Unit
IsFresh now true ctx =
    (claims : UserClaims) × (ctx.claims ≡ some claims)
    × (is_step_up_valid now (last_auth claims) ≡ true)

permitted-inv :
    (perm : Permission) (ctx out : Context) (o : Option UserClaims)
    → permitted perm ctx o ≡ passed_on out
    → (ctx ≡ out)
      × (claims : UserClaims) × (o ≡ some claims)
      × (has_permission claims.role perm ≡ true)
permitted-inv perm ctx out none e = absurd (ground arith)
permitted-inv perm ctx out (some claims) e = elim (Bool-cases (has_permission claims.role perm)) [
  | inl holds ↦
      let same : passed_on ctx ≡ passed_on out = rw holds at e in
      (ground arith, claims, refl, holds)
  | inr fails ↦
      let clash : denied insufficient_permissions ≡ passed_on out = rw fails at e in
      absurd (ground arith)
]

stepped_up-inv :
    (now : ℕ) (ctx out : Context) (o : Option UserClaims)
    → stepped_up now ctx o ≡ passed_on out
    → (ctx ≡ out)
      × (claims : UserClaims) × (o ≡ some claims)
      × (is_step_up_valid now (last_auth claims) ≡ true)
stepped_up-inv now ctx out none e = absurd (ground arith)
stepped_up-inv now ctx out (some claims) e =
    elim (Bool-cases (is_step_up_valid now (last_auth claims))) [
      | inl holds ↦
          let same : passed_on ctx ≡ passed_on out = rw holds at e in
          (ground arith, claims, refl, holds)
      | inr fails ↦
          let clash : denied step_up_required ≡ passed_on out = rw fails at e in
          absurd (ground arith)
    ]

guard_permission-inv :
    (o : Option Permission) (ctx out : Context)
    → guard_permission o ctx ≡ passed_on out
    → (ctx ≡ out) × Permits o ctx
unfolding require_permission
guard_permission-inv none ctx out e = (ground arith, tt)
guard_permission-inv (some perm) ctx out e =
    let (same, claims, at, ok) = permitted-inv perm ctx out ctx.claims e in (same, (claims, at, ok))

guard_step_up-inv :
    (now : ℕ) (b : Bool) (ctx out : Context)
    → guard_step_up now b ctx ≡ passed_on out
    → (ctx ≡ out) × IsFresh now b ctx
unfolding require_step_up
guard_step_up-inv now false ctx out e = (ground arith, tt)
guard_step_up-inv now true ctx out e =
    let (same, claims, at, ok) = stepped_up-inv now ctx out ctx.claims e in (same, (claims, at, ok))

csrf_protection-inv :
    (r : Request) (ctx out : Context)
    → csrf_protection r ctx ≡ passed_on out
    → (ctx ≡ out) × ((is_read r.method || same_token r.csrf_cookie r.csrf_header) ≡ true)
unfolding csrf_protection
csrf_protection-inv r ctx out e =
    elim (Bool-cases (is_read r.method || same_token r.csrf_cookie r.csrf_header)) [
      | inl holds ↦
          let same : passed_on ctx ≡ passed_on out = rw holds at e in (ground arith, holds)
      | inr fails ↦
          let clash : denied csrf_token_mismatch ≡ passed_on out = rw fails at e in
          absurd (ground arith)
    ]

and_then-inv :
    (g : Guarded) (next : Context → Guarded) (out : Context)
    → (g and_then next) ≡ passed_on out
    → (ctx : Context) × (g ≡ passed_on ctx) × (next ctx ≡ passed_on out)
and_then-inv (denied d) next out e = absurd (ground arith)
and_then-inv (passed_on ctx) next out e = (ctx, refl, e)

limit_or-inv :
    (o : Option Verdict) (g : Guarded) (out : Context)
    → limit_or o g ≡ handled out
    → g ≡ passed_on out
limit_or-inv none (denied d) out e = absurd (ground arith)
limit_or-inv none (passed_on ctx) out e = ground arith
limit_or-inv (some (allowed n)) (denied d) out e = absurd (ground arith)
limit_or-inv (some (allowed n)) (passed_on ctx) out e = ground arith
limit_or-inv (some (refused n)) g out e = absurd (ground arith)

-- Where the claims in a context come from: a bearer token that verifies, or the fallback.
abbrev pub Identified : ℕ → (String → Verified) → Request → Context → Type 0
Identified now verify r ctx =
    ((claims : UserClaims) × (has_bearer r ≡ true)
      × (verify (trim (skip_chars 7 r.authorization)) ≡ verified claims)
      × (ctx ≡ authenticated claims))
    ⊎ (ctx ≡ authenticated (fallback_claims now (fallback_tenant default_tenant r)))

optional-Identified :
    (now : ℕ) (tenant : String) (v : Verified)
    → ((claims : UserClaims) × (v ≡ verified claims)
        × (optional now tenant v ≡ authenticated claims))
      ⊎ (optional now tenant v ≡ authenticated (fallback_claims now tenant))
optional-Identified now tenant (verified claims) = inl (claims, refl, refl)
optional-Identified now tenant (rejected e) = inr refl

optional_auth-Identified :
    (now : ℕ) (verify : String → Verified) (r : Request)
    → Identified now verify r (optional_auth now verify default_tenant r)
unfolding optional_auth
optional_auth-Identified now verify r = elim (Bool-cases (has_bearer r)) [
  | inr fails ↦ inr (rw fails refl)
  | inl holds ↦
      elim (optional-Identified now (fallback_tenant default_tenant r)
        (verify (trim (skip_chars 7 r.authorization)))) [
          | inl (claims, held, same) ↦ inl (claims, holds, held, rw holds same)
          | inr same ↦ inr (rw holds same)
        ]
]

guards-inv :
    (now : ℕ) (route : Route) (r : Request) (ctx out : Context)
    → guards now route r ctx ≡ passed_on out
    → (ctx ≡ out)
      × ((is_read r.method || same_token r.csrf_cookie r.csrf_header) ≡ true)
      × Permits route.permission out
      × IsFresh now route.step_up out
unfolding guards
guards-inv now route r ctx out e =
    let (second, first, last) =
      and_then-inv (csrf_protection r ctx and_then guard_permission route.permission)
        (guard_step_up now route.step_up) out e in
    let (mid, csrf, permission) =
      and_then-inv (csrf_protection r ctx) (guard_permission route.permission) second first in
    let (same_mid, csrf_ok) = csrf_protection-inv r ctx mid csrf in
    let (same_second, permits) = guard_permission-inv route.permission mid second permission in
    let (same_out, fresh) = guard_step_up-inv now route.step_up second out last in
    (
      same_mid ∙ same_second ∙ same_out,
      csrf_ok,
      subst (Permits route.permission) (same_second ∙ same_out) permits,
      subst (IsFresh now route.step_up) same_out fresh,
    )

module _ (verify : String → Verified) (split_host_port : String → Option String) where
  -- A request reaches the handler of a route only with the claims of its bearer token, which verifies,
  -- or those of the fallback; the role of the claims has the permission of the route, a route that asks
  -- for it has a sign-in within the window, and a request that writes has the token of its cookie.
  pub serve-Identified :
      (now : ℕ) (route : Route) (call : Call) (rl : RateLimiter) (ctx : Context)
      → (serve verify split_host_port now route call rl).1 ≡ handled ctx
      → Identified now verify call.request ctx
        × Permits route.permission ctx
        × IsFresh now route.step_up ctx
        × ((is_read call.request.method
              || same_token call.request.csrf_cookie call.request.csrf_header)
            ≡ true)
  unfolding serve
  serve-Identified now route call rl ctx e =
      let start = optional_auth now verify default_tenant call.request in
      let verdict = (rate_limit_mutating split_host_port now (client_of call) rl).1 in
      let passed = limit_or-inv verdict (guards now route call.request start) ctx e in
      let (same, csrf, permits, fresh) = guards-inv now route call.request start ctx passed in
      (
        subst (Identified now verify call.request) same
            (optional_auth-Identified now verify call.request),
        permits,
        fresh,
        csrf,
      )
