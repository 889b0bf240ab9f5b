-- ===== src/Server/Fallback.antt =====
-- Requests without a bearer token (OptionalAuth of auth/middleware.go, as main.go uses it).
use zero_agent_scan.Prelude.{
  ℕ, String, Bool, true, false, ◌&&◌, ◌||◌, Option, none, some, List, [], ◌∷◌, ◌≡◌, refl, arith,
  All, All-map, lookup,
}
use zero_agent_scan.Prelude.Int.{◌+ℤ◌}
use zero_agent_scan.Auth.Roles.{Permission, has_permission, role_permissions, role_super_admin}
use zero_agent_scan.Auth.Tokens.{Verified}
use zero_agent_scan.Auth.Guards.{
  Context, passed_on, authenticated, fallback_tenant, fallback_claims, has_bearer, optional_auth,
  require_permission, last_auth, is_step_up_valid, require_step_up, is_read, same_token,
  csrf_protection,
}
use zero_agent_scan.Middleware.{RateLimiter, Verdict, allowed, refused, rate_limit_mutating}
use zero_agent_scan.Server.{
  Route, protected_routes, Call, client_of, handled, guard_permission, guard_step_up, guards,
  limit_or, default_tenant, serve,
}

-- The super administrator has the permission that a route asks for.
abbrev is_granted : Option Permission → Bool
is_granted none = true
is_granted (some perm) = has_permission role_super_admin perm

abbrev all_granted : List Route → Bool
all_granted [] = true
all_granted (route ∷ routes) = is_granted route.permission && all_granted routes

abbrev IsGranted : Route → Type 0
IsGranted route = is_granted route.permission ≡ true

All-IsGranted : (routes : List Route) → all_granted routes ≡ true → All IsGranted routes
All-IsGranted [] h = tt
All-IsGranted (route ∷ routes) h = (ground arith, All-IsGranted routes (ground arith))

routes-IsGranted : All IsGranted protected_routes
unfolding protected_routes has_permission role_permissions lookup
routes-IsGranted = All-IsGranted protected_routes refl

fallback_fresh :
    (now : ℕ) (tenant : String)
    → is_step_up_valid now (last_auth (fallback_claims now tenant)) ≡ true
unfolding is_step_up_valid fallback_claims ◌+ℤ◌
fallback_fresh now tenant = ground arith

abbrev pub is_let : Option Verdict → Bool
is_let none = true
is_let (some (allowed n)) = true
is_let (some (refused n)) = false

-- The context of a request without a token.
abbrev pub fallback_context : ℕ → Call → Context
fallback_context now call =
    authenticated (fallback_claims now (fallback_tenant default_tenant call.request))

module _ (now : ℕ) (verify : String → Verified) (split_host_port : String → Option String)
    (call : Call) (rl : RateLimiter) where
  permission_passed :
      (o : Option Permission)
      → is_granted o ≡ true
      → guard_permission o (fallback_context now call) ≡ passed_on (fallback_context now call)
  unfolding require_permission fallback_claims
  permission_passed none h = refl
  permission_passed (some perm) h = rw h refl

  step_up_passed :
      (b : Bool)
      → guard_step_up now b (fallback_context now call) ≡ passed_on (fallback_context now call)
  unfolding require_step_up
  step_up_passed false = refl
  step_up_passed true = rw (fallback_fresh now (fallback_tenant default_tenant call.request)) refl

  guards_passed :
      (route : Route)
      → (is_read call.request.method
          || same_token call.request.csrf_cookie call.request.csrf_header)
        ≡ true
      → IsGranted route
      → guards now route call.request (fallback_context now call)
        ≡ passed_on (fallback_context now call)
  unfolding guards csrf_protection
  guards_passed route csrf granted =
      rw (csrf, permission_passed route.permission granted) (step_up_passed route.step_up)

  limit_passed :
      (o : Option Verdict) (ctx : Context)
      → is_let o ≡ true
      → limit_or o (passed_on ctx) ≡ handled ctx
  limit_passed none ctx h = refl
  limit_passed (some (allowed n)) ctx h = refl
  limit_passed (some (refused n)) ctx h = absurd (ground arith)

  -- A request without a bearer token that the rate limit lets pass and that has the token of its cookie,
  -- if it has one and writes, reaches the handler of every protected route, as a super administrator who
  -- has just signed in, of the tenant that it names itself.
  pub serve_without_token :
      has_bearer call.request ≡ false
      → (is_read call.request.method
          || same_token call.request.csrf_cookie call.request.csrf_header)
        ≡ true
      → is_let (rate_limit_mutating split_host_port now (client_of call) rl).1 ≡ true
      → All
          (λ route.
            (serve verify split_host_port now route call rl).1
            ≡ handled (fallback_context now call))
          protected_routes
  unfolding serve optional_auth
  serve_without_token bare csrf let_through =
      All-map IsGranted
        (λ route.
          (serve verify split_host_port now route call rl).1 ≡ handled (fallback_context now call))
        protected_routes
        (λ route granted.
          rw (bare, guards_passed route csrf granted)
            (limit_passed _ (fallback_context now call) let_through))
        routes-IsGranted
