-- ===== src/Server.antt =====
-- apps/api/cmd/server/main.go: the protected routes, and the guards that a request passes in front of
-- their handlers. The choice of a route by method and path is the router's, so the route is given.
pub mod Access
pub mod Fallback
use zero_agent_scan.Prelude.{
  ℕ, String, Bool, true, false, Option, none, some, List, [], ◌∷◌, if◌then◌else◌,
}
use zero_agent_scan.Auth.Roles.{Permission}
use zero_agent_scan.Auth.Tokens.{Verified}
use zero_agent_scan.Auth.Guards.{
  Request, Context, Denial, Guarded, denied, passed_on, optional_auth, require_permission,
  require_step_up, csrf_protection,
}
use zero_agent_scan.Middleware
use zero_agent_scan.Middleware.{RateLimiter, Verdict, allowed, refused, rate_limit_mutating}

pub record Route : Type 0 where
  pub method : String
  pub pattern : String
  pub permission : Option Permission
  pub step_up : Bool

abbrev route : String → String → Option Permission → Bool → Route
route method pattern permission step_up = record {
  method = method;
  pattern = pattern;
  permission = permission;
  step_up = step_up;
}

unfoldable pub protected_routes : List Route
protected_routes =
    route "GET" "/endpoints" (some "read:telemetry") false
    ∷ route "GET" "/endpoints/pilot/summary" (some "read:telemetry") false
    ∷ route "GET" "/endpoints/{id}" (some "read:telemetry") false
    ∷ route "POST" "/endpoints/rollout-tier/promote" (some "manage:tenants") false
    ∷ route "POST" "/endpoints/rollout-tier/bulk-assign" (some "manage:tenants") false
    ∷ route "POST" "/endpoints/{id}/rollout-tier" (some "manage:tenants") false
    ∷ route "DELETE" "/endpoints/{id}" (some "manage:tenants") true
    ∷ route "GET" "/admin/settings/rollout-tiers" (some "read:telemetry") false
    ∷ route "PUT" "/admin/settings/rollout-tiers" (some "manage:tenants") false
    ∷ route "GET" "/snapshots" (some "read:telemetry") false
    ∷ route "GET" "/snapshots/{id}" (some "read:telemetry") false
    ∷ route "GET" "/admin/snapshots/retention/policy" (some "read:telemetry") false
    ∷ route "PUT" "/admin/snapshots/retention/policy" (some "manage:tenants") false
    ∷ route "POST" "/admin/snapshots/retention/dry-run" (some "read:telemetry") false
    ∷ route "POST" "/admin/snapshots/retention/execute" (some "manage:tenants") true
    ∷ route "POST" "/scans" (some "trigger:scans") false
    ∷ route "GET" "/scans" (some "read:telemetry") false
    ∷ route "GET" "/scans/{id}" (some "read:telemetry") false
    ∷ route "POST" "/scans/{id}/cancel" (some "cancel:scans") false
    ∷ route "GET" "/gateways" (some "read:telemetry") false
    ∷ route "GET" "/network/subnets" (some "read:telemetry") false
    ∷ route "POST" "/gateways/register" (some "manage:tenants") false
    ∷ route "POST" "/gateways/{id}/approve" (some "manage:tenants") false
    ∷ route "POST" "/gateways/heartbeat" none false
    ∷ route "GET" "/vault/credentials" (some "manage:credentials") false
    ∷ route "POST" "/vault/credentials" (some "manage:credentials") true
    ∷ route "POST" "/vault/credentials/{id}/rotate" (some "manage:credentials") true
    ∷ route "POST" "/vault/credentials/{id}/test" (some "manage:credentials") false
    ∷ route "GET" "/findings" (some "read:findings") false
    ∷ route "GET" "/findings/{id}" (some "read:findings") false
    ∷ route "GET" "/compliance/frameworks" (some "read:compliance") false
    ∷ route "GET" "/compliance/frameworks/{code}/rules" (some "read:compliance") false
    ∷ route "GET" "/compliance/hosts/{host_id}/results" (some "read:compliance") false
    ∷ route "GET" "/compliance/tenant/summary" (some "read:compliance") false
    ∷ route "POST" "/compliance/policies/{id}/disable" (some "manage:credentials") true
    ∷ route "GET" "/drift/events" (some "read:drift") false
    ∷ route "POST" "/drift/events/{id}/acknowledge" (some "ack:drift") false
    ∷ route "GET" "/alerts/rules" (some "manage:alerts") false
    ∷ route "POST" "/alerts/rules" (some "manage:alerts") false
    ∷ route "GET" "/alerts/deliveries" (some "manage:alerts") false
    ∷ route "POST" "/admin/health/test-alert" (some "manage:alerts") false
    ∷ route "GET" "/admin/health/status" (some "read:telemetry") false
    ∷ route "GET" "/admin/readiness" (some "read:telemetry") false
    ∷ route "POST" "/reports" (some "generate:reports") false
    ∷ route "GET" "/audit-logs" (some "read:audit_logs") false
    ∷ []

-- A request, with what the rate limit reads of it beside what the guards read.
pub record Call : Type 0 where
  pub request : Request
  pub forwarded_for : String
  pub remote_addr : String

abbrev pub client_of : Call → Middleware.Request
client_of call = record {
  method = call.request.method;
  authorization = call.request.authorization;
  forwarded_for = call.forwarded_for;
  remote_addr = call.remote_addr;
}

pub data Served : Type 0 where
  limited : ℕ → Served
  answered : Denial → Served
  handled : Context → Served

infixl 5 ◌and_then◌
abbrev pub ◌and_then◌ : Guarded → (Context → Guarded) → Guarded
denied d and_then next = denied d
passed_on ctx and_then next = next ctx

abbrev pub served : Guarded → Served
served (denied d) = answered d
served (passed_on ctx) = handled ctx

abbrev pub guard_permission : Option Permission → Context → Guarded
guard_permission none ctx = passed_on ctx
guard_permission (some perm) ctx = require_permission perm ctx

abbrev pub guard_step_up : ℕ → Bool → Context → Guarded
guard_step_up now false ctx = passed_on ctx
guard_step_up now true ctx = require_step_up now ctx

-- The guards behind the rate limit, in their order.
unfoldable pub guards : ℕ → Route → Request → Context → Guarded
unfolding csrf_protection require_permission require_step_up
guards now route r ctx =
    csrf_protection r ctx
    and_then guard_permission route.permission
    and_then guard_step_up now route.step_up

abbrev pub limit_or : Option Verdict → Guarded → Served
limit_or none g = served g
limit_or (some (allowed n)) g = served g
limit_or (some (refused n)) g = limited n

abbrev pub default_tenant : String
default_tenant = "tenant-default-01"

-- `verify` is `VerifyToken` at the time of the request.
module _ (verify : String → Verified) (split_host_port : String → Option String) where
  unfoldable pub serve : ℕ → Route → Call → RateLimiter → RateLimiter × Served
  unfolding optional_auth guards rate_limit_mutating
  serve now route call rl =
      let ctx = optional_auth now verify default_tenant call.request in
      let (rl', verdict) = rate_limit_mutating split_host_port now (client_of call) rl in
      (rl', limit_or verdict (guards now route call.request ctx))
