-- ===== src/Fleet/Tiers.antt =====
-- apps/api/internal/repository/repository.go: endpoints, their rollout tiers and the settings of the
-- rollout. The clock and the keys that `uuid.New` draws are arguments.
pub mod Promotion
use zero_agent_scan.Prelude.{
  ℕ, suc, ◌+◌, String, Bool, true, false, not, ◌&&◌, ◌||◌, Option, none, some, List, [], ◌∷◌, ◌++◌,
  if◌then◌else◌, Map, lookup, insert, ◌==◌,
}
use zero_agent_scan.Prelude.Text.{codes, is_blank}
use zero_agent_scan.Prelude.Int.{ℤ, pos}
use zero_agent_scan.Fleet.Records.{
  Endpoint, Detail, text, texts, SecurityAuditLog, Repository, RolloutSettings, append_log, flag,
}
use zero_agent_scan.Fleet.Records

pub record PromoteTierRequest : Type 0 where
  pub target_tier : String
  pub justification : String
  pub endpoint_ids : List String
  pub subnet_cidr : String
  pub organizational_unit : String

pub record BulkAssignTierRequest : Type 0 where
  pub rollout_tier : String
  pub justification : String
  pub subnet_cidr : String
  pub organizational_unit : String
  pub endpoint_ids : List String

-- Who calls, from where, when, and the two keys of the audit log.
pub record Caller : Type 0 where
  pub actor : String
  pub ip : String
  pub now : ℤ
  pub log_id : String
  pub correlation_id : String

pub data TierError : Type 0 where
  no_justification : TierError
  invalid_tier : String → TierError
  not_found : String → TierError

pub data TierResult : Type 0 where
  changed : ℕ → TierResult
  refused : TierError → TierResult

-- `idMap[id]`
unfoldable pub listed : String → List String → Bool
listed id [] = false
listed id (other ∷ ids) = other == id || listed id ids

abbrev is_empty : List String → Bool
is_empty [] = true
is_empty (id ∷ ids) = false

-- The last branch of the selection: no endpoint, subnet or unit is named.
abbrev from_lower_tier : PromoteTierRequest → Endpoint → Bool
from_lower_tier req ep =
    is_empty req.endpoint_ids
    && req.subnet_cidr == ""
    && req.organizational_unit == ""
    && (req.target_tier == "staged" && ep.rollout_tier == "pilot"
        || req.target_tier == "full" && (ep.rollout_tier == "staged" || ep.rollout_tier == "pilot"))

unfoldable pub should_promote : PromoteTierRequest → Endpoint → Bool
unfolding listed
should_promote req ep =
    if not (is_empty req.endpoint_ids)
    then listed ep.id req.endpoint_ids
    else if not (req.subnet_cidr == "") && ep.subnet_cidr == req.subnet_cidr
    then true
    else if not (req.organizational_unit == "") && ep.organizational_unit == req.organizational_unit
    then true
    else from_lower_tier req ep

unfoldable pub matched : BulkAssignTierRequest → Endpoint → Bool
unfolding listed
matched req ep =
    not (is_empty req.endpoint_ids) && listed ep.id req.endpoint_ids
    || not (req.subnet_cidr == "") && ep.subnet_cidr == req.subnet_cidr
    || not (req.organizational_unit == "") && ep.organizational_unit == req.organizational_unit

abbrev pub moved : String → String → Caller → Endpoint → Endpoint
moved tier reason c ep = record ep {
  rollout_tier = tier;
  tier_promoted_at = some c.now;
  tier_promoted_by = c.actor;
  tier_promotion_reason = reason;
  updated_at = c.now;
}

-- The loop over the endpoints: how many are selected, and the map with these rewritten.
unfoldable pub move_selected :
    (Endpoint → Bool) → (Endpoint → Endpoint) → Map Endpoint → ℕ × Map Endpoint
move_selected selects move [] = (0, [])
move_selected selects move ((key, ep) ∷ eps) =
    let rest = move_selected selects move eps in
    if selects ep then (suc rest.0, (key, move ep) ∷ rest.1) else (rest.0, (key, ep) ∷ rest.1)

abbrev pub tier_log : Caller → String → String → String → Map Detail → SecurityAuditLog
tier_log c action resource_type resource_id details = record {
  id = c.log_id;
  correlation_id = c.correlation_id;
  timestamp = c.now;
  actor = c.actor;
  action = action;
  resource_type = resource_type;
  resource_id = resource_id;
  status = "SUCCESS";
  ip_address = c.ip;
  details = details;
}

abbrev pub promotion_log : Caller → PromoteTierRequest → ℕ → SecurityAuditLog
promotion_log c req n = tier_log c "ROLLOUT_TIER_PROMOTED" "endpoint_rollout_tier" req.target_tier (
    ("target_tier", text req.target_tier)
    ∷ ("promoted_count", Detail.count n)
    ∷ ("justification", text req.justification)
    ∷ ("endpoint_ids", texts req.endpoint_ids)
    ∷ ("subnet_cidr", text req.subnet_cidr)
    ∷ ("ou", text req.organizational_unit)
    ∷ [])

abbrev pub assignment_log : Caller → BulkAssignTierRequest → ℕ → SecurityAuditLog
assignment_log c req n =
    tier_log c "ROLLOUT_TIER_BULK_ASSIGNED" "endpoint_rollout_tier" req.rollout_tier (
      ("assigned_tier", text req.rollout_tier)
      ∷ ("affected_count", Detail.count n)
      ∷ ("justification", text req.justification)
      ∷ ("subnet_cidr", text req.subnet_cidr)
      ∷ ("ou", text req.organizational_unit)
      ∷ [])

abbrev pub modification_log : Caller → String → String → String → String → SecurityAuditLog
modification_log c id previous tier reason = tier_log c "ENDPOINT_TIER_MODIFIED" "endpoint" id (
    ("previous_tier", text previous)
    ∷ ("new_tier", text tier)
    ∷ ("justification", text reason)
    ∷ [])

abbrev pub is_tier : String → Bool
is_tier tier = tier == "pilot" || tier == "staged" || tier == "full"

module _ {P : Type 0} where
  abbrev commit :
      (ℕ → SecurityAuditLog) → ℕ × Map Endpoint → Repository P → Repository P × TierResult
  commit log (n, eps) r =
      (record r { endpoints = eps; audit_logs = r.audit_logs ++ log n ∷ [] }, changed n)

  unfoldable pub promote_endpoints_tier :
      Caller → PromoteTierRequest → Repository P → Repository P × TierResult
  unfolding move_selected should_promote
  promote_endpoints_tier c req r =
      if is_blank (codes req.justification)
      then (r, refused no_justification)
      else if not (req.target_tier == "staged") && not (req.target_tier == "full")
      then (r, refused (invalid_tier req.target_tier))
      else commit (promotion_log c req)
          (move_selected (should_promote req) (moved req.target_tier req.justification c)
            r.endpoints)
          r

  unfoldable pub bulk_assign_endpoints_tier :
      Caller → BulkAssignTierRequest → Repository P → Repository P × TierResult
  unfolding move_selected matched
  bulk_assign_endpoints_tier c req r =
      if not (is_tier req.rollout_tier)
      then (r, refused (invalid_tier req.rollout_tier))
      else commit (assignment_log c req)
          (move_selected (matched req) (moved req.rollout_tier req.justification c) r.endpoints) r

  abbrev modify :
      Caller → String → String → String → Option Endpoint → Repository P → Repository P × TierResult
  unfolding insert
  modify c id tier reason none r = (r, refused (not_found id))
  modify c id tier reason (some ep) r =
      if not (is_tier tier) then (r, refused (invalid_tier tier)) else (
        record r {
          endpoints = insert id (moved tier reason c ep) r.endpoints;
          audit_logs = r.audit_logs ++ modification_log c id ep.rollout_tier tier reason ∷ [];
        },
        changed 1,
      )

  unfoldable pub update_endpoint_rollout_tier :
      Caller → String → String → String → Repository P → Repository P × TierResult
  unfolding lookup modify
  update_endpoint_rollout_tier c id tier reason r =
      modify c id tier reason (lookup id r.endpoints) r

  unfoldable pub save_endpoint : Endpoint → Repository P → Repository P
  unfolding insert
  save_endpoint ep r = record r { endpoints = insert ep.id ep r.endpoints }

  abbrev pub clear_endpoints : Repository P → Repository P
  clear_endpoints r = record r { endpoints = [] }

  unfoldable pub update_rollout_settings : Caller → RolloutSettings → Repository P → Repository P
  update_rollout_settings c settings r = record r {
    rollout_settings = record settings { updated_at = c.now; updated_by = c.actor };
    audit_logs =
        r.audit_logs
        ++ tier_log c "ROLLOUT_SETTINGS_UPDATED" "system_settings" "rollout_tiers" (
            ("active_tiers", texts settings.active_tiers)
            ∷ ("schedule_enforce_tiers", flag settings.schedule_enforce_tiers)
            ∷ [])
          ∷ [];
  }
