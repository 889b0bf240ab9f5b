-- ===== src/Fleet/Tiers/Promotion.antt =====
-- What the tier operations change, and what the audit log says of it (repository.go).
use mathlib.Core.Option
use zero_agent_scan.Prelude.{
  ◌≡◌, String, Bool, false, not, ◌&&◌, ◌⊎◌, inl, inr, Option, none, some, List, [], ◌∷◌, ◌++◌,
  if◌then◌else◌, Map, lookup, insert, lookup-insert, eq_iff, Bool-cases, ◌==◌, count, arith, refl,
  ap, sym, Any, Any-append_left, Any-append_right, ◌∙◌,
}
use zero_agent_scan.Prelude.Text.{codes, is_blank}
use mathlib.Core.List.{append_assoc, append-nil}
use mathlib.Core.Path.{subst}
use zero_agent_scan.Fleet.Records.{Endpoint, text, SecurityAuditLog, Repository, RolloutSettings}
use zero_agent_scan.Fleet.Tiers.{
  PromoteTierRequest, BulkAssignTierRequest, Caller, TierResult, changed, should_promote, matched,
  moved, move_selected, promotion_log, assignment_log, modification_log, promote_endpoints_tier,
  bulk_assign_endpoints_tier, update_endpoint_rollout_tier, is_tier, modify,
  update_rollout_settings,
}

-- An endpoint after the loop.
abbrev pub move_if : (Endpoint → Bool) → (Endpoint → Endpoint) → Endpoint → Endpoint
move_if selects move ep = if selects ep then move ep else ep

move_if_cases :
    (selects : Endpoint → Bool) (move : Endpoint → Endpoint) (o : Option Endpoint) (ep : Endpoint)
    → Option.map (move_if selects move) o ≡ some ep
    → (o ≡ some ep) ⊎ ((old : Endpoint) × (move old ≡ ep))
move_if_cases selects move none ep h = absurd (cc)
move_if_cases selects move (some old) ep h = elim (Bool-cases (selects old)) [
  | inl e ↦ let same : some (move old) ≡ some ep = rw e at h in inr (old, cc)
  | inr e ↦ inl (rw e at h)
]

count-move_selected :
    (selects : Endpoint → Bool) (move : Endpoint → Endpoint) (eps : Map Endpoint)
    → (move_selected selects move eps).0 ≡ count selects eps
unfolding move_selected count
count-move_selected selects move [] = refl
count-move_selected selects move ((key, ep) ∷ eps) =
    ground (arith, count-move_selected selects move eps)

lookup-move_selected :
    (selects : Endpoint → Bool) (move : Endpoint → Endpoint) (id : String) (eps : Map Endpoint)
    → lookup id (move_selected selects move eps).1
      ≡ Option.map (move_if selects move) (lookup id eps)
unfolding move_selected lookup
lookup-move_selected selects move id [] = refl
lookup-move_selected selects move id ((key, ep) ∷ eps) =
    ground (arith, lookup-move_selected selects move id eps)

module _ {P : Type 0} where
  -- A promotion with a justification and the tier staged or full returns the number of endpoints
  -- that it selects, moves these and leaves every other as it was, and ends the audit log with an
  -- entry that names the tier and this number.
  pub promote_endpoints_tier_lem :
      (c : Caller) (req : PromoteTierRequest) (r : Repository P) (id : String)
      → is_blank (codes req.justification) ≡ false
      → (req.target_tier ≡ "staged") ⊎ (req.target_tier ≡ "full")
      → let selects = should_promote req in
        let n = count selects r.endpoints in
        let (r', result) = promote_endpoints_tier c req r in
        (result ≡ changed n)
        × (lookup id r'.endpoints
            ≡ Option.map
                (move_if selects (moved req.target_tier req.justification c))
                (lookup id r.endpoints))
        × (r'.audit_logs ≡ r.audit_logs ++ promotion_log c req n ∷ [])
  unfolding promote_endpoints_tier
  promote_endpoints_tier_lem c req r id just tier =
      let valid : (not (req.target_tier == "staged") && not (req.target_tier == "full")) ≡ false =
        ground (arith, eq_iff req.target_tier "staged", eq_iff req.target_tier "full") in
      let counted =
        count-move_selected (should_promote req) (moved req.target_tier req.justification c)
          r.endpoints in
      rw (just, valid)
        (
          ap changed counted,
          lookup-move_selected (should_promote req) (moved req.target_tier req.justification c) id
              r.endpoints,
          ap (λ n. r.audit_logs ++ promotion_log c req n ∷ []) counted,
        )

pub data TierCall : Type 0 where
  promote : Caller → PromoteTierRequest → TierCall
  assign : Caller → BulkAssignTierRequest → TierCall
  modify_one : Caller → String → String → String → TierCall
  configure : Caller → RolloutSettings → TierCall

-- An entry of the audit log accounts for how an endpoint came to its tier: when, by whom, to which
-- tier and why.
pub record Explains (ep : Endpoint) (log : SecurityAuditLog) : Type 0 where
  when : ep.tier_promoted_at ≡ some log.timestamp
  who : ep.tier_promoted_by ≡ log.actor
  why : lookup "justification" log.details ≡ some (text ep.tier_promotion_reason)
  which :
      (lookup "target_tier" log.details ≡ some (text ep.rollout_tier))
      ⊎ (lookup "assigned_tier" log.details ≡ some (text ep.rollout_tier))
      ⊎ (lookup "new_tier" log.details ≡ some (text ep.rollout_tier))

module _ {P : Type 0} where
  unfoldable pub tier_call : TierCall → Repository P → Repository P
  tier_call (promote c req) r = (promote_endpoints_tier c req r).0
  tier_call (assign c req) r = (bulk_assign_endpoints_tier c req r).0
  tier_call (modify_one c id tier reason) r = (update_endpoint_rollout_tier c id tier reason r).0
  tier_call (configure c settings) r = update_rollout_settings c settings r

  unfoldable pub tier_calls : List TierCall → Repository P → Repository P
  tier_calls [] r = r
  tier_calls (op ∷ ops) r = tier_calls ops (tier_call op r)

  -- The endpoints of `r'` are those of `r`, or accounted for by an entry that was added to the log.
  abbrev pub Accounted : Repository P → Repository P → List SecurityAuditLog → Type 0
  Accounted r r' added =
      (r'.audit_logs ≡ r.audit_logs ++ added)
      × ((id : String) (ep : Endpoint)
          → lookup id r'.endpoints ≡ some ep
          → (lookup id r.endpoints ≡ some ep) ⊎ Any (Explains ep) added)

  Accounted-unchanged : (r : Repository P) → Accounted r r []
  Accounted-unchanged r = (sym (append-nil r.audit_logs), λ id ep h. inl h)

  Accounted-trans :
      (r r' r'' : Repository P) (added more : List SecurityAuditLog)
      → Accounted r r' added
      → Accounted r' r'' more
      → Accounted r r'' (added ++ more)
  Accounted-trans r r' r'' added more a b = (
    b.0 ∙ ap (λ l. l ++ more) a.0 ∙ append_assoc r.audit_logs added more,
    λ id ep h. elim (b.1 id ep h) [
      | inr late ↦ inr (Any-append_right (Explains ep) added more late)
      | inl same ↦ elim (a.1 id ep same) [
        | inl old ↦ inl old
        | inr early ↦ inr (Any-append_left (Explains ep) added more early)
      ]
    ],
  )

  -- The loop over the endpoints with the entry that follows it.
  Accounted-move_selected :
      (selects : Endpoint → Bool) (move : Endpoint → Endpoint) (log : SecurityAuditLog)
      (r : Repository P)
      → ((ep : Endpoint) → Explains (move ep) log)
      → Accounted r
          (record r {
            endpoints = (move_selected selects move r.endpoints).1;
            audit_logs = r.audit_logs ++ log ∷ [];
          })
          (log ∷ [])
  Accounted-move_selected selects move log r explains =
      let lookups = λ (id : String). lookup-move_selected selects move id r.endpoints in
      (
        refl,
        λ id ep h. elim (move_if_cases selects move _ ep (sym (lookups id) ∙ h)) [
          | inl same ↦ inl same
          | inr (old, same) ↦ inr (inl (subst (λ x. Explains x log) same (explains old)))
        ],
      )

  abbrev Outcome : Repository P → Repository P × TierResult → Type 0
  Outcome r s = (added : List SecurityAuditLog) × Accounted r s.0 added

  promote-Accounted :
      (c : Caller) (req : PromoteTierRequest) (r : Repository P)
      → Outcome r (promote_endpoints_tier c req r)
  unfolding promote_endpoints_tier lookup
  promote-Accounted c req r =
      let n =
        (move_selected (should_promote req) (moved req.target_tier req.justification c)
          r.endpoints).0 in
      elim (Bool-cases (is_blank (codes req.justification))) [
        | inl blank ↦ rw blank ([], Accounted-unchanged r)
        | inr just ↦
            elim (Bool-cases
              (not (req.target_tier == "staged") && not (req.target_tier == "full"))) [
                | inl other ↦ rw (just, other) ([], Accounted-unchanged r)
                | inr tier ↦
                    rw (just, tier)
                      (
                        promotion_log c req n ∷ [],
                        Accounted-move_selected (should_promote req)
                            (moved req.target_tier req.justification c) (promotion_log c req n) r
                            (λ ep. record {
                              when = refl;
                              who = refl;
                              why = refl;
                              which = inl refl;
                            }),
                      )
              ]
      ]

  assign-Accounted :
      (c : Caller) (req : BulkAssignTierRequest) (r : Repository P)
      → Outcome r (bulk_assign_endpoints_tier c req r)
  unfolding bulk_assign_endpoints_tier lookup
  assign-Accounted c req r =
      let n =
        (move_selected (matched req) (moved req.rollout_tier req.justification c) r.endpoints).0 in
      elim (Bool-cases (not (is_tier req.rollout_tier))) [
        | inl other ↦ rw other ([], Accounted-unchanged r)
        | inr known ↦ rw known (
          assignment_log c req n ∷ [],
          Accounted-move_selected (matched req) (moved req.rollout_tier req.justification c)
              (assignment_log c req n) r
              (λ ep. record { when = refl; who = refl; why = refl; which = inr (inl refl) }),
        )
      ]

  Accounted-insert :
      (id : String) (new : Endpoint) (log : SecurityAuditLog) (r : Repository P)
      → Explains new log
      → Accounted r
          (record r {
            endpoints = insert id new r.endpoints;
            audit_logs = r.audit_logs ++ log ∷ [];
          })
          (log ∷ [])
  Accounted-insert id new log r explains = (
    refl,
    λ key ep h. elim (Bool-cases (id == key)) [
      | inl same ↦
          let is_new : some new ≡ some ep = rw (lookup-insert id key new r.endpoints, same) at h in
          let written : new ≡ ep = cc in inr (inl (subst (λ x. Explains x log) written explains))
      | inr other ↦ inl (rw (lookup-insert id key new r.endpoints, other) at h)
    ],
  )

  modify-Accounted :
      (c : Caller) (id tier reason : String) (o : Option Endpoint) (r : Repository P)
      → Outcome r (modify c id tier reason o r)
  unfolding modify lookup
  modify-Accounted c id tier reason none r = ([], Accounted-unchanged r)
  modify-Accounted c id tier reason (some old) r =
      let log = modification_log c id old.rollout_tier tier reason in
      elim (Bool-cases (not (is_tier tier))) [
        | inl other ↦ rw other ([], Accounted-unchanged r)
        | inr known ↦ rw known (
          log ∷ [],
          Accounted-insert id (moved tier reason c old) log r
              (record { when = refl; who = refl; why = refl; which = inr (inr refl) }),
        )
      ]

  tier_call-Accounted :
      (op : TierCall) (r : Repository P)
      → (added : List SecurityAuditLog) × Accounted r (tier_call op r) added
  unfolding tier_call update_endpoint_rollout_tier update_rollout_settings
  tier_call-Accounted (promote c req) r = promote-Accounted c req r
  tier_call-Accounted (assign c req) r = assign-Accounted c req r
  tier_call-Accounted (modify_one c id tier reason) r =
      modify-Accounted c id tier reason (lookup id r.endpoints) r
  tier_call-Accounted (configure c settings) r = (_, (refl, λ id ep h. inl h))

  -- Over any sequence of promotions, bulk assignments, single changes and changes of the settings,
  -- accepted or refused, entries are only added at the end of the audit log, and an endpoint that is
  -- not as it was before has its time, operator, reason and tier in one of the entries added.
  pub tier_calls-Accounted :
      (ops : List TierCall) (r : Repository P)
      → (added : List SecurityAuditLog) × Accounted r (tier_calls ops r) added
  unfolding tier_calls
  tier_calls-Accounted [] r = ([], Accounted-unchanged r)
  tier_calls-Accounted (op ∷ ops) r =
      let first = tier_call-Accounted op r in
      let rest = tier_calls-Accounted ops (tier_call op r) in
      (
        first.0 ++ rest.0,
        Accounted-trans r (tier_call op r) (tier_calls ops (tier_call op r)) first.0 rest.0 first.1
            rest.1,
      )
