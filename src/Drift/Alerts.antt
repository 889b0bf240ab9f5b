-- ===== src/Drift/Alerts.antt =====
-- apps/api/internal/drift/alerts.go: the match of an event against the alert rules, and the
-- suppression of repeated alerts. Times are nanoseconds. A deleted key stays in the list of the
-- map with nothing in it.
use Prim.Native.String.{◌++◌}
use text.Mathlib.TextLemmas.{append_cancel_left}
use zero_agent_scan.Prelude.{
  suc, ◌*◌, ◌^◌, String, ◌≡◌, ◌≢◌, refl, ◌∙◌, ap, Bool, true, false, not, ◌&&◌, ◌||◌, Option, none,
  some, List, [], ◌∷◌, ◌==◌, eq_iff, Map, lookup, insert, lookup-insert, lookup-insert_self,
  if◌then◌else◌, if_both, Bool-cases, inl, inr, All,
}
use zero_agent_scan.Prelude.Int.{ℤ, pos, negsuc, sub_ℕ, ◌-ℤ◌, ltb_ℤ, leb_ℤ}
use zero_agent_scan.Prelude.Text.{lower_codes, equal_fold, occurs}
use zero_agent_scan.Drift.Events.{DriftEvent, AlertRule}

-- The map of `AlertEngine`.
abbrev pub AlertEngine : Type 0
AlertEngine = Map (Option ℤ)

abbrev pub suppression_key : String → String → String → String
suppression_key tenant_id host_id property = tenant_id ++ (":" ++ (host_id ++ (":" ++ property)))

abbrev pub hours : ℤ → ℤ
hours (pos n) = pos (n * (3600 * 10 ^ 9))
hours (negsuc n) = sub_ℕ 0 (suc n * (3600 * 10 ^ 9))

abbrev pub last_alert : String → AlertEngine → Option ℤ
last_alert key engine = elim (lookup key engine) [ none ↦ none | some at ↦ at ]

abbrev within_window : Option ℤ → ℤ → ℤ → Bool
within_window none window now = false
within_window (some at) window now = ltb_ℤ (now -ℤ at) (hours window)

abbrev suppressed_since : Option ℤ → ℤ → ℤ → Bool
suppressed_since last window now =
    if leb_ℤ window (pos 0) then false else within_window last window now

unfoldable pub is_suppressed : String → String → String → ℤ → ℤ → AlertEngine → Bool
is_suppressed tenant_id host_id property window now engine =
    suppressed_since (last_alert (suppression_key tenant_id host_id property) engine) window now

unfoldable pub mark_alert_dispatched : String → String → String → ℤ → AlertEngine → AlertEngine
mark_alert_dispatched tenant_id host_id property at engine =
    insert (suppression_key tenant_id host_id property) (some at) engine

unfoldable pub clear_suppression : String → String → String → AlertEngine → AlertEngine
clear_suppression tenant_id host_id property engine =
    insert (suppression_key tenant_id host_id property) none engine

abbrev pub severity_matches : AlertRule → DriftEvent → Bool
severity_matches rule event =
    rule.severity_filter == "" || equal_fold rule.severity_filter event.severity

abbrev pub asset_class_matches : AlertRule → String → Bool
asset_class_matches rule asset_class =
    rule.asset_class_filter == ""
    || equal_fold rule.asset_class_filter asset_class
    || occurs (lower_codes rule.asset_class_filter) (lower_codes asset_class)

abbrev pub category_matches : AlertRule → DriftEvent → Bool
category_matches rule event =
    rule.category_filter == "" || equal_fold rule.category_filter event.drift_category

-- The tests of the loop in front of the suppression.
abbrev pub applies : DriftEvent → String → AlertRule → Bool
applies event asset_class rule =
    rule.is_active
    && severity_matches rule event
    && asset_class_matches rule asset_class
    && category_matches rule event

unfoldable pub evaluate_rules :
    DriftEvent → String → ℤ → AlertEngine → List AlertRule → List AlertRule
unfolding is_suppressed equal_fold lower_codes
evaluate_rules event asset_class now engine [] = []
evaluate_rules event asset_class now engine (rule ∷ rules) =
    let matched = evaluate_rules event asset_class now engine rules in
    if not (applies event asset_class rule)
    then matched
    else if is_suppressed event.tenant_id event.host_id event.property_name
        rule.suppression_window_hours now engine
    then matched
    else rule ∷ matched

last_alert-insert :
    (key : String) (o : Option ℤ) (engine : AlertEngine) → last_alert key (insert key o engine) ≡ o
last_alert-insert key o engine = rw (lookup-insert_self key o engine, last_alert) refl

-- Right after an alert was dispatched at `at`, a rule with a positive window is suppressed exactly
-- while less than the window has passed.
pub is_suppressed-mark_alert_dispatched :
    (t h p : String) (window now at : ℤ) (engine : AlertEngine)
    → leb_ℤ window (pos 0) ≡ false
    → is_suppressed t h p window now (mark_alert_dispatched t h p at engine)
      ≡ ltb_ℤ (now -ℤ at) (hours window)
unfolding is_suppressed mark_alert_dispatched
is_suppressed-mark_alert_dispatched t h p window now at engine e =
    ap (λ o. suppressed_since o window now)
      (last_alert-insert (suppression_key t h p) (some at) engine)
    ∙ rw e refl

-- A cleared suppression suppresses nothing, whatever the window.
pub is_suppressed-clear_suppression :
    (t h p : String) (window now : ℤ) (engine : AlertEngine)
    → is_suppressed t h p window now (clear_suppression t h p engine) ≡ false
unfolding is_suppressed clear_suppression
is_suppressed-clear_suppression t h p window now engine =
    ap (λ o. suppressed_since o window now) (last_alert-insert (suppression_key t h p) none engine)
    ∙ if_both (λ b. b ≡ false) (leb_ℤ window (pos 0)) refl refl

suppression_key-property :
    (t h p q : String) → suppression_key t h p ≡ suppression_key t h q → p ≡ q
suppression_key-property t h p q e = append_cancel_left ":" p q (
    append_cancel_left h (":" ++ p) (":" ++ q) (
      append_cancel_left ":" (h ++ (":" ++ p)) (h ++ (":" ++ q))
        (append_cancel_left t (":" ++ (h ++ (":" ++ p))) (":" ++ (h ++ (":" ++ q))) e)))

-- An alert that is dispatched for one property of a host leaves the suppression of its other
-- properties as it was.
pub is_suppressed-other_property :
    (t h p q : String) (window now at : ℤ) (engine : AlertEngine)
    → p ≢ q
    → is_suppressed t h q window now (mark_alert_dispatched t h p at engine)
      ≡ is_suppressed t h q window now engine
unfolding is_suppressed mark_alert_dispatched
is_suppressed-other_property t h p q window now at engine other =
    let k = suppression_key t h p in
    let j = suppression_key t h q in
    elim (Bool-cases (k == j)) [
      | inl e ↦ absurd (other (suppression_key-property t h p q ((eq_iff k j).0 e)))
      | inr e ↦
          let kept : last_alert j (insert k (some at) engine) ≡ last_alert j engine =
            rw (lookup-insert k j (some at) engine, last_alert) (rw e refl) in
          ap (λ o. suppressed_since o window now) kept
    ]

abbrev pub InWindow : ℤ → ℤ → AlertRule → Type 0
InWindow now at r =
    (leb_ℤ r.suppression_window_hours (pos 0) ≡ false)
    × (ltb_ℤ (now -ℤ at) (hours r.suppression_window_hours) ≡ true)

-- Where every rule has a positive window that has not passed since `at`, an event whose alert was
-- dispatched at `at` matches no rule.
pub evaluate_rules-suppressed :
    (event : DriftEvent) (asset_class : String) (now at : ℤ) (engine : AlertEngine)
    (rules : List AlertRule)
    → All (InWindow now at) rules
    → evaluate_rules event asset_class now
        (mark_alert_dispatched event.tenant_id event.host_id event.property_name at engine)
        rules
      ≡ []
unfolding evaluate_rules
evaluate_rules-suppressed event asset_class now at engine [] w = refl
evaluate_rules-suppressed event asset_class now at engine (rule ∷ rules) ((positive, early), w) =
    let rest = evaluate_rules-suppressed event asset_class now at engine rules w in
    let suppressed =
      is_suppressed-mark_alert_dispatched event.tenant_id event.host_id event.property_name
        rule.suppression_window_hours now at engine positive
      ∙ early in
    if_both (λ l. l ≡ []) (not (applies event asset_class rule)) rest (rw suppressed rest)
