-- ===== src/Compliance/Summary/Tenants.antt =====
-- Whose hosts a summary counts (repository.go, `SaveEvaluations` and `GetTenantSummary`).
use zero_agent_scan.Prelude.Reorderings.{Reorders, total-Permᴰ, total}
use Prim.Native.Char.{Char, code}
use Prim.Native.String.append
use text.Mathlib.TextEquality.{Char-path}
use zero_agent_scan.Prelude.{
  false, Bool, ℕ, tally, ◌+◌, String, ◌≡◌, refl, sym, ap, ◌∙◌, inl, inr, eqb, true, ◌&&◌, none, [],
  ◌∷◌, ◌==◌, eq_iff, Map, lookup, insert, arith, List, Bool-cases,
}
use zero_agent_scan.Prelude.Int.{ℤ}
use zero_agent_scan.Prelude.Text.{codes, starts_with}
use zero_agent_scan.Compliance.Values.{Floats}
use zero_agent_scan.Compliance.Engine.{
  host_status, non_compliant, degraded, compliant, HostStatus, EvaluationResult,
  HostComplianceScore, Arithmetic,
}
use zero_agent_scan.Compliance.Hosts.{HostRepository, host_key, save_evaluations, get_host_score}
use zero_agent_scan.Compliance.Scoring.{key-nil, key-cons, colon, Colonless}
use zero_agent_scan.Compliance.Summary.{
  Totals, is_key_of, is_under, no_totals, count_entry, count_scores, chosen_code,
  get_tenant_summary,
}

is_key_of-nil : (key : String) → is_key_of String.[] key ≡ starts_with (58 ∷ []) (codes key)
is_key_of-nil key = refl

is_key_of-cons :
    (c d : Char) (t key : String)
    → is_key_of (String.◌∷◌ c t) (String.◌∷◌ d key) ≡ (eqb (code c) (code d) && is_key_of t key)
is_key_of-cons c d t key =
    ap (λ s. starts_with (codes s) (code d ∷ codes key)) (append.cons c t ":")

-- The key of a host is one of its tenant.
is_key_of_self : (t h : String) → is_key_of t (host_key t h) ≡ true
is_key_of_self String.[] h = ap (is_key_of String.[]) (key-nil h) ∙ refl
is_key_of_self (String.◌∷◌ c t) h =
    ap (is_key_of (String.◌∷◌ c t)) (key-cons c t h)
    ∙ is_key_of-cons c c t (host_key t h)
    ∙ ground (arith, is_key_of_self t h)

-- It is one of no other tenant, where no tenant holds a colon.
is_key_of-host_key :
    (t u h : String) → Colonless t → Colonless u → is_key_of t (host_key u h) ≡ true → t ≡ u
is_key_of-host_key String.[] String.[] h p q e = refl
is_key_of-host_key String.[] (String.◌∷◌ d u) h p q e =
    let first : is_key_of String.[] (String.◌∷◌ d (host_key u h)) ≡ true =
      sym (ap (is_key_of String.[]) (key-cons d u h)) ∙ e in
    absurd (ground arith)
is_key_of-host_key (String.◌∷◌ c t) String.[] h p q e =
    let first : (eqb (code c) (code colon) && is_key_of t h) ≡ true =
      sym (is_key_of-cons c colon t h) ∙ sym (ap (is_key_of (String.◌∷◌ c t)) (key-nil h)) ∙ e in
    absurd (ground arith)
is_key_of-host_key (String.◌∷◌ c t) (String.◌∷◌ d u) h p q e =
    let both : (eqb (code c) (code d) && is_key_of t (host_key u h)) ≡ true =
      sym (is_key_of-cons c d t (host_key u h))
      ∙ sym (ap (is_key_of (String.◌∷◌ c t)) (key-cons d u h))
      ∙ e in
    let rest : t ≡ u = is_key_of-host_key t u h (ground arith) (ground arith) (ground arith) in
    let first : c ≡ d = Char-path c d (ground arith) in ground arith

is_key_of-eq : (t u h : String) → Colonless t → Colonless u → is_key_of t (host_key u h) ≡ (t == u)
is_key_of-eq t u h p q = elim (Bool-cases (t == u)) [
  | inl same ↦
      ap (λ s. is_key_of t (host_key s h)) (sym ((eq_iff t u).0 same))
      ∙ is_key_of_self t h
      ∙ sym same
  | inr other ↦ elim (Bool-cases (is_key_of t (host_key u h))) [
    | inl e ↦ absurd (ground (arith, is_key_of-host_key t u h p q e, eq_iff t u))
    | inr e ↦ e ∙ sym other
  ]
]

-- A new key stands behind the others.
total-insert :
    {A : Type 0} (weight : String × A → ℕ) (key : String) (new : A) (m : Map A)
    → lookup key m ≡ none
    → total weight (insert key new m) ≡ total weight m + weight (key, new)
unfolding lookup insert
total-insert weight key new [] e = omega arith
total-insert weight key new ((name, held) ∷ m) e = elim (Bool-cases (name == key)) [
  | inl same ↦ absurd (ground arith)
  | inr other ↦ rw other (ground (arith, total-insert weight key new m))
]

abbrev same_status : HostStatus → HostStatus → Bool
same_status compliant compliant = true
same_status degraded degraded = true
same_status non_compliant non_compliant = true
same_status a b = false

module _ {F : Type 0} (ops : Floats F) (arith_ops : Arithmetic F) (add_float : F → F → F) where
  -- 1 for a score of the tenant under the framework, and for one that has a status besides, by the
  -- engine's own grading.
  abbrev counted : Bool → String → HostComplianceScore F → ℕ
  counted own fw score = tally (own && is_under fw score)

  abbrev counted_as : HostStatus → Bool → String → HostComplianceScore F → ℕ
  counted_as status own fw score =
      tally
        ((own && is_under fw score) && same_status (host_status ops arith_ops score.score) status)

  abbrev entry : String → String → String × HostComplianceScore F → ℕ
  entry t fw (key, score) = counted (is_key_of t key) fw score

  abbrev entry_as : HostStatus → String → String → String × HostComplianceScore F → ℕ
  entry_as status t fw (key, score) = counted_as status (is_key_of t key) fw score

  abbrev Sums : String → String → Map (HostComplianceScore F) → Totals F → Totals F → Type 0
  Sums t fw m old new =
      (new.total_hosts ≡ old.total_hosts + total (entry t fw) m)
      × (new.compliant_hosts ≡ old.compliant_hosts + total (entry_as compliant t fw) m)
      × (new.degraded_hosts ≡ old.degraded_hosts + total (entry_as degraded t fw) m)
      × (new.non_compliant_hosts ≡ old.non_compliant_hosts + total (entry_as non_compliant t fw) m)

  count_entry-Sums :
      (t fw key : String) (score : HostComplianceScore F) (old : Totals F)
      → Sums t fw ((key, score) ∷ []) old (count_entry ops arith_ops add_float t fw key score old)
  unfolding count_entry host_status
  count_entry-Sums t fw key score old = ground arith

  count_scores-Sums :
      (t fw : String) (m : Map (HostComplianceScore F)) (old : Totals F)
      → Sums t fw m old (count_scores ops arith_ops add_float t fw m old)
  unfolding count_scores
  count_scores-Sums t fw [] old = ground arith
  count_scores-Sums t fw ((key, score) ∷ m) old =
      let next = count_entry ops arith_ops add_float t fw key score old in
      let (a, b, c, d) = count_entry-Sums t fw key score old in
      let (a', b', c', d') = count_scores-Sums t fw m next in
      (omega (arith, a, a'), omega (arith, b, b'), omega (arith, c, c'), omega (arith, d, d'))

  split_by_status :
      (t fw : String) (m : Map (HostComplianceScore F))
      → total (entry t fw) m
        ≡ total (entry_as compliant t fw) m
          + total (entry_as degraded t fw) m
          + total (entry_as non_compliant t fw) m
  unfolding host_status
  split_by_status t fw [] = refl
  split_by_status t fw ((key, score) ∷ m) = ground (arith, split_by_status t fw m)

  -- What is added to a sum over the entries by a host that had none, whatever their order.
  summed_anew :
      (weight : String × HostComplianceScore F → ℕ)
      → (order order' : Map (HostComplianceScore F) → Map (HostComplianceScore F)) → Reorders order
      → Reorders order'
      → (key : String) (score : HostComplianceScore F) (m : Map (HostComplianceScore F))
      → lookup key m ≡ none
      → total weight (order' (insert key score m)) ≡ total weight (order m) + weight (key, score)
  summed_anew weight order order' p p' key score m new =
      sym (total-Permᴰ weight (p' (insert key score m)))
      ∙ total-insert weight key score m new
      ∙ ap (λ n. n + weight (key, score)) (total-Permᴰ weight (p m))

  -- Where no tenant holds a colon, and in whatever orders the two calls run through the map, the first
  -- score saved for a host adds one to the hosts of its own tenant's summary, and one to those of the
  -- status that the engine gives the score, if it is under the framework asked for; it adds nothing to
  -- the counts of another tenant, status or framework. The hosts of a summary are its compliant,
  -- degraded and non-compliant ones together.
  pub get_tenant_summary-save_evaluations :
      (order order' : Map (HostComplianceScore F) → Map (HostComplianceScore F))
      → Reorders order
      → Reorders order'
      → (t u framework_code h : String) (now now' : ℤ) (results : List EvaluationResult)
      → (score : HostComplianceScore F) (repo : HostRepository F) → Colonless t
      → Colonless u
      → get_host_score u h repo ≡ none
      → let before = get_tenant_summary ops arith_ops add_float order t framework_code now repo in
        let after =
          get_tenant_summary ops arith_ops add_float order' t framework_code now'
            (save_evaluations u h results score repo) in
        let fw = chosen_code framework_code in
        (after.total_hosts ≡ before.total_hosts + counted (t == u) fw score)
        × (after.compliant_hosts ≡ before.compliant_hosts + counted_as compliant (t == u) fw score)
        × (after.degraded_hosts ≡ before.degraded_hosts + counted_as degraded (t == u) fw score)
        × (after.non_compliant_hosts
            ≡ before.non_compliant_hosts + counted_as non_compliant (t == u) fw score)
        × (before.total_hosts
            ≡ before.compliant_hosts + before.degraded_hosts + before.non_compliant_hosts)
  unfolding get_tenant_summary save_evaluations get_host_score
  get_tenant_summary-save_evaluations order order' p p' t u framework_code h now now' results score
        repo clear clear' new =
      let fw = chosen_code framework_code in
      let m = repo.host_scores in
      let key = host_key u h in
      let own : is_key_of t key ≡ (t == u) = is_key_of-eq t u h clear clear' in
      let none_yet = no_totals ops arith_ops add_float in
      let (a, b, c, d) = count_scores-Sums t fw (order m) none_yet in
      let (a', b', c', d') = count_scores-Sums t fw (order' (insert key score m)) none_yet in
      let added = λ (weight : String × HostComplianceScore F → ℕ).
        summed_anew weight order order' p p' key score m new in
      let one : counted (is_key_of t key) fw score ≡ counted (t == u) fw score =
        ap (λ o. counted o fw score) own in
      let one_as : (status : HostStatus)
          → counted_as status (is_key_of t key) fw score ≡ counted_as status (t == u) fw score =
        λ status. ap (λ o. counted_as status o fw score) own in
      (
        a' ∙ omega (arith, a, added (entry t fw), one),
        b' ∙ omega (arith, b, added (entry_as compliant t fw), one_as compliant),
        c' ∙ omega (arith, c, added (entry_as degraded t fw), one_as degraded),
        d' ∙ omega (arith, d, added (entry_as non_compliant t fw), one_as non_compliant),
        omega (arith, a, b, c, d, split_by_status t fw (order m)),
      )
