-- ===== src/Vulnscan/Findings/Upsert.antt =====
-- The upsert of a finding in the store as a map from keys, and what is read by ID (repository.go).
use mathlib.Core.Path.{subst}
use zero_agent_scan.Prelude.{
  ℕ, String, ◌≡◌, refl, ◌∙◌, Bool, Option, none, some, ◌==◌, eq_refl, arith, lookup, set,
  if◌then◌else◌,
}
use zero_agent_scan.Prelude.Int.{ℤ}
use zero_agent_scan.Vulnscan.Findings.{
  Finding, FindingStore, key_of, or_else, created, updated, upserted, deref, upsert_found, missing,
  upsert_finding, get_finding_by_id,
}
use zero_agent_scan.Vulnscan.Findings.Index.{
  stored_key, IsIndexed, view, merged, is_new, Upserts, insert_finding-IsIndexed,
  view-insert_finding, written-IsIndexed, view-written,
}

-- A finding that stands under a key is read under its ID.
read_by_id :
    (key : String) (g : Finding) (o : Option ℕ) (st : FindingStore)
    → IsIndexed st
    → lookup key st.findings ≡ o
    → deref st.heap o ≡ some g
    → get_finding_by_id g.tenant_id g.id st ≡ some g
unfolding get_finding_by_id
read_by_id key g none st inv e held = absurd (ground arith)
read_by_id key g (some a) st inv e held =
    let (x, at, is_key, by) = inv.keyed key a e in
    let one : x ≡ g = ground arith in
    let by_g : lookup g.id st.by_id ≡ some a =
      subst (λ (y : Finding). lookup y.id st.by_id ≡ some a) one by in
    rw (by_g, held, eq_refl g.tenant_id) refl

module _ (now : ℤ) (fresh : String) (f : Finding) (st : FindingStore) (inv : IsIndexed st)
    (unused : lookup (key_of f) st.findings ≡ none
      → lookup (or_else fresh f.id) st.by_id ≡ none) where
  upsert_found-Upserts :
      (o : Option ℕ)
      → lookup (key_of f) st.findings ≡ o
      → Upserts now fresh f st (upsert_found now fresh f o st)
  unfolding upsert_found view merged created updated
  upsert_found-Upserts none e =
      let g = created now fresh f in
      rw e (
        insert_finding-IsIndexed g st inv e (unused e),
        view-insert_finding g st inv e (unused e),
        refl,
      )
  upsert_found-Upserts (some a) e =
      let (old, held, is_key, by) = inv.keyed (key_of f) a e in
      let x = updated now f old in
      let found : lookup (stored_key old) st.findings ≡ some a = rw is_key e in
      rw (e, held)
        (
          written-IsIndexed old x a st inv held refl refl found,
          (λ key.
              subst
                (λ k.
                  view key (record st { heap = set st.heap a x })
                  ≡ (if k == key then some x else view key st))
                is_key (view-written old x a st inv held refl refl found key)),
          refl,
        )

  -- Where the maps of the store agree and the ID of a new finding is unused, the store is a map from
  -- the key that joins tenant, endpoint and CVE, which different triples with colons can share: a
  -- finding that names all three is added under its key with its ID and times, or what is there is brought up to date, its ID and the time when it was seen first kept;
  -- nothing else changes, the maps still agree, and the result is the finding and whether it is new.
  pub upsert_finding_lem :
      missing f ≡ none → Upserts now fresh f st (upsert_finding now fresh (some f) st)
  unfolding upsert_finding
  upsert_finding_lem complete =
      rw complete (upsert_found-Upserts (lookup (key_of f) st.findings) refl)

  -- Where the maps of the store agree and the ID of a new finding is unused, what an upsert returns for
  -- a finding that names tenant, endpoint and CVE is what is read afterwards under its ID for its tenant.
  pub get_finding_by_id-upsert_finding :
      missing f ≡ none
      → let (st', result) = upsert_finding now fresh (some f) st in
        (g : Finding) × (b : Bool) × (result ≡ upserted g b)
        × (get_finding_by_id g.tenant_id g.id st' ≡ some g)
  unfolding view
  get_finding_by_id-upsert_finding complete =
      let (inv', views, result) = upsert_finding_lem complete in
      let g = merged now fresh f (view (key_of f) st) in
      let b = is_new (view (key_of f) st) in
      let st' = (upsert_finding now fresh (some f) st).0 in
      let there : view (key_of f) st' ≡ some g = views (key_of f) ∙ rw (eq_refl (key_of f)) refl in
      (g, b, result, read_by_id (key_of f) g (lookup (key_of f) st'.findings) st' inv' refl there)
