-- ===== src/Vulnscan/Findings/Complete.antt =====
-- A query leaves nothing out (repository.go).
use mathlib.Core.Path.{subst}
use zero_agent_scan.Prelude.{
  ℕ, zero, suc, ◌≤◌, String, ◌≡◌, refl, sym, ◌∙◌, ap, inl, inr, Bool, true, Option, none, some,
  List, [], ◌∷◌, arith, Map, lookup, length, get_elem?, Bool-cases, Any, take, ◌==◌,
}
use zero_agent_scan.Vulnscan.Findings.{Finding, FindingStore, deref}
use zero_agent_scan.Vulnscan.Findings.Index.{view}
use zero_agent_scan.Vulnscan.Findings.Queries.{
  FindingQueryOptions, FindingListResponse, is_wanted, stored, selected, insert_ranked, ranked,
  is_of, own_findings, comes_before, page_limit, with_found, response, query_findings,
}
use zero_agent_scan.Vulnscan.Findings.Answers.{Asked, all_ranked}

abbrev pub Is : Finding → Finding → Type 0
Is f g = g ≡ f

insert_ranked-Any_head : (f : Finding) (fs : List Finding) → Any (Is f) (insert_ranked f fs)
unfolding insert_ranked
insert_ranked-Any_head f [] = inl refl
insert_ranked-Any_head f (g ∷ gs) = elim (Bool-cases (comes_before g f)) [
  | inl e ↦ rw e (inr (insert_ranked-Any_head f gs))
  | inr e ↦ rw e (inl refl)
]

insert_ranked-Any :
    (f k : Finding) (fs : List Finding) → Any (Is f) fs → Any (Is f) (insert_ranked k fs)
unfolding insert_ranked
insert_ranked-Any f k [] h = inr h
insert_ranked-Any f k (g ∷ gs) h = elim (Bool-cases (comes_before g k)) [
  | inl e ↦ rw e (elim h [ inl a ↦ inl a | inr a ↦ inr (insert_ranked-Any f k gs a) ])
  | inr e ↦ rw e (inr h)
]

ranked-Any : (f : Finding) (fs : List Finding) → Any (Is f) fs → Any (Is f) (ranked fs)
unfolding ranked
ranked-Any f [] h = h
ranked-Any f (g ∷ gs) (inl e) =
    subst (λ k. Any (Is f) (insert_ranked k (ranked gs))) (sym e)
      (insert_ranked-Any_head f (ranked gs))
ranked-Any f (g ∷ gs) (inr h) = insert_ranked-Any f g (ranked gs) (ranked-Any f gs h)

selected-Any :
    (test : Finding → Bool) (f : Finding) (fs : List Finding)
    → test f ≡ true
    → Any (Is f) fs
    → Any (Is f) (selected test fs)
unfolding selected
selected-Any test f [] t h = h
selected-Any test f (g ∷ gs) t h = elim (Bool-cases (test g)) [
  | inl e ↦ rw e (elim h [ inl a ↦ inl a | inr a ↦ inr (selected-Any test f gs t a) ])
  | inr e ↦ rw e (elim h [
    | inl a ↦ let clash : test g ≡ true = ap test a ∙ t in absurd (ground arith)
    | inr a ↦ selected-Any test f gs t a
  ])
]

take-Any :
    (f : Finding) (n : ℕ) (fs : List Finding)
    → length fs ≤ n
    → Any (Is f) fs
    → Any (Is f) (take n fs)
take-Any f n [] l h = absurd h
take-Any f zero (g ∷ gs) l h = absurd (omega arith)
take-Any f (suc n) (g ∷ gs) l (inl e) = inl e
take-Any f (suc n) (g ∷ gs) l (inr h) = inr (take-Any f n gs (omega arith) h)

with_found-Any :
    (f : Finding) (o : Option Finding) (fs : List Finding)
    → Any (Is f) fs
    → Any (Is f) (with_found o fs)
with_found-Any f none fs h = h
with_found-Any f (some g) fs h = inr h

stored-Any :
    (f : Finding) (key : String) (a : ℕ) (heap : List Finding) (entries : Map ℕ)
    → lookup key entries ≡ some a
    → get_elem? heap a ≡ some f
    → Any (Is f) (stored heap entries)
unfolding stored lookup
stored-Any f key a heap [] e h = absurd (ground arith)
stored-Any f key a heap ((name, b) ∷ rest) e h = elim (Bool-cases (name == key)) [
  | inl same ↦
      let here : b ≡ a = ground arith in
      let held : get_elem? heap b ≡ some f = ap (get_elem? heap) here ∙ h in
      subst (λ o. Any (Is f) (with_found o (stored heap rest))) (sym held) (inl refl)
  | inr different ↦
      let later : lookup key rest ≡ some a = ground arith in
      let there = stored-Any f key a heap rest later h in
      with_found-Any f (get_elem? heap b) (stored heap rest) there
]

view-Any :
    (f : Finding) (key : String) (o : Option ℕ) (st : FindingStore)
    → lookup key st.findings ≡ o
    → deref st.heap o ≡ some f
    → Any (Is f) (stored st.heap st.findings)
view-Any f key none st e h = absurd (ground arith)
view-Any f key (some a) st e h = stored-Any f key a st.heap st.findings e h

-- A finding of the tenant that is stored under some key and wanted by the options stands in an answer
-- from offset 0 whose limit is not below its total.
pub query_findings_complete :
    (tenant_id : String) (opts : FindingQueryOptions) (st : FindingStore) (r : FindingListResponse)
    (key : String) (f : Finding)
    → query_findings tenant_id opts st ≡ some r
    → r.offset ≡ 0
    → r.total_count ≤ r.limit
    → view key st ≡ some f
    → Asked tenant_id opts f
    → Any (Is f) r.items
unfolding query_findings response view
query_findings_complete tenant_id opts st r key f e first all held asked =
    elim (Bool-cases (tenant_id == "")) [
      | inl empty ↦ let nothing : none ≡ some r = rw empty at e in absurd (ground arith)
      | inr named ↦
          let own = own_findings tenant_id st in
          let fs = all_ranked tenant_id opts st in
          let whole = response opts own fs in
          let found : some whole ≡ some r = rw named at e in
          let same : whole ≡ r = ground arith in
          let among = view-Any f key (lookup key st.findings) st refl held in
          let listed = ranked-Any f (selected (is_wanted opts) own) (
            selected-Any (is_wanted opts) f own asked.1
              (selected-Any (is_of tenant_id) f (stored st.heap st.findings) asked.0 among)) in
          subst
            (λ (x : FindingListResponse).
              x.offset ≡ 0 → x.total_count ≤ x.limit → Any (Is f) x.items)
            same (λ o l. rw o (take-Any f (page_limit opts.limit) fs l listed)) first all
    ]
