-- ===== src/Vulnscan/Findings/Index.antt =====
-- The maps of the store of findings against its heap, and the store as a map from keys (repository.go).
use mathlib.Core.Path.{subst}
use zero_agent_scan.Prelude.{
  ℕ, zero, suc, ◌<◌, String, ◌≡◌, refl, ◌∙◌, ap, inl, inr, Bool, true, false, Option, none, some,
  List, [], ◌∷◌, ◌++◌, ◌==◌, eq_iff, eq_refl, arith, lookup, insert, lookup-insert, length, set,
  get_elem?, get_elem?-snoc, get_elem?-lt, eqb, if◌then◌else◌, Bool-cases,
}
use zero_agent_scan.Prelude.Int.{ℤ}
use zero_agent_scan.Vulnscan.Findings.{
  Finding, FindingStore, dedup_key, key_of, created, updated, Upserted, upserted, insert_finding,
  deref,
}

get_elem?-set :
    (xs : List Finding) (i j : ℕ) (old x : Finding)
    → get_elem? xs i ≡ some old
    → get_elem? (set xs i x) j ≡ (if eqb i j then some x else get_elem? xs j)
get_elem?-set [] i j old x e = absurd (ground arith)
get_elem?-set (y ∷ xs) zero zero old x e = ground arith
get_elem?-set (y ∷ xs) zero (suc j) old x e = ground arith
get_elem?-set (y ∷ xs) (suc i) zero old x e = ground arith
get_elem?-set (y ∷ xs) (suc i) (suc j) old x e = ground (arith, get_elem?-set xs i j old x e)

abbrev pub stored_key : Finding → String
stored_key f = dedup_key f.tenant_id f.endpoint_id f.cve_id

-- Each map leads to an allocated finding, which the other map leads to as well.
pub record IsIndexed (st : FindingStore) : Type 0 where
  pub keyed :
      (key : String) (a : ℕ)
      → lookup key st.findings ≡ some a
      → (f : Finding) × (get_elem? st.heap a ≡ some f)
        × (stored_key f ≡ key)
        × (lookup f.id st.by_id ≡ some a)
  pub named :
      (id : String) (a : ℕ)
      → lookup id st.by_id ≡ some a
      → (f : Finding) × (get_elem? st.heap a ≡ some f)
        × (f.id ≡ id)
        × (lookup (stored_key f) st.findings ≡ some a)

-- The finding under a key.
unfoldable pub view : String → FindingStore → Option Finding
view key st = deref st.heap (lookup key st.findings)

unfoldable pub merged : ℤ → String → Finding → Option Finding → Finding
merged now fresh f none = created now fresh f
merged now fresh f (some old) = updated now f old

abbrev pub is_new : Option Finding → Bool
is_new none = true
is_new (some f) = false

-- What an upsert does to the store as a map from keys.
abbrev pub Upserts : ℤ → String → Finding → FindingStore → FindingStore × Upserted → Type 0
Upserts now fresh f st s =
    IsIndexed s.0
    × ((key : String)
        → view key s.0 ≡ (
            if key_of f == key
            then some (merged now fresh f (view (key_of f) st))
            else view key st))
    × (s.1 ≡ upserted (merged now fresh f (view (key_of f) st)) (is_new (view (key_of f) st)))

deref-append :
    (heap : List Finding) (g : Finding) (o : Option ℕ)
    → ((a : ℕ) → o ≡ some a → a < length heap)
    → deref (heap ++ g ∷ []) o ≡ deref heap o
deref-append heap g none h = refl
deref-append heap g (some a) h = ground (arith, get_elem?-snoc heap g a, h a refl)

module _ (g : Finding) (st : FindingStore) (inv : IsIndexed st)
    (new_key : lookup (stored_key g) st.findings ≡ none)
    (new_id : lookup g.id st.by_id ≡ none) where
  inserted-keyed :
      (key : String) (a : ℕ)
      → lookup key (insert (stored_key g) (length st.heap) st.findings) ≡ some a
      → (x : Finding) × (get_elem? (st.heap ++ g ∷ []) a ≡ some x)
        × (stored_key x ≡ key)
        × (lookup x.id (insert g.id (length st.heap) st.by_id) ≡ some a)
  inserted-keyed key a h =
      let at = lookup-insert (stored_key g) key (length st.heap) st.findings in
      let read = get_elem?-snoc st.heap g a in
      elim (Bool-cases (stored_key g == key)) [
        | inl same ↦
            let here : length st.heap ≡ a = ground arith in
            (
              g,
              ground arith,
              (eq_iff (stored_key g) key).0 same,
              simp (lookup-insert, eq_refl) (ground arith),
            )
        | inr different ↦
            let (x, held, is_key, by) = inv.keyed key a (ground arith) in
            let other = lookup-insert g.id x.id (length st.heap) st.by_id in
            let below = get_elem?-lt st.heap a x held in
            (x, ground arith, is_key, ground (arith, eq_iff g.id x.id))
      ]

  inserted-named :
      (id : String) (a : ℕ)
      → lookup id (insert g.id (length st.heap) st.by_id) ≡ some a
      → (x : Finding) × (get_elem? (st.heap ++ g ∷ []) a ≡ some x)
        × (x.id ≡ id)
        × (lookup (stored_key x) (insert (stored_key g) (length st.heap) st.findings) ≡ some a)
  inserted-named id a h =
      let at = lookup-insert g.id id (length st.heap) st.by_id in
      let read = get_elem?-snoc st.heap g a in
      elim (Bool-cases (g.id == id)) [
        | inl same ↦
            let here : length st.heap ≡ a = ground arith in
            (g, ground arith, (eq_iff g.id id).0 same, simp (lookup-insert, eq_refl) (ground arith))
        | inr different ↦
            let (x, held, is_id, by) = inv.named id a (ground arith) in
            let other = lookup-insert (stored_key g) (stored_key x) (length st.heap) st.findings in
            let below = get_elem?-lt st.heap a x held in
            (x, ground arith, is_id, ground (arith, eq_iff (stored_key g) (stored_key x)))
      ]

  pub insert_finding-IsIndexed : IsIndexed (insert_finding (stored_key g) g st)
  unfolding insert_finding
  insert_finding-IsIndexed = record { keyed = inserted-keyed; named = inserted-named }

  pub view-insert_finding :
      (key : String)
      → view key (insert_finding (stored_key g) g st)
        ≡ (if stored_key g == key then some g else view key st)
  unfolding insert_finding view
  view-insert_finding key =
      let at = lookup-insert (stored_key g) key (length st.heap) st.findings in
      elim (Bool-cases (stored_key g == key)) [
        | inl same ↦ rw (at, same, get_elem?-snoc st.heap g (length st.heap)) (ground arith)
        | inr different ↦
            rw (at, different)
              (deref-append st.heap g (lookup key st.findings)
                (λ a e. let (x, held, k, i) = inv.keyed key a e in get_elem?-lt st.heap a x held))
      ]

module _ (old x : Finding) (a : ℕ) (st : FindingStore) (inv : IsIndexed st)
    (held : get_elem? st.heap a ≡ some old) (same_key : stored_key x ≡ stored_key old)
    (same_id : x.id ≡ old.id) (at_key : lookup (stored_key old) st.findings ≡ some a) where
  written_one :
      (b : ℕ) (y : Finding)
      → get_elem? st.heap b ≡ some y
      → (z : Finding) × (get_elem? (set st.heap a x) b ≡ some z)
        × (stored_key z ≡ stored_key y)
        × (z.id ≡ y.id)
  written_one b y e = elim (Bool-cases (eqb a b)) [
    | inl same ↦
        let equal : a ≡ b = ground arith in
        let one : old ≡ y = ground arith in
        (
          x,
          ground (arith, get_elem?-set st.heap a b old x held),
          same_key ∙ ap stored_key one,
          same_id ∙ ap (λ (f : Finding). f.id) one,
        )
    | inr different ↦ (y, ground (arith, get_elem?-set st.heap a b old x held), refl, refl)
  ]

  pub written-IsIndexed : IsIndexed (record st { heap = set st.heap a x })
  written-IsIndexed = record {
    keyed = λ key b e.
        let (y, at, is_key, by) = inv.keyed key b e in
        let (z, now_at, k, i) = written_one b y at in (z, now_at, k ∙ is_key, rw i by);
    named = λ id b e.
        let (y, at, is_id, by) = inv.named id b e in
        let (z, now_at, k, i) = written_one b y at in (z, now_at, i ∙ is_id, rw k by);
  }

  deref-set :
      (o : Option ℕ)
      → ((b : ℕ) → o ≡ some b → eqb a b ≡ false)
      → deref (set st.heap a x) o ≡ deref st.heap o
  deref-set none h = refl
  deref-set (some b) h = ground (arith, get_elem?-set st.heap a b old x held, h b refl)

  pub view-written :
      (key : String)
      → view key (record st { heap = set st.heap a x })
        ≡ (if stored_key old == key then some x else view key st)
  unfolding view
  view-written key = elim (Bool-cases (stored_key old == key)) [
    | inl same ↦ rw same (
        subst (λ k. deref (set st.heap a x) (lookup k st.findings) ≡ some x)
          ((eq_iff (stored_key old) key).0 same)
          (rw at_key (ground (arith, get_elem?-set st.heap a a old x held))))
    | inr different ↦ rw different (
        deref-set (lookup key st.findings) (λ b e.
          let (y, at, is_key, by) = inv.keyed key b e in
          elim (Bool-cases (eqb a b)) [
            | inr apart ↦ apart
            | inl equal ↦
                let here : a ≡ b = ground arith in
                let one : old ≡ y = ground arith in
                let clash : (stored_key old == key) ≡ true =
                  (eq_iff (stored_key old) key).1 (ap stored_key one ∙ is_key) in
                absurd (ground arith)
          ]))
  ]
