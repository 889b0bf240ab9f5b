-- ===== src/Auth/Index.antt =====
-- The maps of the session store against its heap, and what the writes of repository.go do to them.
use mathlib.Core.Option
use zero_agent_scan.Prelude.{
  ℕ, zero, suc, String, ◌≡◌, refl, sym, ◌∙◌, inl, inr, Bool, true, false, Option, none, some, List,
  [], ◌∷◌, ◌++◌, ◌||◌, ◌==◌, eq_iff, eq_refl, arith, lookup, insert, lookup-insert, length,
  get_elem?, get_elem?-snoc, get_elem?-lt, eqb, if◌then◌else◌, Bool-cases, Option-cases,
}
use zero_agent_scan.Auth.Store.{
  Session, AuthStore, family_of, save_session, get_session_by_refresh_token, revoke_at, revoke_all,
  revoke_session, revoke_session_family,
}

abbrev pub has_address : ℕ → List ℕ → Bool
has_address a [] = false
has_address a (b ∷ list) = eqb b a || has_address a list

abbrev pub revoked : Session → Session
revoked s = record s { is_revoked = true }

abbrev pub revoke_if : Bool → Session → Session
revoke_if b s = if b then revoked s else s

get_elem?-revoke_at :
    (i a : ℕ) (heap : List Session)
    → get_elem? (revoke_at i heap) a ≡ Option.map (revoke_if (eqb i a)) (get_elem? heap a)
unfolding revoke_at
get_elem?-revoke_at i a [] = refl
get_elem?-revoke_at zero zero (s ∷ heap) = refl
get_elem?-revoke_at zero (suc a) (s ∷ heap) = ground arith
get_elem?-revoke_at (suc i) zero (s ∷ heap) = ground arith
get_elem?-revoke_at (suc i) (suc a) (s ∷ heap) = ground (arith, get_elem?-revoke_at i a heap)

get_elem?-revoke_all :
    (list : List ℕ) (a : ℕ) (heap : List Session)
    → get_elem? (revoke_all list heap) a
      ≡ Option.map (revoke_if (has_address a list)) (get_elem? heap a)
unfolding revoke_all
get_elem?-revoke_all [] a heap = ground arith
get_elem?-revoke_all (i ∷ list) a heap =
    ground (arith, get_elem?-revoke_all list a (revoke_at i heap), get_elem?-revoke_at i a heap)

has_address-snoc :
    (a b : ℕ) (list : List ℕ) → has_address a (list ++ b ∷ []) ≡ (has_address a list || eqb b a)
has_address-snoc a b [] = ground arith
has_address-snoc a b (c ∷ list) = ground (arith, has_address-snoc a b list)

-- The three maps agree with the heap: a refresh token leads to an allocated session that its key
-- leads to as well, and a session stands in the list of its family.
pub record IsIndexed (st : AuthStore) : Type 0 where
  pub tokens :
      (token : String) (a : ℕ)
      → lookup token st.by_refresh ≡ some a
      → (s : Session) × (get_elem? st.heap a ≡ some s) × (lookup s.id st.sessions ≡ some a)
  pub families :
      (a : ℕ) (s : Session)
      → get_elem? st.heap a ≡ some s
      → has_address a (family_of s.family_id st) ≡ true

-- The address behind a token, after a session was saved.
save_session-tokens :
    (s : Session) (st : AuthStore)
    → IsIndexed st
    → lookup s.id st.sessions ≡ none
    → (token : String) (a : ℕ)
    → lookup token (insert s.refresh_token (length st.heap) st.by_refresh) ≡ some a
    → (t : Session) × (get_elem? (st.heap ++ s ∷ []) a ≡ some t)
      × (lookup t.id (insert s.id (length st.heap) st.sessions) ≡ some a)
save_session-tokens s st inv fresh token a h =
    let at = lookup-insert s.refresh_token token (length st.heap) st.by_refresh in
    let read = get_elem?-snoc st.heap s a in
    elim (Bool-cases (s.refresh_token == token)) [
      | inl e ↦
          let here : length st.heap ≡ a = ground arith in
          (s, ground arith, simp (lookup-insert, eq_refl) (ground arith))
      | inr e ↦
          let (t, held, keyed) = inv.tokens token a (ground arith) in
          let other = lookup-insert s.id t.id (length st.heap) st.sessions in
          let below = get_elem?-lt st.heap a t held in
          (t, ground arith, ground (arith, eq_iff s.id t.id))
    ]

pub save_session-IsIndexed :
    (s : Session) (st : AuthStore)
    → IsIndexed st
    → lookup s.id st.sessions ≡ none
    → IsIndexed (save_session s st)
unfolding save_session
save_session-IsIndexed s st inv fresh = record {
  tokens = save_session-tokens s st inv fresh;
  families = λ a t h. ground (
    arith,
    get_elem?-snoc st.heap s a,
    get_elem?-lt st.heap a t,
    inv.families a t,
    lookup-insert s.family_id t.family_id (family_of s.family_id st ++ length st.heap ∷ [])
        st.by_family,
    eq_iff s.family_id t.family_id,
    has_address-snoc a (length st.heap) (family_of s.family_id st),
  );
}

-- What a revocation leaves of a session: all but the flag.
revoke_if-inv :
    (b : Bool) (o : Option Session) (t : Session)
    → Option.map (revoke_if b) o ≡ some t
    → (s : Session) × (o ≡ some s) × (revoke_if b s ≡ t)
revoke_if-inv b none t h = absurd (ground arith)
revoke_if-inv b (some s) t h = (s, refl, ground arith)

module _ (st : AuthStore) (heap : List Session) (hit : ℕ → Bool)
    (changed : (a : ℕ)
      → get_elem? heap a ≡ Option.map (revoke_if (hit a)) (get_elem? st.heap a)) where
  -- A heap where some sessions have been revoked is as well indexed.
  revoked-IsIndexed : IsIndexed st → IsIndexed (record st { heap = heap })
  revoked-IsIndexed inv = record {
    tokens = λ token a h.
        let (s, held, keyed) = inv.tokens token a h in
        (revoke_if (hit a) s, ground (arith, changed a), ground arith);
    families = λ a t h.
        let (s, held, same) = revoke_if-inv (hit a) (get_elem? st.heap a) t (sym (changed a) ∙ h) in
        ground (arith, inv.families a s);
  }

pub lookup-revoke_session :
    (id : String) (st : AuthStore) (b a : ℕ)
    → lookup id st.sessions ≡ some b
    → get_elem? (revoke_session id st).heap a
      ≡ Option.map (revoke_if (eqb b a)) (get_elem? st.heap a)
unfolding revoke_session
lookup-revoke_session id st b a h = rw (h, revoke_session) (get_elem?-revoke_at b a st.heap)

pub revoke_session-IsIndexed :
    (id : String) (st : AuthStore) → IsIndexed st → IsIndexed (revoke_session id st)
unfolding revoke_session
revoke_session-IsIndexed id st inv = elim (Option-cases (lookup id st.sessions)) [
  | inl e ↦ rw (e, revoke_session) inv
  | inr (b, e) ↦
      rw (e, revoke_session)
        (revoked-IsIndexed st (revoke_at b st.heap) (eqb b) (λ a. get_elem?-revoke_at b a st.heap)
          inv)
]

pub revoke_session_family-IsIndexed :
    (family_id : String) (st : AuthStore)
    → IsIndexed st
    → IsIndexed (revoke_session_family family_id st)
unfolding revoke_session_family
revoke_session_family-IsIndexed family_id st inv =
    let list = family_of family_id st in
    revoked-IsIndexed st (revoke_all list st.heap) (λ a. has_address a list)
      (λ a. get_elem?-revoke_all list a st.heap) inv

-- After a family was revoked, each of its sessions is.
pub revoke_session_family_lem :
    (family_id : String) (st : AuthStore) (a : ℕ) (t : Session)
    → IsIndexed st
    → get_elem? (revoke_session_family family_id st).heap a ≡ some t
    → t.family_id ≡ family_id
    → t.is_revoked ≡ true
unfolding revoke_session_family
revoke_session_family_lem family_id st a t inv h f =
    let list = family_of family_id st in
    let (s, held, same) =
      revoke_if-inv (has_address a list) (get_elem? st.heap a) t
        (sym (get_elem?-revoke_all list a st.heap) ∙ h) in
    ground (arith, inv.families a s)

module _ (st : AuthStore) (token : String) (u : Session)
    (held : get_session_by_refresh_token token st ≡ some u) where
  -- The address behind a token that leads to a session.
  address_of : (a : ℕ) × (lookup token st.by_refresh ≡ some a) × (get_elem? st.heap a ≡ some u)
  unfolding get_session_by_refresh_token
  address_of = elim (Option-cases (lookup token st.by_refresh)) [
    | inl e ↦ absurd (ground (arith, held))
    | inr (a, e) ↦ (a, e, ground (arith, held))
  ]

  pub get_session-save_session :
      (s : Session)
      → (s.refresh_token == token) ≡ false
      → get_session_by_refresh_token token (save_session s st) ≡ some u
  unfolding get_session_by_refresh_token save_session
  get_session-save_session s other =
      let (a, at, read) = address_of in
      ground (
        arith,
        lookup-insert s.refresh_token token (length st.heap) st.by_refresh,
        get_elem?-snoc st.heap s a,
        get_elem?-lt st.heap a u,
      )

  pub get_session-revoke_session :
      IsIndexed st → get_session_by_refresh_token token (revoke_session u.id st) ≡ some (revoked u)
  unfolding get_session_by_refresh_token revoke_session
  get_session-revoke_session inv =
      let (a, at, read) = address_of in
      let (s, same, keyed) = inv.tokens token a at in
      let here : lookup u.id st.sessions ≡ some a = ground arith in
      rw (here, revoke_session) (ground (arith, get_elem?-revoke_at a a st.heap))

  pub get_session-revoke_session_family :
      IsIndexed st
      → get_session_by_refresh_token token (revoke_session_family u.family_id st) ≡ some (revoked u)
  unfolding get_session_by_refresh_token revoke_session_family
  get_session-revoke_session_family inv =
      let (a, at, read) = address_of in
      let list = family_of u.family_id st in
      ground (arith, get_elem?-revoke_all list a st.heap, inv.families a u read)

pub get_session-save_session_self :
    (s : Session) (st : AuthStore)
    → get_session_by_refresh_token s.refresh_token (save_session s st) ≡ some s
unfolding get_session_by_refresh_token save_session
get_session-save_session_self s st = ground (
  arith,
  lookup-insert s.refresh_token s.refresh_token (length st.heap) st.by_refresh,
  eq_refl s.refresh_token,
  get_elem?-snoc st.heap s (length st.heap),
)
