-- ===== src/Auth/Rotation.antt =====
-- Rotation and replay of refresh tokens (session.go over repository.go).

use mathlib.Core.Path.{subst}
use zero_agent_scan.Prelude.{
  if◌then◌else◌, ℕ, String, ◌≡◌, refl, inl, inr, true, false, Option, none, some, ◌==◌, arith,
  lookup, get_elem?, if_both, Bool-cases, Option-cases,
}
use zero_agent_scan.Prelude.Int.{ℤ, ltb_ℤ}
use zero_agent_scan.Auth.Store.{
  User, Session, AuthStore, save_session, get_session_by_refresh_token, revoke_session,
  revoke_session_family, get_user_by_id,
}
use zero_agent_scan.Auth.Index.{
  IsIndexed, revoked, save_session-IsIndexed, revoke_session-IsIndexed,
  revoke_session_family-IsIndexed, revoke_session_family_lem, get_session-save_session,
  get_session-revoke_session, get_session-revoke_session_family, get_session-save_session_self,
}
use zero_agent_scan.Auth.Sessions.{
  Draw, TokenPair, Outcome, issued, refused, replayed, new_session, issue_token_pair, reissue,
  refresh_found, refresh_token,
}

module _ (generate_token : ℤ → User → ℤ → Option String) where
  reissue-IsIndexed :
      (now : ℤ) (s : Session) (draw : Draw) (ip agent : String) (st : AuthStore)
      → IsIndexed st
      → lookup draw.session st.sessions ≡ none
      → IsIndexed (reissue generate_token now s draw ip agent st).0
  unfolding reissue
  reissue-IsIndexed now s draw ip agent st inv fresh =
      elim (Option-cases (get_user_by_id s.user_id st)) [
        | inl e ↦ rw (e, reissue) inv
        | inr (user, e) ↦ elim (Bool-cases user.is_active) [
          | inl b ↦
              rw (e, reissue, b)
                (save_session-IsIndexed (new_session now user s.family_id draw ip agent) st inv
                  fresh)
          | inr b ↦ rw (e, reissue, b) inv
        ]
      ]

  sessions-revoke_session :
      (id : String) (st : AuthStore) → (revoke_session id st).sessions ≡ st.sessions
  unfolding revoke_session
  sessions-revoke_session id st = ground arith

  refresh_found-IsIndexed :
      (now : ℤ) (s : Session) (draw : Draw) (ip agent : String) (st : AuthStore)
      → IsIndexed st
      → lookup draw.session st.sessions ≡ none
      → IsIndexed (refresh_found generate_token now s draw ip agent st).0
  unfolding refresh_found
  refresh_found-IsIndexed now s draw ip agent st inv fresh =
      let rotated = revoke_session s.id st in
      let kept : (lookup draw.session rotated.sessions ≡ none) = rw sessions-revoke_session fresh in
      if_both (λ (r : AuthStore × Outcome). IsIndexed r.0) s.is_revoked
        (revoke_session_family-IsIndexed s.family_id st inv)
        (if_both (λ (r : AuthStore × Outcome). IsIndexed r.0) (ltb_ℤ s.expires_at now) inv
          (reissue-IsIndexed now s draw ip agent rotated (revoke_session-IsIndexed s.id st inv)
            kept))

  -- A call of `RefreshToken`, whatever its result, keeps the maps of the store in agreement with
  -- its sessions, if the key drawn for a new session is new.
  pub refresh_token-IsIndexed :
      (now : ℤ) (old : String) (draw : Draw) (ip agent : String) (st : AuthStore)
      → IsIndexed st
      → lookup draw.session st.sessions ≡ none
      → IsIndexed (refresh_token generate_token now old draw ip agent st).0
  unfolding refresh_token
  refresh_token-IsIndexed now old draw ip agent st inv fresh =
      elim (Option-cases (get_session_by_refresh_token old st)) [
        | inl e ↦ rw (e, refresh_token) inv
        | inr (s, e) ↦
            rw (e, refresh_token) (refresh_found-IsIndexed now s draw ip agent st inv fresh)
      ]

  -- In a store whose maps agree, a token whose session is revoked is refused as a replay, and every
  -- session of its family is revoked afterwards.
  pub refresh_token_replay :
      (now : ℤ) (old : String) (draw : Draw) (ip agent : String) (st : AuthStore) (s : Session)
      (a : ℕ) (t : Session)
      → IsIndexed st
      → get_session_by_refresh_token old st ≡ some s
      → s.is_revoked ≡ true
      → get_elem? (refresh_token generate_token now old draw ip agent st).0.heap a ≡ some t
      → t.family_id ≡ s.family_id
      → ((refresh_token generate_token now old draw ip agent st).1 ≡ refused replayed)
        × (t.is_revoked ≡ true)
  unfolding refresh_token refresh_found
  refresh_token_replay now old draw ip agent st s a t inv e b h f = (
    rw (e, refresh_token, b) refl,
    revoke_session_family_lem s.family_id st a t inv (rw (e, refresh_token, b) at h) f,
  )

  -- What a successful call has read and written.
  record Rotated (now : ℤ) (s : Session) (draw : Draw) (ip agent : String) (st st' : AuthStore)
      (pair : TokenPair) : Type 0 where
    live : s.is_revoked ≡ false
    in_time : ltb_ℤ s.expires_at now ≡ false
    active : pair.user.is_active ≡ true
    found : get_user_by_id s.user_id (revoke_session s.id st) ≡ some pair.user
    token : pair.refresh_token ≡ draw.refresh
    store :
        st'
        ≡ save_session
            (new_session now pair.user s.family_id draw ip agent)
            (revoke_session s.id st)

  refresh_token-Rotated :
      (now : ℤ) (old : String) (draw : Draw) (ip agent : String) (st st' : AuthStore) (s : Session)
      (pair : TokenPair)
      → get_session_by_refresh_token old st ≡ some s
      → refresh_token generate_token now old draw ip agent st ≡ (st', issued pair)
      → Rotated now s draw ip agent st st' pair
  unfolding refresh_token refresh_found reissue issue_token_pair
  refresh_token-Rotated now old draw ip agent st st' s pair e h = ground arith

  module _ (now : ℤ) (old : String) (draw : Draw) (ip agent : String) (st st' : AuthStore)
      (s : Session) (pair : TokenPair) (inv : IsIndexed st)
      (fresh : lookup draw.session st.sessions ≡ none) (other : (draw.refresh == old) ≡ false)
      (held : get_session_by_refresh_token old st ≡ some s)
      (done : refresh_token generate_token now old draw ip agent st ≡ (st', issued pair)) where
    abbrev next : Session
    next = new_session now pair.user s.family_id draw ip agent

    pub refresh_token_rotates :
        (s.is_revoked ≡ false)
        × (ltb_ℤ s.expires_at now ≡ false)
        × (pair.user.is_active ≡ true)
        × (get_session_by_refresh_token old st' ≡ some (revoked s))
        × (get_session_by_refresh_token pair.refresh_token st' ≡ some next)
        × (next.family_id ≡ (if s.family_id == "" then draw.family else s.family_id))
    refresh_token_rotates =
        let r = refresh_token-Rotated now old draw ip agent st st' s pair held done in
        let rotated = revoke_session s.id st in
        (
          r.live,
          r.in_time,
          r.active,
          rw r.store (
              get_session-save_session rotated old (revoked s)
                (get_session-revoke_session st old s held inv) next other),
          rw (r.store, r.token) (get_session-save_session_self next rotated),
          refl,
        )

    -- Under the same conditions, for a session that has a family: whoever presents the old token
    -- again, at any time, is refused as replaying it, and the token issued in its place then leads to
    -- a revoked session.
    pub refresh_token_reuse :
        (now' : ℤ) (draw' : Draw) (ip' agent' : String)
        → (s.family_id == "") ≡ false
        → ((refresh_token generate_token now' old draw' ip' agent' st').1 ≡ refused replayed)
          × (get_session_by_refresh_token pair.refresh_token
                (refresh_token generate_token now' old draw' ip' agent' st').0
              ≡ some (revoked next))
    unfolding refresh_token refresh_found
    refresh_token_reuse now' draw' ip' agent' family =
        let (live, in_time, active, first, second, family_kept) = refresh_token_rotates in
        let inv' : IsIndexed st' =
          subst (λ r. IsIndexed r.0) done
            (refresh_token-IsIndexed now old draw ip agent st inv fresh) in
        let same : next.family_id ≡ s.family_id = ground arith in
        let ended = get_session-revoke_session_family st' pair.refresh_token next second inv' in
        (
          rw (first, refresh_token) refl,
          rw (first, refresh_token)
              (subst
                (λ f.
                  get_session_by_refresh_token pair.refresh_token (revoke_session_family f st')
                  ≡ some (revoked next))
                same ended),
        )
