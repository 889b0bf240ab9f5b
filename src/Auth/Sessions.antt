-- ===== src/Auth/Sessions.antt =====
-- apps/api/internal/auth/session.go: token pairs, and the rotation of refresh tokens.
-- The clock, the keys that `uuid.New` and `crypto/rand` draw, and the signing of access tokens are
-- arguments; a call returns the store beside its result, since a failed call may have written.
use zero_agent_scan.Prelude.{ℕ, ◌*◌, ◌^◌, String, false, Option, none, some, ◌==◌, if◌then◌else◌}
use zero_agent_scan.Prelude.Int.{ℤ, pos, ◌+ℤ◌, ltb_ℤ}
use zero_agent_scan.Auth.Store.{
  User, Session, AuthStore, save_session, get_session_by_refresh_token, revoke_session,
  revoke_session_family, get_user_by_id,
}

-- Nanoseconds, as in `time.Duration`.
abbrev pub second : ℕ
second = 10 ^ 9

abbrev pub access_token_ttl : ℤ
access_token_ttl = pos (15 * 60 * second)

abbrev pub refresh_token_ttl : ℤ
refresh_token_ttl = pos (7 * 24 * 3600 * second)

pub record TokenPair : Type 0 where
  pub access_token : String
  pub refresh_token : String
  pub csrf_token : String
  pub token_type : String
  pub expires_in : ℕ
  pub user : User

-- The values drawn in one call of `IssueTokenPair`.
pub record Draw : Type 0 where
  pub family : String
  pub session : String
  pub refresh : String
  pub csrf : String

pub data SessionError : Type 0 where
  invalid_token replayed expired deactivated signing_failed : SessionError

pub data Outcome : Type 0 where
  issued : TokenPair → Outcome
  refused : SessionError → Outcome

abbrev pub choose_family : String → Draw → String
choose_family family_id draw = if family_id == "" then draw.family else family_id

abbrev pub new_session : ℤ → User → String → Draw → String → String → Session
new_session now user family_id draw ip agent = record {
  id = draw.session;
  user_id = user.id;
  tenant_id = user.tenant_id;
  family_id = choose_family family_id draw;
  refresh_token = draw.refresh;
  csrf_token = draw.csrf;
  step_up_auth_at = now;
  is_revoked = false;
  user_agent = agent;
  ip_address = ip;
  expires_at = now +ℤ refresh_token_ttl;
  created_at = now;
  last_refresh_at = now;
}

-- `tokenService.GenerateToken` on the user's claims, which can fail.
module _ (generate_token : ℤ → User → ℤ → Option String) where
  abbrev token_pair : User → Draw → Option String → Outcome
  token_pair user draw none = refused signing_failed
  token_pair user draw (some access) = issued (record {
    access_token = access;
    refresh_token = draw.refresh;
    csrf_token = draw.csrf;
    token_type = "Bearer";
    expires_in = 900;
    user = user;
  })

  unfoldable pub issue_token_pair :
      ℤ → User → String → Draw → String → String → AuthStore → AuthStore × Outcome
  issue_token_pair now user family_id draw ip agent st = (
    save_session (new_session now user family_id draw ip agent) st,
    token_pair user draw (generate_token now user access_token_ttl),
  )

  -- The part of `RefreshToken` after the old session has been revoked.
  unfoldable pub reissue : ℤ → Session → Draw → String → String → AuthStore → AuthStore × Outcome
  unfolding issue_token_pair
  reissue now session draw ip agent st = elim (get_user_by_id session.user_id st) [
    | none ↦ (st, refused deactivated)
    | some user ↦
        if user.is_active
        then issue_token_pair now user session.family_id draw ip agent st
        else (st, refused deactivated)
  ]

  unfoldable pub refresh_found :
      ℤ → Session → Draw → String → String → AuthStore → AuthStore × Outcome
  refresh_found now session draw ip agent st =
      if session.is_revoked
      then (revoke_session_family session.family_id st, refused replayed)
      else if ltb_ℤ session.expires_at now
      then (st, refused expired)
      else reissue now session draw ip agent (revoke_session session.id st)

  unfoldable pub refresh_token :
      ℤ → String → Draw → String → String → AuthStore → AuthStore × Outcome
  refresh_token now old draw ip agent st = elim (get_session_by_refresh_token old st) [
    | none ↦ (st, refused invalid_token)
    | some session ↦ refresh_found now session draw ip agent st
  ]
