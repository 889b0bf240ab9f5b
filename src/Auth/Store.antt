-- ===== src/Auth/Store.antt =====
-- apps/api/internal/auth/repository.go and types.go: the in-memory store of users and sessions.
-- The three session maps hold pointers to one `Session`, and a revocation through one map shows in
-- the others: `heap` is the list of the allocated sessions, and the maps hold addresses in it.
use zero_agent_scan.Prelude.{
  ℕ, zero, suc, String, Bool, true, ◌&&◌, ◌||◌, Option, none, some, List, [], ◌∷◌, ◌++◌, ◌==◌, Map,
  lookup, insert, length, get_elem?, if◌then◌else◌,
}
use zero_agent_scan.Prelude.Int.{ℤ}
use zero_agent_scan.Auth.Roles.{Role}

pub record User : Type 0 where
  pub id : String
  pub tenant_id : String
  pub username : String
  pub email : String
  pub display_name : String
  pub role : Role
  pub is_active : Bool
  pub is_break_glass : Bool
  pub totp_enabled : Bool
  pub password_hash : String
  pub created_at : ℤ
  pub updated_at : ℤ

pub record Session : Type 0 where
  pub id : String
  pub user_id : String
  pub tenant_id : String
  pub family_id : String
  pub refresh_token : String
  pub csrf_token : String
  pub step_up_auth_at : ℤ
  pub is_revoked : Bool
  pub user_agent : String
  pub ip_address : String
  pub expires_at : ℤ
  pub created_at : ℤ
  pub last_refresh_at : ℤ

pub record MfaChallenge : Type 0 where
  pub challenge_id : String
  pub user_id : String
  pub tenant_id : String
  pub expires_at : ℤ

pub record AuthStore : Type 0 where
  pub users : Map User
  pub totp_secrets : Map String
  pub heap : List Session
  pub sessions : Map ℕ
  pub by_refresh : Map ℕ
  pub by_family : Map (List ℕ)
  pub challenges : Map (Option MfaChallenge)

unfoldable pub save_user : User → AuthStore → AuthStore
save_user user st = record st { users = insert user.id user st.users }

unfoldable pub get_user_by_id : String → AuthStore → Option User
get_user_by_id id st = lookup id st.users

unfoldable pub save_totp_secret : String → String → AuthStore → AuthStore
save_totp_secret user_id secret st = record st {
  totp_secrets = insert user_id secret st.totp_secrets;
}

unfoldable pub get_totp_secret : String → AuthStore → Option String
get_totp_secret user_id st = lookup user_id st.totp_secrets

-- The test of `GetUserByUsername` and, with no name, of `ListUsers`.
abbrev in_tenant : String → User → Bool
in_tenant tenant_id user = tenant_id == "" || user.tenant_id == tenant_id

abbrev is_named : String → User → Bool
is_named username user = user.username == username || user.email == username

-- Go returns the first hit in an order of its own choice; here that is the order of the list.
unfoldable pub get_user_by_username : String → String → Map User → Option User
get_user_by_username tenant_id username [] = none
get_user_by_username tenant_id username ((id, user) ∷ users) =
    if is_named username user && in_tenant tenant_id user
    then some user
    else get_user_by_username tenant_id username users

unfoldable pub list_users : String → Map User → List User
list_users tenant_id [] = []
list_users tenant_id ((id, user) ∷ users) =
    let rest = list_users tenant_id users in if in_tenant tenant_id user then user ∷ rest else rest

-- A missing family reads as the nil slice.
abbrev pub family_of : String → AuthStore → List ℕ
family_of family_id st = elim (lookup family_id st.by_family) [ none ↦ [] | some list ↦ list ]

unfoldable pub save_session : Session → AuthStore → AuthStore
save_session session st =
    let address = length st.heap in
    record st {
      heap = st.heap ++ session ∷ [];
      sessions = insert session.id address st.sessions;
      by_refresh = insert session.refresh_token address st.by_refresh;
      by_family =
          insert session.family_id (family_of session.family_id st ++ address ∷ []) st.by_family;
    }

-- A pointer of a map is always allocated, so `none` stands for a missing key alone.
unfoldable pub get_session_by_refresh_token : String → AuthStore → Option Session
get_session_by_refresh_token token st = elim (lookup token st.by_refresh) [
  | none ↦ none
  | some address ↦ get_elem? st.heap address
]

-- `s.IsRevoked = true` through a pointer.
unfoldable pub revoke_at : ℕ → List Session → List Session
revoke_at address [] = []
revoke_at zero (s ∷ heap) = record s { is_revoked = true } ∷ heap
revoke_at (suc address) (s ∷ heap) = s ∷ revoke_at address heap

unfoldable pub revoke_all : List ℕ → List Session → List Session
revoke_all [] heap = heap
revoke_all (address ∷ list) heap = revoke_all list (revoke_at address heap)

unfoldable pub revoke_session : String → AuthStore → AuthStore
unfolding revoke_at
revoke_session session_id st = elim (lookup session_id st.sessions) [
  | none ↦ st
  | some address ↦ record st { heap = revoke_at address st.heap }
]

unfoldable pub revoke_session_family : String → AuthStore → AuthStore
unfolding revoke_all revoke_at
revoke_session_family family_id st = record st {
  heap = revoke_all (family_of family_id st) st.heap;
}

unfoldable pub save_mfa_challenge : MfaChallenge → AuthStore → AuthStore
save_mfa_challenge challenge st = record st {
  challenges = insert challenge.challenge_id (some challenge) st.challenges;
}

-- A deleted key stays in the list of the map with nothing in it.
unfoldable pub get_mfa_challenge : String → AuthStore → Option MfaChallenge
get_mfa_challenge challenge_id st = elim (lookup challenge_id st.challenges) [
  | none ↦ none
  | some c ↦ c
]

unfoldable pub delete_mfa_challenge : String → AuthStore → AuthStore
delete_mfa_challenge challenge_id st = record st {
  challenges = insert challenge_id none st.challenges;
}
