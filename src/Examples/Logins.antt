-- ===== src/Examples/Logins.antt =====
-- A login, its refresh, and a second use of the first token (session.go).
use zero_agent_scan.Prelude.{
  ◌==◌, if◌then◌else◌, String, ◌≡◌, refl, true, false, Option, none, some, [], arith, lookup,
  insert, get_elem?,
}
use zero_agent_scan.Prelude.Int.{ℤ, pos, ltb_ℤ, ◌+ℤ◌}
use zero_agent_scan.Auth.Roles.{role_admin}
use zero_agent_scan.Auth.Store.{
  User, Session, AuthStore, save_session, get_session_by_refresh_token, revoke_session, revoke_at,
  revoke_all, revoke_session_family, get_user_by_id,
}
use zero_agent_scan.Auth.Index.{IsIndexed, revoked, save_session-IsIndexed}
use zero_agent_scan.Auth.Sessions.{
  Draw, TokenPair, issued, refused, replayed, new_session, issue_token_pair, reissue, refresh_found,
  refresh_token,
}
use zero_agent_scan.Auth.Rotation.{
  refresh_token-IsIndexed, refresh_token_replay, refresh_token_rotates, refresh_token_reuse,
}

abbrev admin : User
admin = record {
  id = "usr-1";
  tenant_id = "tenant";
  username = "admin";
  email = "admin@demo.local";
  display_name = "Administrator";
  role = role_admin;
  is_active = true;
  is_break_glass = false;
  totp_enabled = false;
  password_hash = "hash";
  created_at = pos 0;
  updated_at = pos 0;
}

abbrev login : Draw
login = record { family = "f"; session = "s1"; refresh = "rt1"; csrf = "c1" }

abbrev turn : Draw
turn = record { family = "g"; session = "s2"; refresh = "rt2"; csrf = "c2" }

abbrev again : Draw
again = record { family = "h"; session = "s3"; refresh = "rt3"; csrf = "c3" }

abbrev sign : ℤ → User → ℤ → Option String
sign now user ttl = some "jwt"

abbrev first_session : Session
first_session = new_session (pos 0) admin "" login "127.0.0.1" "agent"

abbrev known : AuthStore
known = record {
  users = insert "usr-1" admin [];
  totp_secrets = [];
  heap = [];
  sessions = [];
  by_refresh = [];
  by_family = [];
  challenges = [];
}

known-IsIndexed : IsIndexed known
unfolding lookup
known-IsIndexed = record {
  tokens = λ token a h. absurd (ground arith);
  families = λ a s h. absurd (ground arith);
}

abbrev logged_in : AuthStore
logged_in = save_session first_session known

logged_in-IsIndexed : IsIndexed logged_in
unfolding lookup
logged_in-IsIndexed = save_session-IsIndexed first_session known known-IsIndexed refl

turn_fresh : lookup "s2" logged_in.sessions ≡ none
unfolding lookup insert save_session
turn_fresh = refl

first_held : get_session_by_refresh_token "rt1" logged_in ≡ some first_session
unfolding lookup insert save_session get_session_by_refresh_token
first_held = refl

abbrev refreshed : AuthStore
refreshed = (refresh_token sign (pos 5) "rt1" turn "127.0.0.1" "agent" logged_in).0

abbrev pair : TokenPair
pair = record {
  access_token = "jwt";
  refresh_token = "rt2";
  csrf_token = "c2";
  token_type = "Bearer";
  expires_in = 900;
  user = admin;
}

refresh_done :
    refresh_token sign (pos 5) "rt1" turn "127.0.0.1" "agent" logged_in ≡ (refreshed, issued pair)
unfolding lookup insert save_session get_session_by_refresh_token refresh_token refresh_found
    reissue issue_token_pair revoke_session revoke_at get_user_by_id ◌+ℤ◌
refresh_done = refl

abbrev second_session : Session
second_session = new_session (pos 5) admin "f" turn "127.0.0.1" "agent"

refresh_token-IsIndexed_example : IsIndexed refreshed
refresh_token-IsIndexed_example =
    refresh_token-IsIndexed sign (pos 5) "rt1" turn "127.0.0.1" "agent" logged_in
      logged_in-IsIndexed turn_fresh

refresh_token_rotates_example :
    (false ≡ false)
    × (ltb_ℤ first_session.expires_at (pos 5) ≡ false)
    × (true ≡ true)
    × (get_session_by_refresh_token "rt1" refreshed ≡ some (revoked first_session))
    × (get_session_by_refresh_token "rt2" refreshed ≡ some second_session)
    × (second_session.family_id
        ≡ (if first_session.family_id == "" then turn.family else first_session.family_id))
refresh_token_rotates_example =
    refresh_token_rotates sign (pos 5) "rt1" turn "127.0.0.1" "agent" logged_in refreshed
      first_session pair logged_in-IsIndexed turn_fresh refl first_held refresh_done

abbrev reused : AuthStore
reused = (refresh_token sign (pos 9) "rt1" again "10.0.0.9" "thief" refreshed).0

refresh_token_reuse_example :
    ((refresh_token sign (pos 9) "rt1" again "10.0.0.9" "thief" refreshed).1 ≡ refused replayed)
    × (get_session_by_refresh_token "rt2" reused ≡ some (revoked second_session))
refresh_token_reuse_example =
    refresh_token_reuse sign (pos 5) "rt1" turn "127.0.0.1" "agent" logged_in refreshed
      first_session pair logged_in-IsIndexed turn_fresh refl first_held refresh_done (pos 9) again
      "10.0.0.9" "thief" refl

old_revoked : get_session_by_refresh_token "rt1" refreshed ≡ some (revoked first_session)
old_revoked = refresh_token_rotates_example.3

second_in_heap : get_elem? reused.heap 1 ≡ some (revoked second_session)
unfolding lookup insert save_session get_session_by_refresh_token refresh_token refresh_found
    reissue issue_token_pair revoke_session revoke_at revoke_all revoke_session_family
    get_user_by_id ◌+ℤ◌
second_in_heap = refl

refresh_token_replay_example :
    ((refresh_token sign (pos 9) "rt1" again "10.0.0.9" "thief" refreshed).1 ≡ refused replayed)
    × (true ≡ true)
refresh_token_replay_example =
    refresh_token_replay sign (pos 9) "rt1" again "10.0.0.9" "thief" refreshed
      (revoked first_session) 1 (revoked second_session) refresh_token-IsIndexed_example old_revoked
      refl second_in_heap refl
