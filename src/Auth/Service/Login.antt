-- ===== src/Auth/Service/Login.antt =====
-- `AuthenticationService` of app/auth/service/authentication_service.go.
pub mod Laws
pub mod Outcomes
use cc_orchestrator.Prelude.{◌*◌, String, Bool, true, false, not, ◌==◌, if◌then◌else◌}
use cc_orchestrator.Action.{
  Time, Action, pure, raise, lift, fail_if, on_error, on_part, ◌>>=◌, ◌>>◌,
}
use cc_orchestrator.Auth.Errors.{Err, user, invalid_credentials, session_not_found, UserError}
use cc_orchestrator.Auth.Platform.{Platform}
use cc_orchestrator.Auth.User.{User, new_username, verify_password}
use cc_orchestrator.Auth.Db.{Db}
use cc_orchestrator.Auth.Directory.{find_user, find_user_by_username}
use cc_orchestrator.Auth.Sessions
use cc_orchestrator.Auth.Sessions.{Session, IdpSessionStore}

-- The state of the whole server: the database and the sessions in memory.
pub record Server : Type 0 where
  pub db : Db
  pub idp : IdpSessionStore

abbrev pub put_db : Db → Server → Server
put_db d sv = record sv { db = d }

abbrev pub put_idp : IdpSessionStore → Server → Server
put_idp i sv = record sv { idp = i }

abbrev pub on_db : {A : Type 0} → Action Err Db A → Action Err Server A
on_db m = on_part (λ (sv : Server). sv.db) put_db m

abbrev pub on_idp : {A : Type 0} → Action Err IdpSessionStore A → Action Err Server A
on_idp m = on_part (λ (sv : Server). sv.idp) put_idp m

-- 24 hours
abbrev pub default_session_ttl : Time
default_session_ttl = 24 * 3600 * 1_000_000

-- 10 minutes
abbrev pub default_pending_authorize_ttl : Time
default_pending_authorize_ttl = 10 * 60 * 1_000_000

abbrev pub is_user_not_found : Err → Bool
is_user_not_found (user UserError.not_found) = true
is_user_not_found _ = false

-- An unknown user is reported like a wrong password.
unfoldable pub known_user : String → Action Err Server User
known_user username =
    on_error (on_db (find_user_by_username username))
      λ e. raise (if is_user_not_found e then invalid_credentials else e)

unfoldable pub login : Platform → String → String → Action Err Server Session
login p username_raw password = do
  username ← on_error (lift (new_username username_raw)) (λ _. raise invalid_credentials)
  u ← known_user username
  fail_if (not (verify_password p u password)) invalid_credentials
  on_idp (Sessions.create_session u.id default_session_ttl)

unfoldable pub find_session : String → Action Err Server Session
find_session session_id = do
  fail_if (session_id == "") session_not_found
  on_idp (Sessions.find_session session_id)

unfoldable pub user_from_session : String → Action Err Server User
user_from_session session_id = do
  fail_if (session_id == "") session_not_found
  sess ← on_idp (Sessions.find_session session_id)
  on_db (find_user sess.user_id)

unfoldable pub save_pending_authorize : String → Action Err Server String
save_pending_authorize raw_query = do
  p ← on_idp (Sessions.save_pending_authorize raw_query default_pending_authorize_ttl)
  pure p.id

unfoldable pub logout : String → Action Err Server (Unit {0})
logout session_id =
    if session_id == "" then pure tt else on_idp (Sessions.delete_session session_id)

unfoldable pub peek_pending_authorize : String → Action Err Server String
peek_pending_authorize id = do p ← on_idp (Sessions.find_pending_authorize id); pure p.raw_query

unfoldable pub consume_pending_authorize : String → Action Err Server String
consume_pending_authorize id = do
  p ← on_idp (Sessions.consume_pending_authorize id)
  pure p.raw_query
