-- ===== src/Auth/Sessions.antt =====
-- The browser sessions of the authorization server, app/auth/infra/memory/idp_session_store.go over
-- app/auth/domain/idpsession/store.go. A Go map is a list of entries with their keys; a call holds the
-- mutex over all that it does with the maps, so it is one step.
pub mod Laws
pub mod SingleUse
pub mod Purge
use cc_orchestrator.Prelude.{
  ℕ, ◌+◌, ◌-◌, String, Bool, Option, none, some, List, length, ltb, ◌==◌, if◌then◌else◌,
}
use cc_orchestrator.GoText.Encoding.{base64url_encode}
use cc_orchestrator.Action.{
  Time, Action, pure, raise, time_now, rand_read, get_store, check_context, modify, ◌>>=◌, ◌>>◌,
}
use cc_orchestrator.Auth.Errors.{Err, session_not_found, cancelled, entropy}
use cc_orchestrator.Auth.Db.Table.{delete, put}
use cc_orchestrator.Auth.Db.Table.View.{view}

pub record Session : Type 0 where
  pub id : String
  pub user_id : String
  pub authenticated_at : Time
  pub expires_at : Time

pub record PendingAuthorize : Type 0 where
  pub id : String
  pub raw_query : String
  pub expires_at : Time

pub record IdpSessionStore : Type 0 where
  pub sessions : List Session
  pub pending : List PendingAuthorize

abbrev pub session_id : Session → String
session_id s = s.id

abbrev pub pending_id : PendingAuthorize → String
pending_id p = p.id

abbrev pub session_expired : Time → Session → Bool
session_expired now s = ltb s.expires_at now

abbrev pub pending_expired : Time → PendingAuthorize → Bool
pending_expired now p = ltb p.expires_at now

unfoldable pub random_id : {S : Type 0} → Action Err S String
random_id = do bytes ← rand_read entropy 32; pure (base64url_encode bytes)

unfoldable pub put_session : Session → IdpSessionStore → IdpSessionStore
put_session s st = record st { sessions = put session_id s st.sessions }

unfoldable pub delete_session_id : String → IdpSessionStore → IdpSessionStore
delete_session_id id st = record st { sessions = delete (λ s. s.id == id) st.sessions }

unfoldable pub put_pending : PendingAuthorize → IdpSessionStore → IdpSessionStore
put_pending p st = record st { pending = put pending_id p st.pending }

unfoldable pub delete_pending_id : String → IdpSessionStore → IdpSessionStore
delete_pending_id id st = record st { pending = delete (λ p. p.id == id) st.pending }

unfoldable pub create_session : String → Time → Action Err IdpSessionStore Session
create_session user_id ttl = do
  check_context cancelled
  id ← random_id
  now ← time_now
  let sess : Session = record {
    id = id;
    user_id = user_id;
    authenticated_at = now;
    expires_at = now + ttl;
  }
  modify (put_session sess)
  pure sess

unfoldable pub live_session : String → Option Session → Action Err IdpSessionStore Session
live_session id none = do modify (delete_session_id id); raise session_not_found
live_session id (some sess) = do
  now ← time_now
  if session_expired now sess
      then (modify (delete_session_id id) >> raise session_not_found)
      else pure sess

unfoldable pub find_session : String → Action Err IdpSessionStore Session
find_session id = do
  check_context cancelled
  st ← get_store
  live_session id (view session_id st.sessions id)

unfoldable pub delete_session : String → Action Err IdpSessionStore (Unit {0})
delete_session id = do check_context cancelled; modify (delete_session_id id)

unfoldable pub save_pending_authorize : String → Time → Action Err IdpSessionStore PendingAuthorize
save_pending_authorize raw_query ttl = do
  check_context cancelled
  id ← random_id
  now ← time_now
  let p : PendingAuthorize = record { id = id; raw_query = raw_query; expires_at = now + ttl }
  modify (put_pending p)
  pure p

unfoldable pub live_pending :
    String → Option PendingAuthorize → Action Err IdpSessionStore PendingAuthorize
live_pending id none = do modify (delete_pending_id id); raise session_not_found
live_pending id (some p) = do
  now ← time_now
  if pending_expired now p
      then (modify (delete_pending_id id) >> raise session_not_found)
      else pure p

unfoldable pub find_pending_authorize : String → Action Err IdpSessionStore PendingAuthorize
find_pending_authorize id = do
  check_context cancelled
  st ← get_store
  live_pending id (view pending_id st.pending id)

unfoldable pub consume_pending_authorize : String → Action Err IdpSessionStore PendingAuthorize
consume_pending_authorize id = do
  check_context cancelled
  st ← get_store
  p ← live_pending id (view pending_id st.pending id)
  modify (delete_pending_id id)
  pure p

unfoldable pub purge_at : Time → IdpSessionStore → IdpSessionStore
purge_at now st = record {
  sessions = delete (session_expired now) st.sessions;
  pending = delete (pending_expired now) st.pending;
}

-- Returns how many entries went.
unfoldable pub purge_expired : Action Err IdpSessionStore ℕ
purge_expired = do
  check_context cancelled
  now ← time_now
  st ← get_store
  let left = purge_at now st
  modify (purge_at now)
  pure ((length st.sessions - length left.sessions) + (length st.pending - length left.pending))
