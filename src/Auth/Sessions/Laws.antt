-- ===== src/Auth/Sessions/Laws.antt =====
-- Sessions and pending authorizations: what a lookup gives, and for how long.
use cc_orchestrator.Prelude.{
  suc, ◌+◌, ◌≤◌, String, ◌≡◌, false, Option, none, some, ok, ◌==◌, if◌then◌else◌, arith,
  Option-cases, inl, inr,
}
use cc_orchestrator.Action.{
  Time, Env, World, pure, raise, time_now, rand_read, get_store, check_context, modify, ◌>>=◌,
}
use cc_orchestrator.Auth.Db.Table.View.{view, view-put, view-remove}
use cc_orchestrator.Auth.Sessions.{
  Session, PendingAuthorize, IdpSessionStore, session_id, pending_id, random_id, put_session,
  delete_session_id, create_session, live_session, find_session, delete_session,
}

abbrev pub session_at : IdpSessionStore → String → Option Session
session_at st id = view session_id st.sessions id

abbrev pub pending_at : IdpSessionStore → String → Option PendingAuthorize
pending_at st id = view pending_id st.pending id

-- A session that was created is for the user and the time to live that were asked for, from the
-- reading of the clock on; it stands under its identifier, and no other entry has changed.
pub create_session-ok :
    (user_id : String) (ttl : Time) (env : Env) (w w' : World IdpSessionStore) (s : Session)
    → create_session user_id ttl env w ≡ (ok s, w')
    → (s.user_id ≡ user_id)
      × (s.expires_at ≡ s.authenticated_at + ttl)
      × ((j : String)
          → session_at w'.store j ≡ (if s.id == j then some s else session_at w.store j))
      × (w'.store.pending ≡ w.store.pending)
unfolding create_session random_id check_context rand_read time_now modify put_session ◌>>=◌ pure
create_session-ok user_id ttl env w w' s h = (
  ground arith,
  ground arith,
  λ j. let law = view-put session_id s j w.store.sessions in ground arith,
  ground arith,
)

-- A session that is found stands under the identifier and has not expired, and nothing was changed.
find_session-ok :
    (id : String) (env : Env) (w w' : World IdpSessionStore) (s : Session)
    → find_session id env w ≡ (ok s, w')
    → (session_at w.store id ≡ some s)
      × (env.clock (suc w.step) ≤ s.expires_at)
      × (w'.store ≡ w.store)
unfolding find_session live_session check_context get_store time_now modify ◌>>=◌ raise pure
find_session-ok id env w w' s h = elim (Option-cases (session_at w.store id)) [
  | inl gone ↦ absurd (ground arith)
  | inr (r, e) ↦ (ground arith, ground arith, ground arith)
]

-- A live session is found, when the request is not cancelled.
pub find_session-live :
    (id : String) (env : Env) (w : World IdpSessionStore) (s : Session)
    → env.outage w.step ≡ false
    → session_at w.store id ≡ some s
    → env.clock (suc w.step) ≤ s.expires_at
    → find_session id env w ≡ (ok s, record { step = suc (suc w.step); store = w.store })
unfolding find_session live_session check_context get_store time_now ◌>>=◌ pure
find_session-live id env w s up at live = ground arith

-- After a logout no session stands under the identifier; every other session is as it was.
delete_session-ok :
    (id : String) (env : Env) (w w' : World IdpSessionStore)
    → delete_session id env w ≡ (ok tt, w')
    → ((j : String) → session_at w'.store j ≡ (if id == j then none else session_at w.store j))
      × (w'.store.pending ≡ w.store.pending)
unfolding delete_session check_context modify delete_session_id ◌>>=◌
delete_session-ok id env w w' h =
    (λ j. let law = view-remove session_id id j w.store.sessions in ground arith, ground arith)
