-- ===== src/Auth/Service/Admin/Sessions.antt =====
-- The sessions of a deleted user, which stay in memory, lead nowhere.
use cc_orchestrator.Prelude.{ℕ, suc, ◌≤◌, ◌≡◌, ◌≢◌, false, some, ok, err, arith, ◌==◌, eq_iff}
use cc_orchestrator.Action.{Env, World, fail_if, on_part, ◌>>=◌}
use cc_orchestrator.Auth.Errors.{user, UserError}
use cc_orchestrator.Auth.Db.{Db}
use cc_orchestrator.Auth.Sessions.{Session, IdpSessionStore}
use cc_orchestrator.Auth.Sessions.Laws.{session_at, find_session-live}
use cc_orchestrator.Auth.Service.Login.{Server, user_from_session}
use cc_orchestrator.Auth.Service.Admin.{delete_user}
use cc_orchestrator.Auth.Service.Admin.Laws.{find_user-delete_user}

-- Once a user is deleted, a session of that user, though live, gives no user, on a request that is not
-- cancelled and with the database up.
user_from_session-delete_user :
    (s : Session) (env env' : Env) (w w' : World Db) (v : World Server)
    → delete_user s.user_id env w ≡ (ok tt, w')
    → v.store.db ≡ w'.store
    → session_at v.store.idp s.id ≡ some s
    → s.id ≢ ""
    → ((i : ℕ) → env'.outage i ≡ false)
    → env'.clock (suc v.step) ≤ s.expires_at
    → (user_from_session s.id env' v).0 ≡ err (user UserError.not_found)
unfolding user_from_session fail_if on_part ◌>>=◌
user_from_session-delete_user s env env' w w' v h after stored given up live =
    let part : World IdpSessionStore = record { step = v.step; store = v.store.idp } in
    let found = find_session-live s.id env' part s (up v.step) stored live in
    let gone =
      find_user-delete_user s.user_id env env' w w'
        (record { step = suc (suc v.step); store = v.store.db }) h after (up (suc (suc v.step))) in
    let some_id : (s.id == "") ≡ false = ground (arith, eq_iff s.id "") in rw (some_id, found, gone)
