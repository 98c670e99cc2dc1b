-- ===== src/Auth/Service/Login/Outcomes.antt =====
-- A session leads back to the user who logged in, and refusals look alike.
use cc_orchestrator.Prelude.{
  ℕ, suc, ◌≤◌, String, ◌≡◌, ◌≢◌, ◌⊎◌, sym, ap, ◌∙◌, true, false, none, some, ok, err, arith, ◌==◌,
  eq_iff, inl, inr,
}
use cc_orchestrator.Action.{Env, World, raise, lift, fail_if, on_error, on_part, statement, ◌>>=◌}
use cc_orchestrator.Auth.Errors.{invalid_credentials}
use cc_orchestrator.Auth.Platform.{Platform}
use cc_orchestrator.Auth.User.{User, new_username, verify_password}
use cc_orchestrator.Auth.Db.{Db, UserRow}
use cc_orchestrator.Auth.Db.Table.{select}
use cc_orchestrator.Auth.Directory.{
  row_to_user, found_user, find_user_by_username, get_user_by_username,
}
use cc_orchestrator.Auth.Sessions.{Session, IdpSessionStore}
use cc_orchestrator.Auth.Sessions.Laws.{find_session-live, session_at}
use cc_orchestrator.Auth.Service.Login.Laws.{UniqueUsers, login-IsLogin, find_user-known}
use cc_orchestrator.Auth.Service.Login.{Server, known_user, login, user_from_session}

-- With unique user identifiers, the session of a successful login, if its identifier is not empty, leads
-- back to a user with the given password: in the state after the login, and in any state with the same
-- users that holds the session under its identifier as that one does, on a request that is not cancelled,
-- with the database up, and not after the session's expiry.
pub user_from_session-login :
    (p : Platform) (username_raw password : String) (env env' : Env) (w w' v : World Server)
    (s : Session)
    → UniqueUsers w.store.db
    → login p username_raw password env w ≡ (ok s, w')
    → s.id ≢ ""
    → v.store.db.users ≡ w'.store.db.users
    → session_at v.store.idp s.id ≡ session_at w'.store.idp s.id
    → ((i : ℕ) → env'.outage i ≡ false)
    → env'.clock (suc v.step) ≤ s.expires_at
    → (u : User) × (verify_password p u password ≡ true)
      × ((user_from_session s.id env' v).0 ≡ ok u)
unfolding user_from_session fail_if on_part ◌>>=◌
user_from_session-login p username_raw password env env' w w' v s unique h given users held up
      live =
    let l = login-IsLogin p username_raw password env w w' s h in
    let part : World IdpSessionStore = record { step = v.step; store = v.store.idp } in
    let found = find_session-live s.id env' part s (up v.step) (held ∙ l.stored) live in
    let unique' : UniqueUsers l.before.store = rw l.found_in unique in
    let same : w'.store.db ≡ l.before.store = l.same_db ∙ sym l.found_in in
    let known =
      find_user-known l.username env env' l.before l.after
        (record { step = suc (suc v.step); store = v.store.db }) l.owner unique' l.found
        (users ∙ ap (λ (d : Db). d.users) same) (up (suc (suc v.step))) in
    let id = l.for_owner in
    let some_id : (s.id == "") ≡ false = ground (arith, eq_iff s.id "") in
    (l.owner, l.verified, rw (some_id, found, id, known))

-- A user who can not log in: no such name, or another password.
abbrev pub Refused : Platform → String → String → Db → Type 0
Refused p name password db =
    (select (λ (r : UserRow). r.username == name) db.users ≡ none)
    ⊎ ((row : UserRow) × (u : User) × (select (λ (r : UserRow). r.username == name) db.users
          ≡ some row)
        × (row_to_user row ≡ ok u)
        × (verify_password p u password ≡ false))

-- With the database up, an unknown name and a wrong password get the same answer, invalid credentials,
-- and nothing is stored.
pub login_refusal :
    (p : Platform) (username_raw name password : String) (env : Env) (w : World Server)
    → env.outage w.step ≡ false
    → new_username username_raw ≡ ok name
    → Refused p name password w.store.db
    → login p username_raw password env w
      ≡ (err invalid_credentials, record { step = suc w.step; store = w.store })
unfolding login known_user on_error lift raise fail_if on_part find_user_by_username found_user
    statement get_user_by_username ◌>>=◌
login_refusal p username_raw name password env w up named (inl unknown) = rw (named, up, unknown)
login_refusal p username_raw name password env w up named (inr (row, u, at_name, restored, wrong)) =
    rw (named, up, at_name, restored, wrong)
