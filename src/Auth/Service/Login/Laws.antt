-- ===== src/Auth/Service/Login/Laws.antt =====
-- Who is logged in: the user of a session is the one whose password opened it.
use cc_orchestrator.Prelude.{
  suc, ◌+◌, String, ◌≡◌, ap, ◌∙◌, Bool, true, false, not, some, ok, List, [], ◌∷◌, arith, ◌==◌,
  eq_iff, Option-cases, inl, inr,
}
use cc_orchestrator.Action.{Env, World, raise, lift, fail_if, on_error, on_part, statement, ◌>>=◌}
use cc_orchestrator.Action.Keeps.{>>=-eq-ok}
use cc_orchestrator.Auth.Errors.{invalid_credentials}
use cc_orchestrator.Auth.Platform.{Platform}
use cc_orchestrator.Auth.User
use cc_orchestrator.Auth.User.{User, parse_user_id, new_username, verify_password}
use cc_orchestrator.Auth.Db.{Db, UserRow}
use cc_orchestrator.Auth.Db.Table.{Unique, select}
use cc_orchestrator.Auth.Db.Table.View.{view, view-none}
use cc_orchestrator.Auth.Directory.{
  row_to_user, find_user, found_user, find_user_by_username, get_user_by_id, get_user_by_username,
}
use cc_orchestrator.Auth.Sessions
use cc_orchestrator.Auth.Sessions.{Session, IdpSessionStore}
use cc_orchestrator.Auth.Sessions.Laws.{session_at, create_session-ok}
use cc_orchestrator.Auth.Service.Login.{Server, default_session_ttl, known_user, login}

-- User identifiers are the table's primary key.
abbrev pub UniqueUsers : Db → Type 0
UniqueUsers db = Unique (λ (r : UserRow). r.id) db.users

-- A row that is selected in any way stands under its own key.
select-view :
    {R : Type 0} (key : R → String) (p : R → Bool) (rows : List R) (r : R)
    → Unique key rows
    → select p rows ≡ some r
    → view key rows (key r) ≡ some r
unfolding view select
select-view key p [] r u h = cc
select-view key p (x ∷ xs) r u h = ground (
  arith,
  select-view key p xs r u.1,
  view-none key (key x) xs,
  eq_iff (key x) (key r),
  eq_iff (key r) (key r),
)

restored_id : (row : UserRow) (u : User) → row_to_user row ≡ ok u → u.id ≡ row.id
unfolding row_to_user parse_user_id User.reconstruct
restored_id row u h = ground arith

find_by_username-ok :
    (name : String) (env : Env) (w w' : World Db) (u : User)
    → find_user_by_username name env w ≡ (ok u, w')
    → (row : UserRow) × (select (λ r. r.username == name) w.store.users ≡ some row)
      × (row_to_user row ≡ ok u)
      × (w'.store ≡ w.store)
unfolding find_user_by_username found_user statement get_user_by_username ◌>>=◌ lift raise
find_by_username-ok name env w w' u h =
    elim (Option-cases (select (λ r. r.username == name) w.store.users)) [
      | inl gone ↦ absurd (ground arith)
      | inr (row, e) ↦ (row, ground arith, ground arith, ground arith)
    ]

-- A user found by name is found by identifier.
pub find_user-known :
    (name : String) (env env' : Env) (w w' v : World Db) (u : User)
    → UniqueUsers w.store
    → find_user_by_username name env w ≡ (ok u, w')
    → v.store.users ≡ w.store.users
    → env'.outage v.step ≡ false
    → find_user u.id env' v ≡ (ok u, record { step = suc v.step; store = v.store })
unfolding find_user found_user statement get_user_by_id ◌>>=◌ lift view
find_user-known name env env' w w' v u unique h same up =
    let (row, selected, restored, unchanged) = find_by_username-ok name env w w' u h in
    let law =
      select-view (λ (r : UserRow). r.id) (λ r. r.username == name) w.store.users row unique
        selected in
    let id = restored_id row u restored in
    let at_id : select (λ r. r.id == u.id) v.store.users ≡ some row = rw (same, id) law in
    ground arith

known_user-ok :
    (name : String) (env : Env) (w w' : World Server) (u : User)
    → known_user name env w ≡ (ok u, w')
    → (find_user_by_username name env (record { step = w.step; store = w.store.db })
        ≡ (ok u, record { step = w'.step; store = w'.store.db }))
      × (w'.store.idp ≡ w.store.idp)
unfolding known_user on_error on_part raise
known_user-ok name env w w' u h = (ground arith, ground arith)

-- What a login that succeeds establishes.
pub record IsLogin (p : Platform) (username_raw password : String) (s : Session) (env : Env)
    (w w' : World Server) : Type 0 where
  pub username : String
  pub named : new_username username_raw ≡ ok username
  pub owner : User
  pub before : World Db
  pub found_in : before.store ≡ w.store.db
  pub after : World Db
  pub found : find_user_by_username username env before ≡ (ok owner, after)
  pub verified : verify_password p owner password ≡ true
  pub for_owner : s.user_id ≡ owner.id
  pub lasts : s.expires_at ≡ s.authenticated_at + default_session_ttl
  pub stored : session_at w'.store.idp s.id ≡ some s
  pub same_db : w'.store.db ≡ w.store.db

-- A login that succeeds found the user of the (trimmed) name, whose password the given one is, and
-- stored a session of 24 hours for that user; the database is as it was.
pub login-IsLogin :
    (p : Platform) (username_raw password : String) (env : Env) (w w' : World Server) (s : Session)
    → login p username_raw password env w ≡ (ok s, w')
    → IsLogin p username_raw password s env w w'
unfolding login on_error lift raise fail_if on_part
login-IsLogin p username_raw password env w w' s h =
    let (name, w1, e1, h1) =
      >>=-eq-ok (on_error (lift (new_username username_raw)) (λ _. raise invalid_credentials)) _ env
        w h in
    let (u, w2, e2, h2) = >>=-eq-ok (known_user name) _ env w1 h1 in
    let (t, w3, e3, h3) =
      >>=-eq-ok (fail_if (not (verify_password p u password)) invalid_credentials) _ env w2 h2 in
    let same1 : w1 ≡ w = ground arith in
    let same3 : w3 ≡ w2 = ground arith in
    let named : new_username username_raw ≡ ok name = ground arith in
    let (found, idp) = known_user-ok name env w1 w2 u e2 in
    let (row, selected, restored, unchanged) =
      find_by_username-ok name env (record { step = w1.step; store = w1.store.db })
        (record { step = w2.step; store = w2.store.db }) u found in
    let made : Sessions.create_session u.id default_session_ttl env
          (record { step = w3.step; store = w3.store.idp })
        ≡ (ok s, record { step = w'.step; store = w'.store.idp }) =
      ground arith in
    let (user_id, lasts, stored, pending) =
      create_session-ok u.id default_session_ttl env
        (record { step = w3.step; store = w3.store.idp })
        (record { step = w'.step; store = w'.store.idp }) s made in
    record {
      username = name;
      named = named;
      owner = u;
      before = record { step = w1.step; store = w1.store.db };
      found_in = ap (λ (x : World Server). x.store.db) same1;
      after = record { step = w2.step; store = w2.store.db };
      found = found;
      verified = ground arith;
      for_owner = user_id;
      lasts = lasts;
      stored = stored s.id ∙ ground (arith, eq_iff s.id s.id);
      same_db = ground arith;
    }
