-- ===== src/Auth/Service/Admin/Laws.antt =====
-- A deletion takes everything of a client or a user, or nothing.
use cc_orchestrator.Prelude.{
  String, ◌≡◌, ◌⊎◌, ◌∙◌, true, false, not, none, Result, ok, err, arith, ◌==◌, eq_iff, inl, inr,
}
use cc_orchestrator.Action.Keeps.{>>=-eq-ok}
use cc_orchestrator.Action.Atomic.{transaction-cases, statement-ok}
use cc_orchestrator.Action.{Env, World, tick, raise, statement, fail_if, ◌>>=◌, ◌>>◌}
use cc_orchestrator.Auth.Errors.{Err, client, user, database, ClientError, UserError}
use cc_orchestrator.Auth.Platform.{Platform}
use cc_orchestrator.Auth.Db.{AuthCodeRow, RefreshTokenRow, ClientRow, UserRow, ConsentRow, Db}
use cc_orchestrator.Auth.Db.Table.{select, delete, has_key}
use cc_orchestrator.Auth.Db.Table.View.{view, view-remove}
use cc_orchestrator.Auth.Directory.{
  find_client, found_client, get_client_by_id, find_user, found_user, get_user_by_id,
}
use cc_orchestrator.Auth.Service.Admin.{
  client_key, user_key, delete_client, delete_user, delete_consents_by_client,
  delete_refresh_tokens_by_client, delete_auth_codes_by_client, delete_client_row,
  delete_consents_by_user, delete_refresh_tokens_by_user, delete_auth_codes_by_user,
  delete_user_row,
}

-- The database without a client, and without a user: their row and the rows of what they were given.
abbrev pub without_client : String → Db → Db
without_client id db = record {
  auth_codes = delete (λ (r : AuthCodeRow). r.client_id == id) db.auth_codes;
  refresh_tokens = delete (λ (r : RefreshTokenRow). r.client_id == id) db.refresh_tokens;
  clients = delete (λ (r : ClientRow). r.id == id) db.clients;
  users = db.users;
  consents = delete (λ (r : ConsentRow). r.client_id == id) db.consents;
}

abbrev pub without_user : String → Db → Db
without_user id db = record {
  auth_codes = delete (λ (r : AuthCodeRow). r.user_id == id) db.auth_codes;
  refresh_tokens = delete (λ (r : RefreshTokenRow). r.user_id == id) db.refresh_tokens;
  clients = db.clients;
  users = delete (λ (r : UserRow). r.id == id) db.users;
  consents = delete (λ (r : ConsentRow). r.user_id == id) db.consents;
}

delete_client-body :
    (id : String) (env : Env) (w w' : World Db)
    → (do
      statement database (delete_consents_by_client id)
      statement database (delete_refresh_tokens_by_client id)
      statement database (delete_auth_codes_by_client id)
      found ← statement database (delete_client_row id)
      fail_if (not found) (client ClientError.not_found))
        env w
      ≡ (ok tt, w')
    → (has_key client_key id w.store.clients ≡ true) × (w'.store ≡ without_client id w.store)
unfolding delete_consents_by_client delete_refresh_tokens_by_client delete_auth_codes_by_client
    delete_client_row fail_if
delete_client-body id env w w' h =
    let (x1, w1, e1, h1) =
      >>=-eq-ok (statement database (delete_consents_by_client id)) _ env w h in
    let (x2, w2, e2, h2) =
      >>=-eq-ok (statement database (delete_refresh_tokens_by_client id)) _ env w1 h1 in
    let (x3, w3, e3, h3) =
      >>=-eq-ok (statement database (delete_auth_codes_by_client id)) _ env w2 h2 in
    let (found, w4, e4, h4) = >>=-eq-ok (statement database (delete_client_row id)) _ env w3 h3 in
    let s1 = statement-ok database env w w1 (delete_consents_by_client id) x1 e1 in
    let s2 = statement-ok database env w1 w2 (delete_refresh_tokens_by_client id) x2 e2 in
    let s3 = statement-ok database env w2 w3 (delete_auth_codes_by_client id) x3 e3 in
    let s4 = statement-ok database env w3 w4 (delete_client_row id) found e4 in
    (ground arith, ground arith)

delete_user-body :
    (id : String) (env : Env) (w w' : World Db)
    → (do
      statement database (delete_consents_by_user id)
      statement database (delete_refresh_tokens_by_user id)
      statement database (delete_auth_codes_by_user id)
      found ← statement database (delete_user_row id)
      fail_if (not found) (user UserError.not_found))
        env w
      ≡ (ok tt, w')
    → (has_key user_key id w.store.users ≡ true) × (w'.store ≡ without_user id w.store)
unfolding delete_consents_by_user delete_refresh_tokens_by_user delete_auth_codes_by_user
    delete_user_row fail_if
delete_user-body id env w w' h =
    let (x1, w1, e1, h1) = >>=-eq-ok (statement database (delete_consents_by_user id)) _ env w h in
    let (x2, w2, e2, h2) =
      >>=-eq-ok (statement database (delete_refresh_tokens_by_user id)) _ env w1 h1 in
    let (x3, w3, e3, h3) =
      >>=-eq-ok (statement database (delete_auth_codes_by_user id)) _ env w2 h2 in
    let (found, w4, e4, h4) = >>=-eq-ok (statement database (delete_user_row id)) _ env w3 h3 in
    let s1 = statement-ok database env w w1 (delete_consents_by_user id) x1 e1 in
    let s2 = statement-ok database env w1 w2 (delete_refresh_tokens_by_user id) x2 e2 in
    let s3 = statement-ok database env w2 w3 (delete_auth_codes_by_user id) x3 e3 in
    let s4 = statement-ok database env w3 w4 (delete_user_row id) found e4 in
    (ground arith, ground arith)

module _ (id : String) (env : Env) (w w' : World Db) (r : Result Err (Unit {0})) where
  -- A deletion of a client that succeeds found the client, and removes its row and its consents, refresh
  -- tokens and authorization codes, and nothing else; one that fails changes nothing.
  delete_client_lem :
      delete_client id env w ≡ (r, w')
      → ((r ≡ ok tt)
          × (has_key client_key id w.store.clients ≡ true)
          × (w'.store ≡ without_client id w.store))
        ⊎ ((e : Err) × (r ≡ err e) × (w'.store ≡ w.store))
  unfolding delete_client
  delete_client_lem h = elim (transaction-cases database env w w' _ r h) [
    | inr failed ↦ inr failed
    | inl (a, v, done, ran, same) ↦
        let (there, gone) = delete_client-body id env (tick w) v ran in
        inl (done, there, same ∙ gone)
  ]

  -- A deletion of a user that succeeds found the user, and removes its row and its consents, refresh
  -- tokens and authorization codes, and nothing else; one that fails changes nothing.
  pub delete_user_lem :
      delete_user id env w ≡ (r, w')
      → ((r ≡ ok tt)
          × (has_key user_key id w.store.users ≡ true)
          × (w'.store ≡ without_user id w.store))
        ⊎ ((e : Err) × (r ≡ err e) × (w'.store ≡ w.store))
  unfolding delete_user
  delete_user_lem h = elim (transaction-cases database env w w' _ r h) [
    | inr failed ↦ inr failed
    | inl (a, v, done, ran, same) ↦
        let (there, gone) = delete_user-body id env (tick w) v ran in inl (done, there, same ∙ gone)
  ]

-- After a client is deleted, it is not found.
find_client-delete_client :
    (p : Platform) (id : String) (env env' : Env) (w w' : World Db)
    → delete_client id env w ≡ (ok tt, w')
    → env'.outage w'.step ≡ false
    → (find_client p id env' w').0 ≡ err (client ClientError.not_found)
unfolding find_client found_client get_client_by_id statement raise ◌>>=◌ view
find_client-delete_client p id env env' w w' h up = elim (delete_client_lem id env w w' (ok tt) h) [
  | inr (e, bad, same) ↦ absurd (ground arith)
  | inl (x, there, gone) ↦
      let none_left = view-remove (λ (r : ClientRow). r.id) id id w.store.clients in
      let absent : select (λ (r : ClientRow). r.id == id) w'.store.clients ≡ none =
        rw gone (ground (arith, eq_iff id id)) in
      rw (up, absent)
]

-- After a user is deleted, it is not found.
pub find_user-delete_user :
    (id : String) (env env' : Env) (w w' v : World Db)
    → delete_user id env w ≡ (ok tt, w')
    → v.store ≡ w'.store
    → env'.outage v.step ≡ false
    → find_user id env' v ≡ (err (user UserError.not_found), tick v)
unfolding find_user found_user get_user_by_id statement raise ◌>>=◌ view
find_user-delete_user id env env' w w' v h after up = elim (delete_user_lem id env w w' (ok tt) h) [
  | inr (e, bad, same) ↦ absurd (ground arith)
  | inl (x, there, gone) ↦
      let none_left = view-remove (λ (r : UserRow). r.id) id id w.store.users in
      let absent : select (λ (r : UserRow). r.id == id) v.store.users ≡ none =
        rw (after, gone) (ground (arith, eq_iff id id)) in
      rw (up, absent)
]
