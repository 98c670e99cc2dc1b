-- ===== src/Auth/Service/Admin.antt =====
-- The administration of clients and users: app/auth/service/admin_service.go over
-- app/auth/infra/postgres/{client_writer,user_writer,seed}.go and the statements of
-- app/auth/infra/postgres/sqlcgen. Lists of a set's members have the order of the model.
pub mod Laws
pub mod Sessions
use cc_orchestrator.Prelude.{
  String, Bool, true, false, not, ◌&&◌, Option, none, some, List, [], ◌∷◌, ◌++◌, Result, ok, err,
  ◌==◌, if◌then◌else◌,
}
use cc_orchestrator.Action.{
  Time, Action, pure, raise, lift, statement, transaction, fail_if, ◌>>=◌, ◌>>◌,
}
use cc_orchestrator.Auth.Errors.{Err, client, user, database, ClientError, UserError}
use cc_orchestrator.Auth.Client.{Client}
use cc_orchestrator.Auth.User.{User}
use cc_orchestrator.Auth.Db.{AuthCodeRow, RefreshTokenRow, ClientRow, UserRow, ConsentRow, Db}
use cc_orchestrator.Auth.Db.Table.{select, update, delete, has_key}
use cc_orchestrator.Auth.Platform.{Platform}
use cc_orchestrator.Auth.Directory
use cc_orchestrator.Auth.Directory.{find_client, find_user}

abbrev pub client_key : ClientRow → String
client_key r = r.id

abbrev pub user_key : UserRow → String
user_key r = r.id

unfoldable pub client_row : Client → ClientRow
client_row c = record {
  id = c.id;
  redirect_uris = c.redirect_uris;
  allowed_scopes = c.allowed_scopes;
  response_types = c.response_types;
  grant_types = c.grant_types;
  client_secret_hash = c.secret_hash;
}

unfoldable pub user_row : User → UserRow
user_row u = record {
  id = u.id;
  username = u.username;
  password_hash = u.password_hash;
  profile_name = u.profile.name;
  profile_email = u.profile.email;
}

-- INSERT … ON CONFLICT (id) DO UPDATE SET, every column
unfoldable pub upsert_client : ClientRow → Time → Db → Result Err (Unit {0}) × Db
upsert_client row now db =
    if has_key client_key row.id db.clients
    then (ok tt, record db { clients = update (λ r. r.id == row.id) (λ r. row) db.clients })
    else (ok tt, record db { clients = db.clients ++ row ∷ [] })

abbrev pub username_taken : UserRow → UserRow → Bool
username_taken row r = r.username == row.username && not (r.id == row.id)

abbrev pub upserted_user : UserRow → Db → Option UserRow → Result Err (Unit {0}) × Db
upserted_user row db (some other) = (err database, db)
upserted_user row db none =
    if has_key user_key row.id db.users
    then (ok tt, record db { users = update (λ r. r.id == row.id) (λ r. row) db.users })
    else (ok tt, record db { users = db.users ++ row ∷ [] })

-- The same, where `username` is UNIQUE.
unfoldable pub upsert_user : UserRow → Time → Db → Result Err (Unit {0}) × Db
upsert_user row now db = upserted_user row db (select (username_taken row) db.users)

unfoldable pub save_client : Client → Action Err Db (Unit {0})
save_client c = statement database (upsert_client (client_row c))

unfoldable pub create_user : User → Action Err Db (Unit {0})
create_user u = statement database (upsert_user (user_row u))

-- DELETE FROM … WHERE client_id = $1, in three tables
unfoldable pub delete_consents_by_client : String → Time → Db → Result Err (Unit {0}) × Db
delete_consents_by_client id now db =
    (ok tt, record db { consents = delete (λ (r : ConsentRow). r.client_id == id) db.consents })

unfoldable pub delete_refresh_tokens_by_client : String → Time → Db → Result Err (Unit {0}) × Db
delete_refresh_tokens_by_client id now db = (
  ok tt,
  record db {
    refresh_tokens = delete (λ (r : RefreshTokenRow). r.client_id == id) db.refresh_tokens;
  },
)

unfoldable pub delete_auth_codes_by_client : String → Time → Db → Result Err (Unit {0}) × Db
delete_auth_codes_by_client id now db = (
  ok tt,
  record db { auth_codes = delete (λ (r : AuthCodeRow). r.client_id == id) db.auth_codes },
)

-- DELETE FROM clients WHERE id = $1, and whether a row was deleted
unfoldable pub delete_client_row : String → Time → Db → Result Err Bool × Db
delete_client_row id now db = (
  ok (has_key client_key id db.clients),
  record db { clients = delete (λ (r : ClientRow). r.id == id) db.clients },
)

-- DELETE FROM … WHERE user_id = $1, in three tables
unfoldable pub delete_consents_by_user : String → Time → Db → Result Err (Unit {0}) × Db
delete_consents_by_user id now db =
    (ok tt, record db { consents = delete (λ (r : ConsentRow). r.user_id == id) db.consents })

unfoldable pub delete_refresh_tokens_by_user : String → Time → Db → Result Err (Unit {0}) × Db
delete_refresh_tokens_by_user id now db = (
  ok tt,
  record db {
    refresh_tokens = delete (λ (r : RefreshTokenRow). r.user_id == id) db.refresh_tokens;
  },
)

unfoldable pub delete_auth_codes_by_user : String → Time → Db → Result Err (Unit {0}) × Db
delete_auth_codes_by_user id now db =
    (ok tt, record db { auth_codes = delete (λ (r : AuthCodeRow). r.user_id == id) db.auth_codes })

unfoldable pub delete_user_row : String → Time → Db → Result Err Bool × Db
delete_user_row id now db = (
  ok (has_key user_key id db.users),
  record db { users = delete (λ (r : UserRow). r.id == id) db.users },
)

unfoldable pub delete_client : String → Action Err Db (Unit {0})
delete_client id = transaction database λ now. do
  statement database (delete_consents_by_client id)
  statement database (delete_refresh_tokens_by_client id)
  statement database (delete_auth_codes_by_client id)
  found ← statement database (delete_client_row id)
  fail_if (not found) (client ClientError.not_found)

unfoldable pub delete_user : String → Action Err Db (Unit {0})
delete_user id = transaction database λ now. do
  statement database (delete_consents_by_user id)
  statement database (delete_refresh_tokens_by_user id)
  statement database (delete_auth_codes_by_user id)
  found ← statement database (delete_user_row id)
  fail_if (not found) (user UserError.not_found)

unfoldable pub get_user : String → Action Err Db User
get_user id = find_user id

unfoldable pub get_client : Platform → String → Action Err Db Client
get_client p id = find_client p id

unfoldable pub is_not_found : Err → Bool
is_not_found (user UserError.not_found) = true
is_not_found (client ClientError.not_found) = true
is_not_found _ = false
