-- ===== src/Auth/Directory.antt =====
-- The client, user and consent repositories:
-- app/auth/infra/postgres/{client_repository,user_repository,consent_repository}.go.
pub mod Reads
use cc_orchestrator.Prelude.{
  String, Bool, true, false, ◌&&◌, Option, none, some, List, [], ◌∷◌, ◌++◌, Result, ok, err,
  and_then, ◌==◌, if◌then◌else◌,
}
use cc_orchestrator.Action.{Time, Action, raise, lift, statement, ◌>>=◌}
use cc_orchestrator.Auth.Errors.{Err, client, user, database, ClientError, UserError}
use cc_orchestrator.Auth.Platform.{Platform}
use cc_orchestrator.Auth.Client
use cc_orchestrator.Auth.Client.{Client, parse_client_id, new_redirect_uri}
use cc_orchestrator.Auth.User
use cc_orchestrator.Auth.User.{User, parse_user_id, new_username, new_profile}
use cc_orchestrator.Auth.Db.{ClientRow, UserRow, ConsentRow, Db}
use cc_orchestrator.Auth.Db.Table.{select}

-- The loop that decodes `redirect_uris`.
unfoldable pub new_redirect_uris : Platform → List String → Result Err (List String)
new_redirect_uris p [] = ok []
new_redirect_uris p (s ∷ rest) =
    and_then (new_redirect_uri p s)
      λ uri. and_then (new_redirect_uris p rest) λ uris. ok (uri ∷ uris)

unfoldable pub row_to_client : Platform → ClientRow → Result Err Client
row_to_client p row = and_then (parse_client_id row.id) λ id.
    and_then (new_redirect_uris p row.redirect_uris) λ uris. ok (
      Client.reconstruct id uris row.allowed_scopes row.response_types row.grant_types
        row.client_secret_hash)

unfoldable pub row_to_user : UserRow → Result Err User
row_to_user row = and_then (parse_user_id row.id) λ id.
    and_then (new_username row.username) λ username.
      and_then (new_profile row.profile_name row.profile_email)
        λ profile. ok (User.reconstruct id username row.password_hash profile)

-- SELECT … FROM clients WHERE id = $1, and the like
unfoldable pub get_client_by_id : String → Time → Db → Result Err (Option ClientRow) × Db
get_client_by_id id now db = (ok (select (λ r. r.id == id) db.clients), db)

unfoldable pub get_user_by_id : String → Time → Db → Result Err (Option UserRow) × Db
get_user_by_id id now db = (ok (select (λ r. r.id == id) db.users), db)

unfoldable pub get_user_by_username : String → Time → Db → Result Err (Option UserRow) × Db
get_user_by_username username now db = (ok (select (λ r. r.username == username) db.users), db)

unfoldable pub found_client : Platform → Option ClientRow → Action Err Db Client
found_client p none = raise (client ClientError.not_found)
found_client p (some row) = lift (row_to_client p row)

unfoldable pub find_client : Platform → String → Action Err Db Client
find_client p id = do row ← statement database (get_client_by_id id); found_client p row

unfoldable pub found_user : Option UserRow → Action Err Db User
found_user none = raise (user UserError.not_found)
found_user (some row) = lift (row_to_user row)

unfoldable pub find_user : String → Action Err Db User
find_user id = do row ← statement database (get_user_by_id id); found_user row

unfoldable pub find_user_by_username : String → Action Err Db User
find_user_by_username username = do
  row ← statement database (get_user_by_username username)
  found_user row

abbrev pub is_consent : String → String → String → ConsentRow → Bool
is_consent user_id client_id scope r =
    r.user_id == user_id && (r.client_id == client_id && r.scope == scope)

abbrev is_some : Option ConsentRow → Bool
is_some none = false
is_some (some _) = true

-- SELECT EXISTS (…)
unfoldable pub consent_exists : String → String → String → Db → Bool
consent_exists user_id client_id scope db =
    is_some (select (is_consent user_id client_id scope) db.consents)

unfoldable pub has_grant : String → String → String → Action Err Db Bool
has_grant user_id client_id scope =
    statement database (λ now db. (ok (consent_exists user_id client_id scope db), db))

-- INSERT … ON CONFLICT (user_id, client_id, scope) DO UPDATE SET granted_at = now()
unfoldable pub upsert_consent : String → String → String → Time → Db → Result Err (Unit {0}) × Db
upsert_consent user_id client_id scope now db =
    if consent_exists user_id client_id scope db then (ok tt, db) else (
      ok tt,
      record db {
        consents =
            db.consents ++ record { user_id = user_id; client_id = client_id; scope = scope } ∷ [];
      },
    )

unfoldable pub save_grant : String → String → String → Action Err Db (Unit {0})
save_grant user_id client_id scope = statement database (upsert_consent user_id client_id scope)
