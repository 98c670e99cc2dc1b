-- ===== src/Migrator/Roles.antt =====
-- app/migrator/infra/postgres/role.go
pub mod Laws
use Prim.Native.String.{◌++◌}
use cc_orchestrator.Prelude.{
  ℕ, zero, suc, String, Bool, true, false, not, ◌&&◌, List, [], ◌∷◌, ◌==◌, if◌then◌else◌,
}
use cc_orchestrator.GoText.{contains_text}
use cc_orchestrator.Action.{
  Action, pure, raise, attempt, on_error, fail_if, check_context, ◌>>=◌, ◌>>◌,
}
use cc_orchestrator.Migrator.Values.{AppRole}
use cc_orchestrator.Migrator.Quoting.{quote_identifier, quote_literal}
use cc_orchestrator.Migrator.Server.{
  PgError, DbError, pg, MigratorError, database, cancelled, empty_password, no_attempt, Config,
  Server, Calls, open_database, deferring_close, query_row, exec_context,
}
use cc_orchestrator.Migrator.Databases.{found}

abbrev pub pg_duplicate_object : String
pg_duplicate_object = "42710"

abbrev pub pg_internal_error : String
pg_internal_error = "XX000"

abbrev pub max_password_sync_attempts : ℕ
max_password_sync_attempts = 5

unfoldable pub is_duplicate_role : MigratorError → Bool
is_duplicate_role (database (pg e)) = e.code == pg_duplicate_object
is_duplicate_role _ = false

unfoldable pub is_concurrent_catalog_update : MigratorError → Bool
is_concurrent_catalog_update (database (pg e)) =
    e.code == pg_internal_error && contains_text e.message "tuple concurrently updated"
is_concurrent_catalog_update _ = false

abbrev pub create_role_statement : AppRole → String
create_role_statement role = "CREATE ROLE " ++ (quote_identifier role.name ++ " LOGIN")

abbrev pub revoke_connect : AppRole → String
revoke_connect role =
    "REVOKE CONNECT ON DATABASE " ++ (quote_identifier role.database ++ " FROM PUBLIC")

abbrev pub grant_connect : AppRole → String
grant_connect role =
    "GRANT CONNECT ON DATABASE "
    ++ (quote_identifier role.database ++ (" TO " ++ quote_identifier role.name))

abbrev pub alter_role : AppRole → String → String
alter_role role password =
    "ALTER ROLE " ++ (quote_identifier role.name ++ (" WITH PASSWORD " ++ quote_literal password))

unfoldable pub least_privilege_statements : AppRole → List String
least_privilege_statements role =
    ("GRANT USAGE ON SCHEMA public TO " ++ quote_identifier role.name)
    ∷ ("GRANT SELECT, INSERT, UPDATE, DELETE ON ALL TABLES IN SCHEMA public TO "
        ++ quote_identifier role.name)
    ∷ ("GRANT USAGE, SELECT ON ALL SEQUENCES IN SCHEMA public TO " ++ quote_identifier role.name)
    ∷ ("ALTER DEFAULT PRIVILEGES IN SCHEMA public GRANT SELECT, INSERT, UPDATE, DELETE ON TABLES TO "
        ++ quote_identifier role.name)
    ∷ ("ALTER DEFAULT PRIVILEGES IN SCHEMA public GRANT USAGE, SELECT ON SEQUENCES TO "
        ++ quote_identifier role.name)
    ∷ []

module _ (server : Server) where
  unfoldable pub role_exists : String → Action MigratorError Calls Bool
  role_exists name = query_row server "SELECT 1 FROM pg_roles WHERE rolname = $1" name

  -- After a failed CREATE ROLE.
  unfoldable pub role_created_meanwhile :
      String → MigratorError → Action MigratorError Calls (Unit {0})
  role_created_meanwhile name e =
      if is_duplicate_role e
      then pure tt
      else (attempt (role_exists name) >>= λ again. if found again then pure tt else raise e)

  unfoldable pub create_role : String → AppRole → Action MigratorError Calls (Unit {0})
  create_role db role = do
    exists ← role_exists role.name
    if exists
        then pure tt
        else on_error (exec_context server db (create_role_statement role))
            (role_created_meanwhile role.name)

  -- The loop that sets the password: the turns left, and the error of the last turn. The wait between
  -- two turns ends early when the context is cancelled.
  unfoldable pub sync_password :
      String → String → ℕ → MigratorError → Action MigratorError Calls (Unit {0})
  sync_password db statement zero sync_err = raise sync_err
  sync_password db statement (suc turns) sync_err = on_error (exec_context server db statement) λ e.
      if is_concurrent_catalog_update e
      then check_context cancelled >> sync_password db statement turns e
      else raise e

  unfoldable pub ensure_role : String → AppRole → String → Action MigratorError Calls (Unit {0})
  ensure_role db role password = do
    create_role db role
    sync_password db (alter_role role password) max_password_sync_attempts no_attempt

  unfoldable pub restrict_database_connect :
      String → AppRole → Action MigratorError Calls (Unit {0})
  restrict_database_connect db role = do
    exec_context server db (revoke_connect role)
    exec_context server db (grant_connect role)

  -- The loop of `grantLeastPrivilege`.
  unfoldable pub exec_all : String → List String → Action MigratorError Calls (Unit {0})
  exec_all db [] = pure tt
  exec_all db (statement ∷ rest) = exec_context server db statement >> exec_all db rest

  unfoldable pub grant_least_privilege : String → AppRole → Action MigratorError Calls (Unit {0})
  grant_least_privilege db role = exec_all db (least_privilege_statements role)

  unfoldable pub ensure_app_role : Config → AppRole → String → Action MigratorError Calls (Unit {0})
  ensure_app_role cfg role password = do
    fail_if (password == "") empty_password
    open_database server cfg cfg.maintenance_name
    deferring_close cfg.maintenance_name (do
      ensure_role cfg.maintenance_name role password
      restrict_database_connect cfg.maintenance_name role
      open_database server cfg role.database
      deferring_close role.database (grant_least_privilege role.database role))
