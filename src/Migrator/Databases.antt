-- ===== src/Migrator/Databases.antt =====
-- app/migrator/infra/postgres/database.go
pub mod Laws
use Prim.Native.String.{◌++◌}
use cc_orchestrator.Prelude.{String, Bool, true, false, ◌||◌, Result, ok, err, ◌==◌, if◌then◌else◌}
use cc_orchestrator.Action.{Action, pure, raise, attempt, on_error, ◌>>=◌, ◌>>◌}
use cc_orchestrator.Migrator.Quoting.{quote_identifier}
use cc_orchestrator.Migrator.Server.{
  PgError, DbError, pg, MigratorError, database, Config, Server, Calls, open_database,
  deferring_close, query_row, exec_context,
}

abbrev pub pg_duplicate_database : String
pg_duplicate_database = "42P04"

abbrev pub pg_unique_violation : String
pg_unique_violation = "23505"

abbrev pub is_duplicate_database_code : PgError → Bool
is_duplicate_database_code e =
    if e.code == pg_duplicate_database
    then true
    else if e.code == pg_unique_violation
    then e.constraint_name == "pg_database_datname_index" || e.table_name == "pg_database"
    else false

unfoldable pub is_duplicate_database : MigratorError → Bool
is_duplicate_database (database (pg e)) = is_duplicate_database_code e
is_duplicate_database _ = false

-- A check without error that found a row.
abbrev pub found : {E : Type 0} → Result E Bool → Bool
found (ok b) = b
found (err e) = false

module _ (server : Server) where
  unfoldable pub database_exists : String → Action MigratorError Calls Bool
  database_exists name = query_row server "SELECT 1 FROM pg_database WHERE datname = $1" name

  -- After a failed CREATE DATABASE.
  unfoldable pub created_meanwhile : String → MigratorError → Action MigratorError Calls (Unit {0})
  created_meanwhile name e =
      if is_duplicate_database e
      then pure tt
      else (attempt (database_exists name) >>= λ again. if found again then pure tt else raise e)

  unfoldable pub ensure_database : String → String → Action MigratorError Calls (Unit {0})
  ensure_database db name = do
    exists ← database_exists name
    if exists
        then pure tt
        else on_error (exec_context server db ("CREATE DATABASE " ++ quote_identifier name))
            (created_meanwhile name)

  unfoldable pub ensure_exists : Config → String → Action MigratorError Calls (Unit {0})
  ensure_exists cfg name = do
    open_database server cfg cfg.maintenance_name
    deferring_close cfg.maintenance_name (ensure_database cfg.maintenance_name name)
