-- ===== src/Migrator/Server.antt =====
-- The Postgres instance that the migrator talks to (app/migrator/infra/postgres/db.go): the answers to the
-- calls of a run, by number, and the calls themselves, which a run leaves as its state.
use cc_orchestrator.Prelude.{
  ℕ, suc, String, Bool, Option, none, some, List, [], ◌∷◌, ◌++◌, Result, ok, err, if◌then◌else◌,
}
use cc_orchestrator.Action.{Action}

-- The fields of a `pgconn.PgError` that the migrator reads.
pub record PgError : Type 0 where
  pub code : String
  pub message : String
  pub constraint_name : String
  pub table_name : String

-- The error of a statement: one that Postgres reports, or another.
pub data DbError : Type 0 where
  pg : PgError → DbError
  other : DbError

pub data MigratorError : Type 0 where
  database : DbError → MigratorError
  -- a failed connection, a failed goose run, ctx.Err()
  open_failed run_failed cancelled : MigratorError
  empty_password : MigratorError
  -- the nil error of a loop that made no turn
  no_attempt : MigratorError

pub record Config : Type 0 where
  pub host : String
  pub port : String
  pub user : String
  pub password : String
  pub ssl_mode : String
  pub maintenance_name : String

pub record Server : Type 0 where
  -- whether `Open` on a database of the instance succeeds
  pub connects : ℕ → Config → String → Bool
  -- SELECT 1 FROM … WHERE … = $1, with a row or without
  pub has_row : ℕ → String → String → Result DbError Bool
  -- ExecContext on a connection to a database; `none` is success
  pub exec : ℕ → String → String → Option DbError

pub data Call : Type 0 where
  connect : String → Call
  query : String → String → Call
  execute : String → String → Call
  close_database : String → Call

abbrev pub Calls : Type 0
Calls = List Call

-- What follows `defer db.Close()`: however it ends, the connection is closed after it; an error of
-- `Close` is only logged.
unfoldable pub deferring_close :
    {A : Type 0} → String → Action MigratorError Calls A → Action MigratorError Calls A
deferring_close name m env w =
    let o = m env w in
    (o.0, record { step = o.1.step; store = o.1.store ++ (close_database name ∷ []) })

module _ (server : Server) where
  unfoldable pub open_database : Config → String → Action MigratorError Calls (Unit {0})
  open_database cfg name env w = (
    if server.connects w.step cfg name then ok tt else err open_failed,
    record { step = suc w.step; store = w.store ++ (connect name ∷ []) },
  )

  unfoldable pub query_row : String → String → Action MigratorError Calls Bool
  query_row sql argument env w = (
    elim (server.has_row w.step sql argument) [ ok found ↦ ok found | err e ↦ err (database e) ],
    record { step = suc w.step; store = w.store ++ (query sql argument ∷ []) },
  )

  unfoldable pub exec_context : String → String → Action MigratorError Calls (Unit {0})
  exec_context db statement env w = (
    elim (server.exec w.step db statement) [ none ↦ ok tt | some e ↦ err (database e) ],
    record { step = suc w.step; store = w.store ++ (execute db statement ∷ []) },
  )
