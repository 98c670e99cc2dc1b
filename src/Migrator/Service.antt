-- ===== src/Migrator/Service.antt =====
-- `Service.Migrate` of app/migrator/service/migrate.go, with the ports of app/migrator/infra, and `run` of
-- app/migrator/cmd/migrator/main.go. `provider` is what goose does with the migrations of a directory.
pub mod Laws
use cc_orchestrator.Prelude.{
  ℕ, String, Bool, true, false, not, Option, none, some, Result, ok, err, ◌==◌, if◌then◌else◌,
}
use cc_orchestrator.Action.{Action, pure, raise, map_error, lift, ◌>>=◌, ◌>>◌}
use cc_orchestrator.Migrator.Values.{
  MigrationError, parse_target, parse_command, default_migrations_dir, is_up,
}
use cc_orchestrator.Migrator.Server.{
  MigratorError, run_failed, Config, Server, Calls, open_database, deferring_close,
}
use cc_orchestrator.Migrator.Databases.{ensure_exists}
use cc_orchestrator.Migrator.Roles.{ensure_app_role}
use cc_orchestrator.Migrator.Config.{
  MigratorEnv, ConfigError, invalid_name, RoleRequest, validate, app_role, named_error,
}

abbrev pub Provider : Type 0
Provider = String → String → Action MigratorError Calls (Unit {0})

pub data RunError : Type 0 where
  flag : MigrationError → RunError
  config : ConfigError → RunError
  failed : MigratorError → RunError

abbrev pub flag_error : {A : Type 0} → Result MigrationError A → Result RunError A
flag_error (ok a) = ok a
flag_error (err e) = err (flag e)

abbrev pub config_error : {A : Type 0} → Result ConfigError A → Result RunError A
config_error (ok a) = ok a
config_error (err e) = err (config e)

module _ (server : Server) (provider : Provider) where
  -- `Runner.Run` of app/migrator/infra/goose/runner.go
  unfoldable pub run_migrations :
      Config → String → String → String → Action MigratorError Calls (Unit {0})
  run_migrations cfg db_name cmd dir = do
    open_database server cfg db_name
    deferring_close db_name (
        if cmd == "up"
        then provider cmd dir
        else if cmd == "down"
        then provider cmd dir
        else if cmd == "status"
        then provider cmd dir
        else raise run_failed)

  abbrev pub provision :
      Config → String → Option RoleRequest → Action MigratorError Calls (Unit {0})
  provision cfg cmd none = pure tt
  provision cfg cmd (some r) =
      if not (is_up cmd) then pure tt else ensure_app_role server cfg r.role r.password

  unfoldable pub migrate :
      Config → String → String → String → Option RoleRequest → Action MigratorError Calls (Unit {0})
  migrate cfg name cmd dir role = do
    ensure_exists server cfg name
    run_migrations cfg name cmd dir
    provision cfg cmd role

  -- `run`, given the values of the flags and the environment.
  unfoldable pub run : String → String → String → MigratorEnv → Action RunError Calls (Unit {0})
  run target_flag command_flag dir_flag e = do
    target ← lift (flag_error (parse_target target_flag))
    command ← lift (flag_error (parse_command command_flag))
    (cfg, db_name) ← lift (config_error (validate e target))
    role ← lift (config_error (app_role e db_name))
    map_error failed (
        migrate cfg db_name command
          (if dir_flag == "" then default_migrations_dir target else dir_flag) role)
