-- ===== src/Migrator/Config.antt =====
-- app/migrator/cmd/migrator/env.go
pub mod Laws
use cc_orchestrator.Prelude.{
  ℕ, ◌*◌, String, Bool, true, false, ◌&&◌, Option, none, some, List, [], ◌∷◌, ◌++◌, Result, ok, err,
  and_then, ◌==◌, if◌then◌else◌,
}
use cc_orchestrator.Migrator.Values.{MigrationError, AppRole, parse_database_name, parse_app_role}
use cc_orchestrator.Migrator.Server.{Config}

-- In nanoseconds, as every time.Duration: 5 minutes.
abbrev pub default_migration_timeout : ℕ
default_migration_timeout = 5 * 60 * 1_000_000_000

-- `Env`
pub record MigratorEnv : Type 0 where
  pub db_host : String
  pub db_port : String
  pub db_user : String
  pub db_password : String
  pub db_ssl_mode : String
  pub db_name : String
  pub db_maintenance_name : String
  pub migrator_timeout : ℕ
  pub app_db_user : String
  pub app_db_password : String

pub data ConfigError : Type 0 where
  missing_variables : List String → ConfigError
  invalid_name : MigrationError → ConfigError
  app_user_missing app_password_missing app_user_is_master : ConfigError

unfoldable pub or_default : String → String → String
or_default v default = if v == "" then default else v

-- time.ParseDuration, `none` for its error, is a parameter.
unfoldable pub migrator_timeout : (String → Option ℕ) → String → ℕ
migrator_timeout parse_duration raw =
    if raw == ""
    then default_migration_timeout
    else (elim (parse_duration raw) [ none ↦ default_migration_timeout | some d ↦ d ])

-- `NewEnv`, given os.Getenv.
unfoldable pub new_env : (String → Option ℕ) → (String → String) → MigratorEnv
new_env parse_duration getenv = record {
  db_host = getenv "DB_HOST";
  db_port = or_default (getenv "DB_PORT") "5432";
  db_user = getenv "DB_USER";
  db_password = getenv "DB_PASSWORD";
  db_ssl_mode = or_default (getenv "DB_SSLMODE") "require";
  db_name = getenv "DB_NAME";
  db_maintenance_name = or_default (getenv "DB_MAINTENANCE_NAME") "postgres";
  migrator_timeout = migrator_timeout parse_duration (getenv "MIGRATOR_TIMEOUT");
  app_db_user = getenv "APP_DB_USER";
  app_db_password = getenv "APP_DB_PASSWORD";
}

unfoldable pub db_config : MigratorEnv → Config
db_config e = record {
  host = e.db_host;
  port = e.db_port;
  user = e.db_user;
  password = e.db_password;
  ssl_mode = e.db_ssl_mode;
  maintenance_name = e.db_maintenance_name;
}

abbrev pub if_empty : String → String → List String
if_empty value name = if value == "" then name ∷ [] else []

abbrev pub missing : MigratorEnv → List String
missing e =
    if_empty e.db_host "DB_HOST"
    ++ (if_empty e.db_user "DB_USER" ++ if_empty e.db_password "DB_PASSWORD")

abbrev pub named_error : {A : Type 0} → Result MigrationError A → Result ConfigError A
named_error (ok a) = ok a
named_error (err e) = err (invalid_name e)

abbrev pub checked : List String → MigratorEnv → String → Result ConfigError (Config × String)
checked [] e target =
    and_then (named_error (parse_database_name (if e.db_name == "" then target else e.db_name)))
      λ db_name. ok (db_config e, db_name)
checked (name ∷ names) e target = err (missing_variables (name ∷ names))

unfoldable pub validate : MigratorEnv → String → Result ConfigError (Config × String)
unfolding db_config
validate e target = checked (missing e) e target

-- The role to provision and its password, if one is requested.
pub record RoleRequest : Type 0 where
  pub role : AppRole
  pub password : String

unfoldable pub app_role : MigratorEnv → String → Result ConfigError (Option RoleRequest)
app_role e db_name =
    if e.app_db_user == "" && e.app_db_password == ""
    then ok none
    else if e.app_db_user == ""
    then err app_user_missing
    else if e.app_db_password == ""
    then err app_password_missing
    else if e.app_db_user == e.db_user
    then err app_user_is_master
    else and_then (named_error (parse_app_role e.app_db_user db_name))
        λ role. ok (some (record { role = role; password = e.app_db_password }))
