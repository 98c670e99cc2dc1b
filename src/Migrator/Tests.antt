-- ===== src/Migrator/Tests.antt =====
-- The theorems about the migrator at a small instance of Postgres.
use cc_orchestrator.Prelude.{
  ℕ, ◌<◌, String, ◌≡◌, ◌↔◌, refl, true, false, Option, none, some, List, [], ok, ltb, ◌==◌,
  if◌then◌else◌,
}
use cc_orchestrator.Action.{Env, World, pure, lift, map_error, fail_if, on_error, ◌>>=◌}
use cc_orchestrator.Migrator.Values.{
  AppRole, parse_target, parse_command, parse_database_name, parse_app_role, validate_identifier,
  matches_identifier, is_up,
}
use cc_orchestrator.Migrator.Values.Laws.{IsIdentifier}
use cc_orchestrator.Migrator.Quoting.{quote_literal}
use cc_orchestrator.Migrator.Quoting.Laws.{read_constant, read_constant-quote_literal}
use cc_orchestrator.Migrator.Server
use cc_orchestrator.Migrator.Server.{
  DbError, MigratorError, Call, no_attempt, Config, Server, open_database, deferring_close,
  query_row, exec_context,
}
use cc_orchestrator.Migrator.Databases.{
  ensure_database, database_exists, ensure_exists, is_duplicate_database,
}
use cc_orchestrator.Migrator.Roles.{
  sync_password, ensure_app_role, ensure_role, create_role, role_exists, restrict_database_connect,
  grant_least_privilege, exec_all, least_privilege_statements,
}
use cc_orchestrator.Migrator.Roles.Laws.{SucceedsAfter, sync_password_iff}
use cc_orchestrator.Migrator.Roles.Laws.Calls.{provisioning, ensure_app_role-calls}
use cc_orchestrator.Migrator.Roles.Laws.Creation.{IsCreation}
use cc_orchestrator.Migrator.Config.{MigratorEnv, RoleRequest, validate, app_role, db_config}
use cc_orchestrator.Migrator.Service.{Provider, migrate, run, run_migrations}
use cc_orchestrator.Migrator.Service.Laws.{connection, dir_or_default, run-ok}
use cc_orchestrator.Migrator.Config.Laws.{IsRequested}

abbrev calm : Env
calm = record { clock = λ i. 0; entropy = λ i n. none; outage = λ i. false }

abbrev race : DbError
race = DbError.pg (record {
  code = "XX000";
  message = "tuple concurrently updated";
  constraint_name = "";
  table_name = "";
})

-- Nothing is there before the second call, the first statement that is answered.
abbrev fresh : Server
fresh = record {
  connects = λ n cfg name. true;
  has_row = λ n sql argument. ok (ltb 1 n);
  exec = λ n db statement. if ltb 0 n then none else some race;
}

-- The first attempt is raced, the second succeeds.
abbrev busy : Server
busy = record fresh { exec = λ n db statement. if ltb n 1 then some race else none }

abbrev begin : World Server.Calls
begin = record { step = 0; store = [] }

read_constant-quote_literal_example :
    read_constant false (quote_literal "it's \\o/") ≡ some "it's \\o/"
read_constant-quote_literal_example = read_constant-quote_literal false "it's \\o/"

sync_password_iff_example :
    ((sync_password busy "postgres" "ALTER" 5 no_attempt calm begin).0 ≡ ok tt)
    ↔ ((k : ℕ) × (k < 5) × SucceedsAfter busy "postgres" "ALTER" calm k 0)
sync_password_iff_example = sync_password_iff busy "postgres" "ALTER" calm 5 no_attempt begin

abbrev cfg : Config
cfg = record {
  host = "db";
  port = "5432";
  user = "master";
  password = "m";
  ssl_mode = "require";
  maintenance_name = "postgres";
}

abbrev role : AppRole
role = record { name = "api_app"; database = "api" }

abbrev after_ensure : World Server.Calls
after_ensure = (ensure_database fresh "postgres" "api" calm begin).1

race_is_new : is_duplicate_database (Server.database race) ≡ false
unfolding is_duplicate_database
race_is_new = refl

abbrev after_role : World Server.Calls
after_role = (ensure_app_role fresh cfg role "it's" calm begin).1

provisioned : ensure_app_role fresh cfg role "it's" calm begin ≡ (ok tt, after_role)
unfolding ensure_app_role ensure_role create_role role_exists sync_password
    restrict_database_connect grant_least_privilege least_privilege_statements exec_all
    open_database deferring_close query_row exec_context on_error fail_if pure ◌>>=◌
provisioned = refl

ensure_app_role-calls_example :
    (cs : List Call) × (k : ℕ) × IsCreation fresh calm 1 "postgres" role cs
    × (k < 5)
    × (after_role.store ≡ provisioning cfg role "it's" k cs)
ensure_app_role-calls_example =
    ensure_app_role-calls fresh calm cfg role "it's" begin after_role provisioned

abbrev env : MigratorEnv
env = record {
  db_host = "db";
  db_port = "5432";
  db_user = "master";
  db_password = "m";
  db_ssl_mode = "require";
  db_name = "";
  db_maintenance_name = "postgres";
  migrator_timeout = 0;
  app_db_user = "api_app";
  app_db_password = "it's";
}

-- Migrations that go well.
abbrev provider : Provider
provider = λ cmd dir. pure tt

abbrev after_run : World Server.Calls
after_run = (run fresh provider "api" "up" "" env calm begin).1

ran : run fresh provider "api" "up" "" env calm begin ≡ (ok tt, after_run)
unfolding run migrate run_migrations parse_target parse_command validate app_role db_config
    parse_database_name parse_app_role validate_identifier matches_identifier ensure_exists
    ensure_database database_exists is_up map_error lift ensure_app_role ensure_role create_role
    role_exists sync_password restrict_database_connect grant_least_privilege
    least_privilege_statements exec_all open_database deferring_close query_row exec_context
    on_error fail_if pure ◌>>=◌
ran = refl

run-ok_example :
    (db_name : String) × (r : Option RoleRequest) × (db_name ≡ (if "" == "" then "api" else ""))
    × IsIdentifier db_name
    × IsRequested env db_name r
    × ((migrate fresh provider
          (connection env)
          db_name
          "up"
          (dir_or_default "" "api")
          r
          calm
          begin).0
        ≡ ok tt)
run-ok_example = run-ok fresh provider "api" "up" "" env calm begin after_run ran
