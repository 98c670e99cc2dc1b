-- ===== src/Migrator/Service/Laws.antt =====
-- The order of the steps of a migration, and what a run establishes before it calls the server.
use Prim.Native.String.{◌++◌}
use cc_orchestrator.Prelude.{
  String, ◌≡◌, ◌≢◌, ◌⊎◌, refl, sym, ap, ◌∙◌, Option, none, some, Result, ok, err, arith, ◌==◌,
  eq_iff, if◌then◌else◌, Bool-cases, Result-cases, inl, inr,
}
use cc_orchestrator.Action.{Action, Env, World, pure, lift, map_error, ◌>>=◌}
use cc_orchestrator.Action.Keeps.{>>=-eq-ok}
use cc_orchestrator.Migrator.Values.{is_up, parse_target, parse_command, default_migrations_dir}
use cc_orchestrator.Migrator.Values.Laws.{IsIdentifier}
use cc_orchestrator.Migrator.Server.{MigratorError, Config, Server, Calls}
use cc_orchestrator.Migrator.Databases.{ensure_exists}
use cc_orchestrator.Migrator.Roles.{ensure_app_role}
use cc_orchestrator.Migrator.Config.{MigratorEnv, RoleRequest, validate, app_role, db_config}
use cc_orchestrator.Migrator.Config.Laws.{IsRequested, app_role-IsRequested, validate-ok}
use cc_orchestrator.Migrator.Service.{
  Provider, RunError, failed, flag, config, run_migrations, provision, migrate, run,
}

parse_target-ok : (target t : String) → parse_target target ≡ ok t → t ≡ target
unfolding parse_target
parse_target-ok target t h = ground arith

parse_command-ok : (command c : String) → parse_command command ≡ ok c → c ≡ command
unfolding parse_command
parse_command-ok command c h = ground arith

module _ {E F S A : Type 0} (f : E → F) (m : Action E S A) (env : Env) (w w' : World S) where
  map_error-err : (x : F) → map_error f m env w ≡ (err x, w') → (e : E) × (x ≡ f e)
  unfolding map_error
  map_error-err x h = go (m env w).0 (ap (λ o. o.0) h)
    where
      go :
          (r : Result E A)
          → (elim r [ ok a ↦ ok a | err e ↦ err (f e) ]) ≡ err x
          → (e : E) × (x ≡ f e)
      go (ok a) k = cc
      go (err e) k = (e, cc)

  map_error-ok : (a : A) → map_error f m env w ≡ (ok a, w') → (m env w).0 ≡ ok a
  unfolding map_error
  map_error-ok a h = go (m env w).0 (ap (λ o. o.0) h)
    where
      go : (r : Result E A) → (elim r [ ok a ↦ ok a | err e ↦ err (f e) ]) ≡ ok a → r ≡ ok a
      go (ok b) k = cc
      go (err e) k = cc

-- The connection that the environment describes.
abbrev pub connection : MigratorEnv → Config
connection e = record {
  host = e.db_host;
  port = e.db_port;
  user = e.db_user;
  password = e.db_password;
  ssl_mode = e.db_ssl_mode;
  maintenance_name = e.db_maintenance_name;
}

connection_lem : (e : MigratorEnv) → db_config e ≡ connection e
unfolding db_config
connection_lem e = refl

-- The directory that is given, or the one of the target under /migrations.
abbrev pub dir_or_default : String → String → String
dir_or_default dir target = if dir == "" then "/migrations/" ++ target else dir

module _ (server : Server) (provider : Provider) where
  -- A role is provisioned only by the command up, and only if one is requested.
  provision-cases :
      (cfg : Config) (cmd : String) (role : Option RoleRequest) (env : Env) (w w' : World Calls)
      → provision server provider cfg cmd role env w ≡ (ok tt, w')
      → (((role ≡ none) ⊎ (cmd ≢ "up")) × (w' ≡ w))
        ⊎ ((r : RoleRequest) × (role ≡ some r)
            × (cmd ≡ "up")
            × (ensure_app_role server cfg r.role r.password env w ≡ (ok tt, w')))
  unfolding is_up pure
  provision-cases cfg cmd none env w w' h = inl (inl refl, ground arith)
  provision-cases cfg cmd (some r) env w w' h = elim (Bool-cases (cmd == "up")) [
    | inl up ↦ inr (r, refl, (eq_iff cmd "up").0 up, ground arith)
    | inr other ↦ inl (inr (ground (arith, eq_iff cmd "up")), ground arith)
  ]

  -- A migration that succeeds first made sure of the database, then ran the migrations, and only then,
  -- for the command up with a role requested, provisioned that role; otherwise it did nothing more.
  migrate-ok :
      (cfg : Config) (name cmd dir : String) (role : Option RoleRequest) (env : Env)
      (w w' : World Calls)
      → migrate server provider cfg name cmd dir role env w ≡ (ok tt, w')
      → (v1 : World Calls) × (v2 : World Calls) × (ensure_exists server cfg name env w
          ≡ (ok tt, v1))
        × (run_migrations server provider cfg name cmd dir env v1 ≡ (ok tt, v2))
        × ((((role ≡ none) ⊎ (cmd ≢ "up")) × (w' ≡ v2))
            ⊎ ((r : RoleRequest) × (role ≡ some r)
                × (cmd ≡ "up")
                × (ensure_app_role server cfg r.role r.password env v2 ≡ (ok tt, w'))))
  unfolding migrate
  migrate-ok cfg name cmd dir role env w w' h =
      let (x1, v1, e1, h1) = >>=-eq-ok (ensure_exists server cfg name) _ env w h in
      let (x2, v2, e2, h2) =
        >>=-eq-ok (run_migrations server provider cfg name cmd dir) _ env v1 h1 in
      (v1, v2, e1, e2, provision-cases cfg cmd role env v2 w' h2)

  -- After migrations that fail, nothing more is called, and their error is returned.
  migrate_failed :
      (cfg : Config) (name cmd dir : String) (role : Option RoleRequest) (env : Env)
      (w v1 v2 : World Calls) (e : MigratorError)
      → ensure_exists server cfg name env w ≡ (ok tt, v1)
      → run_migrations server provider cfg name cmd dir env v1 ≡ (err e, v2)
      → migrate server provider cfg name cmd dir role env w ≡ (err e, v2)
  unfolding migrate ◌>>=◌
  migrate_failed cfg name cmd dir role env w v1 v2 e h k = rw (h, k)

  -- What a run that reaches the migration was given.
  record IsAccepted (target command dir : String) (e : MigratorEnv) (env : Env) (w : World Calls)
      : Type 0 where
    t : String
    c : String
    cfg : Config
    db_name : String
    role : Option RoleRequest
    known_target : parse_target target ≡ ok t
    known_command : parse_command command ≡ ok c
    validated : validate e t ≡ ok (cfg, db_name)
    requested : app_role e db_name ≡ ok role
    runs :
        run server provider target command dir e env w
        ≡ map_error failed (migrate server provider cfg db_name c (dir_or_default dir t) role) env w

  -- A run is refused before any call, or reaches the migration.
  run-cases :
      (target command dir : String) (e : MigratorEnv) (env : Env) (w : World Calls)
      → ((x : RunError) × (run server provider target command dir e env w ≡ (err x, w)))
        ⊎ IsAccepted target command dir e env w
  unfolding run lift ◌>>=◌ default_migrations_dir
  run-cases target command dir e env w = elim (Result-cases (parse_target target)) [
    | inr (x, bad) ↦ inl (flag x, rw bad)
    | inl (t, e1) ↦ elim (Result-cases (parse_command command)) [
      | inr (x, bad) ↦ inl (flag x, rw (e1, bad))
      | inl (c, e2) ↦ elim (Result-cases (validate e t)) [
        | inr (x, bad) ↦ inl (config x, rw (e1, e2, bad))
        | inl ((cfg, db), e3) ↦ elim (Result-cases (app_role e db)) [
          | inr (x, bad) ↦ inl (config x, rw (e1, e2, e3, bad))
          | inl (role, e4) ↦ inr (record {
            t = t;
            c = c;
            cfg = cfg;
            db_name = db;
            role = role;
            known_target = e1;
            known_command = e2;
            validated = e3;
            requested = e4;
            runs = rw (e1, e2, e3, e4);
          })
        ]
      ]
    ]
  ]

  -- A run that ends with an error of its flags or its environment called nothing.
  run_refused :
      (target command dir : String) (e : MigratorEnv) (env : Env) (w w' : World Calls)
      (x : RunError)
      → run server provider target command dir e env w ≡ (err x, w')
      → (w' ≡ w) ⊎ ((m : MigratorError) × (x ≡ failed m))
  run_refused target command dir e env w w' x h = elim (run-cases target command dir e env w) [
    | inl (y, refused) ↦ inl (ap (λ o. o.1) (sym h ∙ refused))
    | inr a ↦ inr (map_error-err failed _ env w w' x (sym a.runs ∙ h))
  ]

  -- A run that succeeds carried out the command, with the connection of the environment, on the database
  -- DB_NAME, or the target where that is empty, which has a safe name, from the given directory or the
  -- target's own; the role of this migration is the requested one: none where APP_DB_USER and
  -- APP_DB_PASSWORD are empty, else theirs, with a safe name that is not the migrator's own user, for
  -- that database.
  pub run-ok :
      (target command dir : String) (e : MigratorEnv) (env : Env) (w w' : World Calls)
      → run server provider target command dir e env w ≡ (ok tt, w')
      → (db_name : String) × (role : Option RoleRequest) × (db_name
          ≡ (if e.db_name == "" then target else e.db_name))
        × IsIdentifier db_name
        × IsRequested e db_name role
        × ((migrate server provider
              (connection e)
              db_name
              command
              (dir_or_default dir target)
              role
              env
              w).0
            ≡ ok tt)
  run-ok target command dir e env w w' h = elim (run-cases target command dir e env w) [
    | inl (y, refused) ↦ absurd (ground arith)
    | inr a ↦
        let (same, given, valid, named) = validate-ok e a.t a.db_name a.cfg a.validated in
        let t_is = parse_target-ok target a.t a.known_target in
        let c_is = parse_command-ok command a.c a.known_command in
        let done = map_error-ok failed _ env w w' tt (sym a.runs ∙ h) in
        (
          a.db_name,
          a.role,
          rw (sym t_is) named,
          valid,
          app_role-IsRequested e a.db_name a.role a.requested,
          rw (sym t_is, sym c_is, sym (connection_lem e), sym same) done,
        )
  ]
