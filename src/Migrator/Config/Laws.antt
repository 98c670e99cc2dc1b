-- ===== src/Migrator/Config/Laws.antt =====
-- Which environments are accepted.
use cc_orchestrator.Prelude.{
  String, ◌≡◌, ◌≢◌, refl, ◌∙◌, Option, none, some, List, [], ◌∷◌, ok, ◌==◌, eq_iff, arith,
  if◌then◌else◌, Result-cases, inl, inr,
}
use cc_orchestrator.Migrator.Values.{parse_database_name, parse_app_role, validate_identifier}
use cc_orchestrator.Migrator.Values.Laws.{
  IsIdentifier, parse_app_role-ok, validate_identifier-IsIdentifier,
}
use cc_orchestrator.Migrator.Server.{Config}
use cc_orchestrator.Migrator.Config.{
  MigratorEnv, RoleRequest, validate, app_role, db_config, checked, missing,
}

-- What is requested of a run: no role where neither APP_DB_USER nor APP_DB_PASSWORD is given; else the
-- role of these two, for the database that is migrated, with a safe name that is not the migrator's own
-- master user, whose password it would overwrite.
abbrev pub IsRequested : MigratorEnv → String → Option RoleRequest → Type 0
IsRequested e db_name none = (e.app_db_user ≡ "") × (e.app_db_password ≡ "")
IsRequested e db_name (some r) =
    (r.role.name ≡ e.app_db_user)
    × (r.password ≡ e.app_db_password)
    × (r.role.database ≡ db_name)
    × IsIdentifier e.app_db_user
    × (e.app_db_user ≢ e.db_user)
    × (e.app_db_password ≢ "")

pub app_role-IsRequested :
    (e : MigratorEnv) (db_name : String) (request : Option RoleRequest)
    → app_role e db_name ≡ ok request
    → IsRequested e db_name request
unfolding app_role
app_role-IsRequested e db_name none h = elim (Result-cases (parse_app_role e.app_db_user db_name)) [
  | inr (x, bad) ↦
      (ground (arith, eq_iff e.app_db_user ""), ground (arith, eq_iff e.app_db_password ""))
  | inl (role, parsed) ↦
      (ground (arith, eq_iff e.app_db_user ""), ground (arith, eq_iff e.app_db_password ""))
]
app_role-IsRequested e db_name (some r) h =
    elim (Result-cases (parse_app_role e.app_db_user db_name)) [
      | inr (x, bad) ↦ absurd (ground arith)
      | inl (role, parsed) ↦
          let (is, valid, quoted) = parse_app_role-ok e.app_db_user db_name role parsed in
          let made : r ≡ record { role = role; password = e.app_db_password } = ground arith in
          (
            cc,
            cc,
            cc,
            valid,
            ground (arith, eq_iff e.app_db_user e.db_user),
            ground (arith, eq_iff e.app_db_password ""),
          )
    ]

parse_database_name-ok :
    (raw db_name : String)
    → parse_database_name raw ≡ ok db_name
    → (db_name ≡ raw) × IsIdentifier raw
unfolding parse_database_name
parse_database_name-ok raw db_name h = elim (Result-cases (validate_identifier raw)) [
  | inr (x, bad) ↦ absurd (ground arith)
  | inl (x, valid) ↦ (ground arith, validate_identifier-IsIdentifier raw valid)
]

missing_none :
    (e : MigratorEnv) → missing e ≡ [] → (e.db_host ≢ "") × (e.db_user ≢ "") × (e.db_password ≢ "")
missing_none e h = (
  ground (arith, eq_iff e.db_host ""),
  ground (arith, eq_iff e.db_user ""),
  ground (arith, eq_iff e.db_password ""),
)

-- An accepted environment names a host, a user and a password, and the database to migrate, DB_NAME or
-- else the target, has a safe name.
pub validate-ok :
    (e : MigratorEnv) (target db_name : String) (cfg : Config)
    → validate e target ≡ ok (cfg, db_name)
    → (cfg ≡ db_config e)
      × ((e.db_host ≢ "") × (e.db_user ≢ "") × (e.db_password ≢ ""))
      × IsIdentifier db_name
      × (db_name ≡ (if e.db_name == "" then target else e.db_name))
unfolding validate
validate-ok e target db_name cfg h = go (missing e) refl h
  where
    go :
        (names : List String)
        → missing e ≡ names
        → checked names e target ≡ ok (cfg, db_name)
        → (cfg ≡ db_config e)
          × ((e.db_host ≢ "") × (e.db_user ≢ "") × (e.db_password ≢ ""))
          × IsIdentifier db_name
          × (db_name ≡ (if e.db_name == "" then target else e.db_name))
    go (x ∷ xs) m h = cc
    go [] m h =
        elim (Result-cases (parse_database_name (if e.db_name == "" then target else e.db_name))) [
          | inr (x, bad) ↦ absurd (ground arith)
          | inl (name, parsed) ↦
              let (same, valid) =
                parse_database_name-ok (if e.db_name == "" then target else e.db_name) name
                  parsed in
              let named : db_name ≡ name = ground arith in
              (ground arith, missing_none e m, rw (named, same) valid, named ∙ same)
        ]
