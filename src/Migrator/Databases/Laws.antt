-- ===== src/Migrator/Databases/Laws.antt =====
-- Creating the database, alone or beside other migrators that create it too.
use Prim.Native.String.{◌++◌}
use cc_orchestrator.Prelude.{
  ℕ, suc, String, ◌≡◌, Bool, true, false, none, some, ok, arith, Bool-cases, Option-cases,
  Result-cases, inl, inr,
}
use cc_orchestrator.Action.{Env, World, pure, raise, attempt, on_error, ◌>>=◌}
use cc_orchestrator.Migrator.Quoting.{quote_identifier}
use cc_orchestrator.Migrator.Server.{DbError, database, Server, Calls, query_row, exec_context}
use cc_orchestrator.Migrator.Databases.{
  is_duplicate_database, database_exists, created_meanwhile, ensure_database,
}

abbrev select_database : String
select_database = "SELECT 1 FROM pg_database WHERE datname = $1"

abbrev pub create_database : String → String
create_database name = "CREATE DATABASE " ++ quote_identifier name

-- What the answers of Postgres mean, where `present` tells at which calls the database exists: a check
-- tells the truth, a CREATE that succeeds or that reports a duplicate leaves the database there, and
-- nobody drops it.
pub record Reports (server : Server) (db name : String) (present : ℕ → Bool) : Type 0 where
  pub checked : (n : ℕ) (b : Bool) → server.has_row n select_database name ≡ ok b → present n ≡ b
  pub created : (n : ℕ) → server.exec n db (create_database name) ≡ none → present (suc n) ≡ true
  pub duplicate :
      (n : ℕ) (e : DbError)
      → server.exec n db (create_database name) ≡ some e
      → is_duplicate_database (database e) ≡ true
      → present (suc n) ≡ true
  pub stays : (n : ℕ) → present n ≡ true → present (suc n) ≡ true

-- `EnsureExists` returns nil only if the database then exists, by whoever created it.
ensure_database-present :
    (server : Server) (db name : String) (present : ℕ → Bool) (env : Env) (w w' : World Calls)
    → Reports server db name present
    → ensure_database server db name env w ≡ (ok tt, w')
    → present w'.step ≡ true
unfolding ensure_database created_meanwhile database_exists query_row exec_context pure raise
    attempt on_error ◌>>=◌
ensure_database-present server db name present env w w' r h =
    elim (Result-cases (server.has_row w.step select_database name)) [
      | inr (x, c) ↦ absurd (ground arith)
      | inl (true, c) ↦
          let now = r.stays w.step (r.checked w.step true c) in
          let steps : w'.step ≡ suc w.step = ground arith in rw (steps, now)
      | inl (false, c) ↦ elim (Option-cases (server.exec (suc w.step) db (create_database name))) [
        | inl done ↦
            let now = r.created (suc w.step) done in
            let steps : w'.step ≡ suc (suc w.step) = ground arith in rw (steps, now)
        | inr (e, failed) ↦ elim (Bool-cases (is_duplicate_database (database e))) [
          | inl twice ↦
              let now = r.duplicate (suc w.step) e failed twice in
              let steps : w'.step ≡ suc (suc w.step) = ground arith in rw (steps, now)
          | inr unknown ↦
              elim (Result-cases (server.has_row (suc (suc w.step)) select_database name)) [
                | inl (true, again) ↦
                    let now =
                      r.stays (suc (suc w.step)) (r.checked (suc (suc w.step)) true again) in
                    let steps : w'.step ≡ suc (suc (suc w.step)) = ground arith in rw (steps, now)
                | inl (false, again) ↦ absurd (ground arith)
                | inr (x, again) ↦ absurd (ground arith)
              ]
        ]
      ]
    ]

-- Another migrator may create the database between the check and the statement: whatever error the
-- statement then has, the run succeeds if the second check finds the database.
ensure_database-race :
    (server : Server) (db name : String) (b : Bool) (env : Env) (w : World Calls)
    → server.has_row w.step select_database name ≡ ok b
    → server.has_row (suc (suc w.step)) select_database name ≡ ok true
    → (ensure_database server db name env w).0 ≡ ok tt
unfolding ensure_database created_meanwhile database_exists query_row exec_context pure raise
    attempt on_error ◌>>=◌
ensure_database-race server db name true env w h k = rw h
ensure_database-race server db name false env w h k =
    elim (Option-cases (server.exec (suc w.step) db (create_database name))) [
      | inl done ↦ rw (h, done)
      | inr (e, failed) ↦ elim (Bool-cases (is_duplicate_database (database e))) [
        | inl twice ↦ rw (h, failed, twice)
        | inr unknown ↦ rw (h, failed, unknown, k)
      ]
    ]
