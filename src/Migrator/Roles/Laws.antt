-- ===== src/Migrator/Roles/Laws.antt =====
-- The retries of the password, and the calls of a provisioning that succeeds.
pub mod Calls
pub mod Creation
use cc_orchestrator.Prelude.{
  ℕ, zero, suc, ◌+◌, ◌≤◌, ◌<◌, String, ◌≡◌, ◌↔◌, refl, ap, ◌∙◌, Bool, true, false, Option, none,
  some, Result, ok, err, List, [], ◌∷◌, ◌++◌, arith, if◌then◌else◌, Bool-cases, Option-cases, inl,
  inr, eq_iff,
}
use cc_orchestrator.Action.{Env, World, raise, on_error, check_context, ◌>>=◌}
use cc_orchestrator.GoText.{contains_text}
use cc_orchestrator.Migrator.Server
use cc_orchestrator.Migrator.Server.{
  PgError, DbError, pg, MigratorError, database, cancelled, execute, Server, exec_context,
}
use cc_orchestrator.Migrator.Roles.{is_concurrent_catalog_update, sync_password}

concurrent_error :
    (e : DbError)
    → is_concurrent_catalog_update (database e) ≡ true
    → (x : PgError) × (e ≡ pg x)
      × (x.code ≡ "XX000")
      × (contains_text x.message "tuple concurrently updated" ≡ true)
unfolding is_concurrent_catalog_update
concurrent_error (pg x) h = (x, refl, ground (arith, eq_iff x.code "XX000"), ground arith)
concurrent_error DbError.other h = absurd (ground arith)

concurrent_error_is :
    (x : PgError)
    → x.code ≡ "XX000"
    → contains_text x.message "tuple concurrently updated" ≡ true
    → is_concurrent_catalog_update (database (pg x)) ≡ true
unfolding is_concurrent_catalog_update
concurrent_error_is x code text = let same = eq_iff x.code "XX000" in ground arith

module _ (server : Server) (db statement : String) (env : Env) where
  -- The n-th call of the statement meets a concurrent update of the catalog, an internal error of
  -- Postgres with that message, and the wait that follows is not cancelled.
  abbrev pub Raced : ℕ → Type 0
  Raced n =
      (e : PgError) × (server.exec n db statement ≡ some (pg e))
      × (e.code ≡ "XX000")
      × (contains_text e.message "tuple concurrently updated" ≡ true)
      × (env.outage (suc n) ≡ false)

  -- From the n-th call on, k attempts are raced and the next one succeeds.
  abbrev pub SucceedsAfter : ℕ → ℕ → Type 0
  SucceedsAfter zero n = server.exec n db statement ≡ none
  SucceedsAfter (suc k) n = Raced n × SucceedsAfter k (suc (suc n))

  -- The state after a raced attempt.
  abbrev waited : World Server.Calls → World Server.Calls
  waited w = record { step = suc (suc w.step); store = w.store ++ (execute db statement ∷ []) }

  sync_password-raced :
      (turns : ℕ) (last : MigratorError) (w : World Server.Calls) (e : DbError)
      → server.exec w.step db statement ≡ some e
      → is_concurrent_catalog_update (database e) ≡ true
      → env.outage (suc w.step) ≡ false
      → sync_password server db statement (suc turns) last env w
        ≡ sync_password server db statement turns (database e) env (waited w)
  unfolding sync_password exec_context on_error check_context ◌>>=◌
  sync_password-raced turns last w e failed raced live = rw (failed, raced, live)

  -- The password is set exactly when, after fewer races than there are turns, an attempt succeeds.
  sync_password-ok :
      (turns : ℕ) (last : MigratorError) (w w' : World Server.Calls)
      → sync_password server db statement turns last env w ≡ (ok tt, w')
      → (k : ℕ) × (k < turns) × SucceedsAfter k w.step
  unfolding sync_password exec_context on_error check_context ◌>>=◌ raise
  sync_password-ok zero last w w' h = cc
  sync_password-ok (suc turns) last w w' h = elim (Option-cases (server.exec w.step db statement)) [
    | inl done ↦ (zero, omega arith, done)
    | inr (e, failed) ↦ elim (Bool-cases (is_concurrent_catalog_update (database e))) [
      | inr worse ↦ absurd (ground arith)
      | inl raced ↦ elim (Bool-cases (env.outage (suc w.step))) [
        | inl stopped ↦ absurd (ground arith)
        | inr live ↦
            let (k, less, later) =
              sync_password-ok turns (database e) (waited w) w' (ground arith) in
            let (x, same, code, text) = concurrent_error e raced in
            (suc k, omega arith, ((x, failed ∙ ap some same, code, text, live), later))
      ]
    ]
  ]

  sync_password-succeeds :
      (k turns : ℕ) (last : MigratorError) (w : World Server.Calls)
      → k < turns
      → SucceedsAfter k w.step
      → (sync_password server db statement turns last env w).0 ≡ ok tt
  unfolding sync_password exec_context on_error
  sync_password-succeeds k zero last w less s = absurd (omega arith)
  sync_password-succeeds zero (suc turns) last w less s = rw s
  sync_password-succeeds (suc k) (suc turns) last w less ((x, failed, code, text, live), later) =
      let raced = concurrent_error_is x code text in
      rw (sync_password-raced turns last w (pg x) failed raced live)
        (sync_password-succeeds k turns (database (pg x)) (waited w) (omega arith) later)

-- Setting the password succeeds exactly when one of the attempts does, every attempt before it met a
-- concurrent update of the catalog (SQLSTATE XX000 with the message "tuple concurrently updated"), and
-- no wait in between was cancelled.
pub sync_password_iff :
    (server : Server) (db statement : String) (env : Env) (turns : ℕ) (last : MigratorError)
    (w : World Server.Calls)
    → ((sync_password server db statement turns last env w).0 ≡ ok tt)
      ↔ ((k : ℕ) × (k < turns) × SucceedsAfter server db statement env k w.step)
sync_password_iff server db statement env turns last w =
    let run = sync_password server db statement turns last env w in
    (
      λ h. sync_password-ok server db statement env turns last w run.1 (ap (λ r. (r, run.1)) h),
      λ (k, less, s). sync_password-succeeds server db statement env k turns last w less s,
    )
