-- ===== src/Migrator/Roles/Laws/Creation.antt =====
-- The calls with which the role is created, or found.
use Prim.Native.String.{◌++◌ as ◌<>◌}
use cc_orchestrator.Prelude.{
  ℕ, suc, String, ◌≡◌, ◌⊎◌, refl, ap, ◌∙◌, eq_iff, none, some, true, false, ok, List, [], ◌∷◌, ◌++◌,
  arith, Bool-cases, Option-cases, Result-cases, inl, inr,
}
use cc_orchestrator.Action.{Env, World, pure, raise, attempt, on_error, ◌>>=◌}
use cc_orchestrator.Migrator.Values.{AppRole}
use cc_orchestrator.Migrator.Quoting.{double, double_quote, quote_identifier}
use cc_orchestrator.Migrator.Server
use cc_orchestrator.Migrator.Server.{
  PgError, DbError, pg, deferring_close, close_database, MigratorError, database, Call, connect,
  query, execute, Config, Server, open_database, query_row, exec_context,
}
use cc_orchestrator.Migrator.Roles.{
  is_duplicate_role, role_exists, role_created_meanwhile, create_role,
}

pub append_assoc : (xs ys zs : List Call) → (xs ++ ys) ++ zs ≡ xs ++ (ys ++ zs)
append_assoc [] ys zs = refl
append_assoc (x ∷ xs) ys zs = ap (λ l. x ∷ l) (append_assoc xs ys zs)

-- A name between double quotes, with those inside it doubled.
abbrev pub quoted : String → String
quoted name = "\"" <> (double double_quote name <> "\"")

module _ (server : Server) (env : Env) where
  abbrev pub creation : AppRole → String
  creation role = "CREATE ROLE " <> (quoted role.name <> " LOGIN")

  -- The calls that see to the role, from the n-th on: only the check, if it finds the role; else its
  -- creation too, which succeeds or reports a duplicate, or else a second check, which finds the role.
  abbrev pub IsCreation : ℕ → String → AppRole → List Call → Type 0
  IsCreation n db role cs =
      let sql : String = "SELECT 1 FROM pg_roles WHERE rolname = $1" in
      let check = query sql role.name in
      let create = execute db (creation role) in
      ((server.has_row n sql role.name ≡ ok true) × (cs ≡ check ∷ []))
      ⊎ ((server.has_row n sql role.name ≡ ok false)
          × (((server.exec (suc n) db (creation role) ≡ none) × (cs ≡ check ∷ create ∷ []))
              ⊎ ((e : PgError) × (server.exec (suc n) db (creation role) ≡ some (pg e))
                  × (e.code ≡ "42710")
                  × (cs ≡ check ∷ create ∷ []))
              ⊎ ((e : DbError) × (server.exec (suc n) db (creation role) ≡ some e)
                  × (server.has_row (suc (suc n)) sql role.name ≡ ok true)
                  × (cs ≡ check ∷ create ∷ check ∷ []))))

  duplicate_error :
      (e : DbError)
      → is_duplicate_role (database e) ≡ true
      → (x : PgError) × (e ≡ pg x) × (x.code ≡ "42710")
  unfolding is_duplicate_role
  duplicate_error (pg x) h = (x, refl, ground (arith, eq_iff x.code "42710"))
  duplicate_error DbError.other h = absurd (ground arith)

  pub create_role-calls :
      (db : String) (role : AppRole) (w w' : World Server.Calls)
      → create_role server db role env w ≡ (ok tt, w')
      → (cs : List Call) × IsCreation w.step db role cs × (w'.store ≡ w.store ++ cs)
  unfolding create_role role_created_meanwhile role_exists query_row exec_context pure raise attempt
      on_error ◌>>=◌ quote_identifier
  create_role-calls db role w w' h =
      let create = execute db (creation role) in
      let sql : String = "SELECT 1 FROM pg_roles WHERE rolname = $1" in
      let check = query sql role.name in
      let step2 = append_assoc w.store (check ∷ []) (create ∷ []) in
      let step3 = append_assoc w.store (check ∷ create ∷ []) (check ∷ []) in
      elim (Result-cases (server.has_row w.step sql role.name)) [
        | inr (x, c) ↦ absurd (ground arith)
        | inl (true, c) ↦ (check ∷ [], inl (c, refl), ground arith)
        | inl (false, c) ↦ elim (Option-cases (server.exec (suc w.step) db (creation role))) [
          | inl done ↦ (check ∷ create ∷ [], inr (c, inl (done, refl)), ground arith)
          | inr (e, failed) ↦ elim (Bool-cases (is_duplicate_role (database e))) [
            | inl twice ↦
                let (x, same, code) = duplicate_error e twice in
                (
                  check ∷ create ∷ [],
                  inr (c, inr (inl (x, failed ∙ ap some same, code, refl))),
                  ground arith,
                )
            | inr unknown ↦ elim (Result-cases (server.has_row (suc (suc w.step)) sql role.name)) [
              | inl (true, again) ↦ (
                check ∷ create ∷ check ∷ [],
                inr (c, inr (inr (e, failed, again, refl))),
                ground arith,
              )
              | inl (false, again) ↦ absurd (ground arith)
              | inr (x, again) ↦ absurd (ground arith)
            ]
          ]
        ]
      ]
