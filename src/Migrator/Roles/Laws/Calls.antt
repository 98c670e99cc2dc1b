-- ===== src/Migrator/Roles/Laws/Calls.antt =====
-- The calls of a provisioning that succeeds, in their order.
use Prim.Native.String.{◌++◌ as ◌<>◌}
use mathlib.Core.Path.{subst}
use cc_orchestrator.Prelude.{
  ℕ, zero, suc, ◌<◌, String, ◌≡◌, refl, sym, ap, ◌∙◌, ok, List, [], ◌∷◌, ◌++◌, map, arith, ◌==◌,
  Bool-cases, Option-cases, inl, inr,
}
use cc_orchestrator.Action.{
  Action, Env, World, pure, raise, fail_if, on_error, check_context, ◌>>=◌,
}
use cc_orchestrator.Action.Keeps.{>>=-eq-ok}
use cc_orchestrator.Migrator.Values.{AppRole}
use cc_orchestrator.Migrator.Quoting.{quote_identifier, quote_literal}
use cc_orchestrator.Migrator.Server
use cc_orchestrator.Migrator.Server.{
  PgError, DbError, pg, deferring_close, close_database, MigratorError, database, Call, connect,
  query, execute, Config, Server, open_database, query_row, exec_context,
}
use cc_orchestrator.Migrator.Roles.Laws.Creation.{
  append_assoc, quoted, IsCreation, create_role-calls,
}
use cc_orchestrator.Migrator.Roles.{
  is_concurrent_catalog_update, create_role, sync_password, alter_role, revoke_connect,
  grant_connect, exec_all, ensure_role, restrict_database_connect, least_privilege_statements,
  grant_least_privilege, ensure_app_role, empty_password, no_attempt,
}

append_nil : (xs : List Call) → xs ++ [] ≡ xs
append_nil [] = refl
append_nil (x ∷ xs) = ap (λ l. x ∷ l) (append_nil xs)

-- Calls appended in turn.
appended :
    (s0 s1 s2 s3 s4 s5 s7 s8 s9 a b c f : List Call) (d e x y : Call)
    → s1 ≡ s0 ++ a
    → s2 ≡ s1 ++ b
    → s3 ≡ s2 ++ c
    → s4 ≡ s3 ++ (d ∷ [])
    → s5 ≡ s4 ++ (e ∷ [])
    → s7 ≡ s5 ++ f
    → s8 ≡ s7 ++ (x ∷ [])
    → s9 ≡ s8 ++ (y ∷ [])
    → s9 ≡ s0 ++ (a ++ (b ++ (c ++ (d ∷ e ∷ (f ++ (x ∷ y ∷ []))))))
appended s0 s1 s2 s3 s4 s5 s7 s8 s9 a b c f d e x y h1 h2 h3 h4 h5 h7 h8 h9 =
    rw (h9, h8, h7, h5, h4, h3, h2, h1) (simp append_assoc)

module _ {A : Type 0} (name : String) (m : Action MigratorError Server.Calls A) (env : Env)
    (w w' : World Server.Calls) where
  deferring_close-ok :
      {a : A}
      → deferring_close name m env w ≡ (ok a, w')
      → (v : World Server.Calls) × (m env w ≡ (ok a, v))
        × (w'.store ≡ v.store ++ (close_database name ∷ []))
  unfolding deferring_close
  deferring_close-ok {a} h =
      let same = ap (λ o. o.0) h in
      ((m env w).1, ap (λ r. (r, (m env w).1)) same, ap (λ o. o.1.store) (sym h))

-- The calls of the attempts to set the password, one and k more.
abbrev pub attempts : ℕ → Call → List Call
attempts zero c = c ∷ []
attempts (suc k) c = c ∷ attempts k c

-- The privileges of the role on its own database.
abbrev pub granted : AppRole → List String
granted role =
    ("GRANT USAGE ON SCHEMA public TO " <> quoted role.name)
    ∷ ("GRANT SELECT, INSERT, UPDATE, DELETE ON ALL TABLES IN SCHEMA public TO "
        <> quoted role.name)
    ∷ ("GRANT USAGE, SELECT ON ALL SEQUENCES IN SCHEMA public TO " <> quoted role.name)
    ∷ ("ALTER DEFAULT PRIVILEGES IN SCHEMA public GRANT SELECT, INSERT, UPDATE, DELETE ON TABLES TO "
        <> quoted role.name)
    ∷ ("ALTER DEFAULT PRIVILEGES IN SCHEMA public GRANT USAGE, SELECT ON SEQUENCES TO "
        <> quoted role.name)
    ∷ []

-- The calls of a provisioning whose role took the calls `cs`, and whose password took k more attempts
-- than one.
abbrev pub provisioning : Config → AppRole → String → ℕ → List Call → List Call
provisioning cfg role password k cs =
    let m = cfg.maintenance_name in
    let alter =
      "ALTER ROLE " <> (quoted role.name <> (" WITH PASSWORD " <> quote_literal password)) in
    let revoke = "REVOKE CONNECT ON DATABASE " <> (quoted role.database <> " FROM PUBLIC") in
    let grant =
      "GRANT CONNECT ON DATABASE " <> (quoted role.database <> (" TO " <> quoted role.name)) in
    (connect m ∷ [])
    ++ (cs
        ++ (attempts k (execute m alter)
            ++ (execute m revoke
                ∷ execute m grant
                ∷ ((connect role.database ∷ map (execute role.database) (granted role))
                    ++ (close_database role.database ∷ close_database m ∷ [])))))

module _ (server : Server) (env : Env) where
  exec_all-calls :
      (db : String) (statements : List String) (w w' : World Server.Calls)
      → exec_all server db statements env w ≡ (ok tt, w')
      → w'.store ≡ w.store ++ map (execute db) statements
  unfolding exec_all exec_context pure ◌>>=◌
  exec_all-calls db [] w w' h = rw append_nil (ground arith)
  exec_all-calls db (s ∷ rest) w w' h = elim (Option-cases (server.exec w.step db s)) [
    | inr (e, failed) ↦ absurd (ground arith)
    | inl done ↦
        exec_all-calls db rest
          (record { step = suc w.step; store = w.store ++ (execute db s ∷ []) }) w' (ground arith)
        ∙ append_assoc w.store (execute db s ∷ []) (map (execute db) rest)
  ]

  sync_password-calls :
      (db statement : String) (turns : ℕ) (last : MigratorError) (w w' : World Server.Calls)
      → sync_password server db statement turns last env w ≡ (ok tt, w')
      → (k : ℕ) × (k < turns) × (w'.store ≡ w.store ++ attempts k (execute db statement))
  unfolding sync_password exec_context on_error check_context ◌>>=◌ raise
  sync_password-calls db statement zero last w w' h = cc
  sync_password-calls db statement (suc turns) last w w' h =
      elim (Option-cases (server.exec w.step db statement)) [
        | inl done ↦ (zero, omega arith, ground arith)
        | inr (e, failed) ↦ elim (Bool-cases (is_concurrent_catalog_update (database e))) [
          | inr worse ↦ absurd (ground arith)
          | inl raced ↦ elim (Bool-cases (env.outage (suc w.step))) [
            | inl stopped ↦ absurd (ground arith)
            | inr live ↦
                let next : World Server.Calls = record {
                  step = suc (suc w.step);
                  store = w.store ++ (execute db statement ∷ []);
                } in
                let (k, less, later) =
                  sync_password-calls db statement turns (database e) next w' (ground arith) in
                (
                  suc k,
                  omega arith,
                  later
                      ∙ append_assoc w.store (execute db statement ∷ [])
                          (attempts k (execute db statement)),
                )
          ]
        ]
      ]

  -- A provisioning that succeeds makes these calls and no other, in this order: on the maintenance
  -- database, the role is created if the check does not find it, its password is set in 1 to 5 attempts,
  -- and CONNECT is revoked from PUBLIC and granted to the role; then, on the role's own database, exactly
  -- the five grants of least privilege are executed; and at the end both connections are closed.
  pub ensure_app_role-calls :
      (cfg : Config) (role : AppRole) (password : String) (w w' : World Server.Calls)
      → ensure_app_role server cfg role password env w ≡ (ok tt, w')
      → (cs : List Call) × (k : ℕ) × IsCreation server env (suc w.step) cfg.maintenance_name role cs
        × (k < 5)
        × (w'.store ≡ w.store ++ provisioning cfg role password k cs)
  unfolding ensure_app_role ensure_role restrict_database_connect grant_least_privilege fail_if
      open_database exec_context least_privilege_statements quote_identifier
  ensure_app_role-calls cfg role password w w' h =
      let m = cfg.maintenance_name in
      let (x0, w0, e0, h0) = >>=-eq-ok (fail_if (password == "") empty_password) _ env w h in
      let (x1, w1, e1, h1) = >>=-eq-ok (open_database server cfg m) _ env w0 h0 in
      let (w8, h8, c9) = deferring_close-ok m _ env w1 w' h1 in
      let (x2, w2, e2, h2) = >>=-eq-ok (ensure_role server m role password) _ env w1 h8 in
      let (x3, w3, e3, h3) = >>=-eq-ok (create_role server m role) _ env w1 e2 in
      let (x4, w4, e4, h4) = >>=-eq-ok (restrict_database_connect server m role) _ env w2 h2 in
      let (x5, w5, e5, h5) = >>=-eq-ok (exec_context server m (revoke_connect role)) _ env w2 e4 in
      let (x6, w6, e6, h6) = >>=-eq-ok (open_database server cfg role.database) _ env w4 h4 in
      let (w7, h7, c8) = deferring_close-ok role.database _ env w6 w8 h6 in
      let (cs, creation, c3) = create_role-calls server env m role w1 w3 e3 in
      let (k, less, c2) = sync_password-calls m (alter_role role password) 5 no_attempt w3 w2 h3 in
      let c7 = exec_all-calls role.database (least_privilege_statements role) w6 w7 h7 in
      let c1 : w1.store ≡ w.store ++ (connect m ∷ []) = ground arith in
      let first : w1.step ≡ suc w.step = ground arith in
      let c5 : w5.store ≡ w2.store ++ (execute m (revoke_connect role) ∷ []) = ground arith in
      let c4 : w4.store ≡ w5.store ++ (execute m (grant_connect role) ∷ []) = ground arith in
      let c6 : w6.store ≡ w4.store ++ (connect role.database ∷ []) = ground arith in
      let c67 =
        c7
        ∙ (ap (λ l. l ++ map (execute role.database) (least_privilege_statements role)) c6
            ∙ append_assoc w4.store (connect role.database ∷ []) _) in
      (
        cs,
        k,
        subst (λ n. IsCreation server env n m role cs) first creation,
        less,
        appended _ _ _ _ _ _ _ _ _ _ _ _ _ _ _ _ _ c1 c3 c2 c5 c4 c67 c8 c9,
      )
