-- ===== src/Startup/Laws.antt =====
-- Which environments are accepted, and that no pool of connections is lost.
use cc_orchestrator.Prelude.{
  String, Bool, true, false, not, ◌&&◌, ◌≡◌, ◌≢◌, ◌⊎◌, ◌↔◌, inl, inr, refl, Result, ok, err,
  and_then-eq-ok, ◌==◌, eq_iff, arith, if◌then◌else◌,
}
use cc_orchestrator.Startup.{StartupError, partial_auth_config, validate, missing}
use cc_orchestrator.Startup.Settings.{
  new_api_env, validate_api_env, auth_enabled, writer_config, reader_config, or_default,
}

-- The settings that a configuration can not do without.
abbrev pub IsComplete : (String → String) → Type 0
IsComplete getenv =
    (getenv "DB_HOST" ≢ "")
    × (getenv "DB_NAME" ≢ "")
    × (getenv "DB_USER" ≢ "")
    × (getenv "DB_PASSWORD" ≢ "")

abbrev pub HasWholeAuth : (String → String) → Type 0
HasWholeAuth getenv =
    ((getenv "AUTH_ISSUER" ≢ "") × (getenv "AUTH_JWKS_URL" ≢ "") × (getenv "AUTH_AUDIENCE" ≢ ""))
    ⊎ ((getenv "AUTH_ISSUER" ≡ "") × (getenv "AUTH_JWKS_URL" ≡ "") × (getenv "AUTH_AUDIENCE" ≡ ""))

or_default-ne : (v d : String) → d ≢ "" → or_default v d ≢ ""
unfolding or_default
or_default-ne v d h e = ground (arith, eq_iff v "", h)

-- The test of the three settings of the authorization, by their emptiness.
whole_or_none :
    (a b c : Bool)
    → ◌≡◌ {A = Result StartupError (Unit {0})}
        (if not (not a && (not b && not c)) && not (a && (b && c))
          then err partial_auth_config
          else ok tt)
        (ok tt)
      ↔ ((a ≡ false) × (b ≡ false) × (c ≡ false)) ⊎ ((a ≡ true) × (b ≡ true) × (c ≡ true))
whole_or_none true true true = (λ h. inr (refl, refl, refl), λ h. refl)
whole_or_none false false false = (λ h. inl (refl, refl, refl), λ h. refl)
whole_or_none a b c = (λ h. ground arith, λ h. ground arith)

module _ (getenv : String → String) where
  validate_complete :
      (host name user password : String) (port ssl_mode : String)
      → validate (record {
        host = host;
        port = port;
        name = name;
        user = user;
        password = password;
        ssl_mode = ssl_mode;
      })
          ≡ ok tt
        ↔ ((host ≢ "") × (name ≢ "") × (user ≢ "") × (password ≢ ""))
  unfolding validate missing
  validate_complete host name user password port ssl_mode = (
    λ h. (
      ground (arith, eq_iff host ""),
      ground (arith, eq_iff name ""),
      ground (arith, eq_iff user ""),
      ground (arith, eq_iff password ""),
    ),
    λ h. ground (arith, eq_iff host "", eq_iff name "", eq_iff user "", eq_iff password ""),
  )

  auth_parts :
      (((getenv "AUTH_ISSUER" == "") ≡ false)
          × ((getenv "AUTH_JWKS_URL" == "") ≡ false)
          × ((getenv "AUTH_AUDIENCE" == "") ≡ false))
        ⊎ (((getenv "AUTH_ISSUER" == "") ≡ true)
            × ((getenv "AUTH_JWKS_URL" == "") ≡ true)
            × ((getenv "AUTH_AUDIENCE" == "") ≡ true))
      → HasWholeAuth getenv
  auth_parts (inl (a, b, c)) = inl (
    ground (arith, eq_iff (getenv "AUTH_ISSUER") ""),
    ground (arith, eq_iff (getenv "AUTH_JWKS_URL") ""),
    ground (arith, eq_iff (getenv "AUTH_AUDIENCE") ""),
  )
  auth_parts (inr (a, b, c)) = inr ((eq_iff _ "").0 a, (eq_iff _ "").0 b, (eq_iff _ "").0 c)

  auth_tests :
      HasWholeAuth getenv
      → (((getenv "AUTH_ISSUER" == "") ≡ false)
          × ((getenv "AUTH_JWKS_URL" == "") ≡ false)
          × ((getenv "AUTH_AUDIENCE" == "") ≡ false))
        ⊎ (((getenv "AUTH_ISSUER" == "") ≡ true)
            × ((getenv "AUTH_JWKS_URL" == "") ≡ true)
            × ((getenv "AUTH_AUDIENCE" == "") ≡ true))
  auth_tests (inl (a, b, c)) = inl (
    ground (arith, eq_iff (getenv "AUTH_ISSUER") ""),
    ground (arith, eq_iff (getenv "AUTH_JWKS_URL") ""),
    ground (arith, eq_iff (getenv "AUTH_AUDIENCE") ""),
  )
  auth_tests (inr (a, b, c)) = inr ((eq_iff _ "").1 a, (eq_iff _ "").1 b, (eq_iff _ "").1 c)

  -- The API accepts its environment exactly when the four settings of the database are given, and the
  -- three settings of the authorization all or none; what the reader's settings are does not matter.
  pub validate_api_env_iff :
      validate_api_env (new_api_env getenv) ≡ ok tt ↔ (IsComplete getenv × HasWholeAuth getenv)
  unfolding validate_api_env new_api_env auth_enabled writer_config reader_config
  validate_api_env_iff = (
    λ h.
        let (x, e1, h1) = and_then-eq-ok (validate (writer_config getenv)) _ h in
        let (y, e2, h2) = and_then-eq-ok (validate (reader_config getenv)) _ h1 in
        ((validate_complete _ _ _ _ _ _).0 e1, auth_parts ((whole_or_none _ _ _).0 h2)),
    λ (complete, auth).
        let (host, name, user, password) = complete in
        let e1 : validate (writer_config getenv) ≡ ok tt =
          (validate_complete _ _ _ _ _ _).1 complete in
        let e2 : validate (reader_config getenv) ≡ ok tt = (validate_complete _ _ _ _ _ _).1 (
          or_default-ne _ _ host,
          or_default-ne _ _ name,
          or_default-ne _ _ user,
          or_default-ne _ _ password,
        ) in
        rw (e1, e2) ((whole_or_none _ _ _).1 (auth_tests auth)),
  )
