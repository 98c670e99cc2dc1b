-- ===== src/Auth/AuthCodes/Laws.antt =====
-- What a successful lookup, verification and consumption of an authorization code establish.
use mathlib.Core.Path.{subst}
use cc_orchestrator.Prelude.{
  ◌≤◌, String, ◌≡◌, ap, ◌∙◌, true, false, not, Option, none, some, List, ok, arith, ◌==◌, eq_iff,
  Option-cases, inl, inr, sym,
}
use cc_orchestrator.Action.{Time, Env, World, statement, time_now, fail_if, ◌>>=◌}
use cc_orchestrator.Auth.Platform.{Platform}
use cc_orchestrator.Auth.AuthCode.{AuthorizationCode, is_expired, verify}
use cc_orchestrator.Auth.AuthCode.Challenge
use cc_orchestrator.Auth.AuthCode.Challenge.{
  s256, transform, compare_challenge, validate_code_verifier,
}
use cc_orchestrator.Auth.Db.{AuthCodeRow, Db}
use cc_orchestrator.Auth.Db.Table.{Unique, delete, Unique-keep}
use cc_orchestrator.Auth.Db.Table.View.{view, when, select-key, view-delete, key-view}
use cc_orchestrator.Auth.AuthCodes.Statements.{
  code_of, is_active, get_active_auth_code, consume_auth_code,
}
use cc_orchestrator.Auth.AuthCodes.{
  reconstruct_auth_code, found_or_evict, find_by_code, claimed, consume,
}

-- The row stored under a code.
abbrev pub code_row : Db → String → Option AuthCodeRow
code_row db code = view code_of db.auth_codes code

-- Codes are the table's primary key.
abbrev pub UniqueCodes : Db → Type 0
UniqueCodes db = Unique code_of db.auth_codes

get-view :
    (code : String) (now : Time) (db : Db)
    → UniqueCodes db
    → get_active_auth_code code now db ≡ (ok (when (is_active now) (code_row db code)), db)
unfolding get_active_auth_code
get-view code now db u = rw (select-key code_of (is_active now) code db.auth_codes u)

no_other_key :
    (code : String) (rows : List AuthCodeRow)
    → when (λ r. not (r.code == code)) (view code_of rows code) ≡ none
no_other_key code rows = elim (Option-cases (view code_of rows code)) [
  | inl e ↦ rw e
  | inr (r, e) ↦ rw (e, (eq_iff r.code code).1 (key-view code_of code rows e))
]

module _ (code : String) (env : Env) (w w' : World Db) (u : UniqueCodes w.store) where
  -- In a table with unique codes, a code that is found is the active row under it, and nothing was
  -- changed.
  pub find_by_code-ok :
      {ac : AuthorizationCode}
      → find_by_code code env w ≡ (ok ac, w')
      → (row : AuthCodeRow) × (code_row w.store code ≡ some row)
        × (is_active (env.clock w.step) row ≡ true)
        × (reconstruct_auth_code row ≡ ok ac)
        × (w'.store ≡ w.store)
  unfolding find_by_code found_or_evict statement ◌>>=◌
  find_by_code-ok h =
      let got = get-view code (env.clock w.step) w.store u in
      elim (Option-cases (when (is_active (env.clock w.step)) (code_row w.store code))) [
        | inl gone ↦ absurd (ground arith)
        | inr (row, e) ↦ (row, ground arith, ground arith, ground arith, ground arith)
      ]

  consume_store :
      consume code env w ≡ (ok tt, w')
      → w'.store ≡ record w.store { auth_codes = delete (λ r. r.code == code) w.store.auth_codes }
  unfolding consume claimed statement ◌>>=◌ time_now fail_if consume_auth_code
  consume_store h = ground arith

  -- In a table with unique codes, a code that is consumed has no row afterwards, codes are still unique,
  -- and no other table was changed.
  pub consume-ok :
      consume code env w ≡ (ok tt, w')
      → (code_row w'.store code ≡ none)
        × UniqueCodes w'.store
        × (w'.store ≡ record w.store { auth_codes = w'.store.auth_codes })
  consume-ok h =
      let e = consume_store h in
      let rows = ap (λ (d : Db). d.auth_codes) e in
      (
        ap (λ t. view code_of t code) rows
            ∙ (view-delete code_of (λ r. r.code == code) code w.store.auth_codes u
                ∙ no_other_key code w.store.auth_codes),
        subst (Unique code_of) (sym rows)
            (Unique-keep code_of (λ r. not (r.code == code)) w.store.auth_codes u),
        ground arith,
      )

-- A code that verifies is unconsumed, in time, and bound to the redirect_uri, the client and the
-- well-formed verifier; nothing is written.
pub verify-ok :
    (p : Platform) (ac : AuthorizationCode) (verifier uri client_id : String) (env : Env)
    (w w' : World Db)
    → verify p ac verifier uri client_id env w ≡ (ok tt, w')
    → (ac.consumed ≡ false)
      × (env.clock w.step ≤ ac.expires_at)
      × (ac.redirect_uri ≡ uri)
      × (ac.client_id ≡ client_id)
      × (validate_code_verifier verifier ≡ ok tt)
      × (transform p verifier ≡ ac.challenge.challenge)
      × (w'.store ≡ w.store)
unfolding verify is_expired ◌>>=◌ time_now fail_if Challenge.verify compare_challenge
verify-ok p ac verifier uri client_id env w w' h = (
  ground arith,
  ground arith,
  ground (arith, eq_iff ac.redirect_uri uri),
  ground (arith, eq_iff ac.client_id client_id),
  ground arith,
  ground (arith, eq_iff (transform p verifier) ac.challenge.challenge),
  ground arith,
)
