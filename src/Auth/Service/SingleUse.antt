-- ===== src/Auth/Service/SingleUse.antt =====
-- Single use of authorization codes over the life of the service.
use cc_orchestrator.Prelude.{
  String, ◌≡◌, ◌≢◌, refl, false, none, Result, ok, err, arith, eq_iff, ◌==◌, ◌&&◌, not, leb, is_ok,
  All, List, [], ◌∷◌, Bool, Option-cases, inl, inr,
}
use cc_orchestrator.Action.{Time, Env, World, lift, statement, ◌>>=◌}
use cc_orchestrator.Action.Keeps.{Keeps, if_Keeps, raise-Keeps, query-Keeps, >>=-eq-ok}
use cc_orchestrator.Auth.Errors.{Err}
use cc_orchestrator.Auth.Client.{Client}
use cc_orchestrator.Auth.AuthCode.{AuthorizationCode, parse_code}
use cc_orchestrator.Auth.Db.{Db, AuthCodeRow}
use cc_orchestrator.Auth.Db.Table.{
  has_key, has_key-keep, has_key-append, insert, insert-eq-some, select,
}
use cc_orchestrator.Auth.Db.Table.View.{has_key-none}
use cc_orchestrator.Auth.AuthCodes.Statements.{
  code_of, is_active, insert_auth_code, purge_expired_auth_codes, get_active_auth_code,
}
use cc_orchestrator.Auth.AuthCodes
use cc_orchestrator.Auth.AuthCodes.Laws.{UniqueCodes}
use cc_orchestrator.Auth.Platform.{Platform}
use cc_orchestrator.Auth.Service.Dto.{
  AuthorizationService, TokenRequest, grant_type_authorization_code, TokenResponse,
}
use cc_orchestrator.Auth.Service.CodeGrant.{authenticated_client, redeem, authorization_code_grant}
use cc_orchestrator.Auth.Service.CodeGrant.Frame.{Absent, authorization_code_grant-Keeps}
use cc_orchestrator.Auth.Service.CodeGrant.Authenticated.{authenticated_client-ok}
use cc_orchestrator.Auth.Service.CodeGrant.Laws.{authorization_code_grant-IsExchange}
use cc_orchestrator.Auth.Service.RefreshGrant.Frame.{refresh_token_grant-Keeps, revoke-Keeps}
use cc_orchestrator.Auth.Service.Revoke.{RevokeRequest, revoke}
use cc_orchestrator.Auth.Service.{token}

-- What else happens to the table of codes: requests to the token and revocation endpoints, purges
-- of expired codes, and codes that the authorization endpoint stores.
pub data Event : Type 0 where
  token_request : AuthorizationService → TokenRequest → Event
  revocation : Platform → RevokeRequest → Event
  purge : Event
  code_issued : AuthorizationCode → Event

-- Each event in surroundings of its own; its answer is left out.
unfoldable pub happens : Event → Env → World Db → World Db
happens (token_request s req) env w = (token s req env w).1
happens (revocation p req) env w = (revoke p req env w).1
happens purge env w = (AuthCodes.purge_expired env w).1
happens (code_issued ac) env w = (AuthCodes.save ac env w).1

unfoldable pub history : List (Event × Env) → World Db → World Db
history [] w = w
history ((e, env) ∷ es) w = history es (happens e env w)

-- No code is issued under this text.
abbrev pub IssuesOther : String → Event × Env → Type 0
IssuesOther code (code_issued ac, _) = ac.code ≢ code
IssuesOther code _ = Unit

module _ (code : String) where
  token-Keeps : (s : AuthorizationService) (req : TokenRequest) → Keeps (Absent code) (token s req)
  unfolding token
  token-Keeps s req = if_Keeps _ (authorization_code_grant-Keeps code s req) (
      if_Keeps _ (refresh_token_grant-Keeps (λ rows. has_key code_of code rows ≡ false) s req)
        (raise-Keeps _))

  purge-Keeps : Keeps (Absent code) AuthCodes.purge_expired
  unfolding AuthCodes.purge_expired purge_expired_auth_codes
  purge-Keeps =
      query-Keeps _ _
        λ now db h. has_key-keep code_of (λ r. not (leb r.expires_at now)) code db.auth_codes h

  insert-Absent :
      (row : AuthCodeRow) (now : Time) (db : Db)
      → row.code ≢ code
      → Absent code db
      → Absent code (insert_auth_code row now db).1
  unfolding insert_auth_code
  insert-Absent row now db other h = elim (Option-cases (insert code_of row db.auth_codes)) [
    | inl taken ↦ rw taken h
    | inr (rows, e) ↦ rw e (
        let (free, added) = insert-eq-some code_of row db.auth_codes rows e in
        rw (← added)
          (has_key-append code_of code db.auth_codes row h (ground (arith, eq_iff row.code code))))
  ]

  save-Keeps : (ac : AuthorizationCode) → ac.code ≢ code → Keeps (Absent code) (AuthCodes.save ac)
  unfolding AuthCodes.save AuthCodes.insert_auth_code_params
  save-Keeps ac other =
      query-Keeps _ _
        λ now db h. insert-Absent (AuthCodes.insert_auth_code_params ac) now db other h

  happens-Absent :
      (e : Event) (env : Env) (w : World Db)
      → IssuesOther code (e, env)
      → Absent code w.store
      → Absent code (happens e env w).store
  unfolding happens
  happens-Absent (token_request s req) env w k h = (token-Keeps s req).keeps env w h
  happens-Absent (revocation p req) env w k h =
      (revoke-Keeps (λ rows. has_key code_of code rows ≡ false) p req).keeps env w h
  happens-Absent purge env w k h = purge-Keeps.keeps env w h
  happens-Absent (code_issued ac) env w k h = (save-Keeps ac k).keeps env w h

  history-Absent :
      (es : List (Event × Env)) (w : World Db)
      → All (IssuesOther code) es
      → Absent code w.store
      → Absent code (history es w).store
  unfolding history
  history-Absent [] w k h = h
  history-Absent ((e, env) ∷ es) w (k, ks) h =
      history-Absent es (happens e env w) ks (happens-Absent e env w k h)

  select_absent :
      (p : AuthCodeRow → Bool) (rows : List AuthCodeRow)
      → has_key code_of code rows ≡ false
      → select (λ r. r.code == code && p r) rows ≡ none
  unfolding select has_key
  select_absent p [] h = refl
  select_absent p (r ∷ rs) h = ground (arith, select_absent p rs)

  not_redeemed :
      (s : AuthorizationService) (req : TokenRequest) (c : Client) (env : Env) (w w' : World Db)
      (ac : AuthorizationCode)
      → req.code ≡ code
      → Absent code w.store
      → ¬ (redeem s req c env w ≡ (ok ac, w'))
  unfolding redeem ◌>>=◌ lift AuthCodes.find_by_code AuthCodes.found_or_evict parse_code statement
      get_active_auth_code
  not_redeemed s req c env w w' ac same h e =
      let gone = select_absent (is_active (env.clock w.step)) w.store.auth_codes h in ground arith

-- With a code table without duplicates, a code that was exchanged can not be exchanged again, by any
-- client and after any history in which no code is issued under the same text.
pub exchanged_at_most_once :
    (s : AuthorizationService) (req : TokenRequest) (env : Env) (w w' : World Db)
    (resp : TokenResponse) (es : List (Event × Env)) (t : AuthorizationService)
    (again : TokenRequest) (env' : Env)
    → UniqueCodes w.store
    → authorization_code_grant s req env w ≡ (ok resp, w')
    → All (IssuesOther req.code) es
    → again.code ≡ req.code
    → is_ok (authorization_code_grant t again env' (history es w')).0 ≡ false
unfolding authorization_code_grant
exchanged_at_most_once s req env w w' resp es t again env' u h others same =
    let absent = history-Absent req.code es w' others (
      has_key-none code_of req.code w'.store.auth_codes
        (authorization_code_grant-IsExchange s req env w w' resp u h).gone) in
    go (authorization_code_grant t again env' (history es w')).0
      (authorization_code_grant t again env' (history es w')).1 absent refl
  where
    go :
        (r : Result Err TokenResponse) (v : World Db)
        → Absent req.code (history es w').store
        → authorization_code_grant t again env' (history es w') ≡ (r, v)
        → is_ok r ≡ false
    go (err e) v absent k = refl
    go (ok second) v absent k =
        let (c, w1, e1, h1) =
          >>=-eq-ok (authenticated_client t again grant_type_authorization_code) _ env'
            (history es w') k in
        let (ac, w2, e2, h2) = >>=-eq-ok (redeem t again c) _ env' w1 h1 in
        let (may, auth, unchanged) =
          authenticated_client-ok t again grant_type_authorization_code env' (history es w') w1
            e1 in
        absurd (not_redeemed req.code t again c env' w1 w2 ac same (rw unchanged absent) e2)
