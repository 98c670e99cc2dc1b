-- ===== src/Auth/Service/CodeGrant/Laws.antt =====
-- What a successful exchange of an authorization code establishes, and that none succeeds twice.
use cc_orchestrator.Prelude.{
  String, ◌≡◌, sym, ap, ◌∙◌, true, false, ◌&&◌, some, none, Result, ok, arith, ◌⊎◌, Bool-cases, inl,
  inr,
}
use cc_orchestrator.Action.{Env, World, pure, lift, ◌>>=◌}
use mathlib.Core.Path.{subst}
use cc_orchestrator.Auth.User.{User, parse_user_id}
use cc_orchestrator.Auth.AuthCode.Scopes.{has, scope_offline_access}
use cc_orchestrator.Auth.Claims.{new_access_token_claims}
use cc_orchestrator.Action.Keeps.{>>=-eq-ok}
use cc_orchestrator.Auth.Errors.{Err}
use cc_orchestrator.Auth.Service.CodeGrant.Authenticated.{
  IsAuthenticated, authenticated_client-ok, authenticated_client-IsAuthenticated,
}
use cc_orchestrator.Auth.Service.CodeGrant.Frame.{issue_tokens-Keeps}
use cc_orchestrator.Auth.Client.{Client, supports_grant_type}
use cc_orchestrator.Auth.AuthCode.{AuthorizationCode, parse_code, verify}
use cc_orchestrator.Auth.AuthCode.Challenge.{transform, new_code_challenge}
use cc_orchestrator.Auth.Db.Table.View.{view, key-view}
use cc_orchestrator.Auth.AuthCodes.Statements.{code_of}
use cc_orchestrator.Auth.Db.{Db, AuthCodeRow}
use cc_orchestrator.Auth.Directory.{find_user}
use cc_orchestrator.Auth.AuthCodes.{find_by_code, reconstruct_auth_code, consume}
use cc_orchestrator.Auth.AuthCodes.Laws.{
  code_row, UniqueCodes, find_by_code-ok, consume-ok, verify-ok,
}
use cc_orchestrator.Auth.Service.Dto.{
  AuthorizationService, TokenRequest, TokenResponse, grant_type_authorization_code,
  grant_type_refresh_token, new_token_response, sign_claims,
}
use cc_orchestrator.Auth.Service.CodeGrant.{
  authenticated_client, redeem, issue_refresh_token, issue_tokens, authorization_code_grant,
}

-- What the code of a request stood for: a live row, bound to the request, that is gone afterwards.
pub record IsRedeemed (s : AuthorizationService) (req : TokenRequest) (c : Client)
    (ac : AuthorizationCode) (env : Env) (w w' : World Db) : Type 0 where
  pub row : AuthCodeRow
  pub at_code : code_row w.store req.code ≡ some row
  pub unconsumed : row.consumed ≡ false
  pub bound_to_uri : row.redirect_uri ≡ req.redirect_uri
  pub bound_to_client : row.client_id ≡ c.id
  pub bound_to_verifier : transform s.platform req.code_verifier ≡ row.challenge
  pub restored : reconstruct_auth_code row ≡ ok ac
  pub gone : code_row w'.store req.code ≡ none
  pub unique : UniqueCodes w'.store
  pub other_tables : w'.store ≡ record w.store { auth_codes = w'.store.auth_codes }

parse_code-ok : (text : String) {code : String} → parse_code text ≡ ok code → text ≡ code
unfolding parse_code
parse_code-ok text h = ground arith

restored_fields :
    (row : AuthCodeRow) (ac : AuthorizationCode)
    → reconstruct_auth_code row ≡ ok ac
    → (ac.code ≡ row.code)
      × (ac.client_id ≡ row.client_id)
      × (ac.redirect_uri ≡ row.redirect_uri)
      × (ac.consumed ≡ row.consumed)
      × (ac.challenge.challenge ≡ row.challenge)
      × (ac.user_id ≡ row.user_id)
unfolding reconstruct_auth_code parse_code new_code_challenge
restored_fields row ac h =
    (ground arith, ground arith, ground arith, ground arith, ground arith, ground arith)

pub redeem-ok :
    (s : AuthorizationService) (req : TokenRequest) (c : Client) (env : Env) (w w' : World Db)
    {ac : AuthorizationCode}
    → UniqueCodes w.store
    → redeem s req c env w ≡ (ok ac, w')
    → IsRedeemed s req c ac env w w'
unfolding redeem lift pure ◌>>=◌
redeem-ok s req c env w w' {ac} u h =
    let (code, w1, e1, h1) = >>=-eq-ok (lift (parse_code req.code)) _ env w h in
    let (a, w2, e2, h2) = >>=-eq-ok (find_by_code code) _ env w1 h1 in
    let (t3, w3, e3, h3) =
      >>=-eq-ok (verify s.platform a req.code_verifier req.redirect_uri c.id) _ env w2 h2 in
    let (t4, w4, e4, h4) = >>=-eq-ok (consume a.code) _ env w3 h3 in
    let named = parse_code-ok req.code {code = code} (ground arith) in
    let same : w1 ≡ w = ground arith in
    let u1 : UniqueCodes w1.store = rw (same) u in
    let (row, at_code, active, restored, s2) = find_by_code-ok code env w1 w2 u1 e2 in
    let (unconsumed, in_time, uri, client, valid, challenge, s3) =
      verify-ok s.platform a req.code_verifier req.redirect_uri c.id env w2 w3 e3 in
    let u3 : UniqueCodes w3.store = rw (s3, s2) u1 in
    let (gone, unique, others) = consume-ok a.code env w3 w4 u3 e4 in
    let fields = restored_fields row a restored in
    let key = key-view code_of code w1.store.auth_codes at_code in
    let last : (a ≡ ac) × (w4 ≡ w') = (ground arith, ground arith) in
    record {
      row = row;
      at_code = cc;
      unconsumed = cc;
      bound_to_uri = cc;
      bound_to_client = cc;
      bound_to_verifier = cc;
      restored = cc;
      gone = cc;
      unique = rw (sym (last.1)) unique;
      other_tables = cc;
    }

-- What a successful exchange establishes: the client is the one the table holds under the request's
-- client_id, may use the grant, and is public or presented its secret; the code stood for a live row, bound to the request's redirect_uri, client and verifier, and the row
-- is gone; a refresh token comes only with offline access, for a client that may use one.
pub record IsExchange (s : AuthorizationService) (req : TokenRequest) (resp : TokenResponse)
    (env : Env) (w w' : World Db) : Type 0 where
  pub client : Client
  pub authenticated : IsAuthenticated s req grant_type_authorization_code w.store client
  pub auth_code : AuthorizationCode
  pub row : AuthCodeRow
  pub at_code : code_row w.store req.code ≡ some row
  pub unconsumed : row.consumed ≡ false
  pub bound_to_uri : row.redirect_uri ≡ req.redirect_uri
  pub bound_to_client : row.client_id ≡ client.id
  pub bound_to_verifier : transform s.platform req.code_verifier ≡ row.challenge
  pub restored : reconstruct_auth_code row ≡ ok auth_code
  pub scope : resp.scope ≡ auth_code.scope.value
  pub gone : code_row w'.store req.code ≡ none
  pub refresh :
      (resp.refresh_token ≡ "")
      ⊎ ((supports_grant_type client grant_type_refresh_token
            && has auth_code.scope scope_offline_access)
          ≡ true)

issue_refresh_token-ok :
    (s : AuthorizationService) (c : Client) (owner : User) (ac : AuthorizationCode) (env : Env)
    (w w' : World Db) (t : String)
    → issue_refresh_token s c owner ac env w ≡ (ok t, w')
    → (supports_grant_type c grant_type_refresh_token && has ac.scope scope_offline_access) ≡ false
    → t ≡ ""
unfolding issue_refresh_token pure
issue_refresh_token-ok s c owner ac env w w' t h no_refresh = ground arith

issue_tokens-ok :
    (s : AuthorizationService) (c : Client) (ac : AuthorizationCode) (env : Env) (w w' : World Db)
    (resp : TokenResponse)
    → issue_tokens s c ac env w ≡ (ok resp, w')
    → (resp.scope ≡ ac.scope.value)
      × (owner : User) × (v : World Db) × (v' : World Db) × (issue_refresh_token s c owner ac env v
          ≡ (ok resp.refresh_token, v'))
unfolding issue_tokens pure new_token_response
issue_tokens-ok s c ac env w w' resp h =
    let (uid, w3, e3, h3) = >>=-eq-ok (lift (parse_user_id ac.user_id)) _ env w h in
    let (owner, w4, e4, h4) = >>=-eq-ok (find_user uid) _ env w3 h3 in
    let (a, w5, e5, h5) =
      >>=-eq-ok (new_access_token_claims s.issuer owner.id s.api_audience ac.scope.value) _ env w4
        h4 in
    let (access, w6, e6, h6) = >>=-eq-ok (sign_claims s a) _ env w5 h5 in
    let (i, w7, e7, h7) = >>=-eq-ok _ _ env w6 h6 in
    let (id_token, w8, e8, h8) = >>=-eq-ok (sign_claims s i) _ env w7 h7 in
    let (t, w9, e9, h9) = >>=-eq-ok (issue_refresh_token s c owner ac) _ env w8 h8 in
    let last : new_token_response access id_token ac.scope.value t ≡ resp = ground arith in
    (
      sym (ap (λ (q : TokenResponse). q.scope) last),
      owner,
      w8,
      w9,
      e9 ∙ ap (λ (q : TokenResponse). (ok q.refresh_token, w9)) last,
    )

-- With a code table without duplicates, an exchange that succeeds is an `IsExchange`: the client is
-- the one the table holds under the request's client_id, may use the grant, and is a public client or
-- presented its secret; the code stood for an unconsumed row, bound to the request's
-- redirect_uri, the client and the PKCE verifier, and no row is left under it; the scope is the code's;
-- a refresh token comes only with offline access, for a client that may use one.
pub authorization_code_grant-IsExchange :
    (s : AuthorizationService) (req : TokenRequest) (env : Env) (w w' : World Db)
    (resp : TokenResponse)
    → UniqueCodes w.store
    → authorization_code_grant s req env w ≡ (ok resp, w')
    → IsExchange s req resp env w w'
unfolding authorization_code_grant
authorization_code_grant-IsExchange s req env w w' resp u h =
    let (c, w1, e1, h1) =
      >>=-eq-ok (authenticated_client s req grant_type_authorization_code) _ env w h in
    let (ac, w2, e2, h2) = >>=-eq-ok (redeem s req c) _ env w1 h1 in
    let authenticated =
      authenticated_client-IsAuthenticated s req grant_type_authorization_code env w w1 e1 in
    let (may, presented, s1) =
      authenticated_client-ok s req grant_type_authorization_code env w w1 e1 in
    let u1 : UniqueCodes w1.store = rw s1 u in
    let r = redeem-ok s req c env w1 w2 u1 e2 in
    let (scope, owner, v, v', issued) = issue_tokens-ok s c ac env w2 w' resp h2 in
    let gone =
      (issue_tokens-Keeps (λ rows. view code_of rows req.code ≡ none) s c ac).keeps env w2 r.gone in
    let offline =
      supports_grant_type c grant_type_refresh_token && has ac.scope scope_offline_access in
    record {
      client = c;
      authenticated = authenticated;
      auth_code = ac;
      row = r.row;
      at_code = rw (sym s1) r.at_code;
      unconsumed = r.unconsumed;
      bound_to_uri = r.bound_to_uri;
      bound_to_client = r.bound_to_client;
      bound_to_verifier = r.bound_to_verifier;
      restored = r.restored;
      scope = scope;
      gone =
          subst (λ (o : Result Err TokenResponse × World Db). code_row o.1.store req.code ≡ none) h2
            gone;
      refresh = elim (Bool-cases offline) [
        | inl may ↦ inr may
        | inr no_refresh ↦
            inl (issue_refresh_token-ok s c owner ac env v v' resp.refresh_token issued no_refresh)
      ];
    }
