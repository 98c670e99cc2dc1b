-- ===== src/Auth/Service/RefreshGrant/Success.antt =====
-- What a successful refresh establishes.
use mathlib.Core.Path.{subst}
use cc_orchestrator.Prelude.{String, ◌≡◌, refl, sym, ap, ◌∙◌, false, some, ok, arith, eq_iff}
use cc_orchestrator.Action.{Time, Action, Env, World, pure, raise, lift, on_error, time_now, ◌>>=◌}
use cc_orchestrator.Action.Keeps.{>>=-eq-ok, after, lift-Keeps, fail_if-Keeps}
use cc_orchestrator.Auth.Errors.{Err}
use cc_orchestrator.Auth.Client.{Client}
use cc_orchestrator.Auth.User.{parse_user_id}
use cc_orchestrator.Auth.RefreshToken
use cc_orchestrator.Auth.RefreshToken.{RefreshToken, hash_token, matches_client, new_token}
use cc_orchestrator.Auth.RefreshToken.Scopes.{Scope, narrow}
use cc_orchestrator.Auth.Claims.{new_access_token_claims}
use cc_orchestrator.Auth.Db.{Db, RefreshTokenRow}
use cc_orchestrator.Auth.Directory.{find_user}
use cc_orchestrator.Auth.Directory.Reads.{find_user-Keeps}
use cc_orchestrator.Auth.RefreshTokens
use cc_orchestrator.Auth.RefreshTokens.{reconstruct_refresh_token}
use cc_orchestrator.Auth.RefreshTokens.Laws.{token_row, UniqueHashes}
use cc_orchestrator.Auth.RefreshTokens.Rotation.{IsRotation, rotate-IsRotation}
use cc_orchestrator.Auth.Service.Dto.{
  AuthorizationService, TokenRequest, TokenResponse, grant_type_refresh_token, sign_claims,
  new_token_response,
}
use cc_orchestrator.Auth.Service.CodeGrant.{authenticated_client}
use cc_orchestrator.Auth.Service.CodeGrant.Authenticated.{
  IsAuthenticated, authenticated_client-ok, authenticated_client-IsAuthenticated,
}
use cc_orchestrator.Auth.Service.CodeGrant.Frame.{access_claims-Keeps, id_claims-Keeps}
use cc_orchestrator.Auth.Service.RefreshGrant.Laws.{padded_lookup-ok, restored_family}
use cc_orchestrator.Auth.Service.RefreshGrant.{
  padded_lookup, revoke_and_fail, rotate_or_revoke, detect_reuse, reissue, redeem_refresh_token,
  refresh_token_grant,
}

-- A rotation behind the error handling is a rotation.
rotate_or_revoke-ok :
    (hash : String) (rt new_rt : RefreshToken) (env : Env) (w w' : World Db)
    → rotate_or_revoke hash rt new_rt env w ≡ (ok tt, w')
    → RefreshTokens.rotate hash new_rt env w ≡ (ok tt, w')
unfolding rotate_or_revoke on_error revoke_and_fail ◌>>=◌ raise
rotate_or_revoke-ok hash rt new_rt env w w' h = ground arith

matches_client-ok :
    (rt : RefreshToken) (id : String) → matches_client rt id ≡ ok tt → rt.client_id ≡ id
unfolding matches_client
matches_client-ok rt id h = ground (arith, eq_iff rt.client_id id)

successor_of :
    (s : AuthorizationService) (rt : RefreshToken) (scope : Scope) (env : Env) (w w' : World Db)
    (successor : RefreshToken) (plain : String)
    → RefreshToken.rotate s.platform rt scope env w ≡ (ok (successor, plain), w')
    → (successor.scope ≡ scope)
      × (successor.family_id ≡ rt.family_id)
      × (successor.client_id ≡ rt.client_id)
      × (successor.user_id ≡ rt.user_id)
      × (successor.token_hash ≡ hash_token s.platform plain)
      × (w'.store ≡ w.store)
unfolding RefreshToken.rotate ◌>>=◌ new_token time_now pure
successor_of s rt scope env w w' successor plain h =
    (ground arith, ground arith, ground arith, ground arith, ground arith, ground arith)

-- Steps 7 to 9: a new token in the family, under the scope, takes the place of the old one.
pub record IsReissue (s : AuthorizationService) (hash : String) (rt : RefreshToken) (scope : Scope)
    (resp : TokenResponse) (db db' : Db) : Type 0 where
  pub scope_of_response : resp.scope ≡ scope.value
  pub successor : RefreshToken
  pub successor_scope : successor.scope ≡ scope
  pub successor_family : successor.family_id ≡ rt.family_id
  pub successor_client : successor.client_id ≡ rt.client_id
  pub successor_user : successor.user_id ≡ rt.user_id
  pub successor_hash : successor.token_hash ≡ hash_token s.platform resp.refresh_token
  pub now : Time
  pub rotated : IsRotation hash successor now db db'

abbrev Same : World Db → Db → Type 0
Same w db = db ≡ w.store

-- Steps 8 and 9, with the access and the ID token given.
abbrev rotate_and_respond :
    AuthorizationService
    → String
    → RefreshToken
    → Scope
    → String
    → String
    → Action Err Db TokenResponse
rotate_and_respond s hash rt scope access id_token =
    RefreshToken.rotate s.platform rt scope >>= λ rotated.
    rotate_or_revoke hash rt rotated.0 >>= λ _.
    pure (new_token_response access id_token scope.value rotated.1)

rotate_and_respond-ok :
    (s : AuthorizationService) (hash : String) (rt : RefreshToken) (scope : Scope)
    (access id_token : String) (env : Env) (w w' : World Db) (resp : TokenResponse)
    → UniqueHashes w.store
    → rotate_and_respond s hash rt scope access id_token env w ≡ (ok resp, w')
    → IsReissue s hash rt scope resp w.store w'.store
unfolding pure new_token_response
rotate_and_respond-ok s hash rt scope access id_token env w w' resp u h =
    let (rotated, w9, e9, h9) = >>=-eq-ok (RefreshToken.rotate s.platform rt scope) _ env w h in
    let (done, v, e10, h10) = >>=-eq-ok (rotate_or_revoke hash rt rotated.0) _ env w9 h9 in
    let (scoped, family, client, user, stored, same) =
      successor_of s rt scope env w w9 rotated.0 rotated.1 e9 in
    let answer : new_token_response access id_token scope.value rotated.1 ≡ resp = ground arith in
    let u9 : UniqueHashes w9.store = subst UniqueHashes (sym same) u in
    let rotation =
      rotate-IsRotation hash rotated.0 env w9 v u9
        (rotate_or_revoke-ok hash rt rotated.0 env w9 v e10) in
    let world : v ≡ w' = ground arith in
    record {
      scope_of_response = sym (ap (λ (q : TokenResponse). q.scope) answer);
      successor = rotated.0;
      successor_scope = scoped;
      successor_family = family;
      successor_client = client;
      successor_user = user;
      successor_hash =
          stored ∙ ap (λ (q : TokenResponse). hash_token s.platform q.refresh_token) answer;
      now = env.clock w9.step;
      rotated =
          subst (λ x. IsRotation hash rotated.0 (env.clock w9.step) x w'.store) same
            (subst
              (λ (x : World Db). IsRotation hash rotated.0 (env.clock w9.step) w9.store x.store)
              world rotation);
    }

reissue-ok :
    (s : AuthorizationService) (c : Client) (hash : String) (rt : RefreshToken) (scope : Scope)
    (env : Env) (w w' : World Db) (resp : TokenResponse)
    → UniqueHashes w.store
    → reissue s c hash rt scope env w ≡ (ok resp, w')
    → IsReissue s hash rt scope resp w.store w'.store
unfolding reissue sign_claims
reissue-ok s c hash rt scope env w w' resp u h =
    let (uid, w3, e3, h3) = >>=-eq-ok (lift (parse_user_id rt.user_id)) _ env w h in
    let (owner, w4, e4, h4) = >>=-eq-ok (find_user uid) _ env w3 h3 in
    let (a, w5, e5, h5) =
      >>=-eq-ok (new_access_token_claims s.issuer owner.id s.api_audience scope.value) _ env w4
        h4 in
    let (access, w6, e6, h6) = >>=-eq-ok (sign_claims s a) _ env w5 h5 in
    let (i, w7, e7, h7) = >>=-eq-ok _ _ env w6 h6 in
    let (id_token, w8, e8, h8) = >>=-eq-ok (sign_claims s i) _ env w7 h7 in
    let k3 : w3.store ≡ w.store = after {P = Same w} (lift-Keeps _) e3 refl in
    let k4 : w4.store ≡ w.store = after {P = Same w} (find_user-Keeps uid) e4 k3 in
    let k5 : w5.store ≡ w.store = after {P = Same w} (access_claims-Keeps _ _ _ _) e5 k4 in
    let k6 : w6.store ≡ w.store = after {P = Same w} (lift-Keeps _) e6 k5 in
    let k7 : w7.store ≡ w.store = after {P = Same w} (id_claims-Keeps _ _ _ _ _ _ _ _) e7 k6 in
    let k8 : w8.store ≡ w.store = after {P = Same w} (lift-Keeps _) e8 k7 in
    subst (λ d. IsReissue s hash rt scope resp d w'.store) k8
      (rotate_and_respond-ok s hash rt scope access id_token env w8 w' resp
        (subst UniqueHashes (sym k8) u) h8)

-- What a successful refresh establishes: the client is the one the table holds under the request's
-- client_id, may refresh, and is public or presented its secret; the token is a live one of that
-- client that was not rotated before, the response's scope is the grant's, narrowed, and the token is rotated to that of the response, in the same family.
pub record IsRefresh (s : AuthorizationService) (req : TokenRequest) (resp : TokenResponse)
    (db db' : Db) : Type 0 where
  pub client : Client
  pub authenticated : IsAuthenticated s req grant_type_refresh_token db client
  pub row : RefreshTokenRow
  pub token : RefreshToken
  pub at_token : token_row db (hash_token s.platform req.refresh_token) ≡ some row
  pub unconsumed : row.consumed ≡ false
  pub bound_to_client : row.client_id ≡ client.id
  pub restored : reconstruct_refresh_token row ≡ ok token
  pub scope : Scope
  pub narrowed : narrow token.scope req.scope ≡ ok scope
  pub reissued : IsReissue s (hash_token s.platform req.refresh_token) token scope resp db db'

module _ (s : AuthorizationService) (req : TokenRequest) (c : Client) (hash : String)
    (rt : RefreshToken) (env : Env) (w w' : World Db) (resp : TokenResponse) where
  detect_reuse-ok :
      detect_reuse s req c hash rt env w ≡ (ok resp, w')
      → (rt.consumed ≡ false) × (redeem_refresh_token s req c hash rt env w ≡ (ok resp, w'))
  unfolding detect_reuse revoke_and_fail ◌>>=◌ raise
  detect_reuse-ok h = (ground arith, ground arith)

  redeem-ok :
      UniqueHashes w.store
      → redeem_refresh_token s req c hash rt env w ≡ (ok resp, w')
      → (rt.client_id ≡ c.id)
        × (scope : Scope) × (narrow rt.scope req.scope ≡ ok scope)
        × IsReissue s hash rt scope resp w.store w'.store
  unfolding redeem_refresh_token lift
  redeem-ok u h =
      let (matched, w1, e1, h1) = >>=-eq-ok (lift (matches_client rt c.id)) _ env w h in
      let (scope, w2, e2, h2) = >>=-eq-ok (lift (narrow rt.scope req.scope)) _ env w1 h1 in
      let same : w2 ≡ w = ground arith in
      let u2 : UniqueHashes w2.store =
        subst (λ (x : World Db). UniqueHashes x.store) (sym same) u in
      (
        matches_client-ok rt c.id (ground arith),
        scope,
        ground arith,
        subst (λ (x : World Db). IsReissue s hash rt scope resp x.store w'.store) same
            (reissue-ok s c hash rt scope env w2 w' resp u2 h2),
      )

-- With a token table without duplicates, a refresh that succeeds is an `IsRefresh`: the client is
-- the one the table holds under the request's client_id, may refresh, and is a public client or
-- presented its secret; the token was an unconsumed one of that client; the scope is the
-- grant's, narrowed; and the token is rotated to the response's, in the same family.
pub refresh_token_grant-IsRefresh :
    (s : AuthorizationService) (req : TokenRequest) (env : Env) (w w' : World Db)
    (resp : TokenResponse)
    → UniqueHashes w.store
    → refresh_token_grant s req env w ≡ (ok resp, w')
    → IsRefresh s req resp w.store w'.store
unfolding refresh_token_grant
refresh_token_grant-IsRefresh s req env w w' resp u h =
    let hash = hash_token s.platform req.refresh_token in
    let (given, w0, e0, h0) = >>=-eq-ok _ _ env w h in
    let (c, w1, e1, h1) =
      >>=-eq-ok (authenticated_client s req grant_type_refresh_token) _ env w0 h0 in
    let (rt, w2, e2, h2) = >>=-eq-ok (padded_lookup hash) _ env w1 h1 in
    let k0 : w0.store ≡ w.store = after {P = Same w} (fail_if-Keeps _ _) e0 refl in
    let authenticated =
      authenticated_client-IsAuthenticated s req grant_type_refresh_token env w0 w1 e1 in
    let (may, presented, s1) =
      authenticated_client-ok s req grant_type_refresh_token env w0 w1 e1 in
    let k1 : w1.store ≡ w.store = s1 ∙ k0 in
    let u1 : UniqueHashes w1.store = subst UniqueHashes (sym k1) u in
    let (row, at, live, restored, s2) = padded_lookup-ok hash env w1 w2 rt u1 e2 in
    let k2 : w2.store ≡ w.store = s2 ∙ k1 in
    let u2 : UniqueHashes w2.store = subst UniqueHashes (sym k2) u in
    let (unconsumed, redeemed) = detect_reuse-ok s req c hash rt env w2 w' resp h2 in
    let (client, scope, narrowed, reissued) =
      redeem-ok s req c hash rt env w2 w' resp u2 redeemed in
    let (family, flag, owner) = restored_family row rt restored in
    record {
      client = c;
      authenticated =
          subst (λ d. IsAuthenticated s req grant_type_refresh_token d c) k0 authenticated;
      row = row;
      token = rt;
      at_token = ap (λ d. token_row d hash) (sym k1) ∙ at;
      unconsumed = sym flag ∙ unconsumed;
      bound_to_client = sym owner ∙ client;
      restored = restored;
      scope = scope;
      narrowed = narrowed;
      reissued = subst (λ d. IsReissue s hash rt scope resp d w'.store) k2 reissued;
    }
