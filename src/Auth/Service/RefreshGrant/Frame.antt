-- ===== src/Auth/Service/RefreshGrant/Frame.antt =====
-- The refresh token grant and the revocation leave the authorization codes alone.
use cc_orchestrator.Prelude.{String, List, Option, none, some, Result, ok, err}
use cc_orchestrator.Action.{Time}
use cc_orchestrator.Action.Keeps.{
  Keeps, pure-Keeps, raise-Keeps, lift-Keeps, query-Keeps, fail_if-Keeps, time_now-Keeps,
  rand_read-Keeps, if_Keeps, bind-Keeps, transaction-Keeps, on_error-Keeps, attempt-Keeps,
  sleep-Keeps,
}
use cc_orchestrator.Auth.Errors.{Err}
use cc_orchestrator.Auth.Platform.{Platform}
use cc_orchestrator.Auth.Client.{Client}
use cc_orchestrator.Auth.RefreshToken
use cc_orchestrator.Auth.RefreshToken.{RefreshToken}
use cc_orchestrator.Auth.RefreshToken.Scopes.{Scope}
use cc_orchestrator.Auth.RefreshTokens
use cc_orchestrator.Auth.RefreshTokens.Statements.{
  insert_refresh_token, inserted, hash_of, get_refresh_token, delete_expired_refresh_token,
  consume_refresh_token, revoke_family_refresh_tokens,
}
use cc_orchestrator.Auth.Db.{Db, AuthCodeRow, RefreshTokenRow}
use cc_orchestrator.Auth.Db.Table.{insert}
use cc_orchestrator.Auth.Directory.Reads.{find_user-Keeps, find_client-Keeps}
use cc_orchestrator.Auth.Service.Dto.{AuthorizationService, TokenRequest, sign_claims}
use cc_orchestrator.Auth.Service.CodeGrant.Frame.{
  authenticated_client-Keeps, access_claims-Keeps, id_claims-Keeps,
}
use cc_orchestrator.Auth.Service.RefreshGrant.{
  pad_and_fail, padded_lookup, revoke_and_fail, rotate_or_revoke, reissue, redeem_refresh_token,
  detect_reuse, refresh_token_grant,
}
use cc_orchestrator.Auth.Service.Revoke.{
  RevokeRequest, revoke_if_allowed, revoke_for_client, revoke_found, revoke,
}

module _ (Q : List AuthCodeRow → Type 0) where
  abbrev OnCodes : Db → Type 0
  OnCodes db = Q db.auth_codes

  found_or_evict-Keeps :
      (hash : String) (row : Option RefreshTokenRow)
      → Keeps OnCodes (RefreshTokens.found_or_evict hash row)
  unfolding RefreshTokens.found_or_evict delete_expired_refresh_token
  found_or_evict-Keeps hash none = bind-Keeps (query-Keeps _ _ λ now db h. h) λ _. raise-Keeps _
  found_or_evict-Keeps hash (some row) = lift-Keeps _

  find-Keeps : (hash : String) → Keeps OnCodes (RefreshTokens.find_by_token_hash hash)
  unfolding RefreshTokens.find_by_token_hash get_refresh_token
  find-Keeps hash = bind-Keeps (query-Keeps _ _ λ now db h. h) (found_or_evict-Keeps hash)

  inserted-OnCodes :
      (db : Db) (o : Option (List RefreshTokenRow)) → OnCodes db → OnCodes (inserted o db).1
  inserted-OnCodes db none h = h
  inserted-OnCodes db (some rows) h = h

  reported-Keeps :
      (o : Option RefreshTokenRow) → Keeps OnCodes (RefreshTokens.reused_or_not_found o)
  unfolding RefreshTokens.reused_or_not_found
  reported-Keeps none = raise-Keeps _
  reported-Keeps (some r) = raise-Keeps _

  replace-Keeps :
      (hash : String) (rt : RefreshToken) (now : Time) (o : Option String)
      → Keeps OnCodes (RefreshTokens.replace_consumed hash rt now o)
  unfolding RefreshTokens.replace_consumed get_refresh_token insert_refresh_token
  replace-Keeps hash rt now none = bind-Keeps (query-Keeps _ _ λ _ db h. h) reported-Keeps
  replace-Keeps hash rt now (some _) = query-Keeps _ _ λ _ db h.
      inserted-OnCodes db
        (insert hash_of (RefreshTokens.insert_refresh_token_params rt) db.refresh_tokens) h

  rotate-Keeps : (hash : String) (rt : RefreshToken) → Keeps OnCodes (RefreshTokens.rotate hash rt)
  unfolding RefreshTokens.rotate RefreshTokens.rotate_tx consume_refresh_token
  rotate-Keeps hash rt =
      transaction-Keeps _
        λ now. bind-Keeps (query-Keeps _ _ λ _ db h. h) (replace-Keeps hash rt now)

  revoke_family-Keeps : (family : String) → Keeps OnCodes (RefreshTokens.revoke_family family)
  unfolding RefreshTokens.revoke_family revoke_family_refresh_tokens
  revoke_family-Keeps family = query-Keeps _ _ λ _ db h. h

  revoke_and_fail-Keeps :
      {A : Type 0} (family : String) (e : Err) → Keeps {A = A} OnCodes (revoke_and_fail family e)
  unfolding revoke_and_fail
  revoke_and_fail-Keeps family e = bind-Keeps (revoke_family-Keeps family) λ _. raise-Keeps e

  padded_lookup-Keeps : (hash : String) → Keeps OnCodes (padded_lookup hash)
  unfolding padded_lookup pad_and_fail
  padded_lookup-Keeps hash = bind-Keeps time_now-Keeps λ start.
      on_error-Keeps (find-Keeps hash) λ e.
        bind-Keeps time_now-Keeps
          λ now. bind-Keeps (if_Keeps _ (sleep-Keeps _) (pure-Keeps _)) λ _. raise-Keeps e

  reissue-Keeps :
      (s : AuthorizationService) (c : Client) (hash : String) (rt : RefreshToken) (scope : Scope)
      → Keeps OnCodes (reissue s c hash rt scope)
  unfolding reissue sign_claims RefreshToken.rotate RefreshToken.new_token rotate_or_revoke
  reissue-Keeps s c hash rt scope = bind-Keeps (lift-Keeps _) λ uid.
      bind-Keeps (find_user-Keeps uid) λ owner. bind-Keeps (access_claims-Keeps _ _ _ _) λ _.
        bind-Keeps (lift-Keeps _) λ _. bind-Keeps (id_claims-Keeps _ _ _ _ _ _ _ _) λ _.
          bind-Keeps (lift-Keeps _) λ _.
            bind-Keeps
              (bind-Keeps (bind-Keeps (rand_read-Keeps _ _) λ _. pure-Keeps _)
                λ _. bind-Keeps time_now-Keeps λ _. pure-Keeps _)
              λ rotated.
                bind-Keeps
                  (on_error-Keeps (rotate-Keeps hash rotated.0)
                    λ e. if_Keeps _ (revoke_and_fail-Keeps rt.family_id e) (raise-Keeps e))
                  λ _. pure-Keeps _

  redeem-Keeps :
      (s : AuthorizationService) (req : TokenRequest) (c : Client) (hash : String)
      (rt : RefreshToken)
      → Keeps OnCodes (redeem_refresh_token s req c hash rt)
  unfolding redeem_refresh_token
  redeem-Keeps s req c hash rt =
      bind-Keeps (lift-Keeps _)
        λ _. bind-Keeps (lift-Keeps _) λ scope. reissue-Keeps s c hash rt scope

  pub refresh_token_grant-Keeps :
      (s : AuthorizationService) (req : TokenRequest) → Keeps OnCodes (refresh_token_grant s req)
  unfolding refresh_token_grant detect_reuse
  refresh_token_grant-Keeps s req = bind-Keeps (fail_if-Keeps _ _) λ _.
      bind-Keeps (authenticated_client-Keeps s req _) λ c.
        bind-Keeps (padded_lookup-Keeps _)
          λ rt. if_Keeps _ (revoke_and_fail-Keeps rt.family_id _) (redeem-Keeps s req c _ rt)

  allowed-Keeps :
      (p : Platform) (req : RevokeRequest) (rt : RefreshToken) (id : String) (r : Result Err Client)
      → Keeps OnCodes (revoke_if_allowed p req rt id r)
  unfolding revoke_if_allowed
  allowed-Keeps p req rt id (err e) = pure-Keeps tt
  allowed-Keeps p req rt id (ok c) = if_Keeps _ (revoke_family-Keeps rt.family_id) (pure-Keeps tt)

  for_client-Keeps :
      (p : Platform) (req : RevokeRequest) (rt : RefreshToken) (r : Result Err String)
      → Keeps OnCodes (revoke_for_client p req rt r)
  unfolding revoke_for_client
  for_client-Keeps p req rt (err e) = pure-Keeps tt
  for_client-Keeps p req rt (ok id) =
      bind-Keeps (attempt-Keeps (find_client-Keeps p id)) (allowed-Keeps p req rt id)

  found-Keeps :
      (p : Platform) (req : RevokeRequest) (r : Result Err RefreshToken)
      → Keeps OnCodes (revoke_found p req r)
  unfolding revoke_found
  found-Keeps p req (err e) = if_Keeps _ (pure-Keeps tt) (raise-Keeps e)
  found-Keeps p req (ok rt) = for_client-Keeps p req rt _

  pub revoke-Keeps : (p : Platform) (req : RevokeRequest) → Keeps OnCodes (revoke p req)
  unfolding revoke
  revoke-Keeps p req =
      if_Keeps _ (pure-Keeps tt) (bind-Keeps (attempt-Keeps (find-Keeps _)) (found-Keeps p req))
