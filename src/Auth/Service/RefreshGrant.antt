-- ===== src/Auth/Service/RefreshGrant.antt =====
-- `refreshTokenGrant` of app/auth/service/authorization_service.go.
pub mod Frame
pub mod Laws
pub mod Success
use cc_orchestrator.Prelude.{ℕ, ◌*◌, ◌-◌, String, Bool, true, false, ltb, ◌==◌, if◌then◌else◌}
use cc_orchestrator.Action.{
  Time, Action, pure, raise, lift, fail_if, time_now, sleep, on_error, ◌>>=◌, ◌>>◌,
}
use cc_orchestrator.Auth.Errors.{Err, refresh_token, RefreshTokenError}
use cc_orchestrator.Auth.Client.{Client}
use cc_orchestrator.Auth.User.{User, parse_user_id}
use cc_orchestrator.Auth.RefreshToken
use cc_orchestrator.Auth.RefreshToken.{RefreshToken, hash_token, matches_client}
use cc_orchestrator.Auth.RefreshToken.Scopes.{Scope, narrow, has}
use cc_orchestrator.Auth.Claims.{new_access_token_claims, new_id_token_claims, compute_at_hash}
use cc_orchestrator.Auth.Db.{Db}
use cc_orchestrator.Auth.Directory.{find_user}
use cc_orchestrator.Auth.RefreshTokens
use cc_orchestrator.Auth.RefreshTokens.{find_by_token_hash, revoke_family}
use cc_orchestrator.Auth.Service.Dto.{
  AuthorizationService, TokenRequest, TokenResponse, grant_type_refresh_token, new_token_response,
  sign_claims,
}
use cc_orchestrator.Auth.Service.CodeGrant.{authenticated_client}

-- 10 ms
abbrev pub min_refresh_grant_duration : Time
min_refresh_grant_duration = 10 * 1000

-- After a failed lookup, the rest of the minimal duration is slept.
unfoldable pub pad_and_fail : Time → Err → Action Err Db RefreshToken
pad_and_fail lookup_start e = do
  now ← time_now
  let elapsed = now - lookup_start
  if ltb elapsed min_refresh_grant_duration
      then sleep (min_refresh_grant_duration - elapsed)
      else pure tt
  raise e

unfoldable pub padded_lookup : String → Action Err Db RefreshToken
padded_lookup hash = do
  lookup_start ← time_now
  on_error (find_by_token_hash hash) (pad_and_fail lookup_start)

unfoldable pub revoke_and_fail : {A : Type 0} → String → Err → Action Err Db A
revoke_and_fail family_id e = do revoke_family family_id; raise e

abbrev is_reused : Err → Bool
is_reused (refresh_token RefreshTokenError.reused) = true
is_reused _ = false

-- `Rotate` of the repository; a reuse that only it notices revokes the family too.
unfoldable pub rotate_or_revoke : String → RefreshToken → RefreshToken → Action Err Db (Unit {0})
rotate_or_revoke old_hash rt new_rt =
    on_error (RefreshTokens.rotate old_hash new_rt)
      λ e. if is_reused e then revoke_and_fail rt.family_id e else raise e

-- Steps 7 to 9: new tokens under the effective scope, and the rotation.
unfoldable pub reissue :
    AuthorizationService → Client → String → RefreshToken → Scope → Action Err Db TokenResponse
reissue s c old_hash rt effective_scope = do
  uid ← lift (parse_user_id rt.user_id)
  owner ← find_user uid
  access_claims ← new_access_token_claims s.issuer owner.id s.api_audience effective_scope.value
  access_token ← sign_claims s access_claims
  id_claims ←
      new_id_token_claims s.issuer owner.id c.id ""
        (if has effective_scope "profile" then owner.profile.name else "")
        (if has effective_scope "email" then owner.profile.email else "") rt.auth_time
        (compute_at_hash s.platform access_token)
  id_token ← sign_claims s id_claims
  rotated ← RefreshToken.rotate s.platform rt effective_scope
  rotate_or_revoke old_hash rt rotated.0
  pure (new_token_response access_token id_token effective_scope.value rotated.1)

-- Steps 5 to 9: the token found was not yet consumed.
unfoldable pub redeem_refresh_token :
    AuthorizationService
    → TokenRequest
    → Client
    → String
    → RefreshToken
    → Action Err Db TokenResponse
redeem_refresh_token s req c old_hash rt = do
  lift (matches_client rt c.id)
  effective_scope ← lift (narrow rt.scope req.scope)
  reissue s c old_hash rt effective_scope

-- Step 4: a token that was rotated before is a sign of theft.
unfoldable pub detect_reuse :
    AuthorizationService
    → TokenRequest
    → Client
    → String
    → RefreshToken
    → Action Err Db TokenResponse
detect_reuse s req c old_hash rt =
    if rt.consumed
    then revoke_and_fail rt.family_id (refresh_token RefreshTokenError.reused)
    else redeem_refresh_token s req c old_hash rt

unfoldable pub refresh_token_grant :
    AuthorizationService → TokenRequest → Action Err Db TokenResponse
refresh_token_grant s req = do
  fail_if (req.refresh_token == "") (refresh_token RefreshTokenError.not_found)
  c ← authenticated_client s req grant_type_refresh_token
  rt ← padded_lookup (hash_token s.platform req.refresh_token)
  detect_reuse s req c (hash_token s.platform req.refresh_token) rt
