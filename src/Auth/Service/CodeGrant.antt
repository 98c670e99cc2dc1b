-- ===== src/Auth/Service/CodeGrant.antt =====
-- `authorizationCodeGrant` of app/auth/service/authorization_service.go.
pub mod Authenticated
pub mod Frame
pub mod Laws
use cc_orchestrator.Prelude.{String, Bool, not, ◌&&◌, ok, err, if◌then◌else◌}
use cc_orchestrator.Action.{Action, pure, lift, fail_if, ◌>>=◌, ◌>>◌}
use cc_orchestrator.Auth.Errors.{Err, client, ClientError}
use cc_orchestrator.Auth.Client.{
  Client, parse_client_id, supports_grant_type, is_confidential, verify_secret,
}
use cc_orchestrator.Auth.User.{User, parse_user_id}
use cc_orchestrator.Auth.AuthCode
use cc_orchestrator.Auth.AuthCode.{AuthorizationCode, parse_code}
use cc_orchestrator.Auth.AuthCode.Scopes.{has, scope_offline_access}
use cc_orchestrator.Auth.RefreshToken
use cc_orchestrator.Auth.RefreshToken.Scopes
use cc_orchestrator.Auth.Claims.{new_access_token_claims, new_id_token_claims, compute_at_hash}
use cc_orchestrator.Auth.Db.{Db}
use cc_orchestrator.Auth.Directory.{find_client, find_user}
use cc_orchestrator.Auth.AuthCodes
use cc_orchestrator.Auth.RefreshTokens
use cc_orchestrator.Auth.Service.Dto.{
  AuthorizationService, TokenRequest, TokenResponse, grant_type_authorization_code,
  grant_type_refresh_token, new_token_response, sign_claims,
}

-- The client of a token request, which may use the grant and has authenticated.
unfoldable pub authenticated_client :
    AuthorizationService → TokenRequest → String → Action Err Db Client
authenticated_client s req grant_type = do
  cid ← lift (parse_client_id req.client_id)
  c ← find_client s.platform cid
  fail_if (not (supports_grant_type c grant_type)) (client ClientError.unsupported_grant_type)
  fail_if (is_confidential c && not (verify_secret s.platform c req.client_secret))
      (client ClientError.auth_failed)
  pure c

-- The code of the request, verified and used up.
unfoldable pub redeem :
    AuthorizationService → TokenRequest → Client → Action Err Db AuthorizationCode
redeem s req c = do
  code ← lift (parse_code req.code)
  ac ← AuthCodes.find_by_code code
  AuthCode.verify s.platform ac req.code_verifier req.redirect_uri c.id
  AuthCodes.consume ac.code
  pure ac

-- A refresh token for clients that may use one, if offline access was granted; else the empty text.
unfoldable pub issue_refresh_token :
    AuthorizationService → Client → User → AuthorizationCode → Action Err Db String
issue_refresh_token s c owner ac =
    if supports_grant_type c grant_type_refresh_token && has ac.scope scope_offline_access
    then (do
      scope ← lift (RefreshToken.Scopes.parse_scope ac.scope.value)
      issued ← RefreshToken.issue s.platform c.id owner.id scope ac.auth_time
      RefreshTokens.save issued.0
      pure issued.1)
    else pure ""

-- The tokens for a code that was redeemed.
unfoldable pub issue_tokens :
    AuthorizationService → Client → AuthorizationCode → Action Err Db TokenResponse
issue_tokens s c ac = do
  uid ← lift (parse_user_id ac.user_id)
  owner ← find_user uid
  access_claims ← new_access_token_claims s.issuer owner.id s.api_audience ac.scope.value
  access_token ← sign_claims s access_claims
  id_claims ←
      new_id_token_claims s.issuer owner.id c.id ac.nonce
        (if has ac.scope "profile" then owner.profile.name else "")
        (if has ac.scope "email" then owner.profile.email else "") ac.auth_time
        (compute_at_hash s.platform access_token)
  id_token ← sign_claims s id_claims
  refresh_token ← issue_refresh_token s c owner ac
  pure (new_token_response access_token id_token ac.scope.value refresh_token)

unfoldable pub authorization_code_grant :
    AuthorizationService → TokenRequest → Action Err Db TokenResponse
authorization_code_grant s req = do
  c ← authenticated_client s req grant_type_authorization_code
  ac ← redeem s req c
  issue_tokens s c ac
