-- ===== src/Auth/Service.antt =====
-- The authorization service: app/auth/service/authorization_service.go, dto.go and revoke.go. The
-- children hold one use case each.
pub mod Dto
pub mod Authorize
pub mod CodeGrant
pub mod RefreshGrant
pub mod Revoke
pub mod Login
pub mod Consent
pub mod UserInfo
pub mod Admin
pub mod Discovery
pub mod SingleUse
use cc_orchestrator.Prelude.{◌==◌, if◌then◌else◌}
use cc_orchestrator.Action.{Action, raise}
use cc_orchestrator.Auth.Errors.{Err, unsupported_grant_type}
use cc_orchestrator.Auth.Db.{Db}
use Dto.{
  AuthorizationService, TokenRequest, TokenResponse, grant_type_authorization_code,
  grant_type_refresh_token,
}
use CodeGrant.{authorization_code_grant}
use RefreshGrant.{refresh_token_grant}

-- The dispatch on grant_type.
unfoldable pub token : AuthorizationService → TokenRequest → Action Err Db TokenResponse
token s req =
    if req.grant_type == grant_type_authorization_code
    then authorization_code_grant s req
    else if req.grant_type == grant_type_refresh_token
    then refresh_token_grant s req
    else raise unsupported_grant_type
