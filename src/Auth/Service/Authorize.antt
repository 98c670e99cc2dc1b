-- ===== src/Auth/Service/Authorize.antt =====
-- `ValidateAuthorize`, `validateAuthorize` and `Authorize` of
-- app/auth/service/authorization_service.go. A Go pair of a result and a non-nil error is the error
-- `(result, error)`: the route redirects to the result's redirect_uri also after an error.
pub mod Redirect
pub mod Laws
pub mod Verified
use cc_orchestrator.Prelude.{String, Bool, not, ◌||◌, Option, none, some, all, ◌==◌}
use cc_orchestrator.Action.{Action, pure, raise, lift, fail_if, map_error, ◌>>=◌, ◌>>◌}
use cc_orchestrator.Auth.Errors.{Err, client, auth_code, owner_required, ClientError, AuthCodeError}
use cc_orchestrator.Auth.Client.{
  Client, parse_client_id, new_redirect_uri, validate_redirect_uri, supports_response_type,
  allows_scope,
}
use cc_orchestrator.Auth.User.{User}
use cc_orchestrator.Auth.AuthCode
use cc_orchestrator.Auth.AuthCode.Scopes.{Scope, parse_scope, scope_openid}
use cc_orchestrator.Auth.AuthCode.Challenge.{parse_code_challenge_method, new_code_challenge}
use cc_orchestrator.Auth.Db.{Db}
use cc_orchestrator.Auth.Directory.{find_client}
use cc_orchestrator.Auth.AuthCodes
use cc_orchestrator.Auth.Service.Dto.{
  AuthorizationService, AuthorizeRequest, AuthorizeResult, response_type_code,
}

abbrev pub Refusal : Type 0
Refusal = AuthorizeResult × Err

abbrev pub no_result : AuthorizeResult
no_result = record { redirect_uri = ""; code = ""; state = "" }

-- `return result, err` for the error of a call
abbrev pub refuse : {A : Type 0} → AuthorizeResult → Action Err Db A → Action Refusal Db A
refuse result m = map_error (λ e. (result, e)) m

-- The loop over the requested scopes; each error is the same, so their order does not matter.
unfoldable pub scopes_permitted : Client → Scope → Bool
scopes_permitted c scope = all (λ v. v == scope_openid || allows_scope c v) scope.values

-- The checks behind client_id and redirect_uri.
unfoldable pub check_request :
    Client → AuthorizeRequest → AuthorizeResult → Action Refusal Db AuthorizeResult
check_request c req verified = do
  fail_if (req.response_type == "") (verified, client ClientError.missing_response_type)
  fail_if
      (not (req.response_type == response_type_code)
        || not (supports_response_type c response_type_code))
      (verified, client ClientError.unsupported_response_type)
  scope ← refuse verified (lift (parse_scope req.scope))
  fail_if (not (scopes_permitted c scope)) (verified, auth_code AuthCodeError.invalid_scope)
  method ← refuse verified (lift (parse_code_challenge_method req.code_challenge_method))
  refuse verified (lift (new_code_challenge req.code_challenge method))
  pure verified

unfoldable pub validate_authorize :
    AuthorizationService → AuthorizeRequest → Action Refusal Db AuthorizeResult
validate_authorize s req = do
  cid ← refuse no_result (lift (parse_client_id req.client_id))
  c ← refuse no_result (find_client s.platform cid)
  redirect_uri ← refuse no_result (lift (new_redirect_uri s.platform req.redirect_uri))
  refuse no_result (lift (validate_redirect_uri c redirect_uri))
  check_request c req (record { redirect_uri = redirect_uri; code = ""; state = "" })

-- `Authorize` for a resource owner that is there.
unfoldable pub authorize_owner :
    AuthorizationService → AuthorizeRequest → User → Action Refusal Db AuthorizeResult
authorize_owner s req owner = do
  verified ← validate_authorize s req
  cid ← refuse verified (lift (parse_client_id req.client_id))
  scope ← refuse verified (lift (parse_scope req.scope))
  method ← refuse verified (lift (parse_code_challenge_method req.code_challenge_method))
  challenge ← refuse verified (lift (new_code_challenge req.code_challenge method))
  ac ←
      refuse verified
        (AuthCode.new cid owner.id verified.redirect_uri scope req.nonce challenge req.auth_time)
  refuse verified (AuthCodes.save ac)
  pure (record { redirect_uri = verified.redirect_uri; code = ac.code; state = req.state })

unfoldable pub authorize :
    AuthorizationService → AuthorizeRequest → Option User → Action Refusal Db AuthorizeResult
authorize s req none = raise (no_result, owner_required)
authorize s req (some owner) = authorize_owner s req owner
