-- ===== src/Auth/Errors.antt =====
-- The sentinel errors of app/auth/domain/*/errors.go and of app/auth/service. A `%w` wrapping keeps
-- what `errors.Is` tells apart, so a wrapped error is the error itself.

pub data ClientError : Type 0 where
  not_found invalid_client_id invalid_redirect_uri redirect_uri_mismatch : ClientError
  missing_response_type unsupported_response_type unsupported_grant_type auth_failed : ClientError

pub data UserError : Type 0 where
  not_found invalid_user_id invalid_username invalid_email : UserError

pub data AuthCodeError : Type 0 where
  not_found already_consumed expired redirect_uri_mismatch client_mismatch : AuthCodeError
  pkce_verification_failed invalid_code_verifier unsupported_challenge_method : AuthCodeError
  missing_openid_scope invalid_scope : AuthCodeError

pub data RefreshTokenError : Type 0 where
  not_found expired reused client_mismatch invalid_scope invalid_token : RefreshTokenError

pub data TokenError : Type 0 where
  invalid_token token_expired unexpected_alg signature_invalid : TokenError

pub data Err : Type 0 where
  client : ClientError → Err
  user : UserError → Err
  auth_code : AuthCodeError → Err
  refresh_token : RefreshTokenError → Err
  token : TokenError → Err
  session_not_found : Err
  invalid_credentials : Err
  unsupported_grant_type : Err
  owner_required : Err
  signing : Err
  -- a failed statement, a failed `rand.Read`
  database entropy : Err
  -- ctx.Err() of a cancelled request
  cancelled : Err
  access_denied : Err
