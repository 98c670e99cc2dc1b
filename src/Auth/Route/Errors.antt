-- ===== src/Auth/Route/Errors.antt =====
-- app/auth/route/response.go and writeClientAuthError of client_auth.go: which response an error gets.
use cc_orchestrator.Prelude.{
  ℕ, String, Bool, true, false, ◌||◌, Option, none, some, ◌==◌, if◌then◌else◌,
}
use cc_orchestrator.Http.{Values, Link, Web, Writer, Response, set, set_header, write_json}
use cc_orchestrator.Auth.Errors.{
  Err, client, user, auth_code, refresh_token, token, unsupported_grant_type, access_denied,
  ClientError, UserError, AuthCodeError, RefreshTokenError, TokenError,
}
use cc_orchestrator.Auth.Route.{Body, failure, server_error, found}

unfoldable pub set_token_no_cache_headers : Writer → Writer
unfolding set_header
set_token_no_cache_headers w =
    set_header "Pragma" "no-cache" (set_header "Cache-Control" "no-store" w)

unfoldable pub is_unverified_authorize_error : Err → Bool
is_unverified_authorize_error (client ClientError.not_found) = true
is_unverified_authorize_error (client ClientError.invalid_client_id) = true
is_unverified_authorize_error (client ClientError.invalid_redirect_uri) = true
is_unverified_authorize_error (client ClientError.redirect_uri_mismatch) = true
is_unverified_authorize_error _ = false

unfoldable pub authorize_error_code : Err → String × String
authorize_error_code (client ClientError.not_found) = ("invalid_client", "unknown client")
authorize_error_code (client ClientError.invalid_client_id) =
    ("invalid_request", "client_id is required")
authorize_error_code (client ClientError.invalid_redirect_uri) =
    ("invalid_request", "redirect_uri is missing or malformed")
authorize_error_code (client ClientError.redirect_uri_mismatch) =
    ("invalid_request", "redirect_uri does not match a registered redirect uri")
authorize_error_code (client ClientError.missing_response_type) =
    ("invalid_request", "response_type is required")
authorize_error_code (client ClientError.unsupported_response_type) =
    ("unsupported_response_type", "only response_type=code is supported")
authorize_error_code (auth_code AuthCodeError.missing_openid_scope) =
    ("invalid_scope", "scope must include openid")
authorize_error_code (auth_code AuthCodeError.invalid_scope) =
    ("invalid_scope", "scope is missing or not permitted for this client")
authorize_error_code (auth_code AuthCodeError.unsupported_challenge_method) =
    ("invalid_request", "code_challenge_method must be S256")
authorize_error_code (auth_code AuthCodeError.invalid_code_verifier) =
    ("invalid_request", "code_challenge is missing or malformed")
authorize_error_code access_denied = ("access_denied", "resource owner denied the request")
authorize_error_code _ = ("", "")

abbrev pub shown_code : String × String → String × String
shown_code (code, description) = if code == "" then ("server_error", "") else (code, description)

abbrev pub set_unless_empty : String → String → Values → Values
set_unless_empty k v values = if v == "" then values else set k v values

-- A redirect to a parsed URL with some of its parameters set.
abbrev pub follow : Writer → (Values → Values) → Option Link → Response Body
follow w change none = server_error w
follow w change (some u) = found w (u.with_params (change u.params))

abbrev pub error_params : String × String → String → Values → Values
error_params (code, description) state values =
    set_unless_empty "state" state
      (set_unless_empty "error_description" description (set "error" code values))

unfoldable pub write_authorize_error : Web → Writer → String → String → Err → Response Body
unfolding is_unverified_authorize_error authorize_error_code
write_authorize_error web w redirect_uri state e =
    let shown = shown_code (authorize_error_code e) in
    if redirect_uri == "" || is_unverified_authorize_error e
    then write_json w 400 (failure shown.0 shown.1)
    else follow w (error_params shown state) (web.parse_link redirect_uri)

abbrev pub invalid_code : ℕ × String × String
invalid_code = (
  400, "invalid_grant",
  "the authorization code is invalid, expired, already used, or code_verifier does not match",
)

abbrev pub invalid_refresh : ℕ × String × String
invalid_refresh = (
  400, "invalid_grant",
  "the refresh token is invalid, expired, already used, or was not issued to this client",
)

unfoldable pub token_error_code : Err → ℕ × String × String
token_error_code unsupported_grant_type = (
  400, "unsupported_grant_type",
  "only grant_type=authorization_code and grant_type=refresh_token are supported",
)
token_error_code (client ClientError.unsupported_grant_type) = (
  400, "unsupported_grant_type",
  "only grant_type=authorization_code and grant_type=refresh_token are supported",
)
token_error_code (client ClientError.invalid_client_id) =
    (400, "invalid_request", "client_id is required")
token_error_code (client ClientError.not_found) = (400, "invalid_client", "unknown client")
token_error_code (client ClientError.auth_failed) =
    (401, "invalid_client", "client authentication failed")
token_error_code (user UserError.not_found) =
    (400, "invalid_grant", "the authorization grant is invalid, expired, or already used")
token_error_code (auth_code AuthCodeError.not_found) = invalid_code
token_error_code (auth_code AuthCodeError.already_consumed) = invalid_code
token_error_code (auth_code AuthCodeError.expired) = invalid_code
token_error_code (auth_code AuthCodeError.redirect_uri_mismatch) = invalid_code
token_error_code (auth_code AuthCodeError.client_mismatch) = invalid_code
token_error_code (auth_code AuthCodeError.pkce_verification_failed) = invalid_code
token_error_code (auth_code AuthCodeError.invalid_code_verifier) = invalid_code
token_error_code (refresh_token RefreshTokenError.invalid_scope) = (
  400, "invalid_scope",
  "requested scope exceeds the scope originally granted to this refresh token",
)
token_error_code (refresh_token RefreshTokenError.not_found) = invalid_refresh
token_error_code (refresh_token RefreshTokenError.reused) = invalid_refresh
token_error_code (refresh_token RefreshTokenError.client_mismatch) = invalid_refresh
token_error_code (refresh_token RefreshTokenError.expired) = invalid_refresh
token_error_code _ = (0, "", "")

abbrev pub shown_token_error : Writer → ℕ × String × String → Response Body
shown_token_error w (status, code, description) =
    if code == "" then server_error w else write_json w status (failure code description)

unfoldable pub write_token_error : Writer → Err → Response Body
unfolding token_error_code set_token_no_cache_headers
write_token_error w e = shown_token_error (set_token_no_cache_headers w) (token_error_code e)

unfoldable pub is_token_refusal : Err → Bool
is_token_refusal (token TokenError.invalid_token) = true
is_token_refusal (token TokenError.token_expired) = true
is_token_refusal (token TokenError.signature_invalid) = true
is_token_refusal (token TokenError.unexpected_alg) = true
is_token_refusal _ = false

unfoldable pub write_user_info_error : Writer → Err → Response Body
unfolding is_token_refusal
write_user_info_error w e =
    if is_token_refusal e
    then write_json (set_header "WWW-Authenticate" "Bearer error=\"invalid_token\"" w) 401
        (failure "invalid_token" "")
    else server_error w

unfoldable pub write_client_auth_error : Writer → Err → Response Body
write_client_auth_error w (client ClientError.invalid_client_id) =
    write_json w 401 (failure "invalid_client" "client_id is required")
write_client_auth_error w (client ClientError.not_found) =
    write_json w 401 (failure "invalid_client" "unknown client")
write_client_auth_error w (client ClientError.auth_failed) =
    write_json (set_header "WWW-Authenticate" "Basic realm=\"oauth\"" w) 401
      (failure "invalid_client" "client authentication failed")
write_client_auth_error w _ = server_error w
