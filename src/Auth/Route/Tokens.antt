-- ===== src/Auth/Route/Tokens.antt =====
-- The endpoints that clients call: app/auth/route/{token,revoke,introspect,userinfo}_handler.go and
-- client_auth.go.
pub mod Answers
use cc_orchestrator.Prelude.{String, not, ◌&&◌, Option, none, some, Result, ok, err, ◌==◌}
use cc_orchestrator.GoText.{cut, cut_prefix}
use cc_orchestrator.Action.{Action, pure, lift, fail_if, map_error, ◌>>=◌, ◌>>◌}
use cc_orchestrator.Http.{
  Values, Request, Writer, Response, Handler, Web, fresh, get, write_json, write_header,
}
use cc_orchestrator.Auth.Errors.{Err, client, token, ClientError, TokenError}
use cc_orchestrator.Auth.Platform.{Platform}
use cc_orchestrator.Auth.Client.{parse_client_id, is_confidential, verify_secret}
use cc_orchestrator.Auth.Db.{Db}
use cc_orchestrator.Auth.Directory.{find_client}
use cc_orchestrator.Auth.Service
use cc_orchestrator.Auth.Service.Dto.{TokenRequest}
use cc_orchestrator.Auth.Service.Revoke.{RevokeRequest, revoke}
use cc_orchestrator.Auth.Service.UserInfo.{introspect, user_info}
use cc_orchestrator.Auth.Service.Login.{Server, on_db}
use cc_orchestrator.Auth.Route.{
  Body, Routes, platform_of, empty, tokens, claims, introspection, server_error, parse_form_body,
}
use cc_orchestrator.Auth.Route.Errors.{
  set_token_no_cache_headers, write_token_error, write_client_auth_error, write_user_info_error,
}

-- `if err != nil { respond with it; return }` for a call on the database
abbrev pub or_respond :
    {A : Type 0} → (Err → Response Body) → Action Err Db A → Handler Body Server A
or_respond respond m = map_error respond (on_db m)

abbrev pub basic_parts : Option String → Option (String × String)
basic_parts none = none
basic_parts (some decoded) = cut b':' decoded

abbrev pub basic_credentials : Web → Option String → Option (String × String)
basic_credentials web none = none
basic_credentials web (some encoded) = basic_parts (web.decode_base64 encoded)

abbrev pub or_form : Values → Option (String × String) → String × String
or_form form none = (get "client_id" form, get "client_secret" form)
or_form form (some credentials) = credentials

unfoldable pub extract_client_credentials : Web → Request → Values → String × String
extract_client_credentials web r form =
    or_form form (basic_credentials web (cut_prefix (get "Authorization" r.headers) "Basic "))

unfoldable pub token_request : Values → String × String → TokenRequest
token_request form (client_id, client_secret) = record {
  grant_type = get "grant_type" form;
  code = get "code" form;
  redirect_uri = get "redirect_uri" form;
  client_id = client_id;
  client_secret = client_secret;
  code_verifier = get "code_verifier" form;
  refresh_token = get "refresh_token" form;
  scope = get "scope" form;
}

unfoldable pub handle_token : Routes → Request → Handler Body Server (Response Body)
unfolding set_token_no_cache_headers token_request
handle_token h r = do
  let w : Writer = set_token_no_cache_headers fresh
  form ← parse_form_body w r
  let req : TokenRequest = token_request form (extract_client_credentials h.web r form)
  resp ← or_respond (write_token_error w) (Service.token h.svc req)
  pure (write_json (set_token_no_cache_headers w) 200 (tokens resp))

unfoldable pub revoke_request : Values → String × String → RevokeRequest
revoke_request form (client_id, client_secret) = record {
  token = get "token" form;
  token_type_hint = get "token_type_hint" form;
  client_id = client_id;
  client_secret = client_secret;
}

unfoldable pub handle_revoke : Routes → Request → Handler Body Server (Response Body)
unfolding revoke_request
handle_revoke h r = do
  form ← parse_form_body fresh r
  let req : RevokeRequest = revoke_request form (extract_client_credentials h.web r form)
  or_respond (λ e. server_error fresh) (revoke (platform_of h) req)
  pure (write_header fresh 200 empty)

unfoldable pub authenticate_client : Platform → String → String → Action Err Db (Unit {0})
authenticate_client p client_id client_secret = do
  fail_if (client_id == "") (client ClientError.invalid_client_id)
  cid ← lift (parse_client_id client_id)
  c ← find_client p cid
  fail_if (is_confidential c && not (verify_secret p c client_secret))
      (client ClientError.auth_failed)

unfoldable pub handle_introspect : Routes → Request → Handler Body Server (Response Body)
handle_introspect h r = do
  form ← parse_form_body fresh r
  let credentials : String × String = extract_client_credentials h.web r form
  or_respond (write_client_auth_error fresh)
      (authenticate_client (platform_of h) credentials.0 credentials.1)
  pure (write_json fresh 200 (introspection (introspect h.verification (get "token" form))))

abbrev pub bearer_prefix : String
bearer_prefix = "Bearer "

abbrev pub bearer_or_refuse : Option String → Result (Response Body) String
bearer_or_refuse none = err (write_user_info_error fresh (token TokenError.invalid_token))
bearer_or_refuse (some t) = ok t

unfoldable pub handle_user_info : Routes → Request → Handler Body Server (Response Body)
handle_user_info h r = do
  bearer_token ← lift (bearer_or_refuse (cut_prefix (get "Authorization" r.headers) bearer_prefix))
  dto ← or_respond (write_user_info_error fresh) (user_info h.verification bearer_token)
  pure (write_json fresh 200 (claims dto))
