-- ===== src/Auth/Route/Browser.antt =====
-- The pages of the server: app/auth/route/{login,consent,logout}_handler.go. Templates are rendered
-- from the data that a page holds.
pub mod Logout
use cc_orchestrator.Prelude.{
  String, Bool, true, Option, none, some, List, ◌++◌, map, Result, ok, err, is_ok, and_then, ◌==◌,
  if◌then◌else◌,
}
use cc_orchestrator.Action.{Action, pure, raise, lift, attempt, map_error, on_part, ◌>>=◌, ◌>>◌}
use cc_orchestrator.Http.{
  Values, Read, Request, Writer, Response, Handler, Link, fresh, get, set, set_header, write_json,
  write_header,
}
use cc_orchestrator.Auth.Errors.{Err, session_not_found, invalid_credentials, access_denied}
use cc_orchestrator.Auth.Client.{parse_client_id, new_redirect_uri, validate_redirect_uri}
use cc_orchestrator.Auth.User.{User}
use cc_orchestrator.Auth.AuthCode.Scopes.{parse_scope, scope_openid}
use cc_orchestrator.Auth.Db.{Db}
use cc_orchestrator.Auth.Directory.{find_client}
use cc_orchestrator.Auth.Service.Dto.{AuthorizeRequest, AuthorizeResult}
use cc_orchestrator.Auth.Service.Authorize.{Refusal, validate_authorize}
use cc_orchestrator.Auth.Service.Consent.{grant}
use cc_orchestrator.Auth.Service.Login.{
  Server, put_db, on_db, login, logout, user_from_session, peek_pending_authorize,
  consume_pending_authorize,
}
use cc_orchestrator.Auth.Route.{
  Body, Routes, platform_of, login_page, consent_page, failure, server_error, found, issuer_path,
}
use cc_orchestrator.Auth.Route.Errors.{write_authorize_error, set_unless_empty}
use cc_orchestrator.Auth.Route.Cookies.{
  read_session_cookie, read_pending_cookie, set_session_cookie, clear_session_cookie,
  clear_pending_cookie, pending_authorize_location,
}
use cc_orchestrator.Auth.Route.Authorize.{parse_authorize_request}

unfoldable pub render : Writer → Body → Response Body
unfolding set_header write_header
render w page = write_header (set_header "Content-Type" "text/html; charset=utf-8" w) 200 page

abbrev pub invalid_request : Writer → String → Response Body
invalid_request w description = write_json w 400 (failure "invalid_request" description)

-- r.ParseForm with the limit of net/http, and r.FormValue
abbrev pub parse_form : Request → Result (Response Body) Values
parse_form r = elim (r.form none) [ Read.done form ↦ ok form | _ ↦ err (invalid_request fresh "") ]

unfoldable pub handle_login_get : Request → Handler Body Server (Response Body)
handle_login_get r = pure (render fresh (login_page (record { error = ""; username = "" })))

abbrev pub login_failure : String → Err → Response Body
login_failure username invalid_credentials =
    render fresh
      (login_page (record { error = "Invalid username or password."; username = username }))
login_failure username e = server_error fresh

abbrev pub resumed : Writer → Option String → Option (Response Body)
resumed w none = none
resumed w (some to) = some (found w to)

module _ (h : Routes) (r : Request) where
  -- The fields of the body come before those of the query.
  abbrev pub form_value : Values → String → String
  form_value form k = get k (form ++ r.query)

  abbrev pub signed_in : Writer → Result Err String → Response Body
  signed_in w (err e) = found w (issuer_path h.issuer "/login?signed_in=1")
  signed_in w (ok raw_query) = elim (pending_authorize_location h.web h.issuer raw_query) [
    | none ↦ found w (issuer_path h.issuer "/login?signed_in=1")
    | some to ↦ found w to
  ]

  unfoldable pub after_login : Writer → Handler Body Server (Response Body)
  after_login w =
      if read_pending_cookie r == ""
      then pure (found w (issuer_path h.issuer "/login?signed_in=1"))
      else (do
        pending ← attempt (consume_pending_authorize (read_pending_cookie r))
        pure (signed_in (clear_pending_cookie h.secure_cookies w) pending))

  unfoldable pub handle_login_post : Handler Body Server (Response Body)
  handle_login_post = do
    form ← lift (parse_form r)
    let username : String = form_value form "username"
    sess ←
        map_error (login_failure username)
          (login (platform_of h) username (form_value form "password"))
    after_login (set_session_cookie sess.id h.secure_cookies fresh)

  unfoldable pub is_allowed_post_logout_redirect : String → String → Action Err Db Bool
  is_allowed_post_logout_redirect client_id post_logout = do
    cid ← lift (parse_client_id client_id)
    c ← find_client (platform_of h) cid
    redirect_uri ← lift (new_redirect_uri (platform_of h) post_logout)
    pure (is_ok (validate_redirect_uri c redirect_uri))

  abbrev pub logged_out : Writer → Response Body
  logged_out w = found w (issuer_path h.issuer "/login?logged_out=1")

  abbrev pub with_state : String → Link → String
  with_state state u = if state == "" then u.text else u.with_params (set "state" state u.params)

  abbrev pub post_logout_target : Writer → String → String → Option Link → Response Body
  post_logout_target w post_logout state none = logged_out w
  post_logout_target w post_logout state (some u) = found w (with_state state u)

  abbrev pub after_logout : Writer → String → Result Err Bool → Response Body
  after_logout w post_logout (ok true) =
      post_logout_target w post_logout (get "state" r.query) (h.web.parse_link post_logout)
  after_logout w post_logout _ = logged_out w

  -- An error of the check means that the redirect is not allowed.
  unfoldable pub handle_logout : Handler Body Server (Response Body)
  handle_logout = do
    map_error (λ (e : Err). server_error fresh) (logout (read_session_cookie r))
    let w : Writer = clear_session_cookie h.secure_cookies fresh
    let post_logout : String = get "post_logout_redirect_uri" r.query
    let client_id : String = get "client_id" r.query
    if post_logout == ""
        then pure (logged_out w)
        else if client_id == ""
        then pure (logged_out w)
        else (do
          allowed ← attempt (on_db (is_allowed_post_logout_redirect client_id post_logout))
          pure (after_logout w post_logout allowed))

  abbrev pub session_failure : Err → Response Body
  session_failure session_not_found = found fresh (issuer_path h.issuer "/login")
  session_failure e = server_error fresh

  abbrev pub pending_failure : Err → Response Body
  pending_failure session_not_found = invalid_request fresh "authorization request expired"
  pending_failure e = server_error fresh

  unfoldable pub read_pending_query : Handler Body Server String
  read_pending_query =
      if read_pending_cookie r == ""
      then raise (invalid_request fresh "missing pending authorization")
      else map_error pending_failure (peek_pending_authorize (read_pending_cookie r))

  abbrev pub parsed_query : Option Values → Result (Response Body) AuthorizeRequest
  parsed_query none = err (invalid_request fresh "")
  parsed_query (some values) = ok (parse_authorize_request values)

  unfoldable pub authorize_request_from_raw_query : String → Result (Response Body) AuthorizeRequest
  authorize_request_from_raw_query raw_query = parsed_query (h.web.parse_query raw_query)

  unfoldable pub load_pending_consent_request : Handler Body Server (User × AuthorizeRequest)
  load_pending_consent_request = do
    owner ← map_error session_failure (user_from_session (read_session_cookie r))
    raw_query ← read_pending_query
    req ← lift (authorize_request_from_raw_query raw_query)
    map_error (λ (x : Refusal). write_authorize_error h.web fresh "" req.state x.1)
        (on_part (λ (sv : Server). sv.db) put_db (validate_authorize h.svc req))
    pure (owner, req)

  unfoldable pub clear_pending : Handler Body Server Writer
  clear_pending = if read_pending_cookie r == "" then pure fresh else (do
    consumed ← attempt (consume_pending_authorize (read_pending_cookie r))
    pure (clear_pending_cookie h.secure_cookies fresh))

  abbrev pub resume_at : Writer → Option String → Response Body
  resume_at w none = invalid_request w ""
  resume_at w (some to) = found w to

  abbrev pub resume_with : Writer → Result Err String → Response Body
  resume_with w (err e) = invalid_request w ""
  resume_with w (ok raw_query) = resume_at w (pending_authorize_location h.web h.issuer raw_query)

  unfoldable pub resume_authorize : Handler Body Server (Response Body)
  resume_authorize = if read_pending_cookie r == "" then raise (invalid_request fresh "") else (do
    raw_query ← attempt (consume_pending_authorize (read_pending_cookie r))
    pure (resume_with (clear_pending_cookie h.secure_cookies fresh) raw_query))

  abbrev pub label : String → String
  label v =
      if v == scope_openid
      then "Verify your identity (openid)"
      else if v == "profile"
      then "View your profile name"
      else if v == "email"
      then "View your email address"
      else v

  unfoldable pub scope_labels : String → Result Err (List String)
  scope_labels scope_raw = and_then (parse_scope scope_raw) λ scope. ok (map label scope.values)

  abbrev pub consent_shown : User → AuthorizeRequest → Result Err (List String) → Response Body
  consent_shown owner req (err e) = write_json fresh 400 (failure "invalid_scope" "")
  consent_shown owner req (ok scopes) = render fresh (
      consent_page
        (record { client_id = req.client_id; username = owner.username; scopes = scopes }))

  unfoldable pub handle_consent_get : Handler Body Server (Response Body)
  handle_consent_get = do
    (owner, req) ← load_pending_consent_request
    pure (consent_shown owner req (scope_labels req.scope))

  abbrev pub denied : Writer → AuthorizeRequest → Result Refusal AuthorizeResult → Response Body
  denied w req (err (result, e)) = write_authorize_error h.web w result.redirect_uri req.state e
  denied w req (ok verified) =
      write_authorize_error h.web w verified.redirect_uri req.state access_denied

  unfoldable pub accept : User → AuthorizeRequest → Handler Body Server (Response Body)
  accept owner req = do
    map_error (λ (e : Err). server_error fresh) (on_db (grant owner.id req.client_id req.scope))
    resume_authorize

  unfoldable pub deny : AuthorizeRequest → Handler Body Server (Response Body)
  deny req = do
    verified ← attempt (on_part (λ (sv : Server). sv.db) put_db (validate_authorize h.svc req))
    w ← clear_pending
    pure (denied w req verified)

  unfoldable pub handle_consent_post : Handler Body Server (Response Body)
  handle_consent_post = do
    form ← lift (parse_form r)
    (owner, req) ← load_pending_consent_request
    let action : String = form_value form "action"
    if action == "accept"
        then accept owner req
        else if action == "deny"
        then deny req
        else raise (invalid_request fresh "")
