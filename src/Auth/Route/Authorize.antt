-- ===== src/Auth/Route/Authorize.antt =====
-- GET /authorize: app/auth/route/authorize_handler.go. Durations are in nanoseconds, as int64.
pub mod MaxAge
pub mod Redirects
use cc_orchestrator.Prelude.{
  ℕ, ◌+◌, ◌-◌, ◌*◌, ◌%◌, String, Bool, true, false, Option, none, some, Result, ok, err, ltb, leb,
  ◌==◌, if◌then◌else◌,
}
use cc_orchestrator.Prelude.Int.{ℤ, pos, negsuc, sub_ℕ, ltb_ℤ}
use cc_orchestrator.Action.{
  Time, Action, pure, raise, lift, attempt, map_error, on_part, time_now, ◌>>=◌, ◌>>◌,
}
use cc_orchestrator.Http.{
  Values, Request, Writer, Response, Handler, Web, fresh, get, set, del, respond_if,
}
use cc_orchestrator.Auth.Errors.{Err, session_not_found}
use cc_orchestrator.Auth.User.{User}
use cc_orchestrator.Auth.Db.{Db}
use cc_orchestrator.Auth.Sessions.{Session}
use cc_orchestrator.Auth.Service.Dto.{AuthorizeRequest, AuthorizeResult}
use cc_orchestrator.Auth.Service.Authorize.{Refusal, validate_authorize, authorize}
use cc_orchestrator.Auth.Service.Consent.{has_grant}
use cc_orchestrator.Auth.Service.Login.{
  Server, put_db, on_db, find_session, user_from_session, save_pending_authorize, logout,
}
use cc_orchestrator.Auth.Route.{Body, Routes, server_error, found, issuer_path}
use cc_orchestrator.Auth.Route.Errors.{write_authorize_error, follow, set_unless_empty}
use cc_orchestrator.Auth.Route.Cookies.{
  read_session_cookie, set_pending_cookie, clear_session_cookie,
}

-- The members of AuthorizeRequest, of a query or of a stored one. `AuthTime` is the zero time.
unfoldable pub parse_authorize_request : Values → AuthorizeRequest
parse_authorize_request q = record {
  response_type = get "response_type" q;
  client_id = get "client_id" q;
  redirect_uri = get "redirect_uri" q;
  scope = get "scope" q;
  state = get "state" q;
  nonce = get "nonce" q;
  code_challenge = get "code_challenge" q;
  code_challenge_method = get "code_challenge_method" q;
  login_hint = get "login_hint" q;
  auth_time = 0;
}

abbrev pub non_negative : Option ℤ → Option ℕ
non_negative (some (pos n)) = some n
non_negative _ = none

unfoldable pub parse_max_age : Web → Values → Option ℕ
parse_max_age web q =
    let s = get "max_age" q in if s == "" then none else non_negative (web.scan_int s)

unfoldable pub sanitized_pending_query : Web → Values → String
sanitized_pending_query web q = web.encode (del "max_age" (del "prompt" q))

abbrev pub error_and_state : String → String → Values → Values
error_and_state code state values = set_unless_empty "state" state (set "error" code values)

unfoldable pub write_authorize_error_redirect :
    Web → Writer → String → String → String → Response Body
write_authorize_error_redirect web w redirect_uri state oauth_error_code =
    follow w (error_and_state oauth_error_code state) (web.parse_link redirect_uri)

unfoldable pub write_login_required_redirect : Web → Writer → String → String → Response Body
unfolding write_authorize_error_redirect
write_login_required_redirect web w redirect_uri state =
    write_authorize_error_redirect web w redirect_uri state "login_required"

-- The value of an int64 with these 64 bits.
abbrev pub as_int64 : ℕ → ℤ
as_int64 n = if ltb n 9_223_372_036_854_775_808 then pos n else sub_ℕ n 18_446_744_073_709_551_616

-- time.Duration(maxAge) * time.Second, which wraps around
unfoldable pub max_age_duration : ℕ → ℤ
max_age_duration max_age = as_int64 (max_age * 1_000_000_000 % 18_446_744_073_709_551_616)

-- time.Since, which stops at the largest and the smallest duration
unfoldable pub since : Time → Time → ℤ
since now t =
    if leb t now
    then (if ltb ((now - t) * 1000) 9_223_372_036_854_775_808
        then pos ((now - t) * 1000)
        else pos 9_223_372_036_854_775_807)
    else (if ltb ((t - now) * 1000) 9_223_372_036_854_775_809
        then sub_ℕ 0 ((t - now) * 1000)
        else sub_ℕ 0 9_223_372_036_854_775_808)

abbrev pub code_params : AuthorizeResult → Values → Values
code_params result values = set_unless_empty "state" result.state (set "code" result.code values)

module _ (h : Routes) (r : Request) where
  -- The request is remembered, and the browser sent to a page of the server.
  unfoldable pub save_pending_and_go : Writer → String → Handler Body Server (Response Body)
  save_pending_and_go w page = do
    pending_id ←
        map_error (λ (e : Err). server_error w)
          (save_pending_authorize (sanitized_pending_query h.web r.query))
    pure (found (set_pending_cookie pending_id h.secure_cookies w) (issuer_path h.issuer page))

  unfoldable pub login_page_or_none : Writer → String → String → Handler Body Server (Response Body)
  login_page_or_none w prompt redirect_uri =
      if prompt == "none"
      then raise (write_login_required_redirect h.web w redirect_uri (get "state" r.query))
      else save_pending_and_go w "/login"

  -- A failed deletion of the session is only logged.
  unfoldable pub end_session : Session → Handler Body Server Writer
  end_session sess = do
    deleted ← attempt (logout sess.id)
    pure (clear_session_cookie h.secure_cookies fresh)

  unfoldable pub issue_code : AuthorizeRequest → User → Handler Body Server (Response Body)
  issue_code req owner = do
    result ←
        map_error
          (λ (x : Refusal). write_authorize_error h.web fresh x.0.redirect_uri req.state x.1)
          (on_part (λ (sv : Server). sv.db) put_db (authorize h.svc req (some owner)))
    pure (follow fresh (code_params result) (h.web.parse_link result.redirect_uri))

  unfoldable pub after_consent :
      AuthorizeRequest → User → String → String → Bool → Handler Body Server (Response Body)
  after_consent req owner prompt redirect_uri true = issue_code req owner
  after_consent req owner prompt redirect_uri false =
      if prompt == "none"
      then raise
          (write_authorize_error_redirect h.web fresh redirect_uri req.state "consent_required")
      else save_pending_and_go fresh "/consent"

  unfoldable pub with_owner :
      AuthorizeRequest → String → String → Result Err User → Handler Body Server (Response Body)
  with_owner req prompt redirect_uri (err session_not_found) = save_pending_and_go fresh "/login"
  with_owner req prompt redirect_uri (err e) = raise (server_error fresh)
  with_owner req prompt redirect_uri (ok owner) = do
    has_consent ←
        map_error (λ (e : Err). server_error fresh)
          (on_db (has_grant owner.id req.client_id req.scope))
    after_consent req owner prompt redirect_uri has_consent

  unfoldable pub with_session :
      AuthorizeRequest → String → String → String → Session → Handler Body Server (Response Body)
  with_session req prompt redirect_uri session_id sess = do
    owner ← attempt (user_from_session session_id)
    with_owner (record req { auth_time = sess.authenticated_at }) prompt redirect_uri owner

  unfoldable pub after_age_check :
      AuthorizeRequest
      → String
      → String
      → String
      → Session
      → Bool
      → Handler Body Server (Response Body)
  after_age_check req prompt redirect_uri session_id sess true = do
    w ← end_session sess
    login_page_or_none w prompt redirect_uri
  after_age_check req prompt redirect_uri session_id sess false =
      with_session req prompt redirect_uri session_id sess

  unfoldable pub within_max_age :
      AuthorizeRequest
      → String
      → String
      → String
      → Session
      → Option ℕ
      → Handler Body Server (Response Body)
  within_max_age req prompt redirect_uri session_id sess none =
      with_session req prompt redirect_uri session_id sess
  within_max_age req prompt redirect_uri session_id sess (some max_age) = do
    now ← time_now
    after_age_check req prompt redirect_uri session_id sess
        (ltb_ℤ (max_age_duration max_age) (since now sess.authenticated_at))

  unfoldable pub after_lookup :
      AuthorizeRequest
      → String
      → String
      → String
      → Result Err Session
      → Handler Body Server (Response Body)
  after_lookup req prompt redirect_uri session_id (err e) =
      login_page_or_none fresh prompt redirect_uri
  after_lookup req prompt redirect_uri session_id (ok sess) =
      if prompt == "login"
      then (do w ← end_session sess; save_pending_and_go w "/login")
      else within_max_age req prompt redirect_uri session_id sess (parse_max_age h.web r.query)

  unfoldable pub handle_authorize : Handler Body Server (Response Body)
  handle_authorize = do
    let req : AuthorizeRequest = parse_authorize_request r.query
    verified ←
        map_error
          (λ (x : Refusal). write_authorize_error h.web fresh x.0.redirect_uri req.state x.1)
          (on_part (λ (sv : Server). sv.db) put_db (validate_authorize h.svc req))
    sess ← attempt (find_session (read_session_cookie r))
    after_lookup req (get "prompt" r.query) verified.redirect_uri (read_session_cookie r) sess
