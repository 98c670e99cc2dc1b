-- ===== src/Auth/Route/Authorize/Redirects.antt =====
-- Where GET /authorize may send a browser.
use cc_orchestrator.Prelude.{
  ℕ, String, ◌≡◌, ◌⊎◌, inl, inr, refl, Bool, true, false, ◌||◌, Option, none, some, List, Result,
  ok, err, ◌==◌, Bool-cases,
}
use cc_orchestrator.Action.{Env, World, Action, on_part}
use cc_orchestrator.Action.Keeps.{
  Keeps, pure-Keeps, lift-Keeps, bind-Keeps, query-Keeps, fail_if-Keeps, if_Keeps,
}
use cc_orchestrator.Http.{Values, Link, Request, Writer, Response, get, serve, write_json}
use cc_orchestrator.Http.Answers.{
  Runs, Any, pure-Runs, raise-Runs, if_Runs, bind-Runs, time_now-Runs, attempt-Runs, map_error-Runs,
  Keeps-Runs, serve-Runs, on_part-Runs, on_part-Keeps, on_other_part-Keeps,
}
use cc_orchestrator.Auth.Errors.{Err, session_not_found}
use cc_orchestrator.Auth.User.{User}
use cc_orchestrator.Auth.Db.{Db, ClientRow}
use cc_orchestrator.Auth.Directory
use cc_orchestrator.Auth.Directory.Reads.{find_user-Keeps}
use cc_orchestrator.Auth.Sessions.{Session, IdpSessionStore}
use cc_orchestrator.Auth.Service.Dto.{AuthorizeRequest}
use cc_orchestrator.Auth.Service.Authorize.{Refusal, authorize}
use cc_orchestrator.Auth.Service.Authorize.Verified.{
  IsVerified, OnClients, IsRefusal, validate_authorize-Runs, authorize-Runs,
}
use cc_orchestrator.Auth.Service.Consent.{has_grant, normalize_scope}
use cc_orchestrator.Auth.Service.Login.{
  Server, put_db, put_idp, on_idp, find_session, user_from_session, save_pending_authorize, logout,
}
use cc_orchestrator.Auth.Route.{Body, Routes, location, found, issuer_path}
use cc_orchestrator.Auth.Route.Errors.{write_authorize_error, follow, is_unverified_authorize_error}
use cc_orchestrator.Auth.Route.Authorize.{
  parse_authorize_request, write_authorize_error_redirect, write_login_required_redirect,
  save_pending_and_go, login_page_or_none, end_session, issue_code, after_consent, with_owner,
  with_session, after_age_check, within_max_age, after_lookup, handle_authorize,
}

module _ (h : Routes) (r : Request) (rows : List ClientRow) where
  -- A page of the server.
  abbrev pub IsPage : String → Type 0
  IsPage to = (to ≡ issuer_path h.issuer "/login") ⊎ (to ≡ issuer_path h.issuer "/consent")

  -- The requested redirect_uri, registered with the client of the request, with some parameters.
  abbrev pub IsRedirect : String → Type 0
  IsRedirect to =
      (uri : String) × (u : Link) × (values : Values) × IsVerified h.svc rows
        (parse_authorize_request r.query) uri
      × (h.web.parse_link uri ≡ some u)
      × (to ≡ u.with_params values)

  -- A response that redirects goes to a page or to the redirect_uri.
  abbrev pub IsSent : Body → Type 0
  IsSent (location to) = IsPage to ⊎ IsRedirect to
  IsSent _ = Unit {0}

  abbrev IsSafe : Response Body → Type 0
  IsSafe resp = IsSent resp.body

  abbrev IsVerifiedHere : String → Type 0
  IsVerifiedHere uri = IsVerified h.svc rows (parse_authorize_request r.query) uri

  abbrev Unchanged : Server → Type 0
  Unchanged sv = sv.db.clients ≡ rows

  follow-IsSafe :
      (w : Writer) (change : Values → Values) (uri : String)
      → IsVerifiedHere uri
      → IsSafe (follow w change (h.web.parse_link uri))
  unfolding found write_json
  follow-IsSafe w change uri verified = go (h.web.parse_link uri) refl
    where
      go : (o : Option Link) → h.web.parse_link uri ≡ o → IsSafe (follow w change o)
      go none e = tt
      go (some u) e = inr (uri, u, change u.params, verified, e, refl)

  write_authorize_error-IsSafe :
      (state : String) (w : Writer) (x : Refusal)
      → IsRefusal h.svc rows (parse_authorize_request r.query) x
      → IsSafe (write_authorize_error h.web w x.0.redirect_uri state x.1)
  unfolding write_authorize_error write_json
  write_authorize_error-IsSafe state w (result, e) (inl none_named) = rw none_named tt
  write_authorize_error-IsSafe state w (result, e) (inr verified) =
      elim (Bool-cases (result.redirect_uri == "" || is_unverified_authorize_error e)) [
        | inl plain ↦ rw plain tt
        | inr safe ↦ rw safe (follow-IsSafe w _ result.redirect_uri verified)
      ]

  error_redirect-IsSafe :
      (w : Writer) (uri state code : String)
      → IsVerifiedHere uri
      → IsSafe (write_authorize_error_redirect h.web w uri state code)
  unfolding write_authorize_error_redirect
  error_redirect-IsSafe w uri state code verified = follow-IsSafe w _ uri verified

  idp-Keeps : {A : Type 0} (m : Action Err IdpSessionStore A) → Keeps Unchanged (on_idp m)
  idp-Keeps m = on_other_part-Keeps _ put_idp m (λ t s p. p)

  db-Runs :
      {E A : Type 0} {Φ : E → Type 0} {Ψ : A → Type 0} {m : Action E Db A}
      → Runs (OnClients h.svc rows (parse_authorize_request r.query)) Φ Ψ m
      → Runs Unchanged Φ Ψ (on_part (λ (sv : Server). sv.db) put_db m)
  db-Runs k = on_part-Runs _ put_db (λ db. db.clients ≡ rows) (λ t s. refl) k

  save_pending-Runs :
      (w : Writer) (page : String)
      → IsPage (issuer_path h.issuer page)
      → Runs Unchanged IsSafe IsSafe (save_pending_and_go h r w page)
  unfolding save_pending_and_go save_pending_authorize found write_json
  save_pending-Runs w page safe =
      bind-Runs
        (map_error-Runs _ (Keeps-Runs (bind-Keeps (idp-Keeps _) λ p. pure-Keeps _)) (λ e any. tt))
        λ id any. pure-Runs _ (inl safe)

  login_page-Runs :
      (w : Writer) (prompt uri : String)
      → IsVerifiedHere uri
      → Runs Unchanged IsSafe IsSafe (login_page_or_none h r w prompt uri)
  unfolding login_page_or_none write_login_required_redirect
  login_page-Runs w prompt uri verified =
      if_Runs (prompt == "none")
        (λ e.
          raise-Runs _
            (error_redirect-IsSafe w uri (get "state" r.query) "login_required" verified))
        (λ e. save_pending-Runs w "/login" (inl refl))

  end_session-Runs : (sess : Session) → Runs Unchanged IsSafe Any (end_session h r sess)
  unfolding end_session logout
  end_session-Runs sess =
      bind-Runs (attempt-Runs (if_Keeps _ (pure-Keeps _) (idp-Keeps _)))
        λ deleted any. pure-Runs _ tt

  issue_code-Runs :
      (req : AuthorizeRequest) (owner : User)
      → Runs
          (OnClients h.svc rows (parse_authorize_request r.query))
          (IsRefusal h.svc rows (parse_authorize_request r.query))
          (λ result. IsVerifiedHere result.redirect_uri)
          (authorize h.svc req (some owner))
      → Runs Unchanged IsSafe IsSafe (issue_code h r req owner)
  unfolding issue_code
  issue_code-Runs req owner authorized =
      bind-Runs (map_error-Runs _ (db-Runs authorized) (write_authorize_error-IsSafe _ _))
        λ result verified. pure-Runs _ (follow-IsSafe _ _ result.redirect_uri verified)

  module _ (auth_time : ℕ) where
    -- The request, with the time of the authentication.
    abbrev at_time : AuthorizeRequest
    at_time = record (parse_authorize_request r.query) { auth_time = auth_time }

    after_consent-Runs :
        (owner : User) (prompt uri : String) (consented : Bool)
        → IsVerifiedHere uri
        → Runs Unchanged IsSafe IsSafe (after_consent h r at_time owner prompt uri consented)
    unfolding after_consent
    after_consent-Runs owner prompt uri true verified =
        issue_code-Runs at_time owner (authorize-Runs h.svc rows at_time owner)
    after_consent-Runs owner prompt uri false verified =
        if_Runs (prompt == "none")
          (λ e.
            raise-Runs _ (error_redirect-IsSafe _ uri at_time.state "consent_required" verified))
          (λ e. save_pending-Runs _ "/consent" (inr refl))

    has_grant-Keeps :
        (uid cid scope : String) → Keeps (λ (db : Db). db.clients ≡ rows) (has_grant uid cid scope)
    unfolding has_grant normalize_scope Directory.has_grant
    has_grant-Keeps uid cid scope =
        bind-Keeps (bind-Keeps (lift-Keeps _) λ sc. pure-Keeps _)
          λ normalized. query-Keeps _ _ λ now db p. p

    with_owner-Runs :
        (prompt uri : String) (owner : Result Err User)
        → IsVerifiedHere uri
        → Runs Unchanged IsSafe IsSafe (with_owner h r at_time prompt uri owner)
    unfolding with_owner write_json
    with_owner-Runs prompt uri (err session_not_found) verified =
        save_pending-Runs _ "/login" (inl refl)
    with_owner-Runs prompt uri (err _) verified = raise-Runs _ tt
    with_owner-Runs prompt uri (ok owner) verified =
        bind-Runs (map_error-Runs _ (db-Runs (Keeps-Runs (has_grant-Keeps _ _ _))) (λ e any. tt))
          λ consented any. after_consent-Runs owner prompt uri consented verified

  user_from_session-Keeps : (id : String) → Keeps Unchanged (user_from_session id)
  unfolding user_from_session
  user_from_session-Keeps id = bind-Keeps (fail_if-Keeps _ _) λ _. bind-Keeps (idp-Keeps _) λ sess.
      on_part-Keeps _ put_db (λ db. db.clients ≡ rows) (λ t s. refl) (find_user-Keeps sess.user_id)

  with_session-Runs :
      (prompt uri id : String) (sess : Session)
      → IsVerifiedHere uri
      → Runs Unchanged IsSafe IsSafe
          (with_session h r (parse_authorize_request r.query) prompt uri id sess)
  unfolding with_session
  with_session-Runs prompt uri id sess verified =
      bind-Runs (attempt-Runs (user_from_session-Keeps id))
        λ owner any. with_owner-Runs sess.authenticated_at prompt uri owner verified

  after_age_check-Runs :
      (prompt uri id : String) (sess : Session) (too_old : Bool)
      → IsVerifiedHere uri
      → Runs Unchanged IsSafe IsSafe
          (after_age_check h r (parse_authorize_request r.query) prompt uri id sess too_old)
  unfolding after_age_check
  after_age_check-Runs prompt uri id sess true verified =
      bind-Runs (end_session-Runs sess) λ w any. login_page-Runs w prompt uri verified
  after_age_check-Runs prompt uri id sess false verified =
      with_session-Runs prompt uri id sess verified

  within_max_age-Runs :
      (prompt uri id : String) (sess : Session) (max_age : Option ℕ)
      → IsVerifiedHere uri
      → Runs Unchanged IsSafe IsSafe
          (within_max_age h r (parse_authorize_request r.query) prompt uri id sess max_age)
  unfolding within_max_age
  within_max_age-Runs prompt uri id sess none verified =
      with_session-Runs prompt uri id sess verified
  within_max_age-Runs prompt uri id sess (some max_age) verified =
      bind-Runs time_now-Runs λ now any. after_age_check-Runs prompt uri id sess _ verified

  after_lookup-Runs :
      (prompt uri id : String) (sess : Result Err Session)
      → IsVerifiedHere uri
      → Runs Unchanged IsSafe IsSafe
          (after_lookup h r (parse_authorize_request r.query) prompt uri id sess)
  unfolding after_lookup
  after_lookup-Runs prompt uri id (err e) verified = login_page-Runs _ prompt uri verified
  after_lookup-Runs prompt uri id (ok sess) verified =
      if_Runs (prompt == "login")
        (λ e. bind-Runs (end_session-Runs sess) λ w any. save_pending-Runs w "/login" (inl refl))
        (λ e. within_max_age-Runs prompt uri id sess _ verified)

  find_session-Keeps : (id : String) → Keeps Unchanged (find_session id)
  unfolding find_session
  find_session-Keeps id = bind-Keeps (fail_if-Keeps _ _) λ _. idp-Keeps _

  handle_authorize-Runs : Runs Unchanged IsSafe IsSafe (handle_authorize h r)
  unfolding handle_authorize
  handle_authorize-Runs =
      bind-Runs
        (map_error-Runs _
          (db-Runs (validate_authorize-Runs h.svc rows (parse_authorize_request r.query)))
          (write_authorize_error-IsSafe _ _))
        λ result verified.
          bind-Runs (attempt-Runs (find_session-Keeps _))
            λ sess any. after_lookup-Runs _ result.redirect_uri _ sess verified

-- A redirect from GET /authorize, by success or by error, whatever prompt and max_age ask for, goes to the
-- server's own login or consent page, or else to the requested redirect_uri with changed parameters, and then
-- the client of the request is in the database and has registered it.
pub handle_authorize-IsSent :
    (h : Routes) (r : Request) (env : Env) (w : World Server)
    → IsSent h r w.store.db.clients (serve (handle_authorize h r) env w).0.body
handle_authorize-IsSent h r env w =
    serve-Runs (handle_authorize-Runs h r w.store.db.clients) env w refl
