-- ===== src/Auth/Route/Browser/Logout.antt =====
-- Where GET /logout may send a browser.
use mathlib.Core.Path.{subst}
use cc_orchestrator.Prelude.{
  String, ◌≡◌, ◌⊎◌, inl, inr, refl, Bool, true, false, Option, none, some, List, Result, ok, err,
  is_ok, ◌==◌, contains, Bool-cases,
}
use cc_orchestrator.Action.{Env, World}
use cc_orchestrator.Action.Keeps.{Keeps, pure-Keeps, if_Keeps}
use cc_orchestrator.Http.{Values, Link, Request, Writer, Response, get, set, serve, write_json}
use cc_orchestrator.Http.Answers.{
  Runs, Either, Any, pure-Runs, if_Runs, bind-Runs, lift-Runs, outcome-Runs, map_error-Runs,
  Keeps-Runs, serve-Runs, on_part-Runs, on_other_part-Keeps,
}
use cc_orchestrator.Auth.Errors.{Err}
use cc_orchestrator.Auth.Client.{Client, validate_redirect_uri}
use cc_orchestrator.Auth.Db.{ClientRow}
use cc_orchestrator.Auth.Service.Dto.{AuthorizeRequest}
use cc_orchestrator.Auth.Service.Authorize.Verified.{
  IsVerified, OnClients, IsFound, find_client_at-Runs, same_id, same_uri, has_uri,
}
use cc_orchestrator.Auth.Service.Login.{Server, put_db, put_idp, logout}
use cc_orchestrator.Auth.Route.{Body, Routes, location, found, issuer_path}
use cc_orchestrator.Auth.Route.Authorize.{parse_authorize_request}
use cc_orchestrator.Auth.Route.Browser.{
  is_allowed_post_logout_redirect, post_logout_target, after_logout, handle_logout,
}

module _ (h : Routes) (r : Request) (rows : List ClientRow) where
  -- A logout names a client and a redirect_uri of it.
  abbrev pub logout_request : AuthorizeRequest
  logout_request = record (parse_authorize_request r.query) {
    redirect_uri = get "post_logout_redirect_uri" r.query;
    client_id = get "client_id" r.query;
  }

  -- The requested target, registered with the client that the request names, as it is or with other
  -- parameters.
  abbrev pub IsTarget : String → Type 0
  IsTarget to =
      (u : Link) × IsVerified h.svc rows logout_request logout_request.redirect_uri
      × (h.web.parse_link logout_request.redirect_uri ≡ some u)
      × ((to ≡ u.text) ⊎ ((values : Values) × (to ≡ u.with_params values)))

  -- A response that redirects goes to the login page or to the target.
  abbrev pub IsSentOut : Body → Type 0
  IsSentOut (location to) = (to ≡ issuer_path h.issuer "/login?logged_out=1") ⊎ IsTarget to
  IsSentOut _ = Unit {0}

  abbrev IsSafe : Response Body → Type 0
  IsSafe resp = IsSentOut resp.body

  abbrev Unchanged : Server → Type 0
  Unchanged sv = sv.db.clients ≡ rows

  -- A permission is one for a registered URI.
  abbrev IsPermission : Bool → Type 0
  IsPermission true = IsVerified h.svc rows logout_request logout_request.redirect_uri
  IsPermission false = Unit {0}

  is_allowed-Runs :
      Runs
        (OnClients h.svc rows logout_request)
        Any
        IsPermission
        (is_allowed_post_logout_redirect h r logout_request.client_id logout_request.redirect_uri)
  unfolding is_allowed_post_logout_redirect
  is_allowed-Runs = bind-Runs (lift-Runs _ (same_id h.svc rows logout_request _ refl)) λ cid same.
      bind-Runs (find_client_at-Runs h.svc rows logout_request cid same) λ c found_c.
        bind-Runs (lift-Runs _ (same_uri h.svc rows logout_request _ refl)) λ uri same'.
          pure-Runs _ (permission c uri found_c same' (validate_redirect_uri c uri) refl)
    where
      permission :
          (c : Client) (uri : String)
          → IsFound h.svc rows logout_request c
          → uri ≡ logout_request.redirect_uri
          → (o : Result Err (Unit {0})) → validate_redirect_uri c uri ≡ o
          → IsPermission (is_ok o)
      permission c uri (row, selected, read) same' (err e) k = tt
      permission c uri (row, selected, read) same' (ok x) k = (
        row,
        c,
        selected,
        read,
        subst (λ u. contains c.redirect_uris u ≡ true) same'
            (has_uri h.svc rows logout_request c uri (ok x) k),
        refl,
      )

  target-IsSafe :
      (w : Writer)
      → IsVerified h.svc rows logout_request logout_request.redirect_uri
      → (o : Option Link) → h.web.parse_link logout_request.redirect_uri ≡ o
      → IsSafe (post_logout_target h r w logout_request.redirect_uri (get "state" r.query) o)
  unfolding found
  target-IsSafe w verified none e = inl refl
  target-IsSafe w verified (some u) e = inr (
    u,
    verified,
    e,
    elim (Bool-cases (get "state" r.query == "")) [
      | inl absent ↦ inl (rw absent)
      | inr given ↦ inr (set "state" (get "state" r.query) u.params, rw given)
    ],
  )

  after_logout-IsSafe :
      (w : Writer) (o : Result Err Bool)
      → Either Any IsPermission o
      → IsSafe (after_logout h r w logout_request.redirect_uri o)
  unfolding found
  after_logout-IsSafe w (ok true) verified = target-IsSafe w verified _ refl
  after_logout-IsSafe w (ok false) any = inl refl
  after_logout-IsSafe w (err e) any = inl refl

  logout-Keeps : (id : String) → Keeps Unchanged (logout id)
  unfolding logout
  logout-Keeps id = if_Keeps _ (pure-Keeps _) (on_other_part-Keeps _ put_idp _ (λ t s p. p))

  handle_logout-Runs : Runs Unchanged IsSafe IsSafe (handle_logout h r)
  unfolding handle_logout found write_json
  handle_logout-Runs =
      bind-Runs (map_error-Runs _ (Keeps-Runs (logout-Keeps _)) (λ e any. tt)) λ x any.
        if_Runs (logout_request.redirect_uri == "") (λ e. pure-Runs _ (inl refl))
          λ e.
            if_Runs (logout_request.client_id == "") (λ e'. pure-Runs _ (inl refl))
              λ e'.
                bind-Runs
                  (outcome-Runs
                    (on_part-Runs _ put_db (λ db. db.clients ≡ rows) (λ t s. refl) is_allowed-Runs))
                  λ allowed known. pure-Runs _ (after_logout-IsSafe _ allowed known)

-- A redirect from GET /logout goes to the server's own login page, or else to the requested
-- post_logout_redirect_uri, as it is or with other parameters, and then the client that the request names is in the database
-- and has registered it.
pub handle_logout-IsSentOut :
    (h : Routes) (r : Request) (env : Env) (w : World Server)
    → IsSentOut h r w.store.db.clients (serve (handle_logout h r) env w).0.body
handle_logout-IsSentOut h r env w =
    serve-Runs (handle_logout-Runs h r w.store.db.clients) env w refl
