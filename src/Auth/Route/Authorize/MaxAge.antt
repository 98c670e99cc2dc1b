-- ===== src/Auth/Route/Authorize/MaxAge.antt =====
-- What GET /authorize does with a session that is too old for max_age.
use cc_orchestrator.Prelude.{ℕ, ◌≡◌, ◌≢◌, ok, some, suc, String, Result}
use cc_orchestrator.Prelude.Int.{pos}
use cc_orchestrator.Action.{Time, Env, World, ◌>>=◌}
use cc_orchestrator.Http.{Request, Response, get}
use cc_orchestrator.Auth.Sessions.{Session}
use cc_orchestrator.Auth.Service.Dto.{AuthorizeRequest}
use cc_orchestrator.Auth.Service.Login.{Server}
use cc_orchestrator.Auth.Route.{Body, Routes}
use cc_orchestrator.Auth.Route.Authorize.{
  end_session, login_page_or_none, with_session, after_lookup,
}

module _ (h : Routes) (r : Request) (req : AuthorizeRequest) (prompt uri id : String)
    (sess : Session) (env : Env) (w : World Server) where
  -- The handler's answer once it has found the session.
  abbrev pub answer : Result (Response Body) (Response Body) × World Server
  answer = after_lookup h r req prompt uri id (ok sess) env w

  -- The request has a max_age of m seconds.
  abbrev pub Asks : ℕ → Type 0
  Asks m = (get "max_age" r.query ≢ "") × (h.web.scan_int (get "max_age" r.query) ≡ some (pos m))

  abbrev now : Time
  now = env.clock w.step

  abbrev next : World Server
  next = record { step = suc w.step; store = w.store }

  -- The handler ends the session, and goes on as without one: to the login page, or to an error.
  abbrev pub Ends : Result (Response Body) (Response Body) × World Server → Type 0
  Ends o =
      o ≡ (end_session h r sess >>= λ cookies. login_page_or_none h r cookies prompt uri) env next

  -- The handler goes on with the session.
  abbrev pub GoesOn : Result (Response Body) (Response Body) × World Server → Type 0
  GoesOn o = o ≡ with_session h r req prompt uri id sess env next
