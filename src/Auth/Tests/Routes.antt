-- ===== src/Auth/Tests/Routes.antt =====
-- Requests to the routes of the authorization server.
use cc_orchestrator.Prelude.{
  ℕ, Result, ◌≡◌, ◌≢◌, refl, ap, sym, true, none, some, [], ◌∷◌, err, arith, eq_iff,
}
use cc_orchestrator.Prelude.Int.{pos}
use cc_orchestrator.GoText.{cut_prefix, contains_text}
use cc_orchestrator.Action.{World}
use cc_orchestrator.Http.{Response, Read, Request, Web, get, serve}
use cc_orchestrator.Auth.Errors.{token, TokenError}
use cc_orchestrator.Auth.Sessions.{Session}
use cc_orchestrator.Auth.Service.Login.{Server}
use cc_orchestrator.Auth.Route.{Body, Routes}
use cc_orchestrator.Auth.Route.Admin.{
  Decoders, extract_admin_key, unauthorized, require_admin_auth, handle_list_users,
}
use cc_orchestrator.Auth.Route.Authorize.MaxAge.{answer}
use cc_orchestrator.Auth.Route.Router.{
  Mux, public_routes, admin_routes, new_router, handler_of, security_headers, serve_http,
}
use cc_orchestrator.Auth.Route.Guard.{serve_http-unauthorized}
use cc_orchestrator.Auth.Route.Authorize.{handle_authorize, parse_authorize_request}
use cc_orchestrator.Auth.Route.Authorize.Redirects.{IsSent, handle_authorize-IsSent}
use cc_orchestrator.Auth.Route.Browser.{handle_logout}
use cc_orchestrator.Auth.Route.Browser.Logout.{IsSentOut, handle_logout-IsSentOut}
use cc_orchestrator.Auth.Route.Admin.{UpdateClientRequest, handle_update_client}
use cc_orchestrator.Auth.Route.Admin.Secrets.{SameSecrets, handle_update_client-SameSecrets}
use cc_orchestrator.Auth.Route.Tokens.{handle_token}
use cc_orchestrator.Auth.Route.Tokens.Answers.{IsAnswer, handle_token-IsAnswer}
use cc_orchestrator.Auth.Tests.{service, calm, db}

abbrev web_functions : Web
web_functions = record {
  parse_link = λ s. none;
  parse_query = λ s. some [];
  encode = λ q. "";
  decode_base64 = λ s. some s;
  scan_int = λ s. some (pos 1);
  to_lower = λ s. s;
}

abbrev routes : Routes
routes = record {
  web = web_functions;
  svc = service;
  verification = record {
    verify = λ t. err (token TokenError.invalid_token);
    issuer = "https://op";
    api_audience = "api";
  };
  key_set = [];
  hasher = λ n p. some p;
  before = λ a b. true;
  issuer = "https://op";
  secure_cookies = true;
  admin_api_key = "k";
}

abbrev decoders : Decoders
decoders = record {
  create_client = λ n s. Read.malformed;
  update_client = λ n s. Read.malformed;
  create_user = λ n s. Read.malformed;
  update_user = λ n s. Read.malformed;
}

abbrev to_pattern : Mux
to_pattern = record {
  choose = λ patterns r. some "GET /admin/users";
  unmatched = λ patterns r. 404;
}

-- The key that is presented lacks the prefix "Bearer ".
abbrev request : Request
request = record {
  method = "GET";
  path = "/admin/users";
  path_id = "";
  query = [];
  headers = ("Authorization", "k") ∷ [];
  cookies = [];
  body = "";
  form = λ n. Read.done [];
}

abbrev server : World Server
server = record {
  step = 0;
  store = record { db = db; idp = record { sessions = []; pending = [] } };
}

registered :
    handler_of "GET /admin/users" (new_router routes decoders true true)
    ≡ some (require_admin_auth "k" (handle_list_users routes decoders))
unfolding handler_of new_router public_routes admin_routes
registered = refl

is_admin : contains_text "GET /admin/users" " /admin/" ≡ true
unfolding contains_text
is_admin = refl

wrong_key : extract_admin_key request ≢ "k"
unfolding extract_admin_key get cut_prefix
wrong_key = ground (arith, eq_iff "" "k")

serve_http-unauthorized_example :
    serve_http to_pattern (new_router routes decoders true true) request calm server
    ≡ (security_headers unauthorized, server)
serve_http-unauthorized_example =
    serve_http-unauthorized routes decoders to_pattern true true request "GET /admin/users"
      (require_admin_auth "k" (handle_list_users routes decoders)) calm server refl registered
      is_admin wrong_key

-- A request without a session, for the client "web".
abbrev authorize_request : Request
authorize_request = record request {
  path = "/authorize";
  query =
      ("response_type", "code")
      ∷ ("client_id", "web")
      ∷ ("redirect_uri", "https://app/cb")
      ∷ ("scope", "openid")
      ∷ ("code_challenge", "Kw")
      ∷ ("code_challenge_method", "S256")
      ∷ [];
}

handle_authorize-IsSent_example :
    IsSent routes authorize_request db.clients
      (serve (handle_authorize routes authorize_request) calm server).0.body
handle_authorize-IsSent_example = handle_authorize-IsSent routes authorize_request calm server

-- The exchange of the code "c1", with a wrong verifier.
abbrev token_form : Request
token_form = record request {
  method = "POST";
  path = "/token";
  form = λ n. Read.done (
      ("grant_type", "authorization_code")
      ∷ ("code", "c1")
      ∷ ("redirect_uri", "https://app/cb")
      ∷ ("client_id", "web")
      ∷ ("code_verifier", "short")
      ∷ []);
}

handle_token-IsAnswer_example : IsAnswer (serve (handle_token routes token_form) calm server).0
handle_token-IsAnswer_example = handle_token-IsAnswer routes token_form calm server

-- A logout that asks for an unregistered target.
abbrev logout_form : Request
logout_form = record request {
  path = "/logout";
  query =
      ("client_id", "web") ∷ ("post_logout_redirect_uri", "https://evil/") ∷ ("state", "s") ∷ [];
}

handle_logout-IsSentOut_example :
    IsSentOut routes logout_form db.clients
      (serve (handle_logout routes logout_form) calm server).0.body
handle_logout-IsSentOut_example = handle_logout-IsSentOut routes logout_form calm server

-- An update of the client "web" that only changes its redirect_uri.
abbrev update_request : UpdateClientRequest
update_request = record {
  redirect_uris = "https://app/new" ∷ [];
  allowed_scopes = "openid" ∷ [];
  response_types = "code" ∷ [];
  grant_types = "authorization_code" ∷ [];
  client_secret = "";
}

abbrev updating : Decoders
updating = record decoders { update_client = λ n s. Read.done update_request }

abbrev update_web : Request
update_web = record request { method = "PUT"; path = "/admin/clients/web"; path_id = "web" }

no_secret :
    (req : UpdateClientRequest)
    → ◌≡◌ {A = Read UpdateClientRequest} (Read.done update_request) (Read.done req)
    → req.client_secret ≡ ""
no_secret req e =
    let same : update_request ≡ req = cc in
    ap (λ (x : UpdateClientRequest). x.client_secret) (sym same)

handle_update_client-SameSecrets_example :
    SameSecrets db.clients
      (serve (handle_update_client routes updating update_web) calm server).1.store.db.clients
handle_update_client-SameSecrets_example =
    handle_update_client-SameSecrets routes updating update_web calm server no_secret

-- A session of time 40, looked at when the clock shows 1000.
abbrev aged_session : Session
aged_session = record { id = "s1"; user_id = "u1"; authenticated_at = 40; expires_at = 5000 }

-- A request with a max_age that reads as m seconds.
abbrev reading : ℕ → Routes
reading m = record routes { web = record web_functions { scan_int = λ s. some (pos m) } }

abbrev aged_request : Request
aged_request = record authorize_request { query = ("max_age", "1") ∷ [] }

abbrev at_session : ℕ → Result (Response Body) (Response Body) × World Server
at_session m =
    answer (reading m) aged_request (parse_authorize_request []) "" "https://app/cb" "s1"
      aged_session calm server
