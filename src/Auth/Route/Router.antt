-- ===== src/Auth/Route/Router.antt =====
-- app/auth/route/router.go, security_headers.go and discovery_handler.go. The choice of a pattern is that of
-- http.ServeMux, a parameter.
use cc_orchestrator.Prelude.{
  ℕ, String, Bool, not, ◌&&◌, Option, none, some, List, [], ◌∷◌, ◌++◌, map, ◌==◌, if◌then◌else◌,
}
use cc_orchestrator.GoText.{has_prefix}
use cc_orchestrator.Action.{Env, World, pure}
use cc_orchestrator.Http.{
  Values, Request, Response, Handler, Web, fresh, set, write_json, write_header, serve,
}
use cc_orchestrator.Auth.Service.Login.{Server}
use cc_orchestrator.Auth.Service.Discovery
use cc_orchestrator.Auth.Route.{Body, Routes, metadata, key_set, not_routed}
use cc_orchestrator.Auth.Route.Tokens.{
  handle_token, handle_revoke, handle_introspect, handle_user_info,
}
use cc_orchestrator.Auth.Route.Authorize.{handle_authorize}
use cc_orchestrator.Auth.Route.Browser.{
  handle_login_get, handle_login_post, handle_consent_get, handle_consent_post, handle_logout,
}
use cc_orchestrator.Auth.Route.Admin.{
  Decoders, require_admin_auth, handle_create_client, handle_list_clients, handle_get_client,
  handle_update_client, handle_delete_client, handle_create_user, handle_list_users,
  handle_get_user, handle_update_user, handle_delete_user,
}

unfoldable pub secure_cookies_from_issuer : Web → String → Bool
secure_cookies_from_issuer web issuer = has_prefix (web.to_lower issuer) "https://"

-- A pattern with its handler.
pub record Route : Type 0 where
  pub pattern : String
  pub handler : Request → Handler Body Server (Response Body)

module _ (h : Routes) (d : Decoders) where
  unfoldable pub handle_metadata : Request → Handler Body Server (Response Body)
  handle_metadata r = pure (write_json fresh 200 (metadata (Discovery.metadata h.issuer)))

  unfoldable pub handle_jwks : Request → Handler Body Server (Response Body)
  handle_jwks r = pure (write_json fresh 200 (key_set h.key_set))

  abbrev pub route : String → (Request → Handler Body Server (Response Body)) → Route
  route pattern handler = record { pattern = pattern; handler = handler }

  unfoldable pub public_routes : List Route
  public_routes =
      route "GET /authorize" (handle_authorize h)
      ∷ route "GET /login" handle_login_get
      ∷ route "POST /login" (handle_login_post h)
      ∷ route "GET /consent" (handle_consent_get h)
      ∷ route "POST /consent" (handle_consent_post h)
      ∷ route "GET /logout" (handle_logout h)
      ∷ route "POST /revoke" (handle_revoke h)
      ∷ route "POST /token" (handle_token h)
      ∷ route "GET /userinfo" (handle_user_info h)
      ∷ route "GET /.well-known/openid-configuration" handle_metadata
      ∷ route "GET /.well-known/jwks.json" handle_jwks
      ∷ []

  abbrev pub admin_route : String → (Request → Handler Body Server (Response Body)) → Route
  admin_route pattern handler = route pattern (require_admin_auth h.admin_api_key handler)

  unfoldable pub admin_routes : List Route
  admin_routes =
      admin_route "POST /admin/clients" (handle_create_client h d)
      ∷ admin_route "GET /admin/clients" (handle_list_clients h d)
      ∷ admin_route "GET /admin/clients/{id}" (handle_get_client h d)
      ∷ admin_route "PUT /admin/clients/{id}" (handle_update_client h d)
      ∷ admin_route "DELETE /admin/clients/{id}" (handle_delete_client h d)
      ∷ admin_route "POST /admin/users" (handle_create_user h d)
      ∷ admin_route "GET /admin/users" (handle_list_users h d)
      ∷ admin_route "GET /admin/users/{id}" (handle_get_user h d)
      ∷ admin_route "PUT /admin/users/{id}" (handle_update_user h d)
      ∷ admin_route "DELETE /admin/users/{id}" (handle_delete_user h d)
      ∷ []

  -- Introspection and administration are optional.
  unfoldable pub new_router : Bool → Bool → List Route
  new_router introspects administers =
      public_routes
      ++ ((if introspects then route "POST /introspect" (handle_introspect h) ∷ [] else [])
          ++ (if administers && not (h.admin_api_key == "") then admin_routes else []))

-- http.ServeMux: the pattern that a request matches, of those registered, or the status that it answers.
pub record Mux : Type 0 where
  pub choose : List String → Request → Option String
  pub unmatched : List String → Request → ℕ

unfoldable pub handler_of :
    String → List Route → Option (Request → Handler Body Server (Response Body))
handler_of p [] = none
handler_of p (r ∷ rs) =
    let rest = handler_of p rs in if r.pattern == p then some r.handler else rest

abbrev pub unrouted : Mux → List Route → Request → Handler Body Server (Response Body)
unrouted mux routes r =
    pure (write_header fresh (mux.unmatched (map (λ x. x.pattern) routes) r) not_routed)

abbrev pub routed :
    Mux
    → List Route
    → Request
    → Option (Request → Handler Body Server (Response Body))
    → Handler Body Server (Response Body)
routed mux routes r none = unrouted mux routes r
routed mux routes r (some handler) = handler r

abbrev pub chosen : Mux → List Route → Request → Option String → Handler Body Server (Response Body)
chosen mux routes r none = unrouted mux routes r
chosen mux routes r (some p) = routed mux routes r (handler_of p routes)

unfoldable pub dispatch : Mux → List Route → Request → Handler Body Server (Response Body)
dispatch mux routes r = chosen mux routes r (mux.choose (map (λ x. x.pattern) routes) r)

abbrev pub security_headers_csp : String
security_headers_csp =
    "default-src 'none'; style-src 'self' 'unsafe-inline'; form-action 'self'; base-uri 'none'; frame-ancestors 'none'"

abbrev pub security_header_values : Values
security_header_values =
    ("X-Frame-Options", "DENY")
    ∷ ("Content-Security-Policy", security_headers_csp)
    ∷ ("X-Content-Type-Options", "nosniff")
    ∷ ("Referrer-Policy", "strict-origin-when-cross-origin")
    ∷ []

unfoldable pub set_all : Values → Values → Values
unfolding set
set_all [] headers = headers
set_all ((k, v) ∷ rest) headers = set_all rest (set k v headers)

-- The handler's headers are set after those of the middleware.
unfoldable pub security_headers : Response Body → Response Body
unfolding set_all
security_headers resp = record resp { headers = set_all resp.headers security_header_values }

unfoldable pub serve_http :
    Mux → List Route → Request → Env → World Server → Response Body × World Server
serve_http mux routes r env w =
    let (resp, w') = serve (dispatch mux routes r) env w in (security_headers resp, w')
