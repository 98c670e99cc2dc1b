-- ===== src/Auth/Route/Guard.antt =====
-- The administration API is closed without its key.
use mathlib.Core.Path.{subst}
use cc_orchestrator.Prelude.{
  String, Bool, true, false, not, ◌&&◌, ◌≡◌, ◌≢◌, inl, inr, refl, some, List, [], ◌∷◌, ◌++◌, map,
  err, ◌==◌, eq_iff, arith, if◌then◌else◌, Bool-cases,
}
use cc_orchestrator.GoText.{contains_text}
use cc_orchestrator.Action.{World, Env, lift, ◌>>=◌}
use cc_orchestrator.Http.{Request, Response, Handler, serve}
use cc_orchestrator.Auth.Service.Login.{Server}
use cc_orchestrator.Auth.Route.{Body, Routes}
use cc_orchestrator.Auth.Route.Admin.{Decoders, extract_admin_key, unauthorized, require_admin_auth}
use cc_orchestrator.Auth.Route.Tokens.{handle_introspect}
use cc_orchestrator.Auth.Route.Router.{
  Route, Mux, route, public_routes, admin_routes, new_router, handler_of, dispatch,
  security_headers, serve_http,
}

-- The pattern is one of the administration.
abbrev pub is_admin_pattern : String → Bool
is_admin_pattern p = contains_text p " /admin/"

-- Without the key the handler refuses, and does nothing.
abbrev Guarded : String → Route → Type 0
Guarded key rt =
    is_admin_pattern rt.pattern ≡ true
    → (r : Request) (env : Env) (w : World Server) → extract_admin_key r ≢ key
    → rt.handler r env w ≡ (err unauthorized, w)

abbrev AllGuarded : String → List Route → Type 0
AllGuarded key [] = Unit {0}
AllGuarded key (rt ∷ rts) = Guarded key rt × AllGuarded key rts

AllGuarded-append :
    (key : String) (xs ys : List Route)
    → AllGuarded key xs
    → AllGuarded key ys
    → AllGuarded key (xs ++ ys)
AllGuarded-append key [] ys a b = b
AllGuarded-append key (x ∷ xs) ys (a, as_) b = (a, AllGuarded-append key xs ys as_ b)

require_admin_auth-refuses :
    (key : String) (next : Request → Handler Body Server (Response Body)) (r : Request) (env : Env)
    (w : World Server)
    → extract_admin_key r ≢ key
    → require_admin_auth key next r env w ≡ (err unauthorized, w)
unfolding require_admin_auth lift ◌>>=◌
require_admin_auth-refuses key next r env w h = ground (arith, eq_iff (extract_admin_key r) key)

admin-Guarded :
    (key pattern : String) (next : Request → Handler Body Server (Response Body))
    → Guarded key (record { pattern = pattern; handler = require_admin_auth key next })
admin-Guarded key pattern next e r env w h = require_admin_auth-refuses key next r env w h

public-Guarded :
    (key pattern : String) (handler : Request → Handler Body Server (Response Body))
    → is_admin_pattern pattern ≡ false
    → Guarded key (record { pattern = pattern; handler = handler })
public-Guarded key pattern handler no_admin e r env w h = cc

module _ (h : Routes) (d : Decoders) where
  admin_routes-AllGuarded : AllGuarded h.admin_api_key (admin_routes h d)
  unfolding admin_routes
  admin_routes-AllGuarded = (
    admin-Guarded _ _ _,
    (
      admin-Guarded _ _ _,
      (
        admin-Guarded _ _ _,
        (
          admin-Guarded _ _ _,
          (
            admin-Guarded _ _ _,
            (
              admin-Guarded _ _ _,
              (
                admin-Guarded _ _ _,
                (admin-Guarded _ _ _, (admin-Guarded _ _ _, (admin-Guarded _ _ _, tt))),
              ),
            ),
          ),
        ),
      ),
    ),
  )

  public_routes-AllGuarded : AllGuarded h.admin_api_key (public_routes h d)
  unfolding public_routes contains_text
  public_routes-AllGuarded = (
    public-Guarded _ "GET /authorize" _ refl,
    (
      public-Guarded _ "GET /login" _ refl,
      (
        public-Guarded _ "POST /login" _ refl,
        (
          public-Guarded _ "GET /consent" _ refl,
          (
            public-Guarded _ "POST /consent" _ refl,
            (
              public-Guarded _ "GET /logout" _ refl,
              (
                public-Guarded _ "POST /revoke" _ refl,
                (
                  public-Guarded _ "POST /token" _ refl,
                  (
                    public-Guarded _ "GET /userinfo" _ refl,
                    (
                      public-Guarded _ "GET /.well-known/openid-configuration" _ refl,
                      (public-Guarded _ "GET /.well-known/jwks.json" _ refl, tt),
                    ),
                  ),
                ),
              ),
            ),
          ),
        ),
      ),
    ),
  )

  introspection-AllGuarded :
      (b : Bool)
      → AllGuarded h.admin_api_key
          (if b then route h d "POST /introspect" (handle_introspect h) ∷ [] else [])
  unfolding contains_text
  introspection-AllGuarded true = (public-Guarded _ "POST /introspect" _ refl, tt)
  introspection-AllGuarded false = tt

  administration-AllGuarded :
      (b : Bool) → AllGuarded h.admin_api_key (if b then admin_routes h d else [])
  administration-AllGuarded true = admin_routes-AllGuarded
  administration-AllGuarded false = tt

  -- Every registered handler is guarded, whatever is switched on.
  new_router-AllGuarded :
      (introspects administers : Bool)
      → AllGuarded h.admin_api_key (new_router h d introspects administers)
  unfolding new_router contains_text
  new_router-AllGuarded introspects administers =
      AllGuarded-append h.admin_api_key (public_routes h d) _ public_routes-AllGuarded (
        AllGuarded-append h.admin_api_key _ _ (introspection-AllGuarded introspects)
          (administration-AllGuarded (administers && not (h.admin_api_key == ""))))

route_eq :
    (rt : Route) (p : String) (f : Request → Handler Body Server (Response Body))
    → rt.pattern ≡ p
    → rt.handler ≡ f
    → rt ≡ record { pattern = p; handler = f }
route_eq rt p f e k i = record { pattern = e i; handler = k i }

handler_of-Guarded :
    (key p : String) (routes : List Route) (f : Request → Handler Body Server (Response Body))
    → AllGuarded key routes
    → handler_of p routes ≡ some f
    → Guarded key (record { pattern = p; handler = f })
unfolding handler_of
handler_of-Guarded key p [] f g e = cc
handler_of-Guarded key p (rt ∷ rts) f (g, gs) e = elim (Bool-cases (rt.pattern == p)) [
  | inl here ↦
      let same : some rt.handler ≡ some f = rw here at e in
      let handler_same : rt.handler ≡ f = cc in
      subst (λ q. Guarded key q) (route_eq rt p f ((eq_iff rt.pattern p).0 here) handler_same) g
  | inr there ↦ handler_of-Guarded key p rts f gs (rw there at e)
]

module _ (h : Routes) (d : Decoders) (mux : Mux) (introspects administers : Bool)
    (r : Request) where
  -- A request that the multiplexer gives to a registered pattern of the administration, and that does
  -- not present the key of the configuration, is answered with 401 and the security headers, and
  -- changes nothing, whatever is switched on.
  pub serve_http-unauthorized :
      (p : String) (f : Request → Handler Body Server (Response Body)) (env : Env)
      (w : World Server)
      → mux.choose (map (λ x. x.pattern) (new_router h d introspects administers)) r ≡ some p
      → handler_of p (new_router h d introspects administers) ≡ some f
      → is_admin_pattern p ≡ true
      → extract_admin_key r ≢ h.admin_api_key
      → serve_http mux (new_router h d introspects administers) r env w
        ≡ (security_headers unauthorized, w)
  unfolding serve_http dispatch serve
  serve_http-unauthorized p f env w choice registered admin wrong =
      let refused =
        handler_of-Guarded h.admin_api_key p (new_router h d introspects administers) f
          (new_router-AllGuarded h d introspects administers) registered admin r env w wrong in
      rw (choice, registered, refused)
