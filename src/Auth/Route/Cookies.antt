-- ===== src/Auth/Route/Cookies.antt =====
-- app/auth/route/session_cookie.go
use Prim.Native.String.{◌++◌}
use cc_orchestrator.Prelude.{
  ℕ, String, Bool, true, Option, none, some, List, [], ◌∷◌, all, contains, if◌then◌else◌,
}
use cc_orchestrator.Prelude.Int.{ℤ, pos, negsuc}
use cc_orchestrator.Http.{Values, Request, Writer, Web, get, set_cookie}
use cc_orchestrator.Auth.Route.{issuer_path}

abbrev pub idp_session_cookie_name : String
idp_session_cookie_name = "idp_session"

abbrev pub idp_pending_cookie_name : String
idp_pending_cookie_name = "idp_pending"

-- a day, in seconds
abbrev pub idp_session_cookie_max_age : ℕ
idp_session_cookie_max_age = 86_400

abbrev pub idp_pending_cookie_max_age : ℕ
idp_pending_cookie_max_age = 600

abbrev pub pending_authorize_query_keys : List String
pending_authorize_query_keys =
    "response_type" ∷ "client_id" ∷ "redirect_uri" ∷ "scope" ∷ "state" ∷ "nonce" ∷ "code_challenge"
    ∷ "code_challenge_method" ∷ "login_hint" ∷ []

unfoldable pub read_session_cookie : Request → String
unfolding get
read_session_cookie r = get idp_session_cookie_name r.cookies

unfoldable pub read_pending_cookie : Request → String
unfolding get
read_pending_cookie r = get idp_pending_cookie_name r.cookies

unfoldable pub set_idp_cookie : String → String → ℤ → Bool → Writer → Writer
unfolding set_cookie
set_idp_cookie name value max_age secure w =
    set_cookie
      (record { name = name; value = value; max_age = max_age; http_only = true; secure = secure })
      w

unfoldable pub set_session_cookie : String → Bool → Writer → Writer
unfolding set_idp_cookie
set_session_cookie session_id secure w =
    set_idp_cookie idp_session_cookie_name session_id (pos idp_session_cookie_max_age) secure w

unfoldable pub set_pending_cookie : String → Bool → Writer → Writer
unfolding set_idp_cookie
set_pending_cookie pending_id secure w =
    set_idp_cookie idp_pending_cookie_name pending_id (pos idp_pending_cookie_max_age) secure w

-- MaxAge -1, an empty value
unfoldable pub clear_pending_cookie : Bool → Writer → Writer
unfolding set_idp_cookie
clear_pending_cookie secure w = set_idp_cookie idp_pending_cookie_name "" (negsuc 0) secure w

unfoldable pub clear_session_cookie : Bool → Writer → Writer
unfolding set_idp_cookie
clear_session_cookie secure w = set_idp_cookie idp_session_cookie_name "" (negsuc 0) secure w

abbrev pub key_of : String × String → String
key_of (k, v) = k

abbrev pub pending_location : String → String → Option Values → Option String
pending_location issuer raw_query none = none
pending_location issuer raw_query (some values) =
    if all (λ kv. contains pending_authorize_query_keys (key_of kv)) values
    then some (issuer_path issuer "/authorize" ++ ("?" ++ raw_query))
    else none

unfoldable pub pending_authorize_location : Web → String → String → Option String
pending_authorize_location web issuer raw_query =
    pending_location issuer raw_query (web.parse_query raw_query)
