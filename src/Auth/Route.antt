-- ===== src/Auth/Route.antt =====
-- The presentation layer of the authorization server, app/auth/route: what its handlers answer with.
-- A handler is an `Http.Handler` on the server's state.
pub mod Errors
pub mod Cookies
pub mod Tokens
pub mod Authorize
pub mod Browser
pub mod Admin
pub mod Router
pub mod Guard
use Prim.Native.String.{◌++◌}
use cc_orchestrator.Prelude.{
  ℕ, String, Bool, Option, none, some, List, Result, ok, err, if◌then◌else◌,
}
use cc_orchestrator.GoText.{trim_suffix}
use cc_orchestrator.Action.{Action, lift, pure}
use cc_orchestrator.Http.{Values, Read, Request, Writer, Response, Handler, Web, write_json}
use cc_orchestrator.Auth.Platform.{Platform}
use cc_orchestrator.Auth.Registration.{Hasher}
use cc_orchestrator.Auth.Service.Dto.{AuthorizationService, TokenResponse}
use cc_orchestrator.Auth.Service.UserInfo.{Verification, UserInfoDto, IntrospectionResponse}
use cc_orchestrator.Auth.Service.Login.{Server}
use cc_orchestrator.Auth.Service.Discovery.{ProviderMetadata}
use cc_orchestrator.Auth.KeyRing.{Jwk}

-- An empty description is left out of the JSON.
pub record OauthError : Type 0 where
  pub error : String
  pub error_description : String

pub record AdminError : Type 0 where
  pub error : String
  pub error_description : String

pub record LoginPageData : Type 0 where
  pub error : String
  pub username : String

pub record ConsentPageData : Type 0 where
  pub client_id : String
  pub username : String
  pub scopes : List String

pub record CreateClientResponse : Type 0 where
  pub client_id : String
  pub is_confidential : Bool

pub record CreateUserResponse : Type 0 where
  pub user_id : String
  pub username : String

pub record ListUserItem : Type 0 where
  pub user_id : String
  pub username : String
  pub name : String
  pub email : String

pub record ListClientItem : Type 0 where
  pub client_id : String
  pub redirect_uris : List String
  pub allowed_scopes : List String
  pub response_types : List String
  pub grant_types : List String
  pub is_confidential : Bool

-- What a response carries: JSON of some type, a page, or the location of a redirect.
pub data Body : Type 0 where
  empty : Body
  location : String → Body
  oauth_error : OauthError → Body
  admin_error : AdminError → Body
  tokens : TokenResponse → Body
  claims : UserInfoDto → Body
  introspection : IntrospectionResponse → Body
  login_page : LoginPageData → Body
  consent_page : ConsentPageData → Body
  client_created : CreateClientResponse → Body
  user_created : CreateUserResponse → Body
  user_item : ListUserItem → Body
  users : List ListUserItem → Body
  client_item : ListClientItem → Body
  clients : List ListClientItem → Body
  metadata : ProviderMetadata → Body
  key_set : List Jwk → Body
  -- what the multiplexer writes where no pattern matches
  not_routed : Body

-- The fields that the handlers share.
pub record Routes : Type 0 where
  pub web : Web
  pub svc : AuthorizationService
  pub verification : Verification
  pub key_set : List Jwk
  pub hasher : Hasher
  -- the order of the database's collation
  pub before : String → String → Bool
  pub issuer : String
  pub secure_cookies : Bool
  pub admin_api_key : String

abbrev pub platform_of : Routes → Platform
platform_of h = h.svc.platform

abbrev pub failure : String → String → Body
failure code description = oauth_error (record { error = code; error_description = description })

-- writeBadRequest
unfoldable pub bad_request : Writer → String → Response Body
unfolding write_json
bad_request w description = write_json w 400 (failure "invalid_request" description)

abbrev pub server_error : Writer → Response Body
server_error w = write_json w 500 (failure "server_error" "")

-- http.Redirect with http.StatusFound
unfoldable pub found : Writer → String → Response Body
found w to = record { status = 302; headers = w.headers; cookies = w.cookies; body = location to }

-- 1 MiB
abbrev pub max_form_body_size : ℕ
max_form_body_size = 1_048_576

abbrev pub read_or_refuse : {A : Type 0} → Writer → String → Read A → Result (Response Body) A
read_or_refuse w malformed_text (Read.done a) = ok a
read_or_refuse w malformed_text Read.too_large = err (bad_request w "request body too large")
read_or_refuse w malformed_text Read.malformed = err (bad_request w malformed_text)

unfoldable pub parse_form_body : Writer → Request → Handler Body Server Values
parse_form_body w r =
    lift (read_or_refuse w "malformed form body" (r.form (some max_form_body_size)))

-- json.NewDecoder(http.MaxBytesReader(…, size)).Decode, for the type of the body
abbrev pub Decoder : Type 0 → Type 0
Decoder A = ℕ → String → Read A

unfoldable pub decode_json_body :
    {A : Type 0} → Decoder A → Writer → Request → Handler Body Server A
decode_json_body decode w r =
    lift (read_or_refuse w "request body must be valid JSON" (decode max_form_body_size r.body))

unfoldable pub issuer_path : String → String → String
unfolding trim_suffix
issuer_path issuer path = trim_suffix b'/' issuer ++ path
