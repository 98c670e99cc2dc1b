-- ===== src/Auth/Service/Dto.antt =====
-- The service's configuration, requests and responses: app/auth/service/dto.go and the head of
-- authorization_service.go.
use cc_orchestrator.Prelude.{ℕ, String, Option, none, some, ok, err}
use cc_orchestrator.Action.{Time, Action, lift}
use cc_orchestrator.Auth.Errors.{Err, signing}
use cc_orchestrator.Auth.Platform.{Platform}
use cc_orchestrator.Auth.Claims.{Claims}

-- The repositories are those of the database. `sign` is `token.Signer`; `none` is its error.
pub record AuthorizationService : Type 0 where
  pub platform : Platform
  pub sign : Claims → Option String
  pub issuer : String
  pub api_audience : String

abbrev pub response_type_code : String
response_type_code = "code"

abbrev pub grant_type_authorization_code : String
grant_type_authorization_code = "authorization_code"

abbrev pub grant_type_refresh_token : String
grant_type_refresh_token = "refresh_token"

pub record AuthorizeRequest : Type 0 where
  pub response_type : String
  pub client_id : String
  pub redirect_uri : String
  pub scope : String
  pub state : String
  pub nonce : String
  pub code_challenge : String
  pub code_challenge_method : String
  pub login_hint : String
  pub auth_time : Time

pub record AuthorizeResult : Type 0 where
  pub redirect_uri : String
  pub code : String
  pub state : String

pub record TokenRequest : Type 0 where
  pub grant_type : String
  pub code : String
  pub redirect_uri : String
  pub client_id : String
  pub client_secret : String
  pub code_verifier : String
  pub refresh_token : String
  pub scope : String

pub record TokenResponse : Type 0 where
  pub access_token : String
  pub token_type : String
  pub expires_in : ℕ
  pub id_token : String
  pub scope : String
  pub refresh_token : String

unfoldable pub new_token_response : String → String → String → String → TokenResponse
new_token_response access_token id_token scope refresh_token = record {
  access_token = access_token;
  token_type = "Bearer";
  expires_in = 3600;
  id_token = id_token;
  scope = scope;
  refresh_token = refresh_token;
}

-- `s.signer.Sign(claims)`
unfoldable pub sign_claims : {S : Type 0} → AuthorizationService → Claims → Action Err S String
sign_claims s claims = lift (elim (s.sign claims) [ none ↦ err signing | some t ↦ ok t ])
