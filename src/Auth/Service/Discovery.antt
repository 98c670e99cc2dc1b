-- ===== src/Auth/Service/Discovery.antt =====
-- `DiscoveryService` of app/auth/service/discovery_service.go; its keys are those of the key ring.
use Prim.Native.String.{◌++◌}
use cc_orchestrator.Prelude.{String, List, [], ◌∷◌}

pub record ProviderMetadata : Type 0 where
  pub issuer : String
  pub authorization_endpoint : String
  pub token_endpoint : String
  pub revocation_endpoint : String
  pub introspection_endpoint : String
  pub user_info_endpoint : String
  pub end_session_endpoint : String
  pub jwks_uri : String
  pub response_types_supported : List String
  pub subject_types_supported : List String
  pub id_token_signing_alg_values_supported : List String
  pub scopes_supported : List String
  pub claims_supported : List String
  pub code_challenge_methods_supported : List String
  pub grant_types_supported : List String
  pub token_endpoint_auth_methods_supported : List String

unfoldable pub metadata : String → ProviderMetadata
metadata issuer = record {
  issuer = issuer;
  authorization_endpoint = issuer ++ "/authorize";
  token_endpoint = issuer ++ "/token";
  revocation_endpoint = issuer ++ "/revoke";
  introspection_endpoint = issuer ++ "/introspect";
  user_info_endpoint = issuer ++ "/userinfo";
  end_session_endpoint = issuer ++ "/logout";
  jwks_uri = issuer ++ "/.well-known/jwks.json";
  response_types_supported = "code" ∷ [];
  subject_types_supported = "public" ∷ [];
  id_token_signing_alg_values_supported = "RS256" ∷ [];
  scopes_supported = "openid" ∷ "profile" ∷ "email" ∷ "offline_access" ∷ [];
  claims_supported =
      "sub" ∷ "iss" ∷ "aud" ∷ "exp" ∷ "iat" ∷ "nonce" ∷ "auth_time" ∷ "at_hash" ∷ "name" ∷ "email"
      ∷ [];
  code_challenge_methods_supported = "S256" ∷ [];
  grant_types_supported = "authorization_code" ∷ "refresh_token" ∷ [];
  token_endpoint_auth_methods_supported =
      "none" ∷ "client_secret_post" ∷ "client_secret_basic" ∷ [];
}
