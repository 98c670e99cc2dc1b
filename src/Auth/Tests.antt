-- ===== src/Auth/Tests.antt =====
-- The theorems applied to a small deployment: one client, one user, one code and one token.
mod Exchange
mod Refresh
mod Endpoint
mod Login
mod Access
mod Routes
use Prim.Native.String.{len}
use cc_orchestrator.Prelude.{
  ℕ, String, ◌≡◌, refl, Bool, true, false, Option, none, some, List, [], ◌∷◌, Result, ok, err, ◌==◌,
}
use cc_orchestrator.Action.{Env, World}
use cc_orchestrator.Auth.Platform.{Platform}
use cc_orchestrator.Auth.Client.{Client}
use cc_orchestrator.Auth.AuthCode.{AuthorizationCode}
use cc_orchestrator.Auth.AuthCode.Challenge.{s256}
use cc_orchestrator.Auth.RefreshToken.{RefreshToken}
use cc_orchestrator.Auth.Service.Revoke.{RevokeRequest}
use cc_orchestrator.Auth.Db.{Db, ClientRow, UserRow, AuthCodeRow, RefreshTokenRow}
use cc_orchestrator.Auth.Service.Dto.{AuthorizationService, TokenRequest}

-- A stand-in for SHA-256, which tells texts apart by their length.
abbrev pub toy_platform : Platform
toy_platform = record {
  sha256 = λ s. len s ∷ [];
  bcrypt_matches = λ h p. h == p;
  parse_url = λ s. some (record { scheme = "https"; host = "app" });
}

abbrev pub calm : Env
calm = record { clock = λ i. 1000; entropy = λ i n. some (i ∷ []); outage = λ i. false }

abbrev pub service : AuthorizationService
service = record {
  platform = toy_platform;
  sign = λ c. some "jwt";
  issuer = "https://op";
  api_audience = "api";
}

abbrev pub web : ClientRow
web = record {
  id = "web";
  redirect_uris = "https://app/cb" ∷ [];
  allowed_scopes = "openid" ∷ "offline_access" ∷ [];
  response_types = "code" ∷ [];
  grant_types = "authorization_code" ∷ "refresh_token" ∷ [];
  client_secret_hash = none;
}

abbrev pub ann : UserRow
ann = record {
  id = "u1";
  username = "ann";
  password_hash = "pw";
  profile_name = "Ann";
  profile_email = "a@b.c";
}

abbrev pub verifier : String
verifier = "0123456789012345678901234567890123456789012"

-- The code "c1" stands for the verifier, under the stand-in hash.
abbrev pub code_row_c1 : AuthCodeRow
code_row_c1 = record {
  code = "c1";
  client_id = "web";
  user_id = "u1";
  redirect_uri = "https://app/cb";
  scope = "openid offline_access";
  nonce = none;
  challenge = "Kw";
  challenge_method = "S256";
  expires_at = 2000;
  consumed = false;
  auth_time = none;
}

abbrev pub db : Db
db = record {
  auth_codes = code_row_c1 ∷ [];
  refresh_tokens = [];
  clients = web ∷ [];
  users = ann ∷ [];
  consents = [];
}

abbrev pub start : World Db
start = record { step = 0; store = db }

abbrev pub exchange_request : TokenRequest
exchange_request = record {
  grant_type = "authorization_code";
  code = "c1";
  redirect_uri = "https://app/cb";
  client_id = "web";
  client_secret = "";
  code_verifier = verifier;
  refresh_token = "";
  scope = "";
}

abbrev pub auth_code_c1 : AuthorizationCode
auth_code_c1 = record {
  code = "c1";
  client_id = "web";
  user_id = "u1";
  redirect_uri = "https://app/cb";
  scope = record { value = "openid offline_access"; values = "openid" ∷ "offline_access" ∷ [] };
  nonce = "";
  challenge = record { challenge = "Kw"; method = s256 };
  auth_time = 0;
  expires_at = 2000;
  consumed = false;
}

abbrev pub revoke_request : RevokeRequest
revoke_request = record {
  token = "rt1";
  token_type_hint = "";
  client_id = "web";
  client_secret = "";
}

-- The refresh token "rt1", by its hash under the stand-in.
abbrev pub token_row_rt1 : RefreshTokenRow
token_row_rt1 = record {
  token_hash = "03";
  family_id = "f1";
  client_id = "web";
  user_id = "u1";
  scope = "openid offline_access";
  expires_at = 2000;
  consumed = false;
  auth_time = none;
}

abbrev pub refresh_token_rt1 : RefreshToken
refresh_token_rt1 = record {
  token_hash = "03";
  family_id = "f1";
  client_id = "web";
  user_id = "u1";
  scope = record { value = "openid offline_access"; values = "openid" ∷ "offline_access" ∷ [] };
  auth_time = 0;
  expires_at = 2000;
  consumed = false;
}

abbrev pub with_tokens : List RefreshTokenRow → World Db
with_tokens rows = record { step = 0; store = record db { refresh_tokens = rows } }

abbrev pub fresh : World Db
fresh = with_tokens (token_row_rt1 ∷ [])

-- "rt1" was rotated before.
abbrev pub stale : World Db
stale = with_tokens (record token_row_rt1 { consumed = true } ∷ [])

abbrev pub refresh_request : TokenRequest
refresh_request = record {
  grant_type = "refresh_token";
  code = "";
  redirect_uri = "";
  client_id = "web";
  client_secret = "";
  code_verifier = "";
  refresh_token = "rt1";
  scope = "openid";
}

-- A token to rotate to.
abbrev pub next_token : RefreshToken
next_token = record refresh_token_rt1 { token_hash = "0202" }

abbrev pub web_client : Client
web_client = record {
  id = "web";
  redirect_uris = "https://app/cb" ∷ [];
  allowed_scopes = "openid" ∷ "offline_access" ∷ [];
  response_types = "code" ∷ [];
  grant_types = "authorization_code" ∷ "refresh_token" ∷ [];
  secret_hash = none;
}
