-- ===== src/Startup/Settings.antt =====
-- cmd/api/env.go and cmd/authz/env.go. `getenv` is os.Getenv, "" for an unset variable.
use cc_orchestrator.Prelude.{
  String, Bool, not, ◌&&◌, Result, ok, err, and_then, ◌==◌, if◌then◌else◌,
}
use cc_orchestrator.Startup.{Config, StartupError, partial_auth_config, validate}

abbrev pub default_port : String
default_port = "8080"

abbrev pub default_db_port : String
default_db_port = "5432"

abbrev pub default_ssl_mode : String
default_ssl_mode = "require"

abbrev pub default_issuer : String
default_issuer = "http://localhost:8080"

abbrev pub default_api_audience : String
default_api_audience = "http://localhost:8081/api"

unfoldable pub or_default : String → String → String
or_default v def = if v == "" then def else v

module _ (getenv : String → String) where
  unfoldable pub writer_config : Config
  writer_config = record {
    host = getenv "DB_HOST";
    port = or_default (getenv "DB_PORT") default_db_port;
    name = getenv "DB_NAME";
    user = getenv "DB_USER";
    password = getenv "DB_PASSWORD";
    ssl_mode = or_default (getenv "DB_SSLMODE") default_ssl_mode;
  }

  -- Each setting that is not given for the reader is the writer's.
  unfoldable pub reader_config : Config
  unfolding writer_config
  reader_config = record {
    host = or_default (getenv "DB_READER_HOST") writer_config.host;
    port = or_default (getenv "DB_READER_PORT") writer_config.port;
    name = or_default (getenv "DB_READER_NAME") writer_config.name;
    user = or_default (getenv "DB_READER_USER") writer_config.user;
    password = or_default (getenv "DB_READER_PASSWORD") writer_config.password;
    ssl_mode = or_default (getenv "DB_READER_SSLMODE") writer_config.ssl_mode;
  }

pub record ApiEnv : Type 0 where
  pub port : String
  pub db : Config
  pub db_reader : Config
  pub auth_issuer : String
  pub auth_jwks_url : String
  pub auth_audience : String

pub record AuthEnv : Type 0 where
  pub port : String
  pub issuer : String
  pub api_audience : String
  pub signing_keys_file : String
  pub demo_password : String
  pub log_demo_password : Bool
  pub admin_api_key : String
  pub db : Config
  pub db_reader : Config

unfoldable pub new_api_env : (String → String) → ApiEnv
new_api_env getenv = record {
  port = or_default (getenv "PORT") default_port;
  db = writer_config getenv;
  db_reader = reader_config getenv;
  auth_issuer = getenv "AUTH_ISSUER";
  auth_jwks_url = getenv "AUTH_JWKS_URL";
  auth_audience = getenv "AUTH_AUDIENCE";
}

unfoldable pub new_auth_env : (String → String) → AuthEnv
new_auth_env getenv = record {
  port = or_default (getenv "PORT") default_port;
  issuer = or_default (getenv "ISSUER") default_issuer;
  api_audience = or_default (getenv "API_AUDIENCE") default_api_audience;
  signing_keys_file = getenv "SIGNING_KEYS_FILE";
  demo_password = getenv "DEMO_PASSWORD";
  log_demo_password = getenv "DEMO_LOG_PASSWORD" == "1";
  admin_api_key = getenv "ADMIN_API_KEY";
  db = writer_config getenv;
  db_reader = reader_config getenv;
}

unfoldable pub auth_enabled : ApiEnv → Bool
auth_enabled e =
    not (e.auth_issuer == "") && (not (e.auth_jwks_url == "") && not (e.auth_audience == ""))

abbrev pub none_set : ApiEnv → Bool
none_set e = e.auth_issuer == "" && (e.auth_jwks_url == "" && e.auth_audience == "")

unfoldable pub validate_api_env : ApiEnv → Result StartupError (Unit {0})
unfolding auth_enabled
validate_api_env e = and_then (validate e.db) λ x.
    and_then (validate e.db_reader)
      λ y. if not (auth_enabled e) && not (none_set e) then err partial_auth_config else ok tt

unfoldable pub validate_auth_env : AuthEnv → Result StartupError (Unit {0})
validate_auth_env e = and_then (validate e.db) λ x. validate e.db_reader
