-- ===== src/Auth/Db.antt =====
-- The tables of app/auth/infra/postgres/schema/migrations, as the rows of
-- app/auth/infra/postgres/sqlcgen/models.go; `created_at`, which nothing reads, is left out, and a
-- jsonb column of texts is the list of texts that it encodes.
pub mod Table
use cc_orchestrator.Prelude.{String, Bool, Option, List}
use cc_orchestrator.Action.{Time}

pub record AuthCodeRow : Type 0 where
  pub code : String
  pub client_id : String
  pub user_id : String
  pub redirect_uri : String
  pub scope : String
  pub nonce : Option String
  pub challenge : String
  pub challenge_method : String
  pub expires_at : Time
  pub consumed : Bool
  pub auth_time : Option Time

pub record RefreshTokenRow : Type 0 where
  pub token_hash : String
  pub family_id : String
  pub client_id : String
  pub user_id : String
  pub scope : String
  pub expires_at : Time
  pub consumed : Bool
  pub auth_time : Option Time

pub record ClientRow : Type 0 where
  pub id : String
  pub redirect_uris : List String
  pub allowed_scopes : List String
  pub response_types : List String
  pub grant_types : List String
  pub client_secret_hash : Option String

pub record UserRow : Type 0 where
  pub id : String
  pub username : String
  pub password_hash : String
  pub profile_name : String
  pub profile_email : String

pub record ConsentRow : Type 0 where
  pub user_id : String
  pub client_id : String
  pub scope : String

pub record Db : Type 0 where
  pub auth_codes : List AuthCodeRow
  pub refresh_tokens : List RefreshTokenRow
  pub clients : List ClientRow
  pub users : List UserRow
  pub consents : List ConsentRow
