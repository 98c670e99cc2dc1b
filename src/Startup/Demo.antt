-- ===== src/Startup/Demo.antt =====
-- The demo data, the choice of the keys' loader and the background purge of app/auth/cmd/authz/main.go.
use cc_orchestrator.Prelude.{ℕ, String, [], ◌∷◌, ◌==◌, if◌then◌else◌}
use cc_orchestrator.GoText.Encoding.{base64url_encode}
use cc_orchestrator.Action.{Action, pure, lift, attempt, map_error, rand_read, ◌>>=◌, ◌>>◌}
use cc_orchestrator.Auth.Errors.{Err, entropy}
use cc_orchestrator.Auth.Platform.{Platform}
use cc_orchestrator.Auth.Client
use cc_orchestrator.Auth.Client.{Client, parse_client_id, new_redirect_uri}
use cc_orchestrator.Auth.User.{User, parse_user_id, new_username, new_profile}
use cc_orchestrator.Auth.Db.{Db}
use cc_orchestrator.Auth.AuthCodes
use cc_orchestrator.Auth.RefreshTokens
use cc_orchestrator.Auth.Sessions
use cc_orchestrator.Auth.Registration.{Hasher, new_user}
use cc_orchestrator.Auth.Service.Login.{Server, on_db, on_idp}
use cc_orchestrator.Auth.Service.Admin.{save_client, create_user}

abbrev pub demo_client_id : String
demo_client_id = "demo-client"

abbrev pub demo_redirect_uri : String
demo_redirect_uri = "http://localhost:3000/callback"

abbrev pub demo_redirect_uri_compose : String
demo_redirect_uri_compose = "http://localhost:8080/callback"

unfoldable pub build_demo_client : Platform → Action Err Db Client
build_demo_client p = do
  client_id ← lift (parse_client_id demo_client_id)
  redirect_uri ← lift (new_redirect_uri p demo_redirect_uri)
  redirect_uri_compose ← lift (new_redirect_uri p demo_redirect_uri_compose)
  pure (
      Client.new client_id (redirect_uri ∷ redirect_uri_compose ∷ [])
        ("openid" ∷ "profile" ∷ "email" ∷ "offline_access" ∷ []) ("code" ∷ [])
        ("authorization_code" ∷ "refresh_token" ∷ []))

unfoldable pub random_secret : ℕ → Action Err Db String
random_secret n = do bytes ← rand_read entropy n; pure (base64url_encode bytes)

abbrev pub demo_password : String → Action Err Db String
demo_password plaintext = if plaintext == "" then random_secret 32 else pure plaintext

-- The error of bcrypt has no sentinel; it ends the program like one of the reader of entropy.
unfoldable pub build_demo_user : Hasher → String → Action Err Db (User × String)
build_demo_user hasher plaintext_password = do
  user_id ← lift (parse_user_id "demo-user-id")
  username ← lift (new_username "demo-user")
  profile ← lift (new_profile "Demo User" "demo-user@example.com")
  password ← demo_password plaintext_password
  u ← map_error (λ (e : Unit {0}). entropy) (new_user hasher user_id username password profile)
  pure (u, password)

-- SeedClient and SeedUser make the same statements as the writers of the administration.
unfoldable pub seed_postgres : Platform → Hasher → String → Action Err Db String
seed_postgres p hasher password = do
  c ← build_demo_client p
  save_client c
  (u, plaintext) ← build_demo_user hasher password
  create_user u
  pure plaintext

-- What a tick does; the errors of a purge are logged, and the others are done all the same.
unfoldable pub purge_tick : Action Err Server (Unit {0})
purge_tick = do
  auth_codes ← attempt {F = Err} (on_db AuthCodes.purge_expired)
  refresh_tokens ← attempt {F = Err} (on_db RefreshTokens.purge_expired)
  sessions ← attempt {F = Err} (on_idp Sessions.purge_expired)
  pure tt
