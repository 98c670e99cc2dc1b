-- ===== src/Auth/Route/Admin.antt =====
-- The administration API: app/auth/route/admin_handler.go.
pub mod Secrets
use Prim.Native.String.{◌++◌}
use cc_orchestrator.Prelude.{
  ℕ, String, not, ◌||◌, Option, none, some, List, [], ◌∷◌, map, Result, ok, err, ◌==◌,
  if◌then◌else◌,
}
use cc_orchestrator.GoText.{cut_prefix}
use cc_orchestrator.Action.{Action, pure, lift, map_error, ◌>>=◌, ◌>>◌}
use cc_orchestrator.Http.{
  Request, Response, Handler, fresh, get, set_header, write_json, write_header, respond_if,
}
use cc_orchestrator.Auth.Errors.{Err}
use cc_orchestrator.Auth.Client
use cc_orchestrator.Auth.Client.{Client, parse_client_id, new_redirect_uri, is_confidential}
use cc_orchestrator.Auth.User
use cc_orchestrator.Auth.User.{User, Profile, parse_user_id, new_username, new_profile}
use cc_orchestrator.Auth.Platform.{Platform}
use cc_orchestrator.Auth.Db.{Db}
use cc_orchestrator.Auth.Registration.{new_confidential, new_user, list_all_clients, list_all_users}
use cc_orchestrator.Auth.Service.Login.{Server, on_db}
use cc_orchestrator.Auth.Service.Admin.{
  save_client, create_user, get_user, get_client, delete_user, delete_client, is_not_found,
}
use cc_orchestrator.Auth.Route.{
  Body, ListUserItem, ListClientItem, Routes, Decoder, platform_of, empty, admin_error,
  client_created, user_created, user_item, users, client_item, clients, decode_json_body,
}

pub record CreateClientRequest : Type 0 where
  pub client_id : String
  pub redirect_uris : List String
  pub allowed_scopes : List String
  pub response_types : List String
  pub grant_types : List String
  pub client_secret : String

pub record UpdateClientRequest : Type 0 where
  pub redirect_uris : List String
  pub allowed_scopes : List String
  pub response_types : List String
  pub grant_types : List String
  pub client_secret : String

pub record CreateUserRequest : Type 0 where
  pub user_id : String
  pub username : String
  pub password : String
  pub name : String
  pub email : String

pub record UpdateUserRequest : Type 0 where
  pub username : String
  pub password : String
  pub name : String
  pub email : String

-- encoding/json, for each type of body
pub record Decoders : Type 0 where
  pub create_client : Decoder CreateClientRequest
  pub update_client : Decoder UpdateClientRequest
  pub create_user : Decoder CreateUserRequest
  pub update_user : Decoder UpdateUserRequest

unfoldable pub write_admin_error : ℕ → String → String → Response Body
unfolding write_json
write_admin_error status code description =
    write_json fresh status (admin_error (record { error = code; error_description = description }))

abbrev pub internal_error : Response Body
internal_error = write_admin_error 500 "server_error" ""

abbrev pub refused : String → Response Body
refused description = write_admin_error 400 "invalid_request" description

abbrev pub or_bearer : String → Option String → String
or_bearer other none = other
or_bearer other (some rest) = rest

unfoldable pub extract_admin_key : Request → String
extract_admin_key r =
    let auth = get "Authorization" r.headers in
    let key = get "X-Admin-Key" r.headers in
    if auth == "" then key else or_bearer key (cut_prefix auth "Bearer ")

unfoldable pub unauthorized : Response Body
unfolding write_json set_header
unauthorized = write_json (set_header "WWW-Authenticate" "Bearer realm=\"admin\"" fresh) 401 (
    admin_error
      (record { error = "unauthorized"; error_description = "valid ADMIN_API_KEY required" }))

-- Two texts of one length are compared in constant time, to equality.
unfoldable pub require_admin_auth :
    String
    → (Request → Handler Body Server (Response Body))
    → Request
    → Handler Body Server (Response Body)
require_admin_auth api_key next r = do
  respond_if (api_key == "" || not (extract_admin_key r == api_key)) unauthorized
  next r

-- A call on the database whose error is answered with 500, and with 404 where the row is missing.
abbrev pub or_internal : {A : Type 0} → Action Err Db A → Handler Body Server A
or_internal m = map_error (λ (e : Err). internal_error) (on_db m)

unfoldable pub write_admin_not_found : String → Response Body
unfolding write_admin_error
write_admin_not_found resource = write_admin_error 404 "not_found" (resource ++ " not found")

abbrev pub or_not_found : {A : Type 0} → String → Action Err Db A → Handler Body Server A
or_not_found resource m =
    map_error (λ e. if is_not_found e then write_admin_not_found resource else internal_error)
      (on_db m)

-- A parse of the request whose error is answered with 400.
abbrev pub or_refused : {A : Type 0} → String → Result Err A → Handler Body Server A
or_refused description m = map_error (λ (e : Err). refused description) (lift m)

unfoldable pub user_to_list_item : User → ListUserItem
user_to_list_item u = record {
  user_id = u.id;
  username = u.username;
  name = u.profile.name;
  email = u.profile.email;
}

unfoldable pub client_to_list_item : Client → ListClientItem
unfolding is_confidential
client_to_list_item c = record {
  client_id = c.id;
  redirect_uris = c.redirect_uris;
  allowed_scopes = c.allowed_scopes;
  response_types = c.response_types;
  grant_types = c.grant_types;
  is_confidential = is_confidential c;
}

abbrev pub parsed_uri : Platform → String → Result (Response Body) String
parsed_uri p raw = elim (new_redirect_uri p raw) [
  | ok uri ↦ ok uri
  | err e ↦ err (refused ("redirect_uri " ++ (raw ++ " is not a valid absolute URI")))
]

-- The loop over the texts of the request.
unfoldable pub parse_redirect_uris : Platform → List String → Handler Body Server (List String)
parse_redirect_uris p [] = pure []
parse_redirect_uris p (raw ∷ rest) = do
  uri ← lift (parsed_uri p raw)
  uris ← parse_redirect_uris p rest
  pure (uri ∷ uris)

module _ (h : Routes) (d : Decoders) (r : Request) where
  unfoldable pub build_client :
      String → List String → CreateClientRequest → Handler Body Server Client
  build_client cid uris req =
      if req.client_secret == ""
      then pure (Client.new cid uris req.allowed_scopes req.response_types req.grant_types)
      else map_error (λ (e : Unit {0}). internal_error)
          (new_confidential h.hasher cid uris req.allowed_scopes req.response_types req.grant_types
            req.client_secret)

  unfoldable pub handle_create_client : Handler Body Server (Response Body)
  handle_create_client = do
    req ← decode_json_body d.create_client fresh r
    cid ← or_refused "client_id is missing or invalid" (parse_client_id req.client_id)
    uris ← parse_redirect_uris (platform_of h) req.redirect_uris
    c ← build_client cid uris req
    or_internal (save_client c)
    pure (
        write_json fresh 201
          (client_created (record { client_id = c.id; is_confidential = is_confidential c })))

  unfoldable pub handle_create_user : Handler Body Server (Response Body)
  handle_create_user = do
    req ← decode_json_body d.create_user fresh r
    uid ← or_refused "user_id is missing or invalid" (parse_user_id req.user_id)
    username ← or_refused "username is missing or invalid" (new_username req.username)
    respond_if (req.password == "") (refused "password is required")
    profile ← or_refused "name and email are required" (new_profile req.name req.email)
    u ←
        map_error (λ (e : Unit {0}). internal_error)
          (new_user h.hasher uid username req.password profile)
    or_internal (create_user u)
    pure (write_json fresh 201 (user_created (record { user_id = u.id; username = u.username })))

  unfoldable pub handle_list_users : Handler Body Server (Response Body)
  handle_list_users = do
    all ← or_internal (list_all_users h.before)
    pure (write_json fresh 200 (users (map user_to_list_item all)))

  unfoldable pub handle_list_clients : Handler Body Server (Response Body)
  handle_list_clients = do
    all ← or_internal (list_all_clients h.before (platform_of h))
    pure (write_json fresh 200 (clients (map client_to_list_item all)))

  unfoldable pub handle_get_user : Handler Body Server (Response Body)
  handle_get_user = do
    uid ← or_refused "user id is missing or invalid" (parse_user_id r.path_id)
    u ← or_not_found "user" (get_user uid)
    pure (write_json fresh 200 (user_item (user_to_list_item u)))

  unfoldable pub updated_user :
      String → String → Profile → UpdateUserRequest → User → Handler Body Server User
  updated_user uid username profile req existing =
      if req.password == ""
      then pure (User.reconstruct uid username existing.password_hash profile)
      else map_error (λ (e : Unit {0}). internal_error)
          (new_user h.hasher uid username req.password profile)

  unfoldable pub handle_update_user : Handler Body Server (Response Body)
  handle_update_user = do
    uid ← or_refused "user id is missing or invalid" (parse_user_id r.path_id)
    req ← decode_json_body d.update_user fresh r
    existing ← or_not_found "user" (get_user uid)
    username ← or_refused "username is missing or invalid" (new_username req.username)
    profile ← or_refused "name and email are required" (new_profile req.name req.email)
    updated ← updated_user uid username profile req existing
    or_internal (create_user updated)
    pure (write_json fresh 200 (user_item (user_to_list_item updated)))

  unfoldable pub handle_delete_user : Handler Body Server (Response Body)
  handle_delete_user = do
    uid ← or_refused "user id is missing or invalid" (parse_user_id r.path_id)
    or_not_found "user" (delete_user uid)
    pure (write_header fresh 204 empty)

  unfoldable pub handle_get_client : Handler Body Server (Response Body)
  handle_get_client = do
    cid ← or_refused "client id is missing or invalid" (parse_client_id r.path_id)
    c ← or_not_found "client" (get_client (platform_of h) cid)
    pure (write_json fresh 200 (client_item (client_to_list_item c)))

  unfoldable pub updated_client :
      String → List String → UpdateClientRequest → Client → Handler Body Server Client
  updated_client cid uris req existing =
      if not (req.client_secret == "")
      then map_error (λ (e : Unit {0}). internal_error)
          (new_confidential h.hasher cid uris req.allowed_scopes req.response_types req.grant_types
            req.client_secret)
      else if is_confidential existing
      then pure (
          Client.reconstruct cid uris req.allowed_scopes req.response_types req.grant_types
            existing.secret_hash)
      else pure (Client.new cid uris req.allowed_scopes req.response_types req.grant_types)

  unfoldable pub handle_update_client : Handler Body Server (Response Body)
  handle_update_client = do
    cid ← or_refused "client id is missing or invalid" (parse_client_id r.path_id)
    req ← decode_json_body d.update_client fresh r
    existing ← or_not_found "client" (get_client (platform_of h) cid)
    uris ← parse_redirect_uris (platform_of h) req.redirect_uris
    updated ← updated_client cid uris req existing
    or_internal (save_client updated)
    pure (write_json fresh 200 (client_item (client_to_list_item updated)))

  unfoldable pub handle_delete_client : Handler Body Server (Response Body)
  handle_delete_client = do
    cid ← or_refused "client id is missing or invalid" (parse_client_id r.path_id)
    or_not_found "client" (delete_client cid)
    pure (write_header fresh 204 empty)
