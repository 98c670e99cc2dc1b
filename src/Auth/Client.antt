-- ===== src/Auth/Client.antt =====
-- app/auth/domain/client/{client,client_id,redirect_uri}.go
use cc_orchestrator.Prelude.{
  String, Bool, true, false, ◌||◌, Option, none, some, List, [], ◌∷◌, Result, ok, err, contains,
  to_set, ◌==◌, if◌then◌else◌,
}
use cc_orchestrator.Auth.Errors.{Err, client, ClientError}
use cc_orchestrator.Auth.Platform.{Platform, Url}

-- The sets are maps in the source. `secret_hash` is `none` for a public client.
pub record Client : Type 0 where
  pub id : String
  pub secret_hash : Option String
  pub redirect_uris : List String
  pub allowed_scopes : List String
  pub response_types : List String
  pub grant_types : List String

unfoldable pub new : String → List String → List String → List String → List String → Client
new id redirect_uris allowed_scopes response_types grant_types = record {
  id = id;
  secret_hash = none;
  redirect_uris = redirect_uris;
  allowed_scopes = to_set allowed_scopes;
  response_types = to_set response_types;
  grant_types = to_set grant_types;
}

unfoldable pub reconstruct :
    String → List String → List String → List String → List String → Option String → Client
reconstruct id redirect_uris allowed_scopes response_types grant_types secret_hash =
    let c = new id redirect_uris allowed_scopes response_types grant_types in
    record c { secret_hash = secret_hash }

unfoldable pub parse_client_id : String → Result Err String
parse_client_id s = if s == "" then err (client ClientError.invalid_client_id) else ok s

-- An absolute URL with a host and the scheme http or https.
unfoldable pub check_url : Option Url → String → Result Err String
check_url none s = err (client ClientError.invalid_redirect_uri)
check_url (some u) s =
    if u.scheme == "" || u.host == ""
    then err (client ClientError.invalid_redirect_uri)
    else if u.scheme == "http" || u.scheme == "https"
    then ok s
    else err (client ClientError.invalid_redirect_uri)

unfoldable pub new_redirect_uri : Platform → String → Result Err String
new_redirect_uri p s = check_url (p.parse_url s) s

-- The loop of `ValidateRedirectURI`.
unfoldable pub find_redirect_uri : List String → String → Result Err (Unit {0})
find_redirect_uri [] uri = err (client ClientError.redirect_uri_mismatch)
find_redirect_uri (registered ∷ rest) uri =
    let more = find_redirect_uri rest uri in if registered == uri then ok tt else more

unfoldable pub validate_redirect_uri : Client → String → Result Err (Unit {0})
unfolding find_redirect_uri
validate_redirect_uri c uri = find_redirect_uri c.redirect_uris uri

unfoldable pub supports_response_type : Client → String → Bool
supports_response_type c response_type = contains c.response_types response_type

unfoldable pub supports_grant_type : Client → String → Bool
supports_grant_type c grant_type = contains c.grant_types grant_type

unfoldable pub allows_scope : Client → String → Bool
allows_scope c scope = contains c.allowed_scopes scope

unfoldable pub is_confidential : Client → Bool
is_confidential c = elim c.secret_hash [ none ↦ false | some _ ↦ true ]

-- `VerifySecret` by the stored hash.
unfoldable pub verify_hash : Platform → Option String → String → Bool
verify_hash p none candidate = true
verify_hash p (some hash) candidate =
    if candidate == "" then false else p.bcrypt_matches hash candidate

unfoldable pub verify_secret : Platform → Client → String → Bool
unfolding verify_hash
verify_secret p c candidate = verify_hash p c.secret_hash candidate
