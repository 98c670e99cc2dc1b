-- ===== src/Auth/Service/Authorize/Redirect.antt =====
-- Where /authorize may send the browser.
use cc_orchestrator.Prelude.{
  String, ◌≡◌, ◌≢◌, refl, true, List, [], ◌∷◌, Result, ok, err, contains, arith,
}
use cc_orchestrator.Action.{Env, World, map_error, ◌>>=◌}
use cc_orchestrator.Auth.Errors.{Err}
use cc_orchestrator.Auth.Client.{
  Client, parse_client_id, new_redirect_uri, check_url, find_redirect_uri, validate_redirect_uri,
}
use cc_orchestrator.Auth.Db.{Db}
use cc_orchestrator.Auth.Directory.{find_client}
use cc_orchestrator.Auth.Service.Dto.{AuthorizationService, AuthorizeRequest, AuthorizeResult}
use cc_orchestrator.Auth.Service.Authorize.{Refusal, check_request, validate_authorize}

-- The result beside the error, if there is one: where the route redirects to.
abbrev pub result_of : Result Refusal AuthorizeResult → AuthorizeResult
result_of (ok r) = r
result_of (err (r, e)) = r

pub find_redirect_uri-ok :
    (uris : List String) (uri : String)
    → find_redirect_uri uris uri ≡ ok tt
    → contains uris uri ≡ true
unfolding find_redirect_uri
find_redirect_uri-ok [] uri h = cc
find_redirect_uri-ok (u ∷ us) uri h = ground (arith, find_redirect_uri-ok us uri)

pub new_redirect_uri-ok :
    (s : AuthorizationService) (uri : String) {u : String}
    → new_redirect_uri s.platform uri ≡ ok u
    → u ≡ uri
unfolding new_redirect_uri check_url
new_redirect_uri-ok s uri h = ground arith

check_request-result :
    (c : Client) (req : AuthorizeRequest) (verified : AuthorizeResult) (env : Env) (w : World Db)
    → result_of (check_request c req verified env w).0 ≡ verified
unfolding check_request ◌>>=◌ map_error
check_request-result c req verified env w = ground arith

-- The result once client_id and redirect_uri are verified.
abbrev pub located : String → AuthorizeResult
located uri = record { redirect_uri = uri; code = ""; state = "" }

-- A validation, successful or not, that names a redirect_uri found the client of the request, and the
-- redirect_uri is the requested one and is registered with that client.
redirect_is_registered :
    (s : AuthorizationService) (req : AuthorizeRequest) (env : Env) (w : World Db)
    → (result_of (validate_authorize s req env w).0).redirect_uri ≢ ""
    → (c : Client) × ((find_client s.platform req.client_id env w).0 ≡ ok c)
      × (contains c.redirect_uris req.redirect_uri ≡ true)
      × ((result_of (validate_authorize s req env w).0).redirect_uri ≡ req.redirect_uri)
unfolding validate_authorize ◌>>=◌ map_error parse_client_id validate_redirect_uri new_redirect_uri
    check_url
redirect_is_registered s req env w h =
    go (find_client s.platform req.client_id env w).0 (find_client s.platform req.client_id env w).1
      refl
  where
    go :
        (r : Result Err Client) (v : World Db)
        → find_client s.platform req.client_id env w ≡ (r, v)
        → (c : Client) × ((find_client s.platform req.client_id env w).0 ≡ ok c)
          × (contains c.redirect_uris req.redirect_uri ≡ true)
          × ((result_of (validate_authorize s req env w).0).redirect_uri ≡ req.redirect_uri)
    go (err e) v eq = ground arith
    go (ok c) v eq =
        let checked = check_request-result c req (located req.redirect_uri) env v in
        let registered = find_redirect_uri-ok c.redirect_uris req.redirect_uri in
        (c, ground arith, ground (arith, checked, registered), ground (arith, checked))
