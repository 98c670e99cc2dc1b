-- ===== src/Auth/Service/Authorize/Laws.antt =====
-- What /authorize accepts.
use cc_orchestrator.Prelude.{
  String, ◌≡◌, ◌≢◌, ◌⊎◌, refl, Bool, true, false, ◌||◌, Option, none, some, List, [], ◌∷◌, Result,
  ok, err, contains, all, arith, ◌==◌, eq_iff, inl, inr, sym, ◌∙◌, to_set, contains-to_set,
  all_of_members, member_of_all,
}
use cc_orchestrator.Auth.Service.Authorize.Redirect.{located, find_redirect_uri-ok}
use cc_orchestrator.GoText.{fields}
use cc_orchestrator.Auth.Platform.{Url}
use cc_orchestrator.Auth.AuthCode.Laws.{scope_of, parse_scope-ok, parse_scope-inv}
use cc_orchestrator.Action.{Env, World, fail_if, map_error, ◌>>=◌}
use cc_orchestrator.Auth.Errors.{Err}
use cc_orchestrator.Auth.Client.{
  Client, parse_client_id, new_redirect_uri, check_url, find_redirect_uri, validate_redirect_uri,
  supports_response_type, allows_scope,
}
use cc_orchestrator.Auth.Db.{Db}
use cc_orchestrator.Auth.Directory.{find_client}
use cc_orchestrator.Auth.AuthCode.Scopes.{Scope, parse_scope, scope_openid}
use cc_orchestrator.Auth.AuthCode.Challenge.{parse_code_challenge_method, new_code_challenge}
use cc_orchestrator.Auth.Service.Dto.{AuthorizationService, AuthorizeRequest, AuthorizeResult}
use cc_orchestrator.Auth.Service.Authorize.{check_request, validate_authorize, scopes_permitted}

-- What the specification of /authorize asks of a request of client `c`.
pub record IsAcceptable (s : AuthorizationService) (req : AuthorizeRequest) (c : Client)
    : Type 0 where
  pub identified : req.client_id ≢ ""
  pub is_web_url :
      (u : Url) × (s.platform.parse_url req.redirect_uri ≡ some u)
      × (u.host ≢ "")
      × ((u.scheme ≡ "http") ⊎ (u.scheme ≡ "https"))
  pub registered : contains c.redirect_uris req.redirect_uri ≡ true
  pub code_flow : req.response_type ≡ "code"
  pub code_allowed : contains c.response_types "code" ≡ true
  pub openid : contains (fields req.scope) "openid" ≡ true
  pub permitted : all (λ v. v == "openid" || contains c.allowed_scopes v) (fields req.scope) ≡ true
  pub challenge : req.code_challenge ≢ ""
  pub method : req.code_challenge_method ≡ "S256"

contains→find_redirect_uri :
    (uris : List String) (uri : String)
    → contains uris uri ≡ true
    → find_redirect_uri uris uri ≡ ok tt
unfolding find_redirect_uri
contains→find_redirect_uri [] uri h = cc
contains→find_redirect_uri (u ∷ us) uri h = ground (arith, contains→find_redirect_uri us uri)

-- A test passes on a list exactly when it passes on the set of the list.
all-to_set : (p : String → Bool) (ws : List String) → all p ws ≡ true → all p (to_set ws) ≡ true
all-to_set p ws h =
    all_of_members p (to_set ws) λ v m. member_of_all p ws v h (sym (contains-to_set ws v) ∙ m)

all-of_set : (p : String → Bool) (ws : List String) → all p (to_set ws) ≡ true → all p ws ≡ true
all-of_set p ws h =
    all_of_members p ws λ v m. member_of_all p (to_set ws) v h (contains-to_set ws v ∙ m)

ne→== : (a b : String) → a ≢ b → (a == b) ≡ false
ne→== a b h = ground (arith, eq_iff a b)

-- A text that is one literal is no other.
eq→ne : (a k j : String) → a ≡ k → (k == j) ≡ false → (a == j) ≡ false
eq→ne a k j h d = rw h d

web_url-ok :
    (u : Url) (uri : String)
    → u.host ≢ ""
    → (u.scheme ≡ "http") ⊎ (u.scheme ≡ "https")
    → check_url (some u) uri ≡ ok uri
unfolding check_url
web_url-ok u uri host (inl http) =
    rw (eq→ne u.scheme "http" "" http refl, ne→== u.host "" host, (eq_iff u.scheme "http").1 http)
web_url-ok u uri host (inr https) = rw (
  eq→ne u.scheme "https" "" https refl,
  ne→== u.host "" host,
  eq→ne u.scheme "https" "http" https refl,
  (eq_iff u.scheme "https").1 https,
)

-- `http` or `https` with a host.
abbrev pub IsWebUrl : Option Url → Type 0
IsWebUrl o = (u : Url) × (o ≡ some u) × (u.host ≢ "") × ((u.scheme ≡ "http") ⊎ (u.scheme ≡ "https"))

IsWebUrl-inv :
    (o : Option Url) (uri : String) {x : String} → check_url o uri ≡ ok x → (IsWebUrl o) × (x ≡ uri)
unfolding check_url
IsWebUrl-inv none uri h = cc
IsWebUrl-inv (some u) uri h = (
  (
    u,
    refl,
    ground (arith, eq_iff u.host ""),
    ground (arith, eq_iff u.scheme "http", eq_iff u.scheme "https"),
  ),
  ground arith,
)

module _ (s : AuthorizationService) (req : AuthorizeRequest) (c : Client) where
  acceptable→checked :
      (verified : AuthorizeResult) (env : Env) (w : World Db)
      → IsAcceptable s req c
      → check_request c req verified env w ≡ (ok verified, w)
  unfolding check_request ◌>>=◌ map_error fail_if parse_code_challenge_method new_code_challenge
      supports_response_type scopes_permitted allows_scope
  acceptable→checked verified env w h =
      let parsed = parse_scope-ok req.scope h.openid in
      let permitted : scopes_permitted c (scope_of (fields req.scope)) ≡ true =
        all-to_set (λ v. v == scope_openid || contains c.allowed_scopes v) (fields req.scope)
          h.permitted in
      let is_code = (eq_iff req.response_type "code").1 h.code_flow in
      let not_empty = eq→ne req.response_type "code" "" h.code_flow refl in
      let not_plain = eq→ne req.code_challenge_method "S256" "plain" h.method refl in
      let is_s256 = (eq_iff req.code_challenge_method "S256").1 h.method in
      let given = ne→== req.code_challenge "" h.challenge in
      rw (not_empty, is_code, h.code_allowed, parsed, permitted, not_plain, is_s256, given)

  checked→acceptable :
      (verified r : AuthorizeResult) (env : Env) (w w' : World Db)
      → check_request c req verified env w ≡ (ok r, w')
      → (req.response_type ≡ "code")
        × (contains c.response_types "code" ≡ true)
        × (req.code_challenge ≢ "")
        × (req.code_challenge_method ≡ "S256")
        × (sc : Scope) × (parse_scope req.scope ≡ ok sc)
        × (scopes_permitted c sc ≡ true)
        × (r ≡ verified)
  unfolding check_request ◌>>=◌ map_error fail_if parse_code_challenge_method new_code_challenge
      supports_response_type
  checked→acceptable verified r env w w' h = go (parse_scope req.scope) refl
    where
      go :
          (x : Result Err Scope)
          → parse_scope req.scope ≡ x
          → (req.response_type ≡ "code")
            × (contains c.response_types "code" ≡ true)
            × (req.code_challenge ≢ "")
            × (req.code_challenge_method ≡ "S256")
            × (sc : Scope) × (parse_scope req.scope ≡ ok sc)
            × (scopes_permitted c sc ≡ true)
            × (r ≡ verified)
      go (err e) q = absurd (ground arith)
      go (ok sc) q = (
        ground (arith, eq_iff req.response_type "code"),
        ground arith,
        ground (arith, eq_iff req.code_challenge ""),
        ground (
          arith,
          eq_iff req.code_challenge_method "plain",
          eq_iff req.code_challenge_method "S256",
        ),
        sc,
        q,
        ground arith,
        ground arith,
      )

  module _ (env : Env) (w v : World Db)
      (found : find_client s.platform req.client_id env w ≡ (ok c, v)) where
    -- /authorize accepts the requests that meet the specification, with the client that it finds
    -- under client_id, and answers with the requested redirect_uri.
    pub validate_accepts :
        IsAcceptable s req c → validate_authorize s req env w ≡ (ok (located req.redirect_uri), v)
    unfolding validate_authorize ◌>>=◌ map_error parse_client_id validate_redirect_uri
        new_redirect_uri
    validate_accepts h =
        let (u, parsed, host, scheme) = h.is_web_url in
        let checked = acceptable→checked (located req.redirect_uri) env v h in
        let given = ne→== req.client_id "" h.identified in
        let registered = contains→find_redirect_uri c.redirect_uris req.redirect_uri h.registered in
        let url_checks = web_url-ok u req.redirect_uri host scheme in ground arith

    validate-inv :
        (r : AuthorizeResult) (w' : World Db)
        → validate_authorize s req env w ≡ (ok r, w')
        → (req.client_id ≢ "")
          × (find_redirect_uri c.redirect_uris req.redirect_uri ≡ ok tt)
          × (check_url (s.platform.parse_url req.redirect_uri) req.redirect_uri
              ≡ ok req.redirect_uri)
          × (check_request c req (located req.redirect_uri) env v ≡ (ok r, w'))
    unfolding validate_authorize ◌>>=◌ map_error parse_client_id validate_redirect_uri
        new_redirect_uri
    validate-inv r w' h =
        go (check_url (s.platform.parse_url req.redirect_uri) req.redirect_uri) refl
      where
        go :
            (x : Result Err String)
            → check_url (s.platform.parse_url req.redirect_uri) req.redirect_uri ≡ x
            → (req.client_id ≢ "")
              × (find_redirect_uri c.redirect_uris req.redirect_uri ≡ ok tt)
              × (check_url (s.platform.parse_url req.redirect_uri) req.redirect_uri
                  ≡ ok req.redirect_uri)
              × (check_request c req (located req.redirect_uri) env v ≡ (ok r, w'))
        go (err e) q = absurd (ground arith)
        go (ok uri) q =
            let same =
              (IsWebUrl-inv (s.platform.parse_url req.redirect_uri) req.redirect_uri q).1 in
            (ground (arith, eq_iff req.client_id ""), ground arith, ground arith, ground arith)

    -- A request that is accepted meets the specification, with the client found under its client_id, and
    -- the answer is the requested redirect_uri.
    pub validate_accepts_only :
        (r : AuthorizeResult) (w' : World Db)
        → validate_authorize s req env w ≡ (ok r, w')
        → IsAcceptable s req c × (r ≡ located req.redirect_uri)
    unfolding scopes_permitted allows_scope
    validate_accepts_only r w' h =
        let (identified, registered, url, checked) = validate-inv r w' h in
        let (code_flow, code_allowed, challenge, method, sc, parsed, permitted, same) =
          checked→acceptable (located req.redirect_uri) r env v w' checked in
        let (openid, scope) = parse_scope-inv req.scope parsed in
        (
          record {
            identified = identified;
            is_web_url =
                (IsWebUrl-inv (s.platform.parse_url req.redirect_uri) req.redirect_uri url).0;
            registered = find_redirect_uri-ok c.redirect_uris req.redirect_uri registered;
            code_flow = code_flow;
            code_allowed = code_allowed;
            openid = openid;
            permitted =
                all-of_set (λ v. v == scope_openid || contains c.allowed_scopes v)
                  (fields req.scope) (rw scope at permitted);
            challenge = challenge;
            method = method;
          },
          same,
        )
