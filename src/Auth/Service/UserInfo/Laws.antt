-- ===== src/Auth/Service/UserInfo/Laws.antt =====
-- Which tokens are accepted, and which claims their scope opens.
use cc_orchestrator.Prelude.{
  String, ◌≡◌, ◌≢◌, ◌⊎◌, refl, ap, ◌∙◌, true, false, not, ◌||◌, contains, List, [], ◌∷◌, ok, arith,
  ◌==◌, eq_iff, if◌then◌else◌, Bool-cases, Result-cases, inl, inr,
}
use cc_orchestrator.GoText.{fields}
use cc_orchestrator.Action.{Env, World, pure, lift, fail_if}
use cc_orchestrator.Action.Keeps.{>>=-eq-ok}
use cc_orchestrator.Auth.Errors.{token, TokenError}
use cc_orchestrator.Auth.Claims.{Claims}
use cc_orchestrator.Auth.User.{User, parse_user_id}
use cc_orchestrator.Auth.Db.{Db}
use cc_orchestrator.Auth.Directory.{find_user}
use cc_orchestrator.Auth.Directory.Reads.{find_user_reads}
use cc_orchestrator.Auth.Service.UserInfo.{
  Verification, IntrospectionResponse, introspect, inactive, UserInfoDto, add_claim, add_claims,
  user_info,
}

-- A token that this server issued for its API, and that verifies.
abbrev pub IsAccepted : Verification → String → Claims → Type 0
IsAccepted s t claims =
    (s.verify t ≡ ok claims) × (claims.issuer ≡ s.issuer) × (claims.audience ≡ s.api_audience)

-- The answer carries the claims of an accepted token, or it is the inactive one and there is nothing to
-- accept.
abbrev pub IsIntrospection : Verification → String → IntrospectionResponse → Type 0
IsIntrospection s t r =
    ((claims : Claims) × (t ≢ "")
      × IsAccepted s t claims
      × (r ≡ record {
        active = true;
        subject = claims.subject;
        exp = claims.expires_at;
        scope = claims.scope;
      }))
    ⊎ ((r ≡ inactive) × ¬ ((t ≢ "") × ((claims : Claims) × IsAccepted s t claims)))

introspect-verified :
    (s : Verification) (t : String) (claims : Claims)
    → (t == "") ≡ false
    → s.verify t ≡ ok claims
    → IsIntrospection s t (introspect s t)
unfolding introspect
introspect-verified s t claims filled e = elim (Bool-cases (claims.issuer == s.issuer)) [
  | inr other ↦ inr (ground arith, λ (n, (c, k)). ground (arith, eq_iff claims.issuer s.issuer))
  | inl ours ↦ elim (Bool-cases (claims.audience == s.api_audience)) [
    | inr other ↦
        inr (ground arith, λ (n, (c, k)). ground (arith, eq_iff claims.audience s.api_audience))
    | inl api ↦ inl (
      claims,
      ground (arith, eq_iff t ""),
      (e, (eq_iff claims.issuer s.issuer).0 ours, (eq_iff claims.audience s.api_audience).0 api),
      ground arith,
    )
  ]
]

-- Introspection either answers with the claims of an accepted token, or answers that the token is
-- inactive and nothing else, and then the token is empty or is not accepted with any claims.
pub introspect-IsIntrospection :
    (s : Verification) (t : String) → IsIntrospection s t (introspect s t)
unfolding introspect
introspect-IsIntrospection s t = elim (Bool-cases (t == "")) [
  | inl empty ↦ inr (rw empty, λ h. h.0 ((eq_iff t "").0 empty))
  | inr filled ↦ elim (Result-cases (s.verify t)) [
    | inr (x, e) ↦ inr (ground arith, λ (n, (c, k)). ground arith)
    | inl (claims, e) ↦ introspect-verified s t claims filled e
  ]
]

-- The loop leaves the subject, and sets a member if its word is in the scope.
add_claims-eq :
    (u : User) (dto : UserInfoDto) (ws : List String)
    → add_claims u dto ws ≡ record {
      subject = dto.subject;
      name = if contains ws "profile" then u.profile.name else dto.name;
      email = if contains ws "email" then u.profile.email else dto.email;
    }
unfolding add_claims
add_claims-eq u dto [] = refl
add_claims-eq u dto (w ∷ ws) = elim (Bool-cases (w == "profile")) [
  | inl e ↦ rw (add_claims-eq u (add_claim u dto w) ws, (eq_iff w "profile").0 e) (ground arith)
  | inr d ↦ elim (Bool-cases (w == "email")) [
    | inl e ↦ rw (add_claims-eq u (add_claim u dto w) ws, (eq_iff w "email").0 e) (ground arith)
    | inr d' ↦ rw (add_claims-eq u (add_claim u dto w) ws, d, d')
  ]
]

-- A token with which UserInfo answers is one this server issued for its API and verifies; the answer
-- is about a stored user, the token's subject, with the name only if the scope has the word profile
-- and the email only if it has the word email; the database is as it was.
pub user_info-ok :
    (s : Verification) (t : String) (env : Env) (w w' : World Db) (dto : UserInfoDto)
    → user_info s t env w ≡ (ok dto, w')
    → (claims : Claims) × IsAccepted s t claims
      × (claims.subject ≢ "")
      × ((u : User) × ((find_user claims.subject env w).0 ≡ ok u)
          × (dto ≡ record {
            subject = u.id;
            name = if contains (fields claims.scope) "profile" then u.profile.name else "";
            email = if contains (fields claims.scope) "email" then u.profile.email else "";
          }))
      × (w'.store ≡ w.store)
unfolding user_info lift fail_if pure parse_user_id
user_info-ok s t env w w' dto h =
    let (claims, w1, e1, h1) = >>=-eq-ok (lift (s.verify t)) _ env w h in
    let (x, w2, e2, h2) =
      >>=-eq-ok
        (fail_if
          (not (claims.issuer == s.issuer)
            || not (claims.audience == s.api_audience)
            || claims.subject == "")
          (token TokenError.invalid_token))
        _ env w1 h1 in
    let (uid, w3, e3, h3) = >>=-eq-ok (lift (parse_user_id claims.subject)) _ env w2 h2 in
    let (u, w4, e4, h4) = >>=-eq-ok (find_user uid) _ env w3 h3 in
    let same : w3 ≡ w = ground arith in
    let id : uid ≡ claims.subject = ground arith in
    let found : find_user claims.subject env w ≡ (ok u, w4) = cc in
    let read = find_user_reads claims.subject env w w4 found in
    let made =
      add_claims-eq u (record { subject = u.id; name = ""; email = "" }) (fields claims.scope) in
    let got : dto
        ≡ add_claims u (record { subject = u.id; name = ""; email = "" }) (fields claims.scope) =
      ground arith in
    (
      claims,
      (
        ground arith,
        ground (arith, eq_iff claims.issuer s.issuer),
        ground (arith, eq_iff claims.audience s.api_audience),
      ),
      ground (arith, eq_iff claims.subject ""),
      (u, ap (λ o. o.0) found, got ∙ made),
      ground arith,
    )
