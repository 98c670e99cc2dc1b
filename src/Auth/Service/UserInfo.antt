-- ===== src/Auth/Service/UserInfo.antt =====
-- `IntrospectionService` and `UserInfoService` of app/auth/service/introspection_service.go and
-- userinfo_service.go. `verify` is the port token.Verifier, which checks a token's signature and expiry.
pub mod Laws
use cc_orchestrator.Prelude.{
  String, Bool, true, false, not, ◌||◌, List, [], ◌∷◌, Result, ok, err, ◌==◌, if◌then◌else◌,
}
use cc_orchestrator.Prelude.Int.{ℤ, pos}
use cc_orchestrator.GoText.{fields}
use cc_orchestrator.Action.{Action, pure, lift, fail_if, ◌>>=◌, ◌>>◌}
use cc_orchestrator.Auth.Errors.{Err, token, TokenError}
use cc_orchestrator.Auth.Claims.{Claims}
use cc_orchestrator.Auth.User.{User, parse_user_id}
use cc_orchestrator.Auth.Db.{Db}
use cc_orchestrator.Auth.Directory.{find_user}

-- The fields that both services have.
pub record Verification : Type 0 where
  pub verify : String → Result Err Claims
  pub issuer : String
  pub api_audience : String

-- An absent member is empty, or 0.
pub record IntrospectionResponse : Type 0 where
  pub active : Bool
  pub subject : String
  pub exp : ℤ
  pub scope : String

abbrev pub inactive : IntrospectionResponse
inactive = record { active = false; subject = ""; exp = pos 0; scope = "" }

abbrev introspect_claims : Verification → Claims → IntrospectionResponse
introspect_claims s claims =
    if not (claims.issuer == s.issuer) || not (claims.audience == s.api_audience)
    then inactive
    else record {
      active = true;
      subject = claims.subject;
      exp = claims.expires_at;
      scope = claims.scope;
    }

unfoldable pub introspect : Verification → String → IntrospectionResponse
introspect s token_string = if token_string == "" then inactive else (elim (s.verify token_string) [
  | ok claims ↦ introspect_claims s claims
  | err e ↦ inactive
])

pub record UserInfoDto : Type 0 where
  pub subject : String
  pub name : String
  pub email : String

-- One turn of the loop over the words of the scope.
abbrev pub add_claim : User → UserInfoDto → String → UserInfoDto
add_claim u dto sc =
    if sc == "profile"
    then record dto { name = u.profile.name }
    else if sc == "email"
    then record dto { email = u.profile.email }
    else dto

unfoldable pub add_claims : User → UserInfoDto → List String → UserInfoDto
add_claims u dto [] = dto
add_claims u dto (sc ∷ rest) = add_claims u (add_claim u dto sc) rest

unfoldable pub user_info : Verification → String → Action Err Db UserInfoDto
unfolding add_claims
user_info s bearer_token = do
  claims ← lift (s.verify bearer_token)
  fail_if
      (not (claims.issuer == s.issuer)
        || not (claims.audience == s.api_audience)
        || claims.subject == "")
      (token TokenError.invalid_token)
  uid ← lift (parse_user_id claims.subject)
  u ← find_user uid
  pure (add_claims u (record { subject = u.id; name = ""; email = "" }) (fields claims.scope))
