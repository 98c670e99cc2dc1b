-- ===== src/Auth/Tests/Access.antt =====
-- Consents, bearer tokens and the administration.
use cc_orchestrator.Prelude.{
  ◌≡◌, ◌≢◌, ◌⊎◌, ◌↔◌, refl, true, ◌&&◌, ◌||◌, contains, [], ◌∷◌, Result, ok, err, ◌==◌,
  if◌then◌else◌, to_set, to_set_from, set_insert,
}
use cc_orchestrator.Prelude.Int.{pos}
use cc_orchestrator.GoText.{fields, join, is_space, trim_space, trim_left, trim_right}
use cc_orchestrator.Action.{World, pure, lift, statement, transaction, close, fail_if, ◌>>=◌}
use cc_orchestrator.Auth.Errors.{Err, token, TokenError}
use cc_orchestrator.Auth.Claims.{Claims}
use cc_orchestrator.Auth.AuthCode.Scopes.{Scope, parse_scope, of_fields}
use cc_orchestrator.Auth.User
use cc_orchestrator.Auth.User.{
  User, parse_user_id, new_username, new_profile, looks_like_email, after_at,
}
use cc_orchestrator.Auth.Db.{Db}
use cc_orchestrator.Auth.Db.Table.{select, has_key}
use cc_orchestrator.Auth.Directory.{
  find_user, found_user, get_user_by_id, row_to_user, save_grant, upsert_consent, consent_exists,
}
use cc_orchestrator.Auth.Service.Consent.{normalize_scope, grant, has_grant}
use cc_orchestrator.Auth.Service.Consent.Laws.{has_grant-grant}
use cc_orchestrator.Auth.Service.UserInfo.{
  Verification, UserInfoDto, introspect, user_info, add_claims,
}
use cc_orchestrator.Auth.Service.UserInfo.Laws.{
  IsAccepted, IsIntrospection, introspect-IsIntrospection, user_info-ok,
}
use cc_orchestrator.Auth.Service.Admin.{
  delete_user, delete_consents_by_user, delete_refresh_tokens_by_user, delete_auth_codes_by_user,
  delete_user_row, user_key,
}
use cc_orchestrator.Auth.Service.Admin.Laws.{delete_user_lem, without_user}
use cc_orchestrator.Auth.Tests.{calm, start, fresh}

abbrev after_grant : World Db
after_grant = (grant "u1" "web" "openid  email" calm start).1

granted : grant "u1" "web" "openid  email" calm start ≡ (ok tt, after_grant)
unfolding grant normalize_scope lift pure parse_scope of_fields save_grant statement upsert_consent
    consent_exists select ◌>>=◌ fields is_space to_set
granted = refl

abbrev scope : Scope
scope = record { value = "openid email"; values = "openid" ∷ "email" ∷ [] }

parsed : parse_scope " openid email" ≡ ok scope
unfolding parse_scope of_fields fields is_space join to_set to_set_from set_insert
parsed = refl

has_grant-grant_example :
    (s : Scope) × ((s.value ≡ "openid email") ↔ (fields "openid  email" ≡ fields " openid email"))
    × ((has_grant "u1" "web" " openid email" calm after_grant).0
        ≡ ok (
            ("u1" == "u1" && ("web" == "web" && s.value == "openid email"))
            || consent_exists "u1" "web" "openid email" start.store))
has_grant-grant_example =
    has_grant-grant "u1" "web" "openid  email" "u1" "web" " openid email" scope calm calm start
      after_grant granted parsed refl

abbrev claims : Claims
claims = record {
  issuer = "https://op";
  subject = "u1";
  audience = "api";
  expires_at = pos 9;
  issued_at = pos 1;
  nonce = "";
  auth_time = pos 0;
  at_hash = "";
  scope = "openid email";
  name = "";
  email = "";
}

-- A verifier that knows one token.
abbrev verification : Verification
verification = record {
  verify = λ t. if t == "jwt" then ok claims else err (token TokenError.invalid_token);
  issuer = "https://op";
  api_audience = "api";
}

introspect-IsIntrospection_example :
    IsIntrospection verification "jwt" (introspect verification "jwt")
introspect-IsIntrospection_example = introspect-IsIntrospection verification "jwt"

abbrev answer : UserInfoDto
answer = record { subject = "u1"; name = ""; email = "a@b.c" }

abbrev after_info : World Db
after_info = (user_info verification "jwt" calm start).1

informed : user_info verification "jwt" calm start ≡ (ok answer, after_info)
unfolding user_info lift fail_if parse_user_id find_user found_user statement get_user_by_id select
    row_to_user new_username new_profile looks_like_email after_at trim_space trim_left trim_right
    is_space User.reconstruct pure add_claims fields ◌>>=◌
informed = refl

user_info-ok_example :
    (c : Claims) × IsAccepted verification "jwt" c
    × (c.subject ≢ "")
    × ((u : User) × ((find_user c.subject calm start).0 ≡ ok u)
        × (answer ≡ record {
          subject = u.id;
          name = if contains (fields c.scope) "profile" then u.profile.name else "";
          email = if contains (fields c.scope) "email" then u.profile.email else "";
        }))
    × (after_info.store ≡ start.store)
user_info-ok_example = user_info-ok verification "jwt" calm start after_info answer informed

abbrev after_delete : World Db
after_delete = (delete_user "u1" calm fresh).1

deleted : delete_user "u1" calm fresh ≡ (ok tt, after_delete)
unfolding delete_user transaction close statement delete_consents_by_user
    delete_refresh_tokens_by_user delete_auth_codes_by_user delete_user_row has_key fail_if ◌>>=◌
deleted = refl

abbrev success : Result Err (Unit {0})
success = ok tt

delete_user_lem_example :
    ((success ≡ ok tt)
      × (has_key user_key "u1" fresh.store.users ≡ true)
      × (after_delete.store ≡ without_user "u1" fresh.store))
    ⊎ ((e : Err) × (success ≡ err e) × (after_delete.store ≡ fresh.store))
delete_user_lem_example = delete_user_lem "u1" calm fresh after_delete success deleted
