-- ===== src/Auth/AuthCode/Scopes.antt =====
-- app/auth/domain/authcode/scope.go
use cc_orchestrator.Prelude.{
  String, Bool, List, [], ◌∷◌, Result, ok, err, contains, to_set, if◌then◌else◌,
}
use cc_orchestrator.GoText.{fields, join}
use cc_orchestrator.Auth.Errors.{Err, auth_code, AuthCodeError}

abbrev pub scope_openid : String
scope_openid = "openid"

abbrev pub scope_offline_access : String
scope_offline_access = "offline_access"

pub record Scope : Type 0 where
  pub value : String
  pub values : List String

-- The rest of `ParseScope`, given the words of the text.
unfoldable pub of_fields : List String → Result Err Scope
of_fields [] = err (auth_code AuthCodeError.invalid_scope)
of_fields (f ∷ fs) =
    let values = to_set (f ∷ fs) in
    if contains values scope_openid
    then ok (record { value = join (f ∷ fs); values = values })
    else err (auth_code AuthCodeError.missing_openid_scope)

unfoldable pub parse_scope : String → Result Err Scope
unfolding of_fields
parse_scope s = of_fields (fields s)

unfoldable pub has : Scope → String → Bool
has s value = contains s.values value
