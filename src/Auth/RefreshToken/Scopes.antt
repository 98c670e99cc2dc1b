-- ===== src/Auth/RefreshToken/Scopes.antt =====
-- app/auth/domain/refreshtoken/scope.go
pub mod Narrowing
use cc_orchestrator.Prelude.{
  String, Bool, true, false, List, [], ◌∷◌, Result, ok, err, and_then, contains, to_set, set_insert,
  if◌then◌else◌,
}
use cc_orchestrator.GoText.{fields, join}
use cc_orchestrator.Auth.Errors.{Err, refresh_token, RefreshTokenError}

pub record Scope : Type 0 where
  pub value : String
  pub values : List String

unfoldable pub of_fields : List String → Result Err Scope
of_fields [] = err (refresh_token RefreshTokenError.invalid_scope)
of_fields (f ∷ fs) = ok (record { value = join (f ∷ fs); values = to_set (f ∷ fs) })

unfoldable pub parse_scope : String → Result Err Scope
unfolding of_fields
parse_scope s = of_fields (fields s)

unfoldable pub has : Scope → String → Bool
has s v = contains s.values v

-- The loop of `Narrow`: every requested value must be in the grant.
unfoldable pub narrow_values : Scope → List String → List String → Result Err (List String)
narrow_values s values [] = ok values
narrow_values s values (f ∷ fs) =
    let more = narrow_values s (set_insert values f) fs in
    if has s f then more else err (refresh_token RefreshTokenError.invalid_scope)

unfoldable pub narrow_fields : Scope → List String → Result Err Scope
narrow_fields s [] = ok s
narrow_fields s (f ∷ fs) =
    and_then (narrow_values s [] (f ∷ fs))
      λ values. ok (record { value = join (f ∷ fs); values = values })

unfoldable pub narrow : Scope → String → Result Err Scope
unfolding narrow_fields narrow_values has
narrow s requested = narrow_fields s (fields requested)
