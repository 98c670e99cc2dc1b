-- ===== src/Auth/Service/Consent.antt =====
-- `ConsentService` of app/auth/service/consent_service.go.
pub mod Laws
use cc_orchestrator.Prelude.{String, Bool}
use cc_orchestrator.Action.{Action, pure, lift, ◌>>=◌}
use cc_orchestrator.Auth.Errors.{Err}
use cc_orchestrator.Auth.AuthCode.Scopes.{Scope, parse_scope}
use cc_orchestrator.Auth.Db.{Db}
use cc_orchestrator.Auth.Directory
use cc_orchestrator.Auth.Directory.{save_grant}

-- `normalizeScope`; the string of a scope is its words joined by one space.
unfoldable pub normalize_scope : String → Action Err Db String
normalize_scope scope_raw = do scope ← lift (parse_scope scope_raw); pure scope.value

unfoldable pub has_grant : String → String → String → Action Err Db Bool
has_grant user_id client_id scope_raw = do
  normalized ← normalize_scope scope_raw
  Directory.has_grant user_id client_id normalized

unfoldable pub grant : String → String → String → Action Err Db (Unit {0})
grant user_id client_id scope_raw = do
  normalized ← normalize_scope scope_raw
  save_grant user_id client_id normalized
