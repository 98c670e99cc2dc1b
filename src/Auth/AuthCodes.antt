-- ===== src/Auth/AuthCodes.antt =====
-- The authorization code repository: app/auth/infra/postgres/authcode_repository.go over the
-- statements of schema/queries/authcodes.sql (sqlcgen/authcodes.sql.go).
pub mod Statements
pub mod Laws
pub mod RoundTrip
use cc_orchestrator.Prelude.{
  ℕ, String, false, Option, none, some, Result, ok, err, and_then, ltb, ◌==◌, if◌then◌else◌,
}
use cc_orchestrator.Action.{
  Time, Action, pure, raise, lift, fail_if, time_now, statement, ◌>>=◌, ◌>>◌,
}
use cc_orchestrator.Auth.Errors.{Err, auth_code, database, AuthCodeError}
use cc_orchestrator.Auth.AuthCode.{AuthorizationCode, parse_code}
use cc_orchestrator.Auth.AuthCode.Scopes.{parse_scope}
use cc_orchestrator.Auth.AuthCode.Challenge.{
  parse_code_challenge_method, method_string, new_code_challenge,
}
use cc_orchestrator.Auth.Db.{AuthCodeRow, Db}
use cc_orchestrator.Auth.RefreshTokens.{encode_auth_time, decode_auth_time}
use Statements.{
  insert_auth_code, get_active_auth_code, delete_expired_auth_code, purge_expired_auth_codes,
  consume_auth_code,
}

-- An absent nonce is stored as NULL.
unfoldable pub encode_nonce : String → Option String
encode_nonce n = if n == "" then none else some n

unfoldable pub decode_nonce : Option String → String
decode_nonce none = ""
decode_nonce (some n) = n

unfoldable pub insert_auth_code_params : AuthorizationCode → AuthCodeRow
insert_auth_code_params ac = record {
  code = ac.code;
  client_id = ac.client_id;
  user_id = ac.user_id;
  redirect_uri = ac.redirect_uri;
  scope = ac.scope.value;
  nonce = encode_nonce ac.nonce;
  challenge = ac.challenge.challenge;
  challenge_method = method_string ac.challenge.method;
  expires_at = ac.expires_at;
  consumed = false;
  auth_time = encode_auth_time ac.auth_time;
}

unfoldable pub reconstruct_auth_code : AuthCodeRow → Result Err AuthorizationCode
reconstruct_auth_code row = and_then (parse_code row.code) λ code.
    and_then (parse_scope row.scope) λ scope.
      and_then (parse_code_challenge_method row.challenge_method) λ method.
        and_then (new_code_challenge row.challenge method) λ challenge. ok (record {
          code = code;
          client_id = row.client_id;
          user_id = row.user_id;
          redirect_uri = row.redirect_uri;
          scope = scope;
          nonce = decode_nonce row.nonce;
          challenge = challenge;
          auth_time = decode_auth_time row.auth_time;
          expires_at = row.expires_at;
          consumed = row.consumed;
        })

unfoldable pub save : AuthorizationCode → Action Err Db (Unit {0})
save ac = statement database (insert_auth_code (insert_auth_code_params ac))

-- No active row: an expired one is deleted, and the code is reported as not found.
unfoldable pub found_or_evict : String → Option AuthCodeRow → Action Err Db AuthorizationCode
found_or_evict code none = do
  statement database (delete_expired_auth_code code)
  raise (auth_code AuthCodeError.not_found)
found_or_evict code (some row) = lift (reconstruct_auth_code row)

unfoldable pub find_by_code : String → Action Err Db AuthorizationCode
find_by_code code = do row ← statement database (get_active_auth_code code); found_or_evict code row

unfoldable pub purge_expired : Action Err Db ℕ
purge_expired = statement database purge_expired_auth_codes

-- The row is gone either way; the process's own clock tells a valid one from an expired one.
unfoldable pub claimed : Option Time → Action Err Db (Unit {0})
claimed none = raise (auth_code AuthCodeError.not_found)
claimed (some expires_at) = do
  now ← time_now
  fail_if (ltb expires_at now) (auth_code AuthCodeError.expired)

unfoldable pub consume : String → Action Err Db (Unit {0})
consume code = do expires_at ← statement database (consume_auth_code code); claimed expires_at
