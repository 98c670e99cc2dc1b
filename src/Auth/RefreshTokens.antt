-- ===== src/Auth/RefreshTokens.antt =====
-- The refresh token repository: app/auth/infra/postgres/refreshtoken_repository.go over the
-- statements of schema/queries/refresh_tokens.sql (sqlcgen/refresh_tokens.sql.go).
pub mod Statements
pub mod Laws
pub mod Rotation
pub mod SingleUse
pub mod RoundTrip
use cc_orchestrator.Prelude.{
  ℕ, String, false, Option, none, some, Result, ok, err, and_then, ◌=ℕ◌, if◌then◌else◌,
}
use cc_orchestrator.Action.{Time, Action, pure, raise, lift, statement, transaction, ◌>>=◌, ◌>>◌}
use cc_orchestrator.Auth.Errors.{Err, refresh_token, database, RefreshTokenError}
use cc_orchestrator.Auth.RefreshToken.{RefreshToken, parse_token_hash, parse_family_id}
use cc_orchestrator.Auth.RefreshToken.Scopes.{parse_scope}
use cc_orchestrator.Auth.Db.{RefreshTokenRow, Db}
use Statements.{
  insert_refresh_token, get_refresh_token, delete_expired_refresh_token,
  purge_expired_refresh_tokens, consume_refresh_token, revoke_family_refresh_tokens,
}

-- The zero time is stored as NULL.
unfoldable pub encode_auth_time : Time → Option Time
encode_auth_time t = if t =ℕ 0 then none else some t

unfoldable pub decode_auth_time : Option Time → Time
decode_auth_time none = 0
decode_auth_time (some t) = t

-- The row that a new token is stored as: `consumed` is false whatever the token says.
unfoldable pub insert_refresh_token_params : RefreshToken → RefreshTokenRow
insert_refresh_token_params rt = record {
  token_hash = rt.token_hash;
  family_id = rt.family_id;
  client_id = rt.client_id;
  user_id = rt.user_id;
  scope = rt.scope.value;
  expires_at = rt.expires_at;
  consumed = false;
  auth_time = encode_auth_time rt.auth_time;
}

unfoldable pub reconstruct_refresh_token : RefreshTokenRow → Result Err RefreshToken
reconstruct_refresh_token row = and_then (parse_token_hash row.token_hash) λ hash.
    and_then (parse_family_id row.family_id) λ family_id. and_then (parse_scope row.scope) λ scope.
      ok (record {
        token_hash = hash;
        family_id = family_id;
        client_id = row.client_id;
        user_id = row.user_id;
        scope = scope;
        auth_time = decode_auth_time row.auth_time;
        expires_at = row.expires_at;
        consumed = row.consumed;
      })

unfoldable pub save : RefreshToken → Action Err Db (Unit {0})
save rt = statement database (insert_refresh_token (insert_refresh_token_params rt))

-- No live row: an expired one is deleted, and the token is reported as not found.
unfoldable pub found_or_evict : String → Option RefreshTokenRow → Action Err Db RefreshToken
found_or_evict hash none = do
  statement database (delete_expired_refresh_token hash)
  raise (refresh_token RefreshTokenError.not_found)
found_or_evict hash (some row) = lift (reconstruct_refresh_token row)

unfoldable pub find_by_token_hash : String → Action Err Db RefreshToken
find_by_token_hash hash = do
  row ← statement database (get_refresh_token hash)
  found_or_evict hash row

-- Nothing was consumed: a live row under the hash was consumed before.
unfoldable pub reused_or_not_found : Option RefreshTokenRow → Action Err Db (Unit {0})
reused_or_not_found none = raise (refresh_token RefreshTokenError.not_found)
reused_or_not_found (some row) = raise (refresh_token RefreshTokenError.reused)

unfoldable pub replace_consumed :
    String → RefreshToken → Time → Option String → Action Err Db (Unit {0})
replace_consumed old_hash new_rt now none = do
  row ← statement database (λ _. get_refresh_token old_hash now)
  reused_or_not_found row
replace_consumed old_hash new_rt now (some _) =
    statement database (λ _. insert_refresh_token (insert_refresh_token_params new_rt) now)

-- The body of the transaction of `Rotate`, at the transaction's `now()`.
unfoldable pub rotate_tx : String → RefreshToken → Time → Action Err Db (Unit {0})
rotate_tx old_hash new_rt now = do
  consumed ← statement database (λ _. consume_refresh_token old_hash now)
  replace_consumed old_hash new_rt now consumed

unfoldable pub rotate : String → RefreshToken → Action Err Db (Unit {0})
rotate old_hash new_rt = transaction database (rotate_tx old_hash new_rt)

unfoldable pub purge_expired : Action Err Db ℕ
purge_expired = statement database purge_expired_refresh_tokens

unfoldable pub revoke_family : String → Action Err Db (Unit {0})
revoke_family family_id = statement database (revoke_family_refresh_tokens family_id)
