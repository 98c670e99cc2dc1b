-- ===== src/Auth/RefreshTokens/RoundTrip.antt =====
-- A refresh token read back from the row that it is stored as.
use cc_orchestrator.Prelude.{ℕ, ◌≡◌, ◌≢◌, false, ok, arith, eq_iff}
use cc_orchestrator.Auth.RefreshToken.{RefreshToken, parse_token_hash, parse_family_id}
use cc_orchestrator.Auth.RefreshToken.Scopes.{parse_scope}
use cc_orchestrator.Auth.RefreshTokens.{
  encode_auth_time, decode_auth_time, insert_refresh_token_params, reconstruct_refresh_token,
}

-- Also the zero time comes back.
pub decode_auth_time-encode_auth_time : (t : ℕ) → decode_auth_time (encode_auth_time t) ≡ t
unfolding decode_auth_time encode_auth_time
decode_auth_time-encode_auth_time t = ground arith

-- A stored token that was not consumed, with a hash and a family and a scope that parses to itself,
-- is read back as it was.
reconstruct_refresh_token-insert_refresh_token_params :
    (rt : RefreshToken)
    → rt.token_hash ≢ ""
    → rt.family_id ≢ ""
    → parse_scope rt.scope.value ≡ ok rt.scope
    → rt.consumed ≡ false
    → reconstruct_refresh_token (insert_refresh_token_params rt) ≡ ok rt
unfolding reconstruct_refresh_token insert_refresh_token_params parse_token_hash parse_family_id
reconstruct_refresh_token-insert_refresh_token_params rt hash family scope fresh =
    let time = decode_auth_time-encode_auth_time rt.auth_time in
    ground (arith, eq_iff rt.token_hash "", eq_iff rt.family_id "")
