-- ===== src/Auth/AuthCodes/RoundTrip.antt =====
-- An authorization code read back from the row that it is stored as.
use cc_orchestrator.Prelude.{String, ◌≡◌, ◌≢◌, refl, false, ok, arith, eq_iff}
use cc_orchestrator.Auth.AuthCode.{AuthorizationCode, parse_code}
use cc_orchestrator.Auth.AuthCode.Challenge.{
  CodeChallengeMethod, plain, s256, parse_code_challenge_method, method_string, new_code_challenge,
}
use cc_orchestrator.Auth.AuthCode.Scopes.{parse_scope}
use cc_orchestrator.Auth.RefreshTokens.RoundTrip.{decode_auth_time-encode_auth_time}
use cc_orchestrator.Auth.AuthCodes.{
  encode_nonce, decode_nonce, insert_auth_code_params, reconstruct_auth_code,
}

decode_nonce-encode_nonce : (n : String) → decode_nonce (encode_nonce n) ≡ n
unfolding decode_nonce encode_nonce
decode_nonce-encode_nonce n = ground (arith, eq_iff n "")

parse-method_string :
    (m : CodeChallengeMethod) → parse_code_challenge_method (method_string m) ≡ ok m
unfolding parse_code_challenge_method method_string
parse-method_string plain = refl
parse-method_string s256 = refl

-- A stored code that was not consumed, with a text, an S256 challenge and a scope that parses to
-- itself, is read back as it was.
reconstruct_auth_code-insert_auth_code_params :
    (ac : AuthorizationCode)
    → ac.code ≢ ""
    → ac.challenge.challenge ≢ ""
    → ac.challenge.method ≡ s256
    → parse_scope ac.scope.value ≡ ok ac.scope
    → ac.consumed ≡ false
    → reconstruct_auth_code (insert_auth_code_params ac) ≡ ok ac
unfolding reconstruct_auth_code insert_auth_code_params parse_code new_code_challenge
reconstruct_auth_code-insert_auth_code_params ac code challenge method scope fresh =
    let time = decode_auth_time-encode_auth_time ac.auth_time in
    let named = parse-method_string ac.challenge.method in
    let nonce = decode_nonce-encode_nonce ac.nonce in
    ground (arith, eq_iff ac.code "", eq_iff ac.challenge.challenge "")
