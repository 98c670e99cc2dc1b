-- ===== src/Auth/Tests/Exchange.antt =====
-- An exchange of the code "c1".
use cc_orchestrator.Prelude.{◌≡◌, is_ok, refl, false, [], ◌∷◌, ok, set_insert, to_set, to_set_from}
use cc_orchestrator.GoText.{fields, join, is_space, trim_space, trim_left, trim_right}
use cc_orchestrator.GoText.Encoding.{hex_encode, base64url_encode}
use cc_orchestrator.Action.{pure, raise, lift, statement, fail_if, time_now, rand_read, ◌>>=◌}
use cc_orchestrator.Auth.Db.Table.{select, has_key, insert}
use cc_orchestrator.Auth.Client
use cc_orchestrator.Auth.Client.{
  parse_client_id, new_redirect_uri, check_url, supports_grant_type, is_confidential,
}
use cc_orchestrator.Auth.User
use cc_orchestrator.Auth.User.{parse_user_id, new_username, new_profile, looks_like_email, after_at}
use cc_orchestrator.Auth.AuthCode
use cc_orchestrator.Auth.AuthCode.Scopes as CodeScopes
use cc_orchestrator.Auth.AuthCode.Challenge
use cc_orchestrator.Auth.RefreshToken
use cc_orchestrator.Auth.RefreshToken.Scopes as TokenScopes
use cc_orchestrator.Auth.Claims.{new_access_token_claims, new_id_token_claims, compute_at_hash}
use cc_orchestrator.Auth.Directory.{
  find_client, found_client, get_client_by_id, row_to_client, new_redirect_uris, find_user,
  found_user, get_user_by_id, row_to_user,
}
use cc_orchestrator.Auth.AuthCodes
use cc_orchestrator.Auth.AuthCodes.Statements.{get_active_auth_code, consume_auth_code}
use cc_orchestrator.Auth.RefreshTokens
use cc_orchestrator.Auth.RefreshTokens.Statements.{insert_refresh_token}
use cc_orchestrator.Auth.Service.Dto.{TokenResponse, new_token_response, sign_claims}
use cc_orchestrator.Auth.Service.CodeGrant.{
  authenticated_client, redeem, issue_refresh_token, issue_tokens, authorization_code_grant,
}
use cc_orchestrator.Auth.Service.CodeGrant.Laws.{IsExchange, authorization_code_grant-IsExchange}
use cc_orchestrator.Auth.AuthCodes.{find_by_code}
use cc_orchestrator.Auth.AuthCodes.Laws.{UniqueCodes}
use cc_orchestrator.Auth.Service.SingleUse.{revocation, purge, history, exchanged_at_most_once}
use cc_orchestrator.Auth.Tests.{
  service, calm, start, exchange_request, toy_platform, revoke_request,
}

abbrev answer : TokenResponse
answer = record {
  access_token = "jwt";
  token_type = "Bearer";
  expires_in = 3600;
  id_token = "jwt";
  scope = "openid offline_access";
  refresh_token = "CA";
}

exchanged :
    authorization_code_grant service exchange_request calm start
    ≡ (ok answer, (authorization_code_grant service exchange_request calm start).1)
unfolding authorization_code_grant authenticated_client ◌>>=◌ pure raise lift statement fail_if
    time_now rand_read parse_client_id find_client found_client get_client_by_id row_to_client
    new_redirect_uris new_redirect_uri check_url Client.reconstruct Client.new supports_grant_type
    is_confidential select set_insert to_set to_set_from redeem AuthCode.parse_code
    AuthCodes.find_by_code AuthCodes.found_or_evict get_active_auth_code
    AuthCodes.reconstruct_auth_code CodeScopes.parse_scope CodeScopes.of_fields CodeScopes.has
    fields join Challenge.parse_code_challenge_method Challenge.new_code_challenge AuthCode.verify
    AuthCode.is_expired Challenge.verify Challenge.validate_code_verifier Challenge.check_unreserved
    Challenge.is_unreserved Challenge.compare_challenge Challenge.transform base64url_encode
    AuthCodes.consume consume_auth_code AuthCodes.claimed issue_tokens parse_user_id find_user
    found_user get_user_by_id row_to_user new_username new_profile looks_like_email after_at
    User.reconstruct new_access_token_claims sign_claims new_id_token_claims compute_at_hash
    issue_refresh_token TokenScopes.parse_scope TokenScopes.of_fields RefreshToken.issue
    RefreshToken.new_token RefreshToken.new_family_id RefreshToken.hash_token hex_encode
    RefreshTokens.save insert_refresh_token RefreshTokens.insert_refresh_token_params insert has_key
    new_token_response is_space trim_space trim_left trim_right
exchanged = refl

unique : UniqueCodes start.store
unfolding has_key
unique = (refl, tt)

authorization_code_grant-IsExchange_example :
    IsExchange service exchange_request answer calm start
      (authorization_code_grant service exchange_request calm start).1
authorization_code_grant-IsExchange_example =
    authorization_code_grant-IsExchange service exchange_request calm start
      (authorization_code_grant service exchange_request calm start).1 answer unique exchanged

-- The same request again, after a purge and a revocation.
exchanged_at_most_once_example :
    is_ok
      (authorization_code_grant service exchange_request calm (
        history
          ((purge, calm) ∷ (revocation toy_platform revoke_request, calm) ∷ [])
          (authorization_code_grant service exchange_request calm start).1)).0
    ≡ false
exchanged_at_most_once_example =
    exchanged_at_most_once service exchange_request calm start
      (authorization_code_grant service exchange_request calm start).1 answer
      ((purge, calm) ∷ (revocation toy_platform revoke_request, calm) ∷ []) service exchange_request
      calm unique exchanged (tt, (tt, tt)) refl
