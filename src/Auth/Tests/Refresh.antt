-- ===== src/Auth/Tests/Refresh.antt =====
-- Rotation, refresh, reuse and revocation of the token "rt1".
use cc_orchestrator.Prelude.{
  ◌≡◌, ◌≤◌, ◌⊎◌, arith, eq_iff, refl, true, [], ◌∷◌, ok, err, ◌==◌, set_insert, to_set, to_set_from,
}
use cc_orchestrator.GoText.{fields, join, is_space, trim_space, trim_left, trim_right}
use cc_orchestrator.GoText.Encoding.{hex_encode, base64url_encode}
use cc_orchestrator.Action.{
  pure, raise, lift, statement, fail_if, time_now, rand_read, transaction, close, on_error, ◌>>=◌,
}
use cc_orchestrator.Auth.Errors.{refresh_token, RefreshTokenError}
use cc_orchestrator.Auth.Db.Table.{select, update, has_key, insert, delete}
use cc_orchestrator.Auth.Db.Table.View.{view}
use cc_orchestrator.Auth.Client
use cc_orchestrator.Auth.Client.{
  parse_client_id, new_redirect_uri, check_url, supports_grant_type, is_confidential,
}
use cc_orchestrator.Auth.User
use cc_orchestrator.Auth.User.{parse_user_id, new_username, new_profile, looks_like_email, after_at}
use cc_orchestrator.Auth.RefreshToken
use cc_orchestrator.Auth.RefreshToken.Scopes as TokenScopes
use cc_orchestrator.Auth.Claims.{new_access_token_claims, new_id_token_claims, compute_at_hash}
use cc_orchestrator.Auth.Directory.{
  find_client, found_client, get_client_by_id, row_to_client, new_redirect_uris, find_user,
  found_user, get_user_by_id, row_to_user,
}
use cc_orchestrator.Auth.RefreshTokens
use cc_orchestrator.Auth.RefreshTokens.Statements.{
  insert_refresh_token, get_refresh_token, consume_refresh_token,
}
use cc_orchestrator.Auth.RefreshTokens.Laws.{token_row, UniqueHashes, verdict, rotate-verdict}
use cc_orchestrator.Auth.RefreshTokens.Rotation.{IsRotation, rotate-IsRotation}
use cc_orchestrator.Auth.RefreshTokens.SingleUse.{
  rotate_token, get, rotations, rotated_at_most_once,
}
use cc_orchestrator.Auth.Service.RefreshGrant.{
  padded_lookup, detect_reuse, redeem_refresh_token, reissue, rotate_or_revoke, refresh_token_grant,
}
use cc_orchestrator.Auth.Service.RefreshGrant.Laws.{no_family, reuse_deletes_family}
use cc_orchestrator.Auth.Service.RefreshGrant.Success.{IsRefresh, refresh_token_grant-IsRefresh}
use cc_orchestrator.Auth.Service.Revoke.{revoke}
use cc_orchestrator.Auth.Service.Revoke.Laws.{IsAllowed, revoke_live}
use cc_orchestrator.Auth.Service.Dto.{
  TokenResponse, grant_type_refresh_token, new_token_response, sign_claims,
}
use cc_orchestrator.Auth.Service.CodeGrant.{authenticated_client}
use cc_orchestrator.Auth.Tests.{
  service, calm, fresh, stale, refresh_request, revoke_request, toy_platform, web_client,
  next_token, token_row_rt1, refresh_token_rt1,
}

abbrev answer : TokenResponse
answer = record {
  access_token = "jwt";
  token_type = "Bearer";
  expires_in = 3600;
  id_token = "jwt";
  scope = "openid";
  refresh_token = "Bg";
}

unique : UniqueHashes fresh.store
unfolding has_key
unique = (refl, tt)

rotated :
    RefreshTokens.rotate "03" next_token calm fresh
    ≡ (ok tt, (RefreshTokens.rotate "03" next_token calm fresh).1)
unfolding RefreshTokens.rotate transaction close RefreshTokens.rotate_tx
    RefreshTokens.replace_consumed consume_refresh_token insert_refresh_token
    RefreshTokens.insert_refresh_token_params statement ◌>>=◌ select update insert has_key
rotated = refl

rotate-IsRotation_example :
    IsRotation "03" next_token 1000 fresh.store
      (RefreshTokens.rotate "03" next_token calm fresh).1.store
rotate-IsRotation_example =
    rotate-IsRotation "03" next_token calm fresh (RefreshTokens.rotate "03" next_token calm fresh).1
      unique rotated

rotate-verdict_example :
    (RefreshTokens.rotate "03" next_token calm fresh).0 ≡ verdict 1000 (token_row fresh.store "03")
unfolding view select
rotate-verdict_example = rotate-verdict "03" next_token calm fresh unique (λ i. refl) refl

unique_stale : UniqueHashes stale.store
unfolding has_key
unique_stale = (refl, tt)

-- The same rotation twice, with a lookup between.
rotated_at_most_once_example :
    rotations "03"
      (rotate_token "03" next_token ∷ get "03" ∷ rotate_token "03" next_token ∷ [])
      calm
      fresh
    ≤ 1
rotated_at_most_once_example =
    rotated_at_most_once "03"
      (rotate_token "03" next_token ∷ get "03" ∷ rotate_token "03" next_token ∷ []) calm fresh
      unique (ground (arith, eq_iff "0202" "03"), (tt, (ground (arith, eq_iff "0202" "03"), tt)))

refreshed :
    refresh_token_grant service refresh_request calm fresh
    ≡ (ok answer, (refresh_token_grant service refresh_request calm fresh).1)
unfolding refresh_token_grant authenticated_client ◌>>=◌ pure raise lift statement fail_if time_now
    rand_read parse_client_id find_client found_client get_client_by_id row_to_client
    new_redirect_uris new_redirect_uri check_url Client.reconstruct Client.new supports_grant_type
    is_confidential select set_insert to_set to_set_from TokenScopes.parse_scope
    TokenScopes.of_fields TokenScopes.has fields join base64url_encode parse_user_id find_user
    found_user get_user_by_id row_to_user new_username new_profile looks_like_email after_at
    User.reconstruct new_access_token_claims sign_claims new_id_token_claims compute_at_hash
    RefreshToken.rotate RefreshToken.new_token RefreshToken.hash_token hex_encode
    insert_refresh_token RefreshTokens.insert_refresh_token_params insert has_key new_token_response
    is_space trim_space trim_left trim_right padded_lookup on_error RefreshTokens.find_by_token_hash
    get_refresh_token RefreshTokens.found_or_evict RefreshTokens.reconstruct_refresh_token
    RefreshToken.parse_token_hash RefreshToken.parse_family_id RefreshTokens.decode_auth_time
    detect_reuse redeem_refresh_token RefreshToken.matches_client TokenScopes.narrow
    TokenScopes.narrow_fields TokenScopes.narrow_values reissue rotate_or_revoke
    RefreshTokens.rotate transaction close RefreshTokens.rotate_tx RefreshTokens.replace_consumed
    consume_refresh_token update
refreshed = refl

refresh_token_grant-IsRefresh_example :
    IsRefresh service refresh_request answer fresh.store
      (refresh_token_grant service refresh_request calm fresh).1.store
refresh_token_grant-IsRefresh_example =
    refresh_token_grant-IsRefresh service refresh_request calm fresh
      (refresh_token_grant service refresh_request calm fresh).1 answer unique refreshed

authenticated :
    authenticated_client service refresh_request grant_type_refresh_token calm stale
    ≡ (ok web_client, record { step = 1; store = stale.store })
unfolding authenticated_client ◌>>=◌ pure lift statement fail_if parse_client_id find_client
    found_client get_client_by_id row_to_client new_redirect_uris new_redirect_uri check_url
    Client.reconstruct Client.new supports_grant_type is_confidential select set_insert to_set
    to_set_from
authenticated = refl

reuse_deletes_family_example :
    ((refresh_token_grant service refresh_request calm stale).0
      ≡ err (refresh_token RefreshTokenError.reused))
    × ((refresh_token_grant service refresh_request calm stale).1.store ≡ record stale.store {
      refresh_tokens = delete (λ r. r.family_id == "f1") stale.store.refresh_tokens;
    })
    × (no_family "f1" (refresh_token_grant service refresh_request calm stale).1.store ≡ true)
unfolding view select RefreshToken.hash_token hex_encode RefreshTokens.reconstruct_refresh_token
    RefreshToken.parse_token_hash RefreshToken.parse_family_id TokenScopes.parse_scope
    TokenScopes.of_fields fields join trim_space trim_left trim_right is_space set_insert to_set
    to_set_from RefreshTokens.decode_auth_time
reuse_deletes_family_example =
    reuse_deletes_family service refresh_request calm stale
      (record { step = 1; store = stale.store }) web_client
      (record token_row_rt1 { consumed = true }) (record refresh_token_rt1 { consumed = true })
      unique_stale (λ i. refl) (λ i. refl) refl authenticated refl refl refl

revocation_finds_client :
    find_client toy_platform "web" calm (record { step = 1; store = fresh.store })
    ≡ (ok web_client, record { step = 2; store = fresh.store })
unfolding ◌>>=◌ lift statement parse_client_id find_client found_client get_client_by_id
    row_to_client new_redirect_uris new_redirect_uri check_url Client.reconstruct Client.new select
    set_insert to_set to_set_from
revocation_finds_client = refl

revoke_live_example :
    ((revoke toy_platform revoke_request calm fresh).0 ≡ ok tt)
    × ((IsAllowed toy_platform revoke_request refresh_token_rt1 web_client
          × ((revoke toy_platform revoke_request calm fresh).1.store ≡ record fresh.store {
            refresh_tokens = delete (λ r. r.family_id == "f1") fresh.store.refresh_tokens;
          }))
        ⊎ ((¬ IsAllowed toy_platform revoke_request refresh_token_rt1 web_client)
            × ((revoke toy_platform revoke_request calm fresh).1.store ≡ fresh.store)))
unfolding view select RefreshToken.hash_token hex_encode RefreshTokens.reconstruct_refresh_token
    RefreshToken.parse_token_hash RefreshToken.parse_family_id TokenScopes.parse_scope
    TokenScopes.of_fields fields join trim_space trim_left trim_right is_space set_insert to_set
    to_set_from RefreshTokens.decode_auth_time parse_client_id
revoke_live_example =
    revoke_live toy_platform revoke_request calm fresh (record { step = 2; store = fresh.store })
      token_row_rt1 refresh_token_rt1 "web" web_client unique (λ i. refl) refl refl refl refl refl
      revocation_finds_client
