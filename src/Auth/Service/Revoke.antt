-- ===== src/Auth/Service/Revoke.antt =====
-- `Revoke` of app/auth/service/revoke.go (RFC 7009).
pub mod Laws
use cc_orchestrator.Prelude.{
  String, Bool, true, false, not, ◌&&◌, ◌||◌, Result, ok, err, is_ok, and_then, ◌==◌, if◌then◌else◌,
}
use cc_orchestrator.Action.{Action, pure, raise, attempt, ◌>>=◌}
use cc_orchestrator.Auth.Errors.{Err, refresh_token, RefreshTokenError}
use cc_orchestrator.Auth.Platform.{Platform}
use cc_orchestrator.Auth.Client.{Client, parse_client_id, is_confidential, verify_secret}
use cc_orchestrator.Auth.RefreshToken.{RefreshToken, hash_token, matches_client}
use cc_orchestrator.Auth.Db.{Db}
use cc_orchestrator.Auth.Directory.{find_client}
use cc_orchestrator.Auth.RefreshTokens.{find_by_token_hash, revoke_family}

pub record RevokeRequest : Type 0 where
  pub token : String
  pub token_type_hint : String
  pub client_id : String
  pub client_secret : String

abbrev pub is_not_found : Err → Bool
is_not_found (refresh_token RefreshTokenError.not_found) = true
is_not_found _ = false

-- The presented client_id parses and is that of the token's client.
abbrev pub presents : Result Err String → String → Bool
presents (ok presented) id = presented == id
presents (err e) id = false

-- The conditions under which `Revoke` goes on to revoke: a confidential client authenticates as the
-- token's client; for a public client a client_id may be left out, and must match if it is given.
unfoldable pub may_revoke : Platform → RevokeRequest → RefreshToken → String → Client → Bool
may_revoke p req rt token_client_id c =
    if is_confidential c
    then not (
        req.client_id == ""
        || (not (presents (parse_client_id req.client_id) token_client_id)
            || not (verify_secret p c req.client_secret)))
    else if not (req.client_id == "")
    then is_ok (and_then (parse_client_id req.client_id) λ presented. matches_client rt presented)
    else true

unfoldable pub revoke_if_allowed :
    Platform → RevokeRequest → RefreshToken → String → Result Err Client → Action Err Db (Unit {0})
revoke_if_allowed p req rt token_client_id (err e) = pure tt
revoke_if_allowed p req rt token_client_id (ok c) =
    if may_revoke p req rt token_client_id c then revoke_family rt.family_id else pure tt

unfoldable pub revoke_for_client :
    Platform → RevokeRequest → RefreshToken → Result Err String → Action Err Db (Unit {0})
revoke_for_client p req rt (err e) = pure tt
revoke_for_client p req rt (ok token_client_id) = do
  c ← attempt (find_client p token_client_id)
  revoke_if_allowed p req rt token_client_id c

unfoldable pub revoke_found :
    Platform → RevokeRequest → Result Err RefreshToken → Action Err Db (Unit {0})
revoke_found p req (err e) = if is_not_found e then pure tt else raise e
revoke_found p req (ok rt) = revoke_for_client p req rt (parse_client_id rt.client_id)

unfoldable pub revoke : Platform → RevokeRequest → Action Err Db (Unit {0})
revoke p req =
    if req.token == ""
    then pure tt
    else (do rt ← attempt (find_by_token_hash (hash_token p req.token)); revoke_found p req rt)
