-- ===== src/Auth/RefreshToken.antt =====
-- The refresh token aggregate: app/auth/domain/refreshtoken/{refresh_token,token,family_id}.go.
-- Token, TokenHash, FamilyID, ClientID and UserID are texts.
pub mod Scopes
use cc_orchestrator.Prelude.{
  ℕ, ◌+◌, ◌*◌, String, Bool, true, false, Result, ok, err, ltb, ◌==◌, if◌then◌else◌,
}
use cc_orchestrator.GoText.Encoding.{base64url_encode, hex_encode}
use cc_orchestrator.Action.{Time, Action, time_now, rand_read, pure, ◌>>=◌}
use cc_orchestrator.Auth.Errors.{Err, refresh_token, entropy, RefreshTokenError}
use cc_orchestrator.Auth.Platform.{Platform}
use Scopes.{Scope}

-- 30 days
abbrev pub refresh_token_ttl : Time
refresh_token_ttl = 30 * 24 * 3600 * 1_000_000

abbrev pub token_byte_length : ℕ
token_byte_length = 32

abbrev pub family_id_byte_length : ℕ
family_id_byte_length = 32

pub record RefreshToken : Type 0 where
  pub token_hash : String
  pub family_id : String
  pub client_id : String
  pub user_id : String
  pub scope : Scope
  pub auth_time : Time
  pub expires_at : Time
  pub consumed : Bool

unfoldable pub hash_token : Platform → String → String
hash_token p plaintext = hex_encode (p.sha256 plaintext)

unfoldable pub parse_token_hash : String → Result Err String
parse_token_hash s = if s == "" then err (refresh_token RefreshTokenError.invalid_token) else ok s

unfoldable pub parse_family_id : String → Result Err String
parse_family_id s = if s == "" then err (refresh_token RefreshTokenError.invalid_token) else ok s

unfoldable pub matches_client : RefreshToken → String → Result Err (Unit {0})
matches_client rt client_id =
    if rt.client_id == client_id
    then ok tt
    else err (refresh_token RefreshTokenError.client_mismatch)

module _ {S : Type 0} where
  unfoldable pub new_token : Action Err S String
  new_token = do bytes ← rand_read entropy token_byte_length; pure (base64url_encode bytes)

  unfoldable pub new_family_id : Action Err S String
  new_family_id = do bytes ← rand_read entropy family_id_byte_length; pure (base64url_encode bytes)

  -- The new token and its plaintext.
  unfoldable pub issue :
      Platform → String → String → Scope → Time → Action Err S (RefreshToken × String)
  issue p client_id user_id scope auth_time = do
    plaintext ← new_token
    family_id ← new_family_id
    now ← time_now
    pure (
      record {
        token_hash = hash_token p plaintext;
        family_id = family_id;
        client_id = client_id;
        user_id = user_id;
        scope = scope;
        auth_time = auth_time;
        expires_at = now + refresh_token_ttl;
        consumed = false;
      },
      plaintext,
    )

  -- A successor in the family of `rt`, for the same client and user.
  unfoldable pub rotate : Platform → RefreshToken → Scope → Action Err S (RefreshToken × String)
  rotate p rt scope = do
    plaintext ← new_token
    now ← time_now
    pure (
      record {
        token_hash = hash_token p plaintext;
        family_id = rt.family_id;
        client_id = rt.client_id;
        user_id = rt.user_id;
        scope = scope;
        auth_time = rt.auth_time;
        expires_at = now + refresh_token_ttl;
        consumed = false;
      },
      plaintext,
    )

  unfoldable pub is_expired : RefreshToken → Action Err S Bool
  is_expired rt = do now ← time_now; pure (ltb rt.expires_at now)
