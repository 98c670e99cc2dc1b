-- ===== src/Auth/Claims.antt =====
-- app/auth/domain/token/claims.go
use cc_orchestrator.Prelude.{ℕ, ◌+◌, ◌*◌, ◌/◌, String, take, ◌=ℕ◌, if◌then◌else◌}
use cc_orchestrator.Prelude.Int.{ℤ, pos, sub_ℕ}
use cc_orchestrator.GoText.Encoding.{base64url_encode}
use cc_orchestrator.Action.{Time, Action, time_now, pure, ◌>>=◌}
use cc_orchestrator.Auth.Platform.{Platform}

-- 1 hour
abbrev pub access_token_ttl : Time
access_token_ttl = 3600 * 1_000_000

abbrev pub id_token_ttl : Time
id_token_ttl = 3600 * 1_000_000

-- Seconds between 0001-01-01 and 1970-01-01.
abbrev pub unix_epoch : ℕ
unix_epoch = 62_135_596_800

-- `t.Unix()`
abbrev pub unix : Time → ℤ
unix t = sub_ℕ (t / 1_000_000) unix_epoch

-- An absent claim is empty, or 0.
pub record Claims : Type 0 where
  pub issuer : String
  pub subject : String
  pub audience : String
  pub expires_at : ℤ
  pub issued_at : ℤ
  pub nonce : String
  pub auth_time : ℤ
  pub at_hash : String
  pub scope : String
  pub name : String
  pub email : String

module _ {E S : Type 0} where
  unfoldable pub new_access_token_claims : String → String → String → String → Action E S Claims
  new_access_token_claims issuer subject audience scope = do
    now ← time_now
    pure (record {
      issuer = issuer;
      subject = subject;
      audience = audience;
      expires_at = unix (now + access_token_ttl);
      issued_at = unix now;
      nonce = "";
      auth_time = pos 0;
      at_hash = "";
      scope = scope;
      name = "";
      email = "";
    })

  unfoldable pub new_id_token_claims :
      String → String → String → String → String → String → Time → String → Action E S Claims
  new_id_token_claims issuer subject audience nonce name email auth_time at_hash = do
    now ← time_now
    pure (record {
      issuer = issuer;
      subject = subject;
      audience = audience;
      expires_at = unix (now + id_token_ttl);
      issued_at = unix now;
      nonce = nonce;
      auth_time = if auth_time =ℕ 0 then pos 0 else unix auth_time;
      at_hash = at_hash;
      scope = "";
      name = name;
      email = email;
    })

-- The left half of the SHA-256 of the access token.
unfoldable pub compute_at_hash : Platform → String → String
compute_at_hash p access_token = base64url_encode (take 16 (p.sha256 access_token))
