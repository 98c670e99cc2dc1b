-- ===== src/Auth/AuthCode.antt =====
-- The authorization code aggregate: app/auth/domain/authcode/authorization_code.go and code.go.
-- The string-backed value objects ClientID, UserID, RedirectURI, Nonce and Code are texts.
pub mod Scopes
pub mod Challenge
pub mod Laws
use cc_orchestrator.Prelude.{
  ◌+◌, ◌*◌, String, Bool, true, false, not, Result, ok, err, ltb, ◌==◌, if◌then◌else◌,
}
use cc_orchestrator.GoText.Encoding.{base64url_encode}
use cc_orchestrator.Action.{Time, Action, time_now, rand_read, pure, lift, fail_if, ◌>>=◌, ◌>>◌}
use cc_orchestrator.Auth.Errors.{Err, auth_code, entropy, AuthCodeError}
use cc_orchestrator.Auth.Platform.{Platform}
use Scopes.{Scope}
use Challenge
use Challenge.{CodeChallenge}

-- 10 minutes
abbrev pub ttl : Time
ttl = 10 * 60 * 1_000_000

-- Bytes of randomness in a code.
abbrev pub code_byte_length : Time
code_byte_length = 32

pub record AuthorizationCode : Type 0 where
  pub code : String
  pub client_id : String
  pub user_id : String
  pub redirect_uri : String
  pub scope : Scope
  pub nonce : String
  pub challenge : CodeChallenge
  pub auth_time : Time
  pub expires_at : Time
  pub consumed : Bool

unfoldable pub parse_code : String → Result Err String
parse_code s = if s == "" then err (auth_code AuthCodeError.not_found) else ok s

module _ {S : Type 0} where
  unfoldable pub new_code : Action Err S String
  new_code = do bytes ← rand_read entropy code_byte_length; pure (base64url_encode bytes)

  unfoldable pub new :
      String
      → String
      → String
      → Scope
      → String
      → CodeChallenge
      → Time
      → Action Err S AuthorizationCode
  new client_id user_id redirect_uri scope nonce challenge auth_time = do
    code ← new_code
    now ← time_now
    pure (record {
      code = code;
      client_id = client_id;
      user_id = user_id;
      redirect_uri = redirect_uri;
      scope = scope;
      nonce = nonce;
      challenge = challenge;
      auth_time = auth_time;
      expires_at = now + ttl;
      consumed = false;
    })

  -- `time.Now().After(a.expiresAt)`
  unfoldable pub is_expired : AuthorizationCode → Action Err S Bool
  is_expired a = do now ← time_now; pure (ltb a.expires_at now)

  -- The checks in the order of the source; the clock is read only for a code not yet consumed.
  unfoldable pub verify :
      Platform → AuthorizationCode → String → String → String → Action Err S (Unit {0})
  verify p a code_verifier redirect_uri client_id = do
    fail_if a.consumed (auth_code AuthCodeError.already_consumed)
    expired ← is_expired a
    fail_if expired (auth_code AuthCodeError.expired)
    fail_if (not (a.redirect_uri == redirect_uri)) (auth_code AuthCodeError.redirect_uri_mismatch)
    fail_if (not (a.client_id == client_id)) (auth_code AuthCodeError.client_mismatch)
    lift (Challenge.verify p a.challenge code_verifier)

-- The in-memory flag.
unfoldable pub consume : AuthorizationCode → Result Err AuthorizationCode
consume a =
    if a.consumed
    then err (auth_code AuthCodeError.already_consumed)
    else ok (record a { consumed = true })
