-- ===== src/Auth/AuthCode/Challenge.antt =====
-- PKCE: app/auth/domain/authcode/code_challenge.go
use Prim.Native.Char.{code}
use Prim.Native.String.{len}
use cc_orchestrator.Prelude.{
  ℕ, String, Bool, true, false, ◌&&◌, ◌||◌, Result, ok, err, and_then, ltb, leb, ◌=ℕ◌, ◌==◌,
  if◌then◌else◌,
}
use cc_orchestrator.GoText.Encoding.{base64url_encode}
use cc_orchestrator.Auth.Errors.{Err, auth_code, AuthCodeError}
use cc_orchestrator.Auth.Platform.{Platform}

pub data CodeChallengeMethod : Type 0 where
  plain s256 : CodeChallengeMethod

unfoldable pub parse_code_challenge_method : String → Result Err CodeChallengeMethod
parse_code_challenge_method s =
    if s == "plain"
    then ok plain
    else if s == "S256"
    then ok s256
    else err (auth_code AuthCodeError.unsupported_challenge_method)

unfoldable pub method_string : CodeChallengeMethod → String
method_string plain = "plain"
method_string s256 = "S256"

abbrev pub code_verifier_min_len : ℕ
code_verifier_min_len = 43

abbrev pub code_verifier_max_len : ℕ
code_verifier_max_len = 128

pub record CodeChallenge : Type 0 where
  pub challenge : String
  pub method : CodeChallengeMethod

-- `method != CodeChallengeMethodS256`
abbrev is_s256 : CodeChallengeMethod → Bool
is_s256 s256 = true
is_s256 plain = false

unfoldable pub new_code_challenge : String → CodeChallengeMethod → Result Err CodeChallenge
new_code_challenge challenge method =
    if challenge == ""
    then err (auth_code AuthCodeError.invalid_code_verifier)
    else if is_s256 method
    then ok (record { challenge = challenge; method = method })
    else err (auth_code AuthCodeError.unsupported_challenge_method)

-- 'A'-'Z', 'a'-'z', '0'-'9' and "-._~"
unfoldable pub is_unreserved : ℕ → Bool
is_unreserved r =
    (leb b'A' r && leb r b'Z')
    || (leb b'a' r && leb r b'z')
    || (leb b'0' r && leb r b'9')
    || (r =ℕ b'-' || r =ℕ b'.' || r =ℕ b'_' || r =ℕ b'~')

-- The loop over the characters of the verifier.
unfoldable pub check_unreserved : String → Result Err (Unit {0})
check_unreserved String.[] = ok tt
check_unreserved (String.◌∷◌ r rest) =
    let more = check_unreserved rest in
    if is_unreserved (code r) then more else err (auth_code AuthCodeError.invalid_code_verifier)

unfoldable pub validate_code_verifier : String → Result Err (Unit {0})
validate_code_verifier code_verifier =
    if ltb (len code_verifier) code_verifier_min_len
      || ltb code_verifier_max_len (len code_verifier)
    then err (auth_code AuthCodeError.invalid_code_verifier)
    else check_unreserved code_verifier

-- BASE64URL(SHA256(ASCII(code_verifier))), without padding
unfoldable pub transform : Platform → String → String
transform p code_verifier = base64url_encode (p.sha256 code_verifier)

-- The `switch` on the method.
unfoldable pub compare_challenge :
    Platform → CodeChallengeMethod → String → String → Result Err (Unit {0})
compare_challenge p s256 challenge code_verifier =
    if transform p code_verifier == challenge
    then ok tt
    else err (auth_code AuthCodeError.pkce_verification_failed)
compare_challenge p plain challenge code_verifier =
    err (auth_code AuthCodeError.unsupported_challenge_method)

unfoldable pub verify : Platform → CodeChallenge → String → Result Err (Unit {0})
verify p c code_verifier =
    and_then (validate_code_verifier code_verifier)
      λ _. compare_challenge p c.method c.challenge code_verifier
