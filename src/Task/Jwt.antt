-- ===== src/Task/Jwt.antt =====
-- The verification of bearer tokens by the task API: app/api/infra/jwt/verifier.go.
pub mod Laws
mod Tests
use Prim.Native.String.{◌++◌}
use cc_orchestrator.Prelude.{
  ℕ, suc, ◌-◌, ◌*◌, ◌+◌, String, Bool, true, false, not, ◌&&◌, ◌||◌, Option, none, some, List, [],
  ◌∷◌, Result, ok, err, and_then, contains, ltb, ◌=ℕ◌, ◌==◌, if◌then◌else◌,
}
use cc_orchestrator.Prelude.Int.{ℤ, ltb_ℤ}
use cc_orchestrator.GoText.{split}
use cc_orchestrator.Action.{
  Time, Action, pure, lift, attempt, fail_if, time_now, get_store, modify, ◌>>=◌, ◌>>◌,
}
use cc_orchestrator.Auth.Claims.{unix}
use cc_orchestrator.Auth.Db.Table.{put}
use cc_orchestrator.Auth.Db.Table.View.{view}

pub data JwtError : Type 0 where
  invalid_token token_expired unexpected_alg signature_invalid invalid_claims : JwtError
  -- an error of fetchJWKS
  fetch_failed : JwtError

pub record Claims : Type 0 where
  pub issuer : String
  pub subject : String
  pub audience : List String
  pub expires_at : ℤ
  pub scope : String

pub record JwtHeader : Type 0 where
  pub alg : String
  pub kid : String

pub record JwksKey : Type 0 where
  pub kty : String
  pub kid : String
  pub alg : String
  pub n : String
  pub e : String

-- What the verifier computes with libraries, for a type of public keys.
pub record Libraries (Key : Type 0) : Type 0 where
  -- base64.RawURLEncoding.DecodeString; `none` is an error, here and below
  pub decode : String → Option (List ℕ)
  -- json.Unmarshal
  pub parse_header : List ℕ → Option JwtHeader
  pub parse_claims : List ℕ → Option Claims
  pub sha256 : String → List ℕ
  -- rsa.VerifyPKCS1v15 of a digest and a signature
  pub rsa_verify : Key → List ℕ → List ℕ → Bool
  -- a key of the bytes of n and e; `none` where e is 0
  pub public_key : List ℕ → List ℕ → Option Key
  -- the n-th GET of the JWKS: its status and its parsed body
  pub get_jwks : ℕ → Option (ℕ × Option (List JwksKey))

pub record CachedKey (Key : Type 0) : Type 0 where
  pub kid : String
  pub key : Key

pub record Cache (Key : Type 0) : Type 0 where
  pub keys : List (CachedKey Key)
  pub fetched_at : Time

-- 5 minutes
abbrev pub cache_ttl : Time
cache_ttl = 5 * 60 * 1_000_000

abbrev pub or_error : {A : Type 0} → JwtError → Option A → Result JwtError A
or_error e none = err e
or_error e (some a) = ok a

-- strings.Split, and the length of its result
abbrev pub three_parts : List String → Result JwtError (String × String × String)
three_parts (h ∷ p ∷ s ∷ []) = ok (h, p, s)
three_parts _ = err invalid_token

module _ {Key : Type 0} (l : Libraries Key) where
  abbrev pub cached_kid : CachedKey Key → String
  cached_kid k = k.kid

  unfoldable pub parse_rsa_public_key : String → String → Result JwtError Key
  parse_rsa_public_key n_str e_str = and_then (or_error fetch_failed (l.decode n_str)) λ n.
      and_then (or_error fetch_failed (l.decode e_str))
        λ e. or_error fetch_failed (l.public_key n e)

  -- The loop over the keys of the response, with the map made so far.
  unfoldable pub new_keys :
      List (CachedKey Key) → List JwksKey → Result JwtError (List (CachedKey Key))
  new_keys keys [] = ok keys
  new_keys keys (k ∷ ks) =
      let skipped = new_keys keys ks in
      if not (k.kty == "RSA") || not (k.alg == "RS256")
      then skipped
      else and_then (parse_rsa_public_key k.n k.e)
          λ key. new_keys (put cached_kid (record { kid = k.kid; key = key }) keys) ks

  abbrev pub response_keys :
      Option (ℕ × Option (List JwksKey)) → Result JwtError (List (CachedKey Key))
  response_keys none = err fetch_failed
  response_keys (some (status, body)) =
      if not (status =ℕ 200)
      then err fetch_failed
      else and_then (or_error fetch_failed body) (new_keys [])

  unfoldable pub http_get : Action JwtError (Cache Key) (List (CachedKey Key))
  http_get env w = (response_keys (l.get_jwks w.step), record w { step = suc w.step })

  unfoldable pub fetch_jwks : Action JwtError (Cache Key) (Unit {0})
  fetch_jwks = do
    keys ← http_get
    now ← time_now
    modify (λ c. record { keys = keys; fetched_at = now })

  abbrev pub lookup : String → Cache Key → Option (CachedKey Key)
  lookup kid c = view cached_kid c.keys kid

  abbrev pub is_fresh : Cache Key → Time → Bool
  is_fresh c now = ltb (now - c.fetched_at) cache_ttl

  -- After the fetch, failed or not, the answer is what the cache then has.
  unfoldable pub refetched_key : String → Action JwtError (Cache Key) (CachedKey Key)
  refetched_key kid = do
    fetched ← attempt {F = JwtError} fetch_jwks
    c ← get_store
    lift (or_error invalid_token (lookup kid c))

  abbrev pub cached_or_fetched :
      String → Bool → Option (CachedKey Key) → Action JwtError (Cache Key) (CachedKey Key)
  cached_or_fetched kid true (some k) = pure k
  cached_or_fetched kid _ _ = refetched_key kid

  unfoldable pub get_key : String → Action JwtError (Cache Key) (CachedKey Key)
  get_key kid = do
    c ← get_store
    now ← time_now
    cached_or_fetched kid (is_fresh c now) (lookup kid c)

  abbrev pub parsed : {A : Type 0} → (List ℕ → Option A) → String → Result JwtError A
  parsed parse part =
      and_then (or_error invalid_token (l.decode part))
        λ bytes. or_error invalid_token (parse bytes)

  unfoldable pub check_claims : String → String → Claims → Action JwtError (Cache Key) (Unit {0})
  check_claims issuer audience claims = do
    now ← time_now
    fail_if (ltb_ℤ claims.expires_at (unix now)) token_expired
    fail_if (not (claims.issuer == issuer)) invalid_claims
    fail_if (not (contains claims.audience audience)) invalid_claims
    fail_if (claims.subject == "") invalid_claims

  unfoldable pub check_payload : String → String → String → Action JwtError (Cache Key) (Unit {0})
  check_payload issuer audience p = do
    claims ← lift (parsed l.parse_claims p)
    check_claims issuer audience claims

  unfoldable pub check_signature :
      String → String → String → String → String → Key → Action JwtError (Cache Key) (Unit {0})
  check_signature issuer audience h p s key = do
    sig ← lift (or_error invalid_token (l.decode s))
    fail_if (not (l.rsa_verify key (l.sha256 (h ++ ("." ++ p))) sig)) signature_invalid
    check_payload issuer audience p

  unfoldable pub verify : String → String → String → Action JwtError (Cache Key) (Unit {0})
  verify issuer audience token_string = do
    (h, p, s) ← lift (three_parts (split b'.' token_string))
    header ← lift (parsed l.parse_header h)
    fail_if (not (header.alg == "RS256")) unexpected_alg
    k ← get_key header.kid
    check_signature issuer audience h p s k.key
