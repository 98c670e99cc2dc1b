-- ===== src/Auth/KeyRing.antt =====
-- The signing keys: app/auth/infra/jwt/{key_ring,signer,verifier,jwk,file_loader}.go. RSA, PEM and JSON are
-- parameters, for a type of private and a type of public keys.
pub mod RoundTrip
pub mod Published
mod Tests
use Prim.Native.String.{◌++◌}
use cc_orchestrator.Prelude.{
  ℕ, String, Bool, true, false, not, Option, none, some, List, [], ◌∷◌, map, Result, ok, err,
  and_then, ◌==◌, if◌then◌else◌,
}
use cc_orchestrator.Prelude.Int.{ℤ, ltb_ℤ}
use cc_orchestrator.GoText.{split}
use cc_orchestrator.GoText.Encoding.{base64url_encode}
use cc_orchestrator.Action.{Time}
use cc_orchestrator.Auth.Errors.{Err, token, TokenError}
use cc_orchestrator.Auth.Claims.{Claims, unix}
use cc_orchestrator.Auth.Db.Table.{put, delete}
use cc_orchestrator.Auth.Db.Table.View.{view}

pub record KeyEntry : Type 0 where
  pub kid : String
  pub private_key_pem : String
  pub public_key_pem : String

pub record SigningMaterial : Type 0 where
  pub active_kid : String
  pub keys : List KeyEntry

pub record JwtHeader : Type 0 where
  pub alg : String
  pub typ : String
  pub kid : String

pub record Jwk : Type 0 where
  pub kty : String
  pub use_for : String
  pub alg : String
  pub kid : String
  pub n : String
  pub e : String

-- crypto/rsa, crypto/sha256, encoding/pem, crypto/x509, encoding/base64 and encoding/json
pub record Crypto (Private Public : Type 0) : Type 0 where
  -- pem.Decode and x509.ParsePKCS1PrivateKey; `none` is an error, here and below
  pub parse_private : String → Option Private
  -- pem.Decode and x509.ParsePKIXPublicKey, for an RSA key
  pub parse_public : String → Option Public
  pub public_of : Private → Public
  pub sha256 : String → List ℕ
  -- rsa.SignPKCS1v15 of a digest
  pub rsa_sign : Private → List ℕ → Option (List ℕ)
  -- rsa.VerifyPKCS1v15 of a digest and a signature
  pub rsa_verify : Public → List ℕ → List ℕ → Bool
  -- the big-endian bytes of N and of E
  pub modulus : Public → List ℕ
  pub exponent : Public → List ℕ
  -- json.Marshal
  pub print_header : JwtHeader → List ℕ
  pub print_claims : Claims → List ℕ
  -- json.Unmarshal
  pub parse_header : List ℕ → Option JwtHeader
  pub parse_claims : List ℕ → Option Claims
  -- base64.RawURLEncoding.DecodeString
  pub decode : String → Option (List ℕ)

pub data KeyRingError : Type 0 where
  bad_private_key bad_public_key no_key : String → KeyRingError
  no_active_key : KeyRingError

abbrev pub or_invalid : {A : Type 0} → Option A → Result Err A
or_invalid none = err (token TokenError.invalid_token)
or_invalid (some a) = ok a

abbrev pub three_parts : List String → Result Err (String × String × String)
three_parts (h ∷ p ∷ s ∷ []) = ok (h, p, s)
three_parts _ = err (token TokenError.invalid_token)

-- The checks that the file loader makes on a ring that it could read and parse.
unfoldable pub check_file_ring : SigningMaterial → Option SigningMaterial
check_file_ring ring =
    if ring.active_kid == "" then none else (elim ring.keys [ [] ↦ none | k ∷ ks ↦ some ring ])

module _ {Private Public : Type 0} (c : Crypto Private Public) where
  pub record PublicKey : Type 0 where
    pub kid : String
    pub key : Public

  pub record Signer : Type 0 where
    pub kid : String
    pub private_key : Private

  abbrev pub kid_of : PublicKey → String
  kid_of k = k.kid

  pub record KeyRing : Type 0 where
    pub signer : Signer
    pub active_kid : String
    pub keys : List PublicKey

  -- The keys and the signer that the loop has so far.
  pub record Building : Type 0 where
    pub keys : List PublicKey
    pub signer : Option Signer

  abbrev pub with_private : String → KeyEntry → Building → Private → Building
  with_private active_kid entry b priv = record {
    keys = put kid_of (record { kid = entry.kid; key = c.public_of priv }) b.keys;
    signer =
        if entry.kid == active_kid
        then some (record { kid = entry.kid; private_key = priv })
        else b.signer;
  }

  abbrev pub with_public : KeyEntry → Building → Public → Building
  with_public entry b key = record b {
    keys = put kid_of (record { kid = entry.kid; key = key }) b.keys;
  }

  abbrev pub or_bad : {A : Type 0} → KeyRingError → Option A → Result KeyRingError A
  or_bad e none = err e
  or_bad e (some a) = ok a

  unfoldable pub add_entry : String → KeyEntry → Building → Result KeyRingError Building
  add_entry active_kid entry b =
      if not (entry.private_key_pem == "")
      then and_then (or_bad (bad_private_key entry.kid) (c.parse_private entry.private_key_pem))
          (λ priv. ok (with_private active_kid entry b priv))
      else if not (entry.public_key_pem == "")
      then and_then (or_bad (bad_public_key entry.kid) (c.parse_public entry.public_key_pem))
          (λ key. ok (with_public entry b key))
      else err (no_key entry.kid)

  unfoldable pub add_entries : String → List KeyEntry → Building → Result KeyRingError Building
  add_entries active_kid [] b = ok b
  add_entries active_kid (entry ∷ rest) b =
      and_then (add_entry active_kid entry b) (add_entries active_kid rest)

  abbrev pub finished : String → Building → Result KeyRingError KeyRing
  finished active_kid b = elim b.signer [
    | none ↦ err no_active_key
    | some s ↦ ok (record { signer = s; active_kid = active_kid; keys = b.keys })
  ]

  unfoldable pub new_key_ring_from_material : SigningMaterial → Result KeyRingError KeyRing
  new_key_ring_from_material material =
      and_then (add_entries material.active_kid material.keys (record { keys = []; signer = none }))
        (finished material.active_kid)

  abbrev pub signing_input : String → Claims → String
  signing_input kid claims =
      base64url_encode (c.print_header (record { alg = "RS256"; typ = "JWT"; kid = kid }))
      ++ ("." ++ base64url_encode (c.print_claims claims))

  unfoldable pub sign : Signer → Claims → Option String
  sign s claims = elim (c.rsa_sign s.private_key (c.sha256 (signing_input s.kid claims))) [
    | none ↦ none
    | some signature ↦ some (signing_input s.kid claims ++ ("." ++ base64url_encode signature))
  ]

  unfoldable pub decode_jwt_header : String → Result Err (JwtHeader × String × String × String)
  decode_jwt_header token_string = and_then (three_parts (split b'.' token_string)) λ (h, p, s).
      and_then (or_invalid (c.decode h))
        λ bytes. and_then (or_invalid (c.parse_header bytes)) λ header. ok (header, h, p, s)

  abbrev pub unless_expired : Time → Claims → Result Err Claims
  unless_expired now claims =
      if ltb_ℤ claims.expires_at (unix now) then err (token TokenError.token_expired) else ok claims

  unfoldable pub read_payload : String → Result Err Claims
  read_payload p = and_then (or_invalid (c.decode p)) λ payload. or_invalid (c.parse_claims payload)

  unfoldable pub verify_rs256 : Time → String → String → String → Public → Result Err Claims
  verify_rs256 now h p s key = and_then (or_invalid (c.decode s)) λ signature.
      if not (c.rsa_verify key (c.sha256 (h ++ ("." ++ p))) signature)
      then err (token TokenError.signature_invalid)
      else and_then (read_payload p) (unless_expired now)

  abbrev pub key_or_invalid : Option PublicKey → Result Err Public
  key_or_invalid none = err (token TokenError.invalid_token)
  key_or_invalid (some k) = ok k.key

  -- MultiKeyVerifier.Verify, at a reading of the clock
  unfoldable pub verify : List PublicKey → Time → String → Result Err Claims
  verify keys now token_string = and_then (decode_jwt_header token_string) λ (header, h, p, s).
      if not (header.alg == "RS256")
      then err (token TokenError.unexpected_alg)
      else and_then (key_or_invalid (view kid_of keys header.kid)) (verify_rs256 now h p s)

  unfoldable pub rsa_public_key_to_jwk : PublicKey → Jwk
  rsa_public_key_to_jwk k = record {
    kty = "RSA";
    use_for = "sig";
    alg = "RS256";
    kid = k.kid;
    n = base64url_encode (c.modulus k.key);
    e = base64url_encode (c.exponent k.key);
  }

  abbrev pub active_first : Option PublicKey → List PublicKey → List PublicKey
  active_first none others = others
  active_first (some k) others = k ∷ others

  -- The active key comes first; the order of the others is that of a Go map.
  unfoldable pub jwks : KeyRing → List Jwk
  jwks ring = map rsa_public_key_to_jwk (
      active_first (view kid_of ring.keys ring.active_kid)
        (delete (λ k. kid_of k == ring.active_kid) ring.keys))
