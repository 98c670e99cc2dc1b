-- ===== src/Auth/KeyRing/Tests.antt =====
-- A ring of an active key and a retired one, with a stand-in for RSA.
use mathlib.Core.Option
use mathlib.Core.Option.{some-injective}
use mathlib.Core.Path.{subst}
use cc_orchestrator.Prelude.{
  String, ◌≡◌, refl, none, some, [], ◌∷◌, ok, ◌==◌, arith, eq_iff, if◌then◌else◌,
}
use cc_orchestrator.Prelude.Int.{pos}
use cc_orchestrator.GoText.Encoding.{base64url_encode}
use cc_orchestrator.Auth.Claims.{Claims}
use cc_orchestrator.Auth.Db.Table.{put}
use cc_orchestrator.Auth.KeyRing.{
  kid_of, jwks, rsa_public_key_to_jwk, decode_jwt_header, verify_rs256, read_payload, Crypto,
  SigningMaterial, KeyRing, add_entry, add_entries, new_key_ring_from_material, sign, verify,
}
use cc_orchestrator.Auth.Db.Table.View.{view}
use cc_orchestrator.GoText.{split}
use cc_orchestrator.Auth.KeyRing.Published.{jwk_kid, jwks_keys, IsAccepted, verify-IsAccepted}
use cc_orchestrator.Auth.KeyRing.RoundTrip.{IsCrypto, IsDistinct, verify-sign}

abbrev claims : Claims
claims = record {
  issuer = "https://op";
  subject = "u1";
  audience = "api";
  expires_at = pos 900;
  issued_at = pos 0;
  nonce = "";
  auth_time = pos 0;
  at_hash = "";
  scope = "openid";
  name = "";
  email = "";
}

-- The header is the byte 1, the claims are the byte 2, and every signature is the byte 3.
abbrev toy : Crypto String String
toy = record {
  parse_private = λ pem. some pem;
  parse_public = λ pem. some pem;
  public_of = λ k. k;
  sha256 = λ s. [];
  rsa_sign = λ k digest. some (3 ∷ []);
  rsa_verify = λ k digest s. k == "secret";
  modulus = λ k. [];
  exponent = λ k. [];
  print_header = λ h. 1 ∷ [];
  print_claims = λ c. 2 ∷ [];
  parse_header = λ bytes. some (record { alg = "RS256"; typ = "JWT"; kid = "k1" });
  parse_claims = λ bytes. some claims;
  decode = λ s.
      if s == "AQ"
      then some (1 ∷ [])
      else if s == "Ag"
      then some (2 ∷ [])
      else if s == "Aw"
      then some (3 ∷ [])
      else none;
}

abbrev material : SigningMaterial
material = record {
  active_kid = "k1";
  keys =
      record { kid = "k1"; private_key_pem = "secret"; public_key_pem = "" }
      ∷ record { kid = "k0"; private_key_pem = ""; public_key_pem = "old" }
      ∷ [];
}

abbrev ring : KeyRing toy
ring = record {
  signer = record { kid = "k1"; private_key = "secret" };
  active_kid = "k1";
  keys = record { kid = "k1"; key = "secret" } ∷ record { kid = "k0"; key = "old" } ∷ [];
}

made : new_key_ring_from_material toy material ≡ ok ring
unfolding new_key_ring_from_material add_entries add_entry put
made = refl

signed : sign toy ring.signer claims ≡ some "AQ.Ag.Aw"
unfolding sign base64url_encode
signed = refl

laws : IsCrypto toy "secret" "k1" claims
unfolding base64url_encode
laws = record {
  decode_header = refl;
  parse_header = refl;
  decode_claims = refl;
  parse_claims = refl;
  decode_signature = λ digest s e.
      subst (λ x. toy.decode (base64url_encode x) ≡ some x) (some-injective _ _ e) refl;
  verify_signature = λ digest s e. refl;
}

distinct : IsDistinct material.keys
distinct = ((ground (arith, eq_iff "k0" "k1"), tt), (tt, tt))

verify-sign_example : verify toy ring.keys 5 "AQ.Ag.Aw" ≡ ok claims
verify-sign_example =
    verify-sign toy material ring claims "AQ.Ag.Aw" 5 laws distinct made signed refl

jwks_keys_example :
    view jwk_kid (jwks toy ring) "k0"
    ≡ Option.map (rsa_public_key_to_jwk toy) (view (kid_of toy) ring.keys "k0")
jwks_keys_example = jwks_keys toy ring "k0"

accepted : verify toy ring.keys 5 "AQ.Ag.Aw" ≡ ok claims
unfolding verify decode_jwt_header verify_rs256 read_payload view split
accepted = refl

verify-IsAccepted_example : IsAccepted toy ring 5 "AQ.Ag.Aw" claims
verify-IsAccepted_example = verify-IsAccepted toy ring 5 "AQ.Ag.Aw" claims accepted
