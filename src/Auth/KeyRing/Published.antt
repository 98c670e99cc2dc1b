-- ===== src/Auth/KeyRing/Published.antt =====
-- The published key set is that of the verifier, and what the verifier accepts.
use mathlib.Core.Option
use cc_orchestrator.Prelude.{
  ℕ, String, ◌≡◌, refl, ap, sym, ◌∙◌, true, false, Option, none, some, List, [], ◌∷◌, map, Result,
  ok, err, and_then-eq-ok, ◌==◌, eq_iff, Bool-cases, inl, inr,
}
use Prim.Native.String.{◌++◌}
use cc_orchestrator.Prelude.Int.{ltb_ℤ}
use cc_orchestrator.Action.{Time}
use cc_orchestrator.Auth.Errors.{Err, token, TokenError}
use cc_orchestrator.Auth.Claims.{Claims, unix}
use cc_orchestrator.Auth.Db.Table.{delete, select}
use cc_orchestrator.Auth.Db.Table.View.{view, view-remove, key-view}
use cc_orchestrator.Auth.KeyRing.{
  Crypto, Jwk, JwtHeader, PublicKey, KeyRing, kid_of, rsa_public_key_to_jwk, active_first, jwks,
  verify, decode_jwt_header, key_or_invalid, verify_rs256, or_invalid, read_payload, unless_expired,
}

abbrev pub jwk_kid : Jwk → String
jwk_kid j = j.kid

module _ {Private Public : Type 0} (c : Crypto Private Public) where
  view-map :
      (keys : List (PublicKey c)) (kid : String)
      → view jwk_kid (map (rsa_public_key_to_jwk c) keys) kid
        ≡ Option.map (rsa_public_key_to_jwk c) (view (kid_of c) keys kid)
  unfolding view rsa_public_key_to_jwk
  view-map [] kid = refl
  view-map (k ∷ ks) kid = elim (Bool-cases (k.kid == kid)) [
    | inl here ↦ rw here refl
    | inr other ↦ rw other (view-map ks kid)
  ]

  view-active_first :
      (keys : List (PublicKey c)) (active kid : String) (first : Option (PublicKey c))
      → view (kid_of c) keys active ≡ first
      → view (kid_of c) (active_first c first (delete (λ k. kid_of c k == active) keys)) kid
        ≡ view (kid_of c) keys kid
  unfolding view select
  view-active_first keys active kid none e = elim (Bool-cases (active == kid)) [
    | inl here ↦
        let same : active ≡ kid = (eq_iff active kid).0 here in
        view-remove (kid_of c) active kid keys ∙ (rw here (sym (rw same at e)))
    | inr other ↦ view-remove (kid_of c) active kid keys ∙ (rw other refl)
  ]
  view-active_first keys active kid (some k) e =
      let named : k.kid ≡ active = key-view (kid_of c) active keys e in
      elim (Bool-cases (active == kid)) [
        | inl here ↦
            let same : active ≡ kid = (eq_iff active kid).0 here in
            let first : (k.kid == kid) ≡ true = rw (named, here) refl in
            rw first (sym (rw same at e))
        | inr other ↦
            let not_first : (k.kid == kid) ≡ false = rw (named, other) refl in
            rw not_first (view-remove (kid_of c) active kid keys ∙ (rw other refl))
      ]

  -- Under every name, the published key set has the key that the verifier has, and no key where it has none.
  pub jwks_keys :
      (ring : KeyRing c) (kid : String)
      → view jwk_kid (jwks c ring) kid
        ≡ Option.map (rsa_public_key_to_jwk c) (view (kid_of c) ring.keys kid)
  unfolding jwks
  jwks_keys ring kid =
      view-map _ kid
      ∙ (rw
          (view-active_first ring.keys ring.active_kid kid
            (view (kid_of c) ring.keys ring.active_kid) refl)
          refl)

  -- What an accepted token is: its three parts, its header and the key that signed it, which is published under
  -- the name in the header.
  pub record IsAccepted (ring : KeyRing c) (now : Time) (t : String) (claims : Claims)
      : Type 0 where
    pub header : JwtHeader
    pub header_part : String
    pub payload_part : String
    pub signature_part : String
    pub decoded : decode_jwt_header c t ≡ ok (header, header_part, payload_part, signature_part)
    pub rs256 : header.alg ≡ "RS256"
    pub key : PublicKey c
    pub published : view jwk_kid (jwks c ring) header.kid ≡ some (rsa_public_key_to_jwk c key)
    pub signature : List ℕ
    pub signature_decoded : c.decode signature_part ≡ some signature
    pub is_signed :
        c.rsa_verify key.key (c.sha256 (header_part ++ ("." ++ payload_part))) signature ≡ true
    pub claims_read : read_payload c payload_part ≡ ok claims
    pub in_time : ltb_ℤ claims.expires_at (unix now) ≡ false

  from_some : {A : Type 0} (o : Option A) {a : A} → or_invalid o ≡ ok a → o ≡ some a
  from_some none h = cc
  from_some (some b) h = cc

  key-ok :
      (o : Option (PublicKey c)) {k : Public}
      → key_or_invalid c o ≡ ok k
      → (p : PublicKey c) × (o ≡ some p) × (p.key ≡ k)
  key-ok none h = cc
  key-ok (some p) h = (p, refl, cc)

  err-ne-ok : {E A : Type 0} {e : E} {a : A} → err e ≡ ok a → ⊥
  err-ne-ok h = cc

  fresh-ok :
      (now : Time) (payload : Claims) {claims : Claims}
      → unless_expired c now payload ≡ ok claims
      → (payload ≡ claims) × (ltb_ℤ claims.expires_at (unix now) ≡ false)
  fresh-ok now payload {claims} h = elim (Bool-cases (ltb_ℤ payload.expires_at (unix now))) [
    | inl expired ↦
        let refused : err (token TokenError.token_expired) ≡ ok claims = rw expired at h in
        absurd (err-ne-ok refused)
    | inr fresh ↦
        let same : ◌≡◌ {A = Result Err Claims} (ok payload) (ok claims) = rw fresh at h in
        let equal : payload ≡ claims = cc in (equal, rw (← equal) fresh)
  ]

  -- A token that the ring's verifier accepts asks for RS256, is signed with a key that the key set publishes under
  -- the name in its header, and is not expired; the claims are those of its payload.
  pub verify-IsAccepted :
      (ring : KeyRing c) (now : Time) (t : String) (claims : Claims)
      → verify c ring.keys now t ≡ ok claims
      → IsAccepted ring now t claims
  unfolding verify verify_rs256
  verify-IsAccepted ring now t claims accepted =
      let ((header, h, p, s), decoded, h1) = and_then-eq-ok (decode_jwt_header c t) _ accepted in
      elim (Bool-cases (header.alg == "RS256")) [
        | inr other ↦
            let refused : err (token TokenError.unexpected_alg) ≡ ok claims = rw other at h1 in
            absurd (err-ne-ok refused)
        | inl rs256 ↦
            let (public, found, h2) =
              and_then-eq-ok (key_or_invalid c (view (kid_of c) ring.keys header.kid)) _
                (rw rs256 at h1) in
            let (key, looked_up, same) = key-ok _ found in
            let (signature, read, h3) = and_then-eq-ok (or_invalid (c.decode s)) _ h2 in
            elim (Bool-cases (c.rsa_verify public (c.sha256 (h ++ ("." ++ p))) signature)) [
              | inr wrong ↦
                  let refused : err (token TokenError.signature_invalid) ≡ ok claims =
                    rw wrong at h3 in
                  absurd (err-ne-ok refused)
              | inl right ↦
                  let (payload, claims_read, h4) =
                    and_then-eq-ok (read_payload c p) _ (rw right at h3) in
                  let (same_claims, in_time) = fresh-ok now payload h4 in
                  record {
                    header = header;
                    header_part = h;
                    payload_part = p;
                    signature_part = s;
                    decoded = decoded;
                    rs256 = (eq_iff header.alg "RS256").0 rs256;
                    key = key;
                    published = jwks_keys ring header.kid ∙ rw looked_up refl;
                    signature = signature;
                    signature_decoded = from_some _ read;
                    is_signed = rw same right;
                    claims_read = claims_read ∙ ap (λ x. ok x) same_claims;
                    in_time = in_time;
                  }
            ]
      ]
