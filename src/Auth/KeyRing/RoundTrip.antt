-- ===== src/Auth/KeyRing/RoundTrip.antt =====
-- What the server signs it verifies, with any ring whose keys have different names.
use Prim.Native.String.{◌++◌}
use text.Mathlib.TextLemmas.{append_assoc}
use mathlib.Core.Option.{some-injective}
use mathlib.Core.Path.{subst}
use cc_orchestrator.Prelude.{
  ℕ, String, true, false, ◌≡◌, ◌≢◌, refl, ap, sym, ◌∙◌, none, some, List, [], ◌∷◌, Result, ok, err,
  and_then-eq-ok, arith, ◌==◌, eq_iff, Bool-cases, Option-cases, inl, inr,
}
use cc_orchestrator.Prelude.Int.{ltb_ℤ}
use cc_orchestrator.GoText.Encoding.{base64url_encode}
use cc_orchestrator.GoText.Encoding.Symbols.{lacks-base64url_encode, split-lacks, split-append}
use cc_orchestrator.Action.{Time}
use cc_orchestrator.Auth.Claims.{Claims, unix}
use cc_orchestrator.Auth.Db.Table.View.{view, view-put}
use cc_orchestrator.Auth.KeyRing.{
  KeyEntry, SigningMaterial, JwtHeader, Crypto, KeyRingError, PublicKey, Signer, KeyRing, Building,
  kid_of, add_entry, add_entries, new_key_ring_from_material, finished, or_bad, with_private,
  with_public, bad_private_key, bad_public_key, no_key, no_active_key, signing_input, sign,
  decode_jwt_header, read_payload, verify_rs256, verify,
}

abbrev pub header_of : String → JwtHeader
header_of kid = record { alg = "RS256"; typ = "JWT"; kid = kid }

-- What the libraries promise about one token: decoding undoes encoding, parsing undoes printing, and a
-- signature verifies with the public key of its private key.
pub record IsCrypto {Private Public : Type 0} (c : Crypto Private Public) (k : Private)
    (kid : String) (claims : Claims) : Type 0 where
  pub decode_header :
      c.decode (base64url_encode (c.print_header (header_of kid)))
      ≡ some (c.print_header (header_of kid))
  pub parse_header : c.parse_header (c.print_header (header_of kid)) ≡ some (header_of kid)
  pub decode_claims :
      c.decode (base64url_encode (c.print_claims claims)) ≡ some (c.print_claims claims)
  pub parse_claims : c.parse_claims (c.print_claims claims) ≡ some claims
  pub decode_signature :
      (digest s : List ℕ) → c.rsa_sign k digest ≡ some s → c.decode (base64url_encode s) ≡ some s
  pub verify_signature :
      (digest s : List ℕ)
      → c.rsa_sign k digest ≡ some s
      → c.rsa_verify (c.public_of k) digest s ≡ true

-- No entry has this name.
abbrev pub IsFree : String → List KeyEntry → Type 0
IsFree kid [] = Unit {0}
IsFree kid (e ∷ es) = (e.kid ≢ kid) × IsFree kid es

abbrev pub IsDistinct : List KeyEntry → Type 0
IsDistinct [] = Unit {0}
IsDistinct (e ∷ es) = IsFree e.kid es × IsDistinct es

module _ {Private Public : Type 0} (c : Crypto Private Public) where
  -- A signer has the public key that the ring has under the active name.
  abbrev pub Matches : String → List (PublicKey c) → Signer c → Type 0
  Matches active keys s =
      (s.kid ≡ active)
      × (view (kid_of c) keys active
          ≡ some (record { kid = active; key = c.public_of s.private_key }))

  -- While the loop runs, a signer matches, and its name does not come again.
  abbrev IsBuilt : String → List KeyEntry → Building c → Type 0
  IsBuilt active rest b =
      (s : Signer c) → b.signer ≡ some s → Matches active b.keys s × IsFree active rest

  with_private-IsBuilt :
      (active : String) (e : KeyEntry) (es : List KeyEntry) (b : Building c) (priv : Private)
      → IsFree e.kid es
      → IsBuilt active (e ∷ es) b
      → IsBuilt active es (with_private c active e b priv)
  with_private-IsBuilt active e es b priv free built s k = elim (Bool-cases (e.kid == active)) [
    | inl here ↦
        let name : e.kid ≡ active = (eq_iff e.kid active).0 here in
        let signer : s ≡ record { kid = e.kid; private_key = priv } =
          some-injective _ _ (sym k ∙ rw here refl) in
        let row : some (record { kid = e.kid; key = c.public_of priv })
            ≡ some (record { kid = active; key = c.public_of s.private_key }) =
          rw (signer, name) refl in
        let found : view (kid_of c) (with_private c active e b priv).keys active
            ≡ some (record { kid = active; key = c.public_of s.private_key }) =
          view-put _ (record { kid = e.kid; key = c.public_of priv }) active b.keys
          ∙ (rw here row) in
        ((ap (λ (x : Signer c). x.kid) signer ∙ name, found), subst (λ x. IsFree x es) name free)
    | inr other ↦
        let (matches, free') = built s (rw other at k) in
        (
          (
            matches.0,
            view-put _ (record { kid = e.kid; key = c.public_of priv }) active b.keys
                ∙ (rw other matches.1),
          ),
          free'.1,
        )
  ]

  with_public-IsBuilt :
      (active : String) (e : KeyEntry) (es : List KeyEntry) (b : Building c) (key : Public)
      → IsBuilt active (e ∷ es) b
      → IsBuilt active es (with_public c e b key)
  with_public-IsBuilt active e es b key built s k =
      let (matches, (ne, free)) = built s k in
      let other : (e.kid == active) ≡ false = ground (arith, eq_iff e.kid active) in
      (
        (
          matches.0,
          view-put _ (record { kid = e.kid; key = key }) active b.keys ∙ (rw other matches.1),
        ),
        free,
      )

  add_entry-IsBuilt :
      (active : String) (e : KeyEntry) (es : List KeyEntry) (b b' : Building c)
      → IsFree e.kid es
      → IsBuilt active (e ∷ es) b
      → add_entry c active e b ≡ ok b'
      → IsBuilt active es b'
  unfolding add_entry
  add_entry-IsBuilt active e es b b' free built h = elim (Bool-cases (e.private_key_pem == "")) [
    | inr has_private ↦
        let (priv, h1, h2) =
          and_then-eq-ok (or_bad c (bad_private_key e.kid) (c.parse_private e.private_key_pem)) _
            (rw has_private at h) in
        let same : b' ≡ with_private c active e b priv = cc in
        rw same (with_private-IsBuilt active e es b priv free built)
    | inl no_private ↦ elim (Bool-cases (e.public_key_pem == "")) [
      | inr has_public ↦
          let (key, h1, h2) =
            and_then-eq-ok (or_bad c (bad_public_key e.kid) (c.parse_public e.public_key_pem)) _
              (rw (no_private, has_public) at h) in
          let same : b' ≡ with_public c e b key = cc in
          rw same (with_public-IsBuilt active e es b key built)
      | inl no_public ↦
          let impossible : err (no_key e.kid) ≡ ok b' = rw (no_private, no_public) at h in λ s k. cc
    ]
  ]

  add_entries-IsBuilt :
      (active : String) (es : List KeyEntry) (b b' : Building c)
      → IsDistinct es
      → IsBuilt active es b
      → add_entries c active es b ≡ ok b'
      → IsBuilt active [] b'
  unfolding add_entries
  add_entries-IsBuilt active [] b b' d built h = λ s k.
      let same : b' ≡ b = cc in
      let (matches, free) = built s (rw same at k) in (rw same matches, tt)
  add_entries-IsBuilt active (e ∷ es) b b' (free, d) built h =
      let (m, h1, h2) = and_then-eq-ok (add_entry c active e b) _ h in
      add_entries-IsBuilt active es m b' d (add_entry-IsBuilt active e es b m free built h1) h2

  finished-Matches :
      (active : String) (b : Building c) (ring : KeyRing c)
      → IsBuilt active [] b
      → finished c active b ≡ ok ring
      → Matches ring.active_kid ring.keys ring.signer
  finished-Matches active b ring built h = elim (Option-cases b.signer) [
    | inl e ↦ let impossible : err no_active_key ≡ ok ring = rw e at h in cc
    | inr (s, e) ↦
        let found : ◌≡◌ {A = Result KeyRingError (KeyRing c)}
            (ok (record { signer = s; active_kid = active; keys = b.keys })) (ok ring) =
          rw e at h in
        let same : record { signer = s; active_kid = active; keys = b.keys } ≡ ring = cc in
        subst (λ r. Matches r.active_kid r.keys r.signer) same (built s e).0
  ]

  ring-Matches :
      (material : SigningMaterial) (ring : KeyRing c)
      → IsDistinct material.keys
      → new_key_ring_from_material c material ≡ ok ring
      → Matches ring.active_kid ring.keys ring.signer
  unfolding new_key_ring_from_material
  ring-Matches material ring d h =
      let (b, h1, h2) =
        and_then-eq-ok
          (add_entries c material.active_kid material.keys (record { keys = []; signer = none })) _
          h in
      let built = add_entries-IsBuilt material.active_kid material.keys _ b d (λ s k. cc) h1 in
      finished-Matches material.active_kid b ring built h2

  decode-sign :
      {k : Private} {kid : String} {claims : Claims}
      → IsCrypto c k kid claims
      → (signature : List ℕ)
      → decode_jwt_header c (signing_input c kid claims ++ ("." ++ base64url_encode signature))
        ≡ ok (
          header_of kid,
          base64url_encode (c.print_header (header_of kid)),
          base64url_encode (c.print_claims claims),
          base64url_encode signature,
        )
  unfolding decode_jwt_header
  decode-sign {k} {kid} {claims} laws signature =
      rw
        (
          append_assoc (base64url_encode (c.print_header (header_of kid)))
              ("." ++ base64url_encode (c.print_claims claims)) ("." ++ base64url_encode signature),
          append_assoc "." (base64url_encode (c.print_claims claims))
              ("." ++ base64url_encode signature),
          split-append (base64url_encode (c.print_header (header_of kid)))
              (base64url_encode (c.print_claims claims) ++ ("." ++ base64url_encode signature))
              (lacks-base64url_encode _),
          split-append (base64url_encode (c.print_claims claims)) (base64url_encode signature)
              (lacks-base64url_encode _),
          split-lacks (base64url_encode signature) (lacks-base64url_encode signature),
          laws.decode_header,
          laws.parse_header,
        )
        refl

  verify_rs256-sign :
      {k : Private} {kid : String} {claims : Claims} (now : Time)
      → IsCrypto c k kid claims
      → (signature : List ℕ) → c.rsa_sign k (c.sha256 (signing_input c kid claims)) ≡ some signature
      → ltb_ℤ claims.expires_at (unix now) ≡ false
      → verify_rs256 c now
          (base64url_encode (c.print_header (header_of kid)))
          (base64url_encode (c.print_claims claims))
          (base64url_encode signature)
          (c.public_of k)
        ≡ ok claims
  unfolding verify_rs256 read_payload
  verify_rs256-sign now laws signature e fresh =
      rw
        (
          laws.decode_signature _ signature e,
          laws.verify_signature _ signature e,
          laws.decode_claims,
          laws.parse_claims,
          fresh,
        )
        refl

  -- With libraries that keep their promises on this token, a ring made of keys with different names, whose
  -- signer signs some claims, verifies the token to those claims, as long as they are not expired.
  pub verify-sign :
      (material : SigningMaterial) (ring : KeyRing c) (claims : Claims) (t : String) (now : Time)
      → IsCrypto c ring.signer.private_key ring.signer.kid claims
      → IsDistinct material.keys
      → new_key_ring_from_material c material ≡ ok ring
      → sign c ring.signer claims ≡ some t
      → ltb_ℤ claims.expires_at (unix now) ≡ false
      → verify c ring.keys now t ≡ ok claims
  unfolding sign verify
  verify-sign material ring claims t now laws d made signed fresh =
      let (name, active) = ring-Matches material ring d made in
      let found : view (kid_of c) ring.keys ring.signer.kid
          ≡ some (record { kid = ring.signer.kid; key = c.public_of ring.signer.private_key }) =
        rw name active in
      elim (Option-cases
        (c.rsa_sign ring.signer.private_key (c.sha256 (signing_input c ring.signer.kid claims)))) [
          | inl refused ↦ let impossible : none ≡ some t = rw (sign, refused) at signed in cc
          | inr (signature, e) ↦
              let token : signing_input c ring.signer.kid claims
                    ++ ("." ++ base64url_encode signature)
                  ≡ t =
                some-injective _ _ (rw (sign, e) at signed) in
              rw (← token, decode-sign laws signature, found)
                (verify_rs256-sign now laws signature e fresh)
        ]
