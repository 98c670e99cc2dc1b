-- ===== src/Task/Jwt/Laws.antt =====
-- What the task API has checked of a token that it accepts.
use Prim.Native.String.{◌++◌}
use mathlib.Core.Path.{subst}
use cc_orchestrator.Prelude.{
  ℕ, suc, String, ◌≡◌, ◌≢◌, refl, ap, sym, ◌∙◌, true, false, not, Bool, Option, none, some, List,
  [], ◌∷◌, Result, ok, contains, arith, ◌==◌, eq_iff, Bool-cases, Option-cases, inl, inr,
}
use cc_orchestrator.Prelude.Int.{◌≤ℤ◌}
use cc_orchestrator.GoText.{split}
use cc_orchestrator.Action.{Env, World, pure, lift, attempt, fail_if, time_now, get_store, ◌>>=◌}
use cc_orchestrator.Action.Keeps.{>>=-eq-ok}
use cc_orchestrator.Auth.Claims.{unix}
use cc_orchestrator.Task.Jwt.{
  JwtError, invalid_token, unexpected_alg, signature_invalid, Claims, JwtHeader, Libraries,
  CachedKey, Cache, or_error, lookup, is_fresh, refetched_key, get_key, three_parts, parsed,
  check_claims, check_payload, check_signature, verify,
}

three_parts-ok :
    (ps : List String) (a b c : String) → three_parts ps ≡ ok (a, b, c) → ps ≡ a ∷ b ∷ c ∷ []
three_parts-ok [] a b c h = ground arith
three_parts-ok (x ∷ []) a b c h = ground arith
three_parts-ok (x ∷ y ∷ []) a b c h = ground arith
three_parts-ok (x ∷ y ∷ z ∷ []) a b c h = ground arith
three_parts-ok (x ∷ y ∷ z ∷ u ∷ us) a b c h = ground arith

or_error-ok : {A : Type 0} (e : JwtError) (o : Option A) (a : A) → or_error e o ≡ ok a → o ≡ some a
or_error-ok e none a h = ground arith
or_error-ok e (some b) a h = ground arith

lift-ok :
    {S A : Type 0} (r : Result JwtError A) (a : A) (env : Env) (w v : World S)
    → lift r env w ≡ (ok a, v)
    → (r ≡ ok a) × (w ≡ v)
unfolding lift
lift-ok r a env w v h = (ap (λ o. o.0) h, ap (λ o. o.1) h)

not-false : (b : Bool) → not b ≡ false → b ≡ true
not-false true h = refl
not-false false h = ground arith

fail_if-not-ok :
    {S : Type 0} (b : Bool) (e : JwtError) (env : Env) (w v : World S)
    → fail_if (not b) e env w ≡ (ok tt, v)
    → (b ≡ true) × (w ≡ v)
unfolding fail_if
fail_if-not-ok true e env w v h = (refl, ap (λ o. o.1) h)
fail_if-not-ok false e env w v h = ground arith

module _ {Key : Type 0} (l : Libraries Key) where
  -- The claims of a payload meet the issuer, the audience and the time.
  pub record HasClaims (issuer audience payload : String) (now : ℕ) : Type 0 where
    pub claims : Claims
    pub is_parsed : parsed l l.parse_claims payload ≡ ok claims
    pub in_time : unix now ≤ℤ claims.expires_at
    pub has_issuer : claims.issuer ≡ issuer
    pub has_audience : contains claims.audience audience ≡ true
    pub has_subject : claims.subject ≢ ""

  -- The third part of a token is a signature of the first two.
  abbrev pub IsSigned : String → String → String → Key → Type 0
  IsSigned h p s key =
      (sig : List ℕ) × (l.decode s ≡ some sig)
      × (l.rsa_verify key (l.sha256 (h ++ ("." ++ p))) sig ≡ true)

  -- The token has three parts, its header asks for RS256, and it is signed with the key that the cache
  -- has under the name in the header.
  pub record IsVerified (issuer audience t : String) (now : ℕ) (c : Cache Key) : Type 0 where
    pub head : String
    pub payload : String
    pub signature : String
    pub header : JwtHeader
    pub key : CachedKey Key
    pub has_parts : split b'.' t ≡ head ∷ payload ∷ signature ∷ []
    pub has_header : parsed l l.parse_header head ≡ ok header
    pub has_alg : header.alg ≡ "RS256"
    pub has_key : lookup l header.kid c ≡ some key
    pub is_signed : IsSigned head payload signature key.key
    pub has_claims : HasClaims issuer audience payload now

  refetched_key-ok :
      (kid : String) (env : Env) (w v : World (Cache Key)) (k : CachedKey Key)
      → refetched_key l kid env w ≡ (ok k, v)
      → lookup l kid v.store ≡ some k
  unfolding refetched_key attempt get_store lift ◌>>=◌
  refetched_key-ok kid env w v k h = ground arith

  -- A key that is found is in the cache under its name, where it stays.
  get_key-ok :
      (kid : String) (env : Env) (w v : World (Cache Key)) (k : CachedKey Key)
      → get_key l kid env w ≡ (ok k, v)
      → lookup l kid v.store ≡ some k
  unfolding get_key get_store time_now pure ◌>>=◌
  get_key-ok kid env w v k h =
      let now = env.clock w.step in
      elim (Option-cases (lookup l kid w.store)) [
        | inl gone ↦ refetched_key-ok kid env (record w { step = suc w.step }) v k (ground arith)
        | inr (c, e) ↦ elim (Bool-cases (is_fresh l w.store now)) [
          | inl fresh ↦ ground arith
          | inr old ↦ refetched_key-ok kid env (record w { step = suc w.step }) v k (ground arith)
        ]
      ]

  -- The claims are checked against the last reading of the clock.
  check_claims-ok :
      (issuer audience : String) (c : Claims) (env : Env) (w v : World (Cache Key))
      → check_claims l issuer audience c env w ≡ (ok tt, v)
      → (v ≡ record w { step = suc w.step })
        × (unix (env.clock w.step) ≤ℤ c.expires_at)
        × (c.issuer ≡ issuer)
        × (contains c.audience audience ≡ true)
        × (c.subject ≢ "")
  unfolding check_claims time_now fail_if ◌>>=◌
  check_claims-ok issuer audience c env w v h =
      ground (arith, eq_iff c.issuer issuer, eq_iff c.subject "")

  check_payload-ok :
      (issuer audience p : String) (env : Env) (w v : World (Cache Key))
      → check_payload l issuer audience p env w ≡ (ok tt, v)
      → (v ≡ record w { step = suc w.step }) × HasClaims issuer audience p (env.clock w.step)
  unfolding check_payload
  check_payload-ok issuer audience p env w v h =
      let (claims, w1, e1, h1) = >>=-eq-ok (lift (parsed l l.parse_claims p)) _ env w h in
      let (e, same) = lift-ok (parsed l l.parse_claims p) claims env w w1 e1 in
      let (end, time, iss, aud, sub) =
        check_claims-ok issuer audience claims env w v
          (subst (λ u. check_claims l issuer audience claims env u ≡ (ok tt, v)) (sym same) h1) in
      (
        end,
        record {
          claims = claims;
          is_parsed = e;
          in_time = time;
          has_issuer = iss;
          has_audience = aud;
          has_subject = sub;
        },
      )

  check_signature-ok :
      (issuer audience a p s : String) (key : Key) (env : Env) (w v : World (Cache Key))
      → check_signature l issuer audience a p s key env w ≡ (ok tt, v)
      → (v ≡ record w { step = suc w.step })
        × IsSigned a p s key
        × HasClaims issuer audience p (env.clock w.step)
  unfolding check_signature
  check_signature-ok issuer audience a p s key env w v h =
      let decoded = or_error invalid_token (l.decode s) in
      let (sig, w1, e1, h1) = >>=-eq-ok (lift decoded) _ env w h in
      let signed = l.rsa_verify key (l.sha256 (a ++ ("." ++ p))) sig in
      let (x, w2, e2, h2) = >>=-eq-ok (fail_if (not signed) signature_invalid) _ env w1 h1 in
      let (e, same) = lift-ok decoded sig env w w1 e1 in
      let (f, same') = fail_if-not-ok signed signature_invalid env w1 w2 e2 in
      let (end, c) = check_payload-ok issuer audience p env w v (
        subst (λ u. check_payload l issuer audience p env u ≡ (ok tt, v)) (sym (same ∙ same'))
          h2) in
      (end, (sig, or_error-ok invalid_token (l.decode s) sig e, f), c)

  -- A token is accepted only with a signature by a key that the cache then has under the name in its
  -- header, for RS256, and with claims that are in time at the last reading of the clock and have the
  -- issuer, the audience and a subject.
  pub verify-IsVerified :
      (issuer audience t : String) (env : Env) (w v : World (Cache Key))
      → verify l issuer audience t env w ≡ (ok tt, v)
      → (n : ℕ) × (v.step ≡ suc n) × IsVerified issuer audience t (env.clock n) v.store
  unfolding verify
  verify-IsVerified issuer audience t env w v h =
      let parts = three_parts (split b'.' t) in
      let ((a, p, s), w1, e1, h1) = >>=-eq-ok (lift parts) _ env w h in
      let (header, w2, e2, h2) = >>=-eq-ok (lift (parsed l l.parse_header a)) _ env w1 h1 in
      let (x, w3, e3, h3) =
        >>=-eq-ok (fail_if (not (header.alg == "RS256")) unexpected_alg) _ env w2 h2 in
      let (alg, same) = fail_if-not-ok (header.alg == "RS256") unexpected_alg env w2 w3 e3 in
      let (key, w4, e4, h4) = >>=-eq-ok (get_key l header.kid) _ env w3 h3 in
      let (end, signed, claims) = check_signature-ok issuer audience a p s key.key env w4 v h4 in
      (
        w4.step,
        ap (λ u. u.step) end,
        record {
          head = a;
          payload = p;
          signature = s;
          header = header;
          key = key;
          has_parts = three_parts-ok (split b'.' t) a p s (lift-ok parts (a, p, s) env w w1 e1).0;
          has_header = (lift-ok (parsed l l.parse_header a) header env w1 w2 e2).0;
          has_alg = (eq_iff header.alg "RS256").0 alg;
          has_key =
              ap (λ u. lookup l header.kid u.store) end ∙ get_key-ok header.kid env w3 w4 key e4;
          is_signed = signed;
          has_claims = claims;
        },
      )
