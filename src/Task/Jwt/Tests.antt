-- ===== src/Task/Jwt/Tests.antt =====
-- A token that arrives after a rotation of the keys: the cache has the old one only.
use cc_orchestrator.Prelude.{
  ℕ, suc, ◌*◌, ◌+◌, false, if◌then◌else◌, String, ◌≡◌, refl, ◌&&◌, Bool, Option, none, some, List,
  [], ◌∷◌, ok, ◌=ℕ◌, ◌==◌,
}
use cc_orchestrator.Prelude.Int.{pos}
use cc_orchestrator.GoText.{split}
use cc_orchestrator.Action.{
  Env, World, pure, lift, attempt, fail_if, time_now, get_store, modify, ◌>>=◌,
}
use cc_orchestrator.Auth.Db.Table.{put}
use cc_orchestrator.Auth.Db.Table.View.{view}
use cc_orchestrator.Task.Jwt.{
  Libraries, Cache, JwksKey, parse_rsa_public_key, new_keys, http_get, fetch_jwks, refetched_key,
  get_key, check_claims, check_payload, check_signature, verify,
}
use cc_orchestrator.Task.Jwt.Laws.{IsVerified, verify-IsVerified}

abbrev rs256 : String → JwksKey
rs256 kid = record { kty = "RSA"; kid = kid; alg = "RS256"; n = "7"; e = "3" }

abbrev decode_digit : String → Option (List ℕ)
decode_digit s = if s == "7" then some (7 ∷ []) else some (3 ∷ [])

abbrev keep_modulus : List ℕ → List ℕ → Option ℕ
keep_modulus (n ∷ []) e = some n
keep_modulus _ e = none

abbrev is_seven : ℕ → List ℕ → List ℕ → Bool
is_seven key digest (s ∷ []) = (key =ℕ 7) && (s =ℕ 3)
is_seven key digest _ = false

abbrev libraries : Libraries ℕ
libraries = record {
  decode = decode_digit;
  parse_header = λ bytes. some (record { alg = "RS256"; kid = "new" });
  parse_claims = λ bytes. some (record {
    issuer = "auth";
    subject = "u1";
    audience = "web" ∷ "api" ∷ [];
    expires_at = pos 900;
    scope = "tasks";
  });
  sha256 = λ text. [];
  rsa_verify = is_seven;
  public_key = keep_modulus;
  get_jwks = λ n. some (
    200,
    some (record { kty = "EC"; kid = "new"; alg = "ES256"; n = ""; e = "" } ∷ rs256 "new" ∷ []),
  );
}

abbrev surroundings : Env
surroundings = record {
  clock = λ n. 62_135_596_800 * 1_000_000 + n;
  entropy = λ n size. none;
  outage = λ n. false;
}

abbrev rotated : World (Cache ℕ)
rotated = record {
  step = 0;
  store = record {
    keys = record { kid = "old"; key = 5 } ∷ [];
    fetched_at = 62_135_596_800 * 1_000_000;
  };
}

abbrev fetched : World (Cache ℕ)
fetched = record {
  step = 4;
  store = record {
    keys = record { kid = "new"; key = 7 } ∷ [];
    fetched_at = 62_135_596_800 * 1_000_000 + 2;
  };
}

verified : verify libraries "auth" "api" "a.b.c" surroundings rotated ≡ (ok tt, fetched)
unfolding verify check_signature check_payload check_claims get_key refetched_key fetch_jwks
    http_get new_keys parse_rsa_public_key view put split pure lift attempt fail_if time_now
    get_store modify ◌>>=◌
verified = refl

verify-IsVerified_example :
    (n : ℕ) × (4 ≡ suc n)
    × IsVerified libraries "auth" "api" "a.b.c" (surroundings.clock n) fetched.store
verify-IsVerified_example =
    verify-IsVerified libraries "auth" "api" "a.b.c" surroundings rotated fetched verified
