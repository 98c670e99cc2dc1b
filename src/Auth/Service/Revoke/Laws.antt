-- ===== src/Auth/Service/Revoke/Laws.antt =====
-- What a revocation changes.
use cc_orchestrator.Prelude.{
  String, ◌≡◌, true, false, ok, arith, ◌==◌, inl, inr, some, none, suc, ℕ, Bool-cases, Option-cases,
  ◌≢◌, ◌⊎◌, eq_iff,
}
use cc_orchestrator.Action.{Env, World, pure, lift, attempt, statement, ◌>>=◌}
use cc_orchestrator.Auth.Platform.{Platform}
use cc_orchestrator.Auth.Client.{
  Client, parse_client_id, is_confidential, verify_secret, verify_hash,
}
use cc_orchestrator.Auth.RefreshToken.{RefreshToken, hash_token, matches_client}
use cc_orchestrator.Auth.Db.{Db, RefreshTokenRow}
use cc_orchestrator.Auth.Db.Table.{delete}
use cc_orchestrator.Auth.Directory.{find_client}
use cc_orchestrator.Auth.Directory.Reads.{find_client_reads}
use cc_orchestrator.Auth.RefreshTokens.{
  reconstruct_refresh_token, find_by_token_hash, found_or_evict, revoke_family,
}
use cc_orchestrator.Auth.RefreshTokens.Laws.{token_row, UniqueHashes, get-view}
use cc_orchestrator.Auth.RefreshTokens.Statements.{is_live, revoke_family_refresh_tokens}
use cc_orchestrator.Auth.Service.Revoke.{
  RevokeRequest, may_revoke, revoke_if_allowed, revoke_for_client, revoke_found, revoke,
}

find-live :
    (hash : String) (env : Env) (w : World Db) (row : RefreshTokenRow) (rt : RefreshToken)
    → UniqueHashes w.store
    → env.outage w.step ≡ false
    → token_row w.store hash ≡ some row
    → is_live (env.clock w.step) row ≡ true
    → reconstruct_refresh_token row ≡ ok rt
    → find_by_token_hash hash env w ≡ (ok rt, record { step = suc w.step; store = w.store })
unfolding find_by_token_hash found_or_evict statement ◌>>=◌ lift
find-live hash env w row rt u up at live restored =
    let got = get-view hash (env.clock w.step) w.store u in ground arith

revoke_family-up :
    (family : String) (env : Env) (w : World Db)
    → env.outage w.step ≡ false
    → revoke_family family env w ≡ (
      ok tt,
      record {
        step = suc w.step;
        store = record w.store {
          refresh_tokens = delete (λ r. r.family_id == family) w.store.refresh_tokens;
        };
      },
    )
unfolding revoke_family revoke_family_refresh_tokens statement
revoke_family-up family env w up = ground arith

-- Who may revoke: without a secret, a client that names no client_id or that of the token; with a
-- secret, only the client that names the token's client_id and presents a secret that fits the hash.
abbrev pub IsAllowed : Platform → RevokeRequest → RefreshToken → Client → Type 0
IsAllowed p req rt c =
    ((c.secret_hash ≡ none) × ((req.client_id ≡ "") ⊎ (req.client_id ≡ rt.client_id)))
    ⊎ ((hash : String) × (c.secret_hash ≡ some hash)
        × (req.client_id ≡ rt.client_id)
        × (req.client_secret ≢ "")
        × (p.bcrypt_matches hash req.client_secret ≡ true))

module _ (p : Platform) (req : RevokeRequest) (rt : RefreshToken) (id : String) (c : Client)
    (parsed : parse_client_id rt.client_id ≡ ok id) where
  parsed_id : (rt.client_id ≡ id) × (id ≢ "")
  unfolding parse_client_id
  parsed_id = (ground arith, ground (arith, eq_iff rt.client_id ""))

  may_revoke-IsAllowed : may_revoke p req rt id c ≡ true → IsAllowed p req rt c
  unfolding may_revoke is_confidential parse_client_id matches_client verify_secret verify_hash
  may_revoke-IsAllowed h = elim (Option-cases c.secret_hash) [
    | inl public ↦ inl (
      public,
      elim (Bool-cases (req.client_id == "")) [
        | inl none_given ↦ inl ((eq_iff req.client_id "").0 none_given)
        | inr given ↦ inr (ground (arith, eq_iff rt.client_id req.client_id))
      ],
    )
    | inr (hash, stored) ↦ inr (
      hash,
      stored,
      (ground (arith, eq_iff req.client_id id, parsed_id)),
      ground (arith, eq_iff req.client_secret ""),
      ground arith,
    )
  ]

  IsAllowed-may_revoke : IsAllowed p req rt c → may_revoke p req rt id c ≡ true
  unfolding may_revoke is_confidential parse_client_id matches_client verify_secret verify_hash
  IsAllowed-may_revoke (inl (public, inl none_given)) =
      ground (arith, eq_iff req.client_id "", public)
  IsAllowed-may_revoke (inl (public, inr same)) =
      ground (arith, eq_iff req.client_id "", eq_iff rt.client_id req.client_id)
  IsAllowed-may_revoke (inr (hash, stored, same, given, valid)) =
      let (at, filled) = parsed_id in
      let secret = eq_iff req.client_secret "" in
      let named = eq_iff req.client_id "" in let matched = eq_iff req.client_id id in ground arith

-- A well-formed live token, in a table with unique hashes, whose client is found, where the database
-- answers: the revocation succeeds, and deletes the token's family where the client `IsAllowed` to
-- revoke it, by its secret or as a public client, and changes nothing where it is not.
pub revoke_live :
    (p : Platform) (req : RevokeRequest) (env : Env) (w w' : World Db) (row : RefreshTokenRow)
    (rt : RefreshToken) (id : String) (c : Client)
    → UniqueHashes w.store
    → ((i : ℕ) → env.outage i ≡ false)
    → (req.token == "") ≡ false
    → token_row w.store (hash_token p req.token) ≡ some row
    → is_live (env.clock w.step) row ≡ true
    → reconstruct_refresh_token row ≡ ok rt
    → parse_client_id rt.client_id ≡ ok id
    → find_client p id env (record { step = suc w.step; store = w.store }) ≡ (ok c, w')
    → ((revoke p req env w).0 ≡ ok tt)
      × ((IsAllowed p req rt c
            × ((revoke p req env w).1.store ≡ record w.store {
              refresh_tokens = delete (λ r. r.family_id == rt.family_id) w.store.refresh_tokens;
            }))
          ⊎ ((¬ IsAllowed p req rt c) × ((revoke p req env w).1.store ≡ w.store)))
unfolding revoke attempt revoke_found revoke_for_client revoke_if_allowed ◌>>=◌ pure
revoke_live p req env w w' row rt id c u up given at live restored parsed client =
    let found = find-live (hash_token p req.token) env w row rt u (up w.step) at live restored in
    let same =
      find_client_reads id env (record { step = suc w.step; store = w.store }) w' p client in
    let revoked = revoke_family-up rt.family_id env w' (up w'.step) in
    elim (Bool-cases (may_revoke p req rt id c)) [
      | inl may ↦ (
        rw (given, found, parsed, client, may, revoked),
        inl (
          may_revoke-IsAllowed p req rt id c parsed may,
          rw (given, found, parsed, client, may, revoked, same),
        ),
      )
      | inr no_right ↦ (
        rw (given, found, parsed, client, no_right),
        inr (
          λ allowed.
              let may = IsAllowed-may_revoke p req rt id c parsed allowed in absurd (ground arith),
          rw (given, found, parsed, client, no_right, same),
        ),
      )
    ]
