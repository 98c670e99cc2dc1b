-- ===== src/Auth/Service/RefreshGrant/Laws.antt =====
-- What a refresh establishes, and what the reuse of a rotated token leads to.
use cc_orchestrator.Prelude.{
  ℕ, suc, String, ◌≡◌, refl, Bool, true, false, not, some, ok, err, arith, ◌==◌, Option-cases, inl,
  inr, all, List, [], ◌∷◌,
}
use cc_orchestrator.Action.{Env, World, raise, lift, fail_if, time_now, statement, on_error, ◌>>=◌}
use cc_orchestrator.Auth.Errors.{Err, refresh_token, RefreshTokenError}
use cc_orchestrator.Auth.Client.{Client}
use cc_orchestrator.Auth.RefreshToken.{RefreshToken, hash_token, parse_token_hash, parse_family_id}
use cc_orchestrator.Auth.Db.{Db, RefreshTokenRow}
use cc_orchestrator.Auth.Db.Table.{delete}
use cc_orchestrator.Auth.Db.Table.View.{when}
use cc_orchestrator.Auth.RefreshTokens.Statements.{is_live, revoke_family_refresh_tokens}
use cc_orchestrator.Auth.RefreshTokens.Laws.{token_row, UniqueHashes, get-view}
use cc_orchestrator.Auth.RefreshTokens.{
  reconstruct_refresh_token, find_by_token_hash, found_or_evict, revoke_family,
}
use cc_orchestrator.Auth.Service.Dto.{
  AuthorizationService, TokenRequest, TokenResponse, grant_type_refresh_token,
}
use cc_orchestrator.Auth.Service.CodeGrant.{authenticated_client}
use cc_orchestrator.Auth.Service.CodeGrant.Authenticated.{authenticated_client-ok}
use cc_orchestrator.Auth.Service.RefreshGrant.{
  padded_lookup, pad_and_fail, revoke_and_fail, detect_reuse, refresh_token_grant,
}

-- No token of the family is left.
abbrev pub no_family : String → Db → Bool
no_family family db = all (λ r. not (r.family_id == family)) db.refresh_tokens

none_left :
    (family : String) (rows : List RefreshTokenRow)
    → all (λ r. not (r.family_id == family)) (delete (λ r. r.family_id == family) rows) ≡ true
none_left family [] = refl
none_left family (r ∷ rs) = ground (arith, none_left family rs)

pub restored_family :
    (row : RefreshTokenRow) (rt : RefreshToken)
    → reconstruct_refresh_token row ≡ ok rt
    → (rt.family_id ≡ row.family_id) × (rt.consumed ≡ row.consumed) × (rt.client_id ≡ row.client_id)
unfolding reconstruct_refresh_token parse_token_hash parse_family_id
restored_family row rt h = (ground arith, ground arith, ground arith)

-- A successful lookup finds the live row under the hash.
pub padded_lookup-ok :
    (hash : String) (env : Env) (w w' : World Db) (rt : RefreshToken)
    → UniqueHashes w.store
    → padded_lookup hash env w ≡ (ok rt, w')
    → (row : RefreshTokenRow) × (token_row w.store hash ≡ some row)
      × (is_live (env.clock (suc w.step)) row ≡ true)
      × (reconstruct_refresh_token row ≡ ok rt)
      × (w'.store ≡ w.store)
unfolding padded_lookup pad_and_fail time_now on_error find_by_token_hash found_or_evict statement
    ◌>>=◌ raise
padded_lookup-ok hash env w w' rt u h =
    let got = get-view hash (env.clock (suc w.step)) w.store u in
    elim (Option-cases (when (is_live (env.clock (suc w.step))) (token_row w.store hash))) [
      | inl gone ↦ absurd (ground arith)
      | inr (row, e) ↦ (row, ground arith, ground arith, ground arith, ground arith)
    ]

padded_lookup-live :
    (hash : String) (env : Env) (w : World Db) (row : RefreshTokenRow) (rt : RefreshToken)
    → UniqueHashes w.store
    → env.outage (suc w.step) ≡ false
    → token_row w.store hash ≡ some row
    → is_live (env.clock (suc w.step)) row ≡ true
    → reconstruct_refresh_token row ≡ ok rt
    → padded_lookup hash env w ≡ (ok rt, record { step = suc (suc w.step); store = w.store })
unfolding padded_lookup time_now on_error find_by_token_hash found_or_evict statement ◌>>=◌ lift
padded_lookup-live hash env w row rt u up at live restored =
    let got = get-view hash (env.clock (suc w.step)) w.store u in ground arith

revoke_and_fail-up :
    (family : String) (e : Err) (env : Env) (w : World Db)
    → env.outage w.step ≡ false
    → revoke_and_fail {A = TokenResponse} family e env w ≡ (
      err e,
      record {
        step = suc w.step;
        store = record w.store {
          refresh_tokens = delete (λ r. r.family_id == family) w.store.refresh_tokens;
        };
      },
    )
unfolding revoke_and_fail revoke_family revoke_family_refresh_tokens statement ◌>>=◌ raise
revoke_and_fail-up family e env w up = ground arith

module _ (s : AuthorizationService) (req : TokenRequest) (env : Env) (w : World Db) where
  -- A well-formed token that was rotated before, in a table with unique hashes: the answer is the reuse
  -- error, exactly the rows of its family are deleted, and none is left, where the database answers,
  -- the client authenticates and the row stays live during the request.
  pub reuse_deletes_family :
      (w1 : World Db) (c : Client) (row : RefreshTokenRow) (rt : RefreshToken)
      → UniqueHashes w.store
      → ((i : ℕ) → env.outage i ≡ false)
      → ((i : ℕ) → is_live (env.clock i) row ≡ true)
      → (req.refresh_token == "") ≡ false
      → authenticated_client s req grant_type_refresh_token env w ≡ (ok c, w1)
      → token_row w.store (hash_token s.platform req.refresh_token) ≡ some row
      → reconstruct_refresh_token row ≡ ok rt
      → row.consumed ≡ true
      → ((refresh_token_grant s req env w).0 ≡ err (refresh_token RefreshTokenError.reused))
        × ((refresh_token_grant s req env w).1.store ≡ record w.store {
          refresh_tokens = delete (λ r. r.family_id == row.family_id) w.store.refresh_tokens;
        })
        × (no_family row.family_id (refresh_token_grant s req env w).1.store ≡ true)
  unfolding refresh_token_grant detect_reuse fail_if ◌>>=◌
  reuse_deletes_family w1 c row rt u up live given auth at restored consumed =
      let (may, authenticated, same) =
        authenticated_client-ok s req grant_type_refresh_token env w w1 auth in
      let u1 : UniqueHashes w1.store = rw same u in
      let hash = hash_token s.platform req.refresh_token in
      let at1 : token_row w1.store hash ≡ some row = rw same at in
      let found =
        padded_lookup-live hash env w1 row rt u1 (up (suc w1.step)) at1 (live (suc w1.step))
          restored in
      let (family, flag, client) = restored_family row rt restored in
      let revoked =
        revoke_and_fail-up rt.family_id (refresh_token RefreshTokenError.reused) env
          (record { step = suc (suc w1.step); store = w1.store }) (up (suc (suc w1.step))) in
      let left = none_left row.family_id w.store.refresh_tokens in
      (
        rw (given, auth, found, flag, consumed, revoked),
        rw (given, auth, found, flag, consumed, revoked, family, same),
        rw (given, auth, found, flag, consumed, revoked, family, same) left,
      )
