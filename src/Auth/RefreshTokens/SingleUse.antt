-- ===== src/Auth/RefreshTokens/SingleUse.antt =====
-- Single use: whatever calls run on the table, in whatever order they interleave, a refresh token is
-- rotated at most once.
use mathlib.Core.Path.{subst}
use cc_orchestrator.Prelude.{
  ℕ, sym, suc, ◌≤◌, String, ◌≡◌, ◌≢◌, refl, Bool, true, false, not, ◌&&◌, none, List, [], ◌∷◌,
  Result, ok, err, is_ok, All, arith, ◌==◌, eq_iff, if◌then◌else◌, inl, inr, Bool-cases,
  Option-cases,
}
use cc_orchestrator.Action.{Time, Env, World, statement}
use cc_orchestrator.Action.Keeps.{statement_lem}
use cc_orchestrator.Auth.Errors.{Err, database}
use cc_orchestrator.Auth.RefreshToken.{RefreshToken}
use cc_orchestrator.Auth.Db.{RefreshTokenRow, Db}
use cc_orchestrator.Auth.Db.Table.{delete, Unique-keep, Unique-insert, insert, insert-eq-some}
use cc_orchestrator.Auth.Db.Table.View.{when, view-delete, view-append}
use cc_orchestrator.Auth.RefreshTokens.Statements.{
  hash_of, inserted, delete_expired_refresh_token, purge_expired_refresh_tokens,
  revoke_family_refresh_tokens, insert_refresh_token, get_refresh_token,
}
use cc_orchestrator.Auth.RefreshTokens.{
  save, rotate, purge_expired, revoke_family, insert_refresh_token_params,
}
use cc_orchestrator.Auth.RefreshTokens.Laws.{token_row, UniqueHashes, rotate_error_unchanged}
use cc_orchestrator.Auth.RefreshTokens.Rotation.{IsRotation, rotate-IsRotation}

-- The atomic calls on the table. `get` and `evict` are the two statements of `FindByTokenHash`,
-- between which other calls may run.
pub data Call : Type 0 where
  save_token : RefreshToken → Call
  get evict : String → Call
  rotate_token : String → RefreshToken → Call
  purge : Call
  revoke : String → Call

-- Forgets what a call returns, but for its error.
abbrev forget : {A : Type 0} → Result Err A × World Db → Bool × World Db
forget (r, w) = (is_ok r, w)

unfoldable pub perform : Call → Env → World Db → Bool × World Db
perform (save_token rt) env w = forget (save rt env w)
perform (get hash) env w = forget (statement database (get_refresh_token hash) env w)
perform (evict hash) env w = forget (statement database (delete_expired_refresh_token hash) env w)
perform (rotate_token old new_rt) env w = forget (rotate old new_rt env w)
perform purge env w = forget (purge_expired env w)
perform (revoke family) env w = forget (revoke_family family env w)

-- Whether a call is a rotation of the token with this hash.
abbrev rotates : String → Call → Bool
rotates hash (rotate_token old _) = old == hash
rotates hash _ = false

-- The number of successful rotations of the token, over a run of the calls.
unfoldable pub rotations : String → List Call → Env → World Db → ℕ
rotations hash [] env w = 0
rotations hash (c ∷ cs) env w =
    let (done, w') = perform c env w in
    let rest = rotations hash cs env w' in if rotates hash c && done then suc rest else rest

-- No call stores a token under the hash (a hash collision).
abbrev pub StoresOther : String → Call → Type 0
StoresOther hash (save_token rt) = rt.token_hash ≢ hash
StoresOther hash (rotate_token _ rt) = rt.token_hash ≢ hash
StoresOther hash _ = Unit

-- The token can not be rotated any more: its row is consumed, or gone.
abbrev IsSpent : String → Db → Type 0
IsSpent hash db = when (λ r. not r.consumed) (token_row db hash) ≡ none

-- What the calls keep: unique hashes, and that the token is spent.
record Inv (hash : String) (db : Db) : Type 0 where
  unique : UniqueHashes db
  spent : IsSpent hash db

abbrev with_rows : Db → List RefreshTokenRow → Db
with_rows db rows = record db { refresh_tokens = rows }

module _ (hash : String) where
  delete-Inv :
      (d : RefreshTokenRow → Bool) (db : Db)
      → Inv hash db
      → Inv hash (with_rows db (delete d db.refresh_tokens))
  delete-Inv d db h = record {
    unique = Unique-keep hash_of (λ r. not (d r)) db.refresh_tokens h.unique;
    spent =
        rw (view-delete hash_of d hash db.refresh_tokens h.unique)
          (let s = h.spent in ground arith);
  }

  insert-Inv :
      (row : RefreshTokenRow) (now : Time) (db : Db)
      → row.token_hash ≢ hash
      → Inv hash db
      → Inv hash (insert_refresh_token row now db).1
  unfolding insert_refresh_token
  insert-Inv row now db other h = elim (Option-cases (insert hash_of row db.refresh_tokens)) [
    | inl taken ↦ rw taken h
    | inr (rows, e) ↦ rw e (
        let (free, added) = insert-eq-some hash_of row db.refresh_tokens rows e in
        record {
          unique = Unique-insert hash_of row db.refresh_tokens rows h.unique e;
          spent =
              rw (← added, view-append hash_of db.refresh_tokens row hash free)
                (let s = h.spent in ground (arith, eq_iff row.token_hash hash));
        })
  ]

  IsRotation-Inv :
      {old : String} {rt : RefreshToken} {now : Time} {db db' : Db}
      → rt.token_hash ≢ hash
      → IsSpent hash db
      → IsRotation old rt now db db'
      → Inv hash db'
  IsRotation-Inv {old = old} {rt = rt} other spent h = record {
    unique = h.unique;
    spent = rw (h.rows_after hash) (ground (arith, eq_iff rt.token_hash hash));
  }

  rotate-Inv :
      (old : String) (rt : RefreshToken) (env : Env) (w : World Db)
      → rt.token_hash ≢ hash
      → Inv hash w.store
      → Inv hash (rotate old rt env w).1.store
  rotate-Inv old rt env w other h = go (rotate old rt env w).0 (rotate old rt env w).1 refl
    where
      go :
          (r : Result Err (Unit {0})) (w' : World Db)
          → rotate old rt env w ≡ (r, w')
          → Inv hash w'.store
      go (ok tt) w' e = IsRotation-Inv other h.spent (rotate-IsRotation old rt env w w' h.unique e)
      go (err x) w' e = subst (Inv hash) (sym (rotate_error_unchanged old rt env w e)) h

  perform-Inv :
      (c : Call) (env : Env) (w : World Db)
      → StoresOther hash c
      → Inv hash w.store
      → Inv hash (perform c env w).1.store
  unfolding perform save purge_expired revoke_family insert_refresh_token_params get_refresh_token
      delete_expired_refresh_token purge_expired_refresh_tokens revoke_family_refresh_tokens
  perform-Inv (save_token rt) env w o h =
      statement_lem database (Inv hash) _ env w
        (λ now. insert-Inv (insert_refresh_token_params rt) now w.store o h) h
  perform-Inv (get j) env w o h = statement_lem database (Inv hash) _ env w (λ now. h) h
  perform-Inv (evict j) env w o h =
      statement_lem database (Inv hash) _ env w (λ now. delete-Inv _ w.store h) h
  perform-Inv (rotate_token old rt) env w o h = rotate-Inv old rt env w o h
  perform-Inv purge env w o h =
      statement_lem database (Inv hash) _ env w (λ now. delete-Inv _ w.store h) h
  perform-Inv (revoke f) env w o h =
      statement_lem database (Inv hash) _ env w (λ now. delete-Inv _ w.store h) h

inserted-UniqueHashes :
    (row : RefreshTokenRow) (db : Db)
    → UniqueHashes db
    → UniqueHashes (inserted (insert hash_of row db.refresh_tokens) db).1
inserted-UniqueHashes row db u = elim (Option-cases (insert hash_of row db.refresh_tokens)) [
  | inl taken ↦ rw taken u
  | inr (rows, e) ↦ rw e (Unique-insert hash_of row db.refresh_tokens rows u e)
]

-- Every call keeps the primary key.
perform-UniqueHashes :
    (c : Call) (env : Env) (w : World Db)
    → UniqueHashes w.store
    → UniqueHashes (perform c env w).1.store
unfolding perform save purge_expired revoke_family insert_refresh_token get_refresh_token
    delete_expired_refresh_token purge_expired_refresh_tokens revoke_family_refresh_tokens
perform-UniqueHashes (save_token rt) env w u =
    statement_lem database UniqueHashes _ env w
      (λ now. inserted-UniqueHashes (insert_refresh_token_params rt) w.store u) u
perform-UniqueHashes (get j) env w u = statement_lem database UniqueHashes _ env w (λ now. u) u
perform-UniqueHashes (rotate_token old rt) env w u =
    go (rotate old rt env w).0 (rotate old rt env w).1 refl
  where
    go :
        (r : Result Err (Unit {0})) (w' : World Db)
        → rotate old rt env w ≡ (r, w')
        → UniqueHashes w'.store
    go (ok tt) w' e = (rotate-IsRotation old rt env w w' u e).unique
    go (err x) w' e = subst UniqueHashes (sym (rotate_error_unchanged old rt env w e)) u
perform-UniqueHashes _ env w u =
    statement_lem database UniqueHashes _ env w
      (λ now. Unique-keep hash_of _ w.store.refresh_tokens u) u

module _ (hash : String) where
  rotation_fresh :
      (rt : RefreshToken) (env : Env) (w : World Db)
      → UniqueHashes w.store
      → IsSpent hash w.store
      → is_ok (rotate hash rt env w).0 ≡ false
  rotation_fresh rt env w u spent = go (rotate hash rt env w).0 (rotate hash rt env w).1 refl
    where
      go :
          (r : Result Err (Unit {0})) (w' : World Db)
          → rotate hash rt env w ≡ (r, w')
          → is_ok r ≡ false
      go (err x) w' e = refl
      go (ok tt) w' e =
          let did = rotate-IsRotation hash rt env w w' u e in
          let at_old = did.at_old in let fresh = did.fresh in ground arith

  -- A call that rotates a spent token fails.
  spent_stays :
      (c : Call) (env : Env) (w : World Db)
      → Inv hash w.store
      → (rotates hash c && (perform c env w).0) ≡ false
  unfolding perform
  spent_stays (rotate_token old rt) env w h =
      ground (arith, eq_iff old hash, rotation_fresh rt env w h.unique h.spent)
  spent_stays (purge) env w h = refl
  spent_stays _ env w h = refl

  no_rotations :
      (calls : List Call) (env : Env) (w : World Db)
      → Inv hash w.store
      → All (StoresOther hash) calls
      → rotations hash calls env w ≡ 0
  unfolding rotations
  no_rotations [] env w h o = refl
  no_rotations (c ∷ cs) env w h o = ground (
    arith,
    spent_stays c env w h,
    no_rotations cs env (perform c env w).1 (perform-Inv hash c env w o.0 h) o.1,
  )

  rotated_spends :
      (old : String) (rt : RefreshToken) (env : Env) (w : World Db)
      → UniqueHashes w.store
      → rt.token_hash ≢ hash
      → (old == hash) ≡ true
      → is_ok (rotate old rt env w).0 ≡ true
      → Inv hash (rotate old rt env w).1.store
  rotated_spends old rt env w u o same = go (rotate old rt env w).0 (rotate old rt env w).1 refl
    where
      go :
          (r : Result Err (Unit {0})) (w' : World Db)
          → rotate old rt env w ≡ (r, w')
          → is_ok r ≡ true
          → Inv hash w'.store
      go (err x) w' e h = cc
      go (ok tt) w' e h =
          let did = rotate-IsRotation old rt env w w' u e in
          record {
            unique = did.unique;
            spent = rw (did.rows_after hash) (ground (arith, eq_iff rt.token_hash hash));
          }

  first_rotation :
      (c : Call) (env : Env) (w : World Db)
      → UniqueHashes w.store
      → StoresOther hash c
      → (rotates hash c && (perform c env w).0) ≡ true
      → Inv hash (perform c env w).1.store
  unfolding perform
  first_rotation (rotate_token old rt) env w u o h =
      rotated_spends old rt env w u o (ground arith) (ground arith)
  first_rotation purge env w u o h = cc
  first_rotation _ env w u o h = cc

  -- From a table with unique hashes, over any sequence of calls, by any number of clients, in any order,
  -- the token under a hash is rotated at most once, unless a call stores a token under the same hash.
  pub rotated_at_most_once :
      (calls : List Call) (env : Env) (w : World Db)
      → UniqueHashes w.store
      → All (StoresOther hash) calls
      → rotations hash calls env w ≤ 1
  unfolding rotations
  rotated_at_most_once [] env w u o = omega arith
  rotated_at_most_once (c ∷ cs) env w u o =
      let w' = (perform c env w).1 in
      elim (Bool-cases (rotates hash c && (perform c env w).0)) [
        | inl won ↦
            rw won (omega (arith, no_rotations cs env w' (first_rotation c env w u o.0 won) o.1))
        | inr lost ↦ rw lost (rotated_at_most_once cs env w' (perform-UniqueHashes c env w u) o.1)
      ]
