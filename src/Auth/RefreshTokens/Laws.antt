-- ===== src/Auth/RefreshTokens/Laws.antt =====
-- What `Rotate` of the refresh token repository answers and writes.
use cc_orchestrator.Prelude.{
  String, ◌≡◌, true, ◌&&◌, none, some, Option, Result, ok, err, arith, if◌then◌else◌, Option-cases,
  inl, inr, ◌∙◌, suc, ℕ, false, refl, List,
}
use cc_orchestrator.Action.{Time, Env, World, transaction, close, statement, ◌>>=◌}
use cc_orchestrator.Auth.Errors.{Err, refresh_token, RefreshTokenError}
use cc_orchestrator.Auth.RefreshToken.{RefreshToken}
use cc_orchestrator.Auth.Db.{RefreshTokenRow, Db}
use cc_orchestrator.Auth.Db.Table.{Unique, has_key, has_key-update, update, update-none, insert}
use cc_orchestrator.Auth.Db.Table.View.{view, has_key-none, when, select-key}
use cc_orchestrator.Auth.RefreshTokens.Statements.{
  hash_of, is_live, is_fresh, has_hash, mark_consumed, insert_refresh_token, get_refresh_token,
  consume_refresh_token,
}
use cc_orchestrator.Auth.RefreshTokens.{
  insert_refresh_token_params, reused_or_not_found, replace_consumed, rotate_tx, rotate,
}

-- The row stored under a token hash.
abbrev pub token_row : Db → String → Option RefreshTokenRow
token_row db hash = view hash_of db.refresh_tokens hash

-- Token hashes are the table's primary key.
abbrev pub UniqueHashes : Db → Type 0
UniqueHashes db = Unique hash_of db.refresh_tokens

-- The tables with the fresh row under the hash consumed.
abbrev pub marked : String → Time → Db → Db
marked hash now db = record db {
  refresh_tokens = update (λ r. has_hash hash r && is_fresh now r) mark_consumed db.refresh_tokens;
}

marked-has_key :
    (hash : String) (now : Time) (db : Db) (j : String)
    → token_row db j ≡ none
    → has_key hash_of j (marked hash now db).refresh_tokens ≡ false
marked-has_key hash now db j free =
    has_key-update hash_of (λ r. has_hash hash r && is_fresh now r) mark_consumed j
      db.refresh_tokens (λ r. refl)
    ∙ has_key-none hash_of j db.refresh_tokens free

module _ (hash : String) (now : Time) (db : Db) (u : UniqueHashes db) where
  pub get-view : get_refresh_token hash now db ≡ (ok (when (is_live now) (token_row db hash)), db)
  unfolding get_refresh_token
  get-view = rw (select-key hash_of (is_live now) hash db.refresh_tokens u)

  consume-none :
      when (is_fresh now) (token_row db hash) ≡ none
      → consume_refresh_token hash now db ≡ (ok none, db)
  unfolding consume_refresh_token
  consume-none h =
      let s = select-key hash_of (is_fresh now) hash db.refresh_tokens u ∙ h in
      rw (s, update-none (λ r. has_hash hash r && is_fresh now r) mark_consumed db.refresh_tokens s)

  consume-some :
      (r : RefreshTokenRow)
      → when (is_fresh now) (token_row db hash) ≡ some r
      → consume_refresh_token hash now db ≡ (ok (some r.token_hash), marked hash now db)
  unfolding consume_refresh_token
  consume-some r h = rw (select-key hash_of (is_fresh now) hash db.refresh_tokens u, h)

-- The answer that the precedence rules give for the row under the old hash.
abbrev pub verdict : Time → Option RefreshTokenRow → Result Err (Unit {0})
verdict now none = err (refresh_token RefreshTokenError.not_found)
verdict now (some r) =
    if is_live now r
    then (if r.consumed then err (refresh_token RefreshTokenError.reused) else ok tt)
    else err (refresh_token RefreshTokenError.not_found)

module _ (old_hash : String) (new_rt : RefreshToken) (env : Env) (w : World Db) where
  -- A rotation that returns an error, whichever, leaves every row as it was.
  pub rotate_error_unchanged :
      {e : Err} {w' : World Db} → rotate old_hash new_rt env w ≡ (err e, w') → w'.store ≡ w.store
  unfolding rotate transaction close
  rotate_error_unchanged h = ground arith

  module _ (u : UniqueHashes w.store) where
    -- In a table with unique hashes, reuse is reported only for a live row that was consumed before.
    rotate-reused :
        {w' : World Db}
        → rotate old_hash new_rt env w ≡ (err (refresh_token RefreshTokenError.reused), w')
        → (r : RefreshTokenRow) × (token_row w.store old_hash ≡ some r)
          × (is_live (env.clock w.step) r ≡ true)
          × (r.consumed ≡ true)
    unfolding rotate transaction close rotate_tx replace_consumed reused_or_not_found statement
        ◌>>=◌ insert_refresh_token
    rotate-reused h = elim (Option-cases (when (is_fresh now) (token_row w.store old_hash))) [
      | inl old ↦
          ground (arith, consume-none old_hash now w.store u old, get-view old_hash now w.store u)
      | inr (r, fresh) ↦ ground (arith, consume-some old_hash now w.store u r fresh)
    ]
      where
        now : Time
        now = env.clock w.step

    -- In a table with unique hashes, where the database answers and the new hash is not taken, the
    -- answer is the `verdict` on the row under the old hash: not found when there is no live row, reused
    -- when it was consumed, no error otherwise.
    pub rotate-verdict :
        ((i : ℕ) → env.outage i ≡ false)
        → token_row w.store new_rt.token_hash ≡ none
        → (rotate old_hash new_rt env w).0 ≡ verdict (env.clock w.step) (token_row w.store old_hash)
    unfolding rotate transaction close rotate_tx replace_consumed reused_or_not_found statement
        ◌>>=◌ insert_refresh_token insert_refresh_token_params insert
    rotate-verdict up free =
        elim (Option-cases (when (is_fresh now) (token_row w.store old_hash))) [
          | inl old ↦ ground (
            arith,
            up w.step,
            up (suc w.step),
            up (suc (suc w.step)),
            up (suc (suc (suc w.step))),
            consume-none old_hash now w.store u old,
            get-view old_hash now w.store u,
          )
          | inr (r, fresh) ↦ ground (
            arith,
            up w.step,
            up (suc w.step),
            up (suc (suc w.step)),
            up (suc (suc (suc w.step))),
            consume-some old_hash now w.store u r fresh,
            marked-has_key old_hash now w.store new_rt.token_hash free,
          )
        ]
      where
        now : Time
        now = env.clock w.step

    -- A rotation that succeeds has consumed the fresh row under the old hash and has added the new
    -- token, in one step.
    pub rotate-ok_rows :
        {w' : World Db}
        → rotate old_hash new_rt env w ≡ (ok tt, w')
        → (r : RefreshTokenRow) × (token_row w.store old_hash ≡ some r)
          × (is_fresh (env.clock w.step) r ≡ true)
          × (rows : List RefreshTokenRow) × (insert hash_of
                (insert_refresh_token_params new_rt)
                (marked old_hash (env.clock w.step) w.store).refresh_tokens
              ≡ some rows)
          × (w'.store ≡ record w.store { refresh_tokens = rows })
    unfolding rotate transaction close rotate_tx replace_consumed reused_or_not_found statement
        ◌>>=◌ insert_refresh_token
    rotate-ok_rows {w'} h = elim (Option-cases (when (is_fresh now) (token_row w.store old_hash))) [
      | inl old ↦
          ground (arith, consume-none old_hash now w.store u old, get-view old_hash now w.store u)
      | inr (r, fresh) ↦ (
        r,
        ground arith,
        ground arith,
        w'.store.refresh_tokens,
        ground (arith, consume-some old_hash now w.store u r fresh),
        ground (arith, consume-some old_hash now w.store u r fresh),
      )
    ]
      where
        now : Time
        now = env.clock w.step
