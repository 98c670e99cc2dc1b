-- ===== src/Auth/RefreshTokens/Rotation.antt =====
-- A successful `Rotate`, as an operation on the map from hashes to rows.
use mathlib.Core.Path.{subst}
use cc_orchestrator.Prelude.{
  String, ◌≡◌, refl, sym, ap, ◌∙◌, true, ◌&&◌, some, ok, arith, ◌==◌, eq_iff, if◌then◌else◌,
}
use cc_orchestrator.Action.{Time, Env, World}
use cc_orchestrator.Auth.RefreshToken.{RefreshToken}
use cc_orchestrator.Auth.Db.{RefreshTokenRow, Db}
use cc_orchestrator.Auth.Db.Table.{Unique, insert-eq-some, Unique-insert, Unique-update}
use cc_orchestrator.Auth.Db.Table.View.{view, view-update, view-append}
use cc_orchestrator.Auth.RefreshTokens.Statements.{hash_of, is_fresh, has_hash, mark_consumed}
use cc_orchestrator.Auth.RefreshTokens.{insert_refresh_token_params, rotate}
use cc_orchestrator.Auth.RefreshTokens.Laws.{token_row, UniqueHashes, marked, rotate-ok_rows}

-- What a rotation does: the row under the old hash was live and not consumed; afterwards it is
-- consumed, the new token stands under its hash, and nothing else has changed.
pub record IsRotation (old_hash : String) (new_rt : RefreshToken) (now : Time) (db db' : Db)
    : Type 0 where
  pub row : RefreshTokenRow
  pub at_old : token_row db old_hash ≡ some row
  pub fresh : is_fresh now row ≡ true
  pub rows_after :
      (j : String)
      → token_row db' j ≡ (
          if new_rt.token_hash == j
          then some (insert_refresh_token_params new_rt)
          else if old_hash == j
          then some (mark_consumed row)
          else token_row db j)
  pub other_tables : db' ≡ record db { refresh_tokens = db'.refresh_tokens }
  pub unique : UniqueHashes db'

module _ (old_hash : String) (new_rt : RefreshToken) (now : Time) (db : Db)
    (row : RefreshTokenRow) where
  view-marked :
      (j : String)
      → token_row db old_hash ≡ some row
      → is_fresh now row ≡ true
      → token_row (marked old_hash now db) j
        ≡ (if old_hash == j then some (mark_consumed row) else token_row db j)
  view-marked j h fresh =
      view-update hash_of (is_fresh now) mark_consumed old_hash j db.refresh_tokens (λ r. refl)
      ∙ ground (arith, eq_iff old_hash j)

-- In a table with unique hashes, a rotation that returns no error is an `IsRotation`, at the time at
-- which its transaction began: the row under the old hash was live and unconsumed; it is consumed, the
-- new token is added, and nothing else has changed.
pub rotate-IsRotation :
    (old_hash : String) (new_rt : RefreshToken) (env : Env) (w w' : World Db)
    → UniqueHashes w.store
    → rotate old_hash new_rt env w ≡ (ok tt, w')
    → IsRotation old_hash new_rt (env.clock w.step) w.store w'.store
unfolding insert_refresh_token_params
rotate-IsRotation old_hash new_rt env w w' u h =
    let now = env.clock w.step in
    let (row, at_old, fresh, rows, inserted, e) = rotate-ok_rows old_hash new_rt env w u h in
    let new_row = insert_refresh_token_params new_rt in
    let before = (marked old_hash now w.store).refresh_tokens in
    let (free, added) = insert-eq-some hash_of new_row before rows inserted in
    let stored = ap (λ (d : Db). d.refresh_tokens) e in
    let stays : UniqueHashes (marked old_hash now w.store) =
      Unique-update hash_of (λ r. has_hash old_hash r && is_fresh now r) mark_consumed
        w.store.refresh_tokens (λ r. refl) u in
    record {
      row = row;
      at_old = at_old;
      fresh = fresh;
      rows_after = λ j.
          ap (λ t. view hash_of t j) (stored ∙ sym added)
          ∙ (view-append hash_of before new_row j free
              ∙ rw (view-marked old_hash new_rt now w.store row j at_old fresh));
      other_tables = ground arith;
      unique =
          subst (Unique hash_of) (sym stored)
            (Unique-insert hash_of new_row before rows stays inserted);
    }
