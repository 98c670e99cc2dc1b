-- ===== src/Auth/RefreshTokens/Statements.antt =====
-- The statements on the refresh_tokens table, each at its `now()`.
use cc_orchestrator.Prelude.{
  ℕ, ◌-◌, String, Bool, true, not, ◌&&◌, Option, none, some, List, Result, ok, err, length, ltb,
  leb, ◌==◌,
}
use mathlib.Core.Option
use cc_orchestrator.Action.{Time}
use cc_orchestrator.Auth.Errors.{Err, database}
use cc_orchestrator.Auth.Db.{RefreshTokenRow, Db}
use cc_orchestrator.Auth.Db.Table.{select, delete, update, insert}

abbrev pub hash_of : RefreshTokenRow → String
hash_of r = r.token_hash

-- `expires_at > now()`
abbrev pub is_live : Time → RefreshTokenRow → Bool
is_live now r = ltb now r.expires_at

-- `consumed = false AND expires_at > now()`
abbrev pub is_fresh : Time → RefreshTokenRow → Bool
is_fresh now r = not r.consumed && is_live now r

abbrev pub has_hash : String → RefreshTokenRow → Bool
has_hash hash r = r.token_hash == hash

-- SET consumed = true
abbrev pub mark_consumed : RefreshTokenRow → RefreshTokenRow
mark_consumed r = record r { consumed = true }

abbrev pub inserted : Option (List RefreshTokenRow) → Db → Result Err (Unit {0}) × Db
inserted none db = (err database, db)
inserted (some rows) db = (ok tt, record db { refresh_tokens = rows })

unfoldable pub insert_refresh_token : RefreshTokenRow → Time → Db → Result Err (Unit {0}) × Db
insert_refresh_token row now db = inserted (insert hash_of row db.refresh_tokens) db

-- Consumed rows are found too.
unfoldable pub get_refresh_token : String → Time → Db → Result Err (Option RefreshTokenRow) × Db
get_refresh_token hash now db =
    (ok (select (λ r. has_hash hash r && is_live now r) db.refresh_tokens), db)

unfoldable pub delete_expired_refresh_token : String → Time → Db → Result Err (Unit {0}) × Db
delete_expired_refresh_token hash now db = (
  ok tt,
  record db {
    refresh_tokens = delete (λ r. has_hash hash r && leb r.expires_at now) db.refresh_tokens;
  },
)

-- Returns the number of rows deleted.
unfoldable pub purge_expired_refresh_tokens : Time → Db → Result Err ℕ × Db
purge_expired_refresh_tokens now db =
    let rows = delete (λ r. leb r.expires_at now) db.refresh_tokens in
    (ok (length db.refresh_tokens - length rows), record db { refresh_tokens = rows })

-- Returns the hash of the row that it marks, if there is one.
unfoldable pub consume_refresh_token : String → Time → Db → Result Err (Option String) × Db
consume_refresh_token hash now db = (
  ok (Option.map hash_of (select (λ r. has_hash hash r && is_fresh now r) db.refresh_tokens)),
  record db {
    refresh_tokens =
        update (λ r. has_hash hash r && is_fresh now r) mark_consumed db.refresh_tokens;
  },
)

unfoldable pub revoke_family_refresh_tokens : String → Time → Db → Result Err (Unit {0}) × Db
revoke_family_refresh_tokens family_id now db =
    (ok tt, record db { refresh_tokens = delete (λ r. r.family_id == family_id) db.refresh_tokens })
