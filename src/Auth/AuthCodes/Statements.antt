-- ===== src/Auth/AuthCodes/Statements.antt =====
-- The statements on the authorization_codes table, each at its `now()`.
use mathlib.Core.Option
use cc_orchestrator.Prelude.{
  ℕ, ◌-◌, String, Bool, not, ◌&&◌, Option, none, some, List, Result, ok, err, length, ltb, leb,
  ◌==◌,
}
use cc_orchestrator.Action.{Time}
use cc_orchestrator.Auth.Errors.{Err, database}
use cc_orchestrator.Auth.Db.{AuthCodeRow, Db}
use cc_orchestrator.Auth.Db.Table.{select, delete, insert}

abbrev pub code_of : AuthCodeRow → String
code_of r = r.code

-- `consumed = false AND expires_at > now()`
abbrev pub is_active : Time → AuthCodeRow → Bool
is_active now r = not r.consumed && ltb now r.expires_at

abbrev pub inserted : Option (List AuthCodeRow) → Db → Result Err (Unit {0}) × Db
inserted none db = (err database, db)
inserted (some rows) db = (ok tt, record db { auth_codes = rows })

unfoldable pub insert_auth_code : AuthCodeRow → Time → Db → Result Err (Unit {0}) × Db
insert_auth_code row now db = inserted (insert code_of row db.auth_codes) db

unfoldable pub get_active_auth_code : String → Time → Db → Result Err (Option AuthCodeRow) × Db
get_active_auth_code code now db =
    (ok (select (λ r. r.code == code && is_active now r) db.auth_codes), db)

unfoldable pub delete_expired_auth_code : String → Time → Db → Result Err (Unit {0}) × Db
delete_expired_auth_code code now db = (
  ok tt,
  record db { auth_codes = delete (λ r. r.code == code && leb r.expires_at now) db.auth_codes },
)

-- Returns the number of rows deleted.
unfoldable pub purge_expired_auth_codes : Time → Db → Result Err ℕ × Db
purge_expired_auth_codes now db =
    let rows = delete (λ r. leb r.expires_at now) db.auth_codes in
    (ok (length db.auth_codes - length rows), record db { auth_codes = rows })

abbrev pub expiry_of : AuthCodeRow → Time
expiry_of r = r.expires_at

-- Deletes the row under the code, and returns when it expires, or would have.
unfoldable pub consume_auth_code : String → Time → Db → Result Err (Option Time) × Db
consume_auth_code code now db = (
  ok (Option.map expiry_of (select (λ r. r.code == code) db.auth_codes)),
  record db { auth_codes = delete (λ r. r.code == code) db.auth_codes },
)
