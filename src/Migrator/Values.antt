-- ===== src/Migrator/Values.antt =====
-- app/migrator/domain/migration/{identifier,database,approle,command,target}.go
pub mod Laws
use Prim.Native.Char.{Char, code}
use Prim.Native.String.{[], ◌∷◌, ◌++◌}
use cc_orchestrator.Prelude.{
  ℕ, ◌+◌, ◌≤◌, String, ◌≡◌, ◌≢◌, Bool, true, false, ◌&&◌, ◌||◌, Result, ok, err, and_then, leb, ltb,
  ◌=ℕ◌, ◌==◌, eq_iff, arith, if◌then◌else◌,
}

pub data MigrationError : Type 0 where
  empty_identifier identifier_too_long invalid_identifier : MigrationError
  unknown_command unknown_target : MigrationError

-- In bytes.
abbrev pub postgres_identifier_max_len : ℕ
postgres_identifier_max_len = 63

-- The number of bytes of a character in UTF-8.
abbrev pub utf8_size : ℕ → ℕ
utf8_size c = if ltb c 0x80 then 1 else if ltb c 0x800 then 2 else if ltb c 0x10000 then 3 else 4

-- `len(s)`
abbrev pub byte_length : String → ℕ
byte_length [] = 0
byte_length (c ∷ s) = utf8_size (code c) + byte_length s

-- [a-z_]
abbrev pub is_identifier_start : ℕ → Bool
is_identifier_start c = (leb b'a' c && leb c b'z') || c =ℕ b'_'

-- [a-z0-9_]
abbrev pub is_identifier_part : ℕ → Bool
is_identifier_part c = is_identifier_start c || (leb b'0' c && leb c b'9')

abbrev pub all_identifier_parts : String → Bool
all_identifier_parts [] = true
all_identifier_parts (c ∷ s) = is_identifier_part (code c) && all_identifier_parts s

-- ^[a-z_][a-z0-9_]*$
unfoldable pub matches_identifier : String → Bool
matches_identifier [] = false
matches_identifier (c ∷ s) = is_identifier_start (code c) && all_identifier_parts s

unfoldable pub validate_identifier : String → Result MigrationError (Unit {0})
validate_identifier name =
    if name == ""
    then err empty_identifier
    else if ltb postgres_identifier_max_len (byte_length name)
    then err identifier_too_long
    else if matches_identifier name
    then ok tt
    else err invalid_identifier

-- A DatabaseName, a Command and a Target are their texts.
unfoldable pub parse_database_name : String → Result MigrationError String
parse_database_name name = and_then (validate_identifier name) λ x. ok name

pub record AppRole : Type 0 where
  pub name : String
  pub database : String

unfoldable pub parse_app_role : String → String → Result MigrationError AppRole
parse_app_role name database =
    and_then (validate_identifier name) λ x. ok (record { name = name; database = database })

unfoldable pub parse_command : String → Result MigrationError String
parse_command s = if s == "up" || s == "down" || s == "status" then ok s else err unknown_command

unfoldable pub is_up : String → Bool
is_up c = c == "up"

unfoldable pub parse_target : String → Result MigrationError String
parse_target s = if s == "api" || s == "auth" then ok s else err unknown_target

unfoldable pub default_migrations_dir : String → String
default_migrations_dir target = "/migrations/" ++ target
