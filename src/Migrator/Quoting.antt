-- ===== src/Migrator/Quoting.antt =====
-- The quoting of names and passwords in statements that take no parameters: `quoteIdentifier` of
-- app/migrator/domain/migration/identifier.go and `quoteLiteral` of app/migrator/infra/postgres/role.go.
pub mod Laws
use Prim.Native.Char.{Char, code}
use Prim.Native.String.{[], ◌∷◌, ◌++◌}
use cc_orchestrator.Prelude.{ℕ, String, Bool, true, false, ◌||◌, ◌=ℕ◌, if◌then◌else◌}

-- strings.ReplaceAll of a character by two of it
unfoldable pub double : ℕ → String → String
double q [] = ""
double q (c ∷ s) = let rest = double q s in if code c =ℕ q then c ∷ (c ∷ rest) else c ∷ rest

-- strings.Contains for a single character
unfoldable pub has_char : ℕ → String → Bool
has_char q [] = false
has_char q (c ∷ s) = code c =ℕ q || has_char q s

-- The double quote, the quote and the backslash.
abbrev pub double_quote : ℕ
double_quote = 0x22

abbrev pub quote : ℕ
quote = 0x27

abbrev pub backslash : ℕ
backslash = 0x5c

unfoldable pub quote_identifier : String → String
unfolding double
quote_identifier name = "\"" ++ (double double_quote name ++ "\"")

unfoldable pub quote_literal : String → String
unfolding double has_char
quote_literal s =
    let t = double quote s in
    if has_char backslash t then "E'" ++ (double backslash t ++ "'") else "'" ++ (t ++ "'")
