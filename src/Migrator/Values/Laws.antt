-- ===== src/Migrator/Values/Laws.antt =====
-- What is accepted as a name of a database or of a role.
use Prim.Native.Char.{code}
use Prim.Native.String.{[], ◌∷◌, ◌++◌}
use cc_orchestrator.Prelude.{◌≤◌, String, ◌≡◌, ◌≢◌, refl, ap, true, false, ok, ◌=ℕ◌, eq_iff, arith}
use cc_orchestrator.Migrator.Quoting.{double, double_quote, quote_identifier}
use cc_orchestrator.Migrator.Values.{
  validate_identifier, matches_identifier, all_identifier_parts, byte_length, parse_app_role,
  AppRole,
}

-- A name that is accepted as a whole identifier.
abbrev pub IsIdentifier : String → Type 0
IsIdentifier name = (name ≢ "") × (byte_length name ≤ 63) × (matches_identifier name ≡ true)

pub validate_identifier-IsIdentifier :
    (name : String) → validate_identifier name ≡ ok tt → IsIdentifier name
unfolding validate_identifier
validate_identifier-IsIdentifier name h =
    (ground (arith, eq_iff name ""), ground arith, ground arith)

-- No character of an accepted name is doubled.
double-parts : (name : String) → all_identifier_parts name ≡ true → double double_quote name ≡ name
unfolding double
double-parts [] h = refl
double-parts (c ∷ s) h =
    let ih = double-parts s (ground arith) in
    let other : (code c =ℕ double_quote) ≡ false = ground arith in rw (other, ih)

matched_parts : (name : String) → matches_identifier name ≡ true → all_identifier_parts name ≡ true
unfolding matches_identifier
matched_parts [] h = refl
matched_parts (c ∷ s) h = ground arith

-- An accepted name has 1 to 63 bytes and matches the pattern of lower-case letters, digits and
-- underscores, and quoting it only puts it between double quotes.
pub parse_app_role-ok :
    (name database : String) (role : AppRole)
    → parse_app_role name database ≡ ok role
    → (role ≡ record { name = name; database = database })
      × IsIdentifier name
      × (quote_identifier name ≡ "\"" ++ (name ++ "\""))
unfolding parse_app_role quote_identifier
parse_app_role-ok name database role h =
    let valid : validate_identifier name ≡ ok tt = ground arith in
    let is = validate_identifier-IsIdentifier name valid in
    (ground arith, is, ap (λ t. "\"" ++ (t ++ "\"")) (double-parts name (matched_parts name is.2)))
