-- ===== src/Migrator/Quoting/Laws.antt =====
-- What SQL reads back from a quoted text.
use Prim.Native.Char.{Char, code}
use Prim.Native.String.{[], ◌∷◌, ◌++◌}
use mathlib.Core.Path.{subst}
use text.Mathlib.TextLemmas.{nil-append, cons-append, append-nil, append_assoc}
use cc_orchestrator.Prelude.{
  ℕ, String, ◌≡◌, refl, Bool, true, false, not, ◌&&◌, Option, none, some, arith, ◌=ℕ◌,
  if◌then◌else◌, Bool-cases, inl, inr,
}
use cc_orchestrator.Migrator.Quoting.{
  double, has_char, double_quote, quote, backslash, quote_identifier, quote_literal,
}

-- Where a reader of a quoted text is: inside, behind a quote, or behind a backslash.
pub data Place : Type 0 where
  inside after_quote after_backslash : Place

-- The value of a quoted text whose opening quote was read, and what follows its closing quote. A doubled
-- quote stands for one quote; where backslashes escape, a doubled backslash stands for one backslash,
-- and other escapes are not read.
abbrev pub keep_char : Char → Option (String × String) → Option (String × String)
keep_char c none = none
keep_char c (some (s, rest)) = some (c ∷ s, rest)

unfoldable pub read_quoted : ℕ → Bool → Place → String → Option (String × String)
read_quoted q escapes inside [] = none
read_quoted q escapes after_quote [] = some ("", "")
read_quoted q escapes after_backslash [] = none
read_quoted q escapes inside (c ∷ s) =
    let closed = read_quoted q escapes after_quote s in
    let escaped = read_quoted q escapes after_backslash s in
    let more = read_quoted q escapes inside s in
    if code c =ℕ q
    then closed
    else if escapes && code c =ℕ backslash
    then escaped
    else keep_char c more
read_quoted q escapes after_quote (c ∷ s) =
    let more = read_quoted q escapes inside s in
    if code c =ℕ q then keep_char c more else some ("", c ∷ s)
read_quoted q escapes after_backslash (c ∷ s) =
    let more = read_quoted q escapes inside s in
    if code c =ℕ backslash then keep_char c more else none

abbrev starts_with : ℕ → String → Bool
starts_with q [] = false
starts_with q (c ∷ s) = code c =ℕ q

-- The closing quote, `c`, ends the text unless another quote follows it.
read-end :
    (q : ℕ) (escapes : Bool) (c : Char) (rest : String)
    → (code c =ℕ q) ≡ true
    → starts_with q rest ≡ false
    → read_quoted q escapes inside (c ∷ rest) ≡ some ("", rest)
unfolding read_quoted
read-end q escapes c [] h free = rw h
read-end q escapes c (d ∷ rest) h free = rw (h, free)

-- A text with its quotes doubled is read back, also where backslashes escape if it has none.
read-double :
    (q : ℕ) (escapes : Bool) (s rest : String) (c : Char)
    → (code c =ℕ q) ≡ true
    → starts_with q rest ≡ false
    → (escapes && has_char backslash (double q s)) ≡ false
    → read_quoted q escapes inside (double q s ++ (c ∷ rest)) ≡ some (s, rest)
unfolding read_quoted double has_char
read-double q escapes [] rest c h free plain = rw nil-append (read-end q escapes c rest h free)
read-double q escapes (d ∷ s) rest c h free plain = elim (Bool-cases (code d =ℕ q)) [
  | inl e ↦
      let ih = read-double q escapes s rest c h free (ground arith) in
      rw (e, cons-append, cons-append, e, ih)
  | inr e ↦
      let ih = read-double q escapes s rest c h free (ground arith) in
      let solid : (escapes && code d =ℕ backslash) ≡ false = ground arith in
      rw (e, cons-append, e, solid, ih)
]

-- A text with its quotes and then its backslashes doubled is read back where backslashes escape.
read-double-double :
    (s rest : String) (c : Char)
    → (code c =ℕ quote) ≡ true
    → starts_with quote rest ≡ false
    → read_quoted quote true inside (double backslash (double quote s) ++ (c ∷ rest))
      ≡ some (s, rest)
unfolding read_quoted double
read-double-double [] rest c h free = rw nil-append (read-end quote true c rest h free)
read-double-double (d ∷ s) rest c h free =
    let ih = read-double-double s rest c h free in
    elim (Bool-cases (code d =ℕ quote)) [
      | inl e ↦
          let solid : (code d =ℕ backslash) ≡ false = ground arith in
          rw (e, solid, cons-append, cons-append, e, ih)
      | inr e ↦ elim (Bool-cases (code d =ℕ backslash)) [
        | inl b ↦ rw (e, b, cons-append, cons-append, e, b, ih)
        | inr b ↦ rw (e, b, cons-append, e, b, ih)
      ]
    ]

-- A character in front of a text and one behind it, in front of a rest.
append-wrapped :
    (a c : Char) (t rest : String) → ((a ∷ "") ++ (t ++ (c ∷ ""))) ++ rest ≡ a ∷ (t ++ (c ∷ rest))
append-wrapped a c t rest =
    rw (cons-append, nil-append, cons-append, append_assoc t (c ∷ "") rest, cons-append, nil-append)

-- What stands behind an opening quote.
abbrev opened : ℕ → Bool → String → Option (String × String)
opened q escapes [] = none
opened q escapes (c ∷ s) = if code c =ℕ q then read_quoted q escapes inside s else none

-- The two forms of a string constant, '…' and E'…', up to the closing quote, and what follows it; in the
-- first, backslashes escape only where the server's standard_conforming_strings is off.
unfoldable pub read_front : Bool → String → Option (String × String)
read_front conforming [] = none
read_front conforming (c ∷ s) =
    if code c =ℕ b'E' then opened quote true s else opened quote (not conforming) (c ∷ s)

-- A constant that stands at the end of a statement. One that more text follows is not read: PostgreSQL
-- may go on with it, over a line break.
abbrev pub ended : Option (String × String) → Option String
ended (some (s, [])) = some s
ended _ = none

unfoldable pub read_constant : Bool → String → Option String
read_constant conforming text = ended (read_front conforming text)

-- A quoted identifier, "…".
unfoldable pub read_identifier : String → Option (String × String)
read_identifier s = opened double_quote false s

-- A quoted name, in front of any text that does not go on with a double quote, is read back as the name,
-- whatever characters it has.
read_identifier-quote_identifier :
    (name rest : String)
    → starts_with double_quote rest ≡ false
    → read_identifier (quote_identifier name ++ rest) ≡ some (name, rest)
unfolding read_identifier quote_identifier
read_identifier-quote_identifier name rest free =
    rw (append-wrapped _ _ (double double_quote name) rest)
      (read-double double_quote false name rest _ refl free refl)

-- Up to its closing quote, a quoted password is read back, unless another quote follows.
read_front-quote_literal :
    (conforming : Bool) (s rest : String)
    → starts_with quote rest ≡ false
    → read_front conforming (quote_literal s ++ rest) ≡ some (s, rest)
unfolding read_front quote_literal
read_front-quote_literal conforming s rest free =
    elim (Bool-cases (has_char backslash (double quote s))) [
      | inl escaped ↦
          rw (escaped, cons-append, cons-append)
            (rw (append-wrapped _ _ (double backslash (double quote s)) rest)
              (read-double-double s rest _ refl free))
      | inr plain ↦
          rw (plain, append-wrapped _ _ (double quote s) rest)
            (read-double quote (not conforming) s rest _ refl free (ground arith))
    ]

-- A quoted password at the end of a statement, where ALTER ROLE has it, is read back as the password,
-- whatever characters it has, with standard_conforming_strings on or off.
pub read_constant-quote_literal :
    (conforming : Bool) (s : String) → read_constant conforming (quote_literal s) ≡ some s
unfolding read_constant
read_constant-quote_literal conforming s =
    let front = read_front-quote_literal conforming s "" refl in
    let whole : quote_literal s ++ "" ≡ quote_literal s = append-nil (quote_literal s) in
    rw (subst (λ t. read_front conforming t ≡ some (s, "")) whole front)
