-- ===== src/GoText.antt =====
-- The functions of Go's `strings` and `unicode` packages that the program calls, over texts of
-- Unicode scalars.
pub mod RoundTrip
pub mod Encoding
use Prim.Native.Char.{Char, code}
use Prim.Native.String.{[], ◌∷◌, ◌++◌}
use cc_orchestrator.Prelude.{
  ℕ, String, Bool, true, false, ◌||◌, ◌&&◌, Option, none, some, List, leb, ◌=ℕ◌, if◌then◌else◌,
}
use mathlib.Core.List

-- unicode.IsSpace
unfoldable pub is_space : ℕ → Bool
is_space c =
    (leb 0x09 c && leb c 0x0d)
    || c =ℕ 0x20
    || c =ℕ 0x85
    || c =ℕ 0xa0
    || c =ℕ 0x1680
    || (leb 0x2000 c && leb c 0x200a)
    || (leb 0x2028 c && leb c 0x2029)
    || c =ℕ 0x202f
    || c =ℕ 0x205f
    || c =ℕ 0x3000

abbrev pub starts_word : String → Bool
starts_word [] = false
starts_word (c ∷ s) = if is_space (code c) then false else true

-- A character in front of the text whose words are `ws`; it extends the first word if the text
-- begins with one.
abbrev pub attach : Char → Bool → List String → List String
attach c true (List.◌∷◌ w ws) = List.◌∷◌ (c ∷ w) ws
attach c _ ws = List.◌∷◌ (c ∷ []) ws

-- strings.Fields: the maximal runs of characters that are no white space.
unfoldable pub fields : String → List String
fields [] = List.[]
fields (c ∷ s) =
    let rest = fields s in if is_space (code c) then rest else attach c (starts_word s) rest

-- strings.Join(ws, " ")
unfoldable pub join : List String → String
join (List.[]) = ""
join (List.◌∷◌ w (List.[])) = w
join (List.◌∷◌ w (List.◌∷◌ v ws)) = w ++ (" " ++ join (List.◌∷◌ v ws))

-- strings.TrimSpace
unfoldable pub trim_left : String → String
trim_left [] = ""
trim_left (c ∷ s) = let rest = trim_left s in if is_space (code c) then rest else c ∷ s

abbrev pub drop_if : Bool → Char → String → String
drop_if true c [] = ""
drop_if _ c s = c ∷ s

unfoldable pub trim_right : String → String
trim_right [] = ""
trim_right (c ∷ s) = drop_if (is_space (code c)) c (trim_right s)

unfoldable pub trim_space : String → String
unfolding trim_left trim_right
trim_space s = trim_right (trim_left s)

-- strings.HasPrefix(s, prefix)
unfoldable pub has_prefix : String → String → Bool
has_prefix s [] = true
has_prefix [] (d ∷ prefix) = false
has_prefix (c ∷ s) (d ∷ prefix) = code c =ℕ code d && has_prefix s prefix

-- strings.Contains(s, part)
unfoldable pub contains_text : String → String → Bool
unfolding has_prefix
contains_text [] part = has_prefix [] part
contains_text (c ∷ s) part = has_prefix (c ∷ s) part || contains_text s part

-- strings.Split(s, sep) for a separator of one character
unfoldable pub split : ℕ → String → List String
split sep [] = List.◌∷◌ "" List.[]
split sep (c ∷ s) =
    let rest = split sep s in if code c =ℕ sep then List.◌∷◌ "" rest else attach c true rest

-- strings.CutPrefix(s, prefix)
unfoldable pub cut_prefix : String → String → Option String
cut_prefix s [] = some s
cut_prefix [] (d ∷ prefix) = none
cut_prefix (c ∷ s) (d ∷ prefix) = if code c =ℕ code d then cut_prefix s prefix else none

-- strings.IndexByte, and the texts before and behind the byte
unfoldable pub cut : ℕ → String → Option (String × String)
cut sep [] = none
cut sep (c ∷ s) =
    let rest = cut sep s in
    if code c =ℕ sep
    then some ("", s)
    else (elim rest [ none ↦ none | some (a, b) ↦ some (c ∷ a, b) ])

-- strings.TrimSuffix(s, suffix) for a suffix of one character
unfoldable pub trim_suffix : ℕ → String → String
trim_suffix ch [] = []
trim_suffix ch (c ∷ []) = if code c =ℕ ch then [] else c ∷ []
trim_suffix ch (c ∷ d ∷ s) = c ∷ trim_suffix ch (d ∷ s)
