-- ===== src/Prelude/Sets.antt =====
-- Go's map[string]struct{} as the list of its keys; the order of the keys is not used.
use Prim.Native.String.{String}
use mathlib.Core.Path.{◌≡◌, ap, ◌∙◌}
use mathlib.Core.Bool.{◌||◌}
use mathlib.Core.Logic.{inl, inr}
use mathlib.Core.List.{List, [], ◌∷◌, ◌++◌}
use native.Mathlib.Omega.{arith}
use text.Mathlib.Text.{◌==◌}
use text.Mathlib.TextEquality.{eq_iff}
use cc_orchestrator.Prelude.Tests.{if◌then◌else◌, Bool-cases}
use cc_orchestrator.Prelude.Lists.{contains, contains-append}

-- set[v] = struct{}{}
unfoldable pub set_insert : List String → String → List String
set_insert set v = if contains set v then set else set ++ v ∷ []

-- for _, v := range values { set[v] = struct{}{} }
unfoldable pub to_set_from : List String → List String → List String
to_set_from set [] = set
to_set_from set (v ∷ vs) = to_set_from (set_insert set v) vs

unfoldable pub to_set : List String → List String
unfolding to_set_from set_insert
to_set values = to_set_from [] values

pub contains-set_insert :
    (set : List String) (v x : String) → contains (set_insert set v) x ≡ (contains set x || v == x)
unfolding set_insert
contains-set_insert set v x = elim (Bool-cases (contains set v)) [
  | inl old ↦ rw old (elim (Bool-cases (v == x)) [
    | inl same ↦ let e = ap (contains set) ((eq_iff v x).0 same) in ground arith
    | inr new ↦ rw new (ground arith)
  ])
  | inr new ↦ rw (new, contains-append) (ground arith)
]

contains-to_set_from :
    (set vs : List String) (x : String)
    → contains (to_set_from set vs) x ≡ (contains set x || contains vs x)
unfolding to_set_from
contains-to_set_from set [] x = ground arith
contains-to_set_from set (v ∷ vs) x =
    contains-to_set_from (set_insert set v) vs x ∙ rw (contains-set_insert set v x) (ground arith)

-- The set of a list has the members of the list.
pub contains-to_set : (vs : List String) (x : String) → contains (to_set vs) x ≡ contains vs x
unfolding to_set
contains-to_set vs x = contains-to_set_from [] vs x
