-- ===== src/Auth/AuthCode/Laws.antt =====
-- Scopes of authorization codes: what parses, and that the stored text gives the scope back.
use cc_orchestrator.Prelude.{
  String, ◌≡◌, ap, ◌∙◌, true, List, [], ◌∷◌, ok, contains, contains-to_set, to_set, arith,
}
use cc_orchestrator.GoText.{fields, join}
use cc_orchestrator.GoText.RoundTrip.{fields-join-fields}
use cc_orchestrator.Auth.AuthCode.Scopes.{Scope, scope_openid, of_fields, parse_scope}

-- The scope of a list of words.
abbrev pub scope_of : List String → Scope
scope_of ws = record { value = join ws; values = to_set ws }

of_fields-ok :
    (ws : List String) → contains ws scope_openid ≡ true → of_fields ws ≡ ok (scope_of ws)
unfolding of_fields
of_fields-ok [] h = cc
of_fields-ok (f ∷ fs) h = let e = contains-to_set (f ∷ fs) scope_openid in ground arith

of_fields-inv :
    (ws : List String) {sc : Scope}
    → of_fields ws ≡ ok sc
    → (contains ws scope_openid ≡ true) × (sc ≡ scope_of ws)
unfolding of_fields
of_fields-inv [] h = cc
of_fields-inv (f ∷ fs) h =
    let e = contains-to_set (f ∷ fs) scope_openid in (ground arith, ground arith)

-- A text whose words include "openid" parses.
pub parse_scope-ok :
    (s : String)
    → contains (fields s) scope_openid ≡ true
    → parse_scope s ≡ ok (scope_of (fields s))
unfolding parse_scope
parse_scope-ok s h = of_fields-ok (fields s) h

-- Only a text with "openid" among its words parses, and the scope is made of its words.
pub parse_scope-inv :
    (s : String) {sc : Scope}
    → parse_scope s ≡ ok sc
    → (contains (fields s) scope_openid ≡ true) × (sc ≡ scope_of (fields s))
unfolding parse_scope
parse_scope-inv s h = of_fields-inv (fields s) h

-- The string of a parsed scope parses to the scope.
parse_scope_round_trip :
    (s : String) {sc : Scope} → parse_scope s ≡ ok sc → parse_scope sc.value ≡ ok sc
unfolding parse_scope
parse_scope_round_trip s {sc} h =
    let (openid, e) = parse_scope-inv s h in
    let again : fields sc.value ≡ fields s =
      ap (λ (t : Scope). fields t.value) e ∙ fields-join-fields s in
    rw again h
