-- ===== src/Auth/RefreshToken/Scopes/Narrowing.antt =====
-- `Narrow` never widens a grant.
use cc_orchestrator.Prelude.{
  String, ◌≡◌, true, ◌||◌, List, [], ◌∷◌, ok, contains, contains-set_insert, set_insert, arith,
  ◌==◌, eq_iff, Bool-cases, inl, inr,
}
use cc_orchestrator.GoText.{fields}
use cc_orchestrator.Auth.RefreshToken.Scopes.{Scope, has, narrow_values, narrow_fields, narrow}

narrow_values-has :
    (s : Scope) (values fs vs : List String) (v : String)
    → narrow_values s values fs ≡ ok vs
    → contains vs v ≡ true
    → (contains values v || has s v) ≡ true
unfolding narrow_values has
narrow_values-has s values [] vs v h k = ground arith
narrow_values-has s values (f ∷ fs) vs v h k =
    let more = narrow_values-has s (set_insert values f) fs vs v (ground arith) k in
    let inserted = contains-set_insert values f v in
    let same = (eq_iff f v).0 in
    elim (Bool-cases (f == v)) [
      | inl e ↦
          (let member : contains s.values f ≡ true = ground arith in
            let f_v = same e in ground arith)
      | inr d ↦ ground arith
    ]

-- Every value of a scope that `Narrow` returns is a value of the grant.
narrow-has :
    (s n : Scope) (requested v : String)
    → narrow s requested ≡ ok n
    → has n v ≡ true
    → has s v ≡ true
unfolding narrow narrow_fields has
narrow-has s n requested v h k = go (fields requested) h
  where
    go : (fs : List String) → narrow_fields s fs ≡ ok n → has s v ≡ true
    go [] e = ground arith
    go (f ∷ fs) e =
        let m = narrow_values-has s [] (f ∷ fs) n.values v (ground arith) k in ground arith
