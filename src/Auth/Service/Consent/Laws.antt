-- ===== src/Auth/Service/Consent/Laws.antt =====
-- What is granted is remembered, for every spelling of the same scope, and nothing else is granted.
use cc_orchestrator.Prelude.{
  String, ◌≡◌, refl, sym, ap, ◌∙◌, Bool, false, ◌&&◌, ◌||◌, none, some, ok, List, [], ◌∷◌, ◌++◌,
  arith, ◌==◌, eq_iff, if◌then◌else◌, Bool-cases, Result-cases, ◌↔◌, inl, inr,
}
use cc_orchestrator.Action.{Time, Env, World, pure, lift, statement, ◌>>=◌}
use cc_orchestrator.GoText.{fields, join}
use cc_orchestrator.GoText.RoundTrip.{fields-join-fields}
use cc_orchestrator.Auth.AuthCode.Scopes.{Scope, parse_scope, of_fields}
use cc_orchestrator.Auth.Db.{Db}
use cc_orchestrator.Auth.Db.Table.{select}
use cc_orchestrator.Auth.Directory
use cc_orchestrator.Auth.Directory.{consent_exists, is_consent, upsert_consent, save_grant}
use cc_orchestrator.Auth.Service.Consent.{normalize_scope, has_grant, grant}

-- A row is selected from a list with one more row at its end if it is selected before, or is that row.
select-append :
    {R : Type 0} (p : R → Bool) (rows : List R) (r : R)
    → select p (rows ++ r ∷ [])
      ≡ elim (select p rows) [ none ↦ (if p r then some r else none) | some x ↦ some x ]
unfolding select
select-append p [] r = refl
select-append p (x ∷ xs) r = ground (arith, select-append p xs r)

-- After the upsert of a consent exactly the old ones and the new one exist.
exists-upsert_consent :
    (u c s : String) (user_id client_id scope : String) (now : Time) (db : Db)
    → consent_exists user_id client_id scope (upsert_consent u c s now db).1 ≡ (
        (u == user_id && (c == client_id && s == scope))
        || consent_exists user_id client_id scope db)
unfolding upsert_consent consent_exists
exists-upsert_consent u c s user_id client_id scope now db =
    elim (Bool-cases (consent_exists u c s db)) [
      | inl old ↦ ground (arith, eq_iff u user_id, eq_iff c client_id, eq_iff s scope)
      | inr new ↦ ground (
        arith,
        select-append (is_consent user_id client_id scope) db.consents
            (record { user_id = u; client_id = c; scope = s }),
      )
    ]

-- A parsed scope is the words of its text, joined.
value-words :
    (s : String) (scope : Scope) → parse_scope s ≡ ok scope → scope.value ≡ join (fields s)
unfolding parse_scope of_fields
value-words s scope h = of_words (fields s) scope h
  where
    of_words : (ws : List String) (scope : Scope) → of_fields ws ≡ ok scope → scope.value ≡ join ws
    of_words [] scope h = cc
    of_words (x ∷ xs) scope h = ground arith

-- Two scopes are the same text exactly when their words are the same, in the same order.
same_words :
    (s t : String) (a b : Scope)
    → parse_scope s ≡ ok a
    → parse_scope t ≡ ok b
    → (a.value ≡ b.value) ↔ (fields s ≡ fields t)
same_words s t a b ha hb = (
  λ e.
      sym (fields-join-fields s)
      ∙ (ap fields (sym (value-words s a ha) ∙ (e ∙ value-words t b hb)) ∙ fields-join-fields t),
  λ e. value-words s a ha ∙ (ap join e ∙ sym (value-words t b hb)),
)

-- After a grant that succeeds, with the database up, HasGrant is true for the granted user, client and
-- words, however they are spaced, and for what was granted before; the words are compared in order.
pub has_grant-grant :
    (u c s : String) (user_id client_id raw : String) (scope : Scope) (env env' : Env)
    (w w' : World Db)
    → grant u c s env w ≡ (ok tt, w')
    → parse_scope raw ≡ ok scope
    → env'.outage w'.step ≡ false
    → (granted : Scope) × ((granted.value ≡ scope.value) ↔ (fields s ≡ fields raw))
      × ((has_grant user_id client_id raw env' w').0
          ≡ ok (
              (u == user_id && (c == client_id && granted.value == scope.value))
              || consent_exists user_id client_id scope.value w.store))
unfolding grant has_grant normalize_scope lift pure save_grant Directory.has_grant statement ◌>>=◌
has_grant-grant u c s user_id client_id raw scope env env' w w' h parsed up =
    elim (Result-cases (parse_scope s)) [
      | inl (granted, e) ↦
          let law =
            exists-upsert_consent u c granted.value user_id client_id scope.value (env.clock w.step)
              w.store in
          let stored : w'.store ≡ (upsert_consent u c granted.value (env.clock w.step) w.store).1 =
            ground arith in
          (granted, same_words s raw granted scope e parsed, rw (parsed, up, stored, law))
      | inr (x, e) ↦ absurd (ground arith)
    ]
