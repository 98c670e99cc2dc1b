-- ===== src/Http/Laws.antt =====
-- How a handler answers: case analysis of a sequence, of a changed error and of an early response.
use cc_orchestrator.Prelude.{◌≡◌, refl, ap, sym, Result, ok, err}
use cc_orchestrator.Action.{Env, World, Action, continue, map_error, on_part, ◌>>=◌}
use cc_orchestrator.Http.{Response, Handler, reply, serve}

-- What holds after each early response, and after the rest from each value, holds after the sequence.
pub serve-bind {ℓ} :
    {B S A : Type 0} (P : Response B × World S → Type ℓ) (m : Handler B S A)
    (f : A → Handler B S (Response B)) (env : Env) (w : World S)
    → ((x : Response B) (v : World S) → m env w ≡ (err x, v) → P (x, v))
    → ((a : A) (v : World S) → m env w ≡ (ok a, v) → P (serve (f a) env v))
    → P (serve (m >>= f) env w)
unfolding serve ◌>>=◌
serve-bind {B} {S} {A} P m f env w early late = go (m env w).0 (m env w).1 refl
  where
    go :
        (r : Result (Response B) A) (v : World S)
        → m env w ≡ (r, v)
        → P (reply (continue r f env v).0, (continue r f env v).1)
    go (ok a) v e = late a v e
    go (err x) v e = early x v e

module _ {E F S A : Type 0} (f : E → F) (m : Action E S A) (env : Env) (w v : World S) where
  pub map_error-eq-ok : (a : A) → map_error f m env w ≡ (ok a, v) → m env w ≡ (ok a, v)
  unfolding map_error
  map_error-eq-ok a h = go (m env w).0 (m env w).1 refl h
    where
      go :
          (r : Result E A) (u : World S)
          → m env w ≡ (r, u)
          → ◌≡◌ {A = Result F A × World S} (elim r [ ok b ↦ ok b | err e ↦ err (f e) ], u) (ok a, v)
          → m env w ≡ (ok a, v)
      go (ok b) u e k = cc
      go (err x) u e k = cc

  pub map_error-eq-err :
      (x : F) → map_error f m env w ≡ (err x, v) → (e : E) × (m env w ≡ (err e, v)) × (x ≡ f e)
  unfolding map_error
  map_error-eq-err x h = go (m env w).0 (m env w).1 refl h
    where
      go :
          (r : Result E A) (u : World S)
          → m env w ≡ (r, u)
          → ◌≡◌ {A = Result F A × World S}
              (elim r [ ok b ↦ ok b | err e ↦ err (f e) ], u)
              (err x, v)
          → (e : E) × (m env w ≡ (err e, v)) × (x ≡ f e)
      go (ok b) u e k = cc
      go (err y) u e k = (y, cc, cc)

-- An action on a part of the state leaves a result on the part.
module _ {E S T A : Type 0} (part : S → T) (put : T → S → S) (m : Action E T A) (env : Env)
    (w v : World S) where
  pub on_part-eq :
      (r : Result E A)
      → on_part part put m env w ≡ (r, v)
      → (u : World T) × (m env (record { step = w.step; store = part w.store }) ≡ (r, u))
        × (v ≡ record { step = u.step; store = put u.store w.store })
  unfolding on_part
  on_part-eq r h =
      let ran = m env (record { step = w.step; store = part w.store }) in
      (ran.1, (λ i. (ap (λ o. o.0) h i, ran.1)), sym (ap (λ o. o.1) h))
