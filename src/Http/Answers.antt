-- ===== src/Http/Answers.antt =====
-- What a handler can answer: an invariant of the state along its calls, a property of what the calls
-- return, and one of its responses.
use cc_orchestrator.Prelude.{◌≡◌, refl, Bool, true, false, Result, ok, err, if◌then◌else◌}
use cc_orchestrator.Action.{
  Env, World, Action, continue, pure, raise, lift, attempt, map_error, on_part, time_now, ◌>>=◌,
}
use cc_orchestrator.Action.Keeps.{Keeps}
use cc_orchestrator.Http.{Response, Handler, reply, serve}

-- The error, or the value, has its property.
abbrev pub Either : {E A : Type 0} → (E → Type 0) → (A → Type 0) → Result E A → Type 0
Either Φ Ψ (ok a) = Ψ a
Either Φ Ψ (err e) = Φ e

-- From a state with `P` a call leads to one, and its error or its value has the property.
pub record Runs {E S A : Type 0} (P : S → Type 0) (Φ : E → Type 0) (Ψ : A → Type 0)
    (m : Action E S A) : Type 0 where
  pub runs : (env : Env) (w : World S) → P w.store → P (m env w).1.store × Either Φ Ψ (m env w).0

abbrev pub Any : {A : Type 0} → A → Type 0
Any a = Unit {0}

module _ {E S : Type 0} {P : S → Type 0} {Φ : E → Type 0} where
  pub pure-Runs : {A : Type 0} {Ψ : A → Type 0} (a : A) → Ψ a → Runs P Φ Ψ (pure a)
  unfolding pure
  pure-Runs a h = record { runs = λ env w p. (p, h) }

  pub lift-Runs :
      {A : Type 0} {Ψ : A → Type 0} (r : Result E A) → Either Φ Ψ r → Runs P Φ Ψ (lift r)
  unfolding lift
  lift-Runs r h = record { runs = λ env w p. (p, h) }

  pub raise-Runs : {A : Type 0} {Ψ : A → Type 0} (e : E) → Φ e → Runs P Φ Ψ (raise e)
  unfolding raise
  raise-Runs e h = record { runs = λ env w p. (p, h) }

  pub if_Runs :
      {A : Type 0} {Ψ : A → Type 0} (b : Bool) {m n : Action E S A}
      → (b ≡ true → Runs P Φ Ψ m)
      → (b ≡ false → Runs P Φ Ψ n)
      → Runs P Φ Ψ (if b then m else n)
  if_Runs true hm hn = hm refl
  if_Runs false hm hn = hn refl

  pub bind-Runs :
      {A C : Type 0} {Ψ : A → Type 0} {Χ : C → Type 0} {m : Action E S A} {f : A → Action E S C}
      → Runs P Φ Ψ m
      → ((a : A) → Ψ a → Runs P Φ Χ (f a))
      → Runs P Φ Χ (m >>= f)
  unfolding ◌>>=◌
  bind-Runs {A} {C} {Ψ} {Χ} {m} {f} hm hf = record {
    runs = λ env w p. let (q, early) = hm.runs env w p in go env (m env w).0 (m env w).1 q early;
  }
    where
      go :
          (env : Env) (r : Result E A) (v : World S)
          → P v.store
          → Either Φ Ψ r
          → P (continue r f env v).1.store × Either Φ Χ (continue r f env v).0
      go env (ok a) v q early = (hf a early).runs env v q
      go env (err x) v q early = (q, early)

  pub time_now-Runs : Runs P Φ Any time_now
  unfolding time_now
  time_now-Runs = record { runs = λ env w p. (p, tt) }

  pub attempt-Runs : {F A : Type 0} {m : Action F S A} → Keeps P m → Runs P Φ Any (attempt m)
  unfolding attempt
  attempt-Runs k = record { runs = λ env w p. (k.keeps env w p, tt) }

  -- The outcome of a call, with what is known of it.
  pub outcome-Runs :
      {F A : Type 0} {Θ : F → Type 0} {Ψ : A → Type 0} {m : Action F S A}
      → Runs P Θ Ψ m
      → Runs P Φ (Either Θ Ψ) (attempt m)
  unfolding attempt
  outcome-Runs k = record { runs = λ env w p. k.runs env w p }

  -- The error of a call becomes another one, with the property.
  pub map_error-Runs :
      {F A : Type 0} {Θ : F → Type 0} {Ψ : A → Type 0} {m : Action F S A} (f : F → E)
      → Runs P Θ Ψ m
      → ((e : F) → Θ e → Φ (f e))
      → Runs P Φ Ψ (map_error f m)
  unfolding map_error
  map_error-Runs {F} {A} {Θ} {Ψ} {m} f k h = record {
    runs = λ env w p. let (q, early) = k.runs env w p in (q, go (m env w).0 early);
  }
    where
      go : (r : Result F A) → Either Θ Ψ r → Either Φ Ψ (elim r [ ok a ↦ ok a | err e ↦ err (f e) ])
      go (ok a) early = early
      go (err e) early = h e early

pub Keeps-Runs : {E S A : Type 0} {P : S → Type 0} {m : Action E S A} → Keeps P m → Runs P Any Any m
Keeps-Runs {E} {S} {A} {P} {m} k = record { runs = λ env w p. (k.keeps env w p, go (m env w).0) }
  where
    go : (r : Result E A) → Either Any Any r
    go (ok a) = tt
    go (err e) = tt

-- The response of a handler, early or not.
pub serve-Runs :
    {B S : Type 0} {P : S → Type 0} {Φ : Response B → Type 0} {m : Handler B S (Response B)}
    → Runs P Φ Φ m
    → (env : Env) (w : World S) → P w.store
    → Φ (serve m env w).0
unfolding serve
serve-Runs {B} {S} {P} {Φ} {m} k env w p = go (m env w).0 (k.runs env w p).1
  where
    go : (r : Result (Response B) (Response B)) → Either Φ Φ r → Φ (reply r)
    go (ok x) h = h
    go (err x) h = h

-- A call on a part of the state, with what is said of that part.
pub on_part-Runs :
    {E S T A : Type 0} (part : S → T) (put : T → S → S) (Q : T → Type 0) {Φ : E → Type 0}
    {Ψ : A → Type 0} {m : Action E T A}
    → ((t : T) (s : S) → part (put t s) ≡ t)
    → Runs Q Φ Ψ m
    → Runs (λ s. Q (part s)) Φ Ψ (on_part part put m)
unfolding on_part
on_part-Runs part put Q same k = record {
  runs = λ env w p.
      let (q, early) = k.runs env (record { step = w.step; store = part w.store }) p in
      (rw same q, early);
}

-- A call on another part of the state.
pub on_other_part-Keeps :
    {E S T A : Type 0} (part : S → T) (put : T → S → S) {P : S → Type 0} (m : Action E T A)
    → ((t : T) (s : S) → P s → P (put t s))
    → Keeps P (on_part part put m)
unfolding on_part
on_other_part-Keeps part put m keep = record { keeps = λ env w p. keep _ w.store p }

pub on_part-Keeps :
    {E S T A : Type 0} (part : S → T) (put : T → S → S) (Q : T → Type 0) {m : Action E T A}
    → ((t : T) (s : S) → part (put t s) ≡ t)
    → Keeps Q m
    → Keeps (λ s. Q (part s)) (on_part part put m)
unfolding on_part
on_part-Keeps part put Q same k = record {
  keeps = λ env w p. rw same (k.keeps env (record { step = w.step; store = part w.store }) p);
}
