-- ===== src/Http/Reverts.antt =====
-- Calls whose errors leave the state as it was.
use cc_orchestrator.Prelude.{◌≡◌, Result, ok, err}
use cc_orchestrator.Action.{Env, World, Action, continue, pure, map_error, ◌>>=◌}
use cc_orchestrator.Http.Answers.{Runs, Either}

-- In this state the call returns a value with its property, or an error with its property, and then the state
-- is the same.
pub record Reverts {E S A : Type 0} (before : S) (Φ : E → Type 0) (Ψ : A → Type 0)
    (m : Action E S A) : Type 0 where
  pub reverts :
      (env : Env) (w : World S)
      → w.store ≡ before
      → Either (λ e. Φ e × ((m env w).1.store ≡ before)) Ψ (m env w).0

module _ {E S : Type 0} {before : S} {Φ : E → Type 0} where
  -- A call that only reads.
  pub reading-Reverts :
      {A : Type 0} {Ψ : A → Type 0} {m : Action E S A}
      → Runs (λ s. s ≡ before) Φ Ψ m
      → Reverts before Φ Ψ m
  reading-Reverts {A} {Ψ} {m} k = record {
    reverts = λ env w same. go (m env w).0 (m env w).1 (k.runs env w same).0 (k.runs env w same).1;
  }
    where
      go :
          (r : Result E A) (v : World S)
          → v.store ≡ before
          → Either Φ Ψ r
          → Either (λ e. Φ e × (v.store ≡ before)) Ψ r
      go (ok a) v same h = h
      go (err e) v same h = (h, same)

  -- Calls that only read, and then one that reverts.
  pub bind-Reverts :
      {A C : Type 0} {Ψ : A → Type 0} {Χ : C → Type 0} {m : Action E S A} {f : A → Action E S C}
      → Runs (λ s. s ≡ before) Φ Ψ m
      → ((a : A) → Ψ a → Reverts before Φ Χ (f a))
      → Reverts before Φ Χ (m >>= f)
  unfolding ◌>>=◌
  bind-Reverts {A} {C} {Ψ} {Χ} {m} {f} k kf = record {
    reverts =
        λ env w same. go env (m env w).0 (m env w).1 (k.runs env w same).0 (k.runs env w same).1;
  }
    where
      go :
          (env : Env) (r : Result E A) (v : World S)
          → v.store ≡ before
          → Either Φ Ψ r
          → Either (λ e. Φ e × ((continue r f env v).1.store ≡ before)) Χ (continue r f env v).0
      go env (ok a) v same h = (kf a h).reverts env v same
      go env (err e) v same h = (h, same)

  -- After a call that reverts, what can not fail.
  pub last-Reverts :
      {A C : Type 0} {Ψ : A → Type 0} {Χ : C → Type 0} {m : Action E S A} (f : A → C)
      → Reverts before Φ Ψ m
      → ((a : A) → Ψ a → Χ (f a))
      → Reverts before Φ Χ (m >>= λ a. pure (f a))
  unfolding ◌>>=◌ pure
  last-Reverts {A} {C} {Ψ} {Χ} {m} f k kf = record {
    reverts = λ env w same. go env (m env w).0 (m env w).1 (k.reverts env w same);
  }
    where
      go :
          (env : Env) (r : Result E A) (v : World S)
          → Either (λ e. Φ e × (v.store ≡ before)) Ψ r
          → Either
              (λ e. Φ e × ((continue r (λ a. pure (f a)) env v).1.store ≡ before))
              Χ
              (continue r (λ a. pure (f a)) env v).0
      go env (ok a) v h = kf a h
      go env (err e) v h = h

  pub map_error-Reverts :
      {F A : Type 0} {Θ : F → Type 0} {Ψ : A → Type 0} {m : Action F S A} (f : F → E)
      → Reverts before Θ Ψ m
      → ((e : F) → Θ e → Φ (f e))
      → Reverts before Φ Ψ (map_error f m)
  unfolding map_error
  map_error-Reverts {F} {A} {Θ} {Ψ} {m} f k h = record {
    reverts = λ env w same. go (m env w).0 (m env w).1 (k.reverts env w same);
  }
    where
      go :
          (r : Result F A) (v : World S)
          → Either (λ e. Θ e × (v.store ≡ before)) Ψ r
          → Either (λ e. Φ e × (v.store ≡ before)) Ψ (elim r [ ok a ↦ ok a | err e ↦ err (f e) ])
      go (ok a) v early = early
      go (err e) v (early, same) = (h e early, same)
