-- ===== src/Action/Atomic.antt =====
-- A transaction is all or nothing.
use cc_orchestrator.Prelude.{◌≡◌, ◌⊎◌, refl, Result, ok, err, arith, Bool-cases, inl, inr}
use cc_orchestrator.Action.{Time, Env, World, Action, tick, close, statement, transaction}

module _ {E S A : Type 0} (failure : E) (env : Env) (w w' : World S) where
  -- Either its body succeeded and all that it wrote is there, or nothing is.
  pub transaction-cases :
      (body : Time → Action E S A) (r : Result E A)
      → transaction failure body env w ≡ (r, w')
      → ((a : A) × (v : World S) × (r ≡ ok a)
          × (body (env.clock w.step) env (tick w) ≡ (ok a, v))
          × (w'.store ≡ v.store))
        ⊎ ((e : E) × (r ≡ err e) × (w'.store ≡ w.store))
  unfolding transaction close
  transaction-cases body r h = elim (Bool-cases (env.outage w.step)) [
    | inl down ↦ inr (failure, ground arith, ground arith)
    | inr up ↦
        go (body (env.clock w.step) env (tick w)).0 (body (env.clock w.step) env (tick w)).1 refl
          (ground arith)
  ]
    where
      go :
          (s : Result E A) (v : World S)
          → body (env.clock w.step) env (tick w) ≡ (s, v)
          → close failure w.store s env v ≡ (r, w')
          → ((a : A) × (v : World S) × (r ≡ ok a)
              × (body (env.clock w.step) env (tick w) ≡ (ok a, v))
              × (w'.store ≡ v.store))
            ⊎ ((e : E) × (r ≡ err e) × (w'.store ≡ w.store))
      go (err e) v b k = inr (e, ground arith, ground arith)
      go (ok a) v b k = elim (Bool-cases (env.outage v.step)) [
        | inl down ↦ inr (failure, ground arith, ground arith)
        | inr up ↦ inl (a, v, ground arith, b, ground arith)
      ]

  -- A statement that succeeds ran its function, at some time.
  pub statement-ok :
      (f : Time → S → Result E A × S) (a : A)
      → statement failure f env w ≡ (ok a, w')
      → f (env.clock w.step) w.store ≡ (ok a, w'.store)
  unfolding statement
  statement-ok f a h = elim (Bool-cases (env.outage w.step)) [
    | inl down ↦ absurd (ground arith)
    | inr up ↦ ground arith
  ]
