-- ===== src/Action/Keeps.antt =====
-- Reasoning about actions: invariants, and inversion of a successful sequence.
use mathlib.Core.Path.{subst}
use cc_orchestrator.Prelude.{
  ℕ, ◌≡◌, refl, Bool, true, false, inl, inr, Bool-cases, Option-cases, Result, ok, err,
  if◌then◌else◌,
}
use cc_orchestrator.Action.{
  Time, Env, World, Action, tick, continue, handled, pure, raise, lift, statement, fail_if,
  time_now, rand_read, close, transaction, attempt, on_error, sleep, ◌>>=◌,
}

module _ {ℓ} {E S A B : Type ℓ} where
  -- A sequence that succeeds has a first part that succeeds, and the rest succeeds after it.
  pub >>=-eq-ok :
      (m : Action E S A) (f : A → Action E S B) (env : Env) (w : World S) {b : B} {w' : World S}
      → (m >>= f) env w ≡ (ok b, w')
      → (a : A) × (v : World S) × (m env w ≡ (ok a, v)) × (f a env v ≡ (ok b, w'))
  unfolding ◌>>=◌
  >>=-eq-ok m f env w {b} {w'} h = go (m env w).0 (m env w).1 refl h
    where
      go :
          (r : Result E A) (v : World S)
          → m env w ≡ (r, v)
          → continue r f env v ≡ (ok b, w')
          → (a : A) × (u : World S) × (m env w ≡ (ok a, u)) × (f a env u ≡ (ok b, w'))
      go (ok a) v e k = (a, v, e, k)
      go (err x) v e k = cc

-- A statement keeps what its function keeps at every time.
pub statement_lem :
    {E S A : Type 0} (failure : E) (P : S → Type 0) (f : Time → S → Result E A × S) (env : Env)
    (w : World S)
    → ((now : Time) → P (f now w.store).1)
    → P w.store
    → P (statement failure f env w).1.store
unfolding statement
statement_lem failure P f env w keeps h = elim (Bool-cases (env.outage w.step)) [
  | inl down ↦ rw down h
  | inr up ↦ rw up (keeps (env.clock w.step))
]

-- Whatever it returns, the action leads from a store with `P` to a store with `P`.
pub record Keeps {E S A : Type 0} (P : S → Type 0) (m : Action E S A) : Type 0 where
  pub keeps : (env : Env) (w : World S) → P w.store → P (m env w).1.store

module _ {E S A : Type 0} where
  close_lem :
      (P : S → Type 0) (failure : E) (before : S) (r : Result E A) (env : Env) (w : World S)
      → P before
      → P w.store
      → P (close failure before r env w).1.store
  unfolding close
  close_lem P failure before (err e) env w h k = h
  close_lem P failure before (ok a) env w h k = elim (Bool-cases (env.outage w.step)) [
    | inl down ↦ rw down h
    | inr up ↦ rw up k
  ]

module _ {E S A : Type 0} {P : S → Type 0} where
  pub after :
      {m : Action E S A} {env : Env} {w w' : World S} {r : Result E A}
      → Keeps P m
      → m env w ≡ (r, w')
      → P w.store
      → P w'.store
  after {env = env} {w = w} k e h = subst (λ o. P o.1.store) e (k.keeps env w h)

  pub pure-Keeps : (a : A) → Keeps {E = E} P (pure a)
  unfolding pure
  pure-Keeps a = record { keeps = λ env w h. h }

  pub raise-Keeps : (e : E) → Keeps {A = A} P (raise e)
  unfolding raise
  raise-Keeps e = record { keeps = λ env w h. h }

  pub lift-Keeps : (r : Result E A) → Keeps P (lift r)
  unfolding lift
  lift-Keeps r = record { keeps = λ env w h. h }

  pub query-Keeps :
      (failure : E) (f : Time → S → Result E A × S)
      → ((now : Time) (s : S) → P s → P (f now s).1)
      → Keeps P (statement failure f)
  query-Keeps failure f keep = record {
    keeps = λ env w h. statement_lem failure P f env w (λ now. keep now w.store h) h;
  }

  pub transaction-Keeps :
      (failure : E) {body : Time → Action E S A}
      → ((now : Time) → Keeps P (body now))
      → Keeps P (transaction failure body)
  unfolding transaction
  transaction-Keeps failure {body} keep = record {
    keeps = λ env w h. elim (Bool-cases (env.outage w.step)) [
      | inl down ↦ rw down h
      | inr up ↦ rw up (
          close_lem P failure w.store (body (env.clock w.step) env (tick w)).0 env
            (body (env.clock w.step) env (tick w)).1 h
            ((keep (env.clock w.step)).keeps env (tick w) h))
    ];
  }

  pub on_error-Keeps :
      {m : Action E S A} {f : E → Action E S A}
      → Keeps P m
      → ((e : E) → Keeps P (f e))
      → Keeps P (on_error m f)
  unfolding on_error
  on_error-Keeps {m} {f} km kf = record {
    keeps = λ env w h. go env (m env w).0 (m env w).1 (km.keeps env w h);
  }
    where
      go : (env : Env) (r : Result E A) (v : World S) → P v.store → P (handled r f env v).1.store
      go env (ok a) v k = k
      go env (err e) v k = (kf e).keeps env v k

  pub attempt-Keeps : {F : Type 0} {m : Action E S A} → Keeps P m → Keeps {E = F} P (attempt m)
  unfolding attempt
  attempt-Keeps km = record { keeps = λ env w h. km.keeps env w h }

  pub if_Keeps :
      (b : Bool) {m n : Action E S A} → Keeps P m → Keeps P n → Keeps P (if b then m else n)
  if_Keeps true km kn = km
  if_Keeps false km kn = kn

module _ {E S A B : Type 0} {P : S → Type 0} where
  pub bind-Keeps :
      {m : Action E S A} {f : A → Action E S B}
      → Keeps P m
      → ((a : A) → Keeps P (f a))
      → Keeps P (m >>= f)
  unfolding ◌>>=◌
  bind-Keeps {m} {f} km kf = record {
    keeps = λ env w h. go env (m env w).0 (m env w).1 (km.keeps env w h);
  }
    where
      go : (env : Env) (r : Result E A) (v : World S) → P v.store → P (continue r f env v).1.store
      go env (ok a) v k = (kf a).keeps env v k
      go env (err e) v k = k

module _ {E S : Type 0} {P : S → Type 0} where
  pub fail_if-Keeps : (b : Bool) (e : E) → Keeps P (fail_if b e)
  unfolding fail_if
  fail_if-Keeps true e = record { keeps = λ env w h. h }
  fail_if-Keeps false e = record { keeps = λ env w h. h }

  pub time_now-Keeps : Keeps {E = E} P time_now
  unfolding time_now
  time_now-Keeps = record { keeps = λ env w h. h }

  pub rand_read-Keeps : (e : E) (n : ℕ) → Keeps P (rand_read e n)
  unfolding rand_read
  rand_read-Keeps e n = record {
    keeps = λ env w h. elim (Option-cases (env.entropy w.step n)) [
      | inl failed ↦ rw (rand_read, failed) h
      | inr (bytes, read) ↦ rw (rand_read, read) h
    ];
  }

  pub sleep-Keeps : (n : ℕ) → Keeps {E = E} P (sleep n)
  unfolding sleep
  sleep-Keeps n = record { keeps = λ env w h. h }
