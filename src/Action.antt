-- ===== src/Action.antt =====
-- Go methods as actions: what a method reads from outside (the clock, random bytes, whether the
-- database answers), the state it works on, and the error it may return. What was written before an
-- error stays written, so the state comes back beside the error too.
pub mod Keeps
pub mod Atomic
use cc_orchestrator.Prelude.{
  ℕ, suc, Bool, true, false, Option, none, some, List, Result, ok, err, if◌then◌else◌,
}

-- Times are whole microseconds since 0001-01-01T00:00:00Z, the zero value of `time.Time`.
abbrev pub Time : Type 0
Time = ℕ

-- The surroundings of a run. Each reading has a number, counted by `World.step`, so that nothing is
-- assumed of how two readings relate.
pub record Env : Type 0 where
  -- `time.Now()`, and `now()` of the database
  pub clock : ℕ → Time
  -- `rand.Read` into a buffer of the given size; `none` is its error
  pub entropy : ℕ → ℕ → Option (List ℕ)
  -- the database, or the request's context, fails this call
  pub outage : ℕ → Bool

pub record World {ℓ} (S : Type ℓ) : Type ℓ where
  pub step : ℕ
  pub store : S

abbrev pub Action {ℓ} : Type ℓ → Type ℓ → Type ℓ → Type ℓ
Action E S A = Env → World S → Result E A × World S

abbrev pub tick {ℓ} : {S : Type ℓ} → World S → World S
tick w = record w { step = suc w.step }

module _ {ℓ} {E S A : Type ℓ} where
  unfoldable pub pure : A → Action E S A
  pure a env w = (ok a, w)

  unfoldable pub raise : E → Action E S A
  raise e env w = (err e, w)

  -- A call that touches no state.
  unfoldable pub lift : Result E A → Action E S A
  lift r env w = (r, w)

  -- One statement of the database, atomic, with its own `now()`; a failed statement writes nothing.
  unfoldable pub statement : E → (Time → S → Result E A × S) → Action E S A
  statement failure f env w =
      if env.outage w.step
      then (err failure, tick w)
      else (let (r, s) = f (env.clock w.step) w.store in
          (r, record { step = suc w.step; store = s }))

module _ {E S : Type 0} where
  -- `if b { return e }`
  unfoldable pub fail_if : Bool → E → Action E S (Unit {0})
  fail_if true e env w = (err e, w)
  fail_if false e env w = (ok tt, w)

  -- `time.Now()`
  unfoldable pub time_now : Action E S Time
  time_now env w = (ok (env.clock w.step), tick w)

  -- `rand.Read(buf)` with `len(buf) = n`
  unfoldable pub rand_read : E → ℕ → Action E S (List ℕ)
  rand_read failure n env w = elim (env.entropy w.step n) [
    | none ↦ (err failure, tick w)
    | some bytes ↦ (ok bytes, tick w)
  ]

module _ {ℓ} {E S A B : Type ℓ} where
  abbrev pub continue : Result E A → (A → Action E S B) → Action E S B
  continue (ok a) f env w = f a env w
  continue (err e) f env w = (err e, w)

  infixl 10 ◌>>=◌ ◌>>◌
  unfoldable pub ◌>>=◌ : Action E S A → (A → Action E S B) → Action E S B
  unfolding pure raise lift fail_if time_now rand_read
  ◌>>=◌ m f env w = let (r, w') = m env w in continue r f env w'

  abbrev pub ◌>>◌ : Action E S A → Action E S B → Action E S B
  m >> n = m >>= λ _. n

module _ {ℓ} {E S A : Type ℓ} where
  -- The end of a transaction: a rollback after an error, a commit otherwise; a failed commit writes
  -- nothing.
  unfoldable pub close : E → S → Result E A → Action E S A
  close failure before (err e) env w = (err e, record w { store = before })
  close failure before (ok a) env w =
      if env.outage w.step
      then (err failure, record { step = suc w.step; store = before })
      else (ok a, tick w)

  -- A transaction, which runs alone: its statements share the `now()` of its begin.
  unfoldable pub transaction : E → (Time → Action E S A) → Action E S A
  unfolding close
  transaction failure body env w =
      if env.outage w.step
      then (err failure, tick w)
      else (let (r, w') = body (env.clock w.step) env (tick w) in close failure w.store r env w')

-- The same call, its error put into another type.
unfoldable pub map_error {ℓ} : {E F S A : Type ℓ} → (E → F) → Action E S A → Action F S A
map_error f m env w = let (r, w') = m env w in (elim r [ ok a ↦ ok a | err e ↦ err (f e) ], w')

-- The outcome of a call as a value, for a caller that looks at the error.
unfoldable pub attempt {ℓ} : {E F S A : Type ℓ} → Action E S A → Action F S (Result E A)
attempt m env w = let (r, w') = m env w in (ok r, w')

abbrev pub handled {ℓ} : {E S A : Type ℓ} → Result E A → (E → Action E S A) → Action E S A
handled (ok a) h env w = (ok a, w)
handled (err e) h env w = h e env w

-- `if err != nil { … }` with more than a return in it.
unfoldable pub on_error {ℓ} : {E S A : Type ℓ} → Action E S A → (E → Action E S A) → Action E S A
on_error m h env w = let (r, w') = m env w in handled r h env w'

-- `time.Sleep`: the readings of the clock that follow are arbitrary anyway.
unfoldable pub sleep : {E S : Type 0} → ℕ → Action E S (Unit {0})
sleep duration env w = (ok tt, w)

module _ {ℓ} {E S : Type ℓ} where
  unfoldable pub get_store : Action E S S
  get_store env w = (ok w.store, w)

-- `if err := ctx.Err(); err != nil { return err }`
unfoldable pub check_context {ℓ} : {E S : Type ℓ} → E → Action E S (Unit {ℓ})
check_context cancelled env w =
    if env.outage w.step then (err cancelled, tick w) else (ok tt, tick w)

-- A change of the state that can not fail.
unfoldable pub modify {ℓ} : {E S : Type ℓ} → (S → S) → Action E S (Unit {ℓ})
modify f env w = (ok tt, record w { store = f w.store })

-- An action on a part of the state.
unfoldable pub on_part : {E S T A : Type 0} → (S → T) → (T → S → S) → Action E T A → Action E S A
on_part part put m env w =
    let (r, v) = m env (record { step = w.step; store = part w.store }) in
    (r, record { step = v.step; store = put v.store w.store })
