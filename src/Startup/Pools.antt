-- ===== src/Startup/Pools.antt =====
-- No pool of connections is lost: what `OpenPair` opened is closed by its error or by its close function.
use cc_orchestrator.Prelude.{
  ℕ, suc, ◌≤◌, ◌<◌, Bool, true, false, ◌≡◌, inl, inr, List, [], ◌∷◌, ◌++◌, Result, ok, err, arith,
  if◌then◌else◌, Bool-cases, Result-cases,
}
use cc_orchestrator.Action.{
  World, Env, Action, handled, pure, raise, lift, modify, on_error, continue, ◌>>=◌, ◌>>◌,
}
use cc_orchestrator.Auth.Db.Table.{delete}
use cc_orchestrator.Startup.{
  Config, Pool, PoolPair, Driver, StartupError, validate, open_pool, open_pair, close, close_both,
  open_reader, sql_open, ping, same_config, is_pool,
}

-- Each open pool has an older handle than the next call will get.
abbrev pub AllBelow : List Pool → ℕ → Type 0
AllBelow [] n = Unit {0}
AllBelow (p ∷ ps) n = (p.handle < n) × AllBelow ps n

AllBelow-le : (ps : List Pool) (m n : ℕ) → m ≤ n → AllBelow ps m → AllBelow ps n
AllBelow-le [] m n h b = tt
AllBelow-le (p ∷ ps) m n h (b, bs) = (ground arith, AllBelow-le ps m n h bs)

AllBelow-append :
    (ps : List Pool) (p : Pool) (n : ℕ) → AllBelow ps n → p.handle < n → AllBelow (ps ++ p ∷ []) n
AllBelow-append [] p n b h = (h, tt)
AllBelow-append (q ∷ ps) p n (b, bs) h = (b, AllBelow-append ps p n bs h)

-- The newest pool is the only one that is closed.
delete-append :
    (ps : List Pool) (p : Pool) → AllBelow ps p.handle → delete (is_pool p) (ps ++ p ∷ []) ≡ ps
delete-append [] p b = ground arith
delete-append (q ∷ ps) p (b, bs) = ground (arith, delete-append ps p bs)

delete-middle :
    (ps : List Pool) (p q : Pool)
    → AllBelow ps p.handle
    → p.handle < q.handle
    → delete (is_pool p) ((ps ++ p ∷ []) ++ q ∷ []) ≡ ps ++ q ∷ []
delete-middle [] p q b h = ground arith
delete-middle (r ∷ ps) p q (b, bs) h = ground (arith, delete-middle ps p q bs h)

-- What `OpenPair` does with the outcome of the second `Open`.
abbrev after_reader : Pool → Result StartupError Pool → Action StartupError (List Pool) PoolPair
after_reader writer r = do
  reader ← handled r (λ e. do close writer; raise e)
  pure (record { writer = writer; reader = reader; close_fn = close_both writer reader })

module _ (d : Driver) (env : Env) where
  -- What a call of `Open` leaves: nothing more than before, or one new pool.
  abbrev Opened : World (List Pool) → Result StartupError Pool × World (List Pool) → Type 0
  Opened w (err e, v) = (v.store ≡ w.store) × (w.step ≤ v.step)
  Opened w (ok p, v) = (v.store ≡ w.store ++ p ∷ []) × (w.step ≤ p.handle) × (p.handle < v.step)

  open_pool-Opened :
      (c : Config) (w : World (List Pool))
      → AllBelow w.store w.step
      → Opened w (open_pool d c env w)
  unfolding open_pool sql_open ping close lift raise pure modify on_error ◌>>=◌
  open_pool-Opened c w b = elim (Result-cases (validate c)) [
    | inr (e, h) ↦ rw h (ground arith)
    | inl (x, h) ↦ elim (Bool-cases (d.opens w.step c)) [
      | inr refused ↦ rw (h, refused) (ground arith)
      | inl opened ↦ elim (Bool-cases (d.answers (suc w.step) c)) [
        | inl alive ↦ rw (h, opened, alive) (ground arith)
        | inr dead ↦
            rw (h, opened, dead)
              (delete-append w.store (record { handle = w.step; config = c }) b, ground arith)
      ]
    ]
  ]

  -- The pools that are open after the close function has run, or after the error.
  abbrev pub leftover : Result StartupError PoolPair × World (List Pool) → List Pool
  leftover (err e, v) = v.store
  leftover (ok pools, v) = (pools.close_fn env v).1.store

  -- The second pool is closed after the first, or has failed and the first is closed for it.
  leftover_of_reader :
      (writer : Pool) (before : List Pool) (w : World (List Pool))
      → w.store ≡ before ++ writer ∷ []
      → AllBelow before writer.handle
      → writer.handle < w.step
      → (r : Result StartupError Pool) (v : World (List Pool)) → Opened w (r, v)
      → leftover (after_reader writer r env v) ≡ before
  unfolding close_both close modify raise pure ◌>>=◌
  leftover_of_reader writer before w e b h (err x) v (same, le) =
      rw (same, e) (delete-append before writer b)
  leftover_of_reader writer before w e b h (ok reader) v (added, low, high) =
      rw (added, e, delete-middle before writer reader b (ground arith))
        (delete-append before reader
          (AllBelow-le before writer.handle reader.handle (ground arith) b))

  leftover_of_second :
      (writer : Pool) (before : List Pool) (w : World (List Pool)) (reader_cfg : Config)
      → w.store ≡ before ++ writer ∷ []
      → AllBelow before writer.handle
      → writer.handle < w.step
      → leftover (open_reader d reader_cfg writer env w) ≡ before
  unfolding open_reader close_both close modify on_error raise pure ◌>>=◌
  leftover_of_second writer before w reader_cfg e b h =
      let r = open_pool d reader_cfg env w in
      let opened = open_pool-Opened reader_cfg w (
        rw e (
          AllBelow-append before writer w.step
            (AllBelow-le before writer.handle w.step (ground arith) b) h)) in
      leftover_of_reader writer before w e b h r.0 r.1 opened

  leftover_of_pair :
      (reader_cfg : Config) (w : World (List Pool))
      → AllBelow w.store w.step
      → (r : Result StartupError Pool) (v : World (List Pool)) → Opened w (r, v)
      → (shared : Bool)
      → leftover (
          continue r
            (λ writer.
              if shared
              then pure (record { writer = writer; reader = writer; close_fn = close writer })
              else open_reader d reader_cfg writer)
            env
            v)
        ≡ w.store
  unfolding close_both close modify pure
  leftover_of_pair reader_cfg w b (err e) v (same, le) shared = same
  leftover_of_pair reader_cfg w b (ok p) v (added, low, high) true =
      rw added (delete-append w.store p (AllBelow-le w.store w.step p.handle low b))
  leftover_of_pair reader_cfg w b (ok p) v (added, low, high) false =
      leftover_of_second p w.store v reader_cfg added (AllBelow-le w.store w.step p.handle low b)
        high

  -- Where each open pool has an older handle than the next call will get: after `OpenPair`, with or
  -- without an error, and the close function that it returned, exactly those pools are open that were
  -- open before.
  pub open_pair-leftover :
      (writer_cfg reader_cfg : Config) (w : World (List Pool))
      → AllBelow w.store w.step
      → leftover (open_pair d writer_cfg reader_cfg env w) ≡ w.store
  unfolding open_pair close_both close modify pure ◌>>=◌
  open_pair-leftover writer_cfg reader_cfg w b =
      let r = open_pool d writer_cfg env w in
      leftover_of_pair reader_cfg w b r.0 r.1 (open_pool-Opened writer_cfg w b)
        (same_config d reader_cfg writer_cfg)
