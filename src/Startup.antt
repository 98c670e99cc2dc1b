-- ===== src/Startup.antt =====
-- What both servers do with their configuration at start-up: app/{api,auth}/infra/postgres/db.go, which
-- are alike, and the environments of cmd/api/env.go and cmd/authz/env.go.
pub mod Laws
pub mod Pools
pub mod Settings
pub mod Demo
mod Tests
use cc_orchestrator.Prelude.{
  ℕ, suc, String, Bool, true, false, not, ◌&&◌, Option, none, some, List, [], ◌∷◌, ◌++◌, Result, ok,
  err, ◌==◌, ◌=ℕ◌, if◌then◌else◌,
}
use cc_orchestrator.Action.{
  Action, Env, World, pure, raise, lift, attempt, fail_if, modify, on_error, ◌>>=◌, ◌>>◌,
}
use cc_orchestrator.Auth.Db.Table.{delete}

pub record Config : Type 0 where
  pub host : String
  pub port : String
  pub name : String
  pub user : String
  pub password : String
  pub ssl_mode : String

pub data StartupError : Type 0 where
  missing_variables : List String → StartupError
  open_failed ping_failed partial_auth_config : StartupError

abbrev pub missing_if : String → String → List String
missing_if value variable = if value == "" then variable ∷ [] else []

unfoldable pub missing : Config → List String
missing c =
    missing_if c.host "DB_HOST"
    ++ (missing_if c.name "DB_NAME"
        ++ (missing_if c.user "DB_USER" ++ missing_if c.password "DB_PASSWORD"))

abbrev pub none_missing : List String → Result StartupError (Unit {0})
none_missing [] = ok tt
none_missing (v ∷ vs) = err (missing_variables (v ∷ vs))

-- Config.Validate
unfoldable pub validate : Config → Result StartupError (Unit {0})
unfolding missing
validate c = none_missing (missing c)

-- A pool of connections, a `*sql.DB`, with the number that tells it from others.
pub record Pool : Type 0 where
  pub handle : ℕ
  pub config : Config

-- The n-th call of sql.Open and of PingContext.
pub record Driver : Type 0 where
  pub opens : ℕ → Config → Bool
  pub answers : ℕ → Config → Bool

-- The state is the list of the pools that are open.
abbrev pub is_pool : Pool → Pool → Bool
is_pool p q = q.handle =ℕ p.handle

unfoldable pub close : Pool → Action StartupError (List Pool) (Unit {0})
close p = modify (delete (is_pool p))

-- What `OpenPair` returns: the pools and the function that closes them.
pub record PoolPair : Type 0 where
  pub writer : Pool
  pub reader : Pool
  pub close_fn : Action StartupError (List Pool) (Unit {0})

-- The `closeFn` of two pools closes both pools, the writer first.
unfoldable pub close_both : Pool → Pool → Action StartupError (List Pool) (Unit {0})
close_both writer reader = do close writer; close reader

module _ (d : Driver) where
  -- sql.Open: a handle that no call got before
  unfoldable pub sql_open : Config → Action StartupError (List Pool) Pool
  sql_open c env w =
      if d.opens w.step c
      then (
        ok (record { handle = w.step; config = c }),
        record {
          step = suc w.step;
          store = w.store ++ record { handle = w.step; config = c } ∷ [];
        },
      )
      else (err open_failed, record w { step = suc w.step })

  unfoldable pub ping : Pool → Action StartupError (List Pool) (Unit {0})
  ping p env w =
      (if d.answers w.step p.config then ok tt else err ping_failed, record w { step = suc w.step })

  -- A pool that does not answer is closed again.
  unfoldable pub open_pool : Config → Action StartupError (List Pool) Pool
  open_pool c = do
    lift (validate c)
    p ← sql_open c
    on_error (ping p) (λ e. do close p; raise e)
    pure p

  abbrev pub same_config : Config → Config → Bool
  same_config a b =
      a.host == b.host
      && (a.port == b.port
          && (a.name == b.name
              && (a.user == b.user && (a.password == b.password && a.ssl_mode == b.ssl_mode))))

  unfoldable pub open_reader : Config → Pool → Action StartupError (List Pool) PoolPair
  open_reader reader_cfg writer = do
    reader ← on_error (open_pool reader_cfg) (λ e. do close writer; raise e)
    pure (record { writer = writer; reader = reader; close_fn = close_both writer reader })

  -- The writer and the reader, which are one pool where the configurations are equal.
  unfoldable pub open_pair : Config → Config → Action StartupError (List Pool) PoolPair
  open_pair writer_cfg reader_cfg = do
    writer ← open_pool writer_cfg
    if same_config reader_cfg writer_cfg
        then pure (record { writer = writer; reader = writer; close_fn = close writer })
        else open_reader reader_cfg writer
