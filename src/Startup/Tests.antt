-- ===== src/Startup/Tests.antt =====
-- An environment without the authorization, and a pair of pools whose reader does not answer.
use cc_orchestrator.Prelude.{
  String, ◌≡◌, ◌↔◌, true, false, some, List, [], ◌∷◌, ok, ◌==◌, not, arith, if◌then◌else◌,
}
use cc_orchestrator.Action.{Env, World}
use cc_orchestrator.Startup.{Config, Pool, Driver, open_pair}
use cc_orchestrator.Startup.Settings.{new_api_env, validate_api_env}
use cc_orchestrator.Startup.Laws.{IsComplete, HasWholeAuth, validate_api_env_iff}
use cc_orchestrator.Startup.Pools.{leftover, open_pair-leftover}

abbrev getenv : String → String
getenv v = if v == "DB_PORT" then "" else if v == "AUTH_ISSUER" then "" else "db"

validate_api_env_iff_example :
    validate_api_env (new_api_env getenv) ≡ ok tt ↔ (IsComplete getenv × HasWholeAuth getenv)
validate_api_env_iff_example = validate_api_env_iff getenv

abbrev config : String → Config
config host = record {
  host = host;
  port = "5432";
  name = "tasks";
  user = "u";
  password = "p";
  ssl_mode = "require";
}

-- Every pool opens, and those of the host "replica" do not answer.
abbrev driver : Driver
driver = record { opens = λ n c. true; answers = λ n c. not (c.host == "replica") }

abbrev calm : Env
calm = record { clock = λ i. 1000; entropy = λ i n. some (i ∷ []); outage = λ i. false }

abbrev one_pool : World (List Pool)
one_pool = record { step = 5; store = record { handle = 3; config = config "other" } ∷ [] }

open_pair-leftover_example :
    leftover driver calm (open_pair driver (config "primary") (config "replica") calm one_pool)
    ≡ record { handle = 3; config = config "other" } ∷ []
open_pair-leftover_example =
    open_pair-leftover driver calm (config "primary") (config "replica") one_pool (omega arith, tt)
