-- ===== src/Task/Route/Tests.antt =====
-- A request with a bearer token that a cached key verifies.
use cc_orchestrator.Prelude.{
  List, ℕ, ◌⊎◌, ◌≡◌, true, false, none, some, [], ◌∷◌, ◌==◌, if◌then◌else◌,
}
use cc_orchestrator.Prelude.Int.{pos}
use cc_orchestrator.Action.{Env, World}
use cc_orchestrator.Http.{Read, Request, serve}
use cc_orchestrator.Task.Route.{
  post_complete, Formats, Api, Verifier, auth_middleware, on_rows, new_router, get_tasks,
}
use cc_orchestrator.Task.Route.Atomic.{IsDone, IsError, new_router-answers}
use cc_orchestrator.Task.Store.{TaskRow}
use cc_orchestrator.Task.Route.Laws.{IsAdmitted, IsRefused, auth_middleware-admits}

abbrev formats : Formats
formats = record {
  create_task = λ n s. Read.done (record { title = s; priority = "low" });
  change_priority = λ n s. Read.done (record { priority = s });
  atoi = λ s. some (pos 1);
  format = λ t. "now";
  before = λ a b. true;
}

-- The verification succeeds for the signature "s" only.
abbrev verifier : Verifier ℕ
verifier = record {
  libraries = record {
    decode = λ s. if s == "s" then some (1 ∷ []) else some [];
    parse_header = λ bytes. some (record { alg = "RS256"; kid = "k1" });
    parse_claims = λ bytes. some (record {
      issuer = "https://op";
      subject = "u1";
      audience = "api" ∷ [];
      expires_at = pos 10;
      scope = "";
    });
    sha256 = λ s. [];
    rsa_verify = λ key digest signature. true;
    public_key = λ n e. some 7;
    get_jwks = λ n. none;
  };
  issuer = "https://op";
  audience = "api";
}

abbrev api : World (Api ℕ)
api = record {
  step = 0;
  store = record {
    rows = [];
    cache = record { keys = record { kid = "k1"; key = 7 } ∷ []; fetched_at = 900 };
  };
}

abbrev calm : Env
calm = record { clock = λ i. 1000; entropy = λ i n. some (i ∷ []); outage = λ i. false }

abbrev request : Request
request = record {
  method = "GET";
  path = "/tasks";
  path_id = "";
  query = [];
  headers = ("Authorization", "Bearer h.p.s") ∷ [];
  cookies = [];
  body = "";
  form = λ n. Read.done [];
}

auth_middleware-admits_example :
    IsAdmitted verifier
      (λ r. on_rows (new_router formats get_tasks r))
      request
      calm
      api
      (serve
        (auth_middleware (some verifier) (λ r. on_rows (new_router formats get_tasks r)) request)
        calm
        api)
    ⊎ IsRefused verifier
        (λ r. on_rows (new_router formats get_tasks r))
        request
        calm
        api
        (serve
          (auth_middleware (some verifier) (λ r. on_rows (new_router formats get_tasks r)) request)
          calm
          api)
auth_middleware-admits_example =
    auth_middleware-admits verifier (λ r. on_rows (new_router formats get_tasks r)) request calm api

-- A task that is not started.
abbrev one_task : World (List TaskRow)
one_task = record {
  step = 0;
  store =
      record {
        id = "t1";
        title = "write";
        status = "todo";
        priority = "low";
        created_at = 5;
        updated_at = 5;
      }
      ∷ [];
}

abbrev completion : Request
completion = record request { method = "POST"; path_id = "t1" }

new_router-answers_example :
    IsDone (serve (new_router formats post_complete completion) calm one_task).0
    ⊎ (IsError (serve (new_router formats post_complete completion) calm one_task).0
        × ((serve (new_router formats post_complete completion) calm one_task).1.store
            ≡ one_task.store))
new_router-answers_example = new_router-answers formats post_complete completion calm one_task
