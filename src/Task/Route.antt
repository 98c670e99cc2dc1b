-- ===== src/Task/Route.antt =====
-- The presentation layer of the task API: app/api/route/{task_handler,response,auth_middleware,router,
-- health_handler}.go.
pub mod Laws
pub mod Atomic
mod Tests
use Prim.Native.String.{◌++◌}
use cc_orchestrator.Prelude.{
  ℕ, String, Bool, true, false, not, ◌||◌, Option, none, some, List, [], ◌∷◌, map, Result, ok, err,
  is_ok, ◌==◌, if◌then◌else◌,
}
use cc_orchestrator.Prelude.Int.{ℤ}
use cc_orchestrator.GoText.{cut_prefix}
use cc_orchestrator.Action.{
  Time, Action, Env, World, pure, lift, attempt, map_error, on_part, ◌>>=◌, ◌>>◌,
}
use cc_orchestrator.Http.{
  Values, Read, Request, Writer, Response, Handler, fresh, get, write_json, respond_if,
}
use cc_orchestrator.Task.{TransitionError}
use cc_orchestrator.Task.Values.{Status, status_string}
use cc_orchestrator.Task.Titles.{TitleError, empty_title, title_too_long}
use cc_orchestrator.Task.Paging.{PageError, invalid_limit, negative_offset, excessive_offset}
use cc_orchestrator.Task.Errors.{
  TaskError, invalid_title, invalid_page, invalid_id, invalid_priority, not_found, duplicate_title,
  transition, db_error,
}
use cc_orchestrator.Task.Store.{TaskRow}
use cc_orchestrator.Task.Service
use cc_orchestrator.Task.Service.{TaskDto}
use cc_orchestrator.Task.Service.Listing
use cc_orchestrator.Task.Service.Listing.{TaskListDto}
use cc_orchestrator.Task.Jwt
use cc_orchestrator.Task.Jwt.{Libraries, Cache}

pub record TaskResponse : Type 0 where
  pub id : String
  pub title : String
  pub status : String
  pub priority : String
  pub created_at : String
  pub updated_at : String

pub record TaskListResponse : Type 0 where
  pub items : List TaskResponse
  pub total : ℕ
  pub limit : ℕ
  pub offset : ℕ

pub data Body : Type 0 where
  error_response : String → Body
  task : TaskResponse → Body
  tasks : TaskListResponse → Body
  health : String → Body

pub record CreateTaskRequest : Type 0 where
  pub title : String
  pub priority : String

pub record ChangePriorityRequest : Type 0 where
  pub priority : String

-- encoding/json behind http.MaxBytesReader, strconv.Atoi and time.Format, and the database's collation
pub record Formats : Type 0 where
  pub create_task : ℕ → String → Read CreateTaskRequest
  pub change_priority : ℕ → String → Read ChangePriorityRequest
  pub atoi : String → Option ℤ
  pub format : Time → String
  pub before : String → String → Bool

-- 1 MiB
abbrev pub max_body_bytes : ℕ
max_body_bytes = 1_048_576

abbrev pub error_json : ℕ → String → Response Body
error_json status msg = write_json fresh status (error_response msg)

-- writeBadRequest
abbrev pub bad_request : String → Response Body
bad_request msg = error_json 400 msg

abbrev pub read_or_refuse : {A : Type 0} → Read A → Result (Response Body) A
read_or_refuse (Read.done a) = ok a
read_or_refuse Read.too_large = err (error_json 413 "request body too large")
read_or_refuse Read.malformed = err (bad_request "invalid request body")

unfoldable pub decode_json_body :
    {A S : Type 0} → (ℕ → String → Read A) → Request → Handler Body S A
decode_json_body decode r = lift (read_or_refuse (decode max_body_bytes r.body))

abbrev pub title_message : TitleError → String
title_message empty_title = "title must not be empty"
title_message title_too_long = "title is too long"

abbrev pub page_message : PageError → String
page_message invalid_limit = "limit must be at least 1"
page_message negative_offset = "offset must be at least 0"
page_message excessive_offset = "offset must not exceed 10000"

-- TransitionError.Error, which is the message of the ConflictError that it unwraps to
unfoldable pub transition_message : TransitionError → String
transition_message e =
    "task: cannot transition from "
    ++ (status_string e.source ++ (" to " ++ status_string e.target))

-- The category of an error gives the status.
unfoldable pub write_error : TaskError → Response Body
unfolding transition_message
write_error not_found = error_json 404 "task not found"
write_error (invalid_title e) = error_json 400 (title_message e)
write_error (invalid_page e) = error_json 400 (page_message e)
write_error invalid_id = error_json 400 "invalid task id"
write_error invalid_priority = error_json 400 "invalid priority"
write_error duplicate_title = error_json 409 "task title already exists"
write_error (transition e) = error_json 409 (transition_message e)
write_error db_error = error_json 500 "internal server error"

module _ (f : Formats) where
  unfoldable pub new_task_response : TaskDto → TaskResponse
  new_task_response dto = record {
    id = dto.id;
    title = dto.title;
    status = dto.status;
    priority = dto.priority;
    created_at = f.format dto.created_at;
    updated_at = f.format dto.updated_at;
  }

  unfoldable pub new_task_list_response : TaskListDto → TaskListResponse
  unfolding new_task_response
  new_task_list_response dto = record {
    items = map new_task_response dto.items;
    total = dto.total;
    limit = dto.limit;
    offset = dto.offset;
  }

  abbrev pub query_int : String → Option ℤ → Result (Response Body) (Option ℤ)
  query_int msg none = err (bad_request msg)
  query_int msg (some v) = ok (some v)

  unfoldable pub parse_query_int : String → String → Request → Result (Response Body) (Option ℤ)
  parse_query_int name msg r =
      let raw = get name r.query in if raw == "" then ok none else query_int msg (f.atoi raw)

  abbrev pub or_write :
      {A : Type 0} → Action TaskError (List TaskRow) A → Handler Body (List TaskRow) A
  or_write m = map_error write_error m

  unfoldable pub create : Request → Handler Body (List TaskRow) (Response Body)
  create r = do
    req ← decode_json_body f.create_task r
    dto ← or_write (Service.create req.title req.priority)
    pure (write_json fresh 201 (task (new_task_response dto)))

  unfoldable pub list : Request → Handler Body (List TaskRow) (Response Body)
  list r = do
    limit ← lift (parse_query_int "limit" "limit must be an integer" r)
    offset ← lift (parse_query_int "offset" "offset must be an integer" r)
    dto ← or_write (Listing.list f.before (λ rows. rows) limit offset)
    pure (write_json fresh 200 (tasks (new_task_list_response dto)))

  unfoldable pub get_task : Request → Handler Body (List TaskRow) (Response Body)
  get_task r = do
    dto ← or_write (Service.get r.path_id)
    pure (write_json fresh 200 (task (new_task_response dto)))

  unfoldable pub start : Request → Handler Body (List TaskRow) (Response Body)
  start r = do
    dto ← or_write (Service.start r.path_id)
    pure (write_json fresh 200 (task (new_task_response dto)))

  unfoldable pub complete : Request → Handler Body (List TaskRow) (Response Body)
  complete r = do
    dto ← or_write (Service.complete r.path_id)
    pure (write_json fresh 200 (task (new_task_response dto)))

  unfoldable pub change_priority : Request → Handler Body (List TaskRow) (Response Body)
  change_priority r = do
    req ← decode_json_body f.change_priority r
    dto ← or_write (Service.change_priority r.path_id req.priority)
    pure (write_json fresh 200 (task (new_task_response dto)))

  -- The patterns of the router, by their handlers; the choice is http.ServeMux's.
  pub data Endpoint : Type 0 where
    post_tasks get_tasks get_one post_start post_complete post_priority : Endpoint

  unfoldable pub new_router : Endpoint → Request → Handler Body (List TaskRow) (Response Body)
  new_router post_tasks = create
  new_router get_tasks = list
  new_router get_one = get_task
  new_router post_start = start
  new_router post_complete = complete
  new_router post_priority = change_priority

-- The state of the API: the table, and the keys of the verifier.
pub record Api (Key : Type 0) : Type 0 where
  pub rows : List TaskRow
  pub cache : Cache Key

pub record Verifier (Key : Type 0) : Type 0 where
  pub libraries : Libraries Key
  pub issuer : String
  pub audience : String

module _ {Key : Type 0} where
  abbrev pub put_rows : List TaskRow → Api Key → Api Key
  put_rows rows api = record api { rows = rows }

  abbrev pub put_cache : Cache Key → Api Key → Api Key
  put_cache cache api = record api { cache = cache }

  abbrev pub on_rows : {A : Type 0} → Handler Body (List TaskRow) A → Handler Body (Api Key) A
  on_rows m = on_part (λ (api : Api Key). api.rows) put_rows m

  unfoldable pub verify_token : Verifier Key → String → Handler Body (Api Key) (Unit {0})
  verify_token v t =
      map_error (λ e. error_json 401 "invalid or expired token")
        (on_part (λ (api : Api Key). api.cache) put_cache
          (Jwt.verify v.libraries v.issuer v.audience t))

  unfoldable pub check_token : Verifier Key → Option String → Handler Body (Api Key) (Unit {0})
  check_token v none = lift (err (error_json 401 "missing or invalid Authorization header"))
  check_token v (some t) = do
    respond_if (t == "") (error_json 401 "missing or invalid Authorization header")
    verify_token v t

  -- Without a verifier every request passes.
  unfoldable pub auth_middleware :
      Option (Verifier Key)
      → (Request → Handler Body (Api Key) (Response Body))
      → Request
      → Handler Body (Api Key) (Response Body)
  auth_middleware none next r = next r
  auth_middleware (some v) next r = do
    check_token v (cut_prefix (get "Authorization" r.headers) "Bearer ")
    next r

-- GET /health
unfoldable pub health_route : {S : Type 0} → Handler Body S (Response Body)
health_route = pure (write_json fresh 200 (health "ok"))
