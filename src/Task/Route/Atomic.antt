-- ===== src/Task/Route/Atomic.antt =====
-- A refused request to the task API changes nothing.
use cc_orchestrator.Prelude.{
  ℕ, ◌≤◌, String, ◌≡◌, ◌⊎◌, inl, inr, refl, Bool, Option, none, some, List, Result, ok, err, arith,
  ◌==◌, Bool-cases,
}
use cc_orchestrator.Prelude.Int.{ℤ}
use cc_orchestrator.Action.{Env, World, Action, lift, modify, statement, pure, ◌>>=◌}
use cc_orchestrator.Action.Keeps.{
  Keeps, pure-Keeps, lift-Keeps, bind-Keeps, query-Keeps, fail_if-Keeps, time_now-Keeps,
  attempt-Keeps,
}
use cc_orchestrator.Http.{Read, Request, Response, Handler, reply, get, serve, write_json}
use cc_orchestrator.Http.Answers.{Runs, Either, Any, Keeps-Runs, lift-Runs}
use cc_orchestrator.Http.Reverts.{
  Reverts, reading-Reverts, bind-Reverts, last-Reverts, map_error-Reverts,
}
use cc_orchestrator.Auth.Db.Table.{select, has_key}
use cc_orchestrator.Task.{Task}
use cc_orchestrator.Task.Errors.{
  TaskError, invalid_title, invalid_page, invalid_id, invalid_priority, not_found, duplicate_title,
  transition, db_error,
}
use cc_orchestrator.Task.Store.{
  TaskRow, save, upsert_task, row_of_task, row_id, title_taken, some_row,
}
use cc_orchestrator.Task.Store.Laws.{find_by_id-Keeps, find_by_title-Keeps}
use cc_orchestrator.Task.Service
use cc_orchestrator.Task.Service.{TaskDto, is_duplicated}
use cc_orchestrator.Task.Service.Laws.{new_id-Keeps}
use cc_orchestrator.Task.Service.Listing
use cc_orchestrator.Task.Service.Listing.{list_page, list_tasks_page, count_tasks}
use cc_orchestrator.Task.Route.{
  Body, Formats, Endpoint, error_response, read_or_refuse, query_int, write_error, decode_json_body,
  parse_query_int, max_body_bytes, or_write, new_router, create, list, get_task, start, complete,
  change_priority, post_tasks, get_tasks, get_one, post_start, post_complete, post_priority,
}

-- An error, by its status and its body.
abbrev pub IsError : Response Body → Type 0
IsError resp = (400 ≤ resp.status) × ((msg : String) × (resp.body ≡ error_response msg))

abbrev pub IsDone : Response Body → Type 0
IsDone resp = (resp.status ≡ 200) ⊎ (resp.status ≡ 201)

write_error-IsError : (e : TaskError) → IsError (write_error e)
unfolding write_error write_json
write_error-IsError not_found = (omega arith, (_, refl))
write_error-IsError (invalid_title e) = (omega arith, (_, refl))
write_error-IsError (invalid_page e) = (omega arith, (_, refl))
write_error-IsError invalid_id = (omega arith, (_, refl))
write_error-IsError invalid_priority = (omega arith, (_, refl))
write_error-IsError duplicate_title = (omega arith, (_, refl))
write_error-IsError (transition e) = (omega arith, (_, refl))
write_error-IsError db_error = (omega arith, (_, refl))

module _ (rows : List TaskRow) where
  abbrev Same : List TaskRow → Type 0
  Same now = now ≡ rows

  save-Reverts : (t : Task) → Reverts rows Any Any (save t)
  unfolding save statement upsert_task
  save-Reverts t = record {
    reverts = λ env w same. elim (Bool-cases (env.outage w.step)) [
      | inl down ↦ rw down (tt, same)
      | inr up ↦ elim (Bool-cases (some_row (select (title_taken (row_of_task t)) w.store))) [
        | inl taken ↦ rw (up, taken) (tt, same)
        | inr free ↦ elim (Bool-cases (has_key row_id (row_of_task t).id w.store)) [
          | inl known ↦ rw (up, free, known) tt
          | inr new ↦ rw (up, free, new) tt
        ]
      ]
    ];
  }

  read :
      {A C : Type 0} {m : Action TaskError (List TaskRow) A}
      {f : A → Action TaskError (List TaskRow) C}
      → Keeps Same m
      → ((a : A) → Reverts rows Any Any (f a))
      → Reverts rows Any Any (m >>= f)
  read k kf = bind-Reverts (Keeps-Runs k) λ a any. kf a

  only_reads :
      {A : Type 0} {m : Action TaskError (List TaskRow) A} → Keeps Same m → Reverts rows Any Any m
  only_reads k = reading-Reverts (Keeps-Runs k)

  saved : (t : Task) (dto : TaskDto) → Reverts rows Any Any (save t >>= λ x. pure dto)
  saved t dto = last-Reverts _ (save-Reverts t) λ a any. tt

  create-Reverts : (title priority : String) → Reverts rows Any Any (Service.create title priority)
  unfolding Service.create is_duplicated
  create-Reverts title priority = read (lift-Keeps _) λ t. read (lift-Keeps _) λ p.
      read (bind-Keeps (attempt-Keeps (find_by_title-Keeps t)) λ found. lift-Keeps _) λ taken.
        read (fail_if-Keeps taken _)
          λ x. read time_now-Keeps λ now. read new_id-Keeps λ id. saved _ _

  get-Reverts : (id : String) → Reverts rows Any Any (Service.get id)
  unfolding Service.get
  get-Reverts id =
      only_reads (bind-Keeps (lift-Keeps _) λ i. bind-Keeps (find_by_id-Keeps i) λ t. pure-Keeps _)

  start-Reverts : (id : String) → Reverts rows Any Any (Service.start id)
  unfolding Service.start
  start-Reverts id = read (lift-Keeps _) λ i.
      read (find_by_id-Keeps i) λ t. read time_now-Keeps λ now. read (lift-Keeps _) λ s. saved _ _

  complete-Reverts : (id : String) → Reverts rows Any Any (Service.complete id)
  unfolding Service.complete
  complete-Reverts id = read (lift-Keeps _) λ i.
      read (find_by_id-Keeps i) λ t. read time_now-Keeps λ now. read (lift-Keeps _) λ s. saved _ _

  change_priority-Reverts :
      (id priority : String) → Reverts rows Any Any (Service.change_priority id priority)
  unfolding Service.change_priority
  change_priority-Reverts id priority = read (lift-Keeps _) λ i.
      read (lift-Keeps _) λ p. read (find_by_id-Keeps i) λ t. read time_now-Keeps λ now. saved _ _

  -- No other request writes between the two statements of a listing.
  undisturbed-Keeps : {P : List TaskRow → Type 0} → Keeps {E = TaskError} P (modify λ rows'. rows')
  unfolding modify
  undisturbed-Keeps = record { keeps = λ env w h. h }

  list-Reverts :
      (before : String → String → Bool) (limit offset : Option ℤ)
      → Reverts rows Any Any (Listing.list before (λ rows'. rows') limit offset)
  unfolding Listing.list list_page list_tasks_page count_tasks
  list-Reverts before limit offset = only_reads (
      bind-Keeps (lift-Keeps _) λ page.
        bind-Keeps
          (bind-Keeps (query-Keeps _ _ λ now rows' h. h) λ total.
            bind-Keeps undisturbed-Keeps λ undisturbed.
              bind-Keeps (query-Keeps _ _ λ now rows' h. h)
                λ found. bind-Keeps (lift-Keeps _) λ tasks. pure-Keeps _)
          λ result. pure-Keeps _)

module _ (f : Formats) (r : Request) (rows : List TaskRow) where
  abbrev Ends : Handler Body (List TaskRow) (Response Body) → Type 0
  Ends m = Reverts rows IsError IsDone m

  abbrev SameRows : List TaskRow → Type 0
  SameRows now = now ≡ rows

  -- A call of the service, and the response to what it returns.
  answered :
      {A : Type 0} {m : Action TaskError (List TaskRow) A} (respond : A → Response Body)
      → Reverts rows Any Any m
      → ((a : A) → IsDone (respond a))
      → Ends (or_write f m >>= λ a. pure (respond a))
  answered respond k done =
      last-Reverts respond (map_error-Reverts write_error k λ e any. write_error-IsError e)
        λ a any. done a

  decode-Runs :
      {A : Type 0} (decode : ℕ → String → Read A)
      → Runs SameRows IsError Any (decode_json_body decode r)
  unfolding decode_json_body write_json
  decode-Runs {A} decode = lift-Runs _ (go (decode max_body_bytes r.body))
    where
      go : (o : Read A) → Either IsError Any (read_or_refuse o)
      go (Read.done a) = tt
      go Read.too_large = (omega arith, (_, refl))
      go Read.malformed = (omega arith, (_, refl))

  query-Runs : (name msg : String) → Runs SameRows IsError Any (lift (parse_query_int f name msg r))
  unfolding parse_query_int write_json
  query-Runs name msg = lift-Runs _ (elim (Bool-cases (get name r.query == "")) [
    | inl absent ↦ rw absent tt
    | inr given ↦ rw given (go (f.atoi (get name r.query)))
  ])
    where
      go : (o : Option ℤ) → Either IsError Any (query_int f msg o)
      go none = (omega arith, (_, refl))
      go (some v) = tt

  new_router-Ends : (e : Endpoint f) → Ends (new_router f e r)
  unfolding new_router create list get_task start complete change_priority write_json
  new_router-Ends post_tasks =
      bind-Reverts (decode-Runs _)
        λ req any. answered _ (create-Reverts rows req.title req.priority) λ dto. inr refl
  new_router-Ends get_tasks = bind-Reverts (query-Runs _ _) λ limit any.
      bind-Reverts (query-Runs _ _)
        λ offset any'. answered _ (list-Reverts rows f.before limit offset) λ dto. inl refl
  new_router-Ends get_one = answered _ (get-Reverts rows r.path_id) λ dto. inl refl
  new_router-Ends post_start = answered _ (start-Reverts rows r.path_id) λ dto. inl refl
  new_router-Ends post_complete = answered _ (complete-Reverts rows r.path_id) λ dto. inl refl
  new_router-Ends post_priority =
      bind-Reverts (decode-Runs _)
        λ req any. answered _ (change_priority-Reverts rows r.path_id req.priority) λ dto. inl refl

-- Every request to a task endpoint is answered with 200 or 201, or else with an error of a status of at least
-- 400, and then the table is as it was.
pub new_router-answers :
    (f : Formats) (e : Endpoint f) (r : Request) (env : Env) (w : World (List TaskRow))
    → IsDone (serve (new_router f e r) env w).0
      ⊎ (IsError (serve (new_router f e r) env w).0
          × ((serve (new_router f e r) env w).1.store ≡ w.store))
unfolding serve
new_router-answers f e r env w =
    go (new_router f e r env w).0 (new_router f e r env w).1
      ((new_router-Ends f r w.store e).reverts env w refl)
  where
    go :
        (o : Result (Response Body) (Response Body)) (v : World (List TaskRow))
        → Either (λ x. IsError x × (v.store ≡ w.store)) IsDone o
        → IsDone (reply o) ⊎ (IsError (reply o) × (v.store ≡ w.store))
    go (ok x) v done = inl done
    go (err x) v refused = inr refused
