-- ===== src/Task/Service/Laws.antt =====
-- Every operation keeps the keys of the table, and a task that is created can be fetched.
use cc_orchestrator.Prelude.{suc, String, ◌≡◌, false, some, List, [], ◌∷◌, Result, ok, err, ◌==◌}
use cc_orchestrator.Action.{Env, World, lift, attempt, fail_if, statement, ◌>>=◌}
use cc_orchestrator.Action.Keeps.{
  Keeps, pure-Keeps, lift-Keeps, attempt-Keeps, fail_if-Keeps, time_now-Keeps, bind-Keeps,
}
use cc_orchestrator.Task.{Task}
use cc_orchestrator.Task.Id.{new_id}
use cc_orchestrator.Task.Titles.{new_title}
use cc_orchestrator.Task.Errors.{TaskError, duplicate_title}
use cc_orchestrator.Task.Store.{
  TaskRow, find_by_title, get_task_by_title, found_task, task_from_row,
}
use cc_orchestrator.Task.Store.Laws.{HasKeys, save-Keeps, find_by_id-Keeps, find_by_title-Keeps}
use cc_orchestrator.Auth.Db.Table.{select}
use cc_orchestrator.Task.Service.{
  TaskDto, is_duplicated, create, get, start, change_priority, complete,
}

-- The calls of the service.
pub data Request : Type 0 where
  create_task : String → String → Request
  get_task start_task complete_task : String → Request
  prioritize_task : String → String → Request

unfoldable pub serve :
    Request → Env → World (List TaskRow) → Result TaskError TaskDto × World (List TaskRow)
serve (create_task title priority) = create title priority
serve (get_task id) = get id
serve (start_task id) = start id
serve (complete_task id) = complete id
serve (prioritize_task id priority) = change_priority id priority

unfoldable pub serve_all : List (Request × Env) → World (List TaskRow) → World (List TaskRow)
serve_all [] w = w
serve_all ((r, env) ∷ rs) w = serve_all rs (serve r env w).1

pub new_id-Keeps : {P : List TaskRow → Type 0} → Keeps P (new_id {E = TaskError})
unfolding new_id
new_id-Keeps = record { keeps = λ env w h. h }

create-Keeps : (title priority : String) → Keeps HasKeys (create title priority)
unfolding create is_duplicated
create-Keeps title priority = bind-Keeps (lift-Keeps _) λ t. bind-Keeps (lift-Keeps _) λ p.
    bind-Keeps (bind-Keeps (attempt-Keeps (find_by_title-Keeps t)) λ f. lift-Keeps _) λ taken.
      bind-Keeps (fail_if-Keeps taken _) λ x.
        bind-Keeps time_now-Keeps
          λ now. bind-Keeps new_id-Keeps λ id. bind-Keeps (save-Keeps _) λ y. pure-Keeps _

serve-Keeps : (r : Request) → Keeps HasKeys (serve r)
unfolding serve get start complete change_priority
serve-Keeps (create_task title priority) = create-Keeps title priority
serve-Keeps (get_task id) =
    bind-Keeps (lift-Keeps _) λ i. bind-Keeps (find_by_id-Keeps i) λ t. pure-Keeps _
serve-Keeps (start_task id) = bind-Keeps (lift-Keeps _) λ i. bind-Keeps (find_by_id-Keeps i) λ t.
    bind-Keeps time_now-Keeps
      λ now. bind-Keeps (lift-Keeps _) λ s. bind-Keeps (save-Keeps _) λ y. pure-Keeps _
serve-Keeps (complete_task id) = bind-Keeps (lift-Keeps _) λ i. bind-Keeps (find_by_id-Keeps i) λ t.
    bind-Keeps time_now-Keeps
      λ now. bind-Keeps (lift-Keeps _) λ s. bind-Keeps (save-Keeps _) λ y. pure-Keeps _
serve-Keeps (prioritize_task id priority) = bind-Keeps (lift-Keeps _) λ i.
    bind-Keeps (lift-Keeps _) λ p.
      bind-Keeps (find_by_id-Keeps i)
        λ t. bind-Keeps time_now-Keeps λ now. bind-Keeps (save-Keeps _) λ y. pure-Keeps _

-- Whatever requests are served, in any order and with any failures, no two tasks ever share an
-- identifier or a title, if none did before.
pub serve_all-HasKeys :
    (rs : List (Request × Env)) (w : World (List TaskRow))
    → HasKeys w.store
    → HasKeys (serve_all rs w).store
unfolding serve_all
serve_all-HasKeys [] w h = h
serve_all-HasKeys ((r, env) ∷ rs) w h =
    serve_all-HasKeys rs (serve r env w).1 ((serve-Keeps r).keeps env w h)

-- While the database is up, a title that a stored task has, after trimming, can not be used for another,
-- and nothing is stored.
create_duplicate :
    (title trimmed priority : String) (env : Env) (w : World (List TaskRow)) (row : TaskRow)
    (t : Task)
    → new_title title ≡ ok trimmed
    → (priority ≡ "")
    → env.outage w.step ≡ false
    → select (λ r. r.title == trimmed) w.store ≡ some row
    → task_from_row row ≡ ok t
    → create title priority env w
      ≡ (err duplicate_title, record { step = suc w.step; store = w.store })
unfolding create is_duplicated find_by_title found_task get_task_by_title statement attempt fail_if
    lift ◌>>=◌
create_duplicate title trimmed priority env w row t named plain up stored decodes =
    rw (named, plain, up, stored, decodes)
