-- ===== src/Task/Service.antt =====
-- `TaskService` of app/api/service/task_service.go, and `DuplicateChecker` of app/api/domain/task/service.go.
pub mod Laws
pub mod Transitions
pub mod Listing
use cc_orchestrator.Prelude.{
  ℕ, String, Bool, true, false, Option, none, some, List, [], ◌∷◌, Result, ok, err, ◌==◌,
  if◌then◌else◌,
}
use cc_orchestrator.Action.{
  Time, Action, pure, raise, lift, attempt, fail_if, time_now, ◌>>=◌, ◌>>◌,
}
use cc_orchestrator.Task
use cc_orchestrator.Task.{Task, TransitionError}
use cc_orchestrator.Task.Values.{Priority, medium, parse_priority, status_string, priority_string}
use cc_orchestrator.Task.Titles.{TitleError, new_title}
use cc_orchestrator.Task.Id.{new_id}
use cc_orchestrator.Task.Errors.{
  TaskError, invalid_title, invalid_priority, not_found, duplicate_title, transition,
}
use cc_orchestrator.Task.Store.{TaskRow, parse_id, find_by_id, find_by_title, save}

pub record TaskDto : Type 0 where
  pub id : String
  pub title : String
  pub status : String
  pub priority : String
  pub created_at : Time
  pub updated_at : Time

unfoldable pub new_task_dto : Task → TaskDto
new_task_dto t = record {
  id = t.id;
  title = t.title;
  status = status_string t.status;
  priority = priority_string t.priority;
  created_at = t.created_at;
  updated_at = t.updated_at;
}

abbrev pub titled : Result TitleError String → Result TaskError String
titled (ok t) = ok t
titled (err e) = err (invalid_title e)

abbrev pub prioritized : Option Priority → Result TaskError Priority
prioritized none = err invalid_priority
prioritized (some p) = ok p

abbrev pub moved : Result TransitionError (Unit {0}) × Task → Result TaskError Task
moved (ok x, t) = ok t
moved (err e, t) = err (transition e)

abbrev pub duplicated : Result TaskError Task → Result TaskError Bool
duplicated (ok t) = ok true
duplicated (err not_found) = ok false
duplicated (err e) = err e

unfoldable pub is_duplicated : String → Action TaskError (List TaskRow) Bool
is_duplicated title = do found ← attempt (find_by_title title); lift (duplicated found)

unfoldable pub create : String → String → Action TaskError (List TaskRow) TaskDto
create title priority = do
  t ← lift (titled (new_title title))
  p ← lift (if priority == "" then ok medium else prioritized (parse_priority priority))
  taken ← is_duplicated t
  fail_if taken duplicate_title
  now ← time_now
  id ← new_id
  save (Task.new id now t p)
  pure (new_task_dto (Task.new id now t p))

unfoldable pub get : String → Action TaskError (List TaskRow) TaskDto
get id = do task_id ← lift (parse_id id); t ← find_by_id task_id; pure (new_task_dto t)

-- The time that `Start` and `Complete` set is read here, also when they refuse.
unfoldable pub start : String → Action TaskError (List TaskRow) TaskDto
start id = do
  task_id ← lift (parse_id id)
  t ← find_by_id task_id
  now ← time_now
  started ← lift (moved (Task.start t now))
  save started
  pure (new_task_dto started)

unfoldable pub change_priority : String → String → Action TaskError (List TaskRow) TaskDto
change_priority id priority = do
  task_id ← lift (parse_id id)
  p ← lift (prioritized (parse_priority priority))
  t ← find_by_id task_id
  now ← time_now
  save (Task.change_priority t p now)
  pure (new_task_dto (Task.change_priority t p now))

unfoldable pub complete : String → Action TaskError (List TaskRow) TaskDto
complete id = do
  task_id ← lift (parse_id id)
  t ← find_by_id task_id
  now ← time_now
  completed ← lift (moved (Task.complete t now))
  save completed
  pure (new_task_dto completed)
