-- ===== src/Task/Store.antt =====
-- The table of tasks and its repository: app/api/infra/postgres/{task_repository,task_reader,task_writer}.go,
-- over app/api/infra/postgres/sqlcgen/tasks.sql.go. The pools for reading and for writing are one database.
pub mod Laws
use cc_orchestrator.Prelude.{
  ℕ, zero, suc, String, Bool, true, false, not, ◌&&◌, ◌||◌, Option, none, some, List, [], ◌∷◌, ◌++◌,
  Result, ok, err, and_then, length, ltb, ◌=ℕ◌, ◌==◌, if◌then◌else◌,
}
use cc_orchestrator.Action.{Time, Action, raise, lift, statement, pure, ◌>>=◌}
use cc_orchestrator.Auth.Db.Table.{select, update, has_key}
use cc_orchestrator.Task
use cc_orchestrator.Task.{Task}
use cc_orchestrator.Task.Values.{
  Status, Priority, status_string, priority_string, parse_status, parse_priority,
}
use cc_orchestrator.Task.Titles.{TitleError, new_title}
use cc_orchestrator.Task.Paging.{Page}
use cc_orchestrator.Task.Errors.{TaskError, not_found, duplicate_title, db_error, invalid_id}

pub record TaskRow : Type 0 where
  pub id : String
  pub title : String
  pub status : String
  pub priority : String
  pub created_at : Time
  pub updated_at : Time

unfoldable pub parse_id : String → Result TaskError String
parse_id s = if s == "" then err invalid_id else ok s

abbrev pub decoded : {A : Type 0} → Option A → Result TaskError A
decoded none = err db_error
decoded (some a) = ok a

abbrev pub decoded_ok : {E A : Type 0} → Result E A → Result TaskError A
decoded_ok (err e) = err db_error
decoded_ok (ok a) = ok a

unfoldable pub task_from_row : TaskRow → Result TaskError Task
task_from_row row = and_then (decoded_ok (parse_id row.id)) λ id.
    and_then (decoded_ok (new_title row.title)) λ title.
      and_then (decoded (parse_status row.status)) λ status.
        and_then (decoded (parse_priority row.priority)) λ priority. ok (record {
          id = id;
          title = title;
          status = status;
          priority = priority;
          created_at = row.created_at;
          updated_at = row.updated_at;
        })

unfoldable pub row_of_task : Task → TaskRow
row_of_task t = record {
  id = t.id;
  title = t.title;
  status = status_string t.status;
  priority = priority_string t.priority;
  created_at = t.created_at;
  updated_at = t.updated_at;
}

-- SELECT … WHERE id = $1, and WHERE title = $1
unfoldable pub get_task_by_id :
    String → Time → List TaskRow → Result TaskError (Option TaskRow) × List TaskRow
get_task_by_id id now rows = (ok (select (λ r. r.id == id) rows), rows)

unfoldable pub get_task_by_title :
    String → Time → List TaskRow → Result TaskError (Option TaskRow) × List TaskRow
get_task_by_title title now rows = (ok (select (λ r. r.title == title) rows), rows)

-- `findTask`
unfoldable pub found_task : Option TaskRow → Action TaskError (List TaskRow) Task
found_task none = raise not_found
found_task (some row) = lift (task_from_row row)

unfoldable pub find_by_id : String → Action TaskError (List TaskRow) Task
find_by_id id = do row ← statement db_error (get_task_by_id id); found_task row

unfoldable pub find_by_title : String → Action TaskError (List TaskRow) Task
find_by_title title = do row ← statement db_error (get_task_by_title title); found_task row

-- The title is another row's: a violation of tasks_title_key.
abbrev pub title_taken : TaskRow → TaskRow → Bool
title_taken row r = r.title == row.title && not (r.id == row.id)

abbrev pub some_row : Option TaskRow → Bool
some_row none = false
some_row (some _) = true

-- The columns that ON CONFLICT (id) DO UPDATE sets.
abbrev pub overwrite : TaskRow → TaskRow → TaskRow
overwrite row r = record r {
  title = row.title;
  status = row.status;
  priority = row.priority;
  updated_at = row.updated_at;
}

abbrev pub row_id : TaskRow → String
row_id r = r.id

unfoldable pub upsert_task :
    TaskRow → Time → List TaskRow → Result TaskError (Unit {0}) × List TaskRow
upsert_task row now rows =
    if some_row (select (title_taken row) rows)
    then (err duplicate_title, rows)
    else if has_key row_id row.id rows
    then (ok tt, update (λ r. r.id == row.id) (overwrite row) rows)
    else (ok tt, rows ++ row ∷ [])

unfoldable pub save : Task → Action TaskError (List TaskRow) (Unit {0})
save t = statement db_error (upsert_task (row_of_task t))
