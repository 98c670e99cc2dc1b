-- ===== src/Task/Tests.antt =====
-- The theorems about tasks at concrete tasks.
use cc_orchestrator.GoText.{trim_space, trim_left, trim_right, is_space}
use cc_orchestrator.Task.Titles.{checked_title, new_title}
use cc_orchestrator.Prelude.{
  String, length, map, ◌++◌, Bool, ◌+◌, ◌⊎◌, ◌≤◌, ◌≡◌, refl, false, none, some, List, [], ◌∷◌, ok,
}
use cc_orchestrator.Prelude.Int.{pos}
use cc_orchestrator.Task.{Task}
use cc_orchestrator.Task.Values.{
  todo, low, status_string, priority_string, parse_status, parse_priority,
}
use cc_orchestrator.Task.Paging.{check_limit, check_offset, new_page}
use cc_orchestrator.Task.Lifecycle.{
  Method, start_it, complete_it, rename_it, life, statuses, life-statuses,
}
use cc_orchestrator.Action.{Time, Env, World, pure, lift, modify, statement, ◌>>=◌}
use cc_orchestrator.Auth.Db.Table.{has_key, Unique}
use cc_orchestrator.Task.Store.{TaskRow, row_id, task_from_row, parse_id}
use cc_orchestrator.Task.Store.Laws.{HasKeys, row_title}
use cc_orchestrator.Task.Service.{TaskDto, complete, new_task_dto}
use cc_orchestrator.Task.Service.Laws.{
  Request, create_task, complete_task, serve_all, serve_all-HasKeys,
}
use cc_orchestrator.Task.Service.Listing.{
  TaskListDto, list, list_page, count_tasks, list_tasks_page, order_rows, insert_row,
  tasks_from_rows, list_bounds,
}

abbrev chore : Task
chore = record {
  id = "t1";
  title = "sweep";
  status = todo;
  priority = low;
  created_at = 5;
  updated_at = 5;
}

abbrev calls : List (Method × Time)
calls = (complete_it, 6) ∷ (start_it, 7) ∷ (rename_it "mop", 8) ∷ (complete_it, 9) ∷ []

life-statuses_example :
    ((life calls chore).status ≡ statuses calls todo)
    × ((life calls chore).id ≡ "t1")
    × ((life calls chore).created_at ≡ 5)
life-statuses_example = life-statuses calls chore

abbrev calm : Env
calm = record { clock = λ i. 10; entropy = λ i n. none; outage = λ i. false }

-- A table with the task to sweep, which was started.
abbrev chore_row : TaskRow
chore_row = record {
  id = "t1";
  title = "sweep";
  status = "doing";
  priority = "low";
  created_at = 5;
  updated_at = 6;
}

abbrev table : World (List TaskRow)
table = record { step = 0; store = chore_row ∷ [] }

-- A second task is created, an equal one is refused, and the first is completed.
abbrev requests : List (Request × Env)
requests =
    (create_task "mop" "", calm)
    ∷ (create_task " mop " "high", calm)
    ∷ (complete_task "t1", calm)
    ∷ []

serve_all-HasKeys_example : HasKeys (serve_all requests table).store
serve_all-HasKeys_example = serve_all-HasKeys requests table (one_id, one_title)
  where
    one_id : Unique row_id table.store
    one_id = (unfold has_key in refl, tt)

    one_title : Unique row_title table.store
    one_title = (unfold has_key in refl, tt)

abbrev completed : TaskDto
completed = record {
  id = "t1";
  title = "sweep";
  status = "done";
  priority = "low";
  created_at = 5;
  updated_at = 10;
}

abbrev after_complete : World (List TaskRow)
after_complete = (complete "t1" calm table).1

abbrev by_text : String → String → Bool
by_text a b = false

-- Another request stores a second task in between.
abbrev twice : List TaskRow → List TaskRow
twice rows = rows ++ map (λ (row : TaskRow). record row { id = "t2"; created_at = 9 }) rows

abbrev after_list : World (List TaskRow)
after_list = (list by_text twice (some (pos 500)) none calm table).1

abbrev listing : TaskListDto
listing = record {
  items =
      record {
        id = "t1";
        title = "sweep";
        status = "doing";
        priority = "low";
        created_at = 5;
        updated_at = 6;
      }
      ∷ record {
        id = "t2";
        title = "sweep";
        status = "doing";
        priority = "low";
        created_at = 9;
        updated_at = 6;
      }
      ∷ [];
  total = 1;
  limit = 100;
  offset = 0;
}

listed : list by_text twice (some (pos 500)) none calm table ≡ (ok listing, after_list)
unfolding list list_page count_tasks list_tasks_page order_rows insert_row tasks_from_rows
    task_from_row parse_id parse_status parse_priority new_title checked_title trim_space trim_left
    trim_right is_space new_task_dto status_string priority_string new_page check_limit check_offset
    statement lift pure modify ◌>>=◌
listed = refl

list_bounds_example :
    (1 ≤ listing.limit)
    × (listing.limit ≤ 100)
    × (listing.offset ≤ 10000)
    × (listing.total ≡ length table.store)
    × (length listing.items ≤ listing.limit)
    × ((listing.offset + length listing.items ≤ length (twice table.store))
        ⊎ (length listing.items ≡ 0))
    × (after_list.store ≡ twice table.store)
list_bounds_example =
    list_bounds by_text twice (some (pos 500)) none calm table after_list listing listed
