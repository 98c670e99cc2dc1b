-- ===== src/Task/Service/Listing.antt =====
-- `TaskReader.ListPage` of app/api/infra/postgres/task_reader.go and `TaskService.List` of
-- app/api/service/task_service.go. `before` is the order of the database's collation on identifiers.
use cc_orchestrator.Prelude.{
  ℕ, suc, ◌+◌, ◌≤◌, String, ◌≡◌, ◌⊎◌, refl, sym, ap, ◌∙◌, Bool, ◌&&◌, ◌||◌, Option, List, [], ◌∷◌,
  Result, ok, err, and_then, and_then-eq-ok, map, length, take, drop, length-take-le, take-drop,
  ltb, ◌=ℕ◌, arith, if◌then◌else◌, inl, inr,
}
use cc_orchestrator.Prelude.Int.{ℤ}
use cc_orchestrator.Action.{Time, Action, Env, World, pure, lift, modify, statement, ◌>>=◌, ◌>>◌}
use cc_orchestrator.Action.Keeps.{>>=-eq-ok}
use cc_orchestrator.Action.Atomic.{statement-ok}
use cc_orchestrator.Task.{Task}
use cc_orchestrator.Task.Paging.{PageError, Page, new_page, new_page_bounds}
use cc_orchestrator.Task.Errors.{TaskError, db_error, invalid_page}
use cc_orchestrator.Task.Store.{TaskRow, task_from_row}
use cc_orchestrator.Task.Service.{TaskDto, new_task_dto}

unfoldable pub count_tasks : Time → List TaskRow → Result TaskError ℕ × List TaskRow
count_tasks now rows = (ok (length rows), rows)

-- The loop that decodes the rows.
unfoldable pub tasks_from_rows : List TaskRow → Result TaskError (List Task)
tasks_from_rows [] = ok []
tasks_from_rows (r ∷ rs) =
    and_then (task_from_row r) λ t. and_then (tasks_from_rows rs) λ ts. ok (t ∷ ts)

pub record TaskListDto : Type 0 where
  pub items : List TaskDto
  pub total : ℕ
  pub limit : ℕ
  pub offset : ℕ

abbrev paged : Result PageError Page → Result TaskError Page
paged (ok p) = ok p
paged (err e) = err (invalid_page e)

module _ (before : String → String → Bool) where
  -- ORDER BY created_at, id
  abbrev precedes : TaskRow → TaskRow → Bool
  precedes a b = ltb a.created_at b.created_at || (a.created_at =ℕ b.created_at && before a.id b.id)

  unfoldable pub insert_row : TaskRow → List TaskRow → List TaskRow
  insert_row row [] = row ∷ []
  insert_row row (r ∷ rs) =
      let rest = insert_row row rs in if precedes row r then row ∷ r ∷ rs else r ∷ rest

  unfoldable pub order_rows : List TaskRow → List TaskRow
  order_rows [] = []
  order_rows (r ∷ rs) = insert_row r (order_rows rs)

  -- LIMIT … OFFSET …
  unfoldable pub list_tasks_page :
      ℕ → ℕ → Time → List TaskRow → Result TaskError (List TaskRow) × List TaskRow
  list_tasks_page limit offset now rows = (ok (take limit (drop offset (order_rows rows))), rows)

  -- Two statements; `others` is what other requests write to the table between them.
  unfoldable pub list_page :
      (List TaskRow → List TaskRow) → Page → Action TaskError (List TaskRow) (List Task × ℕ)
  list_page others page = do
    total ← statement db_error count_tasks
    modify others
    rows ← statement db_error (list_tasks_page page.limit page.offset)
    tasks ← lift (tasks_from_rows rows)
    pure (tasks, total)

  unfoldable pub list :
      (List TaskRow → List TaskRow)
      → Option ℤ
      → Option ℤ
      → Action TaskError (List TaskRow) TaskListDto
  list others limit offset = do
    page ← lift (paged (new_page limit offset))
    (tasks, total) ← list_page others page
    pure (record {
      items = map new_task_dto tasks;
      total = total;
      limit = page.limit;
      offset = page.offset;
    })

length-insert_row :
    (before : String → String → Bool) (row : TaskRow) (rows : List TaskRow)
    → length (insert_row before row rows) ≡ suc (length rows)
unfolding insert_row
length-insert_row before row [] = refl
length-insert_row before row (r ∷ rs) = let more = length-insert_row before row rs in ground arith

length-order_rows :
    (before : String → String → Bool) (rows : List TaskRow)
    → length (order_rows before rows) ≡ length rows
unfolding order_rows
length-order_rows before [] = refl
length-order_rows before (r ∷ rs) =
    length-insert_row before r (order_rows before rs) ∙ ap suc (length-order_rows before rs)

length-tasks_from_rows :
    (rows : List TaskRow) (tasks : List Task)
    → tasks_from_rows rows ≡ ok tasks
    → length tasks ≡ length rows
unfolding tasks_from_rows
length-tasks_from_rows [] tasks h = ground arith
length-tasks_from_rows (r ∷ rs) tasks h =
    let (t, e1, h1) = and_then-eq-ok (task_from_row r) _ h in
    let (ts, e2, h2) = and_then-eq-ok (tasks_from_rows rs) _ h1 in
    let made : t ∷ ts ≡ tasks = ground arith in
    ap length (sym made) ∙ ap suc (length-tasks_from_rows rs ts e2)

length-map : {A B : Type 0} (f : A → B) (xs : List A) → length (map f xs) ≡ length xs
length-map f [] = refl
length-map f (x ∷ xs) = ap suc (length-map f xs)

list_page-ok :
    (before : String → String → Bool) (others : List TaskRow → List TaskRow) (page : Page)
    (env : Env) (w w' : World (List TaskRow)) (tasks : List Task) (total : ℕ)
    → list_page before others page env w ≡ (ok (tasks, total), w')
    → (total ≡ length w.store)
      × (w'.store ≡ others w.store)
      × (length tasks
          ≡ length (take page.limit (drop page.offset (order_rows before (others w.store)))))
unfolding list_page lift pure count_tasks list_tasks_page modify
list_page-ok before others page env w w' tasks total h =
    let (n, w3, e3, h3) = >>=-eq-ok (statement db_error count_tasks) _ env w h in
    let (x, v3, e, k3) = >>=-eq-ok (modify others) _ env w3 h3 in
    let (rows, w4, e4, h4) =
      >>=-eq-ok (statement db_error (list_tasks_page before page.limit page.offset)) _ env v3 k3 in
    let (ts, w5, e5, h5) = >>=-eq-ok (lift (tasks_from_rows rows)) _ env w4 h4 in
    let s3 = statement-ok db_error env w w3 count_tasks n e3 in
    let s4 =
      statement-ok db_error env v3 w4 (list_tasks_page before page.limit page.offset) rows e4 in
    let same : w3.store ≡ w.store = ground arith in
    let between : v3.store ≡ others w3.store = ap (λ o. o.1.store) (sym e) in
    let changed : v3.store ≡ others w.store = between ∙ ap others same in
    let read : rows ≡ take page.limit (drop page.offset (order_rows before v3.store)) =
      ground arith in
    let decoded : tasks_from_rows rows ≡ ok tasks = ground arith in
    let kept : w4.store ≡ v3.store = ground arith in
    let last : w'.store ≡ w4.store = ground arith in
    (
      ground arith,
      last ∙ (kept ∙ changed),
      length-tasks_from_rows rows tasks decoded
          ∙ (ap length read
              ∙ ap (λ s. length (take page.limit (drop page.offset (order_rows before s))))
                  changed),
    )

-- The part of the ordered table that a page shows.
page_fits :
    (before : String → String → Bool) (m n : ℕ) (rows : List TaskRow)
    → let shown = length (take m (drop n (order_rows before rows))) in
      (shown ≤ m) × ((n + shown ≤ length rows) ⊎ (shown ≡ 0))
page_fits before m n rows =
    let all_rows = length-order_rows before rows in
    (
      length-take-le m (drop n (order_rows before rows)),
      elim (take-drop m n (order_rows before rows)) [
        | inl fits ↦ inl (rw (← all_rows) fits)
        | inr none_left ↦ inr (ap length none_left)
      ],
    )

-- A listing that succeeds has a limit from 1 to 100, whatever was asked, and an offset of at most 10000;
-- its total is the number of tasks stored when they were counted; it holds at most as many tasks as the
-- limit, and they end inside the table as it then is, after what others wrote between the count and the
-- page, or there are none; it writes nothing itself.
pub list_bounds :
    (before : String → String → Bool) (others : List TaskRow → List TaskRow)
    (limit offset : Option ℤ) (env : Env) (w w' : World (List TaskRow)) (l : TaskListDto)
    → list before others limit offset env w ≡ (ok l, w')
    → (1 ≤ l.limit)
      × (l.limit ≤ 100)
      × (l.offset ≤ 10000)
      × (l.total ≡ length w.store)
      × (length l.items ≤ l.limit)
      × ((l.offset + length l.items ≤ length (others w.store)) ⊎ (length l.items ≡ 0))
      × (w'.store ≡ others w.store)
unfolding list lift pure
list_bounds before others limit offset env w w' l h =
    let (page, w1, e1, h1) = >>=-eq-ok (lift (paged (new_page limit offset))) _ env w h in
    let ((tasks, total), w2, e2, h2) = >>=-eq-ok (list_page before others page) _ env w1 h1 in
    answer page w1 w2 tasks total (ground arith) (ground arith)
      (list_page-ok before others page env w1 w2 tasks total e2) (ground arith) (ground arith)
  where
    answer :
        (page : Page) (w1 w2 : World (List TaskRow)) (tasks : List Task) (total : ℕ)
        → new_page limit offset ≡ ok page
        → w1 ≡ w
        → (total ≡ length w1.store)
          × (w2.store ≡ others w1.store)
          × (length tasks
              ≡ length (take page.limit (drop page.offset (order_rows before (others w1.store)))))
        → l ≡ record {
          items = map new_task_dto tasks;
          total = total;
          limit = page.limit;
          offset = page.offset;
        }
        → w' ≡ w2
        → (1 ≤ l.limit)
          × (l.limit ≤ 100)
          × (l.offset ≤ 10000)
          × (l.total ≡ length w.store)
          × (length l.items ≤ l.limit)
          × ((l.offset + length l.items ≤ length (others w.store)) ⊎ (length l.items ≡ 0))
          × (w'.store ≡ others w.store)
    answer page w1 w2 tasks total asked first (counted, same, shown) made last =
        let (low, high, far) = new_page_bounds limit offset page asked in
        let (few, inside) = page_fits before page.limit page.offset (others w1.store) in
        let items = length-map new_task_dto tasks in
        let start : others w.store ≡ others w1.store =
          ap (λ (x : World (List TaskRow)). others x.store) (sym first) in
        rw (made, last, items, shown)
          (low, high, far, rw (counted, first), few, rw start inside, rw (same, first))
