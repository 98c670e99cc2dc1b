-- ===== src/Task/Store/Laws.antt =====
-- The table keeps its keys: one row per identifier and per title.
use cc_orchestrator.Prelude.{
  String, ◌≡◌, ◌⊎◌, refl, false, Option, none, some, List, [], ◌∷◌, err, arith, ◌==◌, eq_iff,
  Bool-cases, Option-cases, inl, inr,
}
use cc_orchestrator.Action.{Time, Env, World, statement}
use cc_orchestrator.Action.Keeps.{Keeps, raise-Keeps, lift-Keeps, query-Keeps, bind-Keeps}
use cc_orchestrator.Auth.Db.Table.{select, update, has_key, Unique, Unique-append, Unique-update}
use cc_orchestrator.Task.{Task}
use cc_orchestrator.Task.Errors.{TaskError, db_error, duplicate_title}
use cc_orchestrator.Task.Store.{
  TaskRow, row_id, title_taken, overwrite, upsert_task, save, row_of_task, found_task, find_by_id,
  find_by_title, get_task_by_id, get_task_by_title,
}

abbrev pub row_title : TaskRow → String
row_title r = r.title

-- No two rows share an identifier, and no two share a title.
abbrev pub HasKeys : List TaskRow → Type 0
HasKeys rows = Unique row_id rows × Unique row_title rows

module _ (row : TaskRow) where
  -- A title that no other row has is not in the table at all if the row is not.
  free_title :
      (rows : List TaskRow)
      → select (title_taken row) rows ≡ none
      → has_key row_id row.id rows ≡ false
      → has_key row_title row.title rows ≡ false
  unfolding select has_key
  free_title [] h k = refl
  free_title (x ∷ xs) h k = ground (arith, free_title xs)

  abbrev written : List TaskRow → List TaskRow
  written rows = update (λ r. r.id == row.id) (overwrite row) rows

  -- Other titles stay absent.
  title-written :
      (title : String) (rows : List TaskRow)
      → has_key row_title title rows ≡ false
      → (row.title == title) ≡ false
      → has_key row_title title (written rows) ≡ false
  unfolding update has_key
  title-written title [] h d = refl
  title-written title (x ∷ xs) h d = ground (arith, title-written title xs)

  no_row : (rows : List TaskRow) → has_key row_id row.id rows ≡ false → written rows ≡ rows
  unfolding update has_key
  no_row [] h = refl
  no_row (x ∷ xs) h = ground (arith, no_row xs)

  Unique-titles-written :
      (rows : List TaskRow)
      → select (title_taken row) rows ≡ none
      → HasKeys rows
      → Unique row_title (written rows)
  unfolding update select
  Unique-titles-written [] h u = tt
  Unique-titles-written (x ∷ xs) h ((new_id, ids), (new_title, titles)) =
      elim (Bool-cases (x.id == row.id)) [
        | inl here ↦
            let id : x.id ≡ row.id = (eq_iff x.id row.id).0 here in
            let gone : has_key row_id row.id xs ≡ false = rw (← id) new_id in
            rw (here, no_row xs gone) (free_title xs (ground arith) gone, titles)
        | inr there ↦
            let more = Unique-titles-written xs (ground arith) (ids, titles) in
            rw there (
              title-written x.title xs new_title
                  (ground (arith, eq_iff row.title x.title, eq_iff x.title row.title)),
              more,
            )
      ]

  upsert_task-HasKeys :
      (now : Time) (rows : List TaskRow) → HasKeys rows → HasKeys (upsert_task row now rows).1
  unfolding upsert_task
  upsert_task-HasKeys now rows (ids, titles) = elim (Option-cases (select (title_taken row) rows)) [
    | inr (r, taken) ↦ rw taken (ids, titles)
    | inl free ↦ elim (Bool-cases (has_key row_id row.id rows)) [
      | inl here ↦
          rw (free, here)
            (
              Unique-update row_id (λ r. r.id == row.id) (overwrite row) rows (λ r. refl) ids,
              Unique-titles-written rows free (ids, titles),
            )
      | inr new ↦
          rw (free, new)
            (
              Unique-append row_id rows row new ids,
              Unique-append row_title rows row (free_title rows free new) titles,
            )
    ]
  ]

pub save-Keeps : (t : Task) → Keeps HasKeys (save t)
unfolding save
save-Keeps t = query-Keeps _ _ (upsert_task-HasKeys (row_of_task t))

found_task-Keeps : {P : List TaskRow → Type 0} (row : Option TaskRow) → Keeps P (found_task row)
unfolding found_task
found_task-Keeps none = raise-Keeps _
found_task-Keeps (some row) = lift-Keeps _

pub find_by_id-Keeps : {P : List TaskRow → Type 0} (id : String) → Keeps P (find_by_id id)
unfolding find_by_id get_task_by_id
find_by_id-Keeps id = bind-Keeps (query-Keeps _ _ λ now rows h. h) found_task-Keeps

pub find_by_title-Keeps :
    {P : List TaskRow → Type 0} (title : String) → Keeps P (find_by_title title)
unfolding find_by_title get_task_by_title
find_by_title-Keeps title = bind-Keeps (query-Keeps _ _ λ now rows h. h) found_task-Keeps

-- A failed save leaves the table as it was; the error is a title that another task has, or the database.
save-err :
    (t : Task) (env : Env) (w w' : World (List TaskRow)) (e : TaskError)
    → save t env w ≡ (err e, w')
    → (w'.store ≡ w.store)
      × ((e ≡ db_error)
          ⊎ ((r : TaskRow) × (select (title_taken (row_of_task t)) w.store ≡ some r)
              × (e ≡ duplicate_title)))
unfolding save statement upsert_task
save-err t env w w' e h = elim (Bool-cases (env.outage w.step)) [
  | inl down ↦ (ground arith, inl (ground arith))
  | inr up ↦ elim (Option-cases (select (title_taken (row_of_task t)) w.store)) [
    | inr (r, taken) ↦ (ground arith, inr (r, taken, ground arith))
    | inl free ↦ elim (Bool-cases (has_key row_id t.id w.store)) [
      | inl here ↦ absurd (ground arith)
      | inr new ↦ absurd (ground arith)
    ]
  ]
]
