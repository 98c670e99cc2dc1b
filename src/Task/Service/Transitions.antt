-- ===== src/Task/Service/Transitions.antt =====
-- Which requests move a task, and from where.
use cc_orchestrator.Prelude.{
  String, ◌≡◌, refl, ap, ◌∙◌, true, List, ok, arith, Bool-cases, inl, inr,
}
use cc_orchestrator.Action.{Time, Env, World, pure, lift, time_now}
use cc_orchestrator.Action.Keeps.{>>=-eq-ok}
use cc_orchestrator.Task
use cc_orchestrator.Task.{Task, TransitionError, transition_to}
use cc_orchestrator.Task.Values.{Status, todo, doing, done, can_transition_to}
use cc_orchestrator.Task.Store.{TaskRow, parse_id, find_by_id, save}
use cc_orchestrator.Task.Service.{TaskDto, new_task_dto, moved, start, complete}

-- A move that is made is one of the two allowed ones, and changes the status and the time alone.
moved-ok :
    (t t' : Task) (next : Status) (now : Time)
    → moved (transition_to t next now) ≡ ok t'
    → (can_transition_to t.status next ≡ true) × (t' ≡ record t { status = next; updated_at = now })
unfolding transition_to
moved-ok t t' next now h = elim (Bool-cases (can_transition_to t.status next)) [
  | inl allowed ↦ (allowed, ground arith)
  | inr refused ↦ absurd (ground arith)
]

before_doing : (s : Status) → can_transition_to s doing ≡ true → s ≡ todo
unfolding can_transition_to
before_doing todo h = refl
before_doing doing h = cc
before_doing done h = cc

before_done : (s : Status) → can_transition_to s done ≡ true → s ≡ doing
unfolding can_transition_to
before_done todo h = cc
before_done doing h = refl
before_done done h = cc

-- A request that moves a stored task from one status to another: what is found, answered and saved.
abbrev pub Moves :
    String → Status → Status → TaskDto → Env → World (List TaskRow) → World (List TaskRow) → Type 0
Moves id source target dto env w w' =
    (t : Task) × (now : Time) × (v : World (List TaskRow)) × ((find_by_id id env w).0 ≡ ok t)
    × (t.status ≡ source)
    × (dto ≡ new_task_dto (record t { status = target; updated_at = now }))
    × (save (record t { status = target; updated_at = now }) env v ≡ (ok tt, w'))

-- A start that succeeds found the task in todo, and saved and answered it in doing, changed in its
-- status and its time of update alone.
start-Moves :
    (id : String) (env : Env) (w w' : World (List TaskRow)) (dto : TaskDto)
    → start id env w ≡ (ok dto, w')
    → Moves id todo doing dto env w w'
unfolding start parse_id lift time_now pure Task.start
start-Moves id env w w' dto h =
    let (i, w1, e1, h1) = >>=-eq-ok (lift (parse_id id)) _ env w h in
    let (t, w2, e2, h2) = >>=-eq-ok (find_by_id i) _ env w1 h1 in
    let (now, w3, e3, h3) = >>=-eq-ok time_now _ env w2 h2 in
    let (t', w4, e4, h4) = >>=-eq-ok (lift (moved (Task.start t now))) _ env w3 h3 in
    let (x, w5, e5, h5) = >>=-eq-ok (save t') _ env w4 h4 in
    let same : w1 ≡ w = ground arith in
    let named : i ≡ id = ground arith in
    let found : find_by_id id env w ≡ (ok t, w2) = cc in
    let (allowed, made) = moved-ok t t' doing now (ground arith) in
    let stored : save (record t { status = doing; updated_at = now }) env w4 ≡ (ok tt, w5) = cc in
    let last : w5 ≡ w' = ground arith in
    (
      t,
      now,
      w4,
      ap (λ o. o.0) found,
      before_doing t.status allowed,
      ground arith,
      stored ∙ ap (λ v. (ok tt, v)) last,
    )

-- A completion that succeeds found the task in doing, and saved and answered it in done, changed in its
-- status and its time of update alone.
complete-Moves :
    (id : String) (env : Env) (w w' : World (List TaskRow)) (dto : TaskDto)
    → complete id env w ≡ (ok dto, w')
    → Moves id doing done dto env w w'
unfolding complete parse_id lift time_now pure Task.complete
complete-Moves id env w w' dto h =
    let (i, w1, e1, h1) = >>=-eq-ok (lift (parse_id id)) _ env w h in
    let (t, w2, e2, h2) = >>=-eq-ok (find_by_id i) _ env w1 h1 in
    let (now, w3, e3, h3) = >>=-eq-ok time_now _ env w2 h2 in
    let (t', w4, e4, h4) = >>=-eq-ok (lift (moved (Task.complete t now))) _ env w3 h3 in
    let (x, w5, e5, h5) = >>=-eq-ok (save t') _ env w4 h4 in
    let same : w1 ≡ w = ground arith in
    let named : i ≡ id = ground arith in
    let found : find_by_id id env w ≡ (ok t, w2) = cc in
    let (allowed, made) = moved-ok t t' done now (ground arith) in
    let stored : save (record t { status = done; updated_at = now }) env w4 ≡ (ok tt, w5) = cc in
    let last : w5 ≡ w' = ground arith in
    (
      t,
      now,
      w4,
      ap (λ o. o.0) found,
      before_done t.status allowed,
      ground arith,
      stored ∙ ap (λ v. (ok tt, v)) last,
    )
