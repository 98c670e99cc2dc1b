-- ===== src/Task/Lifecycle.antt =====
-- The life of a task: any sequence of its methods.
use cc_orchestrator.Prelude.{ℕ, ◌≤◌, String, ◌≡◌, refl, ap, ◌∙◌, List, [], ◌∷◌, Result, ok, arith}
use cc_orchestrator.Action.{Time}
use cc_orchestrator.Task.Values.{Status, Priority, todo, doing, done, can_transition_to}
use cc_orchestrator.Task.{
  Task, TransitionError, transition_to, start, complete, rename, change_priority,
}

pub data Method : Type 0 where
  start_it complete_it : Method
  rename_it : String → Method
  reprioritize : Priority → Method

-- One call, at a time, with its error.
unfoldable pub call : Method → Time → Task → Result TransitionError (Unit {0}) × Task
call start_it now t = start t now
call complete_it now t = complete t now
call (rename_it title) now t = (ok tt, rename t title now)
call (reprioritize p) now t = (ok tt, change_priority t p now)

unfoldable pub life : List (Method × Time) → Task → Task
life [] t = t
life ((m, now) ∷ ms) t = life ms (call m now t).1

-- The state machine that the methods drive, on statuses alone: a method that is not allowed leaves
-- the status as it is.
unfoldable pub step_status : Method → Status → Status
step_status start_it todo = doing
step_status complete_it doing = done
step_status _ s = s

unfoldable pub statuses : List (Method × Time) → Status → Status
statuses [] s = s
statuses ((m, _) ∷ ms) s = statuses ms (step_status m s)

start-step :
    (t : Task) (now : Time) (s : Status)
    → t.status ≡ s
    → (start t now).1.status ≡ step_status start_it s
unfolding start transition_to can_transition_to step_status
start-step t now todo h = ground arith
start-step t now doing h = ground arith
start-step t now done h = ground arith

complete-step :
    (t : Task) (now : Time) (s : Status)
    → t.status ≡ s
    → (complete t now).1.status ≡ step_status complete_it s
unfolding complete transition_to can_transition_to step_status
complete-step t now todo h = ground arith
complete-step t now doing h = ground arith
complete-step t now done h = ground arith

call-step : (m : Method) (now : Time) (t : Task) → (call m now t).1.status ≡ step_status m t.status
unfolding call rename change_priority step_status
call-step start_it now t = start-step t now t.status refl
call-step complete_it now t = complete-step t now t.status refl
call-step (rename_it title) now t = refl
call-step (reprioritize p) now t = refl

call_frame :
    (m : Method) (now : Time) (t : Task)
    → ((call m now t).1.id ≡ t.id) × ((call m now t).1.created_at ≡ t.created_at)
unfolding call start complete transition_to rename change_priority
call_frame start_it now t = (ground arith, ground arith)
call_frame complete_it now t = (ground arith, ground arith)
call_frame (rename_it title) now t = (refl, refl)
call_frame (reprioritize p) now t = (refl, refl)

-- The status of a task after any calls is that of the state machine, and its identifier and its time
-- of creation are those that it had.
pub life-statuses :
    (ms : List (Method × Time)) (t : Task)
    → ((life ms t).status ≡ statuses ms t.status)
      × ((life ms t).id ≡ t.id)
      × ((life ms t).created_at ≡ t.created_at)
unfolding life statuses
life-statuses [] t = (refl, refl, refl)
life-statuses ((m, now) ∷ ms) t =
    let (status, id, created) = life-statuses ms (call m now t).1 in
    let (same_id, same_time) = call_frame m now t in
    (status ∙ ap (statuses ms) (call-step m now t), id ∙ same_id, created ∙ same_time)

-- How far a task has come.
abbrev pub rank : Status → ℕ
rank todo = 0
rank doing = 1
rank done = 2

rank-step_status : (m : Method) (s : Status) → rank s ≤ rank (step_status m s)
unfolding step_status
rank-step_status start_it todo = ground arith
rank-step_status start_it doing = ground arith
rank-step_status start_it done = ground arith
rank-step_status complete_it todo = ground arith
rank-step_status complete_it doing = ground arith
rank-step_status complete_it done = ground arith
rank-step_status (rename_it _) s = ground arith
rank-step_status (reprioritize _) s = ground arith

rank-statuses : (ms : List (Method × Time)) (s : Status) → rank s ≤ rank (statuses ms s)
unfolding statuses
rank-statuses [] s = ground arith
rank-statuses ((m, now) ∷ ms) s =
    let one = rank-step_status m s in let more = rank-statuses ms (step_status m s) in omega arith

-- No sequence of calls takes a task back: it never returns to an earlier status.
rank-life : (ms : List (Method × Time)) (t : Task) → rank t.status ≤ rank (life ms t).status
rank-life ms t = rw (life-statuses ms t).0 (rank-statuses ms t.status)
