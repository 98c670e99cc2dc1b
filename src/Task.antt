-- ===== src/Task.antt =====
-- The domain of the task API, app/api/domain/task.
pub mod Values
pub mod Paging
pub mod Titles
pub mod Lifecycle
pub mod Id
pub mod Errors
pub mod Store
pub mod Service
pub mod Jwt
pub mod Route
mod Tests
use cc_orchestrator.Prelude.{ℕ, String, Bool, Result, ok, err, if◌then◌else◌}
use cc_orchestrator.Action.{Time}
use Values.{Status, Priority, todo, doing, done, can_transition_to}

pub record Task : Type 0 where
  pub id : String
  pub title : String
  pub status : Status
  pub priority : Priority
  pub created_at : Time
  pub updated_at : Time

-- `TransitionError{From, To}`
pub record TransitionError : Type 0 where
  pub source : Status
  pub target : Status

-- With the new identifier and `time.Now()` given.
unfoldable pub new : String → Time → String → Priority → Task
new id now title priority = record {
  id = id;
  title = title;
  status = todo;
  priority = priority;
  created_at = now;
  updated_at = now;
}

-- A method that changes the task in place returns the task as it then is, with its error.
unfoldable pub transition_to : Task → Status → Time → Result TransitionError (Unit {0}) × Task
transition_to t next now =
    if can_transition_to t.status next
    then (ok tt, record t { status = next; updated_at = now })
    else (err (record { source = t.status; target = next }), t)

unfoldable pub start : Task → Time → Result TransitionError (Unit {0}) × Task
start t now = transition_to t doing now

unfoldable pub complete : Task → Time → Result TransitionError (Unit {0}) × Task
complete t now = transition_to t done now

unfoldable pub rename : Task → String → Time → Task
rename t title now = record t { title = title; updated_at = now }

unfoldable pub change_priority : Task → Priority → Time → Task
change_priority t priority now = record t { priority = priority; updated_at = now }
