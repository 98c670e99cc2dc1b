-- ===== src/Task/Values.antt =====
-- app/api/domain/task/status.go and priority.go
use cc_orchestrator.Prelude.{String, Bool, true, false, Option, none, some, ◌==◌, if◌then◌else◌}

pub data Status : Type 0 where
  todo doing done : Status

-- Only todo to doing and doing to done.
unfoldable pub can_transition_to : Status → Status → Bool
can_transition_to todo doing = true
can_transition_to doing done = true
can_transition_to _ _ = false

unfoldable pub status_string : Status → String
status_string todo = "todo"
status_string doing = "doing"
status_string done = "done"

-- `none` is ErrInvalidStatus.
unfoldable pub parse_status : String → Option Status
parse_status s =
    if s == "todo"
    then some todo
    else if s == "doing"
    then some doing
    else if s == "done"
    then some done
    else none

pub data Priority : Type 0 where
  low medium high : Priority

unfoldable pub priority_string : Priority → String
priority_string low = "low"
priority_string medium = "medium"
priority_string high = "high"

-- `none` is ErrInvalidPriority.
unfoldable pub parse_priority : String → Option Priority
parse_priority s =
    if s == "low"
    then some low
    else if s == "medium"
    then some medium
    else if s == "high"
    then some high
    else none
