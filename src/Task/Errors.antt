-- ===== src/Task/Errors.antt =====
-- app/api/domain/task/errors.go, with the errors that wrap another one named by it.
use cc_orchestrator.Task.{TransitionError}
use cc_orchestrator.Task.Titles.{TitleError}
use cc_orchestrator.Task.Paging.{PageError}

pub data TaskError : Type 0 where
  -- ValidationError
  invalid_title : TitleError → TaskError
  invalid_page : PageError → TaskError
  invalid_id invalid_priority : TaskError
  not_found : TaskError
  -- ConflictError
  duplicate_title : TaskError
  transition : TransitionError → TaskError
  -- DBError
  db_error : TaskError
