-- ===== src/Task/Titles.antt =====
-- app/api/domain/task/title.go
use Prim.Native.String.{len}
use cc_orchestrator.Prelude.{
  ℕ, ◌≤◌, String, ◌≡◌, ◌≢◌, Result, ok, err, ltb, ◌==◌, eq_iff, arith, if◌then◌else◌,
}
use cc_orchestrator.GoText.{trim_space}

pub data TitleError : Type 0 where
  empty_title title_too_long : TitleError

-- In runes.
abbrev pub max_title_runes : ℕ
max_title_runes = 100

unfoldable pub checked_title : String → Result TitleError String
checked_title trimmed =
    if trimmed == ""
    then err empty_title
    else if ltb max_title_runes (len trimmed)
    then err title_too_long
    else ok trimmed

unfoldable pub new_title : String → Result TitleError String
new_title s = checked_title (trim_space s)

-- A title is the trimmed text, is not empty, and has at most 100 characters.
new_title_bounds :
    (s title : String)
    → new_title s ≡ ok title
    → (title ≡ trim_space s) × (title ≢ "") × (len title ≤ 100)
unfolding new_title checked_title
new_title_bounds s title h = (ground arith, ground (arith, eq_iff (trim_space s) ""), ground arith)
