-- ===== src/Task/Paging.antt =====
-- app/api/domain/task/page.go
use cc_orchestrator.Prelude.{
  ℕ, ◌≤◌, ◌≡◌, Option, none, some, Result, ok, err, ltb, and_then, arith, if◌then◌else◌,
}
use cc_orchestrator.Prelude.Int.{ℤ, pos, negsuc}

-- The last two are ErrInvalidOffset, with different messages.
pub data PageError : Type 0 where
  invalid_limit negative_offset excessive_offset : PageError

pub record Page : Type 0 where
  pub limit : ℕ
  pub offset : ℕ

abbrev pub default_limit : ℕ
default_limit = 20

abbrev pub max_limit : ℕ
max_limit = 100

abbrev pub max_offset : ℕ
max_offset = 10000

-- Defaulted, at least 1, and clamped.
unfoldable pub check_limit : Option ℤ → Result PageError ℕ
check_limit none = ok default_limit
check_limit (some (negsuc n)) = err PageError.invalid_limit
check_limit (some (pos n)) =
    if ltb n 1 then err PageError.invalid_limit else ok (if ltb max_limit n then max_limit else n)

-- Defaulted, and refused when negative or too large.
unfoldable pub check_offset : Option ℤ → Result PageError ℕ
check_offset none = ok 0
check_offset (some (negsuc n)) = err negative_offset
check_offset (some (pos n)) = if ltb max_offset n then err excessive_offset else ok n

unfoldable pub new_page : Option ℤ → Option ℤ → Result PageError Page
new_page limit offset =
    and_then (check_limit limit)
      λ l. and_then (check_offset offset) λ o. ok (record { limit = l; offset = o })

limit_bounds : (limit : Option ℤ) {l : ℕ} → check_limit limit ≡ ok l → (1 ≤ l) × (l ≤ max_limit)
unfolding check_limit
limit_bounds none h = (ground arith, ground arith)
limit_bounds (some (negsuc n)) h = cc
limit_bounds (some (pos n)) h = (ground arith, ground arith)

offset_bounds : (offset : Option ℤ) {o : ℕ} → check_offset offset ≡ ok o → o ≤ max_offset
unfolding check_offset
offset_bounds none h = ground arith
offset_bounds (some (negsuc n)) h = cc
offset_bounds (some (pos n)) h = ground arith

-- A page that is made has a limit from 1 to 100 and an offset of at most 10000, whatever was asked.
pub new_page_bounds :
    (limit offset : Option ℤ) (p : Page)
    → new_page limit offset ≡ ok p
    → (1 ≤ p.limit) × (p.limit ≤ 100) × (p.offset ≤ 10000)
unfolding new_page
new_page_bounds limit offset p h =
    let (l1, l2) = limit_bounds limit {l = p.limit} (ground arith) in
    (l1, l2, offset_bounds offset {o = p.offset} (ground arith))
