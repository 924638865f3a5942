-- ===== src/Handler/Paging.antt =====
-- internal/handler/appraisal.go: the arithmetic of `List` and `parseIntParam`. `strconv.Atoi` is a
-- parameter.
pub mod Bounds
use review_service.Prelude.{
  ℕ, zero, ◌-◌, ◌*◌, String, ◌||◌, Option, none, some, ℤ, pos, negsuc, wrap_int, ltb, if◌then◌else◌,
  str_eq,
}

unfoldable pub parse_int_param : (String → Option ℤ) → String → ℤ → ℤ
parse_int_param atoi text default =
    if str_eq text "" then default else elim (atoi text) [ none ↦ default | some v ↦ v ]

-- `if page < 1 { page = 1 }`: the result is positive.
unfoldable pub clamp_page : ℤ → ℕ
clamp_page (pos n) = if ltb n 1 then 1 else n
clamp_page (negsuc n) = 1

-- `if limit < 1 || limit > 100 { limit = 20 }`.
unfoldable pub clamp_limit : ℤ → ℕ
clamp_limit (pos n) = if ltb n 1 || ltb 100 n then 20 else n
clamp_limit (negsuc n) = 20

-- `(page - 1) * limit`, which may overflow.
unfoldable pub page_offset : ℕ → ℕ → ℤ
page_offset page limit = wrap_int ((page - 1) * limit)
