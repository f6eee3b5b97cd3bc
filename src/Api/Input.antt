-- ===== src/Api/Input.antt =====
-- Reading and cleaning of input in backend/internal/api/httpx.go.
use go_dark_web_crawler.Common.{ℕ, ◌-◌, ◌*◌, ◌^◌, Bool, ◌||◌, [], ◌∷◌, ltb, ◌==◌, if◌then◌else◌}
use go_dark_web_crawler.Common.Text.{Bytes}
use go_dark_web_crawler.Common.Hex.{number, syntax_error, range_error, atoi}

-- What `n, _ := strconv.Atoi(text)` leaves in `n` where it is above zero, and else 0.
unfoldable pub positive : Bytes → ℕ
positive text = elim (atoi text) [
  | number negative n ↦ if negative then 0 else n
  | syntax_error ↦ 0
  | range_error negative ↦ if negative then 0 else 2 ^ 63 - 1
]

abbrev pub page_number : ℕ → ℕ
page_number n = if ltb n 1 then 1 else if ltb 10_000 n then 10_000 else n

abbrev pub page_limit : ℕ → ℕ
page_limit n = if n == 0 || ltb 200 n then 50 else n

-- `ParsePagination`, for the values of the two parameters: the limit and the offset.
unfoldable pub parse_pagination : Bytes → Bytes → ℕ × ℕ
parse_pagination limit page =
    let size = page_limit (positive limit) in (size, (page_number (positive page) - 1) * size)

abbrev pub starts_formula : ℕ → Bool
starts_formula c = c == b'=' || c == b'+' || c == b'-' || c == b'@' || c == 9 || c == 13

-- `SanitizeCSVField`.
unfoldable pub sanitize_csv_field : Bytes → Bytes
sanitize_csv_field [] = []
sanitize_csv_field (c ∷ s) = if starts_formula c then 39 ∷ c ∷ s else c ∷ s
