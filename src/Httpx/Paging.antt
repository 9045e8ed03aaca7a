-- ===== src/Httpx/Paging.antt =====
-- The page that a list query asks for (backend/internal/httpx/pagination.go). A parameter is what
-- `strconv.Atoi` makes of its text, none where it is absent or no number of 64 bits.
use check.Common.{
  ℕ, ◌-◌, ◌*◌, ◌%◌, ◌≤◌, ◌<◌, ℤ, pos, negsuc, Option, none, some, ltb, if◌then◌else◌, arith,
  Bool-cases, inl, inr,
}

abbrev pub default_page : ℕ
default_page = 1

abbrev pub default_page_size : ℕ
default_page_size = 20

abbrev pub max_page_size : ℕ
max_page_size = 200

-- `Page`, whose two numbers are positive.
pub record Page : Type 0 where
  pub number : ℕ
  pub size : ℕ

-- A number that is given and positive, or else the default.
abbrev pub positive_or : ℕ → Option ℤ → ℕ
positive_or d none = d
positive_or d (some (negsuc n)) = d
positive_or d (some (pos n)) = if ltb 0 n then n else d

-- `ParsePage`
unfoldable pub parse_page : Option ℤ → Option ℤ → Page
parse_page number size =
    let wanted = positive_or default_page_size size in
    record {
      number = positive_or default_page number;
      size = if ltb max_page_size wanted then max_page_size else wanted;
    }

-- A product of 64 bits with its wrap-around, read with its sign.
abbrev pub wrap_int64 : ℕ → ℤ
wrap_int64 n =
    let m = n % 18446744073709551616 in
    if ltb m 9223372036854775808 then pos m else negsuc (18446744073709551615 - m)

-- `Offset`
abbrev pub offset : Page → ℤ
offset p = wrap_int64 ((p.number - 1) * p.size)

-- `Limit`
abbrev pub limit : Page → ℕ
limit p = p.size

positive_or-pos : (d : ℕ) (n : Option ℤ) → 0 < d → 0 < positive_or d n
positive_or-pos d none h = h
positive_or-pos d (some (negsuc n)) h = h
positive_or-pos d (some (pos n)) h = ground arith

-- A page has a positive number, and a size from 1 to 200.
pub parse_page-bounds :
    (number size : Option ℤ)
    → (0 < (parse_page number size).number)
      × (0 < (parse_page number size).size)
      × ((parse_page number size).size ≤ max_page_size)
unfolding parse_page
parse_page-bounds number size =
    let one = positive_or-pos default_page number (omega arith) in
    let some_rows = positive_or-pos default_page_size size (omega arith) in
    elim (Bool-cases (ltb max_page_size (positive_or default_page_size size))) [
      | inl e ↦ rw e (one, omega arith, omega arith)
      | inr e ↦ rw e (one, some_rows, ground arith)
    ]
