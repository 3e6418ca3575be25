-- ===== src/Dedup/Dates.antt =====
-- `_try_parse_date` of app/dedup/service.py. The groups of the patterns are digits, read as numbers
-- here, or the name of a month. `make_date` stands for `datetime.date`, which raises for a day that
-- the calendar does not have; `lower` stands for `str.lower`.
use gexpense_tracker_public.Prelude.{
  ℕ, ◌≡◌, refl, ap, ◌+◌, ◌≤◌, ◌<◌, arith, Bool, true, ◌&&◌, Option, none, some, [], ◌∷◌, ltb, leb,
  take, if◌then◌else◌, if-elim, Option-elim,
}
use gexpense_tracker_public.Prelude.Dict.{Dict, get}
use gexpense_tracker_public.Prelude.Text.{Text, codes, text_equality}

-- What each of the four patterns finds, in their order.
pub data Parts : Type 0 where
  long_year : ℕ → ℕ → ℕ → Parts
  short_year : ℕ → ℕ → ℕ → Parts
  day_first : ℕ → Text → ℕ → Parts
  month_first : Text → ℕ → ℕ → Parts

-- `_MONTH_MAP`
abbrev month_map : Dict Text ℕ
month_map =
    (codes "jan", 1)
    ∷ (codes "feb", 2)
    ∷ (codes "mar", 3)
    ∷ (codes "apr", 4)
    ∷ (codes "may", 5)
    ∷ (codes "jun", 6)
    ∷ (codes "jul", 7)
    ∷ (codes "aug", 8)
    ∷ (codes "sep", 9)
    ∷ (codes "oct", 10)
    ∷ (codes "nov", 11)
    ∷ (codes "dec", 12)
    ∷ []

-- The day and the month that two numbers stand for: the day first, where that can be.
unfoldable pub day_and_month : ℕ → ℕ → ℕ × ℕ
day_and_month a b =
    if ltb 12 a && leb b 12 then (a, b) else (if ltb 12 b && leb a 12 then (b, a) else (a, b))

-- `1 <= day <= 31 and 1 <= month <= 12`
unfoldable pub is_day : ℕ → ℕ → Bool
is_day day month = leb 1 day && leb day 31 && leb 1 month && leb month 12

module _ (make_date : ℕ → ℕ → ℕ → Option ℕ) (lower : Text → Text) where
  -- The end of the two branches on numbers.
  unfoldable pub numeric_date : ℕ × ℕ → ℕ → Option ℕ
  unfolding is_day
  numeric_date (day, month) year =
      if is_day day month && leb 1900 year && leb year 2100 then make_date year month day else none

  -- The two branches on the name of a month.
  unfoldable pub named_date : ℕ → Text → ℕ → Option ℕ
  unfolding is_day get
  named_date day month_name year = elim (get (take 3 (lower month_name)) month_map) [
    | none ↦ none
    | some month ↦ if is_day day month then make_date year month day else none
  ]

  -- `_try_parse_date`
  unfoldable pub try_parse_date : Parts → Option ℕ
  unfolding day_and_month numeric_date named_date
  try_parse_date (long_year a b c) = numeric_date (day_and_month a b) c
  try_parse_date (short_year a b c) = numeric_date (day_and_month a b) (c + 2000)
  try_parse_date (day_first day name year) = named_date day name year
  try_parse_date (month_first name day year) = named_date day name year

day_and_month-swap : (a b : ℕ) → 12 < a → b ≤ 12 → day_and_month a b ≡ day_and_month b a
unfolding day_and_month
day_and_month-swap a b day month = ground arith

-- A date in numbers whose day is above 12 is read alike in both orders, with a long and with a
-- short year.
try_parse_date-swap :
    (make_date : ℕ → ℕ → ℕ → Option ℕ) (lower : Text → Text) (a b c : ℕ)
    → 12 < a
    → b ≤ 12
    → (try_parse_date make_date lower (long_year a b c)
        ≡ try_parse_date make_date lower (long_year b a c))
      × (try_parse_date make_date lower (short_year a b c)
          ≡ try_parse_date make_date lower (short_year b a c))
unfolding try_parse_date
try_parse_date-swap make_date lower a b c day month = (
  ap (λ d. numeric_date make_date lower d c) (day_and_month-swap a b day month),
  ap (λ d. numeric_date make_date lower d (c + 2000)) (day_and_month-swap a b day month),
)

-- The result is none, or it is a date with a month from 1 to 12 and a day from 1 to 31.
abbrev pub IsDateOrNone : (ℕ → ℕ → ℕ → Option ℕ) → Option ℕ → Type 0
IsDateOrNone make_date none = Unit
IsDateOrNone make_date (some d) =
    (year : ℕ) × (month : ℕ) × (day : ℕ) × (make_date year month day ≡ some d)
    × (1 ≤ month)
    × (month ≤ 12)
    × (1 ≤ day)
    × (day ≤ 31)

make_date-IsDateOrNone :
    (make_date : ℕ → ℕ → ℕ → Option ℕ) (year month day : ℕ)
    → is_day day month ≡ true
    → IsDateOrNone make_date (make_date year month day)
unfolding is_day
make_date-IsDateOrNone make_date year month day good = go (make_date year month day) refl
  where
    go : (o : Option ℕ) → make_date year month day ≡ o → IsDateOrNone make_date o
    go none e = tt
    go (some d) e = (year, month, day, e, ground arith, ground arith, ground arith, ground arith)

numeric_date-IsDateOrNone :
    (make_date : ℕ → ℕ → ℕ → Option ℕ) (lower : Text → Text) (p : ℕ × ℕ) (year : ℕ)
    → IsDateOrNone make_date (numeric_date make_date lower p year)
unfolding numeric_date
numeric_date-IsDateOrNone make_date lower (day, month) year =
    if-elim (IsDateOrNone make_date) (is_day day month && leb 1900 year && leb year 2100) _ _
      (λ good. make_date-IsDateOrNone make_date year month day (ground arith)) (λ bad. tt)

named_date-IsDateOrNone :
    (make_date : ℕ → ℕ → ℕ → Option ℕ) (lower : Text → Text) (day : ℕ) (name : Text) (year : ℕ)
    → IsDateOrNone make_date (named_date make_date lower day name year)
unfolding named_date
named_date-IsDateOrNone make_date lower day name year =
    Option-elim (IsDateOrNone make_date) (get (take 3 (lower name)) month_map) _ _ (λ e. tt)
      (λ month e.
        if-elim (IsDateOrNone make_date) (is_day day month) _ _
          (λ good. make_date-IsDateOrNone make_date year month day good) (λ bad. tt))

-- What is found is read as no date, or as a date that `datetime.date` makes of a month from 1 to 12
-- and a day from 1 to 31.
try_parse_date-IsDateOrNone :
    (make_date : ℕ → ℕ → ℕ → Option ℕ) (lower : Text → Text) (parts : Parts)
    → IsDateOrNone make_date (try_parse_date make_date lower parts)
unfolding try_parse_date
try_parse_date-IsDateOrNone make_date lower (long_year a b c) =
    numeric_date-IsDateOrNone make_date lower (day_and_month a b) c
try_parse_date-IsDateOrNone make_date lower (short_year a b c) =
    numeric_date-IsDateOrNone make_date lower (day_and_month a b) (c + 2000)
try_parse_date-IsDateOrNone make_date lower (day_first day name year) =
    named_date-IsDateOrNone make_date lower day name year
try_parse_date-IsDateOrNone make_date lower (month_first name day year) =
    named_date-IsDateOrNone make_date lower day name year
