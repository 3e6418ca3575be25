-- ===== src/Services/Partitions/Months.antt =====
-- Months in a row: stepping forward and back, and the months as numbers.
use gexpense_tracker_public.Prelude.{ℕ, zero, suc, ◌≡◌, ◌+◌, ◌*◌, ◌≤◌, ◌<◌, arith, ltb}
use gexpense_tracker_public.Services.Partitions.{
  Month, next_month, previous_month, months_back, is_before,
}

-- A month of the calendar.
abbrev pub IsMonth : Month → Type 0
IsMonth t = (1 ≤ t.1) × (t.1 ≤ 12)

-- The number of a month.
abbrev pub index : Month → ℕ
index t = 12 * t.0 + t.1

pub previous_month-next_month : (t : Month) → IsMonth t → previous_month (next_month t) ≡ t
unfolding next_month previous_month
previous_month-next_month (y, m) h = ground arith

next_month-IsMonth : (t : Month) → IsMonth t → IsMonth (next_month t)
unfolding next_month
next_month-IsMonth (y, m) h = ground arith

pub index-next_month : (t : Month) → IsMonth t → index (next_month t) ≡ index t + 1
unfolding next_month
index-next_month (y, m) h = ground arith

previous_month-IsMonth : (t : Month) → IsMonth t → IsMonth (previous_month t)
unfolding previous_month
previous_month-IsMonth (y, m) h = ground arith

index-previous_month :
    (t : Month) → IsMonth t → 13 < index t → index (previous_month t) + 1 ≡ index t
unfolding previous_month
index-previous_month (y, m) h far = ground arith

-- Going back subtracts, as long as there are months to go back to.
pub index-months_back :
    (n : ℕ) (t : Month)
    → IsMonth t
    → n + 13 ≤ index t
    → (index (months_back n t) + n ≡ index t) × IsMonth (months_back n t)
unfolding months_back
index-months_back zero t h far = (omega arith, h)
index-months_back (suc n) t h far =
    let e = index-previous_month t h (omega arith) in
    let rest =
      index-months_back n (previous_month t) (previous_month-IsMonth t h) (omega (arith, e)) in
    (omega (arith, e, rest.0), rest.1)

-- Months are compared as their numbers.
pub is_before_lem : (s t : Month) → IsMonth s → IsMonth t → is_before s t ≡ ltb (index s) (index t)
unfolding is_before
is_before_lem (y, m) (y', m') h k = ground arith
