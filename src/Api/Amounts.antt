-- ===== src/Api/Amounts.antt =====
-- The Python floats in which a request gives an amount. They are any type `F` with what the code uses
-- of them; the float that is not a number is not among them. `column` is what a `Numeric` column of
-- two digits keeps of a float, in hundredths, and `of_column` the float of such a value.
use gexpense_tracker_public.Prelude.{ℕ, ◌+◌, ◌≡◌, ◌≤◌, Bool, true, false}
use gexpense_tracker_public.Prelude.Int.{ℤ, pos, pos_part, neg_part}

pub record Floats (F : Type 0) : Type 0 where
  pub nought : F
  pub le : F → F → Bool
  pub lt : F → F → Bool
  pub plus : F → F → F
  pub column : F → ℤ
  pub of_column : ℕ → F
  -- `round(a, 2)` and `round(a / b * 100, 1)`
  pub round_cents : F → F
  pub percent : F → F → F

-- Of two integers, the first is not above the second.
abbrev pub IsAtMost : ℤ → ℤ → Type 0
IsAtMost a b = pos_part a + neg_part b ≤ pos_part b + neg_part a

-- What the code relies on: the order is total, and rounding keeps it and keeps zero.
pub record IsOrdered (F : Type 0) (floats : Floats F) : Type 0 where
  pub column_nought : floats.column floats.nought ≡ pos 0
  pub column_le : (a b : F) → floats.le a b ≡ true → IsAtMost (floats.column a) (floats.column b)
  pub le_of_not_le : (a b : F) → floats.le a b ≡ false → floats.le b a ≡ true
  pub le_of_not_lt : (a b : F) → floats.lt a b ≡ false → floats.le b a ≡ true
