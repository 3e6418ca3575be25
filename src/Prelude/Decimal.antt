-- ===== src/Prelude/Decimal.antt =====
-- Numbers as decimal text: `str(n)`, `f"{n:02d}"` and `int(text)` for texts without sign and spaces.
use Prim.Native.Nat.{ℕ, zero, suc, ◌+◌, ◌-◌, ◌*◌, ◌/◌, ◌%◌, ◌<◌}
use mathlib.Core.Path.{◌≡◌, refl, ◌∙◌}
use mathlib.Core.Logic.{inl, inr}
use mathlib.Core.Bool.{Bool, true, false, ◌&&◌}
use mathlib.Core.Option.{Option, none, some}
use mathlib.Core.List.{[], ◌∷◌, ◌++◌}
use native.Mathlib.Omega.{arith}
use gexpense_tracker_public.Prelude.Tests.{◌==◌, ltb, leb, if◌then◌else◌, Bool-cases, if-elim}
use gexpense_tracker_public.Prelude.Lists.{any}
use gexpense_tracker_public.Prelude.Text.{Text}

-- The digits of a number, the first first; fuel above the number is enough.
unfoldable pub digits : ℕ → ℕ → Text
digits zero n = []
digits (suc fuel) n =
    let rest = digits fuel (n / 10) in
    if ltb n 10 then (b'0' + n) ∷ [] else rest ++ (b'0' + n % 10) ∷ []

-- `str(n)`
unfoldable pub decimal : ℕ → Text
unfolding digits
decimal n = digits (suc n) n

-- `f"{n:02d}"`
unfoldable pub two_digits : ℕ → Text
unfolding decimal
two_digits n = if ltb n 10 then b'0' ∷ decimal n else decimal n

unfoldable pub is_digit : ℕ → Bool
is_digit c = leb b'0' c && leb c b'9'

unfoldable pub read_digits : ℕ → Text → Option ℕ
unfolding is_digit
read_digits acc [] = some acc
read_digits acc (c ∷ t) =
    let rest = read_digits (10 * acc + (c - b'0')) t in if is_digit c then rest else none

-- `int(text)`, with none for the `ValueError`
unfoldable pub int_of : Text → Option ℕ
unfolding read_digits
int_of [] = none
int_of (c ∷ t) = read_digits 0 (c ∷ t)

read_digits-append :
    (acc : ℕ) (s t : Text) (a : ℕ)
    → read_digits acc s ≡ some a
    → read_digits acc (s ++ t) ≡ read_digits a t
unfolding read_digits
read_digits-append acc [] t a h = ground arith
read_digits-append acc (c ∷ s) t a h =
    ground (arith, read_digits-append (10 * acc + (c - b'0')) s t a)

read_digits-digits : (fuel n : ℕ) → n < fuel → read_digits 0 (digits fuel n) ≡ some n
unfolding digits read_digits
read_digits-digits zero n h = ground arith
read_digits-digits (suc fuel) n h = elim (Bool-cases (ltb n 10)) [
  | inl small ↦ rw small (ground arith)
  | inr big ↦ rw big (
      read_digits-append 0 (digits fuel (n / 10)) ((b'0' + n % 10) ∷ []) (n / 10)
        (read_digits-digits fuel (n / 10) (ground arith))
      ∙ ground arith)
]

-- A list that is not empty.
abbrev pub is_filled : Text → Bool
is_filled [] = false
is_filled (c ∷ t) = true

int_of-filled : (t : Text) → is_filled t ≡ true → int_of t ≡ read_digits 0 t
unfolding int_of
int_of-filled [] h = ground arith
int_of-filled (c ∷ t) h = refl

is_filled-append : (s : Text) (c : ℕ) → is_filled (s ++ c ∷ []) ≡ true
is_filled-append [] c = refl
is_filled-append (d ∷ s) c = refl

is_filled-digits : (fuel n : ℕ) → is_filled (digits (suc fuel) n) ≡ true
unfolding digits
is_filled-digits fuel n =
    if-elim (λ t. is_filled t ≡ true) (ltb n 10) _ _ (λ e. refl)
      (λ e. is_filled-append (digits fuel (n / 10)) (b'0' + n % 10))

-- A number is read back from its decimal text.
pub int_of-decimal : (n : ℕ) → int_of (decimal n) ≡ some n
unfolding decimal
int_of-decimal n =
    int_of-filled (digits (suc n) n) (is_filled-digits n n)
    ∙ read_digits-digits (suc n) n (omega arith)

read_digits-decimal : (n : ℕ) → read_digits 0 (decimal n) ≡ some n
unfolding decimal
read_digits-decimal n = read_digits-digits (suc n) n (omega arith)

read_digits-zero : (t : Text) → read_digits 0 (b'0' ∷ t) ≡ read_digits 0 t
unfolding read_digits
read_digits-zero t = refl

pub int_of-two_digits : (n : ℕ) → int_of (two_digits n) ≡ some n
unfolding two_digits
int_of-two_digits n =
    if-elim (λ t. int_of t ≡ some n) (ltb n 10) _ _
      (λ e.
        int_of-filled (b'0' ∷ decimal n) refl
        ∙ read_digits-zero (decimal n)
        ∙ read_digits-decimal n)
      (λ e. int_of-decimal n)

any-append :
    (p : ℕ → Bool) (s t : Text) → any p s ≡ false → any p t ≡ false → any p (s ++ t) ≡ false
any-append p [] t h k = k
any-append p (c ∷ s) t h k = ground (arith, any-append p s t)

-- A character that is no digit stands in no decimal text.
any-digits : (k fuel n : ℕ) → is_digit k ≡ false → any (λ c. c == k) (digits fuel n) ≡ false
unfolding digits is_digit
any-digits k zero n h = refl
any-digits k (suc fuel) n h =
    if-elim (λ t. any (λ c. c == k) t ≡ false) (ltb n 10) _ _ (λ e. ground arith)
      (λ e.
        any-append (λ c. c == k) (digits fuel (n / 10)) ((b'0' + n % 10) ∷ [])
          (any-digits k fuel (n / 10) h) (ground arith))

pub any-decimal : (k n : ℕ) → is_digit k ≡ false → any (λ c. c == k) (decimal n) ≡ false
unfolding decimal
any-decimal k n h = any-digits k (suc n) n h

pub any-two_digits : (k n : ℕ) → is_digit k ≡ false → any (λ c. c == k) (two_digits n) ≡ false
unfolding two_digits is_digit
any-two_digits k n h =
    if-elim (λ t. any (λ c. c == k) t ≡ false) (ltb n 10) _ _
      (λ e. ground (arith, any-decimal k n h)) (λ e. any-decimal k n h)
