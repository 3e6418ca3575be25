-- ===== src/Services/Partitions/Names.antt =====
-- The names of partitions are read back.
use gexpense_tracker_public.Prelude.{
  ℕ, ◌≡◌, refl, ap, ◌∙◌, ◌≤◌, arith, Bool, false, some, [], ◌∷◌, ◌++◌, ◌==◌, any, both,
}
use gexpense_tracker_public.Prelude.Text.{Text, split_at}
use gexpense_tracker_public.Prelude.Decimal.{
  decimal, two_digits, int_of, is_digit, int_of-decimal, int_of-two_digits, any-decimal,
  any-two_digits,
}
use gexpense_tracker_public.Prelude.Pieces.{
  last_piece, last_two, split_at-none, split_at-append, last_piece-append, last_two-append,
}
use gexpense_tracker_public.Services.Partitions.{
  partition_name, dated, month_of, month_of_numbers, month_of_pieces, last_or_empty, without_schema,
  read_name,
}

abbrev pub is_dot : ℕ → Bool
is_dot c = c == b'.'

abbrev is_underscore : ℕ → Bool
is_underscore c = c == b'_'

any-append :
    (p : ℕ → Bool) (s t : Text) → any p s ≡ false → any p t ≡ false → any p (s ++ t) ≡ false
any-append p [] t h k = k
any-append p (c ∷ s) t h k = ground (arith, any-append p s t)

no_digit : (is_digit b'.' ≡ false) × (is_digit b'_' ≡ false)
unfolding is_digit
no_digit = (refl, refl)

pub any-partition_name :
    (table : Text) (y m : ℕ)
    → any is_dot table ≡ false
    → any is_dot (partition_name table (y, m)) ≡ false
unfolding partition_name
any-partition_name table y m plain = any-append is_dot table _ plain (
    any-append is_dot (decimal y) (b'_' ∷ two_digits m) (any-decimal b'.' y no_digit.0)
      (any-two_digits b'.' m no_digit.0))

pub without_schema-plain : (name : Text) → any is_dot name ≡ false → without_schema name ≡ name
unfolding without_schema last_piece last_or_empty
without_schema-plain name plain =
    ap (λ ws. last_or_empty (last_piece ws)) (split_at-none is_dot name plain)

without_schema-qualified :
    (schema name : Text) → any is_dot name ≡ false → without_schema (schema ++ b'.' ∷ name) ≡ name
unfolding without_schema last_or_empty
without_schema-qualified schema name plain = ap last_or_empty (
    ap last_piece (
      split_at-append is_dot schema b'.' name refl
      ∙ ap (λ ws. split_at is_dot schema ++ ws) (split_at-none is_dot name plain))
    ∙ last_piece-append (split_at is_dot schema) name)

split_at-partition_name :
    (table : Text) (y m : ℕ)
    → split_at is_underscore (partition_name table (y, m))
      ≡ split_at is_underscore table ++ (decimal y ∷ two_digits m ∷ [])
unfolding partition_name
split_at-partition_name table y m =
    split_at-append is_underscore table b'_' (decimal y ++ b'_' ∷ two_digits m) refl
    ∙ ap (λ ws. split_at is_underscore table ++ ws)
        (split_at-append is_underscore (decimal y) b'_' (two_digits m) refl
          ∙ ap (λ ws. ws ++ split_at is_underscore (two_digits m))
              (split_at-none is_underscore (decimal y) (any-decimal b'_' y no_digit.1))
          ∙ ap (λ ws. decimal y ∷ ws)
              (split_at-none is_underscore (two_digits m) (any-two_digits b'_' m no_digit.1)))

read_name-partition_name :
    (table : Text) (y m : ℕ) → read_name (partition_name table (y, m)) ≡ month_of y m
unfolding read_name month_of_pieces month_of_numbers
read_name-partition_name table y m =
    ap month_of_pieces (
      ap last_two (split_at-partition_name table y m)
      ∙ last_two-append (split_at is_underscore table) (decimal y) (two_digits m))
    ∙ ap (λ n. month_of_numbers (both n (int_of (two_digits m)))) (int_of-decimal y)
    ∙ ap (λ n. month_of_numbers (both (some y) n)) (int_of-two_digits m)

-- The name that a month's partition of a table is given is read back as the month, with and without
-- a schema before it, for every month that `date` has and every table whose name has no dot.
pub read_name-without_schema :
    (schema table : Text) (y m : ℕ)
    → any is_dot table ≡ false
    → 1 ≤ m
    → m ≤ 12
    → 1 ≤ y
    → y ≤ 9999
    → (read_name (without_schema (partition_name table (y, m))) ≡ dated (y, m))
      × (read_name (without_schema (schema ++ b'.' ∷ partition_name table (y, m))) ≡ dated (y, m))
unfolding month_of
read_name-without_schema schema table y m plain a b c d =
    let named : read_name (partition_name table (y, m)) ≡ dated (y, m) =
      read_name-partition_name table y m ∙ ground arith in
    (
      ap read_name (without_schema-plain _ (any-partition_name table y m plain)) ∙ named,
      ap read_name (without_schema-qualified schema _ (any-partition_name table y m plain)) ∙ named,
    )
