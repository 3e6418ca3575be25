-- ===== src/Classifier/PreFilter/Patterns.antt =====
-- The patterns that `_is_safe_pattern` takes have matching parentheses.
use gexpense_tracker_public.Prelude.{
  ℕ, zero, suc, ◌≡◌, ◌≤◌, ◌+◌, ◌-◌, arith, Bool, true, false, [], ◌∷◌, ◌==◌, length, if◌then◌else◌,
  take,
}
use gexpense_tracker_public.Prelude.Text.{Text}
use gexpense_tracker_public.Classifier.PreFilter.{is_quantifier, scan_pattern, is_safe_pattern}

-- How often a character is in a text.
abbrev pub occurrences : ℕ → Text → ℕ
occurrences c [] = 0
occurrences c (d ∷ t) = (if c == d then 1 else 0) + occurrences c t

scan_pattern-prefix :
    (depth : ℕ) (quantified : Bool) (t : Text) (n : ℕ)
    → scan_pattern depth quantified t ≡ true
    → occurrences b')' (take n t) ≤ depth + occurrences b'(' (take n t)
unfolding scan_pattern
scan_pattern-prefix depth quantified t zero h = omega arith
scan_pattern-prefix depth quantified [] (suc n) h = omega arith
scan_pattern-prefix depth quantified (c ∷ t) (suc n) h = ground (
  arith,
  scan_pattern-prefix (depth + 1) (is_quantifier c) t n,
  scan_pattern-prefix (depth - 1) (is_quantifier c) t n,
  scan_pattern-prefix depth (is_quantifier c) t n,
)

scan_pattern-total :
    (depth : ℕ) (quantified : Bool) (t : Text)
    → scan_pattern depth quantified t ≡ true
    → occurrences b')' t ≡ depth + occurrences b'(' t
unfolding scan_pattern
scan_pattern-total depth quantified [] h = ground arith
scan_pattern-total depth quantified (c ∷ t) h = ground (
  arith,
  scan_pattern-total (depth + 1) (is_quantifier c) t,
  scan_pattern-total (depth - 1) (is_quantifier c) t,
  scan_pattern-total depth (is_quantifier c) t,
)

-- A pattern that is taken has at most 256 characters, no start of it closes more parentheses than it
-- opens, and all of it closes as many as it opens.
pub is_safe_pattern-balanced :
    (is_dangerous : Text → Bool) (pattern : Text) (n : ℕ)
    → is_safe_pattern is_dangerous pattern ≡ true
    → (length pattern ≤ 256)
      × (occurrences b')' (take n pattern) ≤ occurrences b'(' (take n pattern))
      × (occurrences b')' pattern ≡ occurrences b'(' pattern)
unfolding is_safe_pattern
is_safe_pattern-balanced is_dangerous pattern n h =
    let scanned : scan_pattern 0 false pattern ≡ true = ground (arith, h) in
    (
      ground (arith, h),
      omega (arith, scan_pattern-prefix 0 false pattern n scanned),
      omega (arith, scan_pattern-total 0 false pattern scanned),
    )
