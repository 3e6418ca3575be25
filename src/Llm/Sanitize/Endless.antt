-- ===== src/Llm/Sanitize/Endless.antt =====
-- Where `str.lower` makes a text longer, the loop of `_sanitize` need not end.
use gexpense_tracker_public.Prelude.{
  ℕ, zero, suc, ◌≡◌, refl, ap, ◌∙◌, none, some, [], ◌∷◌, ◌++◌, replicate, drop,
}
use gexpense_tracker_public.Prelude.Text.{Text, codes, starts_with}
use gexpense_tracker_public.Llm.Sanitize.{next_index, find, redacted, redact_at, redact}

-- Eight letters whose lower case is two code points, before a pattern, and the lower case of both.
abbrev pub dotted : Text
dotted = replicate 8 0x130 ++ codes "system:"

abbrev pub lowered : Text
lowered = codes "i̇i̇i̇i̇i̇i̇i̇i̇system:"

find-lowered : (t : Text) → find (codes "system:") (lowered ++ t) ≡ some 16
unfolding find starts_with next_index
find-lowered t = refl

-- The text that a round leaves behind the letters and the pattern.
abbrev after_round : Text → Text
after_round [] = redacted
after_round (c ∷ t) = c ∷ redacted ++ drop 7 t

redact_at-dotted :
    (t : Text) → redact_at (codes "system:") 16 (dotted ++ t) ≡ dotted ++ after_round t
unfolding redact_at
redact_at-dotted [] = refl
redact_at-dotted (c ∷ t) = refl

-- No number of rounds is enough for a text that starts with eight letters "İ" and "system:", where
-- `lower` makes two code points of each of these letters and leaves "system:", whatever it makes of
-- the rest of the text.
pub redact-endless :
    (lower : Text → Text)
    → ((t : Text) → (u : Text) × (lower (dotted ++ t) ≡ lowered ++ u))
    → (fuel : ℕ) (t : Text) → redact lower fuel (codes "system:") (dotted ++ t) ≡ none
unfolding redact
redact-endless lower long zero t =
    let (u, e) = long t in rw (ap (find (codes "system:")) e ∙ find-lowered u, redact) refl
redact-endless lower long (suc fuel) t =
    let (u, e) = long t in
    rw (ap (find (codes "system:")) e ∙ find-lowered u, redact)
      (rw (redact_at-dotted t) (redact-endless lower long fuel (after_round t)))
