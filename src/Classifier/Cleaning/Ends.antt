-- ===== src/Classifier/Cleaning/Ends.antt =====
-- The loop of `_regex_clean` ends, and no suffix is left.
use gexpense_tracker_public.Prelude.{
  ℕ, zero, suc, ◌-◌, ◌≡◌, refl, ap, ◌⊎◌, inl, inr, ◌≤◌, ◌<◌, arith, Bool, true, false, some, List,
  [], ◌∷◌, length, take, length-take, if-elim,
}
use gexpense_tracker_public.Prelude.Text.{Text, strip}
use gexpense_tracker_public.Classifier.Cleaning.{
  strip_prefixes, strip_suffixes, without_prefixes, before_at, ends_with, strip_pass, strip_all,
  regex_clean,
}

-- No suffix ends the text.
abbrev pub IsStripped : List Text → Text → Type 0
IsStripped [] t = Unit
IsStripped (suffix ∷ suffixes) t = (ends_with suffix t ≡ false) × IsStripped suffixes t

abbrev AreFilled : List Text → Type 0
AreFilled [] = Unit
AreFilled (suffix ∷ suffixes) = (0 < length suffix) × AreFilled suffixes

ends_with-length : (suffix t : Text) → ends_with suffix t ≡ true → length suffix ≤ length t
unfolding ends_with
ends_with-length suffix t h = ground (arith, h)

-- A pass that has changed something says so.
strip_pass-true :
    (suffixes : List Text) (t : Text)
    → AreFilled suffixes
    → ((strip_pass suffixes t true).1 ≡ true) × (length (strip_pass suffixes t true).0 ≤ length t)
unfolding strip_pass
strip_pass-true [] t h = (refl, omega arith)
strip_pass-true (suffix ∷ suffixes) t h =
    let cut = strip_pass-true suffixes (take (length t - length suffix) t) h.1 in
    if-elim (λ (p : Text × Bool). (p.1 ≡ true) × (length p.0 ≤ length t)) (ends_with suffix t) _ _
      (λ e. (cut.0, omega (arith, cut.1, length-take (length t - length suffix) t)))
      (λ e. strip_pass-true suffixes t h.1)

-- A pass says that it has changed something exactly when it shortens the text; otherwise no suffix
-- ends the text.
abbrev IsPass : List Text → Text → Text × Bool → Type 0
IsPass suffixes t p =
    ((p.1 ≡ true) × (length p.0 < length t)) ⊎ ((p.1 ≡ false) × (p.0 ≡ t) × IsStripped suffixes t)

strip_pass-IsPass :
    (suffixes : List Text) (t : Text)
    → AreFilled suffixes
    → IsPass suffixes t (strip_pass suffixes t false)
unfolding strip_pass
strip_pass-IsPass [] t h = inr (refl, refl, tt)
strip_pass-IsPass (suffix ∷ suffixes) t h =
    let cut = strip_pass-true suffixes (take (length t - length suffix) t) h.1 in
    if-elim (IsPass (suffix ∷ suffixes) t) (ends_with suffix t) _ _
      (λ e. inl (
        cut.0,
        omega (
          arith,
          cut.1,
          length-take (length t - length suffix) t,
          ends_with-length suffix t e,
          h.0,
        ),
      ))
      (λ e. elim (strip_pass-IsPass suffixes t h.1) [
        | inl changed ↦ inl changed
        | inr kept ↦ inr (kept.0, kept.1, (e, kept.2))
      ])

strip_all-IsStripped :
    (fuel : ℕ) (suffixes : List Text) (t : Text)
    → AreFilled suffixes
    → length t < fuel
    → (r : Text) × (strip_all fuel suffixes t ≡ some r) × IsStripped suffixes r
unfolding strip_all
strip_all-IsStripped zero suffixes t h enough = absurd (omega (arith, enough))
strip_all-IsStripped (suc fuel) suffixes t h enough =
    let pass = strip_pass suffixes t false in
    elim (strip_pass-IsPass suffixes t h) [
      | inl changed ↦
          let rest =
            strip_all-IsStripped fuel suffixes pass.0 h (omega (arith, enough, changed.1)) in
          (rest.0, rw (changed.0, strip_all) rest.1, rest.2)
      | inr kept ↦ (t, rw (kept.0, strip_all) (ap some kept.1), kept.2)
    ]

-- Cleaning a name comes to an end, and no suffix ends the text that it has before its blanks are
-- put in order.
pub regex_clean-IsStripped :
    (lower without_cards with_single_blanks : Text → Text) (raw : Text)
    → (r : Text) × (regex_clean lower without_cards with_single_blanks raw
        ≡ some (strip (with_single_blanks r)))
      × IsStripped strip_suffixes r
unfolding regex_clean
regex_clean-IsStripped lower without_cards with_single_blanks raw =
    let text = without_cards (before_at (without_prefixes strip_prefixes (strip (lower raw)))) in
    let ends =
      strip_all-IsStripped (suc (length text)) strip_suffixes text
        (
          omega arith,
          (
            omega arith,
            (
              omega arith,
              (
                omega arith,
                (
                  omega arith,
                  (
                    omega arith,
                    (
                      omega arith,
                      (omega arith, (omega arith, (omega arith, (omega arith, (omega arith, tt))))),
                    ),
                  ),
                ),
              ),
            ),
          ),
        )
        (omega arith) in
    (ends.0, rw (ends.1, regex_clean) refl, ends.2)
