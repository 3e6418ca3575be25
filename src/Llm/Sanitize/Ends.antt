-- ===== src/Llm/Sanitize/Ends.antt =====
-- The loop of `_sanitize` ends and leaves none of the patterns, where `str.lower` works on each
-- character alone.
use mathlib.Core.Path.{subst}
use gexpense_tracker_public.Prelude.{
  ℕ, zero, suc, ◌+◌, ◌-◌, ◌≡◌, refl, ap, sym, ◌∙◌, ◌≤◌, ◌<◌, arith, false, Option, none, some, List,
  [], ◌∷◌, ◌++◌, map, length, take, drop, any, length-append, length-take, length-drop,
  Option-cases, inl, inr,
}
use gexpense_tracker_public.Prelude.Text.{Text, starts_with}
use gexpense_tracker_public.Llm.Sanitize.{
  find, redacted, redact_at, redact, redact_all, injections, printable, truncate, sanitize,
}
use gexpense_tracker_public.Llm.Sanitize.Places.{
  is_open, shift, shift-some, shift-none, IsLate, find-none-IsLate, find-some-IsLate,
  find-some-length, find-drop-none, find-take,
}

-- A pattern that the loop removes for good: it is not empty, has no bracket, and a redaction has no
-- start of it.
abbrev IsPattern : Text → Type 0
IsPattern p =
    (0 < length p)
    × (any is_open p ≡ false)
    × ((t : Text) → find p (redacted ++ t) ≡ shift redacted (find p t))

abbrev ArePatterns : List Text → Type 0
ArePatterns [] = Unit
ArePatterns (p ∷ ps) = IsPattern p × ArePatterns ps

-- The patterns are not in the lowered text.
abbrev pub AreFree : (Text → Text) → List Text → Text → Type 0
AreFree lower [] t = Unit
AreFree lower (p ∷ ps) t = (find p (lower t) ≡ none) × AreFree lower ps t

module _ (f : ℕ → ℕ) (same : map f redacted ≡ redacted) where
  map-take : (n : ℕ) (t : Text) → map f (take n t) ≡ take n (map f t)
  map-take zero t = refl
  map-take (suc n) [] = refl
  map-take (suc n) (c ∷ t) = ap (λ u. f c ∷ u) (map-take n t)

  map-drop : (n : ℕ) (t : Text) → map f (drop n t) ≡ drop n (map f t)
  map-drop zero t = refl
  map-drop (suc n) [] = refl
  map-drop (suc n) (c ∷ t) = map-drop n t

  map-append : (s t : Text) → map f (s ++ t) ≡ map f s ++ map f t
  map-append [] t = refl
  map-append (c ∷ s) t = ap (λ u. f c ∷ u) (map-append s t)

  map-length : (t : Text) → length (map f t) ≡ length t
  map-length [] = refl
  map-length (c ∷ t) = ap suc (map-length t)

  map-redact_at : (p : Text) (i : ℕ) (s : Text) → map f (redact_at p i s) ≡ redact_at p i (map f s)
  unfolding redact_at
  map-redact_at p i s =
      map-append (take i s) (redacted ++ drop (i + length p) s)
      ∙ rw (map-take i s) (
          ap (λ u. take i (map f s) ++ u)
            (map-append redacted (drop (i + length p) s)
              ∙ ap (λ v. v ++ map f (drop (i + length p) s)) same
              ∙ ap (λ v. redacted ++ v) (map-drop (i + length p) s)))

  -- Where a pattern is found after the redaction of another.
  find-redact_at :
      (p q : Text) (i : ℕ) (t : Text)
      → IsPattern p
      → IsLate p i t
      → find p (redact_at q i t)
        ≡ shift (take i t) (shift redacted (find p (drop (i + length q) t)))
  unfolding redact_at
  find-redact_at p q i t h late =
      find-take p i t (drop 1 redacted ++ drop (i + length q) t) h.1 late
      ∙ ap (shift (take i t)) (h.2 (drop (i + length q) t))

  find-redact_at-none :
      (p q : Text) (i : ℕ) (t : Text)
      → IsPattern p
      → find p t ≡ none
      → find p (redact_at q i t) ≡ none
  find-redact_at-none p q i t h free =
      find-redact_at p q i t h (find-none-IsLate p t i free)
      ∙ ap (λ o. shift (take i t) (shift redacted o)) (find-drop-none p t (i + length q) free)
      ∙ ap (shift (take i t)) (shift-none redacted)
      ∙ shift-none (take i t)

  length-redact_at :
      (p : Text) (i : ℕ) (t : Text)
      → length (redact_at p i t) ≡ length (take i t) + (10 + (length t - (i + length p)))
  unfolding redact_at
  length-redact_at p i t =
      length-append (take i t) (redacted ++ drop (i + length p) t)
      ∙ ap (λ n. length (take i t) + n)
          (length-append redacted (drop (i + length p) t)
            ∙ ap (λ n. 10 + n) (length-drop (i + length p) t))

  -- What is left of the text from the first place of the pattern on.
  abbrev IsWithin : ℕ → Text → Option ℕ → Type 0
  IsWithin n t none = Unit
  IsWithin n t (some i) = length t ≤ i + n

  redact_at-IsWithin :
      (p : Text) (n i : ℕ) (t : Text)
      → IsPattern p
      → find p t ≡ some i
      → length t ≤ i + suc n
      → IsWithin n (redact_at p i t) (find p (redact_at p i t))
  redact_at-IsWithin p n i t h found within =
      let rest = find p (drop (i + length p) t) in
      let bound = find-some-length p t i found in
      let e = find-redact_at p p i t h (find-some-IsLate p t i found) in
      elim (Option-cases rest) [
        | inl none_left ↦
            subst (IsWithin n (redact_at p i t))
              (sym (
                e
                ∙ ap (λ o. shift (take i t) (shift redacted o)) none_left
                ∙ ap (shift (take i t)) (shift-none redacted)
                ∙ shift-none (take i t)))
              tt
        | inr (j, found_j) ↦
            subst (IsWithin n (redact_at p i t))
              (sym (
                e
                ∙ ap (λ o. shift (take i t) (shift redacted o)) found_j
                ∙ ap (shift (take i t)) (shift-some redacted j)
                ∙ shift-some (take i t) (length redacted + j)))
              (omega (arith, bound, within, h.0, length-redact_at p i t, length-take i t))
      ]

  -- The loop returns, and the pattern is not in the text that it returns.
  redact-ends :
      (p : Text) (n : ℕ) (s : Text)
      → IsPattern p
      → IsWithin n (map f s) (find p (map f s))
      → (r : Text) × (redact (map f) n p s ≡ some r) × (find p (map f r) ≡ none)
  unfolding redact
  redact-ends p zero s h within = elim (Option-cases (find p (map f s))) [
    | inl e ↦ (s, rw (e, redact) refl, e)
    | inr (i, e) ↦ absurd (
        let late : length (map f s) ≤ i + 0 = subst (IsWithin 0 (map f s)) e within in
        omega (arith, find-some-length p (map f s) i e, h.0, late))
  ]
  redact-ends p (suc n) s h within = elim (Option-cases (find p (map f s))) [
    | inl e ↦ (s, rw (e, redact) refl, e)
    | inr (i, e) ↦
        let late : length (map f s) ≤ i + suc n = subst (IsWithin (suc n) (map f s)) e within in
        let next = redact-ends p n (redact_at p i s) h (
          subst (λ t. IsWithin n t (find p t)) (sym (map-redact_at p i s))
            (redact_at-IsWithin p n i (map f s) h e late)) in
        (next.0, rw (e, redact) next.1, next.2)
  ]

  -- A pattern that is not in the text is not in what the loop for another pattern returns.
  redact-keeps :
      (p q : Text) (n : ℕ) (s r : Text)
      → IsPattern p
      → find p (map f s) ≡ none
      → redact (map f) n q s ≡ some r
      → find p (map f r) ≡ none
  unfolding redact
  redact-keeps p q zero s r h free e = elim (Option-cases (find q (map f s))) [
    | inl none_left ↦ ground (arith, none_left, e, free)
    | inr (i, found) ↦ ground (arith, found, e)
  ]
  redact-keeps p q (suc n) s r h free e = elim (Option-cases (find q (map f s))) [
    | inl none_left ↦ ground (arith, none_left, e, free)
    | inr (i, found) ↦
        redact-keeps p q n (redact_at q i s) r h
          (ap (find p) (map-redact_at q i s) ∙ find-redact_at-none p q i (map f s) h free)
          (sym (rw (found, redact) refl) ∙ e)
  ]

  redact-AreFree :
      (ps : List Text) (q : Text) (n : ℕ) (s r : Text)
      → ArePatterns ps
      → redact (map f) n q s ≡ some r
      → AreFree (map f) ps s
      → AreFree (map f) ps r
  redact-AreFree [] q n s r h e free = tt
  redact-AreFree (p ∷ ps) q n s r h e free =
      (redact-keeps p q n s r h.0 free.0 e, redact-AreFree ps q n s r h.1 e free.1)

  IsWithin-length : (p t : Text) → IsWithin (length t) t (find p t)
  IsWithin-length p t = elim (Option-cases (find p t)) [
    | inl e ↦ subst (IsWithin (length t) t) (sym e) tt
    | inr (i, e) ↦ subst (IsWithin (length t) t) (sym e) (omega arith)
  ]

  redact-ends_all :
      (p : Text) (s : Text)
      → IsPattern p
      → (r : Text) × (redact (map f) (length s) p s ≡ some r) × (find p (map f r) ≡ none)
  redact-ends_all p s h = redact-ends p (length s) s h (
      subst (λ n. IsWithin n (map f s) (find p (map f s))) (map-length s)
        (IsWithin-length p (map f s)))

  -- A pattern that is gone stays away in the loops for the patterns after it.
  redact_all-keeps :
      (ps qs : List Text) (s r : Text)
      → ArePatterns ps
      → AreFree (map f) ps s
      → redact_all (map f) qs s ≡ some r
      → AreFree (map f) ps r
  unfolding redact_all
  redact_all-keeps ps [] s r h free e = ground arith
  redact_all-keeps ps (q ∷ qs) s r h free e = elim (Option-cases (redact (map f) (length s) q s)) [
    | inl ended ↦ ground (arith, ended, e)
    | inr (t, ended) ↦
        redact_all-keeps ps qs t r h (redact-AreFree ps q (length s) s t h ended free)
          (sym (rw (ended, redact_all) refl) ∙ e)
  ]

  redact_all-ends :
      (qs : List Text) (s : Text)
      → ArePatterns qs
      → (r : Text) × (redact_all (map f) qs s ≡ some r) × AreFree (map f) qs r
  unfolding redact_all
  redact_all-ends [] s h = (s, refl, tt)
  redact_all-ends (q ∷ qs) s h =
      let here = redact-ends_all q s h.0 in
      let rest = redact_all-ends qs here.0 h.1 in
      (
        rest.0,
        rw (here.1, redact_all) rest.1,
        ((redact_all-keeps (q ∷ []) qs here.0 rest.0 (h.0, tt) (here.2, tt) rest.1).0, rest.2),
      )

injections-ArePatterns : ArePatterns injections
unfolding find shift starts_with
injections-ArePatterns = (
  (omega arith, refl, λ t. refl),
  (
    (omega arith, refl, λ t. refl),
    (
      (omega arith, refl, λ t. refl),
      (
        (omega arith, refl, λ t. refl),
        ((omega arith, refl, λ t. refl), ((omega arith, refl, λ t. refl), tt)),
      ),
    ),
  ),
)

-- Sanitizing a text comes to an end, where `lower` works on each character alone and leaves
-- "[redacted]" as it is: none of the patterns is in the lowered text that is truncated then.
pub sanitize-ends :
    (f : ℕ → ℕ)
    → map f redacted ≡ redacted
    → (max_length : ℕ) (s : Text)
    → (r : Text) × (sanitize (map f) max_length s ≡ some (truncate max_length r))
      × AreFree (map f) injections r
unfolding sanitize
sanitize-ends f same max_length s =
    let ends = redact_all-ends f same injections (printable s) injections-ArePatterns in
    (ends.0, rw (ends.1, sanitize) refl, ends.2)
