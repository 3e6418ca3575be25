-- ===== src/Llm/Sanitize/Places.antt =====
-- Where a pattern is found after a redaction: the rest of the text decides.
use gexpense_tracker_public.Prelude.{
  ℕ, zero, suc, ◌+◌, ◌-◌, ◌≡◌, refl, ap, ◌∙◌, ◌≤◌, arith, Bool, true, false, Option, none, some, [],
  ◌∷◌, ◌++◌, ◌==◌, length, take, drop, any, Bool-cases, inl, inr,
}
use gexpense_tracker_public.Prelude.Text.{Text, starts_with}
use gexpense_tracker_public.Llm.Sanitize.{next_index, find}

abbrev pub is_open : ℕ → Bool
is_open c = c == b'['

-- A pattern without a bracket that starts a text cut before a bracket starts the whole text.
starts_with-take :
    (p : Text) (n : ℕ) (t x : Text)
    → any is_open p ≡ false
    → starts_with p (take n t ++ b'[' ∷ x) ≡ true
    → starts_with p t ≡ true
unfolding starts_with
starts_with-take [] n t x h k = ground arith
starts_with-take (c ∷ p) zero t x h k = ground arith
starts_with-take (c ∷ p) (suc n) [] x h k = ground arith
starts_with-take (c ∷ p) (suc n) (d ∷ t) x h k = ground (arith, starts_with-take p n t x)

length-starts_with : (p t : Text) → starts_with p t ≡ true → length p ≤ length t
unfolding starts_with
length-starts_with [] t h = omega arith
length-starts_with (c ∷ p) [] h = ground arith
length-starts_with (c ∷ p) (d ∷ t) h = ground (arith, length-starts_with p t)

-- The pattern starts at none of the first places.
abbrev pub IsLate : Text → ℕ → Text → Type 0
IsLate p zero t = Unit
IsLate p (suc n) [] = Unit
IsLate p (suc n) (c ∷ t) = (starts_with p (c ∷ t) ≡ false) × IsLate p n t

-- The index with the length of a text before it.
unfoldable pub shift : Text → Option ℕ → Option ℕ
unfolding next_index
shift [] i = i
shift (c ∷ u) i = next_index (shift u i)

pub shift-some : (u : Text) (j : ℕ) → shift u (some j) ≡ some (length u + j)
unfolding shift next_index
shift-some [] j = ground arith
shift-some (c ∷ u) j = ap next_index (shift-some u j) ∙ ground arith

pub shift-none : (u : Text) → shift u none ≡ none
unfolding shift next_index
shift-none [] = refl
shift-none (c ∷ u) = ap next_index (shift-none u)

pub find-none-IsLate : (p t : Text) (n : ℕ) → find p t ≡ none → IsLate p n t
unfolding find next_index
find-none-IsLate p t zero h = tt
find-none-IsLate p [] (suc n) h = tt
find-none-IsLate p (c ∷ t) (suc n) h = ground (arith, find-none-IsLate p t n)

pub find-some-IsLate : (p t : Text) (i : ℕ) → find p t ≡ some i → IsLate p i t
unfolding find next_index
find-some-IsLate p t zero h = tt
find-some-IsLate p [] (suc i) h = tt
find-some-IsLate p (c ∷ t) (suc i) h = ground (arith, find-some-IsLate p t i)

pub find-some-length : (p t : Text) (i : ℕ) → find p t ≡ some i → i + length p ≤ length t
unfolding find next_index
find-some-length p [] i h = ground (arith, length-starts_with p [])
find-some-length p (c ∷ t) i h =
    ground (arith, length-starts_with p (c ∷ t), find-some-length p t (i - 1))

pub find-drop-none : (p t : Text) (n : ℕ) → find p t ≡ none → find p (drop n t) ≡ none
unfolding find next_index
find-drop-none p t zero h = h
find-drop-none p [] (suc n) h = h
find-drop-none p (c ∷ t) (suc n) h = ground (arith, find-drop-none p t n)

pub find-take :
    (p : Text) (n : ℕ) (t x : Text)
    → any is_open p ≡ false
    → IsLate p n t
    → find p (take n t ++ b'[' ∷ x) ≡ shift (take n t) (find p (b'[' ∷ x))
unfolding find shift
find-take p zero t x h k = refl
find-take p (suc n) [] x h k = refl
find-take p (suc n) (c ∷ t) x h k = elim (Bool-cases (starts_with p (c ∷ take n t ++ b'[' ∷ x))) [
  | inl e ↦ absurd (ground (arith, starts_with-take p (suc n) (c ∷ t) x h e, k.0))
  | inr e ↦ rw e (ap next_index (find-take p n t x h k.1))
]
