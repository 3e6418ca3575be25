-- ===== src/Prelude/Text.antt =====
-- Texts that the program takes apart: lists of code points.
use Prim.Native.Char.{code}
use Prim.Native.String.{String}
use Prim.Native.Nat.{ℕ}
use mathlib.Core.Path.{◌≡◌}
use mathlib.Core.Logic.{◌↔◌}
use mathlib.Core.Bool.{Bool, true, false, ◌&&◌, ◌||◌}
use mathlib.Core.List.{List, [], ◌∷◌, ◌++◌}
use native.Mathlib.Omega.{arith}
use gexpense_tracker_public.Prelude.Tests.{◌==◌, leb, if◌then◌else◌}
use gexpense_tracker_public.Prelude.Equality.{Eq}

abbrev pub Text : Type 0
Text = List ℕ

-- the text of a literal of the source
abbrev pub codes : String → Text
codes String.[] = []
codes (String.◌∷◌ c s) = code c ∷ codes s

unfoldable pub text_eq : Text → Text → Bool
text_eq [] [] = true
text_eq [] (d ∷ t) = false
text_eq (c ∷ s) [] = false
text_eq (c ∷ s) (d ∷ t) = if c == d then text_eq s t else false

pub text_eq_iff : (s t : Text) → (text_eq s t ≡ true) ↔ (s ≡ t)
unfolding text_eq
text_eq_iff [] [] = ground arith
text_eq_iff [] (d ∷ t) = ground arith
text_eq_iff (c ∷ s) [] = ground arith
text_eq_iff (c ∷ s) (d ∷ t) = ground (arith, text_eq_iff s t)

instance abbrev pub text_equality : Eq Text
text_equality = record { beq = text_eq; beq_iff = text_eq_iff }

-- `t.startswith(s)`
unfoldable pub starts_with : Text → Text → Bool
starts_with [] t = true
starts_with (c ∷ s) [] = false
starts_with (c ∷ s) (d ∷ t) = if c == d then starts_with s t else false

-- `s in t`
unfoldable pub in_text : Text → Text → Bool
unfolding starts_with
in_text s [] = starts_with s []
in_text s (d ∷ t) = if starts_with s (d ∷ t) then true else in_text s t

-- What `\s` matches, and what `str.split()` splits at.
unfoldable pub is_space : ℕ → Bool
is_space c =
    (leb 9 c && leb c 13)
    || (leb 28 c && leb c 32)
    || c == 0x85
    || c == 0xa0
    || c == 0x1680
    || (leb 0x2000 c && leb c 0x200a)
    || c == 0x2028
    || c == 0x2029
    || c == 0x202f
    || c == 0x205f
    || c == 0x3000

-- Put a character before the first word of a list of words.
unfoldable pub onto_first : ℕ → List Text → List Text
onto_first c [] = (c ∷ []) ∷ []
onto_first c (w ∷ ws) = (c ∷ w) ∷ ws

-- The pieces between single separators; the pieces of a run of separators are empty.
unfoldable pub split_at : (ℕ → Bool) → Text → List Text
unfolding onto_first
split_at sep [] = [] ∷ []
split_at sep (c ∷ t) = let rest = split_at sep t in if sep c then [] ∷ rest else onto_first c rest

-- `" ".join(ws)`
unfoldable pub join_words : List Text → Text
join_words [] = []
join_words (w ∷ []) = w
join_words (w ∷ v ∷ ws) = w ++ 32 ∷ join_words (v ∷ ws)

-- `t.lstrip()`
unfoldable pub strip_left : Text → Text
unfolding is_space
strip_left [] = []
strip_left (c ∷ t) = let rest = strip_left t in if is_space c then rest else c ∷ t

-- `t.rstrip()`
unfoldable pub strip_right : Text → Text
unfolding is_space
strip_right [] = []
strip_right (c ∷ t) =
    let rest = strip_right t in
    elim rest [ [] ↦ if is_space c then [] else c ∷ [] | d ∷ s ↦ c ∷ d ∷ s ]

-- `t.strip()`
unfoldable pub strip : Text → Text
unfolding strip_left strip_right
strip t = strip_right (strip_left t)

-- `not t`
unfoldable pub is_empty : Text → Bool
is_empty [] = true
is_empty (c ∷ t) = false
