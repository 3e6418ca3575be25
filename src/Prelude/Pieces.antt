-- ===== src/Prelude/Pieces.antt =====
-- Taking a text apart at separators, and the last of the pieces.
use Prim.Native.Nat.{ℕ}
use mathlib.Core.Path.{◌≡◌, refl}
use mathlib.Core.Bool.{Bool, true, false}
use mathlib.Core.List.{List, [], ◌∷◌, ◌++◌}
use mathlib.Core.Option.{Option, none, some}
use native.Mathlib.Omega.{arith}
use gexpense_tracker_public.Prelude.Tests.{if◌then◌else◌, if-elim}
use gexpense_tracker_public.Prelude.Lists.{any}
use gexpense_tracker_public.Prelude.Text.{Text, split_at, onto_first}

-- `parts[-1]`
unfoldable pub last_piece : List Text → Option Text
last_piece [] = none
last_piece (w ∷ []) = some w
last_piece (w ∷ v ∷ ws) = last_piece (v ∷ ws)

-- `parts[-2], parts[-1]`
unfoldable pub last_two : List Text → Option (Text × Text)
last_two [] = none
last_two (w ∷ []) = none
last_two (w ∷ v ∷ []) = some (w, v)
last_two (w ∷ v ∷ u ∷ ws) = last_two (v ∷ u ∷ ws)

pub split_at-none : (sep : ℕ → Bool) (t : Text) → any sep t ≡ false → split_at sep t ≡ t ∷ []
unfolding split_at onto_first
split_at-none sep [] h = refl
split_at-none sep (c ∷ t) h = ground (arith, split_at-none sep t)

abbrev has_piece : List Text → Bool
has_piece [] = false
has_piece (w ∷ ws) = true

has_piece-onto_first : (c : ℕ) (xs : List Text) → has_piece (onto_first c xs) ≡ true
unfolding onto_first
has_piece-onto_first c [] = refl
has_piece-onto_first c (x ∷ xs) = refl

has_piece-split_at : (sep : ℕ → Bool) (t : Text) → has_piece (split_at sep t) ≡ true
unfolding split_at
has_piece-split_at sep [] = refl
has_piece-split_at sep (c ∷ t) =
    if-elim (λ ws. has_piece ws ≡ true) (sep c) _ _ (λ e. refl)
      (λ e. has_piece-onto_first c (split_at sep t))

onto_first-append :
    (c : ℕ) (xs ys : List Text)
    → has_piece xs ≡ true
    → onto_first c (xs ++ ys) ≡ onto_first c xs ++ ys
unfolding onto_first
onto_first-append c [] ys h = ground arith
onto_first-append c (x ∷ xs) ys h = refl

-- The pieces of two texts with a separator between them are those of both.
pub split_at-append :
    (sep : ℕ → Bool) (s : Text) (c : ℕ) (t : Text)
    → sep c ≡ true
    → split_at sep (s ++ c ∷ t) ≡ split_at sep s ++ split_at sep t
unfolding split_at
split_at-append sep [] c t h = ground arith
split_at-append sep (d ∷ s) c t h = rw (split_at-append sep s c t h) (
    if-elim
      (λ ws.
        (if sep d
          then [] ∷ split_at sep s ++ split_at sep t
          else onto_first d (split_at sep s ++ split_at sep t))
        ≡ ws ++ split_at sep t)
      (sep d) _ _ (λ e. rw e refl)
      (λ e.
        rw e (onto_first-append d (split_at sep s) (split_at sep t) (has_piece-split_at sep s))))

-- The last pieces of a list that ends in those of a text without a separator.
pub last_piece-append : (ws : List Text) (w : Text) → last_piece (ws ++ w ∷ []) ≡ some w
unfolding last_piece
last_piece-append [] w = refl
last_piece-append (v ∷ []) w = refl
last_piece-append (v ∷ u ∷ ws) w = last_piece-append (u ∷ ws) w

pub last_two-append : (ws : List Text) (v w : Text) → last_two (ws ++ v ∷ w ∷ []) ≡ some (v, w)
unfolding last_two
last_two-append [] v w = refl
last_two-append (u ∷ []) v w = refl
last_two-append (u ∷ x ∷ []) v w = refl
last_two-append (u ∷ x ∷ y ∷ ws) v w = last_two-append (x ∷ y ∷ ws) v w
