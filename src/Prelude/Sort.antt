-- ===== src/Prelude/Sort.antt =====
-- Python's `sorted(xs, key=rank)`, by stable insertion.
use Prim.Native.Nat.{ℕ, suc, ◌≤◌}
use mathlib.Core.Path.{◌≡◌, refl, ◌∙◌, ap}
use mathlib.Core.Bool.{true, false}
use mathlib.Core.List.{List, [], ◌∷◌}
use native.Mathlib.Omega.{arith}
use gexpense_tracker_public.Prelude.Tests.{leb, if◌then◌else◌}
use gexpense_tracker_public.Prelude.Equality.{Eq}
use gexpense_tracker_public.Prelude.Lists.{length}
use gexpense_tracker_public.Prelude.Members.{mem, IsNodup}

module _ {ℓ} {A : Type ℓ} (rank : A → ℕ) where
  unfoldable pub insert_sorted : A → List A → List A
  insert_sorted x [] = x ∷ []
  insert_sorted x (y ∷ ys) = if leb (rank x) (rank y) then x ∷ y ∷ ys else y ∷ insert_sorted x ys

  unfoldable pub sorted : List A → List A
  unfolding insert_sorted
  sorted [] = []
  sorted (x ∷ xs) = insert_sorted x (sorted xs)

  -- The ranks do not fall along the list.
  abbrev pub IsSorted : List A → Type 0
  IsSorted [] = Unit
  IsSorted (x ∷ []) = Unit
  IsSorted (x ∷ y ∷ ys) = (rank x ≤ rank y) × IsSorted (y ∷ ys)

  insert_sorted-IsSorted : (x : A) (ys : List A) → IsSorted ys → IsSorted (insert_sorted x ys)
  unfolding insert_sorted
  insert_sorted-IsSorted x [] h = tt
  insert_sorted-IsSorted x (y ∷ []) h = ground arith
  insert_sorted-IsSorted x (y ∷ z ∷ zs) h = ground (arith, insert_sorted-IsSorted x (z ∷ zs) h.1)

  pub sorted-IsSorted : (xs : List A) → IsSorted (sorted xs)
  unfolding sorted
  sorted-IsSorted [] = tt
  sorted-IsSorted (x ∷ xs) = insert_sorted-IsSorted x (sorted xs) (sorted-IsSorted xs)

  length-insert_sorted : (x : A) (ys : List A) → length (insert_sorted x ys) ≡ suc (length ys)
  unfolding insert_sorted
  length-insert_sorted x [] = refl
  length-insert_sorted x (y ∷ ys) = ground (arith, length-insert_sorted x ys)

  pub length-sorted : (xs : List A) → length (sorted xs) ≡ length xs
  unfolding sorted
  length-sorted [] = refl
  length-sorted (x ∷ xs) = length-insert_sorted x (sorted xs) ∙ ap suc (length-sorted xs)

module _ {ℓ} {A : Type ℓ} ⦃e : Eq A⦄ (rank : A → ℕ) where
  mem-insert_sorted :
      (j x : A) (ys : List A)
      → mem j (insert_sorted rank x ys) ≡ (if e.beq x j then true else mem j ys)
  unfolding insert_sorted mem
  mem-insert_sorted j x [] = refl
  mem-insert_sorted j x (y ∷ ys) = ground (arith, mem-insert_sorted j x ys)

  pub mem-sorted : (j : A) (xs : List A) → mem j (sorted rank xs) ≡ mem j xs
  unfolding sorted mem
  mem-sorted j [] = refl
  mem-sorted j (x ∷ xs) = ground (arith, mem-insert_sorted j x (sorted rank xs), mem-sorted j xs)

  insert_sorted-IsNodup :
      (x : A) (ys : List A) → mem x ys ≡ false → IsNodup ys → IsNodup (insert_sorted rank x ys)
  unfolding insert_sorted mem
  insert_sorted-IsNodup x [] h n = (refl, tt)
  insert_sorted-IsNodup x (y ∷ ys) h n =
      ground
        (arith, insert_sorted-IsNodup x ys, mem-insert_sorted y x ys, e.beq_iff x y, e.beq_iff y x)

  pub sorted-IsNodup : (xs : List A) → IsNodup xs → IsNodup (sorted rank xs)
  unfolding sorted
  sorted-IsNodup [] n = tt
  sorted-IsNodup (x ∷ xs) n =
      insert_sorted-IsNodup x (sorted rank xs) (mem-sorted x xs ∙ n.0) (sorted-IsNodup xs n.1)
