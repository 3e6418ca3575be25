-- ===== src/Prelude/Members.antt =====
-- Membership in a list, the number of occurrences, and lists without repetition.
use Prim.Native.Nat.{ℕ, ◌+◌, ◌≤◌}
use mathlib.Core.Path.{◌≡◌, refl}
use mathlib.Core.Bool.{Bool, true, false}
use mathlib.Core.List.{List, [], ◌∷◌, ◌++◌}
use native.Mathlib.Omega.{arith}
use gexpense_tracker_public.Prelude.Tests.{if◌then◌else◌}
use gexpense_tracker_public.Prelude.Equality.{Eq}
use gexpense_tracker_public.Prelude.Lists.{take}

module _ {ℓ} {K : Type ℓ} ⦃e : Eq K⦄ where
  -- `k in ks`
  unfoldable pub mem : K → List K → Bool
  mem k [] = false
  mem k (j ∷ ks) = if e.beq j k then true else mem k ks

  unfoldable pub count : K → List K → ℕ
  count k [] = 0
  count k (j ∷ ks) = (if e.beq j k then 1 else 0) + count k ks

  -- No element is listed twice.
  abbrev pub IsNodup : List K → Type 0
  IsNodup [] = Unit
  IsNodup (k ∷ ks) = (mem k ks ≡ false) × IsNodup ks

  -- `s.add(k)`, on a set kept as a list
  unfoldable pub add : K → List K → List K
  unfolding mem
  add k s = if mem k s then s else k ∷ s

  -- `s.discard(k)`
  unfoldable pub discard : K → List K → List K
  discard k [] = []
  discard k (j ∷ s) = let rest = discard k s in if e.beq j k then rest else j ∷ rest

  pub mem-append :
      (k : K) (xs ys : List K) → mem k (xs ++ ys) ≡ (if mem k xs then true else mem k ys)
  unfolding mem
  mem-append k [] ys = refl
  mem-append k (x ∷ xs) ys = ground (arith, mem-append k xs ys)

  pub mem-take : (n : ℕ) (k : K) (xs : List K) → mem k xs ≡ false → mem k (take n xs) ≡ false
  unfolding mem
  mem-take Prim.Native.Nat.zero k xs h = refl
  mem-take (Prim.Native.Nat.suc n) k [] h = refl
  mem-take (Prim.Native.Nat.suc n) k (x ∷ xs) h = ground (arith, mem-take n k xs)

  pub IsNodup-take : (n : ℕ) (xs : List K) → IsNodup xs → IsNodup (take n xs)
  IsNodup-take Prim.Native.Nat.zero xs h = tt
  IsNodup-take (Prim.Native.Nat.suc n) [] h = tt
  IsNodup-take (Prim.Native.Nat.suc n) (x ∷ xs) h = (mem-take n x xs h.0, IsNodup-take n xs h.1)

  pub count-of_not_mem : (k : K) (s : List K) → mem k s ≡ false → count k s ≡ 0
  unfolding count mem
  count-of_not_mem k [] h = refl
  count-of_not_mem k (j ∷ s) h = ground (arith, count-of_not_mem k s)

  pub count-of_mem : (k : K) (s : List K) → mem k s ≡ true → 1 ≤ count k s
  unfolding count mem
  count-of_mem k [] h = ground arith
  count-of_mem k (j ∷ s) h = ground (arith, count-of_mem k s)

  -- Adding an element that is not there makes its count one, and leaves the others' alone.
  pub count-add :
      (k j : K) (s : List K)
      → count j (add k s)
        ≡ (if mem k s then count j s else (if e.beq k j then 1 else 0) + count j s)
  unfolding count add
  count-add k j s = ground arith

  pub count-discard :
      (k j : K) (s : List K) → count j (discard k s) ≡ (if e.beq k j then 0 else count j s)
  unfolding count discard
  count-discard k j [] = ground arith
  count-discard k j (i ∷ s) =
      ground (arith, count-discard k j s, e.beq_iff k j, e.beq_iff i k, e.beq_iff i j)

  pub mem-of_mem-take : (n : ℕ) (k : K) (xs : List K) → mem k (take n xs) ≡ true → mem k xs ≡ true
  mem-of_mem-take n k xs h = ground (arith, mem-take n k xs)

  pub mem-discard :
      (k j : K) (s : List K) → mem j (discard k s) ≡ (if e.beq k j then false else mem j s)
  unfolding mem discard
  mem-discard k j [] = ground arith
  mem-discard k j (i ∷ s) =
      ground (arith, mem-discard k j s, e.beq_iff k j, e.beq_iff i k, e.beq_iff i j)
