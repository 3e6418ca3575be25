-- ===== src/Prelude/Dict.antt =====
-- Python's `dict`: an association list in insertion order, generic in its key.
use mathlib.Core.List.{List, [], ◌∷◌}
use Prim.Native.Nat.{◌+◌, ◌≤◌}
use mathlib.Core.Path.{◌≡◌, refl, ap, subst}
use mathlib.Core.Bool.{Bool, true, false}
use mathlib.Core.Option.{Option, none, some, some-injective}
use native.Mathlib.Omega.{arith}
use gexpense_tracker_public.Prelude.Tests.{if◌then◌else◌, if-elim, is_some}
use gexpense_tracker_public.Prelude.Equality.{Eq}
use gexpense_tracker_public.Prelude.Lists.{length}
use gexpense_tracker_public.Prelude.Members.{mem, IsNodup}

abbrev pub Dict {ℓ κ} : Type ℓ → Type κ → Type (ℓ ⊔ κ)
Dict K V = List (K × V)

abbrev pub keys {ℓ κ} : {K : Type ℓ} {V : Type κ} → Dict K V → List K
keys [] = []
keys ((k, v) ∷ d) = k ∷ keys d

abbrev pub values {ℓ κ} : {K : Type ℓ} {V : Type κ} → Dict K V → List V
values [] = []
values ((k, v) ∷ d) = v ∷ values d

abbrev pub map_values {ℓ κ} : {K : Type ℓ} {V : Type κ} → (V → V) → Dict K V → Dict K V
map_values f [] = []
map_values f ((k, v) ∷ d) = (k, f v) ∷ map_values f d

module _ {ℓ κ} {K : Type ℓ} {V : Type κ} ⦃e : Eq K⦄ where
  -- `d.get(k)`
  unfoldable pub get : K → Dict K V → Option V
  get k [] = none
  get k ((j, v) ∷ d) = if e.beq j k then some v else get k d

  -- `d.get(k, default)`
  unfoldable pub get_or : K → Dict K V → V → V
  get_or k d default = elim (get k d) [ none ↦ default | some v ↦ v ]

  -- `k in d`
  abbrev pub contains : K → Dict K V → Bool
  contains k d = is_some (get k d)

  -- `d[k] = v`
  unfoldable pub put : K → V → Dict K V → Dict K V
  put k v [] = (k, v) ∷ []
  put k v ((j, w) ∷ d) = if e.beq j k then (j, v) ∷ d else (j, w) ∷ put k v d

  -- `d.pop(k, None)`, and `del d[k]` where `k` is there
  unfoldable pub remove : K → Dict K V → Dict K V
  remove k [] = []
  remove k ((j, v) ∷ d) = let rest = remove k d in if e.beq j k then rest else (j, v) ∷ rest

  pub get-put :
      (k j : K) (v : V) (d : Dict K V) → get j (put k v d) ≡ (if e.beq k j then some v else get j d)
  unfolding get put
  get-put k j v [] = ground arith
  get-put k j v ((i, w) ∷ d) =
      ground (arith, e.beq_iff k j, e.beq_iff i k, e.beq_iff i j, get-put k j v d)

  pub get-put_same : (k : K) (v : V) (d : Dict K V) → get k (put k v d) ≡ some v
  get-put_same k v d = ground (arith, get-put k k v d, e.beq_iff k k)

  pub get_or-put_same :
      (k : K) (v : V) (d : Dict K V) (default : V) → get_or k (put k v d) default ≡ v
  unfolding get_or
  get_or-put_same k v d default =
      ap (λ o. elim o [ none ↦ default | some w ↦ w ]) (get-put_same k v d)

  pub get-remove :
      (k j : K) (d : Dict K V) → get j (remove k d) ≡ (if e.beq k j then none else get j d)
  unfolding get remove
  get-remove k j [] = ground arith
  get-remove k j ((i, w) ∷ d) =
      ground (arith, e.beq_iff k j, e.beq_iff i k, e.beq_iff i j, get-remove k j d)

  -- `for k in ks: d.pop(k, None)`
  unfoldable pub remove_all : List K → Dict K V → Dict K V
  remove_all [] d = d
  remove_all (k ∷ ks) d = remove_all ks (remove k d)

  pub get-remove_all :
      (ks : List K) (j : K) (d : Dict K V)
      → get j (remove_all ks d) ≡ (if mem j ks then none else get j d)
  unfolding remove_all mem
  get-remove_all [] j d = refl
  get-remove_all (k ∷ ks) j d = ground (arith, get-remove_all ks j (remove k d), get-remove k j d)

  pub mem-keys : (j : K) (d : Dict K V) → mem j (keys d) ≡ contains j d
  unfolding get mem
  mem-keys j [] = refl
  mem-keys j ((i, w) ∷ d) = ground (arith, mem-keys j d)

  pub length-put-le : (k : K) (v : V) (d : Dict K V) → length (put k v d) ≤ length d + 1
  unfolding put
  length-put-le k v [] = omega arith
  length-put-le k v ((i, w) ∷ d) = ground (arith, length-put-le k v d)

  pub length-remove-le : (k : K) (d : Dict K V) → length (remove k d) ≤ length d
  unfolding remove
  length-remove-le k [] = omega arith
  length-remove-le k ((i, w) ∷ d) = ground (arith, length-remove-le k d)

  pub length-remove-lt :
      (k : K) (d : Dict K V) → contains k d ≡ true → length (remove k d) + 1 ≤ length d
  unfolding remove get
  length-remove-lt k [] h = cc
  length-remove-lt k ((i, w) ∷ d) h = ground (arith, length-remove-lt k d, length-remove-le k d)

  pub length-remove_all-le : (ks : List K) (d : Dict K V) → length (remove_all ks d) ≤ length d
  unfolding remove_all
  length-remove_all-le [] d = omega arith
  length-remove_all-le (k ∷ ks) d =
      omega (arith, length-remove_all-le ks (remove k d), length-remove-le k d)

  -- Every key of the list is in the dict.
  abbrev pub AllIn : List K → Dict K V → Type 0
  AllIn [] d = Unit
  AllIn (k ∷ ks) d = (contains k d ≡ true) × AllIn ks d

  pub AllIn-remove :
      (ks : List K) (k : K) (d : Dict K V) → mem k ks ≡ false → AllIn ks d → AllIn ks (remove k d)
  unfolding mem
  AllIn-remove [] k d h a = tt
  AllIn-remove (j ∷ ks) k d h a =
      ground (arith, AllIn-remove ks k d, get-remove k j d, e.beq_iff k j, e.beq_iff j k)

  -- Popping distinct keys that are there shortens the dict by as many entries.
  pub length-remove_all :
      (ks : List K) (d : Dict K V)
      → IsNodup ks
      → AllIn ks d
      → length (remove_all ks d) + length ks ≤ length d
  unfolding remove_all
  length-remove_all [] d n a = omega arith
  length-remove_all (k ∷ ks) d n a = omega (
    arith,
    length-remove_all ks (remove k d) n.1 (AllIn-remove ks k d n.0 a.1),
    length-remove-lt k d a.0,
  )

  pub mem-keys-put :
      (k j : K) (v : V) (d : Dict K V)
      → mem j (keys (put k v d)) ≡ (if e.beq k j then true else mem j (keys d))
  mem-keys-put k j v d = ground (arith, mem-keys j (put k v d), mem-keys j d, get-put k j v d)

  pub IsNodup-keys-put :
      (k : K) (v : V) (d : Dict K V) → IsNodup (keys d) → IsNodup (keys (put k v d))
  unfolding put mem
  IsNodup-keys-put k v [] n = (refl, tt)
  IsNodup-keys-put k v ((i, w) ∷ d) n =
      ground (arith, IsNodup-keys-put k v d n.1, mem-keys-put k i v d, e.beq_iff k i, e.beq_iff i k)

  pub mem-keys-remove :
      (k j : K) (d : Dict K V)
      → mem j (keys (remove k d)) ≡ (if e.beq k j then false else mem j (keys d))
  mem-keys-remove k j d = ground (arith, mem-keys j (remove k d), mem-keys j d, get-remove k j d)

  pub IsNodup-keys-remove : (k : K) (d : Dict K V) → IsNodup (keys d) → IsNodup (keys (remove k d))
  unfolding remove
  IsNodup-keys-remove k [] n = tt
  IsNodup-keys-remove k ((i, w) ∷ d) n =
      ground (arith, IsNodup-keys-remove k d n.1, mem-keys-remove k i d)

  pub IsNodup-keys-remove_all :
      (ks : List K) (d : Dict K V) → IsNodup (keys d) → IsNodup (keys (remove_all ks d))
  unfolding remove_all
  IsNodup-keys-remove_all [] d n = n
  IsNodup-keys-remove_all (k ∷ ks) d n =
      IsNodup-keys-remove_all ks (remove k d) (IsNodup-keys-remove k d n)

  pub AllIn-of_mem :
      (ks : List K) (d : Dict K V) → ((k : K) → mem k ks ≡ true → contains k d ≡ true) → AllIn ks d
  unfolding mem
  AllIn-of_mem [] d h = tt
  AllIn-of_mem (k ∷ ks) d h =
      (h k (ground (arith, e.beq_iff k k)), AllIn-of_mem ks d (λ j m. h j (ground arith)))

  pub length-of_empty : (d : Dict K V) → ((k : K) → contains k d ≡ false) → length d ≡ 0
  unfolding get
  length-of_empty [] h = refl
  length-of_empty ((k, v) ∷ d) h = ground (arith, h k, e.beq_iff k k)

  pub get-map_values :
      (f : V → V) (k : K) (d : Dict K V)
      → get k (map_values f d) ≡ elim (get k d) [ none ↦ none | some v ↦ some (f v) ]
  unfolding get
  get-map_values f k [] = refl
  get-map_values f k ((i, w) ∷ d) = ground (arith, get-map_values f k d)

  -- What holds of the default and of every value holds of what `get_or` returns.
  pub get_or_elim {μ} :
      (P : V → Type μ) (k : K) (d : Dict K V) (default : V)
      → P default
      → ((v : V) → get k d ≡ some v → P v)
      → P (get_or k d default)
  unfolding get_or
  get_or_elim P k d default base found = go (get k d) refl
    where
      go : (o : Option V) → get k d ≡ o → P (elim o [ none ↦ default | some v ↦ v ])
      go none e = base
      go (some v) e = found v e

  pub get_or-put_self :
      (k : K) (v : V) (d : Dict K V) (default : V) → get_or k (put k v d) default ≡ v
  unfolding get_or
  get_or-put_self k v d default = ground (arith, get-put k k v d, e.beq_iff k k)

  -- Every value of a dict has a property.
  abbrev pub AllValues {μ} : (V → Type μ) → Dict K V → Type μ
  AllValues P [] = Unit
  AllValues P ((k, v) ∷ d) = P v × AllValues P d

  pub AllValues-put {μ} :
      (P : V → Type μ) (k : K) (v : V) (d : Dict K V)
      → P v
      → AllValues P d
      → AllValues P (put k v d)
  unfolding put
  AllValues-put P k v [] p q = (p, tt)
  AllValues-put P k v ((j, w) ∷ d) p q =
      if-elim (AllValues P) (e.beq j k) _ _ (λ m. (p, q.1))
        (λ m. (q.0, AllValues-put P k v d p q.1))

  pub AllValues-remove {μ} :
      (P : V → Type μ) (k : K) (d : Dict K V) → AllValues P d → AllValues P (remove k d)
  unfolding remove
  AllValues-remove P k [] q = tt
  AllValues-remove P k ((j, w) ∷ d) q =
      if-elim (AllValues P) (e.beq j k) _ _ (λ m. AllValues-remove P k d q.1)
        (λ m. (q.0, AllValues-remove P k d q.1))

  pub AllValues-get {μ} :
      (P : V → Type μ) (k : K) (d : Dict K V) (v : V) → AllValues P d → get k d ≡ some v → P v
  unfolding get
  AllValues-get P k [] v q h = ground arith
  AllValues-get P k ((j, w) ∷ d) v q h = go (AllValues-get P k d v q.1) (e.beq j k) h
    where
      go : (get k d ≡ some v → P v) → (t : Bool) → (if t then some w else get k d) ≡ some v → P v
      go later true m = subst P (some-injective w v m) q.0
      go later false m = later m
