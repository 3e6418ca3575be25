-- ===== src/Classifier/Merchants/Tables.antt =====
-- The first row of a key in a table, and what the changes of tables do to it.
use gexpense_tracker_public.Prelude.{
  ◌≡◌, refl, ap, ◌+◌, ◌≤◌, arith, Bool, Option, none, some, List, [], ◌∷◌, ◌++◌, filter, length,
  if◌then◌else◌, is_some, Bool-cases, Option-cases, inl, inr, ◌∙◌, Eq,
}
use gexpense_tracker_public.Classifier.Merchants.{
  Fetched, absent, one, one_or_none, change_rows, upsert, update,
}

abbrev pub map_option {ℓ κ} : {A : Type ℓ} {B : Type κ} → (A → B) → Option A → Option B
map_option f none = none
map_option f (some a) = some (f a)

module _ {ℓ κ} {A : Type ℓ} {K : Type κ} ⦃e : Eq K⦄ (key : A → K) where
  abbrev pub has_key : K → A → Bool
  has_key k r = e.beq (key r) k

  unfoldable pub first_row : K → List A → Option A
  first_row k [] = none
  first_row k (r ∷ rows) = let rest = first_row k rows in if e.beq (key r) k then some r else rest

  -- No key has two rows.
  abbrev pub IsUnique : List A → Type κ
  IsUnique rows = (k : K) → length (filter (has_key k) rows) ≤ 1

  -- The one row of a key, or none.
  abbrev pub to_fetched : Option A → Fetched A
  to_fetched none = absent
  to_fetched (some r) = one r

  filter-none :
      (k : K) (rows : List A) → length (filter (has_key k) rows) ≡ 0 → first_row k rows ≡ none
  unfolding first_row
  filter-none k [] h = refl
  filter-none k (r ∷ rows) h = ground (arith, filter-none k rows)

  one_or_none-empty : (rows : List A) → length rows ≡ 0 → one_or_none rows ≡ absent
  unfolding one_or_none
  one_or_none-empty [] h = refl
  one_or_none-empty (r ∷ rows) h = absurd (omega (arith, h))

  one_or_none-one : (r : A) (rows : List A) → length rows ≡ 0 → one_or_none (r ∷ rows) ≡ one r
  unfolding one_or_none
  one_or_none-one r [] h = refl
  one_or_none-one r (s ∷ rows) h = absurd (omega (arith, h))

  pub one_or_none-first_row :
      (k : K) (rows : List A)
      → length (filter (has_key k) rows) ≤ 1
      → one_or_none (filter (has_key k) rows) ≡ to_fetched (first_row k rows)
  unfolding first_row
  one_or_none-first_row k [] h = one_or_none-empty [] refl
  one_or_none-first_row k (r ∷ rows) h = elim (Bool-cases (has_key k r)) [
    | inl e ↦ rw e (one_or_none-one r (filter (has_key k) rows) (ground (arith, e, h)))
    | inr e ↦ rw e (one_or_none-first_row k rows (ground (arith, e, h)))
  ]

  first_row-none :
      (k : K) (rows : List A) → first_row k rows ≡ none → length (filter (has_key k) rows) ≡ 0
  unfolding first_row
  first_row-none k [] h = refl
  first_row-none k (r ∷ rows) h = ground (arith, first_row-none k rows)

  length-change_rows :
      (f : A → A) (k j : K) (rows : List A)
      → ((r : A) → key (f r) ≡ key r)
      → length (filter (has_key j) (change_rows (has_key k) f rows))
        ≡ length (filter (has_key j) rows)
  unfolding change_rows
  length-change_rows f k j [] h = refl
  length-change_rows f k j (r ∷ rows) h = ground (arith, length-change_rows f k j rows h, h r)

  length-filter-append :
      (j : K) (rows : List A) (r : A)
      → length (filter (has_key j) (rows ++ r ∷ []))
        ≡ length (filter (has_key j) rows) + (if e.beq (key r) j then 1 else 0)
  length-filter-append j [] r = ground arith
  length-filter-append j (s ∷ rows) r = ground (arith, length-filter-append j rows r)

  pub first_row-change_rows :
      (f : A → A) (k j : K) (rows : List A)
      → ((r : A) → key (f r) ≡ key r)
      → first_row j (change_rows (has_key k) f rows)
        ≡ (if e.beq k j then map_option f (first_row k rows) else first_row j rows)
  unfolding first_row change_rows
  first_row-change_rows f k j [] h = ground arith
  first_row-change_rows f k j (r ∷ rows) h = ground (
    arith,
    first_row-change_rows f k j rows h,
    h r,
    e.beq_iff (key r) k,
    e.beq_iff (key r) j,
    e.beq_iff k j,
    e.beq_iff (key (f r)) j,
  )

  pub first_row-append :
      (j : K) (rows : List A) (r : A)
      → first_row j (rows ++ r ∷ []) ≡ (
          if is_some (first_row j rows)
          then first_row j rows
          else (if e.beq (key r) j then some r else none))
  unfolding first_row
  first_row-append j [] r = ground arith
  first_row-append j (s ∷ rows) r = ground (arith, first_row-append j rows r)

  -- The row of a key after an upsert: the changed one, or the new one.
  abbrev pub upserted : (A → A) → A → Option A → A
  upserted f row none = row
  upserted f row (some r) = f r

  pub upsert-first_row :
      (f : A → A) (k : K) (row : A) (rows : List A)
      → ((r : A) → key (f r) ≡ key r)
      → key row ≡ k
      → IsUnique rows
      → (rows' : List A) × (upsert (has_key k) f row rows ≡ some rows')
        × IsUnique rows'
        × ((j : K)
            → first_row j rows'
              ≡ (if e.beq k j then some (upserted f row (first_row k rows)) else first_row j rows))
  unfolding upsert
  upsert-first_row f k row rows h own unique =
      let found = one_or_none-first_row k rows (unique k) in
      elim (Option-cases (first_row k rows)) [
        | inl gone ↦ (
          rows ++ row ∷ [],
          rw (found ∙ ap to_fetched gone, upsert) refl,
          (λ j. ground (
            arith,
            length-filter-append j rows row,
            unique j,
            first_row-none k rows gone,
            own,
            e.beq_iff k j,
            e.beq_iff (key row) j,
          )),
          (λ j. ground (arith, first_row-append j rows row, gone, own, e.beq_iff k j)),
        )
        | inr (r, there) ↦ (
          change_rows (has_key k) f rows,
          rw (found ∙ ap to_fetched there, upsert) refl,
          (λ j. omega (arith, length-change_rows f k j rows h, unique j)),
          (λ j. first_row-change_rows f k j rows h ∙ rw there refl),
        )
      ]

  pub update-first_row :
      (f : A → A) (k : K) (rows : List A)
      → ((r : A) → key (f r) ≡ key r)
      → IsUnique rows
      → (rows' : List A) × (update (has_key k) f rows ≡ some rows')
        × IsUnique rows'
        × ((j : K)
            → first_row j rows'
              ≡ (if e.beq k j then map_option f (first_row k rows) else first_row j rows))
  unfolding update
  update-first_row f k rows h unique =
      let found = one_or_none-first_row k rows (unique k) in
      elim (Option-cases (first_row k rows)) [
        | inl gone ↦ (
          rows,
          rw (found ∙ ap to_fetched gone, update) refl,
          unique,
          (λ j. ground (arith, gone, e.beq_iff k j)),
        )
        | inr (r, there) ↦ (
          change_rows (has_key k) f rows,
          rw (found ∙ ap to_fetched there, update) refl,
          (λ j. omega (arith, length-change_rows f k j rows h, unique j)),
          (λ j. first_row-change_rows f k j rows h),
        )
      ]
