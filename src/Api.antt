-- ===== src/Api.antt =====
-- The routers under app/api that keep rows of their own for a user. A table is the list of its
-- rows; an answer is a value or the status of the `HTTPException` that is raised.
pub mod Amounts
pub mod Budgets
pub mod Debts
pub mod Goals
mod Tests
use mathlib.Core.Option.{some-injective}
use gexpense_tracker_public.Prelude.{
  ℕ, ◌≡◌, refl, arith, Bool, true, false, ◌&&◌, not, Option, none, some, List, [], ◌∷◌, ◌==◌,
  filter, if◌then◌else◌, if-elim, is_some, ap, sym, ◌∙◌, ◌++◌, map, length, ◌≤◌,
}

pub data Answer {ℓ} (A : Type ℓ) : Type ℓ where
  answer : A → Answer A
  refused : ℕ → Answer A

-- What the queries read of a row: its identifier and its user's.
pub record Row {ℓ} (A : Type ℓ) : Type ℓ where
  pub id_of : A → ℕ
  pub user_of : A → ℕ

module _ {ℓ} {A : Type ℓ} ⦃row : Row A⦄ where
  -- `.where(Row.id == id, Row.user_id == user_id)`
  unfoldable pub is_own : ℕ → ℕ → A → Bool
  is_own id user a = row.id_of a == id && row.user_of a == user

  -- The select of one row, `scalar_one_or_none()`
  unfoldable pub find_own : ℕ → ℕ → List A → Option A
  unfolding is_own
  find_own id user [] = none
  find_own id user (a ∷ rows) = if is_own id user a then some a else find_own id user rows

  -- The assignments to that row.
  unfoldable pub update_own : ℕ → ℕ → (A → A) → List A → List A
  unfolding is_own
  update_own id user f rows = map (λ a. if is_own id user a then f a else a) rows

  -- `db.delete(row)`
  unfoldable pub delete_own : ℕ → ℕ → List A → List A
  unfolding is_own
  delete_own id user rows = filter (λ a. not (is_own id user a)) rows

  -- What one user has in the table.
  unfoldable pub rows_of : ℕ → List A → List A
  rows_of user rows = filter (λ a. row.user_of a == user) rows

  -- Assignments that leave the owner alone do not touch the rows of another user.
  pub rows_of-update_own :
      (id user other : ℕ) (f : A → A) (rows : List A)
      → (user == other) ≡ false
      → ((a : A) → row.user_of (f a) ≡ row.user_of a)
      → rows_of other (update_own id user f rows) ≡ rows_of other rows
  unfolding rows_of update_own is_own
  rows_of-update_own id user other f [] differ keeps = refl
  rows_of-update_own id user other f (a ∷ rows) differ keeps =
      ground (arith, rows_of-update_own id user other f rows differ keeps, keeps a)

  pub rows_of-delete_own :
      (id user other : ℕ) (rows : List A)
      → (user == other) ≡ false
      → rows_of other (delete_own id user rows) ≡ rows_of other rows
  unfolding rows_of delete_own is_own
  rows_of-delete_own id user other [] differ = refl
  rows_of-delete_own id user other (a ∷ rows) differ =
      ground (arith, rows_of-delete_own id user other rows differ)

  -- Every row of a table has the property.
  abbrev pub All {κ} : (A → Type κ) → List A → Type κ
  All P [] = Unit
  All P (a ∷ rows) = P a × All P rows

  pub All-update_own {κ} :
      (P : A → Type κ) (id user : ℕ) (f : A → A) (rows : List A)
      → ((a : A) → P a → P (f a))
      → All P rows
      → All P (update_own id user f rows)
  unfolding update_own
  All-update_own P id user f [] keeps p = tt
  All-update_own P id user f (a ∷ rows) keeps p = (
    if-elim P (is_own id user a) _ _ (λ e. keeps a p.0) (λ e. p.0),
    All-update_own P id user f rows keeps p.1,
  )

  pub All-delete_own {κ} :
      (P : A → Type κ) (id user : ℕ) (rows : List A) → All P rows → All P (delete_own id user rows)
  unfolding delete_own
  All-delete_own P id user [] p = tt
  All-delete_own P id user (a ∷ rows) p =
      if-elim (All P) (not (is_own id user a)) _ _ (λ e. (p.0, All-delete_own P id user rows p.1))
        (λ e. All-delete_own P id user rows p.1)

  -- Whether a user has a row.
  abbrev pub has_own : ℕ → ℕ → List A → Bool
  has_own id user rows = is_some (find_own id user rows)

  pub has_own-append :
      (id user : ℕ) (rows : List A) (a : A)
      → has_own id user rows ≡ true
      → has_own id user (rows ++ a ∷ []) ≡ true
  unfolding find_own
  has_own-append id user [] a h = ground arith
  has_own-append id user (b ∷ rows) a h = ground (arith, has_own-append id user rows a)

  pub has_own-update_own :
      (id user i u : ℕ) (f : A → A) (rows : List A)
      → ((a : A) → is_own i u (f a) ≡ is_own i u a)
      → has_own i u (update_own id user f rows) ≡ has_own i u rows
  unfolding find_own update_own
  has_own-update_own id user i u f [] keeps = refl
  has_own-update_own id user i u f (a ∷ rows) keeps =
      ground (arith, has_own-update_own id user i u f rows keeps, keeps a)

  pub has_own-delete_own :
      (id user i u : ℕ) (rows : List A)
      → (i == id) ≡ false
      → has_own i u (delete_own id user rows) ≡ has_own i u rows
  unfolding find_own delete_own is_own
  has_own-delete_own id user i u [] differ = refl
  has_own-delete_own id user i u (a ∷ rows) differ =
      ground (arith, has_own-delete_own id user i u rows differ)

  -- A row that is found has the identifier and the user that are asked for.
  pub find_own-is_own :
      (id user : ℕ) (rows : List A) (a : A)
      → find_own id user rows ≡ some a
      → is_own id user a ≡ true
  unfolding find_own
  find_own-is_own id user [] a h = ground arith
  find_own-is_own id user (b ∷ rows) a h =
      go (find_own-is_own id user rows a) (is_own id user b) refl h
    where
      go :
          (find_own id user rows ≡ some a → is_own id user a ≡ true)
          → (t : Bool) → is_own id user b ≡ t
          → (if t then some b else find_own id user rows) ≡ some a
          → is_own id user a ≡ true
      go later true e h = ap (is_own id user) (sym (some-injective b a h)) ∙ e
      go later false e h = later h

  pub find_own-delete_own :
      (id user : ℕ) (rows : List A) → find_own id user (delete_own id user rows) ≡ none
  unfolding find_own delete_own
  find_own-delete_own id user [] = refl
  find_own-delete_own id user (a ∷ rows) = ground (arith, find_own-delete_own id user rows)
