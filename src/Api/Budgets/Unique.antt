-- ===== src/Api/Budgets/Unique.antt =====
-- A user has one budget for a category, one link for two categories, and no link of a category to
-- itself.
use gexpense_tracker_public.Prelude.{
  ℕ, ◌≡◌, refl, arith, false, not, Option, List, [], ◌∷◌, map, Eq, if-elim, Option-elim, nat_eq,
  pair_eq,
}
use gexpense_tracker_public.Prelude.Members.{mem, IsNodup}
use gexpense_tracker_public.Prelude.Text.{Text, text_equality, strip, is_empty}
use gexpense_tracker_public.Api.Amounts.{Floats}
use gexpense_tracker_public.Api.{
  Answer, Row, is_own, find_own, update_own, delete_own, All, All-delete_own,
}
use gexpense_tracker_public.Api.Budgets.{
  BudgetBody, BudgetLinkBody, Budget, BudgetLink, budget_row, link_row, Tables, budget_key,
  link_key, positive_of, insert_budget, create_budget, insert_link, has_bad_ends,
  create_budget_link, delete_budget_link, set_limit, update_budget, delete_budget, Request, create,
  create_link, delete_link, update, delete, serve, serve_all,
}

module _ {A K : Type 0} ⦃row : Row A⦄ ⦃e : Eq K⦄ (key : A → K) where
  mem-delete_own :
      (id user : ℕ) (k : K) (rows : List A)
      → mem k (map key rows) ≡ false
      → mem k (map key (delete_own id user rows)) ≡ false
  unfolding mem delete_own
  mem-delete_own id user k [] h = refl
  mem-delete_own id user k (a ∷ rows) h = ground (arith, mem-delete_own id user k rows)

  -- Rows that are deleted leave the keys of the others distinct.
  IsNodup-delete_own :
      (id user : ℕ) (rows : List A)
      → IsNodup (map key rows)
      → IsNodup (map key (delete_own id user rows))
  unfolding delete_own
  IsNodup-delete_own id user [] h = tt
  IsNodup-delete_own id user (a ∷ rows) h =
      if-elim (λ r. IsNodup (map key r)) (not (is_own id user a)) _ _
        (λ m. (mem-delete_own id user (key a) rows h.0, IsNodup-delete_own id user rows h.1))
        (λ m. IsNodup-delete_own id user rows h.1)

  -- Assignments that leave the key alone leave the keys of the table.
  keys-update_own :
      (id user : ℕ) (f : A → A) (rows : List A)
      → ((a : A) → key (f a) ≡ key a)
      → map key (update_own id user f rows) ≡ map key rows
  unfolding update_own
  keys-update_own id user f [] keeps = refl
  keys-update_own id user f (a ∷ rows) keeps =
      if-elim (λ r. (key r ∷ map key (update_own id user f rows)) ≡ (key a ∷ map key rows))
        (is_own id user a) (f a) a (λ m. rw (keeps a, keys-update_own id user f rows keeps) refl)
        (λ m. rw (keys-update_own id user f rows keeps) refl)

-- The two categories of a link differ, whatever their case.
abbrev pub HasTwoEnds : (Text → Text) → BudgetLink → Type 0
HasTwoEnds lower l = text_equality.beq (lower l.source_category) (lower l.target_category) ≡ false

-- The keys of each table are distinct, and every link has two ends.
unfoldable pub IsUnique : (Text → Text) → Tables → Type 0
IsUnique lower t =
    IsNodup (map budget_key t.budgets)
    × IsNodup (map link_key t.links)
    × All (HasTwoEnds lower) t.links

-- The tables that a handler leaves are such.
abbrev LeavesUnique : {A : Type 0} → (Text → Text) → Answer A × Tables → Type 0
LeavesUnique lower r = IsUnique lower r.1

insert_budget-LeavesUnique :
    (lower : Text → Text) (b : Budget) (t : Tables)
    → IsUnique lower t
    → LeavesUnique lower (insert_budget b t)
unfolding insert_budget IsUnique
insert_budget-LeavesUnique lower b t h =
    if-elim (LeavesUnique lower) (mem (budget_key b) (map budget_key t.budgets)) _ _ (λ m. h)
      (λ fresh. ((fresh, h.0), h.1, h.2))

module _ {F : Type 0} ⦃floats : Floats F⦄ where
  create_budget-LeavesUnique :
      (lower : Text → Text) (user id : ℕ) (body : BudgetBody F) (t : Tables)
      → IsUnique lower t
      → LeavesUnique lower (create_budget user id body t)
  unfolding create_budget
  create_budget-LeavesUnique lower user id body t h =
      if-elim (LeavesUnique lower) (is_empty (strip body.category)) _ _ (λ m. h)
        (λ m.
          Option-elim (LeavesUnique lower) (positive_of body.monthly_limit) _ _ (λ m. h)
            (λ limit m. insert_budget-LeavesUnique lower _ t h))

insert_link-LeavesUnique :
    (lower : Text → Text) (l : BudgetLink) (t : Tables)
    → HasTwoEnds lower l
    → IsUnique lower t
    → LeavesUnique lower (insert_link l t)
unfolding insert_link IsUnique
insert_link-LeavesUnique lower l t ends h =
    if-elim (LeavesUnique lower) (mem (link_key l) (map link_key t.links)) _ _ (λ m. h)
      (λ fresh. (h.0, (fresh, h.1), (ends, h.2)))

has_bad_ends_lem :
    {F : Type 0} (lower : Text → Text) (body : BudgetLinkBody F)
    → has_bad_ends lower body ≡ false
    → text_equality.beq (lower (strip body.source_category)) (lower (strip body.target_category))
      ≡ false
unfolding has_bad_ends
has_bad_ends_lem lower body h = ground arith

module _ {F : Type 0} ⦃floats : Floats F⦄ where
  create_budget_link-LeavesUnique :
      (lower : Text → Text) (user id : ℕ) (body : BudgetLinkBody F) (t : Tables)
      → IsUnique lower t
      → LeavesUnique lower (create_budget_link lower user id body t)
  unfolding create_budget_link
  create_budget_link-LeavesUnique lower user id body t h =
      if-elim (LeavesUnique lower) (has_bad_ends lower body) _ _ (λ m. h)
        (λ good.
          Option-elim (LeavesUnique lower) (positive_of body.split_amount) _ _ (λ m. h)
            (λ split m. insert_link-LeavesUnique lower _ t (has_bad_ends_lem lower body good) h))

delete_budget_link-LeavesUnique :
    (lower : Text → Text) (user id : ℕ) (t : Tables)
    → IsUnique lower t
    → LeavesUnique lower (delete_budget_link user id t)
unfolding delete_budget_link IsUnique
delete_budget_link-LeavesUnique lower user id t h =
    Option-elim {B = Answer ℕ × Tables} (LeavesUnique lower) (find_own id user t.links) _ _ (λ m. h)
      (λ l m. (
        h.0,
        IsNodup-delete_own link_key id user t.links h.1,
        All-delete_own (HasTwoEnds lower) id user t.links h.2,
      ))

budget_key-set_limit : (n : ℕ) (b : Budget) → budget_key (set_limit n b) ≡ budget_key b
unfolding set_limit
budget_key-set_limit n b = refl

update_own-IsUnique :
    (lower : Text → Text) (user id n : ℕ) (t : Tables)
    → IsUnique lower t
    → IsUnique lower
        (record { budgets = update_own id user (set_limit n) t.budgets; links = t.links })
unfolding IsUnique
update_own-IsUnique lower user id n t h = (
  rw (keys-update_own budget_key id user (set_limit n) t.budgets (budget_key-set_limit n)) h.0,
  h.1,
  h.2,
)

module _ {F : Type 0} ⦃floats : Floats F⦄ where
  update_budget-LeavesUnique :
      (lower : Text → Text) (user id : ℕ) (limit : Option F) (t : Tables)
      → IsUnique lower t
      → LeavesUnique lower (update_budget user id limit t)
  unfolding update_budget
  update_budget-LeavesUnique lower user id limit t h =
      Option-elim (LeavesUnique lower) (find_own id user t.budgets) _ _ (λ m. h)
        (λ b m.
          Option-elim (LeavesUnique lower) limit _ _ (λ m. h)
            (λ v m.
              Option-elim (LeavesUnique lower) (positive_of v) _ _ (λ m. h)
                (λ n m. update_own-IsUnique lower user id n t h)))

delete_budget-LeavesUnique :
    (lower : Text → Text) (user id : ℕ) (t : Tables)
    → IsUnique lower t
    → LeavesUnique lower (delete_budget user id t)
unfolding delete_budget IsUnique
delete_budget-LeavesUnique lower user id t h =
    Option-elim {B = Answer ℕ × Tables} (LeavesUnique lower) (find_own id user t.budgets) _ _
      (λ m. h) (λ b m. (IsNodup-delete_own budget_key id user t.budgets h.0, h.1, h.2))

module _ {F : Type 0} ⦃floats : Floats F⦄ where
  serve-IsUnique :
      (lower : Text → Text) (user : ℕ) (r : Request F) (t : Tables)
      → IsUnique lower t
      → IsUnique lower (serve lower user r t)
  unfolding serve
  serve-IsUnique lower user (create id body) t h = create_budget-LeavesUnique lower user id body t h
  serve-IsUnique lower user (create_link id body) t h =
      create_budget_link-LeavesUnique lower user id body t h
  serve-IsUnique lower user (delete_link id) t h = delete_budget_link-LeavesUnique lower user id t h
  serve-IsUnique lower user (update id limit) t h =
      update_budget-LeavesUnique lower user id limit t h
  serve-IsUnique lower user (delete id) t h = delete_budget-LeavesUnique lower user id t h

  -- Where no two budgets have the same user and category, no two links the same user and categories,
  -- and no link has two categories that are equal up to case, the same holds after any requests of
  -- any users.
  pub serve_all-IsUnique :
      (lower : Text → Text) (requests : List (ℕ × Request F)) (t : Tables)
      → IsUnique lower t
      → IsUnique lower (serve_all lower requests t)
  unfolding serve_all
  serve_all-IsUnique lower [] t h = h
  serve_all-IsUnique lower ((user, r) ∷ requests) t h =
      serve_all-IsUnique lower requests (serve lower user r t) (serve-IsUnique lower user r t h)
