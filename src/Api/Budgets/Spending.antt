-- ===== src/Api/Budgets/Spending.antt =====
-- `list_budgets` of app/api/budgets.py, from the budgets of the user and the rows of its two queries
-- on. The columns give hundredths; the sums are floats, which need not be exact.
use gexpense_tracker_public.Prelude.{
  ℕ, ◌≡◌, refl, ap, ◌∙◌, arith, Bool, true, false, Option, none, some, List, [], ◌∷◌, map,
  if◌then◌else◌, if-elim,
}
use gexpense_tracker_public.Prelude.Text.{Text, text_equality, is_empty}
use gexpense_tracker_public.Prelude.Dict.{Dict, get, get_or, put, get-put}
use gexpense_tracker_public.Api.Amounts.{Floats}
use gexpense_tracker_public.Api.Budgets.{Budget}

-- A row of `spend_rows` or of `linked_rows`: a category, if any, and what was spent on it.
pub record SpendRow : Type 0 where
  pub category : Option Text
  pub spent : Option ℕ

-- An entry of the list, with the limit as a float.
pub record BudgetSpending (F : Type 0) : Type 0 where
  pub budget : Budget
  pub monthly_limit : F
  pub spent_this_month : F
  pub pct : F
  pub over_budget : Bool

abbrev pub or_zero : Option ℕ → ℕ
or_zero none = 0
or_zero (some n) = n

-- `r.category.lower() if r.category else ""`
unfoldable pub spend_key : (Text → Text) → Option Text → Text
unfolding is_empty
spend_key lower none = []
spend_key lower (some category) = if is_empty category then [] else lower category

-- Another value under a key, as a reader with a default sees it.
get_or-put :
    {F : Type 0} (key name : Text) (v default : F) (spend_map : Dict Text F)
    → get_or name (put key v spend_map) default
      ≡ (if text_equality.beq key name then v else get_or name spend_map default)
unfolding get_or
get_or-put {F = F} key name v default spend_map =
    ap (λ o. elim o [ none ↦ default | some m ↦ m ]) (get-put key name v spend_map)
    ∙ either (text_equality.beq key name) (get name spend_map)
  where
    either :
        (b : Bool) (o : Option F)
        → elim (if b then some v else o) [ none ↦ default | some m ↦ m ]
          ≡ (if b then v else elim o [ none ↦ default | some m ↦ m ])
    either true o = refl
    either false o = refl

get_or-nothing : {F : Type 0} (name : Text) (default : F) → get_or {V = F} name [] default ≡ default
unfolding get_or get
get_or-nothing name default = refl

module _ {F : Type 0} ⦃floats : Floats F⦄ where
  -- One round of the loop over the rows.
  unfoldable pub spend_row : (Text → Text) → SpendRow → Dict Text F → Dict Text F
  unfolding spend_key is_empty get_or put
  spend_row lower r spend_map =
      let key = spend_key lower r.category in
      let spent = floats.of_column (or_zero r.spent) in
      if is_empty key
      then spend_map
      else put key (floats.plus (get_or key spend_map floats.nought) spent) spend_map

  -- `spend_map` and `linked_map`
  unfoldable pub map_spending : (Text → Text) → List SpendRow → Dict Text F → Dict Text F
  unfolding spend_row
  map_spending lower [] spend_map = spend_map
  map_spending lower (r ∷ rows) spend_map = map_spending lower rows (spend_row lower r spend_map)

  -- The entry of a budget.
  unfoldable pub budget_spending :
      (Text → Text) → Dict Text F → Dict Text F → Budget → BudgetSpending F
  unfolding get_or
  budget_spending lower spend_map linked_map b =
      let direct = get_or (lower b.category) spend_map floats.nought in
      let linked = get_or (lower b.category) linked_map floats.nought in
      let spent = floats.plus direct linked in
      let limit = floats.of_column b.monthly_limit in
      record {
        budget = b;
        monthly_limit = limit;
        spent_this_month = floats.round_cents spent;
        pct = if floats.lt floats.nought limit then floats.percent spent limit else floats.nought;
        over_budget = floats.lt limit spent;
      }

  -- `list_budgets`
  unfoldable pub list_budgets :
      (Text → Text) → List Budget → List SpendRow → List SpendRow → List (BudgetSpending F)
  unfolding map_spending budget_spending
  list_budgets lower budgets spend_rows linked_rows =
      map
        (budget_spending lower (map_spending lower spend_rows [])
          (map_spending lower linked_rows []))
        budgets

  -- The floats of the rows whose category is the name up to case, added in their order to the first.
  abbrev pub spent_on : (Text → Text) → Text → List SpendRow → F → F
  spent_on lower name [] so_far = so_far
  spent_on lower name (r ∷ rows) so_far = spent_on lower name rows (
      if text_equality.beq (spend_key lower r.category) name
      then floats.plus so_far (floats.of_column (or_zero r.spent))
      else so_far)

  spend_row_lem :
      (lower : Text → Text) (name : Text) (r : SpendRow) (spend_map : Dict Text F)
      → is_empty name ≡ false
      → get_or name (spend_row lower r spend_map) floats.nought ≡ (
          if text_equality.beq (spend_key lower r.category) name
          then floats.plus
              (get_or name spend_map floats.nought)
              (floats.of_column (or_zero r.spent))
          else get_or name spend_map floats.nought)
  unfolding spend_row
  spend_row_lem lower name r spend_map filled =
      let key = spend_key lower r.category in
      let spent = floats.of_column (or_zero r.spent) in
      let sum = floats.plus (get_or key spend_map floats.nought) spent in
      if-elim
        (λ m. get_or name m floats.nought ≡ (
          if text_equality.beq key name
          then floats.plus (get_or name spend_map floats.nought) spent
          else get_or name spend_map floats.nought))
        (is_empty key) spend_map (put key sum spend_map)
        (λ e. ground (arith, e, filled, text_equality.beq_iff key name))
        (λ e. get_or-put key name sum floats.nought spend_map ∙ same key name spent spend_map)
    where
      same :
          (key name : Text) (spent : F) (spend_map : Dict Text F)
          → (if text_equality.beq key name
              then floats.plus (get_or key spend_map floats.nought) spent
              else get_or name spend_map floats.nought)
            ≡ (if text_equality.beq key name
                then floats.plus (get_or name spend_map floats.nought) spent
                else get_or name spend_map floats.nought)
      same key name spent spend_map = ground (arith, text_equality.beq_iff key name)

  map_spending_lem :
      (lower : Text → Text) (name : Text) (rows : List SpendRow) (spend_map : Dict Text F)
      → is_empty name ≡ false
      → get_or name (map_spending lower rows spend_map) floats.nought
        ≡ spent_on lower name rows (get_or name spend_map floats.nought)
  unfolding map_spending
  map_spending_lem lower name [] spend_map filled = refl
  map_spending_lem lower name (r ∷ rows) spend_map filled =
      map_spending_lem lower name rows (spend_row lower r spend_map) filled
      ∙ ap (spent_on lower name rows) (spend_row_lem lower name r spend_map filled)

  map_spending-nothing :
      (lower : Text → Text) (name : Text) (rows : List SpendRow)
      → is_empty name ≡ false
      → get_or name (map_spending lower rows []) floats.nought
        ≡ spent_on lower name rows floats.nought
  map_spending-nothing lower name rows filled =
      map_spending_lem lower name rows [] filled
      ∙ ap (spent_on lower name rows) (get_or-nothing name floats.nought)

  -- An entry shows this sum and this limit.
  abbrev pub Shows : F → F → BudgetSpending F → Type 0
  Shows spent limit e =
      (e.monthly_limit ≡ limit)
      × (e.spent_this_month ≡ floats.round_cents spent)
      × (e.pct
          ≡ (if floats.lt floats.nought limit then floats.percent spent limit else floats.nought))
      × (e.over_budget ≡ floats.lt limit spent)

  -- The entries of the list.
  abbrev pub AreSpent :
      (Text → Text) → List SpendRow → List SpendRow → List Budget → List (BudgetSpending F) → Type 0
  AreSpent lower spend_rows linked_rows [] [] = Unit
  AreSpent lower spend_rows linked_rows [] (e ∷ entries) = ⊥
  AreSpent lower spend_rows linked_rows (b ∷ budgets) [] = ⊥
  AreSpent lower spend_rows linked_rows (b ∷ budgets) (e ∷ entries) =
      ((e.budget ≡ b)
        × (is_empty (lower b.category) ≡ false
            → Shows
                (floats.plus (spent_on lower (lower b.category) spend_rows floats.nought)
                  (spent_on lower (lower b.category) linked_rows floats.nought))
                (floats.of_column b.monthly_limit) e))
      × AreSpent lower spend_rows linked_rows budgets entries

pub list_budgets-AreSpent :
    (F : Type 0) ⦃floats : Floats F⦄ (lower : Text → Text) (budgets : List Budget)
    (spend_rows linked_rows : List SpendRow)
    → AreSpent {F = F} lower spend_rows linked_rows budgets
        (list_budgets lower budgets spend_rows linked_rows)
unfolding list_budgets budget_spending
list_budgets-AreSpent F lower [] spend_rows linked_rows = tt
list_budgets-AreSpent F lower (b ∷ budgets) spend_rows linked_rows = (
  (
    refl,
    (λ filled.
        rw
          (
            map_spending-nothing lower (lower b.category) spend_rows filled,
            map_spending-nothing lower (lower b.category) linked_rows filled,
          )
          (refl, refl, refl, refl)),
  ),
  list_budgets-AreSpent F lower budgets spend_rows linked_rows,
)
