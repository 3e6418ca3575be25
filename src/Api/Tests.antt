-- ===== src/Api/Tests.antt =====
-- Runs of the routers on concrete requests.
use gexpense_tracker_public.Prelude.{
  ℕ, ◌≡◌, refl, ◌+◌, ◌*◌, ◌/◌, arith, not, true, none, List, [], ◌∷◌, ◌==◌, some, map, leb, ◌&&◌,
  length, if◌then◌else◌,
}
use gexpense_tracker_public.Prelude.Int.{ℤ, pos, negsuc, pos_part, int_ltb}
use gexpense_tracker_public.Prelude.Text.{Text, codes, text_eq}
use gexpense_tracker_public.Prelude.Dict.{get}
use gexpense_tracker_public.Api.Amounts.{Floats, IsAtMost, IsOrdered}
use gexpense_tracker_public.Api.{refused, All, rows_of, has_own}
use gexpense_tracker_public.Api.Debts.{DebtBody, Debt, debt_row, create_debt}
use gexpense_tracker_public.Api.Debts.Valid.{IsPayable, serve_all-IsPayable, rows_of-serve}
use gexpense_tracker_public.Api.Goals.{
  GoalCreate, Goal, goal_row, GoalContribution, Tables, ContributionCreate, compute_current_amount,
  add_contribution, delete_goal, get_goal, build_response,
}
use gexpense_tracker_public.Api.Goals.Contributions.{added, add_contribution_lem, delete_goal_lem}
use gexpense_tracker_public.Api.Goals.Kept.{HaveGoals, serve_all-HaveGoals}
use gexpense_tracker_public.Api.Budgets.{Budget, BudgetBody, BudgetLinkBody}
use gexpense_tracker_public.Api.Budgets.Spending.{
  SpendRow, list_budgets, AreSpent, list_budgets-AreSpent,
}
use gexpense_tracker_public.Api.Budgets.Unique.{IsUnique, serve_all-IsUnique}
use gexpense_tracker_public.Api.Budgets
use gexpense_tracker_public.Api.Debts
use gexpense_tracker_public.Api.Goals

-- Amounts in thousandths, which the columns round down.
abbrev round_down : ℤ → ℤ
round_down (pos n) = pos (n / 10)
round_down (negsuc n) = negsuc (n / 10)

column_le : (a b : ℤ) → not (int_ltb b a) ≡ true → IsAtMost (round_down a) (round_down b)
column_le (pos a) (pos b) h = ground arith
column_le (pos a) (negsuc b) h = ground arith
column_le (negsuc a) (pos b) h = ground arith
column_le (negsuc a) (negsuc b) h = ground arith

instance abbrev thousandths : Floats ℤ
thousandths = record {
  nought = pos 0;
  le = λ a b. not (int_ltb b a);
  lt = int_ltb;
  plus = λ a b. pos (pos_part a + pos_part b);
  column = round_down;
  of_column = λ n. pos (n * 10);
  round_cents = λ a. a;
  percent = λ a b. a;
}

thousandths-IsOrdered : IsOrdered ℤ thousandths
thousandths-IsOrdered = record {
  column_nought = refl;
  column_le = column_le;
  le_of_not_le = λ a b h. ground arith;
  le_of_not_lt = λ a b h. ground arith;
}

abbrev loan : DebtBody ℤ
loan = record {
  name = codes " Car loan ";
  total_amount = pos 5000000;
  paid_amount = pos 200000;
  interest_rate = none;
  target_date = none;
  notes = none;
}

abbrev overpaid : DebtBody ℤ
overpaid = record {
  name = codes "Phone";
  total_amount = pos 10000;
  paid_amount = pos 10010;
  interest_rate = none;
  target_date = none;
  notes = none;
}

overpaid_is_refused : create_debt 1 10 738000 overpaid [] ≡ (refused 422, [])
unfolding create_debt
overpaid_is_refused = refl

abbrev debt_requests : List (ℕ × Debts.Request ℤ)
debt_requests =
    (1, Debts.create 10 738000 loan)
    ∷ (2, Debts.update 10 overpaid)
    ∷ (1, Debts.update 10 overpaid)
    ∷ (2, Debts.delete 10)
    ∷ []

serve_all-IsPayable_example : All IsPayable (Debts.serve_all debt_requests [])
serve_all-IsPayable_example = serve_all-IsPayable thousandths-IsOrdered debt_requests [] tt

-- A total below half a cent is not refused, and the row has a total of nothing.
abbrev tiny : DebtBody ℤ
tiny = record {
  name = codes "Gum";
  total_amount = pos 4;
  paid_amount = pos 0;
  interest_rate = none;
  target_date = none;
  notes = none;
}

tiny_is_stored_as_nothing :
    map (λ (d : Debt). d.total_amount) (create_debt 1 10 738000 tiny []).1 ≡ pos 0 ∷ []
unfolding create_debt
tiny_is_stored_as_nothing = refl

one_debt_left : length (Debts.serve_all debt_requests []) ≡ 1
unfolding Debts.serve_all
one_debt_left = refl

rows_of-serve_example :
    rows_of 1 (Debts.serve {F = ℤ} 2 (Debts.delete 10) (create_debt 1 10 738000 loan []).1)
    ≡ rows_of 1 (create_debt 1 10 738000 loan []).1
rows_of-serve_example = rows_of-serve 2 1 (Debts.delete 10) (create_debt 1 10 738000 loan []).1 refl

abbrev trip : GoalCreate ℤ
trip = record {
  name = codes "Trip";
  target_amount = pos 1000000;
  target_date = none;
  category = none;
  notes = none;
}

abbrev saved : ContributionCreate ℤ
saved = record { amount = pos 25004; note = none }

abbrev no_tables : Tables
no_tables = record { goals = []; contributions = [] }

abbrev goal_requests : List (ℕ × Goals.Request ℤ)
goal_requests =
    (1, Goals.create 5 738000 trip)
    ∷ (1, Goals.contribute 5 saved)
    ∷ (2, Goals.contribute 5 saved)
    ∷ []

no_tables-HaveGoals : HaveGoals [] []
unfolding HaveGoals
no_tables-HaveGoals = tt

serve_all-HaveGoals_example :
    HaveGoals
      (Goals.serve_all goal_requests no_tables).goals
      (Goals.serve_all goal_requests no_tables).contributions
serve_all-HaveGoals_example = serve_all-HaveGoals goal_requests no_tables no_tables-HaveGoals

-- The other user's contribution is refused.
saved_once : compute_current_amount (Goals.serve_all goal_requests no_tables).contributions 5 ≡ 2500
unfolding Goals.serve_all compute_current_amount
saved_once = refl

abbrev tables : Tables
tables = Goals.serve_all goal_requests no_tables

add_contribution_lem_example :
    compute_current_amount (add_contribution 1 5 saved tables).1.contributions 5
    ≡ (if 5 == 5 then (if has_own 5 1 tables.goals then added saved.amount else 0) else 0)
      + compute_current_amount tables.contributions 5
add_contribution_lem_example = add_contribution_lem 1 5 5 saved tables

delete_goal_lem_example :
    (get_goal 1 5 (delete_goal 1 5 tables).1 ≡ refused 404)
    × (compute_current_amount (delete_goal 1 5 tables).1.contributions 5 ≡ (
        if 5 == 5
        then (if has_own 5 1 tables.goals then 0 else compute_current_amount tables.contributions 5)
        else compute_current_amount tables.contributions 5))
delete_goal_lem_example = delete_goal_lem 1 5 5 tables

abbrev trip_goal : Goal
trip_goal = record {
  id = 5;
  user_id = 1;
  name = codes "Trip";
  target_amount = 100000;
  target_date = none;
  category = none;
  notes = none;
  active = true;
  created_at = none;
}

abbrev food : BudgetBody ℤ
food = record { category = codes "Food "; monthly_limit = pos 8000000 }

abbrev food_to_trips : BudgetLinkBody ℤ
food_to_trips = record {
  source_category = codes "Food";
  target_category = codes "Trips";
  split_amount = pos 50000;
}

abbrev no_budgets : Budgets.Tables
no_budgets = record { budgets = []; links = [] }

abbrev budget_requests : List (ℕ × Budgets.Request ℤ)
budget_requests =
    (1, Budgets.create 1 food)
    ∷ (1, Budgets.create 2 food)
    ∷ (2, Budgets.create 3 food)
    ∷ (1, Budgets.create_link 1 food_to_trips)
    ∷ []

no_budgets-IsUnique : IsUnique (λ s. s) no_budgets
unfolding IsUnique
no_budgets-IsUnique = (tt, tt, tt)

serve_all-IsUnique_example :
    IsUnique (λ s. s) (Budgets.serve_all (λ s. s) budget_requests no_budgets)
serve_all-IsUnique_example =
    serve_all-IsUnique (λ s. s) budget_requests no_budgets no_budgets-IsUnique

-- The second budget of the first user is refused.
two_budgets : length (Budgets.serve_all (λ s. s) budget_requests no_budgets).budgets ≡ 2
unfolding Budgets.serve_all text_eq
two_budgets = refl

-- `str.lower` on the letters of ASCII
abbrev ascii_lower : Text → Text
ascii_lower t = map (λ c. if leb 65 c && leb c 90 then c + 32 else c) t

abbrev food_budget : Budget
food_budget = record { id = 1; user_id = 7; category = codes "Food"; monthly_limit = 10000 }

-- The month's rows for the category in two spellings, and one without a category.
abbrev month_rows : List SpendRow
month_rows =
    record { category = some (codes "food"); spent = some 6000 }
    ∷ record { category = none; spent = some 900 }
    ∷ record { category = some (codes "FOOD"); spent = some 3000 }
    ∷ []

abbrev link_rows : List SpendRow
link_rows = record { category = some (codes "Food"); spent = some 1500 } ∷ []

list_budgets-AreSpent_example :
    AreSpent {F = ℤ} ascii_lower month_rows link_rows
      (food_budget ∷ [])
      (list_budgets ascii_lower (food_budget ∷ []) month_rows link_rows)
list_budgets-AreSpent_example =
    list_budgets-AreSpent ℤ ascii_lower (food_budget ∷ []) month_rows link_rows

overspent :
    list_budgets {F = ℤ} ascii_lower (food_budget ∷ []) month_rows link_rows
    ≡ record {
      budget = food_budget;
      monthly_limit = pos 100000;
      spent_this_month = pos 105000;
      pct = pos 105000;
      over_budget = true;
    }
      ∷ []
unfolding list_budgets text_eq get
overspent = refl
