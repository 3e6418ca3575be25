-- ===== src/Api/Debts.antt =====
-- app/api/debt.py. An amount of a request is a float, one of a row is in hundredths, as the
-- `Numeric` column keeps it; an interest rate is only stored and given back, so that a number
-- stands for the float; a date is its ordinal; the identifier and the creation time of a new row
-- come from the database and are arguments. A rounded quotient is kept as its two parts.
pub mod Valid
use gexpense_tracker_public.Prelude.{
  ℕ, ◌+◌, ◌*◌, Bool, true, false, ◌||◌, not, Option, none, some, List, [], ◌∷◌, ◌++◌, if◌then◌else◌,
}
use gexpense_tracker_public.Prelude.Int.{ℤ, pos, negsuc, int_ltb, minus}
use gexpense_tracker_public.Prelude.Text.{Text, strip, is_empty}
use gexpense_tracker_public.Api.Amounts.{Floats}
use gexpense_tracker_public.Api.{Answer, answer, refused, Row, find_own, update_own, delete_own}

pub record DebtBody (F : Type 0) : Type 0 where
  pub name : Text
  pub total_amount : F
  pub paid_amount : F
  pub interest_rate : Option ℕ
  pub target_date : Option ℕ
  pub notes : Option Text

pub record Debt : Type 0 where
  pub id : ℕ
  pub user_id : ℕ
  pub name : Text
  pub total_amount : ℤ
  pub paid_amount : ℤ
  pub interest_rate : Option ℕ
  pub target_date : Option ℕ
  pub notes : Option Text
  pub created_at : Option ℕ

instance abbrev pub debt_row : Row Debt
debt_row = record { id_of = λ d. d.id; user_of = λ d. d.user_id }

-- The value of `_fmt`: the row, what is left, and the two amounts whose quotient is the percentage.
pub record DebtView : Type 0 where
  pub debt : Debt
  pub remaining : ℤ
  pub pct_paid : Option (ℤ × ℤ)

-- `_fmt`
unfoldable pub fmt : Debt → DebtView
unfolding minus
fmt d = record {
  debt = d;
  remaining = minus d.total_amount d.paid_amount;
  pct_paid = if int_ltb (pos 0) d.total_amount then some (d.paid_amount, d.total_amount) else none;
}

module _ {F : Type 0} ⦃floats : Floats F⦄ where
  -- The three tests on the amounts that both handlers make.
  unfoldable pub has_bad_amounts : DebtBody F → Bool
  has_bad_amounts body =
      floats.le body.total_amount floats.nought
      || floats.lt body.paid_amount floats.nought
      || floats.lt body.total_amount body.paid_amount

  unfoldable pub new_debt : ℕ → ℕ → ℕ → DebtBody F → Debt
  unfolding strip
  new_debt user id now body = record {
    id = id;
    user_id = user;
    name = strip body.name;
    total_amount = floats.column body.total_amount;
    paid_amount = floats.column body.paid_amount;
    interest_rate = body.interest_rate;
    target_date = body.target_date;
    notes = body.notes;
    created_at = some now;
  }

  -- `create_debt`
  unfoldable pub create_debt : ℕ → ℕ → ℕ → DebtBody F → List Debt → Answer DebtView × List Debt
  unfolding is_empty strip has_bad_amounts new_debt fmt
  create_debt user id now body debts =
      if is_empty (strip body.name)
      then (refused 422, debts)
      else (if has_bad_amounts body
          then (refused 422, debts)
          else (answer (fmt (new_debt user id now body)), debts ++ new_debt user id now body ∷ []))

  unfoldable pub assign : DebtBody F → Debt → Debt
  unfolding strip
  assign body d = record {
    id = d.id;
    user_id = d.user_id;
    name = strip body.name;
    total_amount = floats.column body.total_amount;
    paid_amount = floats.column body.paid_amount;
    interest_rate = body.interest_rate;
    target_date = body.target_date;
    notes = body.notes;
    created_at = d.created_at;
  }

  -- `update_debt`
  unfoldable pub update_debt : ℕ → ℕ → DebtBody F → List Debt → Answer DebtView × List Debt
  unfolding find_own has_bad_amounts assign update_own fmt
  update_debt user id body debts = elim (find_own id user debts) [
    | none ↦ (refused 404, debts)
    | some d ↦
        if has_bad_amounts body
        then (refused 422, debts)
        else (answer (fmt (assign body d)), update_own id user (assign body) debts)
  ]

-- `delete_debt`
unfoldable pub delete_debt : ℕ → ℕ → List Debt → Answer ℕ × List Debt
unfolding find_own delete_own
delete_debt user id debts = elim (find_own id user debts) [
  | none ↦ (refused 404, debts)
  | some d ↦ (answer id, delete_own id user debts)
]

-- A request to the router, with what the database gives to a new row.
pub data Request (F : Type 0) : Type 0 where
  create : ℕ → ℕ → DebtBody F → Request F
  update : ℕ → DebtBody F → Request F
  delete : ℕ → Request F

module _ {F : Type 0} ⦃floats : Floats F⦄ where
  -- The table after a request of a user.
  unfoldable pub serve : ℕ → Request F → List Debt → List Debt
  unfolding create_debt update_debt delete_debt
  serve user (create id now body) debts = (create_debt user id now body debts).1
  serve user (update id body) debts = (update_debt user id body debts).1
  serve user (delete id) debts = (delete_debt user id debts).1

  -- The table after the requests of several users, in their order.
  unfoldable pub serve_all : List (ℕ × Request F) → List Debt → List Debt
  unfolding serve
  serve_all [] debts = debts
  serve_all ((user, r) ∷ requests) debts = serve_all requests (serve user r debts)
