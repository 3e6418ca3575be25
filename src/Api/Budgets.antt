-- ===== src/Api/Budgets.antt =====
-- app/api/budgets.py, the handlers that change its tables. An amount of a request is a float, one
-- of a row is in hundredths, as the `Numeric` column keeps it; the identifier of a new row comes
-- from the database and is an argument. The newest row stands first. A commit fails where the new
-- row repeats the key of a unique constraint of app/models/financial.py. `lower` stands for
-- `str.lower`.
pub mod Unique
pub mod Spending
use gexpense_tracker_public.Prelude.{
  ℕ, suc, zero, Bool, true, false, ◌||◌, Option, none, some, List, [], ◌∷◌, map, if◌then◌else◌,
  nat_eq, pair_eq,
}
use gexpense_tracker_public.Prelude.Int.{pos_part}
use gexpense_tracker_public.Prelude.Members.{mem}
use gexpense_tracker_public.Prelude.Text.{Text, text_equality, strip, is_empty}
use gexpense_tracker_public.Api.Amounts.{Floats}
use gexpense_tracker_public.Api.{Answer, answer, refused, Row, find_own, update_own, delete_own}

pub record BudgetBody (F : Type 0) : Type 0 where
  pub category : Text
  pub monthly_limit : F

pub record BudgetLinkBody (F : Type 0) : Type 0 where
  pub source_category : Text
  pub target_category : Text
  pub split_amount : F

pub record Budget : Type 0 where
  pub id : ℕ
  pub user_id : ℕ
  pub category : Text
  pub monthly_limit : ℕ

pub record BudgetLink : Type 0 where
  pub id : ℕ
  pub user_id : ℕ
  pub source_category : Text
  pub target_category : Text
  pub split_amount : ℕ

instance abbrev pub budget_row : Row Budget
budget_row = record { id_of = λ b. b.id; user_of = λ b. b.user_id }

instance abbrev pub link_row : Row BudgetLink
link_row = record { id_of = λ l. l.id; user_of = λ l. l.user_id }

-- The two tables.
pub record Tables : Type 0 where
  pub budgets : List Budget
  pub links : List BudgetLink

-- `uq_budget_user_category`
abbrev pub budget_key : Budget → ℕ × Text
budget_key b = (b.user_id, b.category)

-- `uq_budget_link_user_src_tgt`
abbrev pub link_key : BudgetLink → (ℕ × Text) × Text
link_key l = ((l.user_id, l.source_category), l.target_category)

module _ {F : Type 0} ⦃floats : Floats F⦄ where
  -- What the column keeps of the amount, where it is not refused as zero or negative.
  unfoldable pub positive_of : F → Option ℕ
  positive_of v = if floats.le v floats.nought then none else some (pos_part (floats.column v))

-- `db.add(b)` and the commit
unfoldable pub insert_budget : Budget → Tables → Answer Budget × Tables
unfolding mem
insert_budget b t =
    if mem (budget_key b) (map budget_key t.budgets)
    then (refused 409, t)
    else (answer b, record { budgets = b ∷ t.budgets; links = t.links })

module _ {F : Type 0} ⦃floats : Floats F⦄ where
  -- `create_budget`
  unfoldable pub create_budget : ℕ → ℕ → BudgetBody F → Tables → Answer Budget × Tables
  unfolding strip is_empty positive_of insert_budget
  create_budget user id body t =
      if is_empty (strip body.category)
      then (refused 422, t)
      else elim (positive_of body.monthly_limit) [
        | none ↦ (refused 422, t)
        | some limit ↦
            insert_budget
              (record {
                id = id;
                user_id = user;
                category = strip body.category;
                monthly_limit = limit;
              })
              t
      ]

unfoldable pub insert_link : BudgetLink → Tables → Answer BudgetLink × Tables
unfolding mem
insert_link l t =
    if mem (link_key l) (map link_key t.links)
    then (refused 409, t)
    else (answer l, record { budgets = t.budgets; links = l ∷ t.links })

-- The tests on the two categories of a link.
unfoldable pub has_bad_ends : {F : Type 0} → (Text → Text) → BudgetLinkBody F → Bool
unfolding strip is_empty
has_bad_ends lower body =
    is_empty (strip body.source_category)
    || is_empty (strip body.target_category)
    || text_equality.beq (lower (strip body.source_category)) (lower (strip body.target_category))

module _ {F : Type 0} ⦃floats : Floats F⦄ where
  -- `create_budget_link`
  unfoldable pub create_budget_link :
      (Text → Text) → ℕ → ℕ → BudgetLinkBody F → Tables → Answer BudgetLink × Tables
  unfolding has_bad_ends strip positive_of insert_link
  create_budget_link lower user id body t =
      if has_bad_ends lower body then (refused 422, t) else elim (positive_of body.split_amount) [
        | none ↦ (refused 422, t)
        | some split ↦
            insert_link
              (record {
                id = id;
                user_id = user;
                source_category = strip body.source_category;
                target_category = strip body.target_category;
                split_amount = split;
              })
              t
      ]

-- `delete_budget_link`
unfoldable pub delete_budget_link : ℕ → ℕ → Tables → Answer ℕ × Tables
unfolding find_own delete_own
delete_budget_link user id t = elim (find_own id user t.links) [
  | none ↦ (refused 404, t)
  | some l ↦ (answer id, record { budgets = t.budgets; links = delete_own id user t.links })
]

unfoldable pub set_limit : ℕ → Budget → Budget
set_limit limit b = record {
  id = b.id;
  user_id = b.user_id;
  category = b.category;
  monthly_limit = limit;
}

module _ {F : Type 0} ⦃floats : Floats F⦄ where
  -- `update_budget`
  unfoldable pub update_budget : ℕ → ℕ → Option F → Tables → Answer Budget × Tables
  unfolding find_own positive_of set_limit update_own
  update_budget user id monthly_limit t = elim (find_own id user t.budgets) [
    | none ↦ (refused 404, t)
    | some b ↦ elim monthly_limit [
      | none ↦ (answer b, t)
      | some limit ↦ elim (positive_of limit) [
        | none ↦ (refused 422, t)
        | some n ↦ (
          answer (set_limit n b),
          record { budgets = update_own id user (set_limit n) t.budgets; links = t.links },
        )
      ]
    ]
  ]

-- `delete_budget`
unfoldable pub delete_budget : ℕ → ℕ → Tables → Answer ℕ × Tables
unfolding find_own delete_own
delete_budget user id t = elim (find_own id user t.budgets) [
  | none ↦ (refused 404, t)
  | some b ↦ (answer id, record { budgets = delete_own id user t.budgets; links = t.links })
]

pub data Request (F : Type 0) : Type 0 where
  create : ℕ → BudgetBody F → Request F
  create_link : ℕ → BudgetLinkBody F → Request F
  delete_link : ℕ → Request F
  update : ℕ → Option F → Request F
  delete : ℕ → Request F

module _ {F : Type 0} ⦃floats : Floats F⦄ where
  -- The tables after a request of a user.
  unfoldable pub serve : (Text → Text) → ℕ → Request F → Tables → Tables
  unfolding create_budget create_budget_link delete_budget_link update_budget delete_budget
  serve lower user (create id body) t = (create_budget user id body t).1
  serve lower user (create_link id body) t = (create_budget_link lower user id body t).1
  serve lower user (delete_link id) t = (delete_budget_link user id t).1
  serve lower user (update id limit) t = (update_budget user id limit t).1
  serve lower user (delete id) t = (delete_budget user id t).1

  -- The tables after the requests of several users, in their order.
  unfoldable pub serve_all : (Text → Text) → List (ℕ × Request F) → Tables → Tables
  unfolding serve
  serve_all lower [] t = t
  serve_all lower ((user, r) ∷ requests) t = serve_all lower requests (serve lower user r t)
