-- ===== src/Api/Goals.antt =====
-- app/api/goals.py. An amount of a request is a float, one of a row is in hundredths, as the
-- `Numeric` column keeps it; a date is its ordinal; the identifier and the creation time of a new
-- row come from the database and are arguments. A rounded quotient is kept as its two parts. The
-- handler reads a null in a patch as a field that is left out. A contribution has no identifier
-- and no time here, since no handler reads them.
pub mod Contributions
pub mod Kept
use gexpense_tracker_public.Prelude.{
  ℕ, suc, zero, ◌+◌, ◌-◌, ◌*◌, min, Bool, true, false, not, Option, none, some, List, [], ◌∷◌, ◌++◌,
  ◌==◌, filter, ltb, if◌then◌else◌,
}
use gexpense_tracker_public.Prelude.Int.{pos_part}
use gexpense_tracker_public.Prelude.Text.{Text, strip, is_empty}
use gexpense_tracker_public.Dedup.{Ratio}
use gexpense_tracker_public.Api.Amounts.{Floats}
use gexpense_tracker_public.Api.{Answer, answer, refused, Row, find_own, update_own, delete_own}

pub record GoalCreate (F : Type 0) : Type 0 where
  pub name : Text
  pub target_amount : F
  pub target_date : Option ℕ
  pub category : Option Text
  pub notes : Option Text

pub record GoalPatch (F : Type 0) : Type 0 where
  pub name : Option Text
  pub target_amount : Option F
  pub target_date : Option ℕ
  pub category : Option Text
  pub notes : Option Text
  pub active : Option Bool

pub record ContributionCreate (F : Type 0) : Type 0 where
  pub amount : F
  pub note : Option Text

pub record Goal : Type 0 where
  pub id : ℕ
  pub user_id : ℕ
  pub name : Text
  pub target_amount : ℕ
  pub target_date : Option ℕ
  pub category : Option Text
  pub notes : Option Text
  pub active : Bool
  pub created_at : Option ℕ

pub record GoalContribution : Type 0 where
  pub goal_id : ℕ
  pub user_id : ℕ
  pub amount : ℕ
  pub note : Option Text

instance abbrev pub goal_row : Row Goal
goal_row = record { id_of = λ g. g.id; user_of = λ g. g.user_id }

-- The two tables.
pub record Tables : Type 0 where
  pub goals : List Goal
  pub contributions : List GoalContribution

-- The validator `name_not_blank`
unfoldable pub name_not_blank : Text → Option Text
unfolding strip is_empty
name_not_blank v = if is_empty (strip v) then none else some (strip v)

module _ {F : Type 0} ⦃floats : Floats F⦄ where
  -- The validators `amount_positive`: what the column then keeps of the amount, where it is not
  -- refused.
  unfoldable pub amount_positive : F → Option ℕ
  amount_positive v = if floats.le v floats.nought then none else some (pos_part (floats.column v))

-- A validator of an optional field: none for a value that is refused.
unfoldable pub if_given : {A B : Type 0} → (A → Option B) → Option A → Option (Option B)
if_given check none = some none
if_given check (some a) = elim (check a) [ none ↦ none | some b ↦ some (some b) ]

-- `_compute_current_amount`
unfoldable pub compute_current_amount : List GoalContribution → ℕ → ℕ
compute_current_amount [] goal_id = 0
compute_current_amount (c ∷ contributions) goal_id =
    let rest = compute_current_amount contributions goal_id in
    if c.goal_id == goal_id then c.amount + rest else rest

pub record GoalView : Type 0 where
  pub goal : Goal
  pub current_amount : ℕ
  pub pct : Ratio
  pub remaining : ℕ

-- `_build_response`
unfoldable pub build_response : Goal → ℕ → GoalView
build_response goal current_amount = record {
  goal = goal;
  current_amount = current_amount;
  pct =
      if ltb 0 goal.target_amount
      then record {
        num = min (current_amount * 100) (100 * goal.target_amount);
        den = goal.target_amount;
      }
      else record { num = 0; den = 1 };
  remaining = goal.target_amount - current_amount;
}

-- The response with the contributions that a table has.
unfoldable pub view : Tables → Goal → GoalView
unfolding build_response compute_current_amount
view t g = build_response g (compute_current_amount t.contributions g.id)

-- `get_goal`
unfoldable pub get_goal : ℕ → ℕ → Tables → Answer GoalView
unfolding find_own view
get_goal user goal_id t = elim (find_own goal_id user t.goals) [
  | none ↦ refused 404
  | some g ↦ answer (view t g)
]

unfoldable pub new_goal : {F : Type 0} → ℕ → ℕ → ℕ → Text → ℕ → GoalCreate F → Goal
new_goal user id now name target body = record {
  id = id;
  user_id = user;
  name = name;
  target_amount = target;
  target_date = body.target_date;
  category = body.category;
  notes = body.notes;
  active = true;
  created_at = some now;
}

module _ {F : Type 0} ⦃floats : Floats F⦄ where
  -- `create_goal`, with the validation of its body
  unfoldable pub create_goal : ℕ → ℕ → ℕ → GoalCreate F → Tables → Answer GoalView × Tables
  unfolding name_not_blank amount_positive new_goal build_response
  create_goal user id now body t = elim (name_not_blank body.name) [
    | none ↦ (refused 422, t)
    | some name ↦ elim (amount_positive body.target_amount) [
      | none ↦ (refused 422, t)
      | some target ↦ (
        answer (build_response (new_goal user id now name target body) 0),
        record {
          goals = t.goals ++ new_goal user id now name target body ∷ [];
          contributions = t.contributions;
        },
      )
    ]
  ]

-- `g.field = body.field` where the body has the field
unfoldable pub or_kept : {A : Type 0} → Option A → A → A
or_kept none kept = kept
or_kept (some a) kept = a

-- The same of a field of the goal that may be null.
unfoldable pub given_or : {A : Type 0} → Option A → Option A → Option A
given_or none kept = kept
given_or (some a) kept = some a

unfoldable pub patch : {F : Type 0} → Option Text → Option ℕ → GoalPatch F → Goal → Goal
unfolding or_kept given_or
patch name target body g = record {
  id = g.id;
  user_id = g.user_id;
  name = or_kept name g.name;
  target_amount = or_kept target g.target_amount;
  target_date = given_or body.target_date g.target_date;
  category = given_or body.category g.category;
  notes = given_or body.notes g.notes;
  active = or_kept body.active g.active;
  created_at = g.created_at;
}

unfoldable pub update_valid :
    {F : Type 0} → ℕ → ℕ → Option Text → Option ℕ → GoalPatch F → Tables → Answer GoalView × Tables
unfolding find_own update_own patch view
update_valid user goal_id name target body t = elim (find_own goal_id user t.goals) [
  | none ↦ (refused 404, t)
  | some g ↦ (
    answer (view t (patch name target body g)),
    record {
      goals = update_own goal_id user (patch name target body) t.goals;
      contributions = t.contributions;
    },
  )
]

module _ {F : Type 0} ⦃floats : Floats F⦄ where
  -- `update_goal`, with the validation of its body
  unfoldable pub update_goal : ℕ → ℕ → GoalPatch F → Tables → Answer GoalView × Tables
  unfolding if_given name_not_blank amount_positive update_valid
  update_goal user goal_id body t = elim (if_given name_not_blank body.name) [
    | none ↦ (refused 422, t)
    | some name ↦ elim (if_given amount_positive body.target_amount) [
      | none ↦ (refused 422, t)
      | some target ↦ update_valid user goal_id name target body t
    ]
  ]

unfoldable pub with_contribution : ℕ → ℕ → Option Text → Goal → Tables → Tables
with_contribution user amount note g t = record {
  goals = t.goals;
  contributions =
      record { goal_id = g.id; user_id = user; amount = amount; note = note } ∷ t.contributions;
}

module _ {F : Type 0} ⦃floats : Floats F⦄ where
  -- `add_contribution`, with the validation of its body
  unfoldable pub add_contribution : ℕ → ℕ → ContributionCreate F → Tables → Answer GoalView × Tables
  unfolding amount_positive find_own with_contribution view
  add_contribution user goal_id body t = elim (amount_positive body.amount) [
    | none ↦ (refused 422, t)
    | some amount ↦ elim (find_own goal_id user t.goals) [
      | none ↦ (refused 404, t)
      | some g ↦ (
        answer (view (with_contribution user amount body.note g t) g),
        with_contribution user amount body.note g t,
      )
    ]
  ]

unfoldable pub without_goal : ℕ → ℕ → Tables → Tables
unfolding delete_own
without_goal user goal_id t = record {
  goals = delete_own goal_id user t.goals;
  contributions = filter (λ c. not (c.goal_id == goal_id)) t.contributions;
}

-- `delete_goal`
unfoldable pub delete_goal : ℕ → ℕ → Tables → Answer ℕ × Tables
unfolding find_own without_goal
delete_goal user goal_id t = elim (find_own goal_id user t.goals) [
  | none ↦ (refused 404, t)
  | some g ↦ (answer goal_id, without_goal user goal_id t)
]

pub data Request (F : Type 0) : Type 0 where
  create : ℕ → ℕ → GoalCreate F → Request F
  update : ℕ → GoalPatch F → Request F
  contribute : ℕ → ContributionCreate F → Request F
  delete : ℕ → Request F

module _ {F : Type 0} ⦃floats : Floats F⦄ where
  -- The tables after a request of a user.
  unfoldable pub serve : ℕ → Request F → Tables → Tables
  unfolding create_goal update_goal add_contribution delete_goal
  serve user (create id now body) t = (create_goal user id now body t).1
  serve user (update goal_id body) t = (update_goal user goal_id body t).1
  serve user (contribute goal_id body) t = (add_contribution user goal_id body t).1
  serve user (delete goal_id) t = (delete_goal user goal_id t).1

  -- The tables after the requests of several users, in their order.
  unfoldable pub serve_all : List (ℕ × Request F) → Tables → Tables
  unfolding serve
  serve_all [] t = t
  serve_all ((user, r) ∷ requests) t = serve_all requests (serve user r t)
