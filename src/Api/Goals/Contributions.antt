-- ===== src/Api/Goals/Contributions.antt =====
-- The amounts saved for a goal: what a contribution adds, what the response says of it.
use gexpense_tracker_public.Prelude.{
  ℕ, ◌≡◌, refl, ◌∙◌, ◌+◌, ◌*◌, ◌≤◌, min, arith, true, not, Option, none, some, List, [], ◌∷◌, ◌==◌,
  if◌then◌else◌, Option-elim, filter,
}
use gexpense_tracker_public.Prelude.Int.{pos_part}
use gexpense_tracker_public.Prelude.Text.{Text}
use gexpense_tracker_public.Api.Amounts.{Floats}
use gexpense_tracker_public.Api.{
  Answer, refused, find_own, is_own, has_own, find_own-is_own, find_own-delete_own,
}
use gexpense_tracker_public.Api.Goals.{
  ContributionCreate, Goal, GoalContribution, goal_row, Tables, GoalView, amount_positive,
  compute_current_amount, build_response, get_goal, with_contribution, add_contribution,
  without_goal, delete_goal,
}

-- For every goal and every saved amount, the response's remaining amount and the saved amount, cut
-- at the target, make up the target, and the percentage is at most 100.
build_response_lem :
    (g : Goal) (current : ℕ)
    → (let r = build_response g current in
        (min current g.target_amount + r.remaining ≡ g.target_amount)
        × (r.pct.num ≤ 100 * r.pct.den))
unfolding build_response
build_response_lem g current = (ground arith, ground arith)

module _ {F : Type 0} ⦃floats : Floats F⦄ where
  -- What a contribution of the amount adds: nothing if it is not positive, and otherwise what the column
  -- keeps of it.
  abbrev pub added : F → ℕ
  added v = if floats.le v floats.nought then 0 else pos_part (floats.column v)

  amount_positive_lem : (v : F) (n : ℕ) → amount_positive v ≡ some n → n ≡ added v
  unfolding amount_positive
  amount_positive_lem v n h = ground arith

  amount_positive_refused : (v : F) → amount_positive v ≡ none → added v ≡ 0
  unfolding amount_positive
  amount_positive_refused v h = ground arith

pub own_id : (goal_id user : ℕ) (g : Goal) → is_own goal_id user g ≡ true → g.id ≡ goal_id
unfolding is_own
own_id goal_id user g h = ground arith

own_user : (goal_id user : ℕ) (g : Goal) → is_own goal_id user g ≡ true → g.user_id ≡ user
unfolding is_own
own_user goal_id user g h = ground arith

with_contribution-adds :
    (user id n : ℕ) (remark : Option Text) (g : Goal) (t : Tables)
    → compute_current_amount (with_contribution user n remark g t).contributions id
      ≡ (if g.id == id then n else 0) + compute_current_amount t.contributions id
unfolding with_contribution compute_current_amount
with_contribution-adds user id n remark g t = ground arith

module _ {F : Type 0} ⦃floats : Floats F⦄ where
  abbrev HasAdded : ℕ → ℕ → ℕ → ContributionCreate F → Tables → Answer GoalView × Tables → Type 0
  HasAdded user goal_id id body t r =
      compute_current_amount r.1.contributions id
      ≡ (if goal_id == id
          then (if has_own goal_id user t.goals then added body.amount else 0)
          else 0)
        + compute_current_amount t.contributions id

  -- Whatever amount that is a number a user asks to contribute to a goal, the saved amount of a goal
  -- grows by what the column keeps of the amount, rounded to hundredths, if it is that goal, the goal
  -- is the user's and the amount is positive before it is rounded, and stays as it is otherwise.
  pub add_contribution_lem :
      (user goal_id id : ℕ) (body : ContributionCreate F) (t : Tables)
      → compute_current_amount (add_contribution user goal_id body t).1.contributions id
        ≡ (if goal_id == id
            then (if has_own goal_id user t.goals then added body.amount else 0)
            else 0)
          + compute_current_amount t.contributions id
  unfolding add_contribution
  add_contribution_lem user goal_id id body t =
      Option-elim (HasAdded user goal_id id body t) (amount_positive body.amount) _ _
        (λ e. ground (arith, amount_positive_refused body.amount e))
        (λ n e.
          Option-elim (HasAdded user goal_id id body t) (find_own goal_id user t.goals) _ _
            (λ f. rw f (ground arith))
            (λ g f. rw f (
              with_contribution-adds user id n body.note g t
              ∙ ground (
                arith,
                own_id goal_id user g (find_own-is_own goal_id user t.goals g f),
                amount_positive_lem body.amount n e,
              ))))

without_goal-amount :
    (goal_id id : ℕ) (contributions : List GoalContribution)
    → compute_current_amount (filter (λ c. not (c.goal_id == goal_id)) contributions) id
      ≡ (if goal_id == id then 0 else compute_current_amount contributions id)
unfolding compute_current_amount
without_goal-amount goal_id id [] = ground arith
without_goal-amount goal_id id (c ∷ contributions) =
    ground (arith, without_goal-amount goal_id id contributions)

get_goal-none :
    (user goal_id : ℕ) (t : Tables)
    → find_own goal_id user t.goals ≡ none
    → get_goal user goal_id t ≡ refused 404
unfolding get_goal
get_goal-none user goal_id t e =
    Option-elim (λ r. r ≡ refused 404) (find_own goal_id user t.goals) _ _ (λ f. refl)
      (λ g f. ground arith)

-- After a user's request to delete a goal, the user has no such goal. If the user had it, nothing is
-- saved for that identifier any more; what is saved for the others is as before.
pub delete_goal_lem :
    (user goal_id id : ℕ) (t : Tables)
    → (get_goal user goal_id (delete_goal user goal_id t).1 ≡ refused 404)
      × (compute_current_amount (delete_goal user goal_id t).1.contributions id ≡ (
          if goal_id == id
          then (if has_own goal_id user t.goals
              then 0
              else compute_current_amount t.contributions id)
          else compute_current_amount t.contributions id))
unfolding delete_goal without_goal
delete_goal_lem user goal_id id t =
    Option-elim {B = Answer ℕ × Tables}
      (λ r.
        (get_goal user goal_id r.1 ≡ refused 404)
        × (compute_current_amount r.1.contributions id ≡ (
            if goal_id == id
            then (if has_own goal_id user t.goals
                then 0
                else compute_current_amount t.contributions id)
            else compute_current_amount t.contributions id)))
      (find_own goal_id user t.goals) _ _
      (λ e. (get_goal-none user goal_id t e, rw e (ground arith)))
      (λ g e. (
        get_goal-none user goal_id _ (find_own-delete_own goal_id user t.goals),
        rw e (without_goal-amount goal_id id t.contributions),
      ))
