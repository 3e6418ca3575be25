-- ===== src/Api/Goals/Kept.antt =====
-- No contribution is left without its goal.
use gexpense_tracker_public.Prelude.{
  ℕ, ◌≡◌, refl, ap, ◌∙◌, arith, true, not, Option, some, List, [], ◌∷◌, ◌==◌, if-elim, Option-elim,
  is_some, filter,
}
use gexpense_tracker_public.Prelude.Text.{Text}
use gexpense_tracker_public.Api.Amounts.{Floats}
use gexpense_tracker_public.Api.{
  Answer, find_own, is_own, delete_own, has_own, has_own-append, has_own-update_own,
  has_own-delete_own, find_own-is_own,
}
use gexpense_tracker_public.Api.Goals.{
  GoalCreate, GoalPatch, ContributionCreate, Goal, GoalContribution, goal_row, Tables,
  name_not_blank, amount_positive, if_given, create_goal, patch, update_valid, update_goal,
  with_contribution, add_contribution, without_goal, delete_goal, Request, create, update,
  contribute, delete, serve, serve_all,
}
use gexpense_tracker_public.Api.Goals.Contributions.{own_id}

-- Every contribution is to a goal that is there and that is of the same user.
unfoldable pub HaveGoals : List Goal → List GoalContribution → Type 0
HaveGoals goals [] = Unit
HaveGoals goals (c ∷ contributions) =
    (has_own c.goal_id c.user_id goals ≡ true) × HaveGoals goals contributions

HaveGoals-keeps :
    (goals after : List Goal) (contributions : List GoalContribution)
    → ((id user : ℕ) → has_own id user goals ≡ true → has_own id user after ≡ true)
    → HaveGoals goals contributions
    → HaveGoals after contributions
unfolding HaveGoals
HaveGoals-keeps goals after [] keeps h = tt
HaveGoals-keeps goals after (c ∷ contributions) keeps h =
    (keeps c.goal_id c.user_id h.0, HaveGoals-keeps goals after contributions keeps h.1)

HaveGoals-without_goal :
    (goal_id user : ℕ) (goals : List Goal) (contributions : List GoalContribution)
    → HaveGoals goals contributions
    → HaveGoals
        (delete_own goal_id user goals)
        (filter (λ c. not (c.goal_id == goal_id)) contributions)
unfolding HaveGoals
HaveGoals-without_goal goal_id user goals [] h = tt
HaveGoals-without_goal goal_id user goals (c ∷ contributions) h =
    if-elim (HaveGoals (delete_own goal_id user goals)) (not (c.goal_id == goal_id)) _ _
      (λ differ. (
        has_own-delete_own goal_id user c.goal_id c.user_id goals (ground arith) ∙ h.0,
        HaveGoals-without_goal goal_id user goals contributions h.1,
      ))
      (λ e. HaveGoals-without_goal goal_id user goals contributions h.1)

patch-is_own :
    {F : Type 0} (name : Option Text) (target : Option ℕ) (body : GoalPatch F) (id user : ℕ)
    (g : Goal)
    → is_own id user (patch name target body g) ≡ is_own id user g
unfolding patch is_own
patch-is_own name target body id user g = refl

-- The tables that a handler leaves have the goals of their contributions.
abbrev pub AreKept : {A : Type 0} → Answer A × Tables → Type 0
AreKept r = HaveGoals r.1.goals r.1.contributions

module _ {F : Type 0} ⦃floats : Floats F⦄ where
  create_goal-AreKept :
      (user id now : ℕ) (body : GoalCreate F) (t : Tables)
      → HaveGoals t.goals t.contributions
      → AreKept (create_goal user id now body t)
  unfolding create_goal
  create_goal-AreKept user id now body t h =
      Option-elim AreKept (name_not_blank body.name) _ _ (λ e. h)
        (λ name e.
          Option-elim AreKept (amount_positive body.target_amount) _ _ (λ e. h)
            (λ target e.
              HaveGoals-keeps t.goals _ t.contributions
                (λ i u own. has_own-append i u t.goals _ own) h))

update_valid-AreKept :
    {F : Type 0} (user goal_id : ℕ) (name : Option Text) (target : Option ℕ) (body : GoalPatch F)
    (t : Tables)
    → HaveGoals t.goals t.contributions
    → AreKept (update_valid user goal_id name target body t)
unfolding update_valid
update_valid-AreKept user goal_id name target body t h =
    Option-elim AreKept (find_own goal_id user t.goals) _ _ (λ e. h)
      (λ g e.
        HaveGoals-keeps t.goals _ t.contributions
          (λ i u own.
            has_own-update_own goal_id user i u (patch name target body) t.goals
              (patch-is_own name target body i u)
            ∙ own)
          h)

module _ {F : Type 0} ⦃floats : Floats F⦄ where
  update_goal-AreKept :
      (user goal_id : ℕ) (body : GoalPatch F) (t : Tables)
      → HaveGoals t.goals t.contributions
      → AreKept (update_goal user goal_id body t)
  unfolding update_goal
  update_goal-AreKept user goal_id body t h =
      Option-elim AreKept (if_given name_not_blank body.name) _ _ (λ e. h)
        (λ name e.
          Option-elim AreKept (if_given amount_positive body.target_amount) _ _ (λ e. h)
            (λ target e. update_valid-AreKept user goal_id name target body t h))

with_contribution-HaveGoals :
    (user goal_id n : ℕ) (remark : Option Text) (g : Goal) (t : Tables)
    → HaveGoals t.goals t.contributions
    → find_own goal_id user t.goals ≡ some g
    → HaveGoals
        (with_contribution user n remark g t).goals
        (with_contribution user n remark g t).contributions
unfolding with_contribution HaveGoals
with_contribution-HaveGoals user goal_id n remark g t h f =
    (rw (own_id goal_id user g (find_own-is_own goal_id user t.goals g f)) (ap is_some f), h)

module _ {F : Type 0} ⦃floats : Floats F⦄ where
  add_contribution-AreKept :
      (user goal_id : ℕ) (body : ContributionCreate F) (t : Tables)
      → HaveGoals t.goals t.contributions
      → AreKept (add_contribution user goal_id body t)
  unfolding add_contribution
  add_contribution-AreKept user goal_id body t h =
      Option-elim AreKept (amount_positive body.amount) _ _ (λ e. h)
        (λ n e.
          Option-elim AreKept (find_own goal_id user t.goals) _ _ (λ e. h)
            (λ g f. with_contribution-HaveGoals user goal_id n body.note g t h f))

delete_goal-AreKept :
    (user goal_id : ℕ) (t : Tables)
    → HaveGoals t.goals t.contributions
    → AreKept (delete_goal user goal_id t)
unfolding delete_goal without_goal
delete_goal-AreKept user goal_id t h =
    Option-elim AreKept (find_own goal_id user t.goals) _ _ (λ e. h)
      (λ g f. HaveGoals-without_goal goal_id user t.goals t.contributions h)

module _ {F : Type 0} ⦃floats : Floats F⦄ where
  serve-HaveGoals :
      (user : ℕ) (r : Request F) (t : Tables)
      → HaveGoals t.goals t.contributions
      → HaveGoals (serve user r t).goals (serve user r t).contributions
  unfolding serve
  serve-HaveGoals user (create id now body) t h = create_goal-AreKept user id now body t h
  serve-HaveGoals user (update id body) t h = update_goal-AreKept user id body t h
  serve-HaveGoals user (contribute id body) t h = add_contribution-AreKept user id body t h
  serve-HaveGoals user (delete id) t h = delete_goal-AreKept user id t h

  -- Where every contribution is to a goal that is there and that is of the same user, the same holds
  -- after any requests of any users.
  pub serve_all-HaveGoals :
      (requests : List (ℕ × Request F)) (t : Tables)
      → HaveGoals t.goals t.contributions
      → HaveGoals (serve_all requests t).goals (serve_all requests t).contributions
  unfolding serve_all
  serve_all-HaveGoals [] t h = h
  serve_all-HaveGoals ((user, r) ∷ requests) t h =
      serve_all-HaveGoals requests (serve user r t) (serve-HaveGoals user r t h)
