-- ===== src/Llm/Spend.antt =====
-- `LLMSpendTracker` of app/classifier/llm/client.py. A day is a number, and an amount whole units of
-- the cost of a call. What reads the spend first sets the date, so these return the tracker too.
use gexpense_tracker_public.Prelude.{
  ℕ, ◌+◌, Bool, false, Option, none, some, [], ltb, ◌==◌, if◌then◌else◌,
}
use gexpense_tracker_public.Prelude.Text.{Text, text_equality}
use gexpense_tracker_public.Prelude.Dict.{Dict, get_or, put}

pub record Tracker : Type 0 where
  pub date : Option ℕ
  pub spend : ℕ
  pub user_spend : Dict Text ℕ

-- `__init__`
abbrev pub new_tracker : Tracker
new_tracker = record { date = none; spend = 0; user_spend = [] }

-- `self._date == today`
unfoldable pub is_today : ℕ → Option ℕ → Bool
is_today today date = elim date [ none ↦ false | some day ↦ day == today ]

-- `_sync_date`
unfoldable pub sync_date : ℕ → Tracker → Tracker
unfolding is_today
sync_date today t =
    if is_today today t.date then t else record { date = some today; spend = 0; user_spend = [] }

unfoldable pub daily_spend : ℕ → Tracker → ℕ × Tracker
unfolding sync_date
daily_spend today t = ((sync_date today t).spend, sync_date today t)

unfoldable pub user_daily_spend : ℕ → Text → Tracker → ℕ × Tracker
unfolding sync_date get_or
user_daily_spend today user_id t = let s = sync_date today t in (get_or user_id s.user_spend 0, s)

-- `add_call`, under its lock; an empty id of a user is none
unfoldable pub add_call : ℕ → ℕ → Option Text → Tracker → Tracker
unfolding sync_date get_or put
add_call today estimated_cost user_id t =
    let s = sync_date today t in
    record {
      date = s.date;
      spend = s.spend + estimated_cost;
      user_spend = elim user_id [
        | none ↦ s.user_spend
        | some user ↦ put user (get_or user s.user_spend 0 + estimated_cost) s.user_spend
      ];
    }

unfoldable pub within_budget : ℕ → ℕ → Tracker → Bool × Tracker
unfolding sync_date
within_budget today budget t = let s = sync_date today t in (ltb s.spend budget, s)

unfoldable pub user_within_budget : ℕ → Text → ℕ → Tracker → Bool × Tracker
unfolding sync_date get_or
user_within_budget today user_id budget t =
    let s = sync_date today t in (ltb (get_or user_id s.user_spend 0) budget, s)
