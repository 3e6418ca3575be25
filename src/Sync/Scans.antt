-- ===== src/Sync/Scans.antt =====
-- The scans for duplicates of app/sync/__init__.py: who needs one, and the loop that
-- `_DedupRateLimiter` limits. What a scan of a user finds is the parameter `scan`, by the place in the
-- loop and the user, with none where it raises; `monotonic` and `now` are the clocks at a place.
pub mod Counted
pub mod Limited
use gexpense_tracker_public.Prelude.{
  ℕ, suc, ◌+◌, Bool, true, false, ◌&&◌, ◌||◌, not, Option, none, some, List, [], ◌∷◌, ◌==◌, ltb,
  length, if◌then◌else◌, nat_eq, both,
}
use gexpense_tracker_public.Prelude.Dict.{Dict, get_or}
use gexpense_tracker_public.Limits.Scans.{DedupRateLimiter, allow}

pub record SyncState : Type 0 where
  pub user_id : Option ℕ
  pub last_dedup_scan_at : Option ℕ

-- `summary`, without its duration
pub record Summary : Type 0 where
  pub eligible : ℕ
  pub scanned : ℕ
  pub rate_limited : ℕ
  pub new_pairs : ℕ
  pub total_checked : ℕ
  pub errors : ℕ

abbrev pub no_summary : Summary
no_summary = record {
  eligible = 0;
  scanned = 0;
  rate_limited = 0;
  new_pairs = 0;
  total_checked = 0;
  errors = 0;
}

-- What a scan leaves: the limiter, the states and the summary.
pub record Scanned : Type 0 where
  pub limiter : DedupRateLimiter
  pub states : List SyncState
  pub summary : Summary

-- `latest_tx is not None and latest_tx > state.last_dedup_scan_at`
unfoldable pub has_new : Option ℕ → ℕ → Bool
has_new none last = false
has_new (some latest) last = ltb last latest

-- A user who was never scanned, or has a transaction since.
unfoldable pub needs_scan : Option ℕ → Option ℕ → Bool
unfolding has_new
needs_scan latest none = true
needs_scan latest (some last) = has_new latest last

-- `_eligible_scan_users`, from the latest transaction of each user
unfoldable pub eligible_scan_users : (ℕ → Option ℕ) → List SyncState → List (ℕ × Bool)
unfolding needs_scan
eligible_scan_users latest_tx [] = []
eligible_scan_users latest_tx (state ∷ states) =
    let rest = eligible_scan_users latest_tx states in
    elim state.user_id [
      | none ↦ rest
      | some user ↦
          if needs_scan (latest_tx user) state.last_dedup_scan_at then (user, true) ∷ rest else rest
    ]

-- `state.last_dedup_scan_at = datetime.now(UTC)`, of the user's row
unfoldable pub update_last_dedup_scan_at : ℕ → ℕ → List SyncState → List SyncState
update_last_dedup_scan_at user now [] = []
update_last_dedup_scan_at user now (state ∷ states) =
    let rest = update_last_dedup_scan_at user now states in
    elim state.user_id [
      | none ↦ state ∷ rest
      | some u ↦
          if u == user
          then record { user_id = some u; last_dedup_scan_at = some now } ∷ rest
          else state ∷ rest
    ]

-- The keys `(-priority_map.get(user, 0), 0 if has_new else 1)` are in order.
unfoldable pub goes_first : Dict ℕ ℕ → ℕ × Bool → ℕ × Bool → Bool
unfolding get_or
goes_first priority_map (user, new) (other, other_new) =
    let mine = get_or user priority_map 0 in
    let theirs = get_or other priority_map 0 in
    ltb theirs mine || (mine == theirs && (new || not other_new))

-- `eligible.sort(...)`, stable
unfoldable pub insert_user : Dict ℕ ℕ → ℕ × Bool → List (ℕ × Bool) → List (ℕ × Bool)
unfolding goes_first
insert_user priority_map u [] = u ∷ []
insert_user priority_map u (v ∷ vs) =
    let rest = insert_user priority_map u vs in
    if goes_first priority_map u v then u ∷ v ∷ vs else v ∷ rest

unfoldable pub sort_users : Dict ℕ ℕ → List (ℕ × Bool) → List (ℕ × Bool)
unfolding insert_user
sort_users priority_map [] = []
sort_users priority_map (u ∷ us) = insert_user priority_map u (sort_users priority_map us)

-- `_scan_single_user`, after the scan with its new pairs and its count of checked transactions
unfoldable pub scan_single_user : ℕ → ℕ → ℕ × ℕ → Scanned → Scanned
unfolding update_last_dedup_scan_at
scan_single_user user now (new_pairs, checked) s = record {
  limiter = s.limiter;
  states = update_last_dedup_scan_at user now s.states;
  summary = record s.summary {
    scanned = suc s.summary.scanned;
    new_pairs = s.summary.new_pairs + new_pairs;
    total_checked = s.summary.total_checked + checked;
  };
}

-- `summary["scanned"] += 1`, `summary["rate_limited"] += 1` and `summary["errors"] += 1`
unfoldable pub count_scanned : Scanned → Scanned
count_scanned s = record s { summary = record s.summary { scanned = suc s.summary.scanned } }

unfoldable pub count_limited : Scanned → Scanned
count_limited s = record s {
  summary = record s.summary { rate_limited = suc s.summary.rate_limited };
}

unfoldable pub count_error : Scanned → Scanned
count_error s = record s { summary = record s.summary { errors = suc s.summary.errors } }

module _ (scan : ℕ → ℕ → Option (ℕ × ℕ)) (monotonic now : ℕ → ℕ) (dry_run : Bool) where
  -- One round of the loop that the limiter allows.
  unfoldable pub scan_allowed : ℕ → ℕ → Scanned → Scanned
  unfolding scan_single_user count_scanned count_error
  scan_allowed k user s = if dry_run then count_scanned s else elim (scan k user) [
    | none ↦ count_error s
    | some found ↦ scan_single_user user (now k) found s
  ]

  -- `dedup_rate_limiter.allow()`, and the round
  unfoldable pub scan_round : ℕ → ℕ → Scanned → Scanned
  unfolding allow scan_allowed count_limited
  scan_round k user s =
      let asked = allow (monotonic k) s.limiter in
      let s' = record s { limiter = asked.0 } in
      if asked.1 then scan_allowed k user s' else count_limited s'

  unfoldable pub scan_users : ℕ → List (ℕ × Bool) → Scanned → Scanned
  unfolding scan_round
  scan_users k [] s = s
  scan_users k ((user, new) ∷ users) s = scan_users (suc k) users (scan_round k user s)

  -- `_run_scan_loop`
  unfoldable pub run_scan_loop : List (ℕ × Bool) → Dict ℕ ℕ → Scanned → Scanned
  unfolding sort_users scan_users
  run_scan_loop eligible priority_map s = scan_users 0 (sort_users priority_map eligible) s

  -- `adaptive_dedup_scan` of all users
  unfoldable pub scan_all : (ℕ → Option ℕ) → Dict ℕ ℕ → DedupRateLimiter → List SyncState → Scanned
  unfolding eligible_scan_users run_scan_loop
  scan_all latest_tx priority_map limiter states =
      let eligible = eligible_scan_users latest_tx states in
      run_scan_loop eligible priority_map (record {
        limiter = limiter;
        states = states;
        summary = record no_summary { eligible = length eligible };
      })

  -- `adaptive_dedup_scan` of one user, with none where the scan raises
  unfoldable pub scan_one : ℕ → DedupRateLimiter → List SyncState → Option Scanned
  unfolding allow scan_single_user count_limited
  scan_one user limiter states =
      let asked = allow (monotonic 0) limiter in
      let s : Scanned = record { limiter = asked.0; states = states; summary = no_summary } in
      if not asked.1
      then some (count_limited s)
      else if dry_run
      then some (record s { summary = record no_summary { eligible = 1 } })
      else elim (scan 0 user) [
        | none ↦ none
        | some found ↦ some (scan_single_user user (now 0) found s)
      ]
