-- ===== src/Sync/Scans/Counted.antt =====
-- What the summary of a scan of all users says.
use gexpense_tracker_public.Prelude.{
  ℕ, suc, ◌≡◌, refl, ap, ◌∙◌, ◌+◌, arith, Bool, Option, List, [], ◌∷◌, length, if-elim, Option-elim,
}
use gexpense_tracker_public.Prelude.Dict.{Dict}
use gexpense_tracker_public.Limits.Scans.{DedupRateLimiter, allow}
use gexpense_tracker_public.Sync.Scans.{
  SyncState, Summary, no_summary, Scanned, eligible_scan_users, insert_user, sort_users,
  scan_single_user, count_scanned, count_limited, count_error, scan_allowed, scan_round, scan_users,
  run_scan_loop, scan_all,
}

length-insert_user :
    (priority_map : Dict ℕ ℕ) (u : ℕ × Bool) (us : List (ℕ × Bool))
    → length (insert_user priority_map u us) ≡ suc (length us)
unfolding insert_user
length-insert_user priority_map u [] = refl
length-insert_user priority_map u (v ∷ vs) = ground (arith, length-insert_user priority_map u vs)

pub length-sort_users :
    (priority_map : Dict ℕ ℕ) (us : List (ℕ × Bool))
    → length (sort_users priority_map us) ≡ length us
unfolding sort_users
length-sort_users priority_map [] = refl
length-sort_users priority_map (u ∷ us) =
    length-insert_user priority_map u (sort_users priority_map us)
    ∙ ap suc (length-sort_users priority_map us)

-- How many users the summary has something for.
abbrev pub counted : Summary → ℕ
counted m = m.scanned + m.rate_limited + m.errors

-- One more is counted, and the number of the eligible is kept.
abbrev HasOneMore : Scanned → Scanned → Type 0
HasOneMore s t =
    (counted t.summary ≡ suc (counted s.summary)) × (t.summary.eligible ≡ s.summary.eligible)

module _ (scan : ℕ → ℕ → Option (ℕ × ℕ)) (monotonic now : ℕ → ℕ) (dry_run : Bool) where
  scan_allowed-HasOneMore :
      (k user : ℕ) (s : Scanned) → HasOneMore s (scan_allowed scan monotonic now dry_run k user s)
  unfolding scan_allowed scan_single_user count_scanned count_error
  scan_allowed-HasOneMore k user s =
      if-elim (HasOneMore s) dry_run _ _ (λ e. (omega arith, refl))
        (λ e.
          Option-elim (HasOneMore s) (scan k user) _ _ (λ f. (omega arith, refl))
            (λ found f. (omega arith, refl)))

  scan_round-HasOneMore :
      (k user : ℕ) (s : Scanned) → HasOneMore s (scan_round scan monotonic now dry_run k user s)
  unfolding scan_round count_limited
  scan_round-HasOneMore k user s =
      let asked = allow (monotonic k) s.limiter in
      let s' = record s { limiter = asked.0 } in
      if-elim (HasOneMore s) asked.1 (scan_allowed scan monotonic now dry_run k user s')
        (count_limited s') (λ e. scan_allowed-HasOneMore k user s') (λ e. (omega arith, refl))

  scan_users-counted :
      (k : ℕ) (users : List (ℕ × Bool)) (s : Scanned)
      → (let t = scan_users scan monotonic now dry_run k users s in
          (counted t.summary ≡ counted s.summary + length users)
          × (t.summary.eligible ≡ s.summary.eligible))
  unfolding scan_users
  scan_users-counted k [] s = (omega arith, refl)
  scan_users-counted k ((user, new) ∷ users) s =
      let here = scan_round-HasOneMore k user s in
      let rest =
        scan_users-counted (suc k) users (scan_round scan monotonic now dry_run k user s) in
      (omega (arith, rest.0, here.0), rest.1 ∙ here.1)

-- Every eligible user is counted once in the summary of a scan: as scanned, as limited or as an error.
pub scan_all-counted :
    (scan : ℕ → ℕ → Option (ℕ × ℕ)) (monotonic now : ℕ → ℕ) (dry_run : Bool)
    (latest_tx : ℕ → Option ℕ) (priority_map : Dict ℕ ℕ) (limiter : DedupRateLimiter)
    (states : List SyncState)
    → (let t = scan_all scan monotonic now dry_run latest_tx priority_map limiter states in
        (t.summary.scanned + t.summary.rate_limited + t.summary.errors ≡ t.summary.eligible)
        × (t.summary.eligible ≡ length (eligible_scan_users latest_tx states)))
unfolding scan_all run_scan_loop
scan_all-counted scan monotonic now dry_run latest_tx priority_map limiter states =
    let eligible = eligible_scan_users latest_tx states in
    let start : Scanned = record {
      limiter = limiter;
      states = states;
      summary = record no_summary { eligible = length eligible };
    } in
    let all =
      scan_users-counted scan monotonic now dry_run 0 (sort_users priority_map eligible) start in
    (omega (arith, all.0, all.1, length-sort_users priority_map eligible), all.1)
