-- ===== src/Sync/Scans/Limited.antt =====
-- How many users the limiter lets a scan try.
use gexpense_tracker_public.Prelude.{
  ℕ, zero, suc, ◌≡◌, refl, ap, ◌+◌, ◌≤◌, arith, Bool, true, Option, List, [], ◌∷◌, length, filter,
  if◌then◌else◌, if-elim, Option-elim, Bool-cases, inl, inr,
}
use gexpense_tracker_public.Prelude.Dict.{Dict}
use gexpense_tracker_public.Limits.Scans.{DedupRateLimiter, allow, serve, is_recent, new_limiter}
use gexpense_tracker_public.Limits.Scans.Window.{Ascends, last_instant, scans_in_window}
use gexpense_tracker_public.Sync.Scans.{
  SyncState, Summary, no_summary, Scanned, eligible_scan_users, sort_users, scan_single_user,
  count_scanned, count_limited, count_error, scan_allowed, scan_round, scan_users, run_scan_loop,
  scan_all,
}
use gexpense_tracker_public.Sync.Scans.Counted.{length-sort_users}

-- The readings of the clock at so many places.
abbrev pub readings : (ℕ → ℕ) → ℕ → ℕ → List ℕ
readings monotonic k zero = []
readings monotonic k (suc n) = monotonic k ∷ readings monotonic (suc k) n

-- How many users were tried.
abbrev pub tried : Summary → ℕ
tried m = m.scanned + m.errors

-- All the instants are in a window.
abbrev pub AreRecent : ℕ → ℕ → List ℕ → Type 0
AreRecent window t [] = Unit
AreRecent window t (u ∷ us) = (is_recent window t u ≡ true) × AreRecent window t us

serve-AreRecent :
    (window t : ℕ) (us : List ℕ) (l : DedupRateLimiter)
    → AreRecent window t us
    → AreRecent window t (serve us l).1
unfolding serve
serve-AreRecent window t [] l h = tt
serve-AreRecent window t (u ∷ us) l h =
    if-elim (AreRecent window t) (allow u l).1 _ _
      (λ e. (h.0, serve-AreRecent window t us (allow u l).0 h.1))
      (λ e. serve-AreRecent window t us (allow u l).0 h.1)

length-recent :
    (window t : ℕ) (us : List ℕ)
    → AreRecent window t us
    → length (filter (is_recent window t) us) ≡ length us
length-recent window t [] h = refl
length-recent window t (u ∷ us) h = rw h.0 (ap suc (length-recent window t us h.1))

length-serve :
    (u : ℕ) (us : List ℕ) (l : DedupRateLimiter)
    → length (serve (u ∷ us) l).1
      ≡ (if (allow u l).1 then 1 else 0) + length (serve us (allow u l).0).1
unfolding serve
length-serve u us l = elim (Bool-cases (allow u l).1) [
  | inl e ↦ rw e (omega arith)
  | inr e ↦ rw e (omega arith)
]

module _ (scan : ℕ → ℕ → Option (ℕ × ℕ)) (monotonic now : ℕ → ℕ) (dry_run : Bool) where
  scan_allowed-tried :
      (k user : ℕ) (s : Scanned)
      → (let t = scan_allowed scan monotonic now dry_run k user s in
          (tried t.summary ≡ suc (tried s.summary)) × (t.limiter ≡ s.limiter))
  unfolding scan_allowed scan_single_user count_scanned count_error
  scan_allowed-tried k user s =
      let P : Scanned → Type 0 =
        λ t. (tried t.summary ≡ suc (tried s.summary)) × (t.limiter ≡ s.limiter) in
      if-elim P dry_run _ _ (λ e. (omega arith, refl))
        (λ e.
          Option-elim P (scan k user) _ _ (λ f. (omega arith, refl))
            (λ found f. (omega arith, refl)))

  scan_round-tried :
      (k user : ℕ) (s : Scanned)
      → (let t = scan_round scan monotonic now dry_run k user s in
          (tried t.summary ≡ tried s.summary + (if (allow (monotonic k) s.limiter).1 then 1 else 0))
          × (t.limiter ≡ (allow (monotonic k) s.limiter).0))
  unfolding scan_round count_limited
  scan_round-tried k user s =
      let asked = allow (monotonic k) s.limiter in
      let s' = record s { limiter = asked.0 } in
      elim (Bool-cases asked.1) [
        | inl e ↦
            let more = scan_allowed-tried k user s' in
            rw (e, scan_round) (omega (arith, more.0), more.1)
        | inr e ↦ rw (e, scan_round) (omega arith, refl)
      ]

  scan_users-tried :
      (k : ℕ) (users : List (ℕ × Bool)) (s : Scanned)
      → tried (scan_users scan monotonic now dry_run k users s).summary
        ≡ tried s.summary + length (serve (readings monotonic k (length users)) s.limiter).1
  unfolding scan_users serve
  scan_users-tried k [] s = omega arith
  scan_users-tried k ((user, new) ∷ users) s =
      let t = scan_round scan monotonic now dry_run k user s in
      let here = scan_round-tried k user s in
      let times = readings monotonic (suc k) (length users) in
      let rest = scan_users-tried (suc k) users t in
      omega (
        arith,
        rest,
        here.0,
        ap (λ l. length (serve times l).1) here.1,
        length-serve (monotonic k) times s.limiter,
      )

-- While a new limiter's window lasts, a scan of all users tries at most `max_scans` of them: the
-- clock does not run back, and its reading for every eligible user is in the window of a later instant.
pub scan_all-limited :
    (scan : ℕ → ℕ → Option (ℕ × ℕ)) (monotonic now : ℕ → ℕ) (dry_run : Bool)
    (latest_tx : ℕ → Option ℕ) (priority_map : Dict ℕ ℕ) (max_scans window_seconds : ℕ)
    (states : List SyncState) (t : ℕ)
    → Ascends 0 (readings monotonic 0 (length (eligible_scan_users latest_tx states)))
    → last_instant 0 (readings monotonic 0 (length (eligible_scan_users latest_tx states))) ≤ t
    → AreRecent window_seconds t
        (readings monotonic 0 (length (eligible_scan_users latest_tx states)))
    → tried
        (scan_all scan monotonic now dry_run latest_tx priority_map
          (new_limiter max_scans window_seconds)
          states).summary
      ≤ max_scans
unfolding scan_all run_scan_loop
scan_all-limited scan monotonic now dry_run latest_tx priority_map max_scans window_seconds states t
      up late recent =
    let eligible = eligible_scan_users latest_tx states in
    let users = sort_users priority_map eligible in
    let limiter = new_limiter max_scans window_seconds in
    let times = readings monotonic 0 (length eligible) in
    let begin : Scanned = record {
      limiter = limiter;
      states = states;
      summary = record no_summary { eligible = length eligible };
    } in
    let same : length (serve (readings monotonic 0 (length users)) limiter).1
        ≡ length (serve times limiter).1 =
      ap (λ n. length (serve (readings monotonic 0 n) limiter).1)
        (length-sort_users priority_map eligible) in
    omega (
      arith,
      scan_users-tried scan monotonic now dry_run 0 users begin,
      same,
      scans_in_window max_scans window_seconds times t up late,
      length-recent window_seconds t (serve times limiter).1
          (serve-AreRecent window_seconds t times limiter recent),
    )
