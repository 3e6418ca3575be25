-- ===== src/Limits/Scans/Window.antt =====
-- No window of the dedup limiter ever holds more than `max_scans` allowed scans.
use mathlib.Core.List.{append-nil, append_assoc}
use gexpense_tracker_public.Prelude.{
  ℕ, ◌≤◌, ◌≡◌, ◌∙◌, ap, refl, Bool, true, false, List, [], ◌∷◌, ◌++◌, arith, leb, length, filter,
  length-append, length-filter-le, Bool-cases, inl, inr,
}
use gexpense_tracker_public.Limits.Scans.{DedupRateLimiter, is_recent, allow, serve, new_limiter}

-- The instants do not run back, as `time.monotonic` promises.
abbrev pub Ascends : ℕ → List ℕ → Type 0
Ascends now [] = Unit
Ascends now (t ∷ ts) = (now ≤ t) × Ascends t ts

window-allow : (now : ℕ) (l : DedupRateLimiter) → (allow now l).0.window_seconds ≡ l.window_seconds
unfolding allow
window-allow now l = ground arith

max-allow : (now : ℕ) (l : DedupRateLimiter) → (allow now l).0.max_scans ≡ l.max_scans
unfolding allow
max-allow now l = ground arith

-- What was recent earlier and is recent later is what is recent later.
filter-filter :
    (w early late : ℕ) (xs : List ℕ)
    → early ≤ late
    → filter (is_recent w late) (filter (is_recent w early) xs) ≡ filter (is_recent w late) xs
unfolding is_recent
filter-filter w early late [] h = refl
filter-filter w early late (x ∷ xs) h = ground (arith, filter-filter w early late xs h)

filter-append : (p : ℕ → Bool) (xs ys : List ℕ) → filter p (xs ++ ys) ≡ filter p xs ++ filter p ys
filter-append p [] ys = refl
filter-append p (x ∷ xs) ys = ground (arith, filter-append p xs ys)

-- At every instant from `now` on the limiter's recent stamps are the recent ones of `history`, the
-- instants that it has allowed so far, oldest first.
record Tracks (now : ℕ) (history : List ℕ) (l : DedupRateLimiter) : Type 0 where
  recent :
      (t : ℕ)
      → now ≤ t
      → filter (is_recent l.window_seconds t) l.timestamps
        ≡ filter (is_recent l.window_seconds t) history
  size : length l.timestamps ≤ l.max_scans

-- What an allowed call adds to the history.
abbrev extend : Bool → ℕ → List ℕ → List ℕ
extend true now history = history ++ now ∷ []
extend false now history = history

module _ (before now : ℕ) (history : List ℕ) (l : DedupRateLimiter) (h : before ≤ now)
    (k : Tracks before history l) where
  abbrev kept : List ℕ
  kept = filter (is_recent l.window_seconds now) l.timestamps

  recent-kept :
      (t : ℕ)
      → now ≤ t
      → filter (is_recent l.window_seconds t) kept ≡ filter (is_recent l.window_seconds t) history
  recent-kept t later =
      filter-filter l.window_seconds now t l.timestamps later ∙ k.recent t (omega arith)

  recent-granted :
      (t : ℕ)
      → now ≤ t
      → filter (is_recent l.window_seconds t) (kept ++ now ∷ [])
        ≡ filter (is_recent l.window_seconds t) (history ++ now ∷ [])
  recent-granted t later =
      simp filter-append
        (ap (λ xs. xs ++ filter (is_recent l.window_seconds t) (now ∷ [])) (recent-kept t later))

  allow-Tracks : Tracks now (extend (allow now l).1 now history) (allow now l).0
  unfolding allow
  allow-Tracks = elim (Bool-cases (leb l.max_scans (length kept))) [
    | inl full ↦ rw full (record {
      recent = recent-kept;
      size = omega (arith, length-filter-le (is_recent l.window_seconds now) l.timestamps, k.size);
    })
    | inr room ↦
        rw room
          (record { recent = recent-granted; size = ground (arith, length-append kept (now ∷ [])) })
  ]

abbrev pub last_instant : ℕ → List ℕ → ℕ
last_instant now [] = now
last_instant now (t ∷ ts) = last_instant t ts

-- What the calls allow, behind the history, is bounded in the window that ends at `t`.
serve_bounded :
    (ts : List ℕ) (now : ℕ) (history : List ℕ) (l : DedupRateLimiter) (t : ℕ)
    → Ascends now ts
    → Tracks now history l
    → last_instant now ts ≤ t
    → length (filter (is_recent l.window_seconds t) (history ++ (serve ts l).1)) ≤ l.max_scans
unfolding serve
serve_bounded [] now history l t up k late = rw append-nil (
    rw (← k.recent t late)
      (omega (arith, length-filter-le (is_recent l.window_seconds t) l.timestamps, k.size)))
serve_bounded (now' ∷ ts) now history l t up k late = ground (
  arith,
  window-allow now' l,
  max-allow now' l,
  append_assoc history (now' ∷ []) (serve ts (allow now' l).0).1,
  serve_bounded ts now' (extend (allow now' l).1 now' history) (allow now' l).0 t up.1
      (allow-Tracks now now' history l up.0 k) late,
)

-- Of the scans that a new limiter allows, called at instants that do not run back, the window of
-- `window_seconds` that ends at any later instant holds at most `max_scans`.
pub scans_in_window :
    (max_scans window_seconds : ℕ) (ts : List ℕ) (t : ℕ)
    → Ascends 0 ts
    → last_instant 0 ts ≤ t
    → length
        (filter (is_recent window_seconds t) (serve ts (new_limiter max_scans window_seconds)).1)
      ≤ max_scans
scans_in_window max_scans window_seconds ts t up late =
    serve_bounded ts 0 [] (new_limiter max_scans window_seconds) t up
      (record { recent = λ u v. refl; size = omega arith }) late
