-- ===== src/Limits/Scans.antt =====
-- `_DedupRateLimiter` of app/sync/__init__.py: a sliding window over the starts of dedup scans.
pub mod Window
use gexpense_tracker_public.Prelude.{
  ℕ, ◌+◌, Bool, true, false, List, [], ◌∷◌, ◌++◌, ltb, leb, length, filter, if◌then◌else◌,
}
use gexpense_tracker_public.Workers.Task.{seconds}

pub record DedupRateLimiter : Type 0 where
  pub max_scans : ℕ
  pub window_seconds : ℕ
  pub timestamps : List ℕ

-- `t > cutoff` with `cutoff = now - self._window_seconds`
unfoldable pub is_recent : ℕ → ℕ → ℕ → Bool
is_recent window_seconds now t = ltb now (t + seconds window_seconds)

unfoldable pub allow : ℕ → DedupRateLimiter → DedupRateLimiter × Bool
allow now l =
    let recent = filter (is_recent l.window_seconds now) l.timestamps in
    if leb l.max_scans (length recent)
    then (record l { timestamps = recent }, false)
    else (record l { timestamps = recent ++ now ∷ [] }, true)

unfoldable pub reset : DedupRateLimiter → DedupRateLimiter
reset l = record l { timestamps = [] }

-- The calls made at the listed instants, and the instants of those that were allowed.
unfoldable pub serve : List ℕ → DedupRateLimiter → DedupRateLimiter × List ℕ
serve [] l = (l, [])
serve (now ∷ times) l =
    let (l', allowed) = allow now l in
    let (l'', granted) = serve times l' in (l'', if allowed then now ∷ granted else granted)

-- `_DedupRateLimiter(max_scans, window_seconds)`
abbrev pub new_limiter : ℕ → ℕ → DedupRateLimiter
new_limiter max_scans window_seconds = record {
  max_scans = max_scans;
  window_seconds = window_seconds;
  timestamps = [];
}
