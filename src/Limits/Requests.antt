-- ===== src/Limits/Requests.antt =====
-- `RateLimiter` of app/rate_limiter.py, the in-memory limiter of web requests. Instants are in
-- microseconds.
pub mod Windows
use Prim.Native.String.{◌++◌ as str_append}
use gexpense_tracker_public.Prelude.{
  ℕ, ◌+◌, String, Bool, true, false, Option, none, some, List, [], ◌∷◌, string_eq, ltb, leb,
  if◌then◌else◌,
}
use gexpense_tracker_public.Prelude.Dict.{Dict, get, put, keys, remove_all}
use gexpense_tracker_public.Workers.Task.{seconds}

-- `_buckets`: for each key the requests of its window, and when that began
abbrev pub Buckets : Type 0
Buckets = Dict String (ℕ × ℕ)

unfoldable pub get_key : String → String → String
get_key identifier endpoint = str_append (str_append identifier ":") endpoint

-- What a call does with the bucket of its key, at an instant: the new bucket, if it is written,
-- and the verdict.
unfoldable pub decide : Option (ℕ × ℕ) → ℕ → ℕ → ℕ → Option (ℕ × ℕ) × Bool
decide none max_requests window_seconds now = (some (1, now), true)
decide (some (count, window_start)) max_requests window_seconds now =
    if ltb (window_start + seconds window_seconds) now
    then (some (1, now), true)
    else (if leb max_requests count then (none, false) else (some (count + 1, window_start), true))

unfoldable pub write_bucket : String → Option (ℕ × ℕ) → Buckets → Buckets
unfolding put
write_bucket key none d = d
write_bucket key (some b) d = put key b d

-- `is_allowed`
unfoldable pub is_allowed : String → String → ℕ → ℕ → ℕ → Buckets → Buckets × Bool
unfolding get_key decide write_bucket get
is_allowed identifier endpoint max_requests window_seconds now d =
    let key = get_key identifier endpoint in
    let (b, allowed) = decide (get key d) max_requests window_seconds now in
    (write_bucket key b d, allowed)

unfoldable pub stale_keys : ℕ → ℕ → Buckets → List String
stale_keys max_age_seconds now [] = []
stale_keys max_age_seconds now ((key, (count, window_start)) ∷ d) =
    let rest = stale_keys max_age_seconds now d in
    if ltb (window_start + seconds max_age_seconds) now then key ∷ rest else rest

-- `cleanup`
unfoldable pub cleanup : ℕ → ℕ → Buckets → Buckets
unfolding stale_keys remove_all
cleanup max_age_seconds now d = remove_all (stale_keys max_age_seconds now d) d

-- The verdicts on the calls of one client at one endpoint, made at the listed instants.
unfoldable pub serve : String → String → ℕ → ℕ → List ℕ → Buckets → Buckets × List Bool
serve identifier endpoint max_requests window_seconds [] d = (d, [])
serve identifier endpoint max_requests window_seconds (now ∷ times) d =
    let (d', allowed) = is_allowed identifier endpoint max_requests window_seconds now d in
    let (d'', verdicts) = serve identifier endpoint max_requests window_seconds times d' in
    (d'', allowed ∷ verdicts)
