-- ===== src/Limits/Groq.antt =====
-- `GroqRateLimiter` of app/classifier/groq_rate_limiter.py. Instants are in microseconds. What runs
-- under the lock is one operation.
pub mod Bounds
pub mod Acquire
use gexpense_tracker_public.Prelude.{
  ℕ, suc, ◌+◌, ◌-◌, String, Bool, true, false, ◌&&◌, ◌||◌, Option, none, some, List, [], ◌∷◌,
  string_eq, ltb, leb, ◌==◌, if◌then◌else◌,
}
use gexpense_tracker_public.Prelude.Dict.{Dict, get, get_or, put, map_values}
use gexpense_tracker_public.Workers.Task.{seconds}

pub record ModelLimits : Type 0 where
  pub requests_per_minute : ℕ
  pub tokens_per_minute : ℕ
  pub requests_per_day : ℕ
  pub tokens_per_day : ℕ

abbrev limits : ℕ → ℕ → ℕ → ℕ → ModelLimits
limits rpm tpm rpd tpd = record {
  requests_per_minute = rpm;
  tokens_per_minute = tpm;
  requests_per_day = rpd;
  tokens_per_day = tpd;
}

-- `GROQ_LIMITS`
abbrev pub groq_limits : Dict String ModelLimits
groq_limits =
    ("allam-2-7b", limits 30 6000 7000 500000)
    ∷ ("groq/compound", limits 30 70000 0 0)
    ∷ ("groq/compound-mini", limits 30 70000 0 0)
    ∷ ("llama-3.1-8b-instant", limits 30 6000 14400 500000)
    ∷ ("llama-3.3-70b-versatile", limits 30 12000 1000 100000)
    ∷ ("meta-llama/llama-4-scout-17b-16e-instruct", limits 30 30000 1000 500000)
    ∷ ("meta-llama/llama-prompt-guard-2-22m", limits 30 15000 14400 500000)
    ∷ ("meta-llama/llama-prompt-guard-2-86m", limits 30 15000 14400 500000)
    ∷ ("openai/gpt-oss-120b", limits 30 8000 1000 200000)
    ∷ ("openai/gpt-oss-20b", limits 30 8000 1000 200000)
    ∷ ("openai/gpt-oss-safeguard-20b", limits 30 8000 1000 200000)
    ∷ ("qwen/qwen3-32b", limits 60 6000 1000 500000)
    ∷ ("llama-3.3-70b-instruct", limits 30 12000 1000 100000)
    ∷ ("llama-3.1-70b-versatile", limits 30 12000 1000 100000)
    ∷ ("llama-3.2-90b-instruct", limits 30 12000 1000 100000)
    ∷ []

pub record Bucket : Type 0 where
  pub limits : ModelLimits
  pub rpm_used : ℕ
  pub tpm_used : ℕ
  pub rpd_used : ℕ
  pub tpd_used : ℕ

pub record GroqRateLimiter : Type 0 where
  pub api_key : String
  pub buckets : Dict String Bucket
  pub minute_start : ℕ
  pub day_start : ℕ

-- `GROQ_LIMITS.get(model, ModelLimits(…))`
unfoldable pub limits_of : String → ModelLimits
limits_of model = get_or model groq_limits (limits 30 6000 0 0)

unfoldable pub new_bucket : String → Bucket
new_bucket model = record {
  limits = limits_of model;
  rpm_used = 0;
  tpm_used = 0;
  rpd_used = 0;
  tpd_used = 0;
}

-- The bucket that `_get_bucket` returns.
unfoldable pub bucket_of : String → GroqRateLimiter → Bucket
bucket_of model l = get_or model l.buckets (new_bucket model)

-- `_get_bucket`: a missing bucket is made. Writing the bucket that is there changes nothing.
unfoldable pub get_bucket : String → GroqRateLimiter → GroqRateLimiter
unfolding put
get_bucket model l = record l { buckets = put model (bucket_of model l) l.buckets }

unfoldable pub reset_minute : Bucket → Bucket
reset_minute b = record b { rpm_used = 0; tpm_used = 0 }

unfoldable pub reset_day : Bucket → Bucket
reset_day b = record b { rpd_used = 0; tpd_used = 0 }

unfoldable pub maybe_reset_minute : ℕ → GroqRateLimiter → GroqRateLimiter
unfolding reset_minute
maybe_reset_minute now l =
    if leb (l.minute_start + seconds 60) now
    then record l { buckets = map_values reset_minute l.buckets; minute_start = now }
    else l

unfoldable pub maybe_reset_day : ℕ → GroqRateLimiter → GroqRateLimiter
unfolding reset_day
maybe_reset_day now l =
    if leb (l.day_start + seconds 86400) now
    then record l { buckets = map_values reset_day l.buckets; day_start = now }
    else l

-- `_maybe_reset_buckets`
unfoldable pub maybe_reset_buckets : ℕ → GroqRateLimiter → GroqRateLimiter
unfolding maybe_reset_minute maybe_reset_day
maybe_reset_buckets now l = maybe_reset_day now (maybe_reset_minute now l)

-- `limit - used > 0`, `limit - used >= estimated_tokens` and the two daily tests
unfoldable pub has_room : ℕ → Bucket → Bool
has_room tokens b =
    let rpd_ok = b.limits.requests_per_day == 0 || ltb b.rpd_used b.limits.requests_per_day in
    let tpd_ok = b.limits.tokens_per_day == 0 || ltb b.tpd_used b.limits.tokens_per_day in
    ltb b.rpm_used b.limits.requests_per_minute
    && leb (b.tpm_used + tokens) b.limits.tokens_per_minute
    && rpd_ok
    && tpd_ok

unfoldable pub charge : ℕ → Bucket → Bucket
charge tokens b = record b {
  rpm_used = b.rpm_used + 1;
  tpm_used = b.tpm_used + tokens;
  rpd_used = if ltb 0 b.limits.requests_per_day then b.rpd_used + 1 else b.rpd_used;
  tpd_used = if ltb 0 b.limits.tokens_per_day then b.tpd_used + tokens else b.tpd_used;
}

-- The body of `acquire` under the lock.
unfoldable pub try_acquire : String → ℕ → GroqRateLimiter → GroqRateLimiter × Bool
unfolding has_room charge put
try_acquire model tokens l =
    let b = bucket_of model l in
    if has_room tokens b
    then (record l { buckets = put model (charge tokens b) l.buckets }, true)
    else (get_bucket model l, false)

-- One round of the loop of `acquire`: the clock reading after the attempt, the one from which the
-- sleep is computed, and what others do to the limiter in the meantime.
pub record Round : Type 0 where
  pub checked : ℕ
  pub measured : ℕ
  pub others : GroqRateLimiter → GroqRateLimiter

-- The loop of `acquire` from its round `k` on; `none` means that the fuel ran out.
unfoldable pub acquire_loop :
    (ℕ → Round) → ℕ → ℕ → String → ℕ → ℕ → ℕ → GroqRateLimiter → Option (GroqRateLimiter × Bool)
unfolding try_acquire
acquire_loop world start timeout model tokens Prim.Native.Nat.zero k l = none
acquire_loop world start timeout model tokens (suc fuel) k l =
    let (l', acquired) = try_acquire model tokens l in
    let rest = acquire_loop world start timeout model tokens fuel (suc k) ((world k).others l') in
    if acquired
    then some (l', true)
    else (if leb (start + timeout) (world k).checked
        then some (get_bucket model l', false)
        else rest)

-- `min(1.0, timeout - (time.time() - start_time))`; `asyncio.sleep` returns at once below zero
unfoldable pub wait_time : ℕ → ℕ → ℕ → ℕ
wait_time start timeout measured =
    if leb (measured + seconds 1) (start + timeout) then seconds 1 else start + timeout - measured

-- `acquire`
unfoldable pub acquire :
    (ℕ → Round) → ℕ → ℕ → String → ℕ → ℕ → GroqRateLimiter → Option (GroqRateLimiter × Bool)
unfolding acquire_loop
acquire world start timeout model tokens fuel l =
    if string_eq.beq l.api_key ""
    then some (l, false)
    else acquire_loop world start timeout model tokens fuel 0 l

-- What the tasks, threads and clients do to a limiter, one locked part at a time: an attempt of
-- `acquire`, a round of the reset thread, and `get_status` or `get_available`, which make a bucket.
pub data Event : Type 0 where
  attempt : String → ℕ → Event
  reset : ℕ → Event
  look : String → Event

unfoldable pub step : Event → GroqRateLimiter → GroqRateLimiter
unfolding try_acquire maybe_reset_buckets get_bucket
step (attempt model tokens) l = (try_acquire model tokens l).0
step (reset now) l = maybe_reset_buckets now l
step (look model) l = get_bucket model l

unfoldable pub run : List Event → GroqRateLimiter → GroqRateLimiter
unfolding step
run [] l = l
run (e ∷ es) l = run es (step e l)

-- `GroqRateLimiter(api_key)`
abbrev pub new_limiter : String → ℕ → ℕ → GroqRateLimiter
new_limiter api_key minute_start day_start = record {
  api_key = api_key;
  buckets = [];
  minute_start = minute_start;
  day_start = day_start;
}
