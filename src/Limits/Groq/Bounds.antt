-- ===== src/Limits/Groq/Bounds.antt =====
-- The counters of every bucket stay within its limits.
use mathlib.Core.Option.{some-injective}
use mathlib.Core.Path.{subst}
use gexpense_tracker_public.Prelude.{
  ℕ, ◌+◌, ◌≤◌, ◌<◌, String, ◌≡◌, refl, true, Option, none, some, List, [], ◌∷◌, arith, string_eq,
  if◌then◌else◌, leb, ◌≢◌, Bool-cases, inl, inr,
}
use gexpense_tracker_public.Prelude.Dict.{
  Dict, get, put, map_values, get_or_elim, get_or-put_self, get-put, get-map_values,
}
use gexpense_tracker_public.Workers.Task.{seconds}
use gexpense_tracker_public.Limits.Groq.{
  Bucket, GroqRateLimiter, new_bucket, bucket_of, get_bucket, reset_minute, reset_day,
  maybe_reset_minute, maybe_reset_day, has_room, charge, try_acquire, Event, attempt, reset, look,
  step, run, new_limiter,
}

-- Requests and tokens of the minute and requests of the day stay within their limits; the tokens
-- of the day stay below the daily limit and one minute's allowance. A daily limit of 0 is none.
pub record IsWithin (b : Bucket) : Type 0 where
  pub rpm : b.rpm_used ≤ b.limits.requests_per_minute
  pub tpm : b.tpm_used ≤ b.limits.tokens_per_minute
  pub rpd : 0 < b.limits.requests_per_day → b.rpd_used ≤ b.limits.requests_per_day
  pub tpd :
      0 < b.limits.tokens_per_day
      → b.tpd_used < b.limits.tokens_per_day + b.limits.tokens_per_minute

pub record AllWithin (l : GroqRateLimiter) : Type 0 where
  pub at : (model : String) (b : Bucket) → get model l.buckets ≡ some b → IsWithin b

new_bucket-IsWithin : (model : String) → IsWithin (new_bucket model)
unfolding new_bucket
new_bucket-IsWithin model = omega arith

bucket_of-IsWithin :
    (model : String) (l : GroqRateLimiter) → AllWithin l → IsWithin (bucket_of model l)
unfolding bucket_of
bucket_of-IsWithin model l h =
    get_or_elim IsWithin model l.buckets (new_bucket model) (new_bucket-IsWithin model) (h.at model)

charge-IsWithin :
    (tokens : ℕ) (b : Bucket) → has_room tokens b ≡ true → IsWithin b → IsWithin (charge tokens b)
unfolding has_room charge
charge-IsWithin tokens b room h = ground arith

put-AllWithin :
    (model : String) (b : Bucket) (l : GroqRateLimiter)
    → IsWithin b
    → AllWithin l
    → AllWithin (record l { buckets = put model b l.buckets })
put-AllWithin model b l w h = record { at = go }
  where
    go : (m : String) (c : Bucket) → get m (put model b l.buckets) ≡ some c → IsWithin c
    go m c found = elim (Bool-cases (string_eq.beq model m)) [
      | inl same ↦
          subst IsWithin (some-injective b c (ground (arith, get-put model m b l.buckets))) w
      | inr other ↦ h.at m c (ground (arith, get-put model m b l.buckets))
    ]

try_acquire-AllWithin :
    (model : String) (tokens : ℕ) (l : GroqRateLimiter)
    → AllWithin l
    → AllWithin (try_acquire model tokens l).0
unfolding try_acquire get_bucket
try_acquire-AllWithin model tokens l h = elim (Bool-cases (has_room tokens (bucket_of model l))) [
  | inl room ↦ rw room (
      put-AllWithin model (charge tokens (bucket_of model l)) l
        (charge-IsWithin tokens (bucket_of model l) room (bucket_of-IsWithin model l h)) h)
  | inr full ↦ rw full (put-AllWithin model (bucket_of model l) l (bucket_of-IsWithin model l h) h)
]

reset_minute-IsWithin : (b : Bucket) → IsWithin b → IsWithin (reset_minute b)
unfolding reset_minute
reset_minute-IsWithin b h = omega arith

reset_day-IsWithin : (b : Bucket) → IsWithin b → IsWithin (reset_day b)
unfolding reset_day
reset_day-IsWithin b h = ground arith

-- A change of every bucket that keeps each within its limits.
map_values-IsWithin :
    (f : Bucket → Bucket) (keep : (b : Bucket) → IsWithin b → IsWithin (f b))
    (d : Dict String Bucket)
    → ((m : String) (b : Bucket) → get m d ≡ some b → IsWithin b)
    → (m : String) (c : Bucket) → get m (map_values f d) ≡ some c
    → IsWithin c
map_values-IsWithin f keep d h m c found = go (get m d) refl
  where
    go : (o : Option Bucket) → get m d ≡ o → IsWithin c
    go none e = cc (get-map_values f m d)
    go (some b) e =
        subst IsWithin (some-injective (f b) c (ground (arith, get-map_values f m d)))
          (keep b (h m b e))

maybe_reset_minute-AllWithin :
    (now : ℕ) (l : GroqRateLimiter) → AllWithin l → AllWithin (maybe_reset_minute now l)
unfolding maybe_reset_minute
maybe_reset_minute-AllWithin now l h = elim (Bool-cases (leb (l.minute_start + seconds 60) now)) [
  | inl due ↦
      rw due (record { at = map_values-IsWithin reset_minute reset_minute-IsWithin l.buckets h.at })
  | inr early ↦ rw early h
]

maybe_reset_day-AllWithin :
    (now : ℕ) (l : GroqRateLimiter) → AllWithin l → AllWithin (maybe_reset_day now l)
unfolding maybe_reset_day
maybe_reset_day-AllWithin now l h = elim (Bool-cases (leb (l.day_start + seconds 86400) now)) [
  | inl due ↦
      rw due (record { at = map_values-IsWithin reset_day reset_day-IsWithin l.buckets h.at })
  | inr early ↦ rw early h
]

step-AllWithin : (e : Event) (l : GroqRateLimiter) → AllWithin l → AllWithin (step e l)
unfolding step
step-AllWithin (attempt model tokens) l h = try_acquire-AllWithin model tokens l h
step-AllWithin (reset now) l h =
    maybe_reset_day-AllWithin now (maybe_reset_minute now l) (maybe_reset_minute-AllWithin now l h)
step-AllWithin (look model) l h =
    put-AllWithin model (bucket_of model l) l (bucket_of-IsWithin model l h) h

run-AllWithin : (es : List Event) (l : GroqRateLimiter) → AllWithin l → AllWithin (run es l)
unfolding run
run-AllWithin [] l h = h
run-AllWithin (e ∷ es) l h = run-AllWithin es (step e l) (step-AllWithin e l h)

new_limiter-AllWithin : (key : String) (m d : ℕ) → AllWithin (new_limiter key m d)
unfolding get
new_limiter-AllWithin key m d = record { at = λ model b found. absurd (cc) }

-- From a new limiter, whatever attempts, resets and status calls follow, every bucket's requests
-- and tokens of the minute and requests of the day are within its limits, and its tokens of the
-- day below the daily limit and one minute's allowance (a daily limit of 0 is no limit).
pub usage-IsWithin :
    (api_key : String) (minute_start day_start : ℕ) (es : List Event) (model : String) (b : Bucket)
    → get model (run es (new_limiter api_key minute_start day_start)).buckets ≡ some b
    → IsWithin b
usage-IsWithin api_key minute_start day_start es model b found =
    (run-AllWithin es (new_limiter api_key minute_start day_start)
        (new_limiter-AllWithin api_key minute_start day_start)).at
      model b found

bucket_of-put :
    (model : String) (b : Bucket) (l : GroqRateLimiter)
    → bucket_of model (record l { buckets = put model b l.buckets }) ≡ b
unfolding bucket_of
bucket_of-put model b l = get_or-put_self model b l.buckets (new_bucket model)

others-put :
    (model : String) (b : Bucket) (l : GroqRateLimiter) (other : String)
    → model ≢ other
    → get other (put model b l.buckets) ≡ get other l.buckets
others-put model b l other ne =
    ground (arith, get-put model other b l.buckets, string_eq.beq_iff model other)

-- An attempt succeeds exactly when its model's bucket has room; it then charges that bucket, and
-- otherwise leaves it as it was. No other model's bucket changes.
pub try_acquire_lem :
    (model : String) (tokens : ℕ) (l : GroqRateLimiter)
    → let (l', acquired) = try_acquire model tokens l in
      (acquired ≡ has_room tokens (bucket_of model l))
      × (bucket_of model l'
          ≡ (if acquired then charge tokens (bucket_of model l) else bucket_of model l))
      × ((other : String) → model ≢ other → get other l'.buckets ≡ get other l.buckets)
unfolding try_acquire get_bucket
try_acquire_lem model tokens l = elim (Bool-cases (has_room tokens (bucket_of model l))) [
  | inl room ↦
      rw room
        (refl, bucket_of-put model (charge tokens (bucket_of model l)) l, others-put model _ l)
  | inr full ↦ rw full (refl, bucket_of-put model (bucket_of model l) l, others-put model _ l)
]
