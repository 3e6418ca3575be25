-- ===== src/Limits/Tests.antt =====
-- Runs of the limiters, and their theorems at concrete inputs.
use gexpense_tracker_public.Prelude.{
  ℕ, ◌*◌, ◌≡◌, ◌≢◌, refl, none, some, List, [], ◌∷◌, arith, string_eq, inl,
}
use gexpense_tracker_public.Prelude.Dict.{get, get_or}
use gexpense_tracker_public.Workers.Task.{seconds}
use gexpense_tracker_public.Limits.Groq
use gexpense_tracker_public.Limits.Groq.{
  Bucket, GroqRateLimiter, Round, attempt, reset, look, groq_limits, has_room, charge, bucket_of,
  try_acquire, acquire, acquire_loop, new_limiter, wait_time, limits_of, new_bucket,
}
use gexpense_tracker_public.Limits.Groq.Bounds.{IsWithin, usage-IsWithin}
use gexpense_tracker_public.Limits.Groq.Acquire.{
  IsSteady, Answered, acquire-ne-none, acquire-Answered,
}
use gexpense_tracker_public.Limits.Requests
use gexpense_tracker_public.Limits.Requests.Windows.{admitted, Begins, allowed_in_window}

abbrev limiter : GroqRateLimiter
limiter = new_limiter "key" 0 0

abbrev uses : List Groq.Event
uses = attempt "qwen/qwen3-32b" 4000 ∷ attempt "qwen/qwen3-32b" 3000 ∷ look "other" ∷ []

abbrev qwen : Bucket
qwen = record {
  limits = record {
    requests_per_minute = 60;
    tokens_per_minute = 6000;
    requests_per_day = 1000;
    tokens_per_day = 500000;
  };
  rpm_used = 1;
  tpm_used = 4000;
  rpd_used = 1;
  tpd_used = 4000;
}

-- The second attempt wants more tokens than the minute has left.
qwen_found : get "qwen/qwen3-32b" (Groq.run uses limiter).buckets ≡ some qwen
unfolding Groq.run bucket_of new_bucket limits_of get_or get
qwen_found = refl

usage-IsWithin_example : IsWithin qwen
usage-IsWithin_example = usage-IsWithin "key" 0 0 uses "qwen/qwen3-32b" qwen qwen_found

-- A world in which each round takes a second and nobody else uses the limiter.
abbrev ticking : ℕ → Round
ticking k = record { checked = k * seconds 1; measured = k * seconds 1; others = λ l. l }

ticking-IsSteady : IsSteady 0 ticking 0 (seconds 2)
unfolding wait_time
ticking-IsSteady = record { forward = λ k late. omega arith; wakes = λ k late. ground arith }

acquire-ne-none_example : acquire ticking 0 (seconds 2) "qwen/qwen3-32b" 7000 3 limiter ≢ none
acquire-ne-none_example =
    acquire-ne-none 0 ticking 0 (seconds 2) "qwen/qwen3-32b" 7000 2 limiter ticking-IsSteady
      (omega arith)

acquire-Answered_example :
    Answered ticking 0
      (seconds 2)
      "qwen/qwen3-32b"
      4000
      limiter
      (try_acquire "qwen/qwen3-32b" 4000 limiter)
unfolding acquire bucket_of new_bucket limits_of get_or get
acquire-Answered_example =
    acquire-Answered ticking 0 (seconds 2) "qwen/qwen3-32b" 4000 4 limiter
      (try_acquire "qwen/qwen3-32b" 4000 limiter) (ground (arith, string_eq.beq_iff "key" "")) refl

abbrev fresh : Requests.Buckets
fresh = []

fresh-Begins : Begins "1.2.3.4" "/health" 2 60 5 fresh
unfolding get
fresh-Begins = inl refl

allowed_in_window_example :
    admitted (Requests.serve "1.2.3.4" "/health" 2 60 (5 ∷ 6 ∷ 7 ∷ []) fresh).1 ≡ 2
allowed_in_window_example =
    allowed_in_window "1.2.3.4" "/health" 2 60 5 (6 ∷ 7 ∷ []) fresh (omega arith) fresh-Begins
      (omega arith)
