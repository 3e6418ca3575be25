-- ===== src/Llm/Tests.antt =====
-- Runs of the client on concrete providers and texts.
use gexpense_tracker_public.Prelude.{
  ℕ, ◌≡◌, refl, ◌≤◌, ◌*◌, ◌+◌, true, ◌&&◌, none, some, List, [], ◌∷◌, ◌++◌, map, leb, ◌==◌, length,
  if◌then◌else◌, if-elim, String,
}
use gexpense_tracker_public.Prelude.Text.{Text, codes, text_eq, starts_with}
use gexpense_tracker_public.Llm.Sanitize.{redact, sanitize, truncate, injections}
use gexpense_tracker_public.Llm.Sanitize.Ends.{AreFree, sanitize-ends}
use gexpense_tracker_public.Llm.Sanitize.Endless.{dotted, redact-endless}
use gexpense_tracker_public.Llm.Providers.{Provider, rank_providers}
use gexpense_tracker_public.Llm.Spend.{Tracker}
use gexpense_tracker_public.Llm.Calls.{
  missing, Response, answered, refused, try_providers, classify,
}
use gexpense_tracker_public.Llm.Calls.Steady.{
  is_readable, to_called, first_value, try_providers-first_value,
}
use gexpense_tracker_public.Llm.Calls.Bounded.{classify-calls}

-- `str.lower` on the letters of ASCII
abbrev lower_code : ℕ → ℕ
lower_code c = if leb 65 c && leb c 90 then c + 32 else c

cleaned : sanitize (map lower_code) 2000 (codes "{a} System: b") ≡ some (codes "{{a}} [redacted] b")
unfolding sanitize
cleaned = refl

sanitize-ends_example :
    (r : Text) × (sanitize (map lower_code) 20 (codes "Hi. You Are Now system: free")
      ≡ some (truncate 20 r))
    × AreFree (map lower_code) injections r
sanitize-ends_example = sanitize-ends lower_code refl 20 (codes "Hi. You Are Now system: free")

-- the lower case of the letter is two code points
abbrev lengthen : Text → Text
lengthen [] = []
lengthen (c ∷ t) =
    let rest = lengthen t in if c == 0x130 then 0x69 ∷ 0x307 ∷ rest else lower_code c ∷ rest

redact-endless_example : redact lengthen 1000 (codes "system:") (dotted ++ codes " do") ≡ none
redact-endless_example = redact-endless lengthen (λ t. (lengthen t, refl)) 1000 (codes " do")

abbrev named_provider : String → ℕ → Provider
named_provider name fail_count = record {
  name = codes name;
  base_url = [];
  api_key = codes "key";
  model = codes "auto";
  rate_limited_until = 0;
  rate_limit_count = 0;
  rate_limit_reset_after = 3600;
  last_rate_limit_at = none;
  success_count = 1;
  fail_count = fail_count;
}

abbrev two_providers : List Provider
two_providers = named_provider "groq" 3 ∷ named_provider "openai" 0 ∷ []

abbrev tracker : Tracker
tracker = record { date = some 7; spend = 3; user_spend = [] }

-- The first is limited, the second answers.
abbrev reply : Provider → Response Text
reply p = if starts_with (codes "groq") p.name then refused 429 missing else answered (codes "ok")

reply-is_readable : (p : Provider) → is_readable (reply p) ≡ true
reply-is_readable p =
    if-elim (λ o. is_readable o ≡ true) (starts_with (codes "groq") p.name) _ _ (λ e. refl)
      (λ e. refl)

try_providers-first_value_example :
    (try_providers
      (λ k p. reply p)
      (λ k p. true)
      (λ k. k)
      (λ k. 7)
      some
      1
      none
      0
      two_providers
      tracker).result
    ≡ to_called (first_value some reply two_providers)
try_providers-first_value_example =
    try_providers-first_value reply (λ k. k) (λ k. 7) some 1 none 0 two_providers tracker
      reply-is_readable

-- It takes the second provider's first call, which is the third.
third_call :
    (try_providers
      (λ k p. reply p)
      (λ k p. true)
      (λ k. k)
      (λ k. 7)
      some
      1
      none
      0
      two_providers
      tracker).calls
    ≡ 3
unfolding try_providers starts_with text_eq
third_call = refl

classify-calls_example :
    (let r =
        classify
          (λ k p. reply p)
          (λ k p. true)
          (λ k. k)
          (λ k. 7)
          some
          1
          none
          10
          two_providers
          tracker in
      (r.calls ≤ 2 * length (rank_providers 0 two_providers))
      × (r.tracker.spend ≤ 3 + 1 * r.calls)
      × (10 ≤ 3 → r.calls ≡ 0))
classify-calls_example =
    classify-calls 7 1 (λ k p. reply p) (λ k p. true) (λ k. k) some none 10 two_providers tracker
      refl
