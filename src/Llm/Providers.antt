-- ===== src/Llm/Providers.antt =====
-- `Provider` and `rank_providers` of app/classifier/llm/providers.py. Times are seconds. What
-- `priority_score` changes is `refresh`, and the quotient that it returns a numerator and a
-- denominator.
pub mod Order
use gexpense_tracker_public.Prelude.{
  ℕ, suc, ◌+◌, ◌-◌, ◌*◌, Bool, true, false, ◌&&◌, not, Option, none, some, List, [], ◌∷◌, map,
  filter, ltb, leb, ◌==◌, if◌then◌else◌,
}
use gexpense_tracker_public.Prelude.Text.{Text, is_empty}

pub record Provider : Type 0 where
  pub name : Text
  pub base_url : Text
  pub api_key : Text
  pub model : Text
  pub rate_limited_until : ℕ
  pub rate_limit_count : ℕ
  pub rate_limit_reset_after : ℕ
  pub last_rate_limit_at : Option ℕ
  pub success_count : ℕ
  pub fail_count : ℕ

unfoldable pub available : ℕ → Provider → Bool
unfolding is_empty
available now p = not (is_empty p.api_key) && leb p.rate_limited_until now

unfoldable pub is_rate_limited : ℕ → Provider → Bool
is_rate_limited now p = ltb now p.rate_limited_until

unfoldable pub mark_rate_limited : ℕ → ℕ → Provider → Provider
mark_rate_limited now retry_after p = record {
  name = p.name;
  base_url = p.base_url;
  api_key = p.api_key;
  model = p.model;
  rate_limited_until = now + retry_after;
  rate_limit_count = p.rate_limit_count + 1;
  rate_limit_reset_after = p.rate_limit_reset_after;
  last_rate_limit_at = some now;
  success_count = p.success_count;
  fail_count = p.fail_count;
}

unfoldable pub should_reset_rate_limit : ℕ → Provider → Bool
should_reset_rate_limit now p =
    if p.rate_limit_count == 0 then false else elim p.last_rate_limit_at [
      | none ↦ false
      | some last ↦ ltb (last + p.rate_limit_reset_after) now
    ]

-- The assignments to the counter of the limits and to its two times.
unfoldable pub with_limits : ℕ → Option ℕ → ℕ → Provider → Provider
with_limits count last until p = record {
  name = p.name;
  base_url = p.base_url;
  api_key = p.api_key;
  model = p.model;
  rate_limited_until = until;
  rate_limit_count = count;
  rate_limit_reset_after = p.rate_limit_reset_after;
  last_rate_limit_at = last;
  success_count = p.success_count;
  fail_count = p.fail_count;
}

unfoldable pub reset_rate_limits : Provider → Provider
unfolding with_limits
reset_rate_limits p = with_limits 0 none 0 p

-- `if self.rate_limit_count > 0: self.rate_limit_count -= 1`
unfoldable pub decrement_rate_limit_count : Provider → Provider
unfolding with_limits
decrement_rate_limit_count p =
    with_limits (p.rate_limit_count - 1) p.last_rate_limit_at p.rate_limited_until p

unfoldable pub with_calls : ℕ → ℕ → Provider → Provider
with_calls success_count fail_count p = record {
  name = p.name;
  base_url = p.base_url;
  api_key = p.api_key;
  model = p.model;
  rate_limited_until = p.rate_limited_until;
  rate_limit_count = p.rate_limit_count;
  rate_limit_reset_after = p.rate_limit_reset_after;
  last_rate_limit_at = p.last_rate_limit_at;
  success_count = success_count;
  fail_count = fail_count;
}

-- What reading `priority_score` does to the provider.
unfoldable pub refresh : ℕ → Provider → Provider
unfolding should_reset_rate_limit with_limits
refresh now p =
    if should_reset_rate_limit now p then with_limits 0 none p.rate_limited_until p else p

-- `error_rate`
unfoldable pub error_rate : Provider → ℕ × ℕ
error_rate p =
    let total = p.success_count + p.fail_count in
    if ltb 0 total then (p.fail_count, total) else (0, 1)

-- `self.rate_limit_count * 0.25 + self.error_rate`
unfoldable pub priority_score : Provider → ℕ × ℕ
unfolding error_rate
priority_score p = let rate = error_rate p in (p.rate_limit_count * rate.1 + 4 * rate.0, 4 * rate.1)

unfoldable pub score_leb : Provider → Provider → Bool
unfolding priority_score
score_leb p q = let a = priority_score p in let b = priority_score q in leb (a.0 * b.1) (b.0 * a.1)

-- `sorted`: stable, by the score
unfoldable pub insert_provider : Provider → List Provider → List Provider
unfolding score_leb
insert_provider p [] = p ∷ []
insert_provider p (q ∷ qs) =
    let rest = insert_provider p qs in if score_leb p q then p ∷ q ∷ qs else q ∷ rest

unfoldable pub sort_providers : List Provider → List Provider
unfolding insert_provider
sort_providers [] = []
sort_providers (p ∷ ps) = insert_provider p (sort_providers ps)

unfoldable pub rank_providers : ℕ → List Provider → List Provider
unfolding available refresh sort_providers
rank_providers now providers = sort_providers (map (refresh now) (filter (available now) providers))
