-- ===== src/Llm/Calls.antt =====
-- How app/classifier/llm/client.py calls the providers: `_provider_http_call` up to the request,
-- `_call_provider_verbose`, `_call_with_retry` and the loop of `classify` and `classify_verbose`.
-- What a request gives is the parameter `post`, what the limiter of Groq says the parameter
-- `acquire`, the clock the parameter `clock`, each by the number of the call, and `parse_response`
-- the parameter `parse`, which gives none where it raises.
pub mod Steady
pub mod Bounded
use gexpense_tracker_public.Prelude.{
  ℕ, suc, ◌+◌, max, Bool, true, false, ◌&&◌, not, Option, none, some, List, [], ◌∷◌, ◌==◌,
  if◌then◌else◌,
}
use gexpense_tracker_public.Prelude.Text.{Text, codes, text_equality}
use gexpense_tracker_public.Llm.Providers.{
  Provider, mark_rate_limited, decrement_rate_limit_count, with_calls, rank_providers,
}
use gexpense_tracker_public.Llm.Spend.{Tracker, add_call, within_budget}

-- The header `Retry-After`: `int` refuses one that is no number.
pub data Header : Type 0 where
  missing unreadable : Header
  number : ℕ → Header

-- What a call gives: a value, an `HTTPStatusError`, or another exception.
pub data Response {ℓ} (A : Type ℓ) : Type ℓ where
  answered : A → Response A
  refused : ℕ → Header → Response A
  raised : Response A

-- What `_call_with_retry` does: it returns a value or an error, or an exception leaves it.
pub data Called {ℓ} (A : Type ℓ) : Type ℓ where
  returned : A → Called A
  failed : Called A
  escaped : Called A

-- A provider and the spend after a call, and what it gave.
pub record Attempt {ℓ} (A : Type ℓ) : Type ℓ where
  pub provider : Provider
  pub tracker : Tracker
  pub outcome : Response A

-- The same after the calls of one provider, with the number of the next call.
pub record Tried {ℓ} (A : Type ℓ) : Type ℓ where
  pub provider : Provider
  pub tracker : Tracker
  pub calls : ℕ
  pub result : Called A

-- After the loop: the providers that were ranked, as they are left.
pub record Classified {ℓ} (A : Type ℓ) : Type ℓ where
  pub providers : List Provider
  pub tracker : Tracker
  pub calls : ℕ
  pub result : Called A

unfoldable pub fail : Provider → Provider
unfolding with_calls
fail p = with_calls p.success_count (suc p.fail_count) p

unfoldable pub succeed : Provider → Provider
unfolding with_calls decrement_rate_limit_count
succeed p = decrement_rate_limit_count (with_calls (suc p.success_count) p.fail_count p)

module _ {ℓ} {A : Type ℓ} (post : ℕ → Provider → Response Text) (acquire : ℕ → Provider → Bool)
    (clock : ℕ → ℕ) (day : ℕ → ℕ) (parse : Text → Option A) (estimated_cost : ℕ)
    (user_id : Option Text) where
  -- `_provider_http_call`
  unfoldable pub provider_http_call : ℕ → Provider → Provider × Response Text
  unfolding fail mark_rate_limited
  provider_http_call k p =
      if text_equality.beq p.name (codes "groq") && not (acquire k p)
      then (fail (mark_rate_limited (clock k) 60 p), refused 429 missing)
      else (p, post k p)

  -- `parse_response(raw)`
  unfoldable pub parsed : Option A → Response A
  parsed none = raised
  parsed (some a) = answered a

  -- `_call_provider_verbose`, from the response on
  unfoldable pub read_response : ℕ → Provider → Tracker → Response Text → Attempt A
  unfolding parsed add_call
  read_response k p tracker (answered raw) = record {
    provider = p;
    tracker = add_call (day k) estimated_cost user_id tracker;
    outcome = parsed (parse raw);
  }
  read_response k p tracker (refused code header) = record {
    provider = p;
    tracker = tracker;
    outcome = refused code header;
  }
  read_response k p tracker raised = record { provider = p; tracker = tracker; outcome = raised }

  -- `_call_provider_verbose`
  unfoldable pub call_provider : ℕ → Provider → Tracker → Attempt A
  unfolding provider_http_call read_response
  call_provider k p tracker =
      let called = provider_http_call k p in read_response k called.0 tracker called.1

  -- The second call of `_call_with_retry`, which is the k-th.
  unfoldable pub after_retry : ℕ → ℕ → Provider → Tracker → Response A → Tried A
  unfolding succeed fail mark_rate_limited
  after_retry k retry_after p tracker (answered a) = record {
    provider = succeed p;
    tracker = tracker;
    calls = suc k;
    result = returned a;
  }
  after_retry k retry_after p tracker (refused code header) = record {
    provider = if code == 429 then mark_rate_limited (clock k) (max retry_after 60) p else fail p;
    tracker = tracker;
    calls = suc k;
    result = failed;
  }
  after_retry k retry_after p tracker raised = record {
    provider = fail p;
    tracker = tracker;
    calls = suc k;
    result = failed;
  }

  unfoldable pub retry : ℕ → ℕ → Provider → Tracker → Tried A
  unfolding call_provider after_retry
  retry k retry_after p tracker =
      let again = call_provider k p tracker in
      after_retry k retry_after again.provider again.tracker again.outcome

  -- The answer 429: `int(exc.response.headers.get("Retry-After", "60"))`, and the second call.
  unfoldable pub after_rate_limit : ℕ → Header → Provider → Tracker → Tried A
  unfolding retry
  after_rate_limit k missing p tracker = retry k 60 p tracker
  after_rate_limit k (number retry_after) p tracker = retry k retry_after p tracker
  after_rate_limit k unreadable p tracker = record {
    provider = p;
    tracker = tracker;
    calls = k;
    result = escaped;
  }

  -- The first call of `_call_with_retry`, which is the k-th, has been made.
  unfoldable pub after_call : ℕ → Provider → Tracker → Response A → Tried A
  unfolding succeed fail after_rate_limit
  after_call k p tracker (answered a) = record {
    provider = succeed p;
    tracker = tracker;
    calls = suc k;
    result = returned a;
  }
  after_call k p tracker (refused code header) =
      if code == 429
      then after_rate_limit (suc k) header p tracker
      else record { provider = fail p; tracker = tracker; calls = suc k; result = failed }
  after_call k p tracker raised = record {
    provider = fail p;
    tracker = tracker;
    calls = suc k;
    result = failed;
  }

  -- `_call_with_retry`
  unfoldable pub call_with_retry : ℕ → Provider → Tracker → Tried A
  unfolding call_provider after_call
  call_with_retry k p tracker =
      let first = call_provider k p tracker in
      after_call k first.provider first.tracker first.outcome

  -- `for provider in ranked`, where the calls of the first provider and the loop over the others
  -- from there on are given
  unfoldable pub go_on : Tried A → List Provider → Classified A → Classified A
  go_on tried ps rest = elim tried.result [
    | returned a ↦ record {
      providers = tried.provider ∷ ps;
      tracker = tried.tracker;
      calls = tried.calls;
      result = returned a;
    }
    | escaped ↦ record {
      providers = tried.provider ∷ ps;
      tracker = tried.tracker;
      calls = tried.calls;
      result = escaped;
    }
    | failed ↦ record {
      providers = tried.provider ∷ rest.providers;
      tracker = rest.tracker;
      calls = rest.calls;
      result = rest.result;
    }
  ]

  -- `for provider in ranked`
  unfoldable pub try_providers : ℕ → List Provider → Tracker → Classified A
  unfolding call_with_retry go_on
  try_providers k [] tracker = record {
    providers = [];
    tracker = tracker;
    calls = k;
    result = failed;
  }
  try_providers k (p ∷ ps) tracker =
      let tried = call_with_retry k p tracker in
      go_on tried ps (try_providers tried.calls ps tried.tracker)

  -- `classify` and `classify_verbose`, from the ranking of the providers on: where the budget is
  -- spent there is none, and `RuntimeError` leaves them.
  unfoldable pub classify : ℕ → List Provider → Tracker → Classified A
  unfolding rank_providers within_budget try_providers
  classify budget providers tracker =
      let ranked = rank_providers (clock 0) providers in
      let within = within_budget (day 0) budget tracker in
      elim ranked [
        | [] ↦ record { providers = []; tracker = tracker; calls = 0; result = failed }
        | p ∷ ps ↦
            if within.0
            then try_providers 0 (p ∷ ps) within.1
            else record { providers = p ∷ ps; tracker = within.1; calls = 0; result = failed }
      ]
