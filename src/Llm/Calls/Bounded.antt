-- ===== src/Llm/Calls/Bounded.antt =====
-- How many calls there are and what they cost.
use gexpense_tracker_public.Prelude.{
  ℕ, suc, ◌+◌, ◌*◌, ◌≡◌, refl, ap, ◌∙◌, ◌≤◌, arith, Bool, Option, some, List, [], ◌∷◌, ◌==◌, length,
  if-elim, List-elim,
}
use gexpense_tracker_public.Prelude.Text.{Text, text_equality}
use gexpense_tracker_public.Llm.Providers.{Provider, rank_providers}
use gexpense_tracker_public.Llm.Spend.{Tracker, add_call, sync_date, is_today, within_budget}
use gexpense_tracker_public.Llm.Calls.{
  Header, missing, number, unreadable, Response, answered, refused, raised, Called, returned,
  failed, escaped, Tried, Classified, provider_http_call, read_response, call_provider, after_retry,
  retry, after_rate_limit, after_call, call_with_retry, go_on, try_providers, classify,
}

module _ (today cost : ℕ) where
  -- From one tracker to another of the same day, with at most so many calls paid.
  abbrev pub IsPaid : ℕ → Tracker → Tracker → Type 0
  IsPaid n t s = (s.date ≡ some today) × (s.spend ≤ t.spend + cost * n)

  add_call-IsPaid :
      (user_id : Option Text) (t : Tracker)
      → t.date ≡ some today
      → IsPaid 1 t (add_call today cost user_id t)
  unfolding add_call sync_date is_today
  add_call-IsPaid user_id t h = ground (arith, h)

  module _ {ℓ} {A : Type ℓ} (post : ℕ → Provider → Response Text) (acquire : ℕ → Provider → Bool)
      (clock : ℕ → ℕ) (parse : Text → Option A) (user_id : Option Text) where
    -- A number of calls from one to the next, and what they cost.
    abbrev pub AreCalls : ℕ → ℕ → Tracker → ℕ → Tracker → Type 0
    AreCalls limit k t c s =
        (k ≤ c)
        × (c ≤ k + limit)
        × (s.date ≡ some today)
        × (s.spend + cost * k ≤ t.spend + cost * c)

    read_response-IsPaid :
        (k : ℕ) (p : Provider) (t : Tracker) (o : Response Text)
        → t.date ≡ some today
        → IsPaid 1 t
            (read_response post acquire clock (λ k. today) parse cost user_id k p t o).tracker
    unfolding read_response
    read_response-IsPaid k p t (answered raw) h = add_call-IsPaid user_id t h
    read_response-IsPaid k p t (refused code header) h = (h, omega arith)
    read_response-IsPaid k p t raised h = (h, omega arith)

    after_retry-AreCalls :
        (k n : ℕ) (p : Provider) (t s : Tracker) (o : Response A)
        → IsPaid 1 t s
        → (let r = after_retry post acquire clock (λ k. today) parse cost user_id k n p s o in
            AreCalls 1 k t r.calls r.tracker)
    unfolding after_retry
    after_retry-AreCalls k n p t s (answered a) h =
        (omega arith, omega arith, h.0, omega (arith, h.1))
    after_retry-AreCalls k n p t s (refused code header) h =
        (omega arith, omega arith, h.0, omega (arith, h.1))
    after_retry-AreCalls k n p t s raised h = (omega arith, omega arith, h.0, omega (arith, h.1))

    retry-AreCalls :
        (k n : ℕ) (p : Provider) (t : Tracker)
        → t.date ≡ some today
        → (let r = retry post acquire clock (λ k. today) parse cost user_id k n p t in
            AreCalls 1 k t r.calls r.tracker)
    unfolding retry call_provider
    retry-AreCalls k n p t h =
        let called = provider_http_call post acquire clock (λ k. today) parse cost user_id k p in
        let attempt =
          read_response post acquire clock (λ k. today) parse cost user_id k called.0 t called.1 in
        after_retry-AreCalls k n attempt.provider t attempt.tracker attempt.outcome
          (read_response-IsPaid k called.0 t called.1 h)

    after_rate_limit-AreCalls :
        (k : ℕ) (header : Header) (p : Provider) (t : Tracker)
        → t.date ≡ some today
        → (let r =
              after_rate_limit post acquire clock (λ k. today) parse cost user_id k header p t in
            AreCalls 1 k t r.calls r.tracker)
    unfolding after_rate_limit
    after_rate_limit-AreCalls k missing p t h = retry-AreCalls k 60 p t h
    after_rate_limit-AreCalls k (number n) p t h = retry-AreCalls k n p t h
    after_rate_limit-AreCalls k unreadable p t h = (omega arith, omega arith, h, omega arith)

    -- The calls of one provider, the first of which has been made.
    after_call-AreCalls :
        (k : ℕ) (p : Provider) (t s : Tracker) (o : Response A)
        → IsPaid 1 t s
        → (let r = after_call post acquire clock (λ k. today) parse cost user_id k p s o in
            AreCalls 2 k t r.calls r.tracker)
    unfolding after_call
    after_call-AreCalls k p t s (answered a) h = (omega arith, omega arith, h.0, omega (arith, h.1))
    after_call-AreCalls k p t s (refused code header) h =
        if-elim (λ (r : Tried A). AreCalls 2 k t r.calls r.tracker) (code == 429) _ _
          (λ e.
            let more = after_rate_limit-AreCalls (suc k) header p s h.0 in
            (omega (arith, more.0), omega (arith, more.1), more.2, omega (arith, h.1, more.3)))
          (λ e. (omega arith, omega arith, h.0, omega (arith, h.1)))
    after_call-AreCalls k p t s raised h = (omega arith, omega arith, h.0, omega (arith, h.1))

    call_with_retry-AreCalls :
        (k : ℕ) (p : Provider) (t : Tracker)
        → t.date ≡ some today
        → (let r = call_with_retry post acquire clock (λ k. today) parse cost user_id k p t in
            AreCalls 2 k t r.calls r.tracker)
    unfolding call_with_retry call_provider
    call_with_retry-AreCalls k p t h =
        let called = provider_http_call post acquire clock (λ k. today) parse cost user_id k p in
        let attempt =
          read_response post acquire clock (λ k. today) parse cost user_id k called.0 t called.1 in
        after_call-AreCalls k attempt.provider t attempt.tracker attempt.outcome
          (read_response-IsPaid k called.0 t called.1 h)

    go_on-AreCalls :
        (k n : ℕ) (t : Tracker) (p : Provider) (s : Tracker) (c : ℕ) (result : Called A)
        (ps : List Provider) (rest : Classified A)
        → AreCalls 2 k t c s
        → AreCalls n c s rest.calls rest.tracker
        → (let r =
              go_on post acquire clock
                (λ k. today)
                parse
                cost
                user_id
                (record { provider = p; tracker = s; calls = c; result = result })
                ps
                rest in
            AreCalls (2 + n) k t r.calls r.tracker)
    unfolding go_on
    go_on-AreCalls k n t p s c (returned a) ps rest h more = (h.0, omega (arith, h.1), h.2, h.3)
    go_on-AreCalls k n t p s c escaped ps rest h more = (h.0, omega (arith, h.1), h.2, h.3)
    go_on-AreCalls k n t p s c failed ps rest h more =
        (omega (arith, h.0, more.0), omega (arith, h.1, more.1), more.2, omega (arith, h.3, more.3))

    pub try_providers-AreCalls :
        (k : ℕ) (ps : List Provider) (t : Tracker)
        → t.date ≡ some today
        → (let r = try_providers post acquire clock (λ k. today) parse cost user_id k ps t in
            AreCalls (2 * length ps) k t r.calls r.tracker)
    unfolding try_providers
    try_providers-AreCalls k [] t h = (omega arith, omega arith, h, omega arith)
    try_providers-AreCalls k (p ∷ ps) t h =
        let tried = call_with_retry post acquire clock (λ k. today) parse cost user_id k p t in
        let here = call_with_retry-AreCalls k p t h in
        let rest =
          try_providers post acquire clock (λ k. today) parse cost user_id tried.calls ps
            tried.tracker in
        let all =
          go_on-AreCalls k (2 * length ps) t tried.provider tried.tracker tried.calls tried.result
            ps rest here (try_providers-AreCalls tried.calls ps tried.tracker here.2) in
        (all.0, omega (arith, all.1), all.2, all.3)

sync_date-today : (today : ℕ) (t : Tracker) → t.date ≡ some today → sync_date today t ≡ t
unfolding sync_date is_today
sync_date-today today t h =
    if-elim (λ s. s ≡ t) (is_today today t.date) _ _ (λ e. refl)
      (λ e. absurd (ground (arith, e, h)))

-- A classification on one day makes at most twice as many calls as there are available providers,
-- and raises the spend of the day by at most their cost; it makes none where the spend has reached
-- the budget.
pub classify-calls {ℓ} :
    {A : Type ℓ} (today cost : ℕ) (post : ℕ → Provider → Response Text)
    (acquire : ℕ → Provider → Bool) (clock : ℕ → ℕ) (parse : Text → Option A)
    (user_id : Option Text) (budget : ℕ) (providers : List Provider) (t : Tracker)
    → t.date ≡ some today
    → (let r = classify post acquire clock (λ k. today) parse cost user_id budget providers t in
        (r.calls ≤ 2 * length (rank_providers (clock 0) providers))
        × (r.tracker.spend ≤ t.spend + cost * r.calls)
        × (budget ≤ t.spend → r.calls ≡ 0))
unfolding classify within_budget
classify-calls {A = A} today cost post acquire clock parse user_id budget providers t h =
    let ranked = rank_providers (clock 0) providers in
    let within = within_budget today budget t in
    let same = sync_date-today today t h in
    List-elim
      (λ (r : Classified A).
        (r.calls ≤ 2 * length ranked)
        × (r.tracker.spend ≤ t.spend + cost * r.calls)
        × (budget ≤ t.spend → r.calls ≡ 0))
      ranked _ _ (λ e. (omega arith, omega arith, λ b. refl))
      (λ p ps e.
        if-elim
          (λ (r : Classified A).
            (r.calls ≤ 2 * length ranked)
            × (r.tracker.spend ≤ t.spend + cost * r.calls)
            × (budget ≤ t.spend → r.calls ≡ 0))
          within.0 _ _
          (λ b.
            let all =
              try_providers-AreCalls today cost post acquire clock parse user_id 0 (p ∷ ps) within.1
                (ap (λ (s : Tracker). s.date) same ∙ h) in
            let spend : within.1.spend ≡ t.spend = ap (λ (s : Tracker). s.spend) same in
            (
              omega (arith, all.1, ap length e),
              omega (arith, all.3, spend),
              λ full. absurd (ground (arith, b, spend, full)),
            ))
          (λ b. (omega arith, omega (arith, ap (λ (s : Tracker). s.spend) same), λ full. refl)))
