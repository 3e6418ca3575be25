-- ===== src/Llm/Calls/Steady.antt =====
-- Which provider answers, where each gives the same response to every call.
use gexpense_tracker_public.Prelude.{
  ℕ, suc, ◌≡◌, refl, ap, sym, ◌∙◌, arith, Bool, true, false, ◌&&◌, not, Option, none, some, List,
  [], ◌∷◌, ◌==◌, if-elim, Option-cases, inl, inr,
}
use gexpense_tracker_public.Prelude.Text.{Text, codes, text_equality}
use gexpense_tracker_public.Llm.Providers.{Provider}
use gexpense_tracker_public.Llm.Spend.{Tracker, add_call}
use gexpense_tracker_public.Llm.Calls.{
  Header, missing, number, unreadable, Response, answered, refused, raised, Called, returned,
  failed, Tried, Classified, provider_http_call, parsed, read_response, call_provider, after_retry,
  retry, after_rate_limit, after_call, call_with_retry, go_on, try_providers,
}

-- The header of a response is no text that `int` refuses.
abbrev pub is_readable : Response Text → Bool
is_readable (refused code unreadable) = false
is_readable (refused code missing) = true
is_readable (refused code (number n)) = true
is_readable (answered raw) = true
is_readable raised = true

abbrev pub or_else {ℓ} : {A : Type ℓ} → Option A → Option A → Option A
or_else none rest = rest
or_else (some a) rest = some a

module _ {ℓ} {A : Type ℓ} (parse : Text → Option A) where
  -- The value in a response.
  abbrev pub value_of : Response Text → Option A
  value_of (answered raw) = parse raw
  value_of (refused code header) = none
  value_of raised = none

  -- The value of the first provider that gives one.
  abbrev pub first_value : (Provider → Response Text) → List Provider → Option A
  first_value reply [] = none
  first_value reply (p ∷ ps) = or_else (value_of (reply p)) (first_value reply ps)

abbrev pub to_called {ℓ} : {A : Type ℓ} → Option A → Called A
to_called none = failed
to_called (some a) = returned a

module _ {ℓ} {A : Type ℓ} (reply : Provider → Response Text) (clock day : ℕ → ℕ)
    (parse : Text → Option A) (cost : ℕ) (user_id : Option Text) where
  abbrev steady_post : ℕ → Provider → Response Text
  steady_post k p = reply p

  abbrev never_refuses : ℕ → Provider → Bool
  never_refuses k p = true

  call_provider-steady :
      (k : ℕ) (p : Provider) (t : Tracker)
      → call_provider steady_post never_refuses clock day parse cost user_id k p t
        ≡ read_response steady_post never_refuses clock day parse cost user_id k p t (reply p)
  unfolding call_provider provider_http_call
  call_provider-steady k p t =
      ap
        (λ (called : Provider × Response Text).
          read_response steady_post never_refuses clock day parse cost user_id k called.0 t
            called.1)
        (if-elim (λ (called : Provider × Response Text). called ≡ (p, reply p))
          (text_equality.beq p.name (codes "groq") && not (never_refuses k p)) _ _
          (λ e. absurd (ground (arith, e))) (λ e. refl))

  after_call-parsed :
      (k : ℕ) (p : Provider) (t : Tracker) (m : Option A)
      → (after_call steady_post never_refuses clock day parse cost user_id k p t
          (parsed steady_post never_refuses clock day parse cost user_id m)).result
        ≡ to_called m
  unfolding after_call parsed
  after_call-parsed k p t none = refl
  after_call-parsed k p t (some a) = refl

  retry-refused :
      (k n code : ℕ) (header : Header) (p : Provider) (t : Tracker)
      → reply p ≡ refused code header
      → (retry steady_post never_refuses clock day parse cost user_id k n p t).result ≡ failed
  unfolding retry after_retry read_response
  retry-refused k n code header p t e =
      ap
        (λ a.
          (after_retry steady_post never_refuses clock day parse cost user_id k n a.provider
            a.tracker a.outcome).result)
        (call_provider-steady k p t
          ∙ ap (read_response steady_post never_refuses clock day parse cost user_id k p t) e)

  -- What the calls of one provider give, from its response on.
  after_call-steady :
      (k : ℕ) (p : Provider) (t : Tracker) (o : Response Text)
      → reply p ≡ o
      → is_readable o ≡ true
      → (let first = read_response steady_post never_refuses clock day parse cost user_id k p t o in
          (after_call steady_post never_refuses clock day parse cost user_id k first.provider
            first.tracker first.outcome).result)
        ≡ to_called (value_of parse o)
  unfolding after_call read_response after_rate_limit
  after_call-steady k p t (answered raw) e h =
      after_call-parsed k p (add_call (day k) cost user_id t) (parse raw)
  after_call-steady k p t (refused code missing) e h =
      if-elim (λ (r : Tried A). r.result ≡ failed) (code == 429) _ _
        (λ b. retry-refused (suc k) 60 code missing p t e) (λ b. refl)
  after_call-steady k p t (refused code (number n)) e h =
      if-elim (λ (r : Tried A). r.result ≡ failed) (code == 429) _ _
        (λ b. retry-refused (suc k) n code (number n) p t e) (λ b. refl)
  after_call-steady k p t (refused code unreadable) e h = ground arith
  after_call-steady k p t raised e h = refl

  call_with_retry-steady :
      (k : ℕ) (p : Provider) (t : Tracker)
      → is_readable (reply p) ≡ true
      → (call_with_retry steady_post never_refuses clock day parse cost user_id k p t).result
        ≡ to_called (value_of parse (reply p))
  unfolding call_with_retry
  call_with_retry-steady k p t h =
      ap
        (λ a.
          (after_call steady_post never_refuses clock day parse cost user_id k a.provider a.tracker
            a.outcome).result)
        (call_provider-steady k p t)
      ∙ after_call-steady k p t (reply p) refl h

  go_on-returned :
      (tried : Tried A) (ps : List Provider) (rest : Classified A) (a : A)
      → tried.result ≡ returned a
      → (go_on steady_post never_refuses clock day parse cost user_id tried ps rest).result
        ≡ returned a
  unfolding go_on
  go_on-returned tried ps rest a e = rw (e, go_on) refl

  go_on-failed :
      (tried : Tried A) (ps : List Provider) (rest : Classified A)
      → tried.result ≡ failed
      → (go_on steady_post never_refuses clock day parse cost user_id tried ps rest).result
        ≡ rest.result
  unfolding go_on
  go_on-failed tried ps rest e = rw (e, go_on) refl

-- The loop gives the value of the first provider in the list whose response has one, and fails when
-- none has, where each provider gives the same response to every call, the limiter of Groq never
-- refuses, and `int` reads every header.
pub try_providers-first_value {ℓ} :
    {A : Type ℓ} (reply : Provider → Response Text) (clock day : ℕ → ℕ) (parse : Text → Option A)
    (cost : ℕ) (user_id : Option Text) (k : ℕ) (ps : List Provider) (t : Tracker)
    → ((p : Provider) → is_readable (reply p) ≡ true)
    → (try_providers (λ k p. reply p) (λ k p. true) clock day parse cost user_id k ps t).result
      ≡ to_called (first_value parse reply ps)
unfolding try_providers
try_providers-first_value reply clock day parse cost user_id k [] t h = refl
try_providers-first_value reply clock day parse cost user_id k (p ∷ ps) t h =
    let tried = call_with_retry (λ k p. reply p) (λ k p. true) clock day parse cost user_id k p t in
    let rest =
      try_providers (λ k p. reply p) (λ k p. true) clock day parse cost user_id tried.calls ps
        tried.tracker in
    let e = call_with_retry-steady reply clock day parse cost user_id k p t (h p) in
    elim (Option-cases (value_of parse (reply p))) [
      | inl none_here ↦
          go_on-failed reply clock day parse cost user_id tried ps rest (e ∙ ap to_called none_here)
          ∙ try_providers-first_value reply clock day parse cost user_id tried.calls ps
              tried.tracker h
          ∙ sym (ap (λ v. to_called (or_else v (first_value parse reply ps))) none_here)
      | inr (a, here) ↦
          go_on-returned reply clock day parse cost user_id tried ps rest a (e ∙ ap to_called here)
          ∙ sym (ap (λ v. to_called (or_else v (first_value parse reply ps))) here)
    ]
