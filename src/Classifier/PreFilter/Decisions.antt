-- ===== src/Classifier/PreFilter/Decisions.antt =====
-- What the filter decides about an email.
use gexpense_tracker_public.Prelude.{
  ℕ, ◌≡◌, refl, arith, Bool, true, false, Option, none, some, ◌∷◌, ◌++◌, leb, if-elim, Option-elim,
}
use gexpense_tracker_public.Prelude.Members.{mem}
use gexpense_tracker_public.Prelude.Text.{Text, codes, text_equality, strip}
use gexpense_tracker_public.Classifier.PreFilter.{
  Decision, pass, review, ambiguous, discard, PreFilterResult, Engine, any_match, by_score,
  score_of, evaluate_sync, ask, resolve, evaluate,
}

abbrev pub is_discard : Decision → Bool
is_discard discard = true
is_discard pass = false
is_discard review = false
is_discard ambiguous = false

abbrev pub is_ambiguous : Decision → Bool
is_ambiguous ambiguous = true
is_ambiguous pass = false
is_ambiguous review = false
is_ambiguous discard = false

-- A result that discards an email of a domain has it blocked and not allowed.
abbrev IsFair : Text → Engine → PreFilterResult → Type 0
IsFair domain engine r =
    is_discard r.decision ≡ true
    → (mem domain engine.blocklist ≡ true) × (mem domain engine.allowlist ≡ false)

abbrev FairOrNone : Text → Engine → Option Bool → Option PreFilterResult → Type 0
FairOrNone domain engine matched none = matched ≡ none
FairOrNone domain engine matched (some r) = IsFair domain engine r

-- The filter has no result where a match of a keyword raises; otherwise the result is not
-- "ambiguous", and "discard" only for a domain on the blocklist and not on the allowlist.
abbrev pub IsDecided : Text → Engine → Option Bool → Option PreFilterResult → Type 0
IsDecided domain engine matched none = matched ≡ none
IsDecided domain engine matched (some r) =
    (is_ambiguous r.decision ≡ false)
    × (is_discard r.decision ≡ true
        → (mem domain engine.blocklist ≡ true) × (mem domain engine.allowlist ≡ false))

by_score-keeps : (score : ℕ) → is_discard (by_score score).decision ≡ false
unfolding by_score
by_score-keeps score =
    if-elim (λ (r : PreFilterResult). is_discard r.decision ≡ false) (leb 60 score) _ _ (λ e. refl)
      (λ e.
        if-elim (λ (r : PreFilterResult). is_discard r.decision ≡ false) (leb score 25) _ _
          (λ f. refl) (λ f. refl))

module _ (lower : Text → Text) (has_amount has_verb has_network : Text → Bool)
    (safe_match : Text → Text → Option Bool) where
  evaluate_sync-FairOrNone :
      (engine : Engine) (subject snippet sender_domain : Text)
      → FairOrNone
          (lower sender_domain)
          engine
          (any_match safe_match engine.keyword_patterns (subject ++ (b' ' ∷ snippet)))
          (evaluate_sync lower has_amount has_verb has_network safe_match engine subject snippet
            sender_domain)
  unfolding evaluate_sync
  evaluate_sync-FairOrNone engine subject snippet sender_domain =
      let domain = lower sender_domain in
      let text = subject ++ (b' ' ∷ snippet) in
      if-elim (FairOrNone domain engine (any_match safe_match engine.keyword_patterns text))
        (mem domain engine.allowlist) _ _ (λ e h. absurd (ground (arith, h)))
        (λ e.
          if-elim (FairOrNone domain engine (any_match safe_match engine.keyword_patterns text))
            (mem domain engine.blocklist) _ _ (λ f h. (f, e))
            (λ f.
              Option-elim
                (FairOrNone domain engine (any_match safe_match engine.keyword_patterns text))
                (any_match safe_match engine.keyword_patterns text) _ _ (λ g. g)
                (λ keyword g h. absurd (
                  ground (
                    arith,
                    h,
                    by_score-keeps
                        (score_of (has_amount text) (has_verb text) (has_network text) keyword),
                  )))))

  -- The third tier neither discards nor leaves the email open.
  ask-decision :
      (confidence : ℕ) (reply : Option (Option Text))
      → (let d = (ask lower has_amount has_verb has_network safe_match confidence reply).decision in
          (is_discard d ≡ false) × (is_ambiguous d ≡ false))
  unfolding ask
  ask-decision confidence none = (refl, refl)
  ask-decision confidence (some none) = (refl, refl)
  ask-decision confidence (some (some raw)) =
      if-elim (λ d. (is_discard d ≡ false) × (is_ambiguous d ≡ false))
        (text_equality.beq (lower (strip raw)) (codes "pass")) _ _ (λ e. (refl, refl))
        (λ e. (refl, refl))

  resolve-IsFair :
      (domain : Text) (engine : Engine) (decision : Decision) (confidence tier : ℕ)
      (reply : Option (Option Text))
      → IsFair domain engine (record { decision = decision; confidence = confidence; tier = tier })
      → (let r =
            resolve lower has_amount has_verb has_network safe_match
              (record { decision = decision; confidence = confidence; tier = tier })
              reply in
          IsFair domain engine r × (is_ambiguous r.decision ≡ false))
  unfolding resolve
  resolve-IsFair domain engine pass confidence tier reply h = (h, refl)
  resolve-IsFair domain engine review confidence tier reply h = (h, refl)
  resolve-IsFair domain engine discard confidence tier reply h = (h, refl)
  resolve-IsFair domain engine ambiguous confidence tier reply h =
      let asked = ask-decision confidence reply in
      ((λ d. absurd (ground (arith, d, asked.0))), asked.1)

  evaluated :
      (domain : Text) (engine : Engine) (matched : Option Bool) (o : Option PreFilterResult)
      (reply : Option (Option Text))
      → FairOrNone domain engine matched o
      → IsDecided domain engine matched (elim o [
        | none ↦ none
        | some result ↦ some (resolve lower has_amount has_verb has_network safe_match result reply)
      ])
  evaluated domain engine matched none reply h = h
  evaluated domain engine matched (some result) reply h =
      let both =
        resolve-IsFair domain engine result.decision result.confidence result.tier reply h in
      (both.1, both.0)

-- The filter decides every email, except where a match of a keyword raises: its result is not
-- "ambiguous", and it is "discard" only for a domain on the blocklist and not on the allowlist.
pub evaluate-IsDecided :
    (lower : Text → Text) (has_amount has_verb has_network : Text → Bool)
    (safe_match : Text → Text → Option Bool) (engine : Engine)
    (subject snippet sender_domain : Text) (reply : Option (Option Text))
    → IsDecided
        (lower sender_domain)
        engine
        (any_match safe_match engine.keyword_patterns (subject ++ (b' ' ∷ snippet)))
        (evaluate lower has_amount has_verb has_network safe_match engine subject snippet
          sender_domain reply)
unfolding evaluate
evaluate-IsDecided lower has_amount has_verb has_network safe_match engine subject snippet
      sender_domain reply =
    evaluated lower has_amount has_verb has_network safe_match (lower sender_domain) engine _
      (evaluate_sync lower has_amount has_verb has_network safe_match engine subject snippet
        sender_domain)
      reply
      (evaluate_sync-FairOrNone lower has_amount has_verb has_network safe_match engine subject
        snippet sender_domain)
