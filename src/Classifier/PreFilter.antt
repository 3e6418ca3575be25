-- ===== src/Classifier/PreFilter.antt =====
-- app/classifier/pre_filter.py. A confidence is in hundredths. Parameters: `lower` for `str.lower`;
-- `is_dangerous` for the search of `_REDOS_PATTERNS`; `has_amount`, `has_verb`, `has_network` for the
-- regular expressions; `safe_match` for `_safe_match` of the escaped pattern of a keyword, with none
-- where it raises.
pub mod Decisions
pub mod Patterns
use gexpense_tracker_public.Prelude.{
  ℕ, zero, suc, ◌+◌, ◌-◌, Bool, true, false, ◌&&◌, ◌||◌, not, Option, none, some, List, [], ◌∷◌,
  ◌++◌, ◌==◌, ltb, leb, map, filter, length, if◌then◌else◌, string_eq, String,
}
use gexpense_tracker_public.Prelude.Members.{mem}
use gexpense_tracker_public.Prelude.Text.{Text, codes, text_equality, strip}

pub record FilterRule : Type 0 where
  pub rule_type : Text
  pub value : Text

pub data Decision : Type 0 where
  pass review ambiguous discard : Decision

pub record PreFilterResult : Type 0 where
  pub decision : Decision
  pub confidence : ℕ
  pub tier : ℕ

pub record Engine : Type 0 where
  pub allowlist : List Text
  pub blocklist : List Text
  pub keyword_patterns : List Text

-- `c in "*+?"`
unfoldable pub is_quantifier : ℕ → Bool
is_quantifier c = c == b'*' || c == b'+' || c == b'?'

-- The loop over the characters: the depth, and whether the character before is a quantifier.
unfoldable pub scan_pattern : ℕ → Bool → Text → Bool
unfolding is_quantifier
scan_pattern depth quantified [] = depth == 0
scan_pattern depth quantified (c ∷ t) =
    let deeper = scan_pattern (depth + 1) (is_quantifier c) t in
    let shallower = scan_pattern (depth - 1) (is_quantifier c) t in
    let rest = scan_pattern depth (is_quantifier c) t in
    if c == b'('
    then deeper
    else if c == b')'
    then (if depth == 0 then false else shallower)
    else if is_quantifier c && ltb 0 depth && quantified
    then false
    else rest

-- `_is_safe_pattern`
unfoldable pub is_safe_pattern : (Text → Bool) → Text → Bool
unfolding scan_pattern
is_safe_pattern is_dangerous pattern =
    if ltb 256 (length pattern)
    then false
    else if is_dangerous pattern
    then false
    else scan_pattern 0 false pattern

-- the values of the rules of a type
unfoldable pub values_of : Text → List FilterRule → List Text
values_of rule_type rules =
    map (λ r. r.value) (filter (λ r. text_equality.beq r.rule_type rule_type) rules)

-- `__init__`; `re.compile` takes every escaped text
unfoldable pub new_engine : (Text → Text) → (Text → Bool) → List FilterRule → Engine
unfolding values_of is_safe_pattern
new_engine lower is_dangerous rules = record {
  allowlist = map lower (values_of (codes "allowlist_domain") rules);
  blocklist = map lower (values_of (codes "blocklist_domain") rules);
  keyword_patterns =
      filter (is_safe_pattern is_dangerous) (values_of (codes "keyword_pattern") rules);
}

-- `any(_safe_match(p, text) for p in self._keyword_patterns)`, with none where a match raises
unfoldable pub any_match : (Text → Text → Option Bool) → List Text → Text → Option Bool
any_match safe_match [] text = some false
any_match safe_match (p ∷ patterns) text =
    let rest = any_match safe_match patterns text in
    elim (safe_match p text) [ none ↦ none | some found ↦ if found then some true else rest ]

-- The decision of the second tier.
unfoldable pub by_score : ℕ → PreFilterResult
by_score score =
    if leb 60 score
    then record { decision = pass; confidence = score; tier = 2 }
    else if leb score 25
    then record { decision = review; confidence = score; tier = 2 }
    else record { decision = ambiguous; confidence = score; tier = 2 }

-- The weights that the searches give.
unfoldable pub score_of : Bool → Bool → Bool → Bool → ℕ
score_of amount verb network keyword =
    (if amount then 40 else 0)
    + (if verb then 30 else 0)
    + (if network then 20 else 0)
    + (if keyword then 10 else 0)

module _ (lower : Text → Text) (has_amount has_verb has_network : Text → Bool)
    (safe_match : Text → Text → Option Bool) where
  -- `evaluate_sync`, with none where a match raises
  unfoldable pub evaluate_sync : Engine → Text → Text → Text → Option PreFilterResult
  unfolding mem any_match by_score score_of
  evaluate_sync engine subject snippet sender_domain =
      let domain = lower sender_domain in
      let text = subject ++ (b' ' ∷ snippet) in
      if mem domain engine.allowlist
      then some (record { decision = pass; confidence = 100; tier = 1 })
      else if mem domain engine.blocklist
      then some (record { decision = discard; confidence = 0; tier = 1 })
      else elim (any_match safe_match engine.keyword_patterns text) [
        | none ↦ none
        | some keyword ↦
            some (by_score (score_of (has_amount text) (has_verb text) (has_network text) keyword))
      ]

  -- The third tier: what the client answers, none where there is no client, and none in it where the
  -- call raises.
  unfoldable pub ask : ℕ → Option (Option Text) → PreFilterResult
  unfolding strip
  ask confidence none = record { decision = review; confidence = confidence; tier = 3 }
  ask confidence (some none) = record { decision = review; confidence = confidence; tier = 3 }
  ask confidence (some (some raw)) = record {
    decision = if text_equality.beq (lower (strip raw)) (codes "pass") then pass else review;
    confidence = 50;
    tier = 3;
  }

  -- The second and third tier of `evaluate`, from the result of the first two.
  unfoldable pub resolve : PreFilterResult → Option (Option Text) → PreFilterResult
  unfolding ask
  resolve result reply = elim result.decision [
    | pass ↦ result
    | review ↦ result
    | discard ↦ result
    | ambiguous ↦ ask result.confidence reply
  ]

  -- `evaluate`
  unfoldable pub evaluate :
      Engine → Text → Text → Text → Option (Option Text) → Option PreFilterResult
  unfolding evaluate_sync resolve
  evaluate engine subject snippet sender_domain reply =
      elim (evaluate_sync engine subject snippet sender_domain) [
        | none ↦ none
        | some result ↦ some (resolve result reply)
      ]
