-- ===== src/Classifier/Rules/Learned/Senders.antt =====
-- The rules of the senders come before the learned ones, and a learned one has its transactions.
use mathlib.Core.Path.{subst}
use mathlib.Core.Option.{some-injective}
use gexpense_tracker_public.Prelude.{
  ℕ, ◌⊎◌, ◌≡◌, refl, ap, sym, ◌∙◌, ◌≤◌, ◌*◌, arith, Bool, true, false, ◌&&◌, Option, none, some,
  List, [], ◌∷◌, ltb, leb, if◌then◌else◌, if-elim, inl, inr, pair_eq, Bool-cases,
}
use gexpense_tracker_public.Prelude.Text.{Text, text_equality, strip}
use gexpense_tracker_public.Prelude.Dict.{Dict, get, put, get-put}
use gexpense_tracker_public.Dedup.{Label}
use gexpense_tracker_public.Classifier.Rules.{DomainRule}
use gexpense_tracker_public.Classifier.Rules.Learned.{
  SenderRule, DomainCount, Tally, tally_rows, best_of, tally_total, rule_from, learn_rules,
  label_named, put_senders, build_domain_rules,
}

-- The rule of the last row about a domain that has a label, or another rule.
abbrev pub last_sender_rule :
    (Text → Text) → Text → List SenderRule → Option DomainRule → Option DomainRule
last_sender_rule lower domain [] other = other
last_sender_rule lower domain (sr ∷ rows) other =
    last_sender_rule lower domain rows (elim (label_named sr.label) [
      | none ↦ other
      | some label ↦
          if text_equality.beq (strip (lower sr.sender_domain)) domain
          then some (label, sr.category)
          else other
    ])

placed :
    (domain sender : Text) (label : Option Label) (category : Option Text)
    (result : Dict Text DomainRule)
    → get domain (elim label [ none ↦ result | some l ↦ put sender (l, category) result ])
      ≡ elim label [
        | none ↦ get domain result
        | some l ↦ if text_equality.beq sender domain then some (l, category) else get domain result
      ]
placed domain sender none category result = refl
placed domain sender (some l) category result = get-put sender domain (l, category) result

get-put_senders :
    (lower : Text → Text) (domain : Text) (rows : List SenderRule) (result : Dict Text DomainRule)
    → get domain (put_senders lower rows result)
      ≡ last_sender_rule lower domain rows (get domain result)
unfolding put_senders
get-put_senders lower domain [] result = refl
get-put_senders lower domain (sr ∷ rows) result =
    get-put_senders lower domain rows _
    ∙ ap (last_sender_rule lower domain rows)
        (placed domain (strip (lower sr.sender_domain)) (label_named sr.label) sr.category result)

-- An entry is in the dict.
abbrev pub IsIn : DomainRule × ℕ → Tally → Type 0
IsIn e [] = ⊥
IsIn e (f ∷ tally) = (e ≡ f) ⊎ IsIn e tally

-- At least so many transactions, and four fifths of a domain's, have the label and the category.
abbrev pub IsMajority : ℕ → Tally → DomainRule → Type 0
IsMajority min_count tally rule =
    (c : ℕ) × IsIn (rule, c) tally × (min_count ≤ c) × (4 * tally_total tally ≤ 5 * c)

best_of-IsIn :
    (best : DomainRule × ℕ) (tally : Tally)
    → (best_of best tally ≡ best) ⊎ IsIn (best_of best tally) tally
unfolding best_of
best_of-IsIn best [] = inl refl
best_of-IsIn best ((k, c) ∷ tally) =
    if-elim
      (λ b. (best_of b tally ≡ best) ⊎ ((best_of b tally ≡ (k, c)) ⊎ IsIn (best_of b tally) tally))
      (ltb best.1 c) _ _ (λ e. inr (best_of-IsIn (k, c) tally))
      (λ e. elim (best_of-IsIn best tally) [ inl same ↦ inl same | inr there ↦ inr (inr there) ])

if_true : {b : Bool} → b ≡ true → (x y : Option DomainRule) → (if b then x else y) ≡ x
if_true e x y = rw e refl

if_false : {b : Bool} → b ≡ false → (x y : Option DomainRule) → (if b then x else y) ≡ y
if_false e x y = rw e refl

rule_from-IsMajority :
    (min_count : ℕ) (tally : Tally) (rule : DomainRule)
    → rule_from min_count tally ≡ some rule
    → IsMajority min_count tally rule
unfolding rule_from
rule_from-IsMajority min_count [] rule h = ground arith
rule_from-IsMajority min_count ((k, c) ∷ tally) rule h =
    let best = best_of (k, c) tally in
    elim (Bool-cases
      (leb min_count best.1 && leb (4 * tally_total ((k, c) ∷ tally)) (5 * best.1))) [
        | inl enough ↦
            let own : best.0 ≡ rule =
              some-injective _ _ (sym (if_true enough (some best.0) none) ∙ h) in
            subst (IsMajority min_count ((k, c) ∷ tally)) own
              (best.1, best_of-IsIn (k, c) tally, ground (arith, enough), ground (arith, enough))
        | inr few ↦ absurd (ground (arith, sym (if_false few (some best.0) none) ∙ h))
      ]

-- Some entry of the tallies is the domain's and has the majority.
abbrev pub HasMajority : ℕ → Text → DomainRule → Dict Text Tally → Type 0
HasMajority min_count domain rule [] = ⊥
HasMajority min_count domain rule ((d, tally) ∷ tallies) =
    ((d ≡ domain) × IsMajority min_count tally rule) ⊎ HasMajority min_count domain rule tallies

learned :
    (min_count : ℕ) (d domain : Text) (tally : Tally) (found : Option DomainRule)
    (result : Dict Text DomainRule) (rule : DomainRule)
    → rule_from min_count tally ≡ found
    → get domain (elim found [ none ↦ result | some r ↦ put d r result ]) ≡ some rule
    → ((d ≡ domain) × IsMajority min_count tally rule) ⊎ (get domain result ≡ some rule)
learned min_count d domain tally none result rule e h = inr h
learned min_count d domain tally (some r) result rule e h =
    elim (Bool-cases (text_equality.beq d domain)) [
      | inl same ↦ inl (
        (text_equality.beq_iff d domain).0 same,
        rule_from-IsMajority min_count tally rule (
            e
            ∙ sym (if_true same (some r) (get domain result))
            ∙ sym (get-put d domain r result)
            ∙ h),
      )
      | inr other ↦
          inr (
            sym (if_false other (some r) (get domain result)) ∙ sym (get-put d domain r result) ∙ h)
    ]

get-nothing : (domain : Text) (rule : DomainRule) → get domain [] ≡ some rule → ⊥
unfolding get
get-nothing domain rule h = ground (arith, h)

learn_rules-HasMajority :
    (min_count : ℕ) (tallies : Dict Text Tally) (result : Dict Text DomainRule) (domain : Text)
    (rule : DomainRule)
    → get domain (learn_rules min_count tallies result) ≡ some rule
    → HasMajority min_count domain rule tallies ⊎ (get domain result ≡ some rule)
unfolding learn_rules
learn_rules-HasMajority min_count [] result domain rule h = inr h
learn_rules-HasMajority min_count ((d, tally) ∷ tallies) result domain rule h =
    elim (learn_rules-HasMajority min_count tallies _ domain rule h) [
      | inl later ↦ inl (inr later)
      | inr here ↦
          elim (learned min_count d domain tally (rule_from min_count tally) result rule refl
            here) [ inl own ↦ inl (inl own) | inr before ↦ inr before ]
    ]

-- The rule of a domain is that of the last sender's row about the domain that has a label. Without
-- one it is the rule that is learned, and that is one only where a tally of the domain's transactions
-- has, with the rule's label and category, at least as many as asked for and four fifths of all.
pub build_domain_rules_lem :
    (lower : Text → Text) (min_count : ℕ) (rows : List DomainCount) (sender_rules : List SenderRule)
    (domain : Text)
    → (let learned_rule = get domain (learn_rules min_count (tally_rows lower rows []) []) in
        (get domain (build_domain_rules lower min_count rows sender_rules)
          ≡ last_sender_rule lower domain sender_rules learned_rule)
        × ((rule : DomainRule)
            → learned_rule ≡ some rule
            → HasMajority min_count domain rule (tally_rows lower rows [])))
unfolding build_domain_rules
build_domain_rules_lem lower min_count rows sender_rules domain = (
  get-put_senders lower domain sender_rules (learn_rules min_count (tally_rows lower rows []) []),
  λ rule h. elim (learn_rules-HasMajority min_count (tally_rows lower rows []) [] domain rule h) [
    | inl majority ↦ majority
    | inr nothing ↦ absurd (get-nothing domain rule nothing)
  ],
)
