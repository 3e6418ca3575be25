-- ===== src/Classifier/Rules.antt =====
-- `apply_rules` of app/classifier/rules.py. A confidence is in hundredths. `str.lower` and the three
-- searches of regular expressions are the parameters `lower`, `has_amount_in`, `has_verb_in` and
-- `is_card_payment`.
pub mod Learned
pub mod Priority
use gexpense_tracker_public.Prelude.{
  ℕ, ◌+◌, ◌*◌, min, Bool, true, false, ◌&&◌, ◌||◌, not, Option, none, some, List, [], ◌∷◌, ◌++◌,
  map, any, filter, length, ltb, is_some, if◌then◌else◌,
}
use gexpense_tracker_public.Prelude.Text.{Text, codes, text_equality, strip, in_text}
use gexpense_tracker_public.Prelude.Dict.{Dict, get}
use gexpense_tracker_public.Dedup.{Label, expense, income, ignore, self_transfer}

pub record RuleResult : Type 0 where
  pub label : Option Label
  pub confidence : ℕ
  pub category : Option Text
  pub matched_domain : Bool
  pub merchant : Option Text

-- A rule of a domain: the label and the category.
abbrev pub DomainRule : Type 0
DomainRule = Label × Option Text

abbrev pub builtin_domain_rules : Dict Text DomainRule
builtin_domain_rules =
    (codes "zomato.com", (expense, some (codes "Food")))
    ∷ (codes "swiggy.in", (expense, some (codes "Food")))
    ∷ (codes "amazon.in", (expense, some (codes "Shopping")))
    ∷ (codes "uber.com", (expense, some (codes "Travel")))
    ∷ []

abbrev pub domain_merchant : Dict Text Text
domain_merchant =
    (codes "zomato.com", codes "Zomato")
    ∷ (codes "swiggy.in", codes "Swiggy")
    ∷ (codes "amazon.in", codes "Amazon")
    ∷ (codes "uber.com", codes "Uber")
    ∷ (codes "bigbasket.com", codes "BigBasket")
    ∷ (codes "netflix.com", codes "Netflix")
    ∷ []

abbrev pub expense_keywords : List Text
expense_keywords = map codes (
    "debited" ∷ "debit" ∷ "paid" ∷ "payment receipt" ∷ "charged" ∷ "purchase" ∷ "invoice" ∷ "bill"
    ∷ "order confirmed" ∷ [])

abbrev pub income_keywords : List Text
income_keywords =
    map codes ("credited" ∷ "credit" ∷ "salary" ∷ "refund" ∷ "cashback" ∷ "received" ∷ [])

abbrev pub delivery_signals : List Text
delivery_signals = map codes (
    "delivered" ∷ "out for delivery" ∷ "out-for-delivery" ∷ "shipment delivered"
    ∷ "package delivered" ∷ "item delivered" ∷ [])

abbrev pub order_signals : List Text
order_signals = map codes (
    "order confirmed" ∷ "order confirmation" ∷ "order placed" ∷ "order receipt"
    ∷ "thanks for your order" ∷ "thank you for your order" ∷ "order received" ∷ [])

abbrev pub ignore_keywords : List Text
ignore_keywords =
    map codes ("unsubscribe" ∷ "newsletter" ∷ "promotional" ∷ "offer" ∷ "click here" ∷ [])

unfoldable pub hits : List Text → Text → ℕ
unfolding in_text
hits keywords text = length (filter (λ keyword. in_text keyword text) keywords)

unfoldable pub has_any : List Text → Text → Bool
unfolding in_text
has_any signals text = any (λ sig. in_text sig text) signals

-- A rule, and whether it is one of the database.
unfoldable pub db_or_builtin : Option DomainRule → Option DomainRule → Option (DomainRule × Bool)
db_or_builtin (some rule) builtin = some (rule, true)
db_or_builtin none (some rule) = some (rule, false)
db_or_builtin none none = none

-- The rule of the domain.
unfoldable pub rule_of : Dict Text DomainRule → Text → Option (DomainRule × Bool)
unfolding get db_or_builtin
rule_of db_rules domain = db_or_builtin (get domain db_rules) (get domain builtin_domain_rules)

unfoldable pub same_label : Label → Label → Bool
same_label expense expense = true
same_label income income = true
same_label ignore ignore = true
same_label self_transfer self_transfer = true
same_label expense income = false
same_label expense ignore = false
same_label expense self_transfer = false
same_label income expense = false
same_label income ignore = false
same_label income self_transfer = false
same_label ignore expense = false
same_label ignore income = false
same_label ignore self_transfer = false
same_label self_transfer expense = false
same_label self_transfer income = false
same_label self_transfer ignore = false

unfoldable pub rule_confidence : Bool → ℕ
rule_confidence from_db = if from_db then 98 else 92

-- The confidence in a label: that of a rule with the label, or the one given.
unfoldable pub confidence_in : Label → Option (DomainRule × Bool) → ℕ → ℕ
unfolding same_label rule_confidence
confidence_in label none other = other
confidence_in label (some (rule, from_db)) other =
    if same_label rule.0 label then rule_confidence from_db else other

unfoldable pub category_of_rule : Option (DomainRule × Bool) → Option Text
category_of_rule none = none
category_of_rule (some (rule, from_db)) = rule.1

-- `_DOMAIN_MERCHANT.get(domain) if matched_domain else None`
unfoldable pub merchant_of : Text → Option (DomainRule × Bool) → Option Text
unfolding get
merchant_of domain none = none
merchant_of domain (some rule) = get domain domain_merchant

-- `domain_category or "Income"`
unfoldable pub or_income : Option Text → Option Text
or_income none = some (codes "Income")
or_income (some []) = some (codes "Income")
or_income (some (c ∷ t)) = some (c ∷ t)

-- The text is about money: a credit, a debit, or neither.
unfoldable pub financial : Text → Option (DomainRule × Bool) → ℕ → ℕ → RuleResult
unfolding confidence_in category_of_rule merchant_of or_income
financial domain rule income_hits expense_hits =
    if ltb expense_hits income_hits
    then record {
      label = some income;
      confidence = confidence_in income rule (min (62 + income_hits * 12) 90);
      category = or_income (category_of_rule rule);
      matched_domain = is_some rule;
      merchant = merchant_of domain rule;
    }
    else if ltb 0 expense_hits
    then record {
      label = some expense;
      confidence = confidence_in expense rule 88;
      category = category_of_rule rule;
      matched_domain = is_some rule;
      merchant = merchant_of domain rule;
    }
    else record {
      label = none;
      confidence = 0;
      category = none;
      matched_domain = false;
      merchant = none;
    }

-- `RuleResult(label=..., confidence=...)`, with a category
unfoldable pub without_domain : Option Label → Option Text → ℕ → RuleResult
without_domain label category confidence = record {
  label = label;
  confidence = confidence;
  category = category;
  matched_domain = false;
  merchant = none;
}

-- The text is not about money: the rule of the domain, or the keywords.
unfoldable pub not_financial : Text → Text → Option (DomainRule × Bool) → ℕ → ℕ → RuleResult
unfolding has_any rule_confidence merchant_of without_domain
not_financial text domain (some (rule, from_db)) income_hits expense_hits = record {
  label = some rule.0;
  confidence = rule_confidence from_db;
  category = rule.1;
  matched_domain = true;
  merchant = merchant_of domain (some (rule, from_db));
}
not_financial text domain none income_hits expense_hits =
    if has_any ignore_keywords text
    then without_domain (some ignore) none 82
    else if ltb expense_hits income_hits
    then without_domain (some income) (some (codes "Income")) (min (62 + income_hits * 12) 90)
    else if ltb 0 expense_hits
    then without_domain (some expense) none (min (62 + expense_hits * 10) 88)
    else without_domain none none 0

module _ (lower : Text → Text) (has_amount_in has_verb_in is_card_payment : Text → Bool) where
  -- `apply_rules` after the lowering of its texts
  unfoldable pub apply_lowered : Text → Text → Text → Dict Text DomainRule → RuleResult
  unfolding has_any hits rule_of financial not_financial without_domain
  apply_lowered domain subject_lower text db_rules =
      let income_hits = hits income_keywords text in
      let expense_hits = hits expense_keywords text in
      let rule = rule_of db_rules domain in
      if has_any delivery_signals text && not (has_any order_signals subject_lower)
      then without_domain (some ignore) none 85
      else if is_card_payment text
      then without_domain (some ignore) (some (codes "CC Payment")) 95
      else if has_amount_in text || (has_verb_in text && (ltb 0 income_hits || ltb 0 expense_hits))
      then financial domain rule income_hits expense_hits
      else not_financial text domain rule income_hits expense_hits

  -- `apply_rules`; a subject, a body or a domain of `None` is the empty text, and no rules are none
  unfoldable pub apply_rules : Text → Text → Text → Dict Text DomainRule → RuleResult
  unfolding strip apply_lowered
  apply_rules sender_domain subject body db_rules =
      apply_lowered (lower (strip sender_domain)) (lower subject) (lower (subject ++ (b' ' ∷ body)))
        db_rules
