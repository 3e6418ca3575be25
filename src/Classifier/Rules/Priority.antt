-- ===== src/Classifier/Rules/Priority.antt =====
-- How sure the rules are: the confidences, and which of them only a rule of the database gives.
use mathlib.Core.Option.{some-injective}
use gexpense_tracker_public.Prelude.{
  ℕ, ◌≡◌, refl, ap, ◌+◌, ◌*◌, ◌≤◌, ◌<◌, arith, min, Bool, true, false, ◌&&◌, ◌||◌, not, Option,
  none, some, ◌∷◌, ◌++◌, ltb, is_some, if-elim,
}
use gexpense_tracker_public.Prelude.Text.{Text, codes, text_equality, strip}
use gexpense_tracker_public.Prelude.Dict.{Dict, get}
use gexpense_tracker_public.Classifier.Merchants.Tables.{map_option}
use gexpense_tracker_public.Dedup.{Label, expense, income, ignore, self_transfer}
use gexpense_tracker_public.Classifier.Rules.{
  RuleResult, DomainRule, db_or_builtin, builtin_domain_rules, rule_of, same_label, rule_confidence,
  confidence_in, financial, not_financial, without_domain, has_any, hits, ignore_keywords,
  delivery_signals, order_signals, income_keywords, expense_keywords, apply_lowered, apply_rules,
}

-- A confidence is at most 98, a full one has a rule of the database that gives the label, and a
-- result has a label exactly when its confidence is not 0.
abbrev pub IsGraded : Option DomainRule → RuleResult → Type 0
IsGraded rule r =
    (r.confidence ≤ 98)
    × (r.confidence ≡ 98
        → (category : Option Text) × (label : Label) × (rule ≡ some (label, category))
          × (r.label ≡ some label))
    × (0 < r.confidence → is_some r.label ≡ true)
    × (is_some r.label ≡ true → 0 < r.confidence)

pub same_label-eq : (a b : Label) → same_label a b ≡ true → a ≡ b
unfolding same_label
same_label-eq expense expense h = refl
same_label-eq income income h = refl
same_label-eq ignore ignore h = refl
same_label-eq self_transfer self_transfer h = refl
same_label-eq expense income h = ground arith
same_label-eq expense ignore h = ground arith
same_label-eq expense self_transfer h = ground arith
same_label-eq income expense h = ground arith
same_label-eq income ignore h = ground arith
same_label-eq income self_transfer h = ground arith
same_label-eq ignore expense h = ground arith
same_label-eq ignore income h = ground arith
same_label-eq ignore self_transfer h = ground arith
same_label-eq self_transfer expense h = ground arith
same_label-eq self_transfer income h = ground arith
same_label-eq self_transfer ignore h = ground arith

-- The confidence in a label.
abbrev IsSure : Label → Option (DomainRule × Bool) → ℕ → Type 0
IsSure label rule c =
    (c ≤ 98)
    × (0 < c)
    × (c ≡ 98 → (category : Option Text) × (rule ≡ some ((label, category), true)))

confidence_in-IsSure :
    (label : Label) (rule : Option (DomainRule × Bool)) (other : ℕ)
    → 0 < other
    → other < 98
    → IsSure label rule (confidence_in label rule other)
unfolding confidence_in rule_confidence
confidence_in-IsSure label none other a b = (omega arith, a, λ e. absurd (omega arith))
confidence_in-IsSure label (some ((l, category), true)) other a b =
    if-elim (IsSure label (some ((l, category), true))) (same_label l label) _ _
      (λ e. (
        omega arith,
        omega arith,
        λ f. (category, ap (λ k. some ((k, category), true)) (same_label-eq l label e)),
      ))
      (λ e. (omega arith, a, λ f. absurd (omega arith)))
confidence_in-IsSure label (some ((l, category), false)) other a b =
    if-elim (IsSure label (some ((l, category), false))) (same_label l label) _ _
      (λ e. (omega arith, omega arith, λ f. absurd (ground (arith, f))))
      (λ e. (omega arith, a, λ f. absurd (omega arith)))

-- The rule comes from the database where it says so.
abbrev IsFrom : Option DomainRule → Option (DomainRule × Bool) → Type 0
IsFrom in_db rule = (r : DomainRule) → rule ≡ some (r, true) → in_db ≡ some r

db_or_builtin-IsFrom :
    (in_db builtin : Option DomainRule) → IsFrom in_db (db_or_builtin in_db builtin)
unfolding db_or_builtin
db_or_builtin-IsFrom (some rule) builtin r h = ap (map_option (λ (p : DomainRule × Bool). p.0)) h
db_or_builtin-IsFrom none (some rule) r h =
    absurd (ground (arith, some-injective _ _ (ap (map_option (λ (p : DomainRule × Bool). p.1)) h)))
db_or_builtin-IsFrom none none r h = ground arith

rule_of-IsFrom :
    (db_rules : Dict Text DomainRule) (domain : Text)
    → IsFrom (get domain db_rules) (rule_of db_rules domain)
unfolding rule_of
rule_of-IsFrom db_rules domain =
    db_or_builtin-IsFrom (get domain db_rules) (get domain builtin_domain_rules)

financial-IsGraded :
    (in_db : Option DomainRule) (domain : Text) (rule : Option (DomainRule × Bool)) (i e : ℕ)
    → IsFrom in_db rule
    → IsGraded in_db (financial domain rule i e)
unfolding financial
financial-IsGraded in_db domain rule i e from =
    let sure_income =
      confidence_in-IsSure income rule (min (62 + i * 12) 90) (omega arith) (omega arith) in
    let sure_expense = confidence_in-IsSure expense rule 88 (omega arith) (omega arith) in
    if-elim (IsGraded in_db) (ltb e i) _ _
      (λ b. (
        sure_income.0,
        (λ f. ((sure_income.2 f).0, income, from _ (sure_income.2 f).1, refl)),
        (λ z. refl),
        (λ z. sure_income.1),
      ))
      (λ b.
        if-elim (IsGraded in_db) (ltb 0 e) _ _
          (λ c. (
            sure_expense.0,
            (λ f. ((sure_expense.2 f).0, expense, from _ (sure_expense.2 f).1, refl)),
            (λ z. refl),
            (λ z. sure_expense.1),
          ))
          (λ c. (
            omega arith,
            (λ f. absurd (omega (arith, f))),
            (λ z. absurd (omega (arith, z))),
            (λ z. absurd (ground (arith, z))),
          )))

without_domain-IsGraded :
    (in_db : Option DomainRule) (label : Label) (category : Option Text) (c : ℕ)
    → 0 < c
    → c < 98
    → IsGraded in_db (without_domain (some label) category c)
unfolding without_domain
without_domain-IsGraded in_db label category c a b =
    (omega arith, (λ f. absurd (omega (arith, f))), (λ z. refl), (λ z. a))

without_label-IsGraded : (in_db : Option DomainRule) → IsGraded in_db (without_domain none none 0)
unfolding without_domain
without_label-IsGraded in_db = (
  omega arith,
  (λ f. absurd (omega (arith, f))),
  (λ z. absurd (omega (arith, z))),
  (λ z. absurd (ground (arith, z))),
)

not_financial-IsGraded :
    (in_db : Option DomainRule) (text domain : Text) (rule : Option (DomainRule × Bool)) (i e : ℕ)
    → IsFrom in_db rule
    → IsGraded in_db (not_financial text domain rule i e)
unfolding not_financial rule_confidence
not_financial-IsGraded in_db text domain (some ((l, category), true)) i e from = (
  omega arith,
  (λ f. (category, l, from (l, category) refl, refl)),
  (λ z. refl),
  (λ z. omega arith),
)
not_financial-IsGraded in_db text domain (some ((l, category), false)) i e from =
    (omega arith, (λ f. absurd (omega (arith, f))), (λ z. refl), (λ z. omega arith))
not_financial-IsGraded in_db text domain none i e from =
    if-elim (IsGraded in_db) (has_any ignore_keywords text) _ _
      (λ a. without_domain-IsGraded in_db ignore none 82 (omega arith) (omega arith))
      (λ a.
        if-elim (IsGraded in_db) (ltb e i) _ _
          (λ b.
            without_domain-IsGraded in_db income (some (codes "Income")) (min (62 + i * 12) 90)
              (omega arith) (omega arith))
          (λ b.
            if-elim (IsGraded in_db) (ltb 0 e) _ _
              (λ c.
                without_domain-IsGraded in_db expense none (min (62 + e * 10) 88) (omega arith)
                  (omega arith))
              (λ c. without_label-IsGraded in_db)))

-- The confidence of the rules is at most 98 hundredths; it is 98 only where the rules of the database
-- have one for the domain with the label of the result; and there is a label exactly when the
-- confidence is above 0.
pub apply_rules-IsGraded :
    (lower : Text → Text) (has_amount_in has_verb_in is_card_payment : Text → Bool)
    (sender_domain subject body : Text) (db_rules : Dict Text DomainRule)
    → IsGraded (get (lower (strip sender_domain)) db_rules) (
        apply_rules lower has_amount_in has_verb_in is_card_payment sender_domain subject body
          db_rules)
unfolding apply_rules apply_lowered
apply_rules-IsGraded lower has_amount_in has_verb_in is_card_payment sender_domain subject body
      db_rules =
    let domain = lower (strip sender_domain) in
    let text = lower (subject ++ (b' ' ∷ body)) in
    let in_db = get domain db_rules in
    let rule = rule_of db_rules domain in
    let from = rule_of-IsFrom db_rules domain in
    let i = hits income_keywords text in
    let e = hits expense_keywords text in
    if-elim (IsGraded in_db)
      (has_any delivery_signals text && not (has_any order_signals (lower subject))) _ _
      (λ a. without_domain-IsGraded in_db ignore none 85 (omega arith) (omega arith))
      (λ a.
        if-elim (IsGraded in_db) (is_card_payment text) _ _
          (λ b.
            without_domain-IsGraded in_db ignore (some (codes "CC Payment")) 95 (omega arith)
              (omega arith))
          (λ b.
            if-elim (IsGraded in_db)
              (has_amount_in text || (has_verb_in text && (ltb 0 i || ltb 0 e))) _ _
              (λ c. financial-IsGraded in_db domain rule i e from)
              (λ c. not_financial-IsGraded in_db text domain rule i e from)))

pub same_label_refl : (a : Label) → same_label a a ≡ true
unfolding same_label
same_label_refl expense = refl
same_label_refl income = refl
same_label_refl ignore = refl
same_label_refl self_transfer = refl
