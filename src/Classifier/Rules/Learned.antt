-- ===== src/Classifier/Rules/Learned.antt =====
-- `build_domain_rules` of app/classifier/rules.py: the rules learned from transactions, from the rows
-- that its query groups and counts, and the rules of the senders over them.
pub mod Senders
use gexpense_tracker_public.Prelude.{
  ℕ, ◌+◌, ◌*◌, Bool, true, false, ◌&&◌, Option, none, some, List, [], ◌∷◌, ltb, leb, if◌then◌else◌,
  pair_eq, Eq, ◌↔◌, refl, ap, ◌≡◌, arith,
}
use gexpense_tracker_public.Prelude.Text.{Text, codes, text_equality, strip}
use gexpense_tracker_public.Prelude.Dict.{Dict, get, get_or, put}
use gexpense_tracker_public.Dedup.{Label, expense, income, ignore, self_transfer}
use gexpense_tracker_public.Classifier.Rules.{DomainRule, same_label}
use gexpense_tracker_public.Classifier.Rules.Priority.{same_label-eq, same_label_refl}

-- A row of the query: how many transactions from the domain have the label and the category.
pub record DomainCount : Type 0 where
  pub sender_domain : Text
  pub label : Label
  pub category : Option Text
  pub cnt : ℕ

-- The columns of a `SenderRule` that are read; the label is a text.
pub record SenderRule : Type 0 where
  pub sender_domain : Text
  pub label : Text
  pub category : Option Text

abbrev pub same_category : Option Text → Option Text → Bool
same_category none none = true
same_category none (some d) = false
same_category (some c) none = false
same_category (some c) (some d) = text_equality.beq c d

pub same_category_iff : (a b : Option Text) → (same_category a b ≡ true) ↔ (a ≡ b)
same_category_iff none none = ground arith
same_category_iff none (some d) = ground arith
same_category_iff (some c) none = ground arith
same_category_iff (some c) (some d) = ground (arith, text_equality.beq_iff c d)

pub same_label_iff : (a b : Label) → (same_label a b ≡ true) ↔ (a ≡ b)
same_label_iff a b = (same_label-eq a b, λ e. rw e (same_label_refl b))

instance abbrev pub label_equality : Eq Label
label_equality = record { beq = same_label; beq_iff = same_label_iff }

instance abbrev pub category_equality : Eq (Option Text)
category_equality = record { beq = same_category; beq_iff = same_category_iff }

abbrev pub Tally : Type 0
Tally = Dict DomainRule ℕ

-- One round of the loop over the rows.
unfoldable pub count_row : (Text → Text) → DomainCount → Dict Text Tally → Dict Text Tally
unfolding get_or put
count_row lower row domain_tally =
    let domain = lower row.sender_domain in
    let tally = get_or domain domain_tally [] in
    put domain
      (put (row.label, row.category) (get_or (row.label, row.category) tally 0 + row.cnt) tally)
      domain_tally

unfoldable pub tally_rows : (Text → Text) → List DomainCount → Dict Text Tally → Dict Text Tally
unfolding count_row
tally_rows lower [] domain_tally = domain_tally
tally_rows lower (row ∷ rows) domain_tally =
    tally_rows lower rows (count_row lower row domain_tally)

-- `max(tally.items(), key=...)`: the first of the greatest, from the one before
unfoldable pub best_of : DomainRule × ℕ → Tally → DomainRule × ℕ
best_of best [] = best
best_of best ((k, c) ∷ tally) = best_of (if ltb best.1 c then (k, c) else best) tally

-- `sum(tally.values())`
unfoldable pub tally_total : Tally → ℕ
tally_total [] = 0
tally_total ((k, c) ∷ tally) = c + tally_total tally

-- The rule that a tally gives: of the label and category that at least `min_count` transactions and
-- four fifths of them have.
unfoldable pub rule_from : ℕ → Tally → Option DomainRule
unfolding best_of tally_total
rule_from min_count [] = none
rule_from min_count ((k, c) ∷ tally) =
    let best = best_of (k, c) tally in
    if leb min_count best.1 && leb (4 * tally_total ((k, c) ∷ tally)) (5 * best.1)
    then some best.0
    else none

unfoldable pub learn_rules : ℕ → Dict Text Tally → Dict Text DomainRule → Dict Text DomainRule
unfolding rule_from put
learn_rules min_count [] result = result
learn_rules min_count ((domain, tally) ∷ domain_tally) result =
    learn_rules min_count domain_tally
      (elim (rule_from min_count tally) [ none ↦ result | some rule ↦ put domain rule result ])

-- `Label(...)`, with none where it raises
unfoldable pub label_named : Text → Option Label
label_named t =
    if text_equality.beq t (codes "expense")
    then some expense
    else if text_equality.beq t (codes "income")
    then some income
    else if text_equality.beq t (codes "ignore")
    then some ignore
    else if text_equality.beq t (codes "self_transfer")
    then some self_transfer
    else none

-- The loop over the rules of the senders; an empty label is no label either.
unfoldable pub put_senders :
    (Text → Text) → List SenderRule → Dict Text DomainRule → Dict Text DomainRule
unfolding put label_named strip
put_senders lower [] result = result
put_senders lower (sr ∷ sender_rules) result =
    put_senders lower sender_rules (elim (label_named sr.label) [
      | none ↦ result
      | some label ↦ put (strip (lower sr.sender_domain)) (label, sr.category) result
    ])

-- `build_domain_rules`
unfoldable pub build_domain_rules :
    (Text → Text) → ℕ → List DomainCount → List SenderRule → Dict Text DomainRule
unfolding tally_rows learn_rules put_senders
build_domain_rules lower min_count rows sender_rules =
    put_senders lower sender_rules (learn_rules min_count (tally_rows lower rows []) [])
