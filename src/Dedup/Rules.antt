-- ===== src/Dedup/Rules.antt =====
-- The learned rules on pairs of domains in app/dedup/service.py: how `batch_detect_duplicates` and
-- `detect_and_record_duplicates` load them, how `_score_pair_with_rules` looks one up, and how
-- `resolve_duplicate` learns from a resolution.
pub mod Learned
use gexpense_tracker_public.Prelude.{
  ℕ, ◌+◌, ◌*◌, Bool, true, false, ◌&&◌, ◌||◌, not, Option, none, some, List, [], ◌∷◌, ◌++◌, ◌==◌,
  ltb, leb, suc, zero, if◌then◌else◌, length, filter, both, pair_eq, Eq,
}
use gexpense_tracker_public.Prelude.Int.{ℤ}
use gexpense_tracker_public.Prelude.Dict.{Dict, get, put}
use gexpense_tracker_public.Prelude.Text.{Text, text_equality}
use gexpense_tracker_public.Dedup.{Ratio, Transaction, Email, DomainPairRule}
use gexpense_tracker_public.Dedup.Score.{Score, no_score, compute_score, get_effective_date}

-- `s <= t` on texts
unfoldable pub text_leb : Text → Text → Bool
text_leb [] t = true
text_leb (c ∷ s) [] = false
text_leb (c ∷ s) (d ∷ t) = if ltb c d then true else (if c == d then text_leb s t else false)

-- `_sorted_domains`
unfoldable pub sorted_domains : Text → Text → Text × Text
unfolding text_leb
sorted_domains d1 d2 = if text_leb d1 d2 then (d1, d2) else (d2, d1)

-- `r.user_id is None`
unfoldable pub is_global : DomainPairRule → Bool
is_global r = elim r.user_id [ none ↦ true | some u ↦ false ]

-- `r.user_id == user_id`
unfoldable pub is_own : ℕ → DomainPairRule → Bool
is_own user_id r = elim r.user_id [ none ↦ false | some u ↦ u == user_id ]

-- One of the two loops over the rows.
unfoldable pub put_rules :
    (DomainPairRule → Bool)
    → List DomainPairRule
    → Dict (Text × Text) DomainPairRule
    → Dict (Text × Text) DomainPairRule
put_rules takes [] rules = rules
put_rules takes (r ∷ rows) rules =
    put_rules takes rows (if takes r then put (r.domain_a, r.domain_b) r rules else rules)

-- `rules_map`, from the rows of the table
unfoldable pub rules_map : ℕ → List DomainPairRule → Dict (Text × Text) DomainPairRule
unfolding put_rules is_own is_global
rules_map user_id table =
    let rows = filter (λ r. is_own user_id r || is_global r) table in
    put_rules (is_own user_id) rows (put_rules is_global rows [])

-- The domain of an email that has one: `email and email.sender_domain` is true.
unfoldable pub domain_of : Option Email → Option (Email × Text)
domain_of none = none
domain_of (some email) = elim email.sender_domain [
  | none ↦ none
  | some [] ↦ none
  | some (c ∷ domain) ↦ some (email, c ∷ domain)
]

-- `_score_pair_with_rules`, from the lookup of the rule on
unfoldable pub score_present :
    (Text → Text)
    → Dict (Text × Text) DomainPairRule
    → Transaction
    → ℤ
    → Email × Text
    → Transaction
    → ℤ
    → Email × Text
    → Score
unfolding compute_score sorted_domains get
score_present lower rules tx_a amount_a (email_a, domain_a) tx_b amount_b (email_b, domain_b) =
    elim (both (get_effective_date tx_a email_a) (get_effective_date tx_b email_b)) [
      | none ↦ no_score
      | some dates ↦
          compute_score lower amount_a amount_b tx_a email_a tx_b email_b domain_a domain_b
            (get (sorted_domains (lower domain_a) (lower domain_b)) rules)
    ]

-- `_score_pair_with_rules`
unfoldable pub score_pair_with_rules :
    (Text → Text)
    → Dict (Text × Text) DomainPairRule
    → Transaction
    → Option Email
    → Transaction
    → Option Email
    → Score
unfolding score_present domain_of
score_pair_with_rules lower rules tx_a email_a tx_b email_b = elim (both tx_a.amount tx_b.amount) [
  | none ↦ no_score
  | some (a, b) ↦ elim (both (domain_of email_a) (domain_of email_b)) [
    | none ↦ no_score
    | some (c, d) ↦ score_present lower rules tx_a a c tx_b b d
  ]
]

-- What a resolution does to the counts, the confidence and the flag of a rule. The threshold is
-- `settings.AUTO_RESOLVE_THRESHOLD`.
unfoldable pub with_counts : Ratio → ℕ → ℕ → DomainPairRule → DomainPairRule
with_counts threshold confirmed_count dismissed_count rule = record {
  domain_a = rule.domain_a;
  domain_b = rule.domain_b;
  user_id = rule.user_id;
  confirmed_count = confirmed_count;
  dismissed_count = dismissed_count;
  confidence =
      if ltb 0 (confirmed_count + dismissed_count)
      then record { num = confirmed_count; den = confirmed_count + dismissed_count }
      else record { num = 0; den = 1 };
  auto_resolve =
      ltb (threshold.num * (confirmed_count + dismissed_count)) (threshold.den * confirmed_count)
      && leb 3 confirmed_count;
}

unfoldable pub learn : Ratio → Bool → DomainPairRule → DomainPairRule
unfolding with_counts
learn threshold confirmed rule =
    if confirmed
    then with_counts threshold (suc rule.confirmed_count) rule.dismissed_count rule
    else with_counts threshold rule.confirmed_count (suc rule.dismissed_count) rule

-- `DomainPairRule(...)`, as `resolve_duplicate` makes one
unfoldable pub new_rule : Option ℕ → Text × Text → DomainPairRule
new_rule user_id (domain_a, domain_b) = record {
  domain_a = domain_a;
  domain_b = domain_b;
  user_id = user_id;
  confirmed_count = 0;
  dismissed_count = 0;
  confidence = record { num = 0; den = 1 };
  auto_resolve = false;
}

-- Change the first row that a test takes, where there is one.
unfoldable pub change_first :
    (DomainPairRule → Bool)
    → (DomainPairRule → DomainPairRule)
    → List DomainPairRule
    → Option (List DomainPairRule)
change_first takes f [] = none
change_first takes f (r ∷ rows) =
    let rest = change_first takes f rows in
    if takes r then some (f r ∷ rows) else elim rest [ none ↦ none | some rows' ↦ some (r ∷ rows') ]

-- `DomainPairRule.domain_a == domain_a, DomainPairRule.domain_b == domain_b`
unfoldable pub is_about : Text × Text → DomainPairRule → Bool
is_about (domain_a, domain_b) r =
    text_equality.beq r.domain_a domain_a && text_equality.beq r.domain_b domain_b

-- `r.user_id == user_id`, where the caller may give no user
unfoldable pub has_owner : Option ℕ → DomainPairRule → Bool
unfolding is_own is_global
has_owner none r = is_global r
has_owner (some u) r = is_own u r

-- The table of rules after a resolution about two domains.
unfoldable pub learn_pair :
    Ratio → Option ℕ → Bool → Text × Text → List DomainPairRule → List DomainPairRule
unfolding learn new_rule change_first is_about has_owner is_global
learn_pair threshold user_id confirmed domains rows =
    elim (change_first (λ r. is_about domains r && has_owner user_id r) (learn threshold confirmed)
      rows) [
        | some rows' ↦ rows'
        | none ↦
            elim (change_first (λ r. is_about domains r && is_global r) (learn threshold confirmed)
              rows) [
                | some rows' ↦ rows'
                | none ↦ rows ++ learn threshold confirmed (new_rule user_id domains) ∷ []
              ]
      ]

-- The learning of `resolve_duplicate`, for the emails that it has found.
unfoldable pub resolve_rules :
    (Text → Text)
    → Ratio
    → Option ℕ
    → Bool
    → Option Email
    → Option Email
    → List DomainPairRule
    → List DomainPairRule
unfolding learn_pair domain_of sorted_domains
resolve_rules lower threshold user_id confirmed primary_email duplicate_email rows =
    elim (both (domain_of primary_email) (domain_of duplicate_email)) [
      | none ↦ rows
      | some (c, d) ↦
          if text_equality.beq (lower c.1) (lower d.1)
          then rows
          else learn_pair threshold user_id confirmed (sorted_domains (lower c.1) (lower d.1)) rows
    ]
