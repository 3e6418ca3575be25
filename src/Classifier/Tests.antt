-- ===== src/Classifier/Tests.antt =====
-- Runs of the rules, the filter and the store on concrete emails and merchants.
use gexpense_tracker_public.Prelude.{
  ◌≡◌, refl, ◌≤◌, ◌+◌, arith, Bool, false, ◌&&◌, Option, none, some, List, [], ◌∷◌, ◌++◌, map, leb,
  length, if◌then◌else◌, if-elim, pair_eq, String,
}
use gexpense_tracker_public.Prelude.Text.{Text, codes, text_eq, text_equality, strip, in_text}
use gexpense_tracker_public.Prelude.Dict.{Dict, get}
use gexpense_tracker_public.Dedup.{expense, income}
use gexpense_tracker_public.Classifier.Cleaning.{strip_suffixes, regex_clean}
use gexpense_tracker_public.Classifier.Cleaning.Ends.{IsStripped, regex_clean-IsStripped}
use gexpense_tracker_public.Classifier.Merchants.{
  UserMerchantOverride, MerchantAlias, MerchantTables, override_key, normalize, correct,
}
use gexpense_tracker_public.Classifier.Merchants.Refines.{view, corrected, IsKeyed, correct-refines}
use gexpense_tracker_public.Classifier.Rules.{DomainRule, same_label, apply_rules}
use gexpense_tracker_public.Classifier.Rules.Priority.{IsGraded, apply_rules-IsGraded}
use gexpense_tracker_public.Classifier.Rules.Learned.{
  DomainCount, SenderRule, tally_rows, learn_rules, build_domain_rules,
}
use gexpense_tracker_public.Classifier.Rules.Learned.Senders.{
  last_sender_rule, HasMajority, build_domain_rules_lem,
}
use gexpense_tracker_public.Classifier.PreFilter.{
  FilterRule, Engine, new_engine, any_match, evaluate,
}
use gexpense_tracker_public.Classifier.PreFilter.Decisions.{IsDecided, evaluate-IsDecided}

-- `str.lower` on the letters of ASCII
abbrev ascii_lower : Text → Text
ascii_lower t = map (λ c. if leb 65 c && leb c 90 then c + 32 else c) t

abbrev own : UserMerchantOverride
own = record { user_id = codes "u1"; merchant = codes "uber"; category = codes "Work" }

abbrev swiggy : Option Text → MerchantAlias
swiggy category = record {
  user_id = some (codes "u2");
  raw = codes "swgy";
  canonical = codes "swiggy";
  category = category;
  source = codes "user";
  hit_count = 4;
}

abbrev store : MerchantTables
store = record { overrides = own ∷ []; aliases = swiggy none ∷ [] }

store-IsKeyed : IsKeyed store
store-IsKeyed = (
  (λ k.
      if-elim (λ (rs : List UserMerchantOverride). length rs ≤ 1) (pair_eq.beq (override_key own) k)
        _ _ (λ e. omega arith) (λ e. omega arith)),
  (λ k.
      if-elim (λ (rs : List MerchantAlias). length rs ≤ 1) (text_equality.beq (codes "swiggy") k) _
        _ (λ e. omega arith) (λ e. omega arith)),
)

abbrev after : MerchantTables
after = record {
  overrides =
      own
      ∷ record { user_id = codes "u1"; merchant = codes "swiggy"; category = codes "Treats" }
      ∷ [];
  aliases = swiggy (some (codes "Treats")) ∷ [];
}

corrected_store :
    correct ascii_lower (codes "u1") (codes " Swiggy") (codes "Treats") store ≡ some after
unfolding correct text_eq
corrected_store = refl

correct-refines_example :
    (s' : MerchantTables) × (correct ascii_lower
        (codes "u1")
        (codes " Swiggy")
        (codes "Treats")
        store
      ≡ some s')
    × IsKeyed s'
    × (view s'
        ≡ corrected
            (codes "u1")
            (normalize ascii_lower (codes " Swiggy"))
            (codes "Treats")
            (view store))
correct-refines_example =
    correct-refines ascii_lower (codes "u1") (codes " Swiggy") (codes "Treats") store store-IsKeyed

abbrev contains : String → Text → Bool
contains word text = in_text (codes word) text

abbrev db_rules : Dict Text DomainRule
db_rules = (codes "bank.in", (income, some (codes "Salary"))) ∷ []

apply_rules-IsGraded_example : IsGraded (get (ascii_lower (strip (codes "Bank.in"))) db_rules) (
    apply_rules ascii_lower
      (contains "rs")
      (contains "credited")
      (contains "received payment")
      (codes "Bank.in")
      (codes "Rs 500 credited")
      (codes "salary")
      db_rules)
apply_rules-IsGraded_example =
    apply_rules-IsGraded ascii_lower (contains "rs") (contains "credited")
      (contains "received payment") (codes "Bank.in") (codes "Rs 500 credited") (codes "salary")
      db_rules

sure :
    (apply_rules ascii_lower
      (contains "rs")
      (contains "credited")
      (contains "received payment")
      (codes "Bank.in")
      (codes "Rs 500 credited")
      (codes "salary")
      db_rules).confidence
    ≡ 98
unfolding apply_rules text_eq in_text
sure = refl

abbrev counts : List DomainCount
counts =
    record { sender_domain = codes "Shop.in"; label = expense; category = none; cnt = 4 }
    ∷ record { sender_domain = codes "shop.in"; label = income; category = none; cnt = 1 }
    ∷ []

abbrev senders : List SenderRule
senders = record { sender_domain = codes "pay.in"; label = codes "income"; category = none } ∷ []

build_domain_rules_lem_example :
    (let learned_rule =
        get (codes "shop.in") (learn_rules 3 (tally_rows ascii_lower counts []) []) in
      (get (codes "shop.in") (build_domain_rules ascii_lower 3 counts senders)
        ≡ last_sender_rule ascii_lower (codes "shop.in") senders learned_rule)
      × ((rule : DomainRule)
          → learned_rule ≡ some rule
          → HasMajority 3 (codes "shop.in") rule (tally_rows ascii_lower counts [])))
build_domain_rules_lem_example =
    build_domain_rules_lem ascii_lower 3 counts senders (codes "shop.in")

learned_shop :
    get (codes "shop.in") (build_domain_rules ascii_lower 3 counts senders) ≡ some (expense, none)
unfolding build_domain_rules get text_eq same_label
learned_shop = refl

abbrev rules : List FilterRule
rules =
    record { rule_type = codes "blocklist_domain"; value = codes "Spam.in" }
    ∷ record { rule_type = codes "keyword_pattern"; value = codes "upi" }
    ∷ []

abbrev engine : Engine
engine = new_engine ascii_lower (λ p. false) rules

evaluate-IsDecided_example :
    IsDecided
      (ascii_lower (codes "spam.in"))
      engine
      (any_match
        (λ p t. some (in_text p t))
        engine.keyword_patterns
        (codes "Rs 5" ++ (b' ' ∷ codes "upi")))
      (evaluate ascii_lower
        (contains "Rs")
        (contains "debit")
        (contains "upi")
        (λ p t. some (in_text p t))
        engine
        (codes "Rs 5")
        (codes "upi")
        (codes "spam.in")
        none)
evaluate-IsDecided_example =
    evaluate-IsDecided ascii_lower (contains "Rs") (contains "debit") (contains "upi")
      (λ p t. some (in_text p t)) engine (codes "Rs 5") (codes "upi") (codes "spam.in") none

regex_clean-IsStripped_example :
    (r : Text) × (regex_clean ascii_lower (λ t. t) (λ t. t) (codes "WWW.Swiggy Pvt Ltd")
      ≡ some (strip r))
    × IsStripped strip_suffixes r
regex_clean-IsStripped_example =
    regex_clean-IsStripped ascii_lower (λ t. t) (λ t. t) (codes "WWW.Swiggy Pvt Ltd")

clean :
    regex_clean ascii_lower (λ t. t) (λ t. t) (codes "WWW.Swiggy Pvt Ltd") ≡ some (codes "swiggy")
unfolding regex_clean
clean = refl
