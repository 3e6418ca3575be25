-- ===== src/Dedup/Score/Layers.antt =====
-- Which layers of the score can be reached, and what a score means.
use gexpense_tracker_public.Prelude.{ℕ, ◌≡◌, arith, refl, Bool, true, false, Option, none, some}
use gexpense_tracker_public.Prelude.Int.{ℤ}
use gexpense_tracker_public.Prelude.Text.{Text, text_equality}
use gexpense_tracker_public.Dedup.{Ratio, Transaction, Email, DomainPairRule}
use gexpense_tracker_public.Dedup.Merchant.{merchant_match}
use gexpense_tracker_public.Dedup.Score.{
  RuleSource, unknown, same_domain_exact, merchant_alias, domain_pair, investment_flow, amount_date,
  reference_id_match, body_date_anchor, body_date_merchant, Score, score, is_match,
  is_investment_flow, body_layers, rule_layer, layers, dated_score, compute_score,
  get_effective_date, day_distance,
}

-- Whether a source is one of the two layers on body dates.
unfoldable pub is_body_date : RuleSource → Bool
is_body_date unknown = false
is_body_date same_domain_exact = false
is_body_date merchant_alias = false
is_body_date domain_pair = false
is_body_date investment_flow = false
is_body_date amount_date = false
is_body_date reference_id_match = false
is_body_date body_date_anchor = true
is_body_date body_date_merchant = true

body_layers-is_body_date :
    (m : Ratio)
    → (d : ℕ) → (ea eb : Email) → is_match m ≡ false
    → is_body_date (body_layers false m d ea eb).source ≡ false
unfolding is_body_date body_layers
body_layers-is_body_date m d ea eb low = ground arith

rule_layer-is_body_date :
    (r : Option DomainPairRule)
    → (rest : Score) → is_body_date rest.source ≡ false
    → is_body_date (rule_layer r rest).source ≡ false
unfolding is_body_date rule_layer
rule_layer-is_body_date r rest p = ground arith

layers-is_body_date :
    (same : Bool)
    → (m : Ratio) → (d : ℕ) → (invest : Bool) → (ea eb : Email) → (r : Option DomainPairRule)
    → is_body_date (layers same m d invest ea eb r).source ≡ false
unfolding is_body_date layers
layers-is_body_date same m d invest ea eb r = ground (
  arith,
  body_layers-is_body_date m d ea eb,
  rule_layer-is_body_date r (body_layers false m d ea eb),
  rule_layer-is_body_date r (score 65 100 investment_flow),
  rule_layer-is_body_date r (score 50 100 amount_date),
)

dated_score-is_body_date :
    (lower : Text → Text) (a b : Option ℕ) (ta : Transaction) (ea : Email) (tb : Transaction)
    (eb : Email) (da db : Text) (r : Option DomainPairRule)
    → is_body_date (dated_score lower a b ta ea tb eb da db r).source ≡ false
unfolding is_body_date dated_score
dated_score-is_body_date lower none b ta ea tb eb da db r = refl
dated_score-is_body_date lower (some a) none ta ea tb eb da db r = refl
dated_score-is_body_date lower (some a) (some b) ta ea tb eb da db r = ground (
  arith,
  layers-is_body_date (text_equality.beq (lower da) (lower db))
      (merchant_match lower ta.merchant tb.merchant (lower da) (lower db)) (day_distance a b)
      (is_investment_flow lower ea eb) ea eb r,
)

-- Whatever the two transactions, their emails and the rule are, the source of their score is
-- neither `body_date_anchor` nor `body_date_merchant`.
pub body_date_layers_unreachable :
    (lower : Text → Text) (amount_a amount_b : ℤ) (tx_a : Transaction) (email_a : Email)
    (tx_b : Transaction) (email_b : Email) (domain_a domain_b : Text) (rule : Option DomainPairRule)
    → is_body_date
        (compute_score lower amount_a amount_b tx_a email_a tx_b email_b domain_a domain_b
          rule).source
      ≡ false
unfolding is_body_date compute_score
body_date_layers_unreachable lower a b ta ea tb eb da db r = ground (
  arith,
  dated_score-is_body_date lower (get_effective_date ta ea) (get_effective_date tb eb) ta ea tb eb
      da db r,
)
