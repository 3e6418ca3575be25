-- ===== src/Dedup/Score.antt =====
-- `_compute_score` of app/dedup/service.py and the guards of `_score_pair_with_rules`.
pub mod Layers
pub mod Near
pub mod Sources
use gexpense_tracker_public.Prelude.{
  ℕ, ◌+◌, ◌-◌, ◌*◌, ◌/◌, Bool, true, false, ◌&&◌, ◌||◌, Option, none, some, List, [], ◌∷◌, map, ltb,
  leb, any, filter, min, max, if◌then◌else◌,
}
use gexpense_tracker_public.Prelude.Int.{ℤ, abs, distance}
use gexpense_tracker_public.Prelude.Members.{mem}
use gexpense_tracker_public.Prelude.Text.{Text, codes, text_equality, in_text}
use gexpense_tracker_public.Workers.Task.{seconds}
use gexpense_tracker_public.Dedup.{Ratio, Label, income, Transaction, Email, DomainPairRule}
use gexpense_tracker_public.Dedup.Merchant.{merchant_match}

pub data RuleSource : Type 0 where
  unknown same_domain_exact merchant_alias domain_pair investment_flow amount_date : RuleSource
  reference_id_match body_date_anchor body_date_merchant : RuleSource

pub record Score : Type 0 where
  pub confidence : Ratio
  pub source : RuleSource

abbrev pub score : ℕ → ℕ → RuleSource → Score
score num den source = record { confidence = record { num = num; den = den }; source = source }

abbrev pub no_score : Score
no_score = score 0 1 unknown

-- `_amount_tolerance`, in thousandths of a hundredth: 0.5 % or 3 % of the amount, and 5 at least
unfoldable pub amount_tolerance : ℤ → Bool → ℕ
amount_tolerance amount bulk = max (abs amount * (if bulk then 30 else 5)) 500000

abbrev invest_order_signals : List Text
invest_order_signals = map codes (
    "order placed" ∷ "order sent" ∷ "purchase initiated" ∷ "sip initiated" ∷ "sip registered"
    ∷ "folio" ∷ "nav" ∷ "invest" ∷ "purchase order" ∷ "transaction initiated"
    ∷ "processing of purchase" ∷ [])

abbrev invest_confirm_signals : List Text
invest_confirm_signals = map codes (
    "units allotted" ∷ "transaction successful" ∷ "purchase successful" ∷ "investment successful"
    ∷ "transaction confirmation" ∷ "purchase confirmation" ∷ "allotment" ∷ "credited to your folio"
    ∷ "transaction complete" ∷ "purchase transaction confirmation" ∷ [])

-- `_subject_has_any`
unfoldable pub subject_has_any : (Text → Text) → Option Text → List Text → Bool
unfolding in_text
subject_has_any lower none signals = any (λ s. in_text s (lower [])) signals
subject_has_any lower (some subject) signals = any (λ s. in_text s (lower subject)) signals

-- The dates among the entries of `body_dates`.
unfoldable pub parsed_dates : List (Option ℕ) → List ℕ
parsed_dates [] = []
parsed_dates (none ∷ ds) = parsed_dates ds
parsed_dates (some d ∷ ds) = d ∷ parsed_dates ds

unfoldable pub body_dates_of : Option (List (Option ℕ)) → List ℕ
unfolding parsed_dates
body_dates_of none = []
body_dates_of (some ds) = parsed_dates ds

-- `min` of a list that is not empty
unfoldable pub minimum : ℕ → List ℕ → ℕ
minimum d [] = d
minimum d (e ∷ ds) = minimum (min d e) ds

-- `email.received_at.date()`
unfoldable pub date_of : ℕ → ℕ
date_of instant = instant / seconds 86400

unfoldable pub header_date : Option ℕ → Option ℕ → Option ℕ
unfolding date_of
header_date (some d) received = some d
header_date none none = none
header_date none (some instant) = some (date_of instant)

unfoldable pub earliest_or : List ℕ → Option ℕ → Option ℕ
unfolding minimum
earliest_or [] fallback = fallback
earliest_or (d ∷ ds) fallback = some (minimum d ds)

-- `_get_effective_date`
unfoldable pub get_effective_date : Transaction → Email → Option ℕ
unfolding body_dates_of header_date earliest_or
get_effective_date tx email =
    earliest_or (body_dates_of email.body_dates) (header_date tx.txn_date email.received_at)

-- `abs((a - b).days)`
abbrev pub day_distance : ℕ → ℕ → ℕ
day_distance a b = (a - b) + (b - a)

-- `m_score >= 0.7`
unfoldable pub is_match : Ratio → Bool
is_match r = leb (7 * r.den) (10 * r.num)

unfoldable pub is_investment_flow : (Text → Text) → Email → Email → Bool
unfolding subject_has_any
is_investment_flow lower email_a email_b =
    (subject_has_any lower email_a.subject invest_order_signals
      && subject_has_any lower email_b.subject invest_confirm_signals)
    || (subject_has_any lower email_a.subject invest_confirm_signals
        && subject_has_any lower email_b.subject invest_order_signals)

unfoldable pub references_of : Option (List Text) → List Text
references_of none = []
references_of (some refs) = refs

-- `[r for r in ref_a if r in ref_b]` is not empty
unfoldable pub shares_reference : List Text → List Text → Bool
unfolding mem
shares_reference refs_a refs_b = any (λ r. mem r refs_b) refs_a

-- `min_gap <= 2`: some body date of one is within two days of one of the other
unfoldable pub dates_meet : List ℕ → List ℕ → Bool
dates_meet dates_a dates_b = any (λ a. any (λ b. leb (day_distance a b) 2) dates_b) dates_a

-- The layers below `amount_date`, on body metadata.
unfoldable pub body_layers : Bool → Ratio → ℕ → Email → Email → Score
unfolding references_of shares_reference body_dates_of dates_meet is_match
body_layers same_domain m_score day_diff email_a email_b =
    if shares_reference (references_of email_a.reference_ids) (references_of email_b.reference_ids)
    then (if same_domain then score 1 1 reference_id_match else score 95 100 reference_id_match)
    else (if dates_meet (body_dates_of email_a.body_dates) (body_dates_of email_b.body_dates)
        then (if same_domain
            then score 85 100 body_date_anchor
            else (if is_match m_score
                then score 80 100 body_date_anchor
                else (if leb day_diff 3 && is_match m_score
                    then score 70 100 body_date_merchant
                    else no_score)))
        else no_score)

-- The layers below `merchant_alias`.
unfoldable pub rule_layer : Option DomainPairRule → Score → Score
rule_layer none rest = rest
rule_layer (some rule) rest =
    if leb rule.confidence.den (2 * rule.confidence.num)
    then record { confidence = rule.confidence; source = domain_pair }
    else rest

-- The layers, in the order of the code, for a pair whose amounts and dates are near.
unfoldable pub layers : Bool → Ratio → ℕ → Bool → Email → Email → Option DomainPairRule → Score
unfolding body_layers rule_layer is_match
layers same_domain m_score day_diff invest email_a email_b rule =
    if same_domain
    then score 1 1 same_domain_exact
    else (if is_match m_score
        then score (15 * m_score.den + 4 * m_score.num) (20 * m_score.den) merchant_alias
        else rule_layer rule (
            if invest && leb day_diff 3
            then score 65 100 investment_flow
            else (if leb day_diff 1
                then score 50 100 amount_date
                else body_layers same_domain m_score day_diff email_a email_b)))

-- `_compute_score`, from the dates on; `amount_a`, `amount_b`, `domain_a` and `domain_b` are the
-- values that the callers have found present.
unfoldable pub dated_score :
    (Text → Text)
    → Option ℕ
    → Option ℕ
    → Transaction
    → Email
    → Transaction
    → Email
    → Text
    → Text
    → Option DomainPairRule
    → Score
unfolding layers is_investment_flow merchant_match
dated_score lower none eff_b tx_a email_a tx_b email_b domain_a domain_b rule = no_score
dated_score lower (some eff_a) none tx_a email_a tx_b email_b domain_a domain_b rule = no_score
dated_score lower (some eff_a) (some eff_b) tx_a email_a tx_b email_b domain_a domain_b rule =
    if ltb 3 (day_distance eff_a eff_b)
    then no_score
    else layers (text_equality.beq (lower domain_a) (lower domain_b))
        (merchant_match lower tx_a.merchant tx_b.merchant (lower domain_a) (lower domain_b))
        (day_distance eff_a eff_b) (is_investment_flow lower email_a email_b) email_a email_b rule

unfoldable pub compute_score :
    (Text → Text)
    → ℤ
    → ℤ
    → Transaction
    → Email
    → Transaction
    → Email
    → Text
    → Text
    → Option DomainPairRule
    → Score
unfolding amount_tolerance dated_score get_effective_date
compute_score lower amount_a amount_b tx_a email_a tx_b email_b domain_a domain_b rule =
    if ltb (amount_tolerance amount_a true) (1000 * distance amount_a amount_b)
    then no_score
    else dated_score lower (get_effective_date tx_a email_a) (get_effective_date tx_b email_b) tx_a
        email_a tx_b email_b domain_a domain_b rule
