-- ===== src/Dedup/Score/Sources.antt =====
-- The names of the layers in app/dedup/service.py are compared as texts, as keys of the counts.
use gexpense_tracker_public.Prelude.{◌≡◌, ◌↔◌, true, refl, arith, ℕ, ◌==◌, Eq, if◌then◌else◌}
use gexpense_tracker_public.Dedup.Score.{
  RuleSource, unknown, same_domain_exact, merchant_alias, domain_pair, investment_flow, amount_date,
  reference_id_match, body_date_anchor, body_date_merchant,
}

abbrev source_code : RuleSource → ℕ
source_code unknown = 0
source_code same_domain_exact = 1
source_code merchant_alias = 2
source_code domain_pair = 3
source_code investment_flow = 4
source_code amount_date = 5
source_code reference_id_match = 6
source_code body_date_anchor = 7
source_code body_date_merchant = 8

abbrev source_of : ℕ → RuleSource
source_of n =
    if n == 1
    then same_domain_exact
    else (if n == 2
        then merchant_alias
        else (if n == 3
            then domain_pair
            else (if n == 4
                then investment_flow
                else (if n == 5
                    then amount_date
                    else (if n == 6
                        then reference_id_match
                        else (if n == 7
                            then body_date_anchor
                            else (if n == 8 then body_date_merchant else unknown)))))))

source_of-source_code : (s : RuleSource) → source_of (source_code s) ≡ s
source_of-source_code unknown = refl
source_of-source_code same_domain_exact = refl
source_of-source_code merchant_alias = refl
source_of-source_code domain_pair = refl
source_of-source_code investment_flow = refl
source_of-source_code amount_date = refl
source_of-source_code reference_id_match = refl
source_of-source_code body_date_anchor = refl
source_of-source_code body_date_merchant = refl

pub same_source : (s t : RuleSource) → ((source_code s == source_code t) ≡ true) ↔ (s ≡ t)
same_source s t = ground (arith, source_of-source_code s, source_of-source_code t)

instance abbrev pub source_eq : Eq RuleSource
source_eq = record { beq = λ s t. source_code s == source_code t; beq_iff = same_source }
