-- ===== src/Dedup/Score/Near.antt =====
-- What a score that is not the empty one says of the two transactions.
use gexpense_tracker_public.Prelude.{
  ℕ, ◌≡◌, ◌⊎◌, inl, inr, refl, ◌+◌, ◌*◌, ◌≤◌, arith, Bool, true, false, ◌&&◌, Option, none, some,
  ltb, leb, Bool-cases, if◌then◌else◌, max,
}
use gexpense_tracker_public.Prelude.Int.{ℤ, abs, distance}
use gexpense_tracker_public.Prelude.Text.{Text, text_equality}
use gexpense_tracker_public.Dedup.{Ratio, Transaction, Email, DomainPairRule}
use gexpense_tracker_public.Dedup.Merchant.{merchant_match}
use gexpense_tracker_public.Dedup.Score.{
  Score, score, no_score, is_match, investment_flow, amount_date, merchant_alias,
  is_investment_flow, body_layers, rule_layer, layers, dated_score, compute_score, amount_tolerance,
  get_effective_date, day_distance,
}

-- The empty score, or a confidence of one half at least.
abbrev pub IsEmptyOrHalf : Score → Type 0
IsEmptyOrHalf s = (s ≡ no_score) ⊎ (s.confidence.den ≤ 2 * s.confidence.num)

body_layers-IsEmptyOrHalf :
    (same : Bool) (m : Ratio)
    → (d : ℕ) → (ea eb : Email) → IsEmptyOrHalf (body_layers same m d ea eb)
unfolding body_layers
body_layers-IsEmptyOrHalf same m d ea eb = ground arith

rule_layer-IsEmptyOrHalf :
    (r : Option DomainPairRule)
    → (rest : Score) → IsEmptyOrHalf rest
    → IsEmptyOrHalf (rule_layer r rest)
unfolding rule_layer
rule_layer-IsEmptyOrHalf none rest p = p
rule_layer-IsEmptyOrHalf (some r) rest p =
    elim (Bool-cases (leb r.confidence.den (2 * r.confidence.num))) [
      | inl e ↦ rw e (inr (ground arith))
      | inr e ↦ rw e p
    ]

late_layers-IsEmptyOrHalf :
    (invest near : Bool) (same : Bool) (m : Ratio)
    → (d : ℕ) → (ea eb : Email)
    → IsEmptyOrHalf (
        if invest
        then score 65 100 investment_flow
        else (if near then score 50 100 amount_date else body_layers same m d ea eb))
late_layers-IsEmptyOrHalf true near same m d ea eb = inr (ground arith)
late_layers-IsEmptyOrHalf false true same m d ea eb = inr (ground arith)
late_layers-IsEmptyOrHalf false false same m d ea eb = body_layers-IsEmptyOrHalf same m d ea eb

merchant_layer-IsEmptyOrHalf :
    (aliased : Bool) (m : Ratio) (rest : Score)
    → IsEmptyOrHalf rest
    → IsEmptyOrHalf
        (if aliased then score (15 * m.den + 4 * m.num) (20 * m.den) merchant_alias else rest)
merchant_layer-IsEmptyOrHalf true m rest p = inr (ground arith)
merchant_layer-IsEmptyOrHalf false m rest p = p

layers-IsEmptyOrHalf :
    (same : Bool)
    → (m : Ratio) → (d : ℕ) → (invest : Bool) → (ea eb : Email) → (r : Option DomainPairRule)
    → IsEmptyOrHalf (layers same m d invest ea eb r)
unfolding layers
layers-IsEmptyOrHalf true m d invest ea eb r = inr (ground arith)
layers-IsEmptyOrHalf false m d invest ea eb r = merchant_layer-IsEmptyOrHalf (is_match m) m _ (
    rule_layer-IsEmptyOrHalf r _
      (late_layers-IsEmptyOrHalf (invest && leb d 3) (leb d 1) false m d ea eb))

-- Both dates are known and at most three days apart.
unfoldable pub AreNear : Option ℕ → Option ℕ → Type 0
AreNear none b = ⊥
AreNear (some a) none = ⊥
AreNear (some a) (some b) = day_distance a b ≤ 3

dated_score_lem :
    (lower : Text → Text) (a b : Option ℕ) (ta : Transaction) (ea : Email) (tb : Transaction)
    (eb : Email) (da db : Text) (r : Option DomainPairRule)
    → (dated_score lower a b ta ea tb eb da db r ≡ no_score)
      ⊎ ((let s = dated_score lower a b ta ea tb eb da db r in
            s.confidence.den ≤ 2 * s.confidence.num)
          × AreNear a b)
unfolding AreNear dated_score
dated_score_lem lower none b ta ea tb eb da db r = inl refl
dated_score_lem lower (some a) none ta ea tb eb da db r = inl refl
dated_score_lem lower (some a) (some b) ta ea tb eb da db r =
    elim (Bool-cases (ltb 3 (day_distance a b))) [
      | inl e ↦ rw e (inl refl)
      | inr e ↦
          rw e
            (elim (layers-IsEmptyOrHalf (text_equality.beq (lower da) (lower db))
              (merchant_match lower ta.merchant tb.merchant (lower da) (lower db))
              (day_distance a b) (is_investment_flow lower ea eb) ea eb r) [
                | inl p ↦ inl p
                | inr p ↦ inr (p, ground arith)
              ])
    ]

-- The score of two transactions is the empty one, or three things hold: its confidence is at least
-- one half, the amounts differ by at most the larger of 3 % of the first amount and 5 units, and
-- both transactions have an effective date and these are at most three days apart.
pub compute_score_lem :
    (lower : Text → Text) (amount_a amount_b : ℤ) (tx_a : Transaction) (email_a : Email)
    (tx_b : Transaction) (email_b : Email) (domain_a domain_b : Text) (rule : Option DomainPairRule)
    → (let s =
          compute_score lower amount_a amount_b tx_a email_a tx_b email_b domain_a domain_b rule in
        (s ≡ no_score)
        ⊎ ((s.confidence.den ≤ 2 * s.confidence.num)
            × (1000 * distance amount_a amount_b ≤ max (30 * abs amount_a) 500000)
            × AreNear (get_effective_date tx_a email_a) (get_effective_date tx_b email_b)))
unfolding compute_score amount_tolerance
compute_score_lem lower a b ta ea tb eb da db r =
    elim (Bool-cases (ltb (max (abs a * 30) 500000) (1000 * distance a b))) [
      | inl e ↦ rw e (inl refl)
      | inr e ↦
          rw e
            (elim (dated_score_lem lower (get_effective_date ta ea) (get_effective_date tb eb) ta ea
              tb eb da db r) [ inl p ↦ inl p | inr p ↦ inr (p.0, ground arith, p.1) ])
    ]
