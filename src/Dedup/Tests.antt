-- ===== src/Dedup/Tests.antt =====
-- Runs of the scoring and of the detection on concrete transactions.
use gexpense_tracker_public.Prelude.{
  ℕ, ◌≡◌, refl, ◌+◌, ◌*◌, ◌≤◌, ◌⊎◌, true, false, ◌||◌, ◌&&◌, Option, none, some, List, [], ◌∷◌, map,
  length, leb, filter, max, if◌then◌else◌, arith, nat_eq, pair_eq,
}
use gexpense_tracker_public.Prelude.Int.{pos, abs, distance}
use gexpense_tracker_public.Prelude.Members.{IsNodup, add}
use gexpense_tracker_public.Prelude.Dict.{get}
use gexpense_tracker_public.Prelude.Text.{Text, codes, text_equality, text_eq}
use gexpense_tracker_public.Dedup.{Ratio, expense, Transaction, Email, DomainPairRule}
use gexpense_tracker_public.Dedup.Score.{
  merchant_alias, no_score, score, compute_score, get_effective_date,
}
use gexpense_tracker_public.Dedup.Score.Layers.{is_body_date, body_date_layers_unreachable}
use gexpense_tracker_public.Dedup.Score.Near.{AreNear, compute_score_lem}
use gexpense_tracker_public.Dedup.Primary.{deciding_times}
use gexpense_tracker_public.Dedup.Dates.{day_first, try_parse_date}
use gexpense_tracker_public.Dedup.Rules.{is_own, is_global, rules_map, learn_pair}
use gexpense_tracker_public.Dedup.Rules.Learned.{
  last_rule, get-rules_map, IsLearned, AreLearned, learn_pair-AreLearned,
}
use gexpense_tracker_public.Dedup.Batch.{sorted_pairs, batch_detect_duplicates}
use gexpense_tracker_public.Dedup.Batch.Pairs.{key_of, AreNew, batch_pairs-AreNew}

-- `str.lower` on the letters of ASCII
abbrev lower_code : ℕ → ℕ
lower_code c = if leb 65 c && leb c 90 then c + 32 else c

abbrev ascii_lower : Text → Text
ascii_lower t = map lower_code t

abbrev bought : ℕ → ℕ → ℕ → Transaction
bought id amount day = record {
  id = id;
  label = expense;
  amount = some (pos amount);
  merchant = some (codes "Swiggy");
  txn_date = some day;
  created_at = none;
}

abbrev from_domain : Text → Email
from_domain domain = record {
  user_id = 1;
  sender_domain = some domain;
  subject = none;
  received_at = none;
  body_dates = none;
  reference_ids = none;
}

abbrev swiggy : Email
swiggy = from_domain (codes "Swiggy.in")

abbrev bank : Email
bank = from_domain (codes "bank.in")

abbrev global_rule : DomainPairRule
global_rule = record {
  domain_a = codes "bank.in";
  domain_b = codes "swiggy.in";
  user_id = none;
  confirmed_count = 0;
  dismissed_count = 1;
  confidence = record { num = 0; den = 1 };
  auto_resolve = false;
}

-- The same merchant under two domains, at 199.00 and 201.00
aliases_meet :
    compute_score ascii_lower
      (pos 19900)
      (pos 20100)
      (bought 1 19900 100)
      swiggy
      (bought 2 20100 102)
      bank
      (codes "Swiggy.in")
      (codes "bank.in")
      none
    ≡ score 19 20 merchant_alias
unfolding compute_score text_eq
aliases_meet = refl

compute_score_lem_example :
    (compute_score ascii_lower
        (pos 19900)
        (pos 20100)
        (bought 1 19900 100)
        swiggy
        (bought 2 20100 102)
        bank
        (codes "Swiggy.in")
        (codes "bank.in")
        none
      ≡ no_score)
    ⊎ (((compute_score ascii_lower
            (pos 19900)
            (pos 20100)
            (bought 1 19900 100)
            swiggy
            (bought 2 20100 102)
            bank
            (codes "Swiggy.in")
            (codes "bank.in")
            none).confidence.den
          ≤ 2
            * (compute_score ascii_lower
                (pos 19900)
                (pos 20100)
                (bought 1 19900 100)
                swiggy
                (bought 2 20100 102)
                bank
                (codes "Swiggy.in")
                (codes "bank.in")
                none).confidence.num)
        × (1000 * distance (pos 19900) (pos 20100) ≤ max (30 * abs (pos 19900)) 500000)
        × AreNear
            (get_effective_date (bought 1 19900 100) swiggy)
            (get_effective_date (bought 2 20100 102) bank))
compute_score_lem_example =
    compute_score_lem ascii_lower (pos 19900) (pos 20100) (bought 1 19900 100) swiggy
      (bought 2 20100 102) bank (codes "Swiggy.in") (codes "bank.in") none

body_date_layers_unreachable_example :
    is_body_date
      (compute_score ascii_lower
        (pos 19900)
        (pos 20100)
        (bought 1 19900 100)
        swiggy
        (bought 2 20100 102)
        bank
        (codes "Swiggy.in")
        (codes "bank.in")
        none).source
    ≡ false
body_date_layers_unreachable_example =
    body_date_layers_unreachable ascii_lower (pos 19900) (pos 20100) (bought 1 19900 100) swiggy
      (bought 2 20100 102) bank (codes "Swiggy.in") (codes "bank.in") none

abbrev new_pair : List (Transaction × Option Email)
new_pair = (bought 1 19900 100, some swiggy) ∷ (bought 2 19900 100, some swiggy) ∷ []

abbrev old_rows : List (Transaction × Option Email)
old_rows = (bought 7 20100 101, some bank) ∷ []

-- Each of the two meets the old expense and the other one: three pairs.
three_pairs :
    length
      (batch_detect_duplicates ascii_lower
        (λ n. n)
        1
        (global_rule ∷ [])
        old_rows
        []
        new_pair).new_pair_ids
    ≡ 3
unfolding batch_detect_duplicates text_eq add
three_pairs = refl

-- The table names the greater identifier first.
abbrev known_pairs : List (ℕ × ℕ)
known_pairs = (7, 1) ∷ []

-- The known pair is not recorded again.
two_pairs :
    length
      (batch_detect_duplicates ascii_lower
        (λ n. n)
        1
        (global_rule ∷ [])
        old_rows
        known_pairs
        new_pair).new_pair_ids
    ≡ 2
unfolding batch_detect_duplicates text_eq add
two_pairs = refl

batch_pairs-AreNew_example :
    IsNodup (
      map key_of
        (batch_detect_duplicates ascii_lower
          (λ n. n)
          1
          (global_rule ∷ [])
          old_rows
          known_pairs
          new_pair).pairs)
    × AreNew
        (sorted_pairs known_pairs)
        (batch_detect_duplicates ascii_lower
          (λ n. n)
          1
          (global_rule ∷ [])
          old_rows
          known_pairs
          new_pair).pairs
    × (length
          (batch_detect_duplicates ascii_lower
            (λ n. n)
            1
            (global_rule ∷ [])
            old_rows
            known_pairs
            new_pair).new_pair_ids
        ≡ length
            (batch_detect_duplicates ascii_lower
              (λ n. n)
              1
              (global_rule ∷ [])
              old_rows
              known_pairs
              new_pair).pairs)
batch_pairs-AreNew_example =
    batch_pairs-AreNew ascii_lower (λ n. n) 1 (global_rule ∷ []) old_rows known_pairs new_pair

abbrev two_domains : Text × Text
two_domains = (codes "bank.in", codes "swiggy.in")

get-rules_map_example :
    get two_domains (rules_map 1 (global_rule ∷ []))
    ≡ last_rule
        (is_own 1)
        two_domains
        (filter (λ r. is_own 1 r || is_global r) (global_rule ∷ []))
        (last_rule is_global two_domains
          (filter (λ r. is_own 1 r || is_global r) (global_rule ∷ []))
          none)
get-rules_map_example = get-rules_map 1 (global_rule ∷ []) two_domains

-- `AUTO_RESOLVE_THRESHOLD` as it is set by default
abbrev threshold : Ratio
threshold = record { num = 85; den = 100 }

global_rule-IsLearned : IsLearned threshold global_rule
unfolding IsLearned
global_rule-IsLearned = (refl, ground arith, λ set. ground arith)

learn_pair-AreLearned_example :
    AreLearned threshold (learn_pair threshold (some 1) true two_domains (global_rule ∷ []))
learn_pair-AreLearned_example =
    learn_pair-AreLearned threshold (some 1) true two_domains (global_rule ∷ [])
      (global_rule-IsLearned, tt)

-- A user without a rule of its own teaches the global one.
global_rule_learns :
    map (λ r. r.confirmed_count) (learn_pair threshold (some 1) true two_domains (global_rule ∷ []))
    ≡ 1 ∷ []
unfolding learn_pair text_eq
global_rule_learns = refl

abbrev later_swiggy : Email
later_swiggy = record {
  user_id = 1;
  sender_domain = none;
  subject = none;
  received_at = some 90;
  body_dates = none;
  reference_ids = none;
}

dates_decide :
    deciding_times (bought 1 19900 100) none (bought 2 20100 102) (some later_swiggy)
    ≡ some (100, 102)
unfolding deciding_times
dates_decide = refl

abbrev simple_date : ℕ → ℕ → ℕ → Option ℕ
simple_date year month day = some (10000 * year + 100 * month + day)

march_is_read :
    try_parse_date simple_date ascii_lower (day_first 15 (codes "March") 2024) ≡ some 20240315
unfolding try_parse_date text_eq
march_is_read = refl
