-- ===== src/Dedup/Batch.antt =====
-- `batch_detect_duplicates` of app/dedup/service.py. The rows that its three queries return are
-- arguments: the expenses of the window, the recorded pairs, and the rules. `uuid` gives the
-- identifiers of new pairs, by their number.
pub mod Pairs
use gexpense_tracker_public.Prelude.{
  ℕ, ◌+◌, ◌*◌, Bool, true, false, ◌&&◌, ◌||◌, Option, none, some, List, [], ◌∷◌, ◌++◌, ◌==◌, ltb,
  leb, suc, zero, if◌then◌else◌, length, min, max, Eq, ◌≡◌, ◌↔◌, arith, pair_eq, nat_eq, both, ap,
  sym, ◌∙◌, refl, map,
}
use gexpense_tracker_public.Prelude.Int.{ℤ, pos, negsuc, pos_part, neg_part}
use gexpense_tracker_public.Prelude.Dict.{Dict, get_or, put, values}
use gexpense_tracker_public.Prelude.Members.{mem, add}
use gexpense_tracker_public.Prelude.Text.{Text}
use gexpense_tracker_public.Dedup.{Ratio, Label, income, Transaction, Email, DomainPairRule}
use gexpense_tracker_public.Dedup.Score.{
  RuleSource, unknown, same_domain_exact, merchant_alias, domain_pair, investment_flow, amount_date,
  reference_id_match, body_date_anchor, body_date_merchant, Score, get_effective_date,
}
use gexpense_tracker_public.Dedup.Score.Sources.{source_eq}
use gexpense_tracker_public.Dedup.Rules.{rules_map, score_pair_with_rules, domain_of}

-- A row that is added to the table of pairs, with the status "pending".
pub record Pair : Type 0 where
  pub id : ℕ
  pub primary_tx_id : ℕ
  pub duplicate_tx_id : ℕ
  pub score : Score

-- The newest pair stands first in `pairs`; `new_pair_ids` is in the order of the code.
pub record Batch : Type 0 where
  pub seen : List (ℕ × ℕ)
  pub stats : Dict RuleSource ℕ
  pub already_paired : ℕ
  pub existing_pairs : ℕ
  pub pairs : List Pair
  pub new_pair_ids : List ℕ

-- `tuple(sorted([a, b]))`
unfoldable pub pair_key : ℕ → ℕ → ℕ × ℕ
pair_key a b = (min a b, max a b)

-- `_is_dedup_candidate`
unfoldable pub is_dedup_candidate : Transaction → Bool
is_dedup_candidate transaction = elim transaction.amount [
  | none ↦ false
  | some amount ↦ elim transaction.label [ income ↦ false | _ ↦ true ]
]

-- `paired_ids_map.setdefault(a, set()).add(b)`
unfoldable pub link : ℕ → ℕ → Dict ℕ (List ℕ) → Dict ℕ (List ℕ)
unfolding put get_or
link a b d = put a (add b (get_or a d [])) d

-- `paired_ids_map`
unfoldable pub paired_ids_map : List (ℕ × ℕ) → Dict ℕ (List ℕ) → Dict ℕ (List ℕ)
unfolding link
paired_ids_map [] d = d
paired_ids_map (p ∷ ps) d = paired_ids_map ps (link p.1 p.0 (link p.0 p.1 d))

-- The recording of a pair that has passed every test.
unfoldable pub record_pair : (ℕ → ℕ) → Transaction → Transaction → Score → Batch → Batch
unfolding pair_key
record_pair uuid tx other s b =
    let pair_id = uuid (length b.pairs) in
    record {
      seen = pair_key tx.id other.id ∷ b.seen;
      stats = put s.source (suc (get_or s.source b.stats 0)) b.stats;
      already_paired = b.already_paired;
      existing_pairs = b.existing_pairs;
      pairs =
          record { id = pair_id; primary_tx_id = tx.id; duplicate_tx_id = other.id; score = s }
          ∷ b.pairs;
      new_pair_ids = b.new_pair_ids ++ pair_id ∷ [];
    }

abbrev pub one_more_already_paired : Batch → Batch
one_more_already_paired b = record {
  seen = b.seen;
  stats = b.stats;
  already_paired = suc b.already_paired;
  existing_pairs = b.existing_pairs;
  pairs = b.pairs;
  new_pair_ids = b.new_pair_ids;
}

abbrev pub one_more_existing : Batch → Batch
one_more_existing b = record {
  seen = b.seen;
  stats = b.stats;
  already_paired = b.already_paired;
  existing_pairs = suc b.existing_pairs;
  pairs = b.pairs;
  new_pair_ids = b.new_pair_ids;
}

module _ (lower : Text → Text) (uuid : ℕ → ℕ) (rules : Dict (Text × Text) DomainPairRule)
    (db_existing_pairs : List (ℕ × ℕ)) where
  -- What the two inner loops do with two transactions, from the test of `seen_pairs` on.
  unfoldable pub consider : Transaction → Option Email → Transaction → Option Email → Batch → Batch
  unfolding mem pair_key paired_ids_map get_or score_pair_with_rules record_pair
  consider tx email other other_email b =
      let s = score_pair_with_rules lower rules tx email other other_email in
      if mem (pair_key tx.id other.id) b.seen
      then b
      else (if mem other.id (get_or tx.id (paired_ids_map db_existing_pairs []) [])
          then one_more_already_paired b
          else (if ltb (2 * s.confidence.num) s.confidence.den
              then b
              else (if mem (pair_key tx.id other.id) db_existing_pairs
                  then one_more_existing b
                  else record_pair uuid tx other s b)))

  -- The loop over `existing_map.values()`.
  unfoldable pub compare_existing :
      Transaction → Option Email → List (Transaction × Email) → Batch → Batch
  unfolding consider
  compare_existing tx email [] b = b
  compare_existing tx email ((other, other_email) ∷ rows) b =
      compare_existing tx email rows
        (if other.id == tx.id then b else consider tx email other (some other_email) b)

  -- The tests of the outer loop.
  unfoldable pub is_compared : Transaction → Option Email → Bool
  unfolding is_dedup_candidate domain_of get_effective_date
  is_compared tx email = is_dedup_candidate tx && elim (domain_of email) [
    | none ↦ false
    | some c ↦ elim (get_effective_date tx c.0) [ none ↦ false | some d ↦ true ]
  ]

  unfoldable pub compare_new :
      List (Transaction × Email) → List (Transaction × Option Email) → Batch → Batch
  unfolding compare_existing is_compared
  compare_new existing [] b = b
  compare_new existing ((tx, email) ∷ new) b =
      compare_new existing new
        (if is_compared tx email then compare_existing tx email existing b else b)

  -- `for tx_b, email_b in group[i + 1:]`
  unfoldable pub compare_rest :
      Transaction → Option Email → List (Transaction × Option Email) → Batch → Batch
  unfolding consider
  compare_rest tx email [] b = b
  compare_rest tx email ((other, other_email) ∷ group) b =
      compare_rest tx email group (consider tx email other other_email b)

  unfoldable pub compare_group : List (Transaction × Option Email) → Batch → Batch
  unfolding compare_rest
  compare_group [] b = b
  compare_group ((tx, email) ∷ group) b = compare_group group (compare_rest tx email group b)

  unfoldable pub compare_groups : List (List (Transaction × Option Email)) → Batch → Batch
  unfolding compare_group
  compare_groups [] b = b
  compare_groups (group ∷ groups) b =
      compare_groups groups (if ltb (length group) 2 then b else compare_group group b)

-- The key of `amount_date_groups`: the amount with its sign, and the date.
abbrev pub GroupKey : Type 0
GroupKey = (ℕ × ℕ) × ℕ

-- `tx.amount and tx.txn_date`: no amount of zero
unfoldable pub group_key : Transaction → Option GroupKey
group_key tx = elim (both tx.amount tx.txn_date) [
  | none ↦ none
  | some (pos zero, d) ↦ none
  | some (pos (suc n), d) ↦ some ((suc n, 0), d)
  | some (negsuc n, d) ↦ some ((0, suc n), d)
]

unfoldable pub into_group :
    Option GroupKey
    → Transaction × Option Email
    → Dict GroupKey (List (Transaction × Option Email))
    → Dict GroupKey (List (Transaction × Option Email))
into_group none t groups = groups
into_group (some key) t groups = put key (get_or key groups [] ++ t ∷ []) groups

-- `amount_date_groups`
unfoldable pub amount_date_groups :
    List (Transaction × Option Email)
    → Dict GroupKey (List (Transaction × Option Email))
    → Dict GroupKey (List (Transaction × Option Email))
unfolding group_key into_group
amount_date_groups [] groups = groups
amount_date_groups (t ∷ new) groups = amount_date_groups new (into_group (group_key t.0) t groups)

-- `existing_map`: the rows that have an email, by the id of the transaction
unfoldable pub existing_map :
    List (Transaction × Option Email) → Dict ℕ (Transaction × Email) → Dict ℕ (Transaction × Email)
existing_map [] d = d
existing_map ((tx, none) ∷ rows) d = existing_map rows d
existing_map ((tx, some email) ∷ rows) d = existing_map rows (put tx.id (tx, email) d)

abbrev pub no_pairs : Batch
no_pairs = record {
  seen = [];
  stats = [];
  already_paired = 0;
  existing_pairs = 0;
  pairs = [];
  new_pair_ids = [];
}

-- `db_existing_pairs`, of the rows of `all_user_pairs`
unfoldable pub sorted_pairs : List (ℕ × ℕ) → List (ℕ × ℕ)
unfolding pair_key
sorted_pairs rows = map (λ row. pair_key row.0 row.1) rows

-- `batch_detect_duplicates`
unfoldable pub batch_detect_duplicates :
    (Text → Text)
    → (ℕ → ℕ)
    → ℕ
    → List DomainPairRule
    → List (Transaction × Option Email)
    → List (ℕ × ℕ)
    → List (Transaction × Option Email)
    → Batch
unfolding sorted_pairs rules_map compare_new compare_groups amount_date_groups existing_map
batch_detect_duplicates lower uuid user_id table existing all_user_pairs new =
    compare_groups lower uuid (rules_map user_id table) (sorted_pairs all_user_pairs)
      (values (amount_date_groups new []))
      (compare_new lower uuid (rules_map user_id table) (sorted_pairs all_user_pairs)
        (values (existing_map existing [])) new no_pairs)
