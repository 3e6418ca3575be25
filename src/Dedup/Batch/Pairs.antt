-- ===== src/Dedup/Batch/Pairs.antt =====
-- Which pairs a batch records.
use gexpense_tracker_public.Prelude.{
  ℕ, ◌≡◌, sym, refl, ◌*◌, ◌≤◌, arith, false, Option, some, List, [], ◌∷◌, ◌==◌, ltb, length, map,
  if-elim, leb-of_ltb-false, length-append, pair_eq, nat_eq,
}
use gexpense_tracker_public.Prelude.Dict.{Dict, values}
use gexpense_tracker_public.Prelude.Members.{mem, IsNodup}
use gexpense_tracker_public.Prelude.Text.{Text}
use gexpense_tracker_public.Dedup.{Transaction, Email, DomainPairRule}
use gexpense_tracker_public.Dedup.Score.{Score}
use gexpense_tracker_public.Dedup.Rules.{rules_map, score_pair_with_rules}
use gexpense_tracker_public.Dedup.Batch.{
  Pair, Batch, pair_key, consider, record_pair, compare_existing, compare_new, is_compared,
  compare_rest, compare_group, compare_groups, sorted_pairs, batch_detect_duplicates, no_pairs,
  one_more_already_paired, one_more_existing, existing_map, amount_date_groups,
}

-- The two transactions of a pair, without their order.
abbrev pub key_of : Pair → ℕ × ℕ
key_of p = pair_key p.primary_tx_id p.duplicate_tx_id

-- Each pair is one that the database does not have, and its confidence is one half at least.
abbrev pub AreNew : List (ℕ × ℕ) → List Pair → Type 0
AreNew db [] = Unit
AreNew db (p ∷ ps) =
    (mem (key_of p) db ≡ false)
    × (p.score.confidence.den ≤ 2 * p.score.confidence.num)
    × AreNew db ps

-- `seen` holds the pairs recorded so far, none of them twice, and every one is new.
unfoldable pub IsSound : List (ℕ × ℕ) → Batch → Type 0
IsSound db b =
    (b.seen ≡ map key_of b.pairs)
    × IsNodup b.seen
    × AreNew db b.pairs
    × (length b.new_pair_ids ≡ length b.pairs)

module _ (lower : Text → Text) (uuid : ℕ → ℕ) (rules : Dict (Text × Text) DomainPairRule)
    (db : List (ℕ × ℕ)) where
  record_pair-IsSound :
      (tx other : Transaction) (s : Score) (b : Batch)
      → mem (pair_key tx.id other.id) b.seen ≡ false
      → mem (pair_key tx.id other.id) db ≡ false
      → s.confidence.den ≤ 2 * s.confidence.num
      → IsSound db b
      → IsSound db (record_pair uuid tx other s b)
  unfolding record_pair IsSound
  record_pair-IsSound tx other s b fresh unknown_pair half (same, nodup, new, ids) = (
    ground arith,
    (fresh, nodup),
    (unknown_pair, half, new),
    ground (arith, length-append b.new_pair_ids (uuid (length b.pairs) ∷ [])),
  )

  one_more_already_paired-IsSound :
      (b : Batch) → IsSound db b → IsSound db (one_more_already_paired b)
  unfolding IsSound
  one_more_already_paired-IsSound b sound = sound

  one_more_existing-IsSound : (b : Batch) → IsSound db b → IsSound db (one_more_existing b)
  unfolding IsSound
  one_more_existing-IsSound b sound = sound

  consider-IsSound :
      (tx : Transaction) (email : Option Email) (other : Transaction) (other_email : Option Email)
      (b : Batch)
      → IsSound db b
      → IsSound db (consider lower uuid rules db tx email other other_email b)
  unfolding consider
  consider-IsSound tx email other other_email b sound =
      let s = score_pair_with_rules lower rules tx email other other_email in
      if-elim (IsSound db) _ _ _ (λ e. sound)
        (λ fresh.
          if-elim (IsSound db) _ _ _ (λ e. one_more_already_paired-IsSound b sound)
            (λ e.
              if-elim (IsSound db) (ltb (2 * s.confidence.num) s.confidence.den) _ _ (λ e. sound)
                (λ half.
                  if-elim (IsSound db) _ _ _ (λ e. one_more_existing-IsSound b sound)
                    (λ unknown_pair.
                      record_pair-IsSound tx other s b fresh unknown_pair
                        (leb-of_ltb-false (2 * s.confidence.num) s.confidence.den half) sound))))

  compare_existing-IsSound :
      (tx : Transaction) (email : Option Email) (rows : List (Transaction × Email)) (b : Batch)
      → IsSound db b
      → IsSound db (compare_existing lower uuid rules db tx email rows b)
  unfolding compare_existing
  compare_existing-IsSound tx email [] b sound = sound
  compare_existing-IsSound tx email ((other, other_email) ∷ rows) b sound =
      compare_existing-IsSound tx email rows _ (
        if-elim (IsSound db) (other.id == tx.id) _ _ (λ e. sound)
          (λ e. consider-IsSound tx email other (some other_email) b sound))

  compare_new-IsSound :
      (existing : List (Transaction × Email)) (new : List (Transaction × Option Email)) (b : Batch)
      → IsSound db b
      → IsSound db (compare_new lower uuid rules db existing new b)
  unfolding compare_new
  compare_new-IsSound existing [] b sound = sound
  compare_new-IsSound existing ((tx, email) ∷ new) b sound = compare_new-IsSound existing new _ (
      if-elim (IsSound db) (is_compared lower uuid rules db tx email) _ _
        (λ e. compare_existing-IsSound tx email existing b sound) (λ e. sound))

  compare_rest-IsSound :
      (tx : Transaction) (email : Option Email) (group : List (Transaction × Option Email))
      (b : Batch)
      → IsSound db b
      → IsSound db (compare_rest lower uuid rules db tx email group b)
  unfolding compare_rest
  compare_rest-IsSound tx email [] b sound = sound
  compare_rest-IsSound tx email ((other, other_email) ∷ group) b sound =
      compare_rest-IsSound tx email group _ (consider-IsSound tx email other other_email b sound)

  compare_group-IsSound :
      (group : List (Transaction × Option Email)) (b : Batch)
      → IsSound db b
      → IsSound db (compare_group lower uuid rules db group b)
  unfolding compare_group
  compare_group-IsSound [] b sound = sound
  compare_group-IsSound ((tx, email) ∷ group) b sound =
      compare_group-IsSound group _ (compare_rest-IsSound tx email group b sound)

  compare_groups-IsSound :
      (groups : List (List (Transaction × Option Email))) (b : Batch)
      → IsSound db b
      → IsSound db (compare_groups lower uuid rules db groups b)
  unfolding compare_groups
  compare_groups-IsSound [] b sound = sound
  compare_groups-IsSound (group ∷ groups) b sound = compare_groups-IsSound groups _ (
      if-elim (IsSound db) (ltb (length group) 2) _ _ (λ e. sound)
        (λ e. compare_group-IsSound group b sound))

IsSound_lem :
    (db : List (ℕ × ℕ)) (b : Batch)
    → IsSound db b
    → IsNodup (map key_of b.pairs) × AreNew db b.pairs × (length b.new_pair_ids ≡ length b.pairs)
unfolding IsSound
IsSound_lem db b (same, nodup, new, ids) = (rw (sym same) nodup, new, ids)

no_pairs-IsSound : (db : List (ℕ × ℕ)) → IsSound db no_pairs
unfolding IsSound
no_pairs-IsSound db = (refl, tt, tt, refl)

-- Whatever the rows of the queries and the new transactions are, a batch records no two pairs of
-- the same two transactions, no pair that the table of pairs has, whichever of its two
-- transactions the table names first, and no pair of a confidence below one half; it reports as many identifiers as it records pairs.
pub batch_pairs-AreNew :
    (lower : Text → Text) (uuid : ℕ → ℕ) (user_id : ℕ) (table : List DomainPairRule)
    (existing : List (Transaction × Option Email)) (all_user_pairs : List (ℕ × ℕ))
    (new : List (Transaction × Option Email))
    → (let b = batch_detect_duplicates lower uuid user_id table existing all_user_pairs new in
        IsNodup (map key_of b.pairs)
        × AreNew (sorted_pairs all_user_pairs) b.pairs
        × (length b.new_pair_ids ≡ length b.pairs))
unfolding batch_detect_duplicates
batch_pairs-AreNew lower uuid user_id table existing all_user_pairs new =
    let db = sorted_pairs all_user_pairs in
    IsSound_lem db _ (
      compare_groups-IsSound lower uuid (rules_map user_id table) db
        (values (amount_date_groups new [])) _
        (compare_new-IsSound lower uuid (rules_map user_id table) db
          (values (existing_map existing [])) new no_pairs (no_pairs-IsSound db)))
