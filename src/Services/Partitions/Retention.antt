-- ===== src/Services/Partitions/Retention.antt =====
-- The partitions that are dropped are those older than the retention.
use gexpense_tracker_public.Prelude.{
  ◌++◌, ℕ, ◌≡◌, refl, ap, ◌∙◌, ◌≤◌, ◌+◌, arith, Bool, false, some, List, [], ◌∷◌, any, ltb, map,
  filter, if◌then◌else◌, if-elim,
}
use gexpense_tracker_public.Prelude.Text.{Text}
use gexpense_tracker_public.Services.Partitions.{
  Month, dated, partition_name, without_schema, read_name, drop_or_keep, drop_rows,
  drop_old_partitions, drop_tables, with_others, partitioned_tables, months_back,
}
use gexpense_tracker_public.Services.Partitions.Months.{
  IsMonth, index, index-months_back, is_before_lem,
}
use gexpense_tracker_public.Services.Partitions.Names.{
  without_schema-plain, any-partition_name, is_dot, read_name-without_schema,
}

-- A month that `date` has.
abbrev pub IsDated : Month → Type 0
IsDated t = IsMonth t × (1 ≤ t.0) × (t.0 ≤ 9999)

abbrev pub AreDated : List Month → Type 0
AreDated [] = Unit
AreDated (t ∷ ts) = IsDated t × AreDated ts

read_row :
    (table : Text) (t : Month)
    → any is_dot table ≡ false
    → IsDated t
    → (without_schema (partition_name table t) ≡ partition_name table t)
      × (read_name (without_schema (partition_name table t)) ≡ dated t)
read_row table (y, m) plain h = (
  without_schema-plain _ (any-partition_name table y m plain),
  (read_name-without_schema [] table y m plain h.0.0 h.0.1 h.1 h.2).0,
)

drop_rows-partition_name :
    (table : Text) (cutoff : Month) (ts : List Month)
    → any is_dot table ≡ false
    → IsMonth cutoff
    → AreDated ts
    → drop_rows cutoff (map (partition_name table) ts)
      ≡ some (map (partition_name table) (filter (λ t. ltb (index t) (index cutoff)) ts))
unfolding drop_rows drop_or_keep
drop_rows-partition_name table cutoff [] plain h dates = refl
drop_rows-partition_name table cutoff (t ∷ ts) plain h dates =
    let read = read_row table t plain dates.0 in
    let rest = filter (λ t. ltb (index t) (index cutoff)) ts in
    ap
      (λ r.
        drop_or_keep cutoff (without_schema (partition_name table t)) r
          (drop_rows cutoff (map (partition_name table) ts)))
      read.1
    ∙ ap
        (λ pname.
          drop_or_keep cutoff pname (dated t) (drop_rows cutoff (map (partition_name table) ts)))
        read.0
    ∙ ap (drop_or_keep cutoff (partition_name table t) (dated t))
        (drop_rows-partition_name table cutoff ts plain h dates.1)
    ∙ ap
        (λ b. some (
          if b
          then partition_name table t ∷ map (partition_name table) rest
          else map (partition_name table) rest))
        (is_before_lem t cutoff dates.0.0 h)
    ∙ if-elim
        (λ us.
          some (
            if ltb (index t) (index cutoff)
            then partition_name table t ∷ map (partition_name table) rest
            else map (partition_name table) rest)
          ≡ some (map (partition_name table) us))
        (ltb (index t) (index cutoff)) _ _ (λ e. ground arith) (λ e. ground arith)

filter_same :
    (p q : Month → Bool) → ((t : Month) → p t ≡ q t) → (ts : List Month) → filter p ts ≡ filter q ts
filter_same p q same [] = refl
filter_same p q same (t ∷ ts) = rw (same t, filter_same p q same ts) refl

-- The names of the partitions of tables, of the months that a test takes.
abbrev pub names_of : (Month → Bool) → (Text → List Month) → List Text → List Text
names_of p months [] = []
names_of p months (table ∷ tables) =
    map (partition_name table) (filter p (months table)) ++ names_of p months tables

abbrev pub ArePlain : List Text → Type 0
ArePlain [] = Unit
ArePlain (table ∷ tables) = (any is_dot table ≡ false) × ArePlain tables

drop_tables-names_of :
    (today : Month) (retention : ℕ) (months : Text → List Month) (tables : List Text)
    → ArePlain tables
    → IsMonth today
    → retention + 13 ≤ index today
    → ((table : Text) → AreDated (months table))
    → drop_tables
        (months_back retention today)
        (λ table. map (partition_name table) (months table))
        tables
      ≡ some (names_of (λ t. ltb (index t + retention) (index today)) months tables)
unfolding drop_tables with_others
drop_tables-names_of today retention months [] plain h far dates = refl
drop_tables-names_of today retention months (table ∷ tables) plain h far dates =
    let back = index-months_back retention today h far in
    let same =
      filter_same (λ t. ltb (index t) (index (months_back retention today)))
        (λ t. ltb (index t + retention) (index today)) (λ t. ground (arith, back.0))
        (months table) in
    λ i.
      with_others
        ((drop_rows-partition_name table (months_back retention today) (months table) plain.0 back.1
              (dates table)
            ∙ ap (λ us. some (map (partition_name table) us)) same)
          i)
        (drop_tables-names_of today retention months tables plain.1 h far dates i)

-- Where the partitions of the tables are named for months, those are dropped whose month is more than
-- the retention before the month of today, and no others: the months are of the calendar, and the
-- retention does not go back past the first year.
pub drop_old_partitions-names_of :
    (today : Month) (retention : ℕ) (months : Text → List Month)
    → IsMonth today
    → retention + 13 ≤ index today
    → ((table : Text) → AreDated (months table))
    → drop_old_partitions today retention (λ table. map (partition_name table) (months table))
      ≡ some (names_of (λ t. ltb (index t + retention) (index today)) months partitioned_tables)
unfolding drop_old_partitions
drop_old_partitions-names_of today retention months h far dates =
    drop_tables-names_of today retention months partitioned_tables (refl, (refl, (refl, tt))) h far
      dates
