-- ===== src/Services/Partitions.antt =====
-- app/services/partition_manager.py. A month is its year and its number; `date` takes years up to
-- 9999, and the day of today keeps the months that are counted from it within them. A partition is
-- a relation of the catalog with its parent and its bounds. The names that are read back are those
-- that `regclass` prints: one with a sign or a blank has a quote at its end, which `int` refuses, so
-- that `int_of` is of digits.
pub mod Names
pub mod Months
pub mod Retention
use gexpense_tracker_public.Prelude.{
  ℕ, zero, suc, ◌+◌, ◌-◌, ◌*◌, Bool, true, false, ◌&&◌, ◌||◌, Option, none, some, List, [], ◌∷◌,
  ◌++◌, ◌==◌, ltb, leb, map, any, filter, length, both, not, if◌then◌else◌,
}
use gexpense_tracker_public.Prelude.Text.{Text, codes, text_equality, split_at}
use gexpense_tracker_public.Prelude.Decimal.{decimal, two_digits, int_of}
use gexpense_tracker_public.Prelude.Pieces.{last_piece, last_two}

abbrev pub Month : Type 0
Month = ℕ × ℕ

pub record Partition : Type 0 where
  pub parent : Text
  pub name : Text
  pub start : Month
  pub end_month : Month

-- `PARTITIONED_TABLES`
abbrev pub partitioned_tables : List Text
partitioned_tables = map codes ("transactions" ∷ "emails" ∷ "classification_log" ∷ [])

unfoldable pub next_month : Month → Month
next_month (y, m) = if m == 12 then (y + 1, 1) else (y, m + 1)

unfoldable pub previous_month : Month → Month
previous_month (y, m) = if m == 1 then (y - 1, 12) else (y, m - 1)

-- `_month_range`: the first days of the month and of the next one
unfoldable pub month_range : Month → Month × Month
unfolding next_month
month_range t = (t, next_month t)

-- `f"{table_name}_{y}_{m:02d}"`
unfoldable pub partition_name : Text → Month → Text
unfolding decimal two_digits
partition_name table (y, m) = table ++ (b'_' ∷ (decimal y ++ (b'_' ∷ two_digits m)))

-- `SELECT EXISTS (...)` on the names of the catalog
unfoldable pub has_relation : Text → List Partition → Bool
has_relation name catalog = any (λ p. text_equality.beq p.name name) catalog

-- The inner loop: one month, every table. The names created come with the catalog.
unfoldable pub ensure_month : Month → List Text → List Partition → List Text × List Partition
unfolding partition_name month_range has_relation
ensure_month t [] catalog = ([], catalog)
ensure_month t (table ∷ tables) catalog =
    if has_relation (partition_name table t) catalog
    then ensure_month t tables catalog
    else (let rest = ensure_month t tables (
          record {
            parent = table;
            name = partition_name table t;
            start = (month_range t).0;
            end_month = (month_range t).1;
          }
          ∷ catalog) in
        (partition_name table t ∷ rest.0, rest.1))

-- The outer loop, over `range(future_months)`.
unfoldable pub ensure_months : ℕ → Month → List Partition → List Text × List Partition
unfolding ensure_month next_month
ensure_months zero target catalog = ([], catalog)
ensure_months (suc n) target catalog =
    let now = ensure_month target partitioned_tables catalog in
    let rest = ensure_months n (next_month target) now.1 in (now.0 ++ rest.0, rest.1)

-- `ensure_future_partitions`, in the month of today
unfoldable pub ensure_future_partitions : Month → ℕ → List Partition → List Text × List Partition
unfolding ensure_months
ensure_future_partitions today future_months catalog = ensure_months future_months today catalog

-- The cutoff: `range(retention_months)` steps back.
unfoldable pub months_back : ℕ → Month → Month
unfolding previous_month
months_back zero t = t
months_back (suc n) t = months_back n (previous_month t)

-- What the name of a partition says: a row that is passed over, a month, or a month that
-- `date(y, m, 1)` refuses with an exception.
pub data Reading : Type 0 where
  skipped failed : Reading
  dated : Month → Reading

unfoldable pub month_of : ℕ → ℕ → Reading
month_of y m = if leb 1 m && leb m 12 && leb 1 y && leb y 9999 then dated (y, m) else failed

unfoldable pub last_or_empty : Option Text → Text
last_or_empty none = []
last_or_empty (some p) = p

-- `pname_raw.split(".")[-1]`
unfoldable pub without_schema : Text → Text
unfolding last_or_empty last_piece split_at
without_schema raw = last_or_empty (last_piece (split_at (λ c. c == b'.') raw))

unfoldable pub month_of_numbers : Option (ℕ × ℕ) → Reading
unfolding month_of
month_of_numbers none = skipped
month_of_numbers (some (y, m)) = month_of y m

-- `int(parts[-2]), int(parts[-1])` and the month of them
unfoldable pub month_of_pieces : Option (Text × Text) → Reading
unfolding int_of month_of_numbers
month_of_pieces none = skipped
month_of_pieces (some (y, m)) = month_of_numbers (both (int_of y) (int_of m))

unfoldable pub read_name : Text → Reading
unfolding split_at last_two month_of_pieces
read_name pname = month_of_pieces (last_two (split_at (λ c. c == b'_') pname))

-- `partition_date < cutoff`
unfoldable pub is_before : Month → Month → Bool
is_before (y, m) (year, month) = ltb y year || (y == year && ltb m month)

-- One round of the loop over the partitions of a table, before the names that the rest drops: none
-- where `date` has raised.
unfoldable pub drop_or_keep : Month → Text → Reading → Option (List Text) → Option (List Text)
unfolding is_before
drop_or_keep cutoff pname skipped rest = rest
drop_or_keep cutoff pname failed rest = none
drop_or_keep cutoff pname (dated t) none = none
drop_or_keep cutoff pname (dated t) (some names) =
    some (if is_before t cutoff then pname ∷ names else names)

unfoldable pub drop_rows : Month → List Text → Option (List Text)
unfolding without_schema read_name drop_or_keep
drop_rows cutoff [] = some []
drop_rows cutoff (raw ∷ rows) =
    let pname = without_schema raw in
    drop_or_keep cutoff pname (read_name pname) (drop_rows cutoff rows)

-- The names that are dropped of one table and of the others.
unfoldable pub with_others : Option (List Text) → Option (List Text) → Option (List Text)
with_others none others = none
with_others (some names) none = none
with_others (some names) (some others) = some (names ++ others)

-- The loop over the tables, each with the rows of its query.
unfoldable pub drop_tables : Month → (Text → List Text) → List Text → Option (List Text)
unfolding drop_rows with_others
drop_tables cutoff rows_of [] = some []
drop_tables cutoff rows_of (table ∷ tables) =
    with_others (drop_rows cutoff (rows_of table)) (drop_tables cutoff rows_of tables)

-- `drop_old_partitions`
unfoldable pub drop_old_partitions : Month → ℕ → (Text → List Text) → Option (List Text)
unfolding drop_tables months_back
drop_old_partitions today retention_months rows_of =
    drop_tables (months_back retention_months today) rows_of partitioned_tables

-- The query for the partitions of a table.
unfoldable pub partitions_of : List Partition → Text → List Text
partitions_of catalog table =
    map (λ p. p.name) (filter (λ p. text_equality.beq p.parent table) catalog)

-- `run_partition_maintenance`: how many partitions it has created and dropped, with none where it raises
unfoldable pub run_partition_maintenance : Month → ℕ → ℕ → List Partition → Option (ℕ × ℕ)
unfolding ensure_future_partitions drop_old_partitions partitions_of
run_partition_maintenance today future_months retention_months catalog =
    let created = ensure_future_partitions today future_months catalog in
    elim (drop_old_partitions today retention_months (partitions_of created.1)) [
      | none ↦ none
      | some dropped ↦ some (length created.0, length dropped)
    ]
