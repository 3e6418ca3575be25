-- ===== src/Services/Tests.antt =====
-- Runs of the partitions on concrete names.
use gexpense_tracker_public.Prelude.{◌≡◌, refl, arith, some, List, [], ◌∷◌, ◌++◌, map, ltb, ◌+◌}
use gexpense_tracker_public.Prelude.Text.{codes, text_eq}
use gexpense_tracker_public.Services.Partitions.{
  Month, partition_name, dated, without_schema, read_name, drop_old_partitions,
  ensure_future_partitions, partitioned_tables, run_partition_maintenance,
}
use gexpense_tracker_public.Services.Partitions.Months.{index}
use gexpense_tracker_public.Services.Partitions.Names.{read_name-without_schema}
use gexpense_tracker_public.Services.Partitions.Retention.{names_of, drop_old_partitions-names_of}

names : partition_name (codes "emails") (2026, 3) ≡ codes "emails_2026_03"
unfolding partition_name
names = refl

-- over the end of a year
created :
    (ensure_future_partitions (2026, 12) 2 []).0
    ≡ map codes (
        "transactions_2026_12" ∷ "emails_2026_12" ∷ "classification_log_2026_12"
        ∷ "transactions_2027_01" ∷ "emails_2027_01" ∷ "classification_log_2027_01" ∷ [])
unfolding ensure_future_partitions text_eq
created = refl

read_name-without_schema_example :
    (read_name (without_schema (partition_name (codes "emails") (2026, 3))) ≡ dated (2026, 3))
    × (read_name
          (without_schema (codes "public" ++ b'.' ∷ partition_name (codes "emails") (2026, 3)))
        ≡ dated (2026, 3))
read_name-without_schema_example =
    read_name-without_schema (codes "public") (codes "emails") 2026 3 refl (omega arith)
      (omega arith) (omega arith) (omega arith)

abbrev three_months : List Month
three_months = (2025, 11) ∷ (2026, 1) ∷ (2026, 2) ∷ []

drop_old_partitions-names_of_example :
    drop_old_partitions (2026, 3) 2 (λ table. map (partition_name table) three_months)
    ≡ some (
        names_of
          (λ t. ltb (index t + 2) (index (2026, 3)))
          (λ table. three_months)
          partitioned_tables)
drop_old_partitions-names_of_example =
    drop_old_partitions-names_of (2026, 3) 2 (λ table. three_months) (omega arith, omega arith)
      (omega arith)
      (λ table. (
        ((omega arith, omega arith), omega arith, omega arith),
        (
          ((omega arith, omega arith), omega arith, omega arith),
          (((omega arith, omega arith), omega arith, omega arith), tt),
        ),
      ))

-- Three partitions are made, and the old one is dropped.
maintained :
    run_partition_maintenance
      (2026, 3)
      1
      2
      (record {
        parent = codes "emails";
        name = codes "emails_2025_11";
        start = (2025, 11);
        end_month = (2025, 12);
      }
        ∷ [])
    ≡ some (3, 1)
unfolding run_partition_maintenance text_eq
maintained = refl
