-- ===== src/Dedup.antt =====
-- app/dedup/service.py: transactions that two emails report twice. The rows of the database are
-- records; an amount is in hundredths of the currency unit (the column is `Numeric(12, 2)`), a date
-- is its ordinal, an instant is in microseconds.
pub mod Merchant
pub mod Score
pub mod Rules
pub mod Dates
pub mod Primary
pub mod Batch
mod Tests
use gexpense_tracker_public.Prelude.{ℕ, Bool, Option, List}
use gexpense_tracker_public.Prelude.Int.{ℤ}
use gexpense_tracker_public.Prelude.Text.{Text}

-- A quotient `num / den`, as the program computes it in floats.
pub record Ratio : Type 0 where
  pub num : ℕ
  pub den : ℕ

pub data Label : Type 0 where
  expense income ignore self_transfer : Label

-- The columns that the scoring and the batch read.
pub record Transaction : Type 0 where
  pub id : ℕ
  pub label : Label
  pub amount : Option ℤ
  pub merchant : Option Text
  pub txn_date : Option ℕ
  pub created_at : Option ℕ

-- The columns that the scoring and the batch read. `body_dates` has an entry `none` for one that is no text or empty.
pub record Email : Type 0 where
  pub user_id : ℕ
  pub sender_domain : Option Text
  pub subject : Option Text
  pub received_at : Option ℕ
  pub body_dates : Option (List (Option ℕ))
  pub reference_ids : Option (List Text)

pub record DomainPairRule : Type 0 where
  pub domain_a : Text
  pub domain_b : Text
  pub user_id : Option ℕ
  pub confirmed_count : ℕ
  pub dismissed_count : ℕ
  pub confidence : Ratio
  pub auto_resolve : Bool
