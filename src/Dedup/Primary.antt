-- ===== src/Dedup/Primary.antt =====
-- `_pick_primary` of app/dedup/service.py: which of two transactions a pair keeps.
use gexpense_tracker_public.Prelude.{
  ℕ, ◌≡◌, refl, ◌<◌, arith, Option, none, some, both, leb, if◌then◌else◌,
}
use gexpense_tracker_public.Dedup.{Transaction, Email}

-- `email.received_at if email and email.received_at else None`
unfoldable pub arrival : Option Email → Option ℕ
arrival none = none
arrival (some email) = email.received_at

-- The identifier of the earlier one of the two, the first one where they are level.
unfoldable pub earlier : Transaction → Transaction → ℕ × ℕ → ℕ
earlier tx1 tx2 (t1, t2) = if leb t1 t2 then tx1.id else tx2.id

-- `_pick_primary`
unfoldable pub pick_primary : Transaction → Option Email → Transaction → Option Email → ℕ
unfolding arrival earlier
pick_primary tx1 email1 tx2 email2 = elim (both (arrival email1) (arrival email2)) [
  | some times ↦ earlier tx1 tx2 times
  | none ↦ elim (both tx1.txn_date tx2.txn_date) [
    | some dates ↦ earlier tx1 tx2 dates
    | none ↦ elim (both tx1.created_at tx2.created_at) [
      | some times ↦ earlier tx1 tx2 times
      | none ↦ tx1.id
    ]
  ]
]

-- The first pair of times of the same kind that both transactions have: their arrivals, their dates
-- or the creations of their rows.
unfoldable pub deciding_times :
    Transaction → Option Email → Transaction → Option Email → Option (ℕ × ℕ)
unfolding arrival
deciding_times tx1 email1 tx2 email2 = elim (both (arrival email1) (arrival email2)) [
  | some times ↦ some times
  | none ↦ elim (both tx1.txn_date tx2.txn_date) [
    | some dates ↦ some dates
    | none ↦ both tx1.created_at tx2.created_at
  ]
]

both-swap : (a b : Option ℕ) → both b a ≡ elim (both a b) [ none ↦ none | some p ↦ some (p.1, p.0) ]
both-swap none none = refl
both-swap none (some b) = refl
both-swap (some a) none = refl
both-swap (some a) (some b) = refl

-- Where the first times of the same kind that both transactions have differ, the transaction with
-- the earlier time is picked, whichever of the two is given first.
pick_primary-earlier :
    (tx1 : Transaction) (email1 : Option Email) (tx2 : Transaction) (email2 : Option Email)
    (t1 t2 : ℕ)
    → deciding_times tx1 email1 tx2 email2 ≡ some (t1, t2)
    → t1 < t2
    → (pick_primary tx1 email1 tx2 email2 ≡ tx1.id) × (pick_primary tx2 email2 tx1 email1 ≡ tx1.id)
unfolding deciding_times pick_primary earlier
pick_primary-earlier tx1 email1 tx2 email2 t1 t2 h before = ground (
  arith,
  both-swap (arrival email1) (arrival email2),
  both-swap tx1.txn_date tx2.txn_date,
  both-swap tx1.created_at tx2.created_at,
)
