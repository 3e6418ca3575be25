-- ===== src/Api/Debts/Valid.antt =====
-- No request leaves a debt that is overpaid, and none touches another user's debts.
use gexpense_tracker_public.Prelude.{
  ℕ, ◌≡◌, refl, arith, false, List, [], ◌∷◌, ◌++◌, ◌==◌, if-elim, Option-elim,
}
use gexpense_tracker_public.Prelude.Int.{ℤ, pos}
use gexpense_tracker_public.Prelude.Text.{strip, is_empty}
use mathlib.Core.Path.{subst}
use gexpense_tracker_public.Api.Amounts.{Floats, IsAtMost, IsOrdered}
use gexpense_tracker_public.Api.{
  Answer, find_own, rows_of, All, All-update_own, All-delete_own, rows_of-update_own,
  rows_of-delete_own,
}
use gexpense_tracker_public.Api.Debts.{
  DebtBody, Debt, DebtView, debt_row, has_bad_amounts, new_debt, assign, create_debt, update_debt,
  delete_debt, Request, create, update, delete, serve, serve_all,
}

-- No amount is negative, and the paid amount is not above the total.
abbrev pub HasAmounts : ℤ → ℤ → Type 0
HasAmounts total paid = IsAtMost (pos 0) total × IsAtMost (pos 0) paid × IsAtMost paid total

abbrev pub IsPayable : Debt → Type 0
IsPayable d = HasAmounts d.total_amount d.paid_amount

-- Every debt of the table that a handler leaves is payable.
abbrev ArePayable : Answer DebtView × List Debt → Type 0
ArePayable r = All IsPayable r.1

All-append :
    (debts : List Debt) (d : Debt)
    → All IsPayable debts
    → IsPayable d
    → All IsPayable (debts ++ d ∷ [])
All-append [] d p q = (q, tt)
All-append (e ∷ debts) d p q = (p.0, All-append debts d p.1 q)

module _ {F : Type 0} ⦃floats : Floats F⦄ where
  HasAmounts-has_bad_amounts :
      IsOrdered F floats
      → (body : DebtBody F) → has_bad_amounts body ≡ false
      → HasAmounts (floats.column body.total_amount) (floats.column body.paid_amount)
  unfolding has_bad_amounts
  HasAmounts-has_bad_amounts ordered body good =
      let total = body.total_amount in
      let paid = body.paid_amount in
      (
        subst (λ z. IsAtMost z (floats.column total)) ordered.column_nought
            (ordered.column_le floats.nought total
              (ordered.le_of_not_le total floats.nought (ground arith))),
        subst (λ z. IsAtMost z (floats.column paid)) ordered.column_nought
            (ordered.column_le floats.nought paid
              (ordered.le_of_not_lt paid floats.nought (ground arith))),
        ordered.column_le paid total (ordered.le_of_not_lt total paid (ground arith)),
      )

  create_debt-IsPayable :
      IsOrdered F floats
      → (user id now : ℕ) (body : DebtBody F) (debts : List Debt) → All IsPayable debts
      → All IsPayable (create_debt user id now body debts).1
  unfolding create_debt new_debt
  create_debt-IsPayable ordered user id now body debts p =
      if-elim ArePayable (is_empty (strip body.name)) _ _ (λ e. p)
        (λ e.
          if-elim ArePayable (has_bad_amounts body) _ _ (λ e. p)
            (λ good. All-append debts _ p (HasAmounts-has_bad_amounts ordered body good)))

  assign-IsPayable :
      (body : DebtBody F) (d : Debt)
      → HasAmounts (floats.column body.total_amount) (floats.column body.paid_amount)
      → IsPayable (assign body d)
  unfolding assign
  assign-IsPayable body d p = p

  update_debt-IsPayable :
      IsOrdered F floats
      → (user id : ℕ) (body : DebtBody F) (debts : List Debt) → All IsPayable debts
      → All IsPayable (update_debt user id body debts).1
  unfolding update_debt
  update_debt-IsPayable ordered user id body debts p =
      Option-elim ArePayable (find_own id user debts) _ _ (λ e. p)
        (λ d e.
          if-elim ArePayable (has_bad_amounts body) _ _ (λ e. p)
            (λ good.
              All-update_own IsPayable id user (assign body) debts
                (λ a q. assign-IsPayable body a (HasAmounts-has_bad_amounts ordered body good)) p))

delete_debt-IsPayable :
    (user id : ℕ) (debts : List Debt)
    → All IsPayable debts
    → All IsPayable (delete_debt user id debts).1
unfolding delete_debt
delete_debt-IsPayable user id debts p =
    Option-elim {B = Answer ℕ × List Debt} (λ r. All IsPayable r.1) (find_own id user debts) _ _
      (λ e. p) (λ d e. All-delete_own IsPayable id user debts p)

module _ {F : Type 0} ⦃floats : Floats F⦄ where
  serve-IsPayable :
      IsOrdered F floats
      → (user : ℕ) (r : Request F) (debts : List Debt) → All IsPayable debts
      → All IsPayable (serve user r debts)
  unfolding serve
  serve-IsPayable ordered user (create id now body) debts p =
      create_debt-IsPayable ordered user id now body debts p
  serve-IsPayable ordered user (update id body) debts p =
      update_debt-IsPayable ordered user id body debts p
  serve-IsPayable ordered user (delete id) debts p = delete_debt-IsPayable user id debts p

  -- Where the paid amount of every debt in the table is between zero and the total, the same holds after
  -- any requests of any users, whatever floats that are numbers the requests give as amounts: the
  -- order of the floats is total, and the column's rounding keeps the order and keeps zero.
  pub serve_all-IsPayable :
      IsOrdered F floats
      → (requests : List (ℕ × Request F)) (debts : List Debt) → All IsPayable debts
      → All IsPayable (serve_all requests debts)
  unfolding serve_all
  serve_all-IsPayable ordered [] debts p = p
  serve_all-IsPayable ordered ((user, r) ∷ requests) debts p =
      serve_all-IsPayable ordered requests (serve user r debts)
        (serve-IsPayable ordered user r debts p)

rows_of-append :
    (other : ℕ) (debts : List Debt) (d : Debt)
    → (d.user_id == other) ≡ false
    → rows_of other (debts ++ d ∷ []) ≡ rows_of other debts
unfolding rows_of
rows_of-append other [] d differ = rw differ refl
rows_of-append other (e ∷ debts) d differ = rw (rows_of-append other debts d differ) refl

-- A handler leaves the debts of this user as they are.
abbrev KeepsRows : ℕ → List Debt → Answer DebtView × List Debt → Type 0
KeepsRows other debts r = rows_of other r.1 ≡ rows_of other debts

module _ {F : Type 0} ⦃floats : Floats F⦄ where
  new_debt-differs :
      (user id now : ℕ) (body : DebtBody F) (other : ℕ)
      → (user == other) ≡ false
      → ((new_debt user id now body).user_id == other) ≡ false
  unfolding new_debt
  new_debt-differs user id now body other differ = differ

  user_of-assign : (body : DebtBody F) (d : Debt) → (assign body d).user_id ≡ d.user_id
  unfolding assign
  user_of-assign body d = refl

  -- A request of one user changes nothing among the debts of another user.
  pub rows_of-serve :
      (user other : ℕ) (r : Request F) (debts : List Debt)
      → (user == other) ≡ false
      → rows_of other (serve user r debts) ≡ rows_of other debts
  unfolding serve create_debt update_debt delete_debt
  rows_of-serve user other (create id now body) debts differ =
      if-elim (KeepsRows other debts) (is_empty (strip body.name)) _ _ (λ e. refl)
        (λ e.
          if-elim (KeepsRows other debts) (has_bad_amounts body) _ _ (λ e. refl)
            (λ good.
              rows_of-append other debts (new_debt user id now body)
                (new_debt-differs user id now body other differ)))
  rows_of-serve user other (update id body) debts differ =
      Option-elim (KeepsRows other debts) (find_own id user debts) _ _ (λ e. refl)
        (λ d e.
          if-elim (KeepsRows other debts) (has_bad_amounts body) _ _ (λ e. refl)
            (λ good.
              rows_of-update_own id user other (assign body) debts differ (user_of-assign body)))
  rows_of-serve user other (delete id) debts differ =
      Option-elim {B = Answer ℕ × List Debt} (λ r. rows_of other r.1 ≡ rows_of other debts)
        (find_own id user debts) _ _ (λ e. refl)
        (λ d e. rows_of-delete_own id user other debts differ)
