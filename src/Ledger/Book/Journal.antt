-- ===== src/Ledger/Book/Journal.antt =====
-- Sums over the journal of src/do/ledger-do.ts: what a posting's entries add to each.
use edgepay_cf.Prelude.{
  ℕ, ◌+◌, ◌≡◌, ◌≢◌, refl, sym, String, List, [], ◌∷◌, ◌++◌, none, All, arith, str_eq, str_eq_iff,
  if◌then◌else◌,
}
use edgepay_cf.Prelude.Int.{ℤ, pos, ◌+ℤ◌, zero_+ℤ, +ℤ_assoc}
use edgepay_cf.Ledger.Types.{PostingEntry}
use edgepay_cf.Ledger.Shape.{magnitude}
use edgepay_cf.Ledger.Shape.Balanced.{debit_sum, credit_sum, IsValidEntry}
use edgepay_cf.Ledger.Book.{
  AccountRow, JournalEntry, find_account, signed, journal_rows, net_of, total_debit, total_credit,
}

-- Every journal row names an account of the table.
abbrev pub Known : List AccountRow → JournalEntry → Type 0
Known as' r = find_account r.account_code as' ≢ none

-- What the entries of a posting add to the net debit of one account.
unfoldable pub entries_net : String → List PostingEntry → ℤ
entries_net c [] = pos 0
entries_net c (e ∷ es) =
    let rest = entries_net c es in
    if str_eq e.account_code c then signed e.direction (magnitude e.amount_minor) +ℤ rest else rest

pub net_of-append :
    (c : String) (xs ys : List JournalEntry) → net_of c (xs ++ ys) ≡ net_of c xs +ℤ net_of c ys
unfolding net_of
net_of-append c [] ys = sym (zero_+ℤ _)
net_of-append c (x ∷ xs) ys = ground (
  arith,
  net_of-append c xs ys,
  +ℤ_assoc (signed x.direction x.amount_minor) (net_of c xs) (net_of c ys),
)

pub net_of-journal_rows :
    (c : String) (at seq : ℕ) (tx : String) (es : List PostingEntry)
    → net_of c (journal_rows at seq tx es) ≡ entries_net c es
unfolding net_of journal_rows entries_net
net_of-journal_rows c at seq tx [] = refl
net_of-journal_rows c at seq tx (e ∷ es) = ground (arith, net_of-journal_rows c at (seq + 1) tx es)

pub net_of_unknown :
    (c : String) (as' : List AccountRow) (rs : List JournalEntry)
    → find_account c as' ≡ none
    → All (Known as') rs
    → net_of c rs ≡ pos 0
unfolding net_of
net_of_unknown c as' [] new k = refl
net_of_unknown c as' (r ∷ rs) new k =
    ground (arith, k.0, str_eq_iff r.account_code c, net_of_unknown c as' rs new k.1)

pub total_debit-append :
    (xs ys : List JournalEntry) → total_debit (xs ++ ys) ≡ total_debit xs + total_debit ys
unfolding total_debit
total_debit-append [] ys = omega arith
total_debit-append (x ∷ xs) ys = omega (arith, total_debit-append xs ys)

pub total_credit-append :
    (xs ys : List JournalEntry) → total_credit (xs ++ ys) ≡ total_credit xs + total_credit ys
unfolding total_credit
total_credit-append [] ys = omega arith
total_credit-append (x ∷ xs) ys = omega (arith, total_credit-append xs ys)

-- The journal's totals of a valid posting are the sums that validation compares.
pub totals-journal_rows :
    (at seq : ℕ) (tx : String) (es : List PostingEntry)
    → All IsValidEntry es
    → (total_debit (journal_rows at seq tx es) ≡ debit_sum es)
      × (total_credit (journal_rows at seq tx es) ≡ credit_sum es)
unfolding total_debit total_credit journal_rows
totals-journal_rows at seq tx [] h = (refl, refl)
totals-journal_rows at seq tx (e ∷ es) (v, vs) =
    ground (arith, v.0, totals-journal_rows at (seq + 1) tx es vs)
