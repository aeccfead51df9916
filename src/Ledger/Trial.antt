-- ===== src/Ledger/Trial.antt =====
-- `getBalances`, `getTransactionStatus`, `trialBalance` and `recentPostedTxIds` of
-- src/do/ledger-do.ts.
pub mod Sound
use Prim.Native.Nat.{Ordering}
use Prim.Native.String.{compare}
use edgepay_cf.Prelude.{
  ℕ, String, Bool, true, false, ◌&&◌, List, [], ◌∷◌, map, Option, none, some, keep, ltb, ◌==◌,
  if◌then◌else◌,
}
use edgepay_cf.Prelude.Int.{ℤ, eqb_ℤ}
use edgepay_cf.Ledger.Chart.{LedgerAccountType}
use edgepay_cf.Ledger.Book.{
  AccountRow, PostedTransaction, find_posted, on_normal_side, net_of, total_debit, total_credit,
}
use edgepay_cf.Ledger.State.{LedgerDo}

-- `ORDER BY code`.
abbrev pub precedes : String → String → Bool
precedes c d = elim (compare c d) [ Ordering.gt ↦ false | _ ↦ true ]

unfoldable pub place : AccountRow → List AccountRow → List AccountRow
place a [] = a ∷ []
place a (b ∷ bs) = if precedes a.code b.code then a ∷ b ∷ bs else b ∷ place a bs

unfoldable pub order_by_code : List AccountRow → List AccountRow
unfolding place
order_by_code [] = []
order_by_code (a ∷ as') = place a (order_by_code as')

unfoldable pub get_balances : LedgerDo → List AccountRow
unfolding order_by_code
get_balances s = order_by_code s.accounts

pub record TransactionStatus : Type 0 where
  pub exists : Bool
  pub posted_at : Option ℕ

unfoldable pub get_transaction_status : String → LedgerDo → TransactionStatus
get_transaction_status tx_id s = elim (find_posted tx_id s.posted) [
  | none ↦ record { exists = false; posted_at = none }
  | some t ↦ record { exists = true; posted_at = some t.posted_at }
]

pub record TrialLine : Type 0 where
  pub code : String
  pub name : String
  pub account_type : LedgerAccountType
  pub balance_minor : ℤ
  pub derived_balance_minor : ℤ

pub record TrialBalance : Type 0 where
  pub balanced : Bool
  pub total_debit_minor : ℕ
  pub total_credit_minor : ℕ
  pub accounts : List TrialLine

abbrev pub trial_line : LedgerDo → AccountRow → TrialLine
trial_line s a = record {
  code = a.code;
  name = a.name;
  account_type = a.account_type;
  balance_minor = a.balance_minor;
  derived_balance_minor = on_normal_side a.account_type (net_of a.code s.journal);
}

-- `accounts.every(…)`
unfoldable pub every_line_agrees : List TrialLine → Bool
every_line_agrees [] = true
every_line_agrees (l ∷ ls) = eqb_ℤ l.balance_minor l.derived_balance_minor && every_line_agrees ls

unfoldable pub trial_balance : LedgerDo → TrialBalance
trial_balance s =
    let lines = map (trial_line s) (order_by_code s.accounts) in
    let debits = total_debit s.journal in
    let credits = total_credit s.journal in
    record {
      balanced = (debits == credits) && every_line_agrees lines;
      total_debit_minor = debits;
      total_credit_minor = credits;
      accounts = lines;
    }

abbrev pub ids : List PostedTransaction → List String
ids = map (λ t. t.tx_id)

unfoldable pub recent_posted_tx_ids : ℕ → LedgerDo → List String
recent_posted_tx_ids cutoff s = ids (keep (λ t. ltb cutoff t.posted_at) s.posted)
