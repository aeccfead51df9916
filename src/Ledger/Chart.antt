-- ===== src/Ledger/Chart.antt =====
-- The chart of accounts and the normal side of an account (src/lib/ledger-chart.ts).
use edgepay_cf.Prelude.{String, Bool, true, false, List, [], ◌∷◌}

pub data LedgerAccountType : Type 0 where
  asset liability equity revenue expense : LedgerAccountType

pub record ChartAccount : Type 0 where
  pub code : String
  pub name : String
  pub account_type : LedgerAccountType

abbrev entry : String → String → LedgerAccountType → ChartAccount
entry c n t = record { code = c; name = n; account_type = t }

unfoldable pub default_chart_of_accounts : List ChartAccount
default_chart_of_accounts =
    entry "1000" "Cash at Bank" asset
    ∷ entry "1010" "Gateway Clearing" asset
    ∷ entry "1100" "Accounts Receivable" asset
    ∷ entry "1200" "Prepaid Fees" asset
    ∷ entry "2000" "Accounts Payable" liability
    ∷ entry "2100" "Customer Credits" liability
    ∷ entry "2200" "Refunds Payable" liability
    ∷ entry "3000" "Owner Equity" equity
    ∷ entry "3100" "Retained Earnings" equity
    ∷ entry "4000" "Payment Revenue" revenue
    ∷ entry "4100" "Gateway Fees Revenue" revenue
    ∷ entry "5000" "Gateway Fees Expense" expense
    ∷ entry "5100" "Refund Expense" expense
    ∷ entry "5200" "Chargeback Expense" expense
    ∷ []

unfoldable pub is_debit_normal : LedgerAccountType → Bool
is_debit_normal asset = true
is_debit_normal expense = true
is_debit_normal _ = false
