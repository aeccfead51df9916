-- ===== src/Posting/Entries.antt =====
-- What the services post and read through `LedgerService`: the payment and refund entries, the chart
-- of a new merchant, and the balances (src/services/ledger.ts). A call that the source starts in
-- parallel is a look-up that changes nothing.
use edgepay_cf.Prelude.{
  ℕ, ◌+◌, String, Bool, ◌&&◌, List, [], ◌∷◌, ◌++◌, Option, none, some, str_eq, ◌==◌, if◌then◌else◌,
}
use edgepay_cf.Prelude.Int.{pos}
use edgepay_cf.Prelude.Texts.{join, decimal}
use edgepay_cf.Ledger.Types.{debit, credit, ReferenceType, PostingResult}
use edgepay_cf.Ledger.Chart.{ChartAccount, default_chart_of_accounts}
use edgepay_cf.Ledger.Book.{AccountRow}
use edgepay_cf.Ledger.Trial.{get_balances, trial_balance}
use edgepay_cf.Money.{Decimals}
use edgepay_cf.Posting.{
  LedgerAccount, Platform, Outcome, throws, accounts_not_initialized, PostEntryInput,
  PostTransactionInput, Call, post, get_account_by_code,
}

-- `m{merchant}:payment:{intent}`
abbrev pub payment_tx_id : ℕ → ℕ → String
payment_tx_id merchant intent = join ("m" ∷ decimal merchant ∷ ":payment:" ∷ decimal intent ∷ [])

-- `m{merchant}:refund:{refund}`
abbrev pub refund_tx_id : ℕ → String → String
refund_tx_id merchant refund_public_id =
    join ("m" ∷ decimal merchant ∷ ":refund:" ∷ refund_public_id ∷ [])

abbrev pub fee_entries : LedgerAccount → LedgerAccount → String → List PostEntryInput
fee_entries clearing expense fee =
    if str_eq fee "0.00"
    then []
    else record { account_id = expense.id; direction = debit; amount = fee }
      ∷ record { account_id = clearing.id; direction = credit; amount = fee }
      ∷ []

abbrev pub payment_input :
    LedgerAccount
    → LedgerAccount
    → LedgerAccount
    → ℕ
    → ℕ
    → String
    → String
    → String
    → PostTransactionInput
payment_input clearing revenue expense merchant intent amount fee currency = record {
  merchant_id = merchant;
  reference_type = ReferenceType.payment;
  reference_id = some (decimal intent);
  description = join ("Payment " ∷ decimal intent ∷ " — " ∷ amount ∷ " " ∷ currency ∷ []);
  entries =
      (record { account_id = clearing.id; direction = debit; amount = amount }
        ∷ record { account_id = revenue.id; direction = credit; amount = amount }
        ∷ [])
      ++ fee_entries clearing expense fee;
}

unfoldable pub post_payment_ledger_entry :
    Call → ℕ → ℕ → String → String → String → Platform → Platform × Outcome PostingResult
post_payment_ledger_entry c merchant intent amount fee currency x =
    elim (get_account_by_code merchant "1010" currency x.accounts) [
      | none ↦ (x, throws accounts_not_initialized)
      | some clearing ↦ elim (get_account_by_code merchant "4000" currency x.accounts) [
        | none ↦ (x, throws accounts_not_initialized)
        | some revenue ↦ elim (get_account_by_code merchant "5000" currency x.accounts) [
          | none ↦ (x, throws accounts_not_initialized)
          | some expense ↦
              post c (some (payment_tx_id merchant intent))
                (payment_input clearing revenue expense merchant intent amount fee currency) x
        ]
      ]
    ]

abbrev pub refund_input :
    LedgerAccount → LedgerAccount → ℕ → String → String → String → PostTransactionInput
refund_input clearing revenue merchant refund_public_id amount currency = record {
  merchant_id = merchant;
  reference_type = ReferenceType.refund;
  reference_id = some refund_public_id;
  description = join ("Refund " ∷ refund_public_id ∷ " — " ∷ amount ∷ " " ∷ currency ∷ []);
  entries =
      record { account_id = revenue.id; direction = debit; amount = amount }
      ∷ record { account_id = clearing.id; direction = credit; amount = amount }
      ∷ [];
}

unfoldable pub post_refund_ledger_entry :
    Call → ℕ → String → String → String → Platform → Platform × Outcome PostingResult
post_refund_ledger_entry c merchant refund_public_id amount currency x =
    elim (get_account_by_code merchant "1010" currency x.accounts) [
      | none ↦ (x, throws accounts_not_initialized)
      | some clearing ↦ elim (get_account_by_code merchant "4000" currency x.accounts) [
        | none ↦ (x, throws accounts_not_initialized)
        | some revenue ↦
            post c (some (refund_tx_id merchant refund_public_id))
              (refund_input clearing revenue merchant refund_public_id amount currency) x
      ]
    ]

-- `INSERT OR IGNORE`: merchant, code and currency are unique.
abbrev pub insert_account : ℕ → String → ChartAccount → Platform → Platform
insert_account merchant currency a x =
    elim (get_account_by_code merchant a.code currency x.accounts) [
      | some _ ↦ x
      | none ↦ record x {
        accounts =
            x.accounts
            ++ (record {
              id = x.account_seq;
              merchant_id = merchant;
              code = a.code;
              name = a.name;
              account_type = a.account_type;
              currency = currency;
            }
                ∷ []);
        account_seq = x.account_seq + 1;
      }
    ]

unfoldable pub insert_accounts : ℕ → String → List ChartAccount → Platform → Platform
insert_accounts merchant currency [] x = x
insert_accounts merchant currency (a ∷ rest) x =
    insert_accounts merchant currency rest (insert_account merchant currency a x)

unfoldable pub create_default_chart_of_accounts : ℕ → String → Platform → Platform
create_default_chart_of_accounts merchant currency =
    insert_accounts merchant currency default_chart_of_accounts

abbrev pub find_balance : String → List AccountRow → Option AccountRow
find_balance code [] = none
find_balance code (b ∷ bs) = if str_eq b.code code then some b else find_balance code bs

-- `SELECT code … WHERE id = ? AND merchant_id = ?`
abbrev pub find_own : ℕ → ℕ → List LedgerAccount → Option LedgerAccount
find_own account_id merchant [] = none
find_own account_id merchant (a ∷ rest) =
    if (a.id == account_id) && (a.merchant_id == merchant)
    then some a
    else find_own account_id merchant rest

unfoldable pub get_account_balance : Decimals → ℕ → ℕ → Platform → String
get_account_balance d account_id merchant x = elim (find_own account_id merchant x.accounts) [
  | none ↦ "0.00"
  | some a ↦ elim (find_balance a.code (get_balances (x.books merchant))) [
    | none ↦ "0.00"
    | some b ↦ d.of_minor b.balance_minor
  ]
]

pub record TrialReport : Type 0 where
  pub balanced : Bool
  pub total_debits : String
  pub total_credits : String

unfoldable pub report_trial_balance : Decimals → ℕ → Platform → TrialReport
report_trial_balance d merchant x =
    let t = trial_balance (x.books merchant) in
    record {
      balanced = t.balanced;
      total_debits = d.of_minor (pos t.total_debit_minor);
      total_credits = d.of_minor (pos t.total_credit_minor);
    }
