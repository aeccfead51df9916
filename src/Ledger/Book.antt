-- ===== src/Ledger/Book.antt =====
-- The tables `accounts`, `posted_transactions` and `journal_entries` of src/do/ledger-do.ts, and the
-- statements that read and write them. A table is its rows in the order of insertion.
pub mod Rows
pub mod Journal
use edgepay_cf.Prelude.{
  ℕ, ◌+◌, String, Bool, true, false, List, [], ◌∷◌, ◌++◌, map, Option, none, some, str_eq,
  if◌then◌else◌,
}
use edgepay_cf.Prelude.Int.{ℤ, pos, ◌+ℤ◌, neg}
use edgepay_cf.Prelude.Dict.{Dict}
use edgepay_cf.Ledger.Types.{
  Direction, debit, credit, unlisted, ReferenceType, PostingEntry, PostingPayload,
}
use edgepay_cf.Ledger.Chart.{
  LedgerAccountType, ChartAccount, default_chart_of_accounts, is_debit_normal,
}
use edgepay_cf.Ledger.Shape.{magnitude}

pub record AccountRow : Type 0 where
  pub code : String
  pub name : String
  pub account_type : LedgerAccountType
  pub currency : String
  pub balance_minor : ℤ
  pub updated_at : Option ℕ

pub record PostedTransaction : Type 0 where
  pub tx_id : String
  pub reference_type : ReferenceType
  pub reference_id : Option String
  pub currency : String
  pub description : String
  pub posted_at : ℕ

pub record JournalEntry : Type 0 where
  pub id : ℕ
  pub tx_id : String
  pub account_code : String
  pub direction : Direction
  pub amount_minor : ℕ
  pub posted_at : ℕ

-- `SELECT … FROM accounts WHERE code = ?`; `code` is the primary key.
abbrev pub find_account : String → List AccountRow → Option AccountRow
find_account c [] = none
find_account c (a ∷ as') = if str_eq a.code c then some a else find_account c as'

-- `SELECT posted_at FROM posted_transactions WHERE tx_id = ?`
abbrev pub find_posted : String → List PostedTransaction → Option PostedTransaction
find_posted t [] = none
find_posted t (p ∷ ps) = if str_eq p.tx_id t then some p else find_posted t ps

-- `INSERT OR IGNORE INTO accounts`: a row whose key is taken is left out.
abbrev pub insert_or_ignore : AccountRow → List AccountRow → List AccountRow
insert_or_ignore a as' = elim (find_account a.code as') [ none ↦ as' ++ (a ∷ []) | some _ ↦ as' ]

abbrev pub chart_row : String → ChartAccount → AccountRow
chart_row currency a = record {
  code = a.code;
  name = a.name;
  account_type = a.account_type;
  currency = currency;
  balance_minor = pos 0;
  updated_at = none;
}

-- The loop of `seedChart`.
unfoldable pub seed_rows : String → List ChartAccount → List AccountRow → List AccountRow
seed_rows currency [] rows = rows
seed_rows currency (a ∷ chart) rows =
    seed_rows currency chart (insert_or_ignore (chart_row currency a) rows)

-- `UPDATE accounts SET balance_minor = balance_minor + ?, updated_at = ? WHERE code = ?`
abbrev pub update_row : ℕ → String → ℤ → AccountRow → AccountRow
update_row at code delta a =
    if str_eq a.code code
    then record a { balance_minor = a.balance_minor +ℤ delta; updated_at = some at }
    else a

-- The loop over `deltas`.
unfoldable pub apply_deltas : ℕ → Dict ℤ → List AccountRow → List AccountRow
apply_deltas at [] rows = rows
apply_deltas at ((code, delta) ∷ ds) rows = apply_deltas at ds (map (update_row at code delta) rows)

-- The loop over `payload.entries`; ids count up from the table's sequence.
unfoldable pub journal_rows : ℕ → ℕ → String → List PostingEntry → List JournalEntry
journal_rows at seq tx_id [] = []
journal_rows at seq tx_id (e ∷ es) =
    record {
      id = seq;
      tx_id = tx_id;
      account_code = e.account_code;
      direction = e.direction;
      amount_minor = magnitude e.amount_minor;
      posted_at = at;
    }
    ∷ journal_rows at (seq + 1) tx_id es

-- `CASE WHEN direction = 'debit' THEN amount_minor ELSE -amount_minor END`
abbrev pub signed : Direction → ℕ → ℤ
signed debit n = pos n
signed _ n = neg (pos n)

-- A net debit, on the account's normal side.
abbrev pub on_normal_side : LedgerAccountType → ℤ → ℤ
on_normal_side t x = if is_debit_normal t then x else neg x

-- `SUM(CASE …) … GROUP BY account_code`, read at one code with 0 for a missing group.
unfoldable pub net_of : String → List JournalEntry → ℤ
net_of c [] = pos 0
net_of c (r ∷ rs) =
    let rest = net_of c rs in
    if str_eq r.account_code c then signed r.direction r.amount_minor +ℤ rest else rest

-- `SUM(CASE WHEN direction = 'debit' THEN amount_minor ELSE 0 END)`, and the same for credits.
abbrev pub debit_amount : JournalEntry → ℕ
debit_amount r = elim r.direction [ debit ↦ r.amount_minor | _ ↦ 0 ]

abbrev pub credit_amount : JournalEntry → ℕ
credit_amount r = elim r.direction [ credit ↦ r.amount_minor | _ ↦ 0 ]

unfoldable pub total_debit : List JournalEntry → ℕ
total_debit [] = 0
total_debit (r ∷ rs) = debit_amount r + total_debit rs

unfoldable pub total_credit : List JournalEntry → ℕ
total_credit [] = 0
total_credit (r ∷ rs) = credit_amount r + total_credit rs
