-- ===== src/Ledger/Funds.antt =====
-- `checkBalances` of src/do/ledger-do.ts: what a posting adds to each account, and the guard that
-- no balance goes below zero on the account's normal side.
pub mod Deltas
pub mod Covered
use edgepay_cf.Prelude.{
  ◌&&◌, ◌||◌, String, Bool, true, false, not, List, [], ◌∷◌, Option, none, some, keep, str_eq,
  if◌then◌else◌,
}
use edgepay_cf.Prelude.Int.{ℤ, pos, ◌+ℤ◌, neg, ltb_ℤ}
use edgepay_cf.Prelude.Dict.{Dict, lookup, insert}
use edgepay_cf.Ledger.Types.{
  Direction, debit, PostingEntry, Checked, ok, err, unknown_account, currency_mismatch,
  insufficient_funds, internal, ◌>>=◌,
}
use edgepay_cf.Ledger.Chart.{LedgerAccountType, is_debit_normal}
use edgepay_cf.Ledger.Shape.{magnitude}
use edgepay_cf.Ledger.Book.{AccountRow, find_account}

-- Membership in the set of the entries' codes.
abbrev pub mentions : String → List PostingEntry → Bool
mentions c [] = false
mentions c (e ∷ es) = str_eq e.account_code c || mentions c es

-- `SELECT … FROM accounts WHERE code IN (…)`, as the map `accountMap`.
abbrev pub account_map : List PostingEntry → List AccountRow → List AccountRow
account_map entries = keep (λ a. mentions a.code entries)

abbrev pub is_debit : Direction → Bool
is_debit debit = true
is_debit _ = false

-- `sign * e.amount_minor`.
abbrev pub entry_delta : LedgerAccountType → PostingEntry → ℤ
entry_delta t e =
    let increases = if is_debit e.direction then is_debit_normal t else not (is_debit_normal t) in
    let n = pos (magnitude e.amount_minor) in if increases then n else neg n

abbrev pub or_zero : Option ℤ → ℤ
or_zero none = pos 0
or_zero (some x) = x

-- `deltas.set(code, (deltas.get(code) ?? 0) + x)`
abbrev pub bump : String → ℤ → Dict ℤ → Dict ℤ
bump c x d = insert c (or_zero (lookup c d) +ℤ x) d

-- The first loop.
unfoldable pub collect_deltas :
    List AccountRow → String → List PostingEntry → Dict ℤ → Checked (Dict ℤ)
collect_deltas accounts currency [] d = ok d
collect_deltas accounts currency (e ∷ es) d = elim (find_account e.account_code accounts) [
  | none ↦ err unknown_account
  | some a ↦
      let rest =
        collect_deltas accounts currency es
          (bump e.account_code (entry_delta a.account_type e) d) in
      if str_eq a.currency currency then rest else err currency_mismatch
]

-- The second loop. A key of the map without an account would be a `TypeError`.
unfoldable pub check_funds : List AccountRow → Dict ℤ → Checked (Unit {0})
check_funds accounts [] = ok tt
check_funds accounts ((code, delta) ∷ ds) =
    let rest = check_funds accounts ds in
    elim (find_account code accounts) [
      | none ↦ err internal
      | some a ↦ if ltb_ℤ (a.balance_minor +ℤ delta) (pos 0) then err insufficient_funds else rest
    ]

unfoldable pub check_balances : List AccountRow → List PostingEntry → String → Checked (Dict ℤ)
unfolding collect_deltas check_funds
check_balances rows entries currency = do
  let accounts = account_map entries rows
  deltas ← collect_deltas accounts currency entries []
  checked ← check_funds accounts deltas
  ok deltas
