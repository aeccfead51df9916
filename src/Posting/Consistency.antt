-- ===== src/Posting/Consistency.antt =====
-- `verifyDurableObjectConsistency` of src/services/ledger.ts: the balances of a merchant's object against the
-- entries in D1.
pub mod Agreement
mod Tests
use edgepay_cf.Prelude.{
  ℕ, String, Bool, true, false, ◌&&◌, ◌||◌, List, [], ◌∷◌, keep, Option, none, some, str_eq, ◌==◌,
  if◌then◌else◌,
}
use edgepay_cf.Prelude.Int.{ℤ, pos, ◌+ℤ◌, neg, eqb_ℤ}
use edgepay_cf.Prelude.Dict.{Dict, lookup, insert}
use edgepay_cf.Prelude.Texts.{decimal}
use edgepay_cf.Ledger.Types.{Direction, debit}
use edgepay_cf.Ledger.Chart.{is_debit_normal}
use edgepay_cf.Ledger.Book.{AccountRow}
use edgepay_cf.Ledger.State.{LedgerDo}
use edgepay_cf.Ledger.Mirror.{MirrorEntry}
use edgepay_cf.Ledger.Trial.{get_balances, trial_balance}
use edgepay_cf.Money.{Decimals, to_minor_units}
use edgepay_cf.Posting.{LedgerAccount}

pub record Discrepancy : Type 0 where
  pub account_id : ℕ
  pub code : String
  pub d1_balance : String
  pub do_balance : String

pub record ConsistencyReport : Type 0 where
  pub consistent : Bool
  pub discrepancies : List Discrepancy

abbrev has_account : ℕ → List LedgerAccount → Bool
has_account k [] = false
has_account k (a ∷ rest) = (a.id == k) || has_account k rest

-- `JOIN … WHERE le.merchant_id = ?`
abbrev pub entries_of : ℕ → List LedgerAccount → List MirrorEntry → List MirrorEntry
entries_of merchant accounts =
    keep (λ e. (e.merchant_id == merchant) && has_account e.account_id accounts)

-- `codeById.get(id) ?? String(id)`, on the merchant's accounts.
abbrev pub code_of : ℕ → List LedgerAccount → ℕ → String
code_of merchant [] k = decimal k
code_of merchant (a ∷ rest) k =
    if (a.merchant_id == merchant) && (a.id == k) then a.code else code_of merchant rest k

abbrev pub is_debit : Direction → Bool
is_debit debit = true
is_debit _ = false

abbrev pub signed_amount : Direction → ℤ → ℤ
signed_amount d n = if is_debit d then n else neg n

abbrev pub or_zero_ℤ : Option ℤ → ℤ
or_zero_ℤ none = pos 0
or_zero_ℤ (some n) = n

-- The loop over the entries; an amount out of range throws.
unfoldable pub d1_minor : Decimals → (ℕ → String) → List MirrorEntry → Dict ℤ → Option (Dict ℤ)
d1_minor d codes [] sums = some sums
d1_minor d codes (e ∷ es) sums = elim (to_minor_units d e.amount) [
  | none ↦ none
  | some n ↦
      let code = codes e.account_id in
      d1_minor d codes es
        (insert code (or_zero_ℤ (lookup code sums) +ℤ signed_amount e.direction n) sums)
]

abbrev pub do_signed : AccountRow → ℤ
do_signed b = if is_debit_normal b.account_type then b.balance_minor else neg b.balance_minor

abbrev pub account_id_of : ℕ → String → List LedgerAccount → ℕ
account_id_of merchant code [] = 0
account_id_of merchant code (a ∷ rest) =
    if (a.merchant_id == merchant) && str_eq a.code code
    then a.id
    else account_id_of merchant code rest

abbrev pub agrees : Dict ℤ → AccountRow → Bool
agrees sums b = eqb_ℤ (or_zero_ℤ (lookup b.code sums)) (do_signed b)

-- The loop over the balances; their codes are distinct, so the map by code is the list.
unfoldable pub find_discrepancies :
    Decimals → ℕ → List LedgerAccount → Dict ℤ → List AccountRow → List Discrepancy
find_discrepancies d merchant accounts sums [] = []
find_discrepancies d merchant accounts sums (b ∷ bs) =
    let rest = find_discrepancies d merchant accounts sums bs in
    if agrees sums b
    then rest
    else record {
      account_id = account_id_of merchant b.code accounts;
      code = b.code;
      d1_balance = d.of_minor (or_zero_ℤ (lookup b.code sums));
      do_balance = d.of_minor b.balance_minor;
    }
      ∷ rest

abbrev pub is_empty : List Discrepancy → Bool
is_empty [] = true
is_empty (x ∷ xs) = false

-- What is read after the drain, whose failure is ignored.
unfoldable pub verify_consistency :
    Decimals → ℕ → List LedgerAccount → List MirrorEntry → LedgerDo → Option ConsistencyReport
verify_consistency d merchant accounts entries s =
    elim (d1_minor d (code_of merchant accounts) (entries_of merchant accounts entries) []) [
      | none ↦ none
      | some sums ↦
          let found = find_discrepancies d merchant accounts sums (get_balances s) in
          some (record {
            consistent = is_empty found && (trial_balance s).balanced;
            discrepancies = found;
          })
    ]
