-- ===== src/Ledger/Funds/Covered.antt =====
-- `checkBalances` of src/do/ledger-do.ts as a whole: what its success means for every account.
use edgepay_cf.Prelude.{
  ◌≡◌, ◌≢◌, String, true, List, [], none, some, All, All-imp, inl, inr, arith, Bool-cases, ◌∙◌,
}
use edgepay_cf.Prelude.Int.{ℤ, pos, ◌+ℤ◌, ◌≤ℤ◌, +ℤ_zero, zero_+ℤ, neg_zero}
use edgepay_cf.Prelude.Dict.{Dict}
use edgepay_cf.Ledger.Types.{PostingEntry, ok, Checked-cases}
use edgepay_cf.Ledger.Book.{AccountRow, find_account, on_normal_side}
use edgepay_cf.Ledger.Book.Rows.{total_of}
use edgepay_cf.Ledger.Book.Journal.{entries_net}
use edgepay_cf.Ledger.Funds.{mentions, account_map, collect_deltas, check_funds, check_balances}
use edgepay_cf.Ledger.Funds.Deltas.{
  find_account-account_map, collect_deltas_total, collect_deltas_known, collect_deltas_keys,
  check_funds_total, collect_deltas_unmentioned,
}

-- For every row of the table, its delta is the posting's net debit on the row's normal side, and the
-- new balance is zero or more.
pub record IsCovered (rows : List AccountRow) (es : List PostingEntry) (ds : Dict ℤ) : Type 0 where
  pub deltas_net :
      (a : AccountRow)
      → find_account a.code rows ≡ some a
      → total_of a.code ds ≡ on_normal_side a.account_type (entries_net a.code es)
  pub covered :
      (a : AccountRow)
      → find_account a.code rows ≡ some a
      → pos 0 ≤ℤ a.balance_minor
      → pos 0 ≤ℤ (a.balance_minor +ℤ total_of a.code ds)
  pub known : All (λ e. find_account e.account_code rows ≢ none) es

check_balances_passes :
    (rows : List AccountRow) (es : List PostingEntry) (currency : String) (ds : Dict ℤ)
    → check_balances rows es currency ≡ ok ds
    → (collect_deltas (account_map es rows) currency es [] ≡ ok ds)
      × (check_funds (account_map es rows) ds ≡ ok tt)
unfolding check_balances
check_balances_passes rows es currency ds h =
    elim (Checked-cases (collect_deltas (account_map es rows) currency es [])) [
      | inl (x, q) ↦ ground arith
      | inr (r, q) ↦ elim (Checked-cases (check_funds (account_map es rows) r)) [
        | inl (x, q') ↦ ground arith
        | inr (u, q') ↦ ground arith
      ]
    ]

module _ (rows : List AccountRow) (es : List PostingEntry) (currency : String) (ds : Dict ℤ)
    (h : check_balances rows es currency ≡ ok ds) (a : AccountRow)
    (found : find_account a.code rows ≡ some a) where
  in_map : mentions a.code es ≡ true → find_account a.code (account_map es rows) ≡ some a
  in_map m = rw (find_account-account_map a.code es rows, m) found

  delta_net : total_of a.code ds ≡ on_normal_side a.account_type (entries_net a.code es)
  delta_net =
      let (collected, funded) = check_balances_passes rows es currency ds h in
      elim (Bool-cases (mentions a.code es)) [
        | inl m ↦ collect_deltas_total _ currency a.code a es [] ds (in_map m) collected ∙ zero_+ℤ _
        | inr m ↦
            ground
              (arith, collect_deltas_unmentioned _ currency a.code es [] ds m collected, neg_zero)
      ]

  stays_covered : pos 0 ≤ℤ a.balance_minor → pos 0 ≤ℤ (a.balance_minor +ℤ total_of a.code ds)
  stays_covered p =
      let (collected, funded) = check_balances_passes rows es currency ds h in
      elim (Bool-cases (mentions a.code es)) [
        | inl m ↦
            check_funds_total _ ds a.code a funded
              (collect_deltas_keys _ currency es [] ds collected tt) (in_map m) p
        | inr m ↦
            rw
              (
                (collect_deltas_unmentioned _ currency a.code es [] ds m collected).0,
                +ℤ_zero a.balance_minor,
              )
              p
      ]

pub check_balances_sound :
    (rows : List AccountRow) (es : List PostingEntry) (currency : String) (ds : Dict ℤ)
    → check_balances rows es currency ≡ ok ds
    → IsCovered rows es ds
check_balances_sound rows es currency ds h = record {
  deltas_net = delta_net rows es currency ds h;
  covered = stays_covered rows es currency ds h;
  known =
      All-imp _ _ es (λ e k. ground (arith, k, find_account-account_map e.account_code es rows))
        (collect_deltas_known (account_map es rows) currency es [] ds
          (check_balances_passes rows es currency ds h).0);
}

-- When `checkBalances` succeeds, what it adds to an account of the table is the posting's net debit on
-- the account's normal side, and a balance that was zero or more does not go below zero.
pub check_balances_covers :
    (rows : List AccountRow) (es : List PostingEntry) (currency : String) (ds : Dict ℤ)
    → check_balances rows es currency ≡ ok ds
    → (a : AccountRow) → find_account a.code rows ≡ some a
    → pos 0 ≤ℤ a.balance_minor
    → (total_of a.code ds ≡ on_normal_side a.account_type (entries_net a.code es))
      × (pos 0 ≤ℤ (a.balance_minor +ℤ total_of a.code ds))
check_balances_covers rows es currency ds h a found p =
    (delta_net rows es currency ds h a found, stays_covered rows es currency ds h a found p)
