-- ===== src/Posting/Consistency/Tests.antt =====
-- The books after a payment against its entries in D1 (src/services/ledger.ts), and the theorem at them.
use edgepay_cf.Prelude.{ℕ, ◌≡◌, ◌↔◌, refl, String, true, List, [], ◌∷◌, some, All, str_eq}
use edgepay_cf.Prelude.Int.{neg, ◌+ℤ◌}
use edgepay_cf.Prelude.Texts.{join, decimal}
use edgepay_cf.Ledger.Types.{Direction, debit, credit}
use edgepay_cf.Ledger.Chart.{default_chart_of_accounts, is_debit_normal}
use edgepay_cf.Ledger.Shape.{validate_posting_shape, sum_entries}
use edgepay_cf.Ledger.Book.{
  seed_rows, apply_deltas, journal_rows, net_of, total_debit, total_credit,
}
use edgepay_cf.Ledger.State.{fresh, get_merchant_id}
use edgepay_cf.Ledger.Mirror.{MirrorEntry}
use edgepay_cf.Ledger.Post.{
  post_transaction, post_inner, post_seeded, write_posting, resolve_tenant, commit, after_commit,
  kick_outbox_alarm, seed_chart,
}
use edgepay_cf.Ledger.Funds.{check_balances, collect_deltas, check_funds}
use edgepay_cf.Ledger.Trial.{get_balances, order_by_code, place, trial_balance, every_line_agrees}
use edgepay_cf.Money.{money_to_minor_strict, to_minor_units}
use edgepay_cf.Posting.{build_payload, build_entries, build_entry, post, get_account_by_code}
use edgepay_cf.Posting.Entries.{post_payment_ledger_entry}
use edgepay_cf.Posting.Tests.{decimals, platform, once}
use edgepay_cf.Posting.Consistency.{
  ConsistencyReport, verify_consistency, d1_minor, find_discrepancies, entries_of, code_of,
}
use edgepay_cf.Posting.Consistency.Agreement.{AgreesWith, verify_consistency_iff}

abbrev mirrored : ℕ → Direction → String → ℕ → MirrorEntry
mirrored account direction amount order = record {
  merchant_id = 1;
  ledger_transaction_id = 1;
  account_id = account;
  direction = direction;
  amount = amount;
  currency = "BDT";
  entry_order = order;
  created_at = 5;
}

abbrev entries : List MirrorEntry
entries =
    mirrored 2 debit "100.00" 0
    ∷ mirrored 10 credit "100.00" 1
    ∷ mirrored 12 debit "2.50" 2
    ∷ mirrored 2 credit "2.50" 3
    ∷ []

abbrev report : ConsistencyReport
report = record { consistent = true; discrepancies = [] }

verified : verify_consistency decimals 1 platform.accounts entries (once.books 1) ≡ some report
unfolding verify_consistency d1_minor find_discrepancies get_balances trial_balance order_by_code
    place every_line_agrees net_of total_debit total_credit post_payment_ledger_entry post
    build_payload build_entries build_entry money_to_minor_strict to_minor_units post_transaction
    post_inner post_seeded write_posting resolve_tenant commit after_commit kick_outbox_alarm
    seed_chart check_balances collect_deltas check_funds get_account_by_code get_merchant_id fresh
    seed_rows default_chart_of_accounts is_debit_normal apply_deltas journal_rows
    validate_posting_shape sum_entries ◌+ℤ◌ neg str_eq join decimal
verified = refl

verify_consistency_iff_example : (report.consistent ≡ true) ↔ (
    All
      (AgreesWith decimals (code_of 1 platform.accounts) (entries_of 1 platform.accounts entries))
      (get_balances (once.books 1))
    × ((trial_balance (once.books 1)).balanced ≡ true))
verify_consistency_iff_example =
    verify_consistency_iff decimals 1 platform.accounts entries (once.books 1) report verified
