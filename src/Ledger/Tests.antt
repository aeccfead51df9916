-- ===== src/Ledger/Tests.antt =====
-- Runs of the ledger (src/do/ledger-do.ts) on concrete postings, and the theorems at concrete inputs.
use edgepay_cf.Ledger.Book.Rows.{total_of}
use edgepay_cf.Ledger.Book.Journal.{entries_net}
use edgepay_cf.Ledger.Book.{
  chart_row, on_normal_side, AccountRow, total_debit, total_credit, find_posted,
}
use edgepay_cf.Prelude.{◌↔◌, replicate}
use edgepay_cf.Ledger.Types.{refund}
use edgepay_cf.Ledger.Post.Keeps.{IsSound, post_transaction-IsSound}
use edgepay_cf.Ledger.Trial.{trial_balance}
use edgepay_cf.Ledger.Trial.Sound.{IsBalanced, trial_balance_iff}
use edgepay_cf.Ledger.Post.Replay.{posted_stays, posted_recorded, failed_unchanged, posted_again}
use edgepay_cf.Ledger.Post.Outcome.{SameBook, posted_row}
use edgepay_cf.Ledger.Shape.Balanced.{IsWellShaped, validate_posting_shape_iff}
use edgepay_cf.Ledger.Outbox.{
  drain_outbox, drain_selected, drain_tenant, drain_pending, send_batch, compose, select_pending,
}
use edgepay_cf.Ledger.Outbox.Delivery.{IsDelivered}
use edgepay_cf.Ledger.Outbox.Limits.{too_large_blocks}
use edgepay_cf.Ledger.Mirror.{build_ledger_audit_statements, entry_statements}
use edgepay_cf.Prelude.{◌≡◌, refl, true, false, [], ◌∷◌, none, some, arith, str_eq}
use edgepay_cf.Prelude.Int.{◌≤ℤ◌, pos, ◌+ℤ◌, neg}
use edgepay_cf.Ledger.Types.{
  debit, credit, whole, payment, PostingPayload, posted, duplicate, insufficient_funds, ok,
}
use edgepay_cf.Ledger.Chart.{asset, default_chart_of_accounts, is_debit_normal}
use edgepay_cf.Ledger.Shape.{validate_posting_shape}
use edgepay_cf.Ledger.Book.{seed_rows, apply_deltas, journal_rows}
use edgepay_cf.Ledger.State.{LedgerDo, LedgerEnv, fresh, get_merchant_id, OutboxEvent, pending}
use edgepay_cf.Ledger.Mirror.{Mirror, answers}
use edgepay_cf.Ledger.Post.{
  post_transaction, post_inner, post_seeded, write_posting, resolve_tenant, commit, after_commit,
  kick_outbox_alarm, seed_chart,
}
use edgepay_cf.Ledger.Funds.{check_balances, collect_deltas, check_funds}
use edgepay_cf.Ledger.Funds.Covered.{check_balances_covers}

abbrev pub env : LedgerEnv
env = record { outbox_enabled = true; production = true; name_number = some 1 }

abbrev pub empty_mirror : Mirror
empty_mirror = record { postings = []; transactions = []; transaction_seq = 1; entries = [] }

abbrev pub capture : PostingPayload
capture = record {
  tx_id = "m1:payment:7";
  merchant_id = 1;
  reference_type = payment;
  reference_id = some "7";
  description = "Payment 7";
  currency = "BDT";
  entries =
      record {
        account_code = "1010";
        d1_account_id = 2;
        direction = debit;
        amount = "100.00";
        amount_minor = whole (pos 10_000);
      }
      ∷ record {
        account_code = "4000";
        d1_account_id = 10;
        direction = credit;
        amount = "100.00";
        amount_minor = whole (pos 10_000);
      }
      ∷ [];
}

captured : (post_transaction env answers 5 6 capture (fresh 0) empty_mirror).2.status ≡ posted
unfolding post_transaction post_inner post_seeded write_posting resolve_tenant commit after_commit
    kick_outbox_alarm seed_chart check_balances get_merchant_id fresh seed_rows
    default_chart_of_accounts is_debit_normal apply_deltas journal_rows validate_posting_shape ◌+ℤ◌
    neg str_eq
captured = refl

-- The ledger after the first posting.
abbrev after : LedgerDo
after = (post_transaction env answers 5 6 capture (fresh 0) empty_mirror).0

replayed : (post_transaction env answers 9 9 capture after empty_mirror).2.status ≡ duplicate
unfolding post_transaction post_inner post_seeded write_posting resolve_tenant commit after_commit
    kick_outbox_alarm seed_chart check_balances get_merchant_id fresh seed_rows
    default_chart_of_accounts is_debit_normal apply_deltas journal_rows validate_posting_shape ◌+ℤ◌
    neg str_eq
replayed = refl

-- A refund of more than was captured.
abbrev over_refund : PostingPayload
over_refund = record {
  tx_id = "m1:refund:9";
  merchant_id = 1;
  reference_type = refund;
  reference_id = some "9";
  description = "Refund 9";
  currency = "BDT";
  entries =
      record {
        account_code = "4000";
        d1_account_id = 10;
        direction = debit;
        amount = "100.01";
        amount_minor = whole (pos 10_001);
      }
      ∷ record {
        account_code = "1010";
        d1_account_id = 2;
        direction = credit;
        amount = "100.01";
        amount_minor = whole (pos 10_001);
      }
      ∷ [];
}

overdrawn :
    (post_transaction env answers 9 9 over_refund after empty_mirror).2.error_code
    ≡ some insufficient_funds
unfolding post_transaction post_inner post_seeded write_posting resolve_tenant commit after_commit
    kick_outbox_alarm seed_chart check_balances get_merchant_id fresh seed_rows
    default_chart_of_accounts is_debit_normal apply_deltas journal_rows validate_posting_shape ◌+ℤ◌
    neg str_eq
overdrawn = refl

fresh-IsSound : IsSound (fresh 0)
unfolding fresh total_debit total_credit
fresh-IsSound = record { distinct = tt; derived = tt; nonneg = tt; known = tt; balanced = refl }

post_transaction-IsSound_example : IsSound after
post_transaction-IsSound_example =
    post_transaction-IsSound env answers 5 6 capture (fresh 0) empty_mirror fresh-IsSound

trial_balance_iff_example : ((trial_balance after).balanced ≡ true) ↔ IsBalanced after
trial_balance_iff_example = trial_balance_iff after

posted_stays_example :
    find_posted "m1:payment:7"
      (post_transaction env answers 9 9 over_refund after empty_mirror).0.posted
    ≡ some (posted_row 5 capture)
posted_stays_example =
    posted_stays env answers 9 9 over_refund after empty_mirror "m1:payment:7"
      (posted_row 5 capture)
      (posted_recorded env answers 5 6 capture (fresh 0) empty_mirror captured)

failed_unchanged_example :
    SameBook
      (seed_chart "BDT" after)
      (post_transaction env answers 9 9 over_refund after empty_mirror).0
unfolding post_transaction post_inner post_seeded write_posting resolve_tenant commit after_commit
    kick_outbox_alarm seed_chart check_balances get_merchant_id fresh seed_rows
    default_chart_of_accounts is_debit_normal apply_deltas journal_rows validate_posting_shape ◌+ℤ◌
    neg str_eq
failed_unchanged_example = failed_unchanged env answers 9 9 over_refund after empty_mirror refl refl

capture-IsWellShaped : IsWellShaped capture
unfolding validate_posting_shape str_eq
capture-IsWellShaped = (validate_posting_shape_iff capture).0 refl

posted_again_example :
    let (s', m', r) = post_transaction env answers 9 9 capture after empty_mirror in
    (r.status ≡ duplicate) × (r.posted_at ≡ 5) × (s' ≡ seed_chart "BDT" after) × (m' ≡ empty_mirror)
posted_again_example =
    posted_again env answers 9 9 capture after empty_mirror (posted_row 5 capture)
      capture-IsWellShaped (posted_recorded env answers 5 6 capture (fresh 0) empty_mirror captured)

validate_posting_shape_iff_example : (validate_posting_shape capture ≡ ok tt) ↔ IsWellShaped capture
validate_posting_shape_iff_example = validate_posting_shape_iff capture

-- The event of the first posting.
abbrev pub event : OutboxEvent
event = record {
  id = 1;
  event_id = record { merchant = 1; tx = "m1:payment:7" };
  payload = capture;
  payload_posted_at = 5;
  status = pending;
  retry_count = 0;
  last_error = none;
  created_at = 5;
  synced_at = none;
  next_retry_at = none;
}

abbrev pub queued : LedgerDo
queued = record {
  accounts = [];
  posted = [];
  journal = [];
  journal_seq = 1;
  outbox = event ∷ [];
  outbox_seq = 2;
  alarm_at = none;
  last_snapshot_at = none;
  last_outbox_cleanup_at = none;
  faults = none;
  merchant_id = none;
  seeded_currency = none;
}

drained : (drain_outbox env false true 7 8 9 queued empty_mirror).2.drained ≡ 1
unfolding drain_outbox drain_selected drain_tenant get_merchant_id drain_pending send_batch compose
    select_pending build_ledger_audit_statements entry_statements
drained = refl

pub queued-IsDelivered : IsDelivered (event ∷ []) empty_mirror
queued-IsDelivered = record { ids = (refl, tt); delivered = ((λ q. cc), tt) }

-- A posting with 99 entries.
abbrev huge : PostingPayload
huge = record capture {
  entries = replicate 99 (record {
    account_code = "1010";
    d1_account_id = 2;
    direction = debit;
    amount = "1.00";
    amount_minor = whole (pos 100);
  });
}

abbrev huge_event : OutboxEvent
huge_event = record event { payload = huge }

too_large_blocks_example :
    let (_, m', r) =
      drain_outbox env true true 7 8 9 (record queued { outbox = huge_event ∷ [] }) empty_mirror in
    (r.drained ≡ 0) × (m' ≡ empty_mirror)
unfolding select_pending
too_large_blocks_example =
    too_large_blocks env true 7 8 9 huge_event [] (record queued { outbox = huge_event ∷ [] })
      empty_mirror refl (omega arith)

abbrev cash : AccountRow
cash = chart_row "BDT" (record { code = "1010"; name = "Gateway Clearing"; account_type = asset })

check_balances_covers_example :
    (total_of "1010" (("1010", pos 10_000) ∷ ("4000", pos 10_000) ∷ [])
      ≡ on_normal_side asset (entries_net "1010" capture.entries))
    × (pos 0 ≤ℤ (pos 0 +ℤ total_of "1010" (("1010", pos 10_000) ∷ ("4000", pos 10_000) ∷ [])))
unfolding check_balances collect_deltas check_funds seed_rows default_chart_of_accounts
    is_debit_normal ◌+ℤ◌ neg str_eq
check_balances_covers_example =
    check_balances_covers (seed_rows "BDT" default_chart_of_accounts []) capture.entries "BDT"
      (("1010", pos 10_000) ∷ ("4000", pos 10_000) ∷ []) refl cash refl (omega arith)
