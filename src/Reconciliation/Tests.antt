-- ===== src/Reconciliation/Tests.antt =====
-- The reconciliation of src/services/reconciliation.ts on a small platform, and the theorems at
-- concrete inputs.
use edgepay_cf.Prelude.{ℕ, ◌≡◌, ◌≤◌, refl, true, [], ◌∷◌, some, none, arith, str_eq, length}
use edgepay_cf.Prelude.Int.{◌+ℤ◌, neg}
use edgepay_cf.Prelude.Texts.{decimal, join}
use edgepay_cf.Ledger.Types.{payment}
use edgepay_cf.Ledger.Chart.{default_chart_of_accounts, is_debit_normal}
use edgepay_cf.Ledger.Shape.{validate_posting_shape, sum_entries}
use edgepay_cf.Ledger.Book.{
  PostedTransaction, total_credit, total_debit, seed_rows, apply_deltas, journal_rows,
}
use edgepay_cf.Ledger.State.{fresh, get_merchant_id}
use edgepay_cf.Ledger.Mirror.{
  MirrorPosting, answers, pending, batch, build_ledger_audit_statements, entry_statements,
  run_statement, upsert,
}
use edgepay_cf.Ledger.Mirror.Replay.{IsMirrored}
use edgepay_cf.Ledger.Outbox.{
  drain_outbox, drain_selected, drain_pending, drain_tenant, select_pending, send_batch, compose,
  batch_statements, mark_synced, mark_outbox_retry,
}
use edgepay_cf.Ledger.Post.{
  post_transaction, post_inner, post_seeded, write_posting, resolve_tenant, commit, after_commit,
  kick_outbox_alarm, seed_chart,
}
use edgepay_cf.Ledger.Funds.{check_balances, collect_deltas, check_funds}
use edgepay_cf.Posting.{Platform}
use edgepay_cf.Posting.Tests.{payload, platform, env, decimals, payload-IsWellShaped}
use edgepay_cf.Reconciliation.{
  Attempt, delivered, lost_before, RowEnding, PendingReconcileResult, replay_rows, replay_over,
  replay_row, settle_replay, drain_after, call_post, call_drain,
}
use edgepay_cf.Reconciliation.Pass.{
  select_stale, reconcile_pending_postings, order_by_age, select_rejected, poison_pages,
}
use edgepay_cf.Reconciliation.Counts.{reconcile_counted, registered_in, rows_counted}
use edgepay_cf.Ledger.Mirror.Marked.{IsMarked}
use edgepay_cf.Reconciliation.Keeps.{registered_heals}
use edgepay_cf.Refunds.{RefundStatus}
use edgepay_cf.Reconciliation.Refunds.{
  creates, SweptRefund, sweep_stuck_refunds, sweep_rows, trigger_refund_reconciliation,
}
use edgepay_cf.Reconciliation.Run.{RunInputs, RunState, daily, run_reconciliation}
use edgepay_cf.Reconciliation.Run.Keeps.{IsReconciled, run_reconciliation-IsReconciled}

abbrev attempt : Attempt
attempt = record {
  env = env;
  post = delivered;
  message = "";
  reply = answers;
  now = 50_000;
  later = 50_001;
  drain = delivered;
  drain_accepts = true;
  drain_now = 50_002;
  drain_retry_at = 50_003;
  drain_synced_at = 50_004;
}

abbrev row : MirrorPosting
row = record {
  tx_id = payload.tx_id;
  merchant_id = 1;
  reference_type = payment;
  reference_id = payload.reference_id;
  currency = "BDT";
  payload = payload;
  status = pending;
  error = none;
  attempts = 4;
  created_at = 9;
  posted_at = none;
}

abbrev waiting : Platform
waiting = let m = platform.mirror in record platform { mirror = record m { postings = row ∷ [] } }

abbrev unreached : ℕ → Attempt
unreached k = record attempt { post = lost_before "canceled" }

abbrev replayed_once : PendingReconcileResult
replayed_once = record { replayed = 1; healed = 0; rejected = 0; failed = 0; remaining = 0 }

one_pass :
    (reconcile_pending_postings (λ k. attempt) (λ k. true) 200 30_000 50_000 waiting).1
    ≡ some replayed_once
unfolding reconcile_pending_postings select_stale order_by_age replay_rows replay_over settle_replay
    drain_after call_post call_drain select_rejected poison_pages post_transaction post_inner
    post_seeded write_posting resolve_tenant commit after_commit kick_outbox_alarm seed_chart
    check_balances collect_deltas check_funds get_merchant_id fresh seed_rows
    default_chart_of_accounts is_debit_normal apply_deltas journal_rows validate_posting_shape
    sum_entries ◌+ℤ◌ neg str_eq join decimal drain_outbox drain_selected drain_pending drain_tenant
    select_pending send_batch compose batch_statements mark_synced mark_outbox_retry batch
    build_ledger_audit_statements entry_statements run_statement upsert
one_pass = refl

reconcile_counted_example :
    (rows_counted replayed_once ≡ length (select_stale 200 30_000 50_000 waiting.mirror.postings))
    × (length (select_stale 200 30_000 50_000 waiting.mirror.postings) ≤ 200)
    × (1
        ≤ registered_in
            (reconcile_pending_postings (λ k. attempt) (λ k. true) 200 30_000 50_000 waiting).0
            (select_stale 200 30_000 50_000 waiting.mirror.postings))
reconcile_counted_example =
    reconcile_counted (λ k. attempt) (λ k. true) 200 30_000 50_000 waiting replayed_once one_pass

abbrev held : PostedTransaction
held = record {
  tx_id = payload.tx_id;
  reference_type = payment;
  reference_id = payload.reference_id;
  currency = "BDT";
  description = payload.description;
  posted_at = 5;
}

abbrev after_commit_lost : Platform
after_commit_lost =
    let s = fresh 0 in record waiting { books = λ k. record s { posted = held ∷ [] } }

registered_heals_example :
    ((replay_row attempt row after_commit_lost).1 ≡ some RowEnding.healed)
    × ((replay_row attempt row after_commit_lost).2 ≡ [])
    × IsMarked payload held.posted_at (replay_row attempt row after_commit_lost).0.mirror.postings
    × IsMirrored payload (replay_row attempt row after_commit_lost).0.mirror
unfolding fresh str_eq join decimal
registered_heals_example =
    registered_heals attempt row after_commit_lost held refl refl payload-IsWellShaped refl

abbrev old_refund : SweptRefund
old_refund = record {
  id = 3;
  refund_id = "r";
  status = RefundStatus.pending;
  created_at = 0;
  workflow_attempts = 2;
  last_workflow_at = none;
}

-- Two instances were started before.
abbrev state : RunState
state = record { platform = waiting; sweep = record { refunds = old_refund ∷ []; triggered = [] } }

abbrev inputs : RunInputs
inputs = record {
  decimals = decimals;
  plan = λ k. attempt;
  calls = λ k. attempt;
  reached = λ k. true;
  create = λ k. creates;
  merchants = 1 ∷ [];
  now = 90_000_000;
  at = 90_000_001;
}

-- The third restart is paged in the sweep that makes it.
third_restart_paged :
    (sweep_stuck_refunds (λ k. creates) 90_000_000 90_000_001 state.sweep).2 ≡ "r" ∷ []
unfolding sweep_stuck_refunds sweep_rows trigger_refund_reconciliation
third_restart_paged = refl

state-IsReconciled : IsReconciled state
unfolding fresh total_credit total_debit
state-IsReconciled = record {
  sound = λ k. record { distinct = tt; derived = tt; nonneg = tt; known = tt; balanced = refl };
  bounded = record { distinct = (refl, tt); counted = ((omega arith, omega arith), tt) };
}

run_reconciliation-IsReconciled_example : IsReconciled (run_reconciliation daily inputs state).0
run_reconciliation-IsReconciled_example =
    run_reconciliation-IsReconciled daily inputs state state-IsReconciled
