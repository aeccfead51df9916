-- ===== src/Reconciliation/Run.antt =====
-- The whole run, src/services/reconciliation.ts: the pending postings, the check of every merchant, the
-- refunds, and the outboxes. A call of a ledger object may be lost, as in the replay; the statements
-- on D1's tables are taken to succeed.
pub mod Keeps
use edgepay_cf.Prelude.{
  ℕ, suc, ◌+◌, String, Bool, true, false, ◌||◌, List, [], ◌∷◌, ◌++◌, Option, none, some, ltb,
  if◌then◌else◌,
}
use edgepay_cf.Ledger.State.{LedgerDo}
use edgepay_cf.Ledger.Alarm.{outbox_stats, max_age_seconds}
use edgepay_cf.Money.{Decimals}
use edgepay_cf.Posting.{Platform}
use edgepay_cf.Posting.Consistency.{Discrepancy, ConsistencyReport, verify_consistency}
use edgepay_cf.Reconciliation.{
  Attempt, Transport, delivered, lost_before, lost_after, PendingReconcileResult, call_drain,
  pending_grace_ms,
}
use edgepay_cf.Reconciliation.Pass.{reconcile_pending_postings}
use edgepay_cf.Reconciliation.Refunds.{
  CreateReply, SweepState, RefundSweepResult, sweep_stuck_refunds,
}

pub record Drift : Type 0 where
  pub merchant_id : ℕ
  pub detail : List Discrepancy

pub record ConsistencyVerifyResult : Type 0 where
  pub checked : ℕ
  pub drift_count : ℕ
  pub drifts : List Drift

-- `stub.drainOutbox().catch(() => {})`
unfoldable pub drain_caught : Transport → Attempt → ℕ → Platform → Platform
drain_caught delivered a merchant x = call_drain a merchant x
drain_caught (lost_before _) a merchant x = x
drain_caught (lost_after _) a merchant x = call_drain a merchant x

abbrev count_report : ℕ → ConsistencyReport → ConsistencyVerifyResult → ConsistencyVerifyResult
count_report merchant r t = if r.consistent then record t { checked = t.checked + 1 } else record {
  checked = t.checked + 1;
  drift_count = t.drift_count + 1;
  drifts = t.drifts ++ (record { merchant_id = merchant; detail = r.discrepancies } ∷ []);
}

-- The loop over the active merchants; `none` where an amount in the mirror is no number, which throws.
unfoldable pub verify_merchants :
    Decimals
    → (ℕ → Attempt)
    → List ℕ
    → ConsistencyVerifyResult
    → Platform
    → Platform × Option ConsistencyVerifyResult
verify_merchants d calls [] t x = (x, some t)
verify_merchants d calls (m ∷ ms) t x =
    let x' = drain_caught (calls m).drain (calls m) m x in
    elim (verify_consistency d m x'.accounts x'.mirror.entries (x'.books m)) [
      | none ↦ (x', none)
      | some r ↦ verify_merchants d calls ms (count_report m r t) x'
    ]

unfoldable pub verify_all_merchants :
    Decimals → (ℕ → Attempt) → List ℕ → Platform → Platform × Option ConsistencyVerifyResult
verify_all_merchants d calls merchants x =
    verify_merchants d calls merchants (record { checked = 0; drift_count = 0; drifts = [] }) x

pub record OutboxStatsSummary : Type 0 where
  pub outbox_lag_max_seconds : ℕ
  pub outbox_pending_total : ℕ
  pub outbox_stuck_total : ℕ

abbrev add_outbox : ℕ → LedgerDo → OutboxStatsSummary → OutboxStatsSummary
add_outbox now s t =
    let r = outbox_stats now s in
    record {
      outbox_lag_max_seconds =
          if ltb t.outbox_lag_max_seconds (max_age_seconds r)
          then max_age_seconds r
          else t.outbox_lag_max_seconds;
      outbox_pending_total = t.outbox_pending_total + r.pending_count;
      outbox_stuck_total = t.outbox_stuck_total + r.stuck;
    }

-- The loop of `collectOutboxStats`; `reached` is whether the call of a merchant's object returns.
unfoldable pub collect_outboxes :
    (ℕ → Bool) → (now : ℕ) → (ℕ → LedgerDo) → List ℕ → OutboxStatsSummary → OutboxStatsSummary
collect_outboxes reached now books [] t = t
collect_outboxes reached now books (m ∷ ms) t =
    collect_outboxes reached now books ms (if reached m then add_outbox now (books m) t else t)

unfoldable pub collect_outbox_stats :
    (ℕ → Bool) → (now : ℕ) → (ℕ → LedgerDo) → List ℕ → OutboxStatsSummary
collect_outbox_stats reached now books merchants =
    collect_outboxes reached now books merchants
      (record { outbox_lag_max_seconds = 0; outbox_pending_total = 0; outbox_stuck_total = 0 })

-- The merchants that `collectOutboxStats` pages.
unfoldable pub pages_outbox : ℕ → LedgerDo → Bool
pages_outbox now s = let r = outbox_stats now s in ltb 0 r.stuck || ltb 300 (max_age_seconds r)

pub data RunTrigger : Type 0 where
  hourly daily manual : RunTrigger

pub record ReconciliationRunSummary : Type 0 where
  pub ran_at : ℕ
  pub trigger : RunTrigger
  pub pending : PendingReconcileResult
  pub consistency : Option ConsistencyVerifyResult
  pub refunds : Option RefundSweepResult
  pub outbox : OutboxStatsSummary

-- What a run reads from outside. `merchants` are the active ones that are not the platform's own.
pub record RunInputs : Type 0 where
  pub decimals : Decimals
  pub plan : ℕ → Attempt
  pub calls : ℕ → Attempt
  pub reached : ℕ → Bool
  pub create : ℕ → CreateReply
  pub merchants : List ℕ
  pub now : ℕ
  pub at : ℕ

pub record RunState : Type 0 where
  pub platform : Platform
  pub sweep : SweepState

-- `trigger === 'hourly' ? null : await …`, each `none` inside for null and outside for a throw.
unfoldable pub check_merchants :
    RunTrigger → RunInputs → Platform → Platform × Option (Option ConsistencyVerifyResult)
check_merchants hourly i x = (x, some none)
check_merchants _ i x =
    let (x', r) = verify_all_merchants i.decimals i.calls i.merchants x in
    (x', elim r [ none ↦ none | some t ↦ some (some t) ])

unfoldable pub check_refunds :
    RunTrigger → RunInputs → SweepState → SweepState × Option (Option RefundSweepResult)
check_refunds hourly i s = (s, some none)
check_refunds _ i s =
    let (s', r, pages) = sweep_stuck_refunds i.create i.now i.at s in
    (s', elim r [ none ↦ none | some t ↦ some (some t) ])

-- `none` where the run throws; then it leaves no row in `op_reconciliation_runs`.
unfoldable pub run_reconciliation :
    RunTrigger → RunInputs → RunState → RunState × Option ReconciliationRunSummary
run_reconciliation trigger i s =
    let (x1, pending, _) =
      reconcile_pending_postings i.plan i.reached 200 pending_grace_ms i.now s.platform in
    elim pending [
      | none ↦ (record s { platform = x1 }, none)
      | some p ↦
          let (x2, consistency) = check_merchants trigger i x1 in
          elim consistency [
            | none ↦ (record s { platform = x2 }, none)
            | some c ↦
                let (s3, refunds) = check_refunds trigger i s.sweep in
                elim refunds [
                  | none ↦ (record { platform = x2; sweep = s3 }, none)
                  | some r ↦ (
                    record { platform = x2; sweep = s3 },
                    some (record {
                      ran_at = i.now;
                      trigger = trigger;
                      pending = p;
                      consistency = c;
                      refunds = r;
                      outbox = collect_outbox_stats i.reached i.now x2.books i.merchants;
                    }),
                  )
                ]
          ]
    ]
