-- ===== src/Reconciliation/Run/Keeps.antt =====
-- What a whole run of src/services/reconciliation.ts keeps and counts.
use edgepay_cf.Prelude.{inl, inr, ℕ, List, [], ◌∷◌, Option-cases}
use edgepay_cf.Posting.{Platform}
use edgepay_cf.Posting.Consistency.{verify_consistency}
use edgepay_cf.Money.{Decimals}
use edgepay_cf.Reconciliation.{
  Attempt, Transport, delivered, lost_before, lost_after, pending_grace_ms,
}
use edgepay_cf.Reconciliation.Pass.{reconcile_pending_postings}
use edgepay_cf.Reconciliation.Keeps.{AllSound, call_drain-AllSound, reconcile-AllSound}
use edgepay_cf.Reconciliation.Refunds.{SweepState}
use edgepay_cf.Reconciliation.Refunds.Bounded.{IsBoundedSweep, sweep-IsBoundedSweep}
use edgepay_cf.Reconciliation.Run.{
  RunTrigger, hourly, daily, manual, RunInputs, RunState, ConsistencyVerifyResult, drain_caught,
  verify_merchants, verify_all_merchants, check_merchants, check_refunds, run_reconciliation,
}

drain_caught-AllSound :
    (t : Transport) (a : Attempt) (m : ℕ) (x : Platform)
    → AllSound x.books
    → AllSound (drain_caught t a m x).books
unfolding drain_caught
drain_caught-AllSound delivered a m x h = call_drain-AllSound a m x h
drain_caught-AllSound (lost_before _) a m x h = h
drain_caught-AllSound (lost_after _) a m x h = call_drain-AllSound a m x h

verify_merchants-AllSound :
    (d : Decimals) (calls : ℕ → Attempt) (ms : List ℕ) (t : ConsistencyVerifyResult) (x : Platform)
    → AllSound x.books
    → AllSound (verify_merchants d calls ms t x).0.books
unfolding verify_merchants
verify_merchants-AllSound d calls [] t x h = h
verify_merchants-AllSound d calls (m ∷ ms) t x h =
    let x' = drain_caught (calls m).drain (calls m) m x in
    let kept = drain_caught-AllSound (calls m).drain (calls m) m x h in
    elim (Option-cases (verify_consistency d m x'.accounts x'.mirror.entries (x'.books m))) [
      | inl q ↦ rw (q, verify_merchants) kept
      | inr (r, q) ↦ rw (q, verify_merchants) (verify_merchants-AllSound d calls ms _ x' kept)
    ]

check_merchants-AllSound :
    (t : RunTrigger) (i : RunInputs) (x : Platform)
    → AllSound x.books
    → AllSound (check_merchants t i x).0.books
unfolding check_merchants verify_all_merchants
check_merchants-AllSound hourly i x h = h
check_merchants-AllSound daily i x h =
    verify_merchants-AllSound i.decimals i.calls i.merchants _ x h
check_merchants-AllSound manual i x h =
    verify_merchants-AllSound i.decimals i.calls i.merchants _ x h

check_refunds-IsBoundedSweep :
    (t : RunTrigger) (i : RunInputs) (s : SweepState)
    → IsBoundedSweep s
    → IsBoundedSweep (check_refunds t i s).0
unfolding check_refunds
check_refunds-IsBoundedSweep hourly i s h = h
check_refunds-IsBoundedSweep daily i s h = sweep-IsBoundedSweep i.create i.now i.at s h
check_refunds-IsBoundedSweep manual i s h = sweep-IsBoundedSweep i.create i.now i.at s h

-- The books are sound, and no refund's workflow was started again more than three times.
pub record IsReconciled (s : RunState) : Type 0 where
  pub sound : AllSound s.platform.books
  pub bounded : IsBoundedSweep s.sweep

-- A run of the reconciliation, hourly, daily or by hand, and wherever it throws, keeps every book
-- sound and each refund's workflow restarts at most three.
pub run_reconciliation-IsReconciled :
    (t : RunTrigger) (i : RunInputs) (s : RunState)
    → IsReconciled s
    → IsReconciled (run_reconciliation t i s).0
unfolding run_reconciliation
run_reconciliation-IsReconciled t i s h =
    let run = reconcile_pending_postings i.plan i.reached 200 pending_grace_ms i.now s.platform in
    let kept = reconcile-AllSound i.plan i.reached 200 pending_grace_ms i.now s.platform h.sound in
    let checked = check_merchants-AllSound t i run.0 kept in
    let swept = check_refunds-IsBoundedSweep t i s.sweep h.bounded in
    elim (Option-cases run.1) [
      | inl q ↦ rw (q, run_reconciliation) (record { sound = kept; bounded = h.bounded })
      | inr (p, q) ↦ elim (Option-cases (check_merchants t i run.0).1) [
        | inl u ↦
            rw (q, run_reconciliation)
              (rw (u, run_reconciliation) (record { sound = checked; bounded = h.bounded }))
        | inr (c, u) ↦ elim (Option-cases (check_refunds t i s.sweep).1) [
          | inl v ↦ rw (q, u, v, run_reconciliation) (record { sound = checked; bounded = swept })
          | inr (r, v) ↦
              rw (q, u, v, run_reconciliation) (record { sound = checked; bounded = swept })
        ]
      ]
    ]
