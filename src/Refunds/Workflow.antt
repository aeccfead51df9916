-- ===== src/Refunds/Workflow.antt =====
-- The workflow that follows a refund: src/workflows/refund-reconciliation.ts. What the gateway says at
-- each poll, and which steps fail for good, are arguments. A step that fails for good ends the run.
pub mod Finished
use edgepay_cf.Prelude.{
  ℕ, zero, suc, ◌+◌, ◌-◌, String, Bool, true, false, ◌&&◌, List, [], ◌∷◌, map, Option, none, some,
  ltb, leb, ◌==◌, if◌then◌else◌,
}
use edgepay_cf.Posting.{Platform, Call, Outcome, done}
use edgepay_cf.Posting.Entries.{post_refund_ledger_entry}
use edgepay_cf.Refunds.{RefundStatus, RefundRow}

abbrev pub refund_poll_max_attempts : ℕ
refund_poll_max_attempts = 52

unfoldable pub refund_poll_backoff_ms : ℕ → ℕ
refund_poll_backoff_ms attempt =
    if attempt == 0
    then 60_000
    else if attempt == 1
    then 120_000
    else if attempt == 2
    then 240_000
    else if attempt == 3
    then 480_000
    else if attempt == 4
    then 900_000
    else 1_800_000

-- The window from an attempt on, for the attempts that are left.
unfoldable pub poll_window : ℕ → ℕ → ℕ
poll_window zero attempt = 0
poll_window (suc left) attempt = refund_poll_backoff_ms attempt + poll_window left (attempt + 1)

unfoldable pub refund_poll_window_ms : ℕ
refund_poll_window_ms = poll_window refund_poll_max_attempts 0

pub data GatewayStatus : Type 0 where
  completed pending failed : GatewayStatus

pub data Verdict : Type 0 where
  gateway_completed gateway_failed stuck errored : Verdict

-- Whether the steps around the polls succeed within their retries and time limits: the row's load, the
-- posting's, the webhook's, and the update's of the row.
pub record Steps : Type 0 where
  pub loads : Bool
  pub posts : Bool
  pub sends : Bool
  pub marks : Bool

-- What a poll's step answers: `none` where it fails for good. A refund that the gateway has no id of
-- counts as failed.
abbrev pub query_status : (ℕ → Option GatewayStatus) → Option String → ℕ → Option GatewayStatus
query_status answers none attempt = some GatewayStatus.failed
query_status answers (some g) attempt = answers attempt

-- The loop: the verdict, and the time slept.
unfoldable pub poll : (ℕ → Option GatewayStatus) → Option String → ℕ → ℕ → ℕ → Verdict × ℕ
poll answers g zero attempt slept = (stuck, slept)
poll answers g (suc left) attempt slept =
    let rest = poll answers g left (attempt + 1) (slept + refund_poll_backoff_ms attempt) in
    elim (query_status answers g attempt) [
      | none ↦ (errored, slept)
      | some status ↦ elim status [
        | GatewayStatus.completed ↦ (gateway_completed, slept)
        | GatewayStatus.failed ↦ (gateway_failed, slept)
        | GatewayStatus.pending ↦ rest
      ]
    ]

abbrev pub is_pending : RefundStatus → Bool
is_pending RefundStatus.pending = true
is_pending _ = false

-- `UPDATE … WHERE id = ? AND status = 'pending'`
abbrev pub settle_row : ℕ → RefundStatus → RefundRow → RefundRow
settle_row k status r =
    if r.id == k then (if is_pending r.status then record r { status = status } else r) else r

abbrev pub accepted : {A : Type 0} → Outcome A → Bool
accepted (done a) = true
accepted _ = false

-- The ledger, the webhook and the status, in this order. A step that fails for good ends the run; the
-- posting's may have posted before it fails.
unfoldable pub finalize_refund :
    Call → Steps → RefundRow → Platform → List RefundRow → Platform × List RefundRow
finalize_refund c w r x rows =
    let (x', outcome) =
      post_refund_ledger_entry c r.merchant_id r.refund_id r.amount r.currency x in
    (
      x',
      if accepted outcome && w.posts && w.sends && w.marks
          then map (settle_row r.id RefundStatus.completed) rows
          else rows,
    )

unfoldable pub run_refund :
    Call
    → Steps
    → (ℕ → Option GatewayStatus)
    → RefundRow
    → Platform
    → List RefundRow
    → Platform × List RefundRow
run_refund c w answers r x rows =
    if w.loads && is_pending r.status
    then elim (poll answers r.gateway_refund_id refund_poll_max_attempts 0 0).0 [
      | gateway_completed ↦ finalize_refund c w r x rows
      | gateway_failed ↦
          (x, if w.marks then map (settle_row r.id RefundStatus.failed) rows else rows)
      | errored ↦ (x, rows)
      | stuck ↦ (x, rows)
    ]
    else (x, rows)
