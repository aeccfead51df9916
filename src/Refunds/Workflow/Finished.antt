-- ===== src/Refunds/Workflow/Finished.antt =====
-- What a run of src/workflows/refund-reconciliation.ts leaves behind.
use edgepay_cf.Prelude.{
  ℕ, zero, suc, ◌+◌, ◌<◌, ◌≡◌, ◌⊎◌, inl, inr, refl, String, true, false, ◌&&◌, List, map, Option,
  none, some, arith, if◌then◌else◌, Bool-cases, Option-cases,
}
use edgepay_cf.Ledger.Types.{PostingResult}
use edgepay_cf.Posting.{Platform, Call, Failure, done, throws, Outcome-cases, get_account_by_code}
use edgepay_cf.Posting.Entries.{refund_tx_id, refund_input, post_refund_ledger_entry}
use edgepay_cf.Posting.Held.{Holds, post-registers}
use edgepay_cf.Refunds.{RefundStatus, RefundRow}
use edgepay_cf.Refunds.Workflow.{
  refund_poll_max_attempts, refund_poll_backoff_ms, poll_window, is_pending, GatewayStatus, Verdict,
  Steps, gateway_completed, gateway_failed, stuck, errored, query_status, poll, settle_row,
  finalize_refund, run_refund,
}

refund-registers :
    (c : Call) (r : RefundRow) (x : Platform) (a : PostingResult)
    → (post_refund_ledger_entry c r.merchant_id r.refund_id r.amount r.currency x).1 ≡ done a
    → Holds
        (post_refund_ledger_entry c r.merchant_id r.refund_id r.amount r.currency x).0
        r.merchant_id
        (refund_tx_id r.merchant_id r.refund_id)
unfolding post_refund_ledger_entry
refund-registers c r x a h =
    elim (Option-cases (get_account_by_code r.merchant_id "1010" r.currency x.accounts)) [
      | inl q ↦ ground (arith, rw (q, post_refund_ledger_entry) at h)
      | inr (clearing, q) ↦
          elim (Option-cases (get_account_by_code r.merchant_id "4000" r.currency x.accounts)) [
            | inl q' ↦ ground (arith, rw (q, q', post_refund_ledger_entry) at h)
            | inr (revenue, q') ↦
                rw (q, q', post_refund_ledger_entry)
                  (post-registers c (refund_tx_id r.merchant_id r.refund_id)
                    (refund_input clearing revenue r.merchant_id r.refund_id r.amount r.currency) x
                    a (rw (q, q', post_refund_ledger_entry) at h))
          ]
    ]

GatewayStatus-cases :
    (s : Option GatewayStatus)
    → (s ≡ none)
      ⊎ (s ≡ some GatewayStatus.completed)
      ⊎ (s ≡ some GatewayStatus.failed)
      ⊎ (s ≡ some GatewayStatus.pending)
GatewayStatus-cases none = inl refl
GatewayStatus-cases (some GatewayStatus.completed) = inr (inl refl)
GatewayStatus-cases (some GatewayStatus.failed) = inr (inr (inl refl))
GatewayStatus-cases (some GatewayStatus.pending) = inr (inr (inr refl))

-- How the polls end: at an attempt that the gateway settles, or after the whole window.
data PollEnding (answers : ℕ → Option GatewayStatus) (g : Option String) (stop window : ℕ)
    (r : Verdict × ℕ) : Type 0 where
  confirmed : r.0 ≡ gateway_completed → PollEnding answers g stop window r
  failed_at :
      r.0 ≡ gateway_failed
      → (k : ℕ) → k < stop
      → query_status answers g k ≡ some GatewayStatus.failed
      → PollEnding answers g stop window r
  broken_at :
      r.0 ≡ errored
      → (k : ℕ) → k < stop
      → query_status answers g k ≡ none
      → PollEnding answers g stop window r
  waited : r ≡ (stuck, window) → PollEnding answers g stop window r

poll-PollEnding :
    (answers : ℕ → Option GatewayStatus) (g : Option String) (left attempt slept stop window : ℕ)
    → stop ≡ attempt + left
    → window ≡ slept + poll_window left attempt
    → PollEnding answers g stop window (poll answers g left attempt slept)
unfolding poll poll_window
poll-PollEnding answers g zero attempt slept stop window h w = waited (ground (arith, w))
poll-PollEnding answers g (suc left) attempt slept stop window h w =
    elim (GatewayStatus-cases (query_status answers g attempt)) [
      | inl q ↦ rw (q, poll) (broken_at refl attempt (omega (arith, h)) q)
      | inr (inl q) ↦ rw (q, poll) (confirmed refl)
      | inr (inr (inl q)) ↦ rw (q, poll) (failed_at refl attempt (omega (arith, h)) q)
      | inr (inr (inr q)) ↦
          rw (q, poll)
            (poll-PollEnding answers g left (attempt + 1) (slept + refund_poll_backoff_ms attempt)
              stop window (omega (arith, h)) (omega (arith, w)))
    ]

-- How a run on a refund ends: the platform and the rows after it, against those before.
pub data RefundEnding (c : Call) (w : Steps) (answers : ℕ → Option GatewayStatus) (r : RefundRow)
    (x : Platform) (rows : List RefundRow) (end : Platform × List RefundRow) : Type 0 where
  finished : is_pending r.status ≡ false → end ≡ (x, rows) → RefundEnding c w answers r x rows end
  unloaded : w.loads ≡ false → end ≡ (x, rows) → RefundEnding c w answers r x rows end
  broken :
      (k : ℕ)
      → k < 52
      → query_status answers r.gateway_refund_id k ≡ none
      → end ≡ (x, rows)
      → RefundEnding c w answers r x rows end
  timed_out :
      poll answers r.gateway_refund_id refund_poll_max_attempts 0 0 ≡ (stuck, 86_400_000)
      → end ≡ (x, rows)
      → RefundEnding c w answers r x rows end
  refused :
      (k : ℕ)
      → k < 52
      → query_status answers r.gateway_refund_id k ≡ some GatewayStatus.failed
      → ((w.marks ≡ true) × (end ≡ (x, map (settle_row r.id RefundStatus.failed) rows)))
        ⊎ ((w.marks ≡ false) × (end ≡ (x, rows)))
      → RefundEnding c w answers r x rows end
  interrupted :
      (poll answers r.gateway_refund_id refund_poll_max_attempts 0 0).0 ≡ gateway_completed
      → ((w.posts && w.sends && w.marks) ≡ false)
        ⊎ ((f : Failure) × ((post_refund_ledger_entry c r.merchant_id r.refund_id r.amount
                r.currency x).1
              ≡ throws f))
      → end.1 ≡ rows
      → RefundEnding c w answers r x rows end
  refunded :
      (poll answers r.gateway_refund_id refund_poll_max_attempts 0 0).0 ≡ gateway_completed
      → Holds end.0 r.merchant_id (refund_tx_id r.merchant_id r.refund_id)
      → end.1 ≡ map (settle_row r.id RefundStatus.completed) rows
      → RefundEnding c w answers r x rows end

module _ (c : Call) (w : Steps) (answers : ℕ → Option GatewayStatus) (r : RefundRow) (x : Platform)
    (rows : List RefundRow) where
  finalize-RefundEnding :
      (poll answers r.gateway_refund_id refund_poll_max_attempts 0 0).0 ≡ gateway_completed
      → RefundEnding c w answers r x rows (finalize_refund c w r x rows)
  unfolding finalize_refund
  finalize-RefundEnding e =
      let run = post_refund_ledger_entry c r.merchant_id r.refund_id r.amount r.currency x in
      elim (Outcome-cases run.1) [
        | inr (f, q) ↦ interrupted e (inr (f, q)) (rw (q, finalize_refund) refl)
        | inl (a, q) ↦ elim (Bool-cases (w.posts && w.sends && w.marks)) [
          | inr u ↦ interrupted e (inl u) (rw (q, u, finalize_refund) refl)
          | inl u ↦ refunded e (refund-registers c r x a q) (rw (q, u, finalize_refund) refl)
        ]
      ]

  refused_at :
      (k : ℕ)
      → k < 52
      → query_status answers r.gateway_refund_id k ≡ some GatewayStatus.failed
      → RefundEnding c w answers r x rows
          (x, if w.marks then map (settle_row r.id RefundStatus.failed) rows else rows)
  refused_at k n f = elim (Bool-cases w.marks) [
    | inl u ↦ simp u (refused k n f (inl (u, refl)))
    | inr u ↦ simp u (refused k n f (inr (u, refl)))
  ]

  polled-RefundEnding :
      w.loads ≡ true
      → is_pending r.status ≡ true
      → RefundEnding c w answers r x rows (run_refund c w answers r x rows)
  unfolding run_refund poll_window refund_poll_backoff_ms
  polled-RefundEnding l q =
      elim (poll-PollEnding answers r.gateway_refund_id refund_poll_max_attempts 0 0 52 86_400_000
        refl day) [
          | confirmed e ↦ simp (l, q, e, run_refund) (finalize-RefundEnding e)
          | failed_at e k n f ↦ simp (l, q, e, run_refund) (refused_at k n f)
          | broken_at e k n f ↦ simp (l, q, e, run_refund) (broken k n f refl)
          | waited e ↦ simp (l, q, e, run_refund) (timed_out e refl)
        ]
    where
      day : 86_400_000 ≡ 0 + poll_window refund_poll_max_attempts 0
      day = refl

  -- A run on a refund marks it completed only with the refund registered in the merchant's book, and failed
  -- only if the gateway has no id of it or says so at one of 52 polls. It leaves the rows as they are if
  -- the refund is settled, if the gateway has not settled it in 24 hours of polls, or if a step fails
  -- for good: the row's load, a poll, the posting, the webhook or the update of the row.
  pub run_refund-RefundEnding : RefundEnding c w answers r x rows (run_refund c w answers r x rows)
  unfolding run_refund
  run_refund-RefundEnding = elim (Bool-cases w.loads) [
    | inr l ↦ simp (l, run_refund) (unloaded l refl)
    | inl l ↦ elim (Bool-cases (is_pending r.status)) [
      | inr q ↦ simp (l, q, run_refund) (finished q refl)
      | inl q ↦ polled-RefundEnding l q
    ]
  ]
