-- ===== src/Refunds/Tests.antt =====
-- Refunds of src/services/refund.ts on one payment, and the theorems at concrete inputs.
use edgepay_cf.Prelude.{
  ℕ, ◌≡◌, refl, String, true, false, [], ◌∷◌, Option, none, some, arith, str_eq, if◌then◌else◌,
}
use edgepay_cf.Posting.Tests.{platform, call}
use edgepay_cf.Payments.{PaymentStatus}
use edgepay_cf.Refunds.{
  RefundStatus, RefundRow, RefundableTransaction, RefundDb, CreateRefundInput, returns, throws,
  exceeds_remaining, not_asked, total_refunded, check_refund, reserve_refund, settle_gateway,
  create_refund,
}
use edgepay_cf.Refunds.Bounded.{IsBounded, stays, goes_on, reserves, Run-IsBounded}
use edgepay_cf.Refunds.Workflow.{
  GatewayStatus, Steps, refund_poll_window_ms, poll_window, refund_poll_backoff_ms, run_refund,
}
use edgepay_cf.Refunds.Workflow.Finished.{RefundEnding, run_refund-RefundEnding}

-- The two amounts of the tests, in thousandths.
abbrev value : String → Option ℕ
value s = if str_eq s "100.00" then some 100_000 else if str_eq s "60.00" then some 60_000 else none

abbrev payment : RefundableTransaction
payment = record {
  id = 4;
  merchant_id = 1;
  amount = "100.00";
  currency = "BDT";
  status = PaymentStatus.completed;
  gateway_slug = some "stripe";
  gateway_trx_id = some "pi_9";
}

abbrev db : RefundDb
db = record { transactions = payment ∷ []; refunds = []; refund_seq = 1 }

abbrev sixty : CreateRefundInput
sixty = record { merchant_id = 1; transaction_id = 4; amount = "60.00" }

abbrev once : RefundDb
once = (create_refund value (λ s. false) not_asked "rfnd_1" sixty db).0

first_taken : (create_refund value (λ s. false) not_asked "rfnd_1" sixty db).1 ≡ returns 1
unfolding create_refund check_refund reserve_refund settle_gateway total_refunded str_eq
first_taken = refl

second_refused :
    (create_refund value (λ s. false) not_asked "rfnd_2" sixty once).1 ≡ throws exceeds_remaining
unfolding create_refund check_refund reserve_refund settle_gateway total_refunded str_eq
second_refused = refl

abbrev reserved : RefundDb
reserved = (reserve_refund value "rfnd_1" "BDT" sixty db).0

Run-IsBounded_example : IsBounded value 4 1 (reserve_refund value "rfnd_2" "BDT" sixty reserved).0
unfolding total_refunded str_eq
Run-IsBounded_example =
    Run-IsBounded value 4 1 db (reserve_refund value "rfnd_2" "BDT" sixty reserved).0 (omega arith)
      (goes_on reserved _ (goes_on db reserved stays (reserves "rfnd_1" "BDT" sixty))
        (reserves "rfnd_2" "BDT" sixty))

abbrev row : RefundRow
row = record {
  id = 1;
  merchant_id = 1;
  refund_id = "rfnd_1";
  transaction_id = 4;
  gateway_refund_id = some "re_1";
  amount = "60.00";
  currency = "BDT";
  status = RefundStatus.pending;
}

abbrev smooth : Steps
smooth = record { loads = true; posts = true; sends = true; marks = true }

run_refund-RefundEnding_example :
    RefundEnding call smooth
      (λ k. some GatewayStatus.pending)
      row
      platform
      (row ∷ [])
      (run_refund call smooth (λ k. some GatewayStatus.pending) row platform (row ∷ []))
run_refund-RefundEnding_example =
    run_refund-RefundEnding call smooth (λ k. some GatewayStatus.pending) row platform (row ∷ [])

one_day : refund_poll_window_ms ≡ 86_400_000
unfolding refund_poll_window_ms poll_window refund_poll_backoff_ms
one_day = refl
