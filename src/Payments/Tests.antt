-- ===== src/Payments/Tests.antt =====
-- Payments of src/services/payment.ts on a small shop, and the theorems at concrete inputs.
use edgepay_cf.Prelude.{◌≡◌, ◌⊎◌, ◌↔◌, refl, true, [], ◌∷◌, none, some, false, arith}
use edgepay_cf.Posting.Tests.{platform, call}
use edgepay_cf.Payments.{
  PaymentStatus, completed, Intent, Transaction, Gateway, Shop, GatewayReply, initiate_payment,
}
use edgepay_cf.Payments.Callback.{VerifyResult, VerifyStatus, handle_callback}
use edgepay_cf.Payments.Backed.{IsBacked}
use edgepay_cf.Payments.Sound.{stays, goes_on, initiates, calls_back, Run-IsBacked}
use edgepay_cf.Payments.Confirmed.{IsConfirmed, Uncompleted, callback-IsConfirmed}
use edgepay_cf.Payments.Status.{
  IntentStatusCandidate, IsPaid, resolve_intent_status, resolve_intent_status-IsPaid,
}

abbrev intent : Intent
intent = record {
  id = 7;
  merchant_id = 1;
  amount = "100.00";
  currency = "BDT";
  gateway_id = some 3;
  status = PaymentStatus.pending;
  completed_at = none;
}

abbrev transaction : Transaction
transaction = record {
  id = 4;
  trx_id = "op_4";
  payment_intent_id = 7;
  gateway_trx_id = none;
  amount = "100.00";
  currency = "BDT";
  fee = "0.00";
  status = PaymentStatus.pending;
}

abbrev gateway : Gateway
gateway = record { id = 3; merchant_id = 1; slug = "stripe"; is_manual = false; is_active = true }

abbrev pub shop : Shop
shop = record {
  platform = platform;
  intents = intent ∷ [];
  transactions = transaction ∷ [];
  gateways = gateway ∷ [];
  webhooks = [];
  queue = [];
}

abbrev reply : VerifyResult
reply = record {
  success = true;
  gateway_trx_id = "pi_9";
  amount = some "100.00";
  status = VerifyStatus.completed;
  trx_id = none;
}

abbrev enabled : GatewayReply
enabled = record { is_enabled = true; is_ported = true; answers = true }

abbrev started : Shop
started = (initiate_payment enabled 7 3 shop).0

abbrev finished : Shop
finished = (handle_callback call (some reply) 7 started).0

pub shop-IsBacked : IsBacked shop
shop-IsBacked = record { keyed = (tt, tt); backed = (λ c. ground (arith, c), tt) }

Run-IsBacked_example : IsBacked finished
Run-IsBacked_example = Run-IsBacked shop finished shop-IsBacked (
    goes_on started finished (goes_on shop started stays (initiates enabled 7 3))
      (calls_back call (some reply) 7))

callback-IsConfirmed_example :
    IsConfirmed call.decimals reply "stripe" "100.00" "op_4"
    ⊎ Uncompleted shop (handle_callback call (some reply) 7 shop).0
callback-IsConfirmed_example =
    callback-IsConfirmed call reply 7 shop intent transaction gateway refl refl refl

abbrev candidate : IntentStatusCandidate
candidate = record { id = some 7; merchant_id = some 1; status = PaymentStatus.processing }

resolve_intent_status-IsPaid_example :
    (resolve_intent_status true finished.platform candidate ≡ completed)
    ↔ ((candidate.status ≡ completed) ⊎ IsPaid true finished.platform candidate)
resolve_intent_status-IsPaid_example = resolve_intent_status-IsPaid true finished.platform candidate
