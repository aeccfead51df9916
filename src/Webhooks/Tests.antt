-- ===== src/Webhooks/Tests.antt =====
-- Webhooks of src/services/webhook-dispatcher.ts and src/queues/webhook-consumer.ts, at concrete inputs.
use edgepay_cf.Prelude.{◌≡◌, refl, true, [], ◌∷◌, none, some, str_eq, length}
use edgepay_cf.Webhooks.{
  Webhook, DispatchData, WebhookMessage, build_payload, World, dispatch, retry_delay, new_message,
}

abbrev hook : Webhook
hook = record {
  id = 1;
  merchant_id = 1;
  url = "https://shop.example/hook";
  secret = "s";
  events = "*" ∷ [];
  is_active = true;
}

abbrev data_of : DispatchData
data_of = record {
  transaction_id = some "op_4";
  gateway_trx_id = some "pi_9";
  amount = some "100.00";
  currency = some "BDT";
  fee = none;
  gateway = none;
  gateway_type = none;
  status = some "completed";
  customer_name = none;
  customer_email = none;
  customer_phone = none;
}

-- The endpoint fails.
abbrev down : World
down = record {
  is_allowed = true;
  response = some 503;
  elapsed_ms = 20;
  logs = true;
  logs_again = true;
  now = 6;
}

sent_once : length (dispatch 5 1 "payment.completed" data_of (hook ∷ [])) ≡ 1
unfolding dispatch str_eq
sent_once = refl

abbrev message : WebhookMessage
message = new_message 1 "payment.completed" (build_payload 5 "payment.completed" data_of) hook

third_delay : retry_delay 3 ≡ 1_800
unfolding retry_delay
third_delay = refl
