-- ===== src/Sms/Tests.antt =====
-- An SMS for src/services/sms-corroboration.ts, and the theorem at concrete inputs.
use edgepay_cf.Prelude.{◌≡◌, ◌↔◌, refl, String, [], ◌∷◌, none, some, str_eq}
use edgepay_cf.Posting.Tests.{decimals}
use edgepay_cf.Sms.{
  SmsExtraction, OpenOrderCandidate, GatewaySource, sender_id, regex, confirm, manual_review,
  awaiting_customer_trx, Texts, corroborate_sms_payment, match_orders, match_currency, match_trx,
  settle_matched, resolve_gateway,
}
use edgepay_cf.Sms.Corroborated.{IsCorroborated, corroborate-IsCorroborated}

abbrev texts : Texts
texts = record { normal = λ s. s; family = λ s. s }

abbrev sms : SmsExtraction
sms = record {
  amount = some "100.00";
  trx_id = some "9AB";
  currency = none;
  gateway_slug = none;
  parser = regex;
}

abbrev order : OpenOrderCandidate
order = record {
  transaction_row_id = 4;
  payment_intent_id = 7;
  amount = "100.00";
  currency = "BDT";
  gateway_slug = some "bkash-api";
  customer_trx_id = some "9AB";
}

confirmed :
    corroborate_sms_payment decimals texts sms (order ∷ []) (some "bkash-api")
    ≡ confirm order "bkash-api" sender_id
unfolding corroborate_sms_payment match_orders match_currency match_trx settle_matched
    resolve_gateway str_eq
confirmed = refl

awaited :
    corroborate_sms_payment decimals texts sms (record order { customer_trx_id = none } ∷ []) none
    ≡ manual_review awaiting_customer_trx
unfolding corroborate_sms_payment match_orders match_currency match_trx settle_matched
    resolve_gateway str_eq
awaited = refl

corroborate-IsCorroborated_example :
    ((g : String) × (s : GatewaySource) × (corroborate_sms_payment decimals texts sms
          (order ∷ [])
          (some "bkash-api")
        ≡ confirm order g s))
    ↔ IsCorroborated decimals texts sms (order ∷ []) (some "bkash-api") order
corroborate-IsCorroborated_example =
    corroborate-IsCorroborated decimals texts sms (order ∷ []) (some "bkash-api") order
