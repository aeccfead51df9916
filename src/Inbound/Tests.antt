-- ===== src/Inbound/Tests.antt =====
-- Webhooks and SMS of src/controllers/webhooks.ts and src/queues/sms-consumer.ts on a small shop, and the
-- theorems at concrete inputs.
use edgepay_cf.Prelude.{List, ◌∷◌, ◌≡◌, refl, true, false, [], some, none, str_eq}
use edgepay_cf.Posting.{accounts_not_initialized, get_account_by_code}
use edgepay_cf.Posting.Tests.{call}
use edgepay_cf.Payments.{ledger_failed, complete_transaction}
use edgepay_cf.Payments.Tests.{shop, shop-IsBacked}
use edgepay_cf.Payments.Backed.{IsBacked}
use edgepay_cf.Inbound.Backed.{Doors, Arrival, webhook, text, arrive_all, arrive_all-IsBacked}
use edgepay_cf.Posting.Entries.{post_payment_ledger_entry}
use edgepay_cf.Sms.{SmsExtraction, regex}
use edgepay_cf.Inbound.{
  Inbox, Site, InboundDelivery, WebhookBody, throws, load_gateway_ip_allowlist, check_origin,
  named_transaction, extract_transaction_id, process_event, after_signature, receive_for, receive,
}
use edgepay_cf.Inbound.Recorded.{receive_all}
use edgepay_cf.Inbound.Taken.{Received, receive-Received, failed_event_ignored}
use edgepay_cf.Inbound.SmsQueue.{SmsSite, SmsMessage, SmsInbox, RowInfo, process_sms}
use edgepay_cf.Inbound.Matched.{Processed, process_sms-Processed}

abbrev site : Site
site = record {
  is_registered = λ s. true;
  is_enabled = λ s. true;
  default_merchant = λ s. some 1;
  ips = λ s. [];
  in_cidr = λ a b. false;
  includes = λ s t. true;
  merchant_of_row = λ k. 1;
}

abbrev paid_event : WebhookBody
paid_event = record {
  event_id = some "evt_1";
  event_type = some "payment.succeeded";
  stripe_trx_id = some "op_4";
  paypal_custom = none;
  razorpay_trx_id = none;
}

abbrev delivery : InboundDelivery
delivery = record {
  gateway = "stripe";
  merchant_id = none;
  client_ip = "";
  country = some "US";
  is_verified = true;
  body = paid_event;
  uuid = "u";
  now = 9;
}

abbrev inbox : Inbox
inbox = record { shop = shop; events = []; rejected = []; allowlists = [] }

receive-Received_example : Received site call delivery inbox (receive site call delivery inbox).0
receive-Received_example = receive-Received site call delivery inbox

-- A merchant whose chart is missing.
abbrev unready : Inbox
unready =
    let p = shop.platform in
    record inbox { shop = record shop { platform = record p { accounts = [] } } }

refused_once :
    (receive site call delivery unready).1 ≡ throws (ledger_failed accounts_not_initialized)
unfolding receive receive_for after_signature process_event named_transaction extract_transaction_id
    load_gateway_ip_allowlist check_origin complete_transaction post_payment_ledger_entry
    get_account_by_code str_eq
refused_once = refl

-- Another event that comes in between.
abbrev other_event : InboundDelivery
other_event = record delivery { body = record paid_event { event_id = some "evt_2" } }

failed_event_ignored_example :
    let x' = receive_all site ((call, other_event) ∷ []) (receive site call delivery unready).0 in
    (receive site call delivery x').0.shop ≡ x'.shop
failed_event_ignored_example =
    failed_event_ignored site call call delivery delivery ((call, other_event) ∷ []) unready
      (ledger_failed accounts_not_initialized) refused_once refl refl refl

abbrev info : RowInfo
info = record {
  merchant_id = 1;
  created_at = 2;
  store_id = none;
  gateway_slug = some "bkash-api";
  customer_trx_id = some "TX1";
}

abbrev read : SmsExtraction
read = record {
  amount = some "100.00";
  trx_id = some "TX1";
  currency = some "BDT";
  gateway_slug = none;
  parser = regex;
}

abbrev sms_site : SmsSite
sms_site = record {
  signature_required = true;
  texts = record { normal = λ s. s; family = λ s. s };
  validate_carrier_sender = λ s. record { trusted = true; gateway_slug = some "bkash-api" };
  sender_to_gateway_slug = λ s. none;
  parse = λ b s m. some read;
  info = λ k. info;
}

abbrev sms : SmsMessage
sms = record {
  merchant_id = 1;
  sender = "bKash";
  body = "";
  signature_verified = true;
  device_id = some 6;
  store_id = none;
}

abbrev sms_inbox : SmsInbox
sms_inbox = record { shop = shop; rows = []; row_seq = 1 }

process_sms-Processed_example :
    Processed sms_site call sms sms_inbox (process_sms sms_site call sms sms_inbox).0
process_sms-Processed_example = process_sms-Processed sms_site call sms sms_inbox

abbrev doors : Doors
doors = record { inbox = inbox; rows = []; row_seq = 1 }

abbrev arrivals : List Arrival
arrivals = webhook site call delivery ∷ text sms_site call sms ∷ []

arrive_all-IsBacked_example : IsBacked (arrive_all arrivals doors).inbox.shop
arrive_all-IsBacked_example = arrive_all-IsBacked arrivals doors shop-IsBacked
