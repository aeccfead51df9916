-- ===== src/Webhooks.antt =====
-- Merchants' webhooks: `dispatch` and `buildPayload` of src/services/webhook-dispatcher.ts, and
-- `process` and `processOne` of src/queues/webhook-consumer.ts. The JSON of a webhook's `events` is read already; what
-- isAllowedWebhookUrl says of an address, what the endpoint answers and whether D1 takes a row are
-- arguments. The platform's queue is a list.
pub mod Delays
mod Tests
use edgepay_cf.Prelude.{
  ℕ, ◌-◌, min, String, Bool, true, false, ◌&&◌, ◌||◌, List, [], ◌∷◌, ◌++◌, map, keep, Option, none,
  some, str_eq, leb, ltb, ◌==◌, if◌then◌else◌,
}

-- A row of `op_webhooks`.
pub record Webhook : Type 0 where
  pub id : ℕ
  pub merchant_id : ℕ
  pub url : String
  pub secret : String
  pub events : List String
  pub is_active : Bool

-- The fields of `data` that `buildPayload` reads.
pub record DispatchData : Type 0 where
  pub transaction_id : Option String
  pub gateway_trx_id : Option String
  pub amount : Option String
  pub currency : Option String
  pub fee : Option String
  pub gateway : Option String
  pub gateway_type : Option String
  pub status : Option String
  pub customer_name : Option String
  pub customer_email : Option String
  pub customer_phone : Option String

pub record WebhookCustomer : Type 0 where
  pub name : String
  pub email : String
  pub phone : String

-- The metadata, which no caller gives, is left out.
pub record WebhookPayload : Type 0 where
  pub event : String
  pub transaction_id : String
  pub gateway_trx_id : String
  pub amount : String
  pub currency : String
  pub fee : String
  pub gateway : String
  pub gateway_type : String
  pub status : String
  pub customer : WebhookCustomer
  pub timestamp : ℕ

pub record WebhookMessage : Type 0 where
  pub webhook_id : ℕ
  pub merchant_id : ℕ
  pub url : String
  pub secret : String
  pub event : String
  pub payload : WebhookPayload
  pub attempt : ℕ

abbrev or_default : Option String → String → String
or_default none d = d
or_default (some s) d = s

abbrev pub build_payload : ℕ → String → DispatchData → WebhookPayload
build_payload now event d = record {
  event = event;
  transaction_id = or_default d.transaction_id "";
  gateway_trx_id = or_default d.gateway_trx_id "";
  amount = or_default d.amount "0.00";
  currency = or_default d.currency "BDT";
  fee = or_default d.fee "0.00";
  gateway = or_default d.gateway "";
  gateway_type = or_default d.gateway_type "unknown";
  status = or_default d.status "";
  customer = record {
    name = or_default d.customer_name "";
    email = or_default d.customer_email "";
    phone = or_default d.customer_phone "";
  };
  timestamp = now;
}

abbrev includes : String → List String → Bool
includes s [] = false
includes s (t ∷ ts) = str_eq t s || includes s ts

-- An empty list subscribes to everything.
abbrev pub is_subscribed : String → Webhook → Bool
is_subscribed event w = elim w.events [
  | [] ↦ true
  | e ∷ es ↦ includes "*" w.events || includes event w.events
]

abbrev pub new_message : ℕ → String → WebhookPayload → Webhook → WebhookMessage
new_message merchant event p w = record {
  webhook_id = w.id;
  merchant_id = merchant;
  url = w.url;
  secret = w.secret;
  event = event;
  payload = p;
  attempt = 1;
}

-- The messages that are put behind those in the queue.
unfoldable pub dispatch : ℕ → ℕ → String → DispatchData → List Webhook → List WebhookMessage
dispatch now merchant event d webhooks =
    let active = keep (λ w. (w.merchant_id == merchant) && w.is_active) webhooks in
    map (new_message merchant event (build_payload now event d)) (keep (is_subscribed event) active)

-- A row of `op_webhook_deliveries`.
pub record Delivery : Type 0 where
  pub merchant_id : ℕ
  pub webhook_id : ℕ
  pub event : String
  pub url : String
  pub status_code : ℕ
  pub response_time_ms : ℕ
  pub success : Bool
  pub created_at : ℕ

-- What becomes of a message: `ack`, `retry` after a number of seconds, or neither, when the handler
-- throws.
pub data Disposition : Type 0 where
  acked unhandled : Disposition
  retried : ℕ → Disposition

-- What a run meets: the guard's answer, the endpoint's (`none` for an error or a timeout), the time it
-- took, and whether D1 takes the first row and the second.
pub record World : Type 0 where
  pub is_allowed : Bool
  pub response : Option ℕ
  pub elapsed_ms : ℕ
  pub logs : Bool
  pub logs_again : Bool
  pub now : ℕ

-- `[60, 300, 1800][Math.min(attempt - 1, 2)]`, for an attempt from 1.
unfoldable pub retry_delay : ℕ → ℕ
retry_delay attempt =
    let place = min (attempt - 1) 2 in if place == 0 then 60 else if place == 1 then 300 else 1_800

abbrev pub log_delivery : World → WebhookMessage → ℕ → ℕ → Bool → Delivery
log_delivery v w status elapsed success = record {
  merchant_id = w.merchant_id;
  webhook_id = w.webhook_id;
  event = w.event;
  url = w.url;
  status_code = status;
  response_time_ms = elapsed;
  success = success;
  created_at = v.now;
}

abbrev pub is_success : ℕ → Bool
is_success status = leb 200 status && ltb status 300

abbrev pub is_client_error : ℕ → Bool
is_client_error status = leb 400 status && ltb status 500

-- The catch: the delivery is logged once more, and retried if that works.
unfoldable pub process_error : World → WebhookMessage → List Delivery → List Delivery × Disposition
process_error v w ds =
    if v.logs_again
    then (ds ++ (log_delivery v w 0 v.elapsed_ms false ∷ []), retried (retry_delay w.attempt))
    else (ds, unhandled)

abbrev pub settle_response : WebhookMessage → ℕ → Disposition
settle_response w status =
    if is_success status
    then acked
    else if is_client_error status
    then acked
    else retried (retry_delay w.attempt)

unfoldable pub process_one : World → WebhookMessage → List Delivery → List Delivery × Disposition
process_one v w ds =
    let failed = process_error v w ds in
    if v.is_allowed
    then elim v.response [
      | none ↦ failed
      | some status ↦
          if v.logs
          then (
            ds ++ (log_delivery v w status v.elapsed_ms (is_success status) ∷ []),
            settle_response w status,
          )
          else failed
    ]
    else if v.logs
    then (ds ++ (log_delivery v w 0 0 false ∷ []), acked)
    else failed

-- A message that its handler left neither acknowledged nor retried counts as acknowledged, since `process`
-- returns all the same.
abbrev pub settled : Disposition → Disposition
settled unhandled = acked
settled acked = acked
settled (retried n) = retried n

-- `process`: `Promise.allSettled` over the batch, here with one message after the other.
unfoldable pub process_batch :
    List (World × WebhookMessage) → List Delivery → List Delivery × List Disposition
process_batch [] ds = (ds, [])
process_batch ((v, m) ∷ rest) ds =
    let (ds1, end) = process_one v m ds in
    let (ds2, ends) = process_batch rest ds1 in (ds2, settled end ∷ ends)
