-- ===== src/Inbound.antt =====
-- The handler of gateways' webhooks, src/controllers/webhooks.ts. The registry, the deployment's selection of
-- gateways, the merchants' table, CIDR matching, the texts' `includes` and what `verifyWebhook` answers
-- are arguments; `verifyWebhook` is taken to return. The body is what the handler reads of it. Metrics
-- and the decryption of credentials are left out. A delivery is one step.
pub mod Admitted
pub mod Recorded
pub mod Taken
pub mod SmsQueue
pub mod Matched
pub mod Backed
mod Tests
use edgepay_cf.Prelude.{
  ℕ, ◌+◌, ◌-◌, String, Bool, true, false, not, ◌&&◌, ◌||◌, List, [], ◌∷◌, ◌++◌, Option, none, some,
  str_eq, ◌==◌, ltb, if◌then◌else◌,
}
use edgepay_cf.Prelude.Dict.{Dict, lookup, insert}
use edgepay_cf.Posting.{Call}
use edgepay_cf.Payments.{
  Transaction, Gateway, Shop, PaymentFailure, PaymentOutcome, returns, fails, complete_transaction,
}

abbrev pub allowlist_ttl_ms : ℕ
allowlist_ttl_ms = 60_000

pub record CachedAllowlist : Type 0 where
  pub cidrs : List String
  pub fetched_at : ℕ

-- A row of `op_webhook_events`.
pub record WebhookEvent : Type 0 where
  pub merchant_id : ℕ
  pub gateway : String
  pub event_id : String
  pub event_type : String

-- The tables and the cache of the isolate. `rejected` are the rows of `op_webhook_deliveries` for
-- signatures that failed: the merchant and the gateway.
pub record Inbox : Type 0 where
  pub shop : Shop
  pub events : List WebhookEvent
  pub rejected : List (ℕ × String)
  pub allowlists : Dict CachedAllowlist

-- What the handler reads outside: `default_merchant` is the query over active merchants, `ips` the rows
-- of `op_gateway_ips`, `merchant_of_row` the column `merchant_id` of `op_transactions` by the row's id.
pub record Site : Type 0 where
  pub is_registered : String → Bool
  pub is_enabled : String → Bool
  pub default_merchant : String → Option ℕ
  pub ips : String → List String
  pub in_cidr : String → String → Bool
  pub includes : String → String → Bool
  pub merchant_of_row : ℕ → ℕ

-- The payload's fields: `id ?? event_id`, `type ?? event_type`, and the three places where a gateway
-- puts the transaction's id.
pub record WebhookBody : Type 0 where
  pub event_id : Option String
  pub event_type : Option String
  pub stripe_trx_id : Option String
  pub paypal_custom : Option String
  pub razorpay_trx_id : Option String

pub record InboundDelivery : Type 0 where
  pub gateway : String
  pub merchant_id : Option ℕ
  pub client_ip : String
  pub country : Option String
  pub is_verified : Bool
  pub body : WebhookBody
  pub uuid : String
  pub now : ℕ

pub data WebhookAnswer : Type 0 where
  unknown_gateway no_merchant_context gateway_not_configured ip_not_allowed geo_blocked
        signature_invalid :
      WebhookAnswer
  duplicate processed : (event_id : String) → WebhookAnswer
  throws : PaymentFailure → WebhookAnswer

-- `loadGatewayIpAllowlist`, at one reading of the clock.
unfoldable pub load_gateway_ip_allowlist :
    Site → ℕ → String → Dict CachedAllowlist → List String × Dict CachedAllowlist
load_gateway_ip_allowlist site now slug cache =
    let fresh = site.ips slug in
    let stored = insert slug (record { cidrs = fresh; fetched_at = now }) cache in
    elim (lookup slug cache) [
      | none ↦ (fresh, stored)
      | some c ↦
          if ltb (now - c.fetched_at) allowlist_ttl_ms then (c.cidrs, cache) else (fresh, stored)
    ]

abbrev pub some_cidr : Site → String → List String → Bool
some_cidr site ip [] = false
some_cidr site ip (c ∷ cs) = site.in_cidr ip c || some_cidr site ip cs

abbrev pub is_allowed_country : String → Bool
is_allowed_country s = str_eq s "BD" || str_eq s "AF" || str_eq s "SG" || str_eq s "US"

-- Layers 1 and 2: `none` where the request goes on.
unfoldable pub check_origin : Site → InboundDelivery → List String → Option WebhookAnswer
check_origin site d (c ∷ cs) =
    if some_cidr site d.client_ip (c ∷ cs) then none else some ip_not_allowed
check_origin site d [] = elim d.country [
  | none ↦ none
  | some s ↦ if str_eq s "" || is_allowed_country s then none else some geo_blocked
]

abbrev truthy : Option ℕ → Option ℕ
truthy none = none
truthy (some n) = if n == 0 then none else some n

-- The merchant of the request's domain, or else the one that the gateway's rows give.
abbrev pub merchant_for : Site → InboundDelivery → Option ℕ
merchant_for site d = elim (truthy d.merchant_id) [
  | some m ↦ some m
  | none ↦ truthy (site.default_merchant d.gateway)
]

abbrev pub is_configured : String → ℕ → List Gateway → Bool
is_configured slug merchant [] = false
is_configured slug merchant (g ∷ gs) =
    (str_eq g.slug slug && (g.merchant_id == merchant) && g.is_active)
    || is_configured slug merchant gs

abbrev pub has_webhook_event : ℕ → String → String → List WebhookEvent → Bool
has_webhook_event merchant slug event_id [] = false
has_webhook_event merchant slug event_id (e ∷ es) =
    ((e.merchant_id == merchant) && str_eq e.gateway slug && str_eq e.event_id event_id)
    || has_webhook_event merchant slug event_id es

-- `extractTransactionId`
unfoldable pub extract_transaction_id : String → WebhookBody → Option String
extract_transaction_id slug b =
    if str_eq slug "stripe"
    then b.stripe_trx_id
    else if str_eq slug "paypal"
    then b.paypal_custom
    else if str_eq slug "razorpay"
    then b.razorpay_trx_id
    else none

abbrev pub text_or : Option String → String → String
text_or none d = d
text_or (some s) d = s

abbrev pub is_payment_done : Site → String → Bool
is_payment_done site t =
    site.includes t "payment"
    && (site.includes t "succeeded" || site.includes t "completed" || site.includes t "captured")

-- `SELECT … WHERE trx_id = ? AND merchant_id = ?`
abbrev pub find_by_trx : Site → String → ℕ → List Transaction → Option Transaction
find_by_trx site trx merchant [] = none
find_by_trx site trx merchant (t ∷ ts) =
    if str_eq t.trx_id trx && (site.merchant_of_row t.id == merchant)
    then some t
    else find_by_trx site trx merchant ts

-- The transaction that an event of a finished payment names.
unfoldable pub named_transaction :
    Site → ℕ → InboundDelivery → List Transaction → Option Transaction
named_transaction site merchant d ts =
    if is_payment_done site (text_or d.body.event_type "unknown")
    then elim (extract_transaction_id d.gateway d.body) [
      | none ↦ none
      | some trx ↦ if str_eq trx "" then none else elim (find_by_trx site trx merchant ts) [
        | none ↦ none
        | some t ↦ if t.payment_intent_id == 0 then none else some t
      ]
    ]
    else none

abbrev pub event_id_of : InboundDelivery → String
event_id_of d = text_or d.body.event_id d.uuid

abbrev pub record_event : ℕ → InboundDelivery → Inbox → Inbox
record_event merchant d x = record x {
  events =
      record {
        merchant_id = merchant;
        gateway = d.gateway;
        event_id = event_id_of d;
        event_type = text_or d.body.event_type "unknown";
      }
      ∷ x.events;
}

-- From a verified signature on. An error of `completeTransaction` is not caught.
unfoldable pub process_event : Site → Call → ℕ → InboundDelivery → Inbox → Inbox × WebhookAnswer
process_event site c merchant d x =
    if has_webhook_event merchant d.gateway (event_id_of d) x.events
    then (x, duplicate (event_id_of d))
    else let x' = record_event merchant d x in
      elim (named_transaction site merchant d x.shop.transactions) [
        | none ↦ (x', processed (event_id_of d))
        | some t ↦
            let (shop, outcome) =
              complete_transaction c t.id t.payment_intent_id (event_id_of d) x.shop in
            (
              record x' { shop = shop },
              elim outcome [ returns _ ↦ processed (event_id_of d) | fails f ↦ throws f ],
            )
      ]

-- From the answer of `verifyWebhook` on.
unfoldable pub after_signature :
    Bool → Site → Call → ℕ → InboundDelivery → Inbox → Inbox × WebhookAnswer
after_signature true site c merchant d x = process_event site c merchant d x
after_signature false site c merchant d x =
    (record x { rejected = (merchant, d.gateway) ∷ x.rejected }, signature_invalid)

-- From the merchant on.
unfoldable pub receive_for : Site → Call → ℕ → InboundDelivery → Inbox → Inbox × WebhookAnswer
receive_for site c merchant d x =
    if not (is_configured d.gateway merchant x.shop.gateways)
    then (x, gateway_not_configured)
    else let (cidrs, cache) = load_gateway_ip_allowlist site d.now d.gateway x.allowlists in
      let x1 = record x { allowlists = cache } in
      elim (check_origin site d cidrs) [
        | some answer ↦ (x1, answer)
        | none ↦ after_signature d.is_verified site c merchant d x1
      ]

-- `POST /webhook/{gateway}`
unfoldable pub receive : Site → Call → InboundDelivery → Inbox → Inbox × WebhookAnswer
receive site c d x =
    if not (site.is_registered d.gateway && site.is_enabled d.gateway)
    then (x, unknown_gateway)
    else elim (merchant_for site d) [
      | none ↦ (x, no_merchant_context)
      | some merchant ↦ receive_for site c merchant d x
    ]
