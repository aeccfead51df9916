-- ===== src/Payments.antt =====
-- Payment intents and their transactions: `initiatePayment` and `completeTransaction` of
-- src/services/payment.ts. What a gateway's
-- adapter answers is an argument; the credentials that it is given, and the pages and texts that
-- it returns for the customer, are left out. A call is one step.
pub mod Callback
pub mod Backed
pub mod Kept
pub mod Sound
pub mod Confirmed
pub mod Status
pub mod Tests
use Prim.Native.Nat.{Ordering}
use edgepay_cf.Prelude.{
  ℕ, String, Bool, true, false, not, ◌&&◌, ◌||◌, List, [], ◌∷◌, ◌++◌, map, Option, none, some,
  str_eq, ◌==◌, if◌then◌else◌,
}
use edgepay_cf.Ledger.Types.{PostingResult}
use edgepay_cf.Money.{Decimals}
use edgepay_cf.Posting.{Platform, Failure, Outcome, done, throws, Call}
use edgepay_cf.Posting.Entries.{post_payment_ledger_entry}
use edgepay_cf.Webhooks.{Webhook, DispatchData, WebhookMessage, dispatch}

pub data PaymentStatus : Type 0 where
  pending created processing callback_processing completed failed cancelled expired refunded
        disputed awaiting_verification pending_review :
      PaymentStatus

-- A row of `op_payment_intents`.
pub record Intent : Type 0 where
  pub id : ℕ
  pub merchant_id : ℕ
  pub amount : String
  pub currency : String
  pub gateway_id : Option ℕ
  pub status : PaymentStatus
  pub completed_at : Option ℕ

-- A row of `op_transactions`; each has an intent.
pub record Transaction : Type 0 where
  pub id : ℕ
  pub trx_id : String
  pub payment_intent_id : ℕ
  pub gateway_trx_id : Option String
  pub amount : String
  pub currency : String
  pub fee : String
  pub status : PaymentStatus

-- A row of `op_gateways`.
pub record Gateway : Type 0 where
  pub id : ℕ
  pub merchant_id : ℕ
  pub slug : String
  pub is_manual : Bool
  pub is_active : Bool

pub record Shop : Type 0 where
  pub platform : Platform
  pub intents : List Intent
  pub transactions : List Transaction
  pub gateways : List Gateway
  pub webhooks : List Webhook
  pub queue : List WebhookMessage

pub data PaymentFailure : Type 0 where
  intent_not_found gateway_not_found gateway_disabled gateway_not_ported adapter_failed
        transaction_not_found :
      PaymentFailure
  ledger_failed : Failure → PaymentFailure

pub data PaymentOutcome {ℓ} (A : Type ℓ) : Type ℓ where
  returns : A → PaymentOutcome A
  fails : PaymentFailure → PaymentOutcome A

abbrev pub find_intent : ℕ → List Intent → Option Intent
find_intent k [] = none
find_intent k (i ∷ is) = if i.id == k then some i else find_intent k is

abbrev pub find_transaction : ℕ → List Transaction → Option Transaction
find_transaction k [] = none
find_transaction k (t ∷ ts) = if t.id == k then some t else find_transaction k ts

-- `JOIN op_transactions t ON t.payment_intent_id = pi.id … LIMIT 1`
abbrev pub find_by_intent : ℕ → List Transaction → Option Transaction
find_by_intent i [] = none
find_by_intent i (t ∷ ts) = if t.payment_intent_id == i then some t else find_by_intent i ts

abbrev pub find_active_gateway : ℕ → ℕ → List Gateway → Option Gateway
find_active_gateway k merchant [] = none
find_active_gateway k merchant (g ∷ gs) =
    if (g.id == k) && (g.merchant_id == merchant) && g.is_active
    then some g
    else find_active_gateway k merchant gs

-- What `initiatePayment` learns of a gateway: whether the deployment enables it, whether it is ported,
-- and whether its adapter is registered and answers.
pub record GatewayReply : Type 0 where
  pub is_enabled : Bool
  pub is_ported : Bool
  pub answers : Bool

abbrev pub set_processing : ℕ → Transaction → Transaction
set_processing i t = if t.payment_intent_id == i then record t { status = processing } else t

abbrev pub set_intent_processing : ℕ → ℕ → Intent → Intent
set_intent_processing k gateway i =
    if i.id == k then record i { status = processing; gateway_id = some gateway } else i

unfoldable pub start_processing : ℕ → ℕ → Shop → Shop
start_processing intent_id gateway_id x = record x {
  transactions = map (set_processing intent_id) x.transactions;
  intents = map (set_intent_processing intent_id gateway_id) x.intents;
}

unfoldable pub initiate_payment : GatewayReply → ℕ → ℕ → Shop → Shop × PaymentOutcome (Unit {0})
initiate_payment reply intent_id gateway_id x = elim (find_intent intent_id x.intents) [
  | none ↦ (x, fails intent_not_found)
  | some i ↦ elim (find_by_intent intent_id x.transactions) [
    | none ↦ (x, fails intent_not_found)
    | some t ↦ elim (find_active_gateway gateway_id i.merchant_id x.gateways) [
      | none ↦ (x, fails gateway_not_found)
      | some g ↦
          if g.is_manual
          then (start_processing intent_id gateway_id x, returns tt)
          else if not reply.is_enabled
          then (x, fails gateway_disabled)
          else if not reply.is_ported
          then (x, fails gateway_not_ported)
          else if not reply.answers
          then (x, fails adapter_failed)
          else (start_processing intent_id gateway_id x, returns tt)
    ]
  ]
]

abbrev pub set_completed : ℕ → String → Transaction → Transaction
set_completed k gateway_trx_id t =
    if t.id == k then record t { status = completed; gateway_trx_id = some gateway_trx_id } else t

abbrev pub set_intent_completed : ℕ → ℕ → Intent → Intent
set_intent_completed k now i =
    if i.id == k then record i { status = completed; completed_at = some now } else i

abbrev pub completed_data : String → Transaction → DispatchData
completed_data gateway_trx_id t = record {
  transaction_id = some t.trx_id;
  gateway_trx_id = some gateway_trx_id;
  amount = some t.amount;
  currency = some t.currency;
  fee = some t.fee;
  gateway = none;
  gateway_type = none;
  status = some "completed";
  customer_name = none;
  customer_email = none;
  customer_phone = none;
}

-- The batch on D1, and the webhooks.
unfoldable pub mark_completed : ℕ → ℕ → ℕ → ℕ → String → Transaction → Shop → Shop
mark_completed now merchant transaction_id intent_id gateway_trx_id t x = record x {
  transactions = map (set_completed transaction_id gateway_trx_id) x.transactions;
  intents = map (set_intent_completed intent_id now) x.intents;
  queue =
      x.queue
      ++ dispatch now merchant "payment.completed" (completed_data gateway_trx_id t) x.webhooks;
}

abbrev pub post_payment : Call → ℕ → ℕ → Transaction → Platform → Platform × Outcome PostingResult
post_payment c merchant intent_id t =
    post_payment_ledger_entry c merchant intent_id t.amount t.fee t.currency

unfoldable pub complete_transaction :
    Call → ℕ → ℕ → String → Shop → Shop × PaymentOutcome (Unit {0})
complete_transaction c transaction_id intent_id gateway_trx_id x =
    elim (find_transaction transaction_id x.transactions) [
      | none ↦ (x, fails transaction_not_found)
      | some t ↦ elim (find_intent t.payment_intent_id x.intents) [
        | none ↦ (x, fails transaction_not_found)
        | some i ↦
            let (platform, outcome) = post_payment c i.merchant_id intent_id t x.platform in
            let x' : Shop = record x { platform = platform } in
            elim outcome [
              | throws f ↦ (x', fails (ledger_failed f))
              | done r ↦ (
                mark_completed c.now i.merchant_id transaction_id intent_id gateway_trx_id t x',
                returns tt,
              )
            ]
      ]
    ]
