-- ===== src/Payments/Callback.antt =====
-- `handleCallback` of src/services/payment.ts. What `adapter.verify` answers is an argument.
use Prim.Native.Nat.{Ordering}
use edgepay_cf.Prelude.{
  ℕ, String, Bool, true, false, not, ◌&&◌, List, [], ◌∷◌, map, Option, none, some, str_eq, ◌==◌,
  if◌then◌else◌,
}
use edgepay_cf.Money.{Decimals}
use edgepay_cf.Posting.{Call}
use edgepay_cf.Payments.{
  PaymentStatus, Intent, Transaction, Gateway, Shop, intent_not_found, adapter_failed,
  PaymentOutcome, returns, fails, find_intent, find_by_intent, complete_transaction,
}

pub data VerifyStatus : Type 0 where
  completed failed pending cancelled : VerifyStatus

pub record VerifyResult : Type 0 where
  pub success : Bool
  pub gateway_trx_id : String
  pub amount : Option String
  pub status : VerifyStatus
  pub trx_id : Option String

pub data CallbackStatus : Type 0 where
  amount_unverified amount_mismatch trx_id_mismatch : CallbackStatus
  verified : VerifyStatus → CallbackStatus

pub record CallbackResult : Type 0 where
  pub success : Bool
  pub status : CallbackStatus

-- `status IN ('pending', 'processing', 'created')`
abbrev pub is_open : PaymentStatus → Bool
is_open PaymentStatus.pending = true
is_open PaymentStatus.processing = true
is_open PaymentStatus.created = true
is_open _ = false

abbrev pub set_failed : ℕ → Transaction → Transaction
set_failed k t =
    if (t.id == k) && is_open t.status then record t { status = PaymentStatus.failed } else t

unfoldable pub fail_transaction : ℕ → Shop → Shop
fail_transaction k x = record x { transactions = map (set_failed k) x.transactions }

abbrev pub is_equal : Ordering → Bool
is_equal Ordering.eq = true
is_equal _ = false

abbrev pub is_unverified : String → Option String → Bool
is_unverified slug none = not (str_eq slug "") && not (str_eq slug "manual")
is_unverified slug (some a) = false

abbrev pub is_mismatch : Decimals → String → Option String → Bool
is_mismatch d amount none = false
is_mismatch d amount (some a) = not (is_equal (d.cmp a amount))

-- `verifyResult.trx_id && verifyResult.trx_id !== intent.trx_id`
abbrev pub is_other : String → Option String → Bool
is_other trx none = false
is_other trx (some s) = not (str_eq s "") && not (str_eq s trx)

abbrev pub refuse : ℕ → CallbackStatus → Shop → Shop × PaymentOutcome CallbackResult
refuse k status x = (fail_transaction k x, returns (record { success = false; status = status }))

-- What follows `adapter.verify`.
unfoldable pub settle_callback :
    Call
    → VerifyResult
    → String
    → Intent
    → Transaction
    → Shop
    → Shop × PaymentOutcome CallbackResult
settle_callback c v slug i t x =
    if not v.success
    then refuse t.id (verified v.status) x
    else if is_unverified slug v.amount
    then refuse t.id amount_unverified x
    else if is_mismatch c.decimals i.amount v.amount
    then refuse t.id amount_mismatch x
    else if is_other t.trx_id v.trx_id
    then refuse t.id trx_id_mismatch x
    else let (x', outcome) = complete_transaction c t.id i.id v.gateway_trx_id x in
      elim outcome [
        | fails f ↦ (x', fails f)
        | returns u ↦ (x', returns (record { success = v.success; status = verified v.status }))
      ]

abbrev pub find_gateway : Option ℕ → List Gateway → Option Gateway
find_gateway none gs = none
find_gateway (some k) [] = none
find_gateway (some k) (g ∷ gs) = if g.id == k then some g else find_gateway (some k) gs

-- `none` for an adapter that is not registered, or throws.
unfoldable pub handle_callback :
    Call → Option VerifyResult → ℕ → Shop → Shop × PaymentOutcome CallbackResult
handle_callback c reply intent_id x = elim (find_intent intent_id x.intents) [
  | none ↦ (x, fails intent_not_found)
  | some i ↦ elim (find_by_intent intent_id x.transactions) [
    | none ↦ (x, fails intent_not_found)
    | some t ↦ elim (find_gateway i.gateway_id x.gateways) [
      | none ↦ (x, fails intent_not_found)
      | some g ↦ elim reply [
        | none ↦ (x, fails adapter_failed)
        | some v ↦ settle_callback c v g.slug i t x
      ]
    ]
  ]
]
