-- ===== src/Refunds.antt =====
-- `createRefund` of src/services/refund.ts. An amount is a text; what parseFloat and SQLite's CAST read in
-- it, in thousandths, is an argument: `none` for no number and for one below zero. Sums are exact. What
-- the gateway answers is an argument. The start of the workflow is left out.
pub mod Bounded
pub mod Workflow
mod Tests
use edgepay_cf.Prelude.{
  ℕ, ◌+◌, String, Bool, true, false, not, ◌&&◌, List, [], ◌∷◌, ◌++◌, map, Option, none, some, leb,
  ◌==◌, if◌then◌else◌,
}
use edgepay_cf.Payments.{PaymentStatus}

pub data RefundStatus : Type 0 where
  pending completed failed : RefundStatus

-- A row of `op_refunds`.
pub record RefundRow : Type 0 where
  pub id : ℕ
  pub merchant_id : ℕ
  pub refund_id : String
  pub transaction_id : ℕ
  pub gateway_refund_id : Option String
  pub amount : String
  pub currency : String
  pub status : RefundStatus

-- What the look-up of a transaction selects.
pub record RefundableTransaction : Type 0 where
  pub id : ℕ
  pub merchant_id : ℕ
  pub amount : String
  pub currency : String
  pub status : PaymentStatus
  pub gateway_slug : Option String
  pub gateway_trx_id : Option String

pub record RefundDb : Type 0 where
  pub transactions : List RefundableTransaction
  pub refunds : List RefundRow
  pub refund_seq : ℕ

pub record CreateRefundInput : Type 0 where
  pub merchant_id : ℕ
  pub transaction_id : ℕ
  pub amount : String

pub data RefundError : Type 0 where
  transaction_not_found not_completed not_positive exceeds_remaining not_ported not_supported :
      RefundError

pub data RefundOutcome {ℓ} (A : Type ℓ) : Type ℓ where
  returns : A → RefundOutcome A
  throws : RefundError → RefundOutcome A

abbrev pub find_refundable : ℕ → ℕ → List RefundableTransaction → Option RefundableTransaction
find_refundable k merchant [] = none
find_refundable k merchant (t ∷ ts) =
    if (t.id == k) && (t.merchant_id == merchant) then some t else find_refundable k merchant ts

abbrev pub is_reserved : RefundStatus → Bool
is_reserved failed = false
is_reserved _ = true

abbrev pub or_zero : Option ℕ → ℕ
or_zero none = 0
or_zero (some n) = n

module _ (value : String → Option ℕ) where
  -- A row's part of the sum.
  abbrev pub reserved_by : ℕ → ℕ → RefundRow → ℕ
  reserved_by k merchant r =
      if (r.transaction_id == k) && (r.merchant_id == merchant) && is_reserved r.status
      then or_zero (value r.amount)
      else 0

  -- `COALESCE(SUM(CAST(amount AS NUMERIC)), 0)`
  unfoldable pub total_refunded : ℕ → ℕ → List RefundRow → ℕ
  total_refunded k merchant [] = 0
  total_refunded k merchant (r ∷ rs) = reserved_by k merchant r + total_refunded k merchant rs

  -- `SELECT CAST(amount AS NUMERIC) FROM op_transactions WHERE id = ?`
  abbrev pub captured : ℕ → List RefundableTransaction → Option ℕ
  captured k [] = none
  captured k (t ∷ ts) = if t.id == k then some (or_zero (value t.amount)) else captured k ts

  -- With 0.001 to spare.
  abbrev pub is_within : ℕ → Option ℕ → Bool
  is_within n none = false
  is_within n (some c) = leb n (c + 1)

  abbrev is_completed : PaymentStatus → Bool
  is_completed PaymentStatus.completed = true
  is_completed _ = false

  abbrev is_planned : (String → Bool) → Option String → Bool
  is_planned planned none = false
  is_planned planned (some slug) = planned slug

  abbrev is_positive : Option ℕ → Bool
  is_positive none = false
  is_positive (some n) = not (n == 0)

  -- Step 1, and the first test of the sum; `planned` is whether the catalog calls a gateway planned.
  unfoldable pub check_refund :
      (String → Bool) → CreateRefundInput → RefundDb → RefundOutcome RefundableTransaction
  check_refund planned i db =
      elim (find_refundable i.transaction_id i.merchant_id db.transactions) [
        | none ↦ throws transaction_not_found
        | some t ↦
            if not (is_completed t.status)
            then throws not_completed
            else if is_planned planned t.gateway_slug
            then throws not_ported
            else if not (is_positive (value i.amount))
            then throws not_positive
            else if is_within
                (total_refunded i.transaction_id i.merchant_id db.refunds
                  + or_zero (value i.amount))
                (some (or_zero (value t.amount)))
            then returns t
            else throws exceeds_remaining
      ]

  -- `INSERT … SELECT … WHERE`: one statement, which tests the sum again.
  unfoldable pub reserve_refund :
      String → String → CreateRefundInput → RefundDb → RefundDb × Option ℕ
  reserve_refund public_id currency i db =
      if is_within
        (total_refunded i.transaction_id i.merchant_id db.refunds + or_zero (value i.amount))
        (captured i.transaction_id db.transactions)
      then (
        record db {
          refunds =
              db.refunds
              ++ (record {
                id = db.refund_seq;
                merchant_id = i.merchant_id;
                refund_id = public_id;
                transaction_id = i.transaction_id;
                gateway_refund_id = none;
                amount = i.amount;
                currency = currency;
                status = pending;
              }
                  ∷ []);
          refund_seq = db.refund_seq + 1;
        },
        some db.refund_seq,
      )
      else (db, none)

-- What asking the gateway comes to: it is not asked where the slug or the gateway's id of the payment
-- is missing, and `breaks` is an error that the call throws.
pub data GatewayRefund : Type 0 where
  not_asked unsupported breaks : GatewayRefund
  issued : Option String → GatewayRefund

abbrev pub set_gateway_id : ℕ → String → RefundRow → RefundRow
set_gateway_id k g r = if r.id == k then record r { gateway_refund_id = some g } else r

abbrev pub set_refund_failed : ℕ → RefundRow → RefundRow
set_refund_failed k r = if r.id == k then record r { status = failed } else r

unfoldable pub settle_gateway : GatewayRefund → ℕ → RefundDb → RefundDb × RefundOutcome ℕ
settle_gateway not_asked k db = (db, returns k)
settle_gateway (issued none) k db = (db, returns k)
settle_gateway (issued (some g)) k db =
    (record db { refunds = map (set_gateway_id k g) db.refunds }, returns k)
settle_gateway unsupported k db =
    (record db { refunds = map (set_refund_failed k) db.refunds }, throws not_supported)
settle_gateway breaks k db = (db, returns k)

unfoldable pub create_refund :
    (String → Option ℕ)
    → (String → Bool)
    → GatewayRefund
    → String
    → CreateRefundInput
    → RefundDb
    → RefundDb × RefundOutcome ℕ
create_refund value planned reply public_id i db = elim (check_refund value planned i db) [
  | throws e ↦ (db, throws e)
  | returns t ↦
      let (db', row) = reserve_refund value public_id t.currency i db in
      elim row [ none ↦ (db', throws exceeds_remaining) | some k ↦ settle_gateway reply k db' ]
]
