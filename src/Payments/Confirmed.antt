-- ===== src/Payments/Confirmed.antt =====
-- What a callback must bring to complete a payment (src/services/payment.ts).
use Prim.Native.Nat.{Ordering}
use edgepay_cf.Prelude.{
  ℕ, ◌≡◌, ◌⊎◌, inl, inr, refl, ap, String, Bool, true, false, not, List, [], ◌∷◌, keep, map, Option,
  some, none, arith, Bool-cases, str_eq, str_eq_iff,
}
use edgepay_cf.Money.{Decimals}
use edgepay_cf.Posting.{Call}
use edgepay_cf.Payments.{
  PaymentStatus, Intent, Transaction, Gateway, Shop, find_intent, find_by_intent,
}
use edgepay_cf.Payments.Callback.{
  VerifyResult, set_failed, fail_transaction, is_equal, is_unverified, is_mismatch, is_other,
  find_gateway, settle_callback, handle_callback,
}

-- The gateway reports success, of the amount of the intent (a manual gateway may leave it out), and
-- for this transaction if it names one.
pub record IsConfirmed (d : Decimals) (v : VerifyResult) (slug asked trx : String) : Type 0 where
  pub success : v.success ≡ true
  pub amount :
      ((a : String) × (v.amount ≡ some a) × (d.cmp a asked ≡ Ordering.eq))
      ⊎ ((v.amount ≡ none) × ((slug ≡ "") ⊎ (slug ≡ "manual")))
  pub reference : (v.trx_id ≡ none) ⊎ (v.trx_id ≡ some "") ⊎ (v.trx_id ≡ some trx)

abbrev pub is_completed : Transaction → Bool
is_completed t = elim t.status [ PaymentStatus.completed ↦ true | _ ↦ false ]

-- No payment was completed, nothing was posted and no webhook was sent.
pub record Uncompleted (x x' : Shop) : Type 0 where
  pub completed_rows : keep is_completed x'.transactions ≡ keep is_completed x.transactions
  pub platform : x'.platform ≡ x.platform
  pub queue : x'.queue ≡ x.queue
  pub intents : x'.intents ≡ x.intents

keep_completed-set_failed :
    (k : ℕ) (ts : List Transaction)
    → keep is_completed (map (set_failed k) ts) ≡ keep is_completed ts
keep_completed-set_failed k [] = refl
keep_completed-set_failed k (t ∷ ts) = ground (arith, keep_completed-set_failed k ts)

fail_transaction-Uncompleted : (k : ℕ) (x : Shop) → Uncompleted x (fail_transaction k x)
unfolding fail_transaction
fail_transaction-Uncompleted k x = record {
  completed_rows = keep_completed-set_failed k x.transactions;
  platform = refl;
  queue = refl;
  intents = refl;
}

Uncompleted-refl : (x : Shop) → Uncompleted x x
Uncompleted-refl x = record { completed_rows = refl; platform = refl; queue = refl; intents = refl }

amount_confirmed :
    (d : Decimals) (slug amount : String) (o : Option String)
    → is_unverified slug o ≡ false
    → is_mismatch d amount o ≡ false
    → ((a : String) × (o ≡ some a) × (d.cmp a amount ≡ Ordering.eq))
      ⊎ ((o ≡ none) × ((slug ≡ "") ⊎ (slug ≡ "manual")))
amount_confirmed d slug amount none u m =
    inr (refl, ground (arith, u, str_eq_iff slug "", str_eq_iff slug "manual"))
amount_confirmed d slug amount (some a) u m = inl (a, refl, equal (d.cmp a amount) m)
  where
    equal : (o : Ordering) → not (is_equal o) ≡ false → o ≡ Ordering.eq
    equal Ordering.lt h = ground (arith, h)
    equal Ordering.eq h = refl
    equal Ordering.gt h = ground (arith, h)

reference_confirmed :
    (trx : String) (o : Option String)
    → is_other trx o ≡ false
    → (o ≡ none) ⊎ (o ≡ some "") ⊎ (o ≡ some trx)
reference_confirmed trx none h = inl refl
reference_confirmed trx (some s) h = elim (Bool-cases (str_eq s "")) [
  | inl q ↦ inr (inl (ap some ((str_eq_iff s "").0 q)))
  | inr q ↦ inr (inr (ap some ((str_eq_iff s trx).0 (ground (arith, q, h)))))
]

settle-IsConfirmed :
    (c : Call) (v : VerifyResult) (slug : String) (i : Intent) (t : Transaction) (x : Shop)
    → IsConfirmed c.decimals v slug i.amount t.trx_id
      ⊎ Uncompleted x (settle_callback c v slug i t x).0
unfolding settle_callback
settle-IsConfirmed c v slug i t x =
    let failed = fail_transaction-Uncompleted t.id x in
    elim (Bool-cases v.success) [
      | inr q ↦ inr (rw (q, settle_callback) failed)
      | inl q ↦ elim (Bool-cases (is_unverified slug v.amount)) [
        | inl u ↦ inr (rw (q, u, settle_callback) failed)
        | inr u ↦ elim (Bool-cases (is_mismatch c.decimals i.amount v.amount)) [
          | inl m ↦ inr (rw (q, u, m, settle_callback) failed)
          | inr m ↦ elim (Bool-cases (is_other t.trx_id v.trx_id)) [
            | inl o ↦ inr (rw (q, u, m, o, settle_callback) failed)
            | inr o ↦ inl (record {
              success = q;
              amount = amount_confirmed c.decimals slug i.amount v.amount u m;
              reference = reference_confirmed t.trx_id v.trx_id o;
            })
          ]
        ]
      ]
    ]

-- Either the gateway confirmed success, an amount equal to the intent's (which only a manual gateway, or
-- one without a slug, may leave out), and no other transaction than this one (it may name none), or the
-- callback completes no payment: the completed rows, the intents, the books and the webhooks' queue are
-- as they were.
pub callback-IsConfirmed :
    (c : Call) (v : VerifyResult) (k : ℕ) (x : Shop) (i : Intent) (t : Transaction) (g : Gateway)
    → find_intent k x.intents ≡ some i
    → find_by_intent k x.transactions ≡ some t
    → find_gateway i.gateway_id x.gateways ≡ some g
    → IsConfirmed c.decimals v g.slug i.amount t.trx_id
      ⊎ Uncompleted x (handle_callback c (some v) k x).0
unfolding handle_callback
callback-IsConfirmed c v k x i t g q q' q'' =
    rw (q, q', q'', handle_callback) (settle-IsConfirmed c v g.slug i t x)
