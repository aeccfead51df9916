-- ===== src/Payments/Status.antt =====
-- `resolveIntentStatus` of src/services/checkout-status.ts. Whether the merchant's object answers is an
-- argument; an id of 0 is none.
use edgepay_cf.Prelude.{
  ℕ, ◌≡◌, ◌≢◌, ◌⊎◌, ◌↔◌, inl, inr, refl, Bool, true, false, Option, some, none, arith, Bool-cases,
  Option-cases, ◌==◌, if◌then◌else◌,
}
use edgepay_cf.Ledger.Book.{find_posted}
use edgepay_cf.Ledger.Trial.{get_transaction_status}
use edgepay_cf.Posting.{Platform}
use edgepay_cf.Posting.Entries.{payment_tx_id}
use edgepay_cf.Posting.Held.{Holds}
use edgepay_cf.Payments.{PaymentStatus, completed}

pub record IntentStatusCandidate : Type 0 where
  pub id : Option ℕ
  pub merchant_id : Option ℕ
  pub status : PaymentStatus

abbrev present : Option ℕ → Option ℕ
present none = none
present (some k) = if k == 0 then none else some k

-- The object's answer, or that of the row.
abbrev pub look_up : Bool → Platform → PaymentStatus → ℕ → ℕ → PaymentStatus
look_up answers x status merchant intent =
    let found = get_transaction_status (payment_tx_id merchant intent) (x.books merchant) in
    if answers then (if found.exists then completed else status) else status

abbrev is_completed_status : PaymentStatus → Bool
is_completed_status PaymentStatus.completed = true
is_completed_status _ = false

unfoldable pub resolve_intent_status : Bool → Platform → IntentStatusCandidate → PaymentStatus
resolve_intent_status answers x i =
    if is_completed_status i.status then completed else elim (present i.merchant_id) [
      | none ↦ i.status
      | some merchant ↦ elim (present i.id) [
        | none ↦ i.status
        | some intent ↦ look_up answers x i.status merchant intent
      ]
    ]

-- The merchant's object answers, and its book has registered the payment.
pub record IsPaid (answers : Bool) (x : Platform) (i : IntentStatusCandidate) : Type 0 where
  pub answers_it : answers ≡ true
  pub merchant : ℕ
  pub intent : ℕ
  pub own : i.merchant_id ≡ some merchant
  pub key : i.id ≡ some intent
  pub nonzero : (merchant ≢ 0) × (intent ≢ 0)
  pub held : Holds x merchant (payment_tx_id merchant intent)

present_sound : (o : Option ℕ) (k : ℕ) → present o ≡ some k → (o ≡ some k) × (k ≢ 0)
present_sound none k h = ground (arith, h)
present_sound (some j) k h = ground (arith, h)

look_up-completed :
    (answers : Bool) (x : Platform) (status : PaymentStatus) (merchant intent : ℕ)
    → look_up answers x status merchant intent ≡ completed
    → (status ≡ completed) ⊎ ((answers ≡ true) × Holds x merchant (payment_tx_id merchant intent))
unfolding get_transaction_status
look_up-completed false x status merchant intent h = inl h
look_up-completed true x status merchant intent h =
    elim (Option-cases (find_posted (payment_tx_id merchant intent) (x.books merchant).posted)) [
      | inl q ↦ inl (rw (q, get_transaction_status) at h)
      | inr (row, q) ↦ inr (refl, (row, q))
    ]

module _ (answers : Bool) (x : Platform) (i : IntentStatusCandidate) where
  resolved_sound :
      resolve_intent_status answers x i ≡ completed → (i.status ≡ completed) ⊎ IsPaid answers x i
  unfolding resolve_intent_status
  resolved_sound h = elim (Bool-cases (is_completed_status i.status)) [
    | inl q ↦ inl (of_test i.status q)
    | inr q ↦ elim (Option-cases (present i.merchant_id)) [
      | inl m ↦ inl (rw (q, m, resolve_intent_status) at h)
      | inr (merchant, m) ↦ elim (Option-cases (present i.id)) [
        | inl k ↦ inl (rw (q, m, k, resolve_intent_status) at h)
        | inr (intent, k) ↦
            elim (look_up-completed answers x i.status merchant intent
              (rw (q, m, k, resolve_intent_status) at h)) [
                | inl e ↦ inl e
                | inr (a, held) ↦
                    let (own, n) = present_sound i.merchant_id merchant m in
                    let (key, n') = present_sound i.id intent k in
                    inr (record {
                      answers_it = a;
                      merchant = merchant;
                      intent = intent;
                      own = own;
                      key = key;
                      nonzero = (n, n');
                      held = held;
                    })
              ]
      ]
    ]
  ]
    where
      of_test : (s : PaymentStatus) → is_completed_status s ≡ true → s ≡ completed
      of_test s h = ground (arith, h)

  resolved_complete :
      (i.status ≡ completed) ⊎ IsPaid answers x i → resolve_intent_status answers x i ≡ completed
  unfolding resolve_intent_status get_transaction_status
  resolved_complete (inl q) = rw (q, resolve_intent_status) refl
  resolved_complete (inr p) =
      let (row, found) = p.held in ground (arith, p.answers_it, p.own, p.key, p.nonzero, found)

  -- The status shown is 'completed' exactly when the row says so, or the object of the intent's merchant
  -- answers and has registered the payment.
  pub resolve_intent_status-IsPaid :
      (resolve_intent_status answers x i ≡ completed)
      ↔ ((i.status ≡ completed) ⊎ IsPaid answers x i)
  resolve_intent_status-IsPaid = (resolved_sound, resolved_complete)
