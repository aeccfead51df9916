-- ===== src/Payments/Kept.antt =====
-- That each call of src/services/payment.ts keeps completed payments in the books.
use edgepay_cf.Prelude.{
  ℕ, ◌≡◌, ◌≢◌, inl, inr, refl, ◌∙◌, String, List, [], ◌∷◌, map, some, arith, All, Bool-cases,
  Option-cases, ◌==◌,
}
use edgepay_cf.Posting.{Platform, Call, Outcome-cases}
use edgepay_cf.Posting.Entries.{payment_tx_id}
use edgepay_cf.Posting.Held.{Holds}
use edgepay_cf.Posting.Once.{payment-registers, payment-Holds}
use edgepay_cf.Payments.{
  completed, Intent, Transaction, Shop, find_intent, find_transaction, find_by_intent,
  set_processing, set_intent_processing, start_processing, set_completed, set_intent_completed,
  mark_completed, post_payment, complete_transaction,
}
use edgepay_cf.Payments.Callback.{VerifyResult, set_failed, fail_transaction, settle_callback}
use edgepay_cf.Payments.Backed.{
  merchant_of, merchant_of-find, merchant_of-map, KeepsIntents, IsBackedIn, AreKeyed, IsBacked,
  AreKeyed-map, HoldsMore, IsBackedIn-kept, All-Uncompleting, set_failed-Uncompleting,
  set_processing-Uncompleting,
}

-- The key finds the one row that has it.
pub find_by_intent_key :
    (i : ℕ) (ts : List Transaction) (t : Transaction)
    → AreKeyed ts
    → find_by_intent i ts ≡ some t
    → (find_transaction t.id ts ≡ some t) × (t.payment_intent_id ≡ i)
find_by_intent_key i [] t k h = ground (arith, h)
find_by_intent_key i (u ∷ ts) t k h = elim (Bool-cases (u.payment_intent_id == i)) [
  | inl q ↦ ground (arith, q, h)
  | inr q ↦
      let (found, own) = find_by_intent_key i ts t k.1 (rw q at h) in
      let other = found_differs u.id t.id ts t k.0 found in (ground (arith, found, other), own)
]
  where
    found_differs :
        (a b : ℕ) (ts : List Transaction) (t : Transaction)
        → All (λ v. v.id ≢ a) ts
        → find_transaction b ts ≡ some t
        → b ≢ a
    found_differs a b [] t h f = ground (arith, f)
    found_differs a b (v ∷ ts) t h f = elim (Bool-cases (v.id == b)) [
      | inl q ↦ ground (arith, h, q)
      | inr q ↦ found_differs a b ts t h.1 (rw q at f)
    ]

set_intent_processing-KeepsIntents : (k g : ℕ) → KeepsIntents (set_intent_processing k g)
set_intent_processing-KeepsIntents k g i = ground arith

set_intent_completed-KeepsIntents : (k now : ℕ) → KeepsIntents (set_intent_completed k now)
set_intent_completed-KeepsIntents k now i = ground arith

-- Failing or starting payments keeps the invariant.
fail_transaction-IsBacked : (k : ℕ) (x : Shop) → IsBacked x → IsBacked (fail_transaction k x)
unfolding fail_transaction
fail_transaction-IsBacked k x b = record {
  keyed =
      AreKeyed-map (set_failed k) x.transactions
        (λ t. ((set_failed-Uncompleting k t).0, (set_failed-Uncompleting k t).1)) b.keyed;
  backed =
      All-Uncompleting x.platform x.platform x.intents x.intents (set_failed k) x.transactions
        (λ m t h. h) (λ j. refl) (set_failed-Uncompleting k) b.backed;
}

pub start_processing-IsBacked :
    (k g : ℕ) (x : Shop) → IsBacked x → IsBacked (start_processing k g x)
unfolding start_processing
start_processing-IsBacked k g x b = record {
  keyed =
      AreKeyed-map (set_processing k) x.transactions
        (λ t. ((set_processing-Uncompleting k t).0, (set_processing-Uncompleting k t).1)) b.keyed;
  backed =
      All-Uncompleting x.platform x.platform x.intents _ (set_processing k) x.transactions
        (λ m t h. h)
        (λ j.
          merchant_of-map (set_intent_processing k g) j x.intents
            (set_intent_processing-KeepsIntents k g))
        (set_processing-Uncompleting k) b.backed;
}

-- A platform that holds more backs what was backed.
pub platform-IsBacked :
    (x : Shop) (p : Platform)
    → HoldsMore x.platform p
    → IsBacked x
    → IsBacked (record x { platform = p })
platform-IsBacked x p h b = record { keyed = b.keyed; backed = go x.transactions b.backed }
  where
    go :
        (ts : List Transaction)
        → All (IsBackedIn x.platform x.intents) ts
        → All (IsBackedIn p x.intents) ts
    go [] a = tt
    go (t ∷ ts) a = (
      IsBackedIn-kept x.platform p x.intents x.intents t t h (λ k. refl) refl (λ c. c) a.0,
      go ts a.1,
    )

-- The row that is completed is the one that was looked up.
module _ (p : Platform) (is : List Intent) (k now intent m : ℕ) (g : String)
    (held : Holds p m (payment_tx_id m intent)) (own : merchant_of intent is ≡ some m) where
  kept_row :
      (t : Transaction)
      → IsBackedIn p is t
      → IsBackedIn p (map (set_intent_completed intent now) is) t
  kept_row t b =
      IsBackedIn-kept p p is (map (set_intent_completed intent now) is) t t (λ m t h. h)
        (λ j.
          merchant_of-map (set_intent_completed intent now) j is
            (set_intent_completed-KeepsIntents intent now))
        refl (λ c. c) b

  other_rows :
      (ts : List Transaction)
      → All (λ u. u.id ≢ k) ts
      → All (IsBackedIn p is) ts
      → All (IsBackedIn p (map (set_intent_completed intent now) is)) (map (set_completed k g) ts)
  other_rows [] o b = tt
  other_rows (t ∷ ts) o b = elim (Bool-cases (t.id == k)) [
    | inl q ↦ ground (arith, o, q)
    | inr q ↦ (rw q (kept_row t b.0), other_rows ts o.1 b.1)
  ]

  completed_row :
      (t : Transaction)
      → t.payment_intent_id ≡ intent
      → IsBackedIn p
          (map (set_intent_completed intent now) is)
          (record t { status = completed; gateway_trx_id = some g })
  completed_row t e c = (
    m,
    merchant_of-map (set_intent_completed intent now) t.payment_intent_id is
          (set_intent_completed-KeepsIntents intent now)
        ∙ rw e own,
    rw e held,
  )

  pub completed_rows :
      (ts : List Transaction)
      → AreKeyed ts
      → ((t : Transaction) → find_transaction k ts ≡ some t → t.payment_intent_id ≡ intent)
      → All (IsBackedIn p is) ts
      → All (IsBackedIn p (map (set_intent_completed intent now) is)) (map (set_completed k g) ts)
  completed_rows [] key f b = tt
  completed_rows (t ∷ ts) key f b = elim (Bool-cases (t.id == k)) [
    | inl q ↦
        let same : t.id ≡ k = ground (arith, q) in
        (rw q (completed_row t (f t (rw q refl))), other_rows ts (rw same at key.0) b.1)
    | inr q ↦ (rw q (kept_row t b.0), completed_rows ts key.1 (λ u h. f u (rw q h)) b.1)
  ]

set_completed-AreKeyed :
    (k : ℕ) (g : String) (ts : List Transaction)
    → AreKeyed ts
    → AreKeyed (map (set_completed k g) ts)
set_completed-AreKeyed k g ts h = AreKeyed-map (set_completed k g) ts (λ t. ground arith) h

-- A call for the row's own intent keeps every completed payment in its book.
pub complete_transaction-IsBacked :
    (c : Call) (k intent : ℕ) (g : String) (x : Shop)
    → ((t : Transaction)
        → find_transaction k x.transactions ≡ some t
        → t.payment_intent_id ≡ intent)
    → IsBacked x
    → IsBacked (complete_transaction c k intent g x).0
unfolding complete_transaction mark_completed
complete_transaction-IsBacked c k intent g x own b =
    elim (Option-cases (find_transaction k x.transactions)) [
      | inl q ↦ rw (q, complete_transaction) b
      | inr (t, q) ↦ elim (Option-cases (find_intent t.payment_intent_id x.intents)) [
        | inl q' ↦ rw (q, q', complete_transaction) b
        | inr (i, q') ↦
            let run = post_payment c i.merchant_id intent t x.platform in
            let kept : IsBacked (record x { platform = run.0 }) =
              platform-IsBacked x run.0
                (λ m tx h.
                  payment-Holds c i.merchant_id intent t.amount t.fee t.currency x.platform m tx h)
                b in
            elim (Outcome-cases run.1) [
              | inr (f, u) ↦ rw (q, q', u, complete_transaction) kept
              | inl (r, u) ↦
                  let held =
                    payment-registers c i.merchant_id intent t.amount t.fee t.currency x.platform r
                      u in
                  let mine : merchant_of intent x.intents ≡ some i.merchant_id =
                    rw⁻¹ (own t q) (merchant_of-find t.payment_intent_id x.intents i q') in
                  rw (q, q', u, complete_transaction)
                    (record {
                      keyed = set_completed-AreKeyed k g x.transactions b.keyed;
                      backed =
                          completed_rows run.0 x.intents k c.now intent i.merchant_id g held mine
                            x.transactions b.keyed own kept.backed;
                    })
            ]
      ]
    ]

pub settle_callback-IsBacked :
    (c : Call) (v : VerifyResult) (slug : String) (i : Intent) (t : Transaction) (x : Shop)
    → ((u : Transaction)
        → find_transaction t.id x.transactions ≡ some u
        → u.payment_intent_id ≡ i.id)
    → IsBacked x
    → IsBacked (settle_callback c v slug i t x).0
unfolding settle_callback
settle_callback-IsBacked c v slug i t x own b =
    let failed = fail_transaction-IsBacked t.id x b in
    let ran = complete_transaction-IsBacked c t.id i.id v.gateway_trx_id x own b in
    ground (arith, failed, ran)
