-- ===== src/Payments/Sound.antt =====
-- That a completed payment of src/services/payment.ts is in its merchant's book, whatever calls are made.
use edgepay_cf.Prelude.{
  ℕ, ◌≡◌, inl, inr, String, List, [], ◌∷◌, Option, some, none, arith, Bool-cases, Option-cases,
  ◌==◌,
}
use edgepay_cf.Posting.{Call}
use edgepay_cf.Posting.Once.{PostRequest, run_posts, run_posts-Holds}
use edgepay_cf.Payments.{
  Intent, Transaction, Shop, GatewayReply, find_intent, find_transaction, find_by_intent,
  initiate_payment, complete_transaction,
}
use edgepay_cf.Payments.Callback.{VerifyResult, handle_callback, find_gateway}
use edgepay_cf.Payments.Backed.{IsBacked}
use edgepay_cf.Payments.Kept.{
  find_by_intent_key, start_processing-IsBacked, platform-IsBacked, complete_transaction-IsBacked,
  settle_callback-IsBacked,
}

find_intent-id : (k : ℕ) (is : List Intent) (i : Intent) → find_intent k is ≡ some i → i.id ≡ k
find_intent-id k [] i h = ground (arith, h)
find_intent-id k (j ∷ is) i h = elim (Bool-cases (j.id == k)) [
  | inl q ↦ ground (arith, q, h)
  | inr q ↦ find_intent-id k is i (rw q at h)
]

handle_callback-IsBacked :
    (c : Call) (reply : Option VerifyResult) (k : ℕ) (x : Shop)
    → IsBacked x
    → IsBacked (handle_callback c reply k x).0
unfolding handle_callback
handle_callback-IsBacked c none k x b = ground (arith, b)
handle_callback-IsBacked c (some v) k x b = elim (Option-cases (find_intent k x.intents)) [
  | inl q ↦ rw (q, handle_callback) b
  | inr (i, q) ↦ elim (Option-cases (find_by_intent k x.transactions)) [
    | inl q' ↦ rw (q, q', handle_callback) b
    | inr (t, q') ↦ elim (Option-cases (find_gateway i.gateway_id x.gateways)) [
      | inl q'' ↦ rw (q, q', q'', handle_callback) b
      | inr (g, q'') ↦
          let (found, own) = find_by_intent_key k x.transactions t b.keyed q' in
          rw (q, q', q'', handle_callback)
            (settle_callback-IsBacked c v g.slug i t x
              (λ u h. ground (arith, h, found, own, find_intent-id k x.intents i q)) b)
    ]
  ]
]

initiate_payment-IsBacked :
    (reply : GatewayReply) (k g : ℕ) (x : Shop)
    → IsBacked x
    → IsBacked (initiate_payment reply k g x).0
unfolding initiate_payment
initiate_payment-IsBacked reply k g x b =
    let started = start_processing-IsBacked k g x b in ground (arith, b, started)

-- The calls on a shop, in any order. `completeTransaction` is called with a row's own intent.
pub data Step (x : Shop) : Shop → Type 0 where
  initiates : (reply : GatewayReply) (k g : ℕ) → Step x (initiate_payment reply k g x).0
  calls_back :
      (c : Call) (reply : Option VerifyResult) (k : ℕ) → Step x (handle_callback c reply k x).0
  completes :
      (c : Call) (k intent : ℕ) (g : String)
      → ((t : Transaction)
          → find_transaction k x.transactions ≡ some t
          → t.payment_intent_id ≡ intent)
      → Step x (complete_transaction c k intent g x).0
  posts : (rs : List PostRequest) → Step x (record x { platform = run_posts rs x.platform })

pub data Run (x : Shop) : Shop → Type 0 where
  stays : Run x x
  goes_on : (y z : Shop) → Run x y → Step y z → Run x z

Step-IsBacked : (x y : Shop) → Step x y → IsBacked x → IsBacked y
Step-IsBacked x y (initiates reply k g) b = initiate_payment-IsBacked reply k g x b
Step-IsBacked x y (calls_back c reply k) b = handle_callback-IsBacked c reply k x b
Step-IsBacked x y (completes c k intent g own) b =
    complete_transaction-IsBacked c k intent g x own b
Step-IsBacked x y (posts rs) b =
    platform-IsBacked x (run_posts rs x.platform) (λ m t h. run_posts-Holds rs x.platform m t h) b

-- If transaction ids differ and every completed transaction's payment is registered in the book of its
-- intent's merchant, both hold after any sequence of initiations, callbacks, completions for a row's
-- own intent, and postings by others, failed calls included.
pub Run-IsBacked : (x y : Shop) → IsBacked x → Run x y → IsBacked y
Run-IsBacked x y b stays = b
Run-IsBacked x z b (goes_on y z' r s) = Step-IsBacked y z s (Run-IsBacked x y b r)
