-- ===== src/Inbound/Matched.antt =====
-- What an SMS must bring to complete a payment: src/queues/sms-consumer.ts over
-- src/services/sms-corroboration.ts.
use edgepay_cf.Prelude.{
  ◌≡◌, ◌⊎◌, inl, inr, refl, ℕ, ◌+◌, String, true, false, not, ◌&&◌, ◌∷◌, [], ◌++◌, some, arith,
  Bool-cases, Option-cases, IsIn, All, All-IsIn, All-imp, All-map, All-take, All-keep,
  All-keep_passing, ◌≤◌, ◌≢◌, List, Option, none, leb,
}
use edgepay_cf.Posting.{Call}
use edgepay_cf.Payments.{complete_transaction, Transaction, PaymentStatus}
use edgepay_cf.Sms.{
  given, SmsExtraction, OpenOrderCandidate, CorroborationDecision, confirm, manual_review,
  GatewaySource,
}
use edgepay_cf.Sms.Corroborated.{IsCorroborated, matches, corroborate-IsCorroborated}
use edgepay_cf.Inbound.SmsQueue.{
  SmsSite, SmsMessage, SmsInbox, signature_counts, is_awaiting, in_store, is_candidate, open_order,
  place_newest, newest_first, load_open_orders, verified_gateway, or_sms, new_row, set_parsed,
  is_unparsed, decide, settle_decision, parse_and_settle, process_sms,
}

-- A device's signature was checked, and the device has an id.
pub record IsSigned (m : SmsMessage) : Type 0 where
  pub checked : m.signature_verified ≡ true
  pub device : ℕ
  pub known : m.device_id ≡ some device
  pub positive : device ≢ 0

-- The order is that of a row of the SMS's merchant that waits for a payment, was made within the last half
-- hour and is of the SMS's store, where both name one.
pub record IsOpen (site : SmsSite) (now : ℕ) (m : SmsMessage) (ts : List Transaction)
    (o : OpenOrderCandidate) : Type 0 where
  pub row : Transaction
  pub stands : IsIn row ts
  pub is_of : o ≡ open_order site row
  pub owned : (site.info row.id).merchant_id ≡ m.merchant_id
  pub waits :
      (row.status ≡ PaymentStatus.pending)
      ⊎ (row.status ≡ PaymentStatus.awaiting_verification)
      ⊎ (row.status ≡ PaymentStatus.processing)
      ⊎ (row.status ≡ PaymentStatus.created)
  pub recent : now ≤ (site.info row.id).created_at + 1_800_000
  pub in_place :
      (m.store_id ≡ none)
      ⊎ ((site.info row.id).store_id ≡ none)
      ⊎ ((site.info row.id).store_id ≡ m.store_id)

signature_counts-IsSigned : (m : SmsMessage) → signature_counts m ≡ true → IsSigned m
unfolding signature_counts
signature_counts-IsSigned m h = elim (Option-cases m.device_id) [
  | inl q ↦ ground (arith, rw (q, signature_counts) at h)
  | inr (n, q) ↦
      let k = rw (q, signature_counts) at h in
      record { checked = ground (arith, k); device = n; known = q; positive = ground (arith, k) }
]

signed_if :
    (site : SmsSite) (m : SmsMessage)
    → (site.signature_required && not (signature_counts m)) ≡ false
    → (site.signature_required ≡ false) ⊎ IsSigned m
signed_if site m h = elim (Bool-cases site.signature_required) [
  | inr q ↦ inl q
  | inl q ↦ inr (signature_counts-IsSigned m (ground (arith, q, h)))
]

awaiting_cases :
    (s : PaymentStatus)
    → is_awaiting s ≡ true
    → (s ≡ PaymentStatus.pending)
      ⊎ (s ≡ PaymentStatus.awaiting_verification)
      ⊎ (s ≡ PaymentStatus.processing)
      ⊎ (s ≡ PaymentStatus.created)
awaiting_cases s h = ground (arith, h)

in_store_cases : (o s : Option ℕ) → in_store o s ≡ true → (o ≡ none) ⊎ (s ≡ none) ⊎ (s ≡ o)
in_store_cases none s h = inl refl
in_store_cases (some k) none h = inr (inl refl)
in_store_cases (some k) (some j) h = inr (inr (ground (arith, h)))

candidate-IsOpen :
    (site : SmsSite) (now : ℕ) (m : SmsMessage) (ts : List Transaction) (t : Transaction)
    → IsIn t ts
    → is_candidate site now m.merchant_id m.store_id t ≡ true
    → IsOpen site now m ts (open_order site t)
candidate-IsOpen site now m ts t k h = record {
  row = t;
  stands = k;
  is_of = refl;
  owned = ground (arith, h);
  waits = awaiting_cases t.status (ground (arith, h));
  recent = ground (arith, h);
  in_place = in_store_cases m.store_id (site.info t.id).store_id (ground (arith, h));
}

All-place_newest :
    (site : SmsSite) (P : Transaction → Type 0) (t : Transaction) (ts : List Transaction)
    → P t
    → All P ts
    → All P (place_newest site t ts)
unfolding place_newest
All-place_newest site P t [] p h = (p, tt)
All-place_newest site P t (u ∷ us) p h =
    elim (Bool-cases (leb (site.info u.id).created_at (site.info t.id).created_at)) [
      | inl q ↦ rw (q, place_newest) (p, h)
      | inr q ↦ rw (q, place_newest) (h.0, All-place_newest site P t us p h.1)
    ]

pub All-newest_first :
    (site : SmsSite) (P : Transaction → Type 0) (ts : List Transaction)
    → All P ts
    → All P (newest_first site ts)
unfolding newest_first
All-newest_first site P [] h = tt
All-newest_first site P (t ∷ ts) h =
    All-place_newest site P t (newest_first site ts) h.0 (All-newest_first site P ts h.1)

load_open_orders-IsOpen :
    (site : SmsSite) (now : ℕ) (m : SmsMessage) (ts : List Transaction)
    → All (IsOpen site now m ts) (load_open_orders site now m.merchant_id m.store_id ts)
unfolding load_open_orders
load_open_orders-IsOpen site now m ts =
    let P = λ (t : Transaction). IsOpen site now m ts (open_order site t) in
    All-map P _ (open_order site) _ (λ t h. h)
      (All-take P 50 _ (
        All-newest_first site P _ (
          All-keep_passing P (is_candidate site now m.merchant_id m.store_id) ts (
            All-imp (λ t. IsIn t ts)
              (λ t. is_candidate site now m.merchant_id m.store_id t ≡ true → P t) ts
              (λ t k h. candidate-IsOpen site now m ts t k h) (All-IsIn ts)))))

-- The SMS may complete the order: its signature counts where one is required, its carrier is trusted,
-- and what the parser reads singles out this one of the merchant's open orders.
pub record IsMatched (site : SmsSite) (c : Call) (m : SmsMessage) (x : SmsInbox) (e : SmsExtraction)
    (o : OpenOrderCandidate) : Type 0 where
  pub signed : (site.signature_required ≡ false) ⊎ IsSigned m
  pub trusted : (site.validate_carrier_sender m.sender).trusted ≡ true
  pub parsed : site.parse m.body m.sender m.merchant_id ≡ some e
  pub still_open : IsOpen site c.now m x.shop.transactions o
  pub corroborated :
      IsCorroborated c.decimals site.texts e
        (load_open_orders site c.now m.merchant_id m.store_id x.shop.transactions)
        (verified_gateway site m)
        o

corroborated-IsOpen :
    (site : SmsSite) (c : Call) (m : SmsMessage) (x : SmsInbox) (e : SmsExtraction)
    (o : OpenOrderCandidate)
    → IsCorroborated c.decimals site.texts e
        (load_open_orders site c.now m.merchant_id m.store_id x.shop.transactions)
        (verified_gateway site m)
        o
    → IsOpen site c.now m x.shop.transactions o
corroborated-IsOpen site c m x e o k =
    let orders = load_open_orders site c.now m.merchant_id m.store_id x.shop.transactions in
    (rw k.only at (
      All-keep _ (matches c.decimals site.texts k.amount (given e.currency) k.trx) orders
        (load_open_orders-IsOpen site c.now m x.shop.transactions))).0

-- What an SMS does to the shop: nothing, or the completion of the order.
pub data Processed (site : SmsSite) (c : Call) (m : SmsMessage) (x : SmsInbox) (x' : SmsInbox)
    : Type 0 where
  untouched : x'.shop ≡ x.shop → Processed site c m x x'
  completes :
      (e : SmsExtraction) (o : OpenOrderCandidate)
      → IsMatched site c m x e o
      → x'.shop
        ≡ (complete_transaction c o.transaction_row_id o.payment_intent_id
            (or_sms e.trx_id x.row_seq)
            x.shop).0
      → Processed site c m x x'

settle_decision-shop :
    (c : Call) (i : ℕ) (e : SmsExtraction) (d : CorroborationDecision) (x : SmsInbox)
    → let x' = (settle_decision c i e d x).0 in
      (x'.shop ≡ x.shop)
      ⊎ ((o : OpenOrderCandidate) × (g : String) × (s : GatewaySource) × (d ≡ confirm o g s)
          × (x'.shop
              ≡ (complete_transaction c o.transaction_row_id o.payment_intent_id
                  (or_sms e.trx_id i)
                  x.shop).0))
unfolding settle_decision
settle_decision-shop c i e (manual_review r) x = inl refl
settle_decision-shop c i e (confirm o g s) x = inr (o, g, s, refl, ground arith)

-- An SMS leaves the payments and the books as they are, or it is matched in every respect, and all it
-- does to them is to complete the order that it singles out: its signature was checked, where one is
-- required, its sender is trusted, and it corroborates this order alone, a row of its merchant that
-- waits for a payment and was made within the last half hour.
pub process_sms-Processed :
    (site : SmsSite) (c : Call) (m : SmsMessage) (x : SmsInbox)
    → Processed site c m x (process_sms site c m x).0
unfolding process_sms parse_and_settle decide
process_sms-Processed site c m x =
    elim (Bool-cases (site.signature_required && not (signature_counts m))) [
      | inl q ↦ rw (q, process_sms) (untouched refl)
      | inr q ↦ elim (Bool-cases (site.validate_carrier_sender m.sender).trusted) [
        | inr t ↦ rw (q, t, process_sms) (untouched refl)
        | inl t ↦ elim (Option-cases (site.parse m.body m.sender m.merchant_id)) [
          | inl p ↦ rw (q, t, process_sms) (rw (p, parse_and_settle) (untouched refl))
          | inr (e, p) ↦ elim (Bool-cases (is_unparsed e.parser)) [
            | inl u ↦ rw (q, t, process_sms) (rw (p, u, parse_and_settle) (untouched refl))
            | inr u ↦
                let i = x.row_seq in
                let x0 : SmsInbox = record x {
                  rows = x.rows ++ (new_row i m ∷ []);
                  row_seq = i + 1;
                } in
                let x1 = set_parsed i e x0 in
                rw (q, t, process_sms)
                  (rw (p, u, parse_and_settle)
                    (elim (settle_decision-shop c i e (decide site c m e x1) x1) [
                      | inl same ↦ untouched same
                      | inr (o, g, s, d, done) ↦
                          let k =
                            (corroborate-IsCorroborated c.decimals site.texts e _ _ o).0
                              (g, s, d) in
                          completes e o
                            (record {
                              signed = signed_if site m q;
                              trusted = t;
                              parsed = p;
                              still_open = corroborated-IsOpen site c m x e o k;
                              corroborated = k;
                            })
                            done
                    ]))
          ]
        ]
      ]
    ]
