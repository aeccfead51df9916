-- ===== src/Inbound/Backed.antt =====
-- Webhooks (src/controllers/webhooks.ts), SMS (src/queues/sms-consumer.ts), and the customer's own calls
-- (src/services/payment.ts), in any order.
use edgepay_cf.Prelude.{
  ◌≡◌, inl, inr, ℕ, String, ◌&&◌, List, [], ◌∷◌, Option, some, All, All-map, All-imp, All-both,
  All-take, All-keep, arith, Bool-cases, Option-cases, ◌==◌, str_eq,
}
use edgepay_cf.Posting.{Call}
use edgepay_cf.Payments.{Transaction, Shop, GatewayReply, find_transaction, initiate_payment}
use edgepay_cf.Payments.Callback.{VerifyResult, handle_callback}
use edgepay_cf.Payments.Backed.{IsBacked, AreKeyed}
use edgepay_cf.Payments.Kept.{complete_transaction-IsBacked}
use edgepay_cf.Payments.Sound.{stays, goes_on, initiates, calls_back, Run-IsBacked}
use edgepay_cf.Sms.{OpenOrderCandidate, given}
use edgepay_cf.Sms.Corroborated.{matches}
use edgepay_cf.Inbound.{
  Inbox, Site, InboundDelivery, find_by_trx, named_transaction, is_payment_done, text_or,
  extract_transaction_id, event_id_of, receive,
}
use edgepay_cf.Inbound.Taken.{untouched, completes, receive-Received}
use edgepay_cf.Inbound.SmsQueue.{
  SmsSite, SmsMessage, SmsRow, SmsInbox, open_order, load_open_orders, is_candidate, or_sms,
  process_sms,
}
use edgepay_cf.Inbound.Matched.{All-newest_first, Processed, process_sms-Processed}

-- The row of an id has this intent.
abbrev Owns : List Transaction → ℕ → ℕ → Type 0
Owns ts k intent = (t : Transaction) → find_transaction k ts ≡ some t → t.payment_intent_id ≡ intent

own_rows : (ts : List Transaction) → AreKeyed ts → All (λ t. Owns ts t.id t.payment_intent_id) ts
own_rows [] h = tt
own_rows (t ∷ ts) h = (
  λ u q. ground (arith, q),
  All-imp _ _ ts (λ r (other, own) u q. own u (ground (arith, other, q)))
      (All-both _ _ ts h.0 (own_rows ts h.1)),
)

find_by_trx-Owns :
    (site : Site) (trx : String) (merchant : ℕ) (ts us : List Transaction) (t : Transaction)
    → All (λ u. Owns us u.id u.payment_intent_id) ts
    → find_by_trx site trx merchant ts ≡ some t
    → Owns us t.id t.payment_intent_id
find_by_trx-Owns site trx merchant [] us t h q = cc q
find_by_trx-Owns site trx merchant (u ∷ ts) us t h q =
    elim (Bool-cases (str_eq u.trx_id trx && (site.merchant_of_row u.id == merchant))) [
      | inl b ↦ let same : u ≡ t = ground (arith, b, q) in rw same at h.0
      | inr b ↦ find_by_trx-Owns site trx merchant ts us t h.1 (rw b at q)
    ]

named-Owns :
    (site : Site) (merchant : ℕ) (d : InboundDelivery) (ts : List Transaction) (t : Transaction)
    → AreKeyed ts
    → named_transaction site merchant d ts ≡ some t
    → Owns ts t.id t.payment_intent_id
unfolding named_transaction
named-Owns site merchant d ts t k q =
    let own = own_rows ts k in
    elim (Bool-cases (is_payment_done site (text_or d.body.event_type "unknown"))) [
      | inr b ↦ ground (arith, rw (b, named_transaction) at q)
      | inl b ↦ elim (Option-cases (extract_transaction_id d.gateway d.body)) [
        | inl e ↦ ground (arith, rw (b, e, named_transaction) at q)
        | inr (trx, e) ↦ elim (Option-cases (find_by_trx site trx merchant ts)) [
          | inl f ↦ ground (arith, rw (b, e, f, named_transaction) at q)
          | inr (u, f) ↦
              let same : u ≡ t = ground (arith, rw (b, e, f, named_transaction) at q) in
              rw same at (find_by_trx-Owns site trx merchant ts ts u own f)
        ]
      ]
    ]

receive-IsBacked :
    (site : Site) (c : Call) (d : InboundDelivery) (x : Inbox)
    → IsBacked x.shop
    → IsBacked (receive site c d x).0.shop
receive-IsBacked site c d x b = elim (receive-Received site c d x) [
  | untouched same ↦ rw same b
  | completes merchant t a done ↦ rw done (
      complete_transaction-IsBacked c t.id t.payment_intent_id (event_id_of d) x.shop
        (named-Owns site merchant d x.shop.transactions t b.keyed a.found) b)
]

abbrev OrderOwns : List Transaction → OpenOrderCandidate → Type 0
OrderOwns ts o = Owns ts o.transaction_row_id o.payment_intent_id

open_orders-Owns :
    (site : SmsSite) (now merchant : ℕ) (shop : Option ℕ) (ts : List Transaction)
    → AreKeyed ts
    → All (OrderOwns ts) (load_open_orders site now merchant shop ts)
unfolding load_open_orders
open_orders-Owns site now merchant shop ts k =
    let P = λ (t : Transaction). Owns ts t.id t.payment_intent_id in
    All-map P _ (open_order site) _ (λ t h. h)
      (All-take P 50 _ (
        All-newest_first site P _
          (All-keep P (is_candidate site now merchant shop) ts (own_rows ts k))))

process_sms-IsBacked :
    (site : SmsSite) (c : Call) (m : SmsMessage) (x : SmsInbox)
    → IsBacked x.shop
    → IsBacked (process_sms site c m x).0.shop
process_sms-IsBacked site c m x b = elim (process_sms-Processed site c m x) [
  | Processed.untouched same ↦ rw same b
  | Processed.completes e o a done ↦
      let orders = load_open_orders site c.now m.merchant_id m.store_id x.shop.transactions in
      let own = rw a.corroborated.only at (
        All-keep _
          (matches c.decimals site.texts a.corroborated.amount (given e.currency)
            a.corroborated.trx)
          orders
          (open_orders-Owns site c.now m.merchant_id m.store_id x.shop.transactions b.keyed)) in
      rw done (
        complete_transaction-IsBacked c o.transaction_row_id o.payment_intent_id
          (or_sms e.trx_id x.row_seq) x.shop own.0 b)
]

-- The shop with the tables of both entrances.
pub record Doors : Type 0 where
  pub inbox : Inbox
  pub rows : List SmsRow
  pub row_seq : ℕ

pub data Arrival : Type 0 where
  webhook : Site → Call → InboundDelivery → Arrival
  text : SmsSite → Call → SmsMessage → Arrival
  initiation : GatewayReply → (intent_id gateway_id : ℕ) → Arrival
  callback : Call → Option VerifyResult → (intent_id : ℕ) → Arrival

abbrev with_shop : Doors → Shop → Doors
with_shop y s = let i = y.inbox in record y { inbox = record i { shop = s } }

unfoldable pub arrive : Arrival → Doors → Doors
arrive (webhook site c d) y = record y { inbox = (receive site c d y.inbox).0 }
arrive (text site c m) y =
    let x' =
      (process_sms site c m
        (record { shop = y.inbox.shop; rows = y.rows; row_seq = y.row_seq })).0 in
    let i = y.inbox in
    record { inbox = record i { shop = x'.shop }; rows = x'.rows; row_seq = x'.row_seq }
arrive (initiation reply k g) y = with_shop y (initiate_payment reply k g y.inbox.shop).0
arrive (callback c reply k) y = with_shop y (handle_callback c reply k y.inbox.shop).0

unfoldable pub arrive_all : List Arrival → Doors → Doors
arrive_all [] y = y
arrive_all (a ∷ as') y = arrive_all as' (arrive a y)

arrive-IsBacked :
    (a : Arrival) (y : Doors) → IsBacked y.inbox.shop → IsBacked (arrive a y).inbox.shop
unfolding arrive
arrive-IsBacked (webhook site c d) y b = receive-IsBacked site c d y.inbox b
arrive-IsBacked (text site c m) y b = process_sms-IsBacked site c m _ b
arrive-IsBacked (initiation reply k g) y b =
    Run-IsBacked _ _ b (goes_on _ _ stays (initiates reply k g))
arrive-IsBacked (callback c reply k) y b =
    Run-IsBacked _ _ b (goes_on _ _ stays (calls_back c reply k))

-- If transaction ids differ and every completed transaction's payment is in the book of its merchant,
-- both hold after any webhooks, SMS, initiations and callbacks, in any order, failed ones included.
pub arrive_all-IsBacked :
    (as' : List Arrival) (y : Doors)
    → IsBacked y.inbox.shop
    → IsBacked (arrive_all as' y).inbox.shop
unfolding arrive_all
arrive_all-IsBacked [] y b = b
arrive_all-IsBacked (a ∷ as') y b = arrive_all-IsBacked as' (arrive a y) (arrive-IsBacked a y b)
