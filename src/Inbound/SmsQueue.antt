-- ===== src/Inbound/SmsQueue.antt =====
-- The consumer of the SMS queue, src/queues/sms-consumer.ts. The carrier's table, the parser, the look-up
-- of a sender and the texts' methods are arguments, as are the columns of `op_transactions` that the
-- shop leaves out. The statements on `op_sms_data` are taken to succeed; metrics are left out.
use edgepay_cf.Prelude.{
  ℕ, ◌+◌, ◌-◌, String, Bool, true, false, not, ◌&&◌, List, [], ◌∷◌, ◌++◌, map, keep, take, Option,
  none, some, ◌==◌, leb, if◌then◌else◌,
}
use edgepay_cf.Prelude.Texts.{join, decimal}
use edgepay_cf.Posting.{Call}
use edgepay_cf.Payments.{PaymentStatus, Transaction, Shop, returns, fails, complete_transaction}
use edgepay_cf.Sms.{
  SmsExtraction, no_parser, SmsParser, OpenOrderCandidate, CorroborationDecision, confirm,
  manual_review, Texts, corroborate_sms_payment,
}

abbrev pub match_window_ms : ℕ
match_window_ms = 1_800_000

pub data MatchStatus : Type 0 where
  pending failed parsed no_match matched needs_manual_review : MatchStatus

-- The columns of `op_sms_data` that the consumer writes.
pub record SmsRow : Type 0 where
  pub id : ℕ
  pub merchant_id : ℕ
  pub sender : String
  pub signature_verified : Bool
  pub match_status : MatchStatus
  pub parsed_amount : Option String
  pub parsed_trx_id : Option String

pub record SmsMessage : Type 0 where
  pub merchant_id : ℕ
  pub sender : String
  pub body : String
  pub signature_verified : Bool
  pub device_id : Option ℕ
  pub store_id : Option ℕ

-- Columns of a transaction's row, of its intent's metadata and of its gateway.
pub record RowInfo : Type 0 where
  pub merchant_id : ℕ
  pub created_at : ℕ
  pub store_id : Option ℕ
  pub gateway_slug : Option String
  pub customer_trx_id : Option String

pub record Carrier : Type 0 where
  pub trusted : Bool
  pub gateway_slug : Option String

-- What the consumer asks: `parse` is `none` where the parser throws.
pub record SmsSite : Type 0 where
  pub signature_required : Bool
  pub texts : Texts
  pub validate_carrier_sender : String → Carrier
  pub sender_to_gateway_slug : String → Option String
  pub parse : String → String → ℕ → Option SmsExtraction
  pub info : ℕ → RowInfo

pub record SmsInbox : Type 0 where
  pub shop : Shop
  pub rows : List SmsRow
  pub row_seq : ℕ

pub data QueueAnswer : Type 0 where
  acked retried : QueueAnswer

-- A device's id must be there, and positive, for a signature to count.
unfoldable pub signature_counts : SmsMessage → Bool
signature_counts m =
    m.signature_verified && elim m.device_id [ none ↦ false | some n ↦ not (n == 0) ]

abbrev pub new_row : ℕ → SmsMessage → SmsRow
new_row i m = record {
  id = i;
  merchant_id = m.merchant_id;
  sender = m.sender;
  signature_verified = signature_counts m;
  match_status = pending;
  parsed_amount = none;
  parsed_trx_id = none;
}

abbrev pub set_status : ℕ → MatchStatus → SmsInbox → SmsInbox
set_status i s x = record x {
  rows = map (λ r. if r.id == i then record r { match_status = s } else r) x.rows;
}

abbrev pub set_parsed : ℕ → SmsExtraction → SmsInbox → SmsInbox
set_parsed i e x = record x {
  rows =
      map
        (λ r.
          if r.id == i
          then record r {
            match_status = parsed;
            parsed_amount = e.amount;
            parsed_trx_id = e.trx_id;
          }
          else r)
        x.rows;
}

abbrev pub is_awaiting : PaymentStatus → Bool
is_awaiting PaymentStatus.pending = true
is_awaiting PaymentStatus.awaiting_verification = true
is_awaiting PaymentStatus.processing = true
is_awaiting PaymentStatus.created = true
is_awaiting _ = false

-- `? IS NULL OR t.store_id IS NULL OR t.store_id = ?`
abbrev pub in_store : Option ℕ → Option ℕ → Bool
in_store none s = true
in_store (some k) none = true
in_store (some k) (some s) = s == k

abbrev pub is_candidate : SmsSite → ℕ → ℕ → Option ℕ → Transaction → Bool
is_candidate site now merchant store t =
    let i = site.info t.id in
    (i.merchant_id == merchant)
    && is_awaiting t.status
    && leb (now - match_window_ms) i.created_at
    && in_store store i.store_id

-- `ORDER BY t.created_at DESC`
unfoldable pub place_newest : SmsSite → Transaction → List Transaction → List Transaction
place_newest site t [] = t ∷ []
place_newest site t (u ∷ us) =
    if leb (site.info u.id).created_at (site.info t.id).created_at
    then t ∷ u ∷ us
    else u ∷ place_newest site t us

unfoldable pub newest_first : SmsSite → List Transaction → List Transaction
unfolding place_newest
newest_first site [] = []
newest_first site (t ∷ ts) = place_newest site t (newest_first site ts)

abbrev or_trx : Option String → Option String → Option String
or_trx none o = o
or_trx (some s) o = some s

abbrev pub open_order : SmsSite → Transaction → OpenOrderCandidate
open_order site t = record {
  transaction_row_id = t.id;
  payment_intent_id = t.payment_intent_id;
  amount = t.amount;
  currency = t.currency;
  gateway_slug = (site.info t.id).gateway_slug;
  customer_trx_id = or_trx (site.info t.id).customer_trx_id t.gateway_trx_id;
}

unfoldable pub load_open_orders :
    SmsSite → ℕ → ℕ → Option ℕ → List Transaction → List OpenOrderCandidate
unfolding newest_first
load_open_orders site now merchant store ts =
    map (open_order site)
      (take 50 (newest_first site (keep (is_candidate site now merchant store) ts)))

abbrev pub or_sms : Option String → ℕ → String
or_sms none i = join ("sms-" ∷ decimal i ∷ [])
or_sms (some s) i = s

-- `carrier.gatewaySlug ?? senderToGatewaySlug(sms.sender)`
abbrev pub verified_gateway : SmsSite → SmsMessage → Option String
verified_gateway site m =
    or_trx (site.validate_carrier_sender m.sender).gateway_slug
      (site.sender_to_gateway_slug m.sender)

unfoldable pub decide :
    SmsSite → Call → SmsMessage → SmsExtraction → SmsInbox → CorroborationDecision
decide site c m e x =
    corroborate_sms_payment c.decimals site.texts e
      (load_open_orders site c.now m.merchant_id m.store_id x.shop.transactions)
      (verified_gateway site m)

-- From the decision on; an error of `completeTransaction` is caught by `processOne`.
unfoldable pub settle_decision :
    Call → ℕ → SmsExtraction → CorroborationDecision → SmsInbox → SmsInbox × QueueAnswer
settle_decision c i e (manual_review r) x = (set_status i needs_manual_review x, acked)
settle_decision c i e (confirm o slug source) x =
    let (shop, outcome) =
      complete_transaction c o.transaction_row_id o.payment_intent_id (or_sms e.trx_id i) x.shop in
    let x' : SmsInbox = record x { shop = shop } in
    elim outcome [ returns _ ↦ (set_status i matched x', acked) | fails f ↦ (x', retried) ]

abbrev pub is_unparsed : SmsParser → Bool
is_unparsed no_parser = true
is_unparsed _ = false

-- From the parsing on.
unfoldable pub parse_and_settle :
    SmsSite → Call → ℕ → SmsMessage → SmsInbox → SmsInbox × QueueAnswer
parse_and_settle site c i m x = elim (site.parse m.body m.sender m.merchant_id) [
  | none ↦ (x, retried)
  | some e ↦
      let x' = set_parsed i e x in
      if is_unparsed e.parser
      then (set_status i no_match x', acked)
      else settle_decision c i e (decide site c m e x') x'
]

-- `processOne`. Every call, a retried one too, makes a row of its own.
unfoldable pub process_sms : SmsSite → Call → SmsMessage → SmsInbox → SmsInbox × QueueAnswer
process_sms site c m x =
    let i = x.row_seq in
    let x' : SmsInbox = record x { rows = x.rows ++ (new_row i m ∷ []); row_seq = i + 1 } in
    if site.signature_required && not (signature_counts m)
    then (set_status i failed x', acked)
    else if not (site.validate_carrier_sender m.sender).trusted
    then (set_status i failed x', acked)
    else parse_and_settle site c i m x'
