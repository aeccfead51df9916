-- ===== src/Sms.antt =====
-- `corroborateSmsPayment` of src/services/sms-corroboration.ts: whether an SMS may confirm an open order. The
-- texts' methods and regular expressions are arguments: `normal` is `trim().toUpperCase()`, `family` what
-- isSameGatewayFamily compares. An empty text counts as missing.
pub mod Corroborated
mod Tests
use Prim.Native.Nat.{Ordering}
use edgepay_cf.Prelude.{
  String, Bool, true, false, not, ◌&&◌, ◌||◌, ℕ, List, [], ◌∷◌, keep, Option, none, some, str_eq,
  if◌then◌else◌,
}
use edgepay_cf.Money.{Decimals}
use edgepay_cf.Payments.Callback.{is_equal}

pub data SmsParser : Type 0 where
  regex workers_ai heuristic no_parser : SmsParser

pub record SmsExtraction : Type 0 where
  pub amount : Option String
  pub trx_id : Option String
  pub currency : Option String
  pub gateway_slug : Option String
  pub parser : SmsParser

pub record OpenOrderCandidate : Type 0 where
  pub transaction_row_id : ℕ
  pub payment_intent_id : ℕ
  pub amount : String
  pub currency : String
  pub gateway_slug : Option String
  pub customer_trx_id : Option String

pub data ReviewReason : Type 0 where
  no_extraction no_trx_id no_open_orders no_amount_match currency_mismatch ambiguous_match
        gateway_conflict awaiting_customer_trx :
      ReviewReason

pub data GatewaySource : Type 0 where
  sender_id extraction : GatewaySource

pub data CorroborationDecision : Type 0 where
  confirm : OpenOrderCandidate → String → GatewaySource → CorroborationDecision
  manual_review : ReviewReason → CorroborationDecision

pub record Texts : Type 0 where
  pub normal : String → String
  pub family : String → String

-- A text that is not empty.
abbrev pub given : Option String → Option String
given none = none
given (some s) = if str_eq s "" then none else some s

abbrev pub is_parsed : SmsParser → Bool
is_parsed no_parser = false
is_parsed _ = true

module _ (d : Decimals) (t : Texts) where
  abbrev pub has_amount : String → OpenOrderCandidate → Bool
  has_amount a o = is_equal (d.cmp o.amount a)

  abbrev pub has_currency : Option String → OpenOrderCandidate → Bool
  has_currency none o = true
  has_currency (some c) o = str_eq o.currency c

  abbrev pub has_trx : String → OpenOrderCandidate → Bool
  has_trx trx o = elim (given o.customer_trx_id) [
    | none ↦ false
    | some s ↦ str_eq (t.normal s) (t.normal trx)
  ]

  abbrev pub conflicts : Option String → Option String → Bool
  conflicts (some sender) (some slug) =
      not (str_eq slug sender) && not (str_eq (t.family slug) (t.family sender))
  conflicts _ _ = false

  abbrev pub first_of : Option String → Option String → Option String
  first_of none o = o
  first_of (some s) o = some s

  abbrev pub or_unknown : Option String → String
  or_unknown none = "unknown"
  or_unknown (some s) = s

  abbrev pub source_of : Option String → GatewaySource
  source_of none = extraction
  source_of (some s) = sender_id

  -- Step 4, on the one order that is left; `verified` is the slug of the sender as it was looked up.
  unfoldable pub resolve_gateway :
      Option String → Option String → OpenOrderCandidate → CorroborationDecision
  resolve_gateway verified guess o =
      if conflicts (given verified) (given o.gateway_slug)
      then manual_review gateway_conflict
      else confirm o (or_unknown (first_of (first_of verified guess) o.gateway_slug))
          (source_of (given verified))

  unfoldable pub settle_matched :
      Option String → Option String → List OpenOrderCandidate → CorroborationDecision
  settle_matched verified guess [] = manual_review awaiting_customer_trx
  settle_matched verified guess (o ∷ []) = resolve_gateway verified guess o
  settle_matched verified guess (o ∷ p ∷ os) = manual_review ambiguous_match

  unfoldable pub match_trx :
      Option String → Option String → String → List OpenOrderCandidate → CorroborationDecision
  match_trx verified guess trx [] = manual_review currency_mismatch
  match_trx verified guess trx (o ∷ os) =
      settle_matched verified guess (keep (has_trx trx) (o ∷ os))

  unfoldable pub match_currency :
      Option String
      → Option String
      → String
      → Option String
      → List OpenOrderCandidate
      → CorroborationDecision
  match_currency verified guess trx currency [] = manual_review no_amount_match
  match_currency verified guess trx currency (o ∷ os) =
      match_trx verified guess trx (keep (has_currency currency) (o ∷ os))

  unfoldable pub match_orders :
      Option String
      → Option String
      → String
      → Option String
      → String
      → List OpenOrderCandidate
      → CorroborationDecision
  match_orders verified guess trx currency amount [] = manual_review no_open_orders
  match_orders verified guess trx currency amount (o ∷ os) =
      match_currency verified guess trx currency (keep (has_amount amount) (o ∷ os))

  abbrev amount_of : SmsExtraction → Option String
  amount_of e = if is_parsed e.parser then given e.amount else none

  unfoldable pub corroborate_sms_payment :
      SmsExtraction → List OpenOrderCandidate → Option String → CorroborationDecision
  corroborate_sms_payment e orders verified = elim (amount_of e) [
    | none ↦ manual_review no_extraction
    | some amount ↦ elim (given e.trx_id) [
      | none ↦ manual_review no_trx_id
      | some trx ↦ match_orders verified e.gateway_slug trx (given e.currency) amount orders
    ]
  ]
