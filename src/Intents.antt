-- ===== src/Intents.antt =====
-- The creation of a payment intent, `createIntent` of src/services/payment.ts; Page is the checkout
-- page of src/controllers/checkout.ts. The gateway tests, decimal.js, and
-- the random ids and tokens are arguments; the statements on D1's tables are taken to succeed, and the
-- inserted row's id is read. A field that is an empty text or zero is falsy.
pub mod Requests
pub mod Isolated
pub mod Offered
mod Tests
pub mod Page
use edgepay_cf.Prelude.{
  ℕ, ◌+◌, ◌*◌, String, Bool, not, ◌&&◌, ◌||◌, List, [], ◌∷◌, ◌++◌, Option, none, some, str_eq, ◌==◌,
  if◌then◌else◌,
}
use edgepay_cf.Money.{Decimals}
use edgepay_cf.Hierarchy.{GatewayRow, Gate, Tables, first_row, get_store}
use edgepay_cf.Hierarchy.Gates.{get_gate, resolve_default_gate}
use edgepay_cf.Hierarchy.Api.{filled, positive}

-- The row of `op_payment_intents` that is inserted; its status is 'pending'.
pub record NewIntent : Type 0 where
  pub id : ℕ
  pub uuid : String
  pub merchant_id : ℕ
  pub token : String
  pub amount : String
  pub currency : String
  pub description : Option String
  pub gateway_id : ℕ
  pub brand_id : Option ℕ
  pub store_id : Option ℕ
  pub gate_id : Option ℕ
  pub metadata : Option String
  pub expires_at : ℕ

-- The row of `op_transactions`; fee '0.00', status and gateway type 'pending'.
pub record NewTransaction : Type 0 where
  pub merchant_id : ℕ
  pub trx_id : String
  pub payment_intent_id : ℕ
  pub gateway_id : ℕ
  pub brand_id : Option ℕ
  pub store_id : Option ℕ
  pub gate_id : Option ℕ
  pub amount : String
  pub currency : String
  pub net_amount : String

pub record IntentDb : Type 0 where
  pub tables : Tables
  pub intents : List NewIntent
  pub intent_seq : ℕ
  pub transactions : List NewTransaction

pub record CreateIntentInput : Type 0 where
  pub merchant_id : ℕ
  pub amount : String
  pub currency : String
  pub description : Option String
  pub gateway_id : Option ℕ
  pub gateway : Option String
  pub gateway_slug : Option String
  pub gate_id : Option ℕ
  pub metadata : Option String
  pub expires_in_seconds : Option ℕ

pub data IntentError : Type 0 where
  amount_is_zero gate_not_found currency_differs gateway_disabled gateway_not_ported : IntentError

pub data IntentOutcome {ℓ} (A : Type ℓ) : Type ℓ where
  returns : A → IntentOutcome A
  throws : IntentError → IntentOutcome A

-- What a call reads from outside: `metadata` is encoded by the caller.
pub record IntentCall : Type 0 where
  pub decimals : Decimals
  pub upper : String → String
  pub enabled : String → Bool
  pub ported : String → Bool
  pub token : String
  pub uuid : String
  pub trx_id : String
  pub now : ℕ

-- What the intent is tied to.
pub record Route : Type 0 where
  pub gateway : ℕ
  pub brand : Option ℕ
  pub store : Option ℕ
  pub gate : Option ℕ

abbrev brand_of_store : ℕ → ℕ → Tables → Option ℕ
brand_of_store store merchant t = elim (get_store store merchant t) [
  | none ↦ none
  | some s ↦ some s.brand_id
]

abbrev pub or_id : Option ℕ → ℕ → ℕ
or_id none d = d
or_id (some n) d = n

abbrev pub fits_currency : IntentCall → CreateIntentInput → Gate → Bool
fits_currency c i g =
    str_eq g.currency i.currency || str_eq (c.upper g.currency) (c.upper i.currency)

-- The branch of `input.gate_id`.
unfoldable pub route_by_gate : IntentCall → CreateIntentInput → ℕ → Tables → IntentOutcome Route
route_by_gate c i gate_id t = elim (get_gate gate_id i.merchant_id t) [
  | none ↦ throws gate_not_found
  | some g ↦
      if fits_currency c i g
      then returns (record {
        gateway = or_id (positive i.gateway_id) g.gateway_id;
        brand = brand_of_store g.store_id i.merchant_id t;
        store = some g.store_id;
        gate = some g.id;
      })
      else throws currency_differs
]

-- `input.gateway || input.gateway_slug`
abbrev slug_of : CreateIntentInput → Option String
slug_of i = elim (filled i.gateway) [ some s ↦ some s | none ↦ filled i.gateway_slug ]

abbrev id_of : Option GatewayRow → Option ℕ
id_of none = none
id_of (some g) = positive (some g.id)

-- The merchant's gateway with a slug, once the deployment allows it.
unfoldable pub gateway_by_slug : IntentCall → ℕ → String → Tables → IntentOutcome (Option ℕ)
gateway_by_slug c merchant slug t =
    let found = first_row (λ g. (g.merchant_id == merchant) && str_eq g.slug slug) t.gateways in
    if str_eq slug "manual"
    then returns (id_of found)
    else if not (c.enabled slug)
    then throws gateway_disabled
    else if not (c.ported slug)
    then throws gateway_not_ported
    else returns (id_of found)

abbrev pub named_gateway : IntentCall → CreateIntentInput → Tables → IntentOutcome (Option ℕ)
named_gateway c i t = elim (positive i.gateway_id) [
  | some n ↦ returns (some n)
  | none ↦ elim (slug_of i) [
    | none ↦ returns none
    | some slug ↦ gateway_by_slug c i.merchant_id slug t
  ]
]

abbrev manual_gateway : ℕ → ℕ → GatewayRow
manual_gateway i merchant = record {
  id = i;
  merchant_id = merchant;
  slug = "manual";
  gateway_type = "manual";
}

-- The merchant's first gateway, or a manual one that is made for it.
unfoldable pub default_gateway : ℕ → Tables → Tables × ℕ
default_gateway merchant t = elim (first_row (λ g. g.merchant_id == merchant) t.gateways) [
  | some g ↦ (t, g.id)
  | none ↦ (
    record t {
      gateways = t.gateways ++ (manual_gateway t.gateway_seq merchant ∷ []);
      gateway_seq = t.gateway_seq + 1;
    },
    t.gateway_seq,
  )
]

-- The default gate of a gateway, if there is one.
unfoldable pub route_by_gateway : CreateIntentInput → ℕ → Tables → Route
route_by_gateway i gateway t =
    elim (if gateway == 0 then none else resolve_default_gate i.merchant_id gateway t) [
      | none ↦ record { gateway = gateway; brand = none; store = none; gate = none }
      | some g ↦ record {
        gateway = gateway;
        brand = brand_of_store g.store_id i.merchant_id t;
        store = some g.store_id;
        gate = some g.id;
      }
    ]

unfoldable pub resolve_route :
    IntentCall → CreateIntentInput → Tables → Tables × IntentOutcome Route
resolve_route c i t = elim (positive i.gate_id) [
  | some gate ↦ (t, route_by_gate c i gate t)
  | none ↦ elim (named_gateway c i t) [
    | throws e ↦ (t, throws e)
    | returns (some n) ↦ (t, returns (route_by_gateway i n t))
    | returns none ↦
        let (t', n) = default_gateway i.merchant_id t in (t', returns (route_by_gateway i n t'))
  ]
]

abbrev or_900 : Option ℕ → ℕ
or_900 none = 900
or_900 (some n) = n

abbrev pub new_intent : IntentCall → CreateIntentInput → ℕ → Route → NewIntent
new_intent c i n r = record {
  id = n;
  uuid = c.uuid;
  merchant_id = i.merchant_id;
  token = c.token;
  amount = i.amount;
  currency = c.upper i.currency;
  description = i.description;
  gateway_id = r.gateway;
  brand_id = r.brand;
  store_id = r.store;
  gate_id = r.gate;
  metadata = i.metadata;
  expires_at = c.now + or_900 i.expires_in_seconds * 1000;
}

abbrev pub pending_transaction : IntentCall → CreateIntentInput → ℕ → Route → NewTransaction
pending_transaction c i n r = record {
  merchant_id = i.merchant_id;
  trx_id = c.trx_id;
  payment_intent_id = n;
  gateway_id = r.gateway;
  brand_id = r.brand;
  store_id = r.store;
  gate_id = r.gate;
  amount = i.amount;
  currency = c.upper i.currency;
  net_amount = i.amount;
}

-- The id and the token; the checkout's path follows from the token.
unfoldable pub create_intent :
    IntentCall → CreateIntentInput → IntentDb → IntentDb × IntentOutcome (ℕ × String)
create_intent c i db =
    if c.decimals.is_zero i.amount
    then (db, throws amount_is_zero)
    else let (t, r) = resolve_route c i db.tables in
      elim r [
        | throws e ↦ (record db { tables = t }, throws e)
        | returns route ↦ (
          record {
            tables = t;
            intents = db.intents ++ (new_intent c i db.intent_seq route ∷ []);
            intent_seq = db.intent_seq + 1;
            transactions = db.transactions ++ (pending_transaction c i db.intent_seq route ∷ []);
          },
          returns (db.intent_seq, c.token),
        )
      ]
