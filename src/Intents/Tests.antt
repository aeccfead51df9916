-- ===== src/Intents/Tests.antt =====
-- Hierarchies and intents of src/services/hierarchy.ts and src/services/payment.ts for two merchants,
-- and the theorems at concrete inputs.
use edgepay_cf.Prelude.{◌≡◌, refl, true, List, [], ◌∷◌, some, none, All, str_eq}
use edgepay_cf.Posting.Tests.{decimals}
use edgepay_cf.Hierarchy.{
  GatewayRow, ManualGateway, CheckoutGate, CheckoutBrand, Tables, HierarchyIds, insert_brand,
  insert_store, find_main_brand, find_main_store, provision_default_hierarchy, get_store,
}
use edgepay_cf.Hierarchy.Gates.{
  create_gate, get_gate, checkout_rows, list_gates_for_checkout, get_brand_for_checkout,
}
use edgepay_cf.Hierarchy.Provision.{provision_again}
use edgepay_cf.Hierarchy.Api.{GateBody, post_store_gates}
use edgepay_cf.Intents.{
  NewIntent, IntentDb, IntentCall, CreateIntentInput, resolve_route, route_by_gate, create_intent,
}
use edgepay_cf.Intents.Page.{checkout_gates, checkout_page}
use edgepay_cf.Intents.Requests.{
  MerchantRequest, gate, provision, intent, serve, serve_all, no_hierarchy,
}
use edgepay_cf.Intents.Offered.{IsGateOf, checkout_page-IsGateOf}

abbrev gateways : List GatewayRow
gateways =
    record { id = 1; merchant_id = 1; slug = "bkash"; gateway_type = "manual" }
    ∷ record { id = 2; merchant_id = 2; slug = "nagad"; gateway_type = "manual" }
    ∷ []

abbrev manual : List ManualGateway
manual =
    record {
      gateway_id = 1;
      account_number = none;
      payment_number = some "017";
      instructions = some "send";
    }
    ∷ []

abbrev call : IntentCall
call = record {
  decimals = decimals;
  upper = λ s. s;
  enabled = λ s. true;
  ported = λ s. true;
  token = "tok";
  uuid = "i";
  trx_id = "op_1";
  now = 0;
}

abbrev body : GateBody
body = record {
  gateway_id = some 1;
  label = some "bKash";
  currency = some "BDT";
  mfs_number = none;
}

abbrev order : CreateIntentInput
order = record {
  merchant_id = 1;
  amount = "5.00";
  currency = "BDT";
  description = none;
  gateway_id = none;
  gateway = none;
  gateway_slug = none;
  gate_id = some 1;
  metadata = none;
  expires_in_seconds = none;
}

-- The second merchant asks for a gate in the store of the first, and is refused.
abbrev requests : List MerchantRequest
requests =
    provision "b1" "s1" 1 "BDT"
    ∷ provision "b2" "s2" 2 "BDT"
    ∷ gate 1 (some 1) body
    ∷ gate 2 (some 1) body
    ∷ intent call order
    ∷ []

abbrev db : IntentDb
db = serve_all requests (no_hierarchy gateways 3 manual)

abbrev made : NewIntent
made = record {
  id = 1;
  uuid = "i";
  merchant_id = 1;
  token = "tok";
  amount = "5.00";
  currency = "BDT";
  description = none;
  gateway_id = 1;
  brand_id = some 1;
  store_id = some 1;
  gate_id = some 1;
  metadata = none;
  expires_at = 900_000;
}

abbrev offered : List CheckoutGate
offered =
    record {
      id = 1;
      label = "bKash";
      currency = "BDT";
      gateway_id = 1;
      gateway_slug = "bkash";
      gateway_type = "manual";
      destination_number = some "017";
      instructions = some "send";
    }
    ∷ []

abbrev shown : CheckoutBrand
shown = record {
  id = 1;
  name = "Main";
  logo_path = none;
  brand_color = none;
  support_email = none;
  support_phone = none;
  terms_url = none;
  privacy_url = none;
}

page : checkout_page "tok" db ≡ some (made, offered, some shown)
unfolding serve_all serve provision_default_hierarchy insert_brand insert_store find_main_brand
    find_main_store post_store_gates create_gate get_store get_gate create_intent resolve_route
    route_by_gate checkout_page checkout_gates checkout_rows list_gates_for_checkout
    get_brand_for_checkout str_eq
page = refl

checkout_page-IsGateOf_example : All (λ c. IsGateOf db.tables 1 c.id) offered
checkout_page-IsGateOf_example =
    checkout_page-IsGateOf requests gateways 3 manual "tok" made offered (some shown) page

abbrev empty : Tables
empty = (no_hierarchy gateways 3 manual).tables

abbrev first_ids : HierarchyIds
first_ids = record { brand_id = 1; store_id = 1 }

first_call : (provision_default_hierarchy "b1" "s1" 1 "BDT" empty).1 ≡ some first_ids
unfolding provision_default_hierarchy insert_brand insert_store find_main_brand find_main_store
    str_eq
first_call = refl

provision_again_example :
    provision_default_hierarchy "b9" "s9" 1 "USD"
      (provision_default_hierarchy "b1" "s1" 1 "BDT" empty).0
    ≡ ((provision_default_hierarchy "b1" "s1" 1 "BDT" empty).0, some first_ids)
provision_again_example =
    provision_again "b1" "s1" "b9" "s9" 1 "BDT" "USD" empty first_ids tt tt first_call
