-- ===== src/Intents/Requests.antt =====
-- The requests that make hierarchies and intents, in any order: src/controllers/api.ts,
-- src/services/hierarchy.ts and src/services/payment.ts.
use edgepay_cf.Prelude.{ℕ, String, List, [], ◌∷◌, Option}
use edgepay_cf.Hierarchy.{GatewayRow, ManualGateway, Tables, provision_default_hierarchy}
use edgepay_cf.Hierarchy.Api.{
  BrandBody, StoreBody, GateBody, post_brands, post_brand_stores, post_store_gates,
}
use edgepay_cf.Intents.{IntentDb, IntentCall, CreateIntentInput, create_intent}

pub data MerchantRequest : Type 0 where
  brand : (uuid : String) (merchant : ℕ) → BrandBody → MerchantRequest
  store : (uuid : String) (merchant : ℕ) (param : Option ℕ) → StoreBody → MerchantRequest
  gate : (merchant : ℕ) (param : Option ℕ) → GateBody → MerchantRequest
  provision : (brand_uuid store_uuid : String) (merchant : ℕ) (currency : String) → MerchantRequest
  intent : IntentCall → CreateIntentInput → MerchantRequest

abbrev pub with_tables : IntentDb → Tables → IntentDb
with_tables db t = record db { tables = t }

unfoldable pub serve : MerchantRequest → IntentDb → IntentDb
serve (brand uuid m body) db = with_tables db (post_brands uuid m body db.tables).0
serve (store uuid m param body) db =
    with_tables db (post_brand_stores uuid m param body db.tables).0
serve (gate m param body) db = with_tables db (post_store_gates m param body db.tables).0
serve (provision u v m currency) db =
    with_tables db (provision_default_hierarchy u v m currency db.tables).0
serve (intent c i) db = (create_intent c i db).0

unfoldable pub serve_all : List MerchantRequest → IntentDb → IntentDb
serve_all [] db = db
serve_all (r ∷ rs) db = serve_all rs (serve r db)

-- A database without brands, stores, gates and intents.
abbrev pub no_hierarchy : List GatewayRow → ℕ → List ManualGateway → IntentDb
no_hierarchy gateways seq manual = record {
  tables = record {
    brands = [];
    brand_seq = 1;
    stores = [];
    store_seq = 1;
    gates = [];
    gate_seq = 1;
    gateways = gateways;
    gateway_seq = seq;
    manual_gateways = manual;
  };
  intents = [];
  intent_seq = 1;
  transactions = [];
}
