-- ===== src/Intents/Page.antt =====
-- The gates that a checkout page offers and the brand it shows: src/controllers/checkout.ts.
use edgepay_cf.Prelude.{String, List, [], keep, Option, none, some, str_eq, ◌==◌}
use edgepay_cf.Hierarchy.{Tables, CheckoutGate, CheckoutBrand, first_row, get_store}
use edgepay_cf.Hierarchy.Gates.{
  list_gates_for_checkout, list_gates_for_merchant_default, get_brand_for_checkout,
}
use edgepay_cf.Hierarchy.Api.{positive}
use edgepay_cf.Intents.{NewIntent, IntentDb, or_id}

-- The gates on the page of an intent.
unfoldable pub checkout_gates : NewIntent → Tables → List CheckoutGate
checkout_gates n t = elim (positive n.gate_id) [
  | some gate ↦ elim (get_store (or_id n.store_id 0) n.merchant_id t) [
    | none ↦ []
    | some s ↦ keep (λ g. g.id == gate) (list_gates_for_checkout s.id t)
  ]
  | none ↦ elim (positive n.store_id) [
    | some store ↦ list_gates_for_checkout store t
    | none ↦ list_gates_for_merchant_default n.merchant_id t
  ]
]

-- The page of a token: `none` where there is no intent.
unfoldable pub checkout_page :
    String → IntentDb → Option (NewIntent × List CheckoutGate × Option CheckoutBrand)
checkout_page token db = elim (first_row (λ n. str_eq n.token token) db.intents) [
  | none ↦ none
  | some n ↦ some (
    n,
    checkout_gates n db.tables,
    elim (positive n.brand_id) [
      | none ↦ none
      | some b ↦ get_brand_for_checkout b n.merchant_id db.tables
    ],
  )
]
