-- ===== src/Intents/Offered.antt =====
-- The checkout page of an intent offers gates of the intent's merchant only:
-- src/services/hierarchy.ts and src/controllers/checkout.ts.
use edgepay_cf.Prelude.{
  All-keep_passing, ◌≡◌, inl, inr, ℕ, String, Bool, true, List, [], ◌∷◌, map, Option, none, some,
  All, All-append, All-imp, All-both, arith, Option-cases, ◌==◌, ◌&&◌, str_eq,
}
use edgepay_cf.Hierarchy.{
  Gate, GatewayRow, ManualGateway, Tables, CheckoutGate, CheckoutBrand, first_row, is_found,
  get_store,
}
use edgepay_cf.Hierarchy.Gates.{
  get_gate, checkout_rows, with_manual, with_one, list_gates_for_checkout,
  list_gates_for_merchant_default,
}
use edgepay_cf.Hierarchy.Api.{positive}
use edgepay_cf.Hierarchy.Owned.{first_row-All, Belongs, AreOwned, get_store-Belongs}
use edgepay_cf.Intents.{NewIntent, or_id}
use edgepay_cf.Intents.Page.{checkout_gates, checkout_page}
use edgepay_cf.Intents.Requests.{MerchantRequest, serve_all, no_hierarchy}
use edgepay_cf.Intents.Isolated.{Placed, IsIsolated, serve_all-IsIsolated}

first_row_finds :
    {A : Type 0} (xs : List A)
    → All (λ x. (p : A → Bool) → p x ≡ true → is_found (first_row p xs) ≡ true) xs
first_row_finds [] = tt
first_row_finds (x ∷ xs) = (
  λ p h. ground (arith, h),
  All-imp _ _ xs (λ y f p h. ground (arith, f p h)) (first_row_finds xs),
)

-- `getGate` finds a gate for the merchant.
abbrev pub IsGateOf : Tables → ℕ → ℕ → Type 0
IsGateOf t merchant i = is_found (get_gate i merchant t) ≡ true

module _ (t : Tables) (merchant : ℕ) where
  own_gates : All (λ g. g.merchant_id ≡ merchant → IsGateOf t merchant g.id) t.gates
  unfolding get_gate
  own_gates =
      All-imp _ _ t.gates
        (λ g f e. f (λ x. (x.id == g.id) && (x.merchant_id == merchant)) (ground (arith, e)))
        (first_row_finds t.gates)

  with_manual-IsGateOf :
      (g : Gate) (gw : GatewayRow) (ms : List ManualGateway)
      → IsGateOf t merchant g.id
      → All (λ c. IsGateOf t merchant c.id) (with_manual g gw ms)
  with_manual-IsGateOf g gw [] h = (h, tt)
  with_manual-IsGateOf g gw (m ∷ ms) h = (h, each ms)
    where
      each :
          (ms : List ManualGateway) → All (λ c. IsGateOf t merchant c.id) (map (with_one g gw) ms)
      each [] = tt
      each (m ∷ ms) = (h, each ms)

  checkout_rows-IsGateOf :
      (gs : List Gate)
      → All (λ g. IsGateOf t merchant g.id) gs
      → All (λ c. IsGateOf t merchant c.id) (checkout_rows t gs)
  unfolding checkout_rows
  checkout_rows-IsGateOf [] h = tt
  checkout_rows-IsGateOf (g ∷ gs) h =
      let rest = checkout_rows-IsGateOf gs h.1 in
      elim (Option-cases (first_row (λ gw. gw.id == g.gateway_id) t.gateways)) [
        | inl q ↦ rw (q, checkout_rows) rest
        | inr (gw, q) ↦
            rw (q, checkout_rows)
              (All-append _ _ (checkout_rows t gs) (with_manual-IsGateOf g gw _ h.0) rest)
      ]

  store_gates-IsGateOf :
      (owner : ℕ → ℕ) (k : ℕ)
      → AreOwned owner t
      → Belongs owner t.store_seq k merchant
      → All (λ c. IsGateOf t merchant c.id) (list_gates_for_checkout k t)
  unfolding list_gates_for_checkout
  store_gates-IsGateOf owner k h b = checkout_rows-IsGateOf _ (
      All-keep_passing _ _ t.gates (
        All-imp _ _ t.gates (λ g (own, found) q. found (ground (arith, own, b, q)))
          (All-both _ _ t.gates h.gates own_gates)))

  default_gates-IsGateOf :
      All (λ c. IsGateOf t merchant c.id) (list_gates_for_merchant_default merchant t)
  unfolding list_gates_for_merchant_default
  default_gates-IsGateOf = checkout_rows-IsGateOf _ (
      All-keep_passing _ _ t.gates
        (All-imp _ _ t.gates (λ g found q. found (ground (arith, q))) own_gates))

positive-same : (o : Option ℕ) (k : ℕ) → positive o ≡ some k → o ≡ some k
positive-same none k q = cc q
positive-same (some n) k q = ground (arith, q)

checkout_gates-IsGateOf :
    (owner : ℕ → ℕ) (n : NewIntent) (t : Tables)
    → AreOwned owner t
    → Placed owner t.store_seq n.merchant_id n.store_id
    → All (λ c. IsGateOf t n.merchant_id c.id) (checkout_gates n t)
unfolding checkout_gates
checkout_gates-IsGateOf owner n t h p = elim (Option-cases (positive n.gate_id)) [
  | inr (k, q) ↦ elim (Option-cases (get_store (or_id n.store_id 0) n.merchant_id t)) [
    | inl u ↦ rw (q, u, checkout_gates) tt
    | inr (s, u) ↦
        let (same, own) = get_store-Belongs owner (or_id n.store_id 0) n.merchant_id t s h u in
        rw (q, u, checkout_gates)
          (All-keep_passing _ _ (list_gates_for_checkout s.id t) (
            All-imp _ _ (list_gates_for_checkout s.id t) (λ c f _. f)
              (store_gates-IsGateOf t n.merchant_id owner s.id h (rw same own))))
  ]
  | inl q ↦ elim (Option-cases (positive n.store_id)) [
    | inr (k, u) ↦
        rw (q, u, checkout_gates)
          (store_gates-IsGateOf t n.merchant_id owner k h (rw (positive-same n.store_id k u) at p))
    | inl u ↦ rw (q, u, checkout_gates) (default_gates-IsGateOf t n.merchant_id)
  ]
]

empty-IsIsolated :
    (gateways : List GatewayRow) (seq : ℕ) (manual : List ManualGateway)
    → IsIsolated (no_hierarchy gateways seq manual)
empty-IsIsolated gateways seq manual = record {
  owner = λ i. 0;
  isolated = record { tables = record { stores = tt; gates = tt }; intents = tt };
}

-- Whatever brands, stores, gates and intents the merchants make through the routes, and in whatever
-- order, the checkout page of an intent offers only gates that `getGate` finds for the intent's own
-- merchant.
pub checkout_page-IsGateOf :
    (rs : List MerchantRequest) (gateways : List GatewayRow) (seq : ℕ) (manual : List ManualGateway)
    (token : String) (n : NewIntent) (gates : List CheckoutGate) (b : Option CheckoutBrand)
    → let db = serve_all rs (no_hierarchy gateways seq manual) in
      checkout_page token db ≡ some (n, gates, b)
      → All (λ c. IsGateOf db.tables n.merchant_id c.id) gates
unfolding checkout_page
checkout_page-IsGateOf rs gateways seq manual token n gates b q =
    let db = serve_all rs (no_hierarchy gateways seq manual) in
    let h = serve_all-IsIsolated rs _ (empty-IsIsolated gateways seq manual) in
    elim (Option-cases (first_row (λ n. str_eq n.token token) db.intents)) [
      | inl u ↦ ground (arith, rw (u, checkout_page) at q)
      | inr (m, u) ↦
          let placed =
            first_row-All (λ n. Placed h.owner db.tables.store_seq n.merchant_id n.store_id) _
              db.intents m u h.isolated.intents in
          let offered = checkout_gates-IsGateOf h.owner m db.tables h.isolated.tables placed in
          let same : m ≡ n = ground (arith, rw (u, checkout_page) at q) in
          let shown : checkout_gates m db.tables ≡ gates =
            ground (arith, rw (u, checkout_page) at q) in
          rw same at (rw shown at offered)
    ]
