-- ===== src/Hierarchy/Gates.antt =====
-- Gates and what a checkout page reads of them: the rest of `HierarchyService` in
-- src/services/hierarchy.ts.
use edgepay_cf.Prelude.{
  ℕ, ◌+◌, String, Bool, true, false, ◌&&◌, List, [], ◌∷◌, ◌++◌, map, keep, Option, none, some,
  str_eq, ◌==◌, if◌then◌else◌,
}
use edgepay_cf.Hierarchy.{
  GateStatus, Gate, CheckoutGate, CheckoutBrand, GatewayRow, ManualGateway, Tables, first_row,
  is_found, has_brand_slug,
}

pub record CreateGateInput : Type 0 where
  pub store_id : ℕ
  pub merchant_id : ℕ
  pub gateway_id : ℕ
  pub label : String
  pub currency : String
  pub mfs_number : Option String

abbrev pub new_gate : ℕ → CreateGateInput → Gate
new_gate i input = record {
  id = i;
  store_id = input.store_id;
  merchant_id = input.merchant_id;
  gateway_id = input.gateway_id;
  label = input.label;
  mfs_number = input.mfs_number;
  currency = input.currency;
  status = GateStatus.active;
}

-- `ORDER BY id DESC LIMIT 1`
abbrev find_last {ℓ} : {A : Type ℓ} → (A → Bool) → List A → Option A
find_last p [] = none
find_last p (x ∷ xs) = elim (find_last p xs) [
  | some y ↦ some y
  | none ↦ if p x then some x else none
]

unfoldable pub create_gate : CreateGateInput → Tables → Tables × Option Gate
create_gate i t =
    let t' = record t {
      gates = t.gates ++ (new_gate t.gate_seq i ∷ []);
      gate_seq = t.gate_seq + 1;
    } in
    (
      t',
      find_last
          (λ g.
            (g.store_id == i.store_id) && (g.gateway_id == i.gateway_id) && str_eq g.label i.label)
          t'.gates,
    )

abbrev is_gate_listed : GateStatus → Bool
is_gate_listed GateStatus.archived = false
is_gate_listed _ = true

abbrev pub is_gate_active : GateStatus → Bool
is_gate_active GateStatus.active = true
is_gate_active _ = false

unfoldable pub list_gates : ℕ → ℕ → Tables → List Gate
list_gates store merchant t =
    keep (λ g. (g.store_id == store) && (g.merchant_id == merchant) && is_gate_listed g.status)
      t.gates

unfoldable pub get_gate : ℕ → ℕ → Tables → Option Gate
get_gate i merchant t = first_row (λ g. (g.id == i) && (g.merchant_id == merchant)) t.gates

-- The merchant has a brand `main` with a store `main`. The gate's own store is not asked for.
abbrev pub has_main_store : ℕ → Tables → Bool
has_main_store merchant t = is_found (
    first_row
      (λ b.
        (b.merchant_id == merchant)
        && str_eq b.slug "main"
        && is_found (first_row (λ s. (s.brand_id == b.id) && str_eq s.slug "main") t.stores))
      t.brands)

unfoldable pub resolve_default_gate : ℕ → ℕ → Tables → Option Gate
resolve_default_gate merchant gateway t =
    if has_main_store merchant t
    then first_row
        (λ g. (g.merchant_id == merchant) && (g.gateway_id == gateway) && is_gate_active g.status)
        t.gates
    else none

unfoldable pub list_gates_for_store : ℕ → Tables → List Gate
list_gates_for_store store t = keep (λ g. (g.store_id == store) && is_gate_active g.status) t.gates

-- `COALESCE(g.mfs_number, mg.account_number, mg.payment_number)`
abbrev coalesce {ℓ} : {A : Type ℓ} → Option A → Option A → Option A
coalesce none b = b
coalesce (some a) b = some a

abbrev checkout_gate : Gate → GatewayRow → Option String → Option String → CheckoutGate
checkout_gate g gw destination instructions = record {
  id = g.id;
  label = g.label;
  currency = g.currency;
  gateway_id = g.gateway_id;
  gateway_slug = gw.slug;
  gateway_type = gw.gateway_type;
  destination_number = destination;
  instructions = instructions;
}

abbrev pub with_one : Gate → GatewayRow → ManualGateway → CheckoutGate
with_one g gw mg =
    checkout_gate g gw (coalesce g.mfs_number (coalesce mg.account_number mg.payment_number))
      mg.instructions

-- A row of the LEFT JOIN for every manual gateway, or one without any.
abbrev pub with_manual : Gate → GatewayRow → List ManualGateway → List CheckoutGate
with_manual g gw [] = checkout_gate g gw g.mfs_number none ∷ []
with_manual g gw (m ∷ ms) = map (with_one g gw) (m ∷ ms)

unfoldable pub checkout_rows : Tables → List Gate → List CheckoutGate
checkout_rows t [] = []
checkout_rows t (g ∷ gs) =
    let rest = checkout_rows t gs in
    elim (first_row (λ gw. gw.id == g.gateway_id) t.gateways) [
      | none ↦ rest
      | some gw ↦
          with_manual g gw (keep (λ m. m.gateway_id == g.gateway_id) t.manual_gateways) ++ rest
    ]

unfoldable pub list_gates_for_checkout : ℕ → Tables → List CheckoutGate
list_gates_for_checkout store t =
    checkout_rows t (keep (λ g. (g.store_id == store) && is_gate_active g.status) t.gates)

-- The gate's own store is `main`, of a brand `main`.
abbrev pub is_in_main_store : Tables → Gate → Bool
is_in_main_store t g = elim (first_row (λ s. s.id == g.store_id) t.stores) [
  | none ↦ false
  | some s ↦ has_brand_slug "main" t.brands s && str_eq s.slug "main"
]

unfoldable pub list_gates_for_merchant_default : ℕ → Tables → List CheckoutGate
list_gates_for_merchant_default merchant t = checkout_rows t (
    keep (λ g. (g.merchant_id == merchant) && is_gate_active g.status && is_in_main_store t g)
      t.gates)

unfoldable pub get_brand_for_checkout : ℕ → ℕ → Tables → Option CheckoutBrand
get_brand_for_checkout i merchant t =
    elim (first_row (λ b. (b.id == i) && (b.merchant_id == merchant)) t.brands) [
      | none ↦ none
      | some b ↦ some (record {
        id = b.id;
        name = b.name;
        logo_path = b.logo_path;
        brand_color = b.brand_color;
        support_email = b.support_email;
        support_phone = b.support_phone;
        terms_url = b.terms_url;
        privacy_url = b.privacy_url;
      })
    ]
