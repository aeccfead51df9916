-- ===== src/Hierarchy.antt =====
-- Brands, stores and the default hierarchy: `HierarchyService` of src/services/hierarchy.ts, with the
-- tables it works on; Gates has the rest. A table is the list of its rows in the order of their
-- ids, and a query without ORDER BY answers in that order. A statement
-- fails only where a UNIQUE constraint refuses it; a merchant that is named exists. What
-- `randomUuid` and `randomblob` return are arguments. The time stamps are left out.
pub mod Api
pub mod Gates
pub mod Owned
pub mod Provision
use edgepay_cf.Prelude.{
  ℕ, ◌+◌, String, Bool, true, false, ◌&&◌, ◌||◌, List, [], ◌∷◌, ◌++◌, keep, Option, none, some,
  str_eq, ◌==◌, if◌then◌else◌,
}

pub data RowStatus : Type 0 where
  active archived : RowStatus

pub record Brand : Type 0 where
  pub id : ℕ
  pub merchant_id : ℕ
  pub uuid : String
  pub name : String
  pub slug : String
  pub status : RowStatus
  pub logo_path : Option String
  pub brand_color : Option String
  pub support_email : Option String
  pub support_phone : Option String
  pub terms_url : Option String
  pub privacy_url : Option String

pub record Store : Type 0 where
  pub id : ℕ
  pub brand_id : ℕ
  pub merchant_id : ℕ
  pub uuid : String
  pub name : String
  pub slug : String
  pub timezone : String
  pub default_currency : String
  pub status : RowStatus

pub data GateStatus : Type 0 where
  active paused archived : GateStatus

pub record Gate : Type 0 where
  pub id : ℕ
  pub store_id : ℕ
  pub merchant_id : ℕ
  pub gateway_id : ℕ
  pub label : String
  pub mfs_number : Option String
  pub currency : String
  pub status : GateStatus

pub record CheckoutGate : Type 0 where
  pub id : ℕ
  pub label : String
  pub currency : String
  pub gateway_id : ℕ
  pub gateway_slug : String
  pub gateway_type : String
  pub destination_number : Option String
  pub instructions : Option String

pub record CheckoutBrand : Type 0 where
  pub id : ℕ
  pub name : String
  pub logo_path : Option String
  pub brand_color : Option String
  pub support_email : Option String
  pub support_phone : Option String
  pub terms_url : Option String
  pub privacy_url : Option String

-- The columns of `op_gateways` and of `op_manual_gateways` that are read.
pub record GatewayRow : Type 0 where
  pub id : ℕ
  pub merchant_id : ℕ
  pub slug : String
  pub gateway_type : String

pub record ManualGateway : Type 0 where
  pub gateway_id : ℕ
  pub account_number : Option String
  pub payment_number : Option String
  pub instructions : Option String

pub record Tables : Type 0 where
  pub brands : List Brand
  pub brand_seq : ℕ
  pub stores : List Store
  pub store_seq : ℕ
  pub gates : List Gate
  pub gate_seq : ℕ
  pub gateways : List GatewayRow
  pub gateway_seq : ℕ
  pub manual_gateways : List ManualGateway

abbrev is_active : RowStatus → Bool
is_active active = true
is_active archived = false

-- The first row that passes a test.
abbrev pub first_row {ℓ} : {A : Type ℓ} → (A → Bool) → List A → Option A
first_row p [] = none
first_row p (x ∷ xs) = if p x then some x else first_row p xs

abbrev pub is_found {ℓ} : {A : Type ℓ} → Option A → Bool
is_found none = false
is_found (some _) = true

pub record CreateBrandInput : Type 0 where
  pub merchant_id : ℕ
  pub name : String
  pub slug : String
  pub brand_color : Option String
  pub support_email : Option String

-- UNIQUE (merchant_id, slug), and `uuid`.
abbrev pub brand_conflicts : ℕ → String → String → Brand → Bool
brand_conflicts merchant slug uuid b =
    ((b.merchant_id == merchant) && str_eq b.slug slug) || str_eq b.uuid uuid

abbrev new_brand : ℕ → String → CreateBrandInput → Brand
new_brand i uuid input = record {
  id = i;
  merchant_id = input.merchant_id;
  uuid = uuid;
  name = input.name;
  slug = input.slug;
  status = active;
  logo_path = none;
  brand_color = input.brand_color;
  support_email = input.support_email;
  support_phone = none;
  terms_url = none;
  privacy_url = none;
}

abbrev pub brand_taken : String → CreateBrandInput → Tables → Bool
brand_taken uuid i t = is_found (first_row (brand_conflicts i.merchant_id i.slug uuid) t.brands)

-- `INSERT`: `none` where a constraint refuses the row.
unfoldable pub insert_brand : String → CreateBrandInput → Tables → Option Tables
insert_brand uuid i t =
    if brand_taken uuid i t
    then none
    else some (record t {
      brands = t.brands ++ (new_brand t.brand_seq uuid i ∷ []);
      brand_seq = t.brand_seq + 1;
    })

-- `createBrand`: no brand where it throws.
unfoldable pub create_brand : String → CreateBrandInput → Tables → Tables × Option Brand
create_brand uuid i t = elim (insert_brand uuid i t) [
  | none ↦ (t, none)
  | some t' ↦ (t', first_row (λ b. str_eq b.uuid uuid) t'.brands)
]

unfoldable pub list_brands : ℕ → Tables → List Brand
list_brands merchant t = keep (λ b. (b.merchant_id == merchant) && is_active b.status) t.brands

unfoldable pub get_brand : ℕ → ℕ → Tables → Option Brand
get_brand i merchant t = first_row (λ b. (b.id == i) && (b.merchant_id == merchant)) t.brands

pub record CreateStoreInput : Type 0 where
  pub merchant_id : ℕ
  pub brand_id : ℕ
  pub name : String
  pub slug : String
  pub default_currency : String
  pub timezone : Option String

-- UNIQUE (brand_id, slug), and `uuid`.
abbrev pub store_conflicts : ℕ → String → String → Store → Bool
store_conflicts brand slug uuid s =
    ((s.brand_id == brand) && str_eq s.slug slug) || str_eq s.uuid uuid

abbrev or_dhaka : Option String → String
or_dhaka none = "Asia/Dhaka"
or_dhaka (some zone) = zone

abbrev pub new_store : ℕ → String → CreateStoreInput → Store
new_store i uuid input = record {
  id = i;
  brand_id = input.brand_id;
  merchant_id = input.merchant_id;
  uuid = uuid;
  name = input.name;
  slug = input.slug;
  timezone = or_dhaka input.timezone;
  default_currency = input.default_currency;
  status = active;
}

abbrev pub store_taken : String → CreateStoreInput → Tables → Bool
store_taken uuid i t = is_found (first_row (store_conflicts i.brand_id i.slug uuid) t.stores)

unfoldable pub insert_store : String → CreateStoreInput → Tables → Option Tables
insert_store uuid i t =
    if store_taken uuid i t
    then none
    else some (record t {
      stores = t.stores ++ (new_store t.store_seq uuid i ∷ []);
      store_seq = t.store_seq + 1;
    })

unfoldable pub create_store : String → CreateStoreInput → Tables → Tables × Option Store
create_store uuid i t = elim (insert_store uuid i t) [
  | none ↦ (t, none)
  | some t' ↦ (t', first_row (λ s. str_eq s.uuid uuid) t'.stores)
]

unfoldable pub list_stores : ℕ → ℕ → Tables → List Store
list_stores brand merchant t =
    keep (λ s. (s.brand_id == brand) && (s.merchant_id == merchant) && is_active s.status) t.stores

unfoldable pub get_store : ℕ → ℕ → Tables → Option Store
get_store i merchant t = first_row (λ s. (s.id == i) && (s.merchant_id == merchant)) t.stores

-- The brand that a store is joined to has a slug.
abbrev pub has_brand_slug : String → List Brand → Store → Bool
has_brand_slug slug brands s =
    is_found (first_row (λ b. (b.id == s.brand_id) && str_eq b.slug slug) brands)

unfoldable pub resolve_main_store : ℕ → Tables → Option Store
resolve_main_store merchant t =
    first_row
      (λ s. (s.merchant_id == merchant) && has_brand_slug "main" t.brands s && str_eq s.slug "main")
      t.stores

pub record HierarchyIds : Type 0 where
  pub brand_id : ℕ
  pub store_id : ℕ

-- `INSERT OR IGNORE`
abbrev pub or_ignored : Tables → Option Tables → Tables
or_ignored t none = t
or_ignored t (some t') = t'

abbrev pub main_brand : ℕ → CreateBrandInput
main_brand merchant = record {
  merchant_id = merchant;
  name = "Main";
  slug = "main";
  brand_color = none;
  support_email = none;
}

abbrev pub main_store : ℕ → ℕ → String → CreateStoreInput
main_store merchant brand currency = record {
  merchant_id = merchant;
  brand_id = brand;
  name = "Main";
  slug = "main";
  default_currency = currency;
  timezone = none;
}

-- The merchant's brand `main`, or else any of its brands.
unfoldable pub find_main_brand : ℕ → List Brand → Option Brand
find_main_brand merchant bs =
    elim (first_row (λ b. (b.merchant_id == merchant) && str_eq b.slug "main") bs) [
      | some b ↦ some b
      | none ↦ first_row (λ b. b.merchant_id == merchant) bs
    ]

-- The merchant's first store `main`, of whatever brand, or else any of its stores.
unfoldable pub find_main_store : ℕ → List Store → Option Store
find_main_store merchant ss =
    elim (first_row (λ s. (s.merchant_id == merchant) && str_eq s.slug "main") ss) [
      | some s ↦ some s
      | none ↦ first_row (λ s. s.merchant_id == merchant) ss
    ]

-- `provisionDefaultHierarchy`: `none` where it throws.
unfoldable pub provision_default_hierarchy :
    (brand_uuid store_uuid : String) → ℕ → String → Tables → Tables × Option HierarchyIds
provision_default_hierarchy brand_uuid store_uuid merchant currency t =
    let t1 = or_ignored t (insert_brand brand_uuid (main_brand merchant) t) in
    elim (find_main_brand merchant t1.brands) [
      | none ↦ (t1, none)
      | some b ↦
          let t2 = or_ignored t1 (insert_store store_uuid (main_store merchant b.id currency) t1) in
          elim (find_main_store merchant t2.stores) [
            | none ↦ (t2, none)
            | some s ↦ (t2, some (record { brand_id = b.id; store_id = s.id }))
          ]
    ]
