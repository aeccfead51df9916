-- ===== src/Hierarchy/Api.antt =====
-- The routes of brands, stores and gates: src/controllers/api.ts. The merchant is the authenticated
-- one. An id in a path is what parseInt reads: `none` for no integer. A field of the body is an
-- `Option`, and an empty one is falsy.
use edgepay_cf.Prelude.{
  ℕ, String, Bool, true, false, not, ◌&&◌, ◌||◌, List, [], ◌∷◌, Option, none, some, str_eq, leb,
  length, ◌==◌, if◌then◌else◌,
}
use edgepay_cf.Prelude.Texts.{codes}
use edgepay_cf.Hierarchy.{
  Brand, Store, Gate, Tables, create_brand, list_brands, get_brand, create_store, list_stores,
  get_store,
}
use edgepay_cf.Hierarchy.Gates.{create_gate, list_gates}

-- What a route answers: `throws` is an error that it does not catch.
pub data Reply {ℓ} (A : Type ℓ) : Type ℓ where
  ok created : A → Reply A
  validation_error invalid_id not_found throws : Reply A

abbrev pub filled : Option String → Option String
filled none = none
filled (some s) = if str_eq s "" then none else some s

abbrev pub positive : Option ℕ → Option ℕ
positive none = none
positive (some n) = if n == 0 then none else some n

abbrev is_slug_start : ℕ → Bool
is_slug_start c = (leb 97 c && leb c 122) || (leb 48 c && leb c 57)

abbrev is_slug_rest : List ℕ → Bool
is_slug_rest [] = true
is_slug_rest (c ∷ cs) = (is_slug_start c || (c == 45)) && is_slug_rest cs

-- `/^[a-z0-9][a-z0-9-]{0,63}$/`
abbrev pub is_slug : List ℕ → Bool
is_slug [] = false
is_slug (c ∷ cs) = is_slug_start c && is_slug_rest cs && leb (length cs) 63

pub record BrandBody : Type 0 where
  pub name : Option String
  pub slug : Option String
  pub brand_color : Option String
  pub support_email : Option String

abbrev pub created_or_throws {ℓ} : {A : Type ℓ} → Option A → Reply A
created_or_throws none = throws
created_or_throws (some a) = created a

unfoldable pub get_brands : ℕ → Tables → Reply (List Brand)
get_brands merchant t = ok (list_brands merchant t)

unfoldable pub post_brands : String → ℕ → BrandBody → Tables → Tables × Reply Brand
post_brands uuid merchant body t = elim (filled body.name) [
  | none ↦ (t, validation_error)
  | some name ↦ elim (filled body.slug) [
    | none ↦ (t, validation_error)
    | some slug ↦
        if not (is_slug (codes slug))
        then (t, validation_error)
        else let (t', b) =
            create_brand uuid
              (record {
                merchant_id = merchant;
                name = name;
                slug = slug;
                brand_color = body.brand_color;
                support_email = body.support_email;
              })
              t in
          (t', created_or_throws b)
  ]
]

unfoldable pub get_brand_stores : ℕ → Option ℕ → Tables → Reply (List Store)
get_brand_stores merchant param t = elim (positive param) [
  | none ↦ invalid_id
  | some i ↦ elim (get_brand i merchant t) [
    | none ↦ not_found
    | some b ↦ ok (list_stores i merchant t)
  ]
]

pub record StoreBody : Type 0 where
  pub name : Option String
  pub slug : Option String
  pub default_currency : Option String
  pub timezone : Option String

-- The three fields that a store must have.
abbrev pub store_fields : StoreBody → Option (String × String × String)
store_fields body = elim (filled body.name) [
  | none ↦ none
  | some name ↦ elim (filled body.slug) [
    | none ↦ none
    | some slug ↦ elim (filled body.default_currency) [
      | none ↦ none
      | some currency ↦ some (name, slug, currency)
    ]
  ]
]

unfoldable pub post_brand_stores : String → ℕ → Option ℕ → StoreBody → Tables → Tables × Reply Store
post_brand_stores uuid merchant param body t = elim (positive param) [
  | none ↦ (t, invalid_id)
  | some i ↦ elim (store_fields body) [
    | none ↦ (t, validation_error)
    | some fields ↦ elim (get_brand i merchant t) [
      | none ↦ (t, not_found)
      | some b ↦
          let (t', s) =
            create_store uuid
              (record {
                merchant_id = merchant;
                brand_id = i;
                name = fields.0;
                slug = fields.1;
                default_currency = fields.2;
                timezone = body.timezone;
              })
              t in
          (t', created_or_throws s)
    ]
  ]
]

unfoldable pub get_store_gates : ℕ → Option ℕ → Tables → Reply (List Gate)
get_store_gates merchant param t = elim (positive param) [
  | none ↦ invalid_id
  | some i ↦ ok (list_gates i merchant t)
]

pub record GateBody : Type 0 where
  pub gateway_id : Option ℕ
  pub label : Option String
  pub currency : Option String
  pub mfs_number : Option String

abbrev pub gate_fields : GateBody → Option (ℕ × String × String)
gate_fields body = elim (positive body.gateway_id) [
  | none ↦ none
  | some gateway ↦ elim (filled body.label) [
    | none ↦ none
    | some label ↦ elim (filled body.currency) [
      | none ↦ none
      | some currency ↦ some (gateway, label, currency)
    ]
  ]
]

unfoldable pub post_store_gates : ℕ → Option ℕ → GateBody → Tables → Tables × Reply Gate
post_store_gates merchant param body t = elim (positive param) [
  | none ↦ (t, invalid_id)
  | some i ↦ elim (gate_fields body) [
    | none ↦ (t, validation_error)
    | some fields ↦ elim (get_store i merchant t) [
      | none ↦ (t, not_found)
      | some s ↦
          let (t', g) =
            create_gate
              (record {
                store_id = i;
                merchant_id = merchant;
                gateway_id = fields.0;
                label = fields.1;
                currency = fields.2;
                mfs_number = body.mfs_number;
              })
              t in
          (t', created_or_throws g)
    ]
  ]
]
