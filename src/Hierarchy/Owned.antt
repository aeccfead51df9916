-- ===== src/Hierarchy/Owned.antt =====
-- Every gate stands in a store of its own merchant: src/services/hierarchy.ts behind the routes of
-- src/controllers/api.ts.
use edgepay_cf.Prelude.{
  ◌≡◌, ◌<◌, inl, inr, refl, ℕ, ◌+◌, String, Bool, true, List, [], ◌∷◌, Option, some, All,
  All-append, All-imp, arith, Bool-cases, Option-cases, ◌==◌, if◌then◌else◌,
}
use edgepay_cf.Prelude.Texts.{codes}
use edgepay_cf.Hierarchy.{
  Store, Tables, CreateBrandInput, brand_taken, store_taken, get_brand, CreateStoreInput, first_row,
  insert_brand, create_brand, insert_store, create_store, new_store, get_store, or_ignored,
  main_brand, main_store, find_main_brand, find_main_store, provision_default_hierarchy,
}
use edgepay_cf.Hierarchy.Gates.{CreateGateInput, create_gate, new_gate}
use edgepay_cf.Hierarchy.Api.{
  BrandBody, StoreBody, GateBody, filled, positive, is_slug, store_fields, gate_fields, post_brands,
  post_brand_stores, post_store_gates,
}

module _ {ℓ κ} {A : Type ℓ} (P : A → Type κ) where
  pub first_row-All :
      (p : A → Bool) (xs : List A) (x : A) → first_row p xs ≡ some x → All P xs → P x
  first_row-All p [] x q h = cc q
  first_row-All p (y ∷ ys) x q h = elim (Bool-cases (p y)) [
    | inl u ↦ ground (arith, u, q, h.0)
    | inr u ↦ first_row-All p ys x (rw u at q) h.1
  ]

pub first_row_passes {ℓ} :
    {A : Type ℓ} (p : A → Bool) (xs : List A) (x : A) → first_row p xs ≡ some x → p x ≡ true
first_row_passes p [] x q = cc q
first_row_passes p (y ∷ ys) x q = elim (Bool-cases (p y)) [
  | inl u ↦ ground (arith, u, q)
  | inr u ↦ first_row_passes p ys x (rw u at q)
]

-- The store `i` was given out, and it is the merchant's.
abbrev pub Belongs : (ℕ → ℕ) → ℕ → ℕ → ℕ → Type 0
Belongs owner seq i merchant = (i < seq) × (owner i ≡ merchant)

-- Each store id has one owner, which every store and gate agrees with.
pub record AreOwned (owner : ℕ → ℕ) (t : Tables) : Type 0 where
  pub stores : All (λ s. Belongs owner t.store_seq s.id s.merchant_id) t.stores
  pub gates : All (λ g. Belongs owner t.store_seq g.store_id g.merchant_id) t.gates

-- The owners, when a new id is given to a merchant.
abbrev pub give : ℕ → ℕ → (ℕ → ℕ) → ℕ → ℕ
give seq merchant owner i = if i == seq then merchant else owner i

pub Belongs-give :
    (owner : ℕ → ℕ) (seq to i merchant : ℕ)
    → Belongs owner seq i merchant
    → Belongs (give seq to owner) (seq + 1) i merchant
Belongs-give owner seq to i merchant h = ground (arith, h)

-- Owners are only added: what belonged to a merchant still does.
pub record Grows (owner owner' : ℕ → ℕ) (seq seq' : ℕ) : Type 0 where
  pub keeps : (i merchant : ℕ) → Belongs owner seq i merchant → Belongs owner' seq' i merchant

pub Grows-refl : (owner : ℕ → ℕ) (seq : ℕ) → Grows owner owner seq seq
Grows-refl owner seq = record { keeps = λ i m h. h }

-- The tables after a request, with their owners.
pub record Follows (owner : ℕ → ℕ) (t t' : Tables) : Type 0 where
  pub owner' : ℕ → ℕ
  pub owned : AreOwned owner' t'
  pub grows : Grows owner owner' t.store_seq t'.store_seq

pub unmoved :
    (owner : ℕ → ℕ) (t t' : Tables)
    → t'.stores ≡ t.stores
    → t'.store_seq ≡ t.store_seq
    → t'.gates ≡ t.gates
    → AreOwned owner t
    → Follows owner t t'
unmoved owner t t' s q g h = record {
  owner' = owner;
  owned = record { stores = rw (s, q) h.stores; gates = rw (g, q) h.gates };
  grows = record { keeps = λ i m k. rw q k };
}

insert_store-Follows :
    (owner : ℕ → ℕ) (uuid : String) (i : CreateStoreInput) (t : Tables)
    → AreOwned owner t
    → Follows owner t (or_ignored t (insert_store uuid i t))
unfolding insert_store
insert_store-Follows owner uuid i t h = elim (Bool-cases (store_taken uuid i t)) [
  | inl q ↦ rw (q, insert_store) (unmoved owner t t refl refl refl h)
  | inr q ↦
      let kept = Belongs-give owner t.store_seq i.merchant_id in
      rw (q, insert_store)
        (record {
          owner' = give t.store_seq i.merchant_id owner;
          owned = record {
            stores =
                All-append _ t.stores (new_store t.store_seq uuid i ∷ [])
                  (All-imp _ _ t.stores (λ s. kept s.id s.merchant_id) h.stores) (ground arith, tt);
            gates = All-imp _ _ t.gates (λ g. kept g.store_id g.merchant_id) h.gates;
          };
          grows = record { keeps = kept };
        })
]

create_store-tables :
    (uuid : String) (i : CreateStoreInput) (t : Tables)
    → (create_store uuid i t).0 ≡ or_ignored t (insert_store uuid i t)
unfolding create_store
create_store-tables uuid i t = elim (Option-cases (insert_store uuid i t)) [
  | inl q ↦ rw (q, create_store) refl
  | inr (t', q) ↦ rw (q, create_store) refl
]

insert_brand-Follows :
    (owner : ℕ → ℕ) (uuid : String) (i : CreateBrandInput) (t : Tables)
    → AreOwned owner t
    → Follows owner t (or_ignored t (insert_brand uuid i t))
unfolding insert_brand
insert_brand-Follows owner uuid i t h = elim (Bool-cases (brand_taken uuid i t)) [
  | inl q ↦ rw (q, insert_brand) (unmoved owner t t refl refl refl h)
  | inr q ↦ rw (q, insert_brand) (unmoved owner t _ refl refl refl h)
]

create_brand-tables :
    (uuid : String) (i : CreateBrandInput) (t : Tables)
    → (create_brand uuid i t).0 ≡ or_ignored t (insert_brand uuid i t)
unfolding create_brand
create_brand-tables uuid i t = elim (Option-cases (insert_brand uuid i t)) [
  | inl q ↦ rw (q, create_brand) refl
  | inr (t', q) ↦ rw (q, create_brand) refl
]

-- A store that `getStore` finds for a merchant belongs to the merchant.
pub get_store-Belongs :
    (owner : ℕ → ℕ) (i merchant : ℕ) (t : Tables) (s : Store)
    → AreOwned owner t
    → get_store i merchant t ≡ some s
    → (s.id ≡ i) × Belongs owner t.store_seq i merchant
unfolding get_store
get_store-Belongs owner i merchant t s h q =
    let own =
      first_row-All (λ s. Belongs owner t.store_seq s.id s.merchant_id) _ t.stores s q h.stores in
    let passes = first_row_passes _ t.stores s q in ground (arith, own, passes)

create_gate-Follows :
    (owner : ℕ → ℕ) (i : CreateGateInput) (t : Tables)
    → Belongs owner t.store_seq i.store_id i.merchant_id
    → AreOwned owner t
    → Follows owner t (create_gate i t).0
unfolding create_gate
create_gate-Follows owner i t b h = record {
  owner' = owner;
  owned = record {
    stores = h.stores;
    gates = All-append _ t.gates (new_gate t.gate_seq i ∷ []) h.gates (b, tt);
  };
  grows = record { keeps = λ j m k. k };
}

module _ (owner : ℕ → ℕ) (t : Tables) (h : AreOwned owner t) where
  pub stays : Follows owner t t
  stays = unmoved owner t t refl refl refl h

  pub post_brands-Follows :
      (uuid : String) (merchant : ℕ) (body : BrandBody)
      → Follows owner t (post_brands uuid merchant body t).0
  unfolding post_brands
  post_brands-Follows uuid merchant body = elim (Option-cases (filled body.name)) [
    | inl q ↦ rw (q, post_brands) stays
    | inr (name, q) ↦ elim (Option-cases (filled body.slug)) [
      | inl u ↦ rw (q, u, post_brands) stays
      | inr (slug, u) ↦ elim (Bool-cases (is_slug (codes slug))) [
        | inl v ↦
            rw (q, u, v, post_brands)
              (rw (create_brand-tables uuid _ t) (insert_brand-Follows owner uuid _ t h))
        | inr v ↦ rw (q, u, v, post_brands) stays
      ]
    ]
  ]

  pub post_brand_stores-Follows :
      (uuid : String) (merchant : ℕ) (param : Option ℕ) (body : StoreBody)
      → Follows owner t (post_brand_stores uuid merchant param body t).0
  unfolding post_brand_stores
  post_brand_stores-Follows uuid merchant param body = elim (Option-cases (positive param)) [
    | inl q ↦ rw (q, post_brand_stores) stays
    | inr (i, q) ↦ elim (Option-cases (store_fields body)) [
      | inl u ↦ rw (q, u, post_brand_stores) stays
      | inr (fields, u) ↦ elim (Option-cases (get_brand i merchant t)) [
        | inl v ↦ rw (q, u, v, post_brand_stores) stays
        | inr (b, v) ↦
            rw (q, u, v, post_brand_stores)
              (rw (create_store-tables uuid _ t) (insert_store-Follows owner uuid _ t h))
      ]
    ]
  ]

  pub post_store_gates-Follows :
      (merchant : ℕ) (param : Option ℕ) (body : GateBody)
      → Follows owner t (post_store_gates merchant param body t).0
  unfolding post_store_gates
  post_store_gates-Follows merchant param body = elim (Option-cases (positive param)) [
    | inl q ↦ rw (q, post_store_gates) stays
    | inr (i, q) ↦ elim (Option-cases (gate_fields body)) [
      | inl u ↦ rw (q, u, post_store_gates) stays
      | inr (fields, u) ↦ elim (Option-cases (get_store i merchant t)) [
        | inl v ↦ rw (q, u, v, post_store_gates) stays
        | inr (s, v) ↦
            rw (q, u, v, post_store_gates)
              (create_gate-Follows owner _ t (get_store-Belongs owner i merchant t s h v).1 h)
      ]
    ]
  ]

Follows-trans :
    (owner : ℕ → ℕ) (t t1 t2 : Tables) (f : Follows owner t t1)
    → Follows f.owner' t1 t2
    → Follows owner t t2
Follows-trans owner t t1 t2 f g = record {
  owner' = g.owner';
  owned = g.owned;
  grows = record { keeps = λ i m k. g.grows.keeps i m (f.grows.keeps i m k) };
}

pub provision-Follows :
    (owner : ℕ → ℕ) (t : Tables) (u v : String) (merchant : ℕ) (currency : String)
    → AreOwned owner t
    → Follows owner t (provision_default_hierarchy u v merchant currency t).0
unfolding provision_default_hierarchy
provision-Follows owner t u v merchant currency h =
    let t1 = or_ignored t (insert_brand u (main_brand merchant) t) in
    let f = insert_brand-Follows owner u (main_brand merchant) t h in
    elim (Option-cases (find_main_brand merchant t1.brands)) [
      | inl q ↦ rw (q, provision_default_hierarchy) f
      | inr (b, q) ↦
          let i = main_store merchant b.id currency in
          let t2 = or_ignored t1 (insert_store v i t1) in
          let g = insert_store-Follows f.owner' v i t1 f.owned in
          elim (Option-cases (find_main_store merchant t2.stores)) [
            | inl w ↦
                rw (q, provision_default_hierarchy)
                  (rw (w, provision_default_hierarchy) (Follows-trans owner t t1 t2 f g))
            | inr (s, w) ↦
                rw (q, provision_default_hierarchy)
                  (rw (w, provision_default_hierarchy) (Follows-trans owner t t1 t2 f g))
          ]
    ]
