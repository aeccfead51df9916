-- ===== src/Hierarchy/Provision.antt =====
-- `provisionDefaultHierarchy` of src/services/hierarchy.ts, when it is called again.
use edgepay_cf.Prelude.{
  ◌≡◌, inl, inr, refl, sym, ap, ◌∙◌, ℕ, String, Bool, true, false, List, [], ◌∷◌, ◌++◌, some, All,
  All-imp, arith, Bool-cases, Option-cases, str_eq, str_eq_refl,
}
use edgepay_cf.Hierarchy.{
  Brand, Store, Tables, HierarchyIds, first_row, is_found, brand_taken, store_taken, insert_brand,
  insert_store, or_ignored, main_brand, main_store, find_main_brand, find_main_store,
  provision_default_hierarchy,
}

found_imp :
    {A : Type 0} (p q : A → Bool) (xs : List A)
    → All (λ x. p x ≡ true → q x ≡ true) xs
    → is_found (first_row p xs) ≡ true
    → is_found (first_row q xs) ≡ true
found_imp p q [] h f = f
found_imp p q (x ∷ xs) h f = elim (Bool-cases (p x)) [
  | inl u ↦ rw (h.0 u) refl
  | inr u ↦
      let rest = found_imp p q xs h.1 (rw u at f) in
      elim (Bool-cases (q x)) [ inl v ↦ rw v refl | inr v ↦ rw v rest ]
]

found_last :
    {A : Type 0} (p : A → Bool) (xs : List A) (x : A)
    → p x ≡ true
    → is_found (first_row p (xs ++ (x ∷ []))) ≡ true
found_last p [] x h = rw h refl
found_last p (y ∷ ys) x h = elim (Bool-cases (p y)) [
  | inl u ↦ rw u refl
  | inr u ↦ rw u (found_last p ys x h)
]

brand_then_taken :
    (u w : String) (merchant : ℕ) (t : Tables)
    → All (λ b. str_eq b.uuid u ≡ false) t.brands
    → brand_taken w (main_brand merchant) (or_ignored t (insert_brand u (main_brand merchant) t))
      ≡ true
unfolding insert_brand
brand_then_taken u w merchant t fresh = elim (Bool-cases (brand_taken u (main_brand merchant) t)) [
  | inl q ↦
      rw (q, insert_brand)
        (found_imp _ _ t.brands (All-imp _ _ t.brands (λ b f g. ground (arith, f, g)) fresh) q)
  | inr q ↦ rw (q, insert_brand) (found_last _ t.brands _ (ground (arith, str_eq_refl "main")))
]

store_then_taken :
    (v w : String) (merchant brand : ℕ) (currency currency' : String) (t : Tables)
    → All (λ s. str_eq s.uuid v ≡ false) t.stores
    → store_taken w
        (main_store merchant brand currency')
        (or_ignored t (insert_store v (main_store merchant brand currency) t))
      ≡ true
unfolding insert_store
store_then_taken v w merchant brand currency currency' t fresh =
    elim (Bool-cases (store_taken v (main_store merchant brand currency) t)) [
      | inl q ↦
          rw (q, insert_store)
            (found_imp _ _ t.stores (All-imp _ _ t.stores (λ s f g. ground (arith, f, g)) fresh) q)
      | inr q ↦ rw (q, insert_store) (found_last _ t.stores _ (ground (arith, str_eq_refl "main")))
    ]

insert_brand-stores :
    (u : String) (merchant : ℕ) (t : Tables)
    → (or_ignored t (insert_brand u (main_brand merchant) t)).stores ≡ t.stores
unfolding insert_brand
insert_brand-stores u merchant t = ground arith

insert_store-brands :
    (v : String) (merchant brand : ℕ) (currency : String) (t : Tables)
    → (or_ignored t (insert_store v (main_store merchant brand currency) t)).brands ≡ t.brands
unfolding insert_store
insert_store-brands v merchant brand currency t = ground arith

ignored_brand :
    (u : String) (merchant : ℕ) (t : Tables)
    → brand_taken u (main_brand merchant) t ≡ true
    → or_ignored t (insert_brand u (main_brand merchant) t) ≡ t
unfolding insert_brand
ignored_brand u merchant t h = rw (h, insert_brand) refl

ignored_store :
    (v : String) (merchant brand : ℕ) (currency : String) (t : Tables)
    → store_taken v (main_store merchant brand currency) t ≡ true
    → or_ignored t (insert_store v (main_store merchant brand currency) t) ≡ t
unfolding insert_store
ignored_store v merchant brand currency t h = rw (h, insert_store) refl

provision_steps :
    (u v : String) (merchant : ℕ) (currency : String) (t : Tables) (b : Brand) (s : Store)
    → let t1 = or_ignored t (insert_brand u (main_brand merchant) t) in
      let t2 = or_ignored t1 (insert_store v (main_store merchant b.id currency) t1) in
      find_main_brand merchant t1.brands ≡ some b
      → find_main_store merchant t2.stores ≡ some s
      → provision_default_hierarchy u v merchant currency t
        ≡ (t2, some (record { brand_id = b.id; store_id = s.id }))
unfolding provision_default_hierarchy
provision_steps u v merchant currency t b s f g =
    rw (f, provision_default_hierarchy) (rw (g, provision_default_hierarchy) refl)

-- When both inserts are refused, nothing changes and the answer is what the tables hold.
provision_held :
    (u v : String) (merchant : ℕ) (currency : String) (t : Tables) (b : Brand) (s : Store)
    → brand_taken u (main_brand merchant) t ≡ true
    → find_main_brand merchant t.brands ≡ some b
    → store_taken v (main_store merchant b.id currency) t ≡ true
    → find_main_store merchant t.stores ≡ some s
    → provision_default_hierarchy u v merchant currency t
      ≡ (t, some (record { brand_id = b.id; store_id = s.id }))
provision_held u v merchant currency t b s hb f hs g =
    let i = main_store merchant b.id currency in
    let e1 : or_ignored t (insert_brand u (main_brand merchant) t) ≡ t =
      ignored_brand u merchant t hb in
    let e2 : or_ignored t (insert_store v i t) ≡ t = ignored_store v merchant b.id currency t hs in
    let both : (let t1 = or_ignored t (insert_brand u (main_brand merchant) t) in
          or_ignored t1 (insert_store v i t1))
        ≡ t =
      ap (λ x. or_ignored x (insert_store v i x)) e1 ∙ e2 in
    provision_steps u v merchant currency t b s (rw e1 f) (rw both g)
    ∙ ap (λ x. (x, some (record { brand_id = b.id; store_id = s.id }))) both

provision-returns :
    (u v : String) (merchant : ℕ) (currency : String) (t : Tables) (ids : HierarchyIds)
    → (provision_default_hierarchy u v merchant currency t).1 ≡ some ids
    → let t1 = or_ignored t (insert_brand u (main_brand merchant) t) in
      (b : Brand) × (s : Store) × (find_main_brand merchant t1.brands ≡ some b)
      × (find_main_store merchant
            (or_ignored t1 (insert_store v (main_store merchant b.id currency) t1)).stores
          ≡ some s)
unfolding provision_default_hierarchy
provision-returns u v merchant currency t ids q =
    let t1 = or_ignored t (insert_brand u (main_brand merchant) t) in
    elim (Option-cases (find_main_brand merchant t1.brands)) [
      | inl f ↦ ground (arith, rw (f, provision_default_hierarchy) at q)
      | inr (b, f) ↦
          let t2 = or_ignored t1 (insert_store v (main_store merchant b.id currency) t1) in
          elim (Option-cases (find_main_store merchant t2.stores)) [
            | inl g ↦
                let q' = rw (f, provision_default_hierarchy) at q in
                ground (arith, rw (g, provision_default_hierarchy) at q')
            | inr (s, g) ↦ (b, s, f, g)
          ]
    ]

-- A call that returned, with random ids that no row had, can be repeated: with any ids and any
-- currency the second call answers the same brand and store, and changes nothing.
pub provision_again :
    (u v u' v' : String) (merchant : ℕ) (currency currency' : String) (t : Tables)
    (ids : HierarchyIds)
    → All (λ b. str_eq b.uuid u ≡ false) t.brands
    → All (λ s. str_eq s.uuid v ≡ false) t.stores
    → (provision_default_hierarchy u v merchant currency t).1 ≡ some ids
    → let t' = (provision_default_hierarchy u v merchant currency t).0 in
      provision_default_hierarchy u' v' merchant currency' t' ≡ (t', some ids)
provision_again u v u' v' merchant currency currency' t ids hb hs q =
    let (b, s, f, g) = provision-returns u v merchant currency t ids q in
    let t1 = or_ignored t (insert_brand u (main_brand merchant) t) in
    let t2 = or_ignored t1 (insert_store v (main_store merchant b.id currency) t1) in
    let run = provision_steps u v merchant currency t b s f g in
    let same : t2.brands ≡ t1.brands = insert_store-brands v merchant b.id currency t1 in
    let brand_held : brand_taken u' (main_brand merchant) t2 ≡ true =
      rw same (brand_then_taken u u' merchant t hb) in
    let store_held =
      store_then_taken v v' merchant b.id currency currency' t1
        (rw (insert_brand-stores u merchant t) hs) in
    let again =
      provision_held u' v' merchant currency' t2 b s brand_held (rw same f) store_held g in
    rw run (again ∙ ap (λ i. (t2, i)) (sym (ap (λ r. r.1) run) ∙ q))
