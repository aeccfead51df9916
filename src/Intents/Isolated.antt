-- ===== src/Intents/Isolated.antt =====
-- Every gate and every intent names a store of its own merchant: src/services/payment.ts and
-- src/services/hierarchy.ts behind the routes.
use edgepay_cf.Prelude.{
  ◌≡◌, ◌⊎◌, inl, inr, refl, ℕ, Bool, List, [], ◌∷◌, Option, none, some, All, All-append, All-imp,
  arith, Bool-cases, Option-cases, ◌==◌,
}
use edgepay_cf.Hierarchy.{Gate, Tables, first_row}
use edgepay_cf.Hierarchy.Gates.{get_gate, resolve_default_gate, has_main_store}
use edgepay_cf.Hierarchy.Api.{positive}
use edgepay_cf.Hierarchy.Owned.{
  first_row-All, first_row_passes, Belongs, AreOwned, Follows, unmoved, post_brands-Follows,
  post_brand_stores-Follows, post_store_gates-Follows, provision-Follows,
}
use edgepay_cf.Intents.{
  IntentDb, IntentCall, CreateIntentInput, IntentError, IntentOutcome, returns, throws, Route,
  fits_currency, route_by_gate, route_by_gateway, named_gateway, default_gateway, resolve_route,
  create_intent, new_intent,
}
use edgepay_cf.Intents.Requests.{
  MerchantRequest, brand, store, gate, provision, intent, serve, serve_all, with_tables,
}

-- A store that is named is the merchant's.
abbrev pub Placed : (ℕ → ℕ) → ℕ → ℕ → Option ℕ → Type 0
Placed owner seq merchant none = Unit
Placed owner seq merchant (some i) = Belongs owner seq i merchant

pub record AreIsolated (owner : ℕ → ℕ) (db : IntentDb) : Type 0 where
  pub tables : AreOwned owner db.tables
  pub intents : All (λ n. Placed owner db.tables.store_seq n.merchant_id n.store_id) db.intents

Placed-Follows :
    (owner : ℕ → ℕ) (t t' : Tables) (f : Follows owner t t') (merchant : ℕ) (o : Option ℕ)
    → Placed owner t.store_seq merchant o
    → Placed f.owner' t'.store_seq merchant o
Placed-Follows owner t t' f merchant none h = tt
Placed-Follows owner t t' f merchant (some i) h = f.grows.keeps i merchant h

module _ (owner : ℕ → ℕ) (t : Tables) (h : AreOwned owner t) where
  gate-Belongs :
      (p : Gate → Bool) (g : Gate)
      → first_row p t.gates ≡ some g
      → Belongs owner t.store_seq g.store_id g.merchant_id
  gate-Belongs p g q =
      first_row-All (λ g. Belongs owner t.store_seq g.store_id g.merchant_id) p t.gates g q h.gates

  route_by_gate-Placed :
      (c : IntentCall) (i : CreateIntentInput) (k : ℕ) (r : Route)
      → route_by_gate c i k t ≡ returns r
      → Placed owner t.store_seq i.merchant_id r.store
  unfolding route_by_gate get_gate
  route_by_gate-Placed c i k r q = elim (Option-cases (get_gate k i.merchant_id t)) [
    | inl u ↦ ground (arith, rw (u, route_by_gate) at q)
    | inr (g, u) ↦
        let own = gate-Belongs _ g u in
        let passes = first_row_passes _ t.gates g u in
        let placed : Belongs owner t.store_seq g.store_id i.merchant_id =
          ground (arith, own, passes) in
        elim (Bool-cases (fits_currency c i g)) [
          | inl b ↦
              let same : r.store ≡ some g.store_id =
                ground (arith, rw (u, b, route_by_gate) at q) in
              rw same placed
          | inr b ↦ ground (arith, rw (u, b, route_by_gate) at q)
        ]
  ]

  route_by_gateway-Placed :
      (i : CreateIntentInput) (k : ℕ)
      → Placed owner t.store_seq i.merchant_id (route_by_gateway i k t).store
  unfolding route_by_gateway resolve_default_gate
  route_by_gateway-Placed i k = elim (Bool-cases (k == 0)) [
    | inl z ↦ rw (z, route_by_gateway) tt
    | inr z ↦ elim (Option-cases (resolve_default_gate i.merchant_id k t)) [
      | inl u ↦ rw (z, u, route_by_gateway) tt
      | inr (g, u) ↦ elim (Bool-cases (has_main_store i.merchant_id t)) [
        | inr v ↦ ground (arith, rw (v, resolve_default_gate) at u)
        | inl v ↦
            let w = rw (v, resolve_default_gate) at u in
            let own = gate-Belongs _ g w in
            let passes = first_row_passes _ t.gates g w in
            let placed : Belongs owner t.store_seq g.store_id i.merchant_id =
              ground (arith, own, passes) in
            rw (z, u, route_by_gateway) placed
      ]
    ]
  ]

default_gateway-same :
    (merchant : ℕ) (t : Tables)
    → let t' = (default_gateway merchant t).0 in
      (t'.stores ≡ t.stores) × (t'.store_seq ≡ t.store_seq) × (t'.gates ≡ t.gates)
unfolding default_gateway
default_gateway-same merchant t =
    elim (Option-cases (first_row (λ g. g.merchant_id == merchant) t.gateways)) [
      | inl q ↦ rw (q, default_gateway) (refl, refl, refl)
      | inr (g, q) ↦ rw (q, default_gateway) (refl, refl, refl)
    ]

IntentOutcome-cases {ℓ} :
    {A : Type ℓ} (o : IntentOutcome A)
    → ((a : A) × (o ≡ returns a)) ⊎ ((e : IntentError) × (o ≡ throws e))
IntentOutcome-cases (returns a) = inl (a, refl)
IntentOutcome-cases (throws e) = inr (e, refl)

-- What the route of an intent leaves: tables that are still owned, and a store of the merchant's.
record Routed (owner : ℕ → ℕ) (merchant : ℕ) (t t' : Tables) (o : IntentOutcome Route)
    : Type 0 where
  follows : Follows owner t t'
  placed : (r : Route) → o ≡ returns r → Placed follows.owner' t'.store_seq merchant r.store

resolve_route-Routed :
    (owner : ℕ → ℕ) (c : IntentCall) (i : CreateIntentInput) (t : Tables)
    → AreOwned owner t
    → let run = resolve_route c i t in Routed owner i.merchant_id t run.0 run.1
unfolding resolve_route
resolve_route-Routed owner c i t h =
    let still = unmoved owner t t refl refl refl h in
    elim (Option-cases (positive i.gate_id)) [
      | inr (k, q) ↦
          rw (q, resolve_route)
            (record {
              follows = still;
              placed = route_by_gate-Placed still.owner' t still.owned c i k;
            })
      | inl q ↦ elim (IntentOutcome-cases (named_gateway c i t)) [
        | inr (e, u) ↦
            rw (q, u, resolve_route) (record { follows = still; placed = λ r v. ground (arith, v) })
        | inl (o, u) ↦ elim (Option-cases o) [
          | inr (n, w) ↦
              rw (q, rw w at u, resolve_route)
                (record {
                  follows = still;
                  placed = λ r v.
                      let same : route_by_gateway i n t ≡ r = ground (arith, v) in
                      rw same at (route_by_gateway-Placed still.owner' t still.owned i n);
                })
          | inl w ↦
              let (t', n) = default_gateway i.merchant_id t in
              let (a, b, g) = default_gateway-same i.merchant_id t in
              let moved = unmoved owner t t' a b g h in
              rw (q, rw w at u, resolve_route)
                (record {
                  follows = moved;
                  placed = λ r v.
                      let same : route_by_gateway i n t' ≡ r = ground (arith, v) in
                      rw same at (route_by_gateway-Placed moved.owner' t' moved.owned i n);
                })
        ]
      ]
    ]

-- A database whose stores have owners that the gates and the intents agree with.
pub record IsIsolated (db : IntentDb) : Type 0 where
  pub owner : ℕ → ℕ
  pub isolated : AreIsolated owner db

with_tables-IsIsolated :
    (db : IntentDb) (h : IsIsolated db) (t : Tables)
    → Follows h.owner db.tables t
    → IsIsolated (with_tables db t)
with_tables-IsIsolated db h t f = record {
  owner = f.owner';
  isolated = record {
    tables = f.owned;
    intents =
        All-imp _ _ db.intents (λ n. Placed-Follows h.owner db.tables t f n.merchant_id n.store_id)
          h.isolated.intents;
  };
}

create_intent-IsIsolated :
    (c : IntentCall) (i : CreateIntentInput) (db : IntentDb)
    → IsIsolated db
    → IsIsolated (create_intent c i db).0
unfolding create_intent
create_intent-IsIsolated c i db h = elim (Bool-cases (c.decimals.is_zero i.amount)) [
  | inl z ↦ rw (z, create_intent) h
  | inr z ↦
      let run = resolve_route c i db.tables in
      let routed = resolve_route-Routed h.owner c i db.tables h.isolated.tables in
      let moved = with_tables-IsIsolated db h run.0 routed.follows in
      elim (IntentOutcome-cases run.1) [
        | inr (e, q) ↦ rw (z, q, create_intent) moved
        | inl (r, q) ↦
            rw (z, q, create_intent)
              (record {
                owner = routed.follows.owner';
                isolated = record {
                  tables = routed.follows.owned;
                  intents =
                      All-append _ db.intents (new_intent c i db.intent_seq r ∷ [])
                        (All-imp _ _ db.intents
                          (λ n.
                            Placed-Follows h.owner db.tables run.0 routed.follows n.merchant_id
                              n.store_id)
                          h.isolated.intents)
                        (routed.placed r q, tt);
                };
              })
      ]
]

serve-IsIsolated : (r : MerchantRequest) (db : IntentDb) → IsIsolated db → IsIsolated (serve r db)
unfolding serve
serve-IsIsolated (brand uuid m body) db h =
    with_tables-IsIsolated db h _
      (post_brands-Follows h.owner db.tables h.isolated.tables uuid m body)
serve-IsIsolated (store uuid m param body) db h =
    with_tables-IsIsolated db h _
      (post_brand_stores-Follows h.owner db.tables h.isolated.tables uuid m param body)
serve-IsIsolated (gate m param body) db h =
    with_tables-IsIsolated db h _
      (post_store_gates-Follows h.owner db.tables h.isolated.tables m param body)
serve-IsIsolated (provision u v m currency) db h =
    with_tables-IsIsolated db h _
      (provision-Follows h.owner db.tables u v m currency h.isolated.tables)
serve-IsIsolated (intent c i) db h = create_intent-IsIsolated c i db h

pub serve_all-IsIsolated :
    (rs : List MerchantRequest) (db : IntentDb) → IsIsolated db → IsIsolated (serve_all rs db)
unfolding serve_all
serve_all-IsIsolated [] db h = h
serve_all-IsIsolated (r ∷ rs) db h = serve_all-IsIsolated rs (serve r db) (serve-IsIsolated r db h)
