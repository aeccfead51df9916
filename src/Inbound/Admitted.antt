-- ===== src/Inbound/Admitted.antt =====
-- What the tests of a delivery in src/controllers/webhooks.ts say of the tables and of the delivery.
use edgepay_cf.Prelude.{
  ◌≡◌, ◌≢◌, ◌⊎◌, inl, inr, refl, ◌∙◌, ℕ, String, true, ◌&&◌, List, [], ◌∷◌, none, some, arith,
  Bool-cases, Option-cases, IsIn, IsIn-first, IsIn-next, sym, ap, ◌==◌, str_eq, str_eq_iff,
}
use edgepay_cf.Payments.{Transaction, Gateway}
use edgepay_cf.Inbound.{
  is_payment_done, text_or, extract_transaction_id, find_by_trx, some_cidr, Site, InboundDelivery,
  named_transaction, is_configured, check_origin,
}

-- The event reports a finished payment and carries the reference of a row of the merchant with an intent.
pub record IsNamed (site : Site) (merchant : ℕ) (d : InboundDelivery) (ts : List Transaction)
    (t : Transaction) : Type 0 where
  pub paid : is_payment_done site (text_or d.body.event_type "unknown") ≡ true
  pub reference : extract_transaction_id d.gateway d.body ≡ some t.trx_id
  pub stands : IsIn t ts
  pub owned : site.merchant_of_row t.id ≡ merchant
  pub has_intent : t.payment_intent_id ≢ 0

-- The address is in one of the gateway's ranges, or the gateway has none and the country is not given or
-- one of four.
abbrev pub IsAllowedOrigin : Site → InboundDelivery → List String → Type 0
IsAllowedOrigin site d cidrs =
    ((c : String) × IsIn c cidrs × (site.in_cidr d.client_ip c ≡ true))
    ⊎ ((cidrs ≡ [])
        × ((d.country ≡ none)
            ⊎ ((s : String) × (d.country ≡ some s)
                × ((s ≡ "") ⊎ (s ≡ "BD") ⊎ (s ≡ "AF") ⊎ (s ≡ "SG") ⊎ (s ≡ "US")))))

-- The merchant has a row of the gateway that is active.
abbrev pub HasGateway : String → ℕ → List Gateway → Type 0
HasGateway slug merchant gs =
    (g : Gateway) × IsIn g gs × (g.slug ≡ slug) × (g.merchant_id ≡ merchant) × (g.is_active ≡ true)

find_by_trx_sound :
    (site : Site) (trx : String) (merchant : ℕ) (ts : List Transaction) (t : Transaction)
    → find_by_trx site trx merchant ts ≡ some t
    → IsIn t ts × (t.trx_id ≡ trx) × (site.merchant_of_row t.id ≡ merchant)
find_by_trx_sound site trx merchant [] t h = ground (arith, h)
find_by_trx_sound site trx merchant (u ∷ us) t h =
    elim (Bool-cases (str_eq u.trx_id trx && (site.merchant_of_row u.id == merchant))) [
      | inl q ↦
          let same : u ≡ t = ground (arith, rw q at h) in
          rw (sym same)
            (IsIn-first u us, (str_eq_iff u.trx_id trx).0 (ground (arith, q)), ground (arith, q))
      | inr q ↦
          let k = find_by_trx_sound site trx merchant us t (rw q at h) in
          (IsIn-next t u us k.0, k.1, k.2)
    ]

pub named_transaction-IsNamed :
    (site : Site) (merchant : ℕ) (d : InboundDelivery) (ts : List Transaction) (t : Transaction)
    → named_transaction site merchant d ts ≡ some t
    → IsNamed site merchant d ts t
unfolding named_transaction
named_transaction-IsNamed site merchant d ts t h =
    elim (Bool-cases (is_payment_done site (text_or d.body.event_type "unknown"))) [
      | inr b ↦ ground (arith, rw (b, named_transaction) at h)
      | inl b ↦ elim (Option-cases (extract_transaction_id d.gateway d.body)) [
        | inl e ↦ ground (arith, rw (b, e, named_transaction) at h)
        | inr (trx, e) ↦ elim (Option-cases (find_by_trx site trx merchant ts)) [
          | inl f ↦ ground (arith, rw (b, e, f, named_transaction) at h)
          | inr (u, f) ↦
              let k = rw (b, e, f, named_transaction) at h in
              let same : u ≡ t = ground (arith, k) in
              let positive : u.payment_intent_id ≢ 0 = ground (arith, k) in
              let (stands, reference, owned) =
                rw same at (find_by_trx_sound site trx merchant ts u f) in
              record {
                paid = b;
                reference = e ∙ ap some (sym reference);
                stands = stands;
                owned = owned;
                has_intent = rw same at positive;
              }
        ]
      ]
    ]

some_cidr_sound :
    (site : Site) (ip : String) (cs : List String)
    → some_cidr site ip cs ≡ true
    → (c : String) × IsIn c cs × (site.in_cidr ip c ≡ true)
some_cidr_sound site ip [] h = ground (arith, h)
some_cidr_sound site ip (c ∷ cs) h = elim (Bool-cases (site.in_cidr ip c)) [
  | inl q ↦ (c, IsIn-first c cs, q)
  | inr q ↦
      let (c', k, r) = some_cidr_sound site ip cs (ground (arith, q, h)) in
      (c', IsIn-next c' c cs k, r)
]

pub check_origin_sound :
    (site : Site) (d : InboundDelivery) (cidrs : List String)
    → check_origin site d cidrs ≡ none
    → IsAllowedOrigin site d cidrs
unfolding check_origin
check_origin_sound site d (c ∷ cs) h =
    inl (some_cidr_sound site d.client_ip (c ∷ cs) (ground (arith, h)))
check_origin_sound site d [] h = elim (Option-cases d.country) [
  | inl q ↦ inr (refl, inl q)
  | inr (s, q) ↦ inr (
    refl,
    inr (
      s,
      q,
      ground (
        arith,
        rw q at h,
        str_eq_iff s "",
        str_eq_iff s "BD",
        str_eq_iff s "AF",
        str_eq_iff s "SG",
        str_eq_iff s "US",
      ),
    ),
  )
]

pub is_configured_sound :
    (slug : String) (merchant : ℕ) (gs : List Gateway)
    → is_configured slug merchant gs ≡ true
    → HasGateway slug merchant gs
is_configured_sound slug merchant [] h = ground (arith, h)
is_configured_sound slug merchant (g ∷ gs) h =
    elim (Bool-cases (str_eq g.slug slug && (g.merchant_id == merchant) && g.is_active)) [
      | inl q ↦ (
        g,
        IsIn-first g gs,
        (str_eq_iff g.slug slug).0 (ground (arith, q)),
        ground (arith, q),
        ground (arith, q),
      )
      | inr q ↦
          let k = is_configured_sound slug merchant gs (ground (arith, q, h)) in
          (k.0, IsIn-next k.0 g gs k.1, k.2, k.3, k.4)
    ]
