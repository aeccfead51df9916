-- ===== src/Sms/Corroborated.antt =====
-- When an SMS confirms an order (src/services/sms-corroboration.ts).
use edgepay_cf.Prelude.{
  ◌≡◌, ◌↔◌, inl, inr, refl, sym, ◌∙◌, ap, String, Bool, true, false, ◌&&◌, List, [], ◌∷◌, keep,
  Option, some, arith, Bool-cases, Option-cases,
}
use edgepay_cf.Money.{Decimals}
use edgepay_cf.Sms.{
  SmsExtraction, OpenOrderCandidate, GatewaySource, confirm, Texts, given, is_parsed, has_amount,
  has_currency, has_trx, conflicts, first_of, or_unknown, source_of, resolve_gateway,
  settle_matched, match_trx, match_currency, match_orders, corroborate_sms_payment,
}

keep-keep :
    (p q : OpenOrderCandidate → Bool) (os : List OpenOrderCandidate)
    → keep q (keep p os) ≡ keep (λ o. p o && q o) os
keep-keep p q [] = refl
keep-keep p q (o ∷ os) = elim (Bool-cases (p o)) [
  | inl u ↦ ground (arith, u, keep-keep p q os)
  | inr u ↦ ground (arith, u, keep-keep p q os)
]

module _ (d : Decimals) (t : Texts) where
  -- The order has the amount, the currency where there is one, and the customer's transaction id.
  abbrev pub matches : String → Option String → String → OpenOrderCandidate → Bool
  matches amount currency trx o =
      has_amount d t amount o && (has_currency d t currency o && has_trx d t trx o)

  -- The SMS has an amount and an id, this order is the only one that matches both, and the sender is not
  -- of another gateway.
  pub record IsCorroborated (e : SmsExtraction) (orders : List OpenOrderCandidate)
      (verified : Option String) (o : OpenOrderCandidate) : Type 0 where
    pub parsed : is_parsed e.parser ≡ true
    pub amount : String
    pub trx : String
    pub has_amount : given e.amount ≡ some amount
    pub has_trx : given e.trx_id ≡ some trx
    pub only : keep (matches amount (given e.currency) trx) orders ≡ o ∷ []
    pub agrees : conflicts d t (given verified) (given o.gateway_slug) ≡ false

  -- The three filters, one after the other.
  abbrev filtered :
      String → Option String → String → List OpenOrderCandidate → List OpenOrderCandidate
  filtered amount currency trx os =
      keep (has_trx d t trx) (keep (has_currency d t currency) (keep (has_amount d t amount) os))

  filtered-matches :
      (amount : String) (currency : Option String) (trx : String) (os : List OpenOrderCandidate)
      → filtered amount currency trx os ≡ keep (matches amount currency trx) os
  filtered-matches amount currency trx os =
      keep-keep (has_currency d t currency) (has_trx d t trx) (keep (has_amount d t amount) os)
      ∙ keep-keep (has_amount d t amount) (λ o. has_currency d t currency o && has_trx d t trx o) os

  module _ (v guess : Option String) (trx : String) (o : OpenOrderCandidate) where
    -- Each stage confirms the order exactly when the filters that are left leave it alone.
    settled :
        (g : String) (s : GatewaySource) (os : List OpenOrderCandidate)
        → settle_matched d t v guess os ≡ confirm o g s
        → (os ≡ o ∷ []) × (conflicts d t (given v) (given o.gateway_slug) ≡ false)
    unfolding settle_matched resolve_gateway
    settled g s [] h = ground (arith, h)
    settled g s (p ∷ []) h = elim (Bool-cases (conflicts d t (given v) (given p.gateway_slug))) [
      | inl q ↦ ground (arith, rw (q, resolve_gateway) at h)
      | inr q ↦ ground (arith, rw (q, resolve_gateway) at h, q)
    ]
    settled g s (p ∷ r ∷ os) h = ground (arith, h)

    trx_matched :
        (g : String) (s : GatewaySource) (os : List OpenOrderCandidate)
        → match_trx d t v guess trx os ≡ confirm o g s
        → (keep (has_trx d t trx) os ≡ o ∷ [])
          × (conflicts d t (given v) (given o.gateway_slug) ≡ false)
    unfolding match_trx
    trx_matched g s [] h = ground (arith, h)
    trx_matched g s (p ∷ os) h = settled g s (keep (has_trx d t trx) (p ∷ os)) h

    currency_matched :
        (currency : Option String) (g : String) (s : GatewaySource) (os : List OpenOrderCandidate)
        → match_currency d t v guess trx currency os ≡ confirm o g s
        → (keep (has_trx d t trx) (keep (has_currency d t currency) os) ≡ o ∷ [])
          × (conflicts d t (given v) (given o.gateway_slug) ≡ false)
    unfolding match_currency
    currency_matched currency g s [] h = ground (arith, h)
    currency_matched currency g s (p ∷ os) h =
        trx_matched g s (keep (has_currency d t currency) (p ∷ os)) h

    orders_matched :
        (currency : Option String) (amount g : String) (s : GatewaySource)
        (os : List OpenOrderCandidate)
        → match_orders d t v guess trx currency amount os ≡ confirm o g s
        → (filtered amount currency trx os ≡ o ∷ [])
          × (conflicts d t (given v) (given o.gateway_slug) ≡ false)
    unfolding match_orders
    orders_matched currency amount g s [] h = ground (arith, h)
    orders_matched currency amount g s (p ∷ os) h =
        currency_matched currency g s (keep (has_amount d t amount) (p ∷ os)) h

    -- The other way: a filter that leaves an order had one to begin with.
    settle_found :
        (os : List OpenOrderCandidate)
        → keep (has_trx d t trx) os ≡ o ∷ []
        → match_trx d t v guess trx os ≡ resolve_gateway d t v guess o
    unfolding match_trx settle_matched
    settle_found [] h = ground (arith, h)
    settle_found (p ∷ os) h = ap (settle_matched d t v guess) h

    currency_found :
        (currency : Option String) (os : List OpenOrderCandidate)
        → keep (has_trx d t trx) (keep (has_currency d t currency) os) ≡ o ∷ []
        → match_currency d t v guess trx currency os ≡ resolve_gateway d t v guess o
    unfolding match_currency
    currency_found currency [] h = ground (arith, h)
    currency_found currency (p ∷ os) h = settle_found (keep (has_currency d t currency) (p ∷ os)) h

    orders_found :
        (currency : Option String) (amount : String) (os : List OpenOrderCandidate)
        → filtered amount currency trx os ≡ o ∷ []
        → match_orders d t v guess trx currency amount os ≡ resolve_gateway d t v guess o
    unfolding match_orders
    orders_found currency amount [] h = ground (arith, h)
    orders_found currency amount (p ∷ os) h =
        currency_found currency (keep (has_amount d t amount) (p ∷ os)) h

  -- An SMS confirms an order exactly when it has an amount and an id, the order is the only open one that
  -- matches the amount, the currency if any and the id, and the sender does not conflict with it.
  pub corroborate-IsCorroborated :
      (e : SmsExtraction) (orders : List OpenOrderCandidate) (v : Option String)
      (o : OpenOrderCandidate)
      → ((g : String) × (s : GatewaySource) × (corroborate_sms_payment d t e orders v
            ≡ confirm o g s))
        ↔ IsCorroborated e orders v o
  unfolding corroborate_sms_payment resolve_gateway
  corroborate-IsCorroborated e orders v o = (sound, complete)
    where
      sound :
          (g : String) × (s : GatewaySource) × (corroborate_sms_payment d t e orders v
              ≡ confirm o g s)
          → IsCorroborated e orders v o
      sound (g, s, h) = elim (Bool-cases (is_parsed e.parser)) [
        | inr q ↦ ground (arith, rw (q, corroborate_sms_payment) at h)
        | inl q ↦ elim (Option-cases (given e.amount)) [
          | inl a ↦ ground (arith, rw (q, a, corroborate_sms_payment) at h)
          | inr (amount, a) ↦ elim (Option-cases (given e.trx_id)) [
            | inl k ↦ ground (arith, rw (q, a, k, corroborate_sms_payment) at h)
            | inr (trx, k) ↦
                let (only, agrees) =
                  orders_matched v e.gateway_slug trx o (given e.currency) amount g s orders
                    (rw (q, a, k, corroborate_sms_payment) at h) in
                record {
                  parsed = q;
                  amount = amount;
                  trx = trx;
                  has_amount = a;
                  has_trx = k;
                  only = sym (filtered-matches amount (given e.currency) trx orders) ∙ only;
                  agrees = agrees;
                }
          ]
        ]
      ]

      complete :
          IsCorroborated e orders v o
          → (g : String) × (s : GatewaySource) × (corroborate_sms_payment d t e orders v
              ≡ confirm o g s)
      complete c =
          let found =
            orders_found v e.gateway_slug c.trx o (given e.currency) c.amount orders
              (filtered-matches c.amount (given e.currency) c.trx orders ∙ c.only) in
          (
            or_unknown d t (first_of d t (first_of d t v e.gateway_slug) o.gateway_slug),
            source_of d t (given v),
            rw (c.parsed, c.has_amount, c.has_trx, corroborate_sms_payment)
                (found ∙ rw (c.agrees, resolve_gateway) refl),
          )
