-- ===== src/Inbound/Taken.antt =====
-- What a delivery must bring to complete a payment, and what comes of an event that was recorded:
-- src/controllers/webhooks.ts.
use edgepay_cf.Prelude.{
  ◌≡◌, ◌≢◌, ◌⊎◌, inl, inr, refl, ◌∙◌, ℕ, String, Bool, true, false, ◌&&◌, List, [], ◌∷◌, some,
  arith, Bool-cases, Option-cases, str_eq_refl,
}
use edgepay_cf.Posting.{Call}
use edgepay_cf.Payments.{Transaction, PaymentFailure, complete_transaction}
use edgepay_cf.Inbound.Admitted.{
  IsNamed, IsAllowedOrigin, HasGateway, named_transaction-IsNamed, check_origin_sound,
  is_configured_sound,
}
use edgepay_cf.Inbound.Recorded.{receive_all, receive_all_stays}
use edgepay_cf.Inbound.{
  Inbox, Site, InboundDelivery, throws, has_webhook_event, event_id_of, named_transaction,
  is_configured, merchant_for, load_gateway_ip_allowlist, check_origin, process_event,
  after_signature, receive_for, receive,
}

-- The delivery may complete a transaction: its gateway is enabled and set up for the merchant, its
-- origin is allowed, its signature is right, its event is new and names the merchant's transaction, which
-- is the one that is found.
pub record IsAdmitted (site : Site) (d : InboundDelivery) (x : Inbox) (merchant : ℕ)
    (t : Transaction) : Type 0 where
  pub enabled : site.is_enabled d.gateway ≡ true
  pub merchant_is : merchant_for site d ≡ some merchant
  pub configured : HasGateway d.gateway merchant x.shop.gateways
  pub origin :
      IsAllowedOrigin site d (load_gateway_ip_allowlist site d.now d.gateway x.allowlists).0
  pub verified : d.is_verified ≡ true
  pub unseen : has_webhook_event merchant d.gateway (event_id_of d) x.events ≡ false
  pub named : IsNamed site merchant d x.shop.transactions t
  pub found : named_transaction site merchant d x.shop.transactions ≡ some t

-- What a delivery does to the shop: nothing, or the completion of the transaction that it names.
pub data Received (site : Site) (c : Call) (d : InboundDelivery) (x : Inbox) (x' : Inbox)
    : Type 0 where
  untouched : x'.shop ≡ x.shop → Received site c d x x'
  completes :
      (merchant : ℕ) (t : Transaction)
      → IsAdmitted site d x merchant t
      → x'.shop ≡ (complete_transaction c t.id t.payment_intent_id (event_id_of d) x.shop).0
      → Received site c d x x'

-- A verified event, when it is processed.
record IsNew (site : Site) (merchant : ℕ) (d : InboundDelivery) (x : Inbox) (t : Transaction)
    : Type 0 where
  unseen : has_webhook_event merchant d.gateway (event_id_of d) x.events ≡ false
  named : named_transaction site merchant d x.shop.transactions ≡ some t

process_event-shop :
    (site : Site) (c : Call) (merchant : ℕ) (d : InboundDelivery) (x : Inbox)
    → let x' = (process_event site c merchant d x).0 in
      (x'.shop ≡ x.shop)
      ⊎ ((t : Transaction) × IsNew site merchant d x t
          × (x'.shop ≡ (complete_transaction c t.id t.payment_intent_id (event_id_of d) x.shop).0))
unfolding process_event
process_event-shop site c merchant d x =
    elim (Bool-cases (has_webhook_event merchant d.gateway (event_id_of d) x.events)) [
      | inl q ↦ rw (q, process_event) (inl refl)
      | inr q ↦ elim (Option-cases (named_transaction site merchant d x.shop.transactions)) [
        | inl n ↦ rw (q, n, process_event) (inl refl)
        | inr (t, n) ↦ rw (q, n, process_event) (inr (t, record { unseen = q; named = n }, refl))
      ]
    ]

after_signature-shop :
    (site : Site) (c : Call) (merchant : ℕ) (d : InboundDelivery) (x : Inbox) (b : Bool)
    → let x' = (after_signature b site c merchant d x).0 in
      (x'.shop ≡ x.shop)
      ⊎ ((t : Transaction) × (b ≡ true)
          × IsNew site merchant d x t
          × (x'.shop ≡ (complete_transaction c t.id t.payment_intent_id (event_id_of d) x.shop).0))
unfolding after_signature
after_signature-shop site c merchant d x false = inl refl
after_signature-shop site c merchant d x true = elim (process_event-shop site c merchant d x) [
  | inl same ↦ inl same
  | inr (t, n, done) ↦ inr (t, refl, n, done)
]

-- A delivery leaves the payments and the books as they are, or it is admitted in every respect, and all
-- it does to them is to complete the transaction that it names: its gateway is enabled and active for
-- the merchant, its address is in the gateway's ranges (or its country allowed, where there are none),
-- its signature is right, its event is new, and the transaction is the merchant's and has the
-- reference that the event carries.
pub receive-Received :
    (site : Site) (c : Call) (d : InboundDelivery) (x : Inbox)
    → Received site c d x (receive site c d x).0
unfolding receive receive_for
receive-Received site c d x =
    elim (Bool-cases (site.is_registered d.gateway && site.is_enabled d.gateway)) [
      | inr q ↦ rw (q, receive) (untouched refl)
      | inl q ↦ elim (Option-cases (merchant_for site d)) [
        | inl m ↦ rw (q, m, receive) (untouched refl)
        | inr (merchant, m) ↦ elim (Bool-cases (is_configured d.gateway merchant x.shop.gateways)) [
          | inr g ↦ rw (q, m, receive) (rw (g, receive_for) (untouched refl))
          | inl g ↦
              let (cidrs, cache) = load_gateway_ip_allowlist site d.now d.gateway x.allowlists in
              rw (q, m, receive)
                (elim (Option-cases (check_origin site d cidrs)) [
                  | inr (a, o) ↦ rw (g, receive_for) (rw (o, receive_for) (untouched refl))
                  | inl o ↦
                      rw (g, receive_for)
                        (rw (o, receive_for)
                          (elim (after_signature-shop site c merchant d
                            (record x { allowlists = cache }) d.is_verified) [
                              | inl same ↦ untouched same
                              | inr (t, v, n, done) ↦
                                  completes merchant t
                                    (record {
                                      enabled = ground (arith, q);
                                      merchant_is = m;
                                      configured =
                                          is_configured_sound d.gateway merchant x.shop.gateways g;
                                      origin = check_origin_sound site d cidrs o;
                                      verified = v;
                                      unseen = n.unseen;
                                      named = named_transaction-IsNamed site merchant d _ t n.named;
                                      found = n.named;
                                    })
                                    done
                            ]))
                ])
        ]
      ]
    ]

-- An event that was recorded for a merchant completes nothing any more.
recorded_event_ignored :
    (site : Site) (c : Call) (d : InboundDelivery) (x : Inbox) (merchant : ℕ)
    → merchant_for site d ≡ some merchant
    → has_webhook_event merchant d.gateway (event_id_of d) x.events ≡ true
    → (receive site c d x).0.shop ≡ x.shop
recorded_event_ignored site c d x merchant m h = elim (receive-Received site c d x) [
  | untouched same ↦ same
  | completes k t a done ↦
      let same : k ≡ merchant = ground (arith, m, a.merchant_is) in
      ground (arith, h, rw same at a.unseen)
]

-- Where the completion failed, the event has been recorded all the same.
process_event-records :
    (site : Site) (c : Call) (merchant : ℕ) (d : InboundDelivery) (x : Inbox) (f : PaymentFailure)
    → let run = process_event site c merchant d x in
      run.1 ≡ throws f → has_webhook_event merchant d.gateway (event_id_of d) run.0.events ≡ true
unfolding process_event
process_event-records site c merchant d x f h =
    elim (Bool-cases (has_webhook_event merchant d.gateway (event_id_of d) x.events)) [
      | inl q ↦ ground (arith, rw (q, process_event) at h)
      | inr q ↦ elim (Option-cases (named_transaction site merchant d x.shop.transactions)) [
        | inl n ↦ ground (arith, rw (q, n, process_event) at h)
        | inr (t, n) ↦
            rw (q, n, process_event)
              (ground (arith, str_eq_refl d.gateway, str_eq_refl (event_id_of d)))
      ]
    ]

after_signature-records :
    (site : Site) (c : Call) (merchant : ℕ) (d : InboundDelivery) (x : Inbox) (f : PaymentFailure)
    (b : Bool)
    → let run = after_signature b site c merchant d x in
      run.1 ≡ throws f → has_webhook_event merchant d.gateway (event_id_of d) run.0.events ≡ true
unfolding after_signature
after_signature-records site c merchant d x f true h = process_event-records site c merchant d x f h
after_signature-records site c merchant d x f false h = cc h

check_origin-answers :
    (site : Site) (d : InboundDelivery) (cidrs : List String) (f : PaymentFailure)
    → check_origin site d cidrs ≢ some (throws f)
unfolding check_origin
check_origin-answers site d [] f h = ground (arith, h)
check_origin-answers site d (c ∷ cs) f h = ground (arith, h)

receive_for-records :
    (site : Site) (c : Call) (merchant : ℕ) (d : InboundDelivery) (x : Inbox) (f : PaymentFailure)
    → let run = receive_for site c merchant d x in
      run.1 ≡ throws f → has_webhook_event merchant d.gateway (event_id_of d) run.0.events ≡ true
unfolding receive_for
receive_for-records site c merchant d x f h =
    let (cidrs, cache) = load_gateway_ip_allowlist site d.now d.gateway x.allowlists in
    elim (Bool-cases (is_configured d.gateway merchant x.shop.gateways)) [
      | inr g ↦ ground (arith, rw (g, receive_for) at h)
      | inl g ↦ elim (Option-cases (check_origin site d cidrs)) [
        | inr (a, o) ↦
            let thrown : a ≡ throws f =
              ground (arith, rw (o, receive_for) at (rw (g, receive_for) at h)) in
            absurd (check_origin-answers site d cidrs f (rw thrown at o))
        | inl o ↦
            rw (g, receive_for)
              (rw (o, receive_for)
                (after_signature-records site c merchant d (record x { allowlists = cache }) f
                  d.is_verified (rw (o, receive_for) at (rw (g, receive_for) at h))))
      ]
    ]

-- After a delivery whose completion failed, for instance because the ledger refused the posting, every
-- later delivery of the same event to the same merchant and gateway, whatever other deliveries come in
-- between, leaves the payments and the books as they are: the payment is not completed by it.
pub failed_event_ignored :
    (site : Site) (c c' : Call) (d d' : InboundDelivery) (bs : List (Call × InboundDelivery))
    (x : Inbox) (f : PaymentFailure)
    → (receive site c d x).1 ≡ throws f
    → d'.gateway ≡ d.gateway
    → event_id_of d' ≡ event_id_of d
    → merchant_for site d' ≡ merchant_for site d
    → let x' = receive_all site bs (receive site c d x).0 in
      (receive site c' d' x').0.shop ≡ x'.shop
unfolding receive
failed_event_ignored site c c' d d' bs x f h g e m =
    elim (Bool-cases (site.is_registered d.gateway && site.is_enabled d.gateway)) [
      | inr q ↦ ground (arith, rw (q, receive) at h)
      | inl q ↦ elim (Option-cases (merchant_for site d)) [
        | inl n ↦ ground (arith, rw (n, receive) at (rw (q, receive) at h))
        | inr (merchant, n) ↦
            let recorded =
              receive_for-records site c merchant d x f
                (rw (n, receive) at (rw (q, receive) at h)) in
            recorded_event_ignored site c' d' (receive_all site bs (receive site c d x).0) merchant
              (m ∙ n)
              (rw (g, e)
                (receive_all_stays site merchant d.gateway (event_id_of d) bs (receive site c d x).0
                  (rw (q, n, receive) recorded)))
      ]
    ]
