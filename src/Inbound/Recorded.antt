-- ===== src/Inbound/Recorded.antt =====
-- The events that src/controllers/webhooks.ts has recorded, over any deliveries.
use edgepay_cf.Prelude.{
  ◌≡◌, inl, inr, ℕ, String, Bool, true, false, ◌&&◌, List, [], ◌∷◌, arith, Bool-cases, Option-cases,
}
use edgepay_cf.Posting.{Call}
use edgepay_cf.Inbound.{
  Inbox, Site, InboundDelivery, has_webhook_event, event_id_of, named_transaction, is_configured,
  merchant_for, load_gateway_ip_allowlist, check_origin, process_event, after_signature,
  receive_for, receive,
}

-- An event that is recorded stays recorded, whatever else is delivered.
module _ (site : Site) (c : Call) (d : InboundDelivery) (k : ℕ) (slug event_id : String) where
  event_stays :
      (merchant : ℕ) (x : Inbox)
      → has_webhook_event k slug event_id x.events ≡ true
      → has_webhook_event k slug event_id (process_event site c merchant d x).0.events ≡ true
  unfolding process_event
  event_stays merchant x h =
      elim (Bool-cases (has_webhook_event merchant d.gateway (event_id_of d) x.events)) [
        | inl q ↦ rw (q, process_event) h
        | inr q ↦ elim (Option-cases (named_transaction site merchant d x.shop.transactions)) [
          | inl n ↦ rw (q, n, process_event) (ground (arith, h))
          | inr (t, n) ↦ rw (q, n, process_event) (ground (arith, h))
        ]
      ]

  signed_stays :
      (merchant : ℕ) (x : Inbox) (b : Bool)
      → has_webhook_event k slug event_id x.events ≡ true
      → has_webhook_event k slug event_id (after_signature b site c merchant d x).0.events ≡ true
  unfolding after_signature
  signed_stays merchant x true h = event_stays merchant x h
  signed_stays merchant x false h = h

  received_stays :
      (x : Inbox)
      → has_webhook_event k slug event_id x.events ≡ true
      → has_webhook_event k slug event_id (receive site c d x).0.events ≡ true
  unfolding receive receive_for
  received_stays x h =
      elim (Bool-cases (site.is_registered d.gateway && site.is_enabled d.gateway)) [
        | inr q ↦ rw (q, receive) h
        | inl q ↦ elim (Option-cases (merchant_for site d)) [
          | inl m ↦ rw (q, m, receive) h
          | inr (merchant, m) ↦
              elim (Bool-cases (is_configured d.gateway merchant x.shop.gateways)) [
                | inr g ↦ rw (q, m, receive) (rw (g, receive_for) h)
                | inl g ↦
                    let (cidrs, cache) =
                      load_gateway_ip_allowlist site d.now d.gateway x.allowlists in
                    rw (q, m, receive)
                      (elim (Option-cases (check_origin site d cidrs)) [
                        | inr (a, o) ↦ rw (g, receive_for) (rw (o, receive_for) h)
                        | inl o ↦
                            rw (g, receive_for)
                              (rw (o, receive_for)
                                (signed_stays merchant (record x { allowlists = cache })
                                  d.is_verified h))
                      ])
              ]
        ]
      ]

-- Deliveries one after the other.
abbrev pub receive_all : Site → List (Call × InboundDelivery) → Inbox → Inbox
receive_all site [] x = x
receive_all site (b ∷ bs) x = receive_all site bs (receive site b.0 b.1 x).0

pub receive_all_stays :
    (site : Site) (k : ℕ) (slug event_id : String) (bs : List (Call × InboundDelivery)) (x : Inbox)
    → has_webhook_event k slug event_id x.events ≡ true
    → has_webhook_event k slug event_id (receive_all site bs x).events ≡ true
receive_all_stays site k slug event_id [] x h = h
receive_all_stays site k slug event_id (b ∷ bs) x h =
    receive_all_stays site k slug event_id bs _ (received_stays site b.0 b.1 k slug event_id x h)
