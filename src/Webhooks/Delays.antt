-- ===== src/Webhooks/Delays.antt =====
-- Retries of the messages of src/services/webhook-dispatcher.ts in src/queues/webhook-consumer.ts.
use edgepay_cf.Prelude.{ℕ, ◌≡◌, ◌⊎◌, ◌↔◌, true, false, ◌||◌, List, [], ◌∷◌, some, none}
use edgepay_cf.Webhooks.{
  WebhookMessage, Delivery, acked, unhandled, retried, World, process_one, Disposition, is_success,
  is_client_error,
}

-- A message is retried after a minute, if it is retried.
abbrev pub IsMinutely : World → List Delivery → WebhookMessage → Type 0
IsMinutely v ds m =
    let end = (process_one v m ds).1 in (end ≡ acked) ⊎ (end ≡ unhandled) ⊎ (end ≡ retried 60)

-- The world in which a message is done with: the address is refused, or the endpoint takes the message
-- or answers that the request is wrong; and D1 takes the row.
abbrev pub IsFinal : World → Type 0
IsFinal v =
    (v.logs ≡ true)
    × ((v.is_allowed ≡ false)
        ⊎ ((status : ℕ) × (v.response ≡ some status)
            × ((is_success status || is_client_error status) ≡ true)))

-- The world in which a message's handler throws: the row of the delivery is refused, or there is no
-- answer to a message that is sent, and the row of the failure is refused too.
abbrev pub IsLost : World → Type 0
IsLost v =
    (v.logs_again ≡ false) × ((v.logs ≡ false) ⊎ ((v.is_allowed ≡ true) × (v.response ≡ none)))

-- What becomes of each message of a batch, in the batch's order.
abbrev pub Ends : List (World × WebhookMessage) → List Disposition → Type 0
Ends [] es = es ≡ []
Ends (b ∷ bs) es =
    (e : Disposition) × (rest : List Disposition) × (es ≡ e ∷ rest)
    × ((e ≡ acked) ↔ (IsFinal b.0 ⊎ IsLost b.0))
    × Ends bs rest
