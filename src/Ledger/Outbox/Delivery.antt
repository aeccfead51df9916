-- ===== src/Ledger/Outbox/Delivery.antt =====
-- No event leaves the outbox of src/do/ledger-do.ts before its posting is in the mirror.
use edgepay_cf.Prelude.{
  sym, subst, ◌∙◌, ℕ, ◌+◌, ◌≡◌, ◌≤◌, refl, Bool, true, List, [], ◌∷◌, some, length, length-append,
  All, All-map, All-both, arith, ltb, ◌==◌, Bool-cases, Option-cases, inl, inr,
}
use edgepay_cf.Ledger.State.{synced, RetryError, OutboxEvent, LedgerDo, LedgerEnv, get_merchant_id}
use edgepay_cf.Ledger.Mirror.{Mirror, batch}
use edgepay_cf.Ledger.Mirror.Replay.{
  IsMirrored, IsMirrored-Extends, batch-Extends, batch-append, batch-IsMirrored,
}
use edgepay_cf.Ledger.Outbox.{
  select_pending, compose, outbox_max_statements, batch_statements, event_statements, event_ids,
  fails_outbox_drain, send_batch, drain_tenant, drain_pending, drain_selected, drain_outbox,
  mark_synced, mark_outbox_retry, set_retry,
}
use edgepay_cf.Ledger.Outbox.Events.{
  find_event, DistinctIds, DistinctIds-mark_outbox_retry, DistinctIds-mark_synced, find_event_self,
  is_in, synced_row, mark_synced-eq-map, synced_row_fields, All-mark_outbox_retry,
  All-select_pending,
}

-- A synced event's posting is mirrored.
abbrev pub Delivered : Mirror → OutboxEvent → Type 0
Delivered m e = e.status ≡ synced → IsMirrored e.payload m

-- A batch within the bound.
compose_bound :
    (used : ℕ) (es : List OutboxEvent)
    → used ≤ outbox_max_statements
    → used + length (batch_statements (compose used es)) ≤ outbox_max_statements
unfolding compose batch_statements
compose_bound used [] h = omega arith
compose_bound used (e ∷ es) h = ground (
  arith,
  length-append (event_statements e)
      (batch_statements (compose (used + length (event_statements e)) es)),
  compose_bound (used + length (event_statements e)) es,
)

-- A drain never sends D1 more than a hundred statements in one batch.
pub batch_bounded :
    (force : Bool) (now : ℕ) (outbox : List OutboxEvent)
    → length (batch_statements (compose 0 (select_pending force now outbox))) ≤ 100
batch_bounded force now outbox =
    omega (arith, compose_bound 0 (select_pending force now outbox) (omega arith))

All-compose :
    (P : OutboxEvent → Type 0) (used : ℕ) (es : List OutboxEvent)
    → All P es
    → All P (compose used es)
unfolding compose
All-compose P used [] h = tt
All-compose P used (e ∷ es) h =
    let n = used + length (event_statements e) in
    elim (Bool-cases (ltb outbox_max_statements n)) [
      | inl q ↦ rw q tt
      | inr q ↦ rw q (h.0, All-compose P n es h.1)
    ]

-- After the batch every event of it is mirrored.
batch_mirrors :
    (es : List OutboxEvent) (m m' : Mirror)
    → m' ≡ batch (batch_statements es) m
    → All (λ e. IsMirrored e.payload m') es
unfolding batch_statements
batch_mirrors [] m m' q = tt
batch_mirrors (e ∷ es) m m' q =
    let m1 = batch (event_statements e) m in
    let rest : m' ≡ batch (batch_statements es) m1 =
      q ∙ batch-append (event_statements e) (batch_statements es) m in
    (
      rw rest (
          IsMirrored-Extends e.payload m1 (batch (batch_statements es) m1)
            (batch-Extends (batch_statements es) m1)
            (batch-IsMirrored e.payload.merchant_id e.payload_posted_at e.payload m)),
      batch_mirrors es m1 m' rest,
    )

-- An id of the batch is that of an event of the batch.
is_in_found :
    (outbox included : List OutboxEvent) (e : OutboxEvent) (m : Mirror)
    → All (λ i. find_event i.id outbox ≡ some i) included
    → All (λ i. IsMirrored i.payload m) included
    → find_event e.id outbox ≡ some e
    → is_in e.id (event_ids included) ≡ true
    → IsMirrored e.payload m
is_in_found outbox [] e m f k q h = ground arith
is_in_found outbox (i ∷ is) e m f k q h = elim (Bool-cases (e.id == i.id)) [
  | inl b ↦
      let ids : i.id ≡ e.id = ground arith in
      let found : find_event e.id outbox ≡ some i = rw (← ids) f.0 in
      let same : i ≡ e = ground arith in rw (← same) k.0
  | inr b ↦ is_in_found outbox is e m f.1 k.1 q (ground arith)
]

-- The two facts about the outbox that a drain keeps.
pub record IsDelivered (outbox : List OutboxEvent) (m : Mirror) : Type 0 where
  pub ids : DistinctIds outbox
  pub delivered : All (Delivered m) outbox

set_retry-Delivered :
    (now i r : ℕ) (error : RetryError) (m : Mirror) (e : OutboxEvent)
    → Delivered m e
    → Delivered m (set_retry now i error r e)
set_retry-Delivered now i r error m e d s =
    let payload : (set_retry now i error r e).payload ≡ e.payload = ground arith in
    let status : (set_retry now i error r e).status ≡ e.status = ground arith in
    rw payload (d (sym status ∙ s))

retried :
    (now : ℕ) (error : RetryError) (is : List ℕ) (outbox : List OutboxEvent) (m : Mirror)
    → IsDelivered outbox m
    → IsDelivered (mark_outbox_retry now error is outbox) m
retried now error is outbox m h = record {
  ids = DistinctIds-mark_outbox_retry now error is outbox h.ids;
  delivered =
      All-mark_outbox_retry (Delivered m) now error is outbox
        (λ i r e. set_retry-Delivered now i r error m e) h.delivered;
}

sent :
    (at : ℕ) (included outbox : List OutboxEvent) (m : Mirror)
    → All (λ i. find_event i.id outbox ≡ some i) included
    → IsDelivered outbox m
    → IsDelivered (mark_synced at (event_ids included) outbox) (batch (batch_statements included) m)
sent at included outbox m f h = record {
  ids = DistinctIds-mark_synced at (event_ids included) outbox h.ids;
  delivered = rw (mark_synced-eq-map at (event_ids included) outbox) (
      All-map _ (Delivered m') (synced_row at (event_ids included)) outbox row
        (All-both _ (Delivered m) outbox (find_event_self outbox h.ids) h.delivered));
}
  where
    m' : Mirror
    m' = batch (batch_statements included) m

    row :
        (e : OutboxEvent)
        → (find_event e.id outbox ≡ some e) × Delivered m e
        → Delivered m' (synced_row at (event_ids included) e)
    row e (q, d) s =
        let (payload, status) = synced_row_fields at (event_ids included) e in
        rw payload (elim (Bool-cases (is_in e.id (event_ids included))) [
          | inl b ↦ is_in_found outbox included e m' f (batch_mirrors included m m' refl) q b
          | inr b ↦
              IsMirrored-Extends e.payload m m' (batch-Extends (batch_statements included) m)
                (d (ground arith))
        ])

module _ (s : LedgerDo) (m : Mirror) (h : IsDelivered s.outbox m) where
  send_batch-IsDelivered :
      (accepts : Bool) (retry_at at : ℕ) (included : List OutboxEvent)
      → All (λ i. find_event i.id s.outbox ≡ some i) included
      → let (s', m', _) = send_batch accepts retry_at at included s m in IsDelivered s'.outbox m'
  unfolding send_batch
  send_batch-IsDelivered accepts retry_at at included f = elim (Bool-cases (fails_outbox_drain s)) [
    | inl q ↦ rw (q, send_batch) (retried _ _ _ s.outbox m h)
    | inr q ↦ elim (Bool-cases accepts) [
      | inl q' ↦ rw (q, q', send_batch) (sent at included s.outbox m f h)
      | inr q' ↦ rw (q, q', send_batch) (retried _ _ _ s.outbox m h)
    ]
  ]

  drain_pending-IsDelivered :
      (accepts : Bool) (retry_at at : ℕ) (e : OutboxEvent) (es : List OutboxEvent)
      → All (λ i. find_event i.id s.outbox ≡ some i) (e ∷ es)
      → let (s', m', _) = drain_pending accepts retry_at at e es s m in IsDelivered s'.outbox m'
  unfolding drain_pending
  drain_pending-IsDelivered accepts retry_at at e es f =
      go (compose 0 (e ∷ es)) refl (All-compose _ 0 (e ∷ es) f)
    where
      go :
          (is : List OutboxEvent)
          → compose 0 (e ∷ es) ≡ is
          → All (λ i. find_event i.id s.outbox ≡ some i) is
          → let (s', m', _) = drain_pending accepts retry_at at e es s m in IsDelivered s'.outbox m'
      go [] q k = rw (q, drain_pending) (retried _ _ _ s.outbox m h)
      go (i ∷ is) q k =
          rw (q, drain_pending) (send_batch-IsDelivered accepts retry_at at (i ∷ is) k)

pub drain_tenant_outbox :
    (env : LedgerEnv) (es : List OutboxEvent) (s : LedgerDo)
    → (drain_tenant env es s).1.outbox ≡ s.outbox
unfolding drain_tenant get_merchant_id
drain_tenant_outbox env [] s = ground arith
drain_tenant_outbox env (e ∷ es) s = ground arith

-- However a drain ends, every event that is marked synced has its posting in the mirror: header and
-- all entries. No event is lost between the two stores.
pub drain_outbox-IsDelivered :
    (env : LedgerEnv) (force accepts : Bool) (now retry_at at : ℕ) (s : LedgerDo) (m : Mirror)
    → IsDelivered s.outbox m
    → let (s', m', _) = drain_outbox env force accepts now retry_at at s m in
      IsDelivered s'.outbox m'
unfolding drain_outbox drain_selected
drain_outbox-IsDelivered env force accepts now retry_at at s m h =
    go (select_pending force now s.outbox) refl
      (All-select_pending _ force now s.outbox (find_event_self s.outbox h.ids))
  where
    go :
        (es : List OutboxEvent)
        → select_pending force now s.outbox ≡ es
        → All (λ i. find_event i.id s.outbox ≡ some i) es
        → let (s', m', _) = drain_outbox env force accepts now retry_at at s m in
          IsDelivered s'.outbox m'
    go [] q f = rw (q, drain_selected) h
    go (e ∷ es) q f =
        let s1 = (drain_tenant env (e ∷ es) s).1 in
        let same : s1.outbox ≡ s.outbox = drain_tenant_outbox env (e ∷ es) s in
        let h1 : IsDelivered s1.outbox m = rw same h in
        elim (Option-cases (drain_tenant env (e ∷ es) s).0) [
          | inl o ↦ rw (q, o, drain_selected) (retried _ _ _ s1.outbox m h1)
          | inr (t, o) ↦
              rw (q, o, drain_selected)
                (drain_pending-IsDelivered s1 m h1 accepts retry_at at e es
                  (subst (λ o. All (λ i. find_event i.id o ≡ some i) (e ∷ es)) (sym same) f))
        ]
