-- ===== src/Ledger/Alarm/Sweep.antt =====
-- Delivery across one run of `alarm` of src/do/ledger-do.ts.
use edgepay_cf.Prelude.{
  All-keep, ap, sym, ◌∙◌, ◌≤◌, ◌⊎◌, ℕ, ◌≡◌, refl, Bool, true, false, not, List, [], ◌∷◌, none, some,
  keep, arith, ◌==◌, ltb, ◌+◌, Bool-cases, inl, inr,
}
use edgepay_cf.Ledger.State.{OutboxEvent, LedgerDo, LedgerEnv, get_merchant_id}
use edgepay_cf.Ledger.Mirror.{Mirror}
use edgepay_cf.Ledger.Outbox.{is_pending, drain_outbox}
use edgepay_cf.Ledger.Outbox.Events.{find_event, DistinctIds}
use edgepay_cf.Ledger.Outbox.Delivery.{IsDelivered, drain_outbox-IsDelivered}
use edgepay_cf.Ledger.Alarm.{
  AlarmInputs, Snapshot, alarm, is_expired, maybe_cleanup_outbox, schedule_next_alarm,
  snapshot_balances, snapshot_if_due, stored_time, cleanup_interval_ms,
}

find_event-keep :
    (p : OutboxEvent → Bool) (i : ℕ) (es : List OutboxEvent)
    → find_event i es ≡ none
    → find_event i (keep p es) ≡ none
find_event-keep p i [] h = refl
find_event-keep p i (e ∷ es) h = ground (arith, find_event-keep p i es)

DistinctIds-keep :
    (p : OutboxEvent → Bool) (es : List OutboxEvent) → DistinctIds es → DistinctIds (keep p es)
DistinctIds-keep p [] h = tt
DistinctIds-keep p (e ∷ es) h = elim (Bool-cases (p e)) [
  | inl q ↦ rw q (find_event-keep p e.id es h.0, DistinctIds-keep p es h.1)
  | inr q ↦ rw q (DistinctIds-keep p es h.1)
]

maybe_cleanup_outbox-IsDelivered :
    (now cut_at done_at : ℕ) (s : LedgerDo) (m : Mirror)
    → IsDelivered s.outbox m
    → IsDelivered (maybe_cleanup_outbox now cut_at done_at s).outbox m
unfolding maybe_cleanup_outbox
maybe_cleanup_outbox-IsDelivered now cut_at done_at s m h =
    elim (Bool-cases (ltb now (stored_time s.last_outbox_cleanup_at + cleanup_interval_ms))) [
      | inl q ↦ rw (q, maybe_cleanup_outbox) h
      | inr q ↦
          rw (q, maybe_cleanup_outbox)
            (record {
              ids = DistinctIds-keep (λ e. not (is_expired cut_at e)) s.outbox h.ids;
              delivered = All-keep _ (λ e. not (is_expired cut_at e)) s.outbox h.delivered;
            })
    ]

pub schedule_next_alarm_outbox :
    (now : ℕ) (s : LedgerDo) → (schedule_next_alarm now s).outbox ≡ s.outbox
unfolding schedule_next_alarm
schedule_next_alarm_outbox now s = ground arith

pub snapshot_if_due_outbox :
    (env : LedgerEnv) (i : AlarmInputs) (s : LedgerDo) (rows : List Snapshot)
    → (snapshot_if_due env i s rows).0.outbox ≡ s.outbox
unfolding snapshot_if_due snapshot_balances get_merchant_id
snapshot_if_due_outbox env i s rows = ground arith

-- One run of the alarm, whether D1 takes the batch or not, and whatever else it does, leaves every
-- synced event of the outbox with its posting in the mirror.
pub alarm-IsDelivered :
    (env : LedgerEnv) (i : AlarmInputs) (s : LedgerDo) (m : Mirror) (rows : List Snapshot)
    → IsDelivered s.outbox m
    → let (s', m', _) = alarm env i s m rows in IsDelivered s'.outbox m'
unfolding alarm
alarm-IsDelivered env i s m rows h =
    let (s1, m1, r) = drain_outbox env false i.drain_accepts i.now i.retry_at i.synced_at s m in
    let s2 = (snapshot_if_due env i s1 rows).0 in
    let s3 = maybe_cleanup_outbox i.cleanup_now i.cut_at i.cleanup_done s2 in
    rw (schedule_next_alarm_outbox i.schedule_now s3) (
      maybe_cleanup_outbox-IsDelivered i.cleanup_now i.cut_at i.cleanup_done s2 m1 (
        rw (snapshot_if_due_outbox env i s1 rows)
          (drain_outbox-IsDelivered env false i.drain_accepts i.now i.retry_at i.synced_at s m h)))

find_event-keep_found :
    (p : OutboxEvent → Bool) (i : ℕ) (e : OutboxEvent) (es : List OutboxEvent)
    → p e ≡ true
    → find_event i es ≡ some e
    → find_event i (keep p es) ≡ some e
find_event-keep_found p i e [] k h = h
find_event-keep_found p i e (x ∷ es) k h = elim (Bool-cases (x.id == i)) [
  | inl q ↦ let same : x ≡ e = ground arith in rw (same, k, ap (λ y. y.id == i) (sym same) ∙ q) refl
  | inr q ↦ elim (Bool-cases (p x)) [
    | inl r ↦ ground (arith, find_event-keep_found p i e es k)
    | inr r ↦ ground (arith, find_event-keep_found p i e es k)
  ]
]

-- The clean-up deletes no event that is pending, and none that was synced within the seven days
-- before the time of its cutoff.
pub kept_in_cleanup :
    (now cut_at done_at i : ℕ) (s : LedgerDo) (e : OutboxEvent)
    → find_event i s.outbox ≡ some e
    → (is_pending e.status ≡ true) ⊎ ((t : ℕ) × (e.synced_at ≡ some t) × (cut_at ≤ t + 604_800_000))
    → find_event i (maybe_cleanup_outbox now cut_at done_at s).outbox ≡ some e
unfolding maybe_cleanup_outbox
kept_in_cleanup now cut_at done_at i s e found h =
    let stays : not (is_expired cut_at e) ≡ true = elim h [
      | inl q ↦ rw q refl
      | inr (t, q, b) ↦ rw q (ground (arith, b))
    ] in
    elim (Bool-cases (ltb now (stored_time s.last_outbox_cleanup_at + cleanup_interval_ms))) [
      | inl q ↦ rw (q, maybe_cleanup_outbox) found
      | inr q ↦
          rw (q, maybe_cleanup_outbox)
            (find_event-keep_found (λ x. not (is_expired cut_at x)) i e s.outbox stays found)
    ]
