-- ===== src/Ledger/System/Drained.antt =====
-- What a drain and an alarm of src/do/ledger-do.ts leave as it is: the book, and the ids of the
-- events.
use edgepay_cf.Prelude.{
  All-keep, ℕ, ◌+◌, ◌≡◌, ◌<◌, refl, Bool, false, not, List, [], ◌∷◌, All, All-map, arith,
  Bool-cases, Option-cases, inl, inr, ltb,
}
use edgepay_cf.Ledger.State.{OutboxEvent, RetryError, LedgerDo, LedgerEnv, get_merchant_id}
use edgepay_cf.Ledger.Mirror.{Mirror}
use edgepay_cf.Ledger.Outbox.{
  compose, event_ids, fails_outbox_drain, send_batch, drain_tenant, drain_pending, drain_selected,
  drain_outbox, select_pending, mark_synced, mark_outbox_retry, set_synced,
}
use edgepay_cf.Ledger.Outbox.Events.{All-mark_outbox_retry}
use edgepay_cf.Ledger.Alarm.{
  AlarmInputs, Snapshot, alarm, maybe_cleanup_outbox, schedule_next_alarm, snapshot_if_due,
  snapshot_balances, is_expired, stored_time, cleanup_interval_ms,
}
use edgepay_cf.Ledger.Outbox.Delivery.{drain_tenant_outbox}
use edgepay_cf.Ledger.Alarm.Sweep.{schedule_next_alarm_outbox, snapshot_if_due_outbox}

-- Every event has an id that was given out.
abbrev pub Numbered : ℕ → List OutboxEvent → Type 0
Numbered n = All (λ e. e.id < n)

-- The book is the same, and no event has a new id.
pub record Settled (s s' : LedgerDo) : Type 0 where
  pub accounts : s'.accounts ≡ s.accounts
  pub journal : s'.journal ≡ s.journal
  pub seq : s'.outbox_seq ≡ s.outbox_seq
  pub numbered : (n : ℕ) → Numbered n s.outbox → Numbered n s'.outbox

Settled-trans : (a b c : LedgerDo) → Settled a b → Settled b c → Settled a c
Settled-trans a b c h k = record {
  accounts = ground (arith, h, k);
  journal = ground (arith, h, k);
  seq = ground (arith, h, k);
  numbered = λ n x. k.numbered n (h.numbered n x);
}

unchanged :
    (s s' : LedgerDo)
    → s'.accounts ≡ s.accounts
    → s'.journal ≡ s.journal
    → s'.outbox_seq ≡ s.outbox_seq
    → s'.outbox ≡ s.outbox
    → Settled s s'
unchanged s s' a j n o = record { accounts = a; journal = j; seq = n; numbered = λ k h. rw o h }

Numbered-mark_outbox_retry :
    (n now : ℕ) (error : RetryError) (is : List ℕ) (es : List OutboxEvent)
    → Numbered n es
    → Numbered n (mark_outbox_retry now error is es)
Numbered-mark_outbox_retry n now error is es h =
    All-mark_outbox_retry (λ e. e.id < n) now error is es (λ i r e k. ground arith) h

Numbered-mark_synced :
    (n at : ℕ) (is : List ℕ) (es : List OutboxEvent)
    → Numbered n es
    → Numbered n (mark_synced at is es)
unfolding mark_synced
Numbered-mark_synced n at [] es h = h
Numbered-mark_synced n at (i ∷ is) es h =
    Numbered-mark_synced n at is _ (All-map _ _ (set_synced at i) es (λ e k. ground arith) h)

retried :
    (now : ℕ) (error : RetryError) (is : List ℕ) (s : LedgerDo)
    → Settled s (record s { outbox = mark_outbox_retry now error is s.outbox })
retried now error is s = record {
  accounts = refl;
  journal = refl;
  seq = refl;
  numbered = λ n. Numbered-mark_outbox_retry n now error is s.outbox;
}

send_batch-Settled :
    (accepts : Bool) (retry_at at : ℕ) (es : List OutboxEvent) (s : LedgerDo) (m : Mirror)
    → Settled s (send_batch accepts retry_at at es s m).0
unfolding send_batch
send_batch-Settled accepts retry_at at es s m = elim (Bool-cases (fails_outbox_drain s)) [
  | inl q ↦
      rw (q, send_batch)
        (record {
          accounts = refl;
          journal = refl;
          seq = refl;
          numbered = λ n. Numbered-mark_outbox_retry n _ _ (event_ids es) s.outbox;
        })
  | inr q ↦ elim (Bool-cases accepts) [
    | inl b ↦
        rw (q, b, send_batch)
          (record {
            accounts = refl;
            journal = refl;
            seq = refl;
            numbered = λ n. Numbered-mark_synced n at (event_ids es) s.outbox;
          })
    | inr b ↦ rw (q, b, send_batch) (retried _ _ (event_ids es) s)
  ]
]

drain_pending-Settled :
    (accepts : Bool) (retry_at at : ℕ) (e : OutboxEvent) (es : List OutboxEvent) (s : LedgerDo)
    (m : Mirror)
    → Settled s (drain_pending accepts retry_at at e es s m).0
unfolding drain_pending
drain_pending-Settled accepts retry_at at e es s m = go (compose 0 (e ∷ es)) refl
  where
    go :
        (is : List OutboxEvent)
        → compose 0 (e ∷ es) ≡ is
        → Settled s (drain_pending accepts retry_at at e es s m).0
    go [] q = rw (q, drain_pending) (retried _ _ (e.id ∷ []) s)
    go (i ∷ is) q = rw (q, drain_pending) (send_batch-Settled accepts retry_at at (i ∷ is) s m)

drain_tenant-book :
    (env : LedgerEnv) (es : List OutboxEvent) (s : LedgerDo)
    → let s' = (drain_tenant env es s).1 in
      (s'.accounts ≡ s.accounts) × (s'.journal ≡ s.journal) × (s'.outbox_seq ≡ s.outbox_seq)
unfolding drain_tenant get_merchant_id
drain_tenant-book env [] s = ground arith
drain_tenant-book env (e ∷ es) s = ground arith

drain_tenant-Settled :
    (env : LedgerEnv) (es : List OutboxEvent) (s : LedgerDo) → Settled s (drain_tenant env es s).1
drain_tenant-Settled env es s =
    let (a, j, n) = drain_tenant-book env es s in
    unchanged s (drain_tenant env es s).1 a j n (drain_tenant_outbox env es s)

drain_selected-Settled :
    (env : LedgerEnv) (accepts : Bool) (retry_at at : ℕ) (es : List OutboxEvent) (s : LedgerDo)
    (m : Mirror)
    → Settled s (drain_selected env accepts retry_at at es s m).0
unfolding drain_selected
drain_selected-Settled env accepts retry_at at [] s m = unchanged s s refl refl refl refl
drain_selected-Settled env accepts retry_at at (e ∷ es) s m =
    let s1 = (drain_tenant env (e ∷ es) s).1 in
    let k : Settled s s1 = drain_tenant-Settled env (e ∷ es) s in
    elim (Option-cases (drain_tenant env (e ∷ es) s).0) [
      | inl o ↦
          rw (o, drain_selected) (Settled-trans s s1 _ k (retried _ _ (event_ids (e ∷ es)) s1))
      | inr (t, o) ↦
          rw (o, drain_selected)
            (Settled-trans s s1 _ k (drain_pending-Settled accepts retry_at at e es s1 m))
    ]

pub drain_outbox-Settled :
    (env : LedgerEnv) (force accepts : Bool) (now retry_at at : ℕ) (s : LedgerDo) (m : Mirror)
    → Settled s (drain_outbox env force accepts now retry_at at s m).0
unfolding drain_outbox
drain_outbox-Settled env force accepts now retry_at at s m =
    drain_selected-Settled env accepts retry_at at (select_pending force now s.outbox) s m

maybe_cleanup_outbox-Settled :
    (now cut_at done_at : ℕ) (s : LedgerDo) → Settled s (maybe_cleanup_outbox now cut_at done_at s)
unfolding maybe_cleanup_outbox
maybe_cleanup_outbox-Settled now cut_at done_at s =
    elim (Bool-cases (ltb now (stored_time s.last_outbox_cleanup_at + cleanup_interval_ms))) [
      | inl q ↦ rw (q, maybe_cleanup_outbox) (unchanged s s refl refl refl refl)
      | inr q ↦
          rw (q, maybe_cleanup_outbox)
            (record {
              accounts = refl;
              journal = refl;
              seq = refl;
              numbered = λ n. All-keep _ (λ e. not (is_expired cut_at e)) s.outbox;
            })
    ]

schedule_next_alarm-Settled : (now : ℕ) (s : LedgerDo) → Settled s (schedule_next_alarm now s)
unfolding schedule_next_alarm
schedule_next_alarm-Settled now s =
    unchanged s (schedule_next_alarm now s) (ground arith) (ground arith) (ground arith)
      (schedule_next_alarm_outbox now s)

snapshot_if_due-Settled :
    (env : LedgerEnv) (i : AlarmInputs) (s : LedgerDo) (rows : List Snapshot)
    → Settled s (snapshot_if_due env i s rows).0
unfolding snapshot_if_due snapshot_balances get_merchant_id
snapshot_if_due-Settled env i s rows =
    unchanged s (snapshot_if_due env i s rows).0 (ground arith) (ground arith) (ground arith)
      (snapshot_if_due_outbox env i s rows)

pub alarm-Settled :
    (env : LedgerEnv) (i : AlarmInputs) (s : LedgerDo) (m : Mirror) (rows : List Snapshot)
    → Settled s (alarm env i s m rows).0
unfolding alarm
alarm-Settled env i s m rows =
    let (s1, m1, r) = drain_outbox env false i.drain_accepts i.now i.retry_at i.synced_at s m in
    let s2 = (snapshot_if_due env i s1 rows).0 in
    let s3 = maybe_cleanup_outbox i.cleanup_now i.cut_at i.cleanup_done s2 in
    Settled-trans s s1 _
      (drain_outbox-Settled env false i.drain_accepts i.now i.retry_at i.synced_at s m)
      (Settled-trans s1 s2 _ (snapshot_if_due-Settled env i s1 rows) (
        Settled-trans s2 s3 _
          (maybe_cleanup_outbox-Settled i.cleanup_now i.cut_at i.cleanup_done s2)
          (schedule_next_alarm-Settled i.schedule_now s3)))
