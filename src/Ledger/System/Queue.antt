-- ===== src/Ledger/System/Queue.antt =====
-- What `postTransaction` of src/do/ledger-do.ts does to the outbox: nothing, or one event.
use mathlib.Core.List.{map-append}
use edgepay_cf.Prelude.{
  str_eq_refl, ℕ, ◌+◌, ◌≡◌, refl, ◌∙◌, inl, inr, ap, Bool, true, false, List, [], ◌∷◌, ◌++◌, map,
  none, some, arith, Bool-cases, Option-cases, str_eq, ◌==◌, ◌&&◌,
}
use edgepay_cf.Prelude.Int.{ℤ}
use edgepay_cf.Prelude.Dict.{Dict}
use edgepay_cf.Ledger.Types.{PostingPayload, ok, Checked-cases}
use edgepay_cf.Ledger.Shape.{validate_posting_shape}
use edgepay_cf.Ledger.Book.{find_posted}
use edgepay_cf.Ledger.Funds.{check_balances}
use edgepay_cf.Ledger.State.{
  EventId, OutboxEvent, pending, synced, LedgerDo, LedgerEnv, get_merchant_id,
}
use edgepay_cf.Ledger.Mirror.{
  Mirror, D1Reply, batch_fails, query_fails, answers, write_ledger_audit_trail,
  build_ledger_audit_statements, batch,
}
use edgepay_cf.Ledger.Mirror.Replay.{Extends, Extends-refl, batch-Extends, batch-IsMirrored}
use edgepay_cf.Ledger.Post.{
  has_event, commit, sync_event, after_commit, fails_do_writes, kick_outbox_alarm, resolve_tenant,
  write_posting, post_seeded, seed_chart, post_inner, post_transaction,
}
use edgepay_cf.Ledger.Outbox.Delivery.{Delivered}

-- The event of a posting, as it is committed.
abbrev pub new_event : ℕ → ℕ → ℕ → PostingPayload → OutboxEvent
new_event i at merchant p = record {
  id = i;
  event_id = record { merchant = merchant; tx = p.tx_id };
  payload = p;
  payload_posted_at = at;
  status = pending;
  retry_count = 0;
  last_error = none;
  created_at = at;
  synced_at = none;
  next_retry_at = none;
}

-- Nothing was queued, or one event that is pending or in the mirror.
pub data QueueEnding (p : PostingPayload) (s s' : LedgerDo) (m m' : Mirror) : Type 0 where
  same : s'.outbox ≡ s.outbox → s'.outbox_seq ≡ s.outbox_seq → m' ≡ m → QueueEnding p s s' m m'
  added :
      (e : OutboxEvent)
      → e.id ≡ s.outbox_seq
      → e.payload ≡ p
      → Delivered m' e
      → s'.outbox ≡ s.outbox ++ (e ∷ [])
      → s'.outbox_seq ≡ s.outbox_seq + 1
      → Extends m m'
      → QueueEnding p s s' m m'

-- No other event has the id of the new one.
map-sync_event :
    (at : ℕ) (i : EventId) (es : List OutboxEvent)
    → has_event i es ≡ false
    → map (sync_event at i) es ≡ es
map-sync_event at i [] h = refl
map-sync_event at i (e ∷ es) h =
    elim (Bool-cases ((e.event_id.merchant == i.merchant) && str_eq e.event_id.tx i.tx)) [
      | inl q ↦ ground (arith, q)
      | inr q ↦ rw q (ap (λ xs. e ∷ xs) (map-sync_event at i es (rw q at h)))
    ]

record CommitQueue (at merchant : ℕ) (p : PostingPayload) (s s' : LedgerDo) : Type 0 where
  unique : has_event (record { merchant = merchant; tx = p.tx_id }) s.outbox ≡ false
  queued : s'.outbox ≡ s.outbox ++ (new_event s.outbox_seq at merchant p ∷ [])
  numbered : s'.outbox_seq ≡ s.outbox_seq + 1

commit-CommitQueue :
    (at merchant : ℕ) (p : PostingPayload) (ds : Dict ℤ) (s s' : LedgerDo)
    → commit at merchant p ds s ≡ ok s'
    → CommitQueue at merchant p s s'
unfolding commit
commit-CommitQueue at merchant p ds s s' h =
    elim (Bool-cases (has_event (record { merchant = merchant; tx = p.tx_id }) s.outbox)) [
      | inl b ↦ ground (arith, b)
      | inr b ↦ elim (Option-cases (find_posted p.tx_id s.posted)) [
        | inl q ↦ ground (arith, b)
        | inr (a, q) ↦ ground (arith, b)
      ]
    ]

sync_new :
    (at i merchant : ℕ) (p : PostingPayload)
    → sync_event at (record { merchant = merchant; tx = p.tx_id }) (new_event i at merchant p)
      ≡ record (new_event i at merchant p) { status = synced; synced_at = some at }
sync_new at i merchant p = ground (arith, str_eq_refl p.tx_id)

module _ (env : LedgerEnv) (now later merchant : ℕ) (p : PostingPayload) (s s1 : LedgerDo)
    (m : Mirror) (c : CommitQueue now merchant p s s1) where
  unsynced_queue :
      (s' : LedgerDo) (m' : Mirror)
      → s'.outbox ≡ s1.outbox
      → s'.outbox_seq ≡ s1.outbox_seq
      → Extends m m'
      → QueueEnding p s s' m m'
  unsynced_queue s' m' o n x =
      added (new_event s.outbox_seq now merchant p) refl refl (λ q. cc) (o ∙ c.queued)
        (n ∙ c.numbered) x

  synced_queue :
      (tid : ℕ)
      → let m' = batch (build_ledger_audit_statements p.merchant_id p now) m in
        let id : EventId = record { merchant = merchant; tx = p.tx_id } in
        QueueEnding p s (record s1 { outbox = map (sync_event now id) s1.outbox }) m m'
  synced_queue tid =
      let id : EventId = record { merchant = merchant; tx = p.tx_id } in
      let e = record (new_event s.outbox_seq now merchant p) {
        status = synced;
        synced_at = some now;
      } in
      let kept : map (sync_event now id) s1.outbox ≡ s.outbox ++ (e ∷ []) =
        rw
          (
            c.queued,
            map-append,
            map-sync_event now id s.outbox c.unique,
            sync_new now s.outbox_seq merchant p,
          )
          refl in
      added e refl refl (λ q. batch-IsMirrored p.merchant_id now p m) kept c.numbered
        (batch-Extends (build_ledger_audit_statements p.merchant_id p now) m)

  queue_after :
      (reply : D1Reply) (on : Bool)
      → env.outbox_enabled ≡ on
      → let (s', m', r) = after_commit env reply now later merchant p s1 m in
        QueueEnding p s s' m m'
  unfolding after_commit write_ledger_audit_trail kick_outbox_alarm
  queue_after reply true q =
      unsynced_queue (after_commit env reply now later merchant p s1 m).0 _ (ground (arith, q))
        (ground (arith, q)) (rw (q, after_commit) (Extends-refl m))
  queue_after batch_fails false q =
      rw (q, after_commit) (unsynced_queue s1 m refl refl (Extends-refl m))
  queue_after query_fails false q =
      rw (q, after_commit)
        (unsynced_queue s1 _ refl refl
          (batch-Extends (build_ledger_audit_statements p.merchant_id p now) m))
  queue_after answers false q = rw (q, after_commit) (synced_queue 0)

resolve_tenant-queue :
    (env : LedgerEnv) (p : PostingPayload) (s : LedgerDo)
    → let s' = (resolve_tenant env p s).1 in (s'.outbox ≡ s.outbox) × (s'.outbox_seq ≡ s.outbox_seq)
unfolding resolve_tenant get_merchant_id
resolve_tenant-queue env p s = ground arith

write_posting-QueueEnding :
    (env : LedgerEnv) (reply : D1Reply) (now later : ℕ) (p : PostingPayload) (ds : Dict ℤ)
    (s : LedgerDo) (m : Mirror)
    → let (s', m', _) = write_posting env reply now later p ds s m in QueueEnding p s s' m m'
unfolding write_posting
write_posting-QueueEnding env reply now later p ds s m = elim (Bool-cases (fails_do_writes s)) [
  | inl q ↦ rw (q, write_posting) (same refl refl refl)
  | inr q ↦
      let (merchant, s2) = resolve_tenant env p s in
      let (o, n) = resolve_tenant-queue env p s in
      elim (Checked-cases (commit now merchant p ds s2)) [
        | inl (e, q') ↦ rw (q, q') (same o n refl)
        | inr (s3, q') ↦
            let c = commit-CommitQueue now merchant p ds s2 s3 q' in
            rw (q, q')
              (queue_after env now later merchant p s s3 m
                (record {
                  unique = rw o at c.unique;
                  queued = rw (o, n) at c.queued;
                  numbered = rw n at c.numbered;
                })
                reply env.outbox_enabled refl)
      ]
]

post_seeded-QueueEnding :
    (env : LedgerEnv) (reply : D1Reply) (now later : ℕ) (p : PostingPayload) (s : LedgerDo)
    (m : Mirror)
    → let (s', m', _) = post_seeded env reply now later p s m in QueueEnding p s s' m m'
unfolding post_seeded
post_seeded-QueueEnding env reply now later p s m =
    elim (Checked-cases (validate_posting_shape p)) [
      | inl (e, q) ↦ rw (q, post_seeded) (same refl refl refl)
      | inr (u, q) ↦ elim (Option-cases (find_posted p.tx_id s.posted)) [
        | inr (t, q') ↦ rw (q, q', post_seeded) (same refl refl refl)
        | inl q' ↦ elim (Checked-cases (check_balances s.accounts p.entries p.currency)) [
          | inl (e, q'') ↦ rw (q, q', q'', post_seeded) (same refl refl refl)
          | inr (ds, q'') ↦
              rw (q, q', q'', post_seeded) (write_posting-QueueEnding env reply now later p ds s m)
        ]
      ]
    ]

seed_chart-queue :
    (currency : _) (s : LedgerDo)
    → ((seed_chart currency s).outbox ≡ s.outbox)
      × ((seed_chart currency s).outbox_seq ≡ s.outbox_seq)
unfolding seed_chart
seed_chart-queue currency s = ground arith

pub post_transaction-QueueEnding :
    (env : LedgerEnv) (reply : D1Reply) (now later : ℕ) (p : PostingPayload) (s : LedgerDo)
    (m : Mirror)
    → let (s', m', _) = post_transaction env reply now later p s m in QueueEnding p s s' m m'
unfolding post_transaction post_inner
post_transaction-QueueEnding env reply now later p s m =
    let (o, n) = seed_chart-queue p.currency s in
    elim (post_seeded-QueueEnding env reply now later p (seed_chart p.currency s) m) [
      | same o' n' x ↦ same (o' ∙ o) (n' ∙ n) x
      | added e i q d o' n' x ↦
          added e (i ∙ n) q d (o' ∙ ap (λ xs. xs ++ (e ∷ [])) o) (n' ∙ ap (λ k. k + 1) n) x
    ]
