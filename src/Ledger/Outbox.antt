-- ===== src/Ledger/Outbox.antt =====
-- The transactional outbox of src/do/ledger-do.ts: `drainOutbox` and `markOutboxRetry`. Whether D1 accepts the batch, and the
-- readings of the clock, are arguments.
pub mod Posted
pub mod Events
pub mod Delivery
pub mod Limits
use edgepay_cf.Prelude.{
  ℕ, suc, ◌+◌, ◌-◌, ◌*◌, ◌/◌, ◌^◌, min, Bool, true, false, not, ◌&&◌, ◌||◌, List, [], ◌∷◌, ◌++◌,
  map, Option, none, some, length, take, keep, ◌==◌, ltb, leb, if◌then◌else◌,
}
use edgepay_cf.Ledger.State.{
  OutboxStatus, pending, synced, RetryError, no_merchant_context, batch_too_large, injected, thrown,
  OutboxEvent, LedgerDo, LedgerEnv, cached_merchant_id, get_merchant_id,
}
use edgepay_cf.Ledger.Mirror.{Mirror, Statement, batch, build_ledger_audit_statements}
use edgepay_cf.Ledger.Post.{outbox_drain_kick_ms, outbox_drain_max_backoff_ms}

abbrev pub outbox_drain_retry_ms : ℕ
outbox_drain_retry_ms = 1_000

abbrev pub outbox_batch_postings : ℕ
outbox_batch_postings = 20

abbrev pub outbox_max_statements : ℕ
outbox_max_statements = 100

abbrev pub is_pending : OutboxStatus → Bool
is_pending pending = true
is_pending synced = false

-- `next_retry_at IS NULL OR next_retry_at <= ?`
abbrev pub is_due : ℕ → Option ℕ → Bool
is_due now none = true
is_due now (some t) = leb t now

-- The two queries; rows stand in the order of their ids.
unfoldable pub select_pending : Bool → ℕ → List OutboxEvent → List OutboxEvent
select_pending force now outbox =
    take outbox_batch_postings
      (keep (λ e. is_pending e.status && (force || is_due now e.next_retry_at)) outbox)

unfoldable pub backoff : ℕ → ℕ
backoff retries = min outbox_drain_max_backoff_ms (outbox_drain_retry_ms * 2 ^ min retries 10)

-- `SELECT retry_count … WHERE id = ?`, and `row?.retry_count ?? 0`.
abbrev pub retry_count_of : ℕ → List OutboxEvent → ℕ
retry_count_of i [] = 0
retry_count_of i (e ∷ es) = if e.id == i then e.retry_count else retry_count_of i es

abbrev pub set_retry : ℕ → ℕ → RetryError → ℕ → OutboxEvent → OutboxEvent
set_retry now i error retries e =
    if e.id == i
    then record e {
      retry_count = retries;
      last_error = some error;
      next_retry_at = some (now + backoff retries);
    }
    else e

unfoldable pub mark_outbox_retry : ℕ → RetryError → List ℕ → List OutboxEvent → List OutboxEvent
mark_outbox_retry now error [] outbox = outbox
mark_outbox_retry now error (i ∷ is) outbox =
    mark_outbox_retry now error is
      (map (set_retry now i error (retry_count_of i outbox + 1)) outbox)

abbrev pub event_statements : OutboxEvent → List Statement
event_statements e =
    build_ledger_audit_statements e.payload.merchant_id e.payload e.payload_posted_at

-- The loop that fills one batch: it stops before the event that would pass the bound.
unfoldable pub compose : ℕ → List OutboxEvent → List OutboxEvent
compose used [] = []
compose used (e ∷ es) =
    let n = used + length (event_statements e) in
    let rest = compose n es in if ltb outbox_max_statements n then [] else e ∷ rest

unfoldable pub batch_statements : List OutboxEvent → List Statement
batch_statements [] = []
batch_statements (e ∷ es) = event_statements e ++ batch_statements es

abbrev pub event_ids : List OutboxEvent → List ℕ
event_ids = map (λ e. e.id)

abbrev pub set_synced : ℕ → ℕ → OutboxEvent → OutboxEvent
set_synced at i e =
    if e.id == i
    then record e { status = synced; synced_at = some at; last_error = none; next_retry_at = none }
    else e

unfoldable pub mark_synced : ℕ → List ℕ → List OutboxEvent → List OutboxEvent
mark_synced at [] outbox = outbox
mark_synced at (i ∷ is) outbox = mark_synced at is (map (set_synced at i) outbox)

pub record DrainResult : Type 0 where
  pub drained : ℕ
  pub failed : ℕ

abbrev pub drain_result : ℕ → ℕ → DrainResult
drain_result d f = record { drained = d; failed = f }

abbrev pub fails_outbox_drain : LedgerDo → Bool
fails_outbox_drain s = elim s.faults [ none ↦ false | some f ↦ f.fail_outbox_drain ]

-- `getMerchantId`, or else the id in the first pending payload, which is cached.
unfoldable pub drain_tenant : LedgerEnv → List OutboxEvent → LedgerDo → Option ℕ × LedgerDo
drain_tenant env [] s = get_merchant_id env s
drain_tenant env (e ∷ es) s =
    let (found, s1) = get_merchant_id env s in
    elim found [
      | some m ↦ (some m, s1)
      | none ↦
          if ltb 0 e.payload.merchant_id
          then (some e.payload.merchant_id, record s1 { merchant_id = some e.payload.merchant_id })
          else (none, s1)
    ]

-- From the composed batch on.
unfoldable pub send_batch :
    Bool → ℕ → ℕ → List OutboxEvent → LedgerDo → Mirror → LedgerDo × Mirror × DrainResult
send_batch accepts retry_at at included s m =
    if fails_outbox_drain s
    then (
      record s {
        faults = none;
        outbox = mark_outbox_retry retry_at injected (event_ids included) s.outbox;
      },
      m,
      drain_result 0 (length included),
    )
    else if accepts
    then (
      record s { outbox = mark_synced at (event_ids included) s.outbox },
      batch (batch_statements included) m,
      drain_result (length included) 0,
    )
    else (
      record s { outbox = mark_outbox_retry retry_at thrown (event_ids included) s.outbox },
      m,
      drain_result 0 (length included),
    )

-- The batch of some first pending event and those after it.
unfoldable pub drain_pending :
    Bool
    → ℕ
    → ℕ
    → OutboxEvent
    → List OutboxEvent
    → LedgerDo
    → Mirror
    → LedgerDo × Mirror × DrainResult
drain_pending accepts retry_at at e es s m = elim (compose 0 (e ∷ es)) [
  | [] ↦ (
    record s { outbox = mark_outbox_retry retry_at batch_too_large (e.id ∷ []) s.outbox },
    m,
    drain_result 0 1,
  )
  | i ∷ is ↦ send_batch accepts retry_at at (i ∷ is) s m
]

unfoldable pub drain_selected :
    LedgerEnv
    → Bool
    → ℕ
    → ℕ
    → List OutboxEvent
    → LedgerDo
    → Mirror
    → LedgerDo × Mirror × DrainResult
drain_selected env accepts retry_at at [] s m = (s, m, drain_result 0 0)
drain_selected env accepts retry_at at (e ∷ es) s m =
    let (found, s1) = drain_tenant env (e ∷ es) s in
    elim found [
      | none ↦ (
        record s1 {
          outbox = mark_outbox_retry retry_at no_merchant_context (event_ids (e ∷ es)) s1.outbox;
        },
        m,
        drain_result 0 (length (e ∷ es)),
      )
      | some _ ↦ drain_pending accepts retry_at at e es s1 m
    ]

unfoldable pub drain_outbox :
    LedgerEnv
    → (force accepts : Bool) → (now retry_at synced_at : ℕ) → LedgerDo
    → Mirror
    → LedgerDo × Mirror × DrainResult
drain_outbox env force accepts now retry_at at s m =
    drain_selected env accepts retry_at at (select_pending force now s.outbox) s m
