-- ===== src/Ledger/Post.antt =====
-- `postTransaction`, `postInner` and `kickOutboxAlarm` of src/do/ledger-do.ts. The object's input gate
-- is closed while a posting runs, so a call is one step. The two readings of the clock that a posting
-- makes are arguments, and so is D1's reply.
pub mod Outcome
pub mod Replay
pub mod Keeps
use edgepay_cf.Prelude.{
  ℕ, ◌+◌, ◌-◌, String, Bool, true, false, ◌&&◌, List, [], ◌∷◌, ◌++◌, map, Option, none, some,
  length, str_eq, ◌==◌, ltb, leb, if◌then◌else◌,
}
use edgepay_cf.Prelude.Int.{ℤ}
use edgepay_cf.Prelude.Dict.{Dict}
use edgepay_cf.Ledger.Types.{
  PostingPayload, PostingResult, posted, duplicate, failed, Checked, ok, err, internal,
}
use edgepay_cf.Ledger.Chart.{default_chart_of_accounts}
use edgepay_cf.Ledger.Shape.{validate_posting_shape}
use edgepay_cf.Ledger.Book.{find_posted, seed_rows, apply_deltas, journal_rows}
use edgepay_cf.Ledger.Funds.{check_balances}
use edgepay_cf.Ledger.State.{
  EventId, OutboxEvent, pending, synced, LedgerDo, LedgerEnv, get_merchant_id,
}
use edgepay_cf.Ledger.Mirror.{Mirror, D1Reply, write_ledger_audit_trail}

abbrev pub outbox_drain_kick_ms : ℕ
outbox_drain_kick_ms = 100

abbrev pub outbox_drain_max_backoff_ms : ℕ
outbox_drain_max_backoff_ms = 60_000

-- `this.seededCurrency === currency`
abbrev pub is_seeded : Option String → String → Bool
is_seeded none currency = false
is_seeded (some c) currency = str_eq c currency

unfoldable pub seed_chart : String → LedgerDo → LedgerDo
seed_chart currency s = if is_seeded s.seeded_currency currency then s else record s {
  accounts = seed_rows currency default_chart_of_accounts s.accounts;
  seeded_currency = some currency;
}

-- `current !== null && current > now && current - now <= OUTBOX_DRAIN_MAX_BACKOFF_MS`, and the
-- nudge that follows where this fails.
unfoldable pub kick_outbox_alarm : ℕ → LedgerDo → LedgerDo
kick_outbox_alarm now s = elim s.alarm_at [
  | none ↦ record s { alarm_at = some (now + outbox_drain_kick_ms) }
  | some current ↦
      if ltb now current && leb (current - now) outbox_drain_max_backoff_ms
      then s
      else if ltb (now + outbox_drain_kick_ms) current
      then record s { alarm_at = some (now + outbox_drain_kick_ms) }
      else s
]

abbrev pub has_event : EventId → List OutboxEvent → Bool
has_event i [] = false
has_event i (e ∷ es) =
    let rest = has_event i es in
    if (e.event_id.merchant == i.merchant) && str_eq e.event_id.tx i.tx then true else rest

-- The closure of `transactionSync`. A key that is taken (`tx_id`, `event_id`) would throw and undo
-- the whole transaction.
unfoldable pub commit : ℕ → ℕ → PostingPayload → Dict ℤ → LedgerDo → Checked LedgerDo
commit at merchant p deltas s =
    let id : EventId = record { merchant = merchant; tx = p.tx_id } in
    if has_event id s.outbox then err internal else elim (find_posted p.tx_id s.posted) [
      | some _ ↦ err internal
      | none ↦ ok (record s {
        posted =
            s.posted
            ++ (record {
              tx_id = p.tx_id;
              reference_type = p.reference_type;
              reference_id = p.reference_id;
              currency = p.currency;
              description = p.description;
              posted_at = at;
            }
                ∷ []);
        journal = s.journal ++ journal_rows at s.journal_seq p.tx_id p.entries;
        journal_seq = s.journal_seq + length p.entries;
        accounts = apply_deltas at deltas s.accounts;
        outbox =
            s.outbox
            ++ (record {
              id = s.outbox_seq;
              event_id = id;
              payload = p;
              payload_posted_at = at;
              status = pending;
              retry_count = 0;
              last_error = none;
              created_at = at;
              synced_at = none;
              next_retry_at = none;
            }
                ∷ []);
        outbox_seq = s.outbox_seq + 1;
      })
    ]

-- `UPDATE outbox_events SET status = 'synced', synced_at = ? WHERE event_id = ?`
abbrev pub sync_event : ℕ → EventId → OutboxEvent → OutboxEvent
sync_event at i e =
    if (e.event_id.merchant == i.merchant) && str_eq e.event_id.tx i.tx
    then record e { status = synced; synced_at = some at }
    else e

abbrev pub succeeded : PostingPayload → ℕ → Option ℕ → PostingResult
succeeded p at tid = record {
  status = posted;
  tx_id = p.tx_id;
  posted_at = at;
  ledger_transaction_id = tid;
  error_code = none;
}

-- What follows the commit: the nudge, or the synchronous audit trail.
unfoldable pub after_commit :
    LedgerEnv
    → D1Reply
    → ℕ
    → ℕ
    → ℕ
    → PostingPayload
    → LedgerDo
    → Mirror
    → LedgerDo × Mirror × Checked PostingResult
after_commit env reply now later merchant p s m =
    if env.outbox_enabled
    then (kick_outbox_alarm later s, m, ok (succeeded p now none))
    else let (tid, m') = write_ledger_audit_trail reply p now m in
      elim tid [
        | none ↦ (s, m', err internal)
        | some id ↦ (
          record s {
            outbox = map (sync_event now (record { merchant = merchant; tx = p.tx_id })) s.outbox;
          },
          m',
          ok (succeeded p now (some id)),
        )
      ]

abbrev pub fails_do_writes : LedgerDo → Bool
fails_do_writes s = elim s.faults [ none ↦ false | some f ↦ f.fail_do_writes ]

abbrev pub or_else : Option ℕ → ℕ → ℕ
or_else none d = d
or_else (some m) d = m

-- `this.merchantId` is set from the payload; then `this.getMerchantId() ?? payload.merchant_id`.
unfoldable pub resolve_tenant : LedgerEnv → PostingPayload → LedgerDo → ℕ × LedgerDo
resolve_tenant env p s =
    let s1 = if ltb 0 p.merchant_id then record s { merchant_id = some p.merchant_id } else s in
    let (found, s2) = get_merchant_id env s1 in (or_else found p.merchant_id, s2)

-- Steps D and E of `postInner`, from deltas that are covered.
unfoldable pub write_posting :
    LedgerEnv
    → D1Reply
    → ℕ
    → ℕ
    → PostingPayload
    → Dict ℤ
    → LedgerDo
    → Mirror
    → LedgerDo × Mirror × Checked PostingResult
write_posting env reply now later p deltas s m =
    if fails_do_writes s
    then (record s { faults = none }, m, err internal)
    else let (merchant, s2) = resolve_tenant env p s in
      elim (commit now merchant p deltas s2) [
        | err e ↦ (s2, m, err e)
        | ok s3 ↦ after_commit env reply now later merchant p s3 m
      ]

-- Steps A to C of `postInner`, on a book whose chart is seeded.
unfoldable pub post_seeded :
    LedgerEnv
    → D1Reply
    → ℕ
    → ℕ
    → PostingPayload
    → LedgerDo
    → Mirror
    → LedgerDo × Mirror × Checked PostingResult
post_seeded env reply now later p s m = elim (validate_posting_shape p) [
  | err e ↦ (s, m, err e)
  | ok _ ↦ elim (find_posted p.tx_id s.posted) [
    | some t ↦ (
      s,
      m,
      ok (record {
        status = duplicate;
        tx_id = p.tx_id;
        posted_at = t.posted_at;
        ledger_transaction_id = none;
        error_code = none;
      }),
    )
    | none ↦ elim (check_balances s.accounts p.entries p.currency) [
      | err e ↦ (s, m, err e)
      | ok deltas ↦ write_posting env reply now later p deltas s m
    ]
  ]
]

unfoldable pub post_inner :
    LedgerEnv
    → D1Reply
    → ℕ
    → ℕ
    → PostingPayload
    → LedgerDo
    → Mirror
    → LedgerDo × Mirror × Checked PostingResult
post_inner env reply now later p s m = post_seeded env reply now later p (seed_chart p.currency s) m

-- The catch of `postTransaction`: an error becomes a result.
abbrev pub settle : PostingPayload → ℕ → Checked PostingResult → PostingResult
settle p later (ok r) = r
settle p later (err code) = record {
  status = failed;
  tx_id = p.tx_id;
  posted_at = later;
  ledger_transaction_id = none;
  error_code = some code;
}

unfoldable pub post_transaction :
    LedgerEnv
    → D1Reply
    → ℕ
    → ℕ
    → PostingPayload
    → LedgerDo
    → Mirror
    → LedgerDo × Mirror × PostingResult
post_transaction env reply now later p s m =
    let (s', m', r) = post_inner env reply now later p s m in (s', m', settle p later r)
