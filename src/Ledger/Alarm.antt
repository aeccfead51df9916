-- ===== src/Ledger/Alarm.antt =====
-- The alarm of src/do/ledger-do.ts: `alarm`, `maybeCleanupOutbox`, `scheduleNextAlarm`,
-- `snapshotBalances`, and `outboxStats`. A time is in milliseconds; a text timestamp is the time it
-- stands for. D1's table of snapshots is a list of its rows.
pub mod Stats
pub mod Next
pub mod Sweep
mod Tests
use edgepay_cf.Prelude.{
  ℕ, suc, ◌+◌, ◌-◌, ◌/◌, min, max, String, Bool, true, false, not, ◌&&◌, ◌||◌, List, [], ◌∷◌, ◌++◌,
  Option, none, some, length, keep, str_eq, ◌==◌, ltb, leb, if◌then◌else◌,
}
use edgepay_cf.Prelude.Int.{ℤ}
use edgepay_cf.Ledger.Book.{AccountRow}
use edgepay_cf.Ledger.State.{
  OutboxStatus, pending, synced, OutboxEvent, LedgerDo, LedgerEnv, get_merchant_id,
}
use edgepay_cf.Ledger.Mirror.{Mirror}
use edgepay_cf.Ledger.Post.{outbox_drain_kick_ms}
use edgepay_cf.Ledger.Outbox.{is_pending, DrainResult, drain_outbox}

abbrev pub outbox_retention_ms : ℕ
outbox_retention_ms = 604_800_000

abbrev pub outbox_stuck_retry_threshold : ℕ
outbox_stuck_retry_threshold = 10

abbrev pub outbox_stuck_age_ms : ℕ
outbox_stuck_age_ms = 300_000

abbrev pub snapshot_interval_ms : ℕ
snapshot_interval_ms = 86_400_000

abbrev pub cleanup_interval_ms : ℕ
cleanup_interval_ms = 3_600_000

-- `Number(await storage.get(key) ?? 0)`
abbrev pub stored_time : Option ℕ → ℕ
stored_time none = 0
stored_time (some t) = t

-- `status = 'synced' AND synced_at < ?`, with the cutoff `now - OUTBOX_RETENTION_MS`.
abbrev pub is_expired : ℕ → OutboxEvent → Bool
is_expired now e =
    not (is_pending e.status)
    && elim e.synced_at [ none ↦ false | some t ↦ ltb (t + outbox_retention_ms) now ]

unfoldable pub maybe_cleanup_outbox : ℕ → ℕ → ℕ → LedgerDo → LedgerDo
maybe_cleanup_outbox now cut_at done_at s =
    if ltb now (stored_time s.last_outbox_cleanup_at + cleanup_interval_ms) then s else record s {
      outbox = keep (λ e. not (is_expired cut_at e)) s.outbox;
      last_outbox_cleanup_at = some done_at;
    }

pub record OutboxStats : Type 0 where
  pub pending_count : ℕ
  pub stuck : ℕ
  pub max_age_ms : ℕ
  pub max_retry : ℕ

abbrev pub is_stuck : ℕ → OutboxEvent → Bool
is_stuck now e =
    ltb outbox_stuck_age_ms (now - e.created_at) || leb outbox_stuck_retry_threshold e.retry_count

-- One round of the loop of `outboxStats`, on its accumulators. An age below zero never passes a test,
-- so a subtraction that stops at zero serves.
abbrev pub add_stats : ℕ → OutboxEvent → OutboxStats → OutboxStats
add_stats now e acc = record {
  pending_count = suc acc.pending_count;
  stuck = if is_stuck now e then suc acc.stuck else acc.stuck;
  max_age_ms =
      if ltb acc.max_age_ms (now - e.created_at) then now - e.created_at else acc.max_age_ms;
  max_retry = if ltb acc.max_retry e.retry_count then e.retry_count else acc.max_retry;
}

unfoldable pub collect_stats : ℕ → List OutboxEvent → OutboxStats → OutboxStats
collect_stats now [] acc = acc
collect_stats now (e ∷ es) acc = collect_stats now es (add_stats now e acc)

abbrev pub no_stats : OutboxStats
no_stats = record { pending_count = 0; stuck = 0; max_age_ms = 0; max_retry = 0 }

-- `SELECT … WHERE status = 'pending'`
abbrev pub pending_events : List OutboxEvent → List OutboxEvent
pending_events = keep (λ e. is_pending e.status)

-- `outboxStats`; its caller is told the age in whole seconds.
unfoldable pub outbox_stats : ℕ → LedgerDo → OutboxStats
outbox_stats now s = collect_stats now (pending_events s.outbox) no_stats

abbrev pub max_age_seconds : OutboxStats → ℕ
max_age_seconds r = r.max_age_ms / 1_000

-- `COALESCE(next_retry_at, ?)`
abbrev pub retry_time : ℕ → OutboxEvent → ℕ
retry_time now e = elim e.next_retry_at [ none ↦ now | some t ↦ t ]

-- `SELECT MIN(COALESCE(next_retry_at, ?))` of some rows; of none it is NULL.
unfoldable pub next_at : ℕ → List OutboxEvent → Option ℕ
next_at now [] = none
next_at now (e ∷ es) = elim (next_at now es) [
  | none ↦ some (retry_time now e)
  | some t ↦ some (min (retry_time now e) t)
]

unfoldable pub alarm_target : ℕ → LedgerDo → ℕ
alarm_target now s = elim (next_at now (pending_events s.outbox)) [
  | none ↦ stored_time s.last_snapshot_at + snapshot_interval_ms
  | some t ↦ if leb t now then now + outbox_drain_kick_ms else t
]

unfoldable pub schedule_next_alarm : ℕ → LedgerDo → LedgerDo
schedule_next_alarm now s =
    let target = alarm_target now s in
    elim s.alarm_at [
      | none ↦ record s { alarm_at = some target }
      | some current ↦ if ltb target current then record s { alarm_at = some target } else s
    ]

-- A row of `op_ledger_balance_snapshots`; `as_of` is a day, by its number.
pub record Snapshot : Type 0 where
  pub merchant_id : ℕ
  pub account_code : String
  pub currency : String
  pub balance_minor : ℤ
  pub as_of : ℕ

abbrev pub has_snapshot : ℕ → String → ℕ → List Snapshot → Bool
has_snapshot merchant code day [] = false
has_snapshot merchant code day (x ∷ xs) =
    ((x.merchant_id == merchant) && str_eq x.account_code code && (x.as_of == day))
    || has_snapshot merchant code day xs

-- `INSERT OR IGNORE`, for each account.
unfoldable pub insert_snapshots : ℕ → ℕ → List AccountRow → List Snapshot → List Snapshot
insert_snapshots merchant day [] rows = rows
insert_snapshots merchant day (a ∷ rest) rows = insert_snapshots merchant day rest (
    if has_snapshot merchant a.code day rows
    then rows
    else rows
      ++ (record {
        merchant_id = merchant;
        account_code = a.code;
        currency = a.currency;
        balance_minor = a.balance_minor;
        as_of = day;
      }
          ∷ []))

pub record SnapshotResult : Type 0 where
  pub snapshot_at : ℕ
  pub accounts : ℕ

-- `snapshotBalances`; `none` is the error that D1 throws.
unfoldable pub snapshot_balances :
    LedgerEnv
    → Bool
    → ℕ
    → LedgerDo
    → List Snapshot
    → LedgerDo × List Snapshot × Option SnapshotResult
snapshot_balances env accepts now s rows =
    let result : SnapshotResult = record { snapshot_at = now; accounts = length s.accounts } in
    let (found, s1) = get_merchant_id env s in
    elim found [
      | none ↦ (s1, rows, some result)
      | some merchant ↦ elim s.accounts [
        | [] ↦ (s1, rows, some result)
        | a ∷ rest ↦
            if accepts
            then (
              s1,
              insert_snapshots merchant (now / snapshot_interval_ms) (a ∷ rest) rows,
              some result,
            )
            else (s1, rows, none)
      ]
    ]

-- What `alarm` reads from outside: the clock where it is read, and whether D1 takes a batch.
pub record AlarmInputs : Type 0 where
  pub drain_accepts : Bool
  pub snapshot_accepts : Bool
  pub now : ℕ
  pub retry_at : ℕ
  pub synced_at : ℕ
  pub snapshot_due : ℕ
  pub snapshot_now : ℕ
  pub snapshot_done : ℕ
  pub cleanup_now : ℕ
  pub cut_at : ℕ
  pub cleanup_done : ℕ
  pub schedule_now : ℕ

-- `lastSnapshotAt` is stored when the snapshot succeeded; a failure is only logged.
abbrev pub settle_snapshot :
    ℕ → LedgerDo × List Snapshot × Option SnapshotResult → LedgerDo × List Snapshot
settle_snapshot done (s, rows, none) = (s, rows)
settle_snapshot done (s, rows, some r) = (record s { last_snapshot_at = some done }, rows)

-- The second part of `alarm`: a snapshot if one is due.
unfoldable pub snapshot_if_due :
    LedgerEnv → AlarmInputs → LedgerDo → List Snapshot → LedgerDo × List Snapshot
snapshot_if_due env i s rows =
    if leb (stored_time s.last_snapshot_at + snapshot_interval_ms) i.snapshot_due
    then settle_snapshot i.snapshot_done
        (snapshot_balances env i.snapshot_accepts i.snapshot_now s rows)
    else (s, rows)

unfoldable pub alarm :
    LedgerEnv → AlarmInputs → LedgerDo → Mirror → List Snapshot → LedgerDo × Mirror × List Snapshot
alarm env i s m rows =
    let (s1, m1, _) = drain_outbox env false i.drain_accepts i.now i.retry_at i.synced_at s m in
    let (s2, rows2) = snapshot_if_due env i s1 rows in
    let s3 = maybe_cleanup_outbox i.cleanup_now i.cut_at i.cleanup_done s2 in
    (schedule_next_alarm i.schedule_now s3, m1, rows2)
