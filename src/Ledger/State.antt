-- ===== src/Ledger/State.antt =====
-- The state of one LedgerDO (src/do/ledger-do.ts): its SQLite tables, its key-value storage, its
-- alarm and its in-memory fields; and what it reads of its environment.
use edgepay_cf.Prelude.{ℕ, String, Bool, List, [], Option, none, some, ltb, if◌then◌else◌}
use edgepay_cf.Ledger.Types.{PostingPayload}
use edgepay_cf.Ledger.Book.{AccountRow, PostedTransaction, JournalEntry}

-- The text `m{merchant}:posting:{tx_id}`, by its two parts.
pub record EventId : Type 0 where
  pub merchant : ℕ
  pub tx : String

pub data OutboxStatus : Type 0 where
  pending synced : OutboxStatus

-- What `last_error` says, by its kind: `thrown` is the text of D1's error.
pub data RetryError : Type 0 where
  no_merchant_context batch_too_large injected thrown : RetryError

-- A row of `outbox_events`. `payload_json` is kept as the value that it encodes; the event type is
-- always 'POSTING'.
pub record OutboxEvent : Type 0 where
  pub id : ℕ
  pub event_id : EventId
  pub payload : PostingPayload
  pub payload_posted_at : ℕ
  pub status : OutboxStatus
  pub retry_count : ℕ
  pub last_error : Option RetryError
  pub created_at : ℕ
  pub synced_at : Option ℕ
  pub next_retry_at : Option ℕ

pub record Faults : Type 0 where
  pub fail_do_writes : Bool
  pub fail_outbox_drain : Bool

pub record LedgerDo : Type 0 where
  pub accounts : List AccountRow
  pub posted : List PostedTransaction
  pub journal : List JournalEntry
  pub journal_seq : ℕ
  pub outbox : List OutboxEvent
  pub outbox_seq : ℕ
  pub alarm_at : Option ℕ
  pub last_snapshot_at : Option ℕ
  pub last_outbox_cleanup_at : Option ℕ
  pub faults : Option Faults
  pub merchant_id : Option ℕ
  pub seeded_currency : Option String

-- `outbox_enabled` is `LEDGER_OUTBOX_ENABLED !== 'false'`. `name_number` is the positive integer
-- that `Number(…)` reads after `merchant-` in the object's name, if there is one.
pub record LedgerEnv : Type 0 where
  pub outbox_enabled : Bool
  pub production : Bool
  pub name_number : Option ℕ

-- A fresh object: empty tables, and the alarm that the constructor sets.
unfoldable pub fresh : ℕ → LedgerDo
fresh alarm = record {
  accounts = [];
  posted = [];
  journal = [];
  journal_seq = 1;
  outbox = [];
  outbox_seq = 1;
  alarm_at = some alarm;
  last_snapshot_at = none;
  last_outbox_cleanup_at = none;
  faults = none;
  merchant_id = none;
  seeded_currency = none;
}

-- `this.merchantId`, if it is a positive number.
abbrev pub cached_merchant_id : Option ℕ → Option ℕ
cached_merchant_id none = none
cached_merchant_id (some m) = if ltb 0 m then some m else none

-- `getMerchantId`: the cached id, or the name's, which is cached then.
unfoldable pub get_merchant_id : LedgerEnv → LedgerDo → Option ℕ × LedgerDo
get_merchant_id env s = elim (cached_merchant_id s.merchant_id) [
  | some m ↦ (some m, s)
  | none ↦ elim (cached_merchant_id env.name_number) [
    | some m ↦ (some m, record s { merchant_id = some m })
    | none ↦ (none, s)
  ]
]
