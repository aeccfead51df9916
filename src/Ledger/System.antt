-- ===== src/Ledger/System.antt =====
-- The ledger object of src/do/ledger-do.ts over its whole life, with the D1 tables that it writes:
-- every order of postings, drains and alarms, with any clock and any replies of D1.
pub mod Queue
pub mod Drained
pub mod Safe
mod Tests
use edgepay_cf.Prelude.{ℕ, Bool, List, []}
use edgepay_cf.Ledger.Types.{PostingPayload}
use edgepay_cf.Ledger.State.{LedgerDo, LedgerEnv, fresh}
use edgepay_cf.Ledger.Mirror.{Mirror, D1Reply}
use edgepay_cf.Ledger.Post.{post_transaction}
use edgepay_cf.Ledger.Outbox.{drain_outbox}
use edgepay_cf.Ledger.Alarm.{AlarmInputs, Snapshot, alarm}

pub record System : Type 0 where
  pub ledger : LedgerDo
  pub mirror : Mirror
  pub snapshots : List Snapshot

-- An object that the runtime has just made, and tables without a row of its merchant.
abbrev pub initial : ℕ → System
initial at = record {
  ledger = fresh at;
  mirror = record { postings = []; transactions = []; transaction_seq = 1; entries = [] };
  snapshots = [];
}

abbrev pub after_post : LedgerEnv → D1Reply → ℕ → ℕ → PostingPayload → System → System
after_post env reply now later p x =
    let (s, m, _) = post_transaction env reply now later p x.ledger x.mirror in
    record x { ledger = s; mirror = m }

abbrev pub after_drain :
    LedgerEnv → (force accepts : Bool) → (now retry_at at : ℕ) → System → System
after_drain env force accepts now retry_at at x =
    let (s, m, _) = drain_outbox env force accepts now retry_at at x.ledger x.mirror in
    record x { ledger = s; mirror = m }

abbrev pub after_alarm : LedgerEnv → AlarmInputs → System → System
after_alarm env i x =
    let (s, m, rows) = alarm env i x.ledger x.mirror x.snapshots in
    record { ledger = s; mirror = m; snapshots = rows }

-- One call of the object. The input gate lets no two of them overlap.
pub data Step (env : LedgerEnv) : System → System → Type 0 where
  post :
      (reply : D1Reply) (now later : ℕ) (p : PostingPayload) (x : System)
      → Step env x (after_post env reply now later p x)
  drain :
      (force accepts : Bool) (now retry_at at : ℕ) (x : System)
      → Step env x (after_drain env force accepts now retry_at at x)
  ring : (i : AlarmInputs) (x : System) → Step env x (after_alarm env i x)

pub data Reach (env : LedgerEnv) (x : System) : System → Type 0 where
  here : Reach env x x
  next : {y z : System} → Reach env x y → Step env y z → Reach env x z
