-- ===== src/Ledger/Mirror.antt =====
-- The audit mirror in D1 (src/services/ledger-audit.ts): three tables, and the statements that copy
-- a posting into them. `DB.batch` runs a list of statements as one transaction; whether D1 answers
-- is an argument of the callers.
pub mod Replay
pub mod Marked
use edgepay_cf.Prelude.{
  ℕ, suc, ◌+◌, String, Bool, true, false, ◌&&◌, List, [], ◌∷◌, ◌++◌, Option, none, some, str_eq,
  ◌==◌, if◌then◌else◌,
}
use edgepay_cf.Ledger.Types.{Direction, ReferenceType, PostingEntry, PostingPayload}

pub data MirrorStatus : Type 0 where
  pending posted rejected : MirrorStatus

-- `op_ledger_postings`, with the primary key `tx_id`.
pub record MirrorPosting : Type 0 where
  pub tx_id : String
  pub merchant_id : ℕ
  pub reference_type : ReferenceType
  pub reference_id : Option String
  pub currency : String
  pub payload : PostingPayload
  pub status : MirrorStatus
  pub error : Option String
  pub attempts : ℕ
  pub created_at : ℕ
  pub posted_at : Option ℕ

-- `op_ledger_transactions`, with `uuid` unique; the status is 'posted' in every row written here.
pub record MirrorTransaction : Type 0 where
  pub id : ℕ
  pub merchant_id : ℕ
  pub uuid : String
  pub reference_type : ReferenceType
  pub reference_id : Option String
  pub description : String
  pub posted_at : ℕ

-- `op_ledger_entries`.
pub record MirrorEntry : Type 0 where
  pub merchant_id : ℕ
  pub ledger_transaction_id : ℕ
  pub account_id : ℕ
  pub direction : Direction
  pub amount : String
  pub currency : String
  pub entry_order : ℕ
  pub created_at : ℕ

pub record Mirror : Type 0 where
  pub postings : List MirrorPosting
  pub transactions : List MirrorTransaction
  pub transaction_seq : ℕ
  pub entries : List MirrorEntry

-- The three kinds of statement, with what they bind.
pub data Statement : Type 0 where
  upsert_posting : MirrorPosting → Statement
  insert_transaction : (merchant_id : ℕ) → PostingPayload → (posted_at : ℕ) → Statement
  insert_entry :
      PostingEntry → (currency : String) → (entry_order posted_at : ℕ) → (uuid : String) → Statement

-- `INSERT … ON CONFLICT(tx_id) DO UPDATE SET status, posted_at, error`
unfoldable pub upsert : MirrorPosting → List MirrorPosting → List MirrorPosting
upsert p [] = p ∷ []
upsert p (q ∷ qs) =
    if str_eq q.tx_id p.tx_id
    then record q { status = p.status; posted_at = p.posted_at; error = none } ∷ qs
    else q ∷ upsert p qs

abbrev pub find_transaction : String → List MirrorTransaction → Option MirrorTransaction
find_transaction uuid [] = none
find_transaction uuid (t ∷ ts) = if str_eq t.uuid uuid then some t else find_transaction uuid ts

-- `EXISTS (SELECT 1 … WHERE ledger_transaction_id = ? AND entry_order = ?)`
abbrev pub has_entry : ℕ → ℕ → List MirrorEntry → Bool
has_entry tid order [] = false
has_entry tid order (e ∷ es) =
    let rest = has_entry tid order es in
    if (e.ledger_transaction_id == tid) && (e.entry_order == order) then true else rest

abbrev pub new_transaction : ℕ → ℕ → PostingPayload → ℕ → MirrorTransaction
new_transaction seq merchant p at = record {
  id = seq;
  merchant_id = merchant;
  uuid = p.tx_id;
  reference_type = p.reference_type;
  reference_id = p.reference_id;
  description = p.description;
  posted_at = at;
}

unfoldable pub run_statement : Statement → Mirror → Mirror
unfolding upsert
run_statement (upsert_posting p) m = record m { postings = upsert p m.postings }
run_statement (insert_transaction merchant payload at) m =
    elim (find_transaction payload.tx_id m.transactions) [
      | some _ ↦ m
      | none ↦ record m {
        transactions =
            m.transactions ++ (new_transaction m.transaction_seq merchant payload at ∷ []);
        transaction_seq = m.transaction_seq + 1;
      }
    ]
run_statement (insert_entry e currency order at uuid) m =
    elim (find_transaction uuid m.transactions) [
      | none ↦ m
      | some t ↦ if has_entry t.id order m.entries then m else record m {
        entries =
            m.entries
            ++ (record {
              merchant_id = t.merchant_id;
              ledger_transaction_id = t.id;
              account_id = e.d1_account_id;
              direction = e.direction;
              amount = e.amount;
              currency = currency;
              entry_order = order;
              created_at = at;
            }
                ∷ []);
      }
    ]

-- `DB.batch` that succeeds: every statement, in order.
unfoldable pub batch : List Statement → Mirror → Mirror
batch [] m = m
batch (st ∷ sts) m = batch sts (run_statement st m)

-- The loop over `payload.entries`; `order` is `entryIndex + 1`.
unfoldable pub entry_statements : PostingPayload → ℕ → ℕ → List PostingEntry → List Statement
entry_statements p at order [] = []
entry_statements p at order (e ∷ es) =
    insert_entry e p.currency order at p.tx_id ∷ entry_statements p at (suc order) es

abbrev pub posting_row : ℕ → PostingPayload → ℕ → MirrorPosting
posting_row merchant p at = record {
  tx_id = p.tx_id;
  merchant_id = merchant;
  reference_type = p.reference_type;
  reference_id = p.reference_id;
  currency = p.currency;
  payload = p;
  status = posted;
  error = none;
  attempts = 0;
  created_at = at;
  posted_at = some at;
}

unfoldable pub build_ledger_audit_statements : ℕ → PostingPayload → ℕ → List Statement
unfolding entry_statements
build_ledger_audit_statements merchant p at =
    upsert_posting (posting_row merchant p at)
    ∷ insert_transaction merchant p at
    ∷ entry_statements p at 1 p.entries

-- How D1 answers the batch and the query after it.
pub data D1Reply : Type 0 where
  batch_fails query_fails answers : D1Reply

-- `SELECT id … WHERE uuid = ?`, and `row?.id ?? 0`.
abbrev pub transaction_id : Option MirrorTransaction → ℕ
transaction_id none = 0
transaction_id (some t) = t.id

-- `writeLedgerAuditTrail`: `none` where it throws.
unfoldable pub write_ledger_audit_trail : D1Reply → PostingPayload → ℕ → Mirror → Option ℕ × Mirror
write_ledger_audit_trail batch_fails p at m = (none, m)
write_ledger_audit_trail query_fails p at m =
    (none, batch (build_ledger_audit_statements p.merchant_id p at) m)
write_ledger_audit_trail answers p at m =
    let m' = batch (build_ledger_audit_statements p.merchant_id p at) m in
    (some (transaction_id (find_transaction p.tx_id m'.transactions)), m')
