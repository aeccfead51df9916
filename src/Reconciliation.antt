-- ===== src/Reconciliation.antt =====
-- The replay of one pending posting after the other, src/services/reconciliation.ts; Pass is the whole
-- pass. The environment of each row's calls
-- is an argument: a call of the ledger object may be lost before it runs or after it, and D1 may
-- refuse a batch. The statements on `op_ledger_postings` that the pass itself runs are taken to
-- succeed. A page is a value of the result; a message's text is an argument.
pub mod Replay
pub mod Counts
pub mod Keeps
pub mod Refunds
pub mod Run
pub mod Tests
pub mod Pass
use edgepay_cf.Prelude.{
  ℕ, suc, ◌+◌, String, Bool, true, false, List, [], ◌∷◌, ◌++◌, map, Option, none, some, str_eq, leb,
  if◌then◌else◌,
}
use edgepay_cf.Prelude.Texts.{join}
use edgepay_cf.Ledger.Types.{
  PostingPayload, PostingResult, PostingStatus, PostingErrorCode, unbalanced, insufficient_funds,
  unknown_account, invalid, currency_mismatch, rejected_tx_id, internal,
}
use edgepay_cf.Ledger.State.{LedgerEnv}
use edgepay_cf.Ledger.Mirror.{MirrorPosting, MirrorStatus, D1Reply, write_ledger_audit_trail}
use edgepay_cf.Ledger.Outbox.{drain_outbox}
use edgepay_cf.Ledger.Post.{post_transaction}
use edgepay_cf.Posting.{Platform, env_for, set_book, code_or_internal}

abbrev pub pending_grace_ms : ℕ
pending_grace_ms = 30_000

abbrev pub max_pending_attempts : ℕ
max_pending_attempts = 5

abbrev pub is_deterministic : PostingErrorCode → Bool
is_deterministic unbalanced = true
is_deterministic insufficient_funds = true
is_deterministic unknown_account = true
is_deterministic invalid = true
is_deterministic currency_mismatch = true
is_deterministic rejected_tx_id = true
is_deterministic internal = false

abbrev pub text_of_code : PostingErrorCode → String
text_of_code unbalanced = "UNBALANCED"
text_of_code insufficient_funds = "INSUFFICIENT_FUNDS"
text_of_code unknown_account = "UNKNOWN_ACCOUNT"
text_of_code invalid = "INVALID"
text_of_code currency_mismatch = "CURRENCY_MISMATCH"
text_of_code rejected_tx_id = "REJECTED_TX_ID"
text_of_code internal = "INTERNAL"

pub data Page : Type 0 where
  posting_rejected posting_exhausted poison_detected : (tx_id : String) (merchant_id : ℕ) → Page

-- What becomes of a call of a ledger object; a lost one throws in the worker.
pub data Transport : Type 0 where
  delivered : Transport
  lost_before lost_after : (message : String) → Transport

-- The environment of one row's calls.
pub record Attempt : Type 0 where
  pub env : LedgerEnv
  pub post : Transport
  pub message : String
  pub reply : D1Reply
  pub now : ℕ
  pub later : ℕ
  pub drain : Transport
  pub drain_accepts : Bool
  pub drain_now : ℕ
  pub drain_retry_at : ℕ
  pub drain_synced_at : ℕ

pub data RowEnding : Type 0 where
  replayed healed rejected failed : RowEnding

pub record PendingReconcileResult : Type 0 where
  pub replayed : ℕ
  pub healed : ℕ
  pub rejected : ℕ
  pub failed : ℕ
  pub remaining : ℕ

-- `UPDATE op_ledger_postings SET … WHERE tx_id = ?`
abbrev pub update_posting : String → (MirrorPosting → MirrorPosting) → Platform → Platform
update_posting t f x =
    let m = x.mirror in
    record x {
      mirror = record m { postings = map (λ p. if str_eq p.tx_id t then f p else p) m.postings };
    }

unfoldable pub bump_attempts : String → String → Platform → Platform
bump_attempts t message =
    update_posting t (λ p. record p { attempts = p.attempts + 1; error = some message })

unfoldable pub reject_posting : String → String → Platform → Platform
reject_posting t message = update_posting t (λ p. record p {
  status = MirrorStatus.rejected;
  error = some message;
  attempts = p.attempts + 1;
})

-- `getLedgerDO(env, merchant).postTransaction(payload)`
unfoldable pub call_post : Attempt → ℕ → PostingPayload → Platform → Platform × PostingResult
call_post a merchant p x =
    let (s, m, r) =
      post_transaction (env_for a.env merchant) a.reply a.now a.later p (x.books merchant)
        x.mirror in
    (record x { mirror = m; books = set_book merchant s x.books }, r)

-- `getLedgerDO(env, merchant).drainOutbox()`
unfoldable pub call_drain : Attempt → ℕ → Platform → Platform
call_drain a merchant x =
    let (s, m, r) =
      drain_outbox (env_for a.env merchant) true a.drain_accepts a.drain_now a.drain_retry_at
        a.drain_synced_at (x.books merchant) x.mirror in
    record x { mirror = m; books = set_book merchant s x.books }

-- `writeLedgerAuditTrail`: `none` where it throws.
unfoldable pub heal : Attempt → PostingPayload → ℕ → Platform → Platform × Option RowEnding
heal a p at x =
    let (found, m) = write_ledger_audit_trail a.reply p at x.mirror in
    (record x { mirror = m }, elim found [ none ↦ none | some _ ↦ some healed ])

unfoldable pub quarantine_failed :
    Attempt → MirrorPosting → PostingErrorCode → Platform → Platform × RowEnding × List Page
quarantine_failed a row code x =
    if is_deterministic code
    then (
      reject_posting row.tx_id (join ("[" ∷ text_of_code code ∷ "] " ∷ a.message ∷ [])) x,
      RowEnding.rejected,
      posting_rejected row.tx_id row.merchant_id ∷ [],
    )
    else if leb max_pending_attempts (row.attempts + 1)
    then (
      reject_posting row.tx_id (join ("exhausted retries: " ∷ a.message ∷ [])) x,
      RowEnding.rejected,
      posting_exhausted row.tx_id row.merchant_id ∷ [],
    )
    else (bump_attempts row.tx_id a.message x, RowEnding.failed, [])

-- The outbox's drain after a posting.
unfoldable pub drain_after :
    Transport → Attempt → MirrorPosting → Platform → Platform × Option RowEnding
drain_after delivered a row x = (call_drain a row.merchant_id x, some replayed)
drain_after (lost_before _) a row x = (x, none)
drain_after (lost_after _) a row x = (call_drain a row.merchant_id x, none)

-- The rest of a row's turn, from the result of `postTransaction`.
unfoldable pub settle_replay :
    PostingStatus
    → Attempt
    → MirrorPosting
    → PostingResult
    → Platform
    → Platform × Option RowEnding × List Page
settle_replay PostingStatus.failed a row r x =
    let (x', e, pages) = quarantine_failed a row (code_or_internal r.error_code) x in
    (x', some e, pages)
settle_replay PostingStatus.duplicate a row r x =
    let (x', e) = heal a row.payload r.posted_at x in (x', e, [])
settle_replay PostingStatus.posted a row r x =
    let (x', e) = drain_after a.drain a row x in (x', e, [])

-- `try { … } catch (err) { … }` around the posting, and what follows it.
unfoldable pub replay_over :
    Transport → Attempt → MirrorPosting → Platform → Platform × Option RowEnding × List Page
replay_over delivered a row x =
    let (x', r) = call_post a row.merchant_id row.payload x in settle_replay r.status a row r x'
replay_over (lost_before message) a row x = (bump_attempts row.tx_id message x, some failed, [])
replay_over (lost_after message) a row x =
    (bump_attempts row.tx_id message (call_post a row.merchant_id row.payload x).0, some failed, [])

-- The turn of one row: `none` where it throws, which ends the pass.
abbrev pub replay_row : Attempt → MirrorPosting → Platform → Platform × Option RowEnding × List Page
replay_row a = replay_over a.post a

abbrev pub count_ending : RowEnding → PendingReconcileResult → PendingReconcileResult
count_ending replayed t = record t { replayed = t.replayed + 1 }
count_ending healed t = record t { healed = t.healed + 1 }
count_ending rejected t = record t { rejected = t.rejected + 1 }
count_ending failed t = record t { failed = t.failed + 1 }

-- The loop. The calls of the row at place `k` find the environment `plan k`.
unfoldable pub replay_rows :
    (ℕ → Attempt)
    → ℕ
    → List MirrorPosting
    → PendingReconcileResult
    → List Page
    → Platform
    → Platform × Option PendingReconcileResult × List Page
replay_rows plan k [] t pages x = (x, some t, pages)
replay_rows plan k (row ∷ rows) t pages x =
    let (x', e, more) = replay_row (plan k) row x in
    elim e [
      | none ↦ (x', none, pages ++ more)
      | some ending ↦ replay_rows plan (suc k) rows (count_ending ending t) (pages ++ more) x'
    ]
