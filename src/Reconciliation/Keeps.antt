-- ===== src/Reconciliation/Keeps.antt =====
-- What a pass of src/services/reconciliation.ts keeps: the soundness of every book. And the row whose
-- posting a book holds already.
use edgepay_cf.Prelude.{
  ◌≡◌, true, inl, inr, refl, ℕ, suc, List, [], ◌∷◌, ◌++◌, some, Bool-cases, Option-cases, ◌==◌,
}
use edgepay_cf.Ledger.Types.{PostingPayload, PostingResult, PostingStatus, duplicate}
use edgepay_cf.Ledger.State.{LedgerDo}
use edgepay_cf.Ledger.Book.{PostedTransaction, find_posted}
use edgepay_cf.Ledger.Mirror.{MirrorPosting, answers, write_ledger_audit_trail}
use edgepay_cf.Ledger.Mirror.Replay.{IsMirrored, batch-IsMirrored}
use edgepay_cf.Ledger.Mirror.Marked.{IsMarked, batch-IsMarked}
use edgepay_cf.Ledger.Shape.Balanced.{IsWellShaped}
use edgepay_cf.Ledger.Post.Keeps.{IsSound, post_transaction-IsSound}
use edgepay_cf.Ledger.Post.Replay.{posted_again}
use edgepay_cf.Ledger.System.Drained.{drain_outbox-Settled}
use edgepay_cf.Posting.{Platform, env_for, set_book}
use edgepay_cf.Reconciliation.Replay.{quarantine_failed-books}
use edgepay_cf.Reconciliation.{
  Attempt, Transport, delivered, lost_before, lost_after, RowEnding, PendingReconcileResult, Page,
  call_post, call_drain, bump_attempts, heal, drain_after, settle_replay, replay_over, replay_row,
  replay_rows, count_ending,
}
use edgepay_cf.Reconciliation.Pass.{no_rows, select_stale, reconcile_pending_postings}

abbrev pub AllSound : (ℕ → LedgerDo) → Type 0
AllSound books = (k : ℕ) → IsSound (books k)

set_book-AllSound :
    (k : ℕ) (s : LedgerDo) (books : ℕ → LedgerDo)
    → IsSound s
    → AllSound books
    → AllSound (set_book k s books)
set_book-AllSound k s books h all j = elim (Bool-cases (j == k)) [
  | inl q ↦ rw q h
  | inr q ↦ rw q (all j)
]

call_post-AllSound :
    (a : Attempt) (k : ℕ) (p : PostingPayload) (x : Platform)
    → AllSound x.books
    → AllSound (call_post a k p x).0.books
unfolding call_post
call_post-AllSound a k p x h =
    set_book-AllSound k _ x.books
      (post_transaction-IsSound (env_for a.env k) a.reply a.now a.later p (x.books k) x.mirror
        (h k))
      h

pub call_drain-AllSound :
    (a : Attempt) (k : ℕ) (x : Platform) → AllSound x.books → AllSound (call_drain a k x).books
unfolding call_drain
call_drain-AllSound a k x h =
    let same =
      drain_outbox-Settled (env_for a.env k) true a.drain_accepts a.drain_now a.drain_retry_at
        a.drain_synced_at (x.books k) x.mirror in
    set_book-AllSound k _ x.books (rw (same.accounts, same.journal) (h k)) h

module _ (a : Attempt) (row : MirrorPosting) where
  drain_after-AllSound :
      (d : Transport) (x : Platform) → AllSound x.books → AllSound (drain_after d a row x).0.books
  unfolding drain_after
  drain_after-AllSound delivered x h = call_drain-AllSound a row.merchant_id x h
  drain_after-AllSound (lost_before _) x h = h
  drain_after-AllSound (lost_after _) x h = call_drain-AllSound a row.merchant_id x h

  settle_replay-AllSound :
      (s : PostingStatus) (r : PostingResult) (x : Platform)
      → AllSound x.books
      → AllSound (settle_replay s a row r x).0.books
  unfolding settle_replay heal
  settle_replay-AllSound PostingStatus.failed r x h = rw (quarantine_failed-books a row _ x) h
  settle_replay-AllSound duplicate r x h = h
  settle_replay-AllSound PostingStatus.posted r x h = drain_after-AllSound a.drain x h

  replay_over-AllSound :
      (d : Transport) (x : Platform) → AllSound x.books → AllSound (replay_over d a row x).0.books
  unfolding replay_over bump_attempts
  replay_over-AllSound (lost_before _) x h = h
  replay_over-AllSound (lost_after _) x h = call_post-AllSound a row.merchant_id row.payload x h
  replay_over-AllSound delivered x h =
      let run = call_post a row.merchant_id row.payload x in
      settle_replay-AllSound run.1.status run.1 run.0
        (call_post-AllSound a row.merchant_id row.payload x h)

replay_rows-AllSound :
    (plan : ℕ → Attempt) (k : ℕ) (rows : List MirrorPosting) (t : PendingReconcileResult)
    (pages : List Page) (x : Platform)
    → AllSound x.books
    → AllSound (replay_rows plan k rows t pages x).0.books
unfolding replay_rows
replay_rows-AllSound plan k [] t pages x h = h
replay_rows-AllSound plan k (row ∷ rows) t pages x h =
    let run = replay_row (plan k) row x in
    let kept = replay_over-AllSound (plan k) row (plan k).post x h in
    elim (Option-cases run.1) [
      | inl q ↦ rw (q, replay_rows) kept
      | inr (e, q) ↦
          rw (q, replay_rows)
            (replay_rows-AllSound plan (suc k) rows (count_ending e t) (pages ++ run.2) run.0 kept)
    ]

-- A pass of the reconciliation, wherever it ends and whatever calls are lost, keeps every merchant's
-- book sound.
pub reconcile-AllSound :
    (plan : ℕ → Attempt) (reached : _) (limit grace now : ℕ) (x : Platform)
    → AllSound x.books
    → AllSound (reconcile_pending_postings plan reached limit grace now x).0.books
unfolding reconcile_pending_postings
reconcile-AllSound plan reached limit grace now x h =
    let rows = select_stale limit grace now x.mirror.postings in
    let kept = replay_rows-AllSound plan 0 rows no_rows [] x h in
    elim (Option-cases (replay_rows plan 0 rows no_rows [] x).1) [
      | inl q ↦ rw (q, reconcile_pending_postings) kept
      | inr (t, q) ↦ rw (q, reconcile_pending_postings) kept
    ]

-- A pending row whose well-shaped posting its merchant's book has registered, in a turn whose call of the
-- book returns and whose statements D1 takes, is counted as healed, whatever its attempts, and no
-- page is sent. The row is then marked as posted, at the time that the book gives, and the mirror has a
-- header of the posting's id and a row at the place of each of its entries.
pub registered_heals :
    (a : Attempt) (row : MirrorPosting) (x : Platform) (found : PostedTransaction)
    → a.post ≡ delivered
    → a.reply ≡ answers
    → IsWellShaped row.payload
    → find_posted row.payload.tx_id (x.books row.merchant_id).posted ≡ some found
    → let run = replay_row a row x in
      (run.1 ≡ some RowEnding.healed)
      × (run.2 ≡ [])
      × IsMarked row.payload found.posted_at run.0.mirror.postings
      × IsMirrored row.payload run.0.mirror
unfolding replay_over call_post settle_replay heal write_ledger_audit_trail
registered_heals a row x found d r w f =
    let p = row.payload in
    let (dup, dated, book, mir) =
      posted_again (env_for a.env row.merchant_id) a.reply a.now a.later p (x.books row.merchant_id)
        x.mirror found w f in
    rw (d, replay_over)
      (rw (dup, settle_replay)
        (rw (r, write_ledger_audit_trail)
          (refl, refl, rw⁻¹ (rw r at dated) (batch-IsMarked _ _ p _), batch-IsMirrored _ _ p _)))
