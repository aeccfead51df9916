-- ===== src/Reconciliation/Replay.antt =====
-- What the turn of one row leaves in the books, src/services/reconciliation.ts.
use edgepay_cf.Prelude.{
  ◌≡◌, ◌≢◌, inl, inr, ◌∙◌, ap, ℕ, String, Bool, true, false, Bool-cases, some, arith, ◌==◌,
}
use edgepay_cf.Ledger.Types.{PostingPayload, PostingResult, PostingStatus, failed}
use edgepay_cf.Ledger.Book.{PostedTransaction, find_posted}
use edgepay_cf.Ledger.State.{LedgerDo}
use edgepay_cf.Ledger.Mirror.{MirrorPosting}
use edgepay_cf.Ledger.Outbox.Posted.{drain_outbox-posted}
use edgepay_cf.Ledger.Post.{post_transaction}
use edgepay_cf.Ledger.Post.Replay.{posted_stays}
use edgepay_cf.Posting.{Platform, env_for, set_book, code_or_internal}
use edgepay_cf.Posting.Accepted.{accepted-IsRegistered}
use edgepay_cf.Posting.Held.{Holds, set_book-same}
use edgepay_cf.Reconciliation.{
  Attempt, Transport, delivered, lost_before, lost_after, RowEnding, replayed, healed,
  bump_attempts, reject_posting, call_post, call_drain, heal, quarantine_failed, drain_after,
  settle_replay, replay_over, replay_row,
}

abbrev IsHeld : (ℕ → LedgerDo) → ℕ → String → PostedTransaction → Type 0
IsHeld books merchant t row = find_posted t (books merchant).posted ≡ some row

set_book-IsHeld :
    (k merchant : ℕ) (s : LedgerDo) (books : ℕ → LedgerDo) (t : String) (row : PostedTransaction)
    → (IsHeld books k t row → find_posted t s.posted ≡ some row)
    → IsHeld books merchant t row
    → IsHeld (set_book k s books) merchant t row
set_book-IsHeld k merchant s books t row kept h = elim (Bool-cases (merchant == k)) [
  | inr q ↦ rw q h
  | inl q ↦ let same : merchant ≡ k = ground (arith, q) in rw q (kept (rw same at h))
]

call_post-Holds :
    (a : Attempt) (k : ℕ) (p : PostingPayload) (x : Platform) (merchant : ℕ) (t : String)
    → Holds x merchant t
    → Holds (call_post a k p x).0 merchant t
unfolding call_post
call_post-Holds a k p x merchant t (row, h) = (
  row,
  set_book-IsHeld k merchant _ x.books t row
      (posted_stays (env_for a.env k) a.reply a.now a.later p (x.books k) x.mirror t row) h,
)

call_drain-Holds :
    (a : Attempt) (k : ℕ) (x : Platform) (merchant : ℕ) (t : String)
    → Holds x merchant t
    → Holds (call_drain a k x) merchant t
unfolding call_drain
call_drain-Holds a k x merchant t (row, h) = (
  row,
  set_book-IsHeld k merchant _ x.books t row
      (λ g.
        rw
          (drain_outbox-posted (env_for a.env k) true a.drain_accepts a.drain_now a.drain_retry_at
            a.drain_synced_at (x.books k) x.mirror)
          g)
      h,
)

call_post-registers :
    (a : Attempt) (k : ℕ) (p : PostingPayload) (x : Platform)
    → (call_post a k p x).1.status ≢ failed
    → Holds (call_post a k p x).0 k p.tx_id
unfolding call_post
call_post-registers a k p x h =
    let run = post_transaction (env_for a.env k) a.reply a.now a.later p (x.books k) x.mirror in
    let (row, found) =
      accepted-IsRegistered (env_for a.env k) a.reply a.now a.later p (x.books k) x.mirror h in
    (row, ap (λ s. find_posted p.tx_id s.posted) (set_book-same k run.0 x.books) ∙ found)

pub quarantine_failed-books :
    (a : Attempt) (row : MirrorPosting) (code : _) (x : Platform)
    → (quarantine_failed a row code x).0.books ≡ x.books
unfolding quarantine_failed bump_attempts reject_posting
quarantine_failed-books a row code x = ground arith

module _ (a : Attempt) (row : MirrorPosting) (merchant : ℕ) (t : String) where
  drain_after-Holds :
      (d : Transport) (x : Platform)
      → Holds x merchant t
      → Holds (drain_after d a row x).0 merchant t
  unfolding drain_after
  drain_after-Holds delivered x h = call_drain-Holds a row.merchant_id x merchant t h
  drain_after-Holds (lost_before _) x h = h
  drain_after-Holds (lost_after _) x h = call_drain-Holds a row.merchant_id x merchant t h

  settle_replay-Holds :
      (s : PostingStatus) (r : PostingResult) (x : Platform)
      → Holds x merchant t
      → Holds (settle_replay s a row r x).0 merchant t
  unfolding settle_replay heal
  settle_replay-Holds failed r x h =
      rw (quarantine_failed-books a row (code_or_internal r.error_code) x) h
  settle_replay-Holds PostingStatus.duplicate r x h = h
  settle_replay-Holds PostingStatus.posted r x h = drain_after-Holds a.drain x h

  replay_over-Holds :
      (d : Transport) (x : Platform)
      → Holds x merchant t
      → Holds (replay_over d a row x).0 merchant t
  unfolding replay_over bump_attempts
  replay_over-Holds (lost_before _) x h = h
  replay_over-Holds (lost_after _) x h =
      call_post-Holds a row.merchant_id row.payload x merchant t h
  replay_over-Holds delivered x h =
      let run = call_post a row.merchant_id row.payload x in
      settle_replay-Holds run.1.status run.1 run.0
        (call_post-Holds a row.merchant_id row.payload x merchant t h)

  -- A row's turn takes no transaction out of a book.
  pub replay_row-Holds :
      (x : Platform) → Holds x merchant t → Holds (replay_row a row x).0 merchant t
  replay_row-Holds = replay_over-Holds a.post

-- The endings that follow an accepted posting.
abbrev pub is_settled : RowEnding → Bool
is_settled replayed = true
is_settled healed = true
is_settled _ = false

module _ (a : Attempt) (row : MirrorPosting) (e : RowEnding) (settled : is_settled e ≡ true) where
  quarantine_failed-unsettled :
      (code : _) (x : Platform) → is_settled (quarantine_failed a row code x).1 ≡ false
  unfolding quarantine_failed
  quarantine_failed-unsettled code x = ground arith

  settle_replay-accepted :
      (s : PostingStatus) (r : PostingResult) (x : Platform)
      → (settle_replay s a row r x).1 ≡ some e
      → s ≢ failed
  unfolding settle_replay
  settle_replay-accepted failed r x q =
      ground (arith, quarantine_failed-unsettled (code_or_internal r.error_code) x, settled)
  settle_replay-accepted PostingStatus.duplicate r x q = λ u. cc u
  settle_replay-accepted PostingStatus.posted r x q = λ u. cc u

  replay_over-registers :
      (d : Transport) (x : Platform)
      → (replay_over d a row x).1 ≡ some e
      → Holds (replay_over d a row x).0 row.merchant_id row.payload.tx_id
  unfolding replay_over
  replay_over-registers (lost_before _) x q = ground (arith, settled)
  replay_over-registers (lost_after _) x q = ground (arith, settled)
  replay_over-registers delivered x q =
      let run = call_post a row.merchant_id row.payload x in
      settle_replay-Holds a row row.merchant_id row.payload.tx_id run.1.status run.1 run.0 (
        call_post-registers a row.merchant_id row.payload x
          (settle_replay-accepted run.1.status run.1 run.0 q))

  -- A row that is counted as replayed or healed is in its merchant's book.
  pub replay_row-registers :
      (x : Platform)
      → (replay_row a row x).1 ≡ some e
      → Holds (replay_row a row x).0 row.merchant_id row.payload.tx_id
  replay_row-registers = replay_over-registers a.post
