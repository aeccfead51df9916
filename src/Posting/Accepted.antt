-- ===== src/Posting/Accepted.antt =====
-- What the book of src/do/ledger-do.ts holds after `postTransaction` took a payload, and that a
-- payload it holds is not written again; for the callers in src/services/ledger.ts.
use edgepay_cf.Prelude.{ℕ, String, ◌≡◌, ◌≢◌, some, arith}
use edgepay_cf.Ledger.Types.{PostingPayload, PostingResult, failed, Checked}
use edgepay_cf.Ledger.Book.{PostedTransaction, find_posted}
use edgepay_cf.Ledger.State.{LedgerDo, LedgerEnv}
use edgepay_cf.Ledger.Mirror.{Mirror, D1Reply}
use edgepay_cf.Ledger.Post.{seed_chart, post_transaction, post_inner, settle}
use edgepay_cf.Ledger.Post.Outcome.{
  SameBook, refused, finished, unsynced, PostEnding, rejected, replayed, written,
  post_seeded_ending, posted_row,
}
use edgepay_cf.Ledger.Post.Replay.{seed_chart_tables, Committed-recorded}

-- The book has registered the transaction.
abbrev pub IsRegistered : LedgerDo → String → Type 0
IsRegistered s t = (row : PostedTransaction) × (find_posted t s.posted ≡ some row)

module _ (env : LedgerEnv) (at : ℕ) (p : PostingPayload) (s s' : LedgerDo)
    (r : Checked PostingResult) where
  PostEnding-IsRegistered :
      (later : ℕ)
      → PostEnding env at p s s' r
      → (settle p later r).status ≢ failed
      → IsRegistered s' p.tx_id
  PostEnding-IsRegistered later (rejected same e q) h = ground (arith, q)
  PostEnding-IsRegistered later (replayed same v t g q) h = (t, rw same.same_posted g)
  PostEnding-IsRegistered later (written v ds c (refused same e q)) h = ground (arith, q)
  PostEnding-IsRegistered later (written v ds c (finished k tid q)) h =
      (posted_row at p, Committed-recorded env at p s s' r ds k)
  PostEnding-IsRegistered later (written v ds c (unsynced o k q)) h = ground (arith, q)

  PostEnding-SameBook : PostEnding env at p s s' r → IsRegistered s p.tx_id → SameBook s s'
  PostEnding-SameBook (rejected same e q) x = same
  PostEnding-SameBook (replayed same v t g q) x = same
  PostEnding-SameBook (written v ds c (refused same e q)) x = same
  PostEnding-SameBook (written v ds c (finished k tid q)) (row, x) = ground (arith, k.fresh_tx, x)
  PostEnding-SameBook (written v ds c (unsynced o k q)) (row, x) = ground (arith, k.fresh_tx, x)

module _ (env : LedgerEnv) (reply : D1Reply) (now later : ℕ) (p : PostingPayload) (s : LedgerDo)
    (m : Mirror) where
  pub accepted-IsRegistered :
      (post_transaction env reply now later p s m).2.status ≢ failed
      → IsRegistered (post_transaction env reply now later p s m).0 p.tx_id
  unfolding post_transaction post_inner
  accepted-IsRegistered h =
      PostEnding-IsRegistered env now p (seed_chart p.currency s) _ _ later
        (post_seeded_ending env reply now later p (seed_chart p.currency s) m) h

  pub registered-SameBook :
      IsRegistered s p.tx_id
      → SameBook (seed_chart p.currency s) (post_transaction env reply now later p s m).0
  unfolding post_transaction post_inner
  registered-SameBook (row, x) =
      PostEnding-SameBook env now p (seed_chart p.currency s) _ _
        (post_seeded_ending env reply now later p (seed_chart p.currency s) m)
        (row, rw (seed_chart_tables p.currency s).0 x)
