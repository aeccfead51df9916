-- ===== src/Ledger/Post/Replay.antt =====
-- Idempotence and error paths of `postTransaction` in src/do/ledger-do.ts.
use edgepay_cf.Prelude.{
  ℕ, ◌≡◌, refl, String, true, List, [], ◌∷◌, ◌++◌, none, some, arith, str_eq_iff,
}
use edgepay_cf.Ledger.Types.{PostingPayload, PostingResult, posted, duplicate, failed, Checked, ok}
use edgepay_cf.Ledger.Shape.{validate_posting_shape}
use edgepay_cf.Ledger.Shape.Balanced.{IsWellShaped, validate_posting_shape_iff}
use edgepay_cf.Ledger.Book.{PostedTransaction, find_posted}
use edgepay_cf.Ledger.State.{LedgerDo, LedgerEnv}
use edgepay_cf.Ledger.Mirror.{Mirror, D1Reply}
use edgepay_cf.Ledger.Post.{seed_chart, post_seeded, post_inner, post_transaction, settle}
use edgepay_cf.Ledger.Post.Outcome.{
  SameBook, Committed, refused, finished, unsynced, PostEnding, rejected, replayed, written,
  post_seeded_ending, posted_row, replay,
}

find_posted-append :
    (t : String) (xs : List PostedTransaction) (y : PostedTransaction)
    → find_posted t (xs ++ (y ∷ []))
      ≡ elim (find_posted t xs) [ some x ↦ some x | none ↦ find_posted t (y ∷ []) ]
find_posted-append t [] y = refl
find_posted-append t (x ∷ xs) y = ground (arith, find_posted-append t xs y)

pub seed_chart_tables :
    (currency : String) (s : LedgerDo)
    → let s' = seed_chart currency s in
      (s'.posted ≡ s.posted) × (s'.journal ≡ s.journal) × (s'.outbox ≡ s.outbox)
unfolding seed_chart
seed_chart_tables currency s = ground arith

module _ (env : LedgerEnv) (at : ℕ) (p : PostingPayload) (s s' : LedgerDo)
    (r : Checked PostingResult) where
  Committed-stays :
      (ds : _)
      → Committed at p ds s s'
      → (t : String) (x : PostedTransaction) → find_posted t s.posted ≡ some x
      → find_posted t s'.posted ≡ some x
  Committed-stays ds k t x f =
      rw k.posted (ground (arith, find_posted-append t s.posted (posted_row at p)))

  PostEnding-stays :
      PostEnding env at p s s' r
      → (t : String) (x : PostedTransaction) → find_posted t s.posted ≡ some x
      → find_posted t s'.posted ≡ some x
  PostEnding-stays (rejected same e q) t x f = rw same.same_posted f
  PostEnding-stays (replayed same v u g q) t x f = rw same.same_posted f
  PostEnding-stays (written v ds c (refused same e q)) t x f = rw same.same_posted f
  PostEnding-stays (written v ds c (finished k tid q)) t x f = Committed-stays ds k t x f
  PostEnding-stays (written v ds c (unsynced o k q)) t x f = Committed-stays ds k t x f

  pub Committed-recorded :
      (ds : _) → Committed at p ds s s' → find_posted p.tx_id s'.posted ≡ some (posted_row at p)
  Committed-recorded ds k = rw k.posted (
      ground (
        arith,
        k.fresh_tx,
        find_posted-append p.tx_id s.posted (posted_row at p),
        str_eq_iff p.tx_id p.tx_id,
      ))

  PostEnding-recorded :
      (later : ℕ)
      → PostEnding env at p s s' r
      → (settle p later r).status ≡ posted
      → find_posted p.tx_id s'.posted ≡ some (posted_row at p)
  PostEnding-recorded later (rejected same e q) h = ground arith
  PostEnding-recorded later (replayed same v u g q) h = ground arith
  PostEnding-recorded later (written v ds c (refused same e q)) h = ground arith
  PostEnding-recorded later (written v ds c (finished k tid q)) h = Committed-recorded ds k
  PostEnding-recorded later (written v ds c (unsynced o k q)) h = ground arith

  PostEnding-failed :
      (later : ℕ)
      → PostEnding env at p s s' r
      → env.outbox_enabled ≡ true
      → (settle p later r).status ≡ failed
      → SameBook s s'
  PostEnding-failed later (rejected same e q) o h = same
  PostEnding-failed later (replayed same v u g q) o h = ground arith
  PostEnding-failed later (written v ds c (refused same e q)) o h = same
  PostEnding-failed later (written v ds c (finished k tid q)) o h = ground arith
  PostEnding-failed later (written v ds c (unsynced o' k q)) o h = ground arith

post_seeded_again :
    (env : LedgerEnv) (reply : D1Reply) (now later : ℕ) (p : PostingPayload) (s : LedgerDo)
    (m : Mirror) (x : PostedTransaction)
    → validate_posting_shape p ≡ ok tt
    → find_posted p.tx_id s.posted ≡ some x
    → post_seeded env reply now later p s m ≡ (s, m, ok (replay p x))
unfolding post_seeded
post_seeded_again env reply now later p s m x v f = rw (v, f, post_seeded)

module _ (env : LedgerEnv) (reply : D1Reply) (now later : ℕ) (p : PostingPayload) (s : LedgerDo)
    (m : Mirror) where
  -- A transaction that is registered stays registered, as it was, whatever is posted later.
  pub posted_stays :
      (t : String) (x : PostedTransaction)
      → find_posted t s.posted ≡ some x
      → find_posted t (post_transaction env reply now later p s m).0.posted ≡ some x
  unfolding post_transaction post_inner
  posted_stays t x f =
      PostEnding-stays env now p (seed_chart p.currency s) _ _
        (post_seeded_ending env reply now later p (seed_chart p.currency s) m) t x
        (rw (seed_chart_tables p.currency s).0 f)

  -- A posting that reports success is registered under its id, with the time that it reports.
  pub posted_recorded :
      (post_transaction env reply now later p s m).2.status ≡ posted
      → find_posted p.tx_id (post_transaction env reply now later p s m).0.posted
        ≡ some (posted_row now p)
  unfolding post_transaction post_inner
  posted_recorded h =
      PostEnding-recorded env now p (seed_chart p.currency s) _ _ later
        (post_seeded_ending env reply now later p (seed_chart p.currency s) m) h

  -- With the outbox in use, a posting that reports failure has changed no balance, no journal row,
  -- no registered transaction and no outbox event: at most the chart was seeded.
  pub failed_unchanged :
      env.outbox_enabled ≡ true
      → (post_transaction env reply now later p s m).2.status ≡ failed
      → SameBook (seed_chart p.currency s) (post_transaction env reply now later p s m).0
  unfolding post_transaction post_inner
  failed_unchanged o h =
      PostEnding-failed env now p (seed_chart p.currency s) _ _ later
        (post_seeded_ending env reply now later p (seed_chart p.currency s) m) o h

  -- A well-shaped posting whose id is registered is answered as a duplicate, with the time of the
  -- first posting; the book changes at most by seeding, and the mirror not at all.
  pub posted_again :
      (x : PostedTransaction)
      → IsWellShaped p
      → find_posted p.tx_id s.posted ≡ some x
      → let (s', m', r) = post_transaction env reply now later p s m in
        (r.status ≡ duplicate)
        × (r.posted_at ≡ x.posted_at)
        × (s' ≡ seed_chart p.currency s)
        × (m' ≡ m)
  unfolding post_transaction post_inner
  posted_again x w f =
      let again : post_seeded env reply now later p (seed_chart p.currency s) m
          ≡ (seed_chart p.currency s, m, ok (replay p x)) =
        post_seeded_again env reply now later p (seed_chart p.currency s) m x
          ((validate_posting_shape_iff p).1 w) (rw (seed_chart_tables p.currency s).0 f) in
      rw (again, post_inner) (refl, refl, refl, refl)
