-- ===== src/Ledger/Post/Keeps.antt =====
-- Every call of `postTransaction` of src/do/ledger-do.ts keeps the book sound.
use edgepay_cf.Prelude.{ℕ, Bool-cases, inl, inr}
use edgepay_cf.Ledger.Types.{PostingPayload, PostingResult, Checked}
use edgepay_cf.Ledger.Chart.{default_chart_of_accounts}
use edgepay_cf.Ledger.Shape.Balanced.{validate_posting_shape_iff}
use edgepay_cf.Ledger.Funds.Covered.{check_balances_sound}
use edgepay_cf.Ledger.State.{LedgerDo, LedgerEnv}
use edgepay_cf.Ledger.Mirror.{Mirror, D1Reply}
use edgepay_cf.Ledger.Invariant.{IsSoundBook, seed_rows-IsSoundBook, commit-IsSoundBook}
use edgepay_cf.Ledger.Post.{is_seeded, seed_chart, post_inner, post_transaction}
use edgepay_cf.Ledger.Post.Outcome.{
  SameBook, refused, finished, unsynced, PostEnding, rejected, replayed, written,
  post_seeded_ending,
}

-- The book of a ledger object.
abbrev pub IsSound : LedgerDo → Type 0
IsSound s = IsSoundBook s.accounts s.journal

pub seed_chart-IsSound : (currency : _) (s : LedgerDo) → IsSound s → IsSound (seed_chart currency s)
unfolding seed_chart
seed_chart-IsSound currency s h = elim (Bool-cases (is_seeded s.seeded_currency currency)) [
  | inl q ↦ rw q h
  | inr q ↦ rw q (seed_rows-IsSoundBook currency default_chart_of_accounts s.accounts s.journal h)
]

SameBook-IsSound : (s s' : LedgerDo) → SameBook s s' → IsSound s → IsSound s'
SameBook-IsSound s s' same h = rw (same.same_accounts, same.same_journal) h

module _ (env : LedgerEnv) (at : ℕ) (p : PostingPayload) (s s' : LedgerDo)
    (r : Checked PostingResult) where
  Ending-IsSound : PostEnding env at p s s' r → IsSound s → IsSound s'
  Ending-IsSound (rejected same e q) h = SameBook-IsSound s s' same h
  Ending-IsSound (replayed same v t f q) h = SameBook-IsSound s s' same h
  Ending-IsSound (written v ds c (refused same e q)) h = SameBook-IsSound s s' same h
  Ending-IsSound (written v ds c (finished k tid q)) h =
      rw (k.accounts, k.journal)
        (commit-IsSoundBook at s.journal_seq p ds s.accounts s.journal
          ((validate_posting_shape_iff p).0 v)
          (check_balances_sound s.accounts p.entries p.currency ds c) h)
  Ending-IsSound (written v ds c (unsynced o k q)) h =
      rw (k.accounts, k.journal)
        (commit-IsSoundBook at s.journal_seq p ds s.accounts s.journal
          ((validate_posting_shape_iff p).0 v)
          (check_balances_sound s.accounts p.entries p.currency ds c) h)

-- A posting, however it ends, leaves a sound book sound: debits equal credits, each stored balance
-- is the one that the journal gives, and none is negative.
pub post_transaction-IsSound :
    (env : LedgerEnv) (reply : D1Reply) (now later : ℕ) (p : PostingPayload) (s : LedgerDo)
    (m : Mirror)
    → IsSound s
    → IsSound (post_transaction env reply now later p s m).0
unfolding post_transaction post_inner
post_transaction-IsSound env reply now later p s m h =
    let s0 = seed_chart p.currency s in
    Ending-IsSound env now p s0 _ _ (post_seeded_ending env reply now later p s0 m)
      (seed_chart-IsSound p.currency s h)
