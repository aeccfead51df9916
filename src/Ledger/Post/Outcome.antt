-- ===== src/Ledger/Post/Outcome.antt =====
-- The ways in which `postInner` of src/do/ledger-do.ts ends, each with what it does to the tables.
use edgepay_cf.Prelude.{
  ℕ, ◌≡◌, refl, inl, inr, false, [], ◌∷◌, ◌++◌, Option, none, some, arith, Bool-cases, Option-cases,
}
use edgepay_cf.Prelude.Int.{ℤ}
use edgepay_cf.Prelude.Dict.{Dict}
use edgepay_cf.Ledger.Types.{
  PostingPayload, PostingResult, duplicate, PostingErrorCode, Checked, ok, err, internal,
  Checked-cases,
}
use edgepay_cf.Ledger.Shape.{validate_posting_shape}
use edgepay_cf.Ledger.Book.{PostedTransaction, find_posted, apply_deltas, journal_rows}
use edgepay_cf.Ledger.Funds.{check_balances}
use edgepay_cf.Ledger.State.{LedgerDo, LedgerEnv, get_merchant_id}
use edgepay_cf.Ledger.Mirror.{Mirror, D1Reply, write_ledger_audit_trail}
use edgepay_cf.Ledger.Post.{
  commit, after_commit, write_posting, post_seeded, fails_do_writes, kick_outbox_alarm, succeeded,
  resolve_tenant,
}

-- The tables of the book are the same.
pub record SameBook (s s' : LedgerDo) : Type 0 where
  pub same_accounts : s'.accounts ≡ s.accounts
  pub same_journal : s'.journal ≡ s.journal
  pub same_posted : s'.posted ≡ s.posted
  pub same_outbox : s'.outbox ≡ s.outbox

abbrev pub posted_row : ℕ → PostingPayload → PostedTransaction
posted_row at p = record {
  tx_id = p.tx_id;
  reference_type = p.reference_type;
  reference_id = p.reference_id;
  currency = p.currency;
  description = p.description;
  posted_at = at;
}

-- The posting is in the tables, all of it.
pub record Committed (at : ℕ) (p : PostingPayload) (ds : Dict ℤ) (s s' : LedgerDo) : Type 0 where
  pub fresh_tx : find_posted p.tx_id s.posted ≡ none
  pub accounts : s'.accounts ≡ apply_deltas at ds s.accounts
  pub journal : s'.journal ≡ s.journal ++ journal_rows at s.journal_seq p.tx_id p.entries
  pub posted : s'.posted ≡ s.posted ++ (posted_row at p ∷ [])

resolve_tenant-SameBook :
    (env : LedgerEnv) (p : PostingPayload) (s : LedgerDo)
    → SameBook s (resolve_tenant env p s).1
      × ((resolve_tenant env p s).1.journal_seq ≡ s.journal_seq)
unfolding resolve_tenant get_merchant_id
resolve_tenant-SameBook env p s = ground arith

commit-Committed :
    (at merchant : ℕ) (p : PostingPayload) (ds : Dict ℤ) (s s' : LedgerDo)
    → commit at merchant p ds s ≡ ok s'
    → Committed at p ds s s'
unfolding commit
commit-Committed at merchant p ds s s' h = elim (Option-cases (find_posted p.tx_id s.posted)) [
  | inl q ↦ ground arith
  | inr (a, q) ↦ ground arith
]

-- How a posting whose deltas are covered ends.
pub data Ending (env : LedgerEnv) (at : ℕ) (p : PostingPayload) (ds : Dict ℤ) (s s' : LedgerDo)
    (r : Checked PostingResult) : Type 0 where
  refused : SameBook s s' → (e : PostingErrorCode) → r ≡ err e → Ending env at p ds s s' r
  finished :
      Committed at p ds s s'
      → (tid : Option ℕ) → r ≡ ok (succeeded p at tid)
      → Ending env at p ds s s' r
  unsynced :
      env.outbox_enabled ≡ false
      → Committed at p ds s s'
      → r ≡ err internal
      → Ending env at p ds s s' r

after_commit-Ending :
    (env : LedgerEnv) (reply : D1Reply) (now later merchant : ℕ) (p : PostingPayload) (ds : Dict ℤ)
    (s0 s : LedgerDo) (m : Mirror)
    → Committed now p ds s0 s
    → let (s', _, r) = after_commit env reply now later merchant p s m in
      Ending env now p ds s0 s' r
unfolding after_commit kick_outbox_alarm
after_commit-Ending env reply now later merchant p ds s0 s m c =
    elim (Bool-cases env.outbox_enabled) [
      | inl q ↦ finished (ground (arith, c)) none (ground arith)
      | inr q ↦ elim (Option-cases (write_ledger_audit_trail reply p now m).0) [
        | inl q' ↦ unsynced q (ground (arith, c)) (ground arith)
        | inr (tid, q') ↦ finished (ground (arith, c)) (some tid) (ground arith)
      ]
    ]

pub write_posting-Ending :
    (env : LedgerEnv) (reply : D1Reply) (now later : ℕ) (p : PostingPayload) (ds : Dict ℤ)
    (s : LedgerDo) (m : Mirror)
    → let (s', _, r) = write_posting env reply now later p ds s m in Ending env now p ds s s' r
unfolding write_posting
write_posting-Ending env reply now later p ds s m = elim (Bool-cases (fails_do_writes s)) [
  | inl q ↦ refused (ground arith) internal (ground arith)
  | inr q ↦
      let (merchant, s2) = resolve_tenant env p s in
      let same = resolve_tenant-SameBook env p s in
      elim (Checked-cases (commit now merchant p ds s2)) [
        | inl (e, q') ↦ rw (q, q') (refused same.0 e refl)
        | inr (s3, q') ↦
            rw (q, q')
              (after_commit-Ending env reply now later merchant p ds s s3 m
                (ground (arith, same, commit-Committed now merchant p ds s2 s3 q')))
      ]
]

abbrev pub replay : PostingPayload → PostedTransaction → PostingResult
replay p t = record {
  status = duplicate;
  tx_id = p.tx_id;
  posted_at = t.posted_at;
  ledger_transaction_id = none;
  error_code = none;
}

-- How a posting ends on a book `s` whose chart is seeded.
pub data PostEnding (env : LedgerEnv) (at : ℕ) (p : PostingPayload) (s s' : LedgerDo)
    (r : Checked PostingResult) : Type 0 where
  rejected : SameBook s s' → (e : PostingErrorCode) → r ≡ err e → PostEnding env at p s s' r
  replayed :
      SameBook s s'
      → validate_posting_shape p ≡ ok tt
      → (t : PostedTransaction) → find_posted p.tx_id s.posted ≡ some t
      → r ≡ ok (replay p t)
      → PostEnding env at p s s' r
  written :
      validate_posting_shape p ≡ ok tt
      → (ds : Dict ℤ) → check_balances s.accounts p.entries p.currency ≡ ok ds
      → Ending env at p ds s s' r
      → PostEnding env at p s s' r

SameBook-refl : (s : LedgerDo) → SameBook s s
SameBook-refl s = ground arith

pub post_seeded_ending :
    (env : LedgerEnv) (reply : D1Reply) (now later : ℕ) (p : PostingPayload) (s : LedgerDo)
    (m : Mirror)
    → let (s', _, r) = post_seeded env reply now later p s m in PostEnding env now p s s' r
unfolding post_seeded
post_seeded_ending env reply now later p s m = elim (Checked-cases (validate_posting_shape p)) [
  | inl (e, q) ↦ rw (q, post_seeded) (rejected (SameBook-refl s) e refl)
  | inr (u, q) ↦ elim (Option-cases (find_posted p.tx_id s.posted)) [
    | inr (t, q') ↦ rw (q, q', post_seeded) (replayed (SameBook-refl s) q t q' refl)
    | inl q' ↦ elim (Checked-cases (check_balances s.accounts p.entries p.currency)) [
      | inl (e, q'') ↦ rw (q, q', q'', post_seeded) (rejected (SameBook-refl s) e refl)
      | inr (ds, q'') ↦
          rw (q, q', q'', post_seeded)
            (written q ds q'' (write_posting-Ending env reply now later p ds s m))
    ]
  ]
]
