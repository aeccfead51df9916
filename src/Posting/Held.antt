-- ===== src/Posting/Held.antt =====
-- What the books hold after a posting of src/services/ledger.ts.
use edgepay_cf.Prelude.{
  ℕ, ◌≡◌, ◌≢◌, inl, inr, refl, sym, ◌∙◌, ap, String, List, Option, some, arith, Bool-cases, ◌==◌,
}
use edgepay_cf.Ledger.Types.{PostingPayload, PostingResult, failed}
use edgepay_cf.Ledger.Book.{find_posted}
use edgepay_cf.Ledger.State.{LedgerDo}
use edgepay_cf.Ledger.Post.{post_transaction, seed_chart}
use edgepay_cf.Ledger.Post.Outcome.{SameBook}
use edgepay_cf.Ledger.Post.Replay.{posted_stays, seed_chart_tables}
use edgepay_cf.Posting.{
  LedgerAccount, Platform, done, Outcome-cases, PostTransactionInput, Call, env_for, set_book,
  account_rows, build_entries, build_payload, rethrow, send_payload, post,
}
use edgepay_cf.Posting.Accepted.{IsRegistered, accepted-IsRegistered, registered-SameBook}

-- The merchant's book has registered the transaction.
abbrev pub Holds : Platform → ℕ → String → Type 0
Holds x merchant t = IsRegistered (x.books merchant) t

-- Nothing was written to a book, beyond its chart.
pub record Unwritten (s s' : LedgerDo) : Type 0 where
  pub journal : s'.journal ≡ s.journal
  pub posted : s'.posted ≡ s.posted
  pub outbox : s'.outbox ≡ s.outbox

pub Unwritten-refl : (s : LedgerDo) → Unwritten s s
Unwritten-refl s = record { journal = refl; posted = refl; outbox = refl }

SameBook-Unwritten :
    (currency : String) (s s' : LedgerDo) → SameBook (seed_chart currency s) s' → Unwritten s s'
SameBook-Unwritten currency s s' h =
    let (a, b, c) = seed_chart_tables currency s in
    record { journal = h.same_journal ∙ b; posted = h.same_posted ∙ a; outbox = h.same_outbox ∙ c }

pub set_book-same : (k : ℕ) (s : LedgerDo) (f : ℕ → LedgerDo) → set_book k s f k ≡ s
set_book-same k s f = ground arith

build_payload-key :
    (d : _) (accounts : List LedgerAccount) (t uuid : String) (i : PostTransactionInput)
    (p : PostingPayload)
    → build_payload d accounts (some t) uuid i ≡ done p
    → (p.tx_id ≡ t) × (p.merchant_id ≡ i.merchant_id)
unfolding build_payload
build_payload-key d accounts t uuid i p q =
    elim (Outcome-cases
      (build_entries d (account_rows i.merchant_id i.entries accounts) i.entries)) [
        | inr (f, u) ↦ ground (arith, q, u)
        | inl (xs, u) ↦ ground (arith, q, u)
      ]

send_payload-Holds :
    (c : Call) (p : PostingPayload) (x : Platform) (merchant : ℕ) (t : String)
    → Holds x merchant t
    → Holds (send_payload c p x).0 merchant t
send_payload-Holds c p x merchant t (row, h) = elim (Bool-cases (merchant == p.merchant_id)) [
  | inr q ↦ (row, rw q h)
  | inl q ↦
      let same : merchant ≡ p.merchant_id = ground (arith, q) in
      (
        row,
        rw q (
            posted_stays (env_for c.env p.merchant_id) c.reply c.now c.later p
              (x.books p.merchant_id) x.mirror t row (rw same at h)),
      )
]

pub post-Holds :
    (c : Call) (key : Option String) (i : PostTransactionInput) (x : Platform) (merchant : ℕ)
    (t : String)
    → Holds x merchant t
    → Holds (post c key i x).0 merchant t
unfolding post
post-Holds c key i x merchant t h =
    elim (Outcome-cases (build_payload c.decimals x.accounts key c.uuid i)) [
      | inr (f, q) ↦ rw (q, post) h
      | inl (p, q) ↦ rw (q, post) (send_payload-Holds c p x merchant t h)
    ]

rethrow-accepted : (r r' : PostingResult) → rethrow r ≡ done r' → r.status ≢ failed
rethrow-accepted r r' q h = ground (arith, q, h)

pub post-registers :
    (c : Call) (t : String) (i : PostTransactionInput) (x : Platform) (r : PostingResult)
    → (post c (some t) i x).1 ≡ done r
    → Holds (post c (some t) i x).0 i.merchant_id t
unfolding post
post-registers c t i x r h =
    elim (Outcome-cases (build_payload c.decimals x.accounts (some t) c.uuid i)) [
      | inr (f, q) ↦ ground (arith, q, rw (q, post) at h)
      | inl (p, q) ↦
          let (tx, merchant) = build_payload-key c.decimals x.accounts t c.uuid i p q in
          let run =
            post_transaction (env_for c.env p.merchant_id) c.reply c.now c.later p
              (x.books p.merchant_id) x.mirror in
          let accepted : run.2.status ≢ failed = rethrow-accepted run.2 r (rw (q, post) at h) in
          let (row, found) =
            accepted-IsRegistered (env_for c.env p.merchant_id) c.reply c.now c.later p
              (x.books p.merchant_id) x.mirror accepted in
          rw (q, post)
            (rw (sym merchant, sym tx)
              (
                row,
                ap (λ s. find_posted p.tx_id s.posted) (set_book-same p.merchant_id run.0 x.books)
                    ∙ found,
              ))
    ]

pub post-Unwritten :
    (c : Call) (t : String) (i : PostTransactionInput) (x : Platform)
    → Holds x i.merchant_id t
    → (k : ℕ) → Unwritten (x.books k) ((post c (some t) i x).0.books k)
unfolding post
post-Unwritten c t i x h k =
    elim (Outcome-cases (build_payload c.decimals x.accounts (some t) c.uuid i)) [
      | inr (f, q) ↦ rw (q, post) (Unwritten-refl (x.books k))
      | inl (p, q) ↦
          let (tx, merchant) = build_payload-key c.decimals x.accounts t c.uuid i p q in
          elim (Bool-cases (k == p.merchant_id)) [
            | inr u ↦ rw (q, post, u) (Unwritten-refl (x.books k))
            | inl u ↦
                let same : k ≡ p.merchant_id = ground (arith, u) in
                let held : Holds x p.merchant_id p.tx_id = rw (merchant, tx) h in
                rw (q, post, u)
                  (rw same (
                    SameBook-Unwritten p.currency (x.books p.merchant_id) _ (
                      registered-SameBook (env_for c.env p.merchant_id) c.reply c.now c.later p
                        (x.books p.merchant_id) x.mirror held)))
          ]
    ]
