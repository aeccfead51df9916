-- ===== src/Posting/Once.antt =====
-- That `postPaymentLedgerEntry` of src/services/ledger.ts posts a payment at most once.
use edgepay_cf.Prelude.{
  ℕ, ◌≡◌, inl, inr, refl, String, List, [], ◌∷◌, Option, some, arith, Option-cases,
}
use edgepay_cf.Ledger.Types.{PostingResult}
use edgepay_cf.Posting.{
  LedgerAccount, Platform, Outcome, done, throws, accounts_not_initialized, PostTransactionInput,
  Call, post, get_account_by_code,
}
use edgepay_cf.Posting.Entries.{payment_tx_id, payment_input, post_payment_ledger_entry}
use edgepay_cf.Posting.Held.{
  Holds, Unwritten, Unwritten-refl, post-Holds, post-registers, post-Unwritten,
}

-- The accounts that a payment needs, or that it lacks one of them.
data PaymentEnding (c : Call) (merchant intent : ℕ) (amount fee currency : String) (x : Platform)
    (r : Platform × Outcome PostingResult) : Type 0 where
  uninitialized :
      r ≡ (x, throws accounts_not_initialized)
      → PaymentEnding c merchant intent amount fee currency x r
  sent :
      (clearing revenue expense : LedgerAccount)
      → r
        ≡ post c
            (some (payment_tx_id merchant intent))
            (payment_input clearing revenue expense merchant intent amount fee currency)
            x
      → PaymentEnding c merchant intent amount fee currency x r

payment-PaymentEnding :
    (c : Call) (merchant intent : ℕ) (amount fee currency : String) (x : Platform)
    → PaymentEnding c merchant intent amount fee currency x
        (post_payment_ledger_entry c merchant intent amount fee currency x)
unfolding post_payment_ledger_entry
payment-PaymentEnding c merchant intent amount fee currency x =
    elim (Option-cases (get_account_by_code merchant "1010" currency x.accounts)) [
      | inl q ↦ rw (q, post_payment_ledger_entry) (uninitialized refl)
      | inr (clearing, q) ↦
          elim (Option-cases (get_account_by_code merchant "4000" currency x.accounts)) [
            | inl q' ↦ rw (q, q', post_payment_ledger_entry) (uninitialized refl)
            | inr (revenue, q') ↦
                elim (Option-cases (get_account_by_code merchant "5000" currency x.accounts)) [
                  | inl q'' ↦ rw (q, q', q'', post_payment_ledger_entry) (uninitialized refl)
                  | inr (expense, q'') ↦
                      rw (q, q', q'', post_payment_ledger_entry)
                        (sent clearing revenue expense refl)
                ]
          ]
    ]

module _ (c : Call) (merchant intent : ℕ) (amount fee currency : String) (x : Platform) where
  pub payment-registers :
      (r : PostingResult)
      → (post_payment_ledger_entry c merchant intent amount fee currency x).1 ≡ done r
      → Holds
          (post_payment_ledger_entry c merchant intent amount fee currency x).0
          merchant
          (payment_tx_id merchant intent)
  payment-registers r h = elim (payment-PaymentEnding c merchant intent amount fee currency x) [
    | uninitialized q ↦ ground (arith, q, h)
    | sent cl re ex q ↦ rw q (
        post-registers c (payment_tx_id merchant intent)
          (payment_input cl re ex merchant intent amount fee currency) x r (rw q at h))
  ]

  pub payment-Holds :
      (m : ℕ) (t : String)
      → Holds x m t
      → Holds (post_payment_ledger_entry c merchant intent amount fee currency x).0 m t
  payment-Holds m t h = elim (payment-PaymentEnding c merchant intent amount fee currency x) [
    | uninitialized q ↦ rw q h
    | sent cl re ex q ↦ rw q (
        post-Holds c (some (payment_tx_id merchant intent))
          (payment_input cl re ex merchant intent amount fee currency) x m t h)
  ]

  payment-Unwritten :
      Holds x merchant (payment_tx_id merchant intent)
      → (k : ℕ)
      → Unwritten
          (x.books k)
          ((post_payment_ledger_entry c merchant intent amount fee currency x).0.books k)
  payment-Unwritten h k = elim (payment-PaymentEnding c merchant intent amount fee currency x) [
    | uninitialized q ↦ rw q (Unwritten-refl (x.books k))
    | sent cl re ex q ↦ rw q (
        post-Unwritten c (payment_tx_id merchant intent)
          (payment_input cl re ex merchant intent amount fee currency) x h k)
  ]

-- A posting by any caller.
abbrev pub PostRequest : Type 0
PostRequest = Call × Option String × PostTransactionInput

unfoldable pub run_posts : List PostRequest → Platform → Platform
run_posts [] x = x
run_posts ((c, key, i) ∷ rest) x = run_posts rest (post c key i x).0

pub run_posts-Holds :
    (rs : List PostRequest) (x : Platform) (merchant : ℕ) (t : String)
    → Holds x merchant t
    → Holds (run_posts rs x) merchant t
unfolding run_posts
run_posts-Holds [] x merchant t h = h
run_posts-Holds ((c, key, i) ∷ rest) x merchant t h =
    run_posts-Holds rest (post c key i x).0 merchant t (post-Holds c key i x merchant t h)

-- Once the posting of a payment has succeeded, and whatever is posted after it, the payment posted
-- again, with any amounts, writes to no merchant's journal, posted transactions or outbox.
pub payment_posted_once :
    (c c' : Call) (merchant intent : ℕ) (amount fee currency amount' fee' currency' : String)
    (x : Platform) (r : PostingResult) (rs : List PostRequest)
    → (post_payment_ledger_entry c merchant intent amount fee currency x).1 ≡ done r
    → (k : ℕ)
    → let x1 = run_posts rs (post_payment_ledger_entry c merchant intent amount fee currency x).0 in
      Unwritten
        (x1.books k)
        ((post_payment_ledger_entry c' merchant intent amount' fee' currency' x1).0.books k)
payment_posted_once c c' merchant intent amount fee currency amount' fee' currency' x r rs h k =
    payment-Unwritten c' merchant intent amount' fee' currency'
      (run_posts rs (post_payment_ledger_entry c merchant intent amount fee currency x).0)
      (run_posts-Holds rs _ merchant (payment_tx_id merchant intent)
        (payment-registers c merchant intent amount fee currency x r h))
      k
