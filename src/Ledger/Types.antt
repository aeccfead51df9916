-- ===== src/Ledger/Types.antt =====
-- The posting protocol's types (src/types/ledger.ts). A message's text is left out: an error is its
-- code. An instant is its number of milliseconds.
use edgepay_cf.Prelude.{ℕ, ◌≡◌, refl, ◌⊎◌, inl, inr, String, Option, List}
use edgepay_cf.Prelude.Int.{ℤ}

-- A value of the union 'debit' | 'credit', or any other string that a caller sends.
pub data Direction : Type 0 where
  debit credit : Direction
  unlisted : String → Direction

-- A JavaScript number: an integer, or one that `Number.isInteger` refuses.
pub data Number : Type 0 where
  whole : ℤ → Number
  fractional : Number

pub data ReferenceType : Type 0 where
  payment refund fee adjustment transfer : ReferenceType

pub record PostingEntry : Type 0 where
  pub account_code : String
  pub d1_account_id : ℕ
  pub direction : Direction
  pub amount : String
  pub amount_minor : Number

pub record PostingPayload : Type 0 where
  pub tx_id : String
  pub merchant_id : ℕ
  pub reference_type : ReferenceType
  pub reference_id : Option String
  pub description : String
  pub currency : String
  pub entries : List PostingEntry

pub data PostingStatus : Type 0 where
  posted duplicate failed : PostingStatus

pub data PostingErrorCode : Type 0 where
  unbalanced insufficient_funds unknown_account invalid currency_mismatch rejected_tx_id internal :
      PostingErrorCode

pub record PostingResult : Type 0 where
  pub status : PostingStatus
  pub tx_id : String
  pub posted_at : ℕ
  pub ledger_transaction_id : Option ℕ
  pub error_code : Option PostingErrorCode

-- A call that returns, or throws an error with a code (`PostingValidationError`, or any other
-- error, which has the code `internal`).
pub data Checked {ℓ} (A : Type ℓ) : Type ℓ where
  ok : A → Checked A
  err : PostingErrorCode → Checked A

infixl 5 ◌>>=◌ ◌>>◌
abbrev pub ◌>>=◌ {ℓ κ} : {A : Type ℓ} {B : Type κ} → Checked A → (A → Checked B) → Checked B
ok a >>= f = f a
err e >>= f = err e

abbrev pub ◌>>◌ {ℓ} : {B : Type ℓ} → Checked (Unit {0}) → Checked B → Checked B
m >> k = m >>= λ _. k

pub Checked-cases {ℓ} :
    {A : Type ℓ} (m : Checked A) → ((e : PostingErrorCode) × (m ≡ err e)) ⊎ ((a : A) × (m ≡ ok a))
Checked-cases (ok a) = inr (a, refl)
Checked-cases (err e) = inl (e, refl)
