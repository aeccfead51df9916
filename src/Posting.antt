-- ===== src/Posting.antt =====
-- The worker's side of a posting: `LedgerService.post` and what it calls, src/services/ledger.ts. The
-- objects of all merchants are a function from the merchant's id. The accounts of the chart that D1
-- holds are a list in the order of their ids.
pub mod Entries
pub mod Consistency
pub mod Accepted
pub mod WellShaped
pub mod Held
pub mod Once
pub mod Tests
use edgepay_cf.Prelude.{
  ◌≡◌, refl, ◌⊎◌, inl, inr, ℕ, String, Bool, true, false, not, ◌&&◌, ◌||◌, List, [], ◌∷◌, ◌++◌,
  Option, none, some, keep, str_eq, ◌==◌, if◌then◌else◌,
}
use edgepay_cf.Prelude.Texts.{join, decimal}
use edgepay_cf.Ledger.Types.{
  Direction, debit, credit, whole, ReferenceType, payment, refund, PostingEntry, PostingPayload,
  PostingResult, PostingStatus, posted, duplicate, failed, PostingErrorCode, internal,
}
use edgepay_cf.Ledger.Chart.{LedgerAccountType}
use edgepay_cf.Ledger.State.{LedgerDo, LedgerEnv}
use edgepay_cf.Ledger.Mirror.{Mirror, D1Reply}
use edgepay_cf.Ledger.Post.{post_transaction}
use edgepay_cf.Ledger.Trial.{get_transaction_status}
use edgepay_cf.Money.{Decimals, money_to_minor_strict}

-- A row of `op_ledger_accounts`.
pub record LedgerAccount : Type 0 where
  pub id : ℕ
  pub merchant_id : ℕ
  pub code : String
  pub name : String
  pub account_type : LedgerAccountType
  pub currency : String

pub record Platform : Type 0 where
  pub accounts : List LedgerAccount
  pub account_seq : ℕ
  pub mirror : Mirror
  pub books : ℕ → LedgerDo

-- Why a call of the service throws.
pub data Failure : Type 0 where
  unknown_ledger_account invalid_money accounts_not_initialized : Failure
  rejected : PostingErrorCode → Failure

pub data Outcome {ℓ} (A : Type ℓ) : Type ℓ where
  done : A → Outcome A
  throws : Failure → Outcome A

pub Outcome-cases {ℓ} :
    {A : Type ℓ} (o : Outcome A) → ((a : A) × (o ≡ done a)) ⊎ ((f : Failure) × (o ≡ throws f))
Outcome-cases (done a) = inl (a, refl)
Outcome-cases (throws f) = inr (f, refl)

pub record PostEntryInput : Type 0 where
  pub account_id : ℕ
  pub direction : Direction
  pub amount : String

pub record PostTransactionInput : Type 0 where
  pub merchant_id : ℕ
  pub reference_type : ReferenceType
  pub reference_id : Option String
  pub description : String
  pub entries : List PostEntryInput

-- `getLedgerDO`: the object is found by the name `merchant-{id}`.
abbrev pub env_for : LedgerEnv → ℕ → LedgerEnv
env_for env merchant = record env { name_number = some merchant }

abbrev pub set_book : ℕ → LedgerDo → (ℕ → LedgerDo) → ℕ → LedgerDo
set_book merchant s books k = if k == merchant then s else books k

abbrev pub uses_account : ℕ → List PostEntryInput → Bool
uses_account i [] = false
uses_account i (e ∷ es) = (e.account_id == i) || uses_account i es

-- `SELECT … WHERE merchant_id = ? AND id IN (…)`
abbrev pub account_rows : ℕ → List PostEntryInput → List LedgerAccount → List LedgerAccount
account_rows merchant es = keep (λ a. (a.merchant_id == merchant) && uses_account a.id es)

abbrev pub find_by_id : ℕ → List LedgerAccount → Option LedgerAccount
find_by_id i [] = none
find_by_id i (a ∷ rest) = if a.id == i then some a else find_by_id i rest

-- `accountRows.results[0]?.currency ?? 'BDT'`
abbrev pub first_currency : List LedgerAccount → String
first_currency [] = "BDT"
first_currency (a ∷ rest) = a.currency

unfoldable pub build_entry : Decimals → List LedgerAccount → PostEntryInput → Outcome PostingEntry
build_entry d rows e = elim (find_by_id e.account_id rows) [
  | none ↦ throws unknown_ledger_account
  | some a ↦ elim (money_to_minor_strict d e.amount) [
    | none ↦ throws invalid_money
    | some n ↦ done (record {
      account_code = a.code;
      d1_account_id = a.id;
      direction = e.direction;
      amount = e.amount;
      amount_minor = whole n;
    })
  ]
]

unfoldable pub build_entries :
    Decimals → List LedgerAccount → List PostEntryInput → Outcome (List PostingEntry)
build_entries d rows [] = done []
build_entries d rows (e ∷ es) =
    let rest = build_entries d rows es in
    elim (build_entry d rows e) [
      | throws f ↦ throws f
      | done x ↦ elim rest [ throws f ↦ throws f | done xs ↦ done (x ∷ xs) ]
    ]

abbrev pub text_of_reference : ReferenceType → String
text_of_reference ReferenceType.payment = "payment"
text_of_reference ReferenceType.refund = "refund"
text_of_reference ReferenceType.fee = "fee"
text_of_reference ReferenceType.adjustment = "adjustment"
text_of_reference ReferenceType.transfer = "transfer"

abbrev pub or_text : Option String → String → String
or_text none d = d
or_text (some s) d = s

-- `idempotencyKey ?? …`; `uuid` is what `randomUuid` returns.
abbrev pub tx_id_of : Option String → String → PostTransactionInput → String
tx_id_of (some key) uuid i = key
tx_id_of none uuid i = join (
    "m"
    ∷ decimal i.merchant_id
    ∷ ":"
    ∷ text_of_reference i.reference_type
    ∷ ":"
    ∷ or_text i.reference_id uuid
    ∷ [])

unfoldable pub build_payload :
    Decimals
    → List LedgerAccount
    → Option String
    → String
    → PostTransactionInput
    → Outcome PostingPayload
build_payload d accounts key uuid i =
    let rows = account_rows i.merchant_id i.entries accounts in
    elim (build_entries d rows i.entries) [
      | throws f ↦ throws f
      | done es ↦ done (record {
        tx_id = tx_id_of key uuid i;
        merchant_id = i.merchant_id;
        reference_type = i.reference_type;
        reference_id = i.reference_id;
        description = i.description;
        currency = first_currency rows;
        entries = es;
      })
    ]

-- `result.error_code ?? 'INTERNAL'`
abbrev pub code_or_internal : Option PostingErrorCode → PostingErrorCode
code_or_internal none = internal
code_or_internal (some c) = c

abbrev pub rethrow : PostingResult → Outcome PostingResult
rethrow r = elim r.status [
  | posted ↦ done r
  | duplicate ↦ done r
  | failed ↦ throws (rejected (code_or_internal r.error_code))
]

-- What a call reads from outside: the environment, decimal.js, the clock, D1's reply, a random id.
pub record Call : Type 0 where
  pub env : LedgerEnv
  pub decimals : Decimals
  pub reply : D1Reply
  pub now : ℕ
  pub later : ℕ
  pub uuid : String

abbrev pub send_payload : Call → PostingPayload → Platform → Platform × PostingResult
send_payload c p x =
    let (s, m, r) =
      post_transaction (env_for c.env p.merchant_id) c.reply c.now c.later p (x.books p.merchant_id)
        x.mirror in
    (record x { mirror = m; books = set_book p.merchant_id s x.books }, r)

unfoldable pub post :
    Call → Option String → PostTransactionInput → Platform → Platform × Outcome PostingResult
post c key i x = elim (build_payload c.decimals x.accounts key c.uuid i) [
  | throws f ↦ (x, throws f)
  | done p ↦ let (x', r) = send_payload c p x in (x', rethrow r)
]

unfoldable pub get_account_by_code : ℕ → String → String → List LedgerAccount → Option LedgerAccount
get_account_by_code merchant code currency [] = none
get_account_by_code merchant code currency (a ∷ rest) =
    if (a.merchant_id == merchant) && str_eq a.code code && str_eq a.currency currency
    then some a
    else get_account_by_code merchant code currency rest
