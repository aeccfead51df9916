-- ===== src/Ledger/Shape.antt =====
-- `validatePostingShape` of src/do/ledger-do.ts. Sums are exact here; JavaScript's are exact up to
-- 2 ^ 53.
pub mod Balanced
use edgepay_cf.Prelude.{
  ℕ, ◌+◌, String, Bool, true, false, ◌&&◌, not, List, [], ◌∷◌, length, ltb, leb, ◌==◌, str_eq,
  if◌then◌else◌,
}
use edgepay_cf.Prelude.Int.{ℤ, pos, negsuc}
use edgepay_cf.Ledger.Types.{
  Direction, debit, credit, unlisted, Number, whole, fractional, PostingEntry, PostingPayload,
  Checked, ok, err, invalid, unbalanced, ◌>>=◌, ◌>>◌,
}

abbrev pub max_amount_minor : ℕ
max_amount_minor = 9_000_000_000_000

-- `Number.isInteger(n) && n > 0 && n <= MAX_AMOUNT_MINOR`.
abbrev pub is_valid_amount : Number → Bool
is_valid_amount (whole (pos n)) = ltb 0 n && leb n max_amount_minor
is_valid_amount (whole (negsuc n)) = false
is_valid_amount fractional = false

-- The value of an amount that has been validated; an invalid one never gets so far.
abbrev pub magnitude : Number → ℕ
magnitude (whole (pos n)) = n
magnitude (whole (negsuc n)) = 0
magnitude fractional = 0

abbrev pub is_listed : Direction → Bool
is_listed (unlisted s) = false
is_listed _ = true

abbrev pub guard : Bool → Checked (Unit {0})
guard true = ok tt
guard false = err invalid

-- One round of the loop: the three checks of an entry, in the source's order.
abbrev pub check_entry : PostingEntry → Checked (Unit {0})
check_entry e = do
  guard (is_listed e.direction)
  guard (is_valid_amount e.amount_minor)
  guard (not (str_eq e.account_code ""))

abbrev pub debit_of : PostingEntry → ℕ
debit_of e = elim e.direction [ debit ↦ magnitude e.amount_minor | _ ↦ 0 ]

abbrev pub credit_of : PostingEntry → ℕ
credit_of e = elim e.direction [ debit ↦ 0 | _ ↦ magnitude e.amount_minor ]

-- The loop, with its two accumulators.
unfoldable pub sum_entries : List PostingEntry → ℕ → ℕ → Checked (ℕ × ℕ)
sum_entries [] debits credits = ok (debits, credits)
sum_entries (e ∷ es) debits credits =
    let rest = sum_entries es (debits + debit_of e) (credits + credit_of e) in check_entry e >> rest

unfoldable pub validate_posting_shape : PostingPayload → Checked (Unit {0})
unfolding sum_entries
validate_posting_shape payload = do
  guard (not (str_eq payload.tx_id ""))
  guard (leb 2 (length payload.entries))
  sums ← sum_entries payload.entries 0 0
  if sums.0 == sums.1 then ok tt else err unbalanced
