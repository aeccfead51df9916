-- ===== src/Ledger/Shape/Balanced.antt =====
-- What a posting that passes validation satisfies, and conversely.
use edgepay_cf.Prelude.{
  ℕ, ◌+◌, ◌≤◌, ◌<◌, ◌≡◌, ◌≢◌, ◌⊎◌, ◌↔◌, refl, List, [], ◌∷◌, length, All, inl, inr, arith,
  str_eq_iff,
}
use edgepay_cf.Prelude.Int.{pos, negsuc}
use edgepay_cf.Ledger.Types.{
  debit, credit, Number, whole, fractional, PostingEntry, PostingPayload, ok, Checked-cases,
}
use edgepay_cf.Ledger.Shape.{
  max_amount_minor, check_entry, debit_of, credit_of, sum_entries, validate_posting_shape,
}

abbrev pub debit_sum : List PostingEntry → ℕ
debit_sum [] = 0
debit_sum (e ∷ es) = debit_of e + debit_sum es

abbrev pub credit_sum : List PostingEntry → ℕ
credit_sum [] = 0
credit_sum (e ∷ es) = credit_of e + credit_sum es

-- An entry of a listed direction, with an amount in range and an account.
abbrev pub IsValidEntry : PostingEntry → Type 0
IsValidEntry e =
    ((e.direction ≡ debit) ⊎ (e.direction ≡ credit))
    × ((n : ℕ) × (e.amount_minor ≡ whole (pos n)) × (0 < n) × (n ≤ max_amount_minor))
    × (e.account_code ≢ "")

-- The double-entry contract of a posting.
pub record IsWellShaped (p : PostingPayload) : Type 0 where
  pub named : p.tx_id ≢ ""
  pub two_legs : 2 ≤ length p.entries
  pub valid : All IsValidEntry p.entries
  pub balanced : debit_sum p.entries ≡ credit_sum p.entries

pub check_entry_sound : (e : PostingEntry) → check_entry e ≡ ok tt → IsValidEntry e
check_entry_sound e h =
    (ground arith, amount e.amount_minor refl, ground (arith, str_eq_iff e.account_code ""))
  where
    amount :
        (a : Number)
        → e.amount_minor ≡ a
        → (n : ℕ) × (e.amount_minor ≡ whole (pos n)) × (0 < n) × (n ≤ max_amount_minor)
    amount (whole (pos n)) q = (n, q, ground arith, ground arith)
    amount (whole (negsuc n)) q = ground arith
    amount fractional q = ground arith

pub check_entry_complete : (e : PostingEntry) → IsValidEntry e → check_entry e ≡ ok tt
check_entry_complete e (d, (n, q, lo, hi), c) = ground (arith, str_eq_iff e.account_code "")

sum_entries_sound :
    (es : List PostingEntry) (d c : ℕ) (r : ℕ × ℕ)
    → sum_entries es d c ≡ ok r
    → All IsValidEntry es × (r ≡ (d + debit_sum es, c + credit_sum es))
unfolding sum_entries
sum_entries_sound [] d c r h = (tt, ground arith)
sum_entries_sound (e ∷ es) d c r h =
    ground (arith, check_entry_sound e, sum_entries_sound es (d + debit_of e) (c + credit_of e) r)

sum_entries_complete :
    (es : List PostingEntry) (d c : ℕ)
    → All IsValidEntry es
    → sum_entries es d c ≡ ok (d + debit_sum es, c + credit_sum es)
unfolding sum_entries
sum_entries_complete [] d c h = ground arith
sum_entries_complete (e ∷ es) d c h =
    rw (check_entry_complete e h.0)
      (ground (arith, sum_entries_complete es (d + debit_of e) (c + credit_of e) h.1))

-- Validation accepts a posting exactly when it is well shaped.
pub validate_posting_shape_iff :
    (p : PostingPayload) → (validate_posting_shape p ≡ ok tt) ↔ IsWellShaped p
unfolding validate_posting_shape
validate_posting_shape_iff p = (sound, complete)
  where
    sound : validate_posting_shape p ≡ ok tt → IsWellShaped p
    sound h = elim (Checked-cases (sum_entries p.entries 0 0)) [
      | inl (x, q) ↦ ground arith
      | inr (r, q) ↦ ground (arith, str_eq_iff p.tx_id "", sum_entries_sound p.entries 0 0 r q)
    ]

    complete : IsWellShaped p → validate_posting_shape p ≡ ok tt
    complete w =
        rw (sum_entries_complete p.entries 0 0 w.valid) (ground (arith, w, str_eq_iff p.tx_id ""))
