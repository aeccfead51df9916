-- ===== src/Ledger/Trial/Sound.antt =====
-- The trial balance of src/do/ledger-do.ts, against the invariant of the book.
use edgepay_cf.Prelude.{◌≡◌, ◌↔◌, refl, true, List, [], ◌∷◌, map, All, arith, Bool-cases, inl, inr}
use edgepay_cf.Prelude.Int.{eq_of_parts}
use edgepay_cf.Ledger.Book.{AccountRow, total_debit, total_credit}
use edgepay_cf.Ledger.State.{LedgerDo}
use edgepay_cf.Ledger.Invariant.{Derived}
use edgepay_cf.Ledger.Trial.{
  precedes, place, order_by_code, trial_line, every_line_agrees, trial_balance,
}

module _ (P : AccountRow → Type 0) where
  All-place : (a : AccountRow) (bs : List AccountRow) → P a → All P bs → All P (place a bs)
  unfolding place
  All-place a [] h k = (h, tt)
  All-place a (b ∷ bs) h k = elim (Bool-cases (precedes a.code b.code)) [
    | inl q ↦ rw q (h, k)
    | inr q ↦ rw q (k.0, All-place a bs h k.1)
  ]

  All-order_by_code : (as' : List AccountRow) → All P as' → All P (order_by_code as')
  unfolding order_by_code
  All-order_by_code [] h = tt
  All-order_by_code (a ∷ as') h = All-place a (order_by_code as') h.0 (All-order_by_code as' h.1)

lines_agree :
    (s : LedgerDo) (as' : List AccountRow)
    → All (Derived s.journal) as'
    → every_line_agrees (map (trial_line s) as') ≡ true
unfolding every_line_agrees
lines_agree s [] h = refl
lines_agree s (a ∷ as') h = ground (arith, h.0, lines_agree s as' h.1)

place-All :
    (P : AccountRow → Type 0) (a : AccountRow) (bs : List AccountRow)
    → All P (place a bs)
    → P a × All P bs
unfolding place
place-All P a [] h = h
place-All P a (b ∷ bs) h = elim (Bool-cases (precedes a.code b.code)) [
  | inl q ↦ rw q at h
  | inr q ↦ let (k, t) = rw q at h in let (p, u) = place-All P a bs t in (p, (k, u))
]

order_by_code-All :
    (P : AccountRow → Type 0) (as' : List AccountRow) → All P (order_by_code as') → All P as'
unfolding order_by_code
order_by_code-All P [] h = tt
order_by_code-All P (a ∷ as') h =
    let (k, t) = place-All P a (order_by_code as') h in (k, order_by_code-All P as' t)

every_line_agrees-Derived :
    (s : LedgerDo) (as' : List AccountRow)
    → every_line_agrees (map (trial_line s) as') ≡ true
    → All (Derived s.journal) as'
unfolding every_line_agrees
every_line_agrees-Derived s [] h = tt
every_line_agrees-Derived s (a ∷ as') h =
    (eq_of_parts _ _ (ground (arith, h)), every_line_agrees-Derived s as' (ground (arith, h)))

-- The journal's debits are its credits, and every account stores the balance that its journal rows give.
pub record IsBalanced (s : LedgerDo) : Type 0 where
  pub journal : total_debit s.journal ≡ total_credit s.journal
  pub stored : All (Derived s.journal) s.accounts

-- The trial balance reports that the book is balanced exactly when the journal's debits are its credits
-- and every account's stored balance is the one that its journal rows give.
pub trial_balance_iff : (s : LedgerDo) → ((trial_balance s).balanced ≡ true) ↔ IsBalanced s
unfolding trial_balance
trial_balance_iff s = (
  λ h. record {
    journal = ground (arith, h);
    stored =
        order_by_code-All (Derived s.journal) s.accounts
          (every_line_agrees-Derived s (order_by_code s.accounts) (ground (arith, h)));
  },
  λ b. ground (
    arith,
    b.journal,
    lines_agree s (order_by_code s.accounts)
        (All-order_by_code (Derived s.journal) s.accounts b.stored),
  ),
)
