-- ===== src/Posting/Consistency/Agreement.antt =====
-- What `consistent` means, of `verifyDurableObjectConsistency` in src/services/ledger.ts.
use edgepay_cf.Prelude.{
  ℕ, ◌≡◌, ◌↔◌, inl, inr, refl, sym, ◌∙◌, String, true, ◌&&◌, List, [], ◌∷◌, some, arith, All,
  str_eq, str_eq_iff, Bool-cases, Option-cases, if◌then◌else◌,
}
use edgepay_cf.Prelude.Int.{ℤ, pos, ◌+ℤ◌, eqb_ℤ, +ℤ_zero, zero_+ℤ, +ℤ_assoc, eq_of_parts}
use edgepay_cf.Prelude.Dict.{Dict, lookup, insert}
use edgepay_cf.Ledger.Book.{AccountRow}
use edgepay_cf.Ledger.State.{LedgerDo}
use edgepay_cf.Ledger.Mirror.{MirrorEntry}
use edgepay_cf.Ledger.Trial.{get_balances, trial_balance}
use edgepay_cf.Money.{Decimals, to_minor_units}
use edgepay_cf.Posting.{LedgerAccount}
use edgepay_cf.Posting.Consistency.{
  is_empty, Discrepancy, ConsistencyReport, entries_of, code_of, signed_amount, or_zero_ℤ, d1_minor,
  do_signed, agrees, find_discrepancies, verify_consistency,
}

-- The net of the entries on an account, debits less credits.
abbrev pub net_d1 : Decimals → (ℕ → String) → String → List MirrorEntry → ℤ
net_d1 d codes c [] = pos 0
net_d1 d codes c (e ∷ es) =
    (if str_eq (codes e.account_id) c
      then signed_amount e.direction (or_zero_ℤ (to_minor_units d e.amount))
      else pos 0)
    +ℤ net_d1 d codes c es

get-insert :
    (k c : String) (v : ℤ) (m : Dict ℤ)
    → or_zero_ℤ (lookup c (insert k v m)) ≡ (if str_eq k c then v else or_zero_ℤ (lookup c m))
get-insert k c v [] = ground arith
get-insert k c v ((j, w) ∷ m) =
    ground (arith, get-insert k c v m, str_eq_iff j k, str_eq_iff j c, str_eq_iff k c)

insert-net :
    (k c : String) (x t : ℤ) (m : Dict ℤ)
    → or_zero_ℤ (lookup c (insert k (or_zero_ℤ (lookup k m) +ℤ x) m)) +ℤ t
      ≡ or_zero_ℤ (lookup c m) +ℤ ((if str_eq k c then x else pos 0) +ℤ t)
insert-net k c x t m = elim (Bool-cases (str_eq k c)) [
  | inl q ↦
      let same : k ≡ c = (str_eq_iff k c).0 q in
      rw (get-insert k c (or_zero_ℤ (lookup k m) +ℤ x) m, q)
        (rw same (+ℤ_assoc (or_zero_ℤ (lookup c m)) x t))
  | inr q ↦ rw (get-insert k c (or_zero_ℤ (lookup k m) +ℤ x) m, q, zero_+ℤ t) refl
]

d1_minor-net :
    (d : Decimals) (codes : ℕ → String) (c : String) (es : List MirrorEntry) (sums out : Dict ℤ)
    → d1_minor d codes es sums ≡ some out
    → or_zero_ℤ (lookup c out) ≡ or_zero_ℤ (lookup c sums) +ℤ net_d1 d codes c es
unfolding d1_minor
d1_minor-net d codes c [] sums out h = ground (arith, h, +ℤ_zero (or_zero_ℤ (lookup c sums)))
d1_minor-net d codes c (e ∷ es) sums out h = elim (Option-cases (to_minor_units d e.amount)) [
  | inl q ↦ ground (arith, rw (q, d1_minor) at h)
  | inr (n, q) ↦
      let code = codes e.account_id in
      let v = or_zero_ℤ (lookup code sums) +ℤ signed_amount e.direction n in
      let rest = d1_minor-net d codes c es (insert code v sums) out (rw (q, d1_minor) at h) in
      rw q (rest ∙ insert-net code c (signed_amount e.direction n) (net_d1 d codes c es) sums)
]

-- In D1 the account's net is the object's balance, on the account's normal side.
abbrev pub AgreesWith : Decimals → (ℕ → String) → List MirrorEntry → AccountRow → Type 0
AgreesWith d codes es b = net_d1 d codes b.code es ≡ do_signed b

eqb_ℤ-refl : (a b : ℤ) → a ≡ b → eqb_ℤ a b ≡ true
eqb_ℤ-refl a b q = rw q (ground arith)

module _ (d : Decimals) (merchant : ℕ) (accounts : List LedgerAccount) (codes : ℕ → String)
    (es : List MirrorEntry) (sums : Dict ℤ) (known : d1_minor d codes es [] ≡ some sums) where
  agrees_iff : (b : AccountRow) → (agrees sums b ≡ true) ↔ AgreesWith d codes es b
  agrees_iff b =
      let read : or_zero_ℤ (lookup b.code sums) ≡ net_d1 d codes b.code es =
        d1_minor-net d codes b.code es [] sums known ∙ zero_+ℤ (net_d1 d codes b.code es) in
      (
        λ h.
            sym read
            ∙ eq_of_parts (or_zero_ℤ (lookup b.code sums)) (do_signed b) (ground (arith, h)),
        λ h. eqb_ℤ-refl (or_zero_ℤ (lookup b.code sums)) (do_signed b) (read ∙ h),
      )

  none_found :
      (bs : List AccountRow)
      → (find_discrepancies d merchant accounts sums bs ≡ []) ↔ All (AgreesWith d codes es) bs
  unfolding find_discrepancies
  none_found [] = (λ h. tt, λ h. refl)
  none_found (b ∷ bs) = elim (Bool-cases (agrees sums b)) [
    | inl q ↦ (
      λ h. ((agrees_iff b).0 q, (none_found bs).0 (rw (q, find_discrepancies) at h)),
      λ h. rw (q, find_discrepancies) ((none_found bs).1 h.1),
    )
    | inr q ↦ (
      λ h. ground (arith, rw (q, find_discrepancies) at h),
      λ h. ground (arith, q, (agrees_iff b).1 h.0),
    )
  ]

empty_list : (xs : List Discrepancy) → is_empty xs ≡ true → xs ≡ []
empty_list [] h = refl
empty_list (x ∷ xs) h = ground (arith, h)

-- Where no amount in D1 is out of range, the report is 'consistent' exactly when each account's net in D1 is
-- its balance in the object, and the object's trial balance is balanced.
pub verify_consistency_iff :
    (d : Decimals) (merchant : ℕ) (accounts : List LedgerAccount) (entries : List MirrorEntry)
    (s : LedgerDo) (r : ConsistencyReport)
    → verify_consistency d merchant accounts entries s ≡ some r
    → (r.consistent ≡ true) ↔ (
        All
          (AgreesWith d (code_of merchant accounts) (entries_of merchant accounts entries))
          (get_balances s)
        × ((trial_balance s).balanced ≡ true))
unfolding verify_consistency
verify_consistency_iff d merchant accounts entries s r h =
    let codes = code_of merchant accounts in
    let es = entries_of merchant accounts entries in
    elim (Option-cases (d1_minor d codes es [])) [
      | inl q ↦ ground (arith, rw (q, verify_consistency) at h)
      | inr (sums, q) ↦
          let both = none_found d merchant accounts codes es sums q (get_balances s) in
          let found = find_discrepancies d merchant accounts sums (get_balances s) in
          let told : r.consistent ≡ is_empty found && (trial_balance s).balanced =
            ground (arith, rw (q, verify_consistency) at h) in
          (
            λ c. (both.0 (empty_list found (ground (arith, told, c))), ground (arith, told, c)),
            λ c. ground (arith, told, both.1 c.0, c.1),
          )
    ]
