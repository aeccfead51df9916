-- ===== src/Ledger/Funds/Deltas.antt =====
-- What a balance check that passes says of the deltas that it returns.
use edgepay_cf.Prelude.{
  ◌≡◌, ◌≢◌, refl, ◌∙◌, String, false, List, [], ◌∷◌, none, some, All, arith, str_eq, str_eq→eq,
  str_eq_iff, if◌then◌else◌, Bool-cases, Option-cases, inl, inr,
}
use edgepay_cf.Prelude.Int.{
  ℤ, pos, ◌+ℤ◌, ◌≤ℤ◌, +ℤ_zero, +ℤ_assoc, neg-+ℤ, neg-neg, neg_zero, +ℤ_comm,
}
use edgepay_cf.Prelude.Dict.{Dict, lookup, insert}
use edgepay_cf.Ledger.Types.{PostingEntry, ok}
use edgepay_cf.Ledger.Chart.{LedgerAccountType}
use edgepay_cf.Ledger.Shape.{magnitude}
use edgepay_cf.Ledger.Book.{AccountRow, find_account, signed, on_normal_side}
use edgepay_cf.Ledger.Book.Rows.{total_of}
use edgepay_cf.Ledger.Book.Journal.{entries_net}
use edgepay_cf.Ledger.Funds.{mentions, account_map, entry_delta, bump, collect_deltas, check_funds}

-- The map adds `x` to the total of its own key alone.
total_of-bump :
    (c k : String) (x : ℤ) (d : Dict ℤ)
    → total_of c (bump k x d) ≡ (if str_eq c k then total_of c d +ℤ x else total_of c d)
total_of-bump c k x [] = ground (arith, +ℤ_zero (pos 0 +ℤ x))
total_of-bump c k x ((j, v) ∷ d) = ground (
  arith,
  total_of-bump c k x d,
  str_eq_iff c k,
  str_eq_iff c j,
  str_eq_iff j k,
  +ℤ_assoc v x (total_of c d),
  +ℤ_assoc v (total_of c d) x,
  +ℤ_comm x (total_of c d),
)

-- No key of a map occurs twice.
abbrev pub KeysDistinct : Dict ℤ → Type 0
KeysDistinct [] = Unit
KeysDistinct ((k, v) ∷ d) = (lookup k d ≡ none) × KeysDistinct d

lookup-insert_ne :
    (j k : String) (v : ℤ) (d : Dict ℤ) → j ≢ k → lookup j (insert k v d) ≡ lookup j d
lookup-insert_ne j k v [] h = ground (arith, str_eq_iff k j)
lookup-insert_ne j k v ((i, w) ∷ d) h =
    ground (arith, str_eq_iff i j, str_eq_iff i k, lookup-insert_ne j k v d h)

KeysDistinct-insert :
    (k : String) (v : ℤ) (d : Dict ℤ) → KeysDistinct d → KeysDistinct (insert k v d)
KeysDistinct-insert k v [] h = (refl, tt)
KeysDistinct-insert k v ((j, w) ∷ d) h = elim (Bool-cases (str_eq j k)) [
  | inl q ↦ rw (q, KeysDistinct) h
  | inr q ↦
      rw (q, KeysDistinct)
        (
          lookup-insert_ne j k v d (λ e. ground (arith, str_eq_iff j k)) ∙ h.0,
          KeysDistinct-insert k v d h.1,
        )
]

total_of_absent : (c : String) (d : Dict ℤ) → lookup c d ≡ none → total_of c d ≡ pos 0
total_of_absent c [] h = refl
total_of_absent c ((j, v) ∷ d) h =
    ground (arith, str_eq_iff c j, str_eq_iff j c, total_of_absent c d)

-- `IN (…)` finds what the whole table finds at the codes that are mentioned, and nothing else.
pub find_account-account_map :
    (c : String) (es : List PostingEntry) (rows : List AccountRow)
    → find_account c (account_map es rows) ≡ (if mentions c es then find_account c rows else none)
find_account-account_map c es [] = ground arith
find_account-account_map c es (a ∷ rows) =
    ground (arith, str_eq_iff a.code c, find_account-account_map c es rows)

entry_delta-eq :
    (t : LedgerAccountType) (e : PostingEntry)
    → entry_delta t e ≡ on_normal_side t (signed e.direction (magnitude e.amount_minor))
entry_delta-eq t e = ground (arith, neg-neg (pos (magnitude e.amount_minor)))

on_normal_side-+ℤ :
    (t : LedgerAccountType) (x y : ℤ)
    → on_normal_side t (x +ℤ y) ≡ on_normal_side t x +ℤ on_normal_side t y
on_normal_side-+ℤ t x y = ground (arith, neg-+ℤ x y)

-- A first loop that passes has found the entry's account, and goes on with its delta.
collect_deltas_step :
    (accounts : List AccountRow) (currency : String) (e : PostingEntry) (es : List PostingEntry)
    (d r : Dict ℤ)
    → collect_deltas accounts currency (e ∷ es) d ≡ ok r
    → (a : AccountRow) × (find_account e.account_code accounts ≡ some a)
      × (collect_deltas accounts currency es (bump e.account_code (entry_delta a.account_type e) d)
          ≡ ok r)
unfolding collect_deltas
collect_deltas_step accounts currency e es d r h =
    elim (Option-cases (find_account e.account_code accounts)) [
      | inl q ↦ ground arith
      | inr (a, q) ↦ (a, q, ground arith)
    ]

-- Each account's delta is the posting's net debit, on the account's normal side.
pub collect_deltas_total :
    (accounts : List AccountRow) (currency c : String) (a : AccountRow) (es : List PostingEntry)
    (d r : Dict ℤ)
    → find_account c accounts ≡ some a
    → collect_deltas accounts currency es d ≡ ok r
    → total_of c r ≡ total_of c d +ℤ on_normal_side a.account_type (entries_net c es)
unfolding collect_deltas entries_net
collect_deltas_total accounts currency c a [] d r f h =
    let q : d ≡ r = ground arith in rw (← q) (ground (arith, +ℤ_zero (total_of c d), neg_zero))
collect_deltas_total accounts currency c a (e ∷ es) d r f h =
    let (b, found, rest) = collect_deltas_step accounts currency e es d r h in
    let x = entry_delta b.account_type e in
    let s = signed e.direction (magnitude e.amount_minor) in
    let n = entries_net c es in
    ground (
      arith,
      collect_deltas_total accounts currency c a es (bump e.account_code x d) r f rest,
      total_of-bump c e.account_code x d,
      entry_delta-eq b.account_type e,
      on_normal_side-+ℤ a.account_type s n,
      str_eq_iff e.account_code c,
      str_eq_iff c e.account_code,
      +ℤ_assoc (total_of c d) (on_normal_side a.account_type s) (on_normal_side a.account_type n),
    )

-- Every entry's account is in the table.
pub collect_deltas_known :
    (accounts : List AccountRow) (currency : String) (es : List PostingEntry) (d r : Dict ℤ)
    → collect_deltas accounts currency es d ≡ ok r
    → All (λ e. find_account e.account_code accounts ≢ none) es
collect_deltas_known accounts currency [] d r h = tt
collect_deltas_known accounts currency (e ∷ es) d r h =
    let (b, found, rest) = collect_deltas_step accounts currency e es d r h in
    (ground arith, collect_deltas_known accounts currency es _ r rest)

pub collect_deltas_keys :
    (accounts : List AccountRow) (currency : String) (es : List PostingEntry) (d r : Dict ℤ)
    → collect_deltas accounts currency es d ≡ ok r
    → KeysDistinct d
    → KeysDistinct r
unfolding collect_deltas
collect_deltas_keys accounts currency [] d r h k = let q : d ≡ r = ground arith in rw (← q) k
collect_deltas_keys accounts currency (e ∷ es) d r h k =
    let (b, found, rest) = collect_deltas_step accounts currency e es d r h in
    collect_deltas_keys accounts currency es (bump e.account_code (entry_delta b.account_type e) d)
      r rest (KeysDistinct-insert e.account_code _ d k)

-- The second loop leaves every balance at zero or more.
pub check_funds_total :
    (accounts : List AccountRow) (ds : Dict ℤ) (c : String) (a : AccountRow)
    → check_funds accounts ds ≡ ok tt
    → KeysDistinct ds
    → find_account c accounts ≡ some a
    → pos 0 ≤ℤ a.balance_minor
    → pos 0 ≤ℤ (a.balance_minor +ℤ total_of c ds)
unfolding check_funds
check_funds_total accounts [] c a h k f p = rw (+ℤ_zero a.balance_minor) p
check_funds_total accounts ((j, v) ∷ ds) c a h k f p = elim (Bool-cases (str_eq c j)) [
  | inl q ↦
      let same : c ≡ j = str_eq→eq c j q in
      let alone : total_of c ds ≡ pos 0 = total_of_absent c ds (rw same k.0) in
      let here : find_account j accounts ≡ some a = rw (← same) f in
      rw (q, alone, +ℤ_zero v) (ground arith)
  | inr q ↦
      let rest : check_funds accounts ds ≡ ok tt = elim (Option-cases (find_account j accounts)) [
        | inl x ↦ ground arith
        | inr (b, x) ↦ ground arith
      ] in
      rw q (check_funds_total accounts ds c a rest k.1 f p)
]

pub check_funds_found :
    (accounts : List AccountRow) (ds : Dict ℤ)
    → check_funds accounts ds ≡ ok tt
    → All (λ kv. find_account kv.0 accounts ≢ none) ds
unfolding check_funds
check_funds_found accounts [] h = tt
check_funds_found accounts ((j, v) ∷ ds) h = elim (Option-cases (find_account j accounts)) [
  | inl x ↦ ground arith
  | inr (b, x) ↦ (ground arith, check_funds_found accounts ds (ground arith))
]

-- An account that no entry mentions has no delta.
pub collect_deltas_unmentioned :
    (accounts : List AccountRow) (currency c : String) (es : List PostingEntry) (d r : Dict ℤ)
    → mentions c es ≡ false
    → collect_deltas accounts currency es d ≡ ok r
    → (total_of c r ≡ total_of c d) × (entries_net c es ≡ pos 0)
unfolding entries_net collect_deltas
collect_deltas_unmentioned accounts currency c [] d r m h = (ground arith, refl)
collect_deltas_unmentioned accounts currency c (e ∷ es) d r m h =
    let (b, found, rest) = collect_deltas_step accounts currency e es d r h in
    let x = entry_delta b.account_type e in
    ground (
      arith,
      collect_deltas_unmentioned accounts currency c es (bump e.account_code x d) r,
      total_of-bump c e.account_code x d,
      str_eq_iff e.account_code c,
      str_eq_iff c e.account_code,
    )
