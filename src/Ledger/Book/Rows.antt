-- ===== src/Ledger/Book/Rows.antt =====
-- What seeding and balance updates do to the rows of `accounts`.
use edgepay_cf.Prelude.{
  ℕ, ◌≡◌, ◌≢◌, refl, String, List, [], ◌∷◌, ◌++◌, map, none, some, All, All-imp, arith, str_eq,
  str_eq_iff, str_eq_refl, if◌then◌else◌, Option-cases, inl, inr, sym, ap, ◌∙◌,
}
use edgepay_cf.Prelude.Int.{ℤ, pos, ◌+ℤ◌, +ℤ_zero, +ℤ_assoc}
use edgepay_cf.Prelude.Dict.{Dict}
use edgepay_cf.Ledger.Book.{AccountRow, find_account, insert_or_ignore, update_row, apply_deltas}

-- `code` is a primary key: no two rows share one.
abbrev pub Distinct : List AccountRow → Type 0
Distinct [] = Unit
Distinct (a ∷ as') = (find_account a.code as' ≡ none) × Distinct as'

find_account-append :
    (c : String) (xs ys : List AccountRow)
    → find_account c (xs ++ ys)
      ≡ elim (find_account c xs) [ none ↦ find_account c ys | some a ↦ some a ]
find_account-append c [] ys = refl
find_account-append c (x ∷ xs) ys = ground (arith, find_account-append c xs ys)

Distinct-append_one :
    (xs : List AccountRow) (a : AccountRow)
    → Distinct xs
    → find_account a.code xs ≡ none
    → Distinct (xs ++ (a ∷ []))
Distinct-append_one [] a d h = (refl, tt)
Distinct-append_one (x ∷ xs) a d h = ground (
  arith,
  find_account-append x.code xs (a ∷ []),
  Distinct-append_one xs a d.1,
  str_eq_iff x.code a.code,
  str_eq_iff a.code x.code,
)

pub Distinct-insert_or_ignore :
    (a : AccountRow) (as' : List AccountRow) → Distinct as' → Distinct (insert_or_ignore a as')
Distinct-insert_or_ignore a as' d = elim (Option-cases (find_account a.code as')) [
  | inl new ↦ rw (new, Distinct) (Distinct-append_one as' a d new)
  | inr (b, old) ↦ rw (old, Distinct) d
]

-- A known account stays known when a row is added.
pub find_account-insert_or_ignore :
    (c : String) (a : AccountRow) (as' : List AccountRow)
    → find_account c as' ≢ none
    → find_account c (insert_or_ignore a as') ≢ none
find_account-insert_or_ignore c a as' h = ground (arith, find_account-append c as' (a ∷ []))

find_account-map :
    (g : AccountRow → AccountRow) (c : String) (as' : List AccountRow)
    → ((a : AccountRow) → (g a).code ≡ a.code)
    → find_account c as' ≡ none
    → find_account c (map g as') ≡ none
find_account-map g c [] same h = refl
find_account-map g c (a ∷ as') same h = ground (arith, same a, find_account-map g c as' same)

-- Rewriting rows under their keys keeps the keys distinct.
pub Distinct-map :
    (g : AccountRow → AccountRow) (as' : List AccountRow)
    → ((a : AccountRow) → (g a).code ≡ a.code)
    → Distinct as'
    → Distinct (map g as')
Distinct-map g [] same d = tt
Distinct-map g (a ∷ as') same d =
    (rw (same a) (find_account-map g a.code as' same d.0), Distinct-map g as' same d.1)

pub find_account-map_known :
    (g : AccountRow → AccountRow) (c : String) (as' : List AccountRow)
    → ((a : AccountRow) → (g a).code ≡ a.code)
    → find_account c as' ≢ none
    → find_account c (map g as') ≢ none
find_account-map_known g c [] same h = h
find_account-map_known g c (a ∷ as') same h =
    ground (arith, same a, find_account-map_known g c as' same)

-- Each row is what its own key finds.
pub find_account_self :
    (as' : List AccountRow) → Distinct as' → All (λ a. find_account a.code as' ≡ some a) as'
find_account_self [] d = tt
find_account_self (a ∷ as') d =
    (rw (str_eq_refl a.code), All-imp _ _ as' later (find_account_self as' d.1))
  where
    later :
        (b : AccountRow) → find_account b.code as' ≡ some b → find_account b.code (a ∷ as') ≡ some b
    later b q = ground (arith, str_eq_iff a.code b.code)

-- The sum of what a map adds to one account.
abbrev pub total_of : String → Dict ℤ → ℤ
total_of c [] = pos 0
total_of c ((k, v) ∷ ds) = if str_eq c k then v +ℤ total_of c ds else total_of c ds

-- The effect of all deltas on one row.
unfoldable pub apply_row : ℕ → Dict ℤ → AccountRow → AccountRow
apply_row at [] a = a
apply_row at ((code, delta) ∷ ds) a = apply_row at ds (update_row at code delta a)

map-map :
    (f g : AccountRow → AccountRow) (as' : List AccountRow)
    → map f (map g as') ≡ map (λ a. f (g a)) as'
map-map f g [] = refl
map-map f g (a ∷ as') = ap (λ r. f (g a) ∷ r) (map-map f g as')

map_self : (as' : List AccountRow) → as' ≡ map (λ a. a) as'
map_self [] = refl
map_self (a ∷ as') = ap (λ r. a ∷ r) (map_self as')

pub apply_deltas-eq-map :
    (at : ℕ) (ds : Dict ℤ) (as' : List AccountRow)
    → apply_deltas at ds as' ≡ map (apply_row at ds) as'
unfolding apply_deltas apply_row
apply_deltas-eq-map at [] as' = map_self as'
apply_deltas-eq-map at ((k, v) ∷ ds) as' =
    apply_deltas-eq-map at ds (map (update_row at k v) as')
    ∙ map-map (apply_row at ds) (update_row at k v) as'

pub apply_row-code : (at : ℕ) (ds : Dict ℤ) (a : AccountRow) → (apply_row at ds a).code ≡ a.code
unfolding apply_row
apply_row-code at [] a = refl
apply_row-code at ((k, v) ∷ ds) a = apply_row-code at ds (update_row at k v a) ∙ ground arith

pub apply_row-account_type :
    (at : ℕ) (ds : Dict ℤ) (a : AccountRow) → (apply_row at ds a).account_type ≡ a.account_type
unfolding apply_row
apply_row-account_type at [] a = refl
apply_row-account_type at ((k, v) ∷ ds) a =
    apply_row-account_type at ds (update_row at k v a) ∙ ground arith

pub apply_row-balance :
    (at : ℕ) (ds : Dict ℤ) (a : AccountRow)
    → (apply_row at ds a).balance_minor ≡ a.balance_minor +ℤ total_of a.code ds
unfolding apply_row
apply_row-balance at [] a = sym (+ℤ_zero a.balance_minor)
apply_row-balance at ((k, v) ∷ ds) a = ground (
  arith,
  apply_row-balance at ds (update_row at k v a),
  +ℤ_assoc a.balance_minor v (total_of a.code ds),
)
