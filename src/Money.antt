-- ===== src/Money.antt =====
-- Amounts of money: src/lib/money.ts, and `moneyToMinorStrict` of src/services/ledger.ts. An amount is
-- a text. The package decimal.js is a parameter: what its operations answer on the texts.
use Prim.Native.Nat.{Ordering}
use edgepay_cf.Prelude.{
  ℕ, ◌≡◌, refl, String, Bool, true, false, ◌&&◌, List, [], ◌∷◌, Option, none, some, leb, ltb, ◌==◌,
  if◌then◌else◌,
}
use edgepay_cf.Prelude.Int.{ℤ, pos, negsuc}
use edgepay_cf.Prelude.Texts.{codes}

-- `scaled a` is the integer that `new Decimal(a).times(100).toFixed(0)` prints, `of_minor n` the text of
-- n / 100 with two decimals, `cmp` and `is_zero` the methods of these names.
pub record Decimals : Type 0 where
  pub scaled : String → ℤ
  pub of_minor : ℤ → String
  pub cmp : String → String → Ordering
  pub is_zero : String → Bool

abbrev pub max_safe_integer : ℕ
max_safe_integer = 9_007_199_254_740_991

abbrev pub is_safe_integer : ℤ → Bool
is_safe_integer (pos n) = leb n max_safe_integer
is_safe_integer (negsuc n) = ltb n max_safe_integer

abbrev pub is_digit : ℕ → Bool
is_digit c = leb 48 c && leb c 57

-- `(\.\d{1,2})?$` from behind the point.
abbrev pub one_or_two_digits : List ℕ → Bool
one_or_two_digits [] = false
one_or_two_digits (c ∷ []) = is_digit c
one_or_two_digits (c ∷ d ∷ []) = is_digit c && is_digit d
one_or_two_digits (c ∷ d ∷ e ∷ cs) = false

-- `\d+(\.\d{1,2})?$`; `seen` is whether there was a digit.
abbrev pub matches_digits : Bool → List ℕ → Bool
matches_digits seen [] = seen
matches_digits seen (c ∷ cs) =
    if is_digit c then matches_digits true cs else seen && c == 46 && one_or_two_digits cs

-- `/^-?\d+(\.\d{1,2})?$/`
abbrev pub matches_money : List ℕ → Bool
matches_money [] = false
matches_money (c ∷ cs) = if c == 45 then matches_digits false cs else matches_digits false (c ∷ cs)

-- `none` is an error that the function throws.
unfoldable pub to_minor_units : Decimals → String → Option ℤ
to_minor_units d amount = if is_safe_integer (d.scaled amount) then some (d.scaled amount) else none

unfoldable pub money_to_minor_strict : Decimals → String → Option ℤ
money_to_minor_strict d amount =
    if matches_money (codes amount) then to_minor_units d amount else none

money_matches : matches_money (codes "-12.50") ≡ true
money_matches = refl

money_refused : matches_money (codes "12.505") ≡ false
money_refused = refl
