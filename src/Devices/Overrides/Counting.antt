-- ===== src/Devices/Overrides/Counting.antt =====
-- Counts of the rows that pass a test, as src/services/device-policy.ts takes them of its overrides.
use edgepay_cf.Prelude.{
  ℕ, ◌+◌, ◌/◌, ◌≡◌, ◌≤◌, Bool, true, false, List, [], ◌∷◌, ◌++◌, map, none, some, length, keep,
  arith, Bool-cases, Option-cases, inl, inr, refl,
}
use edgepay_cf.Devices.Store.{OverrideRow, is_live, is_active_for, last_row, ms_per_day}

pub length-keep-append :
    (q : OverrideRow → Bool) (xs ys : List OverrideRow)
    → length (keep q (xs ++ ys)) ≡ length (keep q xs) + length (keep q ys)
length-keep-append q [] ys = omega arith
length-keep-append q (x ∷ xs) ys = ground (arith, length-keep-append q xs ys)

-- A stronger test counts fewer rows.
pub length-keep-least :
    (q r : OverrideRow → Bool) (xs : List OverrideRow)
    → ((x : OverrideRow) → q x ≡ true → r x ≡ true)
    → length (keep q xs) ≤ length (keep r xs)
length-keep-least q r [] h = omega arith
length-keep-least q r (x ∷ xs) h = elim (Bool-cases (q x)) [
  | inl b ↦ rw (b, h x b) (omega (arith, length-keep-least q r xs h))
  | inr b ↦ ground (arith, b, length-keep-least q r xs h)
]

days_mono : (t t' : ℕ) → t ≤ t' → t / ms_per_day ≤ t' / ms_per_day
days_mono t t' h = omega arith

pub live_before :
    (merchant t t' : ℕ) (o : OverrideRow)
    → t ≤ t'
    → is_live merchant t' o ≡ true
    → is_live merchant t o ≡ true
live_before merchant t t' o h k = ground (arith, days_mono t t' h)

pub active_before :
    (merchant device t t' : ℕ) (o : OverrideRow)
    → t ≤ t'
    → is_active_for merchant device t' o ≡ true
    → is_active_for merchant device t o ≡ true
active_before merchant device t t' o h k = ground (arith, days_mono t t' h)

-- No last row: no row at all.
pub last_row-none : (os : List OverrideRow) → last_row os ≡ none → length os ≡ 0
last_row-none [] h = refl
last_row-none (o ∷ os) h = elim (Option-cases (last_row os)) [
  | inl q ↦ ground arith
  | inr (x, q) ↦ ground arith
]

-- The last row of those that pass a test passes it.
pub last_row_passes :
    (q : OverrideRow → Bool) (xs : List OverrideRow) (o : OverrideRow)
    → last_row (keep q xs) ≡ some o
    → q o ≡ true
last_row_passes q [] o h = ground arith
last_row_passes q (x ∷ xs) o h = elim (Bool-cases (q x)) [
  | inr b ↦ last_row_passes q xs o (rw b at h)
  | inl b ↦ elim (Option-cases (last_row (keep q xs))) [
    | inl n ↦ let same : x ≡ o = ground arith in rw (← same) b
    | inr (y, n) ↦ let same : y ≡ o = ground arith in last_row_passes q xs o (rw same at n)
  ]
]

module _ (q : OverrideRow → Bool) (f : OverrideRow → OverrideRow)
    (weaker : (x : OverrideRow) → q (f x) ≡ true → q x ≡ true) where
  length-keep-map : (xs : List OverrideRow) → length (keep q (map f xs)) ≤ length (keep q xs)
  length-keep-map [] = omega arith
  length-keep-map (x ∷ xs) = elim (Bool-cases (q (f x))) [
    | inl b ↦ rw (b, weaker x b) (omega (arith, length-keep-map xs))
    | inr b ↦ ground (arith, b, length-keep-map xs)
  ]

  -- An update that takes the test from the last row that passes leaves one row fewer that does.
  pub length-keep-map_last :
      (xs : List OverrideRow) (o : OverrideRow)
      → last_row (keep q xs) ≡ some o
      → q (f o) ≡ false
      → length (keep q (map f xs)) + 1 ≤ length (keep q xs)
  length-keep-map_last [] o h k = ground arith
  length-keep-map_last (x ∷ xs) o h k = elim (Bool-cases (q x)) [
    | inr b ↦ elim (Bool-cases (q (f x))) [
      | inl c ↦ ground (arith, weaker x c)
      | inr c ↦ rw (b, c) (length-keep-map_last xs o (rw b at h) k)
    ]
    | inl b ↦ elim (Option-cases (last_row (keep q xs))) [
      | inl n ↦
          let same : x ≡ o = ground arith in rw (b, same, k) (omega (arith, length-keep-map xs))
      | inr (y, n) ↦
          let same : y ≡ o = ground arith in
          ground (arith, b, length-keep-map_last xs o (rw same at n) k)
    ]
  ]
