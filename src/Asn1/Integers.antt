-- ===== src/Asn1/Integers.antt =====
-- Integers of src/lib/asn1.ts against two's complement.
use native.Mathlib.Nat.{mul-le-mul_right}
use edgepay_cf.Prelude.{
  ap, ℕ, ◌+◌, ◌*◌, ◌-◌, ◌≤◌, ◌<◌, ◌≡◌, ◌⊎◌, inl, inr, List, [], ◌∷◌, some, leb, arith, All,
  Bool-cases,
}
use edgepay_cf.Prelude.Int.{ℤ, pos, negsuc, ◌+ℤ◌}
use edgepay_cf.Asn1.{Asn1Node}
use edgepay_cf.Asn1.Values.{info_of, fold_bytes, fold_complements, asn1_integer_to_big_int}

-- 256 to the number of bytes.
abbrev pub modulus : List ℕ → ℕ
modulus [] = 1
modulus (b ∷ bs) = 256 * modulus bs

-- The bytes as a number without a sign, from the last one.
abbrev pub unsigned : List ℕ → ℕ
unsigned [] = 0
unsigned (b ∷ bs) = b * modulus bs + unsigned bs

fold_bytes-unsigned : (v : ℕ) (bs : List ℕ) → fold_bytes v bs ≡ v * modulus bs + unsigned bs
unfolding fold_bytes
fold_bytes-unsigned v [] = omega arith
fold_bytes-unsigned v (b ∷ bs) = omega (arith, fold_bytes-unsigned (v * 256 + b) bs)

fold_complements-unsigned :
    (v : ℕ) (bs : List ℕ)
    → All (λ b. b < 256) bs
    → fold_complements v bs + unsigned bs + 1 ≡ (v + 1) * modulus bs
unfolding fold_complements
fold_complements-unsigned v [] h = omega arith
fold_complements-unsigned v (b ∷ bs) h =
    let next = fold_complements-unsigned (v * 256 + (255 - b)) bs h.1 in
    let all : (v * 256 + (255 - b) + 1) * modulus bs + b * modulus bs ≡ (v + 1) * 256 * modulus bs =
      sum_times (v * 256 + (255 - b) + 1) b ((v + 1) * 256) (modulus bs) (omega (arith, h.0)) in
    omega (arith, next, all)
  where
    sum_times : (x y z m : ℕ) → x + y ≡ z → x * m + y * m ≡ z * m
    sum_times x y z m q = rw⁻¹ q (omega arith)

unsigned_bound : (bs : List ℕ) → All (λ b. b < 256) bs → unsigned bs < modulus bs
unsigned_bound [] h = omega arith
unsigned_bound (b ∷ bs) h = omega (
  arith,
  unsigned_bound bs h.1,
  mul-le-mul_right {m = b + 1} {n = 256} (modulus bs) (omega (arith, h.0)),
)

-- The number that the bytes stand for in two's complement: the upper half is negative.
abbrev pub IsTwosComplement : List ℕ → ℤ → Type 0
IsTwosComplement bs z =
    ((z ≡ pos (unsigned bs)) × (unsigned bs * 2 < modulus bs))
    ⊎ ((z +ℤ pos (modulus bs) ≡ pos (unsigned bs)) × (modulus bs ≤ unsigned bs * 2))

negsuc_modulus : (c m u : ℕ) → c + u + 1 ≡ m → negsuc c +ℤ pos m ≡ pos u
unfolding ◌+ℤ◌
negsuc_modulus c m u q = ground (arith, q)

-- An integer of at least one byte is read as the number that its bytes stand for in two's complement.
pub asn1_integer-IsTwosComplement :
    (node : Asn1Node) (b : ℕ) (bs : List ℕ)
    → (info_of node).value_bytes ≡ b ∷ bs
    → All (λ c. c < 256) (b ∷ bs)
    → (z : ℤ) × (asn1_integer_to_big_int node ≡ some z) × IsTwosComplement (b ∷ bs) z
unfolding asn1_integer_to_big_int
asn1_integer-IsTwosComplement node b bs q h = elim (Bool-cases (leb 128 b)) [
  | inl t ↦ (
    negsuc (fold_complements 0 (b ∷ bs)),
    rw (q, asn1_integer_to_big_int) (ground (arith, t)),
    inr (
      negsuc_modulus (fold_complements 0 (b ∷ bs)) (modulus (b ∷ bs)) (unsigned (b ∷ bs))
          (omega (arith, fold_complements-unsigned 0 (b ∷ bs) h)),
      omega (arith, mul-le-mul_right {m = 128} {n = b} (modulus bs) (ground (arith, t))),
    ),
  )
  | inr t ↦ (
    pos (fold_bytes 0 (b ∷ bs)),
    rw (q, asn1_integer_to_big_int) (ground (arith, t)),
    inl (
      ap pos (omega (arith, fold_bytes-unsigned 0 (b ∷ bs))),
      omega (
        arith,
        unsigned_bound bs h.1,
        mul-le-mul_right {m = b + 1} {n = 128} (modulus bs) (ground (arith, t)),
      ),
    ),
  )
]
