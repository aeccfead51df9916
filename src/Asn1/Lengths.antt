-- ===== src/Asn1/Lengths.antt =====
-- The lengths that src/lib/asn1.ts reads.
use edgepay_cf.Prelude.{
  All-take, ℕ, zero, suc, ◌+◌, ◌*◌, ◌^◌, ◌%◌, ◌≤◌, ◌<◌, ◌≡◌, ◌≢◌, ◌⊎◌, inl, inr, refl, List, [],
  ◌∷◌, length, take, length-take, ltb, ◌==◌, arith, All, Bool-cases,
}
use edgepay_cf.Prelude.Int.{ℤ, pos}
use edgepay_cf.Asn1.{
  Asn1Error, Parsed, parsed, throws, drop, to_int32, read_tag, tag_number_at, fold_length,
  read_length,
}

-- A byte that does not announce a length of four octets.
abbrev pub IsTame : ℕ → Type 0
IsTame b = (b < 256) × (b ≢ 132)

-- A result, or an error that the code throws.
abbrev pub Settles {ℓ} : {A : Type ℓ} → Parsed A → Type ℓ
Settles {A = A} m = ((a : A) × (m ≡ parsed a)) ⊎ ((e : Asn1Error) × (m ≡ throws e))

pub All-drop : (P : ℕ → Type 0) (n : ℕ) (xs : List ℕ) → All P xs → All P (drop n xs)
All-drop P zero xs h = h
All-drop P (suc n) [] h = tt
All-drop P (suc n) (x ∷ xs) h = All-drop P n xs h.1

pub drop_within : (n : ℕ) (xs : List ℕ) (y : ℕ) (ys : List ℕ) → drop n xs ≡ y ∷ ys → n < length xs
drop_within zero [] y ys h = ground (arith, h)
drop_within zero (x ∷ xs) y ys h = omega arith
drop_within (suc n) [] y ys h = ground (arith, h)
drop_within (suc n) (x ∷ xs) y ys h = omega (arith, drop_within n xs y ys h)

-- Three octets or fewer make a length that is not negative.
short_fold : (bs : List ℕ) → All IsTame bs → length bs ≤ 3 → fold_length 0 bs < 2 ^ 31
unfolding fold_length
short_fold [] h n = omega arith
short_fold (a ∷ []) h n = omega (arith, h.0.0)
short_fold (a ∷ b ∷ []) h n = omega (arith, h.0.0, h.1.0.0)
short_fold (a ∷ b ∷ c ∷ []) h n = omega (arith, h.0.0, h.1.0.0, h.1.1.0.0)
short_fold (a ∷ b ∷ c ∷ d ∷ bs) h n = ground (arith, n)

read_tag_forward : (acc offset : ℕ) (bs : List ℕ) → offset ≤ (read_tag acc offset bs).1
unfolding read_tag
read_tag_forward acc offset [] = omega arith
read_tag_forward acc offset (b ∷ bs) =
    ground (arith, read_tag_forward ((acc * 128 + b % 128) % 2 ^ 32) (offset + 1) bs)

pub tag_forward : (b offset : ℕ) (after : List ℕ) → offset ≤ (tag_number_at b offset after).1
unfolding tag_number_at
tag_forward b offset after = ground (arith, read_tag_forward 0 offset after)

-- A length that is read lies forward, and is not negative.
pub data LengthEnding (offset : ℕ) (m : Parsed (ℤ × ℕ)) : Type 0 where
  no_length : (e : Asn1Error) → m ≡ throws e → LengthEnding offset m
  length_known :
      (n offset' : ℕ) → offset ≤ offset' → m ≡ parsed (pos n, offset') → LengthEnding offset m

pub read_length-LengthEnding :
    (b offset : ℕ) (bytes : List ℕ)
    → IsTame b
    → All IsTame bytes
    → LengthEnding offset (read_length b offset bytes)
unfolding read_length to_int32
read_length-LengthEnding b offset bytes t h = elim (Bool-cases (ltb b 128)) [
  | inl q ↦ rw (q, read_length) (length_known b offset (omega arith) refl)
  | inr q ↦ elim (Bool-cases (b % 128 == 0)) [
    | inl q' ↦ rw (q, q', read_length) (no_length _ refl)
    | inr q' ↦ elim (Bool-cases (ltb 4 (b % 128))) [
      | inl q'' ↦ rw (q, q', q'', read_length) (no_length _ refl)
      | inr q'' ↦ elim (Bool-cases (ltb (length bytes) (offset + b % 128))) [
        | inl k ↦ rw (q, q', q'', k, read_length) (no_length _ refl)
        | inr k ↦
            let octets = take (b % 128) (drop offset bytes) in
            let few : b % 128 ≤ 3 = ground (arith, t, q, q'') in
            let small : fold_length 0 octets < 2 ^ 31 =
              short_fold octets
                (All-take IsTame (b % 128) (drop offset bytes) (All-drop IsTame offset bytes h))
                (omega (arith, few, length-take (b % 128) (drop offset bytes))) in
            rw (q, q', q'', k, read_length)
              (length_known (fold_length 0 octets) (offset + b % 128) (omega arith)
                (ground (arith, small)))
      ]
    ]
  ]
]
