-- ===== src/Asn1/Oids.antt =====
-- Object identifiers of src/lib/asn1.ts against their encoding in X.690, 8.19.
use edgepay_cf.Prelude.{
  ℕ, zero, suc, ◌+◌, ◌*◌, ◌-◌, ◌/◌, ◌%◌, ◌≤◌, ◌<◌, ◌≡◌, refl, ◌∙◌, ap, true, false, List, [], ◌∷◌,
  ◌++◌, some, ltb, ◌==◌, if◌then◌else◌, arith, Bool-cases, min, ◌⊎◌, inl, inr,
}
use edgepay_cf.Asn1.Values.{read_parts, oid_parts}

-- The octets of a number to the base 128 but the last, each marked by its top bit; as many rounds as
-- the number are enough.
unfoldable pub high_octets : ℕ → ℕ → List ℕ
high_octets zero n = []
high_octets (suc rounds) n =
    let rest = high_octets rounds (n / 128) in if n == 0 then [] else rest ++ ((128 + n % 128) ∷ [])

unfoldable pub encode_part : ℕ → List ℕ
encode_part n = high_octets n (n / 128) ++ (n % 128 ∷ [])

unfoldable pub encode_parts : List ℕ → List ℕ
encode_parts [] = []
encode_parts (n ∷ ns) = encode_part n ++ encode_parts ns

-- The first two parts share an octet.
abbrev pub encode_oid : ℕ → ℕ → List ℕ → List ℕ
encode_oid first second rest = (first * 40 + second) ∷ encode_parts rest

append_assoc : (xs ys zs : List ℕ) → (xs ++ ys) ++ zs ≡ xs ++ (ys ++ zs)
append_assoc [] ys zs = refl
append_assoc (x ∷ xs) ys zs = ap (λ l. x ∷ l) (append_assoc xs ys zs)

-- An octet whose top bit is set goes on with the number.
read_open :
    (n : ℕ) (rest : List ℕ) → read_parts (n / 128) ((128 + n % 128) ∷ rest) ≡ read_parts n rest
unfolding read_parts
read_open n rest =
    let large : ltb (128 + n % 128) 128 ≡ false = ground arith in
    let whole : n / 128 * 128 + (128 + n % 128) % 128 ≡ n = omega arith in rw (large, whole) refl

-- The last octet ends it.
read_last : (n : ℕ) (rest : List ℕ) → read_parts (n / 128) (n % 128 ∷ rest) ≡ n ∷ read_parts 0 rest
unfolding read_parts
read_last n rest =
    let small : ltb (n % 128) 128 ≡ true = ground arith in
    let whole : n / 128 * 128 + n % 128 % 128 ≡ n = omega arith in rw (small, whole) refl

read_high :
    (rounds n : ℕ) (rest : List ℕ)
    → n ≤ rounds
    → read_parts 0 (high_octets rounds n ++ rest) ≡ read_parts n rest
unfolding high_octets read_parts
read_high zero n rest h = let none_left : n ≡ 0 = omega (arith, h) in rw none_left refl
read_high (suc rounds) n rest h = elim (Bool-cases (n == 0)) [
  | inl q ↦ let none_left : n ≡ 0 = ground (arith, q) in rw none_left refl
  | inr q ↦
      rw (q, high_octets)
        (ap (read_parts 0) (append_assoc (high_octets rounds (n / 128)) ((128 + n % 128) ∷ []) rest)
          ∙ read_high rounds (n / 128) ((128 + n % 128) ∷ rest) (ground (arith, h, q))
          ∙ read_open n rest)
]

read_part : (n : ℕ) (rest : List ℕ) → read_parts 0 (encode_part n ++ rest) ≡ n ∷ read_parts 0 rest
unfolding encode_part
read_part n rest =
    ap (read_parts 0) (append_assoc (high_octets n (n / 128)) (n % 128 ∷ []) rest)
    ∙ read_high n (n / 128) (n % 128 ∷ rest) (omega arith)
    ∙ read_last n rest

read-encode_parts : (ns : List ℕ) → read_parts 0 (encode_parts ns) ≡ ns
unfolding encode_parts read_parts
read-encode_parts [] = refl
read-encode_parts (n ∷ ns) = read_part n (encode_parts ns) ∙ ap (λ l. n ∷ l) (read-encode_parts ns)

-- An identifier is read back from its encoding, if its first part is 0 or 1 with a second below 40, or 2
-- with a second below 48.
pub oid_parts-encode_oid :
    (first second : ℕ) (rest : List ℕ)
    → first ≤ 2
    → second < 40 ⊎ ((first ≡ 2) × (second < 48))
    → oid_parts (encode_oid first second rest) ≡ some (first ∷ second ∷ rest)
unfolding oid_parts
oid_parts-encode_oid first second rest h k =
    let one : min 2 ((first * 40 + second) / 40) ≡ first = ground (arith, h, k) in
    let two : first * 40 + second - first * 40 ≡ second = omega arith in
    rw (one, two, read-encode_parts rest) refl
