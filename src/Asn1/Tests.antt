-- ===== src/Asn1/Tests.antt =====
-- DER texts for src/lib/asn1.ts, and the theorems at concrete inputs.
use edgepay_cf.Prelude.{false, ℕ, zero, suc, ◌≡◌, refl, inl, List, [], ◌∷◌, some, arith}
use edgepay_cf.Prelude.Int.{ℤ, pos, negsuc, ◌+ℤ◌}
use edgepay_cf.Asn1.{
  Asn1Node, primitive, universal, out_of_fuel, parse_asn1, parse_asn1_node, parse_info, finish_info,
  read_length, tag_number_at, fold_length, to_int32, add_children, parse_children,
}
use edgepay_cf.Asn1.Values.{oid_parts, read_parts, fold_complements, asn1_integer_to_big_int}
use edgepay_cf.Asn1.Lengths.{Settles}
use edgepay_cf.Asn1.Settled.{parse_asn1-Settles}
use edgepay_cf.Asn1.Oids.{encode_oid, oid_parts-encode_oid}
use edgepay_cf.Asn1.Integers.{IsTwosComplement, asn1_integer-IsTwosComplement}

-- A sequence whose first member has the length -6, in four octets.
abbrev looping : List ℕ
looping = 48 ∷ 6 ∷ 2 ∷ 132 ∷ 255 ∷ 255 ∷ 255 ∷ 250 ∷ []

abbrev member : List ℕ
member = 2 ∷ 132 ∷ 255 ∷ 255 ∷ 255 ∷ 250 ∷ []

-- The loop over the members comes back to the first one, however many rounds it has.
members_loop :
    (fuel rounds : ℕ) → parse_children (parse_asn1_node fuel) rounds member (pos 0) ≡ out_of_fuel
unfolding parse_asn1_node parse_info finish_info read_length tag_number_at fold_length to_int32
    add_children parse_children ◌+ℤ◌
members_loop fuel zero = refl
members_loop zero (suc rounds) = refl
members_loop (suc fuel) (suc rounds) = rw (members_loop (suc fuel) rounds) refl

never_ends : (fuel : ℕ) → parse_asn1 fuel looping ≡ out_of_fuel
unfolding parse_asn1 parse_asn1_node parse_info finish_info read_length tag_number_at fold_length
    to_int32 add_children ◌+ℤ◌
never_ends zero = refl
never_ends (suc fuel) = rw (members_loop fuel fuel) refl

-- An integer in a sequence.
abbrev der : List ℕ
der = 48 ∷ 3 ∷ 2 ∷ 1 ∷ 254 ∷ []

parse_asn1-Settles_example : Settles (parse_asn1 6 der)
parse_asn1-Settles_example =
    parse_asn1-Settles 6 der
      (
        (ground arith, ground arith),
        (
          (ground arith, ground arith),
          (
            (ground arith, ground arith),
            ((ground arith, ground arith), ((ground arith, ground arith), tt)),
          ),
        ),
      )
      (omega arith)

abbrev integer : Asn1Node
integer = primitive (record {
  tag = 2;
  tag_class = universal;
  constructed = false;
  tag_number = pos 2;
  header_length = 2;
  length = pos 1;
  value_bytes = 254 ∷ [];
  raw = 2 ∷ 1 ∷ 254 ∷ [];
})

asn1_integer-IsTwosComplement_example :
    (z : ℤ) × (asn1_integer_to_big_int integer ≡ some z) × IsTwosComplement (254 ∷ []) z
asn1_integer-IsTwosComplement_example =
    asn1_integer-IsTwosComplement integer 254 [] refl (omega arith, tt)

minus_two : asn1_integer_to_big_int integer ≡ some (negsuc 1)
unfolding asn1_integer_to_big_int fold_complements
minus_two = refl

-- The arc of Android's key attestation.
oid_parts-encode_oid_example :
    oid_parts (encode_oid 1 3 (6 ∷ 1 ∷ 4 ∷ 1 ∷ 11_129 ∷ 2 ∷ 1 ∷ 17 ∷ []))
    ≡ some (1 ∷ 3 ∷ 6 ∷ 1 ∷ 4 ∷ 1 ∷ 11_129 ∷ 2 ∷ 1 ∷ 17 ∷ [])
oid_parts-encode_oid_example =
    oid_parts-encode_oid 1 3 (6 ∷ 1 ∷ 4 ∷ 1 ∷ 11_129 ∷ 2 ∷ 1 ∷ 17 ∷ []) (omega arith)
      (inl (omega arith))

-- The encoding of 2.999 is read as another identifier.
misread : oid_parts (136 ∷ 55 ∷ []) ≡ some (2 ∷ 56 ∷ 55 ∷ [])
unfolding oid_parts read_parts
misread = refl
