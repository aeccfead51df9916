-- ===== src/Asn1/Values.antt =====
-- The values of nodes: the decoders of src/lib/asn1.ts for integers, Booleans, object identifiers and
-- bit strings, and `findContextTag`. `none` is an error that the function throws. A bigint is an ℤ.
use edgepay_cf.Prelude.{
  ℕ, ◌+◌, ◌*◌, ◌-◌, ◌/◌, ◌%◌, min, String, Bool, true, false, not, ◌&&◌, List, [], ◌∷◌, Option,
  none, some, leb, ltb, ◌==◌, if◌then◌else◌,
}
use edgepay_cf.Prelude.Int.{ℤ, pos, negsuc, eqb_ℤ}
use edgepay_cf.Prelude.Texts.{join, decimal}
use edgepay_cf.Money.{is_safe_integer}
use edgepay_cf.Asn1.{
  Asn1TagClass, context, Asn1Info, Asn1Node, primitive, parent, Asn1Children, end, child,
}

abbrev pub info_of : Asn1Node → Asn1Info
info_of (primitive i) = i
info_of (parent i cs) = i

-- `val = (val << 8n) | BigInt(byte)`
unfoldable pub fold_bytes : ℕ → List ℕ → ℕ
fold_bytes val [] = val
fold_bytes val (b ∷ bs) = fold_bytes (val * 256 + b) bs

-- `val = (val << 8n) | BigInt(~byte & 0xff)`
unfoldable pub fold_complements : ℕ → List ℕ → ℕ
fold_complements val [] = val
fold_complements val (b ∷ bs) = fold_complements (val * 256 + (255 - b)) bs

abbrev pub integer_of : List ℕ → Option ℤ
integer_of [] = none
integer_of (b ∷ bs) =
    if leb 128 b
    then some (negsuc (fold_complements 0 (b ∷ bs)))
    else some (pos (fold_bytes 0 (b ∷ bs)))

unfoldable pub asn1_integer_to_big_int : Asn1Node → Option ℤ
asn1_integer_to_big_int node = integer_of (info_of node).value_bytes

unfoldable pub asn1_integer_to_number : Asn1Node → Option ℤ
asn1_integer_to_number node = elim (asn1_integer_to_big_int node) [
  | none ↦ none
  | some big ↦ if is_safe_integer big then some big else none
]

abbrev boolean_of : List ℕ → Option Bool
boolean_of [] = none
boolean_of (b ∷ []) = some (not (b == 0))
boolean_of (b ∷ c ∷ bs) = none

unfoldable pub asn1_boolean : Asn1Node → Option Bool
asn1_boolean node = boolean_of (info_of node).value_bytes

-- The loop over the bytes behind the first; a part that does not end is dropped.
unfoldable pub read_parts : ℕ → List ℕ → List ℕ
read_parts current [] = []
read_parts current (b ∷ bs) =
    let n = current * 128 + b % 128 in
    let ended = read_parts 0 bs in
    let open_part = read_parts n bs in if ltb b 128 then n ∷ ended else open_part

unfoldable pub oid_parts : List ℕ → Option (List ℕ)
oid_parts [] = none
oid_parts (b ∷ bs) = let first = min 2 (b / 40) in some (first ∷ (b - first * 40) ∷ read_parts 0 bs)

-- `parts.join('.')`
abbrev pub dotted : List ℕ → List String
dotted [] = []
dotted (n ∷ []) = decimal n ∷ []
dotted (n ∷ m ∷ ns) = decimal n ∷ "." ∷ dotted (m ∷ ns)

unfoldable pub asn1_oid_to_string : Asn1Node → Option String
asn1_oid_to_string node = elim (oid_parts (info_of node).value_bytes) [
  | none ↦ none
  | some parts ↦ some (join (dotted parts))
]

pub record BitString : Type 0 where
  pub unused_bits : ℕ
  pub bytes : List ℕ

abbrev bit_string_of : List ℕ → Option BitString
bit_string_of [] = none
bit_string_of (b ∷ bs) = some (record { unused_bits = b; bytes = bs })

unfoldable pub asn1_bit_string : Asn1Node → Option BitString
asn1_bit_string node = bit_string_of (info_of node).value_bytes

abbrev is_context : Asn1TagClass → Bool
is_context context = true
is_context _ = false

abbrev pub find_child : ℤ → Asn1Children → Option Asn1Node
find_child tag_number end = none
find_child tag_number (child node rest) =
    if is_context (info_of node).tag_class && eqb_ℤ (info_of node).tag_number tag_number
    then some node
    else find_child tag_number rest

unfoldable pub find_context_tag : Asn1Node → ℤ → Option Asn1Node
find_context_tag (primitive i) tag_number = none
find_context_tag (parent i cs) tag_number = find_child tag_number cs
