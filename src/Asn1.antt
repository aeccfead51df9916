-- ===== src/Asn1.antt =====
-- `parseAsn1Node` and `parseAsn1` of src/lib/asn1.ts. Bytes are numbers below 256. The operators `<<`
-- and `|` give a signed number of 32 bits. Fuel bounds the depth of the nodes and the rounds of the
-- loop over children; an offset before the first byte, which a negative length may lead to, is
-- not followed.
pub mod Values
pub mod Lengths
pub mod Settled
pub mod Oids
pub mod Integers
mod Tests
use edgepay_cf.Prelude.{
  ℕ, zero, suc, ◌+◌, ◌*◌, ◌-◌, ◌^◌, ◌/◌, ◌%◌, min, Bool, true, false, not, ◌&&◌, List, [], ◌∷◌,
  Option, none, some, length, take, leb, ltb, ◌==◌, if◌then◌else◌,
}
use edgepay_cf.Prelude.Int.{ℤ, pos, negsuc, ◌+ℤ◌}

pub data Asn1TagClass : Type 0 where
  universal application context private : Asn1TagClass

-- A node without its children.
pub record Asn1Info : Type 0 where
  pub tag : ℕ
  pub tag_class : Asn1TagClass
  pub constructed : Bool
  pub tag_number : ℤ
  pub header_length : ℕ
  pub length : ℤ
  pub value_bytes : List ℕ
  pub raw : List ℕ

mutual
  pub data Asn1Node : Type 0 where
    primitive : Asn1Info → Asn1Node
    parent : Asn1Info → Asn1Children → Asn1Node

  pub data Asn1Children : Type 0 where
    end : Asn1Children
    child : Asn1Node → Asn1Children → Asn1Children

pub data Asn1Error : Type 0 where
  unexpected_end truncated_header indefinite_length length_too_long truncated_length
        truncated_value :
      Asn1Error

pub data Parsed {ℓ} (A : Type ℓ) : Type ℓ where
  parsed : A → Parsed A
  throws : Asn1Error → Parsed A
  out_of_fuel astray : Parsed A

infixl 5 ◌>>=◌
abbrev pub ◌>>=◌ {ℓ κ} : {A : Type ℓ} {B : Type κ} → Parsed A → (A → Parsed B) → Parsed B
parsed a >>= f = f a
throws e >>= f = throws e
out_of_fuel >>= f = out_of_fuel
astray >>= f = astray

abbrev pub drop : ℕ → List ℕ → List ℕ
drop zero xs = xs
drop (suc n) [] = []
drop (suc n) (x ∷ xs) = drop n xs

-- An end that is counted from the end of the bytes when it is negative.
abbrev pub end_of : ℤ → List ℕ → ℕ
end_of (pos e) bytes = min e (length bytes)
end_of (negsuc k) bytes = length bytes - (k + 1)

-- `bytes.subarray(begin, end)`, for a begin within the bytes.
abbrev pub subarray : ℕ → ℤ → List ℕ → List ℕ
subarray begin e bytes = take (end_of e bytes - begin) (drop begin bytes)

-- The signed number of 32 bits.
unfoldable pub to_int32 : ℕ → ℤ
to_int32 n = if ltb n (2 ^ 31) then pos n else negsuc (2 ^ 32 - 1 - n)

abbrev pub class_of : ℕ → Asn1TagClass
class_of b =
    let n = b / 64 in
    if n == 0
    then universal
    else if n == 1
    then application
    else if n == 2
    then context
    else private

-- The loop over the octets of a long tag number: its value, and the offset behind it.
unfoldable pub read_tag : ℕ → ℕ → List ℕ → ℕ × ℕ
read_tag acc offset [] = (acc, offset)
read_tag acc offset (b ∷ bs) =
    let n = (acc * 128 + b % 128) % 2 ^ 32 in
    let rest = read_tag n (offset + 1) bs in if ltb b 128 then (n, offset + 1) else rest

-- The tag number of the first byte, or of those behind it.
unfoldable pub tag_number_at : ℕ → ℕ → List ℕ → ℕ × ℕ
tag_number_at b offset after = if b % 32 == 31 then read_tag 0 offset after else (b % 32, offset)

-- `length = (length << 8) | byte`, over the octets.
unfoldable pub fold_length : ℕ → List ℕ → ℕ
fold_length acc [] = acc
fold_length acc (b ∷ bs) = fold_length ((acc * 256 + b) % 2 ^ 32) bs

-- The length and the offset behind it; `offset` is that of the octets.
unfoldable pub read_length : ℕ → ℕ → List ℕ → Parsed (ℤ × ℕ)
read_length b offset bytes =
    let octets = b % 128 in
    if ltb b 128
    then parsed (pos b, offset)
    else if octets == 0
    then throws indefinite_length
    else if ltb 4 octets
    then throws length_too_long
    else if ltb (length bytes) (offset + octets)
    then throws truncated_length
    else parsed (to_int32 (fold_length 0 (take octets (drop offset bytes))), offset + octets)

-- `offset + length > bytes.length`
abbrev pub exceeds : ℤ → ℕ → Bool
exceeds (pos e) n = ltb n e
exceeds (negsuc k) n = false

-- The node at an offset, as if it had no children, and the offset behind it.
abbrev pub info_at : List ℕ → ℕ → ℕ → ℕ → ℤ → ℕ → Asn1Info × ℤ
info_at bytes start first tag_number len offset = (
  record {
    tag = first;
    tag_class = class_of first;
    constructed = first / 32 % 2 == 1;
    tag_number = to_int32 tag_number;
    header_length = offset - start;
    length = len;
    value_bytes = subarray offset (pos offset +ℤ len) bytes;
    raw = subarray start (pos offset +ℤ len) bytes;
  },
  pos offset +ℤ len,
)

unfoldable pub finish_info : List ℕ → ℕ → ℕ → ℕ → ℤ × ℕ → Parsed (Asn1Info × ℤ)
finish_info bytes start first tag_number (len, offset) =
    if exceeds (pos offset +ℤ len) (length bytes)
    then throws truncated_value
    else parsed (info_at bytes start first tag_number len offset)

unfoldable pub parse_info : List ℕ → ℕ → Parsed (Asn1Info × ℤ)
parse_info bytes start = elim (drop start bytes) [
  | [] ↦ throws unexpected_end
  | first ∷ after ↦
      let (tag_number, offset) = tag_number_at first (start + 1) after in
      elim (drop offset bytes) [
        | [] ↦ throws truncated_header
        | b ∷ rest ↦ read_length b (offset + 1) bytes >>= finish_info bytes start first tag_number
      ]
]

-- The loop over the children, by rounds; `parse` parses one.
unfoldable pub parse_children :
    (List ℕ → ℕ → Parsed (Asn1Node × ℤ)) → ℕ → List ℕ → ℤ → Parsed Asn1Children
parse_children parse zero bytes offset = out_of_fuel
parse_children parse (suc rounds) bytes (negsuc k) = astray
parse_children parse (suc rounds) bytes (pos offset) =
    if leb (length bytes) offset
    then parsed end
    else parse bytes offset >>= λ r.
        parse_children parse rounds bytes r.1 >>= λ rest. parsed (child r.0 rest)

-- The node, with its children if it is constructed.
unfoldable pub add_children : (List ℕ → Parsed Asn1Children) → Asn1Info × ℤ → Parsed (Asn1Node × ℤ)
add_children children (info, next) =
    if info.constructed
    then children info.value_bytes >>= (λ cs. parsed (parent info cs, next))
    else parsed (primitive info, next)

unfoldable pub parse_asn1_node : ℕ → List ℕ → ℕ → Parsed (Asn1Node × ℤ)
parse_asn1_node zero bytes offset = out_of_fuel
parse_asn1_node (suc fuel) bytes offset =
    parse_info bytes offset
    >>= add_children (λ value. parse_children (parse_asn1_node fuel) fuel value (pos 0))

unfoldable pub parse_asn1 : ℕ → List ℕ → Parsed Asn1Node
parse_asn1 fuel bytes = parse_asn1_node fuel bytes 0 >>= λ r. parsed r.0
