-- ===== src/Asn1/Settled.antt =====
-- That `parseAsn1` of src/lib/asn1.ts comes to an end where no length takes four octets.
use edgepay_cf.Prelude.{
  All-take, ℕ, zero, suc, ◌+◌, ◌-◌, ◌<◌, ◌≡◌, ◌⊎◌, inl, inr, refl, List, [], ◌∷◌, min, length,
  length-take, leb, ltb, arith, All, Bool-cases,
}
use edgepay_cf.Prelude.Int.{ℤ, pos, ◌+ℤ◌}
use edgepay_cf.Asn1.{
  Asn1Info, Asn1Node, Asn1Error, Parsed, parsed, throws, drop, tag_number_at, finish_info,
  parse_info, parse_children, add_children, parse_asn1_node, parse_asn1,
}
use edgepay_cf.Asn1.Lengths.{
  IsTame, Settles, All-drop, drop_within, tag_forward, no_length, length_known,
  read_length-LengthEnding,
}

-- What a node leaves to its children and to its siblings.
record Forward (bytes : List ℕ) (start : ℕ) (info : Asn1Info) (next : ℤ) : Type 0 where
  place : ℕ
  at : next ≡ pos place
  ahead : start < place
  shorter : length info.value_bytes < length bytes
  tame : All IsTame info.value_bytes

data InfoEnding (bytes : List ℕ) (start : ℕ) (m : Parsed (Asn1Info × ℤ)) : Type 0 where
  refused : (e : Asn1Error) → m ≡ throws e → InfoEnding bytes start m
  known :
      (info : Asn1Info) (next : ℤ)
      → m ≡ parsed (info, next)
      → Forward bytes start info next
      → InfoEnding bytes start m

pos_+ℤ : (a b : ℕ) → pos a +ℤ pos b ≡ pos (a + b)
unfolding ◌+ℤ◌
pos_+ℤ a b = ground arith

finish_info-InfoEnding :
    (bytes : List ℕ) (start first tag_number n offset : ℕ)
    → start < offset
    → start < length bytes
    → All IsTame bytes
    → InfoEnding bytes start (finish_info bytes start first tag_number (pos n, offset))
unfolding finish_info
finish_info-InfoEnding bytes start first tag_number n offset lo hi h =
    elim (Bool-cases (ltb (length bytes) (offset + n))) [
      | inl q ↦ rw (pos_+ℤ offset n, q, finish_info) (refused _ refl)
      | inr q ↦
          rw (pos_+ℤ offset n, q, finish_info)
            (known _ _ refl (record {
              place = offset + n;
              at = refl;
              ahead = omega arith;
              shorter = omega (
                arith,
                length-take (min (offset + n) (length bytes) - offset) (drop offset bytes),
              );
              tame =
                  All-take IsTame (min (offset + n) (length bytes) - offset) (drop offset bytes)
                    (All-drop IsTame offset bytes h);
            }))
    ]

head-IsTame :
    (bytes : List ℕ) (k b : ℕ) (rest : List ℕ)
    → All IsTame bytes
    → drop k bytes ≡ b ∷ rest
    → IsTame b
head-IsTame bytes k b rest h q =
    let all : All IsTame (b ∷ rest) = rw q at (All-drop IsTame k bytes h) in all.0

List-cases : (xs : List ℕ) → (xs ≡ []) ⊎ ((y : ℕ) × (ys : List ℕ) × (xs ≡ y ∷ ys))
List-cases [] = inl refl
List-cases (x ∷ xs) = inr (x, xs, refl)

parse_info-InfoEnding :
    (bytes : List ℕ) (start : ℕ)
    → All IsTame bytes
    → InfoEnding bytes start (parse_info bytes start)
unfolding parse_info
parse_info-InfoEnding bytes start h = elim (List-cases (drop start bytes)) [
  | inl q ↦ rw (q, parse_info) (refused _ refl)
  | inr (first, after, q) ↦
      let (tag_number, offset) = tag_number_at first (start + 1) after in
      elim (List-cases (drop offset bytes)) [
        | inl q' ↦ rw (q, q', parse_info) (refused _ refl)
        | inr (b, rest, q') ↦
            elim (read_length-LengthEnding b (offset + 1) bytes
              (head-IsTame bytes offset b rest h q') h) [
                | no_length e u ↦ rw (q, q', u, parse_info) (refused e refl)
                | length_known n offset' f u ↦
                    rw (q, q', u, parse_info)
                      (finish_info-InfoEnding bytes start first tag_number n offset'
                        (omega (arith, f, tag_forward first (start + 1) after))
                        (drop_within start bytes first after q) h)
              ]
      ]
]

-- The loop over the children of a value, with a parser that settles and moves forward.
record Parses (parse : List ℕ → ℕ → Parsed (Asn1Node × ℤ)) (bytes : List ℕ) (start : ℕ)
    : Type 0 where
  settles : Settles (parse bytes start)
  ahead :
      (node : Asn1Node) (next : ℤ)
      → parse bytes start ≡ parsed (node, next)
      → (place : ℕ) × (next ≡ pos place) × (start < place)

parse_children-Settles :
    (parse : List ℕ → ℕ → Parsed (Asn1Node × ℤ)) (bytes : List ℕ)
    → ((start : ℕ) → Parses parse bytes start)
    → (rounds offset : ℕ) → length bytes < rounds + offset
    → 0 < rounds
    → Settles (parse_children parse rounds bytes (pos offset))
unfolding parse_children
parse_children-Settles parse bytes p zero offset n m = ground (arith, m)
parse_children-Settles parse bytes p (suc rounds) offset n m =
    elim (Bool-cases (leb (length bytes) offset)) [
      | inl q ↦ rw (q, parse_children) (inl (_, refl))
      | inr q ↦ elim (p offset).settles [
        | inr (e, u) ↦ rw (q, u, parse_children) (inr (e, refl))
        | inl ((node, next), u) ↦
            let (place, at, ahead) = (p offset).ahead node next u in
            let rest : Settles (parse_children parse rounds bytes (pos place)) =
              parse_children-Settles parse bytes p rounds place (omega (arith, n, ahead))
                (ground (arith, n, q)) in
            elim rest [
              | inl (cs, k) ↦ rw (q, u, at, k, parse_children) (inl (_, refl))
              | inr (e, k) ↦ rw (q, u, at, k, parse_children) (inr (e, refl))
            ]
      ]
    ]

parse_asn1_node-Parses :
    (fuel : ℕ) (bytes : List ℕ)
    → All IsTame bytes
    → length bytes < fuel
    → (start : ℕ) → Parses (parse_asn1_node fuel) bytes start
unfolding parse_asn1_node add_children
parse_asn1_node-Parses zero bytes h n start = ground (arith, n)
parse_asn1_node-Parses (suc fuel) bytes h n start = elim (parse_info-InfoEnding bytes start h) [
  | refused e q ↦ record {
    settles = rw q (inr (e, refl));
    ahead = λ node next u. ground (arith, rw q at u);
  }
  | known info next q f ↦ elim (Bool-cases info.constructed) [
    | inr c ↦ record {
      settles = rw (q, c) (inl (_, refl));
      ahead = λ node next' u. (f.place, ground (arith, rw (q, c) at u, f.at), f.ahead);
    }
    | inl c ↦
        let children : Settles
            (parse_children (parse_asn1_node fuel) fuel info.value_bytes (pos 0)) =
          parse_children-Settles (parse_asn1_node fuel) info.value_bytes
            (parse_asn1_node-Parses fuel info.value_bytes f.tame (omega (arith, n, f.shorter))) fuel
            0 (omega (arith, n, f.shorter)) (omega (arith, n, f.shorter)) in
        elim children [
          | inr (e, k) ↦ record {
            settles = rw (q, c, k) (inr (e, refl));
            ahead = λ node next' u. ground (arith, rw (q, c, k) at u);
          }
          | inl (cs, k) ↦ record {
            settles = rw (q, c, k) (inl (_, refl));
            ahead = λ node next' u. (f.place, ground (arith, rw (q, c, k) at u, f.at), f.ahead);
          }
        ]
  ]
]

-- Of bytes none of which is 0x84, the start of a length of four octets, `parseAsn1` returns a node or
-- throws an error, with more fuel than there are bytes.
pub parse_asn1-Settles :
    (fuel : ℕ) (bytes : List ℕ)
    → All IsTame bytes
    → length bytes < fuel
    → Settles (parse_asn1 fuel bytes)
unfolding parse_asn1
parse_asn1-Settles fuel bytes h n = elim (parse_asn1_node-Parses fuel bytes h n 0).settles [
  | inl (r, q) ↦ rw (q, parse_asn1) (inl (_, refl))
  | inr (e, q) ↦ rw (q, parse_asn1) (inr (e, refl))
]
