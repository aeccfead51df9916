-- ===== src/Posting/WellShaped.antt =====
-- The payload that `buildPayload` of src/services/ledger.ts makes of a payment.
use edgepay_cf.Prelude.{
  ap, sym, ◌∙◌, length, if◌then◌else◌, ℕ, ◌+◌, ◌≤◌, ◌<◌, ◌≡◌, ◌≢◌, refl, ◌⊎◌, inl, inr, String,
  true, List, [], ◌∷◌, some, arith, All, Option-cases, Bool-cases, str_eq, ◌==◌,
}
use edgepay_cf.Prelude.Int.{pos}
use edgepay_cf.Prelude.Texts.{decimal, join-ne-empty}
use edgepay_cf.Ledger.Types.{debit, credit, PostingEntry, PostingPayload, whole}
use edgepay_cf.Ledger.Shape.{max_amount_minor}
use edgepay_cf.Ledger.Shape.Balanced.{IsValidEntry, IsWellShaped, debit_sum, credit_sum}
use edgepay_cf.Money.{Decimals, money_to_minor_strict}
use edgepay_cf.Posting.{
  LedgerAccount, done, Outcome-cases, PostEntryInput, build_entry, build_entries, build_payload,
  find_by_id, account_rows,
}
use edgepay_cf.Posting.Entries.{payment_tx_id, payment_input}

-- Every account has a code.
abbrev pub AreCoded : List LedgerAccount → Type 0
AreCoded = All (λ a. a.code ≢ "")

-- The text is an amount of `n` minor units that the book takes.
pub record IsAmount (d : Decimals) (amount : String) (n : ℕ) : Type 0 where
  pub read : money_to_minor_strict d amount ≡ some (pos n)
  pub positive : 0 < n
  pub bounded : n ≤ max_amount_minor

account_rows-AreCoded :
    (merchant : ℕ) (es : List PostEntryInput) (xs : List LedgerAccount)
    → AreCoded xs
    → AreCoded (account_rows merchant es xs)
account_rows-AreCoded merchant es [] h = tt
account_rows-AreCoded merchant es (a ∷ xs) h =
    ground (arith, account_rows-AreCoded merchant es xs h.1, h)

find_by_id_coded :
    (i : ℕ) (xs : List LedgerAccount) (a : LedgerAccount)
    → AreCoded xs
    → find_by_id i xs ≡ some a
    → a.code ≢ ""
find_by_id_coded i [] a h q = ground (arith, q)
find_by_id_coded i (b ∷ xs) a h q = elim (Bool-cases (b.id == i)) [
  | inl t ↦ ground (arith, h, q, t)
  | inr t ↦ find_by_id_coded i xs a h.1 (rw t at q)
]

-- The entry that an input became.
record Built (e : PostEntryInput) (n : ℕ) (x : PostingEntry) : Type 0 where
  direction : x.direction ≡ e.direction
  amount_minor : x.amount_minor ≡ whole (pos n)
  coded : x.account_code ≢ ""

build_entry-Built :
    (d : Decimals) (rows : List LedgerAccount) (e : PostEntryInput) (n : ℕ) (x : PostingEntry)
    → AreCoded rows
    → money_to_minor_strict d e.amount ≡ some (pos n)
    → build_entry d rows e ≡ done x
    → Built e n x
unfolding build_entry
build_entry-Built d rows e n x h m q = elim (Option-cases (find_by_id e.account_id rows)) [
  | inl t ↦ ground (arith, q, t)
  | inr (a, t) ↦
      let coded = find_by_id_coded e.account_id rows a h t in ground (arith, q, t, m, coded)
]

-- An input with its amount in minor units.
abbrev Leg : Type 0
Leg = PostEntryInput × ℕ

abbrev debits : List Leg → ℕ
debits [] = 0
debits ((e, n) ∷ ls) = elim e.direction [ debit ↦ n | _ ↦ 0 ] + debits ls

abbrev credits : List Leg → ℕ
credits [] = 0
credits ((e, n) ∷ ls) = elim e.direction [ debit ↦ 0 | _ ↦ n ] + credits ls

abbrev inputs : List Leg → List PostEntryInput
inputs [] = []
inputs ((e, n) ∷ ls) = e ∷ inputs ls

abbrev AreSound : Decimals → List Leg → Type 0
AreSound d =
    All (λ l. ((l.0.direction ≡ debit) ⊎ (l.0.direction ≡ credit)) × IsAmount d l.0.amount l.1)

record AllBuilt (ls : List Leg) (xs : List PostingEntry) : Type 0 where
  valid : All IsValidEntry xs
  debited : debit_sum xs ≡ debits ls
  credited : credit_sum xs ≡ credits ls
  counted : length xs ≡ length ls

build_entries-cons :
    (d : Decimals) (rows : List LedgerAccount) (e : PostEntryInput) (es : List PostEntryInput)
    (xs : List PostingEntry)
    → build_entries d rows (e ∷ es) ≡ done xs
    → (x : PostingEntry) × (rest : List PostingEntry) × (build_entry d rows e ≡ done x)
      × (build_entries d rows es ≡ done rest)
      × (xs ≡ x ∷ rest)
unfolding build_entries
build_entries-cons d rows e es xs q = elim (Outcome-cases (build_entry d rows e)) [
  | inr (f, t) ↦ ground (arith, q, t)
  | inl (x, t) ↦ elim (Outcome-cases (build_entries d rows es)) [
    | inr (f, u) ↦ ground (arith, q, t, u)
    | inl (rest, u) ↦ (x, rest, t, u, ground (arith, q, t, u))
  ]
]

AllBuilt-cons :
    (d : Decimals) (l : Leg) (ls : List Leg) (x : PostingEntry) (xs : List PostingEntry)
    → (l.0.direction ≡ debit) ⊎ (l.0.direction ≡ credit)
    → IsAmount d l.0.amount l.1
    → Built l.0 l.1 x
    → AllBuilt ls xs
    → AllBuilt (l ∷ ls) (x ∷ xs)
AllBuilt-cons d (e, n) ls x xs dir a b t = record {
  valid = (
    (ground (arith, b.direction, dir), (n, b.amount_minor, a.positive, a.bounded), b.coded),
    t.valid,
  );
  debited = ground (arith, dir, b.direction, b.amount_minor, t.debited);
  credited = ground (arith, dir, b.direction, b.amount_minor, t.credited);
  counted = omega (arith, t.counted);
}

build_entries-AllBuilt :
    (d : Decimals) (rows : List LedgerAccount) (ls : List Leg) (xs : List PostingEntry)
    → AreCoded rows
    → AreSound d ls
    → build_entries d rows (inputs ls) ≡ done xs
    → AllBuilt ls xs
unfolding build_entries
build_entries-AllBuilt d rows [] xs h s q = ground (arith, q)
build_entries-AllBuilt d rows ((e, n) ∷ ls) xs h s q =
    let (x, rest, t, u, eq) = build_entries-cons d rows e (inputs ls) xs q in
    let tail : AllBuilt ls rest = build_entries-AllBuilt d rows ls rest h s.1 u in
    rw eq (
      AllBuilt-cons d (e, n) ls x rest s.0.0 s.0.1 (build_entry-Built d rows e n x h s.0.1.read t)
        tail)

-- The legs of a payment of `n` with a fee of `f`.
abbrev payment_legs :
    (clearing revenue expense : LedgerAccount) (amount fee : String) → ℕ → ℕ → List Leg
payment_legs clearing revenue expense amount fee n f =
    (record { account_id = clearing.id; direction = debit; amount = amount }, n)
    ∷ (record { account_id = revenue.id; direction = credit; amount = amount }, n)
    ∷ (if str_eq fee "0.00"
        then []
        else (record { account_id = expense.id; direction = debit; amount = fee }, f)
          ∷ (record { account_id = clearing.id; direction = credit; amount = fee }, f)
          ∷ [])

-- The fee is none, or an amount that the book takes.
abbrev pub IsFee : Decimals → String → ℕ → Type 0
IsFee d fee f = (str_eq fee "0.00" ≡ true) ⊎ IsAmount d fee f

record IsDouble (d : Decimals) (ls : List Leg) : Type 0 where
  sound : AreSound d ls
  balanced : debits ls ≡ credits ls
  two : 2 ≤ length ls

payment_legs-IsDouble :
    (d : Decimals) (clearing revenue expense : LedgerAccount) (amount fee : String) (n f : ℕ)
    → IsAmount d amount n
    → IsFee d fee f
    → IsDouble d (payment_legs clearing revenue expense amount fee n f)
payment_legs-IsDouble d clearing revenue expense amount fee n f a k =
    elim (Bool-cases (str_eq fee "0.00")) [
      | inl q ↦ rw q (record {
        sound = ((inl refl, a), ((inr refl, a), tt));
        balanced = ground arith;
        two = ground arith;
      })
      | inr q ↦ elim k [
        | inl y ↦ ground (arith, q, y)
        | inr b ↦ rw q (record {
          sound = ((inl refl, a), ((inr refl, a), ((inl refl, b), ((inr refl, b), tt))));
          balanced = ground arith;
          two = ground arith;
        })
      ]
    ]

inputs-payment_legs :
    (clearing revenue expense : LedgerAccount) (merchant intent : ℕ) (amount fee currency : String)
    (n f : ℕ)
    → inputs (payment_legs clearing revenue expense amount fee n f)
      ≡ (payment_input clearing revenue expense merchant intent amount fee currency).entries
inputs-payment_legs clearing revenue expense merchant intent amount fee currency n f =
    elim (Bool-cases (str_eq fee "0.00")) [ inl q ↦ rw q refl | inr q ↦ rw q refl ]

module _ (d : Decimals) (accounts : List LedgerAccount) (uuid : String)
    (clearing revenue expense : LedgerAccount) (merchant intent : ℕ) (amount fee currency : String)
    (n f : ℕ) (p : PostingPayload) where
  -- Where every account has a code, and the amount and the fee (unless it is "0.00") are amounts that
  -- the book takes, the payload of a payment is well shaped: it has an id, two or more valid
  -- entries, and its debits are its credits.
  pub payment-IsWellShaped :
      AreCoded accounts
      → IsAmount d amount n
      → IsFee d fee f
      → build_payload d accounts
          (some (payment_tx_id merchant intent))
          uuid
          (payment_input clearing revenue expense merchant intent amount fee currency)
        ≡ done p
      → IsWellShaped p
  unfolding build_payload
  payment-IsWellShaped h a k q =
      let i = payment_input clearing revenue expense merchant intent amount fee currency in
      let rows = account_rows merchant i.entries accounts in
      let ls = payment_legs clearing revenue expense amount fee n f in
      let double = payment_legs-IsDouble d clearing revenue expense amount fee n f a k in
      elim (Outcome-cases (build_entries d rows i.entries)) [
        | inr (x, t) ↦ ground (arith, q, t)
        | inl (xs, t) ↦
            let built : AllBuilt ls xs =
              build_entries-AllBuilt d rows ls xs
                (account_rows-AreCoded merchant i.entries accounts h) double.sound
                (ap (build_entries d rows) (
                    inputs-payment_legs clearing revenue expense merchant intent amount fee currency
                      n f)
                  ∙ t) in
            let same : p.entries ≡ xs = ground (arith, q, t) in
            let named : p.tx_id ≡ payment_tx_id merchant intent = ground (arith, q, t) in
            record {
              named = λ e.
                  join-ne-empty (decimal merchant ∷ ":payment:" ∷ decimal intent ∷ [])
                    (sym named ∙ e);
              two_legs = ground (arith, same, built.counted, double.two);
              valid = rw same built.valid;
              balanced = rw same (built.debited ∙ double.balanced ∙ sym built.credited);
            }
      ]
