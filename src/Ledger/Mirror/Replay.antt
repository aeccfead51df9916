-- ===== src/Ledger/Mirror/Replay.antt =====
-- What a batch of src/services/ledger-audit.ts leaves in the mirror, and that it may run again.
use edgepay_cf.Prelude.{
  ap, ◌∙◌, ℕ, suc, ◌≡◌, refl, String, true, List, [], ◌∷◌, ◌++◌, none, some, arith, str_eq_refl,
  inl, inr, Option-cases, Bool-cases, if◌then◌else◌,
}
use edgepay_cf.Ledger.Types.{PostingEntry, PostingPayload}
use edgepay_cf.Ledger.Mirror.{
  Mirror, MirrorTransaction, MirrorEntry, Statement, upsert_posting, insert_transaction,
  insert_entry, upsert, find_transaction, has_entry, run_statement, batch, entry_statements,
  build_ledger_audit_statements, new_transaction, posting_row,
}

find_transaction-append :
    (u : String) (xs : List MirrorTransaction) (y : MirrorTransaction)
    → find_transaction u (xs ++ (y ∷ []))
      ≡ elim (find_transaction u xs) [ some x ↦ some x | none ↦ find_transaction u (y ∷ []) ]
find_transaction-append u [] y = refl
find_transaction-append u (x ∷ xs) y = ground (arith, find_transaction-append u xs y)

has_entry-append :
    (t o : ℕ) (xs : List MirrorEntry) (y : MirrorEntry)
    → has_entry t o (xs ++ (y ∷ [])) ≡ (if has_entry t o xs then true else has_entry t o (y ∷ []))
has_entry-append t o [] y = refl
has_entry-append t o (x ∷ xs) y = ground (arith, has_entry-append t o xs y)

-- Entries `order`, `order + 1`, … up to one for each item of the list are in the mirror.
abbrev pub HasEntries : ℕ → ℕ → List PostingEntry → Mirror → Type 0
HasEntries tid order [] m = Unit
HasEntries tid order (e ∷ es) m =
    (has_entry tid order m.entries ≡ true) × HasEntries tid (suc order) es m

-- A posting is mirrored: its header is there, and each of its entries under the header's id.
pub record IsMirrored (p : PostingPayload) (m : Mirror) : Type 0 where
  pub header : MirrorTransaction
  pub found : find_transaction p.tx_id m.transactions ≡ some header
  pub entries : HasEntries header.id 1 p.entries m

-- Nothing in the mirror is lost.
pub record Extends (m m' : Mirror) : Type 0 where
  pub keeps_transaction :
      (u : String) (t : MirrorTransaction)
      → find_transaction u m.transactions ≡ some t
      → find_transaction u m'.transactions ≡ some t
  pub keeps_entry : (t o : ℕ) → has_entry t o m.entries ≡ true → has_entry t o m'.entries ≡ true

Extends-trans : (a b c : Mirror) → Extends a b → Extends b c → Extends a c
Extends-trans a b c h k = record {
  keeps_transaction = λ u t f. k.keeps_transaction u t (h.keeps_transaction u t f);
  keeps_entry = λ t o f. k.keeps_entry t o (h.keeps_entry t o f);
}

pub Extends-refl : (m : Mirror) → Extends m m
Extends-refl m = record { keeps_transaction = λ u t f. f; keeps_entry = λ t o f. f }

run_statement-Extends : (st : Statement) (m : Mirror) → Extends m (run_statement st m)
unfolding run_statement
run_statement-Extends (upsert_posting p) m = record {
  keeps_transaction = λ u t f. f;
  keeps_entry = λ t o f. f;
}
run_statement-Extends (insert_transaction mid p at) m =
    elim (Option-cases (find_transaction p.tx_id m.transactions)) [
      | inr (x, q) ↦ rw (q, run_statement) (Extends-refl m)
      | inl q ↦
          rw (q, run_statement)
            (record {
              keeps_transaction = λ u t f. rw (find_transaction-append u m.transactions _, f) refl;
              keeps_entry = λ t o f. f;
            })
    ]
run_statement-Extends (insert_entry e c o' at u') m =
    elim (Option-cases (find_transaction u' m.transactions)) [
      | inl q ↦ rw (q, run_statement) (Extends-refl m)
      | inr (x, q) ↦ elim (Bool-cases (has_entry x.id o' m.entries)) [
        | inl q' ↦ rw (q, q', run_statement) (Extends-refl m)
        | inr q' ↦
            rw (q, q', run_statement)
              (record {
                keeps_transaction = λ u t f. f;
                keeps_entry = λ t o f. rw (has_entry-append t o m.entries _, f) refl;
              })
      ]
    ]

pub batch-Extends : (sts : List Statement) (m : Mirror) → Extends m (batch sts m)
unfolding batch
batch-Extends [] m = Extends-refl m
batch-Extends (st ∷ sts) m =
    Extends-trans m (run_statement st m) (batch sts (run_statement st m))
      (run_statement-Extends st m) (batch-Extends sts (run_statement st m))

pub batch-append :
    (xs ys : List Statement) (m : Mirror) → batch (xs ++ ys) m ≡ batch ys (batch xs m)
unfolding batch
batch-append [] ys m = refl
batch-append (x ∷ xs) ys m = batch-append xs ys (run_statement x m)

-- A mirrored posting stays mirrored.
HasEntries-Extends :
    (tid order : ℕ) (es : List PostingEntry) (m m' : Mirror)
    → Extends m m'
    → HasEntries tid order es m
    → HasEntries tid order es m'
HasEntries-Extends tid order [] m m' x h = tt
HasEntries-Extends tid order (e ∷ es) m m' x h =
    (x.keeps_entry tid order h.0, HasEntries-Extends tid (suc order) es m m' x h.1)

pub IsMirrored-Extends :
    (p : PostingPayload) (m m' : Mirror) → Extends m m' → IsMirrored p m → IsMirrored p m'
IsMirrored-Extends p m m' x h = record {
  header = h.header;
  found = x.keeps_transaction p.tx_id h.header h.found;
  entries = HasEntries-Extends h.header.id 1 p.entries m m' x h.entries;
}

-- The header's statement leaves a header.
header_inserted :
    (mid at : ℕ) (p : PostingPayload) (m : Mirror)
    → (t : MirrorTransaction) × (find_transaction p.tx_id
          (run_statement (insert_transaction mid p at) m).transactions
        ≡ some t)
unfolding run_statement
header_inserted mid at p m = elim (Option-cases (find_transaction p.tx_id m.transactions)) [
  | inr (x, q) ↦ (x, rw (q, run_statement) q)
  | inl q ↦ (
    new_transaction m.transaction_seq mid p at,
    rw (q, run_statement)
        (rw (find_transaction-append p.tx_id m.transactions _, q, str_eq_refl p.tx_id) refl),
  )
]

entry_inserted :
    (e : PostingEntry) (c u : String) (order at : ℕ) (t : MirrorTransaction) (m : Mirror)
    → find_transaction u m.transactions ≡ some t
    → has_entry t.id order (run_statement (insert_entry e c order at u) m).entries ≡ true
unfolding run_statement
entry_inserted e c u order at t m f = elim (Bool-cases (has_entry t.id order m.entries)) [
  | inl q ↦ rw (f, q, run_statement) q
  | inr q ↦
      rw (f, q, run_statement) (rw (has_entry-append t.id order m.entries _, q) (ground arith))
]

entries_inserted :
    (p : PostingPayload) (at order : ℕ) (es : List PostingEntry) (t : MirrorTransaction)
    (m : Mirror)
    → find_transaction p.tx_id m.transactions ≡ some t
    → HasEntries t.id order es (batch (entry_statements p at order es) m)
unfolding entry_statements batch
entries_inserted p at order [] t m f = tt
entries_inserted p at order (e ∷ es) t m f =
    let m1 = run_statement (insert_entry e p.currency order at p.tx_id) m in
    let found : find_transaction p.tx_id m1.transactions ≡ some t =
      (run_statement-Extends (insert_entry e p.currency order at p.tx_id) m).keeps_transaction
        p.tx_id t f in
    (
      (batch-Extends (entry_statements p at (suc order) es) m1).keeps_entry t.id order
          (entry_inserted e p.currency p.tx_id order at t m f),
      entries_inserted p at (suc order) es t m1 found,
    )

-- A posting's batch mirrors the posting: its header and every one of its entries.
pub batch-IsMirrored :
    (mid at : ℕ) (p : PostingPayload) (m : Mirror)
    → IsMirrored p (batch (build_ledger_audit_statements mid p at) m)
unfolding build_ledger_audit_statements batch
batch-IsMirrored mid at p m =
    let m1 = run_statement (upsert_posting (posting_row mid p at)) m in
    let m2 = run_statement (insert_transaction mid p at) m1 in
    let (t, found) = header_inserted mid at p m1 in
    record {
      header = t;
      found =
          (batch-Extends (entry_statements p at 1 p.entries) m2).keeps_transaction p.tx_id t found;
      entries = entries_inserted p at 1 p.entries t m2 found;
    }

-- The rows of headers and entries are the same.
abbrev pub SameRows : Mirror → Mirror → Type 0
SameRows m m' = (m'.transactions ≡ m.transactions) × (m'.entries ≡ m.entries)

entry_again :
    (e : PostingEntry) (c u : String) (order at : ℕ) (t : MirrorTransaction) (m : Mirror)
    → find_transaction u m.transactions ≡ some t
    → has_entry t.id order m.entries ≡ true
    → run_statement (insert_entry e c order at u) m ≡ m
unfolding run_statement
entry_again e c u order at t m f h = rw (f, h, run_statement) refl

header_again :
    (mid at : ℕ) (p : PostingPayload) (t : MirrorTransaction) (m : Mirror)
    → find_transaction p.tx_id m.transactions ≡ some t
    → run_statement (insert_transaction mid p at) m ≡ m
unfolding run_statement
header_again mid at p t m f = rw (f, run_statement) refl

entries_again :
    (p : PostingPayload) (at order : ℕ) (es : List PostingEntry) (t : MirrorTransaction)
    (m : Mirror)
    → find_transaction p.tx_id m.transactions ≡ some t
    → HasEntries t.id order es m
    → batch (entry_statements p at order es) m ≡ m
unfolding entry_statements batch
entries_again p at order [] t m f h = refl
entries_again p at order (e ∷ es) t m f h =
    ap (batch (entry_statements p at (suc order) es))
      (entry_again e p.currency p.tx_id order at t m f h.0)
    ∙ entries_again p at (suc order) es t m f h.1

-- Running a mirrored posting's batch again adds no header and no entry.
pub batch_again :
    (mid at : ℕ) (p : PostingPayload) (m : Mirror)
    → IsMirrored p m
    → SameRows m (batch (build_ledger_audit_statements mid p at) m)
unfolding build_ledger_audit_statements batch run_statement
batch_again mid at p m h =
    let m1 : Mirror = record m { postings = upsert (posting_row mid p at) m.postings } in
    let same : Extends m m1 = record { keeps_transaction = λ u t f. f; keeps_entry = λ t o f. f } in
    let again : batch (build_ledger_audit_statements mid p at) m ≡ m1 =
      ap (batch (entry_statements p at 1 p.entries)) (header_again mid at p h.header m1 h.found)
      ∙ entries_again p at 1 p.entries h.header m1 h.found
          (HasEntries-Extends h.header.id 1 p.entries m m1 same h.entries) in
    rw again (refl, refl)
