-- ===== src/Ledger/Mirror/Marked.antt =====
-- The rows of `op_ledger_postings` that a posting's statements in src/services/ledger-audit.ts leave.
use edgepay_cf.Prelude.{
  ℕ, suc, ◌≡◌, refl, ◌∙◌, List, [], ◌∷◌, none, some, str_eq, str_eq_iff, Bool-cases, Option-cases,
  inl, inr, IsIn, IsIn-first, IsIn-next,
}
use edgepay_cf.Ledger.Types.{PostingPayload, PostingEntry}
use edgepay_cf.Ledger.Mirror.{
  MirrorPosting, MirrorStatus, Mirror, upsert, upsert_posting, insert_transaction, insert_entry,
  run_statement, batch, entry_statements, posting_row, build_ledger_audit_statements,
  find_transaction, has_entry,
}

-- A row of the posting is marked as posted at a time, without an error.
pub record IsMarked (p : PostingPayload) (at : ℕ) (ps : List MirrorPosting) : Type 0 where
  pub row : MirrorPosting
  pub stands : IsIn row ps
  pub is_of : row.tx_id ≡ p.tx_id
  pub status : row.status ≡ MirrorStatus.posted
  pub posted_at : row.posted_at ≡ some at
  pub no_error : row.error ≡ none

upsert-IsMarked :
    (mid at : ℕ) (p : PostingPayload) (ps : List MirrorPosting)
    → IsMarked p at (upsert (posting_row mid p at) ps)
unfolding upsert
upsert-IsMarked mid at p [] = record {
  row = posting_row mid p at;
  stands = IsIn-first _ [];
  is_of = refl;
  status = refl;
  posted_at = refl;
  no_error = refl;
}
upsert-IsMarked mid at p (q ∷ qs) = elim (Bool-cases (str_eq q.tx_id p.tx_id)) [
  | inl h ↦ rw h (record {
    row = record q { status = MirrorStatus.posted; posted_at = some at; error = none };
    stands = IsIn-first _ qs;
    is_of = (str_eq_iff q.tx_id p.tx_id).0 h;
    status = refl;
    posted_at = refl;
    no_error = refl;
  })
  | inr h ↦
      let k = upsert-IsMarked mid at p qs in
      rw h (record {
        row = k.row;
        stands = IsIn-next k.row q _ k.stands;
        is_of = k.is_of;
        status = k.status;
        posted_at = k.posted_at;
        no_error = k.no_error;
      })
]

insert_transaction-postings :
    (mid at : ℕ) (p : PostingPayload) (m : Mirror)
    → (run_statement (insert_transaction mid p at) m).postings ≡ m.postings
unfolding run_statement
insert_transaction-postings mid at p m =
    elim (Option-cases (find_transaction p.tx_id m.transactions)) [
      | inl q ↦ rw (q, run_statement) refl
      | inr (t, q) ↦ rw (q, run_statement) refl
    ]

insert_entry-postings :
    (e : PostingEntry) (c u : _) (order at : ℕ) (m : Mirror)
    → (run_statement (insert_entry e c order at u) m).postings ≡ m.postings
unfolding run_statement
insert_entry-postings e c u order at m = elim (Option-cases (find_transaction u m.transactions)) [
  | inl q ↦ rw (q, run_statement) refl
  | inr (t, q) ↦ elim (Bool-cases (has_entry t.id order m.entries)) [
    | inl h ↦ rw (q, h, run_statement) refl
    | inr h ↦ rw (q, h, run_statement) refl
  ]
]

entries-postings :
    (p : PostingPayload) (at order : ℕ) (es : List PostingEntry) (m : Mirror)
    → (batch (entry_statements p at order es) m).postings ≡ m.postings
unfolding entry_statements batch
entries-postings p at order [] m = refl
entries-postings p at order (e ∷ es) m =
    entries-postings p at (suc order) es
      (run_statement (insert_entry e p.currency order at p.tx_id) m)
    ∙ insert_entry-postings e p.currency p.tx_id order at m

-- After a posting's batch its row is marked as posted, whatever its status was.
pub batch-IsMarked :
    (mid at : ℕ) (p : PostingPayload) (m : Mirror)
    → IsMarked p at (batch (build_ledger_audit_statements mid p at) m).postings
unfolding build_ledger_audit_statements batch run_statement
batch-IsMarked mid at p m =
    let m1 = run_statement (upsert_posting (posting_row mid p at)) m in
    let m2 = run_statement (insert_transaction mid p at) m1 in
    rw (entries-postings p at 1 p.entries m2 ∙ insert_transaction-postings mid at p m1)
      (upsert-IsMarked mid at p m.postings)
