-- ===== src/Ledger/Invariant.antt =====
-- The invariant of a merchant's book (src/do/ledger-do.ts), and that seeding and committing keep it.
use edgepay_cf.Prelude.{
  ℕ, ◌+◌, ◌≡◌, ◌≢◌, ap, ◌∙◌, String, List, [], ◌∷◌, ◌++◌, none, some, All, All-append, All-imp,
  All-map, All-both, arith, Option-cases, inl, inr,
}
use edgepay_cf.Prelude.Int.{ℤ, pos, ◌+ℤ◌, ◌≤ℤ◌, neg-+ℤ, neg_zero}
use edgepay_cf.Prelude.Dict.{Dict}
use edgepay_cf.Ledger.Types.{PostingEntry, PostingPayload}
use edgepay_cf.Ledger.Chart.{ChartAccount}
use edgepay_cf.Ledger.Shape.Balanced.{IsWellShaped}
use edgepay_cf.Ledger.Book.{
  AccountRow, JournalEntry, find_account, insert_or_ignore, chart_row, seed_rows, apply_deltas,
  on_normal_side, net_of, journal_rows, total_debit, total_credit,
}
use edgepay_cf.Ledger.Book.Rows.{
  Distinct, Distinct-insert_or_ignore, find_account-insert_or_ignore, Distinct-map,
  find_account-map_known, find_account_self, apply_row, apply_deltas-eq-map, apply_row-code,
  apply_row-account_type, apply_row-balance,
}
use edgepay_cf.Ledger.Book.Journal.{
  Known, entries_net, net_of-append, net_of-journal_rows, net_of_unknown, total_debit-append,
  total_credit-append, totals-journal_rows,
}
use edgepay_cf.Ledger.Funds.Covered.{IsCovered}

-- The stored balance is the one that the journal gives.
abbrev pub Derived : List JournalEntry → AccountRow → Type 0
Derived rs a = a.balance_minor ≡ on_normal_side a.account_type (net_of a.code rs)

abbrev pub NonNegative : AccountRow → Type 0
NonNegative a = pos 0 ≤ℤ a.balance_minor

-- The tables `accounts` and `journal_entries` agree, no balance is negative, and debits equal credits.
pub record IsSoundBook (rows : List AccountRow) (journal : List JournalEntry) : Type 0 where
  pub distinct : Distinct rows
  pub derived : All (Derived journal) rows
  pub nonneg : All NonNegative rows
  pub known : All (Known rows) journal
  pub balanced : total_debit journal ≡ total_credit journal

insert_new :
    (currency : String) (c : ChartAccount) (rows : List AccountRow) (journal : List JournalEntry)
    → IsSoundBook rows journal
    → IsSoundBook (insert_or_ignore (chart_row currency c) rows) journal
insert_new currency c rows journal h = record {
  distinct = Distinct-insert_or_ignore row rows h.distinct;
  derived = elim (Option-cases (find_account c.code rows)) [
    | inl new ↦
        let fresh : Derived journal row =
          ground (arith, net_of_unknown c.code rows journal new h.known, neg_zero) in
        rw (new, insert_or_ignore)
          (All-append (Derived journal) rows (row ∷ []) h.derived (fresh, tt))
    | inr (a, old) ↦ rw (old, insert_or_ignore) h.derived
  ];
  nonneg = elim (Option-cases (find_account c.code rows)) [
    | inl new ↦
        rw (new, insert_or_ignore)
          (All-append NonNegative rows (row ∷ []) h.nonneg (omega arith, tt))
    | inr (a, old) ↦ rw (old, insert_or_ignore) h.nonneg
  ];
  known = All-imp _ _ journal (λ r. find_account-insert_or_ignore r.account_code row rows) h.known;
  balanced = h.balanced;
}
  where
    row : AccountRow
    row = chart_row currency c

-- Seeding a chart keeps the book sound.
pub seed_rows-IsSoundBook :
    (currency : String) (chart : List ChartAccount) (rows : List AccountRow)
    (journal : List JournalEntry)
    → IsSoundBook rows journal
    → IsSoundBook (seed_rows currency chart rows) journal
unfolding seed_rows
seed_rows-IsSoundBook currency [] rows journal h = h
seed_rows-IsSoundBook currency (c ∷ chart) rows journal h =
    seed_rows-IsSoundBook currency chart (insert_or_ignore (chart_row currency c) rows) journal
      (insert_new currency c rows journal h)

module _ (at seq : ℕ) (p : PostingPayload) (ds : Dict ℤ) (rows : List AccountRow)
    (journal : List JournalEntry) (shape : IsWellShaped p) (covered : IsCovered rows p.entries ds)
    (h : IsSoundBook rows journal) where
  abbrev extended : List JournalEntry
  extended = journal ++ journal_rows at seq p.tx_id p.entries

  net_of-extended : (c : String) → net_of c extended ≡ net_of c journal +ℤ entries_net c p.entries
  net_of-extended c =
      net_of-append c journal (journal_rows at seq p.tx_id p.entries)
      ∙ ap (λ x. net_of c journal +ℤ x) (net_of-journal_rows c at seq p.tx_id p.entries)

  row-Derived :
      (a : AccountRow)
      → (find_account a.code rows ≡ some a) × Derived journal a
      → Derived extended (apply_row at ds a)
  row-Derived a (found, d) =
      rw (apply_row-code at ds a, apply_row-account_type at ds a)
        (ground (
          arith,
          apply_row-balance at ds a,
          covered.deltas_net a found,
          net_of-extended a.code,
          neg-+ℤ (net_of a.code journal) (entries_net a.code p.entries),
        ))

  row_nonneg :
      (a : AccountRow)
      → (find_account a.code rows ≡ some a) × NonNegative a
      → NonNegative (apply_row at ds a)
  row_nonneg a (found, n) = rw (apply_row-balance at ds a) (covered.covered a found n)

  entries-Known :
      (seq' : ℕ) (es : List PostingEntry)
      → All (λ e. find_account e.account_code rows ≢ none) es
      → All (Known rows) (journal_rows at seq' p.tx_id es)
  unfolding journal_rows
  entries-Known seq' [] k = tt
  entries-Known seq' (e ∷ es) k = (k.0, entries-Known (seq' + 1) es k.1)

  -- A posting that is well shaped and covered keeps the book sound.
  pub commit-IsSoundBook : IsSoundBook (apply_deltas at ds rows) extended
  commit-IsSoundBook = rw (apply_deltas-eq-map at ds rows) (record {
    distinct = Distinct-map (apply_row at ds) rows (apply_row-code at ds) h.distinct;
    derived =
        All-map _ _ (apply_row at ds) rows row-Derived (All-both _ _ rows found_self h.derived);
    nonneg = All-map _ _ (apply_row at ds) rows row_nonneg (All-both _ _ rows found_self h.nonneg);
    known =
        All-imp _ _ extended
          (λ r. find_account-map_known (apply_row at ds) r.account_code rows (apply_row-code at ds))
          (All-append (Known rows) journal _ h.known (entries-Known seq p.entries covered.known));
    balanced = ground (
      arith,
      total_debit-append journal (journal_rows at seq p.tx_id p.entries),
      total_credit-append journal (journal_rows at seq p.tx_id p.entries),
      totals-journal_rows at seq p.tx_id p.entries shape.valid,
    );
  })
    where
      found_self : All (λ a. find_account a.code rows ≡ some a) rows
      found_self = find_account_self rows h.distinct
