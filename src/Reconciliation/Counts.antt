-- ===== src/Reconciliation/Counts.antt =====
-- The counts that a pass of src/services/reconciliation.ts reports, against the books it leaves.
use edgepay_cf.Prelude.{
  ◌≡◌, ◌≤◌, inl, inr, refl, ℕ, suc, ◌+◌, String, Bool, true, false, List, [], ◌∷◌, ◌++◌, Option,
  none, some, arith, length, length-take, Bool-cases, Option-cases, if◌then◌else◌,
}
use edgepay_cf.Ledger.Mirror.{MirrorPosting}
use edgepay_cf.Ledger.Book.{find_posted}
use edgepay_cf.Posting.{Platform}
use edgepay_cf.Posting.Held.{Holds}
use edgepay_cf.Reconciliation.{
  Attempt, RowEnding, PendingReconcileResult, Page, replay_row, replay_rows, count_ending,
}
use edgepay_cf.Reconciliation.Pass.{no_rows, select_stale, reconcile_pending_postings}
use edgepay_cf.Reconciliation.Replay.{is_settled, replay_row-Holds, replay_row-registers}

abbrev is_registered {ℓ} : {A : Type ℓ} → Option A → Bool
is_registered none = false
is_registered (some _) = true

-- Of some rows, those whose transaction is in the merchant's book.
unfoldable pub registered_in : Platform → List MirrorPosting → ℕ
registered_in x [] = 0
registered_in x (row ∷ rows) =
    (if is_registered (find_posted row.payload.tx_id (x.books row.merchant_id).posted)
      then 1
      else 0)
    + registered_in x rows

abbrev pub rows_counted : PendingReconcileResult → ℕ
rows_counted t = t.replayed + t.healed + t.rejected + t.failed

count_ending-counted :
    (e : RowEnding) (t : PendingReconcileResult)
    → rows_counted (count_ending e t) ≡ rows_counted t + 1
count_ending-counted e t = ground arith

count_ending-settled :
    (e : RowEnding) (t : PendingReconcileResult)
    → (count_ending e t).replayed + (count_ending e t).healed
      ≡ t.replayed + t.healed + (if is_settled e then 1 else 0)
count_ending-settled e t = ground arith

registered_first :
    (x : Platform) (row : MirrorPosting) (rows : List MirrorPosting)
    → Holds x row.merchant_id row.payload.tx_id
    → registered_in x (row ∷ rows) ≡ 1 + registered_in x rows
unfolding registered_in
registered_first x row rows (found, h) = rw h refl

registered_rest :
    (x : Platform) (row : MirrorPosting) (rows : List MirrorPosting)
    → registered_in x rows ≤ registered_in x (row ∷ rows)
unfolding registered_in
registered_rest x row rows = omega arith

module _ (plan : ℕ → Attempt) where
  replay_rows-Holds :
      (k : ℕ) (rows : List MirrorPosting) (t : PendingReconcileResult) (pages : List Page)
      (x : Platform) (merchant : ℕ) (tx : String)
      → Holds x merchant tx
      → Holds (replay_rows plan k rows t pages x).0 merchant tx
  unfolding replay_rows
  replay_rows-Holds k [] t pages x merchant tx h = h
  replay_rows-Holds k (row ∷ rows) t pages x merchant tx h =
      let run = replay_row (plan k) row x in
      let kept = replay_row-Holds (plan k) row merchant tx x h in
      elim (Option-cases run.1) [
        | inl q ↦ rw (q, replay_rows) kept
        | inr (e, q) ↦
            rw (q, replay_rows)
              (replay_rows-Holds (suc k) rows (count_ending e t) (pages ++ run.2) run.0 merchant tx
                kept)
      ]

  rows_within :
      (k : ℕ) (rows : List MirrorPosting) (t t' : PendingReconcileResult) (pages : List Page)
      (x : Platform)
      → let run = replay_rows plan k rows t pages x in
        run.1 ≡ some t'
        → (rows_counted t' ≡ rows_counted t + length rows)
          × (t'.replayed + t'.healed ≤ t.replayed + t.healed + registered_in run.0 rows)
  unfolding replay_rows
  rows_within k [] t t' pages x q = ground (arith, q)
  rows_within k (row ∷ rows) t t' pages x q =
      let run = replay_row (plan k) row x in
      elim (Option-cases run.1) [
        | inl u ↦ ground (arith, u, rw (u, replay_rows) at q)
        | inr (e, u) ↦
            let more = pages ++ run.2 in
            let final = (replay_rows plan (suc k) rows (count_ending e t) more run.0).0 in
            let (total, bound) =
              rows_within (suc k) rows (count_ending e t) t' more run.0
                (rw (u, replay_rows) at q) in
            rw (u, replay_rows)
              (
                omega (arith, total, count_ending-counted e t),
                elim (Bool-cases (is_settled e)) [
                  | inl s ↦ omega (
                    arith,
                    bound,
                    rw s at (count_ending-settled e t),
                    registered_first final row rows (
                        replay_rows-Holds (suc k) rows (count_ending e t) more run.0 row.merchant_id
                          row.payload.tx_id (replay_row-registers (plan k) row e s x u)),
                  )
                  | inr s ↦ omega (
                    arith,
                    bound,
                    rw s at (count_ending-settled e t),
                    registered_rest final row rows,
                  )
                ],
              )
      ]

  -- A pass that ends counts each selected row once, of which there are at most `limit`; and as many of
  -- the selected rows as it counts as replayed or healed are in their merchants' books at its end.
  pub reconcile_counted :
      (reached : ℕ → Bool) (limit grace now : ℕ) (x : Platform) (t : PendingReconcileResult)
      → let run = reconcile_pending_postings plan reached limit grace now x in
        let rows = select_stale limit grace now x.mirror.postings in
        run.1 ≡ some t
        → (rows_counted t ≡ length rows)
          × (length rows ≤ limit)
          × (t.replayed + t.healed ≤ registered_in run.0 rows)
  unfolding reconcile_pending_postings select_stale
  reconcile_counted reached limit grace now x t q =
      let rows = select_stale limit grace now x.mirror.postings in
      elim (Option-cases (replay_rows plan 0 rows no_rows [] x).1) [
        | inl u ↦ ground (arith, rw (u, reconcile_pending_postings) at q)
        | inr (c, u) ↦
            let (total, bound) = rows_within 0 rows no_rows c [] x u in
            rw (u, reconcile_pending_postings)
              (
                ground (arith, rw (u, reconcile_pending_postings) at q, total),
                length-take limit _,
                ground (arith, rw (u, reconcile_pending_postings) at q, bound),
              )
      ]
