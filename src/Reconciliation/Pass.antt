-- ===== src/Reconciliation/Pass.antt =====
-- The rows that the replay pass takes and what it reports: `reconcilePendingPostings` of
-- src/services/reconciliation.ts.
use edgepay_cf.Prelude.{
  ℕ, ◌-◌, Bool, true, false, List, [], ◌∷◌, ◌++◌, take, keep, Option, none, some, ltb, leb, length,
  if◌then◌else◌,
}
use edgepay_cf.Ledger.State.{LedgerDo}
use edgepay_cf.Ledger.Mirror.{MirrorPosting, MirrorStatus, pending}
use edgepay_cf.Ledger.Trial.{get_transaction_status}
use edgepay_cf.Posting.{Platform}
use edgepay_cf.Reconciliation.{Page, Attempt, PendingReconcileResult, replay_rows, poison_detected}

abbrev is_posting_pending : MirrorStatus → Bool
is_posting_pending pending = true
is_posting_pending _ = false

abbrev is_rejected : MirrorStatus → Bool
is_rejected MirrorStatus.rejected = true
is_rejected _ = false

-- `ORDER BY created_at ASC`, and rows of one time as they stand.
unfoldable place_by_age : MirrorPosting → List MirrorPosting → List MirrorPosting
place_by_age p [] = p ∷ []
place_by_age p (q ∷ qs) =
    if leb p.created_at q.created_at then p ∷ q ∷ qs else q ∷ place_by_age p qs

unfoldable pub order_by_age : List MirrorPosting → List MirrorPosting
unfolding place_by_age
order_by_age [] = []
order_by_age (p ∷ ps) = place_by_age p (order_by_age ps)

-- The pending rows made before `now - grace`, the oldest first.
unfoldable pub select_stale : (limit grace now : ℕ) → List MirrorPosting → List MirrorPosting
unfolding order_by_age
select_stale limit grace now ps = take limit (
    order_by_age (
      keep (λ p. if is_posting_pending p.status then ltb p.created_at (now - grace) else false) ps))

-- `ORDER BY created_at DESC LIMIT 50`
unfoldable place_by_youth : MirrorPosting → List MirrorPosting → List MirrorPosting
place_by_youth p [] = p ∷ []
place_by_youth p (q ∷ qs) =
    if leb q.created_at p.created_at then p ∷ q ∷ qs else q ∷ place_by_youth p qs

unfoldable order_by_youth : List MirrorPosting → List MirrorPosting
unfolding place_by_youth
order_by_youth [] = []
order_by_youth (p ∷ ps) = place_by_youth p (order_by_youth ps)

unfoldable pub select_rejected : List MirrorPosting → List MirrorPosting
unfolding order_by_youth
select_rejected ps = take 50 (order_by_youth (keep (λ p. is_rejected p.status) ps))

-- The poison guard: the rejected rows whose transaction is in a book. `reached` is whether the call of
-- a merchant's object returns.
unfoldable pub poison_pages : (ℕ → Bool) → (ℕ → LedgerDo) → List MirrorPosting → List Page
poison_pages reached books [] = []
poison_pages reached books (p ∷ ps) =
    let rest = poison_pages reached books ps in
    if reached p.merchant_id
    then if (get_transaction_status p.tx_id (books p.merchant_id)).exists
      then poison_detected p.tx_id p.merchant_id ∷ rest
      else rest
    else rest

abbrev pub count_pending : List MirrorPosting → ℕ
count_pending ps = length (keep (λ p. is_posting_pending p.status) ps)

abbrev pub no_rows : PendingReconcileResult
no_rows = record { replayed = 0; healed = 0; rejected = 0; failed = 0; remaining = 0 }

-- `none` where the pass throws. The result's last part is the pages it sent.
unfoldable pub reconcile_pending_postings :
    (ℕ → Attempt)
    → (ℕ → Bool)
    → (limit grace now : ℕ) → Platform
    → Platform × Option PendingReconcileResult × List Page
reconcile_pending_postings plan reached limit grace now x =
    let (x', t, pages) =
      replay_rows plan 0 (select_stale limit grace now x.mirror.postings) no_rows [] x in
    elim t [
      | none ↦ (x', none, pages)
      | some counted ↦ (
        x',
        some (record counted { remaining = count_pending x'.mirror.postings }),
        pages ++ poison_pages reached x'.books (select_rejected x'.mirror.postings),
      )
    ]
