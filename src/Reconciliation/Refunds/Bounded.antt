-- ===== src/Reconciliation/Refunds/Bounded.antt =====
-- How often the sweeps of src/services/reconciliation.ts start a refund's workflow again.
use edgepay_cf.Prelude.{
  ◌≡◌, ◌≤◌, inl, inr, refl, ℕ, suc, ◌+◌, false, List, [], ◌∷◌, map, keep, some, All, All-both,
  All-imp, All-map, arith, Bool-cases, Option-cases, ◌==◌, if◌then◌else◌,
}
use edgepay_cf.Reconciliation.Refunds.{
  CreateReply, TriggerResult, SweptRefund, SweepState, is_refund_stuck, bump_workflow, sweep_suffix,
  sweep_rows, sweep_stuck_refunds, trigger_refund_reconciliation,
}

abbrev pub count_id : ℕ → List SweptRefund → ℕ
count_id i [] = 0
count_id i (r ∷ rs) = (if r.id == i then 1 else 0) + count_id i rs

-- How many calls of `create` for a refund returned.
abbrev pub times_triggered : ℕ → List (ℕ × TriggerResult) → ℕ
times_triggered i [] = 0
times_triggered i ((j, t) ∷ ts) = (if j == i then 1 else 0) + times_triggered i ts

abbrev pub IsDistinct : List SweptRefund → Type 0
IsDistinct [] = Unit
IsDistinct (r ∷ rs) = (count_id r.id rs ≡ 0) × IsDistinct rs

-- The row has room for the rows that are still to be swept.
abbrev HasRoom : List SweptRefund → List (ℕ × TriggerResult) → SweptRefund → Type 0
HasRoom rs log r =
    (r.workflow_attempts + count_id r.id rs ≤ 3) × (times_triggered r.id log ≤ r.workflow_attempts)

abbrev pub IsCounted : List (ℕ × TriggerResult) → SweptRefund → Type 0
IsCounted log r = (r.workflow_attempts ≤ 3) × (times_triggered r.id log ≤ r.workflow_attempts)

-- The ids are distinct, and no refund has more triggers than attempts, nor more than three of those.
pub record IsBoundedSweep (s : SweepState) : Type 0 where
  pub distinct : IsDistinct s.refunds
  pub counted : All (IsCounted s.triggered) s.refunds

count_id-map :
    (i at j : ℕ) (rs : List SweptRefund) → count_id i (map (bump_workflow at j) rs) ≡ count_id i rs
count_id-map i at j [] = refl
count_id-map i at j (r ∷ rs) = ground (arith, count_id-map i at j rs)

bump_workflow-IsDistinct :
    (at j : ℕ) (rs : List SweptRefund) → IsDistinct rs → IsDistinct (map (bump_workflow at j) rs)
bump_workflow-IsDistinct at j [] h = tt
bump_workflow-IsDistinct at j (r ∷ rs) h =
    (ground (arith, h.0, count_id-map r.id at j rs), bump_workflow-IsDistinct at j rs h.1)

bump_workflow-HasRoom :
    (at : ℕ) (r : SweptRefund) (rs : List SweptRefund) (t : TriggerResult)
    (log : List (ℕ × TriggerResult)) (q : SweptRefund)
    → HasRoom (r ∷ rs) log q
    → HasRoom rs ((r.id, t) ∷ log) (bump_workflow at r.id q)
bump_workflow-HasRoom at r rs t log q h = ground (arith, h)

sweep_rows-IsBoundedSweep :
    (reply : ℕ → CreateReply) (at k : ℕ) (rs : List SweptRefund) (s : SweepState)
    → IsDistinct s.refunds
    → All (HasRoom rs s.triggered) s.refunds
    → IsBoundedSweep (sweep_rows reply at k rs s).0
unfolding sweep_rows
sweep_rows-IsBoundedSweep reply at k [] s d h = record {
  distinct = d;
  counted = All-imp _ _ s.refunds (λ r g. ground (arith, g)) h;
}
sweep_rows-IsBoundedSweep reply at k (r ∷ rs) s d h =
    elim (Option-cases (trigger_refund_reconciliation (reply k) r.id (some (sweep_suffix r)))) [
      | inl q ↦
          rw (q, sweep_rows)
            (record { distinct = d; counted = All-imp _ _ s.refunds (λ r g. ground (arith, g)) h })
      | inr (t, q) ↦
          rw (q, sweep_rows)
            (sweep_rows-IsBoundedSweep reply at (suc k) rs _
              (bump_workflow-IsDistinct at r.id s.refunds d)
              (All-map _ _ (bump_workflow at r.id) s.refunds
                (bump_workflow-HasRoom at r rs t s.triggered) h))
    ]

count_id-keep :
    (i now : ℕ) (rs : List SweptRefund) → count_id i (keep (is_refund_stuck now) rs) ≤ count_id i rs
count_id-keep i now [] = omega arith
count_id-keep i now (r ∷ rs) = ground (arith, count_id-keep i now rs)

no_other : (i : ℕ) (rs : List SweptRefund) → count_id i rs ≡ 0 → All (λ r. (i == r.id) ≡ false) rs
no_other i [] h = tt
no_other i (r ∷ rs) h = (ground (arith, h), no_other i rs (omega (arith, h)))

stuck_once :
    (now : ℕ) (log : List (ℕ × TriggerResult)) (rs : List SweptRefund)
    → IsDistinct rs
    → All (IsCounted log) rs
    → All (HasRoom (keep (is_refund_stuck now) rs) log) rs
stuck_once now log [] d h = tt
stuck_once now log (r ∷ rs) d h =
    let rest = stuck_once now log rs d.1 h.1 in
    (
      ground (arith, h.0, d.0, count_id-keep r.id now rs),
      All-imp _ _ rs (λ q g. ground (arith, g)) (All-both _ _ rs (no_other r.id rs d.0) rest),
    )

-- However many sweeps run, and whatever the runtime answers, a refund's workflow is started again at
-- most three times: each sweep keeps the ids distinct, the attempts at most three, and the returned
-- triggers of a refund at most its attempts.
pub sweep-IsBoundedSweep :
    (reply : ℕ → CreateReply) (now at : ℕ) (s : SweepState)
    → IsBoundedSweep s
    → IsBoundedSweep (sweep_stuck_refunds reply now at s).0
unfolding sweep_stuck_refunds
sweep-IsBoundedSweep reply now at s h =
    let rs = keep (is_refund_stuck now) s.refunds in
    let kept =
      sweep_rows-IsBoundedSweep reply at 0 rs s h.distinct
        (stuck_once now s.triggered s.refunds h.distinct h.counted) in
    elim (Bool-cases (sweep_rows reply at 0 rs s).1) [
      | inl q ↦ rw (q, sweep_stuck_refunds) kept
      | inr q ↦ rw (q, sweep_stuck_refunds) kept
    ]
