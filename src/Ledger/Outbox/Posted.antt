-- ===== src/Ledger/Outbox/Posted.antt =====
-- A drain of src/do/ledger-do.ts and the transactions that the book has registered.
use edgepay_cf.Prelude.{◌≡◌, refl, ◌∙◌, ℕ, Bool, List, [], ◌∷◌, arith, Option-cases, inl, inr}
use edgepay_cf.Ledger.State.{OutboxEvent, LedgerDo, LedgerEnv, get_merchant_id}
use edgepay_cf.Ledger.Mirror.{Mirror}
use edgepay_cf.Ledger.Outbox.{
  compose, send_batch, drain_tenant, drain_pending, drain_selected, drain_outbox, select_pending,
}

send_batch-posted :
    (accepts : Bool) (retry_at at : ℕ) (es : List OutboxEvent) (s : LedgerDo) (m : Mirror)
    → (send_batch accepts retry_at at es s m).0.posted ≡ s.posted
unfolding send_batch
send_batch-posted accepts retry_at at es s m = ground arith

drain_pending-posted :
    (accepts : Bool) (retry_at at : ℕ) (e : OutboxEvent) (es : List OutboxEvent) (s : LedgerDo)
    (m : Mirror)
    → (drain_pending accepts retry_at at e es s m).0.posted ≡ s.posted
unfolding drain_pending
drain_pending-posted accepts retry_at at e es s m = go (compose 0 (e ∷ es)) refl
  where
    go :
        (is : List OutboxEvent)
        → compose 0 (e ∷ es) ≡ is
        → (drain_pending accepts retry_at at e es s m).0.posted ≡ s.posted
    go [] q = rw (q, drain_pending) refl
    go (i ∷ is) q = rw (q, drain_pending) (send_batch-posted accepts retry_at at (i ∷ is) s m)

drain_tenant-posted :
    (env : LedgerEnv) (es : List OutboxEvent) (s : LedgerDo)
    → (drain_tenant env es s).1.posted ≡ s.posted
unfolding drain_tenant get_merchant_id
drain_tenant-posted env [] s = ground arith
drain_tenant-posted env (e ∷ es) s = ground arith

drain_selected-posted :
    (env : LedgerEnv) (accepts : Bool) (retry_at at : ℕ) (es : List OutboxEvent) (s : LedgerDo)
    (m : Mirror)
    → (drain_selected env accepts retry_at at es s m).0.posted ≡ s.posted
unfolding drain_selected
drain_selected-posted env accepts retry_at at [] s m = refl
drain_selected-posted env accepts retry_at at (e ∷ es) s m =
    let s1 = (drain_tenant env (e ∷ es) s).1 in
    let k = drain_tenant-posted env (e ∷ es) s in
    elim (Option-cases (drain_tenant env (e ∷ es) s).0) [
      | inl o ↦ rw (o, drain_selected) k
      | inr (_, o) ↦ rw (o, drain_selected) (drain_pending-posted accepts retry_at at e es s1 m ∙ k)
    ]

-- A drain removes no registered transaction, and adds none.
pub drain_outbox-posted :
    (env : LedgerEnv) (force accepts : Bool) (now retry_at at : ℕ) (s : LedgerDo) (m : Mirror)
    → (drain_outbox env force accepts now retry_at at s m).0.posted ≡ s.posted
unfolding drain_outbox
drain_outbox-posted env force accepts now retry_at at s m =
    drain_selected-posted env accepts retry_at at (select_pending force now s.outbox) s m
