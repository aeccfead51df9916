-- ===== src/Ledger/Outbox/Limits.antt =====
-- The delays between drains of src/do/ledger-do.ts, and postings that are too large to drain.
use Prim.Native.Nat.{min}
use native.Mathlib.Nat.{pow-suc}
use edgepay_cf.Prelude.{
  ℕ, zero, suc, ◌+◌, ◌^◌, ◌≡◌, ◌≤◌, ◌<◌, refl, Bool, true, List, [], ◌∷◌, length, Option-cases, inl,
  inr, arith,
}
use edgepay_cf.Ledger.Types.{PostingEntry, PostingPayload}
use edgepay_cf.Ledger.State.{OutboxEvent, LedgerDo, LedgerEnv}
use edgepay_cf.Ledger.Mirror.{Mirror, entry_statements, build_ledger_audit_statements}
use edgepay_cf.Ledger.Outbox.{
  backoff, event_statements, compose, select_pending, drain_tenant, drain_pending, drain_selected,
  drain_outbox,
}

pow_pos : (n : ℕ) → 1 ≤ 2 ^ n
pow_pos zero = omega arith
pow_pos (suc n) = rw pow-suc (omega (arith, pow_pos n))

-- After any failure the next attempt is between two seconds and one minute away.
pub backoff_bounds : (r : ℕ) → (2_000 ≤ backoff (suc r)) × (backoff (suc r) ≤ 60_000)
unfolding backoff
backoff_bounds r =
    let capped : min (suc r) 10 ≡ suc (min r 9) = omega arith in
    rw (capped, pow-suc) (omega (arith, pow_pos (min r 9)))

length-entry_statements :
    (p : PostingPayload) (at order : ℕ) (es : List PostingEntry)
    → length (entry_statements p at order es) ≡ length es
unfolding entry_statements
length-entry_statements p at order [] = refl
length-entry_statements p at order (e ∷ es) =
    omega (arith, length-entry_statements p at (suc order) es)

-- A posting costs two statements, and one for each entry.
pub length-event_statements :
    (e : OutboxEvent) → length (event_statements e) ≡ 2 + length e.payload.entries
unfolding build_ledger_audit_statements
length-event_statements e =
    omega (arith, length-entry_statements e.payload e.payload_posted_at 1 e.payload.entries)

too_large :
    (e : OutboxEvent) (es : List OutboxEvent)
    → 98 < length e.payload.entries
    → compose 0 (e ∷ es) ≡ []
unfolding compose
too_large e es h = ground (arith, length-event_statements e)

-- While the first pending event has more than 98 entries, a drain of all pending events sends
-- nothing to the mirror, whatever stands behind it.
pub too_large_blocks :
    (env : LedgerEnv) (accepts : Bool) (now retry_at at : ℕ) (e : OutboxEvent)
    (es : List OutboxEvent) (s : LedgerDo) (m : Mirror)
    → select_pending true now s.outbox ≡ e ∷ es
    → 98 < length e.payload.entries
    → let (_, m', r) = drain_outbox env true accepts now retry_at at s m in
      (r.drained ≡ 0) × (m' ≡ m)
unfolding drain_outbox drain_selected drain_pending
too_large_blocks env accepts now retry_at at e es s m q h =
    elim (Option-cases (drain_tenant env (e ∷ es) s).0) [
      | inl o ↦ rw (q, o, drain_selected) (refl, refl)
      | inr (t, o) ↦ rw (q, o, too_large e es h, drain_selected, drain_pending) (refl, refl)
    ]
