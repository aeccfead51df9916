-- ===== src/Ledger/Alarm/Stats.antt =====
-- What `outboxStats` of src/do/ledger-do.ts reports, against counts and bounds on the pending events.
use edgepay_cf.Prelude.{ℕ, ◌+◌, ◌-◌, ◌≡◌, ◌≤◌, List, [], ◌∷◌, length, keep, All, arith}
use edgepay_cf.Ledger.State.{OutboxEvent, LedgerDo}
use edgepay_cf.Ledger.Alarm.{
  OutboxStats, add_stats, collect_stats, no_stats, is_stuck, pending_events, outbox_stats,
}

-- The age and the retries of an event are within the report.
abbrev pub IsWithin : ℕ → OutboxStats → OutboxEvent → Type 0
IsWithin now r e = (now - e.created_at ≤ r.max_age_ms) × (e.retry_count ≤ r.max_retry)

collect_stats_counts :
    (now : ℕ) (es : List OutboxEvent) (acc : OutboxStats)
    → let r = collect_stats now es acc in
      (r.pending_count ≡ acc.pending_count + length es)
      × (r.stuck ≡ acc.stuck + length (keep (is_stuck now) es))
      × (acc.max_age_ms ≤ r.max_age_ms)
      × (acc.max_retry ≤ r.max_retry)
unfolding collect_stats
collect_stats_counts now [] acc = ground arith
collect_stats_counts now (e ∷ es) acc =
    ground (arith, collect_stats_counts now es (add_stats now e acc))

collect_stats-IsWithin :
    (now : ℕ) (es : List OutboxEvent) (acc : OutboxStats)
    → All (IsWithin now (collect_stats now es acc)) es
unfolding collect_stats
collect_stats-IsWithin now [] acc = tt
collect_stats-IsWithin now (e ∷ es) acc = (
  ground (arith, collect_stats_counts now es (add_stats now e acc)),
  collect_stats-IsWithin now es (add_stats now e acc),
)

-- The report counts the pending events, and those among them that are stuck: older than five minutes
-- or retried ten times. No pending event is older, or was retried more often, than it says.
pub outbox_stats_exact :
    (now : ℕ) (s : LedgerDo)
    → let r = outbox_stats now s in
      (r.pending_count ≡ length (pending_events s.outbox))
      × (r.stuck ≡ length (keep (is_stuck now) (pending_events s.outbox)))
      × All (IsWithin now r) (pending_events s.outbox)
unfolding outbox_stats
outbox_stats_exact now s =
    let counts = collect_stats_counts now (pending_events s.outbox) no_stats in
    (
      omega (arith, counts),
      omega (arith, counts),
      collect_stats-IsWithin now (pending_events s.outbox) no_stats,
    )
