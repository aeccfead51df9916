-- ===== src/Ledger/Alarm/Next.antt =====
-- The alarm time that `scheduleNextAlarm` of src/do/ledger-do.ts sets.
use edgepay_cf.Prelude.{
  ℕ, ◌+◌, ◌≡◌, ◌≢◌, ◌≤◌, ◌⊎◌, max, List, [], ◌∷◌, none, some, All, All-imp, arith, inl, inr, refl,
  ltb, Bool-cases, Option-cases,
}
use edgepay_cf.Ledger.State.{OutboxEvent, LedgerDo}
use edgepay_cf.Ledger.Alarm.{
  next_at, retry_time, alarm_target, schedule_next_alarm, pending_events, snapshot_interval_ms,
  stored_time,
}

-- The alarm is set, and rings by `t`.
abbrev pub RingsBy : ℕ → LedgerDo → Type 0
RingsBy t s = (a : ℕ) × (s.alarm_at ≡ some a) × (a ≤ t)

next_at_least :
    (now : ℕ) (e : OutboxEvent) (es : List OutboxEvent) (t : ℕ)
    → next_at now (e ∷ es) ≡ some t
    → All (λ e'. t ≤ retry_time now e') (e ∷ es)
unfolding next_at
next_at_least now e [] t h = (ground arith, tt)
next_at_least now e (e' ∷ es) t h = elim (Option-cases (next_at now (e' ∷ es))) [
  | inl q ↦ ground arith
  | inr (u, q) ↦
      (ground arith, All-imp _ _ (e' ∷ es) (λ x k. ground arith) (next_at_least now e' es u q))
]

next_at_found : (now : ℕ) (e : OutboxEvent) (es : List OutboxEvent) → next_at now (e ∷ es) ≢ none
unfolding next_at
next_at_found now e es h = elim (Option-cases (next_at now es)) [
  | inl q ↦ ground arith
  | inr (t, q) ↦ ground arith
]

alarm_target_least :
    (now : ℕ) (s : LedgerDo)
    → All (λ e. alarm_target now s ≤ max (now + 100) (retry_time now e)) (pending_events s.outbox)
unfolding alarm_target
alarm_target_least now s = go (pending_events s.outbox) refl
  where
    go :
        (es : List OutboxEvent)
        → pending_events s.outbox ≡ es
        → All (λ e. alarm_target now s ≤ max (now + 100) (retry_time now e)) es
    go [] q = tt
    go (e ∷ es) q = elim (Option-cases (next_at now (e ∷ es))) [
      | inl n ↦ elim (next_at_found now e es n) [ ]
      | inr (t, n) ↦
          All-imp _ _ (e ∷ es) (λ x k. rw (q, n, alarm_target) (ground (arith, k)))
            (next_at_least now e es t n)
    ]

schedule_next_alarm_rings :
    (now t : ℕ) (s : LedgerDo) → alarm_target now s ≤ t → RingsBy t (schedule_next_alarm now s)
unfolding schedule_next_alarm
schedule_next_alarm_rings now t s h = elim (Option-cases s.alarm_at) [
  | inl q ↦ rw (q, schedule_next_alarm) (alarm_target now s, refl, h)
  | inr (a, q) ↦ elim (Bool-cases (ltb (alarm_target now s) a)) [
    | inl b ↦ rw (q, b, schedule_next_alarm) (alarm_target now s, refl, h)
    | inr b ↦ rw (q, b, schedule_next_alarm) (a, q, ground (arith, b))
  ]
]

-- The alarm of `s'` is set, and rings in time for every event that is pending in `s`: by its next retry,
-- or within a tenth of a second where that has passed; and where none is pending, by a day after
-- the last snapshot.
pub record IsScheduled (now : ℕ) (s s' : LedgerDo) : Type 0 where
  pub is_set : (a : ℕ) × (s'.alarm_at ≡ some a)
  pub in_time : All (λ e. RingsBy (max (now + 100) (retry_time now e)) s') (pending_events s.outbox)
  pub for_snapshot :
      (pending_events s.outbox ≢ [])
      ⊎ RingsBy (stored_time s.last_snapshot_at + snapshot_interval_ms) s'

idle_rings :
    (now : ℕ) (s : LedgerDo)
    → (pending_events s.outbox ≢ [])
      ⊎ RingsBy (stored_time s.last_snapshot_at + snapshot_interval_ms) (schedule_next_alarm now s)
unfolding alarm_target next_at
idle_rings now s = go (pending_events s.outbox) refl
  where
    go :
        (es : List OutboxEvent)
        → pending_events s.outbox ≡ es
        → (pending_events s.outbox ≢ [])
          ⊎ RingsBy
              (stored_time s.last_snapshot_at + snapshot_interval_ms)
              (schedule_next_alarm now s)
    go [] q = inr (schedule_next_alarm_rings now _ s (rw (q, alarm_target) (omega arith)))
    go (e ∷ es) q = inl (λ h. cc (q, h))

-- After `scheduleNextAlarm` the alarm is set: for every pending event it rings by the event's next retry,
-- or within a tenth of a second where that has passed, and where no event is pending it rings at the
-- latest when the next snapshot is due.
pub pending_rings : (now : ℕ) (s : LedgerDo) → IsScheduled now s (schedule_next_alarm now s)
pending_rings now s = record {
  is_set =
      let (a, q, _) = schedule_next_alarm_rings now (alarm_target now s) s (omega arith) in (a, q);
  in_time =
      All-imp _ _ (pending_events s.outbox) (λ e h. schedule_next_alarm_rings now _ s h)
        (alarm_target_least now s);
  for_snapshot = idle_rings now s;
}
