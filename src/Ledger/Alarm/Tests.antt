-- ===== src/Ledger/Alarm/Tests.antt =====
-- Runs of the alarm of src/do/ledger-do.ts, and the theorems at concrete inputs.
use edgepay_cf.Prelude.{◌≡◌, refl, true, some, inl}
use edgepay_cf.Ledger.Tests.{event, queued}
use edgepay_cf.Ledger.Outbox.Events.{find_event}
use edgepay_cf.Ledger.Alarm.{
  AlarmInputs, outbox_stats, maybe_cleanup_outbox, schedule_next_alarm, alarm_target, next_at,
  collect_stats,
}
use edgepay_cf.Ledger.Alarm.Next.{IsScheduled, pending_rings}
use edgepay_cf.Ledger.Alarm.Sweep.{kept_in_cleanup}

abbrev inputs : AlarmInputs
inputs = record {
  drain_accepts = true;
  snapshot_accepts = true;
  now = 400_000;
  retry_at = 400_000;
  synced_at = 400_001;
  snapshot_due = 400_001;
  snapshot_now = 400_001;
  snapshot_done = 400_002;
  cleanup_now = 400_002;
  cut_at = 400_002;
  cleanup_done = 400_002;
  schedule_now = 400_002;
}

stuck_after_five_minutes : (outbox_stats 400_000 queued).stuck ≡ 1
unfolding outbox_stats collect_stats
stuck_after_five_minutes = refl

nudged : (schedule_next_alarm 400_000 queued).alarm_at ≡ some 400_100
unfolding schedule_next_alarm alarm_target next_at
nudged = refl

pending_rings_example : IsScheduled 400_000 queued (schedule_next_alarm 400_000 queued)
pending_rings_example = pending_rings 400_000 queued

kept_in_cleanup_example :
    find_event 1 (maybe_cleanup_outbox 9_000_000 9_000_000 9_000_000 queued).outbox ≡ some event
kept_in_cleanup_example =
    kept_in_cleanup 9_000_000 9_000_000 9_000_000 1 queued event refl (inl refl)
