-- ===== src/Devices/Overrides/Limits.antt =====
-- How `grantDeviceOverride` of src/services/device-policy.ts can end, and the limits that it keeps.
use edgepay_cf.Prelude.{
  ℕ, ◌+◌, ◌≡◌, ◌≤◌, ◌⊎◌, Bool, List, [], ◌∷◌, ◌++◌, length, keep, leb, arith, refl, Bool-cases,
  Option-cases, inl, inr,
}
use edgepay_cf.Devices.Policy.{PlatformEnv}
use edgepay_cf.Devices.Store.{
  Text, OverrideRow, PairedDevice, PolicyDb, active_rows, active_count, last_row,
  find_active_device, find_override, is_live, positive_of, checked_reason, checked_days,
  resolve_actor, ActorType,
}
use edgepay_cf.Devices.Overrides.{
  GrantParams, GrantClock, new_override, store_grant, grant_for, grant_device_override,
}
use edgepay_cf.Devices.Overrides.Counting.{length-keep-append, length-keep-least, live_before}

-- The table of overrides is the same, or it has one more row, of a merchant for whom fewer than twenty
-- were counted.
abbrev GrantEnding : GrantClock → PolicyDb → PolicyDb → List OverrideRow → Type 0
GrantEnding clock db later after =
    (after ≡ later.overrides)
    ⊎ ((o : OverrideRow) × (after ≡ later.overrides ++ (o ∷ []))
        × (active_count o.merchant_id clock.quota_at db ≤ 19))

store_grant_overrides :
    (clock : GrantClock) (a : ActorType) (user : ℕ) (o : OverrideRow) (db : PolicyDb)
    → (store_grant clock a user o db).0.overrides ≡ db.overrides ++ (o ∷ [])
unfolding store_grant
store_grant_overrides clock a user o db =
    elim (Option-cases (find_override o.id (db.overrides ++ (o ∷ [])))) [
      | inl q ↦ rw (q, store_grant) refl
      | inr (x, q) ↦ rw (q, store_grant) refl
    ]

grant_for-GrantEnding :
    (env : PlatformEnv) (clock : GrantClock) (p : GrantParams) (d : PairedDevice) (reason : Text)
    (days : ℕ) (db later : PolicyDb)
    → GrantEnding clock db later (grant_for env clock p d reason days db later).0.overrides
unfolding grant_for
grant_for-GrantEnding env clock p d reason days db later =
    elim (Option-cases (last_row (active_rows p.merchant_id d.id clock.active_at db))) [
      | inr (o, q) ↦ rw (q, grant_for) (inl refl)
      | inl q ↦ elim (Bool-cases (leb 20 (active_count p.merchant_id clock.quota_at db))) [
        | inl b ↦ rw (q, b, grant_for) (inl refl)
        | inr b ↦ elim (Option-cases (resolve_actor p.authorized_by db)) [
          | inl r ↦ rw (q, b, r, grant_for) (inl refl)
          | inr (user, r) ↦
              let o =
                new_override env clock db later.override_seq p.merchant_id d user reason days in
              rw (q, b, r, grant_for)
                (inr (o, store_grant_overrides clock p.actor_type user o later, ground (arith, b)))
        ]
      ]
    ]

grant_device_override-GrantEnding :
    (env : PlatformEnv) (clock : GrantClock) (p : GrantParams) (db later : PolicyDb)
    → GrantEnding clock db later (grant_device_override env clock p db later).0.overrides
unfolding grant_device_override
grant_device_override-GrantEnding env clock p db later =
    elim (Option-cases (positive_of p.device_id)) [
      | inl q ↦ rw (q, grant_device_override) (inl refl)
      | inr (i, q) ↦ elim (Option-cases (checked_reason 10 p.reason)) [
        | inl q' ↦ rw (q, q', grant_device_override) (inl refl)
        | inr (reason, q') ↦ elim (Option-cases (checked_days p.expires_in_days)) [
          | inl r ↦ rw (q, q', r, grant_device_override) (inl refl)
          | inr (days, r) ↦ elim (Option-cases (find_active_device i p.merchant_id db.devices)) [
            | inl r' ↦ rw (q, q', r, r', grant_device_override) (inl refl)
            | inr (d, r') ↦
                rw (q, q', r, r', grant_device_override)
                  (grant_for-GrantEnding env clock p d reason days db later)
          ]
        ]
      ]
    ]

keep_one : (q : OverrideRow → Bool) (o : OverrideRow) → length (keep q (o ∷ [])) ≤ 1
keep_one q o = ground arith

length-keep-most : (q : OverrideRow → Bool) (os : List OverrideRow) → length (keep q os) ≤ length os
length-keep-most q [] = omega arith
length-keep-most q (o ∷ os) = ground (arith, length-keep-most q os)

-- One more row counts only for its own merchant.
other_merchant :
    (m t : ℕ) (o : OverrideRow) → (o.merchant_id ≡ m) ⊎ (length (keep (is_live m t) (o ∷ [])) ≡ 0)
other_merchant m t o = ground arith

-- If no merchant had more than twenty active overrides in the table that a call counted, and other calls
-- only inserted some rows between that count and the call's INSERT, then no merchant has more than
-- twenty and the number of those rows after the call, at any time from the count on: without
-- overlapping calls, twenty.
pub grant_keeps_quota :
    (env : PlatformEnv) (clock : GrantClock) (p : GrantParams) (db later : PolicyDb)
    (others : List OverrideRow) (m t : ℕ)
    → later.overrides ≡ db.overrides ++ others
    → clock.quota_at ≤ t
    → active_count m t db ≤ 20
    → active_count m t (grant_device_override env clock p db later).0 ≤ 20 + length others
grant_keeps_quota env clock p db later others m t w late h =
    let live = is_live m t in
    let before : active_count m t later ≤ active_count m t db + length others =
      rw w (
        omega (arith, length-keep-append live db.overrides others, length-keep-most live others)) in
    elim (grant_device_override-GrantEnding env clock p db later) [
      | inl q ↦ rw q (omega (arith, before, h))
      | inr (o, q, few) ↦ rw q (elim (other_merchant m t o) [
        | inl same ↦ omega (
          arith,
          before,
          length-keep-append live later.overrides (o ∷ []),
          keep_one live o,
          length-keep-least live (is_live m clock.quota_at) db.overrides
              (λ x. live_before m clock.quota_at t x late),
          rw same at few,
        )
        | inr other ↦
            omega (arith, before, length-keep-append live later.overrides (o ∷ []), other, h)
      ])
    ]
