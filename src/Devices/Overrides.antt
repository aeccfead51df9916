-- ===== src/Devices/Overrides.antt =====
-- `grantDeviceOverride` and `revokeDeviceOverride` of src/services/device-policy.ts. A call runs alone:
-- the queries of two calls are not interleaved. Metrics are not modelled, nor are the address
-- and the user agent in an audit row.
pub mod Counting
pub mod Limits
pub mod Revoked
pub mod Lookup
use edgepay_cf.Prelude.{
  ℕ, ◌+◌, ◌*◌, String, Bool, List, [], ◌∷◌, ◌++◌, map, Option, none, some, ◌==◌, ◌&&◌, leb,
  if◌then◌else◌,
}
use edgepay_cf.Ledger.Types.{Number}
use edgepay_cf.Devices.Policy.{
  DeviceTier, PolicyRow, EffectivePolicy, PlatformEnv, TierOptions, TierResult, resolve_policy,
  compute_device_tier,
}
use edgepay_cf.Devices.Store.{
  Text, ms_per_day, OverrideRow, PairedDevice, ActorType, AuditAction, granted, revoked, AuditRow,
  PolicyDb, ServiceError, invalid_device_id, reason_required, invalid_expiry, device_not_found,
  override_already_active, override_quota_exceeded, no_actor_resolved, insert_failed,
  override_not_found, update_failed, ServiceResult, success, failure, active_rows, last_row,
  find_override, find_active_device, find_policy, active_count, positive_of, checked_reason,
  checked_days, resolve_actor,
}

pub record GrantParams : Type 0 where
  pub merchant_id : ℕ
  pub device_id : Number
  pub authorized_by : ℕ
  pub actor_type : ActorType
  pub reason : Option Text
  pub expires_in_days : Number

-- The readings of the clock: by the two queries for active overrides, for the age of the attestation,
-- and for the new row.
pub record GrantClock : Type 0 where
  pub active_at : ℕ
  pub quota_at : ℕ
  pub tier_at : ℕ
  pub now : ℕ

abbrev pub tier_options : PlatformEnv → TierOptions
tier_options env = record {
  max_attestation_age_ms = elim env.max_age_days [ none ↦ none | some d ↦ some (d * ms_per_day) ];
  allow_unverified_boot = env.allow_unverified_boot;
}

abbrev pub new_override :
    PlatformEnv → GrantClock → PolicyDb → ℕ → ℕ → PairedDevice → ℕ → Text → ℕ → OverrideRow
new_override env clock db i merchant device user reason days =
    let policy = resolve_policy env (find_policy merchant db.policies) in
    record {
      id = i;
      merchant_id = merchant;
      device_id = device.id;
      authorized_by = user;
      authorized_at = clock.now;
      reason = reason;
      acknowledged_tier =
          (compute_device_tier clock.tier_at device.facts policy (tier_options env)).tier;
      required_tier = policy.min_tier;
      expires_at = clock.now + days * ms_per_day;
      revoked_at = none;
      revoked_by = none;
      revocation_reason = none;
    }

abbrev pub insert_override : OverrideRow → PolicyDb → PolicyDb
insert_override o db = record db {
  overrides = db.overrides ++ (o ∷ []);
  override_seq = db.override_seq + 1;
}

abbrev pub log_audit :
    ActorType → AuditAction → ℕ → ℕ → Option OverrideRow → OverrideRow → PolicyDb → PolicyDb
log_audit actor_type action actor at old o db = record db {
  audit_logs =
      db.audit_logs
      ++ (record {
        merchant_id = o.merchant_id;
        actor_id = actor;
        actor_type = actor_type;
        action = action;
        entity_id = o.id;
        old_values = old;
        new_values = o;
        created_at = at;
      }
          ∷ []);
}

-- The INSERT, the SELECT of the new row, and the audit row.
unfoldable pub store_grant :
    GrantClock → ActorType → ℕ → OverrideRow → PolicyDb → PolicyDb × ServiceResult
store_grant clock actor_type user o db =
    let db1 = insert_override o db in
    elim (find_override o.id db1.overrides) [
      | none ↦ (db1, failure insert_failed)
      | some created ↦
          (log_audit actor_type granted user clock.now none created db1, success 201 created)
    ]

-- From the device that was found on. The queries read `db`; `later` is what the INSERT finds, since other
-- calls may come in between.
unfoldable pub grant_for :
    PlatformEnv
    → GrantClock
    → GrantParams
    → PairedDevice
    → Text
    → ℕ
    → (db later : PolicyDb) → PolicyDb × ServiceResult
grant_for env clock p device reason days db later =
    elim (last_row (active_rows p.merchant_id device.id clock.active_at db)) [
      | some o ↦ (later, failure override_already_active)
      | none ↦
          if leb 20 (active_count p.merchant_id clock.quota_at db)
          then (later, failure override_quota_exceeded)
          else elim (resolve_actor p.authorized_by db) [
            | none ↦ (later, failure no_actor_resolved)
            | some user ↦
                store_grant clock p.actor_type user
                  (new_override env clock db later.override_seq p.merchant_id device user reason
                    days)
                  later
          ]
    ]

unfoldable pub grant_device_override :
    PlatformEnv → GrantClock → GrantParams → (db later : PolicyDb) → PolicyDb × ServiceResult
grant_device_override env clock p db later = elim (positive_of p.device_id) [
  | none ↦ (later, failure invalid_device_id)
  | some device_id ↦ elim (checked_reason 10 p.reason) [
    | none ↦ (later, failure reason_required)
    | some reason ↦ elim (checked_days p.expires_in_days) [
      | none ↦ (later, failure invalid_expiry)
      | some days ↦ elim (find_active_device device_id p.merchant_id db.devices) [
        | none ↦ (later, failure device_not_found)
        | some device ↦ grant_for env clock p device reason days db later
      ]
    ]
  ]
]

pub record RevokeParams : Type 0 where
  pub merchant_id : ℕ
  pub device_id : Number
  pub revoked_by : ℕ
  pub actor_type : ActorType
  pub reason : Option Text

-- `UPDATE … WHERE id = ? AND merchant_id = ?`
abbrev pub set_revoked : ℕ → ℕ → ℕ → ℕ → Text → OverrideRow → OverrideRow
set_revoked at i merchant user reason o =
    if (o.id == i) && (o.merchant_id == merchant)
    then record o { revoked_at = some at; revoked_by = some user; revocation_reason = some reason }
    else o

-- The UPDATE, the SELECT of the row, and the audit row.
unfoldable pub store_revocation :
    ℕ → ℕ → RevokeParams → ℕ → Text → OverrideRow → PolicyDb → PolicyDb × ServiceResult
store_revocation at logged_at p user reason o db =
    let db1 = record db {
      overrides = map (set_revoked at o.id p.merchant_id user reason) db.overrides;
    } in
    elim (find_override o.id db1.overrides) [
      | none ↦ (db1, failure update_failed)
      | some updated ↦
          (log_audit p.actor_type revoked user logged_at (some o) updated db1, success 200 updated)
    ]

-- The readings of the clock: by the query for the active override, for `revoked_at`, and for the
-- audit row.
unfoldable pub revoke_device_override :
    (active_at at logged_at : ℕ) → RevokeParams → PolicyDb → PolicyDb × ServiceResult
revoke_device_override active_at at logged_at p db = elim (positive_of p.device_id) [
  | none ↦ (db, failure invalid_device_id)
  | some device_id ↦ elim (last_row (active_rows p.merchant_id device_id active_at db)) [
    | none ↦ (db, failure override_not_found)
    | some o ↦ elim (checked_reason 5 p.reason) [
      | none ↦ (db, failure reason_required)
      | some reason ↦ elim (resolve_actor p.revoked_by db) [
        | none ↦ (db, failure no_actor_resolved)
        | some user ↦ store_revocation at logged_at p user reason o db
      ]
    ]
  ]
]
