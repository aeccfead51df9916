-- ===== src/Devices/Tests.antt =====
-- Runs of src/services/device-policy.ts, and the theorems at concrete inputs.
use edgepay_cf.Prelude.{
  ◌≡◌, ◌≤◌, ◌<◌, ◌⊎◌, ◌↔◌, refl, true, false, [], ◌∷◌, none, some, arith, replicate, str_eq,
  str_before,
}
use edgepay_cf.Prelude.Int.{pos}
use edgepay_cf.Ledger.Types.{whole}
use edgepay_cf.Devices.Policy.{
  PlatformEnv, PolicyRow, DeviceFacts, TierOptions, basic, strongbox, named, at_time, unset, set_to,
  enforce, audit, off, tier_rank, resolve_policy, compute_device_tier, attested_tier, should_block,
  resolve_enforcement_mode,
}
use edgepay_cf.Devices.Policy.Strictest.{blocked_iff}
use edgepay_cf.Devices.Policy.Tiers.{IsAttested, compute_device_tier-IsAttested}
use edgepay_cf.Devices.Store.{
  PolicyDb, OverrideRow, active_count, admin, lookup_active_override, trim_start, trim_end,
  resolve_actor,
}
use edgepay_cf.Devices.Overrides.{
  GrantParams, GrantClock, RevokeParams, grant_device_override, grant_for, store_grant,
}
use edgepay_cf.Devices.Overrides.Limits.{grant_keeps_quota}
use edgepay_cf.Devices.Overrides.Lookup.{lookup_sound}

abbrev env : PlatformEnv
env = record {
  strongbox_required = false;
  attestation_required = true;
  allow_unverified_boot = false;
  max_age_days = some 30;
  global_mode = unset;
}

abbrev row : PolicyRow
row = record {
  min_tier = some (named strongbox);
  min_patch_level = some "2026-01";
  strict_pairing = true;
}

abbrev facts : DeviceFacts
facts = record {
  public_key = some "key";
  attestation_verified_at = at_time 1_000;
  attestation_strong = 1;
  attestation_verified_boot = 1;
  device_patch_level = some "2026-02";
}

abbrev options : TierOptions
options = record { max_attestation_age_ms = some 5_000; allow_unverified_boot = false }

reaches_strongbox :
    (compute_device_tier 2_000 facts (resolve_policy env (some row)) options).tier ≡ strongbox
unfolding compute_device_tier attested_tier resolve_policy str_eq str_before
reaches_strongbox = refl

-- A merchant that has switched the policy off is audited where the global mode is 'audit'.
audited_though_off : resolve_enforcement_mode (set_to audit) off ≡ audit
unfolding resolve_enforcement_mode
audited_though_off = refl

blocked_iff_example :
    (should_block (resolve_enforcement_mode unset enforce) false ≡ true)
    ↔ ((enforce ≡ enforce) × ((unset ≡ unset) ⊎ (unset ≡ set_to enforce)) × (false ≡ false))
blocked_iff_example = blocked_iff unset enforce false

compute_device_tier-IsAttested_example :
    (2 ≤ tier_rank (compute_device_tier 2_000 facts (resolve_policy env (some row)) options).tier)
    ↔ IsAttested 2_000 facts options
compute_device_tier-IsAttested_example =
    compute_device_tier-IsAttested 2_000 facts (resolve_policy env (some row)) options

abbrev db : PolicyDb
db = record {
  devices = record { id = 5; merchant_id = 1; is_active = true; facts = facts } ∷ [];
  overrides = [];
  override_seq = 1;
  policies = (1, row) ∷ [];
  api_keys = [];
  users = 8 ∷ [];
  audit_logs = [];
}

abbrev clock : GrantClock
clock = record { active_at = 2_000; quota_at = 2_000; tier_at = 2_000; now = 2_000 }

abbrev grant : GrantParams
grant = record {
  merchant_id = 1;
  device_id = whole (pos 5);
  authorized_by = 8;
  actor_type = admin;
  reason = some (replicate 12 97);
  expires_in_days = whole (pos 30);
}

abbrev granted_db : PolicyDb
granted_db = (grant_device_override env clock grant db db).0

one_active : active_count 1 3_000 granted_db ≡ 1
unfolding grant_device_override grant_for store_grant trim_start trim_end resolve_actor
one_active = refl

grant_keeps_quota_example : active_count 1 3_000 granted_db ≤ 20
grant_keeps_quota_example =
    grant_keeps_quota env clock grant db db [] 1 3_000 refl (omega arith) (omega arith)

-- An override in force.
abbrev override : OverrideRow
override = record {
  id = 1;
  merchant_id = 1;
  device_id = 5;
  authorized_by = 8;
  authorized_at = 2_000;
  reason = replicate 12 97;
  acknowledged_tier = basic;
  required_tier = strongbox;
  expires_at = 2_592_002_000;
  revoked_at = none;
  revoked_by = none;
  revocation_reason = none;
}

abbrev overridden : PolicyDb
overridden = record db { overrides = override ∷ []; override_seq = 2 }

-- The override is found an hour after it has expired, on the same day.
found_after_expiry : lookup_active_override false 1 5 2_595_602_000 overridden ≡ some override
unfolding lookup_active_override
found_after_expiry = refl

lookup_sound_example :
    (override.merchant_id ≡ 1)
    × (override.device_id ≡ 5)
    × (override.revoked_at ≡ none)
    × (2_595_602_000 < 2_678_400_000)
unfolding lookup_active_override
lookup_sound_example = lookup_sound false 1 5 2_595_602_000 overridden override refl

abbrev revocation : RevokeParams
revocation = record {
  merchant_id = 1;
  device_id = whole (pos 5);
  revoked_by = 8;
  actor_type = admin;
  reason = some (replicate 6 97);
}
