-- ===== src/Devices/Policy.antt =====
-- The pure part of src/services/device-policy.ts: the policy in force, the tier of a device, and the
-- decision to block. A text timestamp is the time that `Date.parse` reads, in milliseconds.
pub mod Strictest
pub mod Tiers
use edgepay_cf.Prelude.{
  ℕ, ◌-◌, ◌*◌, String, Bool, true, false, not, ◌&&◌, ◌||◌, Option, none, some, str_eq, str_before,
  ◌==◌, ltb, if◌then◌else◌,
}

pub data DeviceTier : Type 0 where
  keyless basic attested strongbox : DeviceTier

abbrev pub tier_rank : DeviceTier → ℕ
tier_rank keyless = 0
tier_rank basic = 1
tier_rank attested = 2
tier_rank strongbox = 3

-- The text of `min_tier` in a merchant's row: a tier's name or another text.
pub data StoredTier : Type 0 where
  named : DeviceTier → StoredTier
  unlisted : StoredTier

-- A row of `op_merchant_device_policies`; `strict_pairing` is whether the column is 1.
pub record PolicyRow : Type 0 where
  pub min_tier : Option StoredTier
  pub min_patch_level : Option String
  pub strict_pairing : Bool

pub record EffectivePolicy : Type 0 where
  pub min_tier : DeviceTier
  pub min_patch_level : Option String
  pub strict_pairing : Bool

-- `DEVICE_POLICY_GLOBAL_MODE`: unset, one of the three modes, or another text.
pub data EnforcementMode : Type 0 where
  off audit enforce : EnforcementMode

pub data GlobalMode : Type 0 where
  unset : GlobalMode
  set_to : EnforcementMode → GlobalMode
  unknown : GlobalMode

-- The flags compare with the text 'true'. `max_age_days` is what `parseInt` reads of
-- `ATTESTATION_MAX_AGE_DAYS`, or 30 where that is unset; `none` is NaN. A negative number is not modelled.
pub record PlatformEnv : Type 0 where
  pub strongbox_required : Bool
  pub attestation_required : Bool
  pub allow_unverified_boot : Bool
  pub max_age_days : Option ℕ
  pub global_mode : GlobalMode

abbrev pub platform_tier : PlatformEnv → DeviceTier
platform_tier env =
    if env.strongbox_required
    then strongbox
    else if env.attestation_required
    then attested
    else basic

-- `merchantRow?.min_tier ?? 'basic'`
abbrev pub merchant_tier : Option PolicyRow → StoredTier
merchant_tier none = named basic
merchant_tier (some row) = elim row.min_tier [ none ↦ named basic | some t ↦ t ]

abbrev pub stricter : StoredTier → DeviceTier → DeviceTier
stricter unlisted p = p
stricter (named t) p = if ltb (tier_rank p) (tier_rank t) then t else p

abbrev pub row_patch_level : Option PolicyRow → Option String
row_patch_level none = none
row_patch_level (some row) = row.min_patch_level

abbrev pub row_strict_pairing : Option PolicyRow → Bool
row_strict_pairing none = false
row_strict_pairing (some row) = row.strict_pairing

unfoldable pub resolve_policy : PlatformEnv → Option PolicyRow → EffectivePolicy
resolve_policy env row = record {
  min_tier = stricter (merchant_tier row) (platform_tier env);
  min_patch_level = row_patch_level row;
  strict_pairing = row_strict_pairing row;
}

-- `attestation_verified_at`: null or empty, a text that `Date.parse` refuses, or a time.
pub data VerifiedAt : Type 0 where
  missing unparsable : VerifiedAt
  at_time : ℕ → VerifiedAt

pub record DeviceFacts : Type 0 where
  pub public_key : Option String
  pub attestation_verified_at : VerifiedAt
  pub attestation_strong : ℕ
  pub attestation_verified_boot : ℕ
  pub device_patch_level : Option String

pub record TierOptions : Type 0 where
  pub max_attestation_age_ms : Option ℕ
  pub allow_unverified_boot : Bool

pub data TierReason : Type 0 where
  no_attestation attestation_stale verified_boot_required patch_level_below_min : TierReason

pub record TierResult : Type 0 where
  pub tier : DeviceTier
  pub reason : Option TierReason

abbrev pub tier_result : DeviceTier → Option TierReason → TierResult
tier_result t r = record { tier = t; reason = r }

-- A string that is there and not empty.
abbrev pub has_text : Option String → Bool
has_text none = false
has_text (some s) = not (str_eq s "")

-- `age > opts.maxAttestationAgeMs`, which NaN never passes; nor does an age below zero.
abbrev pub is_stale : ℕ → ℕ → Option ℕ → Bool
is_stale now at none = false
is_stale now at (some limit) = ltb limit (now - at)

-- `policy.min_patch_level` is set, and the device's level is not, or stands before it.
abbrev pub is_below : Option String → Option String → Bool
is_below level none = false
is_below none (some least) = not (str_eq least "")
is_below (some level) (some least) =
    not (str_eq least "") && (str_eq level "" || str_before level least)

-- From the test of the age on.
unfoldable pub attested_tier : ℕ → ℕ → DeviceFacts → EffectivePolicy → TierOptions → TierResult
attested_tier now at d policy opts =
    if is_stale now at opts.max_attestation_age_ms
    then tier_result basic (some attestation_stale)
    else if not opts.allow_unverified_boot && not (d.attestation_verified_boot == 1)
    then tier_result basic (some verified_boot_required)
    else if is_below d.device_patch_level policy.min_patch_level
    then tier_result attested (some patch_level_below_min)
    else if d.attestation_strong == 1
    then tier_result strongbox none
    else tier_result attested none

unfoldable pub compute_device_tier : ℕ → DeviceFacts → EffectivePolicy → TierOptions → TierResult
compute_device_tier now d policy opts =
    if has_text d.public_key
    then elim d.attestation_verified_at [
      | missing ↦ tier_result basic (some no_attestation)
      | unparsable ↦ tier_result basic (some no_attestation)
      | at_time t ↦ attested_tier now t d policy opts
    ]
    else tier_result keyless none

unfoldable pub resolve_enforcement_mode : GlobalMode → EnforcementMode → EnforcementMode
resolve_enforcement_mode (set_to off) merchant = off
resolve_enforcement_mode (set_to audit) merchant = audit
resolve_enforcement_mode (set_to enforce) merchant = merchant
resolve_enforcement_mode unset merchant = merchant
resolve_enforcement_mode unknown merchant = audit

unfoldable pub should_block : EnforcementMode → Bool → Bool
should_block off compliant = false
should_block audit compliant = false
should_block enforce compliant = not compliant
