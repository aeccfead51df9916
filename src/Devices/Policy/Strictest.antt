-- ===== src/Devices/Policy/Strictest.antt =====
-- The strictest of platform and merchant wins, in src/services/device-policy.ts.
use edgepay_cf.Prelude.{ℕ, ◌≡◌, ◌⊎◌, ◌↔◌, max, Bool, true, false, Option, arith}
use edgepay_cf.Devices.Policy.{
  DeviceTier, tier_rank, StoredTier, named, unlisted, PolicyRow, PlatformEnv, platform_tier,
  merchant_tier, stricter, resolve_policy, EnforcementMode, off, audit, enforce, GlobalMode, unset,
  set_to, unknown, resolve_enforcement_mode, should_block,
}

-- A tier that is not listed asks for nothing.
abbrev pub stored_rank : StoredTier → ℕ
stored_rank (named t) = tier_rank t
stored_rank unlisted = 0

stricter_rank :
    (t : StoredTier) (p : DeviceTier) → tier_rank (stricter t p) ≡ max (stored_rank t) (tier_rank p)
stricter_rank unlisted p = ground arith
stricter_rank (named t) p = ground arith

-- The rank of the tier that the policy in force asks for is the greater of the platform's and the
-- merchant's.
pub resolve_policy_strictest :
    (env : PlatformEnv) (row : Option PolicyRow)
    → tier_rank (resolve_policy env row).min_tier
      ≡ max (stored_rank (merchant_tier row)) (tier_rank (platform_tier env))
unfolding resolve_policy
resolve_policy_strictest env row = stricter_rank (merchant_tier row) (platform_tier env)

-- `shouldBlock` answers yes, before any override of the device is looked up, exactly when the merchant
-- enforces, the global mode is unset or 'enforce', and the device does not comply.
pub blocked_iff :
    (g : GlobalMode) (m : EnforcementMode) (compliant : Bool)
    → (should_block (resolve_enforcement_mode g m) compliant ≡ true)
      ↔ ((m ≡ enforce) × ((g ≡ unset) ⊎ (g ≡ set_to enforce)) × (compliant ≡ false))
unfolding resolve_enforcement_mode should_block
blocked_iff (set_to off) m compliant = ground arith
blocked_iff (set_to audit) m compliant = ground arith
blocked_iff (set_to enforce) m compliant = ground arith
blocked_iff unset m compliant = ground arith
blocked_iff unknown m compliant = ground arith
