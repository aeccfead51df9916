-- ===== src/Devices/Policy/Tiers.antt =====
-- Which devices reach the tiers 'attested' and 'strongbox' in src/services/device-policy.ts.
use edgepay_cf.Prelude.{ℕ, ◌≡◌, ◌≤◌, ◌⊎◌, ◌↔◌, true, false, arith, refl, Bool-cases, inl, inr}
use edgepay_cf.Devices.Policy.{
  tier_rank, DeviceFacts, EffectivePolicy, TierOptions, at_time, missing, unparsable, VerifiedAt,
  has_text, is_stale, attested_tier, compute_device_tier,
}

-- A key, an attestation that was verified and is not stale, and a verified boot or the leave to go
-- without.
pub record IsAttested (now : ℕ) (d : DeviceFacts) (opts : TierOptions) : Type 0 where
  pub has_key : has_text d.public_key ≡ true
  pub verified : ℕ
  pub verified_at : d.attestation_verified_at ≡ at_time verified
  pub not_stale : is_stale now verified opts.max_attestation_age_ms ≡ false
  pub booted : (opts.allow_unverified_boot ≡ true) ⊎ (d.attestation_verified_boot ≡ 1)

attested_rank :
    (now at : ℕ) (d : DeviceFacts) (policy : EffectivePolicy) (opts : TierOptions)
    → (2 ≤ tier_rank (attested_tier now at d policy opts).tier) ↔ (
        (is_stale now at opts.max_attestation_age_ms ≡ false)
        × ((opts.allow_unverified_boot ≡ true) ⊎ (d.attestation_verified_boot ≡ 1)))
unfolding attested_tier
attested_rank now at d policy opts = ground arith

-- A device is attested or better exactly when it has a key, its attestation was verified and is not
-- stale, and it booted verified or need not have.
pub compute_device_tier-IsAttested :
    (now : ℕ) (d : DeviceFacts) (policy : EffectivePolicy) (opts : TierOptions)
    → (2 ≤ tier_rank (compute_device_tier now d policy opts).tier) ↔ IsAttested now d opts
unfolding compute_device_tier
compute_device_tier-IsAttested now d policy opts = (to, from)
  where
    to : 2 ≤ tier_rank (compute_device_tier now d policy opts).tier → IsAttested now d opts
    to h = go d.attestation_verified_at refl h
      where
        go :
            (v : VerifiedAt)
            → d.attestation_verified_at ≡ v
            → 2 ≤ tier_rank (compute_device_tier now d policy opts).tier
            → IsAttested now d opts
        go missing q h = ground (arith, q)
        go unparsable q h = ground (arith, q)
        go (at_time v) q h = elim (Bool-cases (has_text d.public_key)) [
          | inl k ↦
              let (fresh, boot) =
                (attested_rank now v d policy opts).0 (rw (k, q, compute_device_tier) at h) in
              record {
                has_key = k;
                verified = v;
                verified_at = q;
                not_stale = fresh;
                booted = boot;
              }
          | inr k ↦ ground (arith, k)
        ]

    from : IsAttested now d opts → 2 ≤ tier_rank (compute_device_tier now d policy opts).tier
    from a =
        rw (a.has_key, a.verified_at, compute_device_tier)
          ((attested_rank now a.verified d policy opts).1 (a.not_stale, a.booted))
