-- ===== src/Devices/Overrides/Revoked.antt =====
-- What `revokeDeviceOverride` of src/services/device-policy.ts leaves behind.
use edgepay_cf.Prelude.{ℕ, ◌≡◌, ◌≤◌, ◌⊎◌, map, some, length, arith, refl, Option-cases, inl, inr}
use edgepay_cf.Devices.Store.{
  Text, OverrideRow, PolicyDb, ServiceResult, ServiceError, success, failure, active_rows, last_row,
  find_override, is_active_for, positive_of, checked_reason, resolve_actor,
}
use edgepay_cf.Devices.Overrides.{
  RevokeParams, set_revoked, store_revocation, revoke_device_override,
}
use edgepay_cf.Devices.Overrides.Counting.{
  length-keep-least, active_before, last_row_passes, length-keep-map_last,
}

-- A call fails, or it has revoked the active override of the device with the highest id.
abbrev RevokeEnding : ℕ → ℕ → ℕ → RevokeParams → PolicyDb → PolicyDb × ServiceResult → Type 0
RevokeEnding device active_at at p db after =
    ((e : ServiceError) × (after.1 ≡ failure e))
    ⊎ ((o : OverrideRow) × (user : ℕ) × (reason : Text) × (last_row
            (active_rows p.merchant_id device active_at db)
          ≡ some o)
        × (after.0.overrides ≡ map (set_revoked at o.id p.merchant_id user reason) db.overrides))

module _ (active_at at logged_at device : ℕ) (p : RevokeParams) (db : PolicyDb)
    (known : positive_of p.device_id ≡ some device) where
  store_revocation-RevokeEnding :
      (user : ℕ) (reason : Text) (o : OverrideRow)
      → last_row (active_rows p.merchant_id device active_at db) ≡ some o
      → RevokeEnding device active_at at p db (store_revocation at logged_at p user reason o db)
  unfolding store_revocation
  store_revocation-RevokeEnding user reason o q =
      elim (Option-cases
        (find_override o.id (map (set_revoked at o.id p.merchant_id user reason) db.overrides))) [
          | inl r ↦ rw (r, store_revocation) (inr (o, user, reason, q, refl))
          | inr (x, r) ↦ rw (r, store_revocation) (inr (o, user, reason, q, refl))
        ]

  revoke_device_override-RevokeEnding :
      RevokeEnding device active_at at p db (revoke_device_override active_at at logged_at p db)
  unfolding revoke_device_override
  revoke_device_override-RevokeEnding =
      elim (Option-cases (last_row (active_rows p.merchant_id device active_at db))) [
        | inl q ↦ rw (known, q, revoke_device_override) (inl (_, refl))
        | inr (o, q) ↦ elim (Option-cases (checked_reason 5 p.reason)) [
          | inl r ↦ rw (known, q, r, revoke_device_override) (inl (_, refl))
          | inr (reason, r) ↦ elim (Option-cases (resolve_actor p.revoked_by db)) [
            | inl u ↦ rw (known, q, r, u, revoke_device_override) (inl (_, refl))
            | inr (user, u) ↦
                rw (known, q, r, u, revoke_device_override)
                  (rw q at (store_revocation-RevokeEnding user reason o q))
          ]
        ]
      ]

  -- After a call that succeeds the device has no active override, at any time from the call's query
  -- on, if it had at most one before.
  pub revoked_inactive :
      (c t : ℕ) (row : OverrideRow)
      → active_at ≤ t
      → length (active_rows p.merchant_id device active_at db) ≤ 1
      → (revoke_device_override active_at at logged_at p db).1 ≡ success c row
      → length (
          active_rows p.merchant_id device t (revoke_device_override active_at at logged_at p db).0)
        ≡ 0
  revoked_inactive c t row late one ok = elim revoke_device_override-RevokeEnding [
    | inl (e, q) ↦ ground arith
    | inr (o, user, reason, found, q) ↦
        let test = is_active_for p.merchant_id device active_at in
        let update = set_revoked at o.id p.merchant_id user reason in
        let passes = last_row_passes test db.overrides o found in
        rw q (
          omega (
            arith,
            one,
            length-keep-map_last test update (λ x h. ground arith) db.overrides o found
                (ground (arith, passes)),
            length-keep-least (is_active_for p.merchant_id device t) test (map update db.overrides)
                (λ x. active_before p.merchant_id device active_at t x late),
          ))
  ]
