-- ===== src/Devices/Overrides/Lookup.antt =====
-- What `lookupActiveOverride` of src/services/device-policy.ts finds.
use edgepay_cf.Prelude.{
  ℕ, ◌+◌, ◌*◌, ◌/◌, ◌≡◌, ◌<◌, Bool, true, false, List, [], ◌∷◌, none, some, keep, All, ltb, arith,
  Bool-cases, Option-cases, inl, inr,
}
use edgepay_cf.Devices.Store.{
  OverrideRow, PolicyDb, active_rows, latest_expiry, lookup_active_override, is_active_for,
  ms_per_day,
}

All-keep_passes :
    (q : OverrideRow → Bool) (xs : List OverrideRow) → All (λ x. q x ≡ true) (keep q xs)
All-keep_passes q [] = tt
All-keep_passes q (x ∷ xs) = elim (Bool-cases (q x)) [
  | inl b ↦ rw b (b, All-keep_passes q xs)
  | inr b ↦ rw b (All-keep_passes q xs)
]

latest_expiry-All :
    (P : OverrideRow → Type 0) (xs : List OverrideRow) (o : OverrideRow)
    → All P xs
    → latest_expiry xs ≡ some o
    → P o
latest_expiry-All P [] o h q = ground (arith, q)
latest_expiry-All P (x ∷ xs) o h q = elim (Option-cases (latest_expiry xs)) [
  | inl n ↦ let same : x ≡ o = ground arith in rw (← same) h.0
  | inr (y, n) ↦ elim (Bool-cases (ltb x.expires_at y.expires_at)) [
    | inl b ↦ let same : y ≡ o = ground arith in rw (← same) (latest_expiry-All P xs y h.1 n)
    | inr b ↦ let same : x ≡ o = ground arith in rw (← same) h.0
  ]
]

-- An override that is found belongs to the merchant and the device, has not been revoked, and is
-- honoured at the latest to the end of the day on which it expires.
pub lookup_sound :
    (fails : Bool) (m d now : ℕ) (db : PolicyDb) (o : OverrideRow)
    → lookup_active_override fails m d now db ≡ some o
    → (o.merchant_id ≡ m)
      × (o.device_id ≡ d)
      × (o.revoked_at ≡ none)
      × (now < (o.expires_at / ms_per_day + 1) * ms_per_day)
unfolding lookup_active_override
lookup_sound true m d now db o h = ground (arith, h)
lookup_sound false m d now db o h =
    let passes =
      latest_expiry-All (λ x. is_active_for m d now x ≡ true) (active_rows m d now db) o
        (All-keep_passes (is_active_for m d now) db.overrides) h in
    ground (arith, passes)
