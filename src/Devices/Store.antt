-- ===== src/Devices/Store.antt =====
-- The D1 tables behind the overrides of the device policy, and the queries and checks that
-- src/services/device-policy.ts makes on them, `lookupActiveOverride` and `getDeviceOverrideRow` among
-- them. The tables are one record; a table is the list of its rows in the order of their ids.
use edgepay_cf.Prelude.{
  ℕ, ◌/◌, Bool, true, false, ◌&&◌, ◌||◌, List, [], ◌∷◌, Option, none, some, length, keep, ◌==◌, ltb,
  leb, if◌then◌else◌,
}
use edgepay_cf.Prelude.Int.{pos, negsuc}
use edgepay_cf.Ledger.Types.{Number, whole, fractional}
use edgepay_cf.Devices.Policy.{DeviceTier, PolicyRow, DeviceFacts}

abbrev pub ms_per_day : ℕ
ms_per_day = 86_400_000

-- A JavaScript string, by its UTF-16 code units.
abbrev pub Text : Type 0
Text = List ℕ

-- What `trim` removes.
abbrev pub is_space : ℕ → Bool
is_space c =
    (leb 9 c && leb c 13)
    || (c == 32)
    || (c == 160)
    || (c == 5_760)
    || (leb 8_192 c && leb c 8_202)
    || (c == 8_232)
    || (c == 8_233)
    || (c == 8_239)
    || (c == 8_287)
    || (c == 12_288)
    || (c == 65_279)

unfoldable pub trim_start : Text → Text
trim_start [] = []
trim_start (c ∷ cs) = if is_space c then trim_start cs else c ∷ cs

unfoldable pub trim_end : Text → Text
trim_end [] = []
trim_end (c ∷ cs) = elim (trim_end cs) [
  | [] ↦ if is_space c then [] else c ∷ []
  | d ∷ ds ↦ c ∷ d ∷ ds
]

abbrev pub trim : Text → Text
trim s = trim_end (trim_start s)

pub record OverrideRow : Type 0 where
  pub id : ℕ
  pub merchant_id : ℕ
  pub device_id : ℕ
  pub authorized_by : ℕ
  pub authorized_at : ℕ
  pub reason : Text
  pub acknowledged_tier : DeviceTier
  pub required_tier : DeviceTier
  pub expires_at : ℕ
  pub revoked_at : Option ℕ
  pub revoked_by : Option ℕ
  pub revocation_reason : Option Text

pub record PairedDevice : Type 0 where
  pub id : ℕ
  pub merchant_id : ℕ
  pub is_active : Bool
  pub facts : DeviceFacts

pub record ApiKey : Type 0 where
  pub id : ℕ
  pub created_by : Option ℕ

pub data ActorType : Type 0 where
  admin api_key : ActorType

pub data AuditAction : Type 0 where
  granted revoked : AuditAction

pub record AuditRow : Type 0 where
  pub merchant_id : ℕ
  pub actor_id : ℕ
  pub actor_type : ActorType
  pub action : AuditAction
  pub entity_id : ℕ
  pub old_values : Option OverrideRow
  pub new_values : OverrideRow
  pub created_at : ℕ

pub record PolicyDb : Type 0 where
  pub devices : List PairedDevice
  pub overrides : List OverrideRow
  pub override_seq : ℕ
  pub policies : List (ℕ × PolicyRow)
  pub api_keys : List ApiKey
  pub users : List ℕ
  pub audit_logs : List AuditRow

pub data ServiceError : Type 0 where
  invalid_device_id reason_required invalid_expiry device_not_found : ServiceError
  override_already_active override_quota_exceeded no_actor_resolved : ServiceError
  insert_failed override_not_found update_failed : ServiceError

-- The HTTP status that goes with each code.
abbrev pub status_of : ServiceError → ℕ
status_of invalid_device_id = 400
status_of reason_required = 400
status_of invalid_expiry = 400
status_of device_not_found = 404
status_of override_already_active = 409
status_of override_quota_exceeded = 429
status_of no_actor_resolved = 400
status_of insert_failed = 500
status_of override_not_found = 404
status_of update_failed = 500

pub data ServiceResult : Type 0 where
  success : ℕ → OverrideRow → ServiceResult
  failure : ServiceError → ServiceResult

-- `expires_at > datetime('now')` compares the texts `…T…Z` and `… …`: on the day of expiry the `T`
-- stands after the space, so the comparison is one of days.
abbrev pub is_unexpired : ℕ → OverrideRow → Bool
is_unexpired now o = leb (now / ms_per_day) (o.expires_at / ms_per_day)

abbrev pub is_unrevoked : OverrideRow → Bool
is_unrevoked o = elim o.revoked_at [ none ↦ true | some _ ↦ false ]

abbrev pub is_live : ℕ → ℕ → OverrideRow → Bool
is_live merchant now o = (o.merchant_id == merchant) && is_unrevoked o && is_unexpired now o

abbrev pub is_active_for : ℕ → ℕ → ℕ → OverrideRow → Bool
is_active_for merchant device now o = (o.device_id == device) && is_live merchant now o

-- `ORDER BY id DESC LIMIT 1`
abbrev pub last_row : List OverrideRow → Option OverrideRow
last_row [] = none
last_row (o ∷ os) = elim (last_row os) [ none ↦ some o | some x ↦ some x ]

-- `ORDER BY expires_at DESC LIMIT 1`
abbrev pub latest_expiry : List OverrideRow → Option OverrideRow
latest_expiry [] = none
latest_expiry (o ∷ os) = elim (latest_expiry os) [
  | none ↦ some o
  | some x ↦ if ltb o.expires_at x.expires_at then some x else some o
]

abbrev pub active_rows : ℕ → ℕ → ℕ → PolicyDb → List OverrideRow
active_rows merchant device now db = keep (is_active_for merchant device now) db.overrides

-- `lookupActiveOverride`; `fails` is whether D1 throws.
unfoldable pub lookup_active_override : Bool → ℕ → ℕ → ℕ → PolicyDb → Option OverrideRow
lookup_active_override fails merchant device now db =
    if fails then none else latest_expiry (active_rows merchant device now db)

unfoldable pub get_device_override_row : ℕ → ℕ → PolicyDb → Option OverrideRow
get_device_override_row merchant device db =
    last_row (keep (λ o. (o.merchant_id == merchant) && (o.device_id == device)) db.overrides)

abbrev pub find_override : ℕ → List OverrideRow → Option OverrideRow
find_override i [] = none
find_override i (o ∷ os) = if o.id == i then some o else find_override i os

-- `WHERE id = ? AND merchant_id = ?`, and `status !== 'active'`.
abbrev pub find_active_device : ℕ → ℕ → List PairedDevice → Option PairedDevice
find_active_device device merchant [] = none
find_active_device device merchant (d ∷ ds) =
    if (d.id == device) && (d.merchant_id == merchant)
    then (if d.is_active then some d else none)
    else find_active_device device merchant ds

abbrev pub find_policy : ℕ → List (ℕ × PolicyRow) → Option PolicyRow
find_policy merchant [] = none
find_policy merchant ((m, row) ∷ rest) =
    if m == merchant then some row else find_policy merchant rest

abbrev pub active_count : ℕ → ℕ → PolicyDb → ℕ
active_count merchant now db = length (keep (is_live merchant now) db.overrides)

-- `Number.isInteger(n) && n > 0`
abbrev pub positive_of : Number → Option ℕ
positive_of (whole (pos n)) = if ltb 0 n then some n else none
positive_of (whole (negsuc n)) = none
positive_of fractional = none

-- A reason is a string (`some`) of at least `least` characters without the space around it, and of at
-- most 500 with it.
abbrev pub checked_reason : ℕ → Option Text → Option Text
checked_reason least none = none
checked_reason least (some s) =
    if ltb (length (trim s)) least || ltb 500 (length s) then none else some (trim s)

abbrev pub checked_days : Number → Option ℕ
checked_days (whole (pos n)) = if (n == 30) || (n == 60) || (n == 90) then some n else none
checked_days (whole (negsuc n)) = none
checked_days fractional = none

abbrev pub key_user : ℕ → List ApiKey → Option ℕ
key_user i [] = none
key_user i (k ∷ ks) = if k.id == i then k.created_by else key_user i ks

abbrev pub is_user : ℕ → List ℕ → Bool
is_user i [] = false
is_user i (u ∷ us) = (u == i) || is_user i us

-- `keyUser?.created_by && keyUser.created_by > 0`
abbrev pub owner_or : ℕ → Option ℕ → ℕ
owner_or actor none = actor
owner_or actor (some u) = if ltb 0 u then u else actor

-- The user that an action is attributed to: the maker of the key, or else the id itself.
unfoldable pub resolve_actor : ℕ → PolicyDb → Option ℕ
resolve_actor actor db =
    let user = owner_or actor (key_user actor db.api_keys) in
    if ltb 0 actor && is_user user db.users then some user else none
