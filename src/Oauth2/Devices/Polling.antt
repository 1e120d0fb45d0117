-- ===== src/Oauth2/Devices/Polling.antt =====
-- `evaluate_device_poll` of `app/oauth2/devices/polling.py`, and the constraint
-- `decision_state_valid` of `app/db/models/oauth2_device_authorization.py`.
pub mod Pace
pub mod Approval
use zero_auth_lite.Prelude.{
  ℕ, ◌+◌, Bool, true, false, not, ◌||◌, Option, none, some, List, [], ◌∷◌, Text, text_eq, leb, ltb,
  ◌==◌, if◌then◌else◌, seconds, is_null, is_not_null, holds, All,
}
use zero_auth_lite.Table.{find_where, update_where}
use zero_auth_lite.Oauth2.Tables.{Tables, DeviceAuthorization}

pub data DevicePollStatus : Type 0 where
  approved pending slow_down denied expired invalid : DevicePollStatus

pub record DevicePollDecision : Type 0 where
  pub status : DevicePollStatus
  pub authorization : Option DeviceAuthorization

abbrev pub has_device_code : Text → DeviceAuthorization → Bool
has_device_code device_code_hash a = text_eq a.device_code_hash device_code_hash

abbrev pub device_row : Text → Tables → Option DeviceAuthorization
device_row device_code_hash d =
    find_where (has_device_code device_code_hash) d.device_authorizations

-- The values of a poll that comes too early, and of one that finds no decision.
abbrev pub slowed : ℕ → DeviceAuthorization → DeviceAuthorization
slowed now a = record a { last_polled_at = some now; interval_seconds = a.interval_seconds + 5 }

abbrev pub polled : ℕ → DeviceAuthorization → DeviceAuthorization
polled now a = record a { last_polled_at = some now }

-- `(now - last_polled_at).total_seconds() < interval_seconds`
abbrev pub is_too_soon : ℕ → DeviceAuthorization → Bool
is_too_soon now a = holds (λ last. ltb now (last + seconds a.interval_seconds)) a.last_polled_at

abbrev pub bare : DevicePollStatus → DevicePollDecision
bare status = record { status = status; authorization = none }

-- The tests of a poll, in the source's order.
abbrev pub poll_status : Text → ℕ → DeviceAuthorization → DevicePollStatus
poll_status client_id now a =
    if not (text_eq a.client_id client_id)
    then invalid
    else if leb a.expires_at now
    then expired
    else if is_not_null a.denied_at
    then denied
    else if is_not_null a.used_at
    then invalid
    else if is_too_soon now a
    then slow_down
    else if is_null a.approved_at || is_null a.user_id
    then pending
    else approved

-- What a poll with a status returns and writes.
abbrev pub poll_answer : DevicePollStatus → DeviceAuthorization → DevicePollDecision
poll_answer approved a = record { status = approved; authorization = some a }
poll_answer status a = bare status

abbrev pub poll_write :
    DevicePollStatus → Text → ℕ → List DeviceAuthorization → List DeviceAuthorization
poll_write slow_down device_code_hash now rows =
    update_where (has_device_code device_code_hash) (slowed now) rows
poll_write pending device_code_hash now rows =
    update_where (has_device_code device_code_hash) (polled now) rows
poll_write _ device_code_hash now rows = rows

abbrev pub poll_found : Text → Text → ℕ → DeviceAuthorization → Tables → DevicePollDecision × Tables
poll_found device_code_hash client_id now a d =
    let status = poll_status client_id now a in
    (
      poll_answer status a,
      record d {
        device_authorizations = poll_write status device_code_hash now d.device_authorizations;
      },
    )

-- The transaction: the row of the hash, read again by its key.
unfoldable pub evaluate_device_poll : Text → Text → ℕ → Tables → DevicePollDecision × Tables
evaluate_device_poll device_code_hash client_id now d = elim (device_row device_code_hash d) [
  | none ↦ (bare invalid, d)
  | some locked ↦ elim (find_where (λ a. a.id == locked.id) d.device_authorizations) [
    | none ↦ (bare invalid, d)
    | some a ↦ poll_found device_code_hash client_id now a d
  ]
]
