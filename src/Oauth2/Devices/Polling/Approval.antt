-- ===== src/Oauth2/Devices/Polling/Approval.antt =====
-- What an approved poll has found.
use zero_auth_lite.Prelude.{
  ℕ, ◌<◌, ◌≡◌, ◌∙◌, sym, ap, refl, true, false, none, some, arith, Text, text_eq_iff, is_not_null,
}
use zero_auth_lite.Table.{All-find_where}
use zero_auth_lite.Table.Keyed
use zero_auth_lite.Table.Keyed.{All-row_self}
use zero_auth_lite.Oauth2.Tables.{Tables, DeviceAuthorization}
use zero_auth_lite.Oauth2.Devices.Polling.{
  DevicePollStatus, approved, pending, slow_down, denied, expired, invalid, has_device_code,
  device_row, is_too_soon, poll_status, poll_answer, poll_found, evaluate_device_poll, bare,
}

abbrev pub device_id : DeviceAuthorization → ℕ
device_id a = a.id

-- The primary key of the table.
abbrev pub UniqueIds : Tables → Type 0
UniqueIds d = Keyed.UniqueKeys device_id d.device_authorizations

-- With unique keys, the row read again is the row locked.
pub evaluate_device_poll_found :
    (h client_id : Text) (now : ℕ) (d : Tables) (a : DeviceAuthorization)
    → UniqueIds d
    → device_row h d ≡ some a
    → evaluate_device_poll h client_id now d ≡ poll_found h client_id now a d
unfolding evaluate_device_poll
evaluate_device_poll_found h client_id now d a u found =
    let again =
      All-find_where (λ r. Keyed.row device_id (device_id r) d.device_authorizations ≡ some r)
        (has_device_code h) d.device_authorizations
        (All-row_self device_id d.device_authorizations u) found in
    rw (found, again, evaluate_device_poll) refl

pub evaluate_device_poll_absent :
    (h client_id : Text) (now : ℕ) (d : Tables)
    → device_row h d ≡ none
    → evaluate_device_poll h client_id now d ≡ (bare invalid, d)
unfolding evaluate_device_poll
evaluate_device_poll_absent h client_id now d absent = rw (absent, evaluate_device_poll) refl

-- Everything that an approval stands for.
pub record IsApproved (client_id : Text) (now : ℕ) (a : DeviceAuthorization) : Type 0 where
  pub of_client : a.client_id ≡ client_id
  pub in_time : now < a.expires_at
  pub not_denied : a.denied_at ≡ none
  pub not_used : a.used_at ≡ none
  pub on_pace : is_too_soon now a ≡ false
  pub decided : is_not_null a.approved_at ≡ true
  pub bound : is_not_null a.user_id ≡ true

pub poll_status-approved :
    (client_id : Text) (now : ℕ) (a : DeviceAuthorization)
    → poll_status client_id now a ≡ approved
    → IsApproved client_id now a
poll_status-approved client_id now a e = record {
  of_client = (text_eq_iff a.client_id client_id).0 (ground arith);
  in_time = ground arith;
  not_denied = ground arith;
  not_used = ground arith;
  on_pace = ground arith;
  decided = ground arith;
  bound = ground arith;
}

poll_answer-approved :
    (s : DevicePollStatus) (a : DeviceAuthorization) → (poll_answer s a).status ≡ s
poll_answer-approved approved a = refl
poll_answer-approved pending a = refl
poll_answer-approved slow_down a = refl
poll_answer-approved denied a = refl
poll_answer-approved expired a = refl
poll_answer-approved invalid a = refl

-- The status of a poll is that of the row with the hash.
pub evaluate_device_poll_status :
    (h client_id : Text) (now : ℕ) (d : Tables) (a : DeviceAuthorization)
    → UniqueIds d
    → device_row h d ≡ some a
    → (evaluate_device_poll h client_id now d).0.status ≡ poll_status client_id now a
evaluate_device_poll_status h client_id now d a u found =
    ap (λ r. r.0.status) (evaluate_device_poll_found h client_id now d a u found)
    ∙ poll_answer-approved (poll_status client_id now a) a

IsApproved-poll_status :
    (client_id : Text) (now : ℕ) (a : DeviceAuthorization)
    → IsApproved client_id now a
    → poll_status client_id now a ≡ approved
IsApproved-poll_status client_id now a ok =
    let same = (text_eq_iff a.client_id client_id).1 ok.of_client in
    let on_pace = ok.on_pace in
    let in_time = ok.in_time in
    let not_denied = ok.not_denied in
    let not_used = ok.not_used in let decided = ok.decided in let bound = ok.bound in ground arith

-- With unique keys, a poll of a stored device code is approved exactly when the code is the
-- caller's, before its expiry, neither denied nor used, not polled too soon, and approved with a
-- bound user; and then it hands out the stored row and writes nothing.
pub poll_approves_iff :
    (h client_id : Text) (now : ℕ) (d : Tables) (a : DeviceAuthorization)
    → UniqueIds d
    → device_row h d ≡ some a
    → ((evaluate_device_poll h client_id now d).0.status ≡ approved
        → IsApproved client_id now a
          × (evaluate_device_poll h client_id now d
              ≡ (record { status = approved; authorization = some a }, d)))
      × (IsApproved client_id now a → (evaluate_device_poll h client_id now d).0.status ≡ approved)
poll_approves_iff h client_id now d a u found =
    let status = evaluate_device_poll_status h client_id now d a u found in
    (
      λ is_approved.
          let s = sym status ∙ is_approved in
          (
            poll_status-approved client_id now a s,
            evaluate_device_poll_found h client_id now d a u found ∙ rw s refl,
          ),
      λ ok. status ∙ IsApproved-poll_status client_id now a ok,
    )
