-- ===== src/Oauth2/Devices/Histories.antt =====
-- Interleavings of the transactions on device authorizations.
use zero_auth_lite.Prelude.{
  ℕ, ◌≡◌, ◌∙◌, sym, ap, subst, Bool, some, List, Text, ◌==◌, inl, inr, Option-cases,
}
use zero_auth_lite.Table.{find_where, update_where}
use zero_auth_lite.Oauth2.Tables.{Tables, DeviceAuthorization}
use zero_auth_lite.Oauth2.Devices.Polling.{
  DevicePollStatus, approved, pending, slow_down, denied, expired, invalid, has_device_code,
  device_row, poll_status, poll_write, evaluate_device_poll,
}
use zero_auth_lite.Oauth2.Devices.Polling.Approval.{}
use zero_auth_lite.Oauth2.Devices.Decisions.{
  UserPrincipalContext, pending_authorization, allowed_interaction_client,
  decide_device_authorization,
}
use zero_auth_lite.Oauth2.Devices.Grant.{mark_used}
use zero_auth_lite.Oauth2.Devices.Lifecycle.{
  IsDeviceTable, Succeeds, Succeeds-refl, Succeeds-trans, Allowed, update-IsDeviceTable,
  update-Succeeds, slowed-Allowed, polled-Allowed, decided-Allowed, used-Allowed,
}

-- A transaction on device authorizations.
pub data Action : Type 0 where
  polls : Text → Text → ℕ → Action
  decides : UserPrincipalContext → Text → Bool → ℕ → ℕ → Action
  consumes : Text → ℕ → Action

unfoldable pub act : Action → Tables → Tables
act (polls h client_id now) d = (evaluate_device_poll h client_id now d).1
act (decides ctx h approve read_at decided_at) d =
    (decide_device_authorization ctx h approve read_at decided_at d).1
act (consumes h now) d = (mark_used h now d).1

-- An interleaving, in which every other table may change at any time.
pub data Run (d : Tables) : Tables → Type 0 where
  here : Run d d
  next : {d' : Tables} (a : Action) → Run d d' → Run d (act a d')
  elsewhere :
      {d' : Tables} (d'' : Tables)
      → d''.device_authorizations ≡ d'.device_authorizations
      → Run d d'
      → Run d d''

-- What every transaction does to the table: nothing, or one of the allowed updates.
pub data Effect (rows : List DeviceAuthorization) : List DeviceAuthorization → Type 0 where
  nothing : Effect rows rows
  updated :
      (p : DeviceAuthorization → Bool) (f : DeviceAuthorization → DeviceAuthorization)
      → Allowed p f
      → Effect rows (update_where p f rows)

poll_write-Effect :
    (s : DevicePollStatus) (h : Text) (now : ℕ) (rows : List DeviceAuthorization)
    → Effect rows (poll_write s h now rows)
poll_write-Effect approved h now rows = nothing
poll_write-Effect pending h now rows = updated _ _ (polled-Allowed h now)
poll_write-Effect slow_down h now rows = updated _ _ (slowed-Allowed h now)
poll_write-Effect denied h now rows = nothing
poll_write-Effect expired h now rows = nothing
poll_write-Effect invalid h now rows = nothing

evaluate_device_poll-Effect :
    (h client_id : Text) (now : ℕ) (d : Tables)
    → Effect d.device_authorizations
        (evaluate_device_poll h client_id now d).1.device_authorizations
unfolding evaluate_device_poll
evaluate_device_poll-Effect h client_id now d = elim (Option-cases (device_row h d)) [
  | inl absent ↦ rw (absent, evaluate_device_poll) nothing
  | inr (locked, found) ↦
      elim (Option-cases (find_where (λ a. a.id == locked.id) d.device_authorizations)) [
        | inl absent ↦ rw (found, absent, evaluate_device_poll) nothing
        | inr (a, again) ↦
            rw (found, again, evaluate_device_poll)
              (poll_write-Effect (poll_status client_id now a) h now d.device_authorizations)
      ]
]

decide_device_authorization-Effect :
    (ctx : UserPrincipalContext) (h : Text) (approve : Bool) (read_at decided_at : ℕ) (d : Tables)
    → Effect d.device_authorizations
        (decide_device_authorization ctx h approve read_at decided_at d).1.device_authorizations
unfolding decide_device_authorization
decide_device_authorization-Effect ctx h approve read_at decided_at d =
    elim (Option-cases (pending_authorization h read_at d)) [
      | inl absent ↦ rw (absent, decide_device_authorization) nothing
      | inr (a, found) ↦ elim (Option-cases (allowed_interaction_client a ctx d)) [
        | inl refused ↦ rw (found, refused, decide_device_authorization) nothing
        | inr (client, allowed) ↦
            rw (found, allowed, decide_device_authorization)
              (updated _ _ (decided-Allowed ctx h approve decided_at))
      ]
    ]

pub act-Effect :
    (a : Action) (d : Tables) → Effect d.device_authorizations (act a d).device_authorizations
unfolding act
act-Effect (polls h client_id now) d = evaluate_device_poll-Effect h client_id now d
act-Effect (decides ctx h approve read_at decided_at) d =
    decide_device_authorization-Effect ctx h approve read_at decided_at d
act-Effect (consumes h now) d = updated _ _ (used-Allowed h now)

Effect-IsDeviceTable :
    {rows rows' : List DeviceAuthorization}
    → Effect rows rows'
    → IsDeviceTable rows
    → IsDeviceTable rows'
Effect-IsDeviceTable nothing t = t
Effect-IsDeviceTable {rows = rows} (updated p f ok) t = update-IsDeviceTable p f ok rows t

-- Every interleaving keeps the keys unique and `decision_state_valid` on every row, so that no
-- transaction is refused by them.
pub Run-IsDeviceTable :
    {d d' : Tables}
    → IsDeviceTable d.device_authorizations
    → Run d d'
    → IsDeviceTable d'.device_authorizations
Run-IsDeviceTable t here = t
Run-IsDeviceTable t (next {d' = d'} a run) =
    Effect-IsDeviceTable (act-Effect a d') (Run-IsDeviceTable t run)
Run-IsDeviceTable t (elsewhere d'' same run) =
    subst (λ rows. IsDeviceTable rows) (sym same) (Run-IsDeviceTable t run)

Effect-Succeeds :
    {rows rows' : List DeviceAuthorization} (h : Text) (a : DeviceAuthorization)
    → Effect rows rows'
    → find_where (has_device_code h) rows ≡ some a
    → (a' : DeviceAuthorization) × (find_where (has_device_code h) rows' ≡ some a') × Succeeds a a'
Effect-Succeeds h a nothing found = (a, found, Succeeds-refl a)
Effect-Succeeds {rows = rows} h a (updated p f ok) found = update-Succeeds p f ok h rows a found

-- In every interleaving the authorization of a device code stays, bound to the same client, codes,
-- scope and expiry; a decision once made keeps its kind, time, user and organization; and a use
-- once recorded is not undone.
pub Run-Succeeds :
    {d d' : Tables} (h : Text) (a : DeviceAuthorization)
    → device_row h d ≡ some a
    → Run d d'
    → (a' : DeviceAuthorization) × (device_row h d' ≡ some a') × Succeeds a a'
Run-Succeeds h a found here = (a, found, Succeeds-refl a)
Run-Succeeds h a found (next {d' = d'} x run) =
    let (b, found', s) = Run-Succeeds h a found run in
    let (c, found'', s') = Effect-Succeeds h b (act-Effect x d') found' in
    (c, found'', Succeeds-trans a b c s s')
Run-Succeeds h a found (elsewhere {d' = d'} d'' same run) =
    let (b, found', s) = Run-Succeeds h a found run in
    (b, ap (λ rows. find_where (has_device_code h) rows) same ∙ found', s)
