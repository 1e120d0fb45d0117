-- ===== src/Oauth2/Devices/Finality.antt =====
-- A decision on a device authorization is made once, and a closed one is never approved again.
use zero_auth_lite.Prelude.{
  ℕ, ◌≤◌, ◌≡◌, ◌≢◌, sym, refl, subst, Bool, true, false, ◌||◌, none, some, List, [], ◌∷◌, arith,
  Text, is_not_null, inl, inr, Bool-cases, All,
}
use zero_auth_lite.Table.{find_where, update_where, All-update_where}
use zero_auth_lite.Oauth2.Tables.{Tables, DeviceAuthorization}
use zero_auth_lite.Oauth2.Devices.Polling.{approved, device_row, evaluate_device_poll}
use zero_auth_lite.Oauth2.Devices.Polling.Approval.{IsApproved, poll_approves_iff}
use zero_auth_lite.Oauth2.Devices.Decisions.{
  UserPrincipalContext, is_pending, decided, decide_device_authorization,
}
use zero_auth_lite.Oauth2.Devices.Lifecycle.{IsDeviceTable, is_decided, Succeeds}
use zero_auth_lite.Oauth2.Devices.Histories.{
  Run, here, next, elsewhere, Effect, nothing, updated, act-Effect, Run-IsDeviceTable, Run-Succeeds,
}

-- Denied by the user, or exchanged for tokens.
abbrev pub is_closed : DeviceAuthorization → Bool
is_closed a = is_not_null a.denied_at || is_not_null a.used_at

closed-not-IsApproved :
    (client_id : Text) (now : ℕ) (a a' : DeviceAuthorization)
    → is_closed a ≡ true
    → Succeeds a a'
    → ¬ IsApproved client_id now a'
closed-not-IsApproved client_id now a a' closed s ok = elim (Bool-cases (is_not_null a.denied_at)) [
  | inl denied ↦
      let (_, same, _, _) = s.decision_kept (ground arith) in
      let open_after = ok.not_denied in ground arith
  | inr not_denied ↦
      let same = s.use_kept (ground arith) in let unused_after = ok.not_used in ground arith
]

-- In a table that meets its constraints, a device authorization that was denied or used is never
-- again approved for a client, whatever polls, decisions and consumptions came in between.
pub closed_never_approved :
    (h client_id : Text) (now : ℕ) (d d' : Tables) (a : DeviceAuthorization)
    → IsDeviceTable d.device_authorizations
    → device_row h d ≡ some a
    → is_closed a ≡ true
    → Run d d'
    → (evaluate_device_poll h client_id now d').0.status ≢ approved
closed_never_approved h client_id now d d' a t found closed run e =
    let (a', found', s) = Run-Succeeds h a found run in
    let u = (Run-IsDeviceTable t run).unique_ids in
    closed-not-IsApproved client_id now a a' closed s
      ((poll_approves_iff h client_id now d' a' u found').0 e).0

-- No row is pending under a user code.
abbrev NonePending : Text → ℕ → List DeviceAuthorization → Type 0
NonePending h now rows = All (λ a. is_pending h now a ≡ false) rows

Succeeds-not_pending :
    (h : Text) (now : ℕ) (a a' : DeviceAuthorization)
    → Succeeds a a'
    → is_pending h now a ≡ false
    → is_pending h now a' ≡ false
Succeeds-not_pending h now a a' s e = elim (Bool-cases (is_decided a)) [
  | inl decided ↦
      let (same_approved, same_denied, _, _) = s.decision_kept decided in
      let same_user_code = s.same_user_code in ground arith
  | inr undecided ↦ elim (Bool-cases (is_not_null a.used_at)) [
    | inl used ↦ let same_used = s.use_kept used in ground arith
    | inr unused ↦
        let same_user_code = s.same_user_code in let same_expiry = s.same_expiry in ground arith
  ]
]

Effect-NonePending :
    (h : Text) (now : ℕ) {rows rows' : List DeviceAuthorization}
    → Effect rows rows'
    → NonePending h now rows
    → NonePending h now rows'
Effect-NonePending h now nothing n = n
Effect-NonePending h now {rows = rows} (updated p f ok) n =
    All-update_where (λ a. is_pending h now a ≡ false) p f rows
      (λ a e t. Succeeds-not_pending h now a (f a) (ok.succeeds a t) e) n

Run-NonePending :
    (h : Text) (now : ℕ) {d d' : Tables}
    → NonePending h now d.device_authorizations
    → Run d d'
    → NonePending h now d'.device_authorizations
Run-NonePending h now n here = n
Run-NonePending h now n (next {d' = d'} a run) =
    Effect-NonePending h now (act-Effect a d') (Run-NonePending h now n run)
Run-NonePending h now n (elsewhere d'' same run) =
    subst (NonePending h now) (sym same) (Run-NonePending h now n run)

decided-NonePending :
    (ctx : UserPrincipalContext) (h : Text) (approve : Bool) (t later : ℕ)
    (rows : List DeviceAuthorization)
    → t ≤ later
    → NonePending h later (update_where (is_pending h t) (decided ctx approve t) rows)
decided-NonePending ctx h approve t later [] le = tt
decided-NonePending ctx h approve t later (a ∷ rows) le = (
  elim (Bool-cases (is_pending h t a)) [
    | inl was ↦ rw was (ground arith)
    | inr was_not ↦ rw was_not (ground arith)
  ],
  decided-NonePending ctx h approve t later rows le,
)

NonePending-pending_authorization :
    (h : Text) (now : ℕ) (rows : List DeviceAuthorization)
    → NonePending h now rows
    → find_where (is_pending h now) rows ≡ none
NonePending-pending_authorization h now [] n = refl
NonePending-pending_authorization h now (a ∷ rows) n =
    rw n.0 (NonePending-pending_authorization h now rows n.1)

-- A decision that was made under a user code is the only one: whatever polls, decisions and
-- consumptions follow, an attempt to decide under the code that reads the clock no earlier, by
-- whatever user and either way, returns false and writes nothing.
pub decided_once :
    (ctx ctx' : UserPrincipalContext) (h : Text) (approve approve' : Bool)
    (read_at decided_at read_at' decided_at' : ℕ) (d d' d'' : Tables)
    → decide_device_authorization ctx h approve read_at decided_at d ≡ (true, d')
    → Run d' d''
    → decided_at ≤ read_at'
    → decide_device_authorization ctx' h approve' read_at' decided_at' d'' ≡ (false, d'')
unfolding decide_device_authorization
decided_once ctx ctx' h approve approve' read_at decided_at read_at' decided_at' d d' d'' e run le =
    let written = decided_tables e in
    let start =
      subst (λ rows. NonePending h read_at' rows) (sym written)
        (decided-NonePending ctx h approve decided_at read_at' d.device_authorizations le) in
    rw
      (
        NonePending-pending_authorization h read_at' d''.device_authorizations
            (Run-NonePending h read_at' start run),
        decide_device_authorization,
      )
      refl
  where
    decided_tables :
        decide_device_authorization ctx h approve read_at decided_at d ≡ (true, d')
        → d'.device_authorizations
          ≡ update_where
              (is_pending h decided_at)
              (decided ctx approve decided_at)
              d.device_authorizations
    decided_tables e = ground arith
