-- ===== src/Oauth2/Devices/Approver.antt =====
-- Device tokens belong to the user who approved the code.
use zero_auth_lite.Prelude.{
  ℕ, ◌≡◌, ◌∙◌, sym, ap, refl, subst, Bool, true, Option, none, some, List, ◌∷◌, arith, Text,
}
use zero_auth_lite.Table.{find_where, update_where}
use zero_auth_lite.Database.{ok, Connection, view, request}
use zero_auth_lite.Oauth2.Tables.{Tables, DeviceAuthorization, OAuth2Session}
use zero_auth_lite.Oauth2.Settings.{OAuth2Settings, Platform}
use zero_auth_lite.Oauth2.Clients.{ClientAuth}
use zero_auth_lite.Oauth2.Issuance.{TokenResponse}
use zero_auth_lite.Oauth2.Identity.{
  load_identity-IsEligible, load_identity_user, load_eligible_oauth2_user_identity,
}
use zero_auth_lite.Oauth2.Devices.Polling.{has_device_code, device_row}
use zero_auth_lite.Oauth2.Devices.Decisions.{
  UserPrincipalContext, is_pending, decided, decide_device_authorization,
}
use zero_auth_lite.Oauth2.Devices.Grant.{DeviceDraws, device_hash, handle_device_code_grant}
use zero_auth_lite.Oauth2.Devices.Lifecycle.{IsDeviceTable, decided-Allowed, update-device_row}
use zero_auth_lite.Oauth2.Devices.Histories.{
  Run, here, next, act, decides, Run-IsDeviceTable, Run-Succeeds,
}
use zero_auth_lite.Oauth2.Devices.Handler.{IsGranted}
use zero_auth_lite.Oauth2.Devices.SingleUse.{device_exchange_establishes}

decided_row :
    (ctx : UserPrincipalContext) (h user_hash : Text) (approve : Bool) (read_at decided_at : ℕ)
    (d d' : Tables) (a : DeviceAuthorization)
    → device_row h d ≡ some a
    → is_pending user_hash decided_at a ≡ true
    → decide_device_authorization ctx user_hash approve read_at decided_at d ≡ (true, d')
    → device_row h d' ≡ some (decided ctx approve decided_at a)
unfolding decide_device_authorization
decided_row ctx h user_hash approve read_at decided_at d d' a found pending e =
    ap (λ rows. find_where (has_device_code h) rows) (decided_tables e)
    ∙ update-device_row (is_pending user_hash decided_at) (decided ctx approve decided_at)
        (decided-Allowed ctx user_hash approve decided_at) h d.device_authorizations a found
    ∙ rw pending refl
  where
    decided_tables :
        decide_device_authorization ctx user_hash approve read_at decided_at d ≡ (true, d')
        → d'.device_authorizations
          ≡ update_where
              (is_pending user_hash decided_at)
              (decided ctx approve decided_at)
              d.device_authorizations
    decided_tables e = ground arith

-- One session was added to the old ones, that of a user in an organization; the old ones are as they
-- were.
abbrev pub AddsSession : UserPrincipalContext → List OAuth2Session → List OAuth2Session → Type 0
AddsSession ctx old new =
    (s : OAuth2Session) × (new ≡ s ∷ old)
    × (s.user_id ≡ some ctx.user_id)
    × (s.organization_id ≡ some ctx.organization_id)

granted_for :
    (p : Platform) (settings : OAuth2Settings) (device_code : Text) (auth : Option ClientAuth)
    (draws : DeviceDraws) (d : Tables) (response : TokenResponse) (c : Connection Tables)
    (ctx : UserPrincipalContext) (g : IsGranted p settings device_code draws d auth response c)
    → g.authorization.user_id ≡ some ctx.user_id
    → g.authorization.organization_id ≡ some ctx.organization_id
    → AddsSession ctx d.sessions (view c).sessions
granted_for p settings device_code auth draws d response c ctx g same_user same_organization =
    let loaded =
      subst
        (λ u.
          load_eligible_oauth2_user_identity u (some ctx.organization_id) d
          ≡ ok (some g.exchanged.identity))
        same_user
        (subst
          (λ o.
            load_eligible_oauth2_user_identity g.authorization.user_id o d
            ≡ ok (some g.exchanged.identity))
          same_organization g.exchanged.admitted.loaded) in
    let user_is =
      load_identity_user ctx.user_id ctx.organization_id d g.exchanged.identity loaded in
    let eligible =
      load_identity-IsEligible ctx.user_id ctx.organization_id d g.exchanged.identity loaded in
    (
      _,
      ap (λ (x : Tables). x.sessions) g.exchanged.issued.inserted,
      ap (λ n. some n) user_is,
      ap (λ n. some n) eligible.in_organization,
    )

decide-IsDeviceTable :
    (ctx : UserPrincipalContext) (user_hash : Text) (approve : Bool) (read_at decided_at : ℕ)
    (d d' : Tables)
    → IsDeviceTable d.device_authorizations
    → decide_device_authorization ctx user_hash approve read_at decided_at d ≡ (true, d')
    → IsDeviceTable d'.device_authorizations
unfolding act
decide-IsDeviceTable ctx user_hash approve read_at decided_at d d' t decision =
    subst (λ (x : Tables). IsDeviceTable x.device_authorizations) (ap (λ r. r.1) decision)
      (Run-IsDeviceTable {d = d} t (next (decides ctx user_hash approve read_at decided_at) here))

-- After a user has approved a device code in a table that meets its constraints, whatever polls,
-- decisions and consumptions follow, a request for the code that answers with tokens has added
-- exactly one session, for that user in the organization of the approval; all sessions from before
-- the request are as they were.
pub device_tokens_for_approver :
    (p : Platform) (settings : OAuth2Settings) (device_code user_hash : Text)
    (ctx : UserPrincipalContext) (read_at decided_at : ℕ) (auth : Option ClientAuth)
    (draws : DeviceDraws) (d d' d'' d''' : Tables) (a : DeviceAuthorization)
    (response : TokenResponse)
    → IsDeviceTable d.device_authorizations
    → device_row (device_hash p settings device_code) d ≡ some a
    → is_pending user_hash decided_at a ≡ true
    → decide_device_authorization ctx user_hash true read_at decided_at d ≡ (true, d')
    → Run d' d''
    → request (handle_device_code_grant p settings device_code auth draws) d'' ≡ (ok response, d''')
    → AddsSession ctx d''.sessions d'''.sessions
device_tokens_for_approver p settings device_code user_hash ctx read_at decided_at auth draws d d'
      d'' d''' a response t found pending decision run e =
    let h = device_hash p settings device_code in
    let after_decision =
      decided_row ctx h user_hash true read_at decided_at d d' a found pending decision in
    let (a', found', s) = Run-Succeeds h (decided ctx true decided_at a) after_decision run in
    let t' = decide-IsDeviceTable ctx user_hash true read_at decided_at d d' t decision in
    let (c, g, at_end) =
      device_exchange_establishes p settings device_code auth draws d'' (Run-IsDeviceTable t' run)
        response d''' e in
    let same_row = sym g.stored ∙ found' in
    let (_, _, same_user, same_organization) = s.decision_kept refl in
    subst (λ (x : Tables). AddsSession ctx d''.sessions x.sessions) (sym at_end)
      (granted_for p settings device_code auth draws d'' response c ctx g
        (ap (λ (x : Option DeviceAuthorization). user_of x) same_row ∙ same_user)
        (ap (λ (x : Option DeviceAuthorization). organization_of x) same_row ∙ same_organization))
  where
    user_of : Option DeviceAuthorization → Option ℕ
    user_of none = none
    user_of (some x) = x.user_id

    organization_of : Option DeviceAuthorization → Option ℕ
    organization_of none = none
    organization_of (some x) = x.organization_id
