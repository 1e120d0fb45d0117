-- ===== src/Tests/Devices.antt =====
-- A device code from its approval to its exchange.
use zero_auth_lite.Prelude.{
  ◌+◌, ◌*◌, ◌≤◌, ◌≡◌, ◌≢◌, refl, arith, true, false, none, some, [], ◌∷◌, Text, text, text_eq,
  seconds,
}
use zero_auth_lite.Table.Keyed
use zero_auth_lite.Database.{Outcome, ok, err, Connection, view, request}
use zero_auth_lite.Oauth2.Errors.{Error, protocol, authorization_pending}
use zero_auth_lite.Oauth2.Tables.{Tables, DeviceAuthorization}
use zero_auth_lite.Oauth2.Scopes.{
  is_space, split, parts, close_word, is_member, are_members, validate_requested_scope,
  scope_includes_openid, validate_oidc_scope_enabled,
}
use zero_auth_lite.Oauth2.Clients.{
  is_unchanged, lock_and_reload_token_client, organization_assignment_count_is_valid,
  client_allows_user_organization,
}
use zero_auth_lite.Oauth2.Identity.{load_eligible_oauth2_user_identity}
use zero_auth_lite.Oauth2.Issuance.{
  TokenResponse, create_access_token_payload, create_issued_tokens, session_principal_type,
  is_well_bound, issue_new_session,
}
use zero_auth_lite.Oauth2.Devices.Polling.{
  approved, pending, slow_down, device_row, evaluate_device_poll, polled,
}
use zero_auth_lite.Oauth2.Devices.Polling.Approval.{device_id, IsApproved, poll_approves_iff}
use zero_auth_lite.Oauth2.Devices.Polling.Pace.{
  is_on_pace, poll_each, count, poll_spacing, hasty_polls_slow_down,
}
use zero_auth_lite.Oauth2.Devices.Decisions.{
  UserPrincipalContext, is_pending, decided, allowed_interaction_client,
  decide_device_authorization,
}
use zero_auth_lite.Oauth2.Devices.Grant.{
  DeviceDraws, validate_initial_device_client, reload_and_validate_device_client,
  load_device_identity, consume_device_authorization, issue_device_tokens, handle_device_code_grant,
}
use zero_auth_lite.Oauth2.Devices.Lifecycle.{IsDeviceTable, DecisionStateValid, Succeeds}
use zero_auth_lite.Oauth2.Devices.Histories.{
  polls, decides, consumes, act, Run, here, next, Run-IsDeviceTable, Run-Succeeds,
}
use zero_auth_lite.Oauth2.Devices.Finality.{closed_never_approved, decided_once}
use zero_auth_lite.Oauth2.Devices.Handler.{IsGranted, Failed}
use zero_auth_lite.Oauth2.Devices.SingleUse.{
  UniqueDeviceCodes, device_exchange_establishes, device_exchange_failure_confined,
  device_code_single_use,
}
use zero_auth_lite.Oauth2.Devices.Approver.{AddsSession, device_tokens_for_approver}
use zero_auth_lite.Tests.Store.{platform, settings, app_auth, device, store}

abbrev code_hash : Text
code_hash = 35 ∷ text "d"

abbrev user_hash : Text
user_hash = 35 ∷ text "u"

abbrev ann : UserPrincipalContext
ann = record { user_id = 7; organization_id = 3 }

store-IsDeviceTable : IsDeviceTable store.device_authorizations
unfolding DecisionStateValid
store-IsDeviceTable = record { unique_ids = (refl, tt); valid = (tt, tt) }

stored : device_row code_hash store ≡ some device
unfolding text_eq
stored = refl

-- Two polls before the decision: the second is too early.
polls_early : (evaluate_device_poll code_hash (text "c") 100 store).0.status ≡ pending
unfolding text_eq evaluate_device_poll
polls_early = refl

second_on_pace :
    is_on_pace
      (evaluate_device_poll code_hash
        (text "c")
        5000100
        (evaluate_device_poll code_hash (text "c") 100 store).1).0.status
    ≡ true
unfolding text_eq evaluate_device_poll
second_on_pace = refl

poll_spacing_example :
    let (first, d') = evaluate_device_poll code_hash (text "c") 100 store in
    (first.status ≡ pending → 100 + seconds device.interval_seconds ≤ 5000100)
    × (first.status ≡ slow_down → 100 + seconds (device.interval_seconds + 5) ≤ 5000100)
poll_spacing_example =
    poll_spacing code_hash (text "c") (text "c") 100 5000100 store device (refl, tt) stored
      second_on_pace

abbrev polled_store : Tables
polled_store = record store { device_authorizations = polled 100 device ∷ [] }

polled_stored : device_row code_hash polled_store ≡ some (polled 100 device)
unfolding text_eq
polled_stored = refl

two_hasty_polls :
    ((evaluate_device_poll code_hash (text "c") 200 polled_store).0.status ≡ slow_down)
    × ((evaluate_device_poll code_hash
          (text "c")
          300
          (evaluate_device_poll code_hash (text "c") 200 polled_store).1).0.status
        ≡ slow_down)
unfolding text_eq evaluate_device_poll
two_hasty_polls = (refl, refl)

hasty_polls_slow_down_example :
    (a' : DeviceAuthorization) × (device_row code_hash
        (poll_each code_hash (text "c") (200 ∷ 300 ∷ []) polled_store)
      ≡ some a')
    × (a'.interval_seconds ≡ 5 + 5 * count (200 ∷ 300 ∷ []))
hasty_polls_slow_down_example =
    hasty_polls_slow_down code_hash (text "c") (200 ∷ 300 ∷ []) polled_store (polled 100 device)
      (refl, tt) polled_stored (two_hasty_polls.0, (two_hasty_polls.1, tt))

-- The user approves.
abbrev approved_store : Tables
approved_store = (decide_device_authorization ann user_hash true 1000 1001 store).1

approved_is :
    decide_device_authorization ann user_hash true 1000 1001 store ≡ (true, approved_store)
unfolding text_eq is_space split parts close_word is_member are_members validate_requested_scope
    organization_assignment_count_is_valid client_allows_user_organization
    allowed_interaction_client decide_device_authorization
approved_is = refl

decided_once_example :
    decide_device_authorization ann user_hash false 2000 2001
      (act (polls code_hash (text "c") 1500) approved_store)
    ≡ (false, act (polls code_hash (text "c") 1500) approved_store)
decided_once_example =
    decided_once ann ann user_hash true false 1000 1001 2000 2001 store approved_store _ approved_is
      (next (polls code_hash (text "c") 1500) here) (omega arith)

abbrev approved_device : DeviceAuthorization
approved_device = decided ann true 1001 device

approved_stored : device_row code_hash approved_store ≡ some approved_device
unfolding text_eq is_space split parts close_word is_member are_members validate_requested_scope
    organization_assignment_count_is_valid client_allows_user_organization
    allowed_interaction_client decide_device_authorization
approved_stored = refl

approved_store_unique : Keyed.UniqueKeys device_id approved_store.device_authorizations
unfolding text_eq is_space split parts close_word is_member are_members validate_requested_scope
    organization_assignment_count_is_valid client_allows_user_organization
    allowed_interaction_client decide_device_authorization
approved_store_unique = (refl, tt)

poll_approves_iff_example :
    ((evaluate_device_poll code_hash (text "c") 3000 approved_store).0.status ≡ approved
      → IsApproved (text "c") 3000 approved_device
        × (evaluate_device_poll code_hash (text "c") 3000 approved_store
            ≡ (record { status = approved; authorization = some approved_device }, approved_store)))
    × (IsApproved (text "c") 3000 approved_device
        → (evaluate_device_poll code_hash (text "c") 3000 approved_store).0.status ≡ approved)
poll_approves_iff_example =
    poll_approves_iff code_hash (text "c") 3000 approved_store approved_device approved_store_unique
      approved_stored

abbrev draws : DeviceDraws
draws = record {
  polled_at = 3000;
  consumed_at = 3001;
  access_jti = text "j5";
  issuance = record { issued_at = 3002; refresh_token = text "r5"; session_public_id = text "s5" };
}

abbrev response : TokenResponse
response = record {
  access_token = text "j5";
  refresh_token = some (text "r5");
  id_token = none;
  expires_in = 900;
}

approved_store-IsDeviceTable : IsDeviceTable approved_store.device_authorizations
unfolding text_eq is_space split parts close_word is_member are_members validate_requested_scope
    organization_assignment_count_is_valid client_allows_user_organization
    allowed_interaction_client decide_device_authorization DecisionStateValid
approved_store-IsDeviceTable = record { unique_ids = (refl, tt); valid = (tt, tt) }

abbrev exchanged : Outcome Error TokenResponse × Tables
exchanged =
    request (handle_device_code_grant platform settings (text "d") (some app_auth) draws)
      approved_store

exchanged_is :
    request
      (handle_device_code_grant platform settings (text "d") (some app_auth) draws)
      approved_store
    ≡ (ok response, exchanged.1)
unfolding text_eq is_space split parts close_word is_member are_members validate_requested_scope
    scope_includes_openid validate_oidc_scope_enabled is_unchanged lock_and_reload_token_client
    organization_assignment_count_is_valid client_allows_user_organization
    allowed_interaction_client load_eligible_oauth2_user_identity create_access_token_payload
    create_issued_tokens session_principal_type is_well_bound issue_new_session evaluate_device_poll
    decide_device_authorization validate_initial_device_client reload_and_validate_device_client
    load_device_identity consume_device_authorization issue_device_tokens handle_device_code_grant
exchanged_is = refl

abbrev two_steps : Tables
two_steps = act (consumes code_hash 3001) (act (polls code_hash (text "c") 2000) approved_store)

steps : Run approved_store two_steps
steps = next (consumes code_hash 3001) (next (polls code_hash (text "c") 2000) here)

Run-IsDeviceTable_example : IsDeviceTable two_steps.device_authorizations
Run-IsDeviceTable_example =
    Run-IsDeviceTable {d = approved_store} {d' = two_steps} approved_store-IsDeviceTable steps

Run-Succeeds_example :
    (a' : DeviceAuthorization) × (device_row code_hash two_steps ≡ some a')
    × Succeeds approved_device a'
Run-Succeeds_example =
    Run-Succeeds {d = approved_store} {d' = two_steps} code_hash approved_device approved_stored
      steps

-- A denied authorization.
abbrev denied_store : Tables
denied_store = record store { device_authorizations = decided ann false 1001 device ∷ [] }

denied_store-IsDeviceTable : IsDeviceTable denied_store.device_authorizations
unfolding DecisionStateValid
denied_store-IsDeviceTable = record { unique_ids = (refl, tt); valid = (tt, tt) }

denied_stored : device_row code_hash denied_store ≡ some (decided ann false 1001 device)
unfolding text_eq
denied_stored = refl

closed_never_approved_example :
    (evaluate_device_poll code_hash
      (text "c")
      4000
      (act (decides ann user_hash true 3000 3001) denied_store)).0.status
    ≢ approved
closed_never_approved_example =
    closed_never_approved code_hash (text "c") 4000 denied_store
      (act (decides ann user_hash true 3000 3001) denied_store) (decided ann false 1001 device)
      denied_store-IsDeviceTable denied_stored refl
      (next (decides ann user_hash true 3000 3001) here)

device_exchange_establishes_example :
    (c : Connection Tables) × IsGranted platform settings
      (text "d")
      draws
      approved_store
      (some app_auth)
      response
      c
    × (exchanged.1 ≡ view c)
device_exchange_establishes_example =
    device_exchange_establishes platform settings (text "d") (some app_auth) draws approved_store
      approved_store-IsDeviceTable response exchanged.1 exchanged_is

abbrev pending_store : Tables
pending_store = record store { device_authorizations = polled 3000 device ∷ [] }

pending_is :
    request (handle_device_code_grant platform settings (text "d") (some app_auth) draws) store
    ≡ (err (protocol authorization_pending), pending_store)
unfolding text_eq is_space split parts close_word is_member are_members validate_requested_scope
    scope_includes_openid validate_oidc_scope_enabled is_unchanged lock_and_reload_token_client
    organization_assignment_count_is_valid client_allows_user_organization
    allowed_interaction_client load_eligible_oauth2_user_identity create_access_token_payload
    create_issued_tokens session_principal_type is_well_bound issue_new_session evaluate_device_poll
    decide_device_authorization validate_initial_device_client reload_and_validate_device_client
    load_device_identity consume_device_authorization issue_device_tokens handle_device_code_grant
pending_is = refl

device_exchange_failure_confined_example :
    (c : Connection Tables) × Failed platform settings
      (text "d")
      draws
      store
      (some app_auth)
      (protocol authorization_pending)
      c
    × (pending_store ≡ c.committed)
device_exchange_failure_confined_example =
    device_exchange_failure_confined platform settings (text "d") (some app_auth) draws store
      store-IsDeviceTable (protocol authorization_pending) pending_store pending_is

one_code : UniqueDeviceCodes approved_store.device_authorizations
unfolding text_eq is_space split parts close_word is_member are_members validate_requested_scope
    organization_assignment_count_is_valid client_allows_user_organization
    allowed_interaction_client decide_device_authorization
one_code = (λ h e. refl, tt)

device_code_single_use_example :
    (request
      (handle_device_code_grant platform settings (text "d") (some app_auth) draws)
      (act (polls code_hash (text "c") 4000) exchanged.1)).0
    ≢ ok response
device_code_single_use_example =
    device_code_single_use platform settings (text "d") (some app_auth) (some app_auth) draws draws
      approved_store exchanged.1 (act (polls code_hash (text "c") 4000) exchanged.1) response
      response approved_store-IsDeviceTable one_code exchanged_is
      (next (polls code_hash (text "c") 4000) here)

pending_device : is_pending user_hash 1001 device ≡ true
unfolding text_eq
pending_device = refl

device_tokens_for_approver_example : AddsSession ann approved_store.sessions exchanged.1.sessions
device_tokens_for_approver_example =
    device_tokens_for_approver platform settings (text "d") user_hash ann 1000 1001 (some app_auth)
      draws store approved_store approved_store exchanged.1 device response store-IsDeviceTable
      stored pending_device approved_is here exchanged_is
