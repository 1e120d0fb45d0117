-- ===== src/Oauth2/Devices/Handler.antt =====
-- The whole device code grant.
use zero_auth_lite.Prelude.{
  ℕ, ◌≡◌, ◌∙◌, sym, ap, refl, subst, Option, none, some, arith, Text, inl, inr, Bool-cases,
  Option-cases,
}
use zero_auth_lite.Database.{Connection, fresh, ◌>>=◌, raise_if, independently}
use zero_auth_lite.Database.Laws.{Ends, Ends-bind, Ends-map}
use zero_auth_lite.Oauth2.Errors.{Error, OAuth2GrantType, database_busy}
use zero_auth_lite.Oauth2.Tables.{Tables, Flow, DeviceAuthorization}
use zero_auth_lite.Oauth2.Flows.{Untouched}
use zero_auth_lite.Oauth2.Settings.{OAuth2Settings, Platform, is_grant_enabled}
use zero_auth_lite.Oauth2.Clients.{ClientAuth}
use zero_auth_lite.Oauth2.Issuance.{TokenResponse}
use zero_auth_lite.Oauth2.Devices.Polling.{
  DevicePollStatus, DevicePollDecision, approved, pending, slow_down, denied, expired, invalid,
  device_row, evaluate_device_poll,
}
use zero_auth_lite.Oauth2.Devices.Polling.Approval.{
  UniqueIds, IsApproved, poll_approves_iff, evaluate_device_poll_absent,
}
use zero_auth_lite.Oauth2.Devices.Grant.{
  DeviceDraws, validate_initial_device_client, poll_result, exchange_device, device_hash,
  handle_device_code_grant,
}
use zero_auth_lite.Oauth2.Devices.Exchange.{IsExchanged, exchange_device-Ends}

validate_initial-Ends :
    (settings : OAuth2Settings) (auth : Option ClientAuth) (d : Tables)
    → Ends
        (λ caller c. (c ≡ fresh d) × (auth ≡ some caller))
        (Untouched d)
        (validate_initial_device_client settings auth (fresh d))
unfolding validate_initial_device_client
validate_initial-Ends settings auth d =
    elim (Bool-cases (is_grant_enabled settings OAuth2GrantType.device_code)) [
      | inr off ↦ rw (off, raise_if) refl
      | inl on ↦ elim (Option-cases auth) [
        | inl absent ↦ rw (on, absent, raise_if) refl
        | inr (caller, present) ↦ elim (Bool-cases caller.client.is_active) [
          | inl active ↦ rw (on, present, active, raise_if) (refl, refl)
          | inr inactive ↦ rw (on, present, inactive, raise_if) refl
        ]
      ]
    ]

status-Ends :
    (status : DevicePollStatus) (given : Option DeviceAuthorization) (c : Connection Tables)
    → Ends
        (λ a c'. (c' ≡ c) × (status ≡ approved) × (given ≡ some a))
        (λ e c'. c'.committed ≡ c.committed)
        (poll_result (record { status = status; authorization = given }) c)
status-Ends approved none c = refl
status-Ends approved (some a) c = (refl, refl, refl)
status-Ends pending given c = refl
status-Ends slow_down given c = refl
status-Ends denied given c = refl
status-Ends expired given c = refl
status-Ends invalid given c = refl

-- An approved poll, as the handler sees it.
approved_row :
    (h client_id : Text) (now : ℕ) (d : Tables) (a : DeviceAuthorization)
    → UniqueIds d
    → (evaluate_device_poll h client_id now d).0.status ≡ approved
    → (evaluate_device_poll h client_id now d).0.authorization ≡ some a
    → (device_row h d ≡ some a)
      × IsApproved client_id now a
      × ((evaluate_device_poll h client_id now d).1 ≡ d)
approved_row h client_id now d a u s given = elim (Option-cases (device_row h d)) [
  | inl absent ↦
      let gone = evaluate_device_poll_absent h client_id now d absent in absurd (ground arith)
  | inr (b, found) ↦
      let (fine, whole) = (poll_approves_iff h client_id now d b u found).0 s in
      let same = sym (ap (λ r. r.0.authorization) whole) ∙ given in
      (found ∙ same, subst (IsApproved client_id now) (some_inj same) fine, ap (λ r. r.1) whole)
]
  where
    some_inj : {x y : DeviceAuthorization} → (some x ≡ some y) → x ≡ y
    some_inj e = cc

module _ (p : Platform) (settings : OAuth2Settings) (device_code : Text) (draws : DeviceDraws)
    (d : Tables) where
  abbrev hash : Text
  hash = device_hash p settings device_code

  -- What an exchange that answers with tokens has found and done: the stored authorization of the
  -- code, approved for the caller's client at the time of the poll, and the rest of `IsExchanged`.
  pub record IsGranted (auth : Option ClientAuth) (response : TokenResponse) (c : Connection Tables)
      : Type 0 where
    pub caller : ClientAuth
    pub authorization : DeviceAuthorization
    pub authenticated : auth ≡ some caller
    pub stored : device_row hash d ≡ some authorization
    pub approval : IsApproved caller.client.client_id draws.polled_at authorization
    pub exchanged : IsExchanged p settings hash draws caller authorization d response c

  -- The tables that a failed exchange leaves committed: the old ones, or those after its poll.
  pub data Failed (auth : Option ClientAuth) (e : Error) (c : Connection Tables) : Type 0 where
    untouched : c.committed ≡ d → Failed auth e c
    polled_only :
        (caller : ClientAuth)
        → auth ≡ some caller
        → c.committed ≡ (evaluate_device_poll hash caller.client.client_id draws.polled_at d).1
        → Failed auth e c

  from_caller-Ends :
      (caller : ClientAuth)
      → UniqueIds d
      → Ends (IsGranted (some caller)) (Failed (some caller)) (
          (independently database_busy
                (evaluate_device_poll hash caller.client.client_id draws.polled_at)
              >>= λ decision. poll_result decision >>= exchange_device p settings caller hash draws)
            (fresh d))
  from_caller-Ends caller u =
      Ends-bind
        (λ a c.
          (c ≡ fresh after) × (decision.status ≡ approved) × (decision.authorization ≡ some a))
        (IsGranted (some caller)) (Failed (some caller)) (poll_result decision)
        (exchange_device p settings caller hash draws) (fresh after)
        (Ends-map _ _ (λ e c. c.committed ≡ after) (Failed (some caller))
          (poll_result decision (fresh after)) (λ _ _ h. h) (λ e c k. polled_only caller refl k)
          (status-Ends decision.status decision.authorization (fresh after)))
        λ a c (same, s, given).
          let (stored, approval, unchanged) =
            approved_row hash caller.client.client_id draws.polled_at d a u s given in
          rw (same, unchanged)
            (Ends-map _ (IsGranted (some caller)) (Untouched d) (Failed (some caller))
              (exchange_device p settings caller hash draws a (fresh d))
              (λ response c' x. record {
                caller = caller;
                authorization = a;
                authenticated = refl;
                stored = stored;
                approval = approval;
                exchanged = x;
              })
              (λ _ _ k. untouched k) (exchange_device-Ends p settings hash draws caller a d))
    where
      decision : DevicePollDecision
      decision = (evaluate_device_poll hash caller.client.client_id draws.polled_at d).0

      after : Tables
      after = (evaluate_device_poll hash caller.client.client_id draws.polled_at d).1

  pub handle-Ends :
      (auth : Option ClientAuth)
      → UniqueIds d
      → Ends
          (IsGranted auth)
          (Failed auth)
          (handle_device_code_grant p settings device_code auth draws (fresh d))
  unfolding handle_device_code_grant
  handle-Ends auth u =
      Ends-bind (λ caller c. (c ≡ fresh d) × (auth ≡ some caller)) (IsGranted auth) (Failed auth)
        (validate_initial_device_client settings auth) with_caller (fresh d)
        (Ends-map _ _ (Untouched d) (Failed auth)
          (validate_initial_device_client settings auth (fresh d)) (λ _ _ h. h)
          (λ _ _ k. untouched k) (validate_initial-Ends settings auth d))
        λ caller c (same, present). rw (same, present) (from_caller-Ends caller u)
    where
      with_caller : ClientAuth → Flow TokenResponse
      with_caller caller =
          independently database_busy
            (evaluate_device_poll hash caller.client.client_id draws.polled_at)
          >>= λ decision. poll_result decision >>= exchange_device p settings caller hash draws
