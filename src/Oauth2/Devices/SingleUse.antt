-- ===== src/Oauth2/Devices/SingleUse.antt =====
-- A device code is exchanged at most once, and for the user who approved it.
use zero_auth_lite.Prelude.{
  ℕ, ◌≡◌, ◌≢◌, ◌∙◌, sym, ap, refl, subst, true, Option, none, some, List, [], ◌∷◌, arith, Text,
  is_not_null, inl, inr, Bool-cases,
}
use zero_auth_lite.Table.{find_where}
use zero_auth_lite.Database.{ok, err, Connection, view, fresh, request}
use zero_auth_lite.Database.Laws.{Ends-ok, Ends-err}
use zero_auth_lite.Oauth2.Errors.{Error}
use zero_auth_lite.Oauth2.Tables.{Tables, DeviceAuthorization}
use zero_auth_lite.Oauth2.Settings.{OAuth2Settings, Platform}
use zero_auth_lite.Oauth2.Clients.{ClientAuth}
use zero_auth_lite.Oauth2.Issuance.{TokenResponse}
use zero_auth_lite.Oauth2.Devices.Polling.{has_device_code, device_row}
use zero_auth_lite.Oauth2.Devices.Polling.Approval.{poll_approves_iff}
use zero_auth_lite.Oauth2.Devices.Grant.{
  DeviceDraws, device_hash, handle_device_code_grant, is_consumable, used,
}
use zero_auth_lite.Oauth2.Devices.Lifecycle.{IsDeviceTable, used-Allowed, update-device_row}
use zero_auth_lite.Oauth2.Devices.Histories.{
  Run, here, next, elsewhere, act, consumes, Run-IsDeviceTable,
}
use zero_auth_lite.Oauth2.Devices.Finality.{is_closed, closed_never_approved}
use zero_auth_lite.Oauth2.Devices.Handler.{IsGranted, Failed, handle-Ends}

-- The unique constraint on the device code hashes.
abbrev pub UniqueDeviceCodes : List DeviceAuthorization → Type 0
UniqueDeviceCodes [] = Unit
UniqueDeviceCodes (a ∷ rows) =
    ((h : Text) → has_device_code h a ≡ true → find_where (has_device_code h) rows ≡ none)
    × UniqueDeviceCodes rows

module _ (p : Platform) (settings : OAuth2Settings) (device_code : Text) (auth : Option ClientAuth)
    (draws : DeviceDraws) (d : Tables) (t : IsDeviceTable d.device_authorizations) where
  -- An exchange that answers with tokens has found and done all of `IsGranted`: the authorization of
  -- the code is stored and approved for the caller's client; the client is stored unchanged and
  -- within its policy; the identity is eligible for the user and organization of the decision, which
  -- the client allows; the code is marked as used; and a session is issued with its tokens.
  pub device_exchange_establishes :
      (response : TokenResponse) (d' : Tables)
      → request (handle_device_code_grant p settings device_code auth draws) d ≡ (ok response, d')
      → (c : Connection Tables) × IsGranted p settings device_code draws d auth response c
        × (d' ≡ view c)
  device_exchange_establishes response d' e =
      let (c, h, k) =
        Ends-ok _ _ (handle_device_code_grant p settings device_code auth draws (fresh d)) response
          (handle-Ends p settings device_code draws d auth t.unique_ids) (ap (λ r. r.0) e) in
      (c, h, sym (ap (λ r. r.1) e) ∙ k)

  -- An exchange that raises leaves the tables as they were, or as its poll alone leaves them: a code
  -- is never marked as used, and no session is issued, by a failed exchange.
  pub device_exchange_failure_confined :
      (x : Error) (d' : Tables)
      → request (handle_device_code_grant p settings device_code auth draws) d ≡ (err x, d')
      → (c : Connection Tables) × Failed p settings device_code draws d auth x c
        × (d' ≡ c.committed)
  device_exchange_failure_confined x d' e =
      let (c, h, k) =
        Ends-err _ _ (handle_device_code_grant p settings device_code auth draws (fresh d)) x
          (handle-Ends p settings device_code draws d auth t.unique_ids) (ap (λ r. r.0) e) in
      (c, h, sym (ap (λ r. r.1) e) ∙ k)

none_consumable :
    (h : Text) (now : ℕ) (rows : List DeviceAuthorization)
    → find_where (has_device_code h) rows ≡ none
    → find_where (is_consumable h now) rows ≡ none
none_consumable h now [] e = refl
none_consumable h now (x ∷ rows) e = ground (arith, none_consumable h now rows)

-- With unique codes, the row that is consumed is the row of the code.
row_is_consumable :
    (h : Text) (now : ℕ) (rows : List DeviceAuthorization) (a : DeviceAuthorization)
    → UniqueDeviceCodes rows
    → find_where (has_device_code h) rows ≡ some a
    → is_not_null (find_where (is_consumable h now) rows) ≡ true
    → is_consumable h now a ≡ true
row_is_consumable h now [] a u found e = absurd (cc)
row_is_consumable h now (x ∷ rows) a u found e = elim (Bool-cases (has_device_code h x)) [
  | inl has ↦ let rest = none_consumable h now rows (u.0 h has) in ground arith
  | inr has_not ↦ let rest = row_is_consumable h now rows a u.1 in ground arith
]

module _ (p : Platform) (settings : OAuth2Settings) (device_code : Text) (auth : Option ClientAuth)
    (draws : DeviceDraws) (d : Tables) (t : IsDeviceTable d.device_authorizations)
    (response : TokenResponse) (c : Connection Tables)
    (g : IsGranted p settings device_code draws d auth response c) where
  abbrev h : Text
  h = device_hash p settings device_code

  -- The exchange, among the transactions on device authorizations.
  granted-Run : Run d (view c)
  unfolding act
  granted-Run =
      elsewhere {d' = act (consumes h draws.consumed_at) d} (view c)
        (ap (λ (x : Tables). x.device_authorizations) g.exchanged.issued.inserted)
        (next (consumes h draws.consumed_at) here)

  granted_row :
      UniqueDeviceCodes d.device_authorizations
      → device_row h (view c) ≡ some (used draws.consumed_at g.authorization)
  granted_row u =
      let consumable =
        row_is_consumable h draws.consumed_at d.device_authorizations g.authorization u g.stored
          g.exchanged.consumed in
      ap (λ (x : Tables). device_row h x) g.exchanged.issued.inserted
      ∙ update-device_row (is_consumable h draws.consumed_at) (used draws.consumed_at)
          (used-Allowed h draws.consumed_at) h d.device_authorizations g.authorization g.stored
      ∙ rw consumable refl

-- A device code is exchanged once. In a table that meets its constraints, after a request for the
-- code that answered with tokens, whatever polls, decisions and consumptions follow, no further
-- request with the code, by whatever caller, answers with tokens.
pub device_code_single_use :
    (p : Platform) (settings : OAuth2Settings) (device_code : Text) (auth auth' : Option ClientAuth)
    (draws draws' : DeviceDraws) (d d' d'' : Tables) (response response' : TokenResponse)
    → IsDeviceTable d.device_authorizations
    → UniqueDeviceCodes d.device_authorizations
    → request (handle_device_code_grant p settings device_code auth draws) d ≡ (ok response, d')
    → Run d' d''
    → (request (handle_device_code_grant p settings device_code auth' draws') d'').0 ≢ ok response'
device_code_single_use p settings device_code auth auth' draws draws' d d' d'' response response' t
      u e run e' =
    let (c, g, at_end) =
      device_exchange_establishes p settings device_code auth draws d t response d' e in
    let t' = Run-IsDeviceTable t (granted-Run p settings device_code auth draws d t response c g) in
    let run' = subst (λ (x : Tables). Run x d'') at_end run in
    let t'' = Run-IsDeviceTable t' run' in
    let (c', g', at_end') =
      device_exchange_establishes p settings device_code auth' draws' d'' t'' response' _ (
        ap
          (λ o. (o, (request (handle_device_code_grant p settings device_code auth' draws') d'').1))
          e') in
    closed_never_approved (device_hash p settings device_code) g'.caller.client.client_id
      draws'.polled_at (view c) d'' (used draws.consumed_at g.authorization) t'
      (granted_row p settings device_code auth draws d t response c g u) (closed g.authorization)
      run'
      ((poll_approves_iff (device_hash p settings device_code) g'.caller.client.client_id
          draws'.polled_at d'' g'.authorization t''.unique_ids g'.stored).1
        g'.approval)
  where
    closed : (a : DeviceAuthorization) → is_closed (used draws.consumed_at a) ≡ true
    closed a = elim (Bool-cases (is_not_null a.denied_at)) [
      | inl denied ↦ rw denied refl
      | inr not_denied ↦ rw not_denied refl
    ]
