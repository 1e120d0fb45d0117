-- ===== src/Oauth2/Devices/Exchange.antt =====
-- What a device code exchange answers and commits.
use zero_auth_lite.Prelude.{
  ℕ, ◌≡◌, ap, refl, subst, true, false, ◌&&◌, Option, none, some, Text, is_not_null, inl, inr,
  Bool-cases,
}
use zero_auth_lite.Table.{find_where}
use zero_auth_lite.Database.{ok, Connection, view, fresh, ◌>>=◌, ◌>>◌, raise_if, pure}
use zero_auth_lite.Database.Laws.{Ends, Ends-bind}
use zero_auth_lite.Oauth2.Errors.{OAuth2GrantType}
use zero_auth_lite.Oauth2.Tables.{Tables, Flow, OAuth2Client, DeviceAuthorization, ask}
use zero_auth_lite.Oauth2.Settings.{OAuth2Settings, Platform}
use zero_auth_lite.Oauth2.Scopes.{validate_requested_scope, validate_oidc_scope_enabled}
use zero_auth_lite.Oauth2.Clients.{
  ClientAuth, client_row, is_unchanged, client_allows_grant, client_allows_user_organization,
  lock_and_reload_token_client,
}
use zero_auth_lite.Oauth2.Identity.{Identity, load_eligible_oauth2_user_identity}
use zero_auth_lite.Oauth2.Issuance.{IssuedTokens, TokenResponse, issue_new_session, build_response}
use zero_auth_lite.Oauth2.Issuance.Sessions.{IsIssued, issue_new_session-Ends}
use zero_auth_lite.Oauth2.Refresh.Steps.{lock_and_reload-Ends}
use zero_auth_lite.Oauth2.Flows.{Untouched, Reads, ask-Ends}
use zero_auth_lite.Oauth2.Devices.Polling.{}
use zero_auth_lite.Oauth2.Devices.Grant.{
  DeviceDraws, reload_and_validate_device_client, load_device_identity, is_consumable, mark_used,
  consume_device_authorization, validate_reloaded, admit_identity, device_session,
  issue_device_tokens, exchange_device,
}

-- The client that may exchange a device code: stored, unchanged, and within its policy.
pub record IsValidated (auth : ClientAuth) (a : DeviceAuthorization) (d : Tables)
    (client : OAuth2Client) : Type 0 where
  pub stored : client_row auth.client.client_id d ≡ some client
  pub unchanged : is_unchanged auth client ≡ true
  pub grant : client_allows_grant client OAuth2GrantType.device_code ≡ true
  pub scope :
      (validate_requested_scope a.scope client.scopes && validate_oidc_scope_enabled a.scope false)
      ≡ true

validate_reloaded-Ends :
    (auth : ClientAuth) (a : DeviceAuthorization) (d : Tables) (c : Connection Tables)
    (current : ClientAuth)
    → Reads d c
    → client_row auth.client.client_id d ≡ some current.client
    → is_unchanged auth current.client ≡ true
    → Ends
        (λ client c'. Reads d c' × IsValidated auth a d client)
        (Untouched d)
        (validate_reloaded a (some current) c)
validate_reloaded-Ends auth a d c current r stored same =
    elim (Bool-cases (client_allows_grant current.client OAuth2GrantType.device_code)) [
      | inl grant ↦
          elim (Bool-cases (
            validate_requested_scope a.scope current.client.scopes
            && validate_oidc_scope_enabled a.scope false)) [
              | inl scope ↦
                  rw (grant, scope, validate_reloaded)
                    (r, record { stored = stored; unchanged = same; grant = grant; scope = scope })
              | inr beyond ↦ rw (grant, beyond, validate_reloaded) r.committed
            ]
      | inr other ↦ rw (other, validate_reloaded) r.committed
    ]

reload-Ends :
    (auth : ClientAuth) (a : DeviceAuthorization) (d : Tables)
    → Ends
        (λ client c. Reads d c × IsValidated auth a d client)
        (Untouched d)
        (reload_and_validate_device_client auth a (fresh d))
unfolding reload_and_validate_device_client
reload-Ends auth a d =
    Ends-bind _ (λ client c. Reads d c × IsValidated auth a d client) (Untouched d)
      (lock_and_reload_token_client (some auth)) (validate_reloaded a) (fresh d)
      (lock_and_reload-Ends auth (fresh d) d (record { committed = refl; reads = refl }))
      λ current c (r, (stored, at_stored, same, is_current)). rw is_current (
        validate_reloaded-Ends auth a d c (record { client = stored; method = auth.method }) r
          at_stored same)

-- The identity is the loader's for the user who decided, in an organization that the client allows.
pub record IsAdmitted (a : DeviceAuthorization) (client : OAuth2Client) (d : Tables)
    (identity : Identity) : Type 0 where
  pub loaded : load_eligible_oauth2_user_identity a.user_id a.organization_id d ≡ ok (some identity)
  pub allowed : client_allows_user_organization client identity.organization.id d ≡ true

admit_identity-Ends :
    (a : DeviceAuthorization) (client : OAuth2Client) (d : Tables) (c : Connection Tables)
    (found : Option Identity)
    → Reads d c
    → load_eligible_oauth2_user_identity a.user_id a.organization_id d ≡ ok found
    → Ends
        (λ identity c'. Reads d c' × IsAdmitted a client d identity)
        (Untouched d)
        (admit_identity client found c)
admit_identity-Ends a client d c none r l = r.committed
admit_identity-Ends a client d c (some identity) r l =
    elim (Bool-cases (client_allows_user_organization client identity.organization.id (view c))) [
      | inl t ↦ rw (t, admit_identity) (r, record { loaded = l; allowed = rw r.reads at t })
      | inr f ↦ rw (f, admit_identity) r.committed
    ]

load_device_identity-Ends :
    (a : DeviceAuthorization) (client : OAuth2Client) (d : Tables) (c : Connection Tables)
    → Reads d c
    → Ends
        (λ identity c'. Reads d c' × IsAdmitted a client d identity)
        (Untouched d)
        (load_device_identity client a c)
unfolding load_device_identity
load_device_identity-Ends a client d c r =
    Ends-bind
      (λ found c'.
        (c' ≡ c)
        × (load_eligible_oauth2_user_identity a.user_id a.organization_id (view c) ≡ ok found))
      (λ identity c'. Reads d c' × IsAdmitted a client d identity) (Untouched d)
      (ask (load_eligible_oauth2_user_identity a.user_id a.organization_id)) (admit_identity client)
      c (ask-Ends (load_eligible_oauth2_user_identity a.user_id a.organization_id) d c r.committed)
      λ found c' (same, l). rw same (admit_identity-Ends a client d c found r (rw r.reads at l))

consume-Ends :
    (h : Text) (now : ℕ) (d : Tables) (c : Connection Tables)
    → Reads d c
    → Ends
        (λ (u : Unit {0}) c'.
          (c'.committed ≡ d)
          × (is_not_null (find_where (is_consumable h now) d.device_authorizations) ≡ true)
          × (view c' ≡ (mark_used h now d).1))
        (Untouched d)
        (consume_device_authorization h now c)
unfolding consume_device_authorization
consume-Ends h now d c r =
    elim (Bool-cases
      (is_not_null (find_where (is_consumable h now) (view c).device_authorizations))) [
        | inl t ↦
            rw (t, raise_if)
              (r.committed, rw r.reads at t, ap (λ (x : Tables). (mark_used h now x).1) r.reads)
        | inr f ↦ rw (f, raise_if) r.committed
      ]

-- Everything that an exchange that answers with tokens has established, before its commit.
pub record IsExchanged (p : Platform) (settings : OAuth2Settings) (h : Text) (draws : DeviceDraws)
    (auth : ClientAuth) (a : DeviceAuthorization) (d : Tables) (response : TokenResponse)
    (c : Connection Tables) : Type 0 where
  pub client : OAuth2Client
  pub identity : Identity
  pub tokens : IssuedTokens
  pub session_id : ℕ
  pub validated : IsValidated auth a d client
  pub admitted : IsAdmitted a client d identity
  pub consumed :
      is_not_null (find_where (is_consumable h draws.consumed_at) d.device_authorizations) ≡ true
  pub issued :
      IsIssued p settings
        (device_session settings client a identity draws.access_jti)
        draws.issuance
        (mark_used h draws.consumed_at d).1
        tokens
        session_id
        (view c)
  pub answered : response ≡ build_response tokens none

module _ (p : Platform) (settings : OAuth2Settings) (h : Text) (draws : DeviceDraws)
    (auth : ClientAuth) (a : DeviceAuthorization) (d : Tables) where
  issue-Ends :
      (client : OAuth2Client) (identity : Identity) (c : Connection Tables)
      → IsValidated auth a d client
      → IsAdmitted a client d identity
      → c.committed ≡ d
      → is_not_null (find_where (is_consumable h draws.consumed_at) d.device_authorizations) ≡ true
      → view c ≡ (mark_used h draws.consumed_at d).1
      → Ends
          (IsExchanged p settings h draws auth a d)
          (Untouched d)
          (issue_device_tokens p settings client a identity draws c)
  unfolding issue_device_tokens
  issue-Ends client identity c v m kept consumed marked =
      Ends-bind
        (λ r c'.
          (c'.committed ≡ d)
          × IsIssued p settings (device_session settings client a identity draws.access_jti)
              draws.issuance (view c) r.0 r.1 (view c'))
        (IsExchanged p settings h draws auth a d) (Untouched d)
        (issue_new_session p settings (device_session settings client a identity draws.access_jti)
          draws.issuance)
        answer c
        (issue_new_session-Ends p settings
          (device_session settings client a identity draws.access_jti) draws.issuance d c kept)
        λ (tokens, id) c' (kept', i). record {
          client = client;
          identity = identity;
          tokens = tokens;
          session_id = id;
          validated = v;
          admitted = m;
          consumed = consumed;
          issued =
              subst
                (λ x.
                  IsIssued p settings (device_session settings client a identity draws.access_jti)
                    draws.issuance x tokens id (view c'))
                marked i;
          answered = refl;
        }
    where
      answer : IssuedTokens × ℕ → Flow TokenResponse
      answer (tokens, id) = pure (build_response tokens none)

  from_identity : OAuth2Client → Identity → Flow TokenResponse
  from_identity client identity =
      consume_device_authorization h draws.consumed_at
      >> issue_device_tokens p settings client a identity draws

  from_client : OAuth2Client → Flow TokenResponse
  from_client client = load_device_identity client a >>= from_identity client

  pub exchange_device-Ends :
      Ends
        (IsExchanged p settings h draws auth a d)
        (Untouched d)
        (exchange_device p settings auth h draws a (fresh d))
  unfolding from_client from_identity
  exchange_device-Ends =
      Ends-bind (λ client c. Reads d c × IsValidated auth a d client)
        (IsExchanged p settings h draws auth a d) (Untouched d)
        (reload_and_validate_device_client auth a) from_client (fresh d) (reload-Ends auth a d)
        λ client c (r, v).
          Ends-bind (λ identity c'. Reads d c' × IsAdmitted a client d identity)
            (IsExchanged p settings h draws auth a d) (Untouched d) (load_device_identity client a)
            (from_identity client) c (load_device_identity-Ends a client d c r)
            λ identity c' (r', m).
              Ends-bind
                (λ (u : Unit {0}) c''.
                  (c''.committed ≡ d)
                  × (is_not_null
                        (find_where (is_consumable h draws.consumed_at) d.device_authorizations)
                      ≡ true)
                  × (view c'' ≡ (mark_used h draws.consumed_at d).1))
                (IsExchanged p settings h draws auth a d) (Untouched d)
                (consume_device_authorization h draws.consumed_at)
                (λ _. issue_device_tokens p settings client a identity draws) c'
                (consume-Ends h draws.consumed_at d c' r')
                λ _ c'' (kept, consumed, marked).
                  issue-Ends client identity c'' v m kept consumed marked
