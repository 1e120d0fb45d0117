-- ===== src/Oauth2/Refresh/Steps.antt =====
-- What each step of the refresh handler returns, raises and leaves behind.
use zero_auth_lite.Prelude.{
  ℕ, ◌<◌, ◌≡◌, refl, true, Option, none, some, arith, Text, leb, holds, ◌⊎◌, inl, inr, Bool-cases,
  Option-cases,
}
use zero_auth_lite.Database.{ok, Connection, view, fresh}
use zero_auth_lite.Database.Laws.{Ends, Ends-bind}
use zero_auth_lite.Oauth2.Errors.{protocol, invalid_grant}
use zero_auth_lite.Oauth2.Tables.{Tables, OAuth2Client, ask}
use zero_auth_lite.Oauth2.Flows.{Untouched, Reads, ask-Ends}
use zero_auth_lite.Oauth2.Settings.{OAuth2Settings}
use zero_auth_lite.Oauth2.Clients.{
  ClientAuth, lock_and_reload_token_client, client_row, is_unchanged,
  client_allows_user_organization,
}
use zero_auth_lite.Oauth2.Identity.{Identity, load_eligible_oauth2_user_identity}
use zero_auth_lite.Oauth2.Refresh.{
  TokenFamily, family_row, revoke_reused_refresh_family, expire_refresh_family, load_refresh_family,
  require_unexpired_refresh_family, refresh_policy_holds, require_policy, validate_refresh_client,
  load_refresh_identity, require_identity,
}

pub load_refresh_family-Ends :
    (h : Text) (now : ℕ) (d : Tables)
    → Ends
        (λ family c. (c ≡ fresh d) × (family_row h d ≡ some family))
        (λ e c.
          (e ≡ protocol invalid_grant)
          × (family_row h d ≡ none)
          × (c.committed ≡ revoke_reused_refresh_family h now d))
        (load_refresh_family h now (fresh d))
unfolding load_refresh_family
load_refresh_family-Ends h now d = elim (Option-cases (family_row h d)) [
  | inl e ↦ rw (e, load_refresh_family) (refl, e, refl)
  | inr (family, e) ↦ rw (e, load_refresh_family) (refl, e)
]

pub require_unexpired-Ends :
    (family : TokenFamily) (h : Text) (now : ℕ) (d : Tables)
    → Ends
        (λ deadline c.
          (c ≡ fresh d)
          × (family.token_state.refresh_expires_at ≡ some deadline)
          × (now < deadline))
        (λ e c.
          (e ≡ protocol invalid_grant)
          × ((c.committed ≡ d)
              ⊎ ((c.committed ≡ expire_refresh_family family.token_state.session_id h now d)
                  × (holds (λ t. leb t now) family.token_state.refresh_expires_at ≡ true))))
        (require_unexpired_refresh_family family h now (fresh d))
unfolding require_unexpired_refresh_family
require_unexpired-Ends family h now d = elim (Option-cases family.token_state.refresh_expires_at) [
  | inl e ↦ rw (e, require_unexpired_refresh_family) (refl, inl refl)
  | inr (t, e) ↦ elim (Bool-cases (leb t now)) [
    | inl late ↦ rw (e, late, require_unexpired_refresh_family) (refl, inr (refl, ground arith))
    | inr early ↦ rw (e, early, require_unexpired_refresh_family) (refl, refl, ground arith)
  ]
]

-- The client of a reload is the stored one, unchanged since it authenticated.
pub lock_and_reload-Ends :
    (auth : ClientAuth) (c : Connection Tables) (d : Tables)
    → Reads d c
    → Ends
        (λ current c'.
          Reads d c'
          × ((stored : OAuth2Client) × (client_row auth.client.client_id d ≡ some stored)
              × (is_unchanged auth stored ≡ true)
              × (current ≡ some (record { client = stored; method = auth.method }))))
        (Untouched d)
        (lock_and_reload_token_client (some auth) c)
unfolding lock_and_reload_token_client
lock_and_reload-Ends auth c d r = elim (Option-cases (client_row auth.client.client_id (view c))) [
  | inl e ↦ rw (e, lock_and_reload_token_client) r.committed
  | inr (stored, e) ↦ elim (Bool-cases (is_unchanged auth stored)) [
    | inl same ↦
        rw (e, same, lock_and_reload_token_client)
          (
            record { committed = r.committed; reads = r.reads },
            (stored, rw r.reads at e, same, refl),
          )
    | inr other ↦ rw (e, other, lock_and_reload_token_client) r.committed
  ]
]

-- The client that may refresh a family: stored, unchanged, and within the policy.
pub record IsValidated (settings : OAuth2Settings) (auth : ClientAuth) (family : TokenFamily)
    (d : Tables) (client : OAuth2Client) : Type 0 where
  pub stored : client_row auth.client.client_id d ≡ some client
  pub unchanged : is_unchanged auth client ≡ true
  pub policy : refresh_policy_holds settings family.session client ≡ true

require_policy-Ends :
    (settings : OAuth2Settings) (family : TokenFamily) (auth current : ClientAuth) (d : Tables)
    (c : Connection Tables)
    → Reads d c
    → client_row auth.client.client_id d ≡ some current.client
    → is_unchanged auth current.client ≡ true
    → Ends
        (λ client c'. Reads d c' × IsValidated settings auth family d client)
        (Untouched d)
        (require_policy settings family (some current) c)
require_policy-Ends settings family auth current d c r stored same =
    elim (Bool-cases (refresh_policy_holds settings family.session current.client)) [
      | inl t ↦ rw (t, require_policy) (r, record { stored = stored; unchanged = same; policy = t })
      | inr f ↦ rw (f, require_policy) r.committed
    ]

pub validate_refresh_client-Ends :
    (settings : OAuth2Settings) (auth : ClientAuth) (family : TokenFamily) (d : Tables)
    → Ends
        (λ client c. Reads d c × IsValidated settings auth family d client)
        (Untouched d)
        (validate_refresh_client settings (some auth) family (fresh d))
unfolding validate_refresh_client
validate_refresh_client-Ends settings auth family d =
    Ends-bind _ (λ client c. Reads d c × IsValidated settings auth family d client) (Untouched d)
      (lock_and_reload_token_client (some auth)) (require_policy settings family) (fresh d)
      (lock_and_reload-Ends auth (fresh d) d (record { committed = refl; reads = refl }))
      λ current c (r, (stored, at_stored, same, is_current)). rw is_current (
        require_policy-Ends settings family auth (record { client = stored; method = auth.method })
          d c r at_stored same)

-- The identity is the loader's, and its organization is one that the client allows.
pub record IsAdmitted (family : TokenFamily) (client : OAuth2Client) (d : Tables)
    (identity : Identity) : Type 0 where
  pub loaded :
      load_eligible_oauth2_user_identity family.session.user_id family.session.organization_id d
      ≡ ok (some identity)
  pub allowed : client_allows_user_organization client identity.organization.id d ≡ true

require_identity-Ends :
    (family : TokenFamily) (client : OAuth2Client) (d : Tables) (c : Connection Tables)
    (found : Option Identity)
    → Reads d c
    → load_eligible_oauth2_user_identity family.session.user_id family.session.organization_id d
      ≡ ok found
    → Ends
        (λ identity c'. Reads d c' × IsAdmitted family client d identity)
        (Untouched d)
        (require_identity client found c)
require_identity-Ends family client d c none r l = r.committed
require_identity-Ends family client d c (some identity) r l =
    elim (Bool-cases (client_allows_user_organization client identity.organization.id (view c))) [
      | inl t ↦ rw (t, require_identity) (r, record { loaded = l; allowed = rw r.reads at t })
      | inr f ↦ rw (f, require_identity) r.committed
    ]

pub load_refresh_identity-Ends :
    (family : TokenFamily) (client : OAuth2Client) (d : Tables) (c : Connection Tables)
    → Reads d c
    → Ends
        (λ identity c'. Reads d c' × IsAdmitted family client d identity)
        (Untouched d)
        (load_refresh_identity client family c)
unfolding load_refresh_identity
load_refresh_identity-Ends family client d c r =
    Ends-bind
      (λ found c'.
        (c' ≡ c)
        × (load_eligible_oauth2_user_identity family.session.user_id family.session.organization_id
              (view c)
            ≡ ok found))
      (λ identity c'. Reads d c' × IsAdmitted family client d identity) (Untouched d)
      (ask
        (load_eligible_oauth2_user_identity family.session.user_id family.session.organization_id))
      (require_identity client) c
      (ask-Ends
        (load_eligible_oauth2_user_identity family.session.user_id family.session.organization_id) d
        c r.committed)
      λ found c' (same, l).
        rw same (require_identity-Ends family client d c found r (rw r.reads at l))
