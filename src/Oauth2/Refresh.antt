-- ===== src/Oauth2/Refresh.antt =====
-- `app/oauth2/tokens/refresh.py`: rotation of refresh tokens, with reuse detection.
pub mod Steps
pub mod Rotation
pub mod Handler
pub mod Reuse
pub mod Spent
pub mod SingleUse
use zero_auth_lite.Prelude.{
  ℕ, Bool, true, false, not, ◌&&◌, ◌||◌, Option, none, some, List, [], ◌∷◌, Text, text_eq, leb,
  ◌==◌, if◌then◌else◌, is_null, is_not_null, holds,
}
use zero_auth_lite.Table.{find_where, update_where, delete_where}
use zero_auth_lite.Database.{
  Action, Outcome, ok, err, Connection, view, pure, raise, raise_if, query, execute, independently,
  commit, or_raise, ◌>>=◌, ◌>>◌,
}
use zero_auth_lite.Oauth2.Errors.{
  Error, protocol, integrity_error, database_busy, invalid_grant, unsupported_grant_type,
  OAuth2GrantType,
}
use zero_auth_lite.Oauth2.Tables.{
  or_raise_outcome, Tables, Flow, ask, attempt, OAuth2Client, OAuth2Session, TokenState,
  RefreshTokenHistory,
}
use zero_auth_lite.Oauth2.Settings.{OAuth2Settings, Platform, hash_oauth2_token, is_grant_enabled}
use zero_auth_lite.Oauth2.Scopes.{validate_requested_scope, validate_oidc_scope_enabled}
use zero_auth_lite.Oauth2.Clients.{
  ClientAuth, lock_and_reload_token_client, client_allows_grant, client_allows_user_organization,
}
use zero_auth_lite.Oauth2.Identity.{Identity, load_eligible_oauth2_user_identity}
use zero_auth_lite.Oauth2.Issuance.{
  IssuedTokens, TokenResponse, create_access_token_payload, create_issued_tokens, build_response,
  repeats,
}

pub record TokenFamily : Type 0 where
  pub session : OAuth2Session
  pub token_state : TokenState

abbrev pub has_refresh_hash : Text → TokenState → Bool
has_refresh_hash refresh_hash t = holds (λ h. text_eq h refresh_hash) t.refresh_token_hash

abbrev pub session_row : ℕ → Tables → Option OAuth2Session
session_row id d = find_where (λ r. r.id == id) d.sessions

-- `ended_at = now` on a session that has not ended.
abbrev pub ended : ℕ → OAuth2Session → OAuth2Session
ended now r = record r { ended_at = some now }

abbrev pub end_session : ℕ → ℕ → Tables → Tables
end_session session_id now d = record d {
  sessions = update_where (λ r. r.id == session_id && is_null r.ended_at) (ended now) d.sessions;
}

abbrev pub delete_token_state : ℕ → Tables → Tables
delete_token_state session_id d = record d {
  token_states = delete_where (λ t. t.session_id == session_id) d.token_states;
}

-- `is_active` of a session.
abbrev pub is_active : OAuth2Session → Bool
is_active r = is_null r.ended_at

-- The values of `rotate_token_state`.
abbrev pub rotated_state :
    Platform → OAuth2Settings → IssuedTokens → Text → ℕ → TokenState → TokenState
rotated_state p settings tokens new_refresh_token new_refresh_expires_at t = record t {
  access_expires_at = tokens.access_expires_at;
  access_jti = tokens.access_jti;
  access_token_hash = hash_oauth2_token p tokens.access_token settings.token_hash_secret;
  refresh_expires_at = some new_refresh_expires_at;
  refresh_token_hash = some (hash_oauth2_token p new_refresh_token settings.token_hash_secret);
}

-- The compare-and-set test.
abbrev pub is_current_pair : ℕ → Text → TokenState → Bool
is_current_pair session_id refresh_hash t =
    t.session_id == session_id && has_refresh_hash refresh_hash t

-- True if a row was replaced; another session's unique values are not taken.
unfoldable pub rotate_token_state :
    Platform
    → OAuth2Settings
    → ℕ
    → Text
    → IssuedTokens
    → Text
    → ℕ
    → Tables
    → Outcome Error (Bool × Tables)
rotate_token_state p settings session_id refresh_hash tokens new_refresh_token new_expires_at d =
    elim (find_where (is_current_pair session_id refresh_hash) d.token_states) [
      | none ↦ ok (false, d)
      | some t ↦
          let t' = rotated_state p settings tokens new_refresh_token new_expires_at t in
          if is_not_null
            (find_where (λ o. not (o.session_id == session_id) && repeats t' o) d.token_states)
          then err integrity_error
          else ok (
            true,
            record d {
              token_states =
                  update_where (is_current_pair session_id refresh_hash)
                    (rotated_state p settings tokens new_refresh_token new_expires_at)
                    d.token_states;
            },
          )
    ]

abbrev pub history_row : Text → Tables → Option RefreshTokenHistory
history_row refresh_hash d = find_where (λ h. text_eq h.token_hash refresh_hash) d.refresh_history

abbrev pub token_state_of : ℕ → Tables → Option TokenState
token_state_of session_id d = find_where (λ t. t.session_id == session_id) d.token_states

-- The session that the joined select of `revoke_reused_refresh_family` finds.
abbrev pub reused_session : Text → Tables → Option ℕ
reused_session refresh_hash d = elim (history_row refresh_hash d) [
  | none ↦ none
  | some h ↦ elim (token_state_of h.session_id d) [
    | none ↦ none
    | some t ↦ elim (session_row t.session_id d) [ none ↦ none | some r ↦ some r.id ]
  ]
]

unfoldable pub revoke_reused_refresh_family : Text → ℕ → Tables → Tables
revoke_reused_refresh_family refresh_hash now d = elim (reused_session refresh_hash d) [
  | none ↦ d
  | some session_id ↦ delete_token_state session_id (end_session session_id now d)
]

-- The test of the delete in `expire_refresh_family`.
abbrev pub is_expired_pair : ℕ → Text → ℕ → TokenState → Bool
is_expired_pair session_id refresh_hash expired_at t =
    is_current_pair session_id refresh_hash t && holds (λ e. leb e expired_at) t.refresh_expires_at

unfoldable pub expire_refresh_family : ℕ → Text → ℕ → Tables → Tables
expire_refresh_family session_id refresh_hash expired_at d =
    elim (find_where (is_expired_pair session_id refresh_hash expired_at) d.token_states) [
      | none ↦ d
      | some deleted ↦ end_session deleted.session_id expired_at (record d {
        token_states =
            delete_where (is_expired_pair session_id refresh_hash expired_at) d.token_states;
      })
    ]

-- The clock and the random values of one request, in the order of their use.
pub record RefreshDraws : Type 0 where
  pub reused_at : ℕ
  pub checked_at : ℕ
  pub issued_at : ℕ
  pub access_jti : Text
  pub refresh_token : Text

-- The joined select of `_load_refresh_family`.
abbrev pub family_row : Text → Tables → Option TokenFamily
family_row refresh_hash d = elim (find_where (has_refresh_hash refresh_hash) d.token_states) [
  | none ↦ none
  | some t ↦ elim (session_row t.session_id d) [
    | none ↦ none
    | some r ↦ some (record { session = r; token_state = t })
  ]
]

unfoldable pub load_refresh_family : Text → ℕ → Flow TokenFamily
load_refresh_family refresh_hash now = do
  row ← query (family_row refresh_hash)
  elim row [
    | none ↦
        independently database_busy (λ d. (tt, revoke_reused_refresh_family refresh_hash now d))
        >> raise (protocol invalid_grant)
    | some family ↦ pure family
  ]

unfoldable pub require_unexpired_refresh_family : TokenFamily → Text → ℕ → Flow ℕ
require_unexpired_refresh_family family refresh_hash now =
    elim family.token_state.refresh_expires_at [
      | none ↦ raise (protocol invalid_grant)
      | some expires_at ↦
          if leb expires_at now
          then (independently database_busy
                (λ d. (tt, expire_refresh_family family.token_state.session_id refresh_hash now d))
              >> raise (protocol invalid_grant))
          else pure expires_at
    ]

-- The policy of the reloaded client, which the source checks in this order.
abbrev pub refresh_policy_holds : OAuth2Settings → OAuth2Session → OAuth2Client → Bool
refresh_policy_holds settings session client =
    text_eq client.client_id session.client_id
    && (client.is_active && client_allows_grant client OAuth2GrantType.refresh_token)
    && (validate_requested_scope session.scope client.scopes
        && validate_oidc_scope_enabled session.scope settings.oidc_enabled)
    && is_active session

abbrev commit_if : Bool → Flow (Unit {0})
commit_if true = commit
commit_if false = pure tt

abbrev require_policy : OAuth2Settings → TokenFamily → Option ClientAuth → Flow OAuth2Client
require_policy settings family none = raise (protocol invalid_grant)
require_policy settings family (some auth) =
    raise_if (not (refresh_policy_holds settings family.session auth.client))
      (protocol invalid_grant)
    >> pure auth.client

unfoldable pub validate_refresh_client :
    OAuth2Settings → Option ClientAuth → TokenFamily → Flow OAuth2Client
validate_refresh_client settings client_auth family = do
  commit_if (is_not_null client_auth)
  current ← lock_and_reload_token_client client_auth
  require_policy settings family current

abbrev require_identity : OAuth2Client → Option Identity → Flow Identity
require_identity client none = raise (protocol invalid_grant)
require_identity client (some identity) = do
  allowed ← query (client_allows_user_organization client identity.organization.id)
  raise_if (not allowed) (protocol invalid_grant)
  pure identity

-- A session without a user has no identity; the loader answers the same for it.
unfoldable pub load_refresh_identity : OAuth2Client → TokenFamily → Flow Identity
load_refresh_identity client family = do
  found ←
      ask (load_eligible_oauth2_user_identity family.session.user_id family.session.organization_id)
  require_identity client found

-- The insert into the history, whose key is the hash.
abbrev pub add_history : Text → ℕ → Tables → Outcome Error ((Unit {0}) × Tables)
add_history refresh_hash session_id d =
    if is_not_null (history_row refresh_hash d)
    then err integrity_error
    else ok (
      tt,
      record d {
        refresh_history =
            record { token_hash = refresh_hash; session_id = session_id } ∷ d.refresh_history;
      },
    )

abbrev rotate_with :
    Platform
    → OAuth2Settings
    → Text
    → TokenFamily
    → IssuedTokens
    → Option Text
    → Option ℕ
    → Flow TokenResponse
rotate_with p settings refresh_hash family tokens (some new_token) (some new_expires_at) = do
  rotated ← attempt (
      rotate_token_state p settings family.token_state.session_id refresh_hash tokens new_token
        new_expires_at)
  raise_if (not rotated) (protocol invalid_grant)
  attempt (add_history refresh_hash family.token_state.session_id)
  pure (build_response tokens none)
rotate_with p settings refresh_hash family tokens _ _ = raise (protocol invalid_grant)

unfoldable pub rotate_refresh_family :
    Platform
    → OAuth2Settings
    → Text
    → ℕ
    → TokenFamily
    → Identity
    → RefreshDraws
    → Flow TokenResponse
rotate_refresh_family p settings refresh_hash deadline family identity draws = do
  tokens ← or_raise_outcome (
      create_issued_tokens p settings
        (create_access_token_payload identity.user.public_id identity.organization.public_id
          settings.access_token_audience family.session.client_id family.session.scope
          draws.access_jti)
        true (some deadline) draws.issued_at draws.refresh_token)
  rotate_with p settings refresh_hash family tokens tokens.refresh_token tokens.refresh_expires_at

-- `request.refresh_token` and `request.scope`.
pub record RefreshTokenGrantRequest : Type 0 where
  pub refresh_token : Text
  pub scope : Option Text

abbrev pub refresh_hash_of : Platform → OAuth2Settings → RefreshTokenGrantRequest → Text
refresh_hash_of p settings req = hash_oauth2_token p req.refresh_token settings.token_hash_secret

unfoldable pub handle_refresh_token_grant :
    Platform
    → OAuth2Settings
    → RefreshTokenGrantRequest
    → Option ClientAuth
    → RefreshDraws
    → Flow TokenResponse
handle_refresh_token_grant p settings req client_auth draws = do
  raise_if (not (is_grant_enabled settings OAuth2GrantType.refresh_token))
      (protocol unsupported_grant_type)
  family ← load_refresh_family (refresh_hash_of p settings req) draws.reused_at
  raise_if (is_not_null req.scope) (protocol invalid_grant)
  deadline ←
      require_unexpired_refresh_family family (refresh_hash_of p settings req) draws.checked_at
  client ← validate_refresh_client settings client_auth family
  identity ← load_refresh_identity client family
  rotate_refresh_family p settings (refresh_hash_of p settings req) deadline family identity draws
