-- ===== src/Oauth2/Devices/Decisions.antt =====
-- `decide_device_authorization` of `app/oauth2/devices/authorization.py`. The user code comes as the
-- hash of its normalized form; the two clock readings are arguments.
use zero_auth_lite.Prelude.{
  ℕ, Bool, false, not, ◌&&◌, Option, none, some, Text, text_eq, leb, if◌then◌else◌, is_null,
  is_not_null,
}
use zero_auth_lite.Table.{find_where, update_where}
use zero_auth_lite.Oauth2.Errors.{OAuth2GrantType}
use zero_auth_lite.Oauth2.Tables.{Tables, DeviceAuthorization, OAuth2Client}
use zero_auth_lite.Oauth2.Scopes.{validate_requested_scope}
use zero_auth_lite.Oauth2.Clients.{client_row, client_allows_grant, client_allows_user_organization}

-- What the code reads of the signed-in user.
pub record UserPrincipalContext : Type 0 where
  pub user_id : ℕ
  pub organization_id : ℕ

-- The shared conditions of `_pending_authorization` and of the update.
abbrev pub is_pending : Text → ℕ → DeviceAuthorization → Bool
is_pending code_hash now a =
    text_eq a.user_code_hash code_hash
    && (not (leb a.expires_at now)
        && (is_null a.approved_at && (is_null a.denied_at && is_null a.used_at)))

abbrev pub pending_authorization : Text → ℕ → Tables → Option DeviceAuthorization
pending_authorization code_hash now d =
    find_where (is_pending code_hash now) d.device_authorizations

abbrev is_allowed_client : DeviceAuthorization → UserPrincipalContext → Tables → OAuth2Client → Bool
is_allowed_client authorization user_ctx d client =
    (client.is_active && client_allows_grant client OAuth2GrantType.device_code)
    && (validate_requested_scope authorization.scope client.scopes
        && client_allows_user_organization client user_ctx.organization_id d)

unfoldable pub allowed_interaction_client :
    DeviceAuthorization → UserPrincipalContext → Tables → Option OAuth2Client
allowed_interaction_client authorization user_ctx d = elim (client_row authorization.client_id d) [
  | none ↦ none
  | some client ↦ if is_allowed_client authorization user_ctx d client then some client else none
]

-- The values of the update.
abbrev pub decided : UserPrincipalContext → Bool → ℕ → DeviceAuthorization → DeviceAuthorization
decided user_ctx approve now a = record a {
  user_id = some user_ctx.user_id;
  organization_id = some user_ctx.organization_id;
  approved_at = if approve then some now else none;
  denied_at = if approve then none else some now;
}

-- `rowcount` as a Boolean: whether the update found a row.
abbrev pub decide : UserPrincipalContext → Text → Bool → ℕ → Tables → Bool × Tables
decide user_ctx code_hash approve now d = (
  is_not_null (find_where (is_pending code_hash now) d.device_authorizations),
  record d {
    device_authorizations =
        update_where (is_pending code_hash now) (decided user_ctx approve now)
          d.device_authorizations;
  },
)

unfoldable pub decide_device_authorization :
    UserPrincipalContext → Text → Bool → ℕ → ℕ → Tables → Bool × Tables
decide_device_authorization user_ctx code_hash approve read_at decided_at d =
    elim (pending_authorization code_hash read_at d) [
      | none ↦ (false, d)
      | some authorization ↦ elim (allowed_interaction_client authorization user_ctx d) [
        | none ↦ (false, d)
        | some _ ↦ decide user_ctx code_hash approve decided_at d
      ]
    ]
