-- ===== src/Oauth2/Clients.antt =====
-- Client policy at issuance: `lock_and_reload_token_client` of `app/oauth2/clients/auth.py`,
-- `app/oauth2/clients/access.py`, `app/oauth2/clients/user_organization_authorization.py`, and
-- `client_allows_grant` and `should_issue_refresh_token` of `app/oauth2/validation.py`.
use zero_auth_lite.Prelude.{
  ℕ, Bool, true, false, not, ◌&&◌, ◌||◌, Option, none, some, Text, text_eq, leb, ◌==◌, is_null,
}
use zero_auth_lite.Table.{find_where, count_where}
use zero_auth_lite.Database.{pure, raise, raise_if, execute, ◌>>=◌, ◌>>◌}
use zero_auth_lite.Oauth2.Errors.{client_rejected, OAuth2GrantType, value}
use zero_auth_lite.Oauth2.Tables.{
  Tables, Flow, OAuth2Client, ClientUserOrganization, UserOrganizationAccess, unrestricted, single,
  selected,
}
use zero_auth_lite.Oauth2.Settings.{OAuth2Settings, is_grant_enabled}
use zero_auth_lite.Oauth2.Scopes.{is_member}

pub data AuthMethod : Type 0 where
  basic post public : AuthMethod

pub record ClientAuth : Type 0 where
  pub client : OAuth2Client
  pub method : AuthMethod

abbrev pub is_basic : AuthMethod → Bool
is_basic basic = true
is_basic _ = false

-- `method in {"basic", "post"}`
abbrev pub is_secret_method : AuthMethod → Bool
is_secret_method public = false
is_secret_method _ = true

abbrev pub bool_eq : Bool → Bool → Bool
bool_eq true b = b
bool_eq false b = not b

-- Equality of two optional texts in Python.
abbrev pub opt_text_eq : Option Text → Option Text → Bool
opt_text_eq none none = true
opt_text_eq (some a) (some b) = text_eq a b
opt_text_eq _ _ = false

abbrev pub client_allows_grant : OAuth2Client → OAuth2GrantType → Bool
client_allows_grant client grant_type = is_member (value grant_type) client.grant_types

abbrev pub should_issue_refresh_token : OAuth2Settings → Option OAuth2Client → Bool
should_issue_refresh_token settings none = is_grant_enabled settings OAuth2GrantType.refresh_token
should_issue_refresh_token settings (some client) =
    is_grant_enabled settings OAuth2GrantType.refresh_token
    && client_allows_grant client OAuth2GrantType.refresh_token

abbrev pub client_row : Text → Tables → Option OAuth2Client
client_row client_id d = find_where (λ r. text_eq r.client_id client_id) d.clients

-- The reloaded row stands for the client that authenticated.
unfoldable pub is_unchanged : ClientAuth → OAuth2Client → Bool
is_unchanged client_auth current =
    current.is_active
    && bool_eq current.is_confidential client_auth.client.is_confidential
    && (not (is_secret_method client_auth.method)
        || opt_text_eq current.client_secret client_auth.client.client_secret)

abbrev pub reloaded : ClientAuth → Option OAuth2Client → Flow (Option ClientAuth)
reloaded client_auth none = raise (client_rejected (is_basic client_auth.method))
reloaded client_auth (some current) =
    raise_if (not (is_unchanged client_auth current))
      (client_rejected (is_basic client_auth.method))
    >> pure (some (record { client = current; method = client_auth.method }))

-- The update that changes nothing takes the writer lock: from here on the request has a write.
unfoldable pub lock_and_reload_token_client : Option ClientAuth → Flow (Option ClientAuth)
lock_and_reload_token_client none = pure none
lock_and_reload_token_client (some client_auth) = do
  row ← execute (λ d. (client_row client_auth.client.client_id d, d))
  reloaded client_auth row

-- The modes of `OAuth2ClientUserOrganizationAccess`; `none` is a machine mode only.
unfoldable pub organization_assignment_count_is_valid : UserOrganizationAccess → ℕ → Bool
organization_assignment_count_is_valid unrestricted count = count == 0
organization_assignment_count_is_valid single count = count == 1
organization_assignment_count_is_valid selected count = leb 1 count

abbrev assignments_of : ℕ → ClientUserOrganization → Bool
assignments_of internal_id r = r.client_id == internal_id

abbrev is_unrestricted : UserOrganizationAccess → Bool
is_unrestricted unrestricted = true
is_unrestricted _ = false

abbrev has_assignment : ℕ → ℕ → Tables → Bool
has_assignment internal_id organization_id d = not (
    is_null (
      find_where (λ r. r.client_id == internal_id && r.organization_id == organization_id)
        d.client_user_organizations))

abbrev is_allowed_internal : OAuth2Client → ℕ → ℕ → Tables → Bool
is_allowed_internal client internal_id organization_id d =
    organization_assignment_count_is_valid client.user_organization_access
      (count_where (assignments_of internal_id) d.client_user_organizations)
    && (is_unrestricted client.user_organization_access
        || has_assignment internal_id organization_id d)

-- Without a stored client the subquery is NULL, no assignment matches, and the count is 0.
abbrev is_allowed_missing : OAuth2Client → Bool
is_allowed_missing client =
    organization_assignment_count_is_valid client.user_organization_access 0
    && is_unrestricted client.user_organization_access

-- `ensure_client_allows_user_organization`: false where it raises.
unfoldable pub client_allows_user_organization : OAuth2Client → ℕ → Tables → Bool
client_allows_user_organization client organization_id d = elim (client_row client.client_id d) [
  | none ↦ is_allowed_missing client
  | some stored ↦ is_allowed_internal client stored.id organization_id d
]
