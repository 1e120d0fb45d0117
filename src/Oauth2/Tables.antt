-- ===== src/Oauth2/Tables.antt =====
-- The tables that the token endpoint reads and writes: `app/db/models/oauth2_client.py`,
-- `oauth2_session.py`, `oauth2_token_state.py`, `oauth2_device_authorization.py`,
-- `oauth2_authorization_code.py`, `user.py`, `organization_membership.py` and `organization.py` of
-- `app/db/models`, without the columns that no modelled code reads. Integer keys are numbers, UUIDs
-- are their canonical texts, and times are microseconds.
use zero_auth_lite.Prelude.{ℕ, suc, Bool, Option, some, List, [], ◌∷◌, Text, leb, if◌then◌else◌}
use zero_auth_lite.Database.{Action, Outcome, ok, err, view}
use zero_auth_lite.Oauth2.Errors.{Error, OAuth2SessionGrantType}

pub data UserOrganizationAccess : Type 0 where
  unrestricted single selected : UserOrganizationAccess

pub record OAuth2Client : Type 0 where
  pub id : ℕ
  pub client_id : Text
  pub client_secret : Option Text
  pub name : Text
  pub grant_types : List Text
  pub scopes : List Text
  pub is_confidential : Bool
  pub requires_consent : Bool
  pub is_active : Bool
  pub user_organization_access : UserOrganizationAccess

pub record ClientUserOrganization : Type 0 where
  pub client_id : ℕ
  pub organization_id : ℕ

pub record OAuth2Session : Type 0 where
  pub id : ℕ
  pub public_id : Text
  pub user_id : Option ℕ
  pub organization_id : Option ℕ
  pub client_id : Text
  pub grant_type : OAuth2SessionGrantType
  pub scope : Text
  pub ended_at : Option ℕ

pub record TokenState : Type 0 where
  pub session_id : ℕ
  pub access_token_hash : Text
  pub access_jti : Text
  pub refresh_token_hash : Option Text
  pub access_expires_at : ℕ
  pub refresh_expires_at : Option ℕ

pub record RefreshTokenHistory : Type 0 where
  pub token_hash : Text
  pub session_id : ℕ

pub record DeviceAuthorization : Type 0 where
  pub id : ℕ
  pub device_code_hash : Text
  pub user_code_hash : Text
  pub client_id : Text
  pub scope : Text
  pub expires_at : ℕ
  pub interval_seconds : ℕ
  pub last_polled_at : Option ℕ
  pub approved_at : Option ℕ
  pub denied_at : Option ℕ
  pub used_at : Option ℕ
  pub user_id : Option ℕ
  pub organization_id : Option ℕ

pub record AuthorizationCode : Type 0 where
  pub id : ℕ
  pub code_hash : Text
  pub client_id : Text
  pub redirect_uri : Text
  pub scope : Text
  pub nonce : Option Text
  pub code_challenge : Text
  pub code_challenge_method : Text
  pub expires_at : ℕ
  pub authenticated_at : ℕ
  pub used_at : Option ℕ
  pub user_id : ℕ
  pub organization_id : ℕ

pub record User : Type 0 where
  pub id : ℕ
  pub public_id : Text
  pub first_name : Text
  pub last_name : Text
  pub is_active : Bool
  pub is_operator : Bool

pub data UserEmailStatus : Type 0 where
  current pending retired : UserEmailStatus

pub record UserEmail : Type 0 where
  pub id : ℕ
  pub user_id : ℕ
  pub email : Text
  pub status : UserEmailStatus
  pub verified_at : Option ℕ

pub data MembershipRole : Type 0 where
  member admin : MembershipRole

pub record Membership : Type 0 where
  pub user_id : ℕ
  pub organization_id : ℕ
  pub role : MembershipRole

pub record Organization : Type 0 where
  pub id : ℕ
  pub public_id : Text
  pub name : Text

pub record Tables : Type 0 where
  pub users : List User
  pub emails : List UserEmail
  pub memberships : List Membership
  pub organizations : List Organization
  pub clients : List OAuth2Client
  pub client_user_organizations : List ClientUserOrganization
  pub sessions : List OAuth2Session
  pub token_states : List TokenState
  pub refresh_history : List RefreshTokenHistory
  pub device_authorizations : List DeviceAuthorization
  pub authorization_codes : List AuthorizationCode

abbrev pub Flow : Type 0 → Type 0
Flow = Action Tables Error

-- A computation on what the request reads, which may raise.
abbrev pub ask : {A : Type 0} → (Tables → Outcome Error A) → Flow A
ask f c = (f (view c), c)

-- A write that a constraint may refuse.
abbrev pub attempt : {A : Type 0} → (Tables → Outcome Error (A × Tables)) → Flow A
attempt f c = elim (f (view c)) [
  | ok (a, d) ↦ (ok a, record { committed = c.committed; pending = some d })
  | err e ↦ (err e, c)
]

-- The value of a computation, or its exception raised.
abbrev pub or_raise_outcome : {A : Type 0} → Outcome Error A → Flow A
or_raise_outcome (ok a) c = (ok a, c)
or_raise_outcome (err e) c = (err e, c)

-- The key that SQLite gives a new row: one more than the greatest.
abbrev pub next_id {ℓ} : {A : Type ℓ} → (A → ℕ) → List A → ℕ
next_id key [] = 1
next_id key (r ∷ rs) = let n = next_id key rs in if leb n (key r) then suc (key r) else n
