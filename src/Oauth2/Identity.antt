-- ===== src/Oauth2/Identity.antt =====
-- `load_eligible_oauth2_user_identity` of `app/oauth2/user_identity.py`, with `to_identity` of
-- `app/identity/mapping.py` and the email properties of `app/db/models/user.py`.
use zero_auth_lite.Prelude.{
  Option-cases, inl, inr, ℕ, Bool, true, false, ◌&&◌, Option, none, some, List, Text, ◌==◌,
  if◌then◌else◌, is_not_null, ◌≡◌, arith,
}
use zero_auth_lite.Table.{find_where}
use zero_auth_lite.Table.Keyed.{row_key}
use zero_auth_lite.Database.{Outcome, ok, err}
use zero_auth_lite.Oauth2.Errors.{Error, runtime_error}
use zero_auth_lite.Oauth2.Tables.{
  Tables, User, UserEmail, UserEmailStatus, current, Membership, Organization,
}

pub record IdentityUser : Type 0 where
  pub id : ℕ
  pub public_id : Text
  pub organization_id : ℕ
  pub organization_public_id : Text
  pub email : Text
  pub first_name : Text
  pub last_name : Text
  pub is_active : Bool
  pub email_verified : Bool

pub record IdentityOrganization : Type 0 where
  pub id : ℕ
  pub public_id : Text
  pub name : Text

pub record Identity : Type 0 where
  pub user : IdentityUser
  pub organization : IdentityOrganization

abbrev pub is_current : UserEmailStatus → Bool
is_current current = true
is_current _ = false

-- `current_email`; the source raises `RuntimeError` where there is none.
abbrev pub current_email : User → List UserEmail → Option UserEmail
current_email user = find_where (λ e. e.user_id == user.id && is_current e.status)

to_identity : User → Membership → Organization → UserEmail → Identity
to_identity user membership organization email = record {
  user = record {
    id = user.id;
    public_id = user.public_id;
    organization_id = membership.organization_id;
    organization_public_id = organization.public_id;
    email = email.email;
    first_name = user.first_name;
    last_name = user.last_name;
    is_active = user.is_active;
    email_verified = is_not_null email.verified_at;
  };
  organization = record {
    id = organization.id;
    public_id = organization.public_id;
    name = organization.name;
  };
}

-- The joined row of a user.
abbrev pub membership_of : User → Tables → Option Membership
membership_of user d = find_where (λ m. m.user_id == user.id) d.memberships

abbrev pub organization_of : Membership → Tables → Option Organization
organization_of membership d = find_where (λ o. o.id == membership.organization_id) d.organizations

-- An active user with a verified current address, in the expected organization.
eligible : ℕ → Identity → Option Identity
eligible organization_id identity =
    if identity.organization.id == organization_id
      && (identity.user.is_active && identity.user.email_verified)
    then some identity
    else none

with_email :
    ℕ → User → Membership → Organization → Option UserEmail → Outcome Error (Option Identity)
with_email organization_id user membership organization none = err runtime_error
with_email organization_id user membership organization (some email) =
    ok (eligible organization_id (to_identity user membership organization email))

with_organization :
    ℕ → Tables → User → Membership → Option Organization → Outcome Error (Option Identity)
with_organization organization_id d user membership none = ok none
with_organization organization_id d user membership (some organization) =
    with_email organization_id user membership organization (current_email user d.emails)

with_membership : ℕ → Tables → User → Option Membership → Outcome Error (Option Identity)
with_membership organization_id d user none = ok none
with_membership organization_id d user (some membership) =
    with_organization organization_id d user membership (organization_of membership d)

with_user : ℕ → Tables → Option User → Outcome Error (Option Identity)
with_user organization_id d none = ok none
with_user organization_id d (some user) =
    with_membership organization_id d user (membership_of user d)

unfoldable pub load_eligible_oauth2_user_identity :
    Option ℕ → Option ℕ → Tables → Outcome Error (Option Identity)
unfolding with_user with_membership with_organization with_email eligible to_identity
load_eligible_oauth2_user_identity none organization_id d = ok none
load_eligible_oauth2_user_identity (some user_id) none d = ok none
load_eligible_oauth2_user_identity (some user_id) (some organization_id) d =
    with_user organization_id d (find_where (λ u. u.id == user_id) d.users)

-- What an identity that is loaded vouches for.
pub record IsEligible (organization_id : ℕ) (identity : Identity) : Type 0 where
  pub in_organization : identity.organization.id ≡ organization_id
  pub active : identity.user.is_active ≡ true
  pub verified : identity.user.email_verified ≡ true

qualified-IsEligible :
    (organization_id : ℕ) (identity found : Identity)
    → eligible organization_id identity ≡ some found
    → IsEligible organization_id found
unfolding eligible
qualified-IsEligible organization_id identity found h = ground arith

-- Whoever the loader returns is active, has a verified address, and belongs to the organization
-- that was asked for.
pub load_identity-IsEligible :
    (user_id organization_id : ℕ) (d : Tables) (found : Identity)
    → load_eligible_oauth2_user_identity (some user_id) (some organization_id) d ≡ ok (some found)
    → IsEligible organization_id found
unfolding load_eligible_oauth2_user_identity
load_identity-IsEligible user_id organization_id d found h = ground arith

-- Whoever the loader returns is the user that was asked for.
pub load_identity_user :
    (user_id organization_id : ℕ) (d : Tables) (found : Identity)
    → load_eligible_oauth2_user_identity (some user_id) (some organization_id) d ≡ ok (some found)
    → found.user.id ≡ user_id
unfolding load_eligible_oauth2_user_identity
load_identity_user user_id organization_id d found h =
    elim (Option-cases (find_where (λ (u : User). u.id == user_id) d.users)) [
      | inl absent ↦ absurd (ground arith)
      | inr (u, e) ↦ let key = row_key (λ (u : User). u.id) user_id d.users u e in ground arith
    ]
