-- ===== src/Identity/UserUpdates.antt =====
-- `update` of `app/identity/services/lifecycle.py`, with the part of `apply_update` of
-- `app/identity/services/email_lifecycle.py` that it calls, for a command that asks for no other
-- address: what it writes to the accounts. The rows of the target are taken to be stored, so that
-- `scalar_one` finds them. Names, sessions, workflow tokens and notifications are left out.
pub mod Rights
pub mod Access
use zero_auth_lite.Prelude.{
  ℕ, Bool, true, false, ◌&&◌, Option, none, some, List, ◌==◌, is_null, is_not_null,
}
use zero_auth_lite.Table.{update_where}
use zero_auth_lite.Database.{Outcome, ok, err}
use zero_auth_lite.Oauth2.Tables.{User, UserEmail, Membership}
use zero_auth_lite.Oauth2.Identity.{is_current, current_email}
use zero_auth_lite.Identity.AccessInvariants.{
  IdentityError, runtime_error, Accounts, UserUpdateCommand, protect_update,
}

-- A selected change, or the value as it was.
abbrev pub selected {ℓ} : {A : Type ℓ} → Option A → A → A
selected none old = old
selected (some new) old = new

-- `was_verified != is_verified`
abbrev pub differs : Bool → UserEmail → Bool
differs true e = is_null e.verified_at
differs false e = is_not_null e.verified_at

abbrev pub set_verified : ℕ → Bool → UserEmail → UserEmail
set_verified now true e = record e { verified_at = some now }
set_verified now false e = record e { verified_at = none }

-- The change of `verified_at` of the current address, which is the only one of its user.
abbrev pub change_verified :
    ℕ → User → Option Bool → List UserEmail → Outcome IdentityError (List UserEmail)
change_verified now target none emails = ok emails
change_verified now target (some b) emails = elim (current_email target emails) [
  | none ↦ err runtime_error
  | some e ↦ ok (
      update_where (λ x. x.user_id == target.id && (is_current x.status && differs b x))
        (set_verified now b) emails)
]

abbrev pub changed_user : UserUpdateCommand → User → User
changed_user command u = record u {
  is_active = selected command.is_active u.is_active;
  is_operator = selected command.is_operator u.is_operator;
}

abbrev pub changed_membership : UserUpdateCommand → Membership → Membership
changed_membership command m = record m {
  role = selected command.role m.role;
  organization_id = selected command.organization_id m.organization_id;
}

-- The accounts after the updates of the rows of the user and of the membership.
abbrev pub write_changes : User → UserUpdateCommand → Accounts → List UserEmail → Accounts
write_changes target command d emails = record d {
  users = update_where (λ u. u.id == target.id) (changed_user command) d.users;
  emails = emails;
  memberships =
      update_where (λ m. m.user_id == target.id) (changed_membership command) d.memberships;
}

abbrev pub apply_changes : ℕ → User → UserUpdateCommand → Accounts → Outcome IdentityError Accounts
apply_changes now target command d =
    elim (change_verified now target command.email_verified d.emails) [
      | err e ↦ err e
      | ok emails ↦ ok (write_changes target command d emails)
    ]

unfoldable pub update_user :
    ℕ → User → Membership → UserUpdateCommand → Accounts → Outcome IdentityError Accounts
update_user now target membership command d = elim (protect_update target membership command d) [
  | err e ↦ err e
  | ok _ ↦ apply_changes now target command d
]
