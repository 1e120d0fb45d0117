-- ===== src/Tests/Identity.antt =====
-- Two operators, one of whom administers an organization with a second administrator.
use zero_auth_lite.Prelude.{◌≡◌, refl, true, false, ◌⊎◌, none, some, [], ◌∷◌, text, All}
use zero_auth_lite.Database.{ok, err}
use zero_auth_lite.Oauth2.Tables.{User, UserEmail, current, Membership, member, admin}
use zero_auth_lite.Identity.AccessInvariants.{
  Accounts, UserUpdateCommand, last_active_operator, last_active_organization_admin, Targets,
  accessible, protect_update, protects_operator, protected_organizations,
  require_remaining_operator, require_remaining_admins, protect_delete, require_other_operator,
  require_other_organization_admin,
}
use zero_auth_lite.Identity.Deletion.{delete, delete_users, delete_checked, target_count}
use zero_auth_lite.Identity.Guarantees.{IsAccounts, IsStored}
use zero_auth_lite.Identity.Survivors.{has_operator, has_admin}
use zero_auth_lite.Identity.LastAccess.{delete_keeps_operator, delete_keeps_admin}
use zero_auth_lite.Identity.UserUpdates.{write_changes, update_user}
use zero_auth_lite.Identity.UserUpdates.Access.{update_keeps_access}

abbrev ada : User
ada = record {
  id = 1;
  public_id = text "u1";
  first_name = text "Ada";
  last_name = text "A";
  is_active = true;
  is_operator = true;
}

abbrev bob : User
bob = record ada { id = 2; public_id = text "u2"; first_name = text "Bob" }

abbrev address : UserEmail
address = record { id = 1; user_id = 1; email = text "a@x"; status = current; verified_at = some 3 }

abbrev ada_admin : Membership
ada_admin = record { user_id = 1; organization_id = 9; role = admin }

abbrev bob_admin : Membership
bob_admin = record { user_id = 2; organization_id = 9; role = admin }

abbrev accounts : Accounts
accounts = record {
  users = ada ∷ bob ∷ [];
  emails = address ∷ record address { id = 2; user_id = 2 } ∷ [];
  memberships = ada_admin ∷ bob_admin ∷ [];
}

valid : IsAccounts accounts
valid = record {
  unique_users = (refl, (refl, tt));
  one_current = (λ e. refl, (λ e. refl, tt));
  one_membership = (refl, (refl, tt));
}

abbrev targets : Targets
targets = (ada, ada_admin) ∷ []

stored : All (IsStored accounts) targets
stored = (record { user = refl; membership = refl }, tt)

abbrev both : Targets
both = (ada, ada_admin) ∷ (bob, bob_admin) ∷ []

deleted : delete targets accounts ≡ ok (1, delete_users targets accounts)
unfolding delete delete_checked target_count protect_delete protects_operator
    protected_organizations require_remaining_operator require_remaining_admins accessible
deleted = refl

-- The deletion of both is refused.
deleted_both : delete both accounts ≡ err last_active_operator
unfolding delete delete_checked target_count protect_delete protects_operator
    protected_organizations require_remaining_operator require_remaining_admins accessible
deleted_both = refl

delete_keeps_operator_example : has_operator (delete_users targets accounts) ≡ true
delete_keeps_operator_example =
    delete_keeps_operator targets accounts (delete_users targets accounts) 1 valid stored refl
      deleted

delete_keeps_admin_example : has_admin 9 (delete_users targets accounts) ≡ true
delete_keeps_admin_example =
    delete_keeps_admin 9 targets accounts (delete_users targets accounts) 1 valid stored refl
      deleted

abbrev withdrawal : UserUpdateCommand
withdrawal = record {
  is_active = some false;
  role = none;
  is_operator = none;
  email_verified = none;
  organization_id = none;
}

withdrawn : protect_update ada ada_admin withdrawal accounts ≡ ok tt
unfolding protect_update accessible require_other_operator require_other_organization_admin
withdrawn = refl

-- Alone, the administrator may not be withdrawn.
withdrawn_alone :
    protect_update
      (record ada { is_operator = false })
      ada_admin
      withdrawal
      (record accounts { memberships = ada_admin ∷ [] })
    ≡ err last_active_organization_admin
unfolding protect_update accessible require_other_operator require_other_organization_admin
withdrawn_alone = refl

-- Ada's address is no longer taken to be verified, and she becomes a member.
abbrev demotion : UserUpdateCommand
demotion = record withdrawal { is_active = none; role = some member; email_verified = some false }

abbrev demoted : Accounts
demoted =
    write_changes ada demotion accounts
      (record address { verified_at = none } ∷ record address { id = 2; user_id = 2 } ∷ [])

demoted_is : update_user 50 ada ada_admin demotion accounts ≡ ok demoted
unfolding update_user protect_update accessible require_other_operator
    require_other_organization_admin
demoted_is = refl

update_keeps_access_example :
    ((has_operator accounts ≡ false) ⊎ (has_operator demoted ≡ true))
    × ((has_admin 9 accounts ≡ false) ⊎ (has_admin 9 demoted ≡ true))
update_keeps_access_example =
    update_keeps_access 50 ada ada_admin demotion accounts demoted 9 valid stored.0 demoted_is
