-- ===== src/Identity/AccessInvariants.antt =====
-- `app/identity/services/access_invariants.py`, with the columns of `UserUpdateCommand` of
-- `app/identity/users/commands.py` that it reads. The update that takes SQLite's writer lock writes
-- a key over itself and is left out.
use zero_auth_lite.Prelude.{
  ℕ, ◌+◌, ◌*◌, Bool, true, false, not, ◌&&◌, ◌||◌, Option, none, some, List, [], ◌∷◌, leb, ◌==◌,
  if◌then◌else◌, is_not_null, holds,
}
use zero_auth_lite.Table.{count_where, order_by}
use zero_auth_lite.Database.{Outcome, ok, err}
use zero_auth_lite.Oauth2.Tables.{User, UserEmail, MembershipRole, member, admin, Membership}
use zero_auth_lite.Oauth2.Identity.{is_current, current_email}

pub data IdentityError : Type 0 where
  last_active_operator last_active_organization_admin object_not_found runtime_error : IdentityError

-- The tables of users, of their addresses and of their memberships.
pub record Accounts : Type 0 where
  pub users : List User
  pub emails : List UserEmail
  pub memberships : List Membership

-- None where a command does not select a change.
pub record UserUpdateCommand : Type 0 where
  pub is_active : Option Bool
  pub role : Option MembershipRole
  pub is_operator : Option Bool
  pub email_verified : Option Bool
  pub organization_id : Option ℕ

abbrev pub is_admin : MembershipRole → Bool
is_admin member = false
is_admin admin = true

-- A row of the joined addresses.
abbrev pub is_verified_of : User → UserEmail → Bool
is_verified_of user e = e.user_id == user.id && (is_current e.status && is_not_null e.verified_at)

abbrev pub is_admin_of : ℕ → User → Membership → Bool
is_admin_of organization_id user m =
    m.user_id == user.id && (m.organization_id == organization_id && is_admin m.role)

-- The rows that a join adds up for each user.
abbrev pub count_joined : (User → ℕ) → List User → ℕ
count_joined rows [] = 0
count_joined rows (u ∷ us) = rows u + count_joined rows us

abbrev pub operator_rows : Accounts → User → ℕ
operator_rows d u =
    if u.is_operator && u.is_active then count_where (is_verified_of u) d.emails else 0

abbrev pub admin_rows : Accounts → ℕ → User → ℕ
admin_rows d organization_id u =
    if u.is_active
    then count_where (is_admin_of organization_id u) d.memberships
      * count_where (is_verified_of u) d.emails
    else 0

abbrev pub Check : Type 0
Check = Outcome IdentityError (Unit {0})

unfoldable pub require_other_operator : Accounts → Check
require_other_operator d =
    if leb (count_joined (operator_rows d) d.users) 1 then err last_active_operator else ok tt

unfoldable pub require_other_organization_admin : Membership → Accounts → Check
require_other_organization_admin membership d =
    if leb (count_joined (admin_rows d membership.organization_id) d.users) 1
    then err last_active_organization_admin
    else ok tt

-- `email_verified`
abbrev pub email_verified : User → Accounts → Outcome IdentityError Bool
email_verified target d = elim (current_email target d.emails) [
  | none ↦ err runtime_error
  | some e ↦ ok (is_not_null e.verified_at)
]

-- `target.is_active and target.email_verified`
unfoldable pub accessible : User → Accounts → Outcome IdentityError Bool
accessible target d = if target.is_active then email_verified target d else ok false

abbrev pub is_withdrawn : Option Bool → Bool
is_withdrawn change = holds (λ b. not b) change

abbrev pub removes_organization_admin : Membership → UserUpdateCommand → Bool → Bool
removes_organization_admin membership command reachable =
    is_admin membership.role
    && (reachable
        && (holds (λ r. not (is_admin r)) command.role
            || (is_withdrawn command.is_active
                || (is_withdrawn command.email_verified
                    || holds (λ o. not (o == membership.organization_id))
                        command.organization_id))))

abbrev pub removes_operator : User → UserUpdateCommand → Bool → Bool
removes_operator target command reachable =
    target.is_operator
    && (reachable
        && (is_withdrawn command.is_operator
            || (is_withdrawn command.is_active || is_withdrawn command.email_verified)))

infixl 5 ◌then_check◌
abbrev pub ◌then_check◌ : Check → Check → Check
(err e) then_check k = err e
(ok _) then_check k = k

abbrev pub check_if : Bool → Check → Check
check_if true k = k
check_if false k = ok tt

abbrev pub protect_reachable : User → Membership → UserUpdateCommand → Accounts → Bool → Check
protect_reachable target membership command d reachable =
    check_if (removes_operator target command reachable) (require_other_operator d)
    then_check check_if (removes_organization_admin membership command reachable)
        (require_other_organization_admin membership d)

unfoldable pub protect_update : User → Membership → UserUpdateCommand → Accounts → Check
protect_update target membership command d = elim (accessible target d) [
  | err e ↦ err e
  | ok reachable ↦ protect_reachable target membership command d reachable
]

abbrev pub Targets : Type 0
Targets = List (User × Membership)

abbrev pub is_target : Targets → ℕ → Bool
is_target [] i = false
is_target ((u, m) ∷ ts) i = u.id == i || is_target ts i

-- `any(...)` stops at the first target that passes.
abbrev pub or_else :
    Outcome IdentityError Bool → Outcome IdentityError Bool → Outcome IdentityError Bool
or_else (err e) rest = err e
or_else (ok true) rest = ok true
or_else (ok false) rest = rest

unfoldable pub protects_operator : Targets → Accounts → Outcome IdentityError Bool
protects_operator [] d = ok false
protects_operator ((u, m) ∷ ts) d =
    let rest = protects_operator ts d in
    if u.is_operator then or_else (accessible u d) rest else rest

abbrev pub Organizations : Type 0
Organizations = Outcome IdentityError (List ℕ)

abbrev pub cons_if : Outcome IdentityError Bool → ℕ → Organizations → Organizations
cons_if (err e) o rest = err e
cons_if (ok false) o rest = rest
cons_if (ok true) o (err e) = err e
cons_if (ok true) o (ok os) = ok (o ∷ os)

-- The organizations of which a target is an accessible administrator, one entry for each of them.
unfoldable pub protected_organizations : Targets → Accounts → Organizations
protected_organizations [] d = ok []
protected_organizations ((u, m) ∷ ts) d =
    let rest = protected_organizations ts d in
    if is_admin m.role then cons_if (accessible u d) m.organization_id rest else rest

-- `UserDB.id.not_in(target_ids)`
abbrev pub spared : Targets → (User → ℕ) → User → ℕ
spared targets rows u = if is_target targets u.id then 0 else rows u

unfoldable pub require_remaining_operator : Targets → Accounts → Check
require_remaining_operator targets d =
    if count_joined (spared targets (operator_rows d)) d.users == 0
    then err last_active_operator
    else ok tt

unfoldable pub require_remaining_admins : Targets → Accounts → List ℕ → Check
require_remaining_admins targets d [] = ok tt
require_remaining_admins targets d (o ∷ os) =
    let rest = require_remaining_admins targets d os in
    (if count_joined (spared targets (admin_rows d o)) d.users == 0
      then err last_active_organization_admin
      else ok tt)
    then_check rest

-- The organizations are checked in order; that one is checked again changes no answer.
unfoldable pub protect_delete : Targets → Accounts → Check
protect_delete [] d = ok tt
protect_delete (t ∷ ts) d = elim (protects_operator (t ∷ ts) d) [
  | err e ↦ err e
  | ok operator ↦ elim (protected_organizations (t ∷ ts) d) [
    | err e ↦ err e
    | ok organizations ↦
        check_if operator (require_remaining_operator (t ∷ ts) d)
        then_check require_remaining_admins (t ∷ ts) d (order_by (λ o. o) organizations)
  ]
]
