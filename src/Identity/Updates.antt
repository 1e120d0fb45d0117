-- ===== src/Identity/Updates.antt =====
-- `protect_update` of `app/identity/services/access_invariants.py`.
use zero_auth_lite.Prelude.{
  ℕ, zero, suc, ◌*◌, ◌≤◌, ◌≡◌, refl, subst, Bool, true, false, not, ◌&&◌, ◌⊎◌, inl, inr, Bool-cases,
  none, List, [], ◌∷◌, leb, ◌==◌, ==_iff, arith,
}
use zero_auth_lite.Table.{count_where}
use zero_auth_lite.Table.Keyed.{row, UniqueKeys}
use zero_auth_lite.Database.{ok}
use zero_auth_lite.Oauth2.Tables.{User, Membership}
use zero_auth_lite.Identity.AccessInvariants.{
  Accounts, UserUpdateCommand, is_verified_of, is_admin_of, count_joined, operator_rows, admin_rows,
  Check, check_if, accessible, removes_operator, removes_organization_admin, require_other_operator,
  require_other_organization_admin, protect_update,
}
use zero_auth_lite.Identity.Counts.{
  any_where, any_where_weaker, product_some, count_where-any, count_joined-other, is_other,
}
use zero_auth_lite.Identity.Guarantees.{
  IsAccounts, is_accessible_operator, is_accessible_admin, verified_count,
}
use zero_auth_lite.Identity.LastAccess.{then_check-ok}

-- An accessible operator other than a user, and an accessible administrator of an organization.
abbrev pub other_operator : ℕ → Accounts → Bool
other_operator i d = any_where (λ u. is_accessible_operator d u && not (u.id == i)) d.users

abbrev pub other_admin : ℕ → ℕ → Accounts → Bool
other_admin o i d = any_where (λ u. is_accessible_admin d o u && not (u.id == i)) d.users

module _ (d : Accounts) (v : IsAccounts d) where
  operator_rows_most : (u : User) → operator_rows d u ≤ 1
  operator_rows_most u = ground (arith, verified_count u d.emails v.one_current)

  admins_absent :
      (o : ℕ) (u : User) (ms : List Membership)
      → row (λ (m : Membership). m.user_id) u.id ms ≡ none
      → count_where (is_admin_of o u) ms ≡ 0
  admins_absent o u [] h = refl
  admins_absent o u (m ∷ ms) h = ground (arith, admins_absent o u ms)

  admins_most :
      (o : ℕ) (u : User) (ms : List Membership)
      → UniqueKeys (λ (m : Membership). m.user_id) ms
      → count_where (is_admin_of o u) ms ≤ 1
  admins_most o u [] k = ground arith
  admins_most o u (m ∷ ms) k = elim (Bool-cases (m.user_id == u.id)) [
    | inl same ↦
        let absent = admins_absent o u ms (
          subst (λ i. row (λ (m : Membership). m.user_id) i ms ≡ none)
            ((==_iff m.user_id u.id).0 same) k.0) in
        ground (arith, absent)
    | inr other ↦ ground (arith, admins_most o u ms k.1)
  ]

  product_most : (a b : ℕ) → a ≤ 1 → b ≤ 1 → a * b ≤ 1
  product_most zero b p q = ground arith
  product_most (suc zero) b p q = ground arith
  product_most (suc (suc a)) b p q = absurd (ground arith)

  admin_rows_most : (o : ℕ) (u : User) → admin_rows d o u ≤ 1
  admin_rows_most o u = ground (
    arith,
    product_most (count_where (is_admin_of o u) d.memberships)
        (count_where (is_verified_of u) d.emails) (admins_most o u d.memberships v.one_membership)
        (verified_count u d.emails v.one_current),
  )

  pub require_other_operator-ok :
      (i : ℕ) → require_other_operator d ≡ ok tt → other_operator i d ≡ true
  unfolding require_other_operator
  require_other_operator-ok i h =
      elim (Bool-cases (leb (count_joined (operator_rows d) d.users) 1)) [
        | inl t ↦ let no = rw (t, require_other_operator) at h in absurd (cc)
        | inr f ↦
            any_where_weaker _ _ d.users operator_row
              (count_joined-other (operator_rows d) i d.users operator_rows_most v.unique_users f)
      ]
    where
      operator_row :
          (u : User)
          → is_other (operator_rows d) i u ≡ true
          → (is_accessible_operator d u && not (u.id == i)) ≡ true
      operator_row u h = ground (arith, count_where-any (is_verified_of u) d.emails)

  pub require_other_admin-ok :
      (i : ℕ) (m : Membership)
      → require_other_organization_admin m d ≡ ok tt
      → other_admin m.organization_id i d ≡ true
  unfolding require_other_organization_admin
  require_other_admin-ok i m h =
      elim (Bool-cases (leb (count_joined (admin_rows d m.organization_id) d.users) 1)) [
        | inl t ↦ let no = rw (t, require_other_organization_admin) at h in absurd (cc)
        | inr f ↦ any_where_weaker _ _ d.users admin_row (
            count_joined-other (admin_rows d m.organization_id) i d.users
              (admin_rows_most m.organization_id) v.unique_users f)
      ]
    where
      admin_row :
          (u : User)
          → is_other (admin_rows d m.organization_id) i u ≡ true
          → (is_accessible_admin d m.organization_id u && not (u.id == i)) ≡ true
      admin_row u h = ground (
        arith,
        product_some (count_where (is_admin_of m.organization_id u) d.memberships)
            (count_where (is_verified_of u) d.emails),
        count_where-any (is_admin_of m.organization_id u) d.memberships,
        count_where-any (is_verified_of u) d.emails,
      )

pub check_if-ok : (b : Bool) (k : Check) → check_if b k ≡ ok tt → (b ≡ false) ⊎ (k ≡ ok tt)
check_if-ok false k h = inl refl
check_if-ok true k h = inr h

-- With unique users, at most one current address for a user and one membership: an update of a user
-- that passes the protection does not withdraw the rights of an accessible operator unless another
-- accessible operator exists, nor those of an accessible administrator of an organization unless
-- the organization has another.
pub protect_update_keeps_others :
    (target : User) (membership : Membership) (command : UserUpdateCommand) (d : Accounts)
    (reachable : Bool)
    → IsAccounts d
    → accessible target d ≡ ok reachable
    → protect_update target membership command d ≡ ok tt
    → ((removes_operator target command reachable ≡ false) ⊎ (other_operator target.id d ≡ true))
      × ((removes_organization_admin membership command reachable ≡ false)
          ⊎ (other_admin membership.organization_id target.id d ≡ true))
unfolding protect_update
protect_update_keeps_others target membership command d reachable v at h =
    let (operator, organization) = then_check-ok _ _ (rw (at, protect_update) at h) in
    (
      elim (check_if-ok _ _ operator) [
        | inl kept ↦ inl kept
        | inr passed ↦ inr (require_other_operator-ok d v target.id passed)
      ],
      elim (check_if-ok _ _ organization) [
        | inl kept ↦ inl kept
        | inr passed ↦ inr (require_other_admin-ok d v target.id membership passed)
      ],
    )
