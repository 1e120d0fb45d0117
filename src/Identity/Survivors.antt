-- ===== src/Identity/Survivors.antt =====
-- The operators and administrators whom a deletion by `app/identity/services/lifecycle.py` spares.
use zero_auth_lite.Prelude.{
  ℕ, ◌≡◌, refl, sym, subst, Bool, true, false, not, ◌&&◌, inl, inr, Bool-cases, Option-cases, some,
  List, [], ◌∷◌, ◌==◌, ==_iff, All, arith,
}
use zero_auth_lite.Table.{find_where, count_where, order_by, find_where-holds, All-find_where}
use zero_auth_lite.Table.Keyed.{row, All-row_self}
use zero_auth_lite.Database.{ok}
use zero_auth_lite.Oauth2.Tables.{User}
use zero_auth_lite.Identity.AccessInvariants.{
  Accounts, is_verified_of, is_admin_of, count_joined, operator_rows, admin_rows, check_if, Targets,
  is_target, protects_operator, protected_organizations, spared, require_remaining_operator,
  require_remaining_admins,
}
use zero_auth_lite.Identity.Deletion.{delete_users}
use zero_auth_lite.Identity.Counts.{
  any_where, any_where-found, any_where_weaker, product_some, count_where-any, count_joined-any,
  any_where-delete_where, find_where-spared, All-order_by_inv,
}
use zero_auth_lite.Identity.Guarantees.{
  IsAccounts, IsStored, is_accessible_operator, is_accessible_admin, protects_operator-true,
  protected_organizations-All,
}

abbrev pub has_operator : Accounts → Bool
has_operator d = any_where (is_accessible_operator d) d.users

abbrev pub has_admin : ℕ → Accounts → Bool
has_admin o d = any_where (is_accessible_admin d o) d.users

module _ (targets : Targets) (d : Accounts) where
  -- The checks that a deletion has passed.
  pub record IsProtected : Type 0 where
    pub operator : Bool
    pub organizations : List ℕ
    pub operator_is : protects_operator targets d ≡ ok operator
    pub organizations_are : protected_organizations targets d ≡ ok organizations
    pub operator_stays : check_if operator (require_remaining_operator targets d) ≡ ok tt
    pub admins_stay : require_remaining_admins targets d (order_by (λ o. o) organizations) ≡ ok tt

  verified_spared :
      (u : User)
      → is_target targets u.id ≡ false
      → find_where (is_verified_of u) (delete_users targets d).emails
        ≡ find_where (is_verified_of u) d.emails
  verified_spared u h =
      find_where-spared (is_verified_of u) (λ e. is_target targets e.user_id) d.emails
        λ e p.
          subst (λ i. is_target targets i ≡ false) (sym ((==_iff e.user_id u.id).0 (ground arith)))
            h

  admin_spared :
      (o : ℕ) (u : User)
      → is_target targets u.id ≡ false
      → find_where (is_admin_of o u) (delete_users targets d).memberships
        ≡ find_where (is_admin_of o u) d.memberships
  admin_spared o u h =
      find_where-spared (is_admin_of o u) (λ m. is_target targets m.user_id) d.memberships
        λ m p.
          subst (λ i. is_target targets i ≡ false) (sym ((==_iff m.user_id u.id).0 (ground arith)))
            h

  operator_survives :
      any_where (λ u. is_accessible_operator d u && not (is_target targets u.id)) d.users ≡ true
      → has_operator (delete_users targets d) ≡ true
  operator_survives =
      any_where-delete_where (is_accessible_operator d)
        (is_accessible_operator (delete_users targets d)) (λ u. is_target targets u.id) d.users
        λ u h p. rw (verified_spared u h) p

  admin_survives :
      (o : ℕ)
      → any_where (λ u. is_accessible_admin d o u && not (is_target targets u.id)) d.users ≡ true
      → has_admin o (delete_users targets d) ≡ true
  admin_survives o =
      any_where-delete_where (is_accessible_admin d o)
        (is_accessible_admin (delete_users targets d) o) (λ u. is_target targets u.id) d.users
        λ u h p. rw (verified_spared u h, admin_spared o u h) p

  operator_counted :
      (count_joined (spared targets (operator_rows d)) d.users == 0) ≡ false
      → any_where (λ u. is_accessible_operator d u && not (is_target targets u.id)) d.users ≡ true
  operator_counted h =
      any_where_weaker _ _ d.users operator_row
        (count_joined-any (spared targets (operator_rows d)) d.users h)
    where
      operator_row :
          (u : User)
          → not (spared targets (operator_rows d) u == 0) ≡ true
          → (is_accessible_operator d u && not (is_target targets u.id)) ≡ true
      operator_row u h = ground (arith, count_where-any (is_verified_of u) d.emails)

  admin_counted :
      (o : ℕ)
      → (count_joined (spared targets (admin_rows d o)) d.users == 0) ≡ false
      → any_where (λ u. is_accessible_admin d o u && not (is_target targets u.id)) d.users ≡ true
  admin_counted o h =
      any_where_weaker _ _ d.users admin_row
        (count_joined-any (spared targets (admin_rows d o)) d.users h)
    where
      admin_row :
          (u : User)
          → not (spared targets (admin_rows d o) u == 0) ≡ true
          → (is_accessible_admin d o u && not (is_target targets u.id)) ≡ true
      admin_row u h = ground (
        arith,
        product_some (count_where (is_admin_of o u) d.memberships)
            (count_where (is_verified_of u) d.emails),
        count_where-any (is_admin_of o u) d.memberships,
        count_where-any (is_verified_of u) d.emails,
      )

  require_remaining_admins-All :
      (os : List ℕ)
      → require_remaining_admins targets d os ≡ ok tt
      → All (λ o. (count_joined (spared targets (admin_rows d o)) d.users == 0) ≡ false) os
  unfolding require_remaining_admins
  require_remaining_admins-All [] h = tt
  require_remaining_admins-All (o ∷ os) h =
      elim (Bool-cases (count_joined (spared targets (admin_rows d o)) d.users == 0)) [
        | inl t ↦ let no = rw t at h in absurd (cc)
        | inr f ↦ (f, require_remaining_admins-All os (rw f at h))
      ]

  require_remaining_operator-ok :
      require_remaining_operator targets d ≡ ok tt
      → (count_joined (spared targets (operator_rows d)) d.users == 0) ≡ false
  unfolding require_remaining_operator
  require_remaining_operator-ok h =
      elim (Bool-cases (count_joined (spared targets (operator_rows d)) d.users == 0)) [
        | inl t ↦ let no = rw (t, require_remaining_operator) at h in absurd (cc)
        | inr f ↦ f
      ]

  -- A user that a search finds, and finds again by its key.
  pub stored_witness :
      (p : User → Bool)
      → IsAccounts d
      → any_where p d.users ≡ true
      → (x : User) × (find_where p d.users ≡ some x)
        × (row (λ (y : User). y.id) x.id d.users ≡ some x)
        × (p x ≡ true)
  stored_witness p v had = elim (Option-cases (find_where p d.users)) [
    | inl e ↦ let no = rw e at had in absurd (cc)
    | inr (x, e) ↦ (
      x,
      e,
      All-find_where (λ y. row (λ (y : User). y.id) y.id d.users ≡ some y) p d.users
          (All-row_self (λ (y : User). y.id) d.users v.unique_users) e,
      find_where-holds p d.users x e,
    )
  ]

  pub operator_remains :
      IsAccounts d
      → All (IsStored d) targets
      → IsProtected
      → has_operator d ≡ true
      → has_operator (delete_users targets d) ≡ true
  operator_remains v s protected had =
      let (x, e, at, p) = stored_witness (is_accessible_operator d) v had in
      operator_survives (elim (Bool-cases (is_target targets x.id)) [
        | inl t ↦
            let b =
              protects_operator-true d targets x protected.operator v s at p t
                protected.operator_is in
            operator_counted (require_remaining_operator-ok (rw b at protected.operator_stays))
        | inr f ↦ any_where-found _ _ d.users x e (rw (p, f) refl)
      ])

  pub admin_remains :
      (o : ℕ)
      → IsAccounts d
      → All (IsStored d) targets
      → IsProtected
      → has_admin o d ≡ true
      → has_admin o (delete_users targets d) ≡ true
  admin_remains o v s protected had =
      let (x, e, at, p) = stored_witness (is_accessible_admin d o) v had in
      admin_survives o (elim (Bool-cases (is_target targets x.id)) [
        | inl t ↦
            let counted = require_remaining_admins-All _ protected.admins_stay in
            admin_counted o (
              protected_organizations-All
                (λ o. (count_joined (spared targets (admin_rows d o)) d.users == 0) ≡ false) d
                targets x o protected.organizations v s at p t protected.organizations_are
                (All-order_by_inv _ (λ o. o) protected.organizations counted))
        | inr f ↦ any_where-found _ _ d.users x e (rw (p, f) refl)
      ])
