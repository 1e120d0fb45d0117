-- ===== src/Identity/UserUpdates/Access.antt =====
-- `update` of `app/identity/services/lifecycle.py` leaves an accessible operator, and an accessible
-- administrator of each organization.
use zero_auth_lite.Prelude.{
  ℕ, ◌≡◌, refl, sym, ap, subst, true, false, ◌⊎◌, inl, inr, Bool-cases, List, [], ◌==◌, arith,
}
use zero_auth_lite.Table.Keyed.{row_key}
use zero_auth_lite.Database.{Outcome, ok, err}
use zero_auth_lite.Oauth2.Tables.{User, UserEmail, Membership}
use zero_auth_lite.Identity.AccessInvariants.{
  IdentityError, Accounts, UserUpdateCommand, protect_update,
}
use zero_auth_lite.Identity.Counts.{any_where-found}
use zero_auth_lite.Identity.Guarantees.{
  IsAccounts, IsStored, is_accessible_operator, is_accessible_admin, accessible-true, target_admin,
  target_same,
}
use zero_auth_lite.Identity.Survivors.{has_operator, has_admin, stored_witness}
use zero_auth_lite.Identity.Updates.{other_admin, protect_update_keeps_others}
use zero_auth_lite.Identity.UserUpdates.{change_verified, write_changes, apply_changes, update_user}
use zero_auth_lite.Identity.UserUpdates.Rights.{
  others_operator, others_admin, target_operator, target_administrator,
}

module _ (now : ℕ) (target : User) (membership : Membership) (command : UserUpdateCommand)
    (d : Accounts) where
  -- What an update that answers has checked and written.
  record IsUpdated (d' : Accounts) : Type 0 where
    passed : protect_update target membership command d ≡ ok tt
    emails : List UserEmail
    written : change_verified now target command.email_verified d.emails ≡ ok emails
    result : write_changes target command d emails ≡ d'

  ok_accounts : (a b : Accounts) → ◌≡◌ {A = Outcome IdentityError Accounts} (ok a) (ok b) → a ≡ b
  ok_accounts a b h = ap (λ (o : Outcome IdentityError Accounts). elim o [ ok c ↦ c | err _ ↦ a ]) h

  update_user-IsUpdated :
      (d' : Accounts) → update_user now target membership command d ≡ ok d' → IsUpdated d'
  unfolding update_user
  update_user-IsUpdated d' h =
      checked (protect_update target membership command d) refl
        (change_verified now target command.email_verified d.emails) refl
    where
      checked :
          (c : Outcome IdentityError (Unit {0}))
          → protect_update target membership command d ≡ c
          → (o : Outcome IdentityError (List UserEmail))
          → change_verified now target command.email_verified d.emails ≡ o
          → IsUpdated d'
      checked (err e) at o is = let no = rw (update_user, at) at h in absurd (cc)
      checked (ok tt) at (err e) is =
          let no = rw (update_user, at, apply_changes, is) at h in absurd (cc)
      checked (ok tt) at (ok emails) is = record {
        passed = at;
        emails = emails;
        written = is;
        result = ok_accounts _ d' (rw (update_user, at, apply_changes, is) at h);
      }

  module _ (v : IsAccounts d) (s : IsStored d (target, membership)) (d' : Accounts)
      (u : IsUpdated d') where
    operator_stays : has_operator d ≡ true → has_operator d' ≡ true
    operator_stays had =
        let (x, e, at, p) = stored_witness [] d (is_accessible_operator d) v had in
        subst (λ a. has_operator a ≡ true) u.result
          (elim (Bool-cases (target.id == x.id)) [
            | inl same ↦
                let target_had =
                  subst (λ y. is_accessible_operator d y ≡ true)
                    (sym (target_same d x target membership s at same)) p in
                let reached = accessible-true target d v (ground arith) (ground arith) in
                elim (protect_update_keeps_others target membership command d true v reached
                  u.passed).0 [
                    | inl kept ↦
                        target_operator now target command d u.emails u.written s.user target_had
                          kept
                    | inr others ↦ others_operator now target command d u.emails u.written others
                  ]
            | inr other ↦
                others_operator now target command d u.emails u.written
                  (any_where-found _ _ d.users x e (ground arith))
          ])

    admin_stays : (o : ℕ) → has_admin o d ≡ true → has_admin o d' ≡ true
    admin_stays o had =
        let (x, e, at, p) = stored_witness [] d (is_accessible_admin d o) v had in
        subst (λ a. has_admin o a ≡ true) u.result
          (elim (Bool-cases (target.id == x.id)) [
            | inl same ↦
                let target_had =
                  subst (λ y. is_accessible_admin d o y ≡ true)
                    (sym (target_same d x target membership s at same)) p in
                let reached = accessible-true target d v (ground arith) (ground arith) in
                let (of, role) = target_admin d o target membership v s.membership (ground arith) in
                let own =
                  row_key (λ (m : Membership). m.user_id) target.id d.memberships membership
                    s.membership in
                elim (protect_update_keeps_others target membership command d true v reached
                  u.passed).1 [
                    | inl kept ↦
                        target_administrator now target command d u.emails u.written membership o
                          s.user s.membership (ground arith) of role target_had kept
                    | inr others ↦
                        others_admin now target command d u.emails u.written o
                          (subst (λ k. other_admin k target.id d ≡ true) of others)
                  ]
            | inr other ↦
                others_admin now target command d u.emails u.written o
                  (any_where-found _ _ d.users x e (ground arith))
          ])

-- With unique users, at most one current address for a user and one membership, and a target as it is
-- stored: after an update of a user that asks for no other address and is not refused, whatever
-- columns it changes, there is an active operator with a verified current address if there was one
-- before, and likewise an active administrator of an organization with a verified current address.
pub update_keeps_access :
    (now : ℕ) (target : User) (membership : Membership) (command : UserUpdateCommand)
    (d d' : Accounts) (o : ℕ)
    → IsAccounts d
    → IsStored d (target, membership)
    → update_user now target membership command d ≡ ok d'
    → ((has_operator d ≡ false) ⊎ (has_operator d' ≡ true))
      × ((has_admin o d ≡ false) ⊎ (has_admin o d' ≡ true))
update_keeps_access now target membership command d d' o v s h =
    let u = update_user-IsUpdated now target membership command d d' h in
    (
      elim (Bool-cases (has_operator d)) [
        | inl had ↦ inr (operator_stays now target membership command d v s d' u had)
        | inr none_before ↦ inl none_before
      ],
      elim (Bool-cases (has_admin o d)) [
        | inl had ↦ inr (admin_stays now target membership command d v s d' u o had)
        | inr none_before ↦ inl none_before
      ],
    )
