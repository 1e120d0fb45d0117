-- ===== src/Identity/LastAccess.antt =====
-- `UserLifecycleService.delete` of `app/identity/services/lifecycle.py` leaves an accessible operator,
-- and an accessible administrator of each organization, where there was one.
use zero_auth_lite.Prelude.{ℕ, ◌≡◌, refl, ap, subst, true, inl, inr, Bool-cases, [], ◌∷◌, ◌==◌, All}
use zero_auth_lite.Table.{count_where}
use zero_auth_lite.Database.{Outcome, ok, err}
use zero_auth_lite.Database.Laws.{Outcome-cases}
use zero_auth_lite.Oauth2.Tables.{User, Membership}
use zero_auth_lite.Identity.AccessInvariants.{
  IdentityError, Accounts, Check, ◌then_check◌, Targets, is_target, protects_operator,
  protected_organizations, protect_delete,
}
use zero_auth_lite.Identity.Deletion.{delete_users, delete_checked, target_count, delete}
use zero_auth_lite.Identity.Counts.{}
use zero_auth_lite.Identity.Guarantees.{IsAccounts, IsStored}
use zero_auth_lite.Identity.Survivors.{
  has_operator, has_admin, IsProtected, operator_remains, admin_remains,
}

pub then_check-ok : (a b : Check) → (a then_check b) ≡ ok tt → (a ≡ ok tt) × (b ≡ ok tt)
then_check-ok (ok tt) b h = (refl, h)
then_check-ok (err e) b h = absurd (cc)

protect_delete-IsProtected :
    (t : User × Membership) (ts : Targets) (d : Accounts)
    → protect_delete (t ∷ ts) d ≡ ok tt
    → IsProtected (t ∷ ts) d
unfolding protect_delete
protect_delete-IsProtected t ts d h = elim (Outcome-cases (protects_operator (t ∷ ts) d)) [
  | inr (e, is) ↦ let no = rw (is, protect_delete) at h in absurd (cc)
  | inl (b, is) ↦ elim (Outcome-cases (protected_organizations (t ∷ ts) d)) [
    | inr (e, are) ↦ let no = rw (is, are, protect_delete) at h in absurd (cc)
    | inl (os, are) ↦
        let (operator_stays, admins_stay) = then_check-ok _ _ (rw (is, are, protect_delete) at h) in
        record {
          operator = b;
          organizations = os;
          operator_is = is;
          organizations_are = are;
          operator_stays = operator_stays;
          admins_stay = admins_stay;
        }
  ]
]

delete_checked-ok :
    (targets : Targets) (d d' : Accounts) (n : ℕ)
    → delete_checked targets d ≡ ok (n, d')
    → delete_users targets d ≡ d'
unfolding delete_checked
delete_checked-ok targets d d' n h =
    elim (Bool-cases
      (count_where (λ (u : User). is_target targets u.id) d.users == target_count targets)) [
        | inl t ↦
            ap
              (λ (o : Outcome IdentityError (ℕ × Accounts)). elim o [
                | ok (_, after) ↦ after
                | err _ ↦ d
              ])
              (rw (t, delete_checked) at h)
        | inr f ↦ let no = rw (f, delete_checked) at h in absurd (cc)
      ]

delete-ok :
    (t : User × Membership) (ts : Targets) (d d' : Accounts) (n : ℕ)
    → delete (t ∷ ts) d ≡ ok (n, d')
    → (protect_delete (t ∷ ts) d ≡ ok tt) × (delete_users (t ∷ ts) d ≡ d')
unfolding delete
delete-ok t ts d d' n h = elim (Outcome-cases (protect_delete (t ∷ ts) d)) [
  | inl (tt, e) ↦ (e, delete_checked-ok (t ∷ ts) d d' n (rw (e, delete) at h))
  | inr (x, e) ↦ let no = rw (e, delete) at h in absurd (cc)
]

-- With unique users, at most one current address for a user and one membership, and targets as they
-- are stored: where an active operator with a verified current address was, a deletion of users that
-- returns leaves one.
pub delete_keeps_operator :
    (targets : Targets) (d d' : Accounts) (n : ℕ)
    → IsAccounts d
    → All (IsStored d) targets
    → has_operator d ≡ true
    → delete targets d ≡ ok (n, d')
    → has_operator d' ≡ true
unfolding delete
delete_keeps_operator [] d d' n v s had h =
    subst
      (λ (o : Outcome IdentityError (ℕ × Accounts)).
        elim o [ ok (_, after) ↦ has_operator after | err _ ↦ true ] ≡ true)
      h had
delete_keeps_operator (t ∷ ts) d d' n v s had h =
    let (passed, after) = delete-ok t ts d d' n h in
    subst (λ a. has_operator a ≡ true) after
      (operator_remains (t ∷ ts) d v s (protect_delete-IsProtected t ts d passed) had)

-- With unique users, at most one current address for a user and one membership, and targets as they
-- are stored: where an organization had an active administrator with a verified current address, a
-- deletion of users that returns leaves it one.
pub delete_keeps_admin :
    (o : ℕ) (targets : Targets) (d d' : Accounts) (n : ℕ)
    → IsAccounts d
    → All (IsStored d) targets
    → has_admin o d ≡ true
    → delete targets d ≡ ok (n, d')
    → has_admin o d' ≡ true
unfolding delete
delete_keeps_admin o [] d d' n v s had h =
    subst
      (λ (r : Outcome IdentityError (ℕ × Accounts)).
        elim r [ ok (_, after) ↦ has_admin o after | err _ ↦ true ] ≡ true)
      h had
delete_keeps_admin o (t ∷ ts) d d' n v s had h =
    let (passed, after) = delete-ok t ts d d' n h in
    subst (λ a. has_admin o a ≡ true) after
      (admin_remains (t ∷ ts) d o v s (protect_delete-IsProtected t ts d passed) had)
