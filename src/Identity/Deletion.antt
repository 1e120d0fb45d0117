-- ===== src/Identity/Deletion.antt =====
-- `UserLifecycleService.delete` of `app/identity/services/lifecycle.py`. The deletion of a user
-- removes the user's addresses and membership, by `ondelete="CASCADE"` in `app/db/models/user.py`
-- and `app/db/models/organization_membership.py`.
use zero_auth_lite.Prelude.{ℕ, suc, [], ◌∷◌, ◌==◌, if◌then◌else◌}
use zero_auth_lite.Table.{count_where, delete_where}
use zero_auth_lite.Database.{Outcome, ok, err}
use zero_auth_lite.Oauth2.Tables.{User}
use zero_auth_lite.Identity.AccessInvariants.{
  IdentityError, object_not_found, Accounts, Targets, is_target, protect_delete,
}

-- `len(target_ids)`
unfoldable pub target_count : Targets → ℕ
target_count [] = 0
target_count ((u, m) ∷ ts) = let n = target_count ts in if is_target ts u.id then n else suc n

abbrev pub delete_users : Targets → Accounts → Accounts
delete_users targets d = record {
  users = delete_where (λ u. is_target targets u.id) d.users;
  emails = delete_where (λ e. is_target targets e.user_id) d.emails;
  memberships = delete_where (λ m. is_target targets m.user_id) d.memberships;
}

unfoldable pub delete_checked : Targets → Accounts → Outcome IdentityError (ℕ × Accounts)
delete_checked targets d =
    let deleted_count = count_where (λ (u : User). is_target targets u.id) d.users in
    if deleted_count == target_count targets
    then ok (deleted_count, delete_users targets d)
    else err object_not_found

unfoldable pub delete : Targets → Accounts → Outcome IdentityError (ℕ × Accounts)
delete [] d = ok (0, d)
delete (t ∷ ts) d = elim (protect_delete (t ∷ ts) d) [
  | err e ↦ err e
  | ok _ ↦ delete_checked (t ∷ ts) d
]
