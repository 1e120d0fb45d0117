-- ===== src/Identity/UserUpdates/Rights.antt =====
-- The rights that the writes of `update` of `app/identity/services/lifecycle.py` leave.
use zero_auth_lite.Prelude.{
  ℕ, ◌≡◌, refl, sym, ap, subst, Bool, true, false, not, ◌&&◌, ◌⊎◌, inl, inr, Bool-cases,
  Option-cases, Option, none, some, List, [], ◌∷◌, ◌==◌, holds, arith,
}
use zero_auth_lite.Table.{find_where, update_where}
use zero_auth_lite.Table.Keyed.{row}
use zero_auth_lite.Database.{Outcome, ok, err}
use zero_auth_lite.Oauth2.Tables.{User, UserEmail, MembershipRole, Membership}
use zero_auth_lite.Oauth2.Identity.{is_current, current_email}
use zero_auth_lite.Identity.AccessInvariants.{
  IdentityError, Accounts, UserUpdateCommand, is_admin, is_verified_of, is_admin_of, is_withdrawn,
  removes_operator, removes_organization_admin,
}
use zero_auth_lite.Identity.Counts.{any_where}
use zero_auth_lite.Identity.Guarantees.{is_accessible_operator, is_accessible_admin}
use zero_auth_lite.Identity.Survivors.{has_operator, has_admin}
use zero_auth_lite.Identity.Updates.{other_operator, other_admin}
use zero_auth_lite.Identity.UserUpdates.{
  selected, differs, set_verified, change_verified, changed_user, changed_membership, write_changes,
}

module _ {A : Type 0} where
  -- Rows that an update does not test for are found again.
  any_where-kept :
      (p q : A → Bool) (f : A → A) (rs : List A)
      → ((x : A) → p x ≡ true → q x ≡ false)
      → any_where p rs ≡ true
      → any_where p (update_where q f rs) ≡ true
  any_where-kept p q f [] spared had = had
  any_where-kept p q f (x ∷ rs) spared had =
      ground (arith, spared x, any_where-kept p q f rs spared)

  -- A row that passes and is not updated passes the test of afterwards.
  any_where-others :
      (p p' q : A → Bool) (f : A → A) (rs : List A)
      → ((x : A) → q x ≡ false → p x ≡ true → p' x ≡ true)
      → any_where (λ x. p x && not (q x)) rs ≡ true
      → any_where p' (update_where q f rs) ≡ true
  any_where-others p p' q f [] passes had = cc
  any_where-others p p' q f (x ∷ rs) passes had =
      ground (arith, passes x, any_where-others p p' q f rs passes)

  -- An updated row passes.
  any_where-updated :
      (k p q : A → Bool) (f : A → A) (rs : List A) (x : A)
      → find_where k rs ≡ some x
      → q x ≡ true
      → p (f x) ≡ true
      → any_where p (update_where q f rs) ≡ true
  any_where-updated k p q f [] x found hit passes = cc
  any_where-updated k p q f (y ∷ rs) x found hit passes = elim (Bool-cases (k y)) [
    | inl t ↦
        let same : y ≡ x = ground arith in
        let hit_y : q y ≡ true = subst (λ z. q z ≡ true) (sym same) hit in
        let passes_y : p (f y) ≡ true = subst (λ z. p (f z) ≡ true) (sym same) passes in
        ground arith
    | inr g ↦ let rest = any_where-updated k p q f rs x (rw g at found) hit passes in ground arith
  ]

-- A change that does not withdraw a right keeps it.
selected_kept :
    (change : Option Bool) (old : Bool)
    → is_withdrawn change ≡ false
    → old ≡ true
    → selected change old ≡ true
selected_kept none old h e = e
selected_kept (some true) old h e = refl
selected_kept (some false) old h e = absurd (cc)

not_withdrawn :
    (change : Option Bool) (b : Bool) → is_withdrawn change ≡ false → change ≡ some b → b ≡ true
not_withdrawn change true h e = refl
not_withdrawn change false h e = let no = subst (λ c. is_withdrawn c ≡ false) e h in absurd (cc)

selected_role :
    (change : Option MembershipRole) (old : MembershipRole)
    → holds (λ r. not (is_admin r)) change ≡ false
    → is_admin old ≡ true
    → is_admin (selected change old) ≡ true
selected_role none old h e = e
selected_role (some r) old h e = ground arith

selected_organization :
    (change : Option ℕ) (old : ℕ)
    → holds (λ o. not (o == old)) change ≡ false
    → (selected change old == old) ≡ true
selected_organization none old h = ground arith
selected_organization (some o) old h = ground arith

ok_emails :
    (a b : List UserEmail) → ◌≡◌ {A = Outcome IdentityError (List UserEmail)} (ok a) (ok b) → a ≡ b
ok_emails a b h =
    ap (λ (o : Outcome IdentityError (List UserEmail)). elim o [ ok c ↦ c | err _ ↦ [] ]) h

-- The address of a user stays verified, unless it is the target's and the change withdraws it.
kept_through :
    (now : ℕ) (target u : User) (old new : List UserEmail) (change : Option Bool)
    → change_verified now target change old ≡ ok new
    → ((u.id == target.id) ≡ false) ⊎ ((b : Bool) → change ≡ some b → b ≡ true)
    → any_where (is_verified_of u) old ≡ true
    → any_where (is_verified_of u) new ≡ true
kept_through now target u old new none written spared had =
    subst (λ es. any_where (is_verified_of u) es ≡ true) (ok_emails old new written) had
kept_through now target u old new (some b) written spared had =
    elim (Option-cases (current_email target old)) [
      | inl none_current ↦ let no = rw (none_current, change_verified) at written in absurd (cc)
      | inr (e, found) ↦
          subst (λ es. any_where (is_verified_of u) es ≡ true)
            (ok_emails _ new (rw (found, change_verified) at written))
            (any_where-kept (is_verified_of u)
              (λ x. x.user_id == target.id && (is_current x.status && differs b x))
              (set_verified now b) old (untouched b spared) had)
    ]
  where
    untouched :
        (b : Bool)
        → ((u.id == target.id) ≡ false) ⊎ ((c : Bool) → some b ≡ some c → c ≡ true)
        → (x : UserEmail) → is_verified_of u x ≡ true
        → (x.user_id == target.id && (is_current x.status && differs b x)) ≡ false
    untouched true spared x h = ground arith
    untouched false (inl other) x h = ground arith
    untouched false (inr kept) x h = let no = kept false refl in absurd (cc)

module _ (now : ℕ) (target : User) (command : UserUpdateCommand) (d : Accounts)
    (emails : List UserEmail)
    (written : change_verified now target command.email_verified d.emails ≡ ok emails) where
  abbrev after : Accounts
  after = write_changes target command d emails

  -- The address of a user stays verified, unless it is the target's and the command withdraws it.
  verified_kept :
      (u : User)
      → ((u.id == target.id) ≡ false) ⊎ ((b : Bool) → command.email_verified ≡ some b → b ≡ true)
      → any_where (is_verified_of u) d.emails ≡ true
      → any_where (is_verified_of u) emails ≡ true
  verified_kept u spared had =
      kept_through now target u d.emails emails command.email_verified written spared had

  pub others_operator : other_operator target.id d ≡ true → has_operator after ≡ true
  others_operator had =
      any_where-others (is_accessible_operator d) (is_accessible_operator after)
        (λ u. u.id == target.id) (changed_user command) d.users
        (λ u other h. let v = verified_kept u (inl other) (ground arith) in ground arith) had

  pub others_admin : (o : ℕ) → other_admin o target.id d ≡ true → has_admin o after ≡ true
  others_admin o had =
      any_where-others (is_accessible_admin d o) (is_accessible_admin after o)
        (λ u. u.id == target.id) (changed_user command) d.users
        (λ u other h.
          let v = verified_kept u (inl other) (ground arith) in
          let m =
            any_where-kept (is_admin_of o u) (λ m. m.user_id == target.id)
              (changed_membership command) d.memberships (λ m e. ground arith) (ground arith) in
          ground arith)
        had

  -- The rights that the command does not withdraw are there after the writes.
  pub target_operator :
      row (λ (u : User). u.id) target.id d.users ≡ some target
      → is_accessible_operator d target ≡ true
      → removes_operator target command true ≡ false
      → has_operator after ≡ true
  target_operator stored had stays =
      let operator =
        selected_kept command.is_operator target.is_operator (ground arith) (ground arith) in
      let active = selected_kept command.is_active target.is_active (ground arith) (ground arith) in
      let verified =
        verified_kept target (inr (λ b. not_withdrawn command.email_verified b (ground arith)))
          (ground arith) in
      any_where-updated (λ u. u.id == target.id) (is_accessible_operator after)
        (λ u. u.id == target.id) (changed_user command) d.users target stored (ground arith)
        (rw (operator, active) verified)

  pub target_administrator :
      (membership : Membership) (o : ℕ)
      → row (λ (u : User). u.id) target.id d.users ≡ some target
      → row (λ (m : Membership). m.user_id) target.id d.memberships ≡ some membership
      → (membership.user_id == target.id) ≡ true
      → membership.organization_id ≡ o
      → is_admin membership.role ≡ true
      → is_accessible_admin d o target ≡ true
      → removes_organization_admin membership command true ≡ false
      → has_admin o after ≡ true
  target_administrator membership o stored member own of role had stays =
      let active = selected_kept command.is_active target.is_active (ground arith) (ground arith) in
      let still = selected_role command.role membership.role (ground arith) role in
      let there =
        selected_organization command.organization_id membership.organization_id (ground arith) in
      let verified =
        verified_kept target (inr (λ b. not_withdrawn command.email_verified b (ground arith)))
          (ground arith) in
      let administers : any_where (is_admin_of o target) after.memberships ≡ true =
        any_where-updated (λ m. m.user_id == target.id) (is_admin_of o target)
          (λ m. m.user_id == target.id) (changed_membership command) d.memberships membership member
          own
          (subst (λ k. is_admin_of k target (changed_membership command membership) ≡ true) of
            (rw (own, there, still) refl)) in
      any_where-updated (λ u. u.id == target.id) (is_accessible_admin after o)
        (λ u. u.id == target.id) (changed_user command) d.users target stored (ground arith)
        (rw (active, administers) verified)
