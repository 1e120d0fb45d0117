-- ===== src/Identity/Guarantees.antt =====
-- What `app/identity/services/access_invariants.py` guarantees: that an accessible operator, and an
-- accessible administrator of each organization, stays.
use zero_auth_lite.Prelude.{
  ℕ, ◌≤◌, ◌≡◌, refl, sym, ap, subst, Bool, true, false, ◌&&◌, ◌⊎◌, inl, inr, Bool-cases, none, some,
  List, [], ◌∷◌, ◌==◌, ==_iff, if◌then◌else◌, is_not_null, All, arith,
}
use zero_auth_lite.Table.{find_where, count_where}
use zero_auth_lite.Table.Keyed.{row, UniqueKeys, find_where-passing}
use zero_auth_lite.Database.{Outcome, ok, err}
use zero_auth_lite.Oauth2.Tables.{User, UserEmail, Membership}
use zero_auth_lite.Oauth2.Identity.{is_current, current_email}
use zero_auth_lite.Identity.AccessInvariants.{
  IdentityError, Accounts, is_admin, is_verified_of, is_admin_of, email_verified, accessible,
  Targets, is_target, or_else, protects_operator, Organizations, cons_if, protected_organizations,
}
use zero_auth_lite.Identity.Counts.{any_where, count_where-none}

-- At most one current address for a user.
abbrev pub OneCurrent : List UserEmail → Type 0
OneCurrent [] = Unit
OneCurrent (e ∷ es) =
    (is_current e.status ≡ true
      → find_where (λ x. x.user_id == e.user_id && is_current x.status) es ≡ none)
    × OneCurrent es

pub record IsAccounts (d : Accounts) : Type 0 where
  pub unique_users : UniqueKeys (λ (u : User). u.id) d.users
  pub one_current : OneCurrent d.emails
  pub one_membership : UniqueKeys (λ (m : Membership). m.user_id) d.memberships

-- An active operator with a verified current address.
abbrev pub is_accessible_operator : Accounts → User → Bool
is_accessible_operator d u = u.is_operator && (u.is_active && any_where (is_verified_of u) d.emails)

-- An active administrator of an organization, with a verified current address.
abbrev pub is_accessible_admin : Accounts → ℕ → User → Bool
is_accessible_admin d o u =
    u.is_active
    && (any_where (is_admin_of o u) d.memberships && any_where (is_verified_of u) d.emails)

-- The rows of the targets are those of the tables.
pub record IsStored (d : Accounts) (t : User × Membership) : Type 0 where
  pub user : row (λ (u : User). u.id) t.0.id d.users ≡ some t.0
  pub membership : row (λ (m : Membership). m.user_id) t.0.id d.memberships ≡ some t.1

no_current-verified :
    (u : User) (es : List UserEmail)
    → find_where (λ x. x.user_id == u.id && is_current x.status) es ≡ none
    → find_where (is_verified_of u) es ≡ none
no_current-verified u [] h = refl
no_current-verified u (e ∷ es) h = ground (arith, no_current-verified u es)

later_current :
    (u : User) (e : UserEmail) (es : List UserEmail)
    → OneCurrent (e ∷ es)
    → (e.user_id == u.id && is_current e.status) ≡ true
    → find_where (λ x. x.user_id == u.id && is_current x.status) es ≡ none
later_current u e es one h =
    subst (λ i. find_where (λ (x : UserEmail). x.user_id == i && is_current x.status) es ≡ none)
      ((==_iff e.user_id u.id).0 (ground arith)) (one.0 (ground arith))

verified_current :
    (u : User) (es : List UserEmail)
    → OneCurrent es
    → any_where (is_verified_of u) es ≡ true
    → (e : UserEmail) × (current_email u es ≡ some e) × (is_not_null e.verified_at ≡ true)
verified_current u [] one h = cc
verified_current u (e ∷ es) one h = elim (Bool-cases (e.user_id == u.id && is_current e.status)) [
  | inl t ↦
      let later = no_current-verified u es (later_current u e es one t) in
      (e, rw t refl, ground arith)
  | inr f ↦
      let (found, at, verified) = verified_current u es one.1 (ground arith) in
      (found, rw f at, verified)
]

pub verified_count :
    (u : User) (es : List UserEmail) → OneCurrent es → count_where (is_verified_of u) es ≤ 1
verified_count u [] one = ground arith
verified_count u (e ∷ es) one = elim (Bool-cases (e.user_id == u.id && is_current e.status)) [
  | inl t ↦
      let later =
        count_where-none (is_verified_of u) es
          (no_current-verified u es (later_current u e es one t)) in
      ground (arith, later)
  | inr f ↦ ground (arith, verified_count u es one.1)
]

pub accessible-true :
    (u : User) (d : Accounts)
    → IsAccounts d
    → u.is_active ≡ true
    → any_where (is_verified_of u) d.emails ≡ true
    → accessible u d ≡ ok true
unfolding accessible
accessible-true u d v active h =
    let (e, at, verified) = verified_current u d.emails v.one_current h in
    let answer : email_verified u d ≡ ok true = rw (at, verified, email_verified) refl in
    subst (λ b. (if b then email_verified u d else ok false) ≡ ok true) (sym active) answer

-- The first target with a stored user's key is that user.
pub target_same :
    (d : Accounts) (x u : User) (m : Membership)
    → IsStored d (u, m)
    → row (λ (y : User). y.id) x.id d.users ≡ some x
    → (u.id == x.id) ≡ true
    → u ≡ x
target_same d x u m s at h =
    let same = (==_iff u.id x.id).0 h in
    let found = subst (λ i. row (λ (y : User). y.id) i d.users ≡ some u) same s.user in cc

ok_value : (a b : Bool) → ◌≡◌ {A = Outcome IdentityError Bool} (ok a) (ok b) → a ≡ b
ok_value a b h = ap (λ (o : Outcome IdentityError Bool). elim o [ ok c ↦ c | err _ ↦ true ]) h

ok_list : (a b : List ℕ) → ◌≡◌ {A = Organizations} (ok a) (ok b) → a ≡ b
ok_list a b h = ap (λ (o : Organizations). elim o [ ok c ↦ c | err _ ↦ [] ]) h

or_else-ok :
    (o rest : Outcome IdentityError Bool) (b : Bool)
    → or_else o rest ≡ ok b
    → (b ≡ true) ⊎ (rest ≡ ok b)
or_else-ok (err e) rest b h = absurd (cc)
or_else-ok (ok true) rest b h = inl (sym (ok_value true b h))
or_else-ok (ok false) rest b h = inr h

operator_step :
    (first : Bool) (o rest : Outcome IdentityError Bool) (b : Bool)
    → (if first then or_else o rest else rest) ≡ ok b
    → (b ≡ true) ⊎ (rest ≡ ok b)
operator_step true o rest b h = or_else-ok o rest b h
operator_step false o rest b h = inr h

operator_here :
    (first : Bool) (o rest : Outcome IdentityError Bool) (b : Bool)
    → first ≡ true
    → o ≡ ok true
    → (if first then or_else o rest else rest) ≡ ok b
    → b ≡ true
operator_here first o rest b f e h = sym (ok_value true b (rw (f, e) at h))

pub protects_operator-true :
    (d : Accounts) (ts : Targets) (x : User) (b : Bool)
    → IsAccounts d
    → All (IsStored d) ts
    → row (λ (y : User). y.id) x.id d.users ≡ some x
    → is_accessible_operator d x ≡ true
    → is_target ts x.id ≡ true
    → protects_operator ts d ≡ ok b
    → b ≡ true
unfolding protects_operator
protects_operator-true d [] x b v s at p t h = cc
protects_operator-true d ((u, m) ∷ ts) x b v s at p t h = elim (Bool-cases (u.id == x.id)) [
  | inl same ↦
      let user : u ≡ x = target_same d x u m s.0 at same in
      let reached = accessible-true x d v (ground arith) (ground arith) in
      operator_here u.is_operator (accessible u d) (protects_operator ts d) b
        (subst (λ y. y.is_operator ≡ true) (sym user) (ground arith))
        (subst (λ y. accessible y d ≡ ok true) (sym user) reached) h
  | inr other ↦ elim (operator_step u.is_operator (accessible u d) (protects_operator ts d) b h) [
    | inl t' ↦ t'
    | inr k ↦ protects_operator-true d ts x b v s.1 at p (ground arith) k
  ]
]

-- The membership of a target who is the administrator.
pub target_admin :
    (d : Accounts) (o : ℕ) (x : User) (m : Membership)
    → IsAccounts d
    → row (λ (k : Membership). k.user_id) x.id d.memberships ≡ some m
    → any_where (is_admin_of o x) d.memberships ≡ true
    → (m.organization_id ≡ o) × (is_admin m.role ≡ true)
target_admin d o x m v at h =
    let found =
      find_where-passing (λ (k : Membership). k.user_id) x.id
        (λ k. k.organization_id == o && is_admin k.role) d.memberships v.one_membership in
    let passes = rw (found, at) at h in (ground arith, ground arith)

module _ (R : ℕ → Type 0) where
  cons_if-ok :
      (o : Outcome IdentityError Bool) (org : ℕ) (rest : Organizations) (os : List ℕ)
      → cons_if o org rest ≡ ok os
      → All R os
      → (later : List ℕ) × (rest ≡ ok later) × All R later
  cons_if-ok (err e) org rest os h r = absurd (cc)
  cons_if-ok (ok false) org rest os h r = (os, h, r)
  cons_if-ok (ok true) org (err e) os h r = absurd (cc)
  cons_if-ok (ok true) org (ok later) os h r =
      (later, refl, (subst (All R) (sym (ok_list (org ∷ later) os h)) r).1)

  organizations_step :
      (first : Bool) (o : Outcome IdentityError Bool) (org : ℕ) (rest : Organizations) (os : List ℕ)
      → (if first then cons_if o org rest else rest) ≡ ok os
      → All R os
      → (later : List ℕ) × (rest ≡ ok later) × All R later
  organizations_step true o org rest os h r = cons_if-ok o org rest os h r
  organizations_step false o org rest os h r = (os, h, r)

  cons_if_head :
      (org : ℕ) (rest : Organizations) (os : List ℕ)
      → cons_if (ok true) org rest ≡ ok os
      → All R os
      → R org
  cons_if_head org (err e) os h r = absurd (cc)
  cons_if_head org (ok later) os h r = (subst (All R) (sym (ok_list (org ∷ later) os h)) r).0

  organizations_here :
      (first : Bool) (o : Outcome IdentityError Bool) (org : ℕ) (rest : Organizations) (os : List ℕ)
      → first ≡ true
      → o ≡ ok true
      → (if first then cons_if o org rest else rest) ≡ ok os
      → All R os
      → R org
  organizations_here first o org rest os f e h r = cons_if_head org rest os (rw (f, e) at h) r

  pub protected_organizations-All :
      (d : Accounts) (ts : Targets) (x : User) (o : ℕ) (os : List ℕ)
      → IsAccounts d
      → All (IsStored d) ts
      → row (λ (y : User). y.id) x.id d.users ≡ some x
      → is_accessible_admin d o x ≡ true
      → is_target ts x.id ≡ true
      → protected_organizations ts d ≡ ok os
      → All R os
      → R o
  unfolding protected_organizations
  protected_organizations-All d [] x o os v s at p t h r = cc
  protected_organizations-All d ((u, m) ∷ ts) x o os v s at p t h r =
      elim (Bool-cases (u.id == x.id)) [
        | inl same ↦
            let user : u ≡ x = target_same d x u m s.0 at same in
            let stored =
              subst (λ i. row (λ (k : Membership). k.user_id) i d.memberships ≡ some m)
                ((==_iff u.id x.id).0 same) s.0.membership in
            let (org, role) = target_admin d o x m v stored (ground arith) in
            subst R org (
              organizations_here (is_admin m.role) (accessible u d) m.organization_id
                (protected_organizations ts d) os role
                (subst (λ y. accessible y d ≡ ok true) (sym user)
                  (accessible-true x d v (ground arith) (ground arith)))
                h r)
        | inr other ↦
            let (later, e, at_later) =
              organizations_step (is_admin m.role) (accessible u d) m.organization_id
                (protected_organizations ts d) os h r in
            protected_organizations-All d ts x o later v s.1 at p (ground arith) e at_later
      ]
