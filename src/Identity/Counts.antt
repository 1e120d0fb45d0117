-- ===== src/Identity/Counts.antt =====
-- Rows that exist, rows that are counted, and rows that a deletion spares.
use zero_auth_lite.Prelude.{
  ℕ, zero, suc, ◌*◌, ◌≤◌, ◌≡◌, refl, Bool, true, false, not, ◌&&◌, none, some, List, [], ◌∷◌, arith,
  leb, ◌==◌, ==_iff, is_not_null, All, Bool-cases, inl, inr, subst, sym,
}
use zero_auth_lite.Table.{find_where, count_where, delete_where, insert_by, order_by}
use zero_auth_lite.Table.Keyed.{row, UniqueKeys}
use zero_auth_lite.Oauth2.Tables.{User}
use zero_auth_lite.Identity.AccessInvariants.{count_joined}

module _ {A : Type 0} where
  abbrev pub any_where : (A → Bool) → List A → Bool
  any_where p rs = is_not_null (find_where p rs)

  pub any_where-found :
      (p q : A → Bool) (rs : List A) (x : A)
      → find_where p rs ≡ some x
      → q x ≡ true
      → any_where q rs ≡ true
  any_where-found p q [] x e h = cc
  any_where-found p q (y ∷ rs) x e h = elim (Bool-cases (q y)) [
    | inl t ↦ rw t refl
    | inr f ↦ elim (Bool-cases (p y)) [
      | inl t ↦
          let same : y ≡ x = ground arith in
          absurd (let z = subst (λ v. q v ≡ true) (sym same) h in cc)
      | inr g ↦ rw f (any_where-found p q rs x (rw g at e) h)
    ]
  ]

  pub any_where_weaker :
      (p q : A → Bool) (rs : List A)
      → ((x : A) → p x ≡ true → q x ≡ true)
      → any_where p rs ≡ true
      → any_where q rs ≡ true
  any_where_weaker p q [] h e = e
  any_where_weaker p q (x ∷ rs) h e = ground (arith, h x, any_where_weaker p q rs h)

  -- Where the rows that pass are spared, a deletion does not change the search.
  pub find_where-spared :
      (p q : A → Bool) (rs : List A)
      → ((x : A) → p x ≡ true → q x ≡ false)
      → find_where p (delete_where q rs) ≡ find_where p rs
  find_where-spared p q [] h = refl
  find_where-spared p q (x ∷ rs) h = ground (arith, h x, find_where-spared p q rs h)

  -- A row that passes and is spared is there after a deletion, whatever passes then.
  pub any_where-delete_where :
      (p p' q : A → Bool) (rs : List A)
      → ((x : A) → q x ≡ false → p x ≡ true → p' x ≡ true)
      → any_where (λ x. p x && not (q x)) rs ≡ true
      → any_where p' (delete_where q rs) ≡ true
  any_where-delete_where p p' q [] h e = cc
  any_where-delete_where p p' q (x ∷ rs) h e =
      ground (arith, h x, any_where-delete_where p p' q rs h)

  pub count_where-any :
      (p : A → Bool) (rs : List A) → (count_where p rs == 0) ≡ false → any_where p rs ≡ true
  count_where-any p [] h = cc
  count_where-any p (x ∷ rs) h = ground (arith, count_where-any p rs)

  pub count_where-none :
      (p : A → Bool) (rs : List A) → find_where p rs ≡ none → count_where p rs ≡ 0
  count_where-none p [] h = refl
  count_where-none p (x ∷ rs) h = ground (arith, count_where-none p rs)

  All-insert_by_inv :
      (P : A → Type 0) (key : A → ℕ) (r : A) (rs : List A)
      → All P (insert_by key r rs)
      → P r × All P rs
  All-insert_by_inv P key r [] h = h
  All-insert_by_inv P key r (x ∷ rs) h = elim (Bool-cases (leb (key r) (key x))) [
    | inl t ↦ rw t at h
    | inr f ↦
        let g = rw f at h in
        let (at_r, at_rs) = All-insert_by_inv P key r rs g.1 in (at_r, (g.0, at_rs))
  ]

  pub All-order_by_inv :
      (P : A → Type 0) (key : A → ℕ) (rs : List A) → All P (order_by key rs) → All P rs
  All-order_by_inv P key [] h = tt
  All-order_by_inv P key (x ∷ rs) h =
      let (at_x, at_rs) = All-insert_by_inv P key x (order_by key rs) h in
      (at_x, All-order_by_inv P key rs at_rs)

pub product_some : (a b : ℕ) → (a * b == 0) ≡ false → ((a == 0) ≡ false) × ((b == 0) ≡ false)
product_some zero b h = absurd (ground arith)
product_some (suc a) zero h = absurd (ground arith)
product_some (suc a) (suc b) h = (ground arith, ground arith)

module _ (rows : User → ℕ) where
  pub count_joined-any :
      (us : List User)
      → (count_joined rows us == 0) ≡ false
      → any_where (λ u. not (rows u == 0)) us ≡ true
  count_joined-any [] h = cc
  count_joined-any (u ∷ us) h = ground (arith, count_joined-any us)

  abbrev pub is_other : ℕ → User → Bool
  is_other i u = not (rows u == 0) && not (u.id == i)

  count_joined_absent :
      (i : ℕ) (us : List User)
      → row (λ (u : User). u.id) i us ≡ none
      → any_where (is_other i) us ≡ false
      → count_joined rows us ≡ 0
  count_joined_absent i [] h e = refl
  count_joined_absent i (u ∷ us) h e = ground (arith, count_joined_absent i us)

  count_joined_alone :
      (i : ℕ) (us : List User)
      → ((u : User) → rows u ≤ 1)
      → UniqueKeys (λ (u : User). u.id) us
      → any_where (is_other i) us ≡ false
      → count_joined rows us ≤ 1
  count_joined_alone i [] most u e = ground arith
  count_joined_alone i (x ∷ us) most u e = elim (Bool-cases (x.id == i)) [
    | inl same ↦
        let none_later =
          count_joined_absent i us
            (subst (λ k. row (λ (u : User). u.id) k us ≡ none) ((==_iff x.id i).0 same) u.0)
            (ground arith) in
        omega (arith, none_later, most x)
    | inr other ↦
        let later = count_joined_alone i us most u.1 (ground arith) in
        let nothing : rows x ≡ 0 = ground arith in omega (arith, nothing, later)
  ]

  -- More rows than one user has are rows of another user.
  pub count_joined-other :
      (i : ℕ) (us : List User)
      → ((u : User) → rows u ≤ 1)
      → UniqueKeys (λ (u : User). u.id) us
      → leb (count_joined rows us) 1 ≡ false
      → any_where (is_other i) us ≡ true
  count_joined-other i us most u h = elim (Bool-cases (any_where (is_other i) us)) [
    | inl t ↦ t
    | inr f ↦ let few = count_joined_alone i us most u f in ground (arith, few)
  ]
