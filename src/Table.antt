-- ===== src/Table.antt =====
-- SQL statements on one table, read as operations on the list of its rows. A statement that the
-- source builds by `select`, `update` and `delete` is one of these, with its `where` clauses as
-- one test on a row.
pub mod Keyed
use zero_auth_lite.Prelude.{
  ℕ, suc, ◌≤◌, ◌≡◌, refl, Bool, true, false, not, ◌&&◌, Option, none, some, List, [], ◌∷◌, arith,
  leb, if◌then◌else◌, All, subst, sym, ap, inl, inr, Bool-cases,
}

module _ {ℓ} {A : Type ℓ} where
  -- `SELECT … WHERE p`
  abbrev pub select_where : (A → Bool) → List A → List A
  select_where p [] = []
  select_where p (r ∷ rs) = let rest = select_where p rs in if p r then r ∷ rest else rest

  -- The first row of `SELECT … WHERE p`: `scalar`, and `one_or_none` on a unique key.
  abbrev pub find_where : (A → Bool) → List A → Option A
  find_where p [] = none
  find_where p (r ∷ rs) = if p r then some r else find_where p rs

  -- `SELECT count(*) … WHERE p`
  abbrev pub count_where : (A → Bool) → List A → ℕ
  count_where p [] = 0
  count_where p (r ∷ rs) = let n = count_where p rs in if p r then suc n else n

  -- `UPDATE … SET f WHERE p`
  abbrev pub update_where : (A → Bool) → (A → A) → List A → List A
  update_where p f [] = []
  update_where p f (r ∷ rs) = (if p r then f r else r) ∷ update_where p f rs

  -- `DELETE … WHERE p`
  abbrev pub delete_where : (A → Bool) → List A → List A
  delete_where p [] = []
  delete_where p (r ∷ rs) = let rest = delete_where p rs in if p r then rest else r ∷ rest

  -- `ORDER BY key`
  abbrev pub insert_by : (A → ℕ) → A → List A → List A
  insert_by key r [] = r ∷ []
  insert_by key r (s ∷ rs) = if leb (key r) (key s) then r ∷ s ∷ rs else s ∷ insert_by key r rs

  abbrev pub order_by : (A → ℕ) → List A → List A
  order_by key [] = []
  order_by key (r ∷ rs) = insert_by key r (order_by key rs)

  -- What a statement with a test does to a row that was found.
  abbrev pub passing : (A → Bool) → Option A → Option A
  passing p none = none
  passing p (some r) = if p r then some r else none

  abbrev pub changed : (A → Bool) → (A → A) → Option A → Option A
  changed p f none = none
  changed p f (some r) = some (if p r then f r else r)

  abbrev pub dropped : (A → Bool) → Option A → Option A
  dropped p none = none
  dropped p (some r) = if p r then none else some r

  -- An update that no search can see changes the row that is found, and finds no other.
  pub find_where-update_where :
      (q p : A → Bool) (f : A → A) (rs : List A)
      → ((r : A) → q (f r) ≡ q r)
      → find_where q (update_where p f rs) ≡ changed p f (find_where q rs)
  find_where-update_where q p f [] same = refl
  find_where-update_where q p f (x ∷ rs) same =
      ground (arith, same x, find_where-update_where q p f rs same)

  pub find_where-holds :
      (p : A → Bool) (rs : List A) (r : A) → find_where p rs ≡ some r → p r ≡ true
  find_where-holds p [] r e = cc
  find_where-holds p (x ∷ rs) r e = ground (arith, find_where-holds p rs r)

  -- Where no row passes, no row that a search finds passes.
  pub passing-find_where :
      (p q : A → Bool) (rs : List A) → find_where p rs ≡ none → passing p (find_where q rs) ≡ none
  passing-find_where p q [] e = refl
  passing-find_where p q (x ∷ rs) e = ground (arith, passing-find_where p q rs)

  -- A further test that the first row found passes does not change the search.
  pub find_where-narrowed :
      (p q : A → Bool) (rs : List A) (r : A)
      → find_where p rs ≡ some r
      → q r ≡ true
      → find_where (λ x. p x && q x) rs ≡ some r
  find_where-narrowed p q [] r e h = cc
  find_where-narrowed p q (x ∷ rs) r e h = elim (Bool-cases (p x)) [
    | inl t ↦
        let same : x ≡ r = ground arith in
        let passes : q x ≡ true = subst (λ y. q y ≡ true) (sym same) h in
        rw (t, passes) (ap some same)
    | inr f ↦ rw f (find_where-narrowed p q rs r (rw f at e) h)
  ]

  pub All-find_where {κ} :
      (P : A → Type κ) (p : A → Bool) (rs : List A) {r : A}
      → All P rs
      → find_where p rs ≡ some r
      → P r
  All-find_where P p [] h e = absurd (cc)
  All-find_where P p (x ∷ rs) {r} h e = elim (Bool-cases (p x)) [
    | inl t ↦ let q : x ≡ r = ground arith in subst P q h.0
    | inr f ↦ All-find_where P p rs h.1 (rw f at e)
  ]

  -- No row is left that a deletion asked for.
  pub find_where-delete_where :
      (p : A → Bool) (rs : List A) → find_where p (delete_where p rs) ≡ none
  find_where-delete_where p [] = refl
  find_where-delete_where p (x ∷ rs) = ground (arith, find_where-delete_where p rs)

  pub All-update_where {κ} :
      (P : A → Type κ) (p : A → Bool) (f : A → A) (rs : List A)
      → ((r : A) → P r → p r ≡ true → P (f r))
      → All P rs
      → All P (update_where p f rs)
  All-update_where P p f [] keep h = tt
  All-update_where P p f (x ∷ rs) keep h = (
    elim (Bool-cases (p x)) [ inl t ↦ rw t (keep x h.0 t) | inr e ↦ rw e h.0 ],
    All-update_where P p f rs keep h.1,
  )

  pub All-delete_where {κ} :
      (P : A → Type κ) (p : A → Bool) (rs : List A) → All P rs → All P (delete_where p rs)
  All-delete_where P p [] h = tt
  All-delete_where P p (x ∷ rs) h = elim (Bool-cases (p x)) [
    | inl t ↦ rw t (All-delete_where P p rs h.1)
    | inr e ↦ rw e (h.0, All-delete_where P p rs h.1)
  ]

  -- A selection holds the rows that pass.
  pub All-select_where {κ} :
      (P : A → Type κ) (p : A → Bool) (rs : List A)
      → All P rs
      → All (λ r. P r × (p r ≡ true)) (select_where p rs)
  All-select_where P p [] h = tt
  All-select_where P p (x ∷ rs) h = elim (Bool-cases (p x)) [
    | inl t ↦ rw t ((h.0, t), All-select_where P p rs h.1)
    | inr e ↦ rw e (All-select_where P p rs h.1)
  ]

  pub All-insert_by {κ} :
      (P : A → Type κ) (key : A → ℕ) (r : A) (rs : List A)
      → P r
      → All P rs
      → All P (insert_by key r rs)
  All-insert_by P key r [] p h = (p, tt)
  All-insert_by P key r (x ∷ rs) p h = elim (Bool-cases (leb (key r) (key x))) [
    | inl t ↦ rw t (p, h)
    | inr e ↦ rw e (h.0, All-insert_by P key r rs p h.1)
  ]

  pub All-order_by {κ} :
      (P : A → Type κ) (key : A → ℕ) (rs : List A) → All P rs → All P (order_by key rs)
  All-order_by P key [] h = tt
  All-order_by P key (x ∷ rs) h = All-insert_by P key x _ h.0 (All-order_by P key rs h.1)

  -- An update whose test no row passes changes nothing.
  pub update_where_unfound :
      (p : A → Bool) (f : A → A) (rs : List A) → find_where p rs ≡ none → update_where p f rs ≡ rs
  update_where_unfound p f [] h = refl
  update_where_unfound p f (x ∷ rs) h = ground (arith, update_where_unfound p f rs)
