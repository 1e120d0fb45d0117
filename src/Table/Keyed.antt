-- ===== src/Table/Keyed.antt =====
-- A table with a unique integer key: its rows seen through the key.
use zero_auth_lite.Prelude.{
  ℕ, ◌≡◌, refl, Bool, ◌&&◌, Option, none, some, List, [], ◌∷◌, arith, ◌==◌, All, ==_iff,
}
use zero_auth_lite.Table.{
  passing, changed, dropped, find_where, update_where, delete_where, All-find_where,
  find_where-holds,
}

module _ {A : Type 0} (key : A → ℕ) where
  -- The row with a key.
  abbrev pub row : ℕ → List A → Option A
  row i = find_where (λ r. key r == i)

  -- No two rows have the same key.
  abbrev pub UniqueKeys : List A → Type 0
  UniqueKeys [] = Unit
  UniqueKeys (r ∷ rs) = (row (key r) rs ≡ none) × UniqueKeys rs

  find_where_absent :
      (i : ℕ) (p : A → Bool) (rs : List A)
      → row i rs ≡ none
      → find_where (λ r. key r == i && p r) rs ≡ none
  find_where_absent i p [] h = refl
  find_where_absent i p (x ∷ rs) h = ground (arith, find_where_absent i p rs)

  -- With unique keys, a search for a key under a further test finds the row of the key or nothing.
  pub find_where-passing :
      (i : ℕ) (p : A → Bool) (rs : List A)
      → UniqueKeys rs
      → find_where (λ r. key r == i && p r) rs ≡ passing p (row i rs)
  find_where-passing i p [] u = refl
  find_where-passing i p (x ∷ rs) u =
      ground (arith, find_where-passing i p rs u.1, find_where_absent i p rs)

  -- An update that keeps the keys changes the row of a key if it passes, and nothing else.
  pub row-update_where :
      (i : ℕ) (p : A → Bool) (f : A → A) (rs : List A)
      → ((r : A) → key (f r) ≡ key r)
      → row i (update_where p f rs) ≡ changed p f (row i rs)
  row-update_where i p f [] same = refl
  row-update_where i p f (x ∷ rs) same = ground (arith, same x, row-update_where i p f rs same)

  row-delete_where_absent :
      (i : ℕ) (p : A → Bool) (rs : List A) → row i rs ≡ none → row i (delete_where p rs) ≡ none
  row-delete_where_absent i p [] h = refl
  row-delete_where_absent i p (x ∷ rs) h = ground (arith, row-delete_where_absent i p rs)

  pub row-delete_where :
      (i : ℕ) (p : A → Bool) (rs : List A)
      → UniqueKeys rs
      → row i (delete_where p rs) ≡ dropped p (row i rs)
  row-delete_where i p [] u = refl
  row-delete_where i p (x ∷ rs) u =
      ground (arith, row-delete_where i p rs u.1, row-delete_where_absent i p rs)

  pub update_where-UniqueKeys :
      (p : A → Bool) (f : A → A) (rs : List A)
      → ((r : A) → key (f r) ≡ key r)
      → UniqueKeys rs
      → UniqueKeys (update_where p f rs)
  update_where-UniqueKeys p f [] same u = tt
  update_where-UniqueKeys p f (x ∷ rs) same u =
      ground (
        arith,
        same x,
        row-update_where (key x) p f rs same,
        update_where-UniqueKeys p f rs same u.1,
      )

  pub delete_where-UniqueKeys :
      (p : A → Bool) (rs : List A) → UniqueKeys rs → UniqueKeys (delete_where p rs)
  delete_where-UniqueKeys p [] u = tt
  delete_where-UniqueKeys p (x ∷ rs) u =
      ground (arith, row-delete_where_absent (key x) p rs, delete_where-UniqueKeys p rs u.1)

  pub All-row {κ} :
      (P : A → Type κ) (i : ℕ) (rs : List A) {r : A} → All P rs → row i rs ≡ some r → P r
  All-row P i rs h e = All-find_where P (λ r. key r == i) rs h e

  pub row_key : (i : ℕ) (rs : List A) (r : A) → row i rs ≡ some r → key r ≡ i
  row_key i rs r e = (==_iff (key r) i).0 (find_where-holds (λ r. key r == i) rs r e)

  update_where_absent :
      (i : ℕ) (p : A → Bool) (f : A → A) (rs : List A)
      → row i rs ≡ none
      → update_where (λ r. key r == i && p r) f rs ≡ rs
  update_where_absent i p f [] h = refl
  update_where_absent i p f (x ∷ rs) h = ground (arith, update_where_absent i p f rs)

  update_where_absent_key :
      (i : ℕ) (f : A → A) (rs : List A) → row i rs ≡ none → update_where (λ r. key r == i) f rs ≡ rs
  update_where_absent_key i f [] h = refl
  update_where_absent_key i f (x ∷ rs) h = ground (arith, update_where_absent_key i f rs)

  -- To find a row by its key and a test and then to write it by its key is one update.
  pub update_found :
      (i : ℕ) (p : A → Bool) (f : A → A) (rs : List A) (l : A)
      → UniqueKeys rs
      → find_where (λ r. key r == i && p r) rs ≡ some l
      → update_where (λ r. key r == key l) f rs ≡ update_where (λ r. key r == i && p r) f rs
  update_found i p f [] l u e = refl
  update_found i p f (x ∷ rs) l u e = ground (
    arith,
    find_where_absent i p rs,
    update_where_absent i p f rs,
    update_where_absent_key (key x) f rs,
    update_found i p f rs l u.1,
    find_where-holds (λ r. key r == i && p r) rs l,
  )

  All-weaken :
      (x : A) (rs ys : List A)
      → row (key x) rs ≡ none
      → All (λ r. row (key r) rs ≡ some r) ys
      → All (λ r. row (key r) (x ∷ rs) ≡ some r) ys
  All-weaken x rs [] h g = tt
  All-weaken x rs (y ∷ ys) h g = (ground arith, All-weaken x rs ys h g.1)

  -- With unique keys, every row is the row of its key.
  pub All-row_self : (rs : List A) → UniqueKeys rs → All (λ r. row (key r) rs ≡ some r) rs
  All-row_self [] u = tt
  All-row_self (x ∷ rs) u = (ground arith, All-weaken x rs rs u.0 (All-row_self rs u.1))
