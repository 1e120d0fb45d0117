-- ===== src/Database.antt =====
-- `app/db/dependencies.py`: the request-scoped session, which commits when the handler returns and
-- rolls back when it raises, and independent transactions, which commit at once. An action takes a
-- connection to an outcome and the connection after it. Between two statements of a request no
-- other request acts: interleavings are stated over whole transactions.
pub mod Laws
use zero_auth_lite.Prelude.{Option, none, some, Bool, true, false}

pub data Outcome (E A : Type 0) : Type 0 where
  ok : A → Outcome E A
  err : E → Outcome E A

-- What is committed, and the request's own writes, once it has made any.
pub record Connection (D : Type 0) : Type 0 where
  pub committed : D
  pub pending : Option D

-- A handler's step, over the tables `D`, with the exceptions `E`.
abbrev pub Action : Type 0 → Type 0 → Type 0 → Type 0
Action D E A = Connection D → Outcome E A × Connection D

-- What a statement of the request reads.
abbrev pub view : {D : Type 0} → Connection D → D
view c = elim c.pending [ none ↦ c.committed | some d ↦ d ]

infixl 5 ◌>>=◌ ◌>>◌
abbrev pub ◌>>=◌ : {D E A B : Type 0} → Action D E A → (A → Action D E B) → Action D E B
◌>>=◌ m f c = let (r, c') = m c in elim r [ ok a ↦ f a c' | err e ↦ (err e, c') ]

abbrev pub ◌>>◌ : {D E A B : Type 0} → Action D E A → Action D E B → Action D E B
m >> k = m >>= λ _. k

module _ {D E A : Type 0} where
  abbrev pub pure : A → Action D E A
  pure a c = (ok a, c)

  abbrev pub raise : E → Action D E A
  raise e c = (err e, c)

  -- A `SELECT`.
  abbrev pub query : (D → A) → Action D E A
  query f c = (ok (f (view c)), c)

  -- An `INSERT`, `UPDATE` or `DELETE` with what it returns.
  abbrev pub execute : (D → A × D) → Action D E A
  execute f c =
      let (a, d) = f (view c) in (ok a, record { committed = c.committed; pending = some d })

  -- `independent_transaction`: it commits by itself. While the request has writes of its own,
  -- SQLite's one writer lock is taken, and the statement fails.
  abbrev pub independently : E → (D → A × D) → Action D E A
  independently busy f c = elim c.pending [
    | none ↦ let (a, d) = f c.committed in (ok a, record { committed = d; pending = none })
    | some d ↦ (err busy, c)
  ]

  abbrev pub or_raise : Option A → E → Action D E A
  or_raise none e = raise e
  or_raise (some a) e = pure a

-- `db_session.commit()`
abbrev pub commit : {D E : Type 0} → Action D E (Unit {0})
commit c = (ok tt, record { committed = view c; pending = none })

abbrev pub raise_if : {D E : Type 0} → Bool → E → Action D E (Unit {0})
raise_if true e = raise e
raise_if false e = pure tt

-- A connection with no writes of its own.
abbrev pub fresh : {D : Type 0} → D → Connection D
fresh d = record { committed = d; pending = none }

-- `database_session`: the outcome of a handler, and what is committed after it.
abbrev pub finish : {D E A : Type 0} → Outcome E A × Connection D → Outcome E A × D
finish (ok a, c) = (ok a, view c)
finish (err e, c) = (err e, c.committed)

abbrev pub request : {D E A : Type 0} → Action D E A → D → Outcome E A × D
request m d = finish (m (fresh d))
