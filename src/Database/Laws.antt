-- ===== src/Database/Laws.antt =====
-- Postconditions of actions: what holds of the result and the connection on return, and what holds
-- of the exception and the connection on a raise.
use zero_auth_lite.Prelude.{◌≡◌, refl, subst, Bool, true, false, ◌⊎◌, inl, inr}
use zero_auth_lite.Database.{
  Outcome, ok, err, Connection, Action, view, ◌>>=◌, ◌>>◌, raise_if, finish,
}

pub Outcome-cases :
    {E A : Type 0} (o : Outcome E A) → ((a : A) × (o ≡ ok a)) ⊎ ((e : E) × (o ≡ err e))
Outcome-cases (ok a) = inl (a, refl)
Outcome-cases (err e) = inr (e, refl)

module _ {D E A : Type 0} where
  abbrev pub Ends :
      (A → Connection D → Type 0)
      → (E → Connection D → Type 0)
      → Outcome E A × Connection D
      → Type 0
  Ends P Q (ok a, c) = P a c
  Ends P Q (err e, c) = Q e c

  pub Ends-map :
      (P P' : A → Connection D → Type 0) (Q Q' : E → Connection D → Type 0)
      (r : Outcome E A × Connection D)
      → ((a : A) (c : Connection D) → P a c → P' a c)
      → ((e : E) (c : Connection D) → Q e c → Q' e c)
      → Ends P Q r
      → Ends P' Q' r
  Ends-map P P' Q Q' (ok a, c) f g h = f a c h
  Ends-map P P' Q Q' (err e, c) f g h = g e c h

  -- What a postcondition says of a request that returned.
  pub Ends-ok :
      (P : A → Connection D → Type 0) (Q : E → Connection D → Type 0)
      (r : Outcome E A × Connection D) (a : A)
      → Ends P Q r
      → (finish r).0 ≡ ok a
      → (c : Connection D) × P a c × ((finish r).1 ≡ view c)
  Ends-ok P Q (ok b, c) a h e = (c, subst (λ (o : Outcome E A). Ends P Q (o, c)) e h, refl)
  Ends-ok P Q (err b, c) a h e = absurd (cc)

  pub Ends-err :
      (P : A → Connection D → Type 0) (Q : E → Connection D → Type 0)
      (r : Outcome E A × Connection D) (e : E)
      → Ends P Q r
      → (finish r).0 ≡ err e
      → (c : Connection D) × Q e c × ((finish r).1 ≡ c.committed)
  Ends-err P Q (err b, c) e h q = (c, subst (λ (o : Outcome E A). Ends P Q (o, c)) q h, refl)
  Ends-err P Q (ok b, c) e h q = absurd (cc)

module _ {D E A B : Type 0} where
  -- The rule of sequencing.
  pub Ends-bind :
      (P : A → Connection D → Type 0) (R : B → Connection D → Type 0)
      (Q : E → Connection D → Type 0) (m : Action D E A) (f : A → Action D E B) (c : Connection D)
      → Ends P Q (m c)
      → ((a : A) (c' : Connection D) → P a c' → Ends R Q (f a c'))
      → Ends R Q ((m >>= f) c)
  Ends-bind P R Q m f c h k = Ends-step (m c) h
    where
      Ends-step :
          (r : Outcome E A × Connection D)
          → Ends P Q r
          → Ends R Q (let (o, c') = r in elim o [ ok a ↦ f a c' | err e ↦ (err e, c') ])
      Ends-step (ok a, c') h = k a c' h
      Ends-step (err e, c') h = h

module _ {D E B : Type 0} where
  -- The rule of a guard.
  pub Ends-raise_if :
      (R : B → Connection D → Type 0) (Q : E → Connection D → Type 0) (b : Bool) (e : E)
      (k : Action D E B) (c : Connection D)
      → (b ≡ true → Q e c)
      → (b ≡ false → Ends R Q (k c))
      → Ends R Q ((raise_if b e >> k) c)
  Ends-raise_if R Q true e k c f g = f refl
  Ends-raise_if R Q false e k c f g = g refl
