-- ===== src/Oauth2/Flows.antt =====
-- Steps of a request that has committed nothing: what they read, and that a failure leaves the
-- tables as they were.
use zero_auth_lite.Prelude.{◌≡◌, refl, ◌⊎◌, inl, inr}
use zero_auth_lite.Database.{Outcome, ok, err, Connection, view}
use zero_auth_lite.Database.Laws.{Ends}
use zero_auth_lite.Oauth2.Errors.{Error}
use zero_auth_lite.Oauth2.Tables.{Tables, ask, attempt, or_raise_outcome}

-- The committed tables are still those at the start.
abbrev pub Untouched : Tables → Error → Connection Tables → Type 0
Untouched d e c = c.committed ≡ d

-- The request reads what it read at the start, and has committed nothing.
pub record Reads (d : Tables) (c : Connection Tables) : Type 0 where
  pub committed : c.committed ≡ d
  pub reads : view c ≡ d

pub ask-Ends :
    {A : Type 0} (f : Tables → Outcome Error A) (d : Tables) (c : Connection Tables)
    → c.committed ≡ d
    → Ends (λ a c'. (c' ≡ c) × (f (view c) ≡ ok a)) (Untouched d) (ask f c)
ask-Ends {A} f d c kept = answered (f (view c)) refl
  where
    answered :
        (o : Outcome Error A)
        → f (view c) ≡ o
        → Ends (λ a c'. (c' ≡ c) × (f (view c) ≡ ok a)) (Untouched d) (o, c)
    answered (ok a) e = (refl, e)
    answered (err x) e = kept

pub attempt-Ends :
    {A : Type 0} (f : Tables → Outcome Error (A × Tables)) (d : Tables) (c : Connection Tables)
    → c.committed ≡ d
    → Ends (λ a c'. (c'.committed ≡ d) × (f (view c) ≡ ok (a, view c'))) (Untouched d) (attempt f c)
attempt-Ends {A} f d c kept = elim (Outcome-cases (f (view c))) [
  | inl ((a, d'), e) ↦ rw (e, attempt) (kept, refl)
  | inr (x, e) ↦ rw (e, attempt) kept
]
  where
    Outcome-cases :
        (o : Outcome Error (A × Tables))
        → ((r : A × Tables) × (o ≡ ok r)) ⊎ ((x : Error) × (o ≡ err x))
    Outcome-cases (ok r) = inl (r, refl)
    Outcome-cases (err x) = inr (x, refl)

pub or_raise_outcome-Ends :
    {A : Type 0} (o : Outcome Error A) (d : Tables) (c : Connection Tables)
    → c.committed ≡ d
    → Ends (λ a c'. (c' ≡ c) × (o ≡ ok a)) (Untouched d) (or_raise_outcome o c)
or_raise_outcome-Ends (ok a) d c kept = (refl, refl)
or_raise_outcome-Ends (err e) d c kept = kept
