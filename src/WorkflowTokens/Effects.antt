-- ===== src/WorkflowTokens/Effects.antt =====
-- What the writes of `app/workflow_tokens/service.py` do to the active tokens, and to what a search
-- by hash or by event finds.
use zero_auth_lite.Prelude.{
  ℕ, ◌≡◌, refl, sym, ap, subst, Bool, true, false, ◌&&◌, none, some, [], ◌∷◌, arith, Text, ◌==◌,
  if◌then◌else◌, Bool-cases, inl, inr,
}
use zero_auth_lite.Table.{changed, dropped, find_where, update_where, find_where-update_where}
use zero_auth_lite.WorkflowTokens.Rows.{
  WorkflowTokenPurpose, verify_email, email_change, invite, reset_password, purpose_eq, Purposes,
  UserWorkflowToken, is_unused, has_hash, is_active, used,
}
use zero_auth_lite.WorkflowTokens.Service.{
  Rows, is_of_event, renewed, invalidate, WorkflowTokenCreate, new_row, is_taken,
}
use zero_auth_lite.WorkflowTokens.Slots.{
  purpose_eq_sound, slot, OneActive, IsTokenTable, used-IsTokenWrite, update_where-IsTokenTable,
  hash-update_where, event-update_where,
}

pub purpose_eq_refl : (p : WorkflowTokenPurpose) → purpose_eq p p ≡ true
purpose_eq_refl verify_email = refl
purpose_eq_refl email_change = refl
purpose_eq_refl invite = refl
purpose_eq_refl reset_password = refl

pub is_active_self :
    (t : UserWorkflowToken) → is_unused t ≡ true → is_active t.user_email_id t.purpose t ≡ true
is_active_self t h = rw (h, purpose_eq_refl t.purpose) (ground arith)

pub is_active_place :
    (e : ℕ) (p : WorkflowTokenPurpose) (t : UserWorkflowToken)
    → is_active e p t ≡ true
    → (t.user_email_id ≡ e) × (t.purpose ≡ p) × (is_unused t ≡ true)
is_active_place e p t h = (ground arith, purpose_eq_sound t.purpose p (ground arith), ground arith)

is_active_used :
    (e : ℕ) (p : WorkflowTokenPurpose) (now : ℕ) (t : UserWorkflowToken)
    → is_active e p (used now t) ≡ false
is_active_used e p now t = ground arith

is_active-used :
    (e : ℕ) (p : WorkflowTokenPurpose) (b : Bool) (now : ℕ) (t : UserWorkflowToken)
    → is_active e p t ≡ false
    → is_active e p (if b then used now t else t) ≡ false
is_active-used e p true now t h = ground arith
is_active-used e p false now t h = h

-- The slot of an unused row, of which no later row has a second.
slot-head :
    (e : ℕ) (p : WorkflowTokenPurpose) (x : UserWorkflowToken) (rows : Rows)
    → OneActive (x ∷ rows)
    → is_active e p x ≡ true
    → slot e p rows ≡ none
slot-head e p x rows u h =
    let (at, for, live) = is_active_place e p x h in rw (sym at, sym for) (u.0 live)

-- A search that passes in a table with one active token finds the active token.
pub slot-find_where :
    (q : UserWorkflowToken → Bool) (rows : Rows) (t : UserWorkflowToken)
    → OneActive rows
    → find_where q rows ≡ some t
    → is_unused t ≡ true
    → slot t.user_email_id t.purpose rows ≡ some t
slot-find_where q [] t u e live = cc
slot-find_where q (x ∷ rows) t u e live = elim (Bool-cases (q x)) [
  | inl found ↦
      let same : x ≡ t = ground arith in
      let active : is_active t.user_email_id t.purpose x ≡ true =
        subst (λ y. is_active t.user_email_id t.purpose y ≡ true) (sym same)
          (is_active_self t live) in
      rw active (ap some same)
  | inr missed ↦
      let later = slot-find_where q rows t u.1 (rw missed at e) live in
      elim (Bool-cases (is_active t.user_email_id t.purpose x)) [
        | inl both ↦ let absent = slot-head t.user_email_id t.purpose x rows u both in absurd (cc)
        | inr only ↦ rw only later
      ]
]

invalidate-test :
    (e : ℕ) (p : WorkflowTokenPurpose) (addresses : ℕ → Bool) (purposes : Purposes)
    (t : UserWorkflowToken)
    → (t.user_email_id ≡ e) × (t.purpose ≡ p) × (is_unused t ≡ true)
    → (addresses t.user_email_id && (purposes t.purpose && is_unused t))
      ≡ (addresses e && purposes p)
invalidate-test e p addresses purposes t (at, for, live) = rw (at, for, live) (ground arith)

-- An invalidation empties the slots of its addresses and purposes, and no other.
pub slot-invalidate :
    (e : ℕ) (p : WorkflowTokenPurpose) (addresses : ℕ → Bool) (purposes : Purposes) (now : ℕ)
    (rows : Rows)
    → slot e p (invalidate addresses purposes now rows)
      ≡ (if addresses e && purposes p then none else slot e p rows)
unfolding invalidate
slot-invalidate e p addresses purposes now [] = ground arith
slot-invalidate e p addresses purposes now (x ∷ rows) =
    let rest = slot-invalidate e p addresses purposes now rows in
    elim (Bool-cases (is_active e p x)) [
      | inl active ↦
          let tested = invalidate-test e p addresses purposes x (is_active_place e p x active) in
          elim (Bool-cases (addresses e && purposes p)) [
            | inl t ↦ rw (tested, t, is_active_used e p now x) (rw t at rest)
            | inr f ↦ rw (tested, f, active) refl
          ]
      | inr idle ↦
          rw
            (
              idle,
              is_active-used e p (addresses x.user_email_id && (purposes x.purpose && is_unused x))
                  now x idle,
            )
            rest
    ]

-- A use of the rows that pass empties the slots whose token passes, and no other.
pub slot-used :
    (e : ℕ) (p : WorkflowTokenPurpose) (q : UserWorkflowToken → Bool) (now : ℕ) (rows : Rows)
    → OneActive rows
    → slot e p (update_where q (used now) rows) ≡ dropped q (slot e p rows)
slot-used e p q now [] u = refl
slot-used e p q now (x ∷ rows) u =
    let rest = slot-used e p q now rows u.1 in
    elim (Bool-cases (is_active e p x)) [
      | inl active ↦
          let absent = slot-head e p x rows u active in
          elim (Bool-cases (q x)) [
            | inl t ↦ rw (t, active, rest, absent) (ground arith)
            | inr f ↦ rw (f, active) (ground arith)
          ]
      | inr idle ↦ rw (idle, is_active-used e p (q x) now x idle) rest
    ]

pub slot-renewed :
    (e : ℕ) (p : WorkflowTokenPurpose) (q : UserWorkflowToken → Bool) (at : ℕ) (rows : Rows)
    → slot e p (update_where q (renewed at) rows) ≡ changed q (renewed at) (slot e p rows)
slot-renewed e p q at rows = find_where-update_where (is_active e p) q (renewed at) rows λ t. refl

pub invalidate-IsTokenTable :
    (addresses : ℕ → Bool) (purposes : Purposes) (now : ℕ) (rows : Rows)
    → IsTokenTable rows
    → IsTokenTable (invalidate addresses purposes now rows)
unfolding invalidate
invalidate-IsTokenTable addresses purposes now rows =
    update_where-IsTokenTable _ (used now) (used-IsTokenWrite now) rows

pub is_taken-none :
    (new : WorkflowTokenCreate) (rows : Rows)
    → find_where (is_taken new) rows ≡ none
    → (find_where (has_hash new.token_hash) rows ≡ none)
      × (find_where (is_of_event new.source_event_id) rows ≡ none)
is_taken-none new [] e = (refl, refl)
is_taken-none new (x ∷ rows) e = ground (arith, is_taken-none new rows)

-- The rows after a replacement.
abbrev pub replaced : WorkflowTokenCreate → ℕ → ℕ → Rows → Rows
replaced new id now rows =
    new_row new id
    ∷ invalidate (λ e. e == new.user_email_id) (λ p. purpose_eq p new.purpose) now rows

is_active_new :
    (e : ℕ) (p : WorkflowTokenPurpose) (new : WorkflowTokenCreate) (id : ℕ)
    → is_active e p (new_row new id) ≡ (e == new.user_email_id && purpose_eq p new.purpose)
is_active_new e p new id = ground arith

pub slot-replaced :
    (e : ℕ) (p : WorkflowTokenPurpose) (new : WorkflowTokenCreate) (id now : ℕ) (rows : Rows)
    → slot e p (replaced new id now rows) ≡ (
        if e == new.user_email_id && purpose_eq p new.purpose
        then some (new_row new id)
        else slot e p rows)
slot-replaced e p new id now rows =
    rw
      (
        is_active_new e p new id,
        slot-invalidate e p (λ e. e == new.user_email_id) (λ p. purpose_eq p new.purpose) now rows,
      )
      (ground arith)

hash-invalidate_absent :
    (h : Text) (addresses : ℕ → Bool) (purposes : Purposes) (now : ℕ) (rows : Rows)
    → find_where (has_hash h) rows ≡ none
    → find_where (has_hash h) (invalidate addresses purposes now rows) ≡ none
unfolding invalidate
hash-invalidate_absent h addresses purposes now rows e =
    rw (hash-update_where _ (used now) (used-IsTokenWrite now) h rows, e) refl

event-invalidate_absent :
    (event : Text) (addresses : ℕ → Bool) (purposes : Purposes) (now : ℕ) (rows : Rows)
    → find_where (is_of_event event) rows ≡ none
    → find_where (is_of_event event) (invalidate addresses purposes now rows) ≡ none
unfolding invalidate
event-invalidate_absent event addresses purposes now rows e =
    rw (event-update_where _ (used now) (used-IsTokenWrite now) event rows, e) refl

pub replaced-IsTokenTable :
    (new : WorkflowTokenCreate) (id now : ℕ) (rows : Rows)
    → find_where (is_taken new) rows ≡ none
    → IsTokenTable rows
    → IsTokenTable (replaced new id now rows)
replaced-IsTokenTable new id now rows free v =
    let addresses : ℕ → Bool = λ e. e == new.user_email_id in
    let purposes : Purposes = λ p. purpose_eq p new.purpose in
    let after = invalidate-IsTokenTable addresses purposes now rows v in
    let (no_hash, no_event) = is_taken-none new rows free in
    record {
      unique_hashes = (
        hash-invalidate_absent new.token_hash addresses purposes now rows no_hash,
        after.unique_hashes,
      );
      unique_events = (
        λ event e.
            event-invalidate_absent event addresses purposes now rows
              (subst (λ k. find_where (is_of_event k) rows ≡ none) (ground arith) no_event),
        after.unique_events,
      );
      one_active = (
        λ live.
            rw
              (
                slot-invalidate new.user_email_id new.purpose addresses purposes now rows,
                purpose_eq_refl new.purpose,
              )
              (ground arith),
        after.one_active,
      );
    }
