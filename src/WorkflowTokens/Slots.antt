-- ===== src/WorkflowTokens/Slots.antt =====
-- The rows of `app/db/models/workflow_token.py` by address and purpose: its unique columns, and the
-- one active token that `app/workflow_tokens/service.py` keeps for an address and a purpose.
use zero_auth_lite.Prelude.{
  ℕ, ◌≡◌, refl, ap, Bool, true, Option, none, some, [], ◌∷◌, arith, Text, text_eq, holds,
}
use zero_auth_lite.Table.{changed, find_where, update_where, find_where-update_where}
use zero_auth_lite.WorkflowTokens.Rows.{
  WorkflowTokenPurpose, verify_email, email_change, invite, reset_password, purpose_eq,
  UserWorkflowToken, is_unused, has_hash, is_active, used,
}
use zero_auth_lite.WorkflowTokens.Service.{Rows, is_of_event, renewed}

pub purpose_eq_sound : (p q : WorkflowTokenPurpose) → purpose_eq p q ≡ true → p ≡ q
purpose_eq_sound verify_email verify_email h = refl
purpose_eq_sound email_change email_change h = refl
purpose_eq_sound invite invite h = refl
purpose_eq_sound reset_password reset_password h = refl
purpose_eq_sound verify_email email_change h = cc
purpose_eq_sound verify_email invite h = cc
purpose_eq_sound verify_email reset_password h = cc
purpose_eq_sound email_change verify_email h = cc
purpose_eq_sound email_change invite h = cc
purpose_eq_sound email_change reset_password h = cc
purpose_eq_sound invite verify_email h = cc
purpose_eq_sound invite email_change h = cc
purpose_eq_sound invite reset_password h = cc
purpose_eq_sound reset_password verify_email h = cc
purpose_eq_sound reset_password email_change h = cc
purpose_eq_sound reset_password invite h = cc

-- The active token of an address and a purpose.
abbrev pub slot : ℕ → WorkflowTokenPurpose → Rows → Option UserWorkflowToken
slot e p rows = find_where (is_active e p) rows

-- No two rows have the same `token_hash`.
abbrev pub UniqueHashes : Rows → Type 0
UniqueHashes [] = Unit
UniqueHashes (r ∷ rs) = (find_where (has_hash r.token_hash) rs ≡ none) × UniqueHashes rs

-- No two rows have the same `source_event_id`.
abbrev pub UniqueEvents : Rows → Type 0
UniqueEvents [] = Unit
UniqueEvents (r ∷ rs) =
    ((event : Text) → r.source_event_id ≡ some event → find_where (is_of_event event) rs ≡ none)
    × UniqueEvents rs

-- At most one unused token for an address and a purpose.
abbrev pub OneActive : Rows → Type 0
OneActive [] = Unit
OneActive (r ∷ rs) = (is_unused r ≡ true → slot r.user_email_id r.purpose rs ≡ none) × OneActive rs

pub record IsTokenTable (rows : Rows) : Type 0 where
  pub unique_hashes : UniqueHashes rows
  pub unique_events : UniqueEvents rows
  pub one_active : OneActive rows

-- A write that keeps the columns of a token other than its expiry and its use, and revives none.
pub record IsTokenWrite (f : UserWorkflowToken → UserWorkflowToken) : Type 0 where
  pub same_hash : (t : UserWorkflowToken) → (f t).token_hash ≡ t.token_hash
  pub same_event : (t : UserWorkflowToken) → (f t).source_event_id ≡ t.source_event_id
  pub same_email : (t : UserWorkflowToken) → (f t).user_email_id ≡ t.user_email_id
  pub same_purpose : (t : UserWorkflowToken) → (f t).purpose ≡ t.purpose
  pub no_revival : (t : UserWorkflowToken) → is_unused (f t) ≡ true → is_unused t ≡ true

pub used-IsTokenWrite : (now : ℕ) → IsTokenWrite (used now)
used-IsTokenWrite now = record {
  same_hash = λ t. refl;
  same_event = λ t. refl;
  same_email = λ t. refl;
  same_purpose = λ t. refl;
  no_revival = λ t h. cc;
}

pub renewed-IsTokenWrite : (at : ℕ) → IsTokenWrite (renewed at)
renewed-IsTokenWrite at = record {
  same_hash = λ t. refl;
  same_event = λ t. refl;
  same_email = λ t. refl;
  same_purpose = λ t. refl;
  no_revival = λ t h. h;
}

module _ (q : UserWorkflowToken → Bool) (f : UserWorkflowToken → UserWorkflowToken)
    (w : IsTokenWrite f) where
  slot-update_where-none :
      (e : ℕ) (p : WorkflowTokenPurpose) (rows : Rows)
      → slot e p rows ≡ none
      → slot e p (update_where q f rows) ≡ none
  slot-update_where-none e p [] h = refl
  slot-update_where-none e p (x ∷ rows) h =
      ground
        (arith, w.same_email x, w.same_purpose x, w.no_revival x, slot-update_where-none e p rows)

  pub hash-update_where :
      (h : Text) (rows : Rows)
      → find_where (has_hash h) (update_where q f rows) ≡ changed q f (find_where (has_hash h) rows)
  hash-update_where h rows =
      find_where-update_where (has_hash h) q f rows λ t. ap (λ u. text_eq u h) (w.same_hash t)

  pub event-update_where :
      (event : Text) (rows : Rows)
      → find_where (is_of_event event) (update_where q f rows)
        ≡ changed q f (find_where (is_of_event event) rows)
  event-update_where event rows =
      find_where-update_where (is_of_event event) q f rows
        λ t. ap (holds (λ u. text_eq u event)) (w.same_event t)

  update_where-UniqueHashes :
      (rows : Rows) → UniqueHashes rows → UniqueHashes (update_where q f rows)
  update_where-UniqueHashes [] u = tt
  update_where-UniqueHashes (x ∷ rows) u = ground (
    arith,
    w.same_hash x,
    hash-update_where x.token_hash rows,
    update_where-UniqueHashes rows u.1,
  )

  update_where-UniqueEvents :
      (rows : Rows) → UniqueEvents rows → UniqueEvents (update_where q f rows)
  update_where-UniqueEvents [] u = tt
  update_where-UniqueEvents (x ∷ rows) u = (
    λ event e. ground (arith, w.same_event x, event-update_where event rows, u.0 event),
    update_where-UniqueEvents rows u.1,
  )

  update_where-OneActive : (rows : Rows) → OneActive rows → OneActive (update_where q f rows)
  update_where-OneActive [] u = tt
  update_where-OneActive (x ∷ rows) u = (
    λ h. ground (
      arith,
      w.same_email x,
      w.same_purpose x,
      w.no_revival x,
      slot-update_where-none x.user_email_id x.purpose rows,
    ),
    update_where-OneActive rows u.1,
  )

  pub update_where-IsTokenTable :
      (rows : Rows) → IsTokenTable rows → IsTokenTable (update_where q f rows)
  update_where-IsTokenTable rows v = record {
    unique_hashes = update_where-UniqueHashes rows v.unique_hashes;
    unique_events = update_where-UniqueEvents rows v.unique_events;
    one_active = update_where-OneActive rows v.one_active;
  }
