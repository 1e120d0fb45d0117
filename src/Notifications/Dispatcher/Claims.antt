-- ===== src/Notifications/Dispatcher/Claims.antt =====
-- The claims that a worker of `app/notifications/dispatcher.py` holds.
use zero_auth_lite.Prelude.{
  ℕ, ◌≡◌, refl, sym, subst, Bool, true, false, not, ◌&&◌, inl, inr, Bool-cases, Option, none, List,
  [], ◌∷◌, Text, ◌==◌, All, arith,
}
use zero_auth_lite.Table.{find_where, update_where}
use zero_auth_lite.Notifications.Outbox.{
  OutboxEvent, OutboxSettings, OutboxProcessingResult, IsOutbox,
}
use zero_auth_lite.Notifications.Lease.{
  is_live_claim, is_owned, is_claimable, claimed, claim_one, finalize_claim, finalized, reschedule,
  backed_off, heartbeat, renewed,
}
use zero_auth_lite.Notifications.Lease.Effects.{reschedule-eq-update_where}
use zero_auth_lite.Notifications.Dispatcher.{}

-- The worker has no unprocessed event claimed.
abbrev pub NoClaims : Text → List OutboxEvent → Type 0
NoClaims w rows = All (λ e. is_live_claim w e ≡ false) rows

-- The worker has no unprocessed event claimed but one with an identifier.
abbrev pub OnlyClaim : ℕ → Text → List OutboxEvent → Type 0
OnlyClaim i w rows = All (λ e. (is_live_claim w e && not (e.id == i)) ≡ false) rows

module _ (i : ℕ) (w : Text) where
  -- A write to the claimed event after which it is not claimed.
  update_where-NoClaims :
      (p : OutboxEvent → Bool) (f : OutboxEvent → OutboxEvent) (rows : List OutboxEvent)
      → ((e : OutboxEvent) → is_live_claim w (f e) ≡ false)
      → ((e : OutboxEvent) → is_live_claim w e ≡ true → (e.id == i) ≡ true → p e ≡ true)
      → OnlyClaim i w rows
      → NoClaims w (update_where p f rows)
  update_where-NoClaims p f [] free hits only = tt
  update_where-NoClaims p f (e ∷ rows) free hits only = (
    elim (Bool-cases (p e)) [
      | inl t ↦ rw t (free e)
      | inr u ↦ elim (Bool-cases (is_live_claim w e)) [
        | inl live ↦ let hit = hits e live (ground (arith, only.0)) in absurd (cc)
        | inr idle ↦ rw u idle
      ]
    ],
    update_where-NoClaims p f rows free hits only.1,
  )

  -- A write to the event of the identifier.
  update_where-OnlyClaim :
      (q : OutboxEvent → Bool) (f : OutboxEvent → OutboxEvent) (rows : List OutboxEvent)
      → ((e : OutboxEvent) → (f e).id ≡ e.id)
      → OnlyClaim i w rows
      → OnlyClaim i w (update_where (λ e. e.id == i && q e) f rows)
  update_where-OnlyClaim q f [] same only = tt
  update_where-OnlyClaim q f (e ∷ rows) same only = (
    elim (Bool-cases (e.id == i && q e)) [
      | inl t ↦
          let it : ((f e).id == i) ≡ true =
            subst (λ k. (k == i) ≡ true) (sym (same e)) (ground arith) in
          rw (t, it) (ground arith)
      | inr u ↦ rw u only.0
    ],
    update_where-OnlyClaim q f rows same only.1,
  )

  pub heartbeat-OnlyClaim :
      (now : ℕ) (rows : List OutboxEvent)
      → OnlyClaim i w rows
      → OnlyClaim i w (heartbeat i w now rows)
  unfolding heartbeat
  heartbeat-OnlyClaim now rows =
      update_where-OnlyClaim (is_live_claim w) (renewed now) rows λ e. refl

  NoClaims-OnlyClaim : (rows : List OutboxEvent) → NoClaims w rows → OnlyClaim i w rows
  NoClaims-OnlyClaim [] h = tt
  NoClaims-OnlyClaim (e ∷ rows) h = (rw h.0 refl, NoClaims-OnlyClaim rows h.1)

  pub claim_one-OnlyClaim :
      (s : OutboxSettings) (now : ℕ) (rows : List OutboxEvent)
      → NoClaims w rows
      → OnlyClaim i w (claim_one s w now i rows).0
  unfolding claim_one
  claim_one-OnlyClaim s now rows h =
      update_where-OnlyClaim (is_claimable s now) (claimed w now) rows (λ e. refl)
        (NoClaims-OnlyClaim rows h)

  pub absent-NoClaims :
      (rows : List OutboxEvent)
      → find_where (λ e. e.id == i && is_live_claim w e) rows ≡ none
      → OnlyClaim i w rows
      → NoClaims w rows
  absent-NoClaims [] h only = tt
  absent-NoClaims (e ∷ rows) h only = elim (Bool-cases (e.id == i && is_live_claim w e)) [
    | inl t ↦ let no = rw t at h in absurd (cc)
    | inr f ↦ (ground (arith, only.0), absent-NoClaims rows (rw f at h) only.1)
  ]

  pub finalize_claim-NoClaims :
      (result : OutboxProcessingResult) (error : Option Text) (now : ℕ) (rows : List OutboxEvent)
      → OnlyClaim i w rows
      → NoClaims w (finalize_claim i w result error now rows).0
  unfolding finalize_claim
  finalize_claim-NoClaims result error now rows =
      update_where-NoClaims (λ e. e.id == i && is_live_claim w e) (finalized result error now) rows
        (λ e. refl) λ e live at. rw (at, live) refl

  pub reschedule-NoClaims :
      (s : OutboxSettings) (error : Text) (now : ℕ) (rows : List OutboxEvent)
      → IsOutbox rows
      → OnlyClaim i w rows
      → NoClaims w (reschedule s i w error now rows)
  reschedule-NoClaims s error now rows v only =
      rw (reschedule-eq-update_where s i w error now rows v) (
        update_where-NoClaims (λ e. e.id == i && is_owned w e) (backed_off s error now) rows
          (λ e. refl) (λ e live at. ground arith) only)
