-- ===== src/Notifications/Workers/Finality.antt =====
-- A processed event is final.
use zero_auth_lite.Prelude.{
  ℕ, ◌≡◌, ◌∙◌, refl, Bool, true, false, ◌&&◌, Option, none, some, List, [], ◌∷◌, arith, Text, ◌==◌,
  ◌⊎◌, inl, inr, is_not_null, Bool-cases, Option-cases,
}
use zero_auth_lite.Table.{update_where}
use zero_auth_lite.Table.Keyed.{
  row-update_where, row-delete_where, find_where-passing, All-row, row_key,
}
use zero_auth_lite.Notifications.Outbox.{
  OutboxEvent, OutboxSettings, OutboxProcessingResult, IsValid, IsOutbox, event, event_id,
}
use zero_auth_lite.Notifications.Lease.{
  is_claimable, is_owned, is_live_claim, claimed, claim_one, claim_each, claim_pending, backed_off,
  finalized, finalize_claim, renewed, heartbeat, is_among, is_expired, expired_ids,
  cleanup_processed_events, candidate_ids,
}
use zero_auth_lite.Notifications.Lease.Effects.{reschedule-eq-update_where, finalize_claim-IsOutbox}
use zero_auth_lite.Notifications.Workers.{
  Action, claims, renews, finalizes, reschedules, cleans, act, Run, here, next, Run-IsOutbox,
  act-IsOutbox,
}
use zero_auth_lite.Notifications.Workers.Removal.{expired_of_among, Run-absent, IsRemoved, gone_on}

abbrev IsProcessed : OutboxEvent → Type 0
IsProcessed e = is_not_null e.processed_at ≡ true

-- An update whose test fails at the event of an identifier leaves that event.
pub event-update_ne :
    (j : ℕ) (q : OutboxEvent → Bool) (f : OutboxEvent → OutboxEvent) (rows : List OutboxEvent)
    (e : OutboxEvent)
    → ((x : OutboxEvent) → (f x).id ≡ x.id)
    → event j rows ≡ some e
    → q e ≡ false
    → event j (update_where q f rows) ≡ some e
event-update_ne j q f rows e same at_j fails =
    row-update_where event_id j q f rows same ∙ rw at_j (rw fails refl)

module _ (j : ℕ) (e : OutboxEvent) (done : IsProcessed e) where
  claim_one-final :
      (s : OutboxSettings) (w : Text) (now i : ℕ) (rows : List OutboxEvent)
      → event j rows ≡ some e
      → event j (claim_one s w now i rows).0 ≡ some e
  unfolding claim_one
  claim_one-final s w now i rows at_j =
      event-update_ne j (λ x. x.id == i && is_claimable s now x) (claimed w now) rows e (λ x. refl)
        at_j (ground arith)

  claim_each-final :
      (s : OutboxSettings) (w : Text) (now : ℕ) (ids : List ℕ) (rows : List OutboxEvent)
      → event j rows ≡ some e
      → event j (claim_each s w now ids rows).0 ≡ some e
  unfolding claim_each
  claim_each-final s w now [] rows at_j = at_j
  claim_each-final s w now (i ∷ ids) rows at_j =
      claim_each-final s w now ids (claim_one s w now i rows).0
        (claim_one-final s w now i rows at_j)

  -- A processed row carries no claim, so it is owned by nobody.
  processed-not-owned : (w : Text) → IsValid e → is_owned w e ≡ false
  processed-not-owned w v = ground arith

  -- A clean-up keeps the event, or the event has expired and goes.
  cleanup-final :
      (s : OutboxSettings) (now : ℕ) (rows : List OutboxEvent)
      → IsOutbox rows
      → event j rows ≡ some e
      → (event j (cleanup_processed_events s now rows) ≡ some e)
        ⊎ ((event j (cleanup_processed_events s now rows) ≡ none) × (is_expired s now e ≡ true))
  unfolding cleanup_processed_events
  cleanup-final s now rows v at_j =
      let dropping : OutboxEvent → Bool = λ x. is_among (expired_ids s now rows) x.id in
      let out = row-delete_where event_id j dropping rows v.unique_ids in
      elim (Bool-cases (dropping e)) [
        | inl t ↦
            let (r, at_r, expired) = expired_of_among s now e.id rows v t in
            let key = row_key event_id j rows e at_j in
            inr (out ∙ rw at_j (rw t refl), ground (arith, key, at_r, expired))
        | inr f ↦ inl (out ∙ rw at_j (rw f refl))
      ]

  -- Every action keeps the event, but a clean-up that removes it.
  act-Removes :
      {s : OutboxSettings} {P : Text → ℕ → Type 0} {rows between : List OutboxEvent} (w : Text)
      (now : ℕ) (a : Action)
      → IsOutbox between
      → Run s P rows between
      → P w now
      → event j between ≡ some e
      → (event j (act s w now a between) ≡ some e) ⊎ IsRemoved j e s P rows (act s w now a between)
  unfolding act claim_pending heartbeat finalize_claim
  act-Removes {s = s} {between = rows} w now (claims limit) v run p at_j =
      inl (claim_each-final s w now (candidate_ids s now limit rows) rows at_j)
  act-Removes {s = s} {between = rows} w now (renews i) v run p at_j = inl (
      event-update_ne j (λ x. x.id == i && is_live_claim w x) (renewed now) rows e (λ x. refl) at_j
        (ground arith))
  act-Removes {s = s} {between = rows} w now (finalizes i result error) v run p at_j = inl (
      event-update_ne j (λ x. x.id == i && is_live_claim w x) (finalized result error now) rows e
        (λ x. refl) at_j (ground arith))
  act-Removes {s = s} {between = rows} w now (reschedules i error) v run p at_j =
      let free = processed-not-owned w (All-row event_id IsValid j rows v.valid at_j) in
      inl (
        rw (reschedule-eq-update_where s i w error now rows v) (
          event-update_ne j (λ x. x.id == i && is_owned w x) (backed_off s error now) rows e
            (λ x. refl) at_j (ground arith)))
  act-Removes {s = s} {between = rows} w now cleans v run p at_j =
      elim (cleanup-final s now rows v at_j) [
        | inl kept ↦ inl kept
        | inr (gone, expired) ↦ inr (record {
          before = rows;
          worker = w;
          now = now;
          until = run;
          allowed = p;
          kept = at_j;
          expired = expired;
          removed = gone;
          onwards = here;
          stays_away = λ Q later on. Run-absent j (act-IsOutbox s w now cleans rows v) gone on;
        })
      ]

  -- In a valid outbox a processed event stays as it is, whatever the workers do, until a clean-up
  -- removes it after its retention: at the end of a run either the row is the same, or at one point
  -- of the run, up to which the row was the same, a clean-up removed it, and from there on it never
  -- comes back.
  pub Run-final :
      {s : OutboxSettings} {P : Text → ℕ → Type 0} {rows rows' : List OutboxEvent}
      → IsOutbox rows
      → event j rows ≡ some e
      → Run s P rows rows'
      → (event j rows' ≡ some e) ⊎ (IsRemoved j e s P rows rows' × (event j rows' ≡ none))
  Run-final v at_j here = inl at_j
  Run-final v at_j (next {rows' = between} w now a run p) = elim (Run-final v at_j run) [
    | inl kept ↦ elim (act-Removes w now a (Run-IsOutbox v run) run p kept) [
      | inl still ↦ inl still
      | inr gone ↦ inr (gone, gone.stays_away _ _ gone.onwards)
    ]
    | inr (gone, absent) ↦
        let on = next w now a gone.onwards p in inr (gone_on j e gone on, gone.stays_away _ _ on)
  ]

-- What a finalization that succeeds has written.
finalize_claim_won :
    (i : ℕ) (w : Text) (result : OutboxProcessingResult) (error : Option Text) (now : ℕ)
    (rows : List OutboxEvent)
    → IsOutbox rows
    → (finalize_claim i w result error now rows).1 ≡ true
    → (e : OutboxEvent) × (event i rows ≡ some e)
      × (is_live_claim w e ≡ true)
      × (event i (finalize_claim i w result error now rows).0 ≡ some (finalized result error now e))
unfolding finalize_claim
finalize_claim_won i w result error now rows v won =
    let was = rw (find_where-passing event_id i (is_live_claim w) rows v.unique_ids) at won in
    let out =
      row-update_where event_id i (λ x. x.id == i && is_live_claim w x) (finalized result error now)
        rows (λ x. refl) in
    elim (Option-cases (event i rows)) [
      | inl e ↦ absurd (ground arith)
      | inr (e, h) ↦ (e, h, ground arith, ground (arith, row_key event_id i rows e h))
    ]

finalize_claim_lost :
    (i : ℕ) (w : Text) (result : OutboxProcessingResult) (error : Option Text) (now : ℕ)
    (e : OutboxEvent) (rows : List OutboxEvent)
    → IsOutbox rows
    → IsProcessed e
    → (event i rows ≡ some e) ⊎ (event i rows ≡ none)
    → (finalize_claim i w result error now rows).1 ≡ false
unfolding finalize_claim
finalize_claim_lost i w result error now e rows v done h =
    rw (find_where-passing event_id i (is_live_claim w) rows v.unique_ids) (ground arith)

-- An event is finalized at most once: after a finalization that reports success and any actions
-- of any workers, no worker's finalization of the same event reports success.
pub finalize_claim_once :
    (i : ℕ) (w : Text) (result : OutboxProcessingResult) (error : Option Text) (now : ℕ)
    {s : OutboxSettings} {P : Text → ℕ → Type 0} (rows rows' : List OutboxEvent)
    → IsOutbox rows
    → (finalize_claim i w result error now rows).1 ≡ true
    → Run s P (finalize_claim i w result error now rows).0 rows'
    → (other : Text) (result' : OutboxProcessingResult) (error' : Option Text) (later : ℕ)
    → (finalize_claim i other result' error' later rows').1 ≡ false
finalize_claim_once i w result error now rows rows' v won run other result' error' later =
    let (e, _, _, at_i) = finalize_claim_won i w result error now rows v won in
    let v' = finalize_claim-IsOutbox i w result error now rows v in
    finalize_claim_lost i other result' error' later (finalized result error now e) rows'
      (Run-IsOutbox v' run) refl
      (elim (Run-final i (finalized result error now e) refl v' at_i run) [
        | inl kept ↦ inl kept
        | inr (_, gone) ↦ inr gone
      ])
