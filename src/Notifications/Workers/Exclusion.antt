-- ===== src/Notifications/Workers/Exclusion.antt =====
-- A claim keeps its event from the other workers for the length of the lease.
use zero_auth_lite.Prelude.{
  ℕ, ◌+◌, ◌<◌, ◌≡◌, ◌≢◌, ◌∙◌, sym, refl, true, false, ◌&&◌, Option, none, some, List, [], ◌∷◌,
  arith, Text, text_eq_iff, ◌==◌, inl, inr, seconds, Bool-cases, Option-cases,
}
use zero_auth_lite.Table.Keyed.{row-update_where, row-delete_where, find_where-passing, row_key}
use zero_auth_lite.Notifications.Outbox.{OutboxEvent, OutboxSettings, IsOutbox, event, event_id}
use zero_auth_lite.Notifications.Lease.{
  is_claimable, is_owned, is_live_claim, claimed, claim_one, claim_each, claim_pending, backed_off,
  finalized, finalize_claim, renewed, heartbeat, is_among, expired_ids, cleanup_processed_events,
  candidate_ids,
}
use zero_auth_lite.Notifications.Lease.Effects.{
  claim_one-IsOutbox, claim_each-IsOutbox, reschedule-eq-update_where,
}
use zero_auth_lite.Notifications.Workers.Removal.{expired_of_among}
use zero_auth_lite.Notifications.Workers.{
  Action, claims, renews, finalizes, reschedules, cleans, act, Run, here, next, Run-IsOutbox,
}
use zero_auth_lite.Notifications.Workers.Finality.{event-update_ne}

-- The event is unprocessed, and held by a worker since a time.
pub record HeldBy (w : Text) (t : ℕ) (e : OutboxEvent) : Type 0 where
  pub open_event : e.processed_at ≡ none
  pub owner : e.claimed_by ≡ some w
  pub since : e.claimed_at ≡ some t

-- The event of an identifier is there, and held.
abbrev pub Holds : Text → ℕ → ℕ → List OutboxEvent → Type 0
Holds w t i rows = (e : OutboxEvent) × (event i rows ≡ some e) × HeldBy w t e

module _ (s : OutboxSettings) (w : Text) (t i : ℕ) where
  -- A claim that reports success holds the event from its time on.
  claim_one_won :
      (rows : List OutboxEvent)
      → IsOutbox rows
      → (claim_one s w t i rows).1 ≡ true
      → Holds w t i (claim_one s w t i rows).0
  unfolding claim_one
  claim_one_won rows v won =
      let was = rw (find_where-passing event_id i (is_claimable s t) rows v.unique_ids) at won in
      let out =
        row-update_where event_id i (λ x. x.id == i && is_claimable s t x) (claimed w t) rows
          (λ x. refl) in
      elim (Option-cases (event i rows)) [
        | inl e ↦ absurd (ground arith)
        | inr (e, h) ↦ (
          claimed w t e,
          ground (arith, row_key event_id i rows e h),
          record { open_event = ground arith; owner = refl; since = refl },
        )
      ]

  -- The same worker's other claims of the same moment keep it.
  claim_one-Holds :
      (k : ℕ) (rows : List OutboxEvent) → Holds w t i rows → Holds w t i (claim_one s w t k rows).0
  unfolding claim_one
  claim_one-Holds k rows (e, at_i, h) =
      let out =
        row-update_where event_id i (λ x. x.id == k && is_claimable s t x) (claimed w t) rows
          (λ x. refl) in
      elim (Bool-cases (e.id == k && is_claimable s t e)) [
        | inl hit ↦ (
          claimed w t e,
          out ∙ rw at_i (rw hit refl),
          record { open_event = h.open_event; owner = refl; since = refl },
        )
        | inr miss ↦ (e, out ∙ rw at_i (rw miss refl), h)
      ]

  claim_each-Holds :
      (ids : List ℕ) (rows : List OutboxEvent)
      → Holds w t i rows
      → Holds w t i (claim_each s w t ids rows).0
  unfolding claim_each
  claim_each-Holds [] rows h = h
  claim_each-Holds (k ∷ ids) rows h =
      claim_each-Holds ids (claim_one s w t k rows).0 (claim_one-Holds k rows h)

  claim_each_won :
      (ids : List ℕ) (rows : List OutboxEvent)
      → IsOutbox rows
      → is_among (claim_each s w t ids rows).1 i ≡ true
      → Holds w t i (claim_each s w t ids rows).0
  unfolding claim_each
  claim_each_won [] rows v h = cc
  claim_each_won (k ∷ ids) rows v h = elim (Bool-cases ((claim_one s w t k rows).1 && (i == k))) [
    | inl new ↦
        let same : i ≡ k = ground arith in
        claim_each-Holds ids (claim_one s w t k rows).0
          (rw (← same) (claim_one_won rows v (rw same (ground arith))))
    | inr old ↦
        claim_each_won ids (claim_one s w t k rows).0 (claim_one-IsOutbox s w t k rows v)
          (ground arith)
  ]

-- Another worker, before the lease of `w` runs out.
abbrev pub Contender : OutboxSettings → Text → ℕ → Text → ℕ → Type 0
Contender s w t other now = (other ≢ w) × (now < t + seconds s.lease_seconds)

module _ (s : OutboxSettings) (w : Text) (t i : ℕ) where
  held-not-claimable :
      (now : ℕ) (e : OutboxEvent)
      → HeldBy w t e
      → now < t + seconds s.lease_seconds
      → is_claimable s now e ≡ false
  held-not-claimable now e h lt = ground (arith, h.open_event, h.since)

  held-not-owned : (v : Text) (e : OutboxEvent) → HeldBy w t e → v ≢ w → is_owned v e ≡ false
  held-not-owned v e h ne = ground (arith, h.owner, text_eq_iff w v)

  claim_each-contended :
      (v : Text) (now : ℕ) (ids : List ℕ) (rows : List OutboxEvent)
      → Contender s w t v now
      → Holds w t i rows
      → Holds w t i (claim_each s v now ids rows).0
  unfolding claim_each claim_one
  claim_each-contended v now [] rows c h = h
  claim_each-contended v now (k ∷ ids) rows c (e, at_i, h) =
      claim_each-contended v now ids (claim_one s v now k rows).0 c (
        e,
        event-update_ne i (λ x. x.id == k && is_claimable s now x) (claimed v now) rows e
            (λ x. refl) at_i (rw (held-not-claimable now e h c.1) (ground arith)),
        h,
      )

  live-not-owned :
      (v : Text) (k : ℕ) (e : OutboxEvent)
      → HeldBy w t e
      → v ≢ w
      → (e.id == k && is_live_claim v e) ≡ false
  live-not-owned v k e h ne = ground (arith, held-not-owned v e h ne)

  held-kept :
      (now : ℕ) (e : OutboxEvent) (rows : List OutboxEvent)
      → IsOutbox rows
      → event i rows ≡ some e
      → HeldBy w t e
      → is_among (expired_ids s now rows) e.id ≡ false
  held-kept now e rows v at_i h =
      rw (row_key event_id i rows e at_i) (elim (Bool-cases (is_among (expired_ids s now rows) i)) [
        | inr out ↦ out
        | inl among ↦
            let (r, at_r, gone) = expired_of_among s now i rows v among in
            let one : some r ≡ some e = sym at_r ∙ at_i in absurd (ground (arith, h.open_event))
      ])

  act-contended :
      (v : Text) (now : ℕ) (a : Action) (rows : List OutboxEvent)
      → IsOutbox rows
      → Contender s w t v now
      → Holds w t i rows
      → Holds w t i (act s v now a rows)
  unfolding act claim_pending heartbeat finalize_claim cleanup_processed_events
  act-contended v now (claims limit) rows ok c h =
      claim_each-contended v now (candidate_ids s now limit rows) rows c h
  act-contended v now (renews k) rows ok c (e, at_i, h) = (
    e,
    event-update_ne i (λ x. x.id == k && is_live_claim v x) (renewed now) rows e (λ x. refl) at_i
        (live-not-owned v k e h c.0),
    h,
  )
  act-contended v now (finalizes k result error) rows ok c (e, at_i, h) = (
    e,
    event-update_ne i (λ x. x.id == k && is_live_claim v x) (finalized result error now) rows e
        (λ x. refl) at_i (live-not-owned v k e h c.0),
    h,
  )
  act-contended v now (reschedules k error) rows ok c (e, at_i, h) = (
    e,
    rw (reschedule-eq-update_where s k v error now rows ok) (
        event-update_ne i (λ x. x.id == k && is_owned v x) (backed_off s error now) rows e
          (λ x. refl) at_i (rw (held-not-owned v e h c.0) (ground arith))),
    h,
  )
  act-contended v now cleans rows ok c (e, at_i, h) = (
    e,
    row-delete_where event_id i (λ x. is_among (expired_ids s now rows) x.id) rows ok.unique_ids
        ∙ rw at_i (rw (held-kept now e rows ok at_i h) refl),
    h,
  )

  Run-contended :
      {rows rows' : List OutboxEvent}
      → IsOutbox rows
      → Holds w t i rows
      → Run s (Contender s w t) rows rows'
      → Holds w t i rows'
  Run-contended ok h here = h
  Run-contended ok h (next {rows' = between} v now a run c) =
      act-contended v now a between (Run-IsOutbox ok run) c (Run-contended ok h run)

-- An event that a worker has claimed stays its own, unprocessed and claimed since that moment,
-- whatever the other workers do before the lease runs out.
pub claim_pending-exclusive :
    (s : OutboxSettings) (w : Text) (t : ℕ) (limit : Option ℕ) (i : ℕ)
    (rows rows' : List OutboxEvent)
    → IsOutbox rows
    → is_among (claim_pending s w t limit rows).1 i ≡ true
    → Run s (Contender s w t) (claim_pending s w t limit rows).0 rows'
    → Holds w t i rows'
unfolding claim_pending
claim_pending-exclusive s w t limit i rows rows' v won run =
    Run-contended s w t i (claim_each-IsOutbox s w t (candidate_ids s t limit rows) rows v)
      (claim_each_won s w t i (candidate_ids s t limit rows) rows v won) run
