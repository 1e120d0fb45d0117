-- ===== src/Notifications/Workers/Removal.antt =====
-- What the clean-up of a worker removes, and that no action of a worker brings an event back.
use zero_auth_lite.Prelude.{
  ℕ, ◌≡◌, ◌∙◌, refl, Bool, true, ◌&&◌, none, some, List, [], ◌∷◌, arith, Text, ◌==◌, inl, inr,
  Bool-cases, All, All-take, take, map,
}
use zero_auth_lite.Table.{update_where, select_where, order_by, All-order_by, All-select_where}
use zero_auth_lite.Table.Keyed.{row-update_where, row-delete_where, All-row_self}
use zero_auth_lite.Notifications.Outbox.{OutboxEvent, OutboxSettings, IsOutbox, event, event_id}
use zero_auth_lite.Notifications.Lease.{
  is_claimable, is_owned, is_live_claim, claimed, claim_one, claim_each, claim_pending, backed_off,
  finalized, finalize_claim, renewed, heartbeat, is_among, is_expired, expired_ids,
  cleanup_processed_events, candidate_ids,
}
use zero_auth_lite.Notifications.Lease.Effects.{reschedule-eq-update_where}
use zero_auth_lite.Notifications.Workers.{
  Action, claims, renews, finalizes, reschedules, cleans, act, Run, here, next, Run-IsOutbox,
}

-- An identifier of a batch is that of a row which passed the batch's test.
row_of_among :
    (p : OutboxEvent → Bool) (i : ℕ) (rows xs : List OutboxEvent)
    → All (λ r. (event r.id rows ≡ some r) × (p r ≡ true)) xs
    → is_among (map event_id xs) i ≡ true
    → (r : OutboxEvent) × (event i rows ≡ some r) × (p r ≡ true)
row_of_among p i rows [] h m = cc
row_of_among p i rows (x ∷ xs) h m = elim (Bool-cases (i == x.id)) [
  | inl hit ↦ let e : i ≡ x.id = ground arith in (x, rw e h.0.0, h.0.1)
  | inr miss ↦ row_of_among p i rows xs h.1 (ground arith)
]

pub expired_of_among :
    (s : OutboxSettings) (now i : ℕ) (rows : List OutboxEvent)
    → IsOutbox rows
    → is_among (expired_ids s now rows) i ≡ true
    → (r : OutboxEvent) × (event i rows ≡ some r) × (is_expired s now r ≡ true)
unfolding expired_ids
expired_of_among s now i rows v =
    row_of_among (is_expired s now) i rows
      (take s.cleanup_batch_size (order_by event_id (select_where (is_expired s now) rows)))
      (All-take _ s.cleanup_batch_size (order_by event_id (select_where (is_expired s now) rows)) (
        All-order_by _ event_id (select_where (is_expired s now) rows) (
          All-select_where (λ r. event r.id rows ≡ some r) (is_expired s now) rows
            (All-row_self event_id rows v.unique_ids))))

-- No action of a worker brings an event back.
module _ (j : ℕ) where
  event-update_absent :
      (q : OutboxEvent → Bool) (f : OutboxEvent → OutboxEvent) (rows : List OutboxEvent)
      → ((x : OutboxEvent) → (f x).id ≡ x.id)
      → event j rows ≡ none
      → event j (update_where q f rows) ≡ none
  event-update_absent q f rows same gone = row-update_where event_id j q f rows same ∙ rw gone refl

  claim_each-absent :
      (s : OutboxSettings) (w : Text) (now : ℕ) (ids : List ℕ) (rows : List OutboxEvent)
      → event j rows ≡ none
      → event j (claim_each s w now ids rows).0 ≡ none
  unfolding claim_each claim_one
  claim_each-absent s w now [] rows gone = gone
  claim_each-absent s w now (i ∷ ids) rows gone =
      claim_each-absent s w now ids (claim_one s w now i rows).0 (
        event-update_absent (λ x. x.id == i && is_claimable s now x) (claimed w now) rows
          (λ x. refl) gone)

  pub act-absent :
      (s : OutboxSettings) (w : Text) (now : ℕ) (a : Action) (rows : List OutboxEvent)
      → IsOutbox rows
      → event j rows ≡ none
      → event j (act s w now a rows) ≡ none
  unfolding act claim_pending heartbeat finalize_claim cleanup_processed_events
  act-absent s w now (claims limit) rows v gone =
      claim_each-absent s w now (candidate_ids s now limit rows) rows gone
  act-absent s w now (renews i) rows v gone =
      event-update_absent (λ x. x.id == i && is_live_claim w x) (renewed now) rows (λ x. refl) gone
  act-absent s w now (finalizes i result error) rows v gone =
      event-update_absent (λ x. x.id == i && is_live_claim w x) (finalized result error now) rows
        (λ x. refl) gone
  act-absent s w now (reschedules i error) rows v gone =
      rw (reschedule-eq-update_where s i w error now rows v) (
        event-update_absent (λ x. x.id == i && is_owned w x) (backed_off s error now) rows
          (λ x. refl) gone)
  act-absent s w now cleans rows v gone =
      row-delete_where event_id j (λ x. is_among (expired_ids s now rows) x.id) rows v.unique_ids
      ∙ rw gone refl

  pub Run-absent :
      {s : OutboxSettings} {P : Text → ℕ → Type 0} {rows rows' : List OutboxEvent}
      → IsOutbox rows
      → event j rows ≡ none
      → Run s P rows rows'
      → event j rows' ≡ none
  Run-absent v gone here = gone
  Run-absent {s = s} v gone (next {rows' = between} w now a run p) =
      act-absent s w now a between (Run-IsOutbox v run) (Run-absent v gone run)

module _ (j : ℕ) (e : OutboxEvent) where
  -- A run in which a clean-up has removed the event: up to a clean-up by some worker the row is as
  -- it was, that clean-up removes it, and after it, on the way to `rows'` and on any other way, the
  -- event never comes back.
  pub record IsRemoved (s : OutboxSettings) (P : Text → ℕ → Type 0) (rows rows' : List OutboxEvent)
      : Type 1 where
    pub before : List OutboxEvent
    pub worker : Text
    pub now : ℕ
    pub until : Run s P rows before
    pub allowed : P worker now
    pub kept : event j before ≡ some e
    pub expired : is_expired s now e ≡ true
    pub removed : event j (cleanup_processed_events s now before) ≡ none
    pub onwards : Run s P (cleanup_processed_events s now before) rows'
    pub stays_away :
        (Q : Text → ℕ → Type 0) (later : List OutboxEvent)
        → Run s Q (cleanup_processed_events s now before) later
        → event j later ≡ none

  -- The run goes on after the removal.
  pub gone_on :
      {s : OutboxSettings} {P : Text → ℕ → Type 0} {rows rows' later : List OutboxEvent}
      (g : IsRemoved s P rows rows')
      → Run s P (cleanup_processed_events s g.now g.before) later
      → IsRemoved s P rows later
  gone_on g on = record {
    before = g.before;
    worker = g.worker;
    now = g.now;
    until = g.until;
    allowed = g.allowed;
    kept = g.kept;
    expired = g.expired;
    removed = g.removed;
    onwards = on;
    stays_away = g.stays_away;
  }
