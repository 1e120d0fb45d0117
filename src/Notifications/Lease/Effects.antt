-- ===== src/Notifications/Lease/Effects.antt =====
-- What each statement of the lease does to the event of one identifier, and that it keeps the
-- constraints of the table.
use zero_auth_lite.Prelude.{
  ℕ, ◌≡◌, refl, sym, Bool, true, ◌&&◌, Option, List, [], ◌∷◌, arith, Text, ◌==◌, inl, inr,
  Option-cases,
}
use zero_auth_lite.Table.{
  find_where, update_where, All-update_where, All-delete_where, update_where_unfound,
}
use zero_auth_lite.Table.Keyed.{update_found, update_where-UniqueKeys, delete_where-UniqueKeys}
use zero_auth_lite.Notifications.Outbox.{
  OutboxEvent, OutboxSettings, OutboxProcessingResult, IsValid, IsOutbox, event_id,
}
use zero_auth_lite.Notifications.Lease.{
  is_claimable, is_owned, is_live_claim, claimed, claim_one, claim_each, backed_off, reschedule,
  finalized, finalize_claim, renewed, heartbeat, is_among, expired_ids, cleanup_processed_events,
}

claimed-IsValid :
    (s : OutboxSettings) (w : Text) (now : ℕ) (e : OutboxEvent)
    → IsValid e
    → is_claimable s now e ≡ true
    → IsValid (claimed w now e)
claimed-IsValid s w now e v h = ground arith

backed_off-IsValid :
    (s : OutboxSettings) (w error : Text) (now : ℕ) (e : OutboxEvent)
    → IsValid e
    → is_owned w e ≡ true
    → IsValid (backed_off s error now e)
backed_off-IsValid s w error now e v h = ground arith

finalized-IsValid :
    (result : OutboxProcessingResult) (error : Option Text) (now : ℕ) (e : OutboxEvent)
    → IsValid (finalized result error now e)
finalized-IsValid result error now e = ground arith

renewed-IsValid :
    (w : Text) (now : ℕ) (e : OutboxEvent)
    → IsValid e
    → is_live_claim w e ≡ true
    → IsValid (renewed now e)
renewed-IsValid w now e v h = ground arith

and_right : (a b : Bool) → (a && b) ≡ true → b ≡ true
and_right a b h = ground arith

-- An update of one event, under a test that makes the change lawful.
update-IsOutbox :
    (i : ℕ) (p : OutboxEvent → Bool) (f : OutboxEvent → OutboxEvent) (rows : List OutboxEvent)
    → ((e : OutboxEvent) → (f e).id ≡ e.id)
    → ((e : OutboxEvent) → IsValid e → p e ≡ true → IsValid (f e))
    → IsOutbox rows
    → IsOutbox (update_where (λ e. e.id == i && p e) f rows)
update-IsOutbox i p f rows same keep v = record {
  unique_ids = update_where-UniqueKeys event_id (λ e. e.id == i && p e) f rows same v.unique_ids;
  valid =
      All-update_where IsValid (λ e. e.id == i && p e) f rows
        (λ e ve h. keep e ve (and_right (e.id == i) (p e) h)) v.valid;
}

pub claim_one-IsOutbox :
    (s : OutboxSettings) (w : Text) (now i : ℕ) (rows : List OutboxEvent)
    → IsOutbox rows
    → IsOutbox (claim_one s w now i rows).0
unfolding claim_one
claim_one-IsOutbox s w now i rows v =
    update-IsOutbox i (is_claimable s now) (claimed w now) rows (λ e. refl)
      (claimed-IsValid s w now) v

pub claim_each-IsOutbox :
    (s : OutboxSettings) (w : Text) (now : ℕ) (ids : List ℕ) (rows : List OutboxEvent)
    → IsOutbox rows
    → IsOutbox (claim_each s w now ids rows).0
unfolding claim_each
claim_each-IsOutbox s w now [] rows v = v
claim_each-IsOutbox s w now (i ∷ ids) rows v =
    claim_each-IsOutbox s w now ids (claim_one s w now i rows).0
      (claim_one-IsOutbox s w now i rows v)

pub heartbeat-IsOutbox :
    (i : ℕ) (w : Text) (now : ℕ) (rows : List OutboxEvent)
    → IsOutbox rows
    → IsOutbox (heartbeat i w now rows)
unfolding heartbeat
heartbeat-IsOutbox i w now rows v =
    update-IsOutbox i (is_live_claim w) (renewed now) rows (λ e. refl) (renewed-IsValid w now) v

pub finalize_claim-IsOutbox :
    (i : ℕ) (w : Text) (result : OutboxProcessingResult) (error : Option Text) (now : ℕ)
    (rows : List OutboxEvent)
    → IsOutbox rows
    → IsOutbox (finalize_claim i w result error now rows).0
unfolding finalize_claim
finalize_claim-IsOutbox i w result error now rows v =
    update-IsOutbox i (is_live_claim w) (finalized result error now) rows (λ e. refl)
      (λ e _ _. finalized-IsValid result error now e) v

-- With unique identifiers a reschedule is one update of the owned event.
pub reschedule-eq-update_where :
    (s : OutboxSettings) (i : ℕ) (w error : Text) (now : ℕ) (rows : List OutboxEvent)
    → IsOutbox rows
    → reschedule s i w error now rows
      ≡ update_where (λ e. e.id == i && is_owned w e) (backed_off s error now) rows
unfolding reschedule
reschedule-eq-update_where s i w error now rows v = elim (Option-cases found) [
  | inl e ↦ rw (e, reschedule) (sym (update_where_unfound _ _ rows e))
  | inr (l, e) ↦
      rw (e, reschedule)
        (update_found event_id i (is_owned w) (backed_off s error now) rows l v.unique_ids e)
]
  where
    found : Option OutboxEvent
    found = find_where (λ e. e.id == i && is_owned w e) rows

pub reschedule-IsOutbox :
    (s : OutboxSettings) (i : ℕ) (w error : Text) (now : ℕ) (rows : List OutboxEvent)
    → IsOutbox rows
    → IsOutbox (reschedule s i w error now rows)
reschedule-IsOutbox s i w error now rows v =
    rw (reschedule-eq-update_where s i w error now rows v) (
      update-IsOutbox i (is_owned w) (backed_off s error now) rows (λ e. refl)
        (backed_off-IsValid s w error now) v)

pub cleanup_processed_events-IsOutbox :
    (s : OutboxSettings) (now : ℕ) (rows : List OutboxEvent)
    → IsOutbox rows
    → IsOutbox (cleanup_processed_events s now rows)
unfolding cleanup_processed_events
cleanup_processed_events-IsOutbox s now rows v = record {
  unique_ids =
      delete_where-UniqueKeys event_id (λ e. is_among (expired_ids s now rows) e.id) rows
        v.unique_ids;
  valid = All-delete_where IsValid (λ e. is_among (expired_ids s now rows) e.id) rows v.valid;
}
