-- ===== src/Notifications/Dispatcher.antt =====
-- `dispatch_pending_once`, `_process_claimed` and `_event_from_row` of
-- `app/notifications/dispatcher.py`, run by one worker that no other disturbs: each statement is a
-- transaction of `app/notifications/lease.py`, and the heartbeats of the lease come while an event is
-- being delivered.
pub mod Claims
pub mod Settling
pub mod Release
pub mod Flight
pub mod Progress
use zero_auth_lite.Prelude.{
  ℕ, zero, suc, ◌+◌, Bool, true, false, not, ◌&&◌, Option, none, some, List, [], ◌∷◌, ◌++◌, Text,
  text, ◌==◌, if◌then◌else◌,
}
use zero_auth_lite.Table.{find_where}
use zero_auth_lite.Database.{Outcome, ok, err}
use zero_auth_lite.Notifications.Outbox.{
  OutboxEvent, OutboxSettings, OutboxProcessingResult, delivered, discarded_email_disabled,
  discarded_target_unavailable,
}
use zero_auth_lite.Notifications.Lease.{
  is_live_claim, claim_pending, finalize_claim, record_permanent_failure, reschedule, renew_lease,
}

-- The exceptions of a delivery, with their messages.
pub data DeliveryError : Type 0 where
  permanent_outbox_error mail_template_error unsupported_notification_event_error other_error :
      Text → DeliveryError

-- `AuthNotificationBuilder.build` may also raise pydantic's `ValidationError`.
pub data BuildError : Type 0 where
  validation_error : BuildError
  raised : DeliveryError → BuildError

-- What the dispatcher uses of the event registry, of the builder and of the mail service. `Message`
-- is the mail message; `has_mail_service` says whether a mail service was given.
pub record Delivery : Type 1 where
  pub Message : Type 0
  pub is_registered : Text → Bool
  pub is_payload : Text → Text → Bool
  pub mail_enabled : Bool
  pub has_mail_service : Bool
  pub build : OutboxEvent → Outcome BuildError (Option Message)
  pub send_template : Message → Option DeliveryError

-- The clock readings of one turn of the loop, with those of the heartbeats, whether the worker is to
-- stop before it, and the exception of `build_mail_service`, should the turn call it and it raise.
pub record Turn : Type 0 where
  pub is_stopped : Bool
  pub claimed_at : ℕ
  pub mail_service_error : Option DeliveryError
  pub beats : List ℕ
  pub finished_at : ℕ

-- `_event_from_row`: none, or the exception it raises.
abbrev pub event_from_row : Delivery → OutboxEvent → Option DeliveryError
event_from_row v row =
    if not (v.is_registered row.event_type)
    then some (permanent_outbox_error (text "Unsupported outbox event type: " ++ row.event_type))
    else if not (v.is_payload row.event_type row.payload)
    then some (
        permanent_outbox_error
          (text "Invalid persisted payload for outbox event type: " ++ row.event_type))
    else none

abbrev pub sent : Option DeliveryError → Outcome DeliveryError OutboxProcessingResult
sent (some e) = err e
sent none = ok delivered

abbrev pub send_built :
    (v : Delivery)
    → OutboxEvent
    → Outcome BuildError (Option v.Message)
    → Outcome DeliveryError OutboxProcessingResult
send_built v row (err validation_error) = err (
    permanent_outbox_error
      (text "Invalid notification message for outbox event type: " ++ row.event_type))
send_built v row (err (raised e)) = err e
send_built v row (ok none) = ok discarded_target_unavailable
send_built v row (ok (some message)) =
    if v.has_mail_service
    then sent (v.send_template message)
    else err (other_error (text "Mail delivery is enabled without a configured service."))

-- What becomes of a row that was read.
unfoldable pub deliver : Delivery → OutboxEvent → Outcome DeliveryError OutboxProcessingResult
deliver v row = elim (event_from_row v row) [
  | some e ↦ err e
  | none ↦
      if not v.mail_enabled then ok discarded_email_disabled else send_built v row (v.build row)
]

-- The finalization of a delivery, or its exception; the heartbeats came before.
abbrev pub finish_delivery :
    ℕ
    → Text
    → ℕ
    → Outcome DeliveryError OutboxProcessingResult
    → List OutboxEvent
    → Outcome DeliveryError Bool × List OutboxEvent
finish_delivery i worker_id now (err e) rows = (err e, rows)
finish_delivery i worker_id now (ok result) rows =
    let (rows', won) = finalize_claim i worker_id result none now rows in (ok won, rows')

unfoldable pub process_claimed :
    Delivery → ℕ → Text → Turn → List OutboxEvent → Outcome DeliveryError Bool × List OutboxEvent
process_claimed v i worker_id turn rows =
    elim (find_where (λ e. e.id == i && is_live_claim worker_id e) rows) [
      | none ↦ (ok false, rows)
      | some row ↦
          finish_delivery i worker_id turn.finished_at (deliver v row)
            (renew_lease i worker_id turn.beats rows)
    ]

abbrev pub permanently : ℕ → Text → Turn → Text → List OutboxEvent → Bool × List OutboxEvent
permanently i worker_id turn message rows =
    let (rows', won) = record_permanent_failure i worker_id message turn.finished_at rows in
    (won, rows')

-- What the loop does with the outcome of `_process_claimed`: whether the event is finalized.
abbrev pub settle :
    OutboxSettings
    → ℕ
    → Text
    → Turn
    → Outcome DeliveryError Bool × List OutboxEvent
    → Bool × List OutboxEvent
settle s i worker_id turn (ok finalized, rows) = (finalized, rows)
settle s i worker_id turn (err (permanent_outbox_error m), rows) =
    permanently i worker_id turn m rows
settle s i worker_id turn (err (mail_template_error m), rows) = permanently i worker_id turn m rows
settle s i worker_id turn (err (unsupported_notification_event_error m), rows) =
    permanently i worker_id turn m rows
settle s i worker_id turn (err (other_error m), rows) =
    (false, reschedule s i worker_id m turn.finished_at rows)

-- How a turn of the loop ends: the loop breaks, the exception of `build_mail_service` leaves the
-- pass, or the event is settled; then whether there is a mail service, and whether the event is
-- finalized.
pub data TurnEnd : Type 0 where
  broken : TurnEnd
  failed : DeliveryError → TurnEnd
  settled : Bool → Bool → TurnEnd

-- `build_mail_service` where mail is enabled and there is no mail service: whether there is one then,
-- or the exception.
abbrev pub provide_mail_service : Bool → Bool → Option DeliveryError → Outcome DeliveryError Bool
provide_mail_service false has_service error = ok has_service
provide_mail_service true true error = ok true
provide_mail_service true false none = ok true
provide_mail_service true false (some e) = err e

-- The delivery of a claimed event, with the mail service or its exception; an exception passes the
-- handler of the loop by, and leaves the event as it was claimed.
abbrev pub after_service :
    OutboxSettings
    → Delivery
    → Text
    → Turn
    → ℕ
    → Outcome DeliveryError Bool
    → List OutboxEvent
    → TurnEnd × List OutboxEvent
after_service s v worker_id turn i (err e) rows = (failed e, rows)
after_service s v worker_id turn i (ok has_service) rows =
    let (finalized, rows') =
      settle s i worker_id turn
        (process_claimed (record v { has_mail_service = has_service }) i worker_id turn rows) in
    (settled has_service finalized, rows')

-- The body of the loop from the answer of the claim.
abbrev pub after_claim :
    OutboxSettings
    → Delivery
    → Text
    → Turn
    → Bool
    → List OutboxEvent × List ℕ
    → TurnEnd × List OutboxEvent
after_claim s v worker_id turn has_service (rows, []) = (broken, rows)
after_claim s v worker_id turn has_service (rows, i ∷ _) =
    after_service s v worker_id turn i
      (provide_mail_service v.mail_enabled has_service turn.mail_service_error) rows

-- One turn of the loop, from whether there is a mail service.
unfoldable pub dispatch_turn :
    OutboxSettings → Delivery → Text → Turn → Bool → List OutboxEvent → TurnEnd × List OutboxEvent
dispatch_turn s v worker_id turn has_service rows =
    if turn.is_stopped
    then (broken, rows)
    else after_claim s v worker_id turn has_service
        (claim_pending s worker_id turn.claimed_at (some 1) rows)

abbrev pub counted : Bool → Outcome DeliveryError ℕ → Outcome DeliveryError ℕ
counted finalized (err e) = err e
counted finalized (ok n) = ok (if finalized then suc n else n)

-- The loop, from a turn of a number: how many events it has processed or the exception that ends it,
-- and the rows.
unfoldable pub dispatch_turns :
    OutboxSettings
    → Delivery
    → Text
    → (ℕ → Turn)
    → ℕ
    → ℕ
    → Bool
    → List OutboxEvent
    → Outcome DeliveryError ℕ × List OutboxEvent
dispatch_turns s v worker_id turns zero k has_service rows = (ok 0, rows)
dispatch_turns s v worker_id turns (suc n) k has_service rows =
    let (end, rows') = dispatch_turn s v worker_id (turns k) has_service rows in
    elim end [
      | broken ↦ (ok 0, rows')
      | failed e ↦ (err e, rows')
      | settled has_service' finalized ↦
          let (processed, rows'') =
            dispatch_turns s v worker_id turns n (k + 1) has_service' rows' in
          (counted finalized processed, rows'')
    ]

unfoldable pub dispatch_pending_once :
    OutboxSettings
    → Delivery
    → Text
    → (ℕ → Turn)
    → List OutboxEvent
    → Outcome DeliveryError ℕ × List OutboxEvent
dispatch_pending_once s v worker_id turns rows =
    dispatch_turns s v worker_id turns s.batch_size 0 v.has_mail_service rows
