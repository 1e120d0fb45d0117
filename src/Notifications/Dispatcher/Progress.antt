-- ===== src/Notifications/Dispatcher/Progress.antt =====
-- What becomes of the event that a turn of `dispatch_pending_once` of
-- `app/notifications/dispatcher.py` has claimed.
use zero_auth_lite.Prelude.{
  ℕ, ◌≡◌, refl, sym, subst, Bool, true, false, Option, none, some, List, [], ◌∷◌, Text,
  if◌then◌else◌,
}
use zero_auth_lite.Database.{ok}
use zero_auth_lite.Notifications.Outbox.{OutboxEvent, OutboxSettings, IsOutbox, event}
use zero_auth_lite.Notifications.Lease.{claim_pending}
use zero_auth_lite.Notifications.Lease.Effects.{}
use zero_auth_lite.Notifications.Dispatcher.{
  DeliveryError, Delivery, Turn, process_claimed, after_claim, TurnEnd, broken, failed, settled,
  provide_mail_service, after_service, dispatch_turn,
}
use zero_auth_lite.Notifications.Dispatcher.Flight.{
  IsInFlight, IsSettled, process_claimed-Delivered, settle-IsSettled, claim_pending-IsInFlight,
}

-- What a turn leaves of a claimed event: it is settled; or the construction of the mail service failed.
-- Then mail is enabled, no mail service was there, the turn ends with the exception of
-- `build_mail_service`, and the event is as the claim left it: claimed by the worker, with no attempt
-- counted.
abbrev pub Progressed : Delivery → ℕ → Text → ℕ → Bool → Turn → TurnEnd × List OutboxEvent → Type 0
Progressed v i w n has_service turn (broken, rows) = ⊥
Progressed v i w n has_service turn (settled has_service' done, rows) = IsSettled i w n rows
Progressed v i w n has_service turn (failed x, rows) =
    (v.mail_enabled ≡ true)
    × (has_service ≡ false)
    × (turn.mail_service_error ≡ some x)
    × IsInFlight i w n rows

module _ (s : OutboxSettings) (v : Delivery) (i : ℕ) (w : Text) (n : ℕ) (turn : Turn) where
  attempted-IsSettled :
      (b : Bool) (rows : List OutboxEvent)
      → IsInFlight i w n rows
      → IsSettled i w n (after_service s v w turn i (ok b) rows).1
  attempted-IsSettled b rows h =
      settle-IsSettled i w n s turn
        (process_claimed (record v { has_mail_service = b }) i w turn rows)
        (process_claimed-Delivered i w n (record v { has_mail_service = b }) turn rows h)

  after_service-Progressed :
      (has_service enabled : Bool) (error : Option DeliveryError) (b : Bool)
      (rows : List OutboxEvent)
      → v.mail_enabled ≡ enabled
      → turn.mail_service_error ≡ error
      → has_service ≡ b
      → IsInFlight i w n rows
      → Progressed v i w n has_service turn
          (after_service s v w turn i (provide_mail_service enabled b error) rows)
  after_service-Progressed has_service false error b rows same given was h =
      attempted-IsSettled b rows h
  after_service-Progressed has_service true error true rows same given was h =
      attempted-IsSettled true rows h
  after_service-Progressed has_service true none false rows same given was h =
      attempted-IsSettled true rows h
  after_service-Progressed has_service true (some x) false rows same given was h =
      (same, was, given, h)

-- In a valid outbox, consider a turn that is not stopped and whose claim takes an event of the outbox,
-- whatever the delivery returns or raises and however long the heartbeats go on. It leaves the event
-- processed, or unclaimed with one failed attempt more; or, where mail is enabled, there is no mail
-- service and `build_mail_service` raises, it ends with that exception and leaves the event claimed,
-- with no attempt counted.
pub dispatch_turn_progress :
    (s : OutboxSettings) (v : Delivery) (w : Text) (turn : Turn) (has_service : Bool) (i : ℕ)
    (rows rows' : List OutboxEvent) (e : OutboxEvent)
    → IsOutbox rows
    → turn.is_stopped ≡ false
    → event i rows ≡ some e
    → claim_pending s w turn.claimed_at (some 1) rows ≡ (rows', i ∷ [])
    → Progressed v i w e.attempt_count has_service turn (dispatch_turn s v w turn has_service rows)
unfolding dispatch_turn
dispatch_turn_progress s v w turn has_service i rows rows' e valid going at won =
    let flight = claim_pending-IsInFlight s w turn.claimed_at i rows rows' e valid at won in
    let result =
      after_service-Progressed s v i w e.attempt_count turn has_service v.mail_enabled
        turn.mail_service_error has_service rows' refl refl refl flight in
    let claimed_turn =
      subst
        (λ r.
          Progressed v i w e.attempt_count has_service turn (after_claim s v w turn has_service r))
        (sym won) result in
    subst
      (λ b. Progressed v i w e.attempt_count has_service turn (
        if b
        then (broken, rows)
        else after_claim s v w turn has_service (claim_pending s w turn.claimed_at (some 1) rows)))
      (sym going) claimed_turn
