-- ===== src/Notifications/Dispatcher/Release.antt =====
-- A pass of `dispatch_pending_once` of `app/notifications/dispatcher.py` settles what it has claimed.
use zero_auth_lite.Prelude.{
  ℕ, zero, suc, ◌+◌, ◌≤◌, ◌≡◌, refl, sym, subst, Bool, true, false, inl, inr, Bool-cases, Option,
  none, some, List, [], ◌∷◌, Text, if◌then◌else◌, arith,
}
use zero_auth_lite.Database.{Outcome, ok, err}
use zero_auth_lite.Notifications.Outbox.{OutboxEvent, OutboxSettings}
use zero_auth_lite.Notifications.Lease.{claim_pending}
use zero_auth_lite.Notifications.Lease.Effects.{}
use zero_auth_lite.Notifications.Dispatcher.{
  DeliveryError, Delivery, Turn, process_claimed, after_claim, TurnEnd, broken, failed, settled,
  provide_mail_service, after_service, counted, dispatch_turn, dispatch_turns,
  dispatch_pending_once,
}
use zero_auth_lite.Notifications.Dispatcher.Claims.{}
use zero_auth_lite.Notifications.Dispatcher.Settling.{
  IsHolding, IsIdle, IsClaimed, settle-IsIdle, process_claimed-IsDelivered, claim_pending-IsClaimed,
}

-- Why and how the construction of the mail service ends a pass: mail is enabled and no mail service
-- was there, and `build_mail_service` raised the exception; the worker has no unprocessed event claimed
-- but the one that it has just claimed.
pub record IsUnprovided (v : Delivery) (w : Text) (has_service : Bool) (turn : Turn)
    (x : DeliveryError) (rows : List OutboxEvent) : Type 0 where
  pub enabled : v.mail_enabled ≡ true
  pub missing : has_service ≡ false
  pub raised_by_it : turn.mail_service_error ≡ some x
  pub event_id : ℕ
  pub holding : IsHolding event_id w rows

module _ (v : Delivery) (w : Text) (has_service : Bool) (turn : Turn) where
  abbrev TurnEnds : TurnEnd × List OutboxEvent → Type 0
  TurnEnds (broken, rows) = IsIdle w rows
  TurnEnds (failed x, rows) = IsUnprovided v w has_service turn x rows
  TurnEnds (settled has_service' done, rows) =
      IsIdle w rows × (v.mail_enabled ≡ true → has_service' ≡ true)

  attempted-IsIdle :
      (s : OutboxSettings) (i : ℕ) (b : Bool) (rows : List OutboxEvent)
      → IsHolding i w rows
      → IsIdle w (after_service s v w turn i (ok b) rows).1
  attempted-IsIdle s i b rows h =
      settle-IsIdle s i w turn (process_claimed (record v { has_mail_service = b }) i w turn rows)
        (process_claimed-IsDelivered (record v { has_mail_service = b }) i w turn rows h)

  after_service-TurnEnds :
      (s : OutboxSettings) (i : ℕ) (enabled : Bool) (error : Option DeliveryError)
      (rows : List OutboxEvent)
      → v.mail_enabled ≡ enabled
      → turn.mail_service_error ≡ error
      → (b : Bool) → has_service ≡ b
      → IsHolding i w rows
      → TurnEnds (after_service s v w turn i (provide_mail_service enabled b error) rows)
  after_service-TurnEnds s i false error rows same given b was h =
      (attempted-IsIdle s i b rows h, λ t. absurd (cc))
  after_service-TurnEnds s i true error rows same given true was h =
      (attempted-IsIdle s i true rows h, λ t. refl)
  after_service-TurnEnds s i true none rows same given false was h =
      (attempted-IsIdle s i true rows h, λ t. refl)
  after_service-TurnEnds s i true (some x) rows same given false was h = record {
    enabled = same;
    missing = was;
    raised_by_it = given;
    event_id = i;
    holding = h;
  }

dispatch_claimed :
    (s : OutboxSettings) (v : Delivery) (w : Text) (turn : Turn) (has_service : Bool)
    (rows : List OutboxEvent) (r : List OutboxEvent × List ℕ)
    → IsIdle w rows
    → IsClaimed w rows r
    → TurnEnds v w has_service turn (after_claim s v w turn has_service r)
dispatch_claimed s v w turn has_service rows (rows', []) h e = subst (IsIdle w) (sym e) h
dispatch_claimed s v w turn has_service rows (rows', i ∷ ids) h e =
    after_service-TurnEnds v w has_service turn s i v.mail_enabled turn.mail_service_error rows'
      refl refl has_service refl e

dispatch_turn-TurnEnds :
    (s : OutboxSettings) (v : Delivery) (w : Text) (turn : Turn) (has_service : Bool)
    (rows : List OutboxEvent)
    → IsIdle w rows
    → TurnEnds v w has_service turn (dispatch_turn s v w turn has_service rows)
unfolding dispatch_turn
dispatch_turn-TurnEnds s v w turn has_service rows h = elim (Bool-cases turn.is_stopped) [
  | inl stopped ↦
      subst (λ b. TurnEnds v w has_service turn (if b then (broken, rows) else rest)) (sym stopped)
        h
  | inr going ↦
      subst (λ b. TurnEnds v w has_service turn (if b then (broken, rows) else rest)) (sym going)
        (dispatch_claimed s v w turn has_service rows
          (claim_pending s w turn.claimed_at (some 1) rows) h
          (claim_pending-IsClaimed s w turn.claimed_at rows h))
]
  where
    rest : TurnEnd × List OutboxEvent
    rest = after_claim s v w turn has_service (claim_pending s w turn.claimed_at (some 1) rows)

-- How a pass of at most a number of events ends: with a count of at most that number and no claim, or
-- with the exception of `build_mail_service`.
abbrev pub PassEnds :
    Delivery → Text → Bool → Turn → ℕ → Outcome DeliveryError ℕ × List OutboxEvent → Type 0
PassEnds v w has_service turn most (ok n, rows) = (n ≤ most) × IsIdle w rows
PassEnds v w has_service turn most (err x, rows) = IsUnprovided v w has_service turn x rows

-- A turn that settles an event leaves a mail service wherever one is needed, so that the pass after it
-- does not raise.
counted-PassEnds :
    (v : Delivery) (w : Text) (has_service after : Bool) (turn next_turn : Turn) (most : ℕ)
    (done : Bool) (r : Outcome DeliveryError ℕ × List OutboxEvent)
    → (v.mail_enabled ≡ true → after ≡ true)
    → PassEnds v w after next_turn most r
    → PassEnds v w has_service turn (suc most) (counted done r.0, r.1)
counted-PassEnds v w has_service after turn next_turn most true (ok n, rows) there (few, idle) =
    (ground arith, idle)
counted-PassEnds v w has_service after turn next_turn most false (ok n, rows) there (few, idle) =
    (ground arith, idle)
counted-PassEnds v w has_service after turn next_turn most done (err x, rows) there u =
    let has = there u.enabled in let has_not = u.missing in absurd (cc)

dispatch_turns-PassEnds :
    (s : OutboxSettings) (v : Delivery) (w : Text) (turns : ℕ → Turn) (n k : ℕ) (has_service : Bool)
    (rows : List OutboxEvent)
    → IsIdle w rows
    → PassEnds v w has_service (turns k) n (dispatch_turns s v w turns n k has_service rows)
unfolding dispatch_turns
dispatch_turns-PassEnds s v w turns zero k has_service rows h = (ground arith, h)
dispatch_turns-PassEnds s v w turns (suc n) k has_service rows h =
    pass (dispatch_turn s v w (turns k) has_service rows)
      (dispatch_turn-TurnEnds s v w (turns k) has_service rows h)
      (λ after. dispatch_turns-PassEnds s v w turns n (k + 1) after)
  where
    pass :
        (r : TurnEnd × List OutboxEvent)
        → TurnEnds v w has_service (turns k) r
        → ((after : Bool) (rows' : List OutboxEvent)
            → IsIdle w rows'
            → PassEnds v w after
                (turns (k + 1))
                n
                (dispatch_turns s v w turns n (k + 1) after rows'))
        → PassEnds v w has_service (turns k) (suc n) (elim r.0 [
          | broken ↦ (ok 0, r.1)
          | failed e ↦ (err e, r.1)
          | settled after done ↦
              let (processed, rows'') = dispatch_turns s v w turns n (k + 1) after r.1 in
              (counted done processed, rows'')
        ])
    pass (broken, rows') idle rest = (ground arith, idle)
    pass (failed x, rows') u rest = u
    pass (settled after done, rows') (idle, there) rest =
        counted-PassEnds v w has_service after (turns k) (turns (k + 1)) n done
          (dispatch_turns s v w turns n (k + 1) after rows') there (rest after rows' idle)

-- In a valid outbox in which a worker has no unprocessed event claimed, consider a pass of that worker
-- alone, whatever the deliveries return or raise and however long the heartbeats go on. Either it ends
-- with at most the batch size of events processed and again with no unprocessed event claimed, in a
-- valid outbox; or it raises, and then mail is enabled, no mail service was given, the exception is
-- that of `build_mail_service` in the first turn, and no unprocessed event but one is left claimed,
-- in a valid outbox.
pub dispatch_pending_once_settles :
    (s : OutboxSettings) (v : Delivery) (w : Text) (turns : ℕ → Turn) (rows : List OutboxEvent)
    → IsIdle w rows
    → PassEnds v w v.has_mail_service
        (turns 0)
        s.batch_size
        (dispatch_pending_once s v w turns rows)
unfolding dispatch_pending_once
dispatch_pending_once_settles s v w turns rows =
    dispatch_turns-PassEnds s v w turns s.batch_size 0 v.has_mail_service rows
