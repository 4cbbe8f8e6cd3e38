-- ===== src/Application/Events.antt =====
-- app/application/funpay_dispatcher.py: the poller and the dispatcher of FunPay's events.
use war_thunder_rent_bot.Prelude.{
  ℕ, Bool, true, false, ◌&&◌, ◌||◌, not, Option, none, some, List, [], ◌∷◌,
}
use war_thunder_rent_bot.Domain.Models.{OrderInput}
use war_thunder_rent_bot.Domain.FunPay.{FunPayHealth, is_ready}
use war_thunder_rent_bot.Domain.PixelStorm.{Category, NotificationKey}
use war_thunder_rent_bot.Persistence.Rows.{FunPayEventRow, FunPayEventType, RentalRow}
use war_thunder_rent_bot.Persistence.Session.{ok}
use war_thunder_rent_bot.Persistence.FunPayEvents.{
  FunPayEventClaim, ingest, claim_events, mark_processed, mark_retryable, mark_failed_closed,
  rental_for_order, rental_is_running, create_send_otp,
}
use war_thunder_rent_bot.Application.World.{
  App, ◌>>=◌, ◌>>◌, pure, transact, reads, port, draw, tell, choose, only_if, if_some, count,
}
use war_thunder_rent_bot.Application.Ports.{Outside, Settings}
use war_thunder_rent_bot.Application.Rentals.{accept_order}

abbrev same_health : FunPayHealth → FunPayHealth → Bool
same_health FunPayHealth.ready FunPayHealth.ready = true
same_health FunPayHealth.auth_required FunPayHealth.auth_required = true
same_health FunPayHealth.degraded FunPayHealth.degraded = true
same_health FunPayHealth.unavailable FunPayHealth.unavailable = true
same_health _ _ = false

-- `health in self._notified_health`
unfoldable pub is_notified : FunPayHealth → List FunPayHealth → Bool
is_notified h [] = false
is_notified h (x ∷ xs) = let rest = is_notified h xs in same_health h x || rest

-- The answers "processed", "retryable" and "failed".
pub data Handled : Type 0 where
  processed retryable failed : Handled

abbrev processed_if : Bool → Handled
processed_if true = Handled.processed
processed_if false = Handled.failed

-- the order, if the event holds all four of its parts
abbrev pub order_of_event : FunPayEventRow → Option OrderInput
order_of_event e = elim e.funpay_order_id [
  | none ↦ none
  | some order ↦ elim e.buyer_id [
    | none ↦ none
    | some buyer ↦ elim e.tariff_code [
      | none ↦ none
      | some tariff ↦ elim e.duration_seconds [
        | none ↦ none
        | some duration ↦ some (record {
          funpay_order_id = order;
          buyer_id = buyer;
          tariff_code = tariff;
          duration_seconds = duration;
        })
      ]
    ]
  ]
]

unfoldable pub remembered : {E : Type 0} → App E (List FunPayHealth)
remembered w = (ok w.notified_health, w)

unfoldable pub remember : {E : Type 0} → FunPayHealth → App E (Unit {0})
remember h w = (ok tt, record w { notified_health = h ∷ w.notified_health })

module _ {E : Type 0} (o : Outside E) (s : Settings) where
  -- `_notify` of the dispatcher
  unfoldable pub notify_event : Category → NotificationKey → FunPayEventRow → ℕ → App E (Unit {0})
  notify_event category correlation e now = only_if s.has_owner_notifier (
      tell (record {
        category = category;
        correlation_id = correlation;
        occurred_at = now;
        account_id = none;
        rental_id = none;
        order_id = none;
        event_id = some e.id;
      }))

  -- `FunPayEventPoller.poll_once`
  unfoldable pub report_health : FunPayHealth → ℕ → App E (Unit {0})
  report_health health now = do
    seen ← remembered
    only_if (not (is_notified health seen) && s.has_owner_notifier) (do
      tell (record {
        category = Category.funpay_not_ready health;
        correlation_id = NotificationKey.of_poll health;
        occurred_at = now;
        account_id = none;
        rental_id = none;
        order_id = none;
        event_id = none;
      })
      remember health)

  unfoldable pub poll_funpay : ℕ → ℕ → App E ℕ
  poll_funpay last_poll now = do
    health ← port o.funpay.health
    choose (is_ready health)
        (do
          events ← port (o.funpay.poll_events last_poll)
          count (λ e. transact (ingest e now)) events)
        (do report_health health now; pure 0)

  -- `_handle_paid_order`
  unfoldable pub handle_paid_order : FunPayEventRow → ℕ → App E Handled
  handle_paid_order e now = do
    health ← port o.funpay.health
    choose (is_ready health)
        (if_some (order_of_event e)
          (λ order. do result ← accept_order o s order now; pure Handled.processed)
          (pure Handled.failed))
        (do
          again ← port o.funpay.health
          notify_event (Category.funpay_not_ready again)
              (NotificationKey.of_health again e.external_event_id) e now
          pure Handled.retryable)

  -- the operation that sends a code, for the running rental of the order
  unfoldable pub send_code : FunPayEventRow → RentalRow → App E Bool
  send_code e rental = do
    runs ← reads (rental_is_running rental.id)
    choose runs (do new_id ← draw o.uuid; transact (create_send_otp new_id e rental e.received_at))
        (pure true)

  unfoldable pub find_and_send : FunPayEventRow → ℕ → ℕ → App E Bool
  find_and_send e order buyer = do
    rental ← reads (rental_for_order order buyer)
    if_some rental (send_code e) (pure true)

  -- `_handle_buyer_message`
  unfoldable pub handle_buyer_message : FunPayEventRow → App E Bool
  handle_buyer_message e =
      choose (asks e.message_text)
        (do
          health ← port o.funpay.health
          choose (is_ready health)
              (if_some e.funpay_order_id
                (λ order. if_some e.buyer_id (find_and_send e order) (pure false)) (pure false))
              (pure false))
        (pure true)
    where
      asks : Option ℕ → Bool
      asks none = false
      asks (some text) = s.asks_code text

  unfoldable pub handle : FunPayEventType → FunPayEventRow → ℕ → App E Handled
  handle FunPayEventType.paid_order e now = handle_paid_order e now
  handle FunPayEventType.buyer_message e now = do
    done ← handle_buyer_message e
    pure (processed_if done)
  handle _ e now = do
    notify_event Category.unknown_funpay_event (NotificationKey.of_id e.external_event_id) e now
    pure Handled.processed

  -- the mark that ends a claim, and whether it counts as completed
  unfoldable pub mark_event : Handled → FunPayEventClaim → ℕ → App E Bool
  mark_event Handled.processed c now = transact (mark_processed c.event.id c.claim_token now)
  mark_event Handled.retryable c now = do
    done ← transact (mark_retryable c.event.id c.claim_token now)
    pure false
  mark_event Handled.failed c now = do
    transact (mark_failed_closed c.event.id c.claim_token now)
    pure false

  -- one turn of the loop
  unfoldable pub dispatch_event : ℕ → FunPayEventClaim → App E Bool
  dispatch_event now c = do
    outcome ← handle c.event.event_type c.event now
    mark_event outcome c now

  -- `FunPayEventDispatcher.dispatch_pending`
  unfoldable pub dispatch_funpay : ℕ → App E ℕ
  dispatch_funpay now = do
    tokens ← draw o.uuids
    claims ← transact (claim_events tokens now 30)
    count (dispatch_event now) claims
