-- ===== src/Application/Moves/Inbox.antt =====
-- The poller and the dispatcher of FunPay's events, the watcher and the dispatcher of emails move the
-- database by steps.
use war_thunder_rent_bot.Prelude.{arith, ℕ, ◌≡◌, refl, Bool, true, false, Option, none, some}
use war_thunder_rent_bot.Domain.FunPay.{FunPayHealth}
use war_thunder_rent_bot.Domain.PixelStorm.{Category, NotificationKey}
use war_thunder_rent_bot.Table.Laws.{get-first}
use war_thunder_rent_bot.Persistence.Rows.{FunPayEventRow, FunPayEventType, RentalRow}
use war_thunder_rent_bot.Persistence.Session.{Db, rental_of}
use war_thunder_rent_bot.Persistence.Booking.{Booked}
use war_thunder_rent_bot.Persistence.Booking.Steps.{Step}
use war_thunder_rent_bot.Persistence.Booking.Runs.{Run, rest}
use war_thunder_rent_bot.Persistence.Emails.Inbox.{ClassifiedEmailEvent}
use war_thunder_rent_bot.Persistence.Emails.Alerts.{SecurityEventClaim}
use war_thunder_rent_bot.Persistence.FunPayEvents.{
  FunPayEventClaim, create_send_otp, rental_for_order, rental_is_running, paid_by,
}
use war_thunder_rent_bot.Application.World.{
  World, ◌>>=◌, transact, reads, choose, draw, pure, if_some,
}
use war_thunder_rent_bot.Application.Ports.{Outside, Settings, RawEmail}
use war_thunder_rent_bot.Application.Events.{
  Handled, remembered, remember, notify_event, report_health, poll_funpay, handle_paid_order,
  send_code, find_and_send, handle_buyer_message, handle, mark_event, dispatch_event,
  dispatch_funpay,
}
use war_thunder_rent_bot.Application.Mail.{
  publish, publish_with_secret, watch_message, poll_gmail, monitor, dispatch_alert, dispatch_mail,
}
use war_thunder_rent_bot.Application.Moves.{Moves, moves, commit-Run}
use war_thunder_rent_bot.Application.Moves.Outside.{Lawful}
use war_thunder_rent_bot.Application.Moves.Transactions.{steps}
use war_thunder_rent_bot.Application.Moves.Rentals.{Moves-count, Moves-collect, Moves-accept_order}

Moves-remembered : {E : Type 0} → Moves {E = E} remembered
unfolding remembered
Moves-remembered = record { run = λ w b. rest }

Moves-remember : {E : Type 0} (h : FunPayHealth) → Moves {E = E} (remember h)
unfolding remember
Moves-remember h = record { run = λ w b. rest }

module _ {E : Type 0} (o : Outside E) (s : Settings) where
  Moves-notify_event :
      (c : Category) (k : NotificationKey) (e : FunPayEventRow) (now : ℕ)
      → Moves (notify_event o s c k e now)
  unfolding notify_event
  Moves-notify_event c k e now = search moves depth 20 fits 3000

  Moves-report_health : (h : FunPayHealth) (now : ℕ) → Moves (report_health o s h now)
  unfolding report_health
  Moves-report_health h now = search (moves, Moves-remembered, Moves-remember) depth 20 fits 3000

  pub Moves-poll_funpay : (last now : ℕ) → Moves (poll_funpay o s last now)
  unfolding poll_funpay
  Moves-poll_funpay last now =
      search (moves, steps, Moves-report_health, Moves-count) depth 20 fits 3000

  Moves-mark_event : (h : Handled) (c : FunPayEventClaim) (now : ℕ) → Moves (mark_event o s h c now)
  unfolding mark_event
  Moves-mark_event Handled.processed c now = search (moves, steps) depth 20 fits 3000
  Moves-mark_event Handled.retryable c now = search (moves, steps) depth 20 fits 3000
  Moves-mark_event Handled.failed c now = search (moves, steps) depth 20 fits 3000

  -- The rental was read from the database that the transaction finds.
  abbrev OnAccount : RentalRow → Db → Type 0
  OnAccount rental db =
      (x : RentalRow) → rental_of db rental.id ≡ some x → x.account_id ≡ rental.account_id

  module _ (e : FunPayEventRow) (w : World E) (b : Booked w.db) where
    ask-Run :
        (rental : RentalRow) (runs : Bool)
        → OnAccount rental w.db
        → Run w.db
            ((choose runs
                (draw o.uuid >>= λ new_id. transact (create_send_otp new_id e rental e.received_at))
                (pure true)
                w).1
              ).db
    unfolding choose draw ◌>>=◌ transact pure
    ask-Run rental true h =
        commit-Run (create_send_otp ((o.uuid w.outside).0) e rental e.received_at w.db)
          (λ a d x. Step.asks_for_code ((o.uuid w.outside).0) e.received_at e rental h (a, x))
    ask-Run rental false h = rest

    send_code-Run :
        (rental : RentalRow) → OnAccount rental w.db → Run w.db ((send_code o s e rental w).1).db
    unfolding send_code ◌>>=◌ reads
    send_code-Run rental h = ask-Run rental (rental_is_running rental.id w.db) h

    found-Run :
        (found : Option RentalRow)
        → ((r : RentalRow) → found ≡ some r → OnAccount r w.db)
        → Run w.db ((if_some found (send_code o s e) (pure true) w).1).db
    unfolding if_some pure
    found-Run (some r) h = send_code-Run r (h r refl)
    found-Run none h = rest

    rental_for_order-OnAccount :
        (order buyer : ℕ) (r : RentalRow)
        → rental_for_order order buyer w.db ≡ some r
        → OnAccount r w.db
    unfolding rental_for_order
    rental_for_order-OnAccount order buyer r h x there = ground (
      arith,
      there,
      get-first (λ q. q.id) (paid_by order buyer w.db) w.db.rentals r (b.keys.rentals r.id) h,
    )

    find-Run : (order buyer : ℕ) → Run w.db ((find_and_send o s e order buyer w).1).db
    unfolding find_and_send ◌>>=◌ reads
    find-Run order buyer =
        found-Run (rental_for_order order buyer w.db)
          (λ r h. rental_for_order-OnAccount order buyer r h)

  Moves-find_and_send :
      (e : FunPayEventRow) (order buyer : ℕ) → Moves (find_and_send o s e order buyer)
  Moves-find_and_send e order buyer = record { run = λ w b. find-Run e w b order buyer }

  Moves-handle_buyer_message : (e : FunPayEventRow) → Moves (handle_buyer_message o s e)
  unfolding handle_buyer_message
  Moves-handle_buyer_message e = search (moves, Moves-find_and_send) depth 20 fits 3000

  module _ (l : Lawful o) where
    Moves-handle_paid_order : (e : FunPayEventRow) (now : ℕ) → Moves (handle_paid_order o s e now)
    unfolding handle_paid_order
    Moves-handle_paid_order e now =
        search (moves, Moves-accept_order o s l, Moves-notify_event) depth 20 fits 3000

    Moves-handle : (t : FunPayEventType) (e : FunPayEventRow) (now : ℕ) → Moves (handle o s t e now)
    unfolding handle
    Moves-handle FunPayEventType.paid_order e now = Moves-handle_paid_order e now
    Moves-handle FunPayEventType.buyer_message e now =
        search (moves, Moves-handle_buyer_message) depth 20 fits 3000
    Moves-handle _ e now = search (moves, Moves-notify_event) depth 20 fits 3000

    Moves-dispatch_event : (now : ℕ) (c : FunPayEventClaim) → Moves (dispatch_event o s now c)
    unfolding dispatch_event
    Moves-dispatch_event now c = search (moves, Moves-handle, Moves-mark_event) depth 20 fits 3000

    pub Moves-dispatch_funpay : (now : ℕ) → Moves (dispatch_funpay o s now)
    unfolding dispatch_funpay
    Moves-dispatch_funpay now =
        search (moves, steps, Moves-dispatch_event, Moves-count) depth 20 fits 3000

  pub Moves-publish : (e : ClassifiedEmailEvent) (now : ℕ) → Moves (publish o s e now)
  unfolding publish
  Moves-publish e now = search (moves, steps) depth 20 fits 3000

  Moves-publish_with_secret :
      (payload : Option ℕ) (e : ClassifiedEmailEvent) (now : ℕ)
      → Moves (publish_with_secret o s payload e now)
  unfolding publish_with_secret
  Moves-publish_with_secret payload e now = search (moves, Moves-publish) depth 20 fits 3000

  Moves-watch_message : (now : ℕ) (m : RawEmail) → Moves (watch_message o s now m)
  unfolding watch_message
  Moves-watch_message now m = search (moves, Moves-publish_with_secret) depth 20 fits 3000

  pub Moves-poll_gmail : (last now : ℕ) → Moves (poll_gmail o s last now)
  unfolding poll_gmail
  Moves-poll_gmail last now = search (moves, Moves-watch_message, Moves-collect) depth 20 fits 3000

  Moves-monitor : (e : ClassifiedEmailEvent) (now : ℕ) → Moves (monitor o s e now)
  unfolding monitor
  Moves-monitor e now = search (moves, steps) depth 20 fits 3000

  Moves-dispatch_alert : (now : ℕ) (c : SecurityEventClaim) → Moves (dispatch_alert o s now c)
  unfolding dispatch_alert
  Moves-dispatch_alert now c = search (moves, steps, Moves-monitor) depth 20 fits 3000

  pub Moves-dispatch_mail : (now : ℕ) → Moves (dispatch_mail o s now)
  unfolding dispatch_mail
  Moves-dispatch_mail now =
      search (moves, steps, Moves-dispatch_alert, Moves-count) depth 20 fits 3000
