-- ===== src/Persistence/FunPayEvents/Examples.antt =====
-- One claimed event, and the theorem applied to it.
use war_thunder_rent_bot.Prelude.{◌+◌, ◌≡◌, refl, false, none, some, [], ◌∷◌, arith}
use war_thunder_rent_bot.Table.{rowcount, HasUniqueKeys, update, order_by, select, get, first}
use war_thunder_rent_bot.Persistence.Rows.{FunPayEventRow, FunPayEventType, FunPayProcessingStatus}
use war_thunder_rent_bot.Persistence.Session.{Db}
use war_thunder_rent_bot.Persistence.Booking.Steps.{no_rows}
use war_thunder_rent_bot.Persistence.FunPayEvents.{
  event_of, mark_processed, cas_event, claim_events, ingest, insert_event,
}
use war_thunder_rent_bot.Persistence.FunPayEvents.Once.{
  NotAmong, EventStep, EventRun, processed_once,
}

abbrev claimed_event : FunPayEventRow
claimed_event = record {
  id = 80;
  external_event_id = 800;
  event_type = FunPayEventType.paid_order;
  funpay_order_id = some 70;
  buyer_id = some 5;
  buyer_handle = none;
  lot_id = none;
  offer_id = none;
  tariff_code = some 1;
  duration_seconds = some 3600;
  message_text = none;
  received_at = 1000;
  processing_status = FunPayProcessingStatus.claimed;
  claim_token = some 7;
  claimed_at = some 2000;
  attempt_count = 1;
  correlation_id = 800;
  created_at = 1000;
  updated_at = 2000;
}

abbrev before : Db
before = record no_rows { funpay_events = claimed_event ∷ [] }

abbrev finished : Db
finished = record no_rows {
  funpay_events =
      record claimed_event {
        processing_status = FunPayProcessingStatus.processed;
        updated_at = 3000;
      }
      ∷ [];
}

before_HasUniqueKeys : HasUniqueKeys (λ r. r.id) before.funpay_events
unfolding rowcount
before_HasUniqueKeys i = ground arith

-- after the event has come in again, and long after the lease of the claim
processed_once_example :
    (r : FunPayEventRow) × (event_of finished 80 ≡ some r)
    × (r.processing_status ≡ FunPayProcessingStatus.processed)
    × (event_of finished 80 ≡ some r)
    × NotAmong 80 []
unfolding mark_processed cas_event rowcount update claim_events order_by select ingest insert_event
    get first
processed_once_example =
    processed_once 80 7 3000 before before_HasUniqueKeys finished refl finished
      (EventRun.and_then EventRun.none_yet
        (EventStep.ingests claimed_event 4000 {done = false} refl))
      (λ n. 90 + n) 900000000 30 [] finished refl
