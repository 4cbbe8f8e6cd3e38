-- ===== src/Persistence/Examples.antt =====
-- A small history of the repository, and the theorems applied to it.
use war_thunder_rent_bot.Prelude.{ℕ, ◌≡◌, ◌≤◌, refl, none, some, [], ◌∷◌, false, true, arith, ◌+◌}
use war_thunder_rent_bot.Domain.Models.{OrderInput, StartResult}
use war_thunder_rent_bot.Domain.States.{
  AccountStatus, RentalStatus, FulfillmentStatus, OperationStatus, OperationKind,
}
use war_thunder_rent_bot.Persistence.Rows.{
  seconds, AccountRow, OrderRow, RentalRow, OperationRow, AuditEventRow, AuditType, IdempotencyKey,
  Correlation,
}
use war_thunder_rent_bot.Persistence.Session.{
  Db, ok, account_of, cas_operation, insert_audit, cas_account, insert_order, insert_rental,
  insert_operation, cas_rental, save_rental,
}
use war_thunder_rent_bot.Persistence.Session.Laws.{HasKeys}
use war_thunder_rent_bot.Persistence.Booking.{Booked, live}
use war_thunder_rent_bot.Persistence.Booking.Steps.{
  Reachable, start, after, adds_account, reserves, claims, no_rows, never_double_booked,
  reachable-Booked, Step-Booked,
}
use war_thunder_rent_bot.Persistence.Repository.Internal.Laws.{new_operation}
use war_thunder_rent_bot.Persistence.Repository.Reservation.{
  Attempt, add_account, reserve_order_once, find_order, first_available, reserve_account,
  block_order, or_operational, recorded_answer,
}
use war_thunder_rent_bot.Persistence.Repository.Completion.{
  operation_completed, operation_failed, fail_operation_row, quarantine, quarantine_account,
  quarantine_rental,
}
use war_thunder_rent_bot.Persistence.Repository.Claims.{
  claim_startup_recovery, claim_operation, fence_normal_side_effect, fence_recovery_side_effect,
}
use war_thunder_rent_bot.Table.{get, rowcount, update, first, first_by, save}
use war_thunder_rent_bot.Persistence.Repository.Internal.{
  audit, transition_row, add_operation, transition_rental,
}
use war_thunder_rent_bot.Persistence.Repository.Claims.Fencing.{
  fence_normal_exclusive, fence_sides_exclusive, lease_protects, recovery_fences_out,
}
use war_thunder_rent_bot.Domain.Transitions.Graph.{
  RentalPath, AccountPath, RentalPath-bounded, account_recovers,
}
use war_thunder_rent_bot.Persistence.Deadlines.{due, none_outlives}
use war_thunder_rent_bot.Persistence.Repository.Expiry.Extension.{Answer, extend_active_rental_lem}
use war_thunder_rent_bot.Persistence.FailClosed.{Failure, operation_failed_lem}
use war_thunder_rent_bot.Persistence.Reserved.{
  Outcome, Told, reserve_order_once_lem, reserve_order_recorded,
}
use war_thunder_rent_bot.Persistence.Repository.Expiry.{
  expire_due, due_rentals, expire_one, extend_active_rental, write_extension,
}
use war_thunder_rent_bot.Persistence.Repository.Reservation.{reserve_order}

abbrev order_one : OrderInput
order_one = record { funpay_order_id = 70; buyer_id = 5; tariff_code = 1; duration_seconds = 3600 }

abbrev attempt_one : Attempt
attempt_one = record {
  order_id = 10;
  rental_id = 20;
  operation_id = 30;
  is_refused = false;
  others = λ db. db;
}

abbrev account_one : AccountRow
account_one = record {
  id = 1;
  code = 100;
  status = AccountStatus.available;
  credential_version = 1;
  state_version = 0;
  created_at = 1000;
  updated_at = 1000;
}

abbrev held_one : AccountRow
held_one = record account_one {
  status = AccountStatus.reserved;
  state_version = 1;
  updated_at = 2000;
}

abbrev order_row_one : OrderRow
order_row_one = record {
  id = 10;
  funpay_order_id = 70;
  buyer_id = 5;
  tariff_code = 1;
  duration_seconds = 3600;
  account_id = some 1;
  fulfillment_status = FulfillmentStatus.pending;
  received_at = 2000;
}

abbrev rental_one : RentalRow
rental_one = record {
  id = 20;
  order_id = 10;
  buyer_id = 5;
  account_id = 1;
  tariff_code = 1;
  started_at = none;
  expires_at = 2000;
  status = RentalStatus.reserved;
  credential_version = 1;
  created_at = 2000;
  updated_at = 2000;
}

abbrev operation_one : OperationRow
operation_one = new_operation 30 OperationKind.disable_lots 1 20 2000

abbrev event_one : AuditEventRow
event_one = record {
  occurred_at = 2000;
  event_type = AuditType.rental_created;
  account_id = some 1;
  rental_id = some 20;
  correlation_id = Correlation.of_id 70;
}

abbrev pub with_an_account : Db
with_an_account = record no_rows { accounts = account_one ∷ [] }

abbrev pub with_a_rental : Db
with_a_rental = record no_rows {
  accounts = held_one ∷ [];
  orders = order_row_one ∷ [];
  rentals = rental_one ∷ [];
  operations = operation_one ∷ [];
  audit_events = event_one ∷ [];
}

abbrev running_one : ℕ → OperationRow
running_one lease_until = record operation_one {
  status = OperationStatus.running;
  started_at = some 3000;
  lease_until = some lease_until;
  attempt_count = 1;
  normal_claim_token = some 7;
}

-- A worker claims the reservation's operation.
abbrev pub at_work : Db
at_work = record with_a_rental { operations = running_one 60003000 ∷ [] }

-- The worker passes the fence.
abbrev renewed : Db
renewed = record with_a_rental { operations = running_one 60004000 ∷ [] }

-- A startup recovery takes it over after the lease.
abbrev taken_over : Db
taken_over = record with_a_rental {
  operations = record (running_one 400000000) { recovery_claim_token = some 8 } ∷ [];
  audit_events =
      event_one
      ∷ record {
        occurred_at = 100000000;
        event_type = AuditType.startup_recovery_claimed;
        account_id = some 1;
        rental_id = some 20;
        correlation_id = Correlation.of_claim 30 8;
      }
      ∷ [];
}

account_Reachable : Reachable with_an_account
unfolding add_account get
account_Reachable = after start (adds_account 1 100 1000 (1, refl))

rental_Reachable : Reachable with_a_rental
unfolding reserve_order_once find_order first first_available first_by reserve_account
    transition_row cas_account rowcount insert_order get update insert_rental add_operation
    insert_operation audit insert_audit block_order or_operational recorded_answer
rental_Reachable = after account_Reachable (reserves attempt_one order_one 2000 (_, refl))

work_Reachable : Reachable at_work
unfolding claim_operation cas_operation rowcount update
work_Reachable = after rental_Reachable (claims 7 30 3000 60 (_, refl))

work_HasKeys : HasKeys at_work
work_HasKeys = (reachable-Booked work_Reachable).keys

never_double_booked_example :
    (live at_work 1 ≤ 1)
    × ((r : AccountRow)
        → account_of at_work 1 ≡ some r
        → r.status ≡ AccountStatus.available
        → live at_work 1 ≡ 0)
never_double_booked_example = never_double_booked work_Reachable 1

Step-Booked_example : Booked at_work
unfolding claim_operation cas_operation rowcount update
Step-Booked_example =
    Step-Booked (reachable-Booked rental_Reachable) (claims 7 30 3000 60 (_, refl))

fence_normal_exclusive_example : ◌≡◌ {A = ℕ} 7 7
unfolding fence_normal_side_effect cas_operation rowcount update
fence_normal_exclusive_example =
    fence_normal_exclusive 7 7 30 4000 5000 60 60 at_work work_HasKeys {a = renewed}
      {b = record at_work { operations = running_one 60005000 ∷ [] }} refl refl

fence_sides_exclusive_example :
    ¬ (fence_recovery_side_effect 30 (some 8) 4000 at_work ≡ ok (true, at_work))
unfolding fence_normal_side_effect cas_operation rowcount update
fence_sides_exclusive_example =
    fence_sides_exclusive 7 8 30 4000 4000 60 at_work work_HasKeys {a = renewed} {b = at_work} refl

lease_protects_example : claim_startup_recovery 8 30 60000000 renewed ≡ ok (none, renewed)
unfolding fence_normal_side_effect cas_operation rowcount update
lease_protects_example =
    lease_protects 7 30 4000 60 8 60000000 at_work work_HasKeys {db' = renewed} refl (omega arith)

recovery_fences_out_example :
    (fence_normal_side_effect 30 (some 7) 100000001 60 taken_over ≡ ok (false, taken_over))
    × (operation_completed 31 30 100000001 none (some 7) taken_over ≡ ok (false, taken_over))
    × (operation_failed 30 100000001 none (some 7) taken_over ≡ ok (false, taken_over))
unfolding claim_startup_recovery cas_operation rowcount get update audit insert_audit
recovery_fences_out_example =
    recovery_fences_out 8 30 100000000 7 100000001 60 31 at_work work_HasKeys {op = _}
      {db' = taken_over} refl

-- A rental under way.
abbrev active_rental : RentalRow
active_rental = record rental_one {
  started_at = some 4000;
  expires_at = 5000;
  status = RentalStatus.active;
}

abbrev active_account : AccountRow
active_account = record account_one { status = AccountStatus.active; state_version = 2 }

abbrev under_way : Db
under_way = record with_a_rental {
  accounts = active_account ∷ [];
  rentals = active_rental ∷ [];
  operations = [];
}

way_HasKeys : HasKeys under_way
unfolding rowcount
way_HasKeys = record {
  accounts = λ i. ground arith;
  orders = λ i. ground arith;
  rentals = λ i. ground arith;
  operations = λ i. ground arith;
}

abbrev expired : Db
expired = record under_way {
  accounts =
      record active_account {
        status = AccountStatus.expiring;
        state_version = 3;
        updated_at = 6000;
      }
      ∷ [];
  rentals = record active_rental { status = RentalStatus.expiring; updated_at = 6000 } ∷ [];
  operations = new_operation 40 OperationKind.revoke_sessions 1 20 6000 ∷ [];
  audit_events =
      event_one
      ∷ record {
        occurred_at = 6000;
        event_type = AuditType.rental_expired;
        account_id = some 1;
        rental_id = some 20;
        correlation_id = Correlation.of_id 20;
      }
      ∷ [];
}

none_outlives_example : due 6000 expired 20 ≡ false
unfolding expire_due due_rentals expire_one cas_rental rowcount get update transition_row
    cas_account add_operation insert_operation audit insert_audit
none_outlives_example = none_outlives (λ n. 40 + n) 6000 under_way way_HasKeys 1 expired refl 20

abbrev longer : Db
longer = record under_way {
  rentals = record active_rental { expires_at = 5000 + seconds 60; updated_at = 4500 } ∷ [];
  audit_events =
      event_one
      ∷ record {
        occurred_at = 4500;
        event_type = AuditType.rental_extended;
        account_id = some 1;
        rental_id = some 20;
        correlation_id = Correlation.of_extension 20 (5000 + seconds 60);
      }
      ∷ [];
}

extend_active_rental_lem_example : Answer 20 5 60 4500 under_way true longer
unfolding extend_active_rental get write_extension cas_rental rowcount audit insert_audit update
extend_active_rental_lem_example =
    extend_active_rental_lem 20 5 60 4500 under_way way_HasKeys true longer refl

abbrev given_up : Db
given_up = record with_a_rental {
  accounts =
      record held_one { status = AccountStatus.manual_review; state_version = 2; updated_at = 5000 }
      ∷ [];
  rentals = record rental_one { status = RentalStatus.manual_review; updated_at = 5000 } ∷ [];
  operations =
      record operation_one {
        status = OperationStatus.failed;
        started_at = some 3000;
        attempt_count = 1;
        completed_at = some 5000;
      }
      ∷ [];
  audit_events =
      event_one
      ∷ record {
        occurred_at = 5000;
        event_type = AuditType.operation_failed;
        account_id = some 1;
        rental_id = some 20;
        correlation_id =
            Correlation.of_key (IdempotencyKey.of_rental OperationKind.disable_lots 20);
      }
      ∷ [];
}

operation_failed_lem_example : Failure 30 at_work true given_up
unfolding operation_failed cas_operation rowcount get update fail_operation_row quarantine
    quarantine_account transition_row cas_account quarantine_rental transition_rental save_rental
    audit insert_audit save
operation_failed_lem_example =
    operation_failed_lem 30 5000 none (some 7) at_work work_HasKeys true given_up refl

abbrev yes : StartResult
yes = record {
  accepted = true;
  fulfillment_status = FulfillmentStatus.pending;
  rental_id = some 20;
}

account_HasKeys : HasKeys with_an_account
account_HasKeys = (reachable-Booked account_Reachable).keys

reserve_order_once_lem_example : Outcome attempt_one order_one with_an_account yes with_a_rental
unfolding find_order first reserve_order_once first_available first_by reserve_account
    transition_row cas_account rowcount insert_order get update insert_rental add_operation
    insert_operation audit insert_audit block_order or_operational recorded_answer
reserve_order_once_lem_example =
    reserve_order_once_lem attempt_one order_one 2000 with_an_account account_HasKeys refl yes
      with_a_rental refl

reserve_order_recorded_example :
    (answer : StartResult) × (reserve_order (λ n. attempt_one) order_one 2500 with_a_rental
      ≡ (ok answer, with_a_rental))
    × Told order_row_one with_a_rental answer
unfolding find_order first
reserve_order_recorded_example =
    reserve_order_recorded (λ n. attempt_one) order_one 2500 with_a_rental order_row_one refl

RentalPath-bounded_example :
    (2 ≤ 5) × (RentalStatus.reserved ≡ RentalStatus.expiring → ◌≡◌ {A = ℕ} 2 0)
RentalPath-bounded_example = RentalPath-bounded (
    RentalPath.moves {t = RentalStatus.active}
      (RentalPath.moves {t = RentalStatus.reserved} RentalPath.begins refl) refl)

account_recovers_example : AccountPath AccountStatus.expiring AccountStatus.available
account_recovers_example = account_recovers AccountStatus.expiring
