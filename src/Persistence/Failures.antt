-- ===== src/Persistence/Failures.antt =====
-- Two histories in which a repair of the restart raises.
use war_thunder_rent_bot.Prelude.{◌≡◌, refl, some, none, [], ◌∷◌}
use war_thunder_rent_bot.Domain.States.{AccountStatus, OperationKind, OperationStatus}
use war_thunder_rent_bot.Persistence.Rows.{AccountRow, OperationRow, AuditType, Correlation}
use war_thunder_rent_bot.Persistence.Session.{
  Db, err, integrity, value, cas_account, insert_audit, cas_operation,
}
use war_thunder_rent_bot.Persistence.Booking.Steps.{no_rows}
use war_thunder_rent_bot.Persistence.Repository.Internal.Laws.{new_operation}
use war_thunder_rent_bot.Persistence.Repository.Security.{Windows}
use war_thunder_rent_bot.Table.{select, first, rowcount, get, update}
use war_thunder_rent_bot.Persistence.Repository.Internal.{transition_row, audit}
use war_thunder_rent_bot.Persistence.Repository.Queries.{running_operations}
use war_thunder_rent_bot.Persistence.Repository.Completion.{
  quarantine, quarantine_account, quarantine_rental,
}
use war_thunder_rent_bot.Persistence.Repository.Recovery.{
  reconcile, recover_expired_leases_once, reconcile_one, recover_one, is_abandoned,
}

abbrev account_in : AccountStatus → AccountRow
account_in status = record {
  id = 1;
  code = 100;
  status = status;
  credential_version = 1;
  state_version = 8;
  created_at = 1000;
  updated_at = 1000;
}

-- An account that was reconciled once, returned to service, and is stuck again.
abbrev stuck_again : Db
stuck_again = record no_rows {
  accounts = account_in AccountStatus.reserved ∷ [];
  audit_events =
      record {
        occurred_at = 2000;
        event_type = AuditType.manual_review;
        account_id = some 1;
        rental_id = none;
        correlation_id = Correlation.of_id 1;
      }
      ∷ [];
}

reconcile_again : reconcile 9000 stuck_again ≡ err integrity
unfolding reconcile select reconcile_one first transition_row cas_account rowcount audit
    insert_audit
reconcile_again = refl

abbrev expired_operation : OperationRow → OperationRow
expired_operation op = record op { status = OperationStatus.running; lease_until = some 3000 }

-- Two operations of one account, both running with a lease that is over.
abbrev two_expired : Db
two_expired = record no_rows {
  accounts = account_in AccountStatus.active ∷ [];
  operations =
      record (expired_operation (new_operation 30 OperationKind.send_otp 1 20 2000)) {
        rental_id = none;
      }
      ∷ record (expired_operation (new_operation 31 OperationKind.send_otp 1 20 2000)) {
        rental_id = none;
      }
      ∷ [];
}

abbrev windows : Windows
windows = record {
  maintenance_otp_correlation_seconds = 300;
  password_change_correlation_seconds = 900;
}

recover_two : recover_expired_leases_once windows 9000 two_expired ≡ err value
unfolding recover_expired_leases_once running_operations recover_one is_abandoned cas_operation
    rowcount quarantine quarantine_account get transition_row cas_account quarantine_rental audit
    insert_audit update
recover_two = refl
