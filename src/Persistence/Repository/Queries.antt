-- ===== src/Persistence/Repository/Queries.antt =====
-- The read-only queries of `Repository`.
use war_thunder_rent_bot.Prelude.{
  ℕ, Bool, true, false, ◌&&◌, ◌||◌, Option, none, some, List, map, ltb, ◌==◌, nat_eq,
}
use war_thunder_rent_bot.Domain.States.{
  OperationKind, OperationStatus, SecurityState, kind_eq, status_eq, security_eq,
}
use war_thunder_rent_bot.Table.{select, order_by}
use war_thunder_rent_bot.Persistence.Rows.{AccountRow, RentalRow, OperationRow}
use war_thunder_rent_bot.Persistence.Session.{
  Db, Tx, require_some, assertion, account_of, rental_of, operation_of,
}

-- `lease_until < now`, which is unknown, so not satisfied, on NULL
abbrev pub lease_before : Option ℕ → ℕ → Bool
lease_before none now = false
lease_before (some t) now = ltb t now

-- `or_(lease_until.is_(None), lease_until < now)`
abbrev pub lease_over : Option ℕ → ℕ → Bool
lease_over none now = true
lease_over (some t) now = ltb t now

-- `security_state.in_(["WAITING_LOGIN_OTP", "WAITING_PASSWORD_CHANGE_EMAIL"])`
abbrev pub is_waiting_external : SecurityState → Bool
is_waiting_external SecurityState.waiting_login_otp = true
is_waiting_external SecurityState.waiting_password_change_email = true
is_waiting_external _ = false

unfoldable pub account_lot_ids : ℕ → Db → List ℕ
unfolding select order_by
account_lot_ids account_id db =
    map (λ r. r.external_lot_id)
      (order_by (λ r. r.external_lot_id) (select (λ r. r.account_id == account_id) db.lots))

unfoldable pub pending_operations : Db → List OperationRow
unfolding select order_by
pending_operations db =
    order_by (λ r. r.created_at) (select (λ r. r.status == OperationStatus.pending) db.operations)

unfoldable pub recoverable_message_operations : ℕ → Db → List OperationRow
unfolding select
recoverable_message_operations now db =
    select
      (λ r.
        (r.kind == OperationKind.send_credentials || r.kind == OperationKind.send_otp)
        && r.status == OperationStatus.running
        && lease_over r.lease_until now)
      db.operations

unfoldable pub expired_running_operations : ℕ → Db → List OperationRow
unfolding select
expired_running_operations now db =
    select (λ r. r.status == OperationStatus.running && lease_before r.lease_until now)
      db.operations

unfoldable pub running_operations : Db → List OperationRow
unfolding select
running_operations db = select (λ r. r.status == OperationStatus.running) db.operations

unfoldable pub waiting_security_operations : Db → List OperationRow
unfolding select
waiting_security_operations db =
    select (λ r. r.status == OperationStatus.running && is_waiting_external r.security_state)
      db.operations

-- `assert row is not None` after `session.get`
unfoldable pub get_account : ℕ → Tx AccountRow
get_account account_id db = require_some (account_of db account_id) assertion db

unfoldable pub get_rental : ℕ → Tx RentalRow
get_rental rental_id db = require_some (rental_of db rental_id) assertion db

unfoldable pub get_operation : ℕ → Tx OperationRow
get_operation operation_id db = require_some (operation_of db operation_id) assertion db
