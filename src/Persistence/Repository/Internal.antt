-- ===== src/Persistence/Repository/Internal.antt =====
-- The private helpers of `Repository`: `_operation`, `_audit` and the two transitions. What
-- `uuid4()` returns is an argument.
pub mod Laws
pub mod Rules
use war_thunder_rent_bot.Prelude.{ℕ, ◌+◌, ◌&&◌, Option, none, some, ◌==◌, nat_eq}
use war_thunder_rent_bot.Domain.States.{
  AccountStatus, RentalStatus, OperationKind, OperationStatus, SecurityState, account_eq,
}
use war_thunder_rent_bot.Domain.Transitions.{account_transition, rental_transition}
use war_thunder_rent_bot.Persistence.Rows.{
  AccountRow, RentalRow, AuditType, Correlation, IdempotencyKey,
}
use war_thunder_rent_bot.Persistence.Session.{
  Tx, ◌>>=◌, ◌>>◌, pure, require, value, state_conflict, cas_account, save_rental, insert_operation,
  insert_audit,
}

-- `_operation`
unfoldable pub add_operation : ℕ → OperationKind → ℕ → ℕ → ℕ → Tx (Unit {0})
add_operation new_id kind account_id rental_id now = insert_operation (record {
  id = new_id;
  kind = kind;
  idempotency_key = IdempotencyKey.of_rental kind rental_id;
  status = OperationStatus.pending;
  account_id = account_id;
  rental_id = some rental_id;
  order_id = none;
  attempt_count = 0;
  lease_until = none;
  started_at = none;
  maintenance_login_requested_at = none;
  password_change_requested_at = none;
  security_state = SecurityState.init;
  normal_claim_token = none;
  recovery_claim_token = none;
  created_at = now;
  completed_at = none;
})

-- `_audit`
unfoldable pub audit : AuditType → Option ℕ → Option ℕ → Correlation → ℕ → Tx (Unit {0})
audit event_type account_id rental_id correlation_id now = insert_audit (record {
  occurred_at = now;
  event_type = event_type;
  account_id = account_id;
  rental_id = rental_id;
  correlation_id = correlation_id;
})

-- `_transition_rental`: the object with its new status; the flush follows.
unfoldable pub transition_rental : RentalRow → RentalStatus → ℕ → Tx RentalRow
transition_rental rental target now = do
  require (rental_transition rental.status target) value
  save_rental (record rental { status = target; updated_at = now })
  pure (record rental { status = target; updated_at = now })

-- `_transition_account`: a compare-and-set on the status and the version that the object was read
-- with.
unfoldable pub transition_row : AccountRow → AccountStatus → ℕ → Tx AccountRow
transition_row account target now = do
  require (account_transition account.status target) value
  claimed ←
      cas_account account.id
        (λ r. r.status == account.status && r.state_version == account.state_version)
        (λ r. record r { status = target; state_version = r.state_version + 1; updated_at = now })
  require claimed state_conflict
  pure (record account {
    status = target;
    state_version = account.state_version + 1;
    updated_at = now;
  })
