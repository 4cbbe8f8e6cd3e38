-- ===== src/Persistence/Repository/Completion.antt =====
-- The end of an operation: `operation_completed`, `operation_failed`, their variants for a startup
-- recovery, and what an end does to the account and the rental.
use war_thunder_rent_bot.Prelude.{
  ℕ, ◌+◌, Bool, true, false, ◌&&◌, Option, none, some, ◌is_some◌, is_none,
}
use war_thunder_rent_bot.Domain.States.{
  AccountStatus, RentalStatus, FulfillmentStatus, OperationKind, OperationStatus,
}
use war_thunder_rent_bot.Persistence.Rows.{
  AccountRow, OrderRow, RentalRow, OperationRow, AuditType, Correlation, seconds,
}
use war_thunder_rent_bot.Persistence.Session.{
  Tx, ◌>>=◌, ◌>>◌, pure, query, require_some, assertion, cas_operation, save_account, save_rental,
  save_order, account_of, rental_of, order_of, operation_of, optional,
}
use war_thunder_rent_bot.Persistence.Repository.Internal.{
  add_operation, audit, transition_row, transition_rental,
}
use war_thunder_rent_bot.Persistence.Repository.Claims.{is_running}

-- `rental.started_at = now`, and the expiry and the fulfillment of its order
unfoldable pub start_rental : RentalRow → Option OrderRow → ℕ → Tx (Unit {0})
start_rental rental none now = save_rental (record rental { started_at = some now })
start_rental rental (some order) now = do
  save_rental
      (record rental { started_at = some now; expires_at = now + seconds order.duration_seconds })
  save_order (record order { fulfillment_status = FulfillmentStatus.activated })

-- The branches of `_complete_operation_row`, on the kind and on the rental. `new_id` is the
-- `uuid4()` of the operation that follows.
unfoldable pub complete_kind :
    OperationKind → ℕ → OperationRow → AccountRow → Option RentalRow → ℕ → Tx (Unit {0})
unfolding start_rental
complete_kind OperationKind.disable_lots new_id op account (some rental) now =
    add_operation new_id OperationKind.send_credentials account.id rental.id now
complete_kind OperationKind.send_credentials new_id op account (some rental) now = do
  activated ← transition_rental rental RentalStatus.active now
  order ← query (λ db. order_of db rental.order_id)
  start_rental activated order now
  a ← transition_row account AccountStatus.active now
  audit AuditType.rental_started (some account.id) (some rental.id)
      (Correlation.of_key op.idempotency_key) now
complete_kind OperationKind.revoke_sessions new_id op account (some rental) now = do
  a ← transition_row account AccountStatus.rotating_password now
  r ← transition_rental rental RentalStatus.password_rotation now
  add_operation new_id OperationKind.rotate_password account.id rental.id now
complete_kind OperationKind.rotate_password new_id op account (some rental) now = do
  offline ← transition_row account AccountStatus.available_offline now
  save_account (record offline { credential_version = offline.credential_version + 1 })
  add_operation new_id OperationKind.enable_lots account.id rental.id now
complete_kind OperationKind.enable_lots new_id op account (some rental) now = do
  a ← transition_row account AccountStatus.available now
  r ← transition_rental rental RentalStatus.finished now
  audit AuditType.rental_finished (some account.id) (some rental.id)
      (Correlation.of_key op.idempotency_key) now
complete_kind _ new_id op account _ now = pure tt

unfoldable pub complete_account :
    Option AccountRow → ℕ → OperationRow → Option RentalRow → ℕ → Tx Bool
complete_account none new_id op rental now = pure false
complete_account (some account) new_id op rental now = do
  complete_kind op.kind new_id op account rental now
  pure true

-- `_complete_operation_row`
unfoldable pub complete_operation_row : ℕ → OperationRow → ℕ → Tx Bool
unfolding complete_account
complete_operation_row new_id op now = do
  rental ← query (λ db. optional (rental_of db) op.rental_id)
  account ← query (λ db. account_of db op.account_id)
  complete_account account new_id op rental now

-- `if account: self._transition_account(session, account, MANUAL_REVIEW, now)`
unfoldable pub quarantine_account : Option AccountRow → ℕ → Tx (Unit {0})
quarantine_account none now = pure tt
quarantine_account (some account) now = do
  a ← transition_row account AccountStatus.manual_review now
  pure tt

unfoldable pub quarantine_rental : Option RentalRow → ℕ → Tx (Unit {0})
quarantine_rental none now = pure tt
quarantine_rental (some rental) now = do
  r ← transition_rental rental RentalStatus.manual_review now
  pure tt

-- `if account: ...` and `if rental: ...`
unfoldable pub quarantine : Option AccountRow → Option RentalRow → ℕ → Tx (Unit {0})
quarantine account rental now = do quarantine_account account now; quarantine_rental rental now

-- `_fail_operation_row`
unfoldable pub fail_operation_row : OperationRow → ℕ → Tx Bool
fail_operation_row operation now = do
  account ← query (λ db. account_of db operation.account_id)
  rental ← query (λ db. optional (rental_of db) operation.rental_id)
  quarantine account rental now
  audit AuditType.operation_failed (some operation.account_id) operation.rental_id
      (Correlation.of_key operation.idempotency_key) now
  pure true

-- what follows a conditional update of the operation: `if rowcount != 1: return False`
unfoldable pub when_claimed : Bool → ℕ → (OperationRow → Tx Bool) → Tx Bool
when_claimed false operation_id finish = pure false
when_claimed true operation_id finish = do
  found ← query (λ db. operation_of db operation_id)
  operation ← require_some found assertion
  finish operation

unfoldable pub complete_recovery_operation : ℕ → ℕ → ℕ → ℕ → Tx Bool
unfolding when_claimed
complete_recovery_operation new_id operation_id token now = do
  changed ←
      cas_operation operation_id (λ r. is_running r && r.recovery_claim_token is_some token)
        (λ r. record r {
          status = OperationStatus.completed;
          completed_at = some now;
          lease_until = none;
          recovery_claim_token = none;
        })
  when_claimed changed operation_id (λ op. complete_operation_row new_id op now)

-- `normal_claim_token == token if token is not None else true()`
abbrev pub owned_by : Option ℕ → OperationRow → Bool
owned_by none r = true
owned_by (some token) r = r.normal_claim_token is_some token

abbrev pub finalizable : Option ℕ → OperationRow → Bool
finalizable token r = is_running r && is_none r.recovery_claim_token && owned_by token r

unfoldable pub operation_completed : ℕ → ℕ → ℕ → Option ℕ → Option ℕ → Tx Bool
unfolding complete_recovery_operation
operation_completed new_id operation_id now (some recovery) normal =
    complete_recovery_operation new_id operation_id recovery now
operation_completed new_id operation_id now none normal = do
  claimed ← cas_operation operation_id (finalizable normal) (λ r. record r {
    status = OperationStatus.completed;
    completed_at = some now;
    lease_until = none;
    normal_claim_token = none;
    recovery_claim_token = none;
  })
  when_claimed claimed operation_id (λ op. complete_operation_row new_id op now)

unfoldable pub fail_recovery_operation : ℕ → ℕ → ℕ → Tx Bool
unfolding when_claimed
fail_recovery_operation operation_id token now = do
  changed ←
      cas_operation operation_id (λ r. is_running r && r.recovery_claim_token is_some token)
        (λ r. record r {
          status = OperationStatus.failed;
          completed_at = some now;
          recovery_claim_token = none;
        })
  when_claimed changed operation_id (λ op. fail_operation_row op now)

unfoldable pub operation_failed : ℕ → ℕ → Option ℕ → Option ℕ → Tx Bool
unfolding fail_recovery_operation
operation_failed operation_id now (some recovery) normal =
    fail_recovery_operation operation_id recovery now
operation_failed operation_id now none normal = do
  changed ← cas_operation operation_id (finalizable normal) (λ r. record r {
    status = OperationStatus.failed;
    completed_at = some now;
    lease_until = none;
    normal_claim_token = none;
    recovery_claim_token = none;
  })
  when_claimed changed operation_id (λ op. fail_operation_row op now)
