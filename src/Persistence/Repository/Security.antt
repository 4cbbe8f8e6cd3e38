-- ===== src/Persistence/Repository/Security.antt =====
-- The durable state of a security operation: `prepare_operation`, the requests that it records,
-- `set_security_state`, `wait_for_buyer_otp` and `_external_wait_deadline`.
use war_thunder_rent_bot.Prelude.{
  ℕ, ◌+◌, Bool, ◌&&◌, Option, none, some, ◌==◌, is_none, if◌then◌else◌,
}
use war_thunder_rent_bot.Domain.States.{
  AccountStatus, RentalStatus, OperationKind, OperationStatus, SecurityState, account_eq, rental_eq,
  kind_eq, status_eq,
}
use war_thunder_rent_bot.Persistence.Rows.{AccountRow, RentalRow, OperationRow, seconds, minutes}
use war_thunder_rent_bot.Persistence.Session.{
  Tx, ◌>>=◌, pure, raise, query, state_conflict, cas_operation, account_of, rental_of, operation_of,
  optional,
}
use war_thunder_rent_bot.Persistence.Repository.Internal.{transition_row, transition_rental}
use war_thunder_rent_bot.Persistence.Repository.Queries.{is_waiting_external}
use war_thunder_rent_bot.Persistence.Repository.Claims.{is_running}

-- `if account.status != REVOKING: self._transition_account(...)`
unfoldable pub ensure_account_revoking : AccountRow → ℕ → Tx AccountRow
ensure_account_revoking account now =
    if account.status == AccountStatus.revoking
    then pure account
    else transition_row account AccountStatus.revoking now

unfoldable pub ensure_rental_revoking : RentalRow → ℕ → Tx RentalRow
ensure_rental_revoking rental now =
    if rental.status == RentalStatus.revoking
    then pure rental
    else transition_rental rental RentalStatus.revoking now

unfoldable pub prepare_revoke :
    OperationRow → Option AccountRow → Option RentalRow → ℕ → Tx (Option OperationRow)
prepare_revoke operation (some account) (some rental) now = do
  a ← ensure_account_revoking account now
  r ← ensure_rental_revoking rental now
  pure (some operation)
prepare_revoke operation _ _ now = raise state_conflict

unfoldable pub prepare_found : Option OperationRow → ℕ → Tx (Option OperationRow)
unfolding prepare_revoke
prepare_found none now = pure none
prepare_found (some operation) now =
    if is_running operation
    then if operation.kind == OperationKind.revoke_sessions
      then (do
        account ← query (λ db. account_of db operation.account_id)
        rental ← query (λ db. optional (rental_of db) operation.rental_id)
        prepare_revoke operation account rental now)
      else pure (some operation)
    else pure none

unfoldable pub prepare_operation : ℕ → ℕ → Tx (Option OperationRow)
unfolding prepare_found
prepare_operation operation_id now = do
  found ← query (λ db. operation_of db operation_id)
  prepare_found found now

unfoldable pub record_maintenance_login_requested : ℕ → ℕ → Tx Bool
record_maintenance_login_requested operation_id now =
    cas_operation operation_id is_running
      (λ r. record r { maintenance_login_requested_at = some now })

unfoldable pub record_password_change_requested : ℕ → ℕ → Tx Bool
record_password_change_requested operation_id now =
    cas_operation operation_id (λ r. is_running r && is_none r.password_change_requested_at)
      (λ r. record r { password_change_requested_at = some now })

unfoldable pub set_security_state : ℕ → SecurityState → ℕ → Tx Bool
set_security_state operation_id state now = cas_operation operation_id is_running (λ r. record r {
  security_state = state;
  lease_until = if is_waiting_external state then none else some (now + minutes 5);
  normal_claim_token = if is_waiting_external state then none else r.normal_claim_token;
})

unfoldable pub wait_for_buyer_otp : ℕ → Tx Bool
wait_for_buyer_otp operation_id =
    cas_operation operation_id (λ r. is_running r && r.kind == OperationKind.send_otp)
      (λ r. record r {
        status = OperationStatus.pending;
        security_state = SecurityState.waiting_buyer_otp;
        lease_until = none;
        normal_claim_token = none;
        completed_at = none;
      })

-- The two correlation windows that `Repository.__init__` is given.
pub record Windows : Type 0 where
  pub maintenance_otp_correlation_seconds : ℕ
  pub password_change_correlation_seconds : ℕ

abbrev after : Option ℕ → ℕ → Option ℕ
after none n = none
after (some t) n = some (t + seconds n)

abbrev deadline : Windows → SecurityState → OperationRow → Option ℕ
deadline w SecurityState.waiting_login_otp op =
    after op.maintenance_login_requested_at w.maintenance_otp_correlation_seconds
deadline w SecurityState.waiting_password_change_email op =
    after op.password_change_requested_at w.password_change_correlation_seconds
deadline w _ op = none

-- `_external_wait_deadline`
unfoldable pub external_wait_deadline : Windows → OperationRow → Option ℕ
external_wait_deadline w op = deadline w op.security_state op
