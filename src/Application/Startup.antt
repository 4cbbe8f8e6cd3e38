-- ===== src/Application/Startup.antt =====
-- app/application/startup_reconciliation.py: `StartupReconciliation`, with its manager and FunPay.
use war_thunder_rent_bot.Prelude.{ℕ, ◌+◌, Bool, true, false, none, some, List, Option}
use war_thunder_rent_bot.Domain.States.{OperationKind}
use war_thunder_rent_bot.Domain.FunPay.{LotOperationResult}
use war_thunder_rent_bot.Domain.PixelStorm.{Category, SecurityOperationOutcome}
use war_thunder_rent_bot.Persistence.Rows.{OperationRow}
use war_thunder_rent_bot.Persistence.Repository.Queries.{
  account_lot_ids, running_operations, is_waiting_external,
}
use war_thunder_rent_bot.Persistence.Repository.Claims.{
  claim_startup_recovery, release_recovery_claim, lease_covers,
}
use war_thunder_rent_bot.Persistence.Repository.Security.{prepare_operation}
use war_thunder_rent_bot.Persistence.Repository.Completion.{
  operation_completed, operation_failed, complete_recovery_operation, fail_recovery_operation,
}
use war_thunder_rent_bot.Persistence.Repository.Recovery.{recover_expired_leases, reconcile}
use war_thunder_rent_bot.Application.World.{
  App, Port, ◌>>=◌, ◌>>◌, pure, transact, retried, reads, port, draw, choose, if_some, count,
}
use war_thunder_rent_bot.Application.Ports.{Outside, Settings}
use war_thunder_rent_bot.Application.Security.{Job}
use war_thunder_rent_bot.Application.Security.Revoke.{execute_revoke}
use war_thunder_rent_bot.Application.Security.Rotate.{execute_rotate}
use war_thunder_rent_bot.Application.Rentals.{notify_operation, is_empty}
use war_thunder_rent_bot.Application.Rentals.Operations.{recover_message_receipts}

abbrev recovery_job : OperationRow → ℕ → ℕ → Job
recovery_job op token now = record {
  account_id = op.account_id;
  operation_id = op.id;
  now = now;
  recovery = true;
  normal_claim_token = none;
  recovery_claim_token = some token;
}

-- `prepare_operation(...) or operation`
abbrev row_or : Option OperationRow → OperationRow → OperationRow
row_or (some row) op = row
row_or none op = op

module _ {E : Type 0} (o : Outside E) (s : Settings) where
  -- an operation on lots, by what FunPay shows of them
  unfoldable pub settle_lots : Bool → ℕ → OperationRow → App E Bool
  settle_lots true now op = do
    new_id ← draw o.uuid
    done ← transact (operation_completed new_id op.id now none none)
    pure true
  settle_lots false now op = do
    done ← transact (operation_failed op.id now none none)
    notify_operation o s (Category.verification_failed op.kind) op now
    pure true

  unfoldable pub verify_lots : (List ℕ → Port E LotOperationResult) → ℕ → OperationRow → App E Bool
  verify_lots verify now op = choose (lease_covers op.lease_until now) (pure false) (do
    lot_ids ← reads (account_lot_ids op.account_id)
    choose (is_empty lot_ids) (settle_lots false now op)
        (do result ← port (verify lot_ids); settle_lots result.verified now op))

  -- one turn of the first loop
  unfoldable pub recover_lots : OperationKind → ℕ → OperationRow → App E Bool
  recover_lots OperationKind.disable_lots now op = verify_lots o.funpay.verify_lots_disabled now op
  recover_lots OperationKind.enable_lots now op = verify_lots o.funpay.verify_lots_enabled now op
  recover_lots _ now op = pure false

  -- the end of a recovered security operation
  unfoldable pub conclude_recovery : SecurityOperationOutcome → ℕ → ℕ → OperationRow → App E Bool
  conclude_recovery SecurityOperationOutcome.completed token now op = do
    new_id ← draw o.uuid
    done ← transact (complete_recovery_operation new_id op.id token now)
    pure true
  conclude_recovery SecurityOperationOutcome.failed_closed token now op = do
    done ← transact (fail_recovery_operation op.id token now)
    pure true
  conclude_recovery SecurityOperationOutcome.waiting_external token now op = do
    done ← transact (release_recovery_claim op.id token)
    pure true

  unfoldable pub recover_revoke : ℕ → ℕ → OperationRow → App E Bool
  recover_revoke token now op = do
    prepared ← transact (prepare_operation op.id now)
    let ready = row_or prepared op
    outcome ← execute_revoke o s (recovery_job ready token now)
    conclude_recovery outcome token now ready

  unfoldable pub recover_rotate : ℕ → ℕ → OperationRow → App E Bool
  recover_rotate token now op = do
    outcome ← execute_rotate o s (recovery_job op token now)
    conclude_recovery outcome token now op

  -- what `claim_startup_recovery` returned; a row without a token is failed and not counted
  unfoldable pub recover_claimed :
      (ℕ → ℕ → OperationRow → App E Bool) → ℕ → OperationRow → App E Bool
  recover_claimed work now op =
      if_some op.recovery_claim_token (λ token. work token now op)
        (do done ← transact (operation_failed op.id now none none); pure false)

  unfoldable pub recover_unless_waiting :
      (ℕ → ℕ → OperationRow → App E Bool) → ℕ → OperationRow → App E Bool
  recover_unless_waiting work now op =
      choose (is_waiting_external op.security_state) (pure false) (do
        token ← draw o.uuid
        claimed ← transact (claim_startup_recovery token op.id now)
        if_some claimed (recover_claimed work now) (pure false))

  -- one turn of the second loop
  unfoldable pub recover_security : OperationKind → ℕ → OperationRow → App E Bool
  recover_security OperationKind.revoke_sessions now op =
      recover_unless_waiting recover_revoke now op
  recover_security OperationKind.rotate_password now op =
      recover_unless_waiting recover_rotate now op
  recover_security _ now op = pure false

  unfoldable pub recover_leases : ℕ → App E ℕ
  recover_leases now =
      retried (λ e. let b = o.busy e in (λ db. recover_expired_leases (b.0) s.windows now db, b.1))

  -- `run`
  unfoldable pub reconcile_startup : ℕ → App E ℕ
  reconcile_startup now = do
    messages ← recover_message_receipts o s now
    running ← reads running_operations
    lots ← count (λ op. recover_lots op.kind now op) running
    still_running ← reads running_operations
    security ←
        choose s.has_pixelstorm_security
          (count (λ op. recover_security op.kind now op) still_running) (pure 0)
    leases ← recover_leases now
    accounts ← transact (reconcile now)
    pure (messages + lots + security + leases + accounts)
