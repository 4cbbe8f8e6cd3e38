-- ===== src/Application/Rentals/Operations.antt =====
-- `run_operations` and `recover_message_receipts` of RentalManager.
use war_thunder_rent_bot.Prelude.{
  ℕ, Bool, true, false, ◌&&◌, ◌||◌, not, Option, none, some, List, ◌++◌, ◌==◌,
}
use war_thunder_rent_bot.Domain.States.{OperationKind, OperationStatus, status_eq}
use war_thunder_rent_bot.Domain.FunPay.{MessageReceipt, LotOperationResult, is_ready}
use war_thunder_rent_bot.Domain.PixelStorm.{Category, SecurityOperationOutcome}
use war_thunder_rent_bot.Persistence.Rows.{OperationRow}
use war_thunder_rent_bot.Persistence.Session.{Error, state_conflict, value}
use war_thunder_rent_bot.Persistence.Repository.Queries.{
  account_lot_ids, pending_operations, waiting_security_operations, recoverable_message_operations,
}
use war_thunder_rent_bot.Persistence.Repository.Claims.{
  claim_operation, claim_waiting_security_operation,
}
use war_thunder_rent_bot.Persistence.Repository.Security.{prepare_operation, wait_for_buyer_otp}
use war_thunder_rent_bot.Persistence.Repository.Completion.{operation_completed, operation_failed}
use war_thunder_rent_bot.Application.World.{
  App, Port, ◌>>=◌, ◌>>◌, pure, raise, transact, reads, port, draw, choose, if_some, captured,
  on_result, each, count,
}
use war_thunder_rent_bot.Application.Ports.{Outside, Settings}
use war_thunder_rent_bot.Application.Security.{Job}
use war_thunder_rent_bot.Application.Security.Revoke.{execute_revoke}
use war_thunder_rent_bot.Application.Security.Rotate.{execute_rotate}
use war_thunder_rent_bot.Application.Rentals.{
  Sent, send_credentials, send_otp, change_lots, notify_operation, notify_health, is_empty,
}

-- the kinds that need FunPay
abbrev needs_funpay : OperationKind → Bool
needs_funpay OperationKind.revoke_sessions = false
needs_funpay OperationKind.rotate_password = false
needs_funpay _ = true

-- `completed` and `outcome` after an operation's side effects. `no_lots` is the early `continue`
-- of an account without lots.
pub data Verdict : Type 0 where
  completed no_code waiting failed no_lots : Verdict

abbrev of_sent : Sent → Verdict
of_sent Sent.confirmed = Verdict.completed
of_sent Sent.refused = Verdict.failed
of_sent Sent.no_code = Verdict.no_code

abbrev of_outcome : SecurityOperationOutcome → Verdict
of_outcome SecurityOperationOutcome.completed = Verdict.completed
of_outcome SecurityOperationOutcome.waiting_external = Verdict.waiting
of_outcome SecurityOperationOutcome.failed_closed = Verdict.failed

-- the notification of a failure, by the operation's kind
abbrev pub failure_category : OperationKind → Option Category
failure_category OperationKind.disable_lots =
    some (Category.verification_failed OperationKind.disable_lots)
failure_category OperationKind.enable_lots =
    some (Category.verification_failed OperationKind.enable_lots)
failure_category OperationKind.send_credentials =
    some (Category.fail_closed OperationKind.send_credentials)
failure_category OperationKind.send_otp = some (Category.fail_closed OperationKind.send_otp)
failure_category _ = none

-- `except (StateConflictError, ValueError)`
abbrev is_refusal : Error → Bool
is_refusal state_conflict = true
is_refusal value = true
is_refusal _ = false

abbrev normal_job : OperationRow → ℕ → Job
normal_job op now = record {
  account_id = op.account_id;
  operation_id = op.id;
  now = now;
  recovery = false;
  normal_claim_token = op.normal_claim_token;
  recovery_claim_token = none;
}

module _ {E : Type 0} (o : Outside E) (s : Settings) where
  unfoldable pub fail : OperationRow → ℕ → App E Bool
  fail op now = transact (operation_failed op.id now none op.normal_claim_token)

  unfoldable pub perform_lots :
      (ℕ → List ℕ → Port E LotOperationResult) → OperationRow → ℕ → App E Verdict
  perform_lots change op now = do
    lot_ids ← reads (account_lot_ids op.account_id)
    choose (is_empty lot_ids) (pure Verdict.no_lots)
        (do sent ← change_lots o s change op now; pure (of_sent sent))

  unfoldable pub perform_security :
      (Job → App E SecurityOperationOutcome) → OperationRow → ℕ → App E Verdict
  perform_security work op now =
      choose s.has_pixelstorm_security
        (do outcome ← work (normal_job op now); pure (of_outcome outcome)) (pure Verdict.failed)

  -- the side effects of an operation, by its kind
  unfoldable pub perform : OperationKind → OperationRow → ℕ → App E Verdict
  perform OperationKind.disable_lots op now = perform_lots o.funpay.disable_lots op now
  perform OperationKind.send_credentials op now = do
    sent ← send_credentials o s op now
    pure (of_sent sent)
  perform OperationKind.revoke_sessions op now = perform_security (execute_revoke o s) op now
  perform OperationKind.rotate_password op now = perform_security (execute_rotate o s) op now
  perform OperationKind.enable_lots op now = perform_lots o.funpay.enable_lots op now
  perform OperationKind.send_otp op now = do sent ← send_otp o s op now; pure (of_sent sent)

  -- the transaction that ends an operation's turn, and the notification of a failure
  unfoldable pub conclude : Verdict → OperationRow → ℕ → App E (Unit {0})
  conclude Verdict.completed op now = do
    new_id ← draw o.uuid
    done ← transact (operation_completed new_id op.id now none op.normal_claim_token)
    pure tt
  conclude Verdict.no_code op now = do waits ← transact (wait_for_buyer_otp op.id); pure tt
  conclude Verdict.waiting op now = pure tt
  conclude Verdict.failed op now = do
    done ← fail op now
    if_some (failure_category op.kind) (λ c. notify_operation o s c op now) (pure tt)
  conclude Verdict.no_lots op now = do done ← fail op now; pure tt

  unfoldable pub run_prepared : ℕ → OperationRow → App E (Unit {0})
  run_prepared now op = do verdict ← perform op.kind op now; conclude verdict op now

  -- from `prepare_operation` on
  unfoldable pub run_claimed : ℕ → OperationRow → App E (Unit {0})
  run_claimed now claimed = do
    prepared ← captured (transact (prepare_operation claimed.id now))
    on_result prepared (λ found. if_some found (run_prepared now) (pure tt))
        (λ e. choose (is_refusal e) (do done ← fail claimed now; pure tt) (raise e))

  unfoldable pub claim : ℕ → OperationRow → App E (Option OperationRow)
  claim now operation = do
    token ← draw o.uuid
    choose (operation.status == OperationStatus.pending)
        (transact (claim_operation token operation.id now 30))
        (transact (claim_waiting_security_operation token operation.id now 30))

  unfoldable pub run_ready : ℕ → OperationRow → App E (Unit {0})
  run_ready now operation = do
    claimed ← claim now operation
    if_some claimed (run_claimed now) (pure tt)

  -- one turn of the loop
  unfoldable pub run_one : ℕ → OperationRow → App E (Unit {0})
  run_one now operation =
      choose (needs_funpay operation.kind)
        (do
          health ← port o.funpay.health
          choose (is_ready health) (run_ready now operation)
              (do again ← port o.funpay.health; notify_health o s again operation.account_id now))
        (run_ready now operation)

  -- `run_operations`
  unfoldable pub run_operations : ℕ → App E (Unit {0})
  run_operations now = do
    operations ← reads (λ db. pending_operations db ++ waiting_security_operations db)
    each (run_one now) operations

  unfoldable pub settle_receipt : ℕ → OperationRow → MessageReceipt → App E Bool
  settle_receipt now op receipt =
      choose (receipt.ambiguous || not (receipt.delivered && receipt.verified))
        (do
          done ← transact (operation_failed op.id now none none)
          choose receipt.ambiguous
              (notify_operation o s (Category.delivery_ambiguous op.kind) op now)
              (notify_operation o s (Category.fail_closed op.kind) op now)
          pure false)
        (do
          new_id ← draw o.uuid
          done ← transact (operation_completed new_id op.id now none none)
          pure true)

  unfoldable pub recover_receipt : ℕ → OperationRow → App E Bool
  recover_receipt now op = do
    receipt ← port (o.funpay.get_message_receipt op.idempotency_key)
    if_some receipt (settle_receipt now op) (pure false)

  -- `recover_message_receipts`
  unfoldable pub recover_message_receipts : ℕ → App E ℕ
  recover_message_receipts now = do
    operations ← reads (recoverable_message_operations now)
    count (recover_receipt now) operations
