-- ===== src/Application/Moves/Startup.antt =====
-- StartupReconciliation moves the database by steps.
use war_thunder_rent_bot.Prelude.{ℕ, Bool, true, false, List}
use war_thunder_rent_bot.Domain.States.{OperationKind}
use war_thunder_rent_bot.Domain.FunPay.{LotOperationResult}
use war_thunder_rent_bot.Domain.PixelStorm.{SecurityOperationOutcome}
use war_thunder_rent_bot.Persistence.Rows.{OperationRow}
use war_thunder_rent_bot.Application.World.{App, Port}
use war_thunder_rent_bot.Application.Ports.{Outside, Settings}
use war_thunder_rent_bot.Application.Startup.{
  settle_lots, verify_lots, recover_lots, conclude_recovery, recover_revoke, recover_rotate,
  recover_claimed, recover_unless_waiting, recover_security, recover_leases, reconcile_startup,
}
use war_thunder_rent_bot.Application.Moves.{Moves, moves}
use war_thunder_rent_bot.Application.Moves.Outside.{Lawful, Moves-retried}
use war_thunder_rent_bot.Application.Moves.Retries.{recover_expired_leases-Run}
use war_thunder_rent_bot.Application.Moves.Transactions.{steps}
use war_thunder_rent_bot.Application.Moves.Operations.{Moves-revoke, Moves-rotate}
use war_thunder_rent_bot.Application.Moves.Rentals.{
  Moves-count, Moves-notify_operation, Moves-recover_message_receipts,
}

module _ {E : Type 0} (o : Outside E) (s : Settings) where
  Moves-settle_lots : (b : Bool) (now : ℕ) (op : OperationRow) → Moves (settle_lots o s b now op)
  unfolding settle_lots
  Moves-settle_lots true now op = search (moves, steps) depth 20 fits 3000
  Moves-settle_lots false now op = search (moves, steps, Moves-notify_operation) depth 20 fits 3000

  Moves-verify_lots :
      (verify : List ℕ → Port E LotOperationResult) (now : ℕ) (op : OperationRow)
      → Moves (verify_lots o s verify now op)
  unfolding verify_lots
  Moves-verify_lots verify now op = search (moves, Moves-settle_lots) depth 20 fits 3000

  Moves-recover_lots :
      (k : OperationKind) (now : ℕ) (op : OperationRow) → Moves (recover_lots o s k now op)
  unfolding recover_lots
  Moves-recover_lots OperationKind.disable_lots now op = search Moves-verify_lots
  Moves-recover_lots OperationKind.enable_lots now op = search Moves-verify_lots
  Moves-recover_lots OperationKind.send_credentials now op = search moves
  Moves-recover_lots OperationKind.revoke_sessions now op = search moves
  Moves-recover_lots OperationKind.rotate_password now op = search moves
  Moves-recover_lots OperationKind.send_otp now op = search moves

  Moves-conclude_recovery :
      (r : SecurityOperationOutcome) (token now : ℕ) (op : OperationRow)
      → Moves (conclude_recovery o s r token now op)
  unfolding conclude_recovery
  Moves-conclude_recovery SecurityOperationOutcome.completed token now op =
      search (moves, steps) depth 20 fits 3000
  Moves-conclude_recovery SecurityOperationOutcome.failed_closed token now op =
      search (moves, steps) depth 20 fits 3000
  Moves-conclude_recovery SecurityOperationOutcome.waiting_external token now op =
      search (moves, steps) depth 20 fits 3000

  Moves-unless_waiting :
      {work : ℕ → ℕ → OperationRow → App E Bool}
      → ((token now : ℕ) (op : OperationRow) → Moves (work token now op))
      → (now : ℕ) (op : OperationRow) → Moves (recover_unless_waiting o s work now op)
  unfolding recover_unless_waiting recover_claimed
  Moves-unless_waiting h now op = search (moves, steps, h) depth 20 fits 3000

  module _ (l : Lawful o) where
    Moves-recover_revoke :
        (token now : ℕ) (op : OperationRow) → Moves (recover_revoke o s token now op)
    unfolding recover_revoke
    Moves-recover_revoke token now op =
        search (moves, steps, Moves-revoke o s l, Moves-conclude_recovery) depth 20 fits 3000

    Moves-recover_rotate :
        (token now : ℕ) (op : OperationRow) → Moves (recover_rotate o s token now op)
    unfolding recover_rotate
    Moves-recover_rotate token now op =
        search (moves, Moves-rotate o s l, Moves-conclude_recovery) depth 20 fits 3000

    Moves-recover_security :
        (k : OperationKind) (now : ℕ) (op : OperationRow) → Moves (recover_security o s k now op)
    unfolding recover_security
    Moves-recover_security OperationKind.revoke_sessions now op =
        Moves-unless_waiting Moves-recover_revoke now op
    Moves-recover_security OperationKind.rotate_password now op =
        Moves-unless_waiting Moves-recover_rotate now op
    Moves-recover_security OperationKind.disable_lots now op = search moves
    Moves-recover_security OperationKind.enable_lots now op = search moves
    Moves-recover_security OperationKind.send_credentials now op = search moves
    Moves-recover_security OperationKind.send_otp now op = search moves

    pub Moves-recover_leases : (now : ℕ) → Moves (recover_leases o s now)
    unfolding recover_leases
    Moves-recover_leases now =
        Moves-retried o l _
          (λ e db b. recover_expired_leases-Run s.windows now ((o.busy e).0) (l.busy e) db b)

    pub Moves-reconcile_startup : (now : ℕ) → Moves (reconcile_startup o s now)
    unfolding reconcile_startup
    Moves-reconcile_startup now =
        search
          (
            moves, steps, Moves-recover_message_receipts, Moves-recover_lots,
            Moves-recover_security, Moves-count, Moves-recover_leases,
          )
          depth 30 fits 5000
