-- ===== src/Application/Moves/Rentals.antt =====
-- RentalManager moves the database by steps.
use war_thunder_rent_bot.Prelude.{ℕ, Bool, true, false, Option, none, some, List, [], ◌∷◌}
use war_thunder_rent_bot.Domain.States.{OperationKind}
use war_thunder_rent_bot.Domain.Models.{OrderInput}
use war_thunder_rent_bot.Domain.FunPay.{FunPayHealth, MessageReceipt, LotOperationResult}
use war_thunder_rent_bot.Domain.PixelStorm.{Category, SecurityOperationOutcome}
use war_thunder_rent_bot.Persistence.Rows.{OperationRow, RentalRow}
use war_thunder_rent_bot.Application.World.{App, Port, each, count, collect}
use war_thunder_rent_bot.Application.Ports.{Outside, Settings, Message}
use war_thunder_rent_bot.Application.Security.{Job}
use war_thunder_rent_bot.Application.Rentals.{
  notify_operation, notify_health, reserve, accept_order, extend_rental, normal_side_effect,
  keep_receipt, after_message, deliver, send_current, send_credentials, send_new_otp, send_otp,
  change_lots,
}
use war_thunder_rent_bot.Application.Rentals.Operations.{
  Verdict, fail, perform_lots, perform_security, perform, conclude, run_prepared, run_claimed,
  claim, run_ready, run_one, run_operations, settle_receipt, recover_receipt,
  recover_message_receipts,
}
use war_thunder_rent_bot.Application.Moves.{Moves, moves, Moves-bind, Moves-pure}
use war_thunder_rent_bot.Application.Moves.Outside.{Lawful, Moves-guarded, Moves-retried}
use war_thunder_rent_bot.Application.Moves.Retries.{reserve_order-Run}
use war_thunder_rent_bot.Application.Moves.Transactions.{steps}
use war_thunder_rent_bot.Application.Moves.Security.{Moves-request_otp}
use war_thunder_rent_bot.Application.Moves.Operations.{Moves-revoke, Moves-rotate}

module _ {E A : Type 0} where
  pub Moves-each :
      {f : A → App E (Unit {0})} → ((a : A) → Moves (f a)) → (xs : List A) → Moves (each f xs)
  unfolding each
  Moves-each h [] = search moves
  Moves-each h (x ∷ xs) = Moves-bind (h x) (λ u. Moves-each h xs)

  pub Moves-count :
      {f : A → App E Bool} → ((a : A) → Moves (f a)) → (xs : List A) → Moves (count f xs)
  unfolding count
  Moves-count h [] = search moves
  Moves-count h (x ∷ xs) = Moves-bind (h x) (λ b. Moves-bind (Moves-count h xs) (λ n. Moves-pure _))

  pub Moves-collect :
      {B : Type 0} {f : A → App E (Option B)}
      → ((a : A) → Moves (f a))
      → (xs : List A) → Moves (collect f xs)
  unfolding collect
  Moves-collect h [] = search moves
  Moves-collect h (x ∷ xs) =
      Moves-bind (h x) (λ found. Moves-bind (Moves-collect h xs) (λ rest. Moves-pure _))

module _ {E : Type 0} (o : Outside E) (s : Settings) where
  pub Moves-notify_operation :
      (c : Category) (op : OperationRow) (now : ℕ) → Moves (notify_operation o s c op now)
  unfolding notify_operation
  Moves-notify_operation c op now = search moves depth 20 fits 3000

  Moves-notify_health : (h : FunPayHealth) (i now : ℕ) → Moves (notify_health o s h i now)
  unfolding notify_health
  Moves-notify_health h i now = search moves depth 20 fits 3000

  Moves-keep_receipt : (r : MessageReceipt) → Moves (keep_receipt o s r)
  unfolding keep_receipt
  Moves-keep_receipt r = search (moves, steps) depth 20 fits 3000

  Moves-after_message : (r : Bool × Option MessageReceipt) → Moves (after_message o s r)
  unfolding after_message
  Moves-after_message (true, some r) = Moves-keep_receipt r
  Moves-after_message (true, none) = search moves
  Moves-after_message (false, r) = search moves

  Moves-fail : (op : OperationRow) (now : ℕ) → Moves (fail o s op now)
  unfolding fail
  Moves-fail op now = search steps

  Moves-conclude : (v : Verdict) (op : OperationRow) (now : ℕ) → Moves (conclude o s v op now)
  unfolding conclude
  Moves-conclude Verdict.completed op now = search (moves, steps) depth 20 fits 3000
  Moves-conclude Verdict.no_code op now = search (moves, steps) depth 20 fits 3000
  Moves-conclude Verdict.waiting op now = search moves
  Moves-conclude Verdict.failed op now =
      search (moves, Moves-fail, Moves-notify_operation) depth 20 fits 3000
  Moves-conclude Verdict.no_lots op now = search (moves, Moves-fail) depth 20 fits 3000

  Moves-claim : (now : ℕ) (op : OperationRow) → Moves (claim o s now op)
  unfolding claim
  Moves-claim now op = search (moves, steps) depth 20 fits 3000

  pub Moves-extend_rental : (i buyer n now : ℕ) → Moves (extend_rental o s i buyer n now)
  unfolding extend_rental
  Moves-extend_rental i buyer n now = search steps

  Moves-settle_receipt :
      (now : ℕ) (op : OperationRow) (r : MessageReceipt) → Moves (settle_receipt o s now op r)
  unfolding settle_receipt
  Moves-settle_receipt now op r = search (moves, steps, Moves-notify_operation) depth 20 fits 3000

  Moves-recover_receipt : (now : ℕ) (op : OperationRow) → Moves (recover_receipt o s now op)
  unfolding recover_receipt
  Moves-recover_receipt now op = search (moves, Moves-settle_receipt) depth 20 fits 3000

  pub Moves-recover_message_receipts : (now : ℕ) → Moves (recover_message_receipts o s now)
  unfolding recover_message_receipts
  Moves-recover_message_receipts now =
      search (moves, Moves-count, Moves-recover_receipt) depth 20 fits 3000

  module _ (l : Lawful o) where
    Moves-side_effect :
        {R : Type 0} (op : OperationRow) (now : ℕ) (action : Port E R)
        → Moves (normal_side_effect o s op now action)
    unfolding normal_side_effect
    Moves-side_effect op now action = search (Moves-guarded o l)

    Moves-deliver :
        (op : OperationRow) (r : RentalRow) (m : Message) (now : ℕ) → Moves (deliver o s op r m now)
    unfolding deliver
    Moves-deliver op r m now =
        search (moves, Moves-side_effect, Moves-after_message) depth 20 fits 3000

    Moves-send_current : (op : OperationRow) (now : ℕ) → Moves (send_current o s op now)
    unfolding send_current
    Moves-send_current op now = search (moves, Moves-deliver) depth 20 fits 3000

    Moves-send_credentials : (op : OperationRow) (now : ℕ) → Moves (send_credentials o s op now)
    unfolding send_credentials
    Moves-send_credentials op now = search (moves, Moves-send_current) depth 20 fits 3000

    Moves-send_new_otp : (op : OperationRow) (i now : ℕ) → Moves (send_new_otp o s op i now)
    unfolding send_new_otp
    Moves-send_new_otp op i now =
        search (moves, Moves-request_otp, Moves-deliver) depth 20 fits 3000

    Moves-send_otp : (op : OperationRow) (now : ℕ) → Moves (send_otp o s op now)
    unfolding send_otp
    Moves-send_otp op now = search (moves, Moves-send_new_otp) depth 20 fits 3000

    Moves-change_lots :
        (change : ℕ → List ℕ → Port E LotOperationResult) (op : OperationRow) (now : ℕ)
        → Moves (change_lots o s change op now)
    unfolding change_lots
    Moves-change_lots change op now = search (moves, Moves-side_effect) depth 20 fits 3000

    Moves-perform_lots :
        (change : ℕ → List ℕ → Port E LotOperationResult) (op : OperationRow) (now : ℕ)
        → Moves (perform_lots o s change op now)
    unfolding perform_lots
    Moves-perform_lots change op now = search (moves, Moves-change_lots) depth 20 fits 3000

    Moves-perform_security :
        {work : Job → App E SecurityOperationOutcome}
        → ((j : Job) → Moves (work j))
        → (op : OperationRow) (now : ℕ) → Moves (perform_security o s work op now)
    unfolding perform_security
    Moves-perform_security h op now = search (moves, h) depth 20 fits 3000

    Moves-perform : (k : OperationKind) (op : OperationRow) (now : ℕ) → Moves (perform o s k op now)
    unfolding perform
    Moves-perform OperationKind.disable_lots op now = search Moves-perform_lots
    Moves-perform OperationKind.send_credentials op now =
        search (moves, Moves-send_credentials) depth 20 fits 3000
    Moves-perform OperationKind.revoke_sessions op now =
        Moves-perform_security (λ j. Moves-revoke o s l j) op now
    Moves-perform OperationKind.rotate_password op now =
        Moves-perform_security (λ j. Moves-rotate o s l j) op now
    Moves-perform OperationKind.enable_lots op now = search Moves-perform_lots
    Moves-perform OperationKind.send_otp op now = search (moves, Moves-send_otp) depth 20 fits 3000

    Moves-run_prepared : (now : ℕ) (op : OperationRow) → Moves (run_prepared o s now op)
    unfolding run_prepared
    Moves-run_prepared now op = search (moves, Moves-perform, Moves-conclude) depth 20 fits 3000

    Moves-run_claimed : (now : ℕ) (op : OperationRow) → Moves (run_claimed o s now op)
    unfolding run_claimed
    Moves-run_claimed now op =
        search (moves, steps, Moves-run_prepared, Moves-fail) depth 20 fits 3000

    Moves-run_ready : (now : ℕ) (op : OperationRow) → Moves (run_ready o s now op)
    unfolding run_ready
    Moves-run_ready now op = search (moves, Moves-claim, Moves-run_claimed) depth 20 fits 3000

    Moves-run_one : (now : ℕ) (op : OperationRow) → Moves (run_one o s now op)
    unfolding run_one
    Moves-run_one now op = search (moves, Moves-run_ready, Moves-notify_health) depth 20 fits 3000

    pub Moves-run_operations : (now : ℕ) → Moves (run_operations o s now)
    unfolding run_operations
    Moves-run_operations now = search (moves, Moves-each, Moves-run_one) depth 20 fits 3000

    Moves-reserve : (order : OrderInput) (now : ℕ) → Moves (reserve o s order now)
    unfolding reserve
    Moves-reserve order now =
        Moves-retried o l _
          (λ e db b. reserve_order-Run order now ((o.attempts e).0) (l.attempts e) db b)

    pub Moves-accept_order : (order : OrderInput) (now : ℕ) → Moves (accept_order o s order now)
    unfolding accept_order
    Moves-accept_order order now = search (moves, Moves-reserve) depth 20 fits 3000
