-- ===== src/Application/Rentals.antt =====
-- app/application/rental_manager.py: `RentalManager`. Here its side effects on FunPay; Orders and
-- Operations hold its public methods.
pub mod Operations
pub mod Receipts
use war_thunder_rent_bot.Prelude.{ℕ, Bool, true, false, ◌&&◌, Option, none, some, List, [], ◌∷◌}
use war_thunder_rent_bot.Domain.States.{OperationKind}
use war_thunder_rent_bot.Domain.Models.{OrderInput, StartResult}
use war_thunder_rent_bot.Domain.FunPay.{
  FunPayHealth, MessageReceipt, LotOperationResult, is_ready, is_confirmed,
}
use war_thunder_rent_bot.Domain.PixelStorm.{
  Category, NotificationKey, OwnerNotification, Credentials,
}
use war_thunder_rent_bot.Persistence.Rows.{OperationRow, RentalRow, MessageReceiptRow}
use war_thunder_rent_bot.Persistence.Session.{Db, Result, rental_of, optional}
use war_thunder_rent_bot.Persistence.Repository.Queries.{account_lot_ids}
use war_thunder_rent_bot.Persistence.Repository.Reservation.{reserve_order}
use war_thunder_rent_bot.Persistence.Repository.Expiry.{extend_active_rental}
use war_thunder_rent_bot.Persistence.FunPayEvents.{record_receipt}
use war_thunder_rent_bot.Application.World.{
  App, Port, ◌>>=◌, ◌>>◌, pure, transact, retried, reads, fetch, port, draw, tell, choose, only_if,
  if_some,
}
use war_thunder_rent_bot.Application.Ports.{Outside, Settings, Message}
use war_thunder_rent_bot.Application.Lease.{guarded}
use war_thunder_rent_bot.Application.Codes.{request_otp}

-- `MessageReceiptRow(...)` of `record_receipt`, without an event
abbrev receipt_row : ℕ → MessageReceipt → MessageReceiptRow
receipt_row new_id r = record {
  id = new_id;
  idempotency_key = r.idempotency_key;
  funpay_event_id = none;
  conversation_id = r.conversation_id;
  external_message_id = r.external_message_id;
  is_delivered = r.delivered;
  verified = r.verified;
  ambiguous = r.ambiguous;
  occurred_at = r.occurred_at;
}

-- The answer of a side effect on FunPay: `None` of `_send_otp` is `no_code`.
pub data Sent : Type 0 where
  confirmed refused no_code : Sent

abbrev pub sent_if : Bool → Sent
sent_if true = Sent.confirmed
sent_if false = Sent.refused

-- `not xs`
abbrev pub is_empty : {A : Type 0} → List A → Bool
is_empty [] = true
is_empty (x ∷ xs) = false

-- `bool(owned and result is not None and result.verified)`
abbrev is_verified_change : Bool × Option LotOperationResult → Bool
is_verified_change (true, some result) = result.verified
is_verified_change _ = false

module _ {E : Type 0} (o : Outside E) (s : Settings) where
  -- `_notify` about an operation
  unfoldable pub notify_operation : Category → OperationRow → ℕ → App E (Unit {0})
  notify_operation category op now = only_if s.has_owner_notifier (
      tell (record {
        category = category;
        correlation_id = NotificationKey.of_key op.idempotency_key;
        occurred_at = now;
        account_id = some op.account_id;
        rental_id = op.rental_id;
        order_id = none;
        event_id = none;
      }))

  -- `_notify_health`
  unfoldable pub notify_health : FunPayHealth → ℕ → ℕ → App E (Unit {0})
  notify_health health account_id now = choose (is_ready health) (pure tt) (
      only_if s.has_owner_notifier (
        tell (record {
          category = Category.funpay_not_ready health;
          correlation_id = NotificationKey.of_health health account_id;
          occurred_at = now;
          account_id = some account_id;
          rental_id = none;
          order_id = none;
          event_id = none;
        })))

  -- `repository.reserve_order`
  unfoldable pub reserve : OrderInput → ℕ → App E StartResult
  reserve order now =
      retried (λ e. let a = o.attempts e in (λ db. reserve_order (a.0) order now db, a.1))

  -- `accept_order`
  unfoldable pub accept_order : OrderInput → ℕ → App E StartResult
  accept_order order now = do
    result ← reserve order now
    choose result.accepted (pure tt) (
        only_if s.has_owner_notifier (
          tell (record {
            category = Category.paid_order_blocked;
            correlation_id = NotificationKey.of_id order.funpay_order_id;
            occurred_at = now;
            account_id = none;
            rental_id = none;
            order_id = some order.funpay_order_id;
            event_id = none;
          })))
    pure result

  -- `extend_rental`
  unfoldable pub extend_rental : ℕ → ℕ → ℕ → ℕ → App E Bool
  extend_rental rental_id buyer_id extension_seconds now =
      transact (extend_active_rental rental_id buyer_id extension_seconds now)

  -- `_normal_side_effect`
  unfoldable pub normal_side_effect :
      {R : Type 0} → OperationRow → ℕ → Port E R → App E (Bool × Option R)
  normal_side_effect op now action =
      guarded o
        (record {
          operation_id = op.id;
          normal_claim_token = op.normal_claim_token;
          recovery_claim_token = none;
          fallback_now = now;
        })
        action

  -- the receipt's record, and whether it confirms the message
  unfoldable pub keep_receipt : MessageReceipt → App E Sent
  keep_receipt receipt = do
    only_if s.has_message_receipts (do
      new_id ← draw o.uuid
      kept ← transact (record_receipt (receipt_row new_id receipt))
      pure tt)
    pure (sent_if (is_confirmed receipt))

  -- the end of `_send_credentials` and `_send_otp`
  unfoldable pub after_message : Bool × Option MessageReceipt → App E Sent
  after_message (true, some receipt) = keep_receipt receipt
  after_message _ = pure Sent.refused

  unfoldable pub deliver : OperationRow → RentalRow → Message → ℕ → App E Sent
  deliver op rental message now = do
    answer ←
        normal_side_effect op now
          (o.funpay.send_message rental.buyer_id message op.idempotency_key now)
    after_message answer

  unfoldable pub send_current : OperationRow → ℕ → App E Sent
  send_current op now = do
    credentials ← port (o.secrets.get_current_credentials op.account_id)
    if_some credentials
        (λ c. do
          rental ← fetch (λ db. optional (rental_of db) op.rental_id)
          deliver op rental (Message.credential_message c rental.expires_at) now)
        (pure Sent.refused)

  -- `_send_credentials`
  unfoldable pub send_credentials : OperationRow → ℕ → App E Sent
  send_credentials op now = do
    receipt ← port (o.funpay.get_message_receipt op.idempotency_key)
    if_some receipt
        (λ r.
          choose r.ambiguous (pure Sent.refused)
            (choose (r.delivered && r.verified) (pure Sent.confirmed) (send_current op now)))
        (send_current op now)

  unfoldable pub send_new_otp : OperationRow → ℕ → ℕ → App E Sent
  send_new_otp op rental_id now = do
    rental ← fetch (λ db. rental_of db rental_id)
    code ← request_otp o s rental.id rental.buyer_id op.created_at now
    if_some code (λ c. deliver op rental (Message.otp c) now) (pure Sent.no_code)

  -- `_send_otp`
  unfoldable pub send_otp : OperationRow → ℕ → App E Sent
  send_otp op now = do
    receipt ← port (o.funpay.get_message_receipt op.idempotency_key)
    if_some receipt (λ r. pure (sent_if (is_confirmed r)))
        (choose s.has_otp_service
          (if_some op.rental_id (λ i. send_new_otp op i now) (pure Sent.refused))
          (pure Sent.refused))

  -- `_disable_lots` and `_enable_lots`
  unfoldable pub change_lots :
      (ℕ → List ℕ → Port E LotOperationResult) → OperationRow → ℕ → App E Sent
  change_lots change op now = do
    lot_ids ← reads (account_lot_ids op.account_id)
    choose (is_empty lot_ids) (pure Sent.refused) (do
      answer ← normal_side_effect op now (change op.account_id lot_ids)
      pure (sent_if (is_verified_change answer)))
