-- ===== src/Persistence/Emails/Inbox.antt =====
-- What enters the inbox: `store_event`, and the rotation that an email may belong to.
use war_thunder_rent_bot.Prelude.{
  ℕ, ◌+◌, Bool, true, false, ◌&&◌, Option, none, some, List, [], ◌∷◌, ◌++◌, leb, ◌==◌, nat_eq,
  is_none, if◌then◌else◌,
}
use war_thunder_rent_bot.Domain.States.{
  OperationKind, EmailMessageType, EmailPayloadState, rental_eq, kind_eq, status_eq, message_eq,
  payload_eq,
}
use war_thunder_rent_bot.Table.{select, first}
use war_thunder_rent_bot.Persistence.Rows.{
  OperationRow, ClassifiedEmailEventRow, SecurityProcessing, MessageSource, ProcessedMessageRow,
  seconds,
}
use war_thunder_rent_bot.Persistence.Session.{
  Db, Tx, ok, err, integrity, ◌>>◌, pure, account_of, operation_of, email_of, references,
}
use war_thunder_rent_bot.Persistence.Repository.Claims.{is_running}

-- app/domain/models.py
pub record ClassifiedEmailEvent : Type 0 where
  pub id : ℕ
  pub gmail_message_id : ℕ
  pub message_type : EmailMessageType
  pub received_at : ℕ
  pub routing_account_id : Option ℕ
  pub correlation_operation_id : Option ℕ
  pub payload_state : EmailPayloadState

unfoldable pub insert_processed : ProcessedMessageRow → Tx (Unit {0})
insert_processed r db =
    if is_none (first (λ s. s.external_message_id == r.external_message_id) db.processed_messages)
    then ok (tt, record db { processed_messages = db.processed_messages ++ r ∷ [] })
    else err integrity

unfoldable pub insert_email : ClassifiedEmailEventRow → Tx (Unit {0})
insert_email r db =
    if is_none (email_of db r.id)
      && is_none (first (λ s. s.gmail_message_id == r.gmail_message_id) db.emails)
      && references (account_of db) r.routing_account_id
      && references (operation_of db) r.correlation_operation_id
    then ok (tt, record db { emails = db.emails ++ r ∷ [] })
    else err integrity

unfoldable pub store_once : ClassifiedEmailEvent → ℕ → Tx Bool
unfolding insert_processed insert_email
store_once event now = do
  insert_processed (record {
    source = MessageSource.gmail;
    external_message_id = event.gmail_message_id;
    processed_at = now;
  })
  insert_email (record {
    id = event.id;
    gmail_message_id = event.gmail_message_id;
    message_type = event.message_type;
    received_at = event.received_at;
    routing_account_id = event.routing_account_id;
    correlation_operation_id = event.correlation_operation_id;
    claim_token = none;
    claimed_by = none;
    claimed_at = none;
    payload_state = event.payload_state;
    security_processing_state =
        if event.message_type == EmailMessageType.login_otp
        then SecurityProcessing.not_required
        else SecurityProcessing.unprocessed;
    security_claim_token = none;
    security_claimed_at = none;
  })
  pure true

-- `except IntegrityError: return False`
unfoldable pub store_event : ClassifiedEmailEvent → ℕ → Tx Bool
unfolding store_once
store_event event now db = elim (store_once event now db) [
  | ok r ↦ ok r
  | err e ↦ elim e [ integrity ↦ ok (false, db) | other ↦ err other ]
]

-- `password_change_requested_at` is there, not after the email, and not too long before it
abbrev in_window : Option ℕ → ℕ → ℕ → Bool
in_window none window received_at = false
in_window (some t) window received_at = leb t received_at && leb received_at (t + seconds window)

abbrev the_only : List OperationRow → Option ℕ
the_only (op ∷ []) = some op.id
the_only _ = none

unfoldable pub expected_rotation_operation : ℕ → Option ℕ → ℕ → Db → Option ℕ
unfolding select
expected_rotation_operation window none received_at db = none
expected_rotation_operation window (some account_id) received_at db = the_only (
    select
      (λ r.
        r.account_id == account_id
        && r.kind == OperationKind.rotate_password
        && is_running r
        && in_window r.password_change_requested_at window received_at)
      db.operations)
