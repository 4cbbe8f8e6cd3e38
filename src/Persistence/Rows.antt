-- ===== src/Persistence/Rows.antt =====
-- app/persistence/models.py: the rows of the tables. Ids, buyer and order codes and claim tokens
-- are opaque texts that the code only compares, so they are naturals; a `datetime` is a number of
-- microseconds. `safe_metadata` is never read and is left out, and so are the generated primary
-- keys of the tables that are never looked up by them.
use war_thunder_rent_bot.Prelude.{
  ℕ, ◌*◌, ◌≡◌, ◌↔◌, Bool, true, false, ◌&&◌, Option, arith, nat_beq, Comparable, ◌==◌, nat_eq,
}
use war_thunder_rent_bot.Domain.States.{
  AccountStatus, RentalStatus, FulfillmentStatus, OperationKind, OperationStatus, EmailMessageType,
  EmailPayloadState, SecurityState, kind_eq, kind_beq_iff,
}

-- timedelta(seconds=n)
abbrev pub seconds : ℕ → ℕ
seconds n = n * 1000000

-- timedelta(minutes=n)
abbrev pub minutes : ℕ → ℕ
minutes n = n * 60000000

pub record AccountRow : Type 0 where
  pub id : ℕ
  pub code : ℕ
  pub status : AccountStatus
  pub credential_version : ℕ
  pub state_version : ℕ
  pub created_at : ℕ
  pub updated_at : ℕ

pub record OrderRow : Type 0 where
  pub id : ℕ
  pub funpay_order_id : ℕ
  pub buyer_id : ℕ
  pub tariff_code : ℕ
  pub duration_seconds : ℕ
  pub account_id : Option ℕ
  pub fulfillment_status : FulfillmentStatus
  pub received_at : ℕ

pub record RentalRow : Type 0 where
  pub id : ℕ
  pub order_id : ℕ
  pub buyer_id : ℕ
  pub account_id : ℕ
  pub tariff_code : ℕ
  pub started_at : Option ℕ
  pub expires_at : ℕ
  pub status : RentalStatus
  pub credential_version : ℕ
  pub created_at : ℕ
  pub updated_at : ℕ

-- `f"{kind}:{rental_id}"` and `f"SEND_OTP:{external_event_id}"`
pub data IdempotencyKey : Type 0 where
  of_rental : OperationKind → ℕ → IdempotencyKey
  of_event : ℕ → IdempotencyKey

abbrev idempotency_beq : IdempotencyKey → IdempotencyKey → Bool
idempotency_beq (of_rental k r) (of_rental l s) = k == l && r == s
idempotency_beq (of_event e) (of_event f) = e == f
idempotency_beq _ _ = false

pub idempotency_beq_iff : (a b : IdempotencyKey) → (idempotency_beq a b ≡ true) ↔ (a ≡ b)
idempotency_beq_iff (of_rental k r) (of_rental l s) = ground (arith, kind_beq_iff k l)
idempotency_beq_iff a b = ground arith

instance abbrev pub idempotency_eq : Comparable IdempotencyKey
idempotency_eq = record { same = idempotency_beq; same_iff = idempotency_beq_iff }

pub record OperationRow : Type 0 where
  pub id : ℕ
  pub kind : OperationKind
  pub idempotency_key : IdempotencyKey
  pub status : OperationStatus
  pub account_id : ℕ
  pub rental_id : Option ℕ
  pub order_id : Option ℕ
  pub attempt_count : ℕ
  pub lease_until : Option ℕ
  pub started_at : Option ℕ
  pub maintenance_login_requested_at : Option ℕ
  pub password_change_requested_at : Option ℕ
  pub security_state : SecurityState
  pub normal_claim_token : Option ℕ
  pub recovery_claim_token : Option ℕ
  pub created_at : ℕ
  pub completed_at : Option ℕ

pub data AuditType : Type 0 where
  fulfillment_blocked rental_created startup_recovery_claimed lease_recovery_manual_review :
      AuditType
  rental_expired manual_review rental_extended email_security_alert : AuditType
  rental_started rental_finished operation_failed : AuditType

abbrev rank_audit : AuditType → ℕ
rank_audit AuditType.fulfillment_blocked = 0
rank_audit AuditType.rental_created = 1
rank_audit AuditType.startup_recovery_claimed = 2
rank_audit AuditType.lease_recovery_manual_review = 3
rank_audit AuditType.rental_expired = 4
rank_audit AuditType.manual_review = 5
rank_audit AuditType.rental_extended = 6
rank_audit AuditType.email_security_alert = 7
rank_audit AuditType.rental_started = 8
rank_audit AuditType.rental_finished = 9
rank_audit AuditType.operation_failed = 10

abbrev audit_beq : AuditType → AuditType → Bool
audit_beq a b = nat_beq (rank_audit a) (rank_audit b)

-- `AuditEventRow.correlation_id`: an id or an order code, an operation's key,
-- `f"{operation_id}:{token}"`, or `f"RENTAL_EXTENDED:{rental.id}:{new_expiry.isoformat()}"`.
pub data Correlation : Type 0 where
  of_id : ℕ → Correlation
  of_key : IdempotencyKey → Correlation
  of_claim : ℕ → ℕ → Correlation
  of_extension : ℕ → ℕ → Correlation

abbrev correlation_beq : Correlation → Correlation → Bool
correlation_beq (of_id a) (of_id b) = a == b
correlation_beq (of_key a) (of_key b) = a == b
correlation_beq (of_claim a s) (of_claim b t) = a == b && s == t
correlation_beq (of_extension a s) (of_extension b t) = a == b && s == t
correlation_beq _ _ = false

pub record AuditEventRow : Type 0 where
  pub occurred_at : ℕ
  pub event_type : AuditType
  pub account_id : Option ℕ
  pub rental_id : Option ℕ
  pub correlation_id : Correlation

-- UniqueConstraint("event_type", "correlation_id")
abbrev pub same_audit : AuditEventRow → AuditEventRow → Bool
same_audit a b =
    audit_beq a.event_type b.event_type && correlation_beq a.correlation_id b.correlation_id

pub data ClaimedBy : Type 0 where
  otp pixelstorm_maintenance password_rotator : ClaimedBy

-- `security_processing_state`
pub data SecurityProcessing : Type 0 where
  not_required unprocessed security_claimed processed : SecurityProcessing

pub record ClassifiedEmailEventRow : Type 0 where
  pub id : ℕ
  pub gmail_message_id : ℕ
  pub message_type : EmailMessageType
  pub received_at : ℕ
  pub routing_account_id : Option ℕ
  pub correlation_operation_id : Option ℕ
  pub claim_token : Option ℕ
  pub claimed_by : Option ClaimedBy
  pub claimed_at : Option ℕ
  pub payload_state : EmailPayloadState
  pub security_processing_state : SecurityProcessing
  pub security_claim_token : Option ℕ
  pub security_claimed_at : Option ℕ

-- the only source that the code writes
pub data MessageSource : Type 0 where
  gmail : MessageSource

-- UniqueConstraint("source", "external_message_id")
pub record ProcessedMessageRow : Type 0 where
  pub source : MessageSource
  pub external_message_id : ℕ
  pub processed_at : ℕ

pub data OtpOutcome : Type 0 where
  claimed delivered unusable_expired : OtpOutcome

pub record OtpRequestRow : Type 0 where
  pub id : ℕ
  pub rental_id : ℕ
  pub buyer_id : ℕ
  pub requested_at : ℕ
  pub outcome : OtpOutcome
  pub gmail_message_id : Option ℕ

-- app/domain/funpay.py
pub data FunPayEventType : Type 0 where
  paid_order buyer_message order_cancelled order_refunded system_message unknown : FunPayEventType

pub data FunPayProcessingStatus : Type 0 where
  pending claimed retry_pending processed failed_closed : FunPayProcessingStatus

pub record FunPayEventRow : Type 0 where
  pub id : ℕ
  pub external_event_id : ℕ
  pub event_type : FunPayEventType
  pub funpay_order_id : Option ℕ
  pub buyer_id : Option ℕ
  pub buyer_handle : Option ℕ
  pub lot_id : Option ℕ
  pub offer_id : Option ℕ
  pub tariff_code : Option ℕ
  pub duration_seconds : Option ℕ
  pub message_text : Option ℕ
  pub received_at : ℕ
  pub processing_status : FunPayProcessingStatus
  pub claim_token : Option ℕ
  pub claimed_at : Option ℕ
  pub attempt_count : ℕ
  pub correlation_id : ℕ
  pub created_at : ℕ
  pub updated_at : ℕ

pub record MessageReceiptRow : Type 0 where
  pub id : ℕ
  pub idempotency_key : IdempotencyKey
  pub funpay_event_id : Option ℕ
  pub conversation_id : ℕ
  pub external_message_id : Option ℕ
  pub is_delivered : Bool
  pub verified : Bool
  pub ambiguous : Bool
  pub occurred_at : ℕ

pub record SecurityEventRow : Type 0 where
  pub account_id : ℕ
  pub rental_id : Option ℕ
  pub event_type : EmailMessageType
  pub occurred_at : ℕ

pub record AccountLotRow : Type 0 where
  pub id : ℕ
  pub account_id : ℕ
  pub external_lot_id : ℕ
  pub enabled_expected : Bool
  pub created_at : ℕ
  pub updated_at : ℕ
