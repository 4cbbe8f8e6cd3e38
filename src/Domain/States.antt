-- ===== src/Domain/States.antt =====
-- app/domain/states.py: the status enumerations. `rank` numbers the members in the source's order,
-- and two members are equal when their ranks are.
use war_thunder_rent_bot.Prelude.{ℕ, ◌≡◌, ◌↔◌, Bool, true, arith, nat_beq, Comparable}

pub data AccountStatus : Type 0 where
  available reserved active expiring revoking rotating_password : AccountStatus
  available_offline manual_review security_alert disabled : AccountStatus

pub data RentalStatus : Type 0 where
  reserved active expiring revoking password_rotation finished : RentalStatus
  cancelled security_terminated manual_review : RentalStatus

pub data FulfillmentStatus : Type 0 where
  pending activated fulfillment_blocked : FulfillmentStatus

pub data OperationKind : Type 0 where
  disable_lots send_credentials revoke_sessions rotate_password enable_lots send_otp : OperationKind

pub data OperationStatus : Type 0 where
  pending running completed failed : OperationStatus

pub data EmailMessageType : Type 0 where
  login_otp password_change email_change two_factor_change security_change unknown :
      EmailMessageType

pub data EmailPayloadState : Type 0 where
  available consumed unusable_expired : EmailPayloadState

-- The values of `OperationRow.security_state` that the code writes.
pub data SecurityState : Type 0 where
  init waiting_login_otp waiting_password_change_email waiting_buyer_otp : SecurityState
  pending_ready remote_verified secret_promoted : SecurityState

abbrev rank_account : AccountStatus → ℕ
rank_account AccountStatus.available = 0
rank_account AccountStatus.reserved = 1
rank_account AccountStatus.active = 2
rank_account AccountStatus.expiring = 3
rank_account AccountStatus.revoking = 4
rank_account AccountStatus.rotating_password = 5
rank_account AccountStatus.available_offline = 6
rank_account AccountStatus.manual_review = 7
rank_account AccountStatus.security_alert = 8
rank_account AccountStatus.disabled = 9

abbrev account_beq : AccountStatus → AccountStatus → Bool
account_beq a b = nat_beq (rank_account a) (rank_account b)

pub account_beq_iff : (a b : AccountStatus) → (account_beq a b ≡ true) ↔ (a ≡ b)
account_beq_iff a b = ground arith

instance abbrev pub account_eq : Comparable AccountStatus
account_eq = record { same = account_beq; same_iff = account_beq_iff }

abbrev rank_rental : RentalStatus → ℕ
rank_rental RentalStatus.reserved = 0
rank_rental RentalStatus.active = 1
rank_rental RentalStatus.expiring = 2
rank_rental RentalStatus.revoking = 3
rank_rental RentalStatus.password_rotation = 4
rank_rental RentalStatus.finished = 5
rank_rental RentalStatus.cancelled = 6
rank_rental RentalStatus.security_terminated = 7
rank_rental RentalStatus.manual_review = 8

abbrev rental_beq : RentalStatus → RentalStatus → Bool
rental_beq a b = nat_beq (rank_rental a) (rank_rental b)

pub rental_beq_iff : (a b : RentalStatus) → (rental_beq a b ≡ true) ↔ (a ≡ b)
rental_beq_iff a b = ground arith

instance abbrev pub rental_eq : Comparable RentalStatus
rental_eq = record { same = rental_beq; same_iff = rental_beq_iff }

abbrev rank_fulfillment : FulfillmentStatus → ℕ
rank_fulfillment FulfillmentStatus.pending = 0
rank_fulfillment FulfillmentStatus.activated = 1
rank_fulfillment FulfillmentStatus.fulfillment_blocked = 2

abbrev fulfillment_beq : FulfillmentStatus → FulfillmentStatus → Bool
fulfillment_beq a b = nat_beq (rank_fulfillment a) (rank_fulfillment b)

pub fulfillment_beq_iff : (a b : FulfillmentStatus) → (fulfillment_beq a b ≡ true) ↔ (a ≡ b)
fulfillment_beq_iff a b = ground arith

instance abbrev pub fulfillment_eq : Comparable FulfillmentStatus
fulfillment_eq = record { same = fulfillment_beq; same_iff = fulfillment_beq_iff }

abbrev rank_kind : OperationKind → ℕ
rank_kind OperationKind.disable_lots = 0
rank_kind OperationKind.send_credentials = 1
rank_kind OperationKind.revoke_sessions = 2
rank_kind OperationKind.rotate_password = 3
rank_kind OperationKind.enable_lots = 4
rank_kind OperationKind.send_otp = 5

abbrev kind_beq : OperationKind → OperationKind → Bool
kind_beq a b = nat_beq (rank_kind a) (rank_kind b)

pub kind_beq_iff : (a b : OperationKind) → (kind_beq a b ≡ true) ↔ (a ≡ b)
kind_beq_iff a b = ground arith

instance abbrev pub kind_eq : Comparable OperationKind
kind_eq = record { same = kind_beq; same_iff = kind_beq_iff }

abbrev rank_status : OperationStatus → ℕ
rank_status OperationStatus.pending = 0
rank_status OperationStatus.running = 1
rank_status OperationStatus.completed = 2
rank_status OperationStatus.failed = 3

abbrev status_beq : OperationStatus → OperationStatus → Bool
status_beq a b = nat_beq (rank_status a) (rank_status b)

pub status_beq_iff : (a b : OperationStatus) → (status_beq a b ≡ true) ↔ (a ≡ b)
status_beq_iff a b = ground arith

instance abbrev pub status_eq : Comparable OperationStatus
status_eq = record { same = status_beq; same_iff = status_beq_iff }

abbrev rank_message : EmailMessageType → ℕ
rank_message EmailMessageType.login_otp = 0
rank_message EmailMessageType.password_change = 1
rank_message EmailMessageType.email_change = 2
rank_message EmailMessageType.two_factor_change = 3
rank_message EmailMessageType.security_change = 4
rank_message EmailMessageType.unknown = 5

abbrev message_beq : EmailMessageType → EmailMessageType → Bool
message_beq a b = nat_beq (rank_message a) (rank_message b)

pub message_beq_iff : (a b : EmailMessageType) → (message_beq a b ≡ true) ↔ (a ≡ b)
message_beq_iff a b = ground arith

instance abbrev pub message_eq : Comparable EmailMessageType
message_eq = record { same = message_beq; same_iff = message_beq_iff }

abbrev rank_payload : EmailPayloadState → ℕ
rank_payload EmailPayloadState.available = 0
rank_payload EmailPayloadState.consumed = 1
rank_payload EmailPayloadState.unusable_expired = 2

abbrev payload_beq : EmailPayloadState → EmailPayloadState → Bool
payload_beq a b = nat_beq (rank_payload a) (rank_payload b)

pub payload_beq_iff : (a b : EmailPayloadState) → (payload_beq a b ≡ true) ↔ (a ≡ b)
payload_beq_iff a b = ground arith

instance abbrev pub payload_eq : Comparable EmailPayloadState
payload_eq = record { same = payload_beq; same_iff = payload_beq_iff }

abbrev rank_security : SecurityState → ℕ
rank_security SecurityState.init = 0
rank_security SecurityState.waiting_login_otp = 1
rank_security SecurityState.waiting_password_change_email = 2
rank_security SecurityState.waiting_buyer_otp = 3
rank_security SecurityState.pending_ready = 4
rank_security SecurityState.remote_verified = 5
rank_security SecurityState.secret_promoted = 6

abbrev security_beq : SecurityState → SecurityState → Bool
security_beq a b = nat_beq (rank_security a) (rank_security b)

pub security_beq_iff : (a b : SecurityState) → (security_beq a b ≡ true) ↔ (a ≡ b)
security_beq_iff a b = ground arith

instance abbrev pub security_eq : Comparable SecurityState
security_eq = record { same = security_beq; same_iff = security_beq_iff }
