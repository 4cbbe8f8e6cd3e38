-- ===== src/Application/Ports.antt =====
-- app/domain/ports.py: the ports as an interface over a state that only the outside sees, what
-- other processes commit meanwhile, and the settings of the services.
use war_thunder_rent_bot.Prelude.{ℕ, Bool, Option, List}
use war_thunder_rent_bot.Domain.States.{EmailMessageType}
use war_thunder_rent_bot.Domain.FunPay.{FunPayHealth, MessageReceipt, LotOperationResult}
use war_thunder_rent_bot.Domain.PixelStorm.{
  PixelStormHealth, PixelStormAuthResult, PixelStormRevocationResult, PixelStormCredentialResult,
  PixelStormPasswordChangeResult, PixelStormSecurityCapabilities, Credentials,
}
use war_thunder_rent_bot.Persistence.Rows.{FunPayEventRow, IdempotencyKey}
use war_thunder_rent_bot.Persistence.Session.{Db}
use war_thunder_rent_bot.Persistence.Repository.Reservation.{Attempt}
use war_thunder_rent_bot.Persistence.Repository.Recovery.{Busy}
use war_thunder_rent_bot.Persistence.Repository.Security.{Windows}
use war_thunder_rent_bot.Application.World.{Port}

-- A chat message: the credentials until the end of the rental, or a login code.
pub data Message : Type 0 where
  credential_message : Credentials → ℕ → Message
  otp : ℕ → Message

-- app/domain/models.py
pub record RawEmail : Type 0 where
  pub gmail_message_id : ℕ
  pub sender : ℕ
  pub subject : ℕ
  pub received_at : ℕ
  pub text_body : ℕ
  pub routing_account_id : Option ℕ
  pub html_body : Option ℕ

pub record EmailClassification : Type 0 where
  pub message_type : EmailMessageType
  pub sensitive_payload : Option ℕ

pub record FunPayPort (E : Type 0) : Type 0 where
  pub health : Port E FunPayHealth
  pub poll_events : ℕ → Port E (List FunPayEventRow)
  pub get_order : ℕ → Port E (Option FunPayEventRow)
  pub send_message : ℕ → Message → IdempotencyKey → ℕ → Port E MessageReceipt
  pub get_message_receipt : IdempotencyKey → Port E (Option MessageReceipt)
  pub get_lot_state : ℕ → Port E (Option Bool)
  pub verify_lots_disabled : List ℕ → Port E LotOperationResult
  pub verify_lots_enabled : List ℕ → Port E LotOperationResult
  pub disable_lots : ℕ → List ℕ → Port E LotOperationResult
  pub enable_lots : ℕ → List ℕ → Port E LotOperationResult

pub record PixelStormPort (E : Type 0) : Type 0 where
  pub health : ℕ → Port E PixelStormHealth
  pub inspect_security_capabilities : ℕ → Port E PixelStormSecurityCapabilities
  pub authenticate : ℕ → Credentials → Option ℕ → Port E PixelStormAuthResult
  pub verify_credentials : ℕ → Credentials → Port E PixelStormCredentialResult
  pub revoke_sessions : ℕ → Port E PixelStormRevocationResult
  pub verify_revocation : ℕ → Port E PixelStormRevocationResult
  pub change_password : ℕ → Credentials → ℕ → Port E PixelStormPasswordChangeResult
  pub request_password_change : ℕ → Credentials → Port E PixelStormPasswordChangeResult
  pub complete_password_change : ℕ → ℕ → ℕ → Port E PixelStormPasswordChangeResult

pub record SecureStorePort (E : Type 0) : Type 0 where
  pub get_current_credentials : ℕ → Port E (Option Credentials)
  pub get_pending_credentials : ℕ → Port E (Option Credentials)
  pub set_pending_credentials : ℕ → Credentials → Port E (Unit {0})
  pub promote_pending_credentials : ℕ → Port E (Unit {0})

pub record EmailSecretPort (E : Type 0) : Type 0 where
  pub put : ℕ → ℕ → ℕ → Port E Bool
  pub consume_once : ℕ → ℕ → ℕ → Port E (Option ℕ)
  pub discard : ℕ → Port E (Unit {0})

-- The outside: its ports, fresh ids, the clock of the lease guard if there is one, what other
-- processes commit before each heartbeat of an external call, and the retries of a busy database.
pub record Outside (E : Type 0) : Type 0 where
  pub funpay : FunPayPort E
  pub pixelstorm : PixelStormPort E
  pub secrets : SecureStorePort E
  pub email_secrets : EmailSecretPort E
  pub get_new_messages : ℕ → Port E (List RawEmail)
  pub generate : E → ℕ × E
  pub uuid : E → ℕ × E
  pub uuids : E → (ℕ → ℕ) × E
  pub clock : Option (E → ℕ × E)
  pub elapsed : E → List (Db → Db) × E
  pub is_locked : E → Bool × E
  pub attempts : E → (ℕ → Attempt) × E
  pub busy : E → (ℕ → Busy) × E

-- What the constructors of the services are given. `classify` is `EmailClassifier.classify`, and
-- `asks_code` is `text.strip().casefold() == "код"`.
pub record Settings : Type 0 where
  pub has_owner_notifier : Bool
  pub has_maintenance_otp : Bool
  pub has_password_rotator : Bool
  pub has_otp_service : Bool
  pub has_message_receipts : Bool
  pub has_pixelstorm_security : Bool
  pub lookback_seconds : ℕ
  pub min_request_interval_seconds : ℕ
  pub secret_ttl_seconds : ℕ
  pub password_reset_ttl_seconds : ℕ
  pub windows : Windows
  pub classify : RawEmail → EmailClassification
  pub asks_code : ℕ → Bool
