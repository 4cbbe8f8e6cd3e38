-- ===== src/Domain/PixelStorm.antt =====
-- app/domain/pixelstorm.py and app/domain/notifications.py: the answers of Pixel Storm, and the
-- signals to the owner with their categories.
use war_thunder_rent_bot.Prelude.{ℕ, Bool, true, false, Option}
use war_thunder_rent_bot.Domain.States.{OperationKind}
use war_thunder_rent_bot.Domain.FunPay.{FunPayHealth}
use war_thunder_rent_bot.Persistence.Rows.{IdempotencyKey}

pub data PixelStormHealth : Type 0 where
  ready auth_required pixel_pass_required challenge : PixelStormHealth
  wrong_region degraded unavailable unknown_ui : PixelStormHealth

pub data PixelStormAuthResult : Type 0 where
  success bad_credentials email_otp_required pixel_pass_required : PixelStormAuthResult
  challenge wrong_region unknown_ui unavailable : PixelStormAuthResult

pub data PixelStormRevocationResult : Type 0 where
  supported_verified unsupported partial ambiguous challenge unknown_ui : PixelStormRevocationResult

pub data PixelStormCredentialResult : Type 0 where
  valid invalid pixel_pass_required challenge : PixelStormCredentialResult
  wrong_region unknown_ui ambiguous unavailable : PixelStormCredentialResult

pub data PixelStormPasswordChangeResult : Type 0 where
  verified confirmation_required invalid pixel_pass_required : PixelStormPasswordChangeResult
  challenge wrong_region unknown_ui ambiguous unavailable : PixelStormPasswordChangeResult

pub data SecurityOperationOutcome : Type 0 where
  completed waiting_external failed_closed : SecurityOperationOutcome

pub record PixelStormSecurityCapabilities : Type 0 where
  pub session_history_available : Bool
  pub session_revocation_available : Bool
  pub revoke_all_available : Bool
  pub password_change_available : Bool
  pub pixel_pass_detected : Bool
  pub unknown : Bool

-- `tuple[str, str]`
pub record Credentials : Type 0 where
  pub login : ℕ
  pub password : ℕ

abbrev pub is_valid : PixelStormCredentialResult → Bool
is_valid PixelStormCredentialResult.valid = true
is_valid _ = false

abbrev pub is_supported_verified : PixelStormRevocationResult → Bool
is_supported_verified PixelStormRevocationResult.supported_verified = true
is_supported_verified _ = false

abbrev pub is_verified : PixelStormPasswordChangeResult → Bool
is_verified PixelStormPasswordChangeResult.verified = true
is_verified _ = false

abbrev pub is_success : PixelStormAuthResult → Bool
is_success PixelStormAuthResult.success = true
is_success _ = false

abbrev pub needs_otp : PixelStormAuthResult → Bool
needs_otp PixelStormAuthResult.email_otp_required = true
needs_otp _ = false

abbrev pub is_ready : PixelStormHealth → Bool
is_ready PixelStormHealth.ready = true
is_ready _ = false

abbrev pub needs_auth : PixelStormHealth → Bool
needs_auth PixelStormHealth.auth_required = true
needs_auth _ = false

-- The categories of an owner's notification; those that name an operation's kind or FunPay's health
-- carry it.
pub data Category : Type 0 where
  session_revocation_unsupported session_revocation_ambiguous : Category
  password_rotation_ambiguous password_verification_failed : Category
  pixel_storm_auth_required pixel_pass_required pixel_storm_wrong_region : Category
  pixel_storm_challenge pixel_storm_unknown_ui : Category
  paid_order_blocked unknown_funpay_event : Category
  verification_failed fail_closed delivery_ambiguous : OperationKind → Category
  funpay_not_ready : FunPayHealth → Category

-- The correlation of a notification: the id of an order, an operation or an event, an operation's
-- key, `FUNPAY:{health}:{id}` and `POLL:{health}`.
pub data NotificationKey : Type 0 where
  of_id : ℕ → NotificationKey
  of_key : IdempotencyKey → NotificationKey
  of_health : FunPayHealth → ℕ → NotificationKey
  of_poll : FunPayHealth → NotificationKey

pub record OwnerNotification : Type 0 where
  pub category : Category
  pub correlation_id : NotificationKey
  pub occurred_at : ℕ
  pub account_id : Option ℕ
  pub rental_id : Option ℕ
  pub order_id : Option ℕ
  pub event_id : Option ℕ

-- `_health_category`
unfoldable pub health_category : PixelStormHealth → Category
health_category PixelStormHealth.auth_required = Category.pixel_storm_auth_required
health_category PixelStormHealth.pixel_pass_required = Category.pixel_pass_required
health_category PixelStormHealth.wrong_region = Category.pixel_storm_wrong_region
health_category PixelStormHealth.challenge = Category.pixel_storm_challenge
health_category _ = Category.pixel_storm_unknown_ui

-- `PixelStormHealth(result)` if the value is one of PixelStormHealth's, else UNKNOWN_UI
abbrev health_of_auth : PixelStormAuthResult → PixelStormHealth
health_of_auth PixelStormAuthResult.pixel_pass_required = PixelStormHealth.pixel_pass_required
health_of_auth PixelStormAuthResult.challenge = PixelStormHealth.challenge
health_of_auth PixelStormAuthResult.wrong_region = PixelStormHealth.wrong_region
health_of_auth PixelStormAuthResult.unavailable = PixelStormHealth.unavailable
health_of_auth _ = PixelStormHealth.unknown_ui

-- `_auth_category`
unfoldable pub auth_category : PixelStormAuthResult → Category
unfolding health_category
auth_category PixelStormAuthResult.bad_credentials = Category.pixel_storm_auth_required
auth_category result = health_category (health_of_auth result)

abbrev health_of_change : PixelStormPasswordChangeResult → PixelStormHealth
health_of_change PixelStormPasswordChangeResult.pixel_pass_required =
    PixelStormHealth.pixel_pass_required
health_of_change PixelStormPasswordChangeResult.challenge = PixelStormHealth.challenge
health_of_change PixelStormPasswordChangeResult.wrong_region = PixelStormHealth.wrong_region
health_of_change PixelStormPasswordChangeResult.unavailable = PixelStormHealth.unavailable
health_of_change _ = PixelStormHealth.unknown_ui

-- `_password_category`
unfoldable pub password_category : PixelStormPasswordChangeResult → Category
unfolding health_category
password_category PixelStormPasswordChangeResult.invalid = Category.password_verification_failed
password_category result = health_category (health_of_change result)
