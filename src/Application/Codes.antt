-- ===== src/Application/Codes.antt =====
-- app/application: otp_service.py, password_rotator.py and pixelstorm_otp.py. An event of the inbox
-- is claimed in one transaction, its secret taken from the store, and the claim then ended.
use war_thunder_rent_bot.Prelude.{ℕ, Option, none, some}
use war_thunder_rent_bot.Persistence.Emails.Codes.{
  EmailClaim, claim_login_otp, claim_maintenance_login_otp, claim_expected_password_change,
  mark_claim_consumed, mark_claim_unusable,
}
use war_thunder_rent_bot.Application.World.{App, ◌>>=◌, ◌>>◌, pure, transact, draw, port, if_some}
use war_thunder_rent_bot.Application.Ports.{Outside, Settings}

module _ {E : Type 0} (o : Outside E) (s : Settings) where
  -- The end of the three services, once the claim is made or refused.
  unfoldable pub consume : ℕ → Option EmailClaim → App E (Option ℕ)
  consume now found =
      if_some found
        (λ claim. do
          value ← port (o.email_secrets.consume_once claim.event_id claim.claim_token now)
          if_some value (λ v. do transact (mark_claim_consumed claim); pure (some v))
              (do transact (mark_claim_unusable claim); pure none))
        (pure none)

  -- `OTPService.request_otp`
  unfoldable pub request_otp : ℕ → ℕ → ℕ → ℕ → App E (Option ℕ)
  request_otp rental_id buyer_id request_started_at now = do
    token ← draw o.uuid
    request_id ← draw o.uuid
    claim ← transact (
        claim_login_otp token request_id rental_id buyer_id request_started_at now
          s.lookback_seconds s.min_request_interval_seconds)
    consume now claim

  -- `PasswordRotator.consume_expected_reset_url`
  unfoldable pub consume_expected_reset_url : ℕ → ℕ → App E (Option ℕ)
  consume_expected_reset_url rotation_operation_id now = do
    token ← draw o.uuid
    claim ← transact (claim_expected_password_change token rotation_operation_id now)
    consume now claim

  -- `PixelStormMaintenanceOtpService.consume`
  unfoldable pub consume_maintenance_otp : ℕ → ℕ → ℕ → ℕ → App E (Option ℕ)
  consume_maintenance_otp account_id operation_id login_requested_at now = do
    token ← draw o.uuid
    claim ← transact (
        claim_maintenance_login_otp s.windows.maintenance_otp_correlation_seconds token account_id
          operation_id login_requested_at now)
    consume now claim
