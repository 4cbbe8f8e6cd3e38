-- ===== src/Application/Security/Authenticate.antt =====
-- `_ensure_authenticated` and `_authenticate_once_with_otp` of PixelStormSecurityService.
use war_thunder_rent_bot.Prelude.{ℕ, Bool, true, false, ◌&&◌, ◌||◌, not, Option, none, some}
use war_thunder_rent_bot.Domain.States.{SecurityState}
use war_thunder_rent_bot.Domain.PixelStorm.{
  Category, Credentials, PixelStormAuthResult, is_ready, needs_auth, is_success, needs_otp,
  health_category, auth_category,
}
use war_thunder_rent_bot.Persistence.Rows.{OperationRow}
use war_thunder_rent_bot.Persistence.Repository.Security.{record_maintenance_login_requested}
use war_thunder_rent_bot.Application.World.{App, Call, ◌>>=◌, pure, transact, port, choose, if_some}
use war_thunder_rent_bot.Application.Ports.{Outside, Settings}
use war_thunder_rent_bot.Application.Codes.{consume_maintenance_otp}
use war_thunder_rent_bot.Application.Security.{
  Job, refuse, wait, operation, external_side_effect, if_owned, current_credentials,
}

abbrev is_waiting_login_otp : SecurityState → Bool
is_waiting_login_otp SecurityState.waiting_login_otp = true
is_waiting_login_otp _ = false

-- `operation.maintenance_login_requested_at or now`
abbrev or_now : Option ℕ → ℕ → ℕ
or_now (some t) now = t
or_now none now = now

module _ {E : Type 0} (o : Outside E) (s : Settings) where
  -- `_authenticate_once_with_otp`
  unfoldable pub authenticate_once_with_otp : Job → Credentials → ℕ → App E Bool
  authenticate_once_with_otp j credentials otp = do
    answer ←
        external_side_effect o s j (λ a. Call.logged_in j.account_id a)
          (o.pixelstorm.authenticate j.account_id credentials (some otp))
    if_owned o s answer
        (λ result. choose (is_success result) (pure true) (refuse o s (auth_category result) j))

  -- the code for a login that was asked for before
  unfoldable pub resume_login : Job → Credentials → OperationRow → App E Bool
  resume_login j credentials row = do
    otp ←
        consume_maintenance_otp o s j.account_id j.operation_id
          (or_now row.maintenance_login_requested_at j.now) j.now
    if_some otp (authenticate_once_with_otp j credentials)
        (wait o s SecurityState.waiting_login_otp j)

  -- what follows the answer of `authenticate`
  unfoldable pub after_login : Job → Credentials → PixelStormAuthResult → App E Bool
  after_login j credentials result = choose (is_success result) (pure true) (
      choose (not (needs_otp result) || not s.has_maintenance_otp)
        (refuse o s (auth_category result) j)
        (do
          otp ← consume_maintenance_otp o s j.account_id j.operation_id j.now j.now
          if_some otp (authenticate_once_with_otp j credentials)
              (wait o s SecurityState.waiting_login_otp j)))

  unfoldable pub first_login : Job → Credentials → App E Bool
  first_login j credentials = do
    recorded ← transact (record_maintenance_login_requested j.operation_id j.now)
    answer ←
        external_side_effect o s j (λ a. Call.logged_in j.account_id a)
          (o.pixelstorm.authenticate j.account_id credentials none)
    if_owned o s answer (after_login j credentials)

  -- with the current credentials of the account
  unfoldable pub log_in : Job → Credentials → App E Bool
  log_in j credentials = do
    row ← operation o s j
    choose (is_waiting_login_otp row.security_state && s.has_maintenance_otp)
        (resume_login j credentials row) (first_login j credentials)

  -- `_ensure_authenticated`
  unfoldable pub ensure_authenticated : Job → App E Bool
  ensure_authenticated j = do
    health ← port (o.pixelstorm.health j.account_id)
    choose (is_ready health) (pure true) (
        choose (not (needs_auth health)) (refuse o s (health_category health) j) (do
          credentials ← current_credentials o s j.account_id
          if_some credentials (log_in j) (refuse o s Category.pixel_storm_auth_required j)))
