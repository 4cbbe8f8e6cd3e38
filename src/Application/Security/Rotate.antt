-- ===== src/Application/Security/Rotate.antt =====
-- `rotate`, `_finalize_password_change` and `execute_rotate` of PixelStormSecurityService.
use war_thunder_rent_bot.Prelude.{Bool, true, false, ◌||◌, ◌&&◌, not, is_none}
use war_thunder_rent_bot.Domain.States.{SecurityState}
use war_thunder_rent_bot.Domain.PixelStorm.{
  Category, Credentials, PixelStormPasswordChangeResult, SecurityOperationOutcome, is_valid,
  is_verified, password_category,
}
use war_thunder_rent_bot.Persistence.Rows.{OperationRow}
use war_thunder_rent_bot.Persistence.Repository.Security.{record_password_change_requested}
use war_thunder_rent_bot.Application.World.{
  App, Call, ◌>>=◌, ◌>>◌, pure, transact, draw, port, logged, choose, if_some,
}
use war_thunder_rent_bot.Application.Ports.{Outside, Settings}
use war_thunder_rent_bot.Application.Codes.{consume_expected_reset_url}
use war_thunder_rent_bot.Application.Security.{
  Job, refuse, wait, set_state, operation, external_side_effect, if_owned, verify_credentials,
  execute, current_credentials,
}
use war_thunder_rent_bot.Application.Security.Authenticate.{ensure_authenticated}

abbrev pub is_waiting_email : SecurityState → Bool
is_waiting_email SecurityState.waiting_password_change_email = true
is_waiting_email _ = false

-- `state in {"REMOTE_VERIFIED", "SECRET_PROMOTED"}`
abbrev pub is_past_verification : SecurityState → Bool
is_past_verification SecurityState.remote_verified = true
is_past_verification SecurityState.secret_promoted = true
is_past_verification _ = false

abbrev is_confirmation : PixelStormPasswordChangeResult → Bool
is_confirmation PixelStormPasswordChangeResult.confirmation_required = true
is_confirmation _ = false

module _ {E : Type 0} (o : Outside E) (s : Settings) where
  -- the state REMOTE_VERIFIED, the promotion of the pending credentials, the state SECRET_PROMOTED
  unfoldable pub promote : Job → App E Bool
  promote j = do
    verified ← set_state o s SecurityState.remote_verified j
    logged (λ d. Call.promoted j.account_id)
        (port (o.secrets.promote_pending_credentials j.account_id))
    promoted ← set_state o s SecurityState.secret_promoted j
    pure true

  -- `_finalize_password_change`
  unfoldable pub finalize_password_change :
      Job → Credentials → PixelStormPasswordChangeResult → App E Bool
  finalize_password_change j pending changed =
      choose (is_verified changed)
        (do
          result ← verify_credentials o s j.account_id pending
          choose (is_valid result) (promote j) (refuse o s (password_category changed) j))
        (refuse o s (password_category changed) j)

  -- the confirmed email's link, if a password rotator has one, and the change by it
  unfoldable pub change_by_email : Job → Credentials → App E Bool
  change_by_email j pending = do
    reset_url ← consume_expected_reset_url o s j.operation_id j.now
    if_some reset_url
        (λ url. do
          answer ←
              external_side_effect o s j (λ a. Call.changed j.account_id a)
                (o.pixelstorm.complete_password_change j.account_id url pending.password)
          if_owned o s answer (finalize_password_change j pending))
        (wait o s SecurityState.waiting_password_change_email j)

  unfoldable pub change_directly : Job → Credentials → Credentials → App E Bool
  change_directly j current pending = do
    answer ←
        external_side_effect o s j (λ a. Call.changed j.account_id a)
          (o.pixelstorm.change_password j.account_id current pending.password)
    if_owned o s answer (finalize_password_change j pending)

  -- what follows the answer of `request_password_change`
  unfoldable pub after_request :
      Job → Credentials → Credentials → PixelStormPasswordChangeResult → App E Bool
  after_request j current pending requested =
      choose (is_confirmation requested)
        (choose s.has_password_rotator (change_by_email j pending)
          (refuse o s Category.password_rotation_ambiguous j))
        (choose (is_verified requested) (change_directly j current pending)
          (finalize_password_change j pending requested))

  -- the request, unless one is on record
  unfoldable pub request_change : Job → OperationRow → Credentials → Credentials → App E Bool
  request_change j row current pending =
      choose (not (is_none row.password_change_requested_at))
        (wait o s SecurityState.waiting_password_change_email j)
        (do
          recorded ← transact (record_password_change_requested j.operation_id j.now)
          choose (not recorded) (wait o s SecurityState.waiting_password_change_email j) (do
            answer ←
                external_side_effect o s j (λ a. Call.changed j.account_id a)
                  (o.pixelstorm.request_password_change j.account_id current)
            if_owned o s answer (after_request j current pending)))

  -- from the verification of the pending credentials on
  unfoldable pub rotate_pending : Job → OperationRow → Credentials → Credentials → App E Bool
  rotate_pending j row current pending = do
    result ← verify_credentials o s j.account_id pending
    choose (is_valid result) (promote j) (do
      still ← verify_credentials o s j.account_id current
      choose (is_valid still) (request_change j row current pending)
          (refuse o s Category.password_verification_failed j))

  -- new credentials become the pending ones
  unfoldable pub store_pending : Job → OperationRow → Credentials → Credentials → App E Bool
  store_pending j row current pending = do
    logged (λ d. Call.stored_pending j.account_id pending)
        (port (o.secrets.set_pending_credentials j.account_id pending))
    ready ← set_state o s SecurityState.pending_ready j
    rotate_pending j row current pending

  -- no credentials are pending
  unfoldable pub rotate_fresh : Job → OperationRow → Credentials → App E Bool
  rotate_fresh j row current =
      choose (j.recovery && is_past_verification row.security_state)
        (do
          result ← verify_credentials o s j.account_id current
          choose (is_valid result) (pure true) (refuse o s Category.password_rotation_ambiguous j))
        (do
          password ← draw o.generate
          store_pending j row current (record { login = current.login; password = password }))

  -- with the current credentials
  unfoldable pub rotate_known : Job → Credentials → App E Bool
  rotate_known j current = do
    pending ←
        logged (λ c. Call.read_pending j.account_id c)
          (port (o.secrets.get_pending_credentials j.account_id))
    row ← operation o s j
    choose (is_waiting_email row.security_state)
        (if_some pending
          (λ p.
            choose s.has_password_rotator (change_by_email j p)
              (refuse o s Category.password_rotation_ambiguous j))
          (refuse o s Category.password_rotation_ambiguous j))
        (if_some pending (rotate_pending j row current) (rotate_fresh j row current))

  -- `rotate`
  unfoldable pub rotate : Job → App E Bool
  rotate j = do
    ready ← ensure_authenticated o s j
    choose (not ready) (pure false) (do
      capabilities ← port (o.pixelstorm.inspect_security_capabilities j.account_id)
      choose (capabilities.unknown || not capabilities.password_change_available)
          (refuse o s Category.password_rotation_ambiguous j)
          (do
            current ← current_credentials o s j.account_id
            if_some current (rotate_known j) (refuse o s Category.password_verification_failed j)))

  -- `execute_rotate`
  unfoldable pub execute_rotate : Job → App E SecurityOperationOutcome
  execute_rotate j = execute (rotate j)
