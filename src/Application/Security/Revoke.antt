-- ===== src/Application/Security/Revoke.antt =====
-- `revoke` and `execute_revoke` of PixelStormSecurityService.
use war_thunder_rent_bot.Prelude.{Bool, true, false, ◌||◌, not}
use war_thunder_rent_bot.Domain.PixelStorm.{
  Category, PixelStormRevocationResult, PixelStormSecurityCapabilities, SecurityOperationOutcome,
  is_supported_verified,
}
use war_thunder_rent_bot.Application.World.{App, Call, ◌>>=◌, pure, port, choose}
use war_thunder_rent_bot.Application.Ports.{Outside, Settings}
use war_thunder_rent_bot.Application.Security.{
  Job, refuse, external_side_effect, if_owned, verify_revocation, execute,
}
use war_thunder_rent_bot.Application.Security.Authenticate.{ensure_authenticated}

-- `capabilities.unknown or not (session_revocation_available or revoke_all_available)`
abbrev cannot_revoke : PixelStormSecurityCapabilities → Bool
cannot_revoke c = c.unknown || not (c.session_revocation_available || c.revoke_all_available)

module _ {E : Type 0} (o : Outside E) (s : Settings) where
  -- `verify_revocation(...) == SUPPORTED_VERIFIED`, or a notification
  unfoldable pub confirm_revocation : Job → App E Bool
  confirm_revocation j = do
    result ← verify_revocation o s j.account_id
    choose (is_supported_verified result) (pure true)
        (refuse o s Category.session_revocation_ambiguous j)

  unfoldable pub after_revocation : Job → PixelStormRevocationResult → App E Bool
  after_revocation j result =
      choose (is_supported_verified result) (confirm_revocation j)
        (refuse o s Category.session_revocation_ambiguous j)

  unfoldable pub revoke_once : Job → App E Bool
  revoke_once j = do
    answer ←
        external_side_effect o s j (λ a. Call.revoked j.account_id a)
          (o.pixelstorm.revoke_sessions j.account_id)
    if_owned o s answer (after_revocation j)

  -- `revoke`
  unfoldable pub revoke : Job → App E Bool
  revoke j = do
    ready ← ensure_authenticated o s j
    choose (not ready) (pure false) (do
      capabilities ← port (o.pixelstorm.inspect_security_capabilities j.account_id)
      choose (cannot_revoke capabilities) (refuse o s Category.session_revocation_unsupported j)
          (choose j.recovery (confirm_revocation j) (revoke_once j)))

  -- `execute_revoke`
  unfoldable pub execute_revoke : Job → App E SecurityOperationOutcome
  execute_revoke j = execute (revoke j)
