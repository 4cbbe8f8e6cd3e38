-- ===== src/Application/Security.antt =====
-- app/application/pixelstorm_security.py: `PixelStormSecurityService` with its repository. Here the
-- calls that all of its operations share; Revoke and Rotate hold the operations.
pub mod Authenticate
pub mod Revoke
pub mod Rotate
use war_thunder_rent_bot.Prelude.{ℕ, Bool, true, false, Option, none, some, ◌&&◌, is_none}
use war_thunder_rent_bot.Domain.States.{SecurityState}
use war_thunder_rent_bot.Domain.PixelStorm.{
  Category, NotificationKey, Credentials, PixelStormCredentialResult, PixelStormRevocationResult,
  SecurityOperationOutcome, OwnerNotification,
}
use war_thunder_rent_bot.Persistence.Rows.{OperationRow}
use war_thunder_rent_bot.Persistence.Session.{operation_of}
use war_thunder_rent_bot.Persistence.Repository.Security.{set_security_state}
use war_thunder_rent_bot.Application.World.{
  App, Port, Call, World, ◌>>=◌, ◌>>◌, pure, transact, fetch, port, logged, tell, set_waiting,
  choose, only_if, is_waiting_external,
}
use war_thunder_rent_bot.Application.Ports.{Outside, Settings}
use war_thunder_rent_bot.Application.Lease.{Claim, guarded}

-- The arguments that the methods share. One of the two tokens is given, or neither.
pub record Job : Type 0 where
  pub account_id : ℕ
  pub operation_id : ℕ
  pub now : ℕ
  pub recovery : Bool
  pub normal_claim_token : Option ℕ
  pub recovery_claim_token : Option ℕ

module _ {E : Type 0} (o : Outside E) (s : Settings) where
  -- `_notify`
  unfoldable pub notify : Category → Job → App E (Unit {0})
  notify category j = only_if s.has_owner_notifier (
      tell (record {
        category = category;
        correlation_id = NotificationKey.of_id j.operation_id;
        occurred_at = j.now;
        account_id = some j.account_id;
        rental_id = none;
        order_id = none;
        event_id = none;
      }))

  -- `self._notify(...)` and `return False`
  unfoldable pub refuse : Category → Job → App E Bool
  refuse category j = do notify category j; pure false

  -- `_set_state`
  unfoldable pub set_state : SecurityState → Job → App E Bool
  set_state state j = transact (set_security_state j.operation_id state j.now)

  -- `_wait`, and `return False`
  unfoldable pub wait : SecurityState → Job → App E Bool
  wait state j = do set_waiting true; done ← set_state state j; pure false

  -- `self._repository.get_operation(operation_id)`
  unfoldable pub operation : Job → App E OperationRow
  operation j = fetch (λ db. operation_of db j.operation_id)

  -- the token of the guard, `get_operation(...).normal_claim_token` when neither is given
  unfoldable pub normal_token : Job → App E (Option ℕ)
  normal_token j =
      choose (is_none j.normal_claim_token && is_none j.recovery_claim_token)
        (do row ← operation j; pure row.normal_claim_token) (pure j.normal_claim_token)

  -- `_external_side_effect`
  unfoldable pub external_side_effect :
      {R : Type 0} → Job → (Bool × Option R → Call) → Port E R → App E (Bool × Option R)
  external_side_effect j call action = logged call (do
    token ← normal_token j
    guarded o
        (record {
          operation_id = j.operation_id;
          normal_claim_token = token;
          recovery_claim_token = j.recovery_claim_token;
          fallback_now = j.now;
        })
        action)

  -- `_secrets.get_current_credentials`
  unfoldable pub current_credentials : ℕ → App E (Option Credentials)
  current_credentials account_id =
      logged (λ c. Call.read_current account_id c)
        (port (o.secrets.get_current_credentials account_id))

  -- `_pixelstorm.verify_credentials`
  unfoldable pub verify_credentials : ℕ → Credentials → App E PixelStormCredentialResult
  verify_credentials account_id c =
      logged (λ result. Call.verified account_id c result)
        (port (o.pixelstorm.verify_credentials account_id c))

  -- `_pixelstorm.verify_revocation`
  unfoldable pub verify_revocation : ℕ → App E PixelStormRevocationResult
  verify_revocation account_id =
      logged (λ result. Call.checked_revocation account_id result)
        (port (o.pixelstorm.verify_revocation account_id))

  -- `if not owned or result is None: return False`, else go on with the result
  unfoldable pub if_owned : {R : Type 0} → Bool × Option R → (R → App E Bool) → App E Bool
  if_owned (true, some result) go = go result
  if_owned _ go = pure false

-- `execute_revoke` and `execute_rotate`: what becomes of the answer of `revoke` and `rotate`
abbrev pub outcome_of : Bool → Bool → SecurityOperationOutcome
outcome_of true waiting = SecurityOperationOutcome.completed
outcome_of false true = SecurityOperationOutcome.waiting_external
outcome_of false false = SecurityOperationOutcome.failed_closed

unfoldable pub execute : {E : Type 0} → App E Bool → App E SecurityOperationOutcome
execute work = do
  set_waiting false
  done ← work
  waiting ← is_waiting_external
  pure (outcome_of done waiting)
