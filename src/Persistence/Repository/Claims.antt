-- ===== src/Persistence/Repository/Claims.antt =====
-- The claims on an operation: a worker's claim, a startup recovery's claim, and the fences that a
-- worker must pass before it calls out. `token` is what `uuid4()` returns.
pub mod Fencing
use war_thunder_rent_bot.Prelude.{
  ℕ, ◌+◌, Bool, true, false, ◌&&◌, Option, none, some, leb, ◌==◌, ◌is_some◌, is_none,
}
use war_thunder_rent_bot.Domain.States.{OperationStatus, status_eq}
use war_thunder_rent_bot.Persistence.Rows.{OperationRow, AuditType, Correlation, seconds, minutes}
use war_thunder_rent_bot.Persistence.Session.{
  Tx, ◌>>=◌, ◌>>◌, pure, query, require_some, assertion, cas_operation, operation_of,
}
use war_thunder_rent_bot.Persistence.Repository.Internal.{audit}
use war_thunder_rent_bot.Persistence.Repository.Queries.{lease_over, is_waiting_external}

abbrev pub is_running : OperationRow → Bool
is_running r = r.status == OperationStatus.running

-- `lease_until.is_not(None), lease_until >= now`
abbrev pub lease_covers : Option ℕ → ℕ → Bool
lease_covers none now = false
lease_covers (some t) now = leb now t

unfoldable pub claim_startup_recovery : ℕ → ℕ → ℕ → Tx (Option OperationRow)
claim_startup_recovery token operation_id now = do
  claimed ←
      cas_operation operation_id (λ r. is_running r && lease_over r.lease_until now)
        (λ r. record r { recovery_claim_token = some token; lease_until = some (now + minutes 5) })
  elim claimed [
    | false ↦ pure none
    | true ↦ do
      found ← query (λ db. operation_of db operation_id)
      operation ← require_some found assertion
      audit AuditType.startup_recovery_claimed (some operation.account_id) operation.rental_id
          (Correlation.of_claim operation_id token) now
      pure (some operation)
  ]

unfoldable pub release_recovery_claim : ℕ → ℕ → Tx Bool
release_recovery_claim operation_id token =
    cas_operation operation_id
      (λ r.
        is_running r
        && r.recovery_claim_token is_some token
        && is_waiting_external r.security_state)
      (λ r. record r { recovery_claim_token = none; lease_until = none })

unfoldable pub claim_operation : ℕ → ℕ → ℕ → ℕ → Tx (Option OperationRow)
claim_operation token operation_id now lease_seconds = do
  claimed ←
      cas_operation operation_id (λ r. r.status == OperationStatus.pending)
        (λ r. record r {
          status = OperationStatus.running;
          started_at = some now;
          lease_until = some (now + seconds lease_seconds);
          attempt_count = r.attempt_count + 1;
          normal_claim_token = some token;
        })
  elim claimed [ false ↦ pure none | true ↦ query (λ db. operation_of db operation_id) ]

unfoldable pub claim_waiting_security_operation : ℕ → ℕ → ℕ → ℕ → Tx (Option OperationRow)
claim_waiting_security_operation token operation_id now lease_seconds = do
  claimed ←
      cas_operation operation_id
        (λ r.
          is_running r
          && is_none r.normal_claim_token
          && is_none r.recovery_claim_token
          && is_waiting_external r.security_state)
        (λ r. record r {
          lease_until = some (now + seconds lease_seconds);
          attempt_count = r.attempt_count + 1;
          normal_claim_token = some token;
        })
  elim claimed [ false ↦ pure none | true ↦ query (λ db. operation_of db operation_id) ]

unfoldable pub fence_normal_side_effect : ℕ → Option ℕ → ℕ → ℕ → Tx Bool
fence_normal_side_effect operation_id none now lease_seconds = pure false
fence_normal_side_effect operation_id (some token) now lease_seconds =
    cas_operation operation_id
      (λ r.
        is_running r
        && r.normal_claim_token is_some token
        && is_none r.recovery_claim_token
        && lease_covers r.lease_until now)
      (λ r. record r { lease_until = some (now + seconds lease_seconds) })

unfoldable pub fence_recovery_side_effect : ℕ → Option ℕ → ℕ → Tx Bool
fence_recovery_side_effect operation_id none now = pure false
fence_recovery_side_effect operation_id (some token) now =
    cas_operation operation_id
      (λ r. is_running r && r.recovery_claim_token is_some token && lease_covers r.lease_until now)
      (λ r. record r { lease_until = some (now + minutes 5) })
