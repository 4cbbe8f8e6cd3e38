-- ===== src/Persistence/Repository/Recovery.antt =====
-- What a restart repairs: `recover_expired_leases` and `reconcile`; and the public
-- `transition_account`.
use war_thunder_rent_bot.Prelude.{
  ℕ, zero, suc, nat_beq, ◌+◌, Bool, true, false, ◌&&◌, ◌||◌, not, Option, none, some, List, [], ◌∷◌,
  ltb, ◌==◌, if◌then◌else◌, nat_eq,
}
use war_thunder_rent_bot.Domain.States.{AccountStatus, OperationStatus, account_eq, status_eq}
use war_thunder_rent_bot.Domain.Transitions.{account_transition}
use war_thunder_rent_bot.Table.{select, first}
use war_thunder_rent_bot.Persistence.Rows.{AccountRow, OperationRow, AuditType, Correlation}
use war_thunder_rent_bot.Persistence.Session.{
  Db, Result, ok, err, operational, assertion, Tx, ◌>>=◌, ◌>>◌, pure, query, require, value,
  state_conflict, cas_account, cas_operation, account_of, rental_of, optional,
}
use war_thunder_rent_bot.Persistence.Repository.Internal.{audit, transition_row}
use war_thunder_rent_bot.Persistence.Repository.Queries.{
  lease_before, is_waiting_external, running_operations,
}
use war_thunder_rent_bot.Persistence.Repository.Claims.{is_running}
use war_thunder_rent_bot.Persistence.Repository.Security.{Windows, external_wait_deadline}
use war_thunder_rent_bot.Persistence.Repository.Completion.{quarantine}

-- `wait_deadline is not None and wait_deadline > now`
abbrev pub still_open : Option ℕ → ℕ → Bool
still_open none now = false
still_open (some t) now = ltb now t

-- The two `continue`s before the conditional update.
unfoldable pub is_abandoned : Windows → ℕ → OperationRow → Bool
unfolding external_wait_deadline
is_abandoned w now row =
    if is_waiting_external row.security_state
    then not (still_open (external_wait_deadline w row) now)
    else lease_before row.lease_until now

unfoldable pub quarantine_row : OperationRow → ℕ → Tx Bool
quarantine_row row now = do
  account ← query (λ db. account_of db row.account_id)
  rental ← query (λ db. optional (rental_of db) row.rental_id)
  quarantine account rental now
  audit AuditType.lease_recovery_manual_review (some row.account_id) row.rental_id
      (Correlation.of_id row.id) now
  pure true

-- The body of the loop: whether the operation was quarantined.
unfoldable pub recover_one : Windows → ℕ → OperationRow → Tx Bool
unfolding quarantine_row
recover_one w now row =
    if is_abandoned w now row
    then (do
      claimed ←
          cas_operation row.id
            (λ r.
              is_running r
              && (if is_waiting_external row.security_state
                  then is_waiting_external r.security_state
                  else lease_before r.lease_until now))
            (λ r. record r {
              status = OperationStatus.failed;
              completed_at = some now;
              lease_until = none;
              normal_claim_token = none;
            })
      if claimed then quarantine_row row now else pure false)
    else pure false

unfoldable pub recover_loop : Windows → ℕ → List OperationRow → Tx ℕ
recover_loop w now [] = pure 0
recover_loop w now (row ∷ rows) = do
  done ← recover_one w now row
  recovered ← recover_loop w now rows
  pure (if done then recovered + 1 else recovered)

-- `_recover_expired_leases_once`
unfoldable pub recover_expired_leases_once : Windows → ℕ → Tx ℕ
unfolding recover_loop
recover_expired_leases_once w now = do rows ← query running_operations; recover_loop w now rows

-- Whether SQLite refuses an attempt as busy, and what other processes commit while
-- `recover_expired_leases` sleeps after it.
pub record Busy : Type 0 where
  pub is_refused : Bool
  pub others : Db → Db

unfoldable pub try_recovery : Busy → Windows → ℕ → Tx ℕ
try_recovery b w now db =
    if b.is_refused then err operational else recover_expired_leases_once w now db

unfoldable pub recover_attempts : ℕ → (ℕ → Busy) → Windows → ℕ → Db → Result ℕ × Db
unfolding try_recovery
recover_attempts zero busy w now db = (err assertion, db)
recover_attempts (suc left) busy w now db =
    let b = busy 0 in
    let again = recover_attempts left (λ n. busy (suc n)) w now (b.others db) in
    elim (try_recovery b w now db) [
      | ok (recovered, db') ↦ (ok recovered, db')
      | err operational ↦ if nat_beq left 0 then (err operational, db) else again
      | err e ↦ (err e, db)
    ]

-- `for attempt in range(5)`, whose last attempt raises what it meets
unfoldable pub recover_expired_leases : (ℕ → Busy) → Windows → ℕ → Db → Result ℕ × Db
unfolding recover_attempts
recover_expired_leases busy w now db = recover_attempts 5 busy w now db

abbrev stuck : AccountStatus → Bool
stuck AccountStatus.reserved = true
stuck AccountStatus.revoking = true
stuck AccountStatus.rotating_password = true
stuck AccountStatus.security_alert = true
stuck AccountStatus.available_offline = true
stuck _ = false

-- The accounts that only an operation can move on.
abbrev pub awaits_operation : AccountRow → Bool
awaits_operation a = stuck a.status

abbrev pub open_operation_on : ℕ → OperationRow → Bool
open_operation_on account_id r =
    r.account_id == account_id
    && (r.status == OperationStatus.pending || r.status == OperationStatus.running)

-- `if has_pending is None`
unfoldable pub reconcile_found : Option OperationRow → ℕ → AccountRow → Tx (Unit {0})
reconcile_found (some has_pending) now account = pure tt
reconcile_found none now account = do
  a ← transition_row account AccountStatus.manual_review now
  audit AuditType.manual_review (some account.id) none (Correlation.of_id account.id) now

unfoldable pub reconcile_one : ℕ → AccountRow → Tx (Unit {0})
unfolding reconcile_found
reconcile_one now account = do
  has_pending ← query (λ db. first (open_operation_on account.id) db.operations)
  reconcile_found has_pending now account

unfoldable pub reconcile_loop : ℕ → List AccountRow → Tx ℕ
reconcile_loop now [] = pure 0
reconcile_loop now (account ∷ rows) = do
  reconcile_one now account
  reconciled ← reconcile_loop now rows
  pure (reconciled + 1)

unfoldable pub reconcile : ℕ → Tx ℕ
unfolding reconcile_loop
reconcile now = do rows ← query (λ db. select awaits_operation db.accounts); reconcile_loop now rows

unfoldable pub transition_account : ℕ → AccountStatus → ℕ → AccountStatus → ℕ → Tx (Unit {0})
transition_account account_id expected_status expected_state_version target now = do
  require (account_transition expected_status target) value
  claimed ←
      cas_account account_id
        (λ r. r.status == expected_status && r.state_version == expected_state_version)
        (λ r. record r { status = target; state_version = r.state_version + 1; updated_at = now })
  require claimed state_conflict
