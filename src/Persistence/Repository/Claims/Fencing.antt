-- ===== src/Persistence/Repository/Claims/Fencing.antt =====
-- Who owns an operation: the claims and fences of `Repository` exclude one another.
use war_thunder_rent_bot.Prelude.{
  ◌==◌, ℕ, ◌+◌, ◌≤◌, ◌≡◌, refl, Bool, true, false, none, some, arith, ◌is_some◌, is_none, ◌&&◌, ap,
  ◌∙◌, inl, inr,
}
use war_thunder_rent_bot.Domain.States.{OperationStatus, status_eq}
use war_thunder_rent_bot.Table.Laws.{holds}
use war_thunder_rent_bot.Persistence.Rows.{OperationRow, AuditType, Correlation, seconds, minutes}
use war_thunder_rent_bot.Persistence.Repository.Internal.Laws.{audit_cases, audit_row, with_audit}
use war_thunder_rent_bot.Persistence.Session.{Db, ok, operation_of}
use war_thunder_rent_bot.Persistence.Session.Laws.{
  operation_of-with_operation_self, HasKeys-with_operation, HasKeys, cas_operation_miss,
  cas_operation-true, cas_operation_cases, with_operation,
}
use war_thunder_rent_bot.Persistence.Repository.Queries.{lease_over}
use war_thunder_rent_bot.Persistence.Repository.Completion.{
  operation_completed, operation_failed, finalizable,
}
use war_thunder_rent_bot.Persistence.Repository.Claims.{
  is_running, lease_covers, claim_startup_recovery, fence_normal_side_effect,
  fence_recovery_side_effect,
}

-- The row that lets a worker with this token through the fence.
abbrev pub normal_owner : ℕ → ℕ → OperationRow → Bool
normal_owner token now r =
    is_running r
    && r.normal_claim_token is_some token
    && is_none r.recovery_claim_token
    && lease_covers r.lease_until now

abbrev recovery_owner : ℕ → ℕ → OperationRow → Bool
recovery_owner token now r =
    is_running r && r.recovery_claim_token is_some token && lease_covers r.lease_until now

abbrev recoverable : ℕ → OperationRow → Bool
recoverable now r = is_running r && lease_over r.lease_until now

fence_normal_true :
    (token i now lease : ℕ) (db : Db)
    → HasKeys db
    → {db' : Db} → fence_normal_side_effect i (some token) now lease db ≡ ok (true, db')
    → (r : OperationRow) × (operation_of db i ≡ some r)
      × (normal_owner token now r ≡ true)
      × (operation_of db' i ≡ some (record r { lease_until = some (now + seconds lease) }))
      × HasKeys db'
unfolding fence_normal_side_effect
fence_normal_true token i now lease db k {db'} h =
    let (r, found, e, saved, after, keys) =
      cas_operation-true i (normal_owner token now)
        (λ r. record r { lease_until = some (now + seconds lease) }) db k (λ r. refl) {db' = db'}
        h in
    (r, found, e, after, keys)

fence_recovery_true :
    (token i now : ℕ) (db : Db)
    → HasKeys db
    → {db' : Db} → fence_recovery_side_effect i (some token) now db ≡ ok (true, db')
    → (r : OperationRow) × (operation_of db i ≡ some r) × (recovery_owner token now r ≡ true)
unfolding fence_recovery_side_effect
fence_recovery_true token i now db k {db'} h =
    let (r, found, e, saved, after, keys) =
      cas_operation-true i (recovery_owner token now)
        (λ r. record r { lease_until = some (now + minutes 5) }) db k (λ r. refl) {db' = db'} h in
    (r, found, e)

-- Two workers that pass the normal fence of one operation on one database hold the same token.
pub fence_normal_exclusive :
    (token other i now now' lease lease' : ℕ) (db : Db)
    → HasKeys db
    → {a b : Db} → fence_normal_side_effect i (some token) now lease db ≡ ok (true, a)
    → fence_normal_side_effect i (some other) now' lease' db ≡ ok (true, b)
    → token ≡ other
fence_normal_exclusive token other i now now' lease lease' db k {a} {b} h g =
    let (r, found, e, _, _) = fence_normal_true token i now lease db k {db' = a} h in
    let (s, found', e', _, _) = fence_normal_true other i now' lease' db k {db' = b} g in
    ground (arith, found, found', e, e')

-- No database lets both a normal worker and a startup recovery pass the fence of one operation.
pub fence_sides_exclusive :
    (token other i now now' lease : ℕ) (db : Db)
    → HasKeys db
    → {a b : Db} → fence_normal_side_effect i (some token) now lease db ≡ ok (true, a)
    → ¬ (fence_recovery_side_effect i (some other) now' db ≡ ok (true, b))
fence_sides_exclusive token other i now now' lease db k {a} {b} h g =
    let (r, found, e, _, _) = fence_normal_true token i now lease db k {db' = a} h in
    let (s, found', e') = fence_recovery_true other i now' db k {db' = b} g in
    ground (arith, found, found', e, e')

-- A worker that has just passed the fence cannot lose the operation to a startup recovery before
-- its renewed lease has run out: the recovery's claim is refused and changes nothing.
pub lease_protects :
    (token i now lease fresh now' : ℕ) (db : Db)
    → HasKeys db
    → {db' : Db} → fence_normal_side_effect i (some token) now lease db ≡ ok (true, db')
    → now' ≤ now + seconds lease
    → claim_startup_recovery fresh i now' db' ≡ ok (none, db')
unfolding claim_startup_recovery
lease_protects token i now lease fresh now' db k {db'} h late =
    let (r, found, e, after, keys) = fence_normal_true token i now lease db k {db' = db'} h in
    let miss : holds (recoverable now') (operation_of db' i) ≡ false =
      ap (holds (recoverable now')) after ∙ ground arith in
    ground (
      arith,
      cas_operation_miss i (recoverable now')
          (λ r. record r {
            recovery_claim_token = some fresh;
            lease_until = some (now' + minutes 5);
          })
          db' keys miss,
    )

abbrev claimed_for : ℕ → ℕ → OperationRow → OperationRow
claimed_for token now r = record r {
  recovery_claim_token = some token;
  lease_until = some (now + minutes 5);
}

abbrev is_pending : OperationRow → Bool
is_pending r = r.status == OperationStatus.pending

abbrev started : ℕ → ℕ → ℕ → OperationRow → OperationRow
started token now lease r = record r {
  status = OperationStatus.running;
  started_at = some now;
  lease_until = some (now + seconds lease);
  attempt_count = r.attempt_count + 1;
  normal_claim_token = some token;
}

-- What a startup recovery's claim leaves behind.
claim_recovery_some :
    (token i now : ℕ) (db : Db)
    → HasKeys db
    → {op : OperationRow} {db' : Db} → claim_startup_recovery token i now db ≡ ok (some op, db')
    → (operation_of db' i ≡ some op) × (op.recovery_claim_token ≡ some token) × HasKeys db'
unfolding claim_startup_recovery
claim_recovery_some token i now db k {op} {db'} h =
    elim (cas_operation_cases i (recoverable now) (claimed_for token now) db k (λ r. refl)) [
      | inl (r, found, e, id, eq) ↦
          let claimed = claimed_for token now r in
          let db1 = with_operation claimed db in
          let event = AuditType.startup_recovery_claimed in
          let correlation = Correlation.of_claim i token in
          let there = operation_of-with_operation_self claimed db id found in
          let log = audit_cases event (some r.account_id) r.rental_id correlation now db1 in
          let row : (op ≡ claimed)
              × (db'
                  ≡ with_audit (audit_row event (some r.account_id) r.rental_id correlation now)
                      db1) =
            ground (arith, eq, h, there, log) in
          let keys = HasKeys-with_operation claimed db k in
          (
            rw (row.1, row.0) there,
            rw row.0,
            rw row.1 (record {
              accounts = keys.accounts;
              orders = keys.orders;
              rentals = keys.rentals;
              operations = keys.operations;
            }),
          )
      | inr (miss, eq) ↦ absurd (ground (arith, eq, h))
    ]

-- Once a startup recovery has claimed an operation, the worker that held it before is fenced out,
-- whatever its token and whenever it comes: its fence, its completion and its failure are all
-- refused, and change nothing.
pub recovery_fences_out :
    (token i now stale later lease new_id : ℕ) (db : Db)
    → HasKeys db
    → {op : OperationRow} {db' : Db} → claim_startup_recovery token i now db ≡ ok (some op, db')
    → (fence_normal_side_effect i (some stale) later lease db' ≡ ok (false, db'))
      × (operation_completed new_id i later none (some stale) db' ≡ ok (false, db'))
      × (operation_failed i later none (some stale) db' ≡ ok (false, db'))
unfolding fence_normal_side_effect operation_completed operation_failed
recovery_fences_out token i now stale later lease new_id db k {op} {db'} h =
    let (there, held, keys) = claim_recovery_some token i now db k {op = op} {db' = db'} h in
    let owner : holds (normal_owner stale later) (operation_of db' i) ≡ false =
      ap (holds (normal_owner stale later)) there ∙ ground (arith, held) in
    let final : holds (finalizable (some stale)) (operation_of db' i) ≡ false =
      ap (holds (finalizable (some stale))) there ∙ ground (arith, held) in
    (
      cas_operation_miss i (normal_owner stale later) _ db' keys owner,
      ground (
        arith,
        cas_operation_miss i (finalizable (some stale))
            (λ r. record r {
              status = OperationStatus.completed;
              completed_at = some later;
              lease_until = none;
              normal_claim_token = none;
              recovery_claim_token = none;
            })
            db' keys final,
      ),
      ground (
        arith,
        cas_operation_miss i (finalizable (some stale))
            (λ r. record r {
              status = OperationStatus.failed;
              completed_at = some later;
              lease_until = none;
              normal_claim_token = none;
              recovery_claim_token = none;
            })
            db' keys final,
      ),
    )
