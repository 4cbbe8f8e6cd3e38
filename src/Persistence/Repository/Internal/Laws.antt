-- ===== src/Persistence/Repository/Internal/Laws.antt =====
-- The private helpers, each by what it does when it returns and when it raises.
use war_thunder_rent_bot.Prelude.{
  ℕ, ◌+◌, ◌≡◌, refl, true, ◌&&◌, Option, none, some, [], ◌∷◌, ◌++◌, arith, ◌⊎◌, inl, inr,
  if◌then◌else◌, Bool-cases, ◌==◌, nat_eq, is_none, false,
}
use war_thunder_rent_bot.Domain.States.{
  AccountStatus, RentalStatus, OperationKind, OperationStatus, SecurityState, account_eq,
  account_beq_iff,
}
use war_thunder_rent_bot.Domain.Transitions.{account_transition, rental_transition}
use war_thunder_rent_bot.Table.Laws.{append-HasUniqueKeys}
use war_thunder_rent_bot.Persistence.Rows.{
  AccountRow, RentalRow, OperationRow, AuditEventRow, AuditType, Correlation, IdempotencyKey,
}
use war_thunder_rent_bot.Persistence.Session.{
  Db, ok, err, value, integrity, account_of, rental_of, operation_of, cas_account, insert_audit,
  insert_operation, save_rental,
}
use war_thunder_rent_bot.Persistence.Session.Laws.{
  HasKeys, with_account, with_rental, cas_account_hit,
}
use war_thunder_rent_bot.Persistence.Repository.Internal.{
  add_operation, audit, transition_rental, transition_row,
}

-- The account after a transition.
abbrev pub moved : AccountRow → AccountStatus → ℕ → AccountRow
moved account target now = record account {
  status = target;
  state_version = account.state_version + 1;
  updated_at = now;
}

abbrev pub moved_rental : RentalRow → RentalStatus → ℕ → RentalRow
moved_rental rental target now = record rental { status = target; updated_at = now }

-- A transition of an account that was read in the same transaction: the compare-and-set hits.
pub transition_row_lem :
    (account : AccountRow) (target : AccountStatus) (now : ℕ) (db : Db)
    → HasKeys db
    → account_of db account.id ≡ some account
    → transition_row account target now db ≡ (
        if account_transition account.status target
        then ok (moved account target now, with_account (moved account target now) db)
        else err value)
unfolding transition_row
transition_row_lem account target now db k found =
    elim (Bool-cases (account_transition account.status target)) [
      | inl legal ↦ rw legal (ground (arith, legal, hit))
      | inr illegal ↦ rw illegal refl
    ]
  where
    current :
        (account.status == account.status && account.state_version == account.state_version) ≡ true
    current = ground (arith, account_beq_iff account.status account.status)

    hit :
        cas_account account.id
          (λ r. r.status == account.status && r.state_version == account.state_version)
          (λ r. record r { status = target; state_version = r.state_version + 1; updated_at = now })
          db
        ≡ ok (true, with_account (moved account target now) db)
    hit = cas_account_hit account.id _ _ db k account found current refl

pub transition_rental_lem :
    (rental : RentalRow) (target : RentalStatus) (now : ℕ) (db : Db)
    → transition_rental rental target now db ≡ (
        if rental_transition rental.status target
        then ok (moved_rental rental target now, with_rental (moved_rental rental target now) db)
        else err value)
unfolding transition_rental save_rental
transition_rental_lem rental target now db =
    elim (Bool-cases (rental_transition rental.status target)) [
      | inl legal ↦ rw legal refl
      | inr illegal ↦ rw illegal refl
    ]

abbrev pub with_audit : AuditEventRow → Db → Db
with_audit r db = record db { audit_events = db.audit_events ++ r ∷ [] }

abbrev pub audit_row : AuditType → Option ℕ → Option ℕ → Correlation → ℕ → AuditEventRow
audit_row event_type account_id rental_id correlation_id now = record {
  occurred_at = now;
  event_type = event_type;
  account_id = account_id;
  rental_id = rental_id;
  correlation_id = correlation_id;
}

pub audit_cases :
    (t : AuditType) (a r : Option ℕ) (c : Correlation) (now : ℕ) (db : Db)
    → (audit t a r c now db ≡ ok (tt, with_audit (audit_row t a r c now) db))
      ⊎ (audit t a r c now db ≡ err integrity)
unfolding audit insert_audit
audit_cases t a r c now db = ground arith

abbrev pub with_new_operation : OperationRow → Db → Db
with_new_operation r db = record db { operations = db.operations ++ r ∷ [] }

-- The row that `_operation` inserts.
abbrev pub new_operation : ℕ → OperationKind → ℕ → ℕ → ℕ → OperationRow
new_operation new_id kind account_id rental_id now = record {
  id = new_id;
  kind = kind;
  idempotency_key = IdempotencyKey.of_rental kind rental_id;
  status = OperationStatus.pending;
  account_id = account_id;
  rental_id = some rental_id;
  order_id = none;
  attempt_count = 0;
  lease_until = none;
  started_at = none;
  maintenance_login_requested_at = none;
  password_change_requested_at = none;
  security_state = SecurityState.init;
  normal_claim_token = none;
  recovery_claim_token = none;
  created_at = now;
  completed_at = none;
}

pub add_operation_cases :
    (new_id : ℕ) (kind : OperationKind) (account_id rental_id now : ℕ) (db : Db)
    → ((operation_of db new_id ≡ none)
        × (is_none (rental_of db rental_id) ≡ false)
        × (add_operation new_id kind account_id rental_id now db
            ≡ ok (tt, with_new_operation (new_operation new_id kind account_id rental_id now) db)))
      ⊎ (add_operation new_id kind account_id rental_id now db ≡ err integrity)
unfolding add_operation insert_operation
add_operation_cases new_id kind account_id rental_id now db = ground arith

pub HasKeys-with_new_operation :
    (r : OperationRow) (db : Db)
    → operation_of db r.id ≡ none
    → HasKeys db
    → HasKeys (with_new_operation r db)
HasKeys-with_new_operation r db fresh k = record {
  accounts = k.accounts;
  orders = k.orders;
  rentals = k.rentals;
  operations = append-HasUniqueKeys (λ s. s.id) db.operations r fresh k.operations;
}
