-- ===== src/Persistence/Repository/Reservation.antt =====
-- Accounts, lots and the reservation of an order: `add_account`, `add_account_lot`,
-- `reserve_order` and `_reserve_order_once`.
use mathlib.Core.Option
use war_thunder_rent_bot.Prelude.{
  ℕ, zero, suc, Bool, true, false, not, Option, none, some, ◌==◌, nat_eq, if◌then◌else◌,
}
use war_thunder_rent_bot.Domain.States.{
  AccountStatus, RentalStatus, FulfillmentStatus, OperationKind, account_eq, fulfillment_eq,
}
use war_thunder_rent_bot.Domain.Models.{OrderInput, StartResult}
use war_thunder_rent_bot.Table.{first, first_by}
use war_thunder_rent_bot.Persistence.Rows.{AccountRow, OrderRow, AuditType, Correlation}
use war_thunder_rent_bot.Persistence.Session.{
  Db, Tx, Error, Result, ok, err, ◌>>=◌, ◌>>◌, pure, query, insert_account, insert_lot,
  insert_order, insert_rental, integrity, operational, state_conflict, runtime,
}
use war_thunder_rent_bot.Persistence.Repository.Internal.{add_operation, audit, transition_row}

-- `now` is timezone-aware, as every `datetime` of the model is.
unfoldable pub add_account : ℕ → ℕ → ℕ → Tx ℕ
unfolding insert_account
add_account new_id code now = do
  insert_account (record {
    id = new_id;
    code = code;
    status = AccountStatus.available;
    credential_version = 1;
    state_version = 0;
    created_at = now;
    updated_at = now;
  })
  pure new_id

unfoldable pub add_account_lot : ℕ → ℕ → ℕ → ℕ → Tx ℕ
unfolding insert_lot
add_account_lot new_id account_id external_lot_id now = do
  insert_lot (record {
    id = new_id;
    account_id = account_id;
    external_lot_id = external_lot_id;
    enabled_expected = true;
    created_at = now;
    updated_at = now;
  })
  pure new_id

-- What one attempt draws from `uuid4()`, whether SQLite refuses it as busy, and what other
-- processes commit while `reserve_order` sleeps after it.
pub record Attempt : Type 0 where
  pub order_id : ℕ
  pub rental_id : ℕ
  pub operation_id : ℕ
  pub is_refused : Bool
  pub others : Db → Db

-- The answer for an order that is in the database.
unfoldable pub recorded_answer : OrderRow → Db → StartResult
recorded_answer existing db = record {
  accepted = not (existing.fulfillment_status == FulfillmentStatus.fulfillment_blocked);
  fulfillment_status = existing.fulfillment_status;
  rental_id = Option.map (λ r. r.id) (first (λ r. r.order_id == existing.id) db.rentals);
}

unfoldable pub find_order : ℕ → Db → Option OrderRow
find_order funpay_order_id db = first (λ o. o.funpay_order_id == funpay_order_id) db.orders

unfoldable pub first_available : Db → Option AccountRow
first_available db = first_by (λ a. a.code) (λ a. a.status == AccountStatus.available) db.accounts

new_order : ℕ → OrderInput → Option ℕ → FulfillmentStatus → ℕ → OrderRow
new_order new_id order account_id status now = record {
  id = new_id;
  funpay_order_id = order.funpay_order_id;
  buyer_id = order.buyer_id;
  tariff_code = order.tariff_code;
  duration_seconds = order.duration_seconds;
  account_id = account_id;
  fulfillment_status = status;
  received_at = now;
}

-- the branch `account is None`
unfoldable pub block_order : Attempt → OrderInput → ℕ → Tx StartResult
unfolding new_order
block_order a order now = do
  insert_order (new_order a.order_id order none FulfillmentStatus.fulfillment_blocked now)
  audit AuditType.fulfillment_blocked none none (Correlation.of_id order.funpay_order_id) now
  pure (record {
    accepted = false;
    fulfillment_status = FulfillmentStatus.fulfillment_blocked;
    rental_id = none;
  })

-- `except StateConflictError: raise OperationalError(...)`
unfoldable pub or_operational : {A : Type 0} → Tx A → Tx A
or_operational m db = elim (m db) [
  | ok r ↦ ok r
  | err e ↦ elim e [ state_conflict ↦ err operational | other ↦ err other ]
]

unfoldable pub reserve_account : Attempt → OrderInput → AccountRow → ℕ → Tx StartResult
unfolding new_order or_operational
reserve_account a order account now = do
  held ← or_operational (transition_row account AccountStatus.reserved now)
  insert_order (new_order a.order_id order (some account.id) FulfillmentStatus.pending now)
  insert_rental (record {
    id = a.rental_id;
    order_id = a.order_id;
    buyer_id = order.buyer_id;
    account_id = account.id;
    tariff_code = order.tariff_code;
    started_at = none;
    expires_at = now;
    status = RentalStatus.reserved;
    credential_version = account.credential_version;
    created_at = now;
    updated_at = now;
  })
  add_operation a.operation_id OperationKind.disable_lots account.id a.rental_id now
  audit AuditType.rental_created (some account.id) (some a.rental_id)
      (Correlation.of_id order.funpay_order_id) now
  pure (record {
    accepted = true;
    fulfillment_status = FulfillmentStatus.pending;
    rental_id = some a.rental_id;
  })

-- `_reserve_order_once`
unfoldable pub reserve_order_once : Attempt → OrderInput → ℕ → Tx StartResult
reserve_order_once a order now = do
  existing ← query (find_order order.funpay_order_id)
  account ← query first_available
  elim existing [
    | some o ↦ query (recorded_answer o)
    | none ↦ elim account [
      | none ↦ block_order a order now
      | some free ↦ reserve_account a order free now
    ]
  ]

-- `except (IntegrityError, OperationalError)`
abbrev pub is_retried : Error → Bool
is_retried integrity = true
is_retried operational = true
is_retried _ = false

-- what a `session.begin()` block leaves behind
abbrev pub commit : {A : Type 0} → Result (A × Db) → Db → Result A × Db
commit (ok (a, db')) db = (ok a, db')
commit (err e) db = (err e, db)

unfoldable pub try_once : Attempt → OrderInput → ℕ → Tx StartResult
try_once a order now db =
    if a.is_refused then err operational else reserve_order_once a order now db

unfoldable pub reserve_attempts : ℕ → (ℕ → Attempt) → OrderInput → ℕ → Db → Result StartResult × Db
reserve_attempts zero attempts order now db = (err runtime, db)
reserve_attempts (suc left) attempts order now db =
    let a = attempts 0 in
    let seen = a.others db in
    let again = reserve_attempts left (λ n. attempts (suc n)) order now seen in
    elim (try_once a order now db) [
      | ok (answer, db') ↦ (ok answer, db')
      | err e ↦
          if is_retried e
          then elim (find_order order.funpay_order_id seen) [
            | some existing ↦ (ok (recorded_answer existing seen), seen)
            | none ↦ again
          ]
          else (err e, db)
    ]

-- `for attempt in range(5)`
unfoldable pub reserve_order : (ℕ → Attempt) → OrderInput → ℕ → Db → Result StartResult × Db
unfolding reserve_attempts
reserve_order attempts order now db = reserve_attempts 5 attempts order now db
