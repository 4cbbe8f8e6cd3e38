-- ===== src/Persistence/Reserved.antt =====
-- What the reservation of an order leaves behind.
use mathlib.Core.Option
use war_thunder_rent_bot.Prelude.{
  Bool-cases, inl, inr, Bool, true, false, if◌then◌else◌, ℕ, ◌≡◌, ◌≢◌, refl, Option, none, some,
  List, [], ◌∷◌, not, ◌==◌, arith, nat_beq_iff, nat_eq,
}
use war_thunder_rent_bot.Domain.States.{
  AccountStatus, RentalStatus, OperationKind, OperationStatus, FulfillmentStatus, account_eq,
  fulfillment_eq,
}
use war_thunder_rent_bot.Domain.Models.{OrderInput, StartResult}
use war_thunder_rent_bot.Table.{first}
use war_thunder_rent_bot.Table.Laws.{get-append}
use war_thunder_rent_bot.Persistence.Rows.{OrderRow, AccountRow, OrderRow, RentalRow, OperationRow}
use war_thunder_rent_bot.Persistence.Session.{
  Db, Tx, ok, query, account_of, rental_of, operation_of,
}
use war_thunder_rent_bot.Persistence.Session.Laws.{HasKeys, account_of-with_account_self}
use war_thunder_rent_bot.Persistence.Session.Post.{Post, Post-ok, returns}
use war_thunder_rent_bot.Persistence.Booking.Reservation.{
  seq_held, seq_insert_order, seq_insert_rental, chosen,
}
use war_thunder_rent_bot.Persistence.Repository.Internal.Laws.{moved, new_operation}
use war_thunder_rent_bot.Persistence.Repository.Internal.Rules.{seq_audit, seq_add_operation}
use war_thunder_rent_bot.Persistence.Repository.Reservation.{
  Attempt, reserve_order, try_once, reserve_attempts, block_order, reserve_account,
  reserve_order_once, recorded_answer, first_available, find_order,
}

-- An accepted reservation: the account that was chosen, and the rows that stand for it.
pub record Accepted (t : Attempt) (order : OrderInput) (db : Db) (answer : StartResult) (d : Db)
    : Type 0 where
  pub account : AccountRow
  pub rental : RentalRow
  pub operation : OperationRow
  pub was_first : first_available db ≡ some account
  pub told : answer.rental_id ≡ some t.rental_id
  pub held :
      account_of d account.id ≡ some (moved account AccountStatus.reserved operation.created_at)
  pub stored : rental_of d t.rental_id ≡ some rental
  pub reserved : rental.status ≡ RentalStatus.reserved
  pub of_account : rental.account_id ≡ account.id
  pub of_buyer : rental.buyer_id ≡ order.buyer_id
  pub queued : operation_of d t.operation_id ≡ some operation
  pub disables : operation.kind ≡ OperationKind.disable_lots
  pub pending : operation.status ≡ OperationStatus.pending
  pub of_rental : operation.rental_id ≡ some t.rental_id

abbrev pub Outcome : Attempt → OrderInput → Db → StartResult → Db → Type 0
Outcome t order db answer d =
    (answer.accepted ≡ true → Accepted t order db answer d)
    × (answer.accepted ≡ false
        → (first_available db ≡ none)
          × (d.accounts ≡ db.accounts)
          × (d.rentals ≡ db.rentals)
          × (d.operations ≡ db.operations))

module _ (t : Attempt) (order : OrderInput) (now : ℕ) (db : Db) (k : HasKeys db) where
  abbrev new_rental : AccountRow → RentalRow
  new_rental a = record {
    id = t.rental_id;
    order_id = t.order_id;
    buyer_id = order.buyer_id;
    account_id = a.id;
    tariff_code = order.tariff_code;
    started_at = none;
    expires_at = now;
    status = RentalStatus.reserved;
    credential_version = a.credential_version;
    created_at = now;
    updated_at = now;
  }

  reserve_account-Outcome :
      (a : AccountRow)
      → account_of db a.id ≡ some a
      → a.status ≡ AccountStatus.available
      → first_available db ≡ some a
      → Post (Outcome t order db) (reserve_account t order a now db)
  unfolding reserve_account
  reserve_account-Outcome a found free first = seq_held now db k a found free _ (
      seq_insert_order _ _ _ λ fresh_order. seq_insert_rental _ _ _ λ fresh.
        seq_add_operation _ _ _ a.id t.rental_id now _ λ fresh_op known. seq_audit _ _ _ _ _ now _ (
          returns (
            λ yes. record {
              account = a;
              rental = new_rental a;
              operation =
                  new_operation t.operation_id OperationKind.disable_lots a.id t.rental_id now;
              was_first = first;
              told = refl;
              held =
                  account_of-with_account_self (moved a AccountStatus.reserved now) db refl found;
              stored = ground (
                arith,
                get-append (λ q. q.id) t.rental_id db.rentals (new_rental a) fresh,
                nat_beq_iff t.rental_id t.rental_id,
              );
              reserved = refl;
              of_account = refl;
              of_buyer = refl;
              queued = ground (
                arith,
                get-append (λ q. q.id) t.operation_id db.operations
                    (new_operation t.operation_id OperationKind.disable_lots a.id t.rental_id now)
                    fresh_op,
                nat_beq_iff t.operation_id t.operation_id,
              );
              disables = refl;
              pending = refl;
              of_rental = refl;
            },
            λ no. cc,
          )))

  block_order-Outcome :
      first_available db ≡ none → Post (Outcome t order db) (block_order t order now db)
  unfolding block_order
  block_order-Outcome nobody =
      seq_insert_order _ _ _
        λ fresh. seq_audit _ _ _ _ _ now _ (returns (λ yes. cc, λ no. (nobody, refl, refl, refl)))

  -- The answer to an order that the database does not hold.
  answer-Outcome :
      (account : Option AccountRow)
      → first_available db ≡ account
      → Post (Outcome t order db) (
          (elim account as (λ _. Tx StartResult) [
            | none ↦ block_order t order now
            | some a ↦ reserve_account t order a now
          ])
            db)
  answer-Outcome none nobody = block_order-Outcome nobody
  answer-Outcome (some a) found =
      let h = chosen db k a found in reserve_account-Outcome a h.0 h.1 found

  once-Outcome :
      find_order order.funpay_order_id db ≡ none
      → Post (Outcome t order db) (reserve_order_once t order now db)
  unfolding reserve_order_once
  once-Outcome new = from_search (find_order order.funpay_order_id db) new
    where
      from_search :
          (existing : Option OrderRow)
          → existing ≡ none
          → Post (Outcome t order db) (
              (elim existing as (λ _. Tx StartResult) [
                | some o ↦ query (recorded_answer o)
                | none ↦ elim (first_available db) as (λ _. Tx StartResult) [
                  | none ↦ block_order t order now
                  | some a ↦ reserve_account t order a now
                ]
              ])
                db)
      from_search none e = answer-Outcome (first_available db) refl
      from_search (some o) e = absurd cc

-- A reservation of an order that the database does not hold, where keys are unique. If it is
-- accepted, the account that the search for an available one found is RESERVED, one version on, and the answer
-- names a stored RESERVED rental of the buyer on that account, for which a pending DISABLE_LOTS
-- operation is stored. If it is refused, no account is available, and accounts, rentals and
-- operations are as they were.
pub reserve_order_once_lem :
    (t : Attempt) (order : OrderInput) (now : ℕ) (db : Db)
    → HasKeys db
    → find_order order.funpay_order_id db ≡ none
    → (answer : StartResult) (db' : Db) → reserve_order_once t order now db ≡ ok (answer, db')
    → Outcome t order db answer db'
reserve_order_once_lem t order now db k new answer db' h =
    Post-ok (once-Outcome t order now db k new) h

-- An order that is recorded is answered from its row, and the transaction changes nothing.
recorded_once :
    (t : Attempt) (order : OrderInput) (now : ℕ) (db : Db) (o : OrderRow)
    → find_order order.funpay_order_id db ≡ some o
    → reserve_order_once t order now db ≡ ok (recorded_answer o db, db)
unfolding reserve_order_once
recorded_once t order now db o found = ground (arith, found)

-- The database that the first attempt reads at last: its own, or the one that the other processes
-- left while it slept after SQLite had refused it.
abbrev pub first_view : Attempt → Db → Db
first_view t db = if t.is_refused then t.others db else db

-- The rental of an order, as the first of the rows that name it.
pub data RentalOf (order_id : ℕ) : List RentalRow → Option ℕ → Type 0 where
  nowhere : RentalOf order_id [] none
  here :
      {r : RentalRow} {rs : List RentalRow}
      → r.order_id ≡ order_id
      → RentalOf order_id (r ∷ rs) (some r.id)
  later :
      {r : RentalRow} {rs : List RentalRow} {found : Option ℕ}
      → r.order_id ≢ order_id
      → RentalOf order_id rs found
      → RentalOf order_id (r ∷ rs) found

first_rental :
    (i : ℕ) (rs : List RentalRow)
    → RentalOf i rs (Option.map (λ r. r.id) (first (λ r. r.order_id == i) rs))
unfolding first
first_rental i [] = RentalOf.nowhere
first_rental i (r ∷ rs) = next (r.order_id == i) refl (first_rental i rs)
  where
    next :
        (b : Bool)
        → (r.order_id == i) ≡ b
        → RentalOf i rs (Option.map (λ r. r.id) (first (λ r. r.order_id == i) rs))
        → RentalOf i
            (r ∷ rs)
            (Option.map (λ r. r.id) (if b then some r else first (λ r. r.order_id == i) rs))
    next true e h = RentalOf.here (ground (arith, e, nat_beq_iff r.order_id i))
    next false e h = RentalOf.later (λ x. ground (arith, e, x, nat_beq_iff r.order_id i)) h

-- What a caller is told of an order that is on record: accepted unless it is blocked.
pub record Told (o : OrderRow) (d : Db) (answer : StartResult) : Type 0 where
  pub yes : o.fulfillment_status ≢ FulfillmentStatus.fulfillment_blocked → answer.accepted ≡ true
  pub no : o.fulfillment_status ≡ FulfillmentStatus.fulfillment_blocked → answer.accepted ≡ false
  pub same_status : answer.fulfillment_status ≡ o.fulfillment_status
  pub same_rental : RentalOf o.id d.rentals answer.rental_id

not_blocked :
    (t : FulfillmentStatus)
    → t ≢ FulfillmentStatus.fulfillment_blocked
    → not (t == FulfillmentStatus.fulfillment_blocked) ≡ true
not_blocked FulfillmentStatus.pending h = refl
not_blocked FulfillmentStatus.activated h = refl
not_blocked FulfillmentStatus.fulfillment_blocked h = absurd (h refl)

blocked :
    (t : FulfillmentStatus)
    → t ≡ FulfillmentStatus.fulfillment_blocked
    → not (t == FulfillmentStatus.fulfillment_blocked) ≡ false
blocked FulfillmentStatus.pending h = absurd cc
blocked FulfillmentStatus.activated h = absurd cc
blocked FulfillmentStatus.fulfillment_blocked h = refl

recorded_answer-Told : (o : OrderRow) (d : Db) → Told o d (recorded_answer o d)
unfolding recorded_answer
recorded_answer-Told o d = record {
  yes = not_blocked o.fulfillment_status;
  no = blocked o.fulfillment_status;
  same_status = refl;
  same_rental = first_rental o.id d.rentals;
}

-- An order that another call has recorded, before this one or while its first attempt was refused
-- and slept, is not accepted a second time: the database is left as it is, and the answer says
-- whether the recorded order is blocked, its status, and its rental, if it has one.
pub reserve_order_recorded :
    (attempts : ℕ → Attempt) (order : OrderInput) (now : ℕ) (db : Db) (o : OrderRow)
    → find_order order.funpay_order_id (first_view (attempts 0) db) ≡ some o
    → (answer : StartResult) × (reserve_order attempts order now db
        ≡ (ok answer, first_view (attempts 0) db))
      × Told o (first_view (attempts 0) db) answer
unfolding reserve_order try_once reserve_attempts
reserve_order_recorded attempts order now db o found =
    let seen = first_view (attempts 0) db in
    (
      recorded_answer o seen,
      elim (Bool-cases (attempts 0).is_refused) [
        | inl busy ↦ ground (arith, busy, found)
        | inr free ↦ ground (arith, free, found, recorded_once (attempts 0) order now db o)
      ],
      recorded_answer-Told o seen,
    )
