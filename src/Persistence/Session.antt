-- ===== src/Persistence/Session.antt =====
-- The database, its constraints, and a SQLAlchemy session in a `session.begin()` block: an action
-- that raises is rolled back, so an action has a new database only beside a result.
pub mod Laws
pub mod Post
use war_thunder_rent_bot.Prelude.{
  ℕ, Bool, true, false, ◌&&◌, ◌||◌, not, Option, none, some, List, [], ◌∷◌, ◌++◌, nat_beq, ◌==◌,
  is_none, if◌then◌else◌, nat_eq,
}
use war_thunder_rent_bot.Table.{update, rowcount, first, get, save, where_key}
use war_thunder_rent_bot.Persistence.Rows.{
  AccountRow, OrderRow, RentalRow, OperationRow, AuditEventRow, ClassifiedEmailEventRow,
  OtpRequestRow, ProcessedMessageRow, FunPayEventRow, MessageReceiptRow, SecurityEventRow,
  AccountLotRow, same_audit, idempotency_eq,
}

-- `IntegrityError`, `OperationalError`, `StateConflictError`, `ValueError`, a failed `assert`,
-- `RuntimeError`, and what a port to the outside raises.
pub data Error : Type 0 where
  integrity operational state_conflict value assertion runtime port : Error

pub data Result {ℓ} (A : Type ℓ) : Type ℓ where
  ok : A → Result A
  err : Error → Result A

pub record Db : Type 0 where
  pub accounts : List AccountRow
  pub lots : List AccountLotRow
  pub orders : List OrderRow
  pub rentals : List RentalRow
  pub operations : List OperationRow
  pub audit_events : List AuditEventRow
  pub security_events : List SecurityEventRow
  pub emails : List ClassifiedEmailEventRow
  pub otp_requests : List OtpRequestRow
  pub processed_messages : List ProcessedMessageRow
  pub funpay_events : List FunPayEventRow
  pub message_receipts : List MessageReceiptRow

abbrev pub Tx : Type 0 → Type 0
Tx A = Db → Result (A × Db)

infixl 5 ◌>>=◌ ◌>>◌
abbrev pub ◌>>=◌ : {A B : Type 0} → Tx A → (A → Tx B) → Tx B
◌>>=◌ m f db = elim (m db) [ ok (a, db') ↦ f a db' | err e ↦ err e ]

abbrev pub ◌>>◌ : {B : Type 0} → Tx (Unit {0}) → Tx B → Tx B
m >> k = m >>= λ _. k

abbrev pub pure : {A : Type 0} → A → Tx A
pure a db = ok (a, db)

abbrev pub raise : {A : Type 0} → Error → Tx A
raise e db = err e

abbrev pub query : {A : Type 0} → (Db → A) → Tx A
query f db = ok (f db, db)

abbrev pub require : Bool → Error → Tx (Unit {0})
require true e = pure tt
require false e = raise e

-- `assert row is not None`
abbrev pub require_some : {A : Type 0} → Option A → Error → Tx A
require_some (some a) e = pure a
require_some none e = raise e

abbrev pub one_hit : ℕ → Bool
one_hit n = nat_beq n 1

-- `UPDATE ... WHERE id = i AND p`, and whether `rowcount == 1`
unfoldable pub cas_account : ℕ → (AccountRow → Bool) → (AccountRow → AccountRow) → Tx Bool
cas_account i p f db =
    let hit = where_key (λ r. r.id) i p in
    ok (one_hit (rowcount hit db.accounts), record db { accounts = update hit f db.accounts })

unfoldable pub cas_rental : ℕ → (RentalRow → Bool) → (RentalRow → RentalRow) → Tx Bool
cas_rental i p f db =
    let hit = where_key (λ r. r.id) i p in
    ok (one_hit (rowcount hit db.rentals), record db { rentals = update hit f db.rentals })

unfoldable pub cas_operation : ℕ → (OperationRow → Bool) → (OperationRow → OperationRow) → Tx Bool
cas_operation i p f db =
    let hit = where_key (λ r. r.id) i p in
    ok (one_hit (rowcount hit db.operations), record db { operations = update hit f db.operations })

unfoldable pub cas_email :
    ℕ
    → (ClassifiedEmailEventRow → Bool)
    → (ClassifiedEmailEventRow → ClassifiedEmailEventRow)
    → Tx Bool
cas_email i p f db =
    let hit = where_key (λ r. r.id) i p in
    ok (one_hit (rowcount hit db.emails), record db { emails = update hit f db.emails })

-- session.get(Row, i)
abbrev pub account_of : Db → ℕ → Option AccountRow
account_of db i = get (λ r. r.id) i db.accounts

abbrev pub rental_of : Db → ℕ → Option RentalRow
rental_of db i = get (λ r. r.id) i db.rentals

abbrev pub order_of : Db → ℕ → Option OrderRow
order_of db i = get (λ r. r.id) i db.orders

abbrev pub operation_of : Db → ℕ → Option OperationRow
operation_of db i = get (λ r. r.id) i db.operations

abbrev pub email_of : Db → ℕ → Option ClassifiedEmailEventRow
email_of db i = get (λ r. r.id) i db.emails

-- `session.get(Row, i) if i else None`
abbrev pub optional {ℓ} : {A : Type ℓ} → (ℕ → Option A) → Option ℕ → Option A
optional f none = none
optional f (some i) = f i

-- The flush of an object whose attributes were assigned.
unfoldable pub save_account : AccountRow → Tx (Unit {0})
save_account r db = ok (tt, record db { accounts = save (λ r. r.id) r db.accounts })

unfoldable pub save_rental : RentalRow → Tx (Unit {0})
save_rental r db = ok (tt, record db { rentals = save (λ r. r.id) r db.rentals })

unfoldable pub save_order : OrderRow → Tx (Unit {0})
save_order r db = ok (tt, record db { orders = save (λ r. r.id) r db.orders })

abbrev absent {ℓ} : {A : Type ℓ} → Option A → Bool
absent o = is_none o

abbrev present {ℓ} : {A : Type ℓ} → Option A → Bool
present o = not (is_none o)

-- a nullable foreign key
abbrev pub references {ℓ} : {A : Type ℓ} → (ℕ → Option A) → Option ℕ → Bool
references f none = true
references f (some i) = not (is_none (f i))

-- session.add(row) with its flush: PRIMARY KEY, UNIQUE and FOREIGN KEY constraints.
unfoldable pub insert_account : AccountRow → Tx (Unit {0})
insert_account r db =
    if absent (account_of db r.id) && absent (first (λ s. s.code == r.code) db.accounts)
    then ok (tt, record db { accounts = db.accounts ++ r ∷ [] })
    else err integrity

unfoldable pub insert_lot : AccountLotRow → Tx (Unit {0})
insert_lot r db =
    if present (account_of db r.account_id)
      && absent (get (λ s. s.id) r.id db.lots)
      && absent (first (λ s. s.external_lot_id == r.external_lot_id) db.lots)
    then ok (tt, record db { lots = db.lots ++ r ∷ [] })
    else err integrity

unfoldable pub insert_order : OrderRow → Tx (Unit {0})
insert_order r db =
    if absent (order_of db r.id)
      && absent (first (λ s. s.funpay_order_id == r.funpay_order_id) db.orders)
      && references (account_of db) r.account_id
    then ok (tt, record db { orders = db.orders ++ r ∷ [] })
    else err integrity

unfoldable pub insert_rental : RentalRow → Tx (Unit {0})
insert_rental r db =
    if absent (rental_of db r.id)
      && absent (first (λ s. s.order_id == r.order_id) db.rentals)
      && present (order_of db r.order_id)
      && present (account_of db r.account_id)
    then ok (tt, record db { rentals = db.rentals ++ r ∷ [] })
    else err integrity

unfoldable pub insert_operation : OperationRow → Tx (Unit {0})
insert_operation r db =
    if absent (operation_of db r.id)
      && absent (first (λ s. s.idempotency_key == r.idempotency_key) db.operations)
      && present (account_of db r.account_id)
      && references (rental_of db) r.rental_id
      && references (order_of db) r.order_id
    then ok (tt, record db { operations = db.operations ++ r ∷ [] })
    else err integrity

unfoldable pub insert_audit : AuditEventRow → Tx (Unit {0})
insert_audit r db =
    if absent (first (same_audit r) db.audit_events)
    then ok (tt, record db { audit_events = db.audit_events ++ r ∷ [] })
    else err integrity

unfoldable pub insert_security_event : SecurityEventRow → Tx (Unit {0})
insert_security_event r db =
    if present (account_of db r.account_id) && references (rental_of db) r.rental_id
    then ok (tt, record db { security_events = db.security_events ++ r ∷ [] })
    else err integrity
