-- ===== src/Persistence/Session/Laws.antt =====
-- What a conditional update and a flush do to a database whose primary keys are unique.
use war_thunder_rent_bot.Prelude.{
  ℕ, ◌≡◌, refl, Bool, true, false, some, nat_beq, if◌then◌else◌, ◌⊎◌, inl, inr, Bool-cases,
  Option-cases, ap, ◌∙◌, arith, nat_beq_iff,
}
use war_thunder_rent_bot.Table.{save, HasUniqueKeys}
use war_thunder_rent_bot.Table.Laws.{
  holds, key-get, rowcount-where_key, update-eq-save, update_miss, get-save_at, save-HasUniqueKeys,
}
use war_thunder_rent_bot.Persistence.Rows.{AccountRow, OrderRow, RentalRow, OperationRow}
use war_thunder_rent_bot.Persistence.Session.{
  Db, ok, cas_account, cas_rental, cas_operation, account_of, order_of, rental_of, operation_of,
}

-- The PRIMARY KEY constraint of the tables that are read by key.
pub record HasKeys (db : Db) : Type 0 where
  pub accounts : HasUniqueKeys (λ r. r.id) db.accounts
  pub orders : HasUniqueKeys (λ r. r.id) db.orders
  pub rentals : HasUniqueKeys (λ r. r.id) db.rentals
  pub operations : HasUniqueKeys (λ r. r.id) db.operations

-- The database after the flush of one account.
abbrev pub with_account : AccountRow → Db → Db
with_account r db = record db { accounts = save (λ s. s.id) r db.accounts }

pub account_of-with_account :
    (r : AccountRow) (db : Db) {i : ℕ} {s : AccountRow}
    → r.id ≡ i
    → account_of db i ≡ some s
    → (j : ℕ) → account_of (with_account r db) j ≡ (if nat_beq i j then some r else account_of db j)
account_of-with_account r db e h j = get-save_at (λ s. s.id) r e j db.accounts h

pub account_of-with_account_self :
    (r : AccountRow) (db : Db) {i : ℕ} {s : AccountRow}
    → r.id ≡ i
    → account_of db i ≡ some s
    → account_of (with_account r db) i ≡ some r
account_of-with_account_self r db {i} e h =
    account_of-with_account r db e h i ∙ ground (arith, nat_beq_iff i i)

pub HasKeys-with_account : (r : AccountRow) (db : Db) → HasKeys db → HasKeys (with_account r db)
HasKeys-with_account r db k = record {
  accounts = save-HasUniqueKeys (λ s. s.id) r db.accounts k.accounts;
  rentals = k.rentals;
  operations = k.operations;
  orders = k.orders;
}

-- The database after the flush of one rental.
abbrev pub with_rental : RentalRow → Db → Db
with_rental r db = record db { rentals = save (λ s. s.id) r db.rentals }

pub rental_of-with_rental :
    (r : RentalRow) (db : Db) {i : ℕ} {s : RentalRow}
    → r.id ≡ i
    → rental_of db i ≡ some s
    → (j : ℕ) → rental_of (with_rental r db) j ≡ (if nat_beq i j then some r else rental_of db j)
rental_of-with_rental r db e h j = get-save_at (λ s. s.id) r e j db.rentals h

pub rental_of-with_rental_self :
    (r : RentalRow) (db : Db) {i : ℕ} {s : RentalRow}
    → r.id ≡ i
    → rental_of db i ≡ some s
    → rental_of (with_rental r db) i ≡ some r
rental_of-with_rental_self r db {i} e h =
    rental_of-with_rental r db e h i ∙ ground (arith, nat_beq_iff i i)

pub HasKeys-with_rental : (r : RentalRow) (db : Db) → HasKeys db → HasKeys (with_rental r db)
HasKeys-with_rental r db k = record {
  accounts = k.accounts;
  rentals = save-HasUniqueKeys (λ s. s.id) r db.rentals k.rentals;
  operations = k.operations;
  orders = k.orders;
}

-- The database after the flush of one operation.
abbrev pub with_operation : OperationRow → Db → Db
with_operation r db = record db { operations = save (λ s. s.id) r db.operations }

pub operation_of-with_operation :
    (r : OperationRow) (db : Db) {i : ℕ} {s : OperationRow}
    → r.id ≡ i
    → operation_of db i ≡ some s
    → (j : ℕ)
    → operation_of (with_operation r db) j ≡ (if nat_beq i j then some r else operation_of db j)
operation_of-with_operation r db e h j = get-save_at (λ s. s.id) r e j db.operations h

pub operation_of-with_operation_self :
    (r : OperationRow) (db : Db) {i : ℕ} {s : OperationRow}
    → r.id ≡ i
    → operation_of db i ≡ some s
    → operation_of (with_operation r db) i ≡ some r
operation_of-with_operation_self r db {i} e h =
    operation_of-with_operation r db e h i ∙ ground (arith, nat_beq_iff i i)

pub HasKeys-with_operation :
    (r : OperationRow) (db : Db) → HasKeys db → HasKeys (with_operation r db)
HasKeys-with_operation r db k = record {
  accounts = k.accounts;
  rentals = k.rentals;
  operations = save-HasUniqueKeys (λ s. s.id) r db.operations k.operations;
  orders = k.orders;
}

-- The database after the flush of one order.
abbrev pub with_order : OrderRow → Db → Db
with_order r db = record db { orders = save (λ s. s.id) r db.orders }

pub order_of-with_order :
    (r : OrderRow) (db : Db) {i : ℕ} {s : OrderRow}
    → r.id ≡ i
    → order_of db i ≡ some s
    → (j : ℕ) → order_of (with_order r db) j ≡ (if nat_beq i j then some r else order_of db j)
order_of-with_order r db e h j = get-save_at (λ s. s.id) r e j db.orders h

pub order_of-with_order_self :
    (r : OrderRow) (db : Db) {i : ℕ} {s : OrderRow}
    → r.id ≡ i
    → order_of db i ≡ some s
    → order_of (with_order r db) i ≡ some r
order_of-with_order_self r db {i} e h =
    order_of-with_order r db e h i ∙ ground (arith, nat_beq_iff i i)

pub HasKeys-with_order : (r : OrderRow) (db : Db) → HasKeys db → HasKeys (with_order r db)
HasKeys-with_order r db k = record {
  accounts = k.accounts;
  rentals = k.rentals;
  operations = k.operations;
  orders = save-HasUniqueKeys (λ s. s.id) r db.orders k.orders;
}

module _ (i : ℕ) (p : AccountRow → Bool) (f : AccountRow → AccountRow) (db : Db)
    (k : HasKeys db) where
  pub cas_account_hit :
      (r : AccountRow)
      → account_of db i ≡ some r
      → p r ≡ true
      → (f r).id ≡ r.id
      → cas_account i p f db ≡ ok (true, with_account (f r) db)
  unfolding cas_account
  cas_account_hit r h e same =
      rw
        (
          update-eq-save (λ s. s.id) i p f db.accounts {r = r} k.accounts h e same,
          rowcount-where_key (λ s. s.id) i p db.accounts (k.accounts i),
        )
        (rw h (rw e refl))

  pub cas_account_miss : holds p (account_of db i) ≡ false → cas_account i p f db ≡ ok (false, db)
  unfolding cas_account
  cas_account_miss h =
      rw
        (
          update_miss (λ s. s.id) i p f db.accounts (k.accounts i) h,
          rowcount-where_key (λ s. s.id) i p db.accounts (k.accounts i),
        )
        (rw h refl)

  -- A conditional update by primary key saves one row, or finds none to change.
  pub cas_account_cases :
      ((r : AccountRow) → (f r).id ≡ r.id)
      → ((r : AccountRow) × (account_of db i ≡ some r)
          × (p r ≡ true)
          × (r.id ≡ i)
          × (cas_account i p f db ≡ ok (true, with_account (f r) db)))
        ⊎ ((holds p (account_of db i) ≡ false) × (cas_account i p f db ≡ ok (false, db)))
  cas_account_cases same = elim (Option-cases (account_of db i)) [
    | inl gone ↦ let miss = ap (holds p) gone in inr (miss, cas_account_miss miss)
    | inr (r, found) ↦ elim (Bool-cases (p r)) [
      | inl e ↦
          inl (
            r,
            found,
            e,
            key-get (λ s. s.id) i db.accounts found,
            cas_account_hit r found e (same r),
          )
      | inr e ↦ let miss = ap (holds p) found ∙ e in inr (miss, cas_account_miss miss)
    ]
  ]

module _ (i : ℕ) (p : RentalRow → Bool) (f : RentalRow → RentalRow) (db : Db) (k : HasKeys db) where
  pub cas_rental_hit :
      (r : RentalRow)
      → rental_of db i ≡ some r
      → p r ≡ true
      → (f r).id ≡ r.id
      → cas_rental i p f db ≡ ok (true, with_rental (f r) db)
  unfolding cas_rental
  cas_rental_hit r h e same =
      rw
        (
          update-eq-save (λ s. s.id) i p f db.rentals {r = r} k.rentals h e same,
          rowcount-where_key (λ s. s.id) i p db.rentals (k.rentals i),
        )
        (rw h (rw e refl))

  pub cas_rental_miss : holds p (rental_of db i) ≡ false → cas_rental i p f db ≡ ok (false, db)
  unfolding cas_rental
  cas_rental_miss h =
      rw
        (
          update_miss (λ s. s.id) i p f db.rentals (k.rentals i) h,
          rowcount-where_key (λ s. s.id) i p db.rentals (k.rentals i),
        )
        (rw h refl)

  -- A conditional update by primary key saves one row, or finds none to change.
  pub cas_rental_cases :
      ((r : RentalRow) → (f r).id ≡ r.id)
      → ((r : RentalRow) × (rental_of db i ≡ some r)
          × (p r ≡ true)
          × (r.id ≡ i)
          × (cas_rental i p f db ≡ ok (true, with_rental (f r) db)))
        ⊎ ((holds p (rental_of db i) ≡ false) × (cas_rental i p f db ≡ ok (false, db)))
  cas_rental_cases same = elim (Option-cases (rental_of db i)) [
    | inl gone ↦ let miss = ap (holds p) gone in inr (miss, cas_rental_miss miss)
    | inr (r, found) ↦ elim (Bool-cases (p r)) [
      | inl e ↦
          inl
            (r, found, e, key-get (λ s. s.id) i db.rentals found, cas_rental_hit r found e (same r))
      | inr e ↦ let miss = ap (holds p) found ∙ e in inr (miss, cas_rental_miss miss)
    ]
  ]

module _ (i : ℕ) (p : OperationRow → Bool) (f : OperationRow → OperationRow) (db : Db)
    (k : HasKeys db) where
  pub cas_operation_hit :
      (r : OperationRow)
      → operation_of db i ≡ some r
      → p r ≡ true
      → (f r).id ≡ r.id
      → cas_operation i p f db ≡ ok (true, with_operation (f r) db)
  unfolding cas_operation
  cas_operation_hit r h e same =
      rw
        (
          update-eq-save (λ s. s.id) i p f db.operations {r = r} k.operations h e same,
          rowcount-where_key (λ s. s.id) i p db.operations (k.operations i),
        )
        (rw h (rw e refl))

  pub cas_operation_miss :
      holds p (operation_of db i) ≡ false → cas_operation i p f db ≡ ok (false, db)
  unfolding cas_operation
  cas_operation_miss h =
      rw
        (
          update_miss (λ s. s.id) i p f db.operations (k.operations i) h,
          rowcount-where_key (λ s. s.id) i p db.operations (k.operations i),
        )
        (rw h refl)

  -- A conditional update by primary key saves one row, or finds none to change.
  pub cas_operation_cases :
      ((r : OperationRow) → (f r).id ≡ r.id)
      → ((r : OperationRow) × (operation_of db i ≡ some r)
          × (p r ≡ true)
          × (r.id ≡ i)
          × (cas_operation i p f db ≡ ok (true, with_operation (f r) db)))
        ⊎ ((holds p (operation_of db i) ≡ false) × (cas_operation i p f db ≡ ok (false, db)))
  cas_operation_cases same = elim (Option-cases (operation_of db i)) [
    | inl gone ↦ let miss = ap (holds p) gone in inr (miss, cas_operation_miss miss)
    | inr (r, found) ↦ elim (Bool-cases (p r)) [
      | inl e ↦ inl (
        r,
        found,
        e,
        key-get (λ s. s.id) i db.operations found,
        cas_operation_hit r found e (same r),
      )
      | inr e ↦ let miss = ap (holds p) found ∙ e in inr (miss, cas_operation_miss miss)
    ]
  ]

-- What a conditional update that hit tells.
module _ (i : ℕ) (p : OperationRow → Bool) (f : OperationRow → OperationRow) (db : Db)
    (k : HasKeys db) where
  pub cas_operation-true :
      ((r : OperationRow) → (f r).id ≡ r.id)
      → {db' : Db} → cas_operation i p f db ≡ ok (true, db')
      → (r : OperationRow) × (operation_of db i ≡ some r)
        × (p r ≡ true)
        × (db' ≡ with_operation (f r) db)
        × (operation_of db' i ≡ some (f r))
        × HasKeys db'
  cas_operation-true same {db'} h = elim (cas_operation_cases i p f db k same) [
    | inl (r, found, e, id, eq) ↦
        let saved : db' ≡ with_operation (f r) db = ground (arith, h, eq) in
        (
          r,
          found,
          e,
          saved,
          rw saved (
              operation_of-with_operation (f r) db (same r ∙ id) found i
              ∙ ground (arith, nat_beq_iff i i)),
          rw saved (HasKeys-with_operation (f r) db k),
        )
    | inr (miss, eq) ↦ absurd (ground (arith, h, eq))
  ]
