-- ===== src/Persistence/Booking/Reservation.antt =====
-- A reservation gives a free account to one rental, and to no other.
use war_thunder_rent_bot.Prelude.{
  ℕ, ◌≡◌, ◌∙◌, refl, Option, none, some, [], ◌∷◌, ◌++◌, ◌⊎◌, arith, inl, inr, Option-cases,
  nat_beq_iff, ◌==◌, nat_eq,
}
use war_thunder_rent_bot.Domain.States.{AccountStatus, account_eq, account_beq_iff}
use war_thunder_rent_bot.Domain.Models.{OrderInput, StartResult}
use war_thunder_rent_bot.Table.Laws.{
  append-HasUniqueKeys, tally-append, get-append, get-append_some, get-first_by,
}
use war_thunder_rent_bot.Persistence.Rows.{OrderRow, RentalRow, AccountRow, AccountLotRow}
use war_thunder_rent_bot.Persistence.Session.{
  Db, Tx, Result, query, ok, err, integrity, insert_order, insert_rental, insert_account,
  insert_lot, account_of, rental_of, order_of,
}
use war_thunder_rent_bot.Persistence.Session.Laws.{
  HasKeys, with_account, account_of-with_account_self,
}
use war_thunder_rent_bot.Persistence.Session.Post.{Post, returns, raises}
use war_thunder_rent_bot.Persistence.Booking.{
  Booked, live, live_on, Booked-with_new_operation, Booked-same,
}
use war_thunder_rent_bot.Persistence.Booking.Completion.{KeepsBooked, Booked-audit, Booked-moved}
use war_thunder_rent_bot.Persistence.Repository.Internal.{transition_row}
use war_thunder_rent_bot.Persistence.Repository.Internal.Laws.{moved, transition_row_lem}
use war_thunder_rent_bot.Persistence.Repository.Internal.Rules.{seq_audit, seq_add_operation}
use war_thunder_rent_bot.Persistence.Repository.Reservation.{
  add_account, add_account_lot, Attempt, block_order, or_operational, reserve_account,
  reserve_order_once, recorded_answer, first_available, find_order,
}

abbrev pub with_order_row : OrderRow → Db → Db
with_order_row o db = record db { orders = db.orders ++ o ∷ [] }

abbrev pub with_new_rental : RentalRow → Db → Db
with_new_rental x db = record db { rentals = db.rentals ++ x ∷ [] }

abbrev with_new_account : AccountRow → Db → Db
with_new_account a db = record db { accounts = db.accounts ++ a ∷ [] }

abbrev with_lot : AccountLotRow → Db → Db
with_lot l db = record db { lots = db.lots ++ l ∷ [] }

insert_order_cases :
    (o : OrderRow) (db : Db)
    → ((order_of db o.id ≡ none) × (insert_order o db ≡ ok (tt, with_order_row o db)))
      ⊎ (insert_order o db ≡ err integrity)
unfolding insert_order
insert_order_cases o db = ground arith

insert_rental_cases :
    (x : RentalRow) (db : Db)
    → ((rental_of db x.id ≡ none) × (insert_rental x db ≡ ok (tt, with_new_rental x db)))
      ⊎ (insert_rental x db ≡ err integrity)
unfolding insert_rental
insert_rental_cases x db = ground arith

insert_account_cases :
    (a : AccountRow) (db : Db)
    → ((account_of db a.id ≡ none) × (insert_account a db ≡ ok (tt, with_new_account a db)))
      ⊎ (insert_account a db ≡ err integrity)
unfolding insert_account
insert_account_cases a db = ground arith

insert_lot_cases :
    (l : AccountLotRow) (db : Db)
    → (insert_lot l db ≡ ok (tt, with_lot l db)) ⊎ (insert_lot l db ≡ err integrity)
unfolding insert_lot
insert_lot_cases l db = ground arith

module _ {B : Type 0} {Q : B → Db → Type 0} where
  module _ (f : Unit → Db → Result (B × Db)) where
    pub seq_insert_order :
        (r : OrderRow) (db : Db)
        → (order_of db r.id ≡ none → Post Q (f tt (with_order_row r db)))
        → Post Q (elim (insert_order r db) [ ok (u, d) ↦ f u d | err x ↦ err x ])
    seq_insert_order r db next = elim (insert_order_cases r db) [
      | inl (fresh, eq) ↦ rw eq (next fresh)
      | inr eq ↦ rw eq raises
    ]

    pub seq_insert_rental :
        (r : RentalRow) (db : Db)
        → (rental_of db r.id ≡ none → Post Q (f tt (with_new_rental r db)))
        → Post Q (elim (insert_rental r db) [ ok (u, d) ↦ f u d | err x ↦ err x ])
    seq_insert_rental r db next = elim (insert_rental_cases r db) [
      | inl (fresh, eq) ↦ rw eq (next fresh)
      | inr eq ↦ rw eq raises
    ]

    seq_insert_lot :
        (r : AccountLotRow) (db : Db)
        → Post Q (f tt (with_lot r db))
        → Post Q (elim (insert_lot r db) [ ok (u, d) ↦ f u d | err x ↦ err x ])
    seq_insert_lot r db next = elim (insert_lot_cases r db) [
      | inl eq ↦ rw eq next
      | inr eq ↦ rw eq raises
    ]

    seq_insert_account :
        (r : AccountRow) (db : Db)
        → (account_of db r.id ≡ none → Post Q (f tt (with_new_account r db)))
        → Post Q (elim (insert_account r db) [ ok (u, d) ↦ f u d | err x ↦ err x ])
    seq_insert_account r db next = elim (insert_account_cases r db) [
      | inl (fresh, eq) ↦ rw eq (next fresh)
      | inr eq ↦ rw eq raises
    ]

Booked-order :
    {db : Db} → Booked db → (o : OrderRow) → order_of db o.id ≡ none → Booked (with_order_row o db)
Booked-order {db} b o fresh = record {
  keys = record {
    accounts = b.keys.accounts;
    orders = append-HasUniqueKeys (λ s. s.id) db.orders o fresh b.keys.orders;
    rentals = b.keys.rentals;
    operations = b.keys.operations;
  };
  single = b.single;
  free = b.free;
  vacant = b.vacant;
  linked = b.linked;
  known = b.known;
}

-- A new rental on an account that is taken and has no live one.
Booked-new_rental :
    {db : Db}
    → Booked db
    → (x : RentalRow) (a : AccountRow) → rental_of db x.id ≡ none
    → account_of db x.account_id ≡ some a
    → ¬ (a.status ≡ AccountStatus.available)
    → live db x.account_id ≡ 0
    → Booked (with_new_rental x db)
Booked-new_rental {db} b x a fresh there taken idle = record {
  keys = record {
    accounts = b.keys.accounts;
    orders = b.keys.orders;
    rentals = append-HasUniqueKeys (λ s. s.id) db.rentals x fresh b.keys.rentals;
    operations = b.keys.operations;
  };
  single = λ i.
      ground (arith, b.single i, tally-append (live_on i) db.rentals x, nat_beq_iff x.account_id i);
  free = λ i r found status.
      ground (arith, b.free i r, tally-append (live_on i) db.rentals x, nat_beq_iff x.account_id i);
  vacant = λ i gone.
      ground (arith, b.vacant i, tally-append (live_on i) db.rentals x, nat_beq_iff x.account_id i);
  linked = λ i r op y found el el'. elim (Option-cases (rental_of db r)) [
    | inl gone ↦ ground (arith, b.known i r op found el)
    | inr (z, old) ↦ ground (
      arith,
      b.linked i r op z found el old,
      get-append_some (λ q. q.id) r db.rentals x {s = z} old,
    )
  ];
  known = λ i r op found el. elim (Option-cases (rental_of db r)) [
    | inl gone ↦ ground (arith, b.known i r op found el)
    | inr (z, old) ↦ ground (arith, get-append_some (λ q. q.id) r db.rentals x {s = z} old)
  ];
}

new_rental_account :
    {db : Db}
    → Booked db
    → (x : RentalRow) → rental_of db x.id ≡ none
    → (y : RentalRow) → rental_of (with_new_rental x db) x.id ≡ some y
    → y.account_id ≡ x.account_id
new_rental_account {db} b x fresh y h =
    ground (arith, h, get-append (λ q. q.id) x.id db.rentals x fresh, nat_beq_iff x.id x.id)

Booked-new_account :
    {db : Db}
    → Booked db
    → (a : AccountRow) → account_of db a.id ≡ none
    → Booked (with_new_account a db)
Booked-new_account {db} b a fresh = record {
  keys = record {
    accounts = append-HasUniqueKeys (λ s. s.id) db.accounts a fresh b.keys.accounts;
    orders = b.keys.orders;
    rentals = b.keys.rentals;
    operations = b.keys.operations;
  };
  single = b.single;
  free = λ i r found status. elim (Option-cases (account_of db i)) [
    | inl gone ↦ b.vacant i gone
    | inr (s, old) ↦
        ground (arith, b.free i s old, get-append_some (λ q. q.id) i db.accounts a {s = s} old)
  ];
  vacant = λ i gone. elim (Option-cases (account_of db i)) [
    | inl before ↦ b.vacant i before
    | inr (s, old) ↦ ground (arith, get-append_some (λ q. q.id) i db.accounts a {s = s} old)
  ];
  linked = b.linked;
  known = b.known;
}

pub add_account-Booked :
    (i code now : ℕ) (db : Db) → Booked db → KeepsBooked (add_account i code now db)
unfolding add_account
add_account-Booked i code now db b =
    seq_insert_account _ _ db λ fresh. returns (Booked-new_account b _ fresh)

pub add_account_lot-Booked :
    (new_id i lot now : ℕ) (db : Db) → Booked db → KeepsBooked (add_account_lot new_id i lot now db)
unfolding add_account_lot
add_account_lot-Booked new_id i lot now db b = seq_insert_lot _ _ db (
    returns (
      Booked-same refl refl refl
        (record {
          accounts = b.keys.accounts;
          orders = b.keys.orders;
          rentals = b.keys.rentals;
          operations = b.keys.operations;
        })
        b))

block_order-Booked :
    (a : Attempt) (order : OrderInput) (now : ℕ) (db : Db)
    → Booked db
    → KeepsBooked (block_order a order now db)
unfolding block_order
block_order-Booked a order now db b =
    seq_insert_order _ _ db
      λ fresh. seq_audit _ _ _ _ _ now _ (returns (Booked-audit (Booked-order b _ fresh) _))

or_operational_ok :
    {A : Type 0} (m : Tx A) (db : Db) (r : A × Db) → m db ≡ ok r → or_operational m db ≡ ok r
unfolding or_operational
or_operational_ok m db r h = ground (arith, h)

module _ (now : ℕ) (db : Db) (k : HasKeys db) (a : AccountRow) (found : account_of db a.id ≡ some a)
    (open_ : a.status ≡ AccountStatus.available) where
  held_lem :
      or_operational (transition_row a AccountStatus.reserved now) db
      ≡ ok
          (moved a AccountStatus.reserved now, with_account (moved a AccountStatus.reserved now) db)
  held_lem =
      or_operational_ok _ db _
        (transition_row_lem a AccountStatus.reserved now db k found ∙ rw open_ refl)

  pub seq_held :
      {B : Type 0} {Q : B → Db → Type 0} (f : AccountRow → Db → Result (B × Db))
      → Post Q (
          f
            (moved a AccountStatus.reserved now)
            (with_account (moved a AccountStatus.reserved now) db))
      → Post Q (elim (or_operational (transition_row a AccountStatus.reserved now) db) [
        | ok (r, d) ↦ f r d
        | err x ↦ err x
      ])
  seq_held f next = rw held_lem next

module _ (t : Attempt) (order : OrderInput) (now : ℕ) (db : Db) (b : Booked db) (a : AccountRow)
    (found : account_of db a.id ≡ some a) (open_ : a.status ≡ AccountStatus.available) where
  reserve_account-Booked : KeepsBooked (reserve_account t order a now db)
  unfolding reserve_account
  reserve_account-Booked =
      let held = moved a AccountStatus.reserved now in
      let b1 = Booked-moved db b a found AccountStatus.reserved now (λ e. cc) in
      let d1 = with_account held db in
      seq_held now db b.keys a found open_ _ (
        seq_insert_order _ _ d1 λ fresh_order. seq_insert_rental _ _ _ λ fresh.
          let b1' = Booked-order b1 _ fresh_order in
          let b2 =
            Booked-new_rental b1' _ held fresh (account_of-with_account_self held db refl found)
              (λ e. cc) (b.free a.id a found open_) in
          seq_add_operation _ _ _ a.id t.rental_id now _ λ fresh_op known.
            let b3 =
              Booked-with_new_operation _ b2 _ t.rental_id fresh_op refl known
                (λ y h. new_rental_account b1' _ fresh y h) in
            seq_audit _ _ _ _ _ now _ (returns (Booked-audit b3 _)))

pub chosen :
    (db : Db)
    → HasKeys db
    → (a : AccountRow) → first_available db ≡ some a
    → (account_of db a.id ≡ some a) × (a.status ≡ AccountStatus.available)
unfolding first_available
chosen db k a h =
    let r =
      get-first_by (λ q. q.id) (λ q. q.code) (λ q. q.status == AccountStatus.available) db.accounts
        a (k.accounts a.id) h in
    (r.0, (account_beq_iff a.status AccountStatus.available).0 r.1)

pub reserve_order_once-Booked :
    (t : Attempt) (order : OrderInput) (now : ℕ) (db : Db)
    → Booked db
    → KeepsBooked (reserve_order_once t order now db)
unfolding reserve_order_once
reserve_order_once-Booked t order now db b =
    answer (find_order order.funpay_order_id db) (first_available db) (chosen db b.keys)
  where
    answer :
        (existing : Option OrderRow) (account : Option AccountRow)
        → ((a : AccountRow)
            → account ≡ some a
            → (account_of db a.id ≡ some a) × (a.status ≡ AccountStatus.available))
        → KeepsBooked (
            (elim existing as (λ _. Tx StartResult) [
              | some o ↦ query (recorded_answer o)
              | none ↦ elim account as (λ _. Tx StartResult) [
                | none ↦ block_order t order now
                | some a ↦ reserve_account t order a now
              ]
            ])
              db)
    answer (some o) account was = returns b
    answer none none was = block_order-Booked t order now db b
    answer none (some a) was =
        let h = was a refl in reserve_account-Booked t order now db b a h.0 h.1
