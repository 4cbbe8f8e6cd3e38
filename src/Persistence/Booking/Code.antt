-- ===== src/Persistence/Booking/Code.antt =====
-- The operation that sends a code keeps an account let to one rental at a time.
use war_thunder_rent_bot.Prelude.{
  ℕ, ◌≡◌, refl, some, none, ◌⊎◌, inl, inr, is_none, Bool, true, false, arith,
}
use war_thunder_rent_bot.Persistence.Rows.{OperationRow, RentalRow, FunPayEventRow}
use war_thunder_rent_bot.Persistence.Session.{
  Db, rental_of, operation_of, insert_operation, Result, ok, err, integrity, operational,
  state_conflict, value, assertion, runtime, port,
}
use war_thunder_rent_bot.Persistence.Booking.{Booked, Booked-same, Booked-with_new_operation}
use war_thunder_rent_bot.Persistence.Booking.Inbox.{Quiet, or_false_at}
use war_thunder_rent_bot.Persistence.Booking.Completion.{KeepsBooked}
use war_thunder_rent_bot.Persistence.Session.Post.{returns, raises}
use war_thunder_rent_bot.Persistence.Repository.Internal.Laws.{with_new_operation}
use war_thunder_rent_bot.Persistence.FunPayEvents.{create_send_otp, code_operation}

pub Booked-Quiet : {db db' : Db} → Quiet db db' → Booked db → Booked db'
Booked-Quiet {db} {db'} q b =
    Booked-same q.accounts q.rentals q.operations
      (record {
        accounts = λ i. rw q.accounts (b.keys.accounts i);
        orders = λ i. rw q.orders (b.keys.orders i);
        rentals = λ i. rw q.rentals (b.keys.rentals i);
        operations = λ i. rw q.operations (b.keys.operations i);
      })
      b

insert_operation_cases :
    (r : OperationRow) (i : ℕ) (db : Db)
    → r.rental_id ≡ some i
    → ((operation_of db r.id ≡ none)
        × (is_none (rental_of db i) ≡ false)
        × (insert_operation r db ≡ ok (tt, with_new_operation r db)))
      ⊎ (insert_operation r db ≡ err integrity)
unfolding insert_operation
insert_operation_cases r i db e = ground arith

insert_operation-Booked :
    (r : OperationRow) (i : ℕ) (db : Db)
    → Booked db
    → r.rental_id ≡ some i
    → ((x : RentalRow) → rental_of db i ≡ some x → x.account_id ≡ r.account_id)
    → KeepsBooked (insert_operation r db)
insert_operation-Booked r i db b e known = elim (insert_operation_cases r i db e) [
  | inl (fresh, here, eq) ↦ rw eq (returns (Booked-with_new_operation db b r i fresh e here known))
  | inr eq ↦ rw eq raises
]

-- `return True` after the insert, and `False` for an IntegrityError
abbrev answered : Db → Result (Unit {0} × Db) → Result (Bool × Db)
answered db r = or_false_at db (elim r [ ok (u, d) ↦ ok (true, d) | err e ↦ err e ])

answered-Booked :
    {db : Db} (r : Result (Unit {0} × Db)) → Booked db → KeepsBooked r → KeepsBooked (answered db r)
answered-Booked (ok (u, d)) b (returns k) = returns k
answered-Booked (err integrity) b k = returns b
answered-Booked (err operational) b k = raises
answered-Booked (err state_conflict) b k = raises
answered-Booked (err value) b k = raises
answered-Booked (err assertion) b k = raises
answered-Booked (err runtime) b k = raises
answered-Booked (err port) b k = raises

pub create_send_otp-Booked :
    (new_id now : ℕ) (e : FunPayEventRow) (rental : RentalRow) (db : Db)
    → Booked db
    → ((x : RentalRow) → rental_of db rental.id ≡ some x → x.account_id ≡ rental.account_id)
    → KeepsBooked (create_send_otp new_id e rental now db)
unfolding create_send_otp
create_send_otp-Booked new_id now e rental db b known =
    let r = code_operation new_id e rental now in
    answered-Booked (insert_operation r db) b (insert_operation-Booked r rental.id db b refl known)
