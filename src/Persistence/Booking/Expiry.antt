-- ===== src/Persistence/Booking/Expiry.antt =====
-- Expiring, extending and terminating rentals keep an account let to one rental at a time.

use war_thunder_rent_bot.Prelude.{
  ℕ, suc, ◌+◌, ◌≡◌, refl, sym, Option, none, some, List, [], ◌∷◌, arith, nat_eq, leb, Bool-cases,
  inl, inr,
}
use war_thunder_rent_bot.Domain.States.{AccountStatus, RentalStatus, rental_eq, account_eq}
use war_thunder_rent_bot.Table.Laws.{key-get}
use war_thunder_rent_bot.Persistence.Rows.{AccountRow, RentalRow, seconds}
use war_thunder_rent_bot.Persistence.Session.{Db, assertion, account_of, rental_of}
use war_thunder_rent_bot.Persistence.Session.Laws.{with_rental}
use war_thunder_rent_bot.Persistence.Session.Post.{returns, raises, seq, seq_some, seq_cas_rental}
use war_thunder_rent_bot.Persistence.Booking.{Booked, Booked-with_rental, Booked-with_new_operation}
use war_thunder_rent_bot.Persistence.Booking.Rows.{was_rental_row}
use war_thunder_rent_bot.Persistence.Booking.Completion.{KeepsBooked, Booked-audit, Booked-moved}
use war_thunder_rent_bot.Persistence.Booking.Failure.{was_account}
use war_thunder_rent_bot.Persistence.Repository.Internal.Rules.{
  seq_transition_row, seq_audit, seq_add_operation,
}
use war_thunder_rent_bot.Persistence.Repository.Expiry.{
  active_account, expire_claimed, expire_one, expire_loop, expire_due, extend_found,
  write_extension, may_extend, extend_active_rental,
}

-- An account that passes the test is the one that was read.
pub active_account-some :
    (db : Db) (i : ℕ) (a : AccountRow)
    → active_account (account_of db i) ≡ some a
    → account_of db i ≡ some a
active_account-some db i a h = ground (arith, h)

module _ (new_id now : ℕ) (db : Db) (b : Booked db) (rental : RentalRow)
    (there : rental_of db rental.id ≡ some rental) where
  expire_claimed-Booked :
      (account : Option AccountRow)
      → ((a : AccountRow) → account ≡ some a → account_of db rental.account_id ≡ some a)
      → KeepsBooked (expire_claimed new_id now rental account db)
  unfolding expire_claimed
  expire_claimed-Booked none was = returns b
  expire_claimed-Booked (some a) was =
      let at = was_account db rental.account_id a (was a refl) in
      let same : rental.account_id ≡ a.id =
        sym (key-get (λ q. q.id) rental.account_id db.accounts (was a refl)) in
      seq_transition_row _ a AccountStatus.expiring now db b.keys at λ legal.
        let b1 = Booked-moved db b a at AccountStatus.expiring now (λ e. cc) in
        seq_add_operation _ new_id _ a.id rental.id now _ λ fresh known.
          let b2 =
            Booked-with_new_operation _ b1 _ rental.id fresh refl known
              (λ x h. ground (arith, h, there, same)) in
          seq_audit _ _ _ _ _ now _ (returns (Booked-audit b2 _))

abbrev expiring_at : ℕ → RentalRow → RentalRow
expiring_at now r = record r { status = RentalStatus.expiring; updated_at = now }

expire_one-Booked :
    (new_id now i : ℕ) (db : Db) → Booked db → KeepsBooked (expire_one new_id now i db)
unfolding expire_one
expire_one-Booked new_id now i db b =
    seq_cas_rental _ i _ (expiring_at now) db b.keys (λ r. refl)
      (λ r found e.
        let db1 = with_rental (expiring_at now r) db in
        let b1 =
          Booked-with_rental db b (expiring_at now r) r (was_rental_row db i r found) refl refl
            (λ l. ground (arith, e)) in
        seq_some _ (rental_of db1 i) assertion db1 λ rental read.
          expire_claimed-Booked new_id now db1 b1 rental (was_rental_row db1 i rental read)
            (active_account (account_of db1 rental.account_id))
            (λ a h. active_account-some db1 rental.account_id a h))
      (λ miss. returns b)

expire_loop-Booked :
    (ids : ℕ → ℕ) (now : ℕ) (due : List ℕ) (db : Db)
    → Booked db
    → KeepsBooked (expire_loop ids now due db)
unfolding expire_loop
expire_loop-Booked ids now [] db b = returns b
expire_loop-Booked ids now (i ∷ due) db b =
    seq _ (expire_one-Booked (ids 0) now i db b) λ done d kept.
      seq _ (expire_loop-Booked (λ n. ids (suc n)) now due d kept) (λ n e kept'. returns kept')

pub expire_due-Booked :
    (ids : ℕ → ℕ) (now : ℕ) (db : Db) → Booked db → KeepsBooked (expire_due ids now db)
unfolding expire_due
expire_due-Booked ids now db b = expire_loop-Booked ids now _ db b

write_extension-Booked :
    (rental : RentalRow) (buyer extension now : ℕ) (db : Db)
    → Booked db
    → KeepsBooked (write_extension rental buyer extension now db)
unfolding write_extension
write_extension-Booked rental buyer extension now db b =
    seq_cas_rental _ rental.id _ _ db b.keys (λ r. refl)
      (λ r found e.
        let b1 =
          Booked-with_rental db b
            (record r { expires_at = rental.expires_at + seconds extension; updated_at = now }) r
            (was_rental_row db rental.id r found) refl refl (λ l. l) in
        seq_audit _ _ _ _ _ now _ (returns (Booked-audit b1 _)))
      (λ miss. returns b)

extend_found-Booked :
    (rental : Option RentalRow) (buyer extension now : ℕ) (db : Db)
    → Booked db
    → KeepsBooked (extend_found rental buyer extension now db)
unfolding extend_found
extend_found-Booked none buyer extension now db b = returns b
extend_found-Booked (some rental) buyer extension now db b =
    elim (Bool-cases (may_extend rental buyer db)) [
      | inl ready ↦ rw ready (write_extension-Booked rental buyer extension now db b)
      | inr refused ↦ rw refused (returns b)
    ]

pub extend_active_rental-Booked :
    (i buyer extension now : ℕ) (db : Db)
    → Booked db
    → KeepsBooked (extend_active_rental i buyer extension now db)
unfolding extend_active_rental
extend_active_rental-Booked i buyer extension now db b = elim (Bool-cases (leb extension 0)) [
  | inl bad ↦ rw bad raises
  | inr good ↦ rw good (extend_found-Booked (rental_of db i) buyer extension now db b)
]
