-- ===== src/Persistence/Booking/Failure.antt =====
-- Failing an operation keeps an account let to one rental at a time: the account and the rental go to
-- manual review together.
use war_thunder_rent_bot.Table.{get}
use mathlib.Core.Path.{subst}
use war_thunder_rent_bot.Prelude.{ℕ, ◌≡◌, refl, sym, Option, none, some}
use war_thunder_rent_bot.Domain.States.{AccountStatus, RentalStatus}
use war_thunder_rent_bot.Table.Laws.{key-get}
use war_thunder_rent_bot.Persistence.Rows.{AccountRow, RentalRow, OperationRow}
use war_thunder_rent_bot.Persistence.Session.{Db, account_of, rental_of, optional}
use war_thunder_rent_bot.Persistence.Session.Post.{Post, returns, seq}
use war_thunder_rent_bot.Persistence.Booking.{Booked, Booked-with_rental}
use war_thunder_rent_bot.Persistence.Repository.Internal.Laws.{moved_rental}
use war_thunder_rent_bot.Persistence.Repository.Internal.Rules.{
  seq_transition_row, seq_transition_rental, seq_audit,
}
use war_thunder_rent_bot.Persistence.Repository.Completion.{
  quarantine_account, quarantine_rental, fail_operation_row,
}
use war_thunder_rent_bot.Persistence.Booking.Completion.{
  KeepsBooked, Booked-audit, Booked-moved, from_live,
}
use war_thunder_rent_bot.Persistence.Repository.Completion.{quarantine}

-- The account and the rental that an operation names, as they were read.
abbrev pub WasAccount : Db → Option AccountRow → Type 0
WasAccount db o = (a : AccountRow) → o ≡ some a → account_of db a.id ≡ some a

abbrev pub WasRental : Db → Option RentalRow → Type 0
WasRental db o = (x : RentalRow) → o ≡ some x → rental_of db x.id ≡ some x

pub was_account : (db : Db) (i : ℕ) → WasAccount db (account_of db i)
was_account db i a h =
    subst (λ n. account_of db n ≡ some a) (sym (key-get (λ r. r.id) i db.accounts h)) h

pub was_rental : (db : Db) (i : Option ℕ) → WasRental db (optional (rental_of db) i)
was_rental db none x h = absurd cc
was_rental db (some r) x h =
    subst (λ n. rental_of db n ≡ some x) (sym (key-get (λ q. q.id) r db.rentals h)) h

quarantine_account-Booked :
    (db : Db)
    → Booked db
    → (account : Option AccountRow) (now : ℕ) → WasAccount db account
    → Post (λ _ d. Booked d × (d.rentals ≡ db.rentals)) (quarantine_account account now db)
unfolding quarantine_account
quarantine_account-Booked db b none now was = returns (b, refl)
quarantine_account-Booked db b (some account) now was =
    seq_transition_row _ account AccountStatus.manual_review now db b.keys (was account refl)
      λ legal. returns (
        Booked-moved db b account (was account refl) AccountStatus.manual_review now (λ e. cc),
        refl,
      )

quarantine_rental-Booked :
    (db : Db)
    → Booked db
    → (rental : Option RentalRow) (now : ℕ) → WasRental db rental
    → KeepsBooked (quarantine_rental rental now db)
unfolding quarantine_rental
quarantine_rental-Booked db b none now was = returns b
quarantine_rental-Booked db b (some rental) now was =
    seq_transition_rental _ rental RentalStatus.manual_review now db λ legal. returns (
      Booked-with_rental db b (moved_rental rental RentalStatus.manual_review now) rental
        (was rental refl) refl refl
        (λ live. from_live rental.status RentalStatus.manual_review legal))

pub quarantine-Booked :
    (db : Db)
    → Booked db
    → (account : Option AccountRow) (rental : Option RentalRow) (now : ℕ) → WasAccount db account
    → WasRental db rental
    → KeepsBooked (quarantine account rental now db)
unfolding quarantine
quarantine-Booked db b account rental now was_a was_r =
    seq _ (quarantine_account-Booked db b account now was_a) λ u d kept.
      quarantine_rental-Booked d kept.0 rental now
        λ x e. subst (λ rows. get (λ q. q.id) x.id rows ≡ some x) (sym kept.1) (was_r x e)

pub fail_operation_row-Booked :
    (db : Db)
    → Booked db
    → (op : OperationRow) (now : ℕ) → KeepsBooked (fail_operation_row op now db)
unfolding fail_operation_row
fail_operation_row-Booked db b op now =
    seq _
      (quarantine-Booked db b (account_of db op.account_id) (optional (rental_of db) op.rental_id)
        now (was_account db op.account_id) (was_rental db op.rental_id))
      λ u d kept. seq_audit _ _ _ _ _ now d (returns (Booked-audit kept _))
