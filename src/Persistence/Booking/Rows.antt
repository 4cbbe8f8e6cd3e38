-- ===== src/Persistence/Booking/Rows.antt =====
-- Conditional updates of operations and rentals that keep the invariant, whether they hit or miss.
use mathlib.Core.Path.{subst}
use war_thunder_rent_bot.Prelude.{ℕ, ◌≡◌, sym, Bool, true, some, false, inl, inr}
use war_thunder_rent_bot.Table.Laws.{key-get}
use war_thunder_rent_bot.Persistence.Rows.{OperationRow, RentalRow}
use war_thunder_rent_bot.Persistence.Session.{
  Db, Result, ok, err, cas_operation, operation_of, rental_of,
}
use war_thunder_rent_bot.Persistence.Session.Laws.{cas_operation_cases, with_operation}
use war_thunder_rent_bot.Persistence.Session.Post.{Post, returns, seq_cas_operation}
use war_thunder_rent_bot.Persistence.Booking.{Booked, Booked-with_operation}

pub was_operation :
    (db : Db) (i : ℕ) (r : OperationRow)
    → operation_of db i ≡ some r
    → operation_of db r.id ≡ some r
was_operation db i r h =
    subst (λ n. operation_of db n ≡ some r) (sym (key-get (λ q. q.id) i db.operations h)) h

pub was_rental_row :
    (db : Db) (i : ℕ) (r : RentalRow) → rental_of db i ≡ some r → rental_of db r.id ≡ some r
was_rental_row db i r h =
    subst (λ n. rental_of db n ≡ some r) (sym (key-get (λ q. q.id) i db.rentals h)) h

-- The update touches neither the key nor what links an operation to its account and rental.
pub record KeepsLinks (g : OperationRow → OperationRow) : Type 0 where
  pub id : (r : OperationRow) → (g r).id ≡ r.id
  pub account_id : (r : OperationRow) → (g r).account_id ≡ r.account_id
  pub rental_id : (r : OperationRow) → (g r).rental_id ≡ r.rental_id

module _ (i : ℕ) (p : OperationRow → Bool) (g : OperationRow → OperationRow) (links : KeepsLinks g)
    (db : Db) (b : Booked db) where
  hit_Booked : (r : OperationRow) → operation_of db i ≡ some r → Booked (with_operation (g r) db)
  hit_Booked r found =
      Booked-with_operation db b (g r) r (was_operation db i r found) (links.id r)
        (links.account_id r) (links.rental_id r)

  pub seq_cas_Booked :
      {B : Type 0} {Q : B → Db → Type 0} (f : Bool → Db → Result (B × Db))
      → ((done : Bool) (d : Db) → Booked d → Post Q (f done d))
      → Post Q (elim (cas_operation i p g db) [ ok (a, d) ↦ f a d | err x ↦ err x ])
  seq_cas_Booked f next =
      seq_cas_operation f i p g db b.keys links.id
        (λ r found e. next true (with_operation (g r) db) (hit_Booked r found))
        (λ miss. next false db b)

  pub last_cas_Booked : Post (λ _ d. Booked d) (cas_operation i p g db)
  last_cas_Booked = elim (cas_operation_cases i p g db b.keys links.id) [
    | inl (r, found, e, id, eq) ↦ rw eq (returns (hit_Booked r found))
    | inr (miss, eq) ↦ rw eq (returns b)
  ]
