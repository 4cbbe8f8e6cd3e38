-- ===== src/Persistence/Repository/Expiry/Extension.antt =====
-- What `extend_active_rental` does when it answers, and when it refuses.
use mathlib.Core.Path.{subst}
use war_thunder_rent_bot.Prelude.{
  sym, ◌&&◌, ℕ, ◌+◌, ◌≡◌, refl, Bool, true, false, Option, none, some, arith, Bool-cases, inl, inr,
  leb, ◌==◌, nat_eq,
}
use war_thunder_rent_bot.Domain.States.{RentalStatus, rental_eq, rental_beq_iff}
use war_thunder_rent_bot.Table.Laws.{key-get}
use war_thunder_rent_bot.Persistence.Rows.{RentalRow, seconds}
use war_thunder_rent_bot.Persistence.Session.{Db, ok, rental_of, account_of}
use war_thunder_rent_bot.Persistence.Session.Laws.{HasKeys, with_rental, rental_of-with_rental_self}
use war_thunder_rent_bot.Persistence.Session.Post.{Post, Post-ok, returns, raises, seq_cas_rental}
use war_thunder_rent_bot.Persistence.Repository.Internal.Rules.{seq_audit}
use war_thunder_rent_bot.Persistence.Repository.Expiry.{
  extend_active_rental, extend_found, write_extension, may_extend, account_is_active,
}

-- The rental after the extension: later by the seconds that were bought, and otherwise the same.
abbrev extended_by : ℕ → ℕ → RentalRow → RentalRow
extended_by extension now r = record r {
  expires_at = r.expires_at + seconds extension;
  updated_at = now;
}

module _ (i buyer extension now : ℕ) (db : Db) where
  abbrev pub Extended : RentalRow → Db → Type 0
  Extended r d =
      (rental_of db i ≡ some r)
      × (r.buyer_id ≡ buyer)
      × (r.status ≡ RentalStatus.active)
      × (account_is_active (account_of db r.account_id) ≡ true)
      × (rental_of d i ≡ some (extended_by extension now r))
      × (d.accounts ≡ db.accounts)
      × (d.operations ≡ db.operations)

  abbrev pub Answer : Bool → Db → Type 0
  Answer true d = (r : RentalRow) × Extended r d
  Answer false d = d ≡ db

  -- the row that the conditional update wrote
  written :
      (rental : RentalRow)
      → rental_of db i ≡ some rental
      → (r : RentalRow) → rental_of db rental.id ≡ some r
      → (r.buyer_id == buyer
          && r.status == RentalStatus.active
          && r.expires_at == rental.expires_at
          && account_is_active (account_of db r.account_id))
        ≡ true
      → Extended r (
          with_rental
            (record r { expires_at = rental.expires_at + seconds extension; updated_at = now })
            db)
  written rental found r there e =
      let saved = record r {
        expires_at = rental.expires_at + seconds extension;
        updated_at = now;
      } in
      let here : i ≡ rental.id = sym (key-get (λ q. q.id) i db.rentals found) in
      let own : r.id ≡ rental.id = key-get (λ q. q.id) rental.id db.rentals there in
      let after = rental_of-with_rental_self saved db own there in
      let active = rental_beq_iff r.status RentalStatus.active in
      (
        subst (λ n. rental_of db n ≡ some r) (sym here) there,
        ground (arith, e),
        ground (arith, e, active),
        ground (arith, e),
        rw here (ground (arith, after, e)),
        refl,
        refl,
      )

  write_extension-Answer :
      (rental : RentalRow)
      → HasKeys db
      → rental_of db i ≡ some rental
      → Post Answer (write_extension rental buyer extension now db)
  unfolding write_extension
  write_extension-Answer rental k found =
      seq_cas_rental _ rental.id _ _ db k (λ r. refl)
        (λ r there e. seq_audit _ _ _ _ _ now _ (returns (r, written rental found r there e)))
        (λ miss. returns refl)

  extend_found-Answer :
      (rental : Option RentalRow)
      → HasKeys db
      → rental_of db i ≡ rental
      → Post Answer (extend_found rental buyer extension now db)
  unfolding extend_found
  extend_found-Answer none k found = returns refl
  extend_found-Answer (some rental) k found = elim (Bool-cases (may_extend rental buyer db)) [
    | inl ready ↦ rw ready (write_extension-Answer rental k found)
    | inr refused ↦ rw refused (returns refl)
  ]

  extend-Answer : HasKeys db → Post Answer (extend_active_rental i buyer extension now db)
  unfolding extend_active_rental
  extend-Answer k = elim (Bool-cases (leb extension 0)) [
    | inl bad ↦ rw bad raises
    | inr good ↦ rw good (extend_found-Answer (rental_of db i) k refl)
  ]

-- Where keys are unique, an answer of `extend_active_rental` says what happened. If it is true, the
-- rental was the buyer's, active, and on an active account, and its expiry is later by exactly the
-- seconds that were bought, counted from the old expiry and not from now; accounts and operations
-- are as they were. If it is false, nothing has changed.
pub extend_active_rental_lem :
    (i buyer extension now : ℕ) (db : Db)
    → HasKeys db
    → (done : Bool) (db' : Db) → extend_active_rental i buyer extension now db ≡ ok (done, db')
    → Answer i buyer extension now db done db'
extend_active_rental_lem i buyer extension now db k done db' h =
    Post-ok (extend-Answer i buyer extension now db k) h
