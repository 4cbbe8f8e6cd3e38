-- ===== src/Persistence/Booking/Alert.antt =====
-- A security alert, the preparation of a revocation, and the repairs of a restart keep an account
-- let to one rental at a time.
use war_thunder_rent_bot.Prelude.{
  ℕ, ◌≡◌, refl, true, Option, some, [], ◌∷◌, ◌++◌, ◌⊎◌, arith, inl, inr,
}
use war_thunder_rent_bot.Domain.States.{AccountStatus, RentalStatus, EmailMessageType}
use war_thunder_rent_bot.Domain.Transitions.{rental_transition}
use war_thunder_rent_bot.Table.Laws.{key-get, holds-first, get-first}
use war_thunder_rent_bot.Persistence.Rows.{AccountRow, RentalRow, SecurityEventRow, Correlation}
use war_thunder_rent_bot.Persistence.Session.{
  Result, ok, err, integrity, Db, account_of, rental_of, insert_security_event,
}
use war_thunder_rent_bot.Persistence.Session.Laws.{
  with_rental, with_account, rental_of-with_rental_self,
}
use war_thunder_rent_bot.Persistence.Session.Post.{Post, returns, raises}
use war_thunder_rent_bot.Persistence.Booking.{Booked, Booked-with_rental, Booked-with_new_operation}
use war_thunder_rent_bot.Persistence.Booking.Completion.{
  KeepsBooked, Booked-audit, Booked-moved, from_live,
}
use war_thunder_rent_bot.Persistence.Booking.Failure.{was_account, WasAccount, WasRental}
use war_thunder_rent_bot.Persistence.Booking.Expiry.{active_account-some}
use war_thunder_rent_bot.Persistence.Repository.Internal.Laws.{moved, moved_rental}
use war_thunder_rent_bot.Persistence.Repository.Internal.Rules.{
  seq_transition_row, seq_transition_rental, seq_audit, seq_add_operation,
}
use war_thunder_rent_bot.Persistence.Repository.Expiry.{
  active_rental_on, raise_alert, alert_rental, record_active_security_event,
}

abbrev with_security_event : SecurityEventRow → Db → Db
with_security_event e db = record db { security_events = db.security_events ++ e ∷ [] }

security_event_cases :
    (e : SecurityEventRow) (db : Db)
    → (insert_security_event e db ≡ ok (tt, with_security_event e db))
      ⊎ (insert_security_event e db ≡ err integrity)
unfolding insert_security_event
security_event_cases e db = ground arith

seq_security_event :
    {B : Type 0} {Q : B → Db → Type 0} (f : Unit → Db → Result (B × Db)) (e : SecurityEventRow)
    (db : Db)
    → Post Q (f tt (with_security_event e db))
    → Post Q (elim (insert_security_event e db) [ ok (u, d) ↦ f u d | err x ↦ err x ])
seq_security_event f e db next = elim (security_event_cases e db) [
  | inl eq ↦ rw eq next
  | inr eq ↦ rw eq raises
]

Booked-security_event :
    {db : Db} → Booked db → (e : SecurityEventRow) → Booked (with_security_event e db)
Booked-security_event b e = record {
  keys = record {
    accounts = b.keys.accounts;
    orders = b.keys.orders;
    rentals = b.keys.rentals;
    operations = b.keys.operations;
  };
  single = b.single;
  free = b.free;
  vacant = b.vacant;
  linked = b.linked;
  known = b.known;
}

-- The account and a rental of it move together.
module _ (db : Db) (b : Booked db) (a : AccountRow) (x : RentalRow)
    (found : account_of db a.id ≡ some a) (there : rental_of db x.id ≡ some x)
    (same : x.account_id ≡ a.id) where
  pair_moved :
      (target : AccountStatus) (goal : RentalStatus) (now : ℕ)
      → ¬ (target ≡ AccountStatus.available)
      → rental_transition x.status goal ≡ true
      → Booked (with_rental (moved_rental x goal now) (with_account (moved a target now) db))
  pair_moved target goal now taken legal =
      Booked-with_rental _ (Booked-moved db b a found target now taken) (moved_rental x goal now) x
        there refl refl (λ live. from_live x.status goal legal)

  alert_linked :
      (goal : RentalStatus) (now : ℕ) (y : RentalRow)
      → rental_of (with_rental (moved_rental x goal now) db) x.id ≡ some y
      → y.account_id ≡ a.id
  alert_linked goal now y h =
      ground (arith, same, h, rental_of-with_rental_self (moved_rental x goal now) db refl there)

raise_alert-Booked :
    (new_id : ℕ) (t : EmailMessageType) (c : Correlation) (now : ℕ) (a : AccountRow) (x : RentalRow)
    (db : Db)
    → Booked db
    → account_of db a.id ≡ some a
    → rental_of db x.id ≡ some x
    → x.account_id ≡ a.id
    → KeepsBooked (raise_alert new_id t c now a x db)
unfolding raise_alert
raise_alert-Booked new_id t c now a x db b found there same = seq_security_event _ _ db (
    seq_transition_row _ a AccountStatus.security_alert now _ (Booked-security_event b _).keys found
      λ legal. seq_transition_rental _ x RentalStatus.security_terminated now _ λ legal_rental.
        let b1 =
          pair_moved _ (Booked-security_event b _) a x found there same AccountStatus.security_alert
            RentalStatus.security_terminated now (λ e. cc) legal_rental in
        seq_add_operation _ new_id _ a.id x.id now _ λ fresh known.
          let b2 =
            Booked-with_new_operation _ b1 _ x.id fresh refl known
              (alert_linked db b a x found there same RentalStatus.security_terminated now) in
          seq_audit _ _ _ _ _ now _ (returns (Booked-audit b2 _)))

alert_rental-Booked :
    (new_id : ℕ) (t : EmailMessageType) (c : Correlation) (now : ℕ) (a : Option AccountRow)
    (x : Option RentalRow) (db : Db)
    → Booked db
    → WasAccount db a
    → WasRental db x
    → ((s : AccountRow) (r : RentalRow) → a ≡ some s → x ≡ some r → r.account_id ≡ s.id)
    → KeepsBooked (alert_rental new_id t c now a x db)
unfolding alert_rental
alert_rental-Booked new_id t c now (some a) (some x) db b was_a was_x same =
    raise_alert-Booked new_id t c now a x db b (was_a a refl) (was_x x refl) (same a x refl refl)
alert_rental-Booked new_id t c now _ _ db b was_a was_x same = returns b

pub record_active_security_event-Booked :
    (new_id i : ℕ) (t : EmailMessageType) (correlation now : ℕ) (db : Db)
    → Booked db
    → KeepsBooked (record_active_security_event new_id i t correlation now db)
unfolding record_active_security_event
record_active_security_event-Booked new_id i t correlation now db b =
    alert_rental-Booked new_id t (Correlation.of_id correlation) now _ _ db b
      (λ a h. was_account db i a (active_account-some db i a h))
      (λ x h. get-first (λ r. r.id) (active_rental_on i) db.rentals x (b.keys.rentals x.id) h)
      (λ s r hs hr. ground (
        arith,
        holds-first (λ q. q.id) (active_rental_on i) db.rentals hr,
        key-get (λ q. q.id) i db.accounts (active_account-some db i s hs),
      ))
