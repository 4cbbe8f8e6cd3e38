-- ===== src/Persistence/Deadlines.antt =====
-- No rental outlives its expiry: what `expire_due` leaves behind.
use mathlib.Core.Path.{subst}
use war_thunder_rent_bot.Prelude.{
  ℕ, suc, ◌≡◌, refl, Bool, true, false, ◌||◌, Option, none, some, List, [], ◌∷◌, map, arith,
  nat_beq, nat_beq_iff, Bool-cases, inl, inr, nat_eq,
}
use war_thunder_rent_bot.Domain.States.{AccountStatus, RentalStatus, OperationKind, rental_eq}
use war_thunder_rent_bot.Table.{select, get}
use war_thunder_rent_bot.Table.Laws.{holds, key-get}
use war_thunder_rent_bot.Persistence.Rows.{AccountRow, RentalRow}
use war_thunder_rent_bot.Persistence.Session.{Db, ok, account_of, rental_of, assertion}
use war_thunder_rent_bot.Persistence.Session.Laws.{
  HasKeys, HasKeys-with_account, HasKeys-with_rental, with_rental, rental_of-with_rental,
}
use war_thunder_rent_bot.Persistence.Session.Post.{
  Post, Post-ok, Post-map, returns, seq, seq_some, seq_cas_rental,
}
use war_thunder_rent_bot.Persistence.Booking.Failure.{was_account}
use war_thunder_rent_bot.Persistence.Booking.Expiry.{active_account-some}
use war_thunder_rent_bot.Persistence.Repository.Internal.Laws.{moved, HasKeys-with_new_operation}
use war_thunder_rent_bot.Persistence.Repository.Internal.Rules.{
  seq_transition_row, seq_add_operation, seq_audit,
}
use war_thunder_rent_bot.Persistence.Repository.Expiry.{
  is_due, due_rentals, active_account, expire_claimed, expire_one, expire_loop, expire_due,
}

-- The rental is active and its expiry has come.
abbrev pub due : ℕ → Db → ℕ → Bool
due now db i = holds (is_due now) (rental_of db i)

unfoldable listed : ℕ → List ℕ → Bool
listed j [] = false
listed j (i ∷ rest) = nat_beq i j || listed j rest

listed-due :
    (now j : ℕ) (rows : List RentalRow)
    → holds (is_due now) (get (λ r. r.id) j rows) ≡ true
    → listed j (map (λ r. r.id) (select (is_due now) rows)) ≡ true
unfolding listed select get
listed-due now j [] h = cc
listed-due now j (r ∷ rows) h = ground (arith, listed-due now j rows)

KeepsRentals : {A : Type 0} → Db → A → Db → Type 0
KeepsRentals db a d = HasKeys d × (d.rentals ≡ db.rentals)

module _ (new_id now : ℕ) (rental : RentalRow) (db : Db) (k : HasKeys db) where
  expire_claimed-KeepsRentals :
      (account : Option AccountRow)
      → ((a : AccountRow) → account ≡ some a → account_of db a.id ≡ some a)
      → Post (KeepsRentals db) (expire_claimed new_id now rental account db)
  unfolding expire_claimed KeepsRentals
  expire_claimed-KeepsRentals none was = returns (k, refl)
  expire_claimed-KeepsRentals (some a) was =
      seq_transition_row _ a AccountStatus.expiring now db k (was a refl) λ legal.
        let k1 = HasKeys-with_account (moved a AccountStatus.expiring now) db k in
        seq_add_operation _ new_id OperationKind.revoke_sessions a.id rental.id now _ λ fresh known.
          let k2 = HasKeys-with_new_operation _ _ fresh k1 in
          seq_audit _ _ _ _ _ now _ (
            returns (
              record {
                accounts = k2.accounts;
                orders = k2.orders;
                rentals = k2.rentals;
                operations = k2.operations;
              },
              refl,
            ))

-- A due rental was due before, and is not one of those that were looked at.
Later : {A : Type 0} → ℕ → Db → (ℕ → Bool) → A → Db → Type 0
Later now db seen a d =
    HasKeys d × ((j : ℕ) → due now d j ≡ true → (due now db j ≡ true) × (seen j ≡ false))

module _ (now : ℕ) where
  abbrev Still : ℕ → List RentalRow → Type 0
  Still j rows = holds (is_due now) (get (λ q. q.id) j rows) ≡ true

  -- The rental that was just expired is not due, and the others are as they were.
  expired_first :
      (i : ℕ) (db : Db) (r : RentalRow)
      → rental_of db i ≡ some r
      → (j : ℕ)
      → due now (with_rental (record r { status = RentalStatus.expiring; updated_at = now }) db) j
        ≡ true
      → (due now db j ≡ true) × (nat_beq i j ≡ false)
  expired_first i db r found j h = ground (
    arith,
    h,
    rental_of-with_rental (record r { status = RentalStatus.expiring; updated_at = now }) db
        (key-get (λ q. q.id) i db.rentals found) found j,
  )

  expire_one-Later :
      (new_id i : ℕ) (db : Db)
      → HasKeys db
      → Post (Later now db (nat_beq i)) (expire_one new_id now i db)
  unfolding expire_one Later KeepsRentals
  expire_one-Later new_id i db k =
      seq_cas_rental _ i _ (λ r. record r { status = RentalStatus.expiring; updated_at = now }) db k
        (λ r. refl)
        (λ r found e.
          let gone = record r { status = RentalStatus.expiring; updated_at = now } in
          let db1 = with_rental gone db in
          let k1 = HasKeys-with_rental gone db k in
          seq_some _ (rental_of db1 i) assertion db1 λ rental read.
            Post-map
              (expire_claimed-KeepsRentals new_id now rental db1 k1
                (active_account (account_of db1 rental.account_id))
                (λ a h.
                  was_account db1 rental.account_id a
                    (active_account-some db1 rental.account_id a h)))
              λ a d kept. (kept.0, λ j h. expired_first i db r found j (subst (Still j) kept.1 h)))
        (λ miss. returns (k, λ j h. ground (arith, miss, h, nat_beq_iff i j)))

  expire_loop-Later :
      (ids : ℕ → ℕ) (rows : List ℕ) (db : Db)
      → HasKeys db
      → Post (Later now db (λ j. listed j rows)) (expire_loop ids now rows db)
  unfolding expire_loop Later listed
  expire_loop-Later ids [] db k = returns (k, λ j h. (h, refl))
  expire_loop-Later ids (i ∷ rows) db k = seq _ (expire_one-Later (ids 0) i db k) λ done d one.
      seq _ (expire_loop-Later (λ n. ids (suc n)) rows d one.0)
        λ n d' rest. returns (rest.0, λ j h. ground (arith, rest.1 j h, one.1 j))

  expire_due-Later :
      (ids : ℕ → ℕ) (db : Db)
      → HasKeys db
      → Post (Later now db (λ j. listed j (due_rentals now db))) (expire_due ids now db)
  unfolding expire_due
  expire_due-Later ids db k = expire_loop-Later ids (due_rentals now db) db k

-- Where keys are unique: once `expire_due` has returned, no rental is active with its expiry at or
-- before that time.
pub none_outlives :
    (ids : ℕ → ℕ) (now : ℕ) (db : Db)
    → HasKeys db
    → (n : ℕ) (db' : Db) → expire_due ids now db ≡ ok (n, db')
    → (i : ℕ) → due now db' i ≡ false
unfolding Later due_rentals
none_outlives ids now db k n db' h i = elim (Bool-cases (due now db' i)) [
  | inr fine ↦ fine
  | inl late ↦
      let later = (Post-ok (expire_due-Later now ids db k) h).1 i late in
      absurd (ground (arith, later, listed-due now i db.rentals))
]
