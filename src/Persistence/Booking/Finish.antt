-- ===== src/Persistence/Booking/Finish.antt =====
-- `operation_completed`, `operation_failed` and their recovery variants keep an account let to one
-- rental at a time.

use war_thunder_rent_bot.Persistence.Booking.Rows.{seq_cas_Booked, was_operation}
use war_thunder_rent_bot.Persistence.Booking.Failure.{fail_operation_row-Booked}
use war_thunder_rent_bot.Persistence.Repository.Completion.{
  fail_recovery_operation, operation_completed, operation_failed,
}
use war_thunder_rent_bot.Prelude.{
  true, false, ℕ, ◌≡◌, refl, sym, ◌∙◌, Option, none, some, arith, Option-cases, inl, inr, Bool,
}
use war_thunder_rent_bot.Table.Laws.{key-get}
use war_thunder_rent_bot.Persistence.Rows.{AccountRow, RentalRow, OperationRow}
use war_thunder_rent_bot.Persistence.Session.{
  Db, account_of, rental_of, operation_of, optional, Result, assertion,
}
use war_thunder_rent_bot.Persistence.Session.Post.{returns, seq, seq_some}
use war_thunder_rent_bot.Persistence.Booking.{Booked}
use war_thunder_rent_bot.Persistence.Booking.Completion.{
  KeepsBooked, complete_kind-Booked, without_rental,
}
use war_thunder_rent_bot.Persistence.Booking.Failure.{WasAccount, was_account, was_rental}
use war_thunder_rent_bot.Persistence.Repository.Completion.{
  complete_account, complete_operation_row, when_claimed, complete_recovery_operation,
}

complete_account-Booked :
    (db : Db)
    → Booked db
    → (new_id now : ℕ) (op : OperationRow) (account : Option AccountRow) (rental : Option RentalRow)
    → WasAccount db account
    → ((x : RentalRow) → rental ≡ some x → rental_of db x.id ≡ some x)
    → ((a : AccountRow) (x : RentalRow) → account ≡ some a → rental ≡ some x → x.account_id ≡ a.id)
    → KeepsBooked (complete_account account new_id op rental now db)
unfolding complete_account
complete_account-Booked db b new_id now op none rental was_a was_r same = returns b
complete_account-Booked db b new_id now op (some a) none was_a was_r same =
    seq _ (without_rental db b a (was_a a refl) op.kind new_id op now) (λ u d kept. returns kept)
complete_account-Booked db b new_id now op (some a) (some x) was_a was_r same =
    seq _
      (complete_kind-Booked db b a (was_a a refl) x (was_r x refl) (same a x refl refl) op.kind
        new_id op now)
      (λ u d kept. returns kept)

-- The rental that an operation names stands on the account that it names.
same_account :
    (db : Db)
    → Booked db
    → (op : OperationRow) → operation_of db op.id ≡ some op
    → (a : AccountRow) (x : RentalRow) → account_of db op.account_id ≡ some a
    → optional (rental_of db) op.rental_id ≡ some x
    → x.account_id ≡ a.id
same_account db b op there a x ha hx = elim (Option-cases op.rental_id) [
  | inl gone ↦ absurd (ground (arith, gone, hx))
  | inr (r, el) ↦
      b.linked op.id r op x there el (ground (arith, el, hx))
      ∙ sym (key-get (λ q. q.id) op.account_id db.accounts ha)
]

pub complete_operation_row-Booked :
    (db : Db)
    → Booked db
    → (new_id now : ℕ) (op : OperationRow) → operation_of db op.id ≡ some op
    → KeepsBooked (complete_operation_row new_id op now db)
unfolding complete_operation_row
complete_operation_row-Booked db b new_id now op there =
    complete_account-Booked db b new_id now op (account_of db op.account_id)
      (optional (rental_of db) op.rental_id) (was_account db op.account_id)
      (was_rental db op.rental_id) (same_account db b op there)

when_claimed-Booked :
    (db : Db)
    → Booked db
    → (claimed : Bool) (i : ℕ) (finish : OperationRow → Db → Result (Bool × Db))
    → ((op : OperationRow) → operation_of db op.id ≡ some op → KeepsBooked (finish op db))
    → KeepsBooked (when_claimed claimed i finish db)
unfolding when_claimed
when_claimed-Booked db b false i finish kept = returns b
when_claimed-Booked db b true i finish kept =
    seq_some _ (operation_of db i) assertion db (λ op e. kept op (was_operation db i op e))

pub complete_recovery_operation-Booked :
    (new_id i token now : ℕ) (db : Db)
    → Booked db
    → KeepsBooked (complete_recovery_operation new_id i token now db)
unfolding complete_recovery_operation
complete_recovery_operation-Booked new_id i token now db b =
    seq_cas_Booked i _ _ (record { id = λ r. refl; account_id = λ r. refl; rental_id = λ r. refl })
      db b _
      λ done d kept.
        when_claimed-Booked d kept done i _ (complete_operation_row-Booked d kept new_id now)

pub fail_recovery_operation-Booked :
    (i token now : ℕ) (db : Db) → Booked db → KeepsBooked (fail_recovery_operation i token now db)
unfolding fail_recovery_operation
fail_recovery_operation-Booked i token now db b =
    seq_cas_Booked i _ _ (record { id = λ r. refl; account_id = λ r. refl; rental_id = λ r. refl })
      db b _
      λ done d kept.
        when_claimed-Booked d kept done i _ (λ op there. fail_operation_row-Booked d kept op now)

pub operation_completed-Booked :
    (new_id i now : ℕ) (recovery normal : Option ℕ) (db : Db)
    → Booked db
    → KeepsBooked (operation_completed new_id i now recovery normal db)
unfolding operation_completed
operation_completed-Booked new_id i now (some token) normal db b =
    complete_recovery_operation-Booked new_id i token now db b
operation_completed-Booked new_id i now none normal db b =
    seq_cas_Booked i _ _ (record { id = λ r. refl; account_id = λ r. refl; rental_id = λ r. refl })
      db b _
      λ done d kept.
        when_claimed-Booked d kept done i _ (complete_operation_row-Booked d kept new_id now)

pub operation_failed-Booked :
    (i now : ℕ) (recovery normal : Option ℕ) (db : Db)
    → Booked db
    → KeepsBooked (operation_failed i now recovery normal db)
unfolding operation_failed
operation_failed-Booked i now (some token) normal db b =
    fail_recovery_operation-Booked i token now db b
operation_failed-Booked i now none normal db b =
    seq_cas_Booked i _ _ (record { id = λ r. refl; account_id = λ r. refl; rental_id = λ r. refl })
      db b _
      λ done d kept.
        when_claimed-Booked d kept done i _ (λ op there. fail_operation_row-Booked d kept op now)
