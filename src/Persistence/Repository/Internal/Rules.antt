-- ===== src/Persistence/Repository/Internal/Rules.antt =====
-- The rules of `Post` for the private helpers, in a `do` block and at its end.
use war_thunder_rent_bot.Prelude.{
  ℕ, is_none, ◌≡◌, true, Bool-cases, Option, none, some, inl, inr, false,
}
use war_thunder_rent_bot.Domain.States.{AccountStatus, RentalStatus, OperationKind}
use war_thunder_rent_bot.Domain.Transitions.{account_transition, rental_transition}
use war_thunder_rent_bot.Persistence.Rows.{AccountRow, RentalRow, AuditType, Correlation}
use war_thunder_rent_bot.Persistence.Session.{
  Db, Result, ok, err, account_of, rental_of, operation_of,
}
use war_thunder_rent_bot.Persistence.Session.Laws.{HasKeys, with_account, with_rental}
use war_thunder_rent_bot.Persistence.Session.Post.{Post, returns, raises}
use war_thunder_rent_bot.Persistence.Repository.Internal.{
  add_operation, audit, transition_row, transition_rental,
}
use war_thunder_rent_bot.Persistence.Repository.Internal.Laws.{
  moved, moved_rental, with_audit, audit_row, with_new_operation, new_operation, transition_row_lem,
  transition_rental_lem, audit_cases, add_operation_cases,
}

module _ {B : Type 0} {Q : B → Db → Type 0} where
  pub seq_transition_row :
      (f : AccountRow → Db → Result (B × Db)) (account : AccountRow) (target : AccountStatus)
      (now : ℕ) (db : Db)
      → HasKeys db
      → account_of db account.id ≡ some account
      → (account_transition account.status target ≡ true
          → Post Q (f (moved account target now) (with_account (moved account target now) db)))
      → Post Q
          (elim (transition_row account target now db) [ ok (a, db') ↦ f a db' | err x ↦ err x ])
  seq_transition_row f account target now db k found next =
      rw (transition_row_lem account target now db k found)
        (elim (Bool-cases (account_transition account.status target)) [
          | inl legal ↦ rw legal (next legal)
          | inr illegal ↦ rw illegal raises
        ])

  pub seq_transition_rental :
      (f : RentalRow → Db → Result (B × Db)) (rental : RentalRow) (target : RentalStatus) (now : ℕ)
      (db : Db)
      → (rental_transition rental.status target ≡ true
          → Post Q (
              f (moved_rental rental target now) (with_rental (moved_rental rental target now) db)))
      → Post Q
          (elim (transition_rental rental target now db) [ ok (a, db') ↦ f a db' | err x ↦ err x ])
  seq_transition_rental f rental target now db next =
      rw (transition_rental_lem rental target now db)
        (elim (Bool-cases (rental_transition rental.status target)) [
          | inl legal ↦ rw legal (next legal)
          | inr illegal ↦ rw illegal raises
        ])

  module _ (f : Unit → Db → Result (B × Db)) where
    pub seq_audit :
        (t : AuditType) (a r : Option ℕ) (c : Correlation) (now : ℕ) (db : Db)
        → Post Q (f tt (with_audit (audit_row t a r c now) db))
        → Post Q (elim (audit t a r c now db) [ ok (u, db') ↦ f u db' | err x ↦ err x ])
    seq_audit t a r c now db next = elim (audit_cases t a r c now db) [
      | inl eq ↦ rw eq next
      | inr eq ↦ rw eq raises
    ]

    pub seq_add_operation :
        (new_id : ℕ) (kind : OperationKind) (account_id rental_id now : ℕ) (db : Db)
        → (operation_of db new_id ≡ none
            → is_none (rental_of db rental_id) ≡ false
            → Post Q
                (f tt (with_new_operation (new_operation new_id kind account_id rental_id now) db)))
        → Post Q (elim (add_operation new_id kind account_id rental_id now db) [
          | ok (u, db') ↦ f u db'
          | err x ↦ err x
        ])
    seq_add_operation new_id kind account_id rental_id now db next =
        elim (add_operation_cases new_id kind account_id rental_id now db) [
          | inl (fresh, known, eq) ↦ rw eq (next fresh known)
          | inr eq ↦ rw eq raises
        ]

module _ {Q : Unit → Db → Type 0} where
  pub last_audit :
      (t : AuditType) (a r : Option ℕ) (c : Correlation) (now : ℕ) (db : Db)
      → Q tt (with_audit (audit_row t a r c now) db)
      → Post Q (audit t a r c now db)
  last_audit t a r c now db next = elim (audit_cases t a r c now db) [
    | inl eq ↦ rw eq (returns next)
    | inr eq ↦ rw eq raises
  ]

  pub last_add_operation :
      (new_id : ℕ) (kind : OperationKind) (account_id rental_id now : ℕ) (db : Db)
      → (operation_of db new_id ≡ none
          → is_none (rental_of db rental_id) ≡ false
          → Q tt (with_new_operation (new_operation new_id kind account_id rental_id now) db))
      → Post Q (add_operation new_id kind account_id rental_id now db)
  last_add_operation new_id kind account_id rental_id now db next =
      elim (add_operation_cases new_id kind account_id rental_id now db) [
        | inl (fresh, known, eq) ↦ rw eq (returns (next fresh known))
        | inr eq ↦ rw eq raises
      ]
