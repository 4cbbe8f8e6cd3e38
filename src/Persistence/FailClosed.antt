-- ===== src/Persistence/FailClosed.antt =====
-- A failed operation leaves its account and its rental in manual review, whoever reports the
-- failure.
use mathlib.Core.Path.{subst}
use war_thunder_rent_bot.Prelude.{
  ℕ, ◌≡◌, ◌∙◌, refl, sym, ap, Bool, true, false, Option, none, some, arith,
}
use war_thunder_rent_bot.Domain.States.{
  AccountStatus, RentalStatus, OperationStatus, status_beq_iff, status_eq,
}
use war_thunder_rent_bot.Table.{get}
use war_thunder_rent_bot.Table.Laws.{key-get}
use war_thunder_rent_bot.Persistence.Rows.{AccountRow, RentalRow, OperationRow}
use war_thunder_rent_bot.Persistence.Session.{
  Db, ok, account_of, rental_of, operation_of, optional, assertion,
}
use war_thunder_rent_bot.Persistence.Session.Laws.{
  HasKeys, with_operation, HasKeys-with_operation, account_of-with_account_self,
  rental_of-with_rental_self, operation_of-with_operation_self,
}
use war_thunder_rent_bot.Persistence.Session.Post.{
  Post, Post-ok, Post-map, returns, seq, seq_some, seq_cas_operation,
}
use war_thunder_rent_bot.Persistence.Booking.Failure.{was_account}
use war_thunder_rent_bot.Persistence.Repository.Internal.Laws.{moved, moved_rental}
use war_thunder_rent_bot.Persistence.Repository.Internal.Rules.{
  seq_transition_row, seq_transition_rental, seq_audit,
}
use war_thunder_rent_bot.Persistence.Repository.Completion.{
  quarantine_account, quarantine_rental, quarantine, fail_operation_row, when_claimed,
  fail_recovery_operation, operation_failed,
}

-- Whatever account has this id is in manual review.
abbrev pub HeldAccount : ℕ → Db → Type 0
HeldAccount i d =
    (a : AccountRow) → account_of d i ≡ some a → a.status ≡ AccountStatus.manual_review

abbrev pub HeldRental : Option ℕ → Db → Type 0
HeldRental i d =
    (x : RentalRow) → optional (rental_of d) i ≡ some x → x.status ≡ RentalStatus.manual_review

module _ (db : Db) (k : HasKeys db) (now : ℕ) where
  account_Held :
      (i : ℕ) (account : Option AccountRow)
      → account_of db i ≡ account
      → Post
          (λ _ d. HeldAccount i d × (d.rentals ≡ db.rentals) × (d.operations ≡ db.operations))
          (quarantine_account account now db)
  unfolding quarantine_account
  account_Held i none found = returns (λ a h. ground (arith, found, h), refl, refl)
  account_Held i (some a) found =
      seq_transition_row _ a AccountStatus.manual_review now db k (was_account db i a found)
        λ legal. returns (
          λ s h. ground (
            arith,
            h,
            account_of-with_account_self (moved a AccountStatus.manual_review now) db
                (key-get (λ q. q.id) i db.accounts found) found,
          ),
          refl,
          refl,
        )

module _ (db : Db) (now : ℕ) where
  rental_Held :
      (i : Option ℕ) (rental : Option RentalRow)
      → optional (rental_of db) i ≡ rental
      → Post
          (λ _ d. HeldRental i d × (d.accounts ≡ db.accounts) × (d.operations ≡ db.operations))
          (quarantine_rental rental now db)
  unfolding quarantine_rental
  rental_Held i none found = returns (λ x h. ground (arith, found, h), refl, refl)
  rental_Held none (some x) found = absurd (ground (arith, found))
  rental_Held (some i) (some x) found =
      seq_transition_rental _ x RentalStatus.manual_review now db λ legal. returns (
        λ s h. ground (
          arith,
          h,
          rental_of-with_rental_self (moved_rental x RentalStatus.manual_review now) db
              (key-get (λ q. q.id) i db.rentals found) found,
        ),
        refl,
        refl,
      )

abbrev Held : OperationRow → Db → Bool → Db → Type 0
Held op db done d =
    HeldAccount op.account_id d
    × HeldRental op.rental_id d
    × (d.operations ≡ db.operations)
    × (done ≡ true)

fail_operation_row-Held :
    (op : OperationRow) (now : ℕ) (db : Db)
    → HasKeys db
    → Post (Held op db) (fail_operation_row op now db)
unfolding fail_operation_row quarantine
fail_operation_row-Held op now db k =
    seq _
      (seq _ (account_Held db k now op.account_id (account_of db op.account_id) refl) λ u d one.
        Post-map
          (rental_Held d now op.rental_id (optional (rental_of db) op.rental_id)
            (ap (λ rows. optional (λ j. get (λ q. q.id) j rows) op.rental_id) one.1))
          λ v e two. (
            λ a h. one.0 a (subst (λ rows. get (λ q. q.id) op.account_id rows ≡ some a) two.1 h),
            two.0,
            two.2 ∙ one.2,
            refl,
          ))
      λ u d held. seq_audit _ _ _ _ _ now d (returns held)

-- The operation's row, its account and its rental after a failure that was accepted.
pub data FailedClosed (i : ℕ) (db d : Db) : Type 0 where
  failed_closed :
      (was now : OperationRow)
      → operation_of db i ≡ some was
      → was.status ≡ OperationStatus.running
      → operation_of d i ≡ some now
      → now.status ≡ OperationStatus.failed
      → HeldAccount was.account_id d
      → HeldRental was.rental_id d
      → FailedClosed i db d

abbrev pub Failure : ℕ → Db → Bool → Db → Type 0
Failure i db true d = FailedClosed i db d
Failure i db false d = d ≡ db

module _ (i now : ℕ) (db : Db) (k : HasKeys db) where
  -- after the conditional update hit
  after_claim :
      (was op : OperationRow)
      → operation_of db i ≡ some was
      → was.status ≡ OperationStatus.running
      → op.status ≡ OperationStatus.failed
      → op.id ≡ was.id
      → op.account_id ≡ was.account_id
      → op.rental_id ≡ was.rental_id
      → Post
          (Failure i db)
          (when_claimed true i (λ o. fail_operation_row o now) (with_operation op db))
  unfolding when_claimed
  after_claim was op found running failed eid ea er =
      let there =
        operation_of-with_operation_self op db (eid ∙ key-get (λ q. q.id) i db.operations found)
          found in
      seq_some _ (operation_of (with_operation op db) i) assertion (with_operation op db)
        λ row read.
          let same : row ≡ op = ground (arith, read, there) in
          Post-map
            (fail_operation_row-Held row now (with_operation op db)
              (HasKeys-with_operation op db k))
            λ done d held.
              subst (λ b. Failure i db b d) (sym held.3)
                (failed_closed was op found running
                  (subst (λ rows. get (λ q. q.id) i rows ≡ some op) (sym held.2) there) failed
                  (subst (λ n. HeldAccount n d) (ap (λ o. o.account_id) same ∙ ea) held.0)
                  (subst (λ n. HeldRental n d) (ap (λ o. o.rental_id) same ∙ er) held.1))

  fail_recovery-Failure : (token : ℕ) → Post (Failure i db) (fail_recovery_operation i token now db)
  unfolding fail_recovery_operation
  fail_recovery-Failure token =
      seq_cas_operation _ i _ _ db k (λ r. refl)
        (λ r found e.
          after_claim r _ found (ground (arith, e, status_beq_iff r.status OperationStatus.running))
            refl refl refl refl)
        (λ miss. returns refl)

  failed-Failure :
      (recovery normal : Option ℕ) → Post (Failure i db) (operation_failed i now recovery normal db)
  unfolding operation_failed when_claimed
  failed-Failure (some token) normal = fail_recovery-Failure token
  failed-Failure none normal =
      seq_cas_operation _ i _ _ db k (λ r. refl)
        (λ r found e.
          after_claim r _ found (ground (arith, e, status_beq_iff r.status OperationStatus.running))
            refl refl refl refl)
        (λ miss. returns refl)

-- Where keys are unique, an answer of `operation_failed` says what happened. If it is true, the
-- operation was running and is failed, and its account and its rental, where they exist, are in
-- manual review. If it is false, nothing has changed.
pub operation_failed_lem :
    (i now : ℕ) (recovery normal : Option ℕ) (db : Db)
    → HasKeys db
    → (done : Bool) (db' : Db) → operation_failed i now recovery normal db ≡ ok (done, db')
    → Failure i db done db'
operation_failed_lem i now recovery normal db k done db' h =
    Post-ok (failed-Failure i now db k recovery normal) h
